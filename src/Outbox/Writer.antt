-- ===== src/Outbox/Writer.antt =====
-- The writer: `_persist` over one queue entry, and `recheck_capacity`. What the disk reports is an
-- argument.
use algo_guard.Prelude.{
  ℕ, ◌+◌, ◌-◌, ◌*◌, Bool, true, false, ◌&&◌, not, Option, none, some, List, [], ◌∷◌, ◌++◌, String,
  ltb, leb, ◌==◌, str_eq, if◌then◌else◌, String-discrete, ℕ_discrete,
}
use algo_guard.Prelude.Dict.{Dict, get, has, put, remove}
use algo_guard.Outbox.Spool.{pending, Row, same_owner}
use algo_guard.Outbox.State.{
  Host, Item, Loss, quota, disk, Reservation, Outbox, get_or, drop_event, mib,
}

-- What the disk does during one transaction of the writer: the sizes that it reports, and the
-- error that the first `select`, or else a later statement or the commit, raises. An error undoes
-- the transaction.
pub data Fault : Type 0 where
  full other : Fault

pub record Disk : Type 0 where
  pub directory_bytes : ℕ
  pub used_bytes : ℕ
  pub read_fault : Option Fault
  pub fault : Option Fault

-- How a transaction ends.
pub data Outcome : Type 0 where
  stored known : Outcome
  conflict : Outcome
  failed : Loss → Outcome

unfoldable pub find_row : ℕ → List Row → Option Row
find_row uuid [] = none
find_row uuid (r ∷ rows) = if r.event_uuid == uuid then some r else find_row uuid rows

-- The stored identity and payload hash are the item's.
unfoldable pub same_identity : Host → Item → Row → Bool
same_identity host item r =
    (same_owner r.owner item.owner
      && (str_eq r.session_id item.session_id && r.deployment_id == item.deployment_id))
    && str_eq r.payload_hash (host.sha256 item.payload)

abbrev pub loss_of : Fault → Loss
loss_of full = quota
loss_of other = disk

-- The transaction, once its first `select` has been answered.
unfoldable pub transact : Host → Disk → Item → Outbox → Outcome
unfolding find_row same_identity
transact host d item o = elim (find_row item.event_id o.events) [
  | some r ↦
      if same_identity host item r
      then elim d.fault [ none ↦ known | some f ↦ failed (loss_of f) ]
      else conflict
  | none ↦
      if ltb o.flow_budget (d.used_bytes + host.utf8_bytes item.payload * 2 + mib)
      then failed quota
      else elim d.fault [ none ↦ stored | some f ↦ failed (loss_of f) ]
]

unfoldable pub outcome : Host → Disk → Item → Outbox → Outcome
unfolding transact
outcome host d item o =
    if leb o.total_bytes d.directory_bytes
    then failed quota
    else elim d.read_fault [ none ↦ transact host d item o | some f ↦ failed (loss_of f) ]

unfoldable pub row_of : Host → Item → Row
row_of host item = record {
  event_uuid = item.event_id;
  owner = item.owner;
  session_id = item.session_id;
  deployment_id = item.deployment_id;
  created_at = item.created_at;
  payload = item.payload;
  status = pending;
  reason = none;
  receipt = none;
  payload_hash = host.sha256 item.payload;
}

-- insert into reservation … on conflict … accepted = accepted + 1
unfoldable pub save_reservation : Item → Dict String Reservation → Dict String Reservation
save_reservation item d =
    let fresh : Reservation = record { accepted = 1; created_at = item.created_at } in
    elim (get String-discrete item.session_id d) [
      | none ↦ put String-discrete item.session_id fresh d
      | some r ↦ put String-discrete item.session_id (record r { accepted = r.accepted + 1 }) d
    ]

unfoldable pub forget : Item → Outbox → Outbox
forget item o = record o { memory_status = remove ℕ_discrete item.event_id o.memory_status }

-- The slot that a capped event took is given back, at least down to 0.
unfoldable pub release : Item → ℕ → Outbox → Outbox
unfolding get_or
release item missing o =
    if item.capped
    then record o {
      reservations =
          put String-discrete item.session_id
            (get_or String-discrete item.session_id missing o.reservations - 1) o.reservations;
    }
    else o

-- `self.disk_failed = True`, and a disk loss is not overwritten by a later quota loss.
unfoldable pub stop_saving : Loss → Outbox → Outbox
stop_saving reason o = record o {
  disk_failed = true;
  loss_reason = elim o.loss_reason [ some disk ↦ some disk | _ ↦ some reason ];
}

-- What follows each end of the transaction; `none` is a KeyError, which would end the writer.
unfoldable pub conclude : Host → Item → Outbox → Outcome → Option Outbox
unfolding row_of save_reservation forget release stop_saving drop_event
conclude host item o stored = some (
    forget item (record o {
      events = o.events ++ row_of host item ∷ [];
      saved_reservations =
          if item.capped then save_reservation item o.saved_reservations else o.saved_reservations;
    }))
conclude host item o known =
    if item.capped && not (has String-discrete item.session_id o.reservations)
    then none
    else some (forget item (release item 0 o))
conclude host item o conflict =
    some (
      drop_event item.event_id item.session_id "identity_conflict" (forget item (release item 1 o)))
conclude host item o (failed reason) = some (
    drop_event item.event_id item.session_id "storage"
      (forget item (release item 1 (stop_saving reason o))))

-- _persist(item)
unfoldable pub persist : Host → Disk → Item → Outbox → Option Outbox
unfolding outcome conclude
persist host d item o = conclude host item o (outcome host d item o)

unfoldable pub write_from : Host → Disk → Outbox → List Item → Option Outbox
unfolding persist
write_from host d o [] = some o
write_from host d o (item ∷ rest) = persist host d item (record o { queue = rest })

-- One turn of the writer: the oldest entry of the queue.
unfoldable pub write_next : Host → Disk → Outbox → Option Outbox
unfolding write_from
write_next host d o = write_from host d o o.queue

-- recheck_capacity: below 80% of both limits, saving starts again after a quota stop. The
-- products by 0.8 are compared over the whole numbers.
unfoldable pub recheck_capacity : Disk → Outbox → Outbox
recheck_capacity d o =
    if o.disk_failed
    then elim o.loss_reason [
      | some quota ↦
          if ltb (10 * d.used_bytes) (8 * o.flow_budget)
            && ltb (10 * d.directory_bytes) (8 * o.total_bytes)
          then record o { disk_failed = false; loss_reason = none }
          else o
      | _ ↦ o
    ]
    else o
