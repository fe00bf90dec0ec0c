-- ===== src/Outbox/Spool.antt =====
-- The `event` table of the spool and what the upload side does to it: `pending`, `acknowledge`,
-- `reject`, `counts`, `export_pending`. A table is the list of its rows in the order of their
-- rowids. A UUID is the number that it spells: their canonical texts are ordered as the numbers.
-- Times are whole microseconds.
use algo_guard.Prelude.{
  ℕ, ◌*◌, Bool, true, false, ◌&&◌, ◌||◌, not, Option, some, List, [], ◌∷◌, min, String, ltb, leb,
  ◌==◌, if◌then◌else◌, take, count_if,
}

-- The three states of a row.
pub data Status : Type 0 where
  pending synced rejected : Status

abbrev pub is_pending : Status → Bool
is_pending pending = true
is_pending synced = false
is_pending rejected = false

abbrev pub is_synced : Status → Bool
is_synced pending = false
is_synced synced = true
is_synced rejected = false

abbrev pub is_rejected : Status → Bool
is_rejected pending = false
is_rejected synced = false
is_rejected rejected = true

-- What the cloud committed for one event.
pub record Receipt : Type 0 where
  pub event_uuid : ℕ
  pub prediction_id : ℕ
  pub alert_id : Option ℕ

-- `_owner(context)`
pub record Owner : Type 0 where
  pub user_id : ℕ
  pub profile_id : ℕ
  pub node_id : ℕ

pub record Row : Type 0 where
  pub event_uuid : ℕ
  pub owner : Owner
  pub session_id : String
  pub deployment_id : ℕ
  pub created_at : ℕ
  pub payload : String
  pub status : Status
  pub reason : Option String
  pub receipt : Option Receipt
  pub payload_hash : String

abbrev pub batch_limit : ℕ
batch_limit = 50

abbrev pub pending_limit : ℕ
pending_limit = 10 * batch_limit

abbrev pub same_owner : Owner → Owner → Bool
same_owner c o = c.user_id == o.user_id && (c.profile_id == o.profile_id && c.node_id == o.node_id)

-- A table after `update event set … where …`, and after `delete from event where …`.
unfoldable pub update_where {ℓ} : {A : Type ℓ} → (A → Bool) → (A → A) → List A → List A
update_where test set [] = []
update_where test set (r ∷ rows) = (if test r then set r else r) ∷ update_where test set rows

unfoldable pub delete_where {ℓ} : {A : Type ℓ} → (A → Bool) → List A → List A
delete_where test [] = []
delete_where test (r ∷ rows) =
    let rest = delete_where test rows in if test r then rest else r ∷ rest

unfoldable pub select_where {ℓ} : {A : Type ℓ} → (A → Bool) → List A → List A
select_where test [] = []
select_where test (r ∷ rows) =
    let rest = select_where test rows in if test r then r ∷ rest else rest

-- order by created_at, event_uuid
unfoldable pub before : Row → Row → Bool
before r s =
    ltb r.created_at s.created_at || (r.created_at == s.created_at && leb r.event_uuid s.event_uuid)

unfoldable pub insert_by {ℓ} : {A : Type ℓ} → (A → A → Bool) → A → List A → List A
insert_by le r [] = r ∷ []
insert_by le r (s ∷ rows) = if le r s then r ∷ s ∷ rows else s ∷ insert_by le r rows

unfoldable pub sort_by {ℓ} : {A : Type ℓ} → (A → A → Bool) → List A → List A
unfolding insert_by
sort_by le [] = []
sort_by le (r ∷ rows) = insert_by le r (sort_by le rows)

unfoldable pub waits_for : Owner → Row → Bool
waits_for c r = same_owner c r.owner && is_pending r.status

-- pending(context, limit)
unfoldable pub pending_rows : Owner → ℕ → List Row → List Row
unfolding select_where sort_by before waits_for
pending_rows c limit rows =
    take (min limit pending_limit) (sort_by before (select_where (waits_for c) rows))

unfoldable pub names : ℕ → Owner → Row → Bool
unfolding waits_for
names uuid c r = uuid == r.event_uuid && waits_for c r

unfoldable pub sync_row : Receipt → Row → Row
sync_row receipt r = record r { status = synced; payload = "{}"; receipt = some receipt }

-- acknowledge(context, receipts)
unfoldable pub acknowledge : Owner → List Receipt → List Row → List Row
unfolding update_where names sync_row
acknowledge c [] rows = rows
acknowledge c (receipt ∷ receipts) rows =
    acknowledge c receipts (update_where (names receipt.event_uuid c) (sync_row receipt) rows)

unfoldable pub reject_row : String → Row → Row
reject_row why r = record r { status = rejected; reason = some why }

-- reject(context, events, reason), the events by their UUIDs
unfoldable pub reject : Owner → List ℕ → String → List Row → List Row
unfolding update_where names reject_row
reject c [] why rows = rows
reject c (uuid ∷ uuids) why rows =
    reject c uuids why (update_where (names uuid c) (reject_row why) rows)

abbrev pub same_station : Owner → Row → Bool
same_station c r = c.user_id == r.owner.user_id && c.node_id == r.owner.node_id

-- The rows of `counts` and of `export_pending`.
unfoldable pub count_status : Owner → (Status → Bool) → List Row → ℕ
count_status c test rows = count_if (λ r. same_station c r && test r.status) rows

by_time : Row → Row → Bool
by_time r s = leb r.created_at s.created_at

unfoldable pub export_pending : Owner → List Row → List Row
unfolding select_where sort_by by_time
export_pending c rows =
    sort_by by_time (select_where (λ r. same_station c r && not (is_synced r.status)) rows)
