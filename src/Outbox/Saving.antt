-- ===== src/Outbox/Saving.antt =====
-- What becomes of an event that was handed in.
use algo_guard.Prelude.{
  ℕ, zero, suc, ◌+◌, ◌-◌, ◌≤◌, ◌<◌, ◌≡◌, refl, ap, ◌∙◌, true, false, ◌&&◌, Option, none, some, List,
  [], ◌∷◌, ◌++◌, String, arith, length, length-append, drop, str_eq_iff, eq_of_some-eq, if_elim,
  subst, ◌⊎◌, inl, inr, ℕ_discrete, leb,
}
use algo_guard.Prelude.Dict.{Dict, get, has, remove, has-remove, get-put}
use algo_guard.Outbox.State.{
  Host, Item, Memory, Outbox, Reply, in_memory, dropped_for, rejected_for, drop_event, bounded_put,
  tracked_outcomes, session_limit, reserved,
}
use algo_guard.Outbox.Spool.{Row}
use algo_guard.Outbox.Handoff.{
  accept, same_memory, memory_of, submit_new, submit_answer, submit_item,
}
use algo_guard.Outbox.Writer.{
  Disk, Outcome, write_from, conclude, outcome, find_row, same_identity, stored, known, conflict,
  failed, forget, release, stop_saving, row_of,
}

module _ {V : Type 0} where
  get-drop_last :
      (n : ℕ) (k : ℕ) (v : V) (d : Dict ℕ V)
      → n ≤ length d
      → has ℕ_discrete k d ≡ false
      → get ℕ_discrete k (drop n (d ++ (k, v) ∷ [])) ≡ some v
  unfolding get has
  get-drop_last zero k v [] h a = ground arith
  get-drop_last zero k v ((j, w) ∷ d) h a = ground (arith, get-drop_last zero k v d)
  get-drop_last (suc n) k v [] h a = absurd (omega arith)
  get-drop_last (suc n) k v ((j, w) ∷ d) h a = ground (arith, get-drop_last n k v d)

  -- The newest entry of a bounded table is there.
  get-bounded_put :
      (limit k : ℕ) (v : V) (d : Dict ℕ V)
      → 0 < limit
      → get ℕ_discrete k (bounded_put ℕ_discrete limit k v d) ≡ some v
  unfolding bounded_put
  get-bounded_put limit k v d pos =
      let rest = remove ℕ_discrete k d in
      get-drop_last (length (rest ++ (k, v) ∷ []) - limit) k v rest
        (omega (arith, length-append rest ((k, v) ∷ [])))
        (ground (arith, has-remove ℕ_discrete k k d))

-- The event is in the spool as it was handed in.
abbrev pub IsSaved : Host → Item → Outbox → Type 0
IsSaved host item o =
    (r : Row) × (find_row item.event_id o.events ≡ some r) × (same_identity host item r ≡ true)

-- The event is counted as dropped, and its loss is on record.
abbrev pub IsLost : Item → Outbox → Outbox → Type 0
IsLost item o o' =
    (why : String) × (get ℕ_discrete item.event_id o'.lost ≡ some why)
    × (o'.dropped ≡ o.dropped + 1)

drop_event-IsLost :
    (item : Item) (session why : String) (o : Outbox)
    → IsLost item o (drop_event item.event_id session why o)
unfolding drop_event
drop_event-IsLost item session why o =
    (why, get-bounded_put tracked_outcomes item.event_id why o.lost (omega arith), refl)

find_row-append :
    (uuid : ℕ) (rows : List Row) (r : Row)
    → find_row uuid rows ≡ none
    → r.event_uuid ≡ uuid
    → find_row uuid (rows ++ r ∷ []) ≡ some r
unfolding find_row
find_row-append uuid [] r n e = ground arith
find_row-append uuid (s ∷ rows) r n e = ground (arith, find_row-append uuid rows r)

row_of-identity : (host : Host) (item : Item) → same_identity host item (row_of host item) ≡ true
unfolding same_identity row_of
row_of-identity host item = ground (
  arith,
  str_eq_iff item.session_id item.session_id,
  str_eq_iff (host.sha256 item.payload) (host.sha256 item.payload),
)

outcome-stored :
    (host : Host) (d : Disk) (item : Item) (o : Outbox)
    → outcome host d item o ≡ stored
    → find_row item.event_id o.events ≡ none
unfolding outcome
outcome-stored host d item o h = ground arith

outcome-known :
    (host : Host) (d : Disk) (item : Item) (o : Outbox)
    → outcome host d item o ≡ known
    → IsSaved host item o
unfolding outcome
outcome-known host d item o h = ground arith

-- The rows that the spool had stay as they are, and at most the event's own row follows them.
abbrev pub Extends : Host → Item → Outbox → Outbox → Type 0
Extends host item o o' = (o'.events ≡ o.events) ⊎ (o'.events ≡ o.events ++ row_of host item ∷ [])

abbrev Fate : Host → Item → Outbox → Outbox → Type 0
Fate host item o o' = (IsSaved host item o' ⊎ IsLost item o o') × Extends host item o o'

stored-Fate :
    (host : Host) (item : Item) (o o' : Outbox)
    → find_row item.event_id o.events ≡ none
    → conclude host item o stored ≡ some o'
    → Fate host item o o'
unfolding conclude
stored-Fate host item o o' absent h =
    let row = row_of host item in
    let added : o'.events ≡ o.events ++ row ∷ [] = ground arith in
    let found = find_row-append item.event_id o.events row absent (unfold row_of in refl) in
    (inl (row, rw added found, row_of-identity host item), inr added)

known-Fate :
    (host : Host) (item : Item) (o o' : Outbox)
    → IsSaved host item o
    → conclude host item o known ≡ some o'
    → Fate host item o o'
unfolding conclude
known-Fate host item o o' (r, e, same) h = (inl (r, ground arith, same), inl (ground arith))

-- After the failing ends, what `_drop_locked` does to a state with the same spool.
lost-Fate :
    (host : Host) (item : Item) (why : String) (o m o' : Outbox)
    → m.dropped ≡ o.dropped
    → m.events ≡ o.events
    → drop_event item.event_id item.session_id why m ≡ o'
    → Fate host item o o'
lost-Fate host item why o m o' n e h =
    let lost = drop_event-IsLost item item.session_id why m in
    let same : (drop_event item.event_id item.session_id why m).events ≡ o.events =
      unfold drop_event in e in
    subst (Fate host item o) h (inr (lost.0, lost.1, lost.2 ∙ ap (λ k. k + 1) n), inl same)

conclude-Fate :
    (host : Host) (item : Item) (o o' : Outbox) (end : Outcome)
    → (end ≡ stored → find_row item.event_id o.events ≡ none)
    → (end ≡ known → IsSaved host item o)
    → conclude host item o end ≡ some o'
    → Fate host item o o'
unfolding conclude
conclude-Fate host item o o' stored s k h = stored-Fate host item o o' (s refl) h
conclude-Fate host item o o' known s k h = known-Fate host item o o' (k refl) h
conclude-Fate host item o o' conflict s k h =
    lost-Fate host item "identity_conflict" o (forget item (release item 1 o)) o' (ground arith)
      (ground arith) (eq_of_some-eq h)
conclude-Fate host item o o' (failed reason) s k h =
    lost-Fate host item "storage" o (forget item (release item 1 (stop_saving reason o))) o'
      (ground arith) (ground arith) (eq_of_some-eq h)

-- Whatever the disk does, an event that the writer takes off the queue is afterwards in the spool
-- under its identity and payload hash, or counted as dropped with its loss on record; the rows
-- that were there stay as they were, and at most the event's row is added.
pub write_from-Fate :
    (host : Host) (d : Disk) (item : Item) (rest : List Item) (o o' : Outbox)
    → write_from host d o (item ∷ rest) ≡ some o'
    → (IsSaved host item o' ⊎ IsLost item o o') × Extends host item o o'
unfolding write_from
write_from-Fate host d item rest o o' h =
    let t = record o { queue = rest } in
    conclude-Fate host item t o' (outcome host d item t) (outcome-stored host d item t)
      (outcome-known host d item t) h

-- What is held in memory is the event: its user, its node and its payload.
abbrev pub IsHeld : Item → Memory → Type 0
IsHeld item m =
    (m.user_id ≡ item.owner.user_id) × (m.node_id ≡ item.owner.node_id) × (m.payload ≡ item.payload)

-- What `submit_item` answers is what it did: `in_memory` means that what is held in memory under
-- the event's UUID is this event, its user, node and payload, and that nothing changed or that the
-- event went to the end of the queue; a drop means that its loss is counted and on record and the
-- queue and the memory are as they were; a refusal means that nothing changed.
abbrev pub Answers : Item → Outbox → Reply × Outbox → Type 0
Answers item o (in_memory, o') =
    ((m : Memory) × (get ℕ_discrete item.event_id o'.memory_status ≡ some m) × IsHeld item m)
    × ((o' ≡ o) ⊎ (o'.queue ≡ o.queue ++ item ∷ []))
Answers item o (dropped_for why, o') =
    (get ℕ_discrete item.event_id o'.lost ≡ some why)
    × (o'.dropped ≡ o.dropped + 1)
    × (o'.queue ≡ o.queue)
    × (o'.memory_status ≡ o.memory_status)
Answers item o (rejected_for why, o') = o' ≡ o

dropped-Answers :
    (item : Item) (o : Outbox) (why : String)
    → Answers item o (dropped_for why, drop_event item.event_id item.session_id why o)
unfolding drop_event
dropped-Answers item o why =
    (get-bounded_put tracked_outcomes item.event_id why o.lost (omega arith), refl, refl, refl)

accept-Answers : (item : Item) (o : Outbox) → Answers item o (in_memory, accept item o)
unfolding accept
accept-Answers item o = (
  (
    memory_of item,
    ground (arith, get-put ℕ_discrete item.event_id item.event_id (memory_of item) o.memory_status),
    (refl, refl, refl),
  ),
  inr refl,
)

same_memory-IsHeld : (item : Item) (m : Memory) → same_memory item m ≡ true → IsHeld item m
unfolding same_memory
same_memory-IsHeld item m h =
    let same = str_eq_iff m.payload item.payload in
    (ground (arith, same), ground (arith, same), ground (arith, same))

submit_new-Answers : (item : Item) (o : Outbox) → Answers item o (submit_new item o)
unfolding submit_new
submit_new-Answers item o =
    if_elim (Answers item o) o.disk_failed (λ _. dropped-Answers item o "storage")
      λ _.
        if_elim (Answers item o) (item.capped && leb session_limit (reserved item.session_id o))
          (λ _. dropped-Answers item o "session_cap")
          λ _.
            if_elim (Answers item o) (leb o.max_queue (length o.queue))
              (λ _. dropped-Answers item o "handoff_full") (λ _. accept-Answers item o)

submit_answer-Answers :
    (item : Item) (o : Outbox) (held : Option Memory)
    → get ℕ_discrete item.event_id o.memory_status ≡ held
    → Answers item o (submit_answer item o held)
unfolding submit_answer
submit_answer-Answers item o none e = submit_new-Answers item o
submit_answer-Answers item o (some m) e =
    if_elim (Answers item o) (same_memory item m)
      (λ same. ((m, e, same_memory-IsHeld item m same), inl refl)) (λ _. refl)

pub submit_item-Answers : (item : Item) (o : Outbox) → Answers item o (submit_item item o)
unfolding submit_item
submit_item-Answers item o = submit_answer-Answers item o _ refl
