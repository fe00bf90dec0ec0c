-- ===== src/Outbox/Writing.antt =====
-- The invariant of the handoff over a turn of the writer.
use algo_guard.Prelude.{
  ℕ, ◌+◌, ◌-◌, ◌≤◌, ◌≡◌, refl, sym, ap, subst, ◌∙◌, true, some, List, [], ◌∷◌, String, arith,
  length, count_if, str_eq_iff, Bool-cases, inl, inr, map, String-discrete, ℕ_discrete,
  if◌then◌else◌,
}
use algo_guard.Prelude.Dict.{Dict, has, remove, Unique, has-false-get, remove_absent}
use algo_guard.Outbox.State.{Host, Item, Memory, Outbox, get_or, reserved}
use algo_guard.Outbox.Writer.{
  Disk, Outcome, conclude, write_next, write_from, outcome, stored, known, conflict, failed, forget,
  release, stop_saving,
}
use algo_guard.Outbox.Queued.{Inv, keys_of, slots, holds_slot, drop_event-Inv, reserved-put}

slots-cons :
    (s : String) (item : Item) (rest : List Item)
    → slots s (item ∷ rest) ≡ slots s rest + (if holds_slot s item then 1 else 0)
unfolding slots count_if
slots-cons s item rest = ground arith

-- The state once the writer has taken `item` off the queue and is done with it.
module _ (item : Item) (rest : List Item) (o : Outbox) (head : o.queue ≡ item ∷ rest)
    (v : Inv o) where
  memory_rest :
      (keys_of (remove ℕ_discrete item.event_id o.memory_status) ≡ map (λ i. i.event_id) rest)
      × Unique ℕ_discrete (remove ℕ_discrete item.event_id o.memory_status)
  unfolding remove
  memory_rest = go o.memory_status (v.in_queue ∙ ap (map (λ i. i.event_id)) head) v.once
    where
      go :
          (d : Dict ℕ Memory)
          → keys_of d ≡ item.event_id ∷ map (λ i. i.event_id) rest
          → Unique ℕ_discrete d
          → (keys_of (remove ℕ_discrete item.event_id d) ≡ map (λ i. i.event_id) rest)
            × Unique ℕ_discrete (remove ℕ_discrete item.event_id d)
      go [] e u = cc
      go ((k, m) ∷ d) e u = ground (arith, e, remove_absent ℕ_discrete k d)

  settled-Inv :
      (o' : Outbox)
      → o'.queue ≡ rest
      → o'.memory_status ≡ remove ℕ_discrete item.event_id o.memory_status
      → o'.max_queue ≡ o.max_queue
      → ((s : String) → reserved s o' ≤ reserved s o)
      → ((s : String) → reserved s o ≤ reserved s o' + (if holds_slot s item then 1 else 0))
      → Inv o'
  settled-Inv o' q m n less more = record {
    in_queue = rw (q, m) memory_rest.0;
    once = rw m memory_rest.1;
    bounded = omega (arith, ap length q, ap length head, v.bounded);
    capped = λ s. omega (arith, less s, v.capped s);
    held = λ s.
        ground (arith, more s, v.held s, ap (slots s) q, ap (slots s) head, slots-cons s item rest);
  }

  abbrev taken : Outbox
  taken = record o { queue = rest }

  release-less :
      (missing : ℕ) (s : String)
      → missing ≤ 1
      → reserved s (release item missing taken) ≤ reserved s o
  unfolding release get_or
  release-less missing s h = ground (
    arith,
    reserved-put item.session_id s
        (get_or String-discrete item.session_id missing o.reservations - 1) o.reservations,
    str_eq_iff item.session_id s,
  )

  release-more :
      (missing : ℕ) (s : String)
      → reserved s o
        ≤ reserved s (release item missing taken) + (if holds_slot s item then 1 else 0)
  unfolding release get_or
  release-more missing s = ground (
    arith,
    reserved-put item.session_id s
        (get_or String-discrete item.session_id missing o.reservations - 1) o.reservations,
    str_eq_iff item.session_id s,
  )

  released-Inv :
      (missing : ℕ) (h : missing ≤ 1) (o' : Outbox)
      → o'.queue ≡ rest
      → o'.memory_status ≡ remove ℕ_discrete item.event_id o.memory_status
      → o'.max_queue ≡ o.max_queue
      → o'.reservations ≡ (release item missing taken).reservations
      → Inv o'
  released-Inv missing h o' q m n r =
      settled-Inv o' q m n
        (λ s.
          subst (λ (d : Dict String ℕ). get_or String-discrete s 0 d ≤ reserved s o) (sym r)
            (release-less missing s h))
        (λ s.
          subst
            (λ (d : Dict String ℕ).
              reserved s o ≤ get_or String-discrete s 0 d + (if holds_slot s item then 1 else 0))
            (sym r) (release-more missing s))

  -- The session of a queued event that holds a slot has its count.
  slot_counted : item.capped ≡ true → has String-discrete item.session_id o.reservations ≡ true
  slot_counted c = elim (Bool-cases (has String-discrete item.session_id o.reservations)) [
    | inl h ↦ h
    | inr h ↦
        let none_there = has-false-get String-discrete item.session_id o.reservations h in
        let empty : reserved item.session_id o ≡ 0 = unfold get_or in ground arith in
        absurd (
          ground (
            arith,
            v.held item.session_id,
            ap (slots item.session_id) head,
            slots-cons item.session_id item rest,
            str_eq_iff item.session_id item.session_id,
          ))
  ]

  conclude-Inv :
      (host : Host) (e : Outcome) → (o' : Outbox) × (conclude host item taken e ≡ some o') × Inv o'
  unfolding conclude
  conclude-Inv host stored =
      (_, refl, settled-Inv _ refl refl refl (λ s. omega arith) (λ s. omega arith))
  conclude-Inv host known = elim (Bool-cases item.capped) [
    | inl c ↦ (
      forget item (release item 0 taken),
      ground (arith, slot_counted c),
      released-Inv 0 (omega arith) _ (ground arith) (ground arith) (ground arith) refl,
    )
    | inr c ↦ (
      forget item (release item 0 taken),
      ground arith,
      released-Inv 0 (omega arith) _ (ground arith) (ground arith) (ground arith) refl,
    )
  ]
  conclude-Inv host conflict = (
    _,
    refl,
    drop_event-Inv item.event_id item.session_id "identity_conflict" _ (
        released-Inv 1 (omega arith) (forget item (release item 1 taken)) (ground arith)
          (ground arith) (ground arith) refl),
  )
  conclude-Inv host (failed reason) = (
    _,
    refl,
    drop_event-Inv item.event_id item.session_id "storage" _ (
        released-Inv 1 (omega arith) (forget item (release item 1 (stop_saving reason taken)))
          (ground arith) (ground arith) (ground arith) (ground arith)),
  )

write_from-Inv :
    (host : Host) (d : Disk) (o : Outbox) (queue : List Item)
    → o.queue ≡ queue
    → Inv o
    → (o' : Outbox) × (write_from host d o queue ≡ some o') × Inv o'
unfolding write_from
write_from-Inv host d o [] e v = (o, refl, v)
write_from-Inv host d o (item ∷ rest) e v =
    conclude-Inv item rest o e v host (outcome host d item (record o { queue = rest }))

-- In a state that keeps the invariant the writer's turn ends normally, whatever the disk does, and
-- the invariant holds again.
pub write_next-Inv :
    (host : Host) (d : Disk) (o : Outbox)
    → Inv o
    → (o' : Outbox) × (write_next host d o ≡ some o') × Inv o'
unfolding write_next
write_next-Inv host d o v = write_from-Inv host d o o.queue refl v
