-- ===== src/Outbox/Queued.antt =====
-- The invariant of the handoff, on the queue, the events in memory and the slots of the sessions.
use algo_guard.Prelude.{
  ℕ, ◌+◌, ◌≤◌, ◌<◌, ◌≡◌, refl, sym, ap, ◌∙◌, Bool, true, false, ◌&&◌, Option, none, some, List, [],
  ◌∷◌, ◌++◌, String, arith, length, length-append, count_if, count_if-append, str_eq, str_eq_iff,
  Option-cases, inl, inr, map, String-discrete, ℕ_discrete, if◌then◌else◌, if_elim, leb,
}
use algo_guard.Prelude.Dict.{Dict, get, has, put, Unique, get-put, get-none-has, Unique-put}
use algo_guard.Outbox.State.{
  Host, Item, Memory, Outbox, Reply, get_or, reserved, drop_event, session_limit, Event,
}
use algo_guard.Outbox.Spool.{Owner}
use algo_guard.Outbox.Handoff.{
  accept, submit_new, submit_answer, submit_item, submit, validate, same_memory,
}

abbrev pub keys_of : {K V : Type 0} → Dict K V → List K
keys_of = map (λ e. e.0)

-- A queued event that holds one of a session's slots.
abbrev pub holds_slot : String → Item → Bool
holds_slot session item = item.capped && str_eq item.session_id session

unfoldable pub slots : String → List Item → ℕ
slots session queue = count_if (holds_slot session) queue

pub record Inv (o : Outbox) : Type 0 where
  -- The events in memory are those in the queue, in its order.
  pub in_queue : keys_of o.memory_status ≡ map (λ i. i.event_id) o.queue
  pub once : Unique ℕ_discrete o.memory_status
  pub bounded : length o.queue ≤ o.max_queue
  -- No session has more than its slots, and each queued event that needs one has one.
  pub capped : (session : String) → reserved session o ≤ session_limit
  pub held : (session : String) → slots session o.queue ≤ reserved session o

keys-put_new :
    {V : Type 0} (k : ℕ) (v : V) (d : Dict ℕ V)
    → has ℕ_discrete k d ≡ false
    → keys_of (put ℕ_discrete k v d) ≡ keys_of d ++ k ∷ []
unfolding put has
keys-put_new k v [] h = refl
keys-put_new k v ((j, w) ∷ d) h = ground (arith, keys-put_new k v d)

pub reserved-put :
    (session s : String) (n : ℕ) (d : Dict String ℕ)
    → get_or String-discrete s 0 (put String-discrete session n d)
      ≡ (if str_eq session s then n else get_or String-discrete s 0 d)
unfolding get_or
reserved-put session s n d =
    ground (arith, get-put String-discrete session s n d, str_eq_iff session s)

slots-add :
    (session : String) (queue : List Item) (item : Item)
    → slots session (queue ++ item ∷ [])
      ≡ slots session queue + (if holds_slot session item then 1 else 0)
unfolding slots count_if
slots-add session queue item =
    ground (arith, count_if-append (holds_slot session) queue (item ∷ []))

map-append_one :
    (queue : List Item) (item : Item)
    → map (λ i. i.event_id) (queue ++ item ∷ []) ≡ map (λ i. i.event_id) queue ++ item.event_id ∷ []
map-append_one [] item = refl
map-append_one (x ∷ queue) item = ap (◌∷◌ x.event_id) (map-append_one queue item)

accept-Inv :
    (item : Item) (o : Outbox)
    → get ℕ_discrete item.event_id o.memory_status ≡ none
    → (item.capped ≡ true → reserved item.session_id o < session_limit)
    → length o.queue < o.max_queue
    → Inv o
    → Inv (accept item o)
unfolding accept
accept-Inv item o free room space v =
    let absent = get-none-has ℕ_discrete item.event_id o.memory_status free in
    record {
      in_queue =
          keys-put_new item.event_id _ o.memory_status absent
          ∙ ap (λ ks. ks ++ item.event_id ∷ []) v.in_queue
          ∙ sym (map-append_one o.queue item);
      once = Unique-put ℕ_discrete item.event_id _ o.memory_status v.once;
      bounded = omega (arith, length-append o.queue (item ∷ []));
      capped = λ s. ground (
        arith,
        v.capped s,
        reserved-put item.session_id s (reserved item.session_id o + 1) o.reservations,
      );
      held = λ s. ground (
        arith,
        v.held s,
        slots-add s o.queue item,
        str_eq_iff item.session_id s,
        reserved-put item.session_id s (reserved item.session_id o + 1) o.reservations,
      );
    }

-- The drop of an event touches neither the queue nor the slots.
pub drop_event-Inv :
    (event_id : ℕ) (session reason : String) (o : Outbox)
    → Inv o
    → Inv (drop_event event_id session reason o)
unfolding drop_event
drop_event-Inv event_id session reason o v = record {
  in_queue = v.in_queue;
  once = v.once;
  bounded = v.bounded;
  capped = v.capped;
  held = v.held;
}

submit_new-Inv :
    (item : Item) (o : Outbox)
    → get ℕ_discrete item.event_id o.memory_status ≡ none
    → Inv o
    → Inv (submit_new item o).1
unfolding submit_new
submit_new-Inv item o free v =
    if_elim (λ (r : Reply × Outbox). Inv r.1) o.disk_failed
      (λ _. drop_event-Inv item.event_id item.session_id "storage" o v)
      λ _.
        if_elim (λ (r : Reply × Outbox). Inv r.1)
          (item.capped && leb session_limit (reserved item.session_id o))
          (λ _. drop_event-Inv item.event_id item.session_id "session_cap" o v)
          λ room.
            if_elim (λ (r : Reply × Outbox). Inv r.1) (leb o.max_queue (length o.queue))
              (λ _. drop_event-Inv item.event_id item.session_id "handoff_full" o v)
              λ space. accept-Inv item o free (λ k. ground (arith, room, k)) (ground arith) v

submit_answer-Inv :
    (item : Item) (o : Outbox) (held : Option Memory)
    → get ℕ_discrete item.event_id o.memory_status ≡ held
    → Inv o
    → Inv (submit_answer item o held).1
unfolding submit_answer
submit_answer-Inv item o none e v = submit_new-Inv item o e v
submit_answer-Inv item o (some m) e v =
    if_elim (λ (r : Reply × Outbox). Inv r.1) (same_memory item m) (λ _. v) (λ _. v)

pub submit_item-Inv : (item : Item) (o : Outbox) → Inv o → Inv (submit_item item o).1
unfolding submit_item
submit_item-Inv item o v = submit_answer-Inv item o _ refl v

pub submit-Inv :
    (host : Host) (owner : Owner) (session : String) (event : Event) (capped : Bool) (now : ℕ)
    (o : Outbox)
    → Inv o
    → Inv (submit host owner session event capped now o).1
unfolding submit
submit-Inv host owner session event capped now o v = elim (Option-cases (validate host event)) [
  | inl e ↦ rw (e, submit) v
  | inr ((event_id, payload, deployment), e) ↦ rw (e, submit) (submit_item-Inv _ o v)
]
