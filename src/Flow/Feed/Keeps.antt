-- ===== src/Flow/Feed/Keeps.antt =====
-- The invariant of the tables under every method of the tracker.
use algo_guard.Prelude.{
  ℕ, ◌+◌, ◌≡◌, ◌&&◌, Option, none, some, List, [], ◌∷◌, arith, leb, ltb, inl, inr, Bool-cases,
  Option-cases,
}
use algo_guard.Prelude.Dict.{
  Dict, get, has, put, remove, Unique, Unique-put, get-none-has, get-some-has, has-put,
}
use algo_guard.Flow.Packet.{PacketInfo}
use algo_guard.Flow.State.{FlowKey, FlowKey-discrete, FlowState, flip, forward_key}
use algo_guard.Flow.Features.{Event}
use algo_guard.Flow.Tracker.{
  Tracker, Closing, close_loop, close_due_flows, expire_loop, advance, count_events, lookup_key,
  drain_time, settle, sweep_interval,
}
use algo_guard.Flow.Feed.{
  slot_for, add_step, add_late, late_closing, late_flow, track, swallow_or_track, add_open,
  drain_key, is_teardown_tail, flush, Input, packet, sweep, hold, step,
}
use algo_guard.Flow.Feed.Apart.{Member, slot_for-some}
use algo_guard.Flow.Feed.Invariant.{
  Inv, Clear, shrink-Inv, slot_for-Sound, slot_for-Within, add_step-Inv,
}

module _ (now : ℕ) (info : Option PacketInfo) where
  pub Member-close_loop :
      (d : Dict FlowKey Closing) (drains : Dict FlowKey ℕ) (k : FlowKey)
      → Member k (close_loop now info d drains).kept
      → Member k d
  unfolding close_loop has
  Member-close_loop [] drains k h = h
  Member-close_loop ((j, c) ∷ d) drains k h = ground (
    arith,
    Member-close_loop d drains k,
    Member-close_loop d (put FlowKey-discrete j (c.deadline + drain_time) drains) k,
  )

  Unique-close_loop :
      (d : Dict FlowKey Closing) (drains : Dict FlowKey ℕ)
      → Unique FlowKey-discrete d
      → Unique FlowKey-discrete (close_loop now info d drains).kept
  unfolding close_loop
  Unique-close_loop [] drains u = tt
  Unique-close_loop ((j, c) ∷ d) drains u =
      let marked = put FlowKey-discrete j (c.deadline + drain_time) drains in
      ground (
        arith,
        Unique-close_loop d drains u.1,
        Unique-close_loop d marked u.1,
        Member-close_loop d drains j,
        Member-close_loop d marked j,
      )

  pub close_due_flows-Inv : (t : Tracker) → Inv t → Inv (close_due_flows now info t).1
  unfolding close_due_flows
  close_due_flows-Inv t v =
      shrink-Inv t v t.flows _ _ t.recent t.last_sweep_ts t.flows_emitted v.flows_unique
        (Unique-close_loop t.closing t.draining v.closing_unique) (λ k h. h)
        (Member-close_loop t.closing t.draining)

module _ (idle now : ℕ) where
  Member-expire_loop :
      (d : Dict FlowKey FlowState) (k : FlowKey) → Member k (expire_loop idle now d).1 → Member k d
  unfolding expire_loop has
  Member-expire_loop [] k h = h
  Member-expire_loop ((j, f) ∷ d) k h = ground (arith, Member-expire_loop d k)

  Unique-expire_loop :
      (d : Dict FlowKey FlowState)
      → Unique FlowKey-discrete d
      → Unique FlowKey-discrete (expire_loop idle now d).1
  unfolding expire_loop
  Unique-expire_loop [] u = tt
  Unique-expire_loop ((j, f) ∷ d) u =
      ground (arith, Unique-expire_loop d u.1, Member-expire_loop d j)

advance-Inv : (now : ℕ) (t : Tracker) → Inv t → Inv (advance now t).1
unfolding advance
advance-Inv now t v = elim (Bool-cases (ltb now (t.last_sweep_ts + sweep_interval))) [
  | inl b ↦ rw (b, advance) v
  | inr b ↦
      rw (b, advance)
        (shrink-Inv t v _ t.closing _ t.recent now t.flows_emitted
          (Unique-expire_loop t.idle_limit now t.flows v.flows_unique) v.closing_unique
          (Member-expire_loop t.idle_limit now t.flows) (λ k h. h))
]

count_events-Inv : (events : List Event) (t : Tracker) → Inv t → Inv (count_events events t).1
unfolding count_events
count_events-Inv events t v =
    shrink-Inv t v t.flows t.closing t.draining _ t.last_sweep_ts _ v.flows_unique v.closing_unique
      (λ k h. h) (λ k h. h)

settle-Inv : (events : List Event) (now : ℕ) (t : Tracker) → Inv t → Inv (settle events now t).1
unfolding settle
settle-Inv events now t v = count_events-Inv _ _ (advance-Inv now t v)

pub late_flow-get :
    (t : Tracker) (key reverse k : FlowKey) (c : Closing)
    → late_flow t key reverse ≡ some (k, c)
    → get FlowKey-discrete k t.closing ≡ some c
unfolding late_flow
late_flow-get t key reverse k c h = ground arith

pub late_flow-Clear :
    (t : Tracker) (info : PacketInfo)
    → Inv t
    → late_flow t (lookup_key t info).0 (flip (forward_key info)) ≡ none
    → Clear t info
unfolding late_flow lookup_key
late_flow-Clear t info v h = ground (
  arith,
  v.apart (flip (forward_key info)),
  get-none-has FlowKey-discrete (forward_key info) t.closing,
  get-none-has FlowKey-discrete (flip (forward_key info)) t.closing,
)

add_late-Inv :
    (t : Tracker) (info : PacketInfo) (k : FlowKey) (c : Closing)
    → get FlowKey-discrete k t.closing ≡ some c
    → Inv t
    → Inv (add_late t info (k, c))
unfolding add_late
add_late-Inv t info k c h v =
    let c' = late_closing info c in
    shrink-Inv t v t.flows (put FlowKey-discrete k c' t.closing) t.draining t.recent t.last_sweep_ts
      t.flows_emitted v.flows_unique (Unique-put FlowKey-discrete k c' t.closing v.closing_unique)
      (λ j m. m)
      (λ j m. ground (
        arith,
        has-put FlowKey-discrete k j c' t.closing,
        get-some-has FlowKey-discrete k t.closing c,
      ))

module _ (info : PacketInfo) (emitted : List Event) where
  track-Inv :
      (t : Tracker) → Inv t → Clear t info → Inv (track t info emitted (lookup_key t info)).1
  unfolding track
  track-Inv t v clear =
      let s = slot_for t info emitted (lookup_key t info) in
      settle-Inv s.ended info.ts (add_step t info s) (
        add_step-Inv t info v clear s (slot_for-Sound t info v emitted)
          (slot_for-some t info emitted (lookup_key t info)) (slot_for-Within t info v emitted))

  pub without_drain :
      (t : Tracker) (drains : Dict FlowKey ℕ) → Inv t → Inv (record t { draining = drains })
  without_drain t drains v =
      shrink-Inv t v t.flows t.closing drains t.recent t.last_sweep_ts t.flows_emitted
        v.flows_unique v.closing_unique (λ k h. h) (λ k h. h)

  swallow_or_track-Inv :
      (t : Tracker)
      → Inv t
      → Clear t info
      → Inv (swallow_or_track t info emitted (lookup_key t info)).1
  unfolding swallow_or_track lookup_key
  swallow_or_track-Inv t v clear =
      let dk = drain_key t info (lookup_key t info).0 in
      let drains = remove FlowKey-discrete dk t.draining in
      elim (Option-cases (get FlowKey-discrete dk t.draining)) [
        | inl e ↦ rw (e, swallow_or_track) (track-Inv t v clear)
        | inr (deadline, e) ↦ elim (Bool-cases (leb info.ts deadline && is_teardown_tail info)) [
          | inl b ↦ rw (e, swallow_or_track) (rw b (settle-Inv emitted info.ts t v))
          | inr b ↦
              rw (e, swallow_or_track)
                (rw b (track-Inv (record t { draining = drains }) (without_drain t drains v) clear))
        ]
      ]

  add_open-Inv : (t : Tracker) → Inv t → Inv (add_open t info emitted (lookup_key t info)).1
  unfolding add_open
  add_open-Inv t v =
      elim (Option-cases (late_flow t (lookup_key t info).0 (flip (forward_key info)))) [
        | inl e ↦ rw (e, add_open) (swallow_or_track-Inv t v (late_flow-Clear t info v e))
        | inr ((k, c), e) ↦
            rw (e, add_open)
              (settle-Inv emitted info.ts _ (add_late-Inv t info k c (late_flow-get t _ _ k c e) v))
      ]

-- Each call keeps every conversation in one table, under one key, in one orientation.
pub step-Inv : (t : Tracker) (i : Input) → Inv t → Inv (step t i).1
unfolding step
step-Inv t (packet info) v = add_open-Inv info _ _ (close_due_flows-Inv info.ts (some info) t v)
step-Inv t (sweep now) v = settle-Inv _ now _ (close_due_flows-Inv now none t v)
step-Inv t (hold now) v = count_events-Inv _ _ (close_due_flows-Inv now none t v)

pub flush-Inv : (t : Tracker) → Inv t → Inv (flush t).1
unfolding flush has
flush-Inv t v =
    count_events-Inv _ _ (
      shrink-Inv t v [] [] [] t.recent t.last_sweep_ts t.flows_emitted tt tt (λ k h. cc)
        (λ k h. cc))
