-- ===== src/Flow/Feed/Marks.antt =====
-- The drain markers over the calls of a tracker.
use algo_guard.Prelude.{
  ℕ, ◌+◌, Bool, Option, none, some, List, [], ◌∷◌, ◌++◌, arith, ltb, leb, ◌&&◌, Bool-cases,
  Option-cases, All, All-left, if_elim, inl, inr,
}
use algo_guard.Prelude.Dict.{Dict, get, put, remove, Entries, put-Entries, remove-Entries}
use algo_guard.Flow.Packet.{PacketInfo}
use algo_guard.Flow.State.{FlowKey, FlowKey-discrete, flip, forward_key}
use algo_guard.Flow.Features.{Event, History, idle_timeout, active_timeout, emit}
use algo_guard.Flow.Tracker.{
  Tracker, Closing, Connection, drain_time, is_due, is_idle, close_loop, close_due_flows,
  drop_drained, advance, settle, count_loop, count_events, lookup_key, sweep_interval,
}
use algo_guard.Flow.Feed.{
  Slot, idle_step, active_step, fresh_step, slot_for, add_step, add_late, late_flow, drain_key,
  is_teardown_tail, track, swallow_or_track, add_open, step, Input, packet, sweep, hold, add_packet,
  expire_idle, close_due,
}
use algo_guard.Flow.Feed.Apart.{entry_slot}
use algo_guard.Flow.Feed.Lifetime.{Lives}
use algo_guard.Flow.Feed.Torn.{IsClose, Ends, closes, emit-IsClose}

-- What a call of the tracker leaves of the drain markers.
module _ (P : FlowKey → ℕ → Type 0) where
  abbrev pub Marks : Tracker → Type 0
  Marks t = Entries FlowKey-discrete P t.draining

  drop_drained-Marks :
      (now : ℕ) (d : Dict FlowKey ℕ)
      → Entries FlowKey-discrete P d
      → Entries FlowKey-discrete P (drop_drained now d)
  unfolding drop_drained
  drop_drained-Marks now [] e = tt
  drop_drained-Marks now ((k, deadline) ∷ d) e = ground (arith, drop_drained-Marks now d e.1)

  pub settle-Marks :
      (emitted : List Event) (now : ℕ) (t : Tracker) → Marks t → Marks (settle emitted now t).1
  unfolding settle advance count_events
  settle-Marks emitted now t e =
      if_elim (λ (r : List Event × Tracker). Marks r.1) (ltb now (t.last_sweep_ts + sweep_interval))
        {x = ([], t)} (λ _. e) (λ _. drop_drained-Marks now t.draining e)

  add_step-Marks :
      (t : Tracker) (info : PacketInfo) (s : Slot) → Marks t → Marks (add_step t info s)
  unfolding add_step
  add_step-Marks t info s e = ground arith

  track-Marks :
      (t : Tracker) (info : PacketInfo) (emitted : List Event) (at : FlowKey × Bool)
      → Marks t
      → Marks (track t info emitted at).1
  unfolding track
  track-Marks t info emitted at e =
      let s = slot_for t info emitted at in
      settle-Marks s.ended info.ts (add_step t info s) (add_step-Marks t info s e)

  swallow_or_track-Marks :
      (t : Tracker) (info : PacketInfo) (emitted : List Event) (at : FlowKey × Bool)
      → Marks t
      → Marks (swallow_or_track t info emitted at).1
  unfolding swallow_or_track
  swallow_or_track-Marks t info emitted at e =
      let dk = drain_key t info at.0 in
      let drains = remove FlowKey-discrete dk t.draining in
      elim (Option-cases (get FlowKey-discrete dk t.draining)) [
        | inl n ↦ rw (n, swallow_or_track) (track-Marks t info emitted at e)
        | inr (deadline, n) ↦
            rw (n, swallow_or_track)
              (if_elim (λ (r : List Event × Tracker). Marks r.1)
                (leb info.ts deadline && is_teardown_tail info)
                (λ _. settle-Marks emitted info.ts t e)
                (λ _.
                  track-Marks (record t { draining = drains }) info emitted at
                    (remove-Entries FlowKey-discrete P dk t.draining e)))
      ]

  pub add_open-Marks :
      (t : Tracker) (info : PacketInfo) (emitted : List Event) (at : FlowKey × Bool)
      → Marks t
      → Marks (add_open t info emitted at).1
  unfolding add_open
  add_open-Marks t info emitted at e =
      elim (Option-cases (late_flow t at.0 (flip (forward_key info)))) [
        | inl n ↦ rw (n, add_open) (swallow_or_track-Marks t info emitted at e)
        | inr (late, n) ↦
            rw (n, add_open)
              (settle-Marks emitted info.ts (add_late t info late) (unfold add_late in e))
      ]

-- Events before they are counted: with a history they satisfy `Q`.
module _ (Q : Event → Type 0) where
  abbrev pub Given : Event → Type 0
  Given e = (h : Option History) × Q (record e { history = h })

  count_loop-Given :
      (events : List Event) (recent : List Connection)
      → All Q (count_loop events recent).0
      → All Given events
  unfolding count_loop
  count_loop-Given [] recent q = tt
  count_loop-Given (e ∷ events) recent q = ((_, q.0), count_loop-Given events _ q.1)

  pub count_events-Given :
      (events : List Event) (t : Tracker) → All Q (count_events events t).0 → All Given events
  unfolding count_events
  count_events-Given events t q = count_loop-Given events t.recent q

  pub settle-Given :
      (emitted : List Event) (now : ℕ) (t : Tracker)
      → All Q (settle emitted now t).0
      → All Given emitted
  unfolding settle
  settle-Given emitted now t q =
      All-left Given emitted (advance now t).0
        (count_events-Given (emitted ++ (advance now t).0) (advance now t).1 q)

  -- The steps to the packet's flow only add to the events.
  idle_step-Given :
      (idle : ℕ) (info : PacketInfo) (s : Slot)
      → All Given (idle_step idle info s).ended
      → All Given s.ended
  unfolding idle_step
  idle_step-Given idle info s = elim (Option-cases s.flow) [
    | inl e ↦ rw (e, idle_step) (λ q. q)
    | inr (f, e) ↦
        rw (e, idle_step)
          (if_elim (λ (u : Slot). All Given u.ended → All Given s.ended) (is_idle idle info.ts f)
            (λ _. All-left Given s.ended (emit f idle_timeout ∷ [])) (λ _ q. q))
  ]

  active_step-Given :
      (active : ℕ) (info : PacketInfo) (s : Slot)
      → All Given (active_step active info s).ended
      → All Given s.ended
  unfolding active_step
  active_step-Given active info s = elim (Option-cases s.flow) [
    | inl e ↦ rw (e, active_step) (λ q. q)
    | inr (f, e) ↦
        rw (e, active_step)
          (if_elim (λ (u : Slot). All Given u.ended → All Given s.ended)
            (leb (f.first_ts + active) info.ts)
            (λ _. All-left Given s.ended (emit f active_timeout ∷ [])) (λ _ q. q))
  ]

  fresh_step-Given :
      (info : PacketInfo) (s : Slot) → All Given (fresh_step info s).ended → All Given s.ended
  unfolding fresh_step
  fresh_step-Given info s = elim (Option-cases s.flow) [
    | inl e ↦ rw (e, fresh_step) (λ q. q)
    | inr (f, e) ↦ rw (e, fresh_step) (λ q. q)
  ]

  slot_for-Given :
      (t : Tracker) (info : PacketInfo) (emitted : List Event) (at : FlowKey × Bool)
      → All Given (slot_for t info emitted at).ended
      → All Given emitted
  unfolding slot_for
  slot_for-Given t info emitted at q =
      let s0 = entry_slot t emitted at in
      let s1 = idle_step t.idle_limit info s0 in
      idle_step-Given t.idle_limit info s0 (
        active_step-Given t.active_limit info s1
          (fresh_step-Given info (active_step t.active_limit info s1) q))

  track-Given :
      (t : Tracker) (info : PacketInfo) (emitted : List Event) (at : FlowKey × Bool)
      → All Q (track t info emitted at).0
      → All Given emitted
  unfolding track
  track-Given t info emitted at q =
      let s = slot_for t info emitted at in
      slot_for-Given t info emitted at (settle-Given s.ended info.ts (add_step t info s) q)

  swallow_or_track-Given :
      (t : Tracker) (info : PacketInfo) (emitted : List Event) (at : FlowKey × Bool)
      → All Q (swallow_or_track t info emitted at).0
      → All Given emitted
  unfolding swallow_or_track
  swallow_or_track-Given t info emitted at =
      let dk = drain_key t info at.0 in
      let drains = remove FlowKey-discrete dk t.draining in
      elim (Option-cases (get FlowKey-discrete dk t.draining)) [
        | inl n ↦ rw (n, swallow_or_track) (track-Given t info emitted at)
        | inr (deadline, n) ↦
            rw (n, swallow_or_track)
              (if_elim (λ (r : List Event × Tracker). All Q r.0 → All Given emitted)
                (leb info.ts deadline && is_teardown_tail info)
                (λ _. settle-Given emitted info.ts t)
                (λ _. track-Given (record t { draining = drains }) info emitted at))
      ]

  pub add_open-Given :
      (t : Tracker) (info : PacketInfo) (emitted : List Event) (at : FlowKey × Bool)
      → All Q (add_open t info emitted at).0
      → All Given emitted
  unfolding add_open
  add_open-Given t info emitted at =
      elim (Option-cases (late_flow t at.0 (flip (forward_key info)))) [
        | inl n ↦ rw (n, add_open) (swallow_or_track-Given t info emitted at)
        | inr (late, n) ↦ rw (n, add_open) (settle-Given emitted info.ts (add_late t info late))
      ]

  -- A connection of this key was closed, and its event satisfies `Q`.
  abbrev pub Torn : FlowKey → ℕ → Type 0
  Torn k deadline = (e : Event) × Q e × IsClose k deadline e

  close_loop-Marks :
      (now : ℕ) (info : Option PacketInfo) (d : Dict FlowKey Closing) (drains : Dict FlowKey ℕ)
      → Entries FlowKey-discrete Ends d
      → All Given (close_loop now info d drains).due
      → Entries FlowKey-discrete Torn drains
      → Entries FlowKey-discrete Torn (close_loop now info d drains).drains
  unfolding close_loop
  close_loop-Marks now info [] drains ends = λ given torn. torn
  close_loop-Marks now info ((k, c) ∷ d) drains ends = elim (Bool-cases (is_due now info c)) [
    | inl b ↦
        let marked = put FlowKey-discrete k (c.deadline + drain_time) drains in
        rw (b, close_loop)
          (λ given torn.
            let (h, q) = given.0 in
            close_loop-Marks now info d marked ends.1 given.1 (
              put-Entries FlowKey-discrete Torn k (c.deadline + drain_time) drains
                (record (emit c.flow c.reason) { history = h }, q, emit-IsClose k c h ends.0) torn))
    | inr b ↦ rw (b, close_loop) (close_loop-Marks now info d drains ends.1)
  ]

  pub close_due_flows-Marks :
      {active : ℕ} (now : ℕ) (info : Option PacketInfo) (t : Tracker)
      → Lives (closes active) t
      → All Given (close_due_flows now info t).0
      → Marks Torn t
      → Marks Torn (close_due_flows now info t).1
  unfolding close_due_flows
  close_due_flows-Marks now info t v = close_loop-Marks now info t.closing t.draining v.ending

  -- Every call keeps the markers of connections that were closed.
  pub step-Marks :
      {active : ℕ} (t : Tracker) (i : Input)
      → Lives (closes active) t
      → All Q (step t i).0
      → Marks Torn t
      → Marks Torn (step t i).1
  unfolding step add_packet expire_idle close_due
  step-Marks t (packet info) v q marks =
      let r = close_due_flows info.ts (some info) t in
      let at = lookup_key r.1 info in
      add_open-Marks Torn r.1 info r.0 at
        (close_due_flows-Marks info.ts (some info) t v (add_open-Given r.1 info r.0 at q) marks)
  step-Marks t (sweep now) v q marks =
      let r = close_due_flows now none t in
      settle-Marks Torn r.0 now r.1
        (close_due_flows-Marks now none t v (settle-Given r.0 now r.1 q) marks)
  step-Marks t (hold now) v q marks =
      let r = close_due_flows now none t in
      unfold count_events in close_due_flows-Marks now none t v (count_events-Given r.0 r.1 q) marks
