-- ===== src/Flow/Feed/Reports.antt =====
-- The laws of a `Lifetime` over the timers, and over the steps of `add_packet` to the packet's flow.
use algo_guard.Prelude.{
  ℕ, ◌+◌, ◌≤◌, ◌<◌, ◌≡◌, refl, Bool, Option, none, some, List, [], ◌∷◌, ◌++◌, arith, leb, ltb, inl,
  inr, Bool-cases, Option-cases, All-append, subst, eq_of_some-eq,
}
use algo_guard.Prelude.Dict.{Dict, Entries, put-Entries, remove-Entries}
use algo_guard.Flow.Packet.{PacketInfo}
use algo_guard.Flow.State.{
  FlowKey, FlowKey-discrete, FlowState, new_flow, add_to_flow, key_of, forward_key,
}
use algo_guard.Flow.Features.{Event, emit, idle_timeout, active_timeout}
use algo_guard.Flow.Tracker.{
  Tracker, Closing, is_idle, close_due_flows, advance, settle, sweep_interval,
}
use algo_guard.Flow.Feed.{Slot, idle_step, active_step, fresh_step}
use algo_guard.Flow.Feed.Lifetime.{
  Lifetime, Lives, Reported, Waiting, Sane, close_loop-Lives, expire_loop-Lives, count_events-Sane,
}

pub first_ts-add :
    (f : FlowState) (info : PacketInfo) (b : Bool) → (add_to_flow f info b).first_ts ≡ f.first_ts
unfolding add_to_flow
first_ts-add f info b = ground arith

pub last_ts-add :
    (f : FlowState) (info : PacketInfo) (b : Bool) → info.ts ≤ (add_to_flow f info b).last_ts
unfolding add_to_flow
last_ts-add f info b = ground arith

pub first_ts-new : (k : FlowKey) (ts : ℕ) → (new_flow k ts).first_ts ≡ ts
unfolding new_flow
first_ts-new k ts = refl

module _ {active : ℕ} (l : Lifetime active) where
  open l use {Good, Opened, Ending, Reports}

  -- The timers.
  module _ (now : ℕ) (t : Tracker) where
    advance-Sane : Lives l t → Sane l (advance now t)
    unfolding advance
    advance-Sane v = elim (Bool-cases (ltb now (t.last_sweep_ts + sweep_interval))) [
      | inl b ↦ rw (b, advance) (tt, v)
      | inr b ↦
          let r = expire_loop-Lives l t.idle_limit now t.flows v.opened in
          rw (b, advance) (r.0, record { limit = v.limit; opened = r.1; ending = v.ending })
    ]

    pub settle-Sane :
        (emitted : List Event) → Reported l emitted → Lives l t → Sane l (settle emitted now t)
    unfolding settle
    settle-Sane emitted r v =
        let a = advance-Sane v in
        count_events-Sane l (emitted ++ (advance now t).0) (advance now t).1
          (All-append Reports emitted (advance now t).0 r a.0) a.1

    pub close_due_flows-Waiting :
        (info : Option PacketInfo)
        → Lives l t
        → Sane l (close_due_flows now info t)
          × Entries FlowKey-discrete (Waiting l now) (close_due_flows now info t).1.closing
    unfolding close_due_flows
    close_due_flows-Waiting info v =
        let r = close_loop-Lives l now info t.closing t.draining v.ending in
        ((r.0, record { limit = v.limit; opened = v.opened; ending = weaken _ r.1 }), r.1)
      where
        weaken :
            (d : Dict FlowKey Closing)
            → Entries FlowKey-discrete (Waiting l now) d
            → Entries FlowKey-discrete Ending d
        weaken [] e = tt
        weaken ((k, c) ∷ d) e = (e.0.0, weaken d e.1)

  -- The locals of `add_packet` between its steps.
  pub record Live (s : Slot) : Type 0 where
    pub table : Entries FlowKey-discrete Opened s.flows
    pub flow : (f : FlowState) → s.flow ≡ some f → Opened s.key f
    pub ended : Reported l s.ended

  -- The flow has room for the packet.
  abbrev pub Young : PacketInfo → Slot → Type 0
  Young info s = (f : FlowState) → s.flow ≡ some f → info.ts < f.first_ts + active

  pub idle_step-Live :
      (idle : ℕ) (info : PacketInfo) (s : Slot) → Live s → Live (idle_step idle info s)
  unfolding idle_step
  idle_step-Live idle info s v = elim (Option-cases s.flow) [
    | inl e ↦ rw (e, idle_step) v
    | inr (f, e) ↦ elim (Bool-cases (is_idle idle info.ts f)) [
      | inr b ↦ rw (e, idle_step) (rw b v)
      | inl b ↦
          rw (e, idle_step)
            (rw b (record {
              table = remove-Entries FlowKey-discrete Opened s.key s.flows v.table;
              flow = λ g n. cc;
              ended =
                  All-append Reports s.ended (emit f idle_timeout ∷ []) v.ended
                    (l.emit_law s.key f idle_timeout (v.flow f e), tt);
            }))
    ]
  ]

  pub active_step-Live :
      (info : PacketInfo) (s : Slot)
      → 0 < active
      → Live s
      → Live (active_step active info s) × Young info (active_step active info s)
  unfolding active_step
  active_step-Live info s pos v = elim (Option-cases s.flow) [
    | inl e ↦ rw (e, active_step) (v, λ f n. cc)
    | inr (f, e) ↦ elim (Bool-cases (leb (f.first_ts + active) info.ts)) [
      | inr b ↦ rw (e, active_step) (rw b (v, λ g n. ground (arith, e, n)))
      | inl b ↦
          let slice = new_flow (key_of f) info.ts in
          let fresh = l.slice_law s.key f info.ts (v.flow f e) in
          rw (e, active_step)
            (rw b (
              record {
                table =
                    put-Entries FlowKey-discrete Opened s.key slice _ fresh
                      (remove-Entries FlowKey-discrete Opened s.key s.flows v.table);
                flow = λ g n. subst (Opened s.key) (eq_of_some-eq n) fresh;
                ended =
                    All-append Reports s.ended (emit f active_timeout ∷ []) v.ended
                      (l.emit_law s.key f active_timeout (v.flow f e), tt);
              },
              λ g n. ground (arith, n, first_ts-new (key_of f) info.ts),
            ))
    ]
  ]

  pub fresh_step-Live :
      (info : PacketInfo) (s : Slot)
      → 0 < active
      → (s.flow ≡ none → s.key ≡ forward_key info)
      → Live s × Young info s
      → Live (fresh_step info s) × Young info (fresh_step info s)
  unfolding fresh_step
  fresh_step-Live info s pos own (v, young) = elim (Option-cases s.flow) [
    | inr (f, e) ↦ rw (e, fresh_step) (v, young)
    | inl e ↦
        let fresh = new_flow (forward_key info) info.ts in
        let opened : Opened s.key fresh = rw (own e) (l.new_law (forward_key info) info.ts) in
        rw (e, fresh_step)
          (
            record {
              table = put-Entries FlowKey-discrete Opened s.key fresh s.flows opened v.table;
              flow = λ g n. subst (Opened s.key) (eq_of_some-eq n) opened;
              ended = v.ended;
            },
            λ g n. ground (arith, n, first_ts-new (forward_key info) info.ts),
          )
  ]
