-- ===== src/Flow/Feed/Events.antt =====
-- The laws of a `Lifetime` over `add_packet`, the flush and whole runs.
use algo_guard.Prelude.{
  ℕ, ◌+◌, ◌<◌, ◌&&◌, ◌||◌, none, some, List, [], ◌∷◌, ◌++◌, arith, leb, str_eq, inl, inr,
  Bool-cases, Option-cases, All, All-append,
}
use algo_guard.Prelude.Dict.{Dict, get, remove, Entries, get-Entries, put-Entries, remove-Entries}
use algo_guard.Flow.Packet.{PacketInfo}
use algo_guard.Flow.State.{FlowKey, FlowKey-discrete, FlowState, flip, add_to_flow, forward_key}
use algo_guard.Flow.Features.{Event, flush_end}
use algo_guard.Flow.Tracker.{Tracker, Closing, close_due_flows, lookup_key}
use algo_guard.Flow.Feed.{
  Slot, idle_step, active_step, slot_for, add_step, closed_as, late_closing, add_late, late_flow,
  drain_key, is_teardown_tail, track, swallow_or_track, add_open, flush_closing, flush_flows, flush,
  Input, packet, sweep, hold, step, run,
}
use algo_guard.Flow.Feed.Apart.{entry_slot}
use algo_guard.Flow.Feed.Invariant.{Inv, active_step-Sound_at}
use algo_guard.Flow.Feed.Keeps.{late_flow-get, without_drain, close_due_flows-Inv, step-Inv}
use algo_guard.Flow.Feed.Lifetime.{Lifetime, Lives, Reported, Waiting, Sane, count_events-Sane}
use algo_guard.Flow.Feed.Reports.{
  Live, Young, idle_step-Live, active_step-Live, fresh_step-Live, settle-Sane,
  close_due_flows-Waiting, first_ts-add, last_ts-add,
}

module _ {active : ℕ} (l : Lifetime active) (pos : 0 < active) where
  open l use {Good, Opened, Ending, Reports}

  slot_for-Live :
      (t : Tracker) (info : PacketInfo) (emitted : List Event)
      → Inv t
      → Lives l t
      → Reported l emitted
      → Live l (slot_for t info emitted (lookup_key t info))
        × Young l info (slot_for t info emitted (lookup_key t info))
  unfolding slot_for lookup_key
  slot_for-Live t info emitted inv v r =
      let s0 = entry_slot t emitted (lookup_key t info) in
      let s1 = idle_step t.idle_limit info s0 in
      let s2 = active_step t.active_limit info s1 in
      let live0 : Live l s0 = record {
        table = v.opened;
        flow = λ f h. get-Entries FlowKey-discrete Opened s0.key t.flows f v.opened h;
        ended = r;
      } in
      fresh_step-Live l info s2 pos (λ n. ((active_step-Sound_at t info inv emitted).fresh n).0)
        (rw v.limit (active_step-Live l info s1 pos (idle_step-Live l t.idle_limit info s0 live0)))

  add_step-Lives :
      (t : Tracker) (info : PacketInfo) (s : Slot)
      → Good info
      → Lives l t
      → Live l s × Young l info s
      → Lives l (add_step t info s)
  unfolding add_step
  add_step-Lives t info s good v (live, young) = elim (Option-cases s.flow) [
    | inl e ↦ rw (e, add_step) v
    | inr (f, e) ↦
        let f' = add_to_flow f info s.is_forward in
        let room = young f e in
        let opened = l.add_law s.key f info s.is_forward good room (live.flow f e) in
        let table = put-Entries FlowKey-discrete Opened s.key f' s.flows opened live.table in
        let room' : info.ts < f'.first_ts + active =
          omega (arith, first_ts-add f info s.is_forward) in
        elim (Bool-cases
          (str_eq info.proto "tcp" && (f'.saw_rst || f'.fin_forward && f'.fin_reverse))) [
            | inr b ↦
                rw (e, add_step)
                  (rw b (record { limit = v.limit; opened = table; ending = v.ending }))
            | inl b ↦
                rw (e, add_step)
                  (rw b (record {
                    limit = v.limit;
                    opened = remove-Entries FlowKey-discrete Opened s.key _ table;
                    ending =
                        put-Entries FlowKey-discrete Ending s.key (closed_as info f') t.closing
                          (l.close_law s.key f' info room' (last_ts-add f info s.is_forward) opened)
                          v.ending;
                  }))
          ]
  ]

  module _ (info : PacketInfo) (good : Good info) (emitted : List Event)
      (r : Reported l emitted) where
    track-Sane :
        (t : Tracker) → Inv t → Lives l t → Sane l (track t info emitted (lookup_key t info))
    unfolding track
    track-Sane t inv v =
        let s = slot_for t info emitted (lookup_key t info) in
        let live = slot_for-Live t info emitted inv v r in
        settle-Sane l info.ts (add_step t info s) s.ended live.0.ended
          (add_step-Lives t info s good v live)

    swallow_or_track-Sane :
        (t : Tracker)
        → Inv t
        → Lives l t
        → Sane l (swallow_or_track t info emitted (lookup_key t info))
    unfolding swallow_or_track lookup_key
    swallow_or_track-Sane t inv v =
        let dk = drain_key t info (lookup_key t info).0 in
        let drains = remove FlowKey-discrete dk t.draining in
        elim (Option-cases (get FlowKey-discrete dk t.draining)) [
          | inl e ↦ rw (e, swallow_or_track) (track-Sane t inv v)
          | inr (deadline, e) ↦ elim (Bool-cases (leb info.ts deadline && is_teardown_tail info)) [
            | inl b ↦ rw (e, swallow_or_track) (rw b (settle-Sane l info.ts t emitted r v))
            | inr b ↦
                rw (e, swallow_or_track)
                  (rw b (
                    track-Sane (record t { draining = drains })
                      (without_drain info emitted t drains inv)
                      (record { limit = v.limit; opened = v.opened; ending = v.ending })))
          ]
        ]

    add_open-Sane :
        (t : Tracker)
        → Inv t
        → Lives l t
        → Entries FlowKey-discrete (Waiting l info.ts) t.closing
        → Sane l (add_open t info emitted (lookup_key t info))
    unfolding add_open
    add_open-Sane t inv v w =
        elim (Option-cases (late_flow t (lookup_key t info).0 (flip (forward_key info)))) [
          | inl e ↦ rw (e, add_open) (swallow_or_track-Sane t inv v)
          | inr ((k, c), e) ↦
              let found = late_flow-get t _ _ k c e in
              let waiting =
                get-Entries FlowKey-discrete (Waiting l info.ts) k t.closing c w found in
              rw (e, add_open)
                (settle-Sane l info.ts (add_late t info (k, c)) emitted r (
                  unfold add_late in
                  record {
                    limit = v.limit;
                    opened = v.opened;
                    ending =
                        put-Entries FlowKey-discrete Ending k (late_closing info c) t.closing
                          (l.late_law k c info good waiting.1 waiting.0) v.ending;
                  }))
        ]

  -- The calls of a capture whose packets are good.
  abbrev pub GoodInput : Input → Type 0
  GoodInput (packet info) = Good info
  GoodInput _ = Unit {0}

  pub step-Sane : (t : Tracker) (i : Input) → GoodInput i → Inv t → Lives l t → Sane l (step t i)
  unfolding step
  step-Sane t (packet info) good inv v =
      let due = close_due_flows-Waiting l info.ts t (some info) v in
      let r = close_due_flows info.ts (some info) t in
      add_open-Sane info good r.0 due.0.0 r.1 (close_due_flows-Inv info.ts (some info) t inv)
        due.0.1 due.1
  step-Sane t (sweep now) good inv v =
      let due = close_due_flows-Waiting l now t none v in
      settle-Sane l now (close_due_flows now none t).1 _ due.0.0 due.0.1
  step-Sane t (hold now) good inv v =
      let due = close_due_flows-Waiting l now t none v in
      count_events-Sane l _ (close_due_flows now none t).1 due.0.0 due.0.1

  flush_closing-Reported :
      (d : Dict FlowKey Closing) → Entries FlowKey-discrete Ending d → Reported l (flush_closing d)
  unfolding flush_closing
  flush_closing-Reported [] e = tt
  flush_closing-Reported ((k, c) ∷ d) e = (l.ending_law k c e.0, flush_closing-Reported d e.1)

  flush_flows-Reported :
      (d : Dict FlowKey FlowState) → Entries FlowKey-discrete Opened d → Reported l (flush_flows d)
  unfolding flush_flows
  flush_flows-Reported [] e = tt
  flush_flows-Reported ((k, f) ∷ d) e = (l.emit_law k f flush_end e.0, flush_flows-Reported d e.1)

  flush-Reported : (t : Tracker) → Lives l t → Reported l (flush t).0
  unfolding flush
  flush-Reported t v =
      (count_events-Sane l (flush_closing t.closing ++ flush_flows t.flows)
        (record t { flows = []; closing = []; draining = [] })
        (All-append Reports (flush_closing t.closing) (flush_flows t.flows)
          (flush_closing-Reported t.closing v.ending) (flush_flows-Reported t.flows v.opened))
        (record { limit = v.limit; opened = tt; ending = tt })).0

  -- Every event of a capture of good packets, the flush included, satisfies `Reports`.
  pub run-Reported :
      (t : Tracker) (inputs : List Input)
      → All GoodInput inputs
      → Inv t
      → Lives l t
      → Reported l (run t inputs).0
  unfolding run
  run-Reported t [] good inv v = flush-Reported t v
  run-Reported t (i ∷ inputs) good inv v =
      let r = step-Sane t i good.0 inv v in
      All-append Reports (step t i).0 _ r.0
        (run-Reported (step t i).1 inputs good.1 (step-Inv t i inv) r.1)
