-- ===== src/Flow/Feed/Amount.antt =====
-- What each step of the tracker does to a measure of the tables and of the events.
use algo_guard.Prelude.{
  ℕ, ◌+◌, ◌≡◌, refl, Option, some, List, [], ◌∷◌, ◌++◌, arith, total, total-append,
}
use algo_guard.Prelude.Dict.{Dict, get, put, weigh, weigh-put_old}
use algo_guard.Flow.Packet.{PacketInfo}
use algo_guard.Flow.State.{FlowKey, FlowKey-discrete, FlowState}
use algo_guard.Flow.Features.{Event, idle_timeout, flush_end}
use algo_guard.Flow.Tracker.{
  Tracker, Closing, Connection, close_loop, drain_time, close_due_flows, expire_loop, advance,
  count_loop, count_events, settle, same_end,
}
use algo_guard.Flow.Feed.{add_late, late_closing, flush, flush_closing, flush_flows}
use algo_guard.Flow.Feed.Measure.{Measure, held}

module _ (m : Measure) where
  open m use {of_flow, of_event, of_packet, event-emit, event-history, flow-add, flow-new}

  abbrev pub reported : List Event → ℕ
  reported = total of_event

  abbrev pub open_weight : Dict FlowKey FlowState → ℕ
  open_weight = weigh FlowKey-discrete of_flow

  abbrev pub closing_weight : Dict FlowKey Closing → ℕ
  closing_weight = weigh FlowKey-discrete (λ c. of_flow c.flow)

  close_loop-keeps :
      (now : ℕ) (info : Option PacketInfo) (d : Dict FlowKey Closing) (drains : Dict FlowKey ℕ)
      → reported (close_loop now info d drains).due
          + closing_weight (close_loop now info d drains).kept
        ≡ closing_weight d
  unfolding close_loop total
  close_loop-keeps now info [] drains = refl
  close_loop-keeps now info ((k, c) ∷ d) drains = ground (
    arith,
    close_loop-keeps now info d drains,
    close_loop-keeps now info d (put FlowKey-discrete k (c.deadline + drain_time) drains),
    event-emit c.flow c.reason,
  )

  expire_loop-keeps :
      (idle now : ℕ) (d : Dict FlowKey FlowState)
      → reported (expire_loop idle now d).0 + open_weight (expire_loop idle now d).1 ≡ open_weight d
  unfolding expire_loop total
  expire_loop-keeps idle now [] = refl
  expire_loop-keeps idle now ((k, f) ∷ d) =
      ground (arith, expire_loop-keeps idle now d, event-emit f idle_timeout)

  count_loop-keeps :
      (events : List Event) (recent : List Connection)
      → reported (count_loop events recent).0 ≡ reported events
  unfolding count_loop total
  count_loop-keeps [] recent = refl
  count_loop-keeps (e ∷ events) recent = omega (arith, count_loop-keeps events _, event-history e _)

  pub close_due_flows-keeps :
      (now : ℕ) (info : Option PacketInfo) (t : Tracker)
      → reported (close_due_flows now info t).0 + held m (close_due_flows now info t).1 ≡ held m t
  unfolding close_due_flows
  close_due_flows-keeps now info t = omega (arith, close_loop-keeps now info t.closing t.draining)

  pub advance-keeps :
      (now : ℕ) (t : Tracker) → reported (advance now t).0 + held m (advance now t).1 ≡ held m t
  unfolding advance total
  advance-keeps now t = ground (arith, expire_loop-keeps t.idle_limit now t.flows)

  pub count_events-keeps :
      (events : List Event) (t : Tracker)
      → reported (count_events events t).0 + held m (count_events events t).1
        ≡ reported events + held m t
  unfolding count_events
  count_events-keeps events t = omega (arith, count_loop-keeps events t.recent)

  pub settle-keeps :
      (events : List Event) (now : ℕ) (t : Tracker)
      → reported (settle events now t).0 + held m (settle events now t).1
        ≡ reported events + held m t
  unfolding settle
  settle-keeps events now t = omega (
    arith,
    count_events-keeps (events ++ (advance now t).0) (advance now t).1,
    total-append of_event events (advance now t).0,
    advance-keeps now t,
  )

  pub add_late-keeps :
      (t : Tracker) (info : PacketInfo) (k : FlowKey) (c : Closing)
      → get FlowKey-discrete k t.closing ≡ some c
      → held m (add_late t info (k, c)) ≡ held m t + of_packet info
  unfolding add_late late_closing
  add_late-keeps t info k c h = omega (
    arith,
    weigh-put_old FlowKey-discrete (λ (x : Closing). of_flow x.flow) k (late_closing info c) c
        t.closing h,
    flow-add c.flow info (same_end info.src_ip info.src_port c.flow.src_ip c.flow.src_port),
  )

  flush_flows-keeps : (d : Dict FlowKey FlowState) → reported (flush_flows d) ≡ open_weight d
  unfolding flush_flows total
  flush_flows-keeps [] = refl
  flush_flows-keeps ((k, f) ∷ d) = omega (arith, flush_flows-keeps d, event-emit f flush_end)

  flush_closing-keeps : (d : Dict FlowKey Closing) → reported (flush_closing d) ≡ closing_weight d
  unfolding flush_closing total
  flush_closing-keeps [] = refl
  flush_closing-keeps ((k, c) ∷ d) =
      omega (arith, flush_closing-keeps d, event-emit c.flow c.reason)

  -- The flush reports all that the tables held, and leaves them empty.
  pub flush-keeps : (t : Tracker) → reported (flush t).0 ≡ held m t
  unfolding flush total
  flush-keeps t = omega (
    arith,
    count_events-keeps (flush_closing t.closing ++ flush_flows t.flows)
        (record t { flows = []; closing = []; draining = [] }),
    total-append of_event (flush_closing t.closing) (flush_flows t.flows),
    flush_flows-keeps t.flows,
    flush_closing-keeps t.closing,
  )
