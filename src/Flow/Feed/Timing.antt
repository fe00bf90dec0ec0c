-- ===== src/Flow/Feed/Timing.antt =====
-- How long an event can last.
use algo_guard.Prelude.{ℕ, ◌+◌, ◌≤◌, ◌<◌, ◌≡◌, refl, Bool, List, [], ◌∷◌, arith, All}
use algo_guard.Flow.Packet.{PacketInfo}
use algo_guard.Flow.State.{FlowKey, FlowState, new_flow, add_to_flow, key_of}
use algo_guard.Flow.Features.{EndReason, Event, emit}
use algo_guard.Flow.Tracker.{Closing, close_hold, init}
use algo_guard.Flow.Feed.{closed_as, late_closing, Input, packet, run}
use algo_guard.Flow.Feed.Invariant.{init-Inv}
use algo_guard.Flow.Feed.Lifetime.{Lifetime}
use algo_guard.Flow.Feed.Events.{GoodInput, run-Reported}

-- The first packet's time, the last one's, and the duration between them.
pub record IsTimed (limit : ℕ) (e : Event) : Type 0 where
  pub ordered : e.first_ts ≤ e.last_ts
  pub short : e.last_ts < e.first_ts + limit
  pub measured : e.first_ts + e.features.dur ≡ e.last_ts

module _ (active : ℕ) where
  abbrev TimedFlow : FlowKey → FlowState → Type 0
  TimedFlow k f = (f.first_ts ≤ f.last_ts) × (f.last_ts < f.first_ts + active)

  abbrev TimedClosing : FlowKey → Closing → Type 0
  TimedClosing k c =
      (c.flow.first_ts ≤ c.flow.last_ts)
      × (c.flow.last_ts < c.flow.first_ts + active + close_hold)
      × (c.deadline < c.flow.first_ts + active + close_hold)

  new-Timed : (k : FlowKey) (ts : ℕ) → 0 < active → TimedFlow k (new_flow k ts)
  unfolding new_flow
  new-Timed k ts pos = omega arith

  slice-Timed : (k j : FlowKey) (ts : ℕ) → 0 < active → TimedFlow k (new_flow j ts)
  unfolding new_flow
  slice-Timed k j ts pos = omega arith

  add-Timed :
      (k : FlowKey) (f : FlowState) (info : PacketInfo) (b : Bool)
      → info.ts < f.first_ts + active
      → TimedFlow k f
      → TimedFlow k (add_to_flow f info b)
  unfolding add_to_flow
  add-Timed k f info b room (o, s) = ground arith

  close-Timed :
      (k : FlowKey) (f : FlowState) (info : PacketInfo)
      → info.ts < f.first_ts + active
      → TimedFlow k f
      → TimedClosing k (closed_as info f)
  unfolding add_to_flow
  close-Timed k f info room (o, s) = omega arith

  late-Timed :
      (k : FlowKey) (c : Closing) (info : PacketInfo)
      → info.ts ≤ c.deadline
      → TimedClosing k c
      → TimedClosing k (late_closing info c)
  unfolding late_closing add_to_flow
  late-Timed k c info due (o, s, d) = ground arith

  emit-Timed :
      (f : FlowState) (r : EndReason) (limit : ℕ)
      → f.first_ts ≤ f.last_ts
      → f.last_ts < f.first_ts + limit
      → IsTimed limit (emit f r)
  unfolding emit
  emit-Timed f r limit o s = record { ordered = o; short = s; measured = omega arith }

  timing : 0 < active → Lifetime active
  timing pos = record {
    Good = λ i. Unit {0};
    Opened = TimedFlow;
    Ending = TimedClosing;
    Reports = IsTimed (active + close_hold);
    new_law = λ k ts. new-Timed k ts pos;
    add_law = λ k f info b g room o. add-Timed k f info b room o;
    slice_law = λ k f ts o. slice-Timed k (key_of f) ts pos;
    close_law = λ k f info room last o. close-Timed k f info room o;
    late_law = λ k c info g due e. late-Timed k c info due e;
    emit_law = λ k f r o. emit-Timed f r (active + close_hold) o.0 (omega arith);
    ending_law = λ k c e. emit-Timed c.flow c.reason (active + close_hold) e.0 (omega arith);
    history_law = λ e h r. record { ordered = r.ordered; short = r.short; measured = r.measured };
  }

  every_input : (pos : 0 < active) (inputs : List Input) → All (GoodInput (timing pos) pos) inputs
  unfolding timing
  every_input pos [] = tt
  every_input pos (packet info ∷ inputs) = (tt, every_input pos inputs)
  every_input pos (_ ∷ inputs) = (tt, every_input pos inputs)

-- Whatever the packets and their timestamps, in order or not: each event of a capture begins no
-- later than it ends, lasts less than the active limit and the closing hold together, and reports
-- exactly that time as its duration.
pub run-Timed :
    (idle active : ℕ) (inputs : List Input)
    → 0 < active
    → All (IsTimed (active + close_hold)) (run (init idle active) inputs).0
unfolding init timing
run-Timed idle active inputs pos =
    run-Reported (timing active pos) pos (init idle active) inputs (every_input active pos inputs)
      (init-Inv idle active) (record { limit = refl; opened = tt; ending = tt })
