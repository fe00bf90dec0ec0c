-- ===== src/Flow/Feed/Measure.antt =====
-- What is counted of packets, flows and events: packets on the wire, or their bytes.
use algo_guard.Prelude.{ℕ, ◌+◌, ◌≡◌, refl, Bool, Option, arith}
use algo_guard.Prelude.Dict.{weigh}
use algo_guard.Flow.Packet.{PacketInfo}
use algo_guard.Flow.State.{FlowKey, FlowKey-discrete, FlowState, new_flow, add_to_flow}
use algo_guard.Flow.Features.{EndReason, Event, History, emit}
use algo_guard.Flow.Tracker.{Tracker}

pub record Measure : Type 0 where
  pub of_packet : PacketInfo → ℕ
  pub of_flow : FlowState → ℕ
  pub of_event : Event → ℕ
  pub flow-add :
      (f : FlowState) (i : PacketInfo) (b : Bool)
      → of_flow (add_to_flow f i b) ≡ of_flow f + of_packet i
  pub flow-new : (k : FlowKey) (ts : ℕ) → of_flow (new_flow k ts) ≡ 0
  pub event-emit : (f : FlowState) (r : EndReason) → of_event (emit f r) ≡ of_flow f
  pub event-history :
      (e : Event) (h : Option History) → of_event (record e { history = h }) ≡ of_event e

-- What the open and the closing flows hold, and what a list of events reports.
abbrev pub held : Measure → Tracker → ℕ
held m t =
    weigh FlowKey-discrete m.of_flow t.flows
    + weigh FlowKey-discrete (λ c. m.of_flow c.flow) t.closing

pub packets-add :
    (f : FlowState) (i : PacketInfo) (b : Bool)
    → (add_to_flow f i b).spkts + (add_to_flow f i b).dpkts ≡ f.spkts + f.dpkts + i.segments
unfolding add_to_flow
packets-add f i b = ground arith

pub bytes-add :
    (f : FlowState) (i : PacketInfo) (b : Bool)
    → (add_to_flow f i b).sbytes + (add_to_flow f i b).dbytes ≡ f.sbytes + f.dbytes + i.length
unfolding add_to_flow
bytes-add f i b = ground arith

pub packets-new : (k : FlowKey) (ts : ℕ) → (new_flow k ts).spkts + (new_flow k ts).dpkts ≡ 0
unfolding new_flow
packets-new k ts = omega arith

pub bytes-new : (k : FlowKey) (ts : ℕ) → (new_flow k ts).sbytes + (new_flow k ts).dbytes ≡ 0
unfolding new_flow
bytes-new k ts = omega arith

pub packets-emit :
    (f : FlowState) (r : EndReason)
    → (emit f r).features.spkts + (emit f r).features.dpkts ≡ f.spkts + f.dpkts
unfolding emit
packets-emit f r = refl

pub bytes-emit :
    (f : FlowState) (r : EndReason)
    → (emit f r).features.sbytes + (emit f r).features.dbytes ≡ f.sbytes + f.dbytes
unfolding emit
bytes-emit f r = refl

-- Packets on the wire, in both directions.
abbrev pub packets : Measure
packets = record {
  of_packet = λ i. i.segments;
  of_flow = λ f. f.spkts + f.dpkts;
  of_event = λ e. e.features.spkts + e.features.dpkts;
  flow-add = packets-add;
  flow-new = packets-new;
  event-emit = packets-emit;
  event-history = λ e h. refl;
}

-- Their bytes.
abbrev pub bytes : Measure
bytes = record {
  of_packet = λ i. i.length;
  of_flow = λ f. f.sbytes + f.dbytes;
  of_event = λ e. e.features.sbytes + e.features.dbytes;
  flow-add = bytes-add;
  flow-new = bytes-new;
  event-emit = bytes-emit;
  event-history = λ e h. refl;
}
