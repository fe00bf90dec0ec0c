-- ===== src/Flow/Feed.antt =====
-- `FlowTracker.add_packet`, `expire_idle`, `close_due` and `flush`. The locals of `add_packet`
-- between its steps are the record `Slot`; the flow object that the table and the local share is
-- written back to the table where the source mutates it.
pub mod Measure
pub mod Amount
pub mod Balance
pub mod Apart
pub mod Invariant
pub mod Keeps
pub mod Conservation
pub mod Captures
pub mod Lifetime
pub mod Torn
pub mod Marks
pub mod Reports
pub mod Events
pub mod Timing
use algo_guard.Prelude.{
  ℕ, ◌+◌, Bool, true, false, ◌&&◌, ◌||◌, not, Option, none, some, List, [], ◌∷◌, ◌++◌, leb, str_eq,
  has_char, if◌then◌else◌,
}
use algo_guard.Prelude.Dict.{Dict, get, has, put, remove}
use algo_guard.Flow.Packet.{PacketInfo}
use algo_guard.Flow.State.{
  FlowKey, FlowKey-discrete, FlowState, flip, forward_key, key_of, new_flow, add_to_flow,
}
use algo_guard.Flow.Features.{
  idle_timeout, active_timeout, fin_close, rst_close, flush_end, Event, emit,
}
use algo_guard.Flow.Tracker.{
  Tracker, Closing, close_hold, lookup_key, same_end, is_idle, close_due_flows, advance,
  count_events, settle,
}

-- The closing flow that a packet still belongs to: under its key, or under the reverse key.
unfoldable pub late_flow : Tracker → FlowKey → FlowKey → Option (FlowKey × Closing)
late_flow t key reverse = elim (get FlowKey-discrete key t.closing) [
  | some c ↦ some (key, c)
  | none ↦ elim (get FlowKey-discrete reverse t.closing) [
    | some c ↦ some (reverse, c)
    | none ↦ none
  ]
]

unfoldable pub late_closing : PacketInfo → Closing → Closing
late_closing info c =
    let forward = same_end info.src_ip info.src_port c.flow.src_ip c.flow.src_port in
    record c { flow = add_to_flow c.flow info forward }

unfoldable pub add_late : Tracker → PacketInfo → FlowKey × Closing → Tracker
add_late t info (key, c) = record t {
  closing = put FlowKey-discrete key (late_closing info c) t.closing;
}

unfoldable pub is_teardown_tail : PacketInfo → Bool
is_teardown_tail info =
    if not (str_eq info.proto "tcp") || has_char b'S' info.tcp_flags
    then false
    else has_char b'R' info.tcp_flags
      || (has_char b'A' info.tcp_flags
          && not (has_char b'F' info.tcp_flags || has_char b'P' info.tcp_flags))

pub record Slot : Type 0 where
  pub key : FlowKey
  pub is_forward : Bool
  pub flow : Option FlowState
  pub ended : List Event
  pub flows : Dict FlowKey FlowState

-- A 5-tuple that comes back after the idle timeout starts a new flow.
unfoldable pub idle_step : ℕ → PacketInfo → Slot → Slot
unfolding is_idle
idle_step idle info s = elim s.flow [
  | none ↦ s
  | some f ↦
      if is_idle idle info.ts f
      then record {
        key = forward_key info;
        is_forward = true;
        flow = none;
        ended = s.ended ++ emit f idle_timeout ∷ [];
        flows = remove FlowKey-discrete s.key s.flows;
      }
      else s
]

-- The next slice of a long conversation keeps the orientation of the last.
unfoldable pub active_step : ℕ → PacketInfo → Slot → Slot
active_step active info s = elim s.flow [
  | none ↦ s
  | some f ↦
      if leb (f.first_ts + active) info.ts
      then (let slice = new_flow (key_of f) info.ts in
          record s {
            flow = some slice;
            ended = s.ended ++ emit f active_timeout ∷ [];
            flows = put FlowKey-discrete s.key slice (remove FlowKey-discrete s.key s.flows);
          })
      else s
]

unfoldable pub fresh_step : PacketInfo → Slot → Slot
fresh_step info s = elim s.flow [
  | some f ↦ s
  | none ↦
      let fresh = new_flow (forward_key info) info.ts in
      record s {
        is_forward = true;
        flow = some fresh;
        flows = put FlowKey-discrete s.key fresh s.flows;
      }
]

-- The entry of `_closing` for a flow that this packet ends.
abbrev pub closed_as : PacketInfo → FlowState → Closing
closed_as info f = record {
  flow = f;
  reason = if f.fin_forward && f.fin_reverse then fin_close else rst_close;
  deadline = info.ts + close_hold;
}

-- What the packet does to its flow, and a TCP flow that it ends.
unfoldable pub add_step : Tracker → PacketInfo → Slot → Tracker
add_step t info s = elim s.flow [
  | none ↦ t
  | some f ↦
      let f' = add_to_flow f info s.is_forward in
      let flows' = put FlowKey-discrete s.key f' s.flows in
      let torn_down = f'.fin_forward && f'.fin_reverse in
      if str_eq info.proto "tcp" && (f'.saw_rst || torn_down)
      then record t {
        flows = remove FlowKey-discrete s.key flows';
        closing = put FlowKey-discrete s.key (closed_as info f') t.closing;
      }
      else record t { flows = flows' }
]

unfoldable pub slot_for : Tracker → PacketInfo → List Event → FlowKey × Bool → Slot
unfolding idle_step active_step fresh_step
slot_for t info emitted (key, is_forward) = fresh_step info (
    active_step t.active_limit info (
      idle_step t.idle_limit info (record {
        key = key;
        is_forward = is_forward;
        flow = get FlowKey-discrete key t.flows;
        ended = emitted;
        flows = t.flows;
      })))

-- The rest of `add_packet` once the packet belongs to no closing or draining flow.
unfoldable pub track : Tracker → PacketInfo → List Event → FlowKey × Bool → List Event × Tracker
unfolding slot_for add_step settle
track t info emitted at =
    let s = slot_for t info emitted at in settle s.ended info.ts (add_step t info s)

unfoldable pub drain_key : Tracker → PacketInfo → FlowKey → FlowKey
drain_key t info key = if has FlowKey-discrete key t.draining then key else flip (forward_key info)

unfoldable pub swallow_or_track :
    Tracker → PacketInfo → List Event → FlowKey × Bool → List Event × Tracker
unfolding drain_key is_teardown_tail track settle
swallow_or_track t info emitted (key, is_forward) =
    let dk = drain_key t info key in
    elim (get FlowKey-discrete dk t.draining) [
      | none ↦ track t info emitted (key, is_forward)
      | some deadline ↦
          if leb info.ts deadline && is_teardown_tail info
          then settle emitted info.ts t
          else track (record t { draining = remove FlowKey-discrete dk t.draining }) info emitted
              (key, is_forward)
    ]

unfoldable pub add_open : Tracker → PacketInfo → List Event → FlowKey × Bool → List Event × Tracker
unfolding late_flow add_late swallow_or_track settle
add_open t info emitted (key, is_forward) = elim (late_flow t key (flip (forward_key info))) [
  | some late ↦ settle emitted info.ts (add_late t info late)
  | none ↦ swallow_or_track t info emitted (key, is_forward)
]

unfoldable pub add_packet : Tracker → PacketInfo → List Event × Tracker
unfolding close_due_flows lookup_key add_open
add_packet t info =
    let (due, t') = close_due_flows info.ts (some info) t in
    add_open t' info due (lookup_key t' info)

unfoldable pub expire_idle : ℕ → Tracker → List Event × Tracker
unfolding close_due_flows settle
expire_idle now t = let (due, t') = close_due_flows now none t in settle due now t'

unfoldable pub close_due : ℕ → Tracker → List Event × Tracker
unfolding close_due_flows count_events
close_due now t = let (due, t') = close_due_flows now none t in count_events due t'

unfoldable pub flush_closing : Dict FlowKey Closing → List Event
flush_closing [] = []
flush_closing ((k, c) ∷ rest) = emit c.flow c.reason ∷ flush_closing rest

unfoldable pub flush_flows : Dict FlowKey FlowState → List Event
flush_flows [] = []
flush_flows ((k, f) ∷ rest) = emit f flush_end ∷ flush_flows rest

unfoldable pub flush : Tracker → List Event × Tracker
unfolding flush_closing flush_flows count_events
flush t =
    count_events (flush_closing t.closing ++ flush_flows t.flows)
      (record t { flows = []; closing = []; draining = [] })

-- A capture: its packets in order, with timer calls between them, and the flush at its end.
pub data Input : Type 0 where
  packet : PacketInfo → Input
  sweep hold : ℕ → Input

unfoldable pub step : Tracker → Input → List Event × Tracker
unfolding add_packet expire_idle close_due
step t (packet info) = add_packet t info
step t (sweep now) = expire_idle now t
step t (hold now) = close_due now t

unfoldable pub run : Tracker → List Input → List Event × Tracker
unfolding step flush
run t [] = flush t
run t (i ∷ inputs) =
    let (events, t') = step t i in let (later, last) = run t' inputs in (events ++ later, last)
