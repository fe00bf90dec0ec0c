-- ===== src/Capture/Pcap.antt =====
-- `PcapReplaySource`: a recorded capture, replayed flow by flow as it is read, or whole and shuffled.
use algo_guard.Prelude.{
  ℕ, ◌+◌, Bool, true, false, Option, none, some, List, [], ◌∷◌, ◌++◌, ltb, length, drop,
}
use algo_guard.Flow.Packet.{PacketInfo, ScapyPacket, packet_info_from_scapy}
use algo_guard.Flow.Features.{Event}
use algo_guard.Flow.Tracker.{Tracker}
use algo_guard.Flow.Feed.{add_packet, flush}

-- One turn of the reader: the monitor has cancelled, or the reader gives a packet or raises.
pub data Read : Type 0 where
  packet_read : ScapyPacket → Read
  cancelled_here unreadable : Read

-- How a call for the next flow ends; `stop_iteration` once every flow has been given.
pub data Outcome : Type 0 where
  flow_event : Event → Outcome
  stop_iteration cancelled failed unprepared : Outcome

-- The reader is the turns that are left, or none once it is closed.
pub record Replay : Type 0 where
  pub reader : Option (List Read)
  pub tracker : Tracker
  pub pending_flows : List Event
  pub exhausted : Bool
  pub packets_read : ℕ
  pub flows_emitted : ℕ
  pub row_total : Option ℕ

-- PcapReplaySource(path), with its reader opened by `prepare`
unfoldable pub open_replay : List Read → Tracker → Replay
open_replay reads t = record {
  reader = some reads;
  tracker = t;
  pending_flows = [];
  exhausted = false;
  packets_read = 0;
  flows_emitted = 0;
  row_total = none;
}

-- `self._pending_flows.pop(0)` where there is one; `otherwise` where there is none.
unfoldable pub pop_or : Replay → List Event → Outcome × Replay → Outcome × Replay
pop_or s [] otherwise = otherwise
pop_or s (e ∷ events) otherwise = (flow_event e, record s { pending_flows = events })

unfoldable pub end_of_replay : Replay → Outcome × Replay
end_of_replay s = (stop_iteration, record s { row_total = some s.flows_emitted })

-- The end of the file: the tracker is flushed and the reader closed.
abbrev pub at_end : Replay → Replay
at_end s = record s {
  tracker = (flush s.tracker).1;
  pending_flows = s.pending_flows ++ (flush s.tracker).0;
  exhausted = true;
  reader = none;
}

abbrev pub past : List Read → Replay → Replay
past rest s = record s { reader = some rest }

-- A packet with an IP layer goes to the tracker.
abbrev pub fed : List Read → PacketInfo → Replay → Replay
fed rest info s = record s {
  reader = some rest;
  tracker = (add_packet s.tracker info).1;
  pending_flows = s.pending_flows ++ (add_packet s.tracker info).0;
  packets_read = s.packets_read + 1;
}

unfoldable pub read_end : Replay → Outcome × Replay
unfolding pop_or end_of_replay
read_end s = pop_or (at_end s) (at_end s).pending_flows (end_of_replay (at_end s))

-- The `while` loop of `_next_sequential_flow`.
unfoldable pub read_flow : List Read → Replay → Outcome × Replay
unfolding read_end pop_or
read_flow [] s = read_end s
read_flow (cancelled_here ∷ rest) s = (cancelled, s)
read_flow (unreadable ∷ rest) s = (failed, past rest s)
read_flow (packet_read p ∷ rest) s =
    let skipped = read_flow rest (past rest s) in
    elim (packet_info_from_scapy p) [
      | none ↦ skipped
      | some info ↦
          let later = read_flow rest (fed rest info s) in
          pop_or (fed rest info s) (fed rest info s).pending_flows later
    ]

unfoldable pub more_reads : Bool → Option (List Read) → Replay → Outcome × Replay
unfolding read_flow end_of_replay
more_reads true reader s = end_of_replay s
more_reads false none s = (unprepared, s)
more_reads false (some reads) s = read_flow reads s

unfoldable pub read_more : Replay → Outcome × Replay
unfolding more_reads
read_more s = more_reads s.exhausted s.reader s

-- _next_sequential_flow()
unfoldable pub next_sequential_flow : Replay → Outcome × Replay
unfolding pop_or read_more
next_sequential_flow s = pop_or s s.pending_flows (read_more s)

-- `next_event` in sequential order counts a flow; an error of the reader closes the source.
unfoldable pub handed_out : Outcome × Replay → Outcome × Replay
handed_out (flow_event e, s) = (flow_event e, record s { flows_emitted = s.flows_emitted + 1 })
handed_out (failed, s) = (failed, record s { reader = none })
handed_out (outcome, s) = (outcome, s)

unfoldable pub next_event : Replay → Outcome × Replay
unfolding next_sequential_flow handed_out
next_event s = handed_out (next_sequential_flow s)

-- backlog() in sequential order
unfoldable pub backlog : Replay → Bool
backlog s = elim s.pending_flows [
  | e ∷ events ↦ true
  | [] ↦ elim s.exhausted [ true ↦ false | false ↦ true ]
]

-- What the loop of `_prepare_buffered` collects, with the number of packets; none where it raises.
unfoldable pub buffer_flows : List Read → Tracker → ℕ → Option (List Event × ℕ)
unfolding add_packet flush
buffer_flows [] t n = some ((flush t).0, n)
buffer_flows (cancelled_here ∷ rest) t n = none
buffer_flows (unreadable ∷ rest) t n = none
buffer_flows (packet_read p ∷ rest) t n =
    let skipped = buffer_flows rest t n in
    elim (packet_info_from_scapy p) [
      | none ↦ skipped
      | some info ↦
          let (events, t') = add_packet t info in
          elim (buffer_flows rest t' (n + 1)) [
            | none ↦ none
            | some (later, m) ↦ some (events ++ later, m)
          ]
    ]

-- A capture in random order: its flows, and the place of the next.
pub record Shuffled : Type 0 where
  pub flows : List Event
  pub index : ℕ
  pub packets_read : ℕ

-- `_prepare_buffered`, by what `random.shuffle` does; none where it raises.
unfoldable pub prepare_buffered : (List Event → List Event) → List Read → Tracker → Option Shuffled
unfolding buffer_flows
prepare_buffered shuffle reads t = elim (buffer_flows reads t 0) [
  | none ↦ none
  | some ([], n) ↦ none
  | some (e ∷ events, n) ↦
      some (record { flows = shuffle (e ∷ events); index = 0; packets_read = n })
]

unfoldable pub at_index : List Event → Shuffled → Outcome × Shuffled
at_index [] s = (stop_iteration, s)
at_index (e ∷ events) s = (flow_event e, record s { index = s.index + 1 })

-- `next_event` in random order: `self._flows[self._index]`, unless the index is past the end.
unfoldable pub next_shuffled : Shuffled → Outcome × Shuffled
unfolding at_index
next_shuffled s = at_index (drop s.index s.flows) s

unfoldable pub shuffled_backlog : Shuffled → Bool
shuffled_backlog s = ltb s.index (length s.flows)

-- What `prepare` leaves in sequential order: it takes the first flow and appends it to the pending
-- ones; none where it raises, also for a capture without flows.
unfoldable pub requeue : Outcome × Replay → Option Replay
requeue (flow_event e, s) = some (record s { pending_flows = s.pending_flows ++ e ∷ [] })
requeue (_, s) = none

unfoldable pub prepare_sequential : List Read → Tracker → Option Replay
unfolding open_replay next_sequential_flow requeue
prepare_sequential reads t = requeue (next_sequential_flow (open_replay reads t))
