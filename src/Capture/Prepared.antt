-- ===== src/Capture/Prepared.antt =====
-- What `prepare` makes of a recorded capture, in sequential and in random order.
use mathlib.Core.List.{append_assoc, append-nil}
use algo_guard.Prelude.{
  ℕ, suc, ◌+◌, ◌≡◌, refl, sym, ap, ◌∙◌, subst, Option, none, some, List, [], ◌∷◌, ◌++◌, inl, inr,
  length, true, false, ◌⊎◌, arith, Option-cases,
}
use algo_guard.Flow.Packet.{ScapyPacket, packet_info_from_scapy}
use algo_guard.Flow.Features.{Event}
use algo_guard.Flow.Tracker.{Tracker}
use algo_guard.Flow.Feed.{Input, step, run, add_packet, flush}
use algo_guard.Capture.Pcap.{
  Outcome, flow_event, stop_iteration, Replay, open_replay, requeue, prepare_sequential,
  next_sequential_flow, buffer_flows, pop_or, end_of_replay, read_end, read_flow, read_more,
  more_reads, at_end, past, fed,
}
use algo_guard.Capture.Replay.{Holds, inputs_of, reads_of, drain, drain-Holds}

-- The flows of the first call of the tracker that emits any, and those that follow in the run.
abbrev pub burst_or : List Event → List Event → List Event × List Event → List Event × List Event
burst_or [] later next = next
burst_or (e ∷ events) later next = (e ∷ events, later)

unfoldable pub first_burst : Tracker → List Input → List Event × List Event
first_burst t [] = ((flush t).0, [])
first_burst t (i ∷ inputs) =
    let (events, t') = step t i in burst_or events (run t' inputs).0 (first_burst t' inputs)

burst_or-append :
    (events later : List Event) (next : List Event × List Event)
    → next.0 ++ next.1 ≡ later
    → (burst_or events later next).0 ++ (burst_or events later next).1 ≡ events ++ later
burst_or-append [] later next h = h
burst_or-append (e ∷ events) later next h = refl

first_burst-append :
    (t : Tracker) (inputs : List Input)
    → (first_burst t inputs).0 ++ (first_burst t inputs).1 ≡ (run t inputs).0
unfolding first_burst run
first_burst-append t [] = append-nil (flush t).0
first_burst-append t (i ∷ inputs) =
    let (events, t') = step t i in
    burst_or-append events (run t' inputs).0 (first_burst t' inputs) (first_burst-append t' inputs)

-- What the reader and the tracker of a replay have still to give.
abbrev Rests : Replay → List Event → Type 0
Rests s later =
    ((s.exhausted ≡ true) × (later ≡ []))
    ⊎ ((s.exhausted ≡ false)
        × ((packets : List ScapyPacket) × (s.reader ≡ some (reads_of packets))
            × ((run s.tracker (inputs_of packets)).0 ≡ later)))

-- A call that starts with nothing pending gives the first flow of the burst and keeps the others.
abbrev Bursts : List Event × List Event → Outcome × Replay → Type 0
Bursts ([], later) (outcome, s) = outcome ≡ stop_iteration
Bursts (e ∷ events, later) (outcome, s) =
    (outcome ≡ flow_event e) × (s.pending_flows ≡ events) × Rests s later

pop_or-Bursts :
    (s : Replay) (events later : List Event) (next : List Event × List Event)
    → (otherwise : Outcome × Replay) → (events ≡ [] → Bursts next otherwise)
    → Rests s later
    → Bursts (burst_or events later next) (pop_or s events otherwise)
unfolding pop_or
pop_or-Bursts s [] later next otherwise h rests = h refl
pop_or-Bursts s (e ∷ events) later next otherwise h rests = (refl, refl, rests)

flushed-Bursts :
    (events pending : List Event) (u : Replay)
    → u.exhausted ≡ true
    → pending ≡ events
    → Bursts (events, []) (pop_or u pending (end_of_replay u))
unfolding pop_or end_of_replay
flushed-Bursts [] pending u done e =
    subst (λ p. Bursts ([], []) (pop_or u p (end_of_replay u))) (sym e) refl
flushed-Bursts (x ∷ events) pending u done e =
    subst (λ p. Bursts (x ∷ events, []) (pop_or u p (end_of_replay u))) (sym e)
      (refl, refl, inl (done, refl))

read_flow-Bursts :
    (packets : List ScapyPacket) (s : Replay)
    → s.exhausted ≡ false
    → s.pending_flows ≡ []
    → Bursts (first_burst s.tracker (inputs_of packets)) (read_flow (reads_of packets) s)
unfolding read_flow read_end first_burst step
read_flow-Bursts [] s fresh empty =
    flushed-Bursts (flush s.tracker).0 (at_end s).pending_flows (at_end s) refl
      (ap (λ events. events ++ (flush s.tracker).0) empty)
read_flow-Bursts (p ∷ packets) s fresh empty = elim (Option-cases (packet_info_from_scapy p)) [
  | inl e ↦ rw (e, read_flow) (read_flow-Bursts packets (past (reads_of packets) s) fresh empty)
  | inr (info, e) ↦
      let reads = reads_of packets in
      let next = fed reads info s in
      let (events, t) = add_packet s.tracker info in
      let later = (run t (inputs_of packets)).0 in
      let burst = burst_or events later (first_burst t (inputs_of packets)) in
      rw (e, read_flow, first_burst)
        (subst (λ pending. Bursts burst (pop_or next (pending ++ events) (read_flow reads next)))
          (sym empty)
          (pop_or-Bursts next events later (first_burst t (inputs_of packets))
            (read_flow reads next)
            (λ none_here.
              read_flow-Bursts packets next fresh
                (ap (λ before. before ++ events) empty ∙ none_here))
            (inr (fresh, (packets, refl, refl)))))
]

-- What `prepare` promises of a capture whose first burst and later flows are these: without flows
-- it is refused; the first flow `e` of the burst comes behind the others of the burst.
abbrev pub Prepares : List Event × List Event → Option Replay → Type 0
Prepares ([], later) prepared = prepared ≡ none
Prepares (e ∷ events, later) prepared =
    (s : Replay) × (prepared ≡ some s)
    × (drain (suc (length (events ++ e ∷ later))) s ≡ some (events ++ e ∷ later))

put_back : Event → Replay → Replay
put_back e s = record s { pending_flows = s.pending_flows ++ e ∷ [] }

put_back-Holds :
    (e : Event) (events later : List Event) (s : Replay)
    → s.pending_flows ≡ events
    → Rests s later
    → Holds (put_back e s) (events ++ e ∷ later)
unfolding put_back
put_back-Holds e events later s same (inl (done, none_left)) =
    inl (done, ap (λ pending. pending ++ e ∷ []) same ∙ ap (λ l. events ++ e ∷ l) (sym none_left))
put_back-Holds e events later s same (inr (fresh, (packets, reader, left))) =
    let rest = (run s.tracker (inputs_of packets)).0 in
    inr (
      fresh,
      (
        packets,
        reader,
        append_assoc s.pending_flows (e ∷ []) rest
            ∙ ap (λ pending. pending ++ e ∷ rest) same
            ∙ ap (λ l. events ++ e ∷ l) left,
      ),
    )

requeue-Prepares :
    (burst : List Event × List Event) (r : Outcome × Replay)
    → Bursts burst r
    → Prepares burst (requeue r)
unfolding requeue put_back
requeue-Prepares ([], later) (outcome, s) e = ap (λ o. requeue (o, s)) e
requeue-Prepares (e ∷ events, later) (outcome, s) (same, pending, rests) = (
  put_back e s,
  ap (λ o. requeue (o, s)) same,
  drain-Holds (events ++ e ∷ later) (put_back e s) (put_back-Holds e events later s pending rests),
)

-- Let the burst be the flows of the first call of the tracker, over the capture's IP packets and
-- the flush at its end, that emits any: the burst and the flows after it are the tracker's run.
-- A capture that has been prepared for sequential replay, asked until it ends, gives the burst
-- without its first flow, then that flow, then all the later flows, in the order of the run. A
-- capture without flows is refused.
pub prepare_sequential-Prepares :
    (packets : List ScapyPacket) (t : Tracker)
    → let burst = first_burst t (inputs_of packets) in
      (burst.0 ++ burst.1 ≡ (run t (inputs_of packets)).0)
      × Prepares burst (prepare_sequential (reads_of packets) t)
unfolding prepare_sequential open_replay next_sequential_flow pop_or read_more more_reads
prepare_sequential-Prepares packets t = (
  first_burst-append t (inputs_of packets),
  requeue-Prepares (first_burst t (inputs_of packets))
      (next_sequential_flow (open_replay (reads_of packets) t))
      (read_flow-Bursts packets (open_replay (reads_of packets) t) refl refl),
)

with_count :
    (events : List Event) (m n : ℕ)
    → m ≡ n
    → ◌≡◌ {A = Option (List Event × ℕ)} (some (events, m)) (some (events, n))
with_count events m n e = cc

-- In random order, what is shuffled is what the tracker emits over the IP packets and its flush,
-- and the packets counted are those.
pub buffer_flows-run :
    (packets : List ScapyPacket) (t : Tracker) (n : ℕ)
    → buffer_flows (reads_of packets) t n
      ≡ some ((run t (inputs_of packets)).0, n + length (inputs_of packets))
unfolding buffer_flows run step
buffer_flows-run [] t n = with_count (flush t).0 n (n + 0) (omega arith)
buffer_flows-run (p ∷ packets) t n = elim (Option-cases (packet_info_from_scapy p)) [
  | inl e ↦ rw (e, buffer_flows) (buffer_flows-run packets t n)
  | inr (info, e) ↦
      let (events, t') = add_packet t info in
      let later = (run t' (inputs_of packets)).0 in
      rw (e, buffer_flows, buffer_flows-run packets t' (n + 1))
        (with_count (events ++ later) (n + 1 + length (inputs_of packets))
          (n + suc (length (inputs_of packets))) (omega arith))
]
