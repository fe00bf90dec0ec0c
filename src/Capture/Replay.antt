-- ===== src/Capture/Replay.antt =====
-- The replay of a recorded capture against the run of the tracker over its packets.
use mathlib.Core.List.{append_assoc, append-nil}
use algo_guard.Prelude.{
  ℕ, zero, suc, ◌≡◌, refl, sym, ap, ◌∙◌, subst, true, false, Option, none, some, List, [], ◌∷◌,
  ◌++◌, ◌⊎◌, inl, inr, length, Option-cases,
}
use algo_guard.Flow.Packet.{PacketInfo, ScapyPacket, packet_info_from_scapy}
use algo_guard.Flow.Features.{Event}
use algo_guard.Flow.Feed.{Input, packet, step, run, add_packet, flush}
use algo_guard.Capture.Pcap.{
  Read, packet_read, Outcome, flow_event, stop_iteration, Replay, pop_or, end_of_replay, read_end,
  at_end, past, fed, read_flow, read_more, more_reads, handed_out, next_sequential_flow, next_event,
}

-- The packets that carry IP, as the tracker's inputs.
abbrev pub and_then : Option PacketInfo → List Input → List Input
and_then none inputs = inputs
and_then (some info) inputs = packet info ∷ inputs

abbrev pub inputs_of : List ScapyPacket → List Input
inputs_of [] = []
inputs_of (p ∷ packets) = and_then (packet_info_from_scapy p) (inputs_of packets)

abbrev pub reads_of : List ScapyPacket → List Read
reads_of [] = []
reads_of (p ∷ packets) = packet_read p ∷ reads_of packets

-- The flows that a replay has still to give.
abbrev pub Holds : Replay → List Event → Type 0
Holds s flows =
    ((s.exhausted ≡ true) × (s.pending_flows ≡ flows))
    ⊎ ((s.exhausted ≡ false)
        × ((packets : List ScapyPacket) × (s.reader ≡ some (reads_of packets))
            × (s.pending_flows ++ (run s.tracker (inputs_of packets)).0 ≡ flows)))

-- A call gives the first of them, or ends.
abbrev pub Gives : List Event → Outcome × Replay → Type 0
Gives [] (outcome, s) = (outcome ≡ stop_iteration) × Holds s []
Gives (e ∷ flows) (outcome, s) = (outcome ≡ flow_event e) × Holds s flows

pop_or-Gives :
    (s : Replay) (events later : List Event) (otherwise : Outcome × Replay)
    → (events ≡ [] → Gives later otherwise)
    → ((rest : List Event) → Holds (record s { pending_flows = rest }) (rest ++ later))
    → Gives (events ++ later) (pop_or s events otherwise)
unfolding pop_or
pop_or-Gives s [] later otherwise none_left some_left = none_left refl
pop_or-Gives s (e ∷ events) later otherwise none_left some_left = (refl, some_left events)

read_end-Gives : (s : Replay) → Gives (s.pending_flows ++ (flush s.tracker).0) (read_end s)
unfolding read_end end_of_replay
read_end-Gives s =
    let events = (at_end s).pending_flows in
    subst (λ flows. Gives flows (read_end s)) (append-nil events)
      (pop_or-Gives (at_end s) events [] (end_of_replay (at_end s)) (λ e. (refl, inl (refl, e)))
        (λ rest. inl (refl, sym (append-nil rest))))

read_flow-Gives :
    (packets : List ScapyPacket) (s : Replay)
    → s.exhausted ≡ false
    → Gives
        (s.pending_flows ++ (run s.tracker (inputs_of packets)).0)
        (read_flow (reads_of packets) s)
unfolding read_flow run step
read_flow-Gives [] s fresh = read_end-Gives s
read_flow-Gives (p ∷ packets) s fresh = elim (Option-cases (packet_info_from_scapy p)) [
  | inl e ↦ rw (e, read_flow) (read_flow-Gives packets (past (reads_of packets) s) fresh)
  | inr (info, e) ↦
      let reads = reads_of packets in
      let next = fed reads info s in
      let later = (run next.tracker (inputs_of packets)).0 in
      let regroup = append_assoc s.pending_flows (add_packet s.tracker info).0 later in
      let given = read_flow-Gives packets next fresh in
      rw (e, read_flow)
        (subst (λ flows. Gives flows (pop_or next next.pending_flows (read_flow reads next)))
          regroup
          (pop_or-Gives next next.pending_flows later (read_flow reads next)
            (λ empty. subst (λ events. Gives (events ++ later) (read_flow reads next)) empty given)
            (λ rest. inr (fresh, (packets, refl, refl)))))
]

pub next_sequential_flow-Gives :
    (s : Replay) (flows : List Event) → Holds s flows → Gives flows (next_sequential_flow s)
unfolding next_sequential_flow read_more more_reads end_of_replay
next_sequential_flow-Gives s flows (inl (done, same)) =
    subst (λ all. Gives all (next_sequential_flow s)) (append-nil s.pending_flows ∙ same)
      (pop_or-Gives s s.pending_flows [] (read_more s)
        (λ empty.
          subst (λ b. Gives [] (more_reads b s.reader s)) (sym done) (refl, inl (done, empty)))
        (λ rest. inl (done, sym (append-nil rest))))
next_sequential_flow-Gives s flows (inr (fresh, (packets, reader, same))) =
    let later = (run s.tracker (inputs_of packets)).0 in
    subst (λ all. Gives all (next_sequential_flow s)) same
      (pop_or-Gives s s.pending_flows later (read_more s)
        (λ empty.
          subst (λ b. Gives later (more_reads b s.reader s)) (sym fresh)
            (subst (λ r. Gives later (more_reads false r s)) (sym reader)
              (subst (λ events. Gives (events ++ later) (read_flow (reads_of packets) s)) empty
                (read_flow-Gives packets s fresh))))
        (λ rest. inr (fresh, (packets, reader, refl))))

handed_out-Gives :
    (flows : List Event) (r : Outcome × Replay) → Gives flows r → Gives flows (handed_out r)
unfolding handed_out
handed_out-Gives [] (outcome, s) (e, h) =
    subst (λ o. Gives [] (handed_out (o, s))) (sym e) (refl, h)
handed_out-Gives (x ∷ flows) (outcome, s) (e, h) =
    subst (λ o. Gives (x ∷ flows) (handed_out (o, s))) (sym e) (refl, h)

pub next_event-Gives :
    (s : Replay) (flows : List Event) → Holds s flows → Gives flows (next_event s)
unfolding next_event
next_event-Gives s flows h =
    handed_out-Gives flows (next_sequential_flow s) (next_sequential_flow-Gives s flows h)

-- A monitor that asks for flows until there are no more; none when that does not happen within
-- `fuel` calls or a call raises.
unfoldable pub collect : Outcome → Option (List Event) → Option (List Event)
collect (flow_event e) none = none
collect (flow_event e) (some later) = some (e ∷ later)
collect stop_iteration later = some []
collect _ later = none

unfoldable pub drain : ℕ → Replay → Option (List Event)
unfolding collect
drain zero s = none
drain (suc fuel) s = collect (next_event s).0 (drain fuel (next_event s).1)

pub drain-Holds :
    (flows : List Event) (s : Replay) → Holds s flows → drain (suc (length flows)) s ≡ some flows
unfolding drain collect
drain-Holds [] s h = ap (λ o. collect o (drain zero (next_event s).1)) (next_event-Gives s [] h).0
drain-Holds (e ∷ flows) s h =
    let given = next_event-Gives s (e ∷ flows) h in
    ap (λ o. collect o (drain (suc (length flows)) (next_event s).1)) given.0
    ∙ ap (collect (flow_event e)) (drain-Holds flows (next_event s).1 given.1)
