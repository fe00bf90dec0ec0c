-- ===== src/Flow/Tests.antt =====
-- The flow tracker run on short captures.
use algo_guard.Prelude.{
  ℕ, ◌+◌, ◌≤◌, ◌≡◌, refl, none, List, [], ◌∷◌, String, arith, All, length, map, String-discrete,
  ℕ_discrete, has_char,
}
use algo_guard.Flow.Packet.{PacketInfo, wire, proto_name, str}
use algo_guard.Flow.State.{FlowKey-discrete, add_to_flow, new_flow}
use algo_guard.Prelude.Dict.{get, put, has, remove}
use algo_guard.Flow.Features.{Event, emit, round_half_even}
use algo_guard.Flow.Tracker.{Tracker, init, is_due, close_hold, connection_window, count_events}
use algo_guard.Flow.Feed.{Input, packet, hold, step, run, add_packet, late_closing}
use algo_guard.Flow.Feed.Invariant.{Inv, init-Inv}
use algo_guard.Flow.Feed.Keeps.{step-Inv}
use algo_guard.Flow.Feed.Measure.{packets, bytes}
use algo_guard.Flow.Feed.Conservation.{Counted, add_packet-conserves}
use algo_guard.Flow.Feed.Captures.{Balance, IsOf, packets_of, run-conserves}
use algo_guard.Flow.Feed.Timing.{IsTimed, run-Timed}
use algo_guard.Flow.History.{IsCounted, count_events-IsCounted}
use algo_guard.Flow.Numbers.{Segmented, wire-Segmented}

abbrev idle : ℕ
idle = 15_000_000

abbrev active : ℕ
active = 120_000_000

abbrev tracker : Tracker
tracker = init idle active

-- A TCP packet between the two hosts of the captures.
abbrev forth : ℕ → String → PacketInfo
forth ts flags = record {
  ts = ts;
  src_ip = "10.0.0.1";
  dst_ip = "10.0.0.2";
  src_port = 5000;
  dst_port = 80;
  proto = "tcp";
  length = 60;
  ttl = 64;
  tcp_flags = flags;
  segments = 1;
  icmp_type = none;
}

abbrev back : ℕ → String → PacketInfo
back ts flags = record {
  ts = ts;
  src_ip = "10.0.0.2";
  dst_ip = "10.0.0.1";
  src_port = 80;
  dst_port = 5000;
  proto = "tcp";
  length = 1000;
  ttl = 64;
  tcp_flags = flags;
  segments = 1;
  icmp_type = none;
}

-- A connection that is torn down, and a duplicate ACK after its event.
abbrev teardown : List Input
teardown =
    packet (forth 1_000_000 "S")
    ∷ packet (back 1_010_000 "SA")
    ∷ packet (forth 1_020_000 "FA")
    ∷ packet (back 1_030_000 "FA")
    ∷ packet (forth 1_040_000 "A")
    ∷ hold 1_200_000
    ∷ packet (back 1_210_000 "A")
    ∷ []

-- One event for the whole connection, the duplicate ACK swallowed.
teardown_sent : map (λ (e : Event). e.features.spkts) (run tracker teardown).0 ≡ 3 ∷ []
unfolding run step add_packet FlowKey-discrete String-discrete ℕ_discrete get init add_to_flow
    has_char new_flow put has is_due remove late_closing emit
teardown_sent = refl

run-conserves_example :
    let events = (run (init idle active) teardown).0 in
    Balance (IsOf events) packets 0 (packets_of teardown) events
    × Balance (IsOf events) bytes 0 (packets_of teardown) events
run-conserves_example = run-conserves idle active teardown (omega arith)

add_packet-conserves_example :
    Counted packets tracker (forth 1_000_000 "S") × Counted bytes tracker (forth 1_000_000 "S")
add_packet-conserves_example =
    add_packet-conserves tracker (forth 1_000_000 "S") (init-Inv idle active)

step-Inv_example : Inv (step tracker (packet (forth 1_000_000 "S"))).1
step-Inv_example = step-Inv tracker (packet (forth 1_000_000 "S")) (init-Inv idle active)

run-Timed_example : All (IsTimed (active + close_hold)) (run tracker teardown).0
run-Timed_example = run-Timed idle active teardown (omega arith)

count_events-IsCounted_example :
    All IsCounted (count_events (run tracker teardown).0 tracker).0
    × (length (count_events (run tracker teardown).0 tracker).1.recent ≤ connection_window)
    × ((count_events (run tracker teardown).0 tracker).1.flows_emitted
        ≡ tracker.flows_emitted + length (run tracker teardown).0)
count_events-IsCounted_example =
    count_events-IsCounted (run tracker teardown).0 tracker (unfold init in omega arith)

-- A send of 64,000 bytes is 44 packets on the wire.
wire_64k : wire 64_000 52 ≡ (45, 66_288)
unfolding wire
wire_64k = refl

wire-Segmented_example : Segmented 64_000 52 (wire 64_000 52).0 (wire 64_000 52).1
wire-Segmented_example = wire-Segmented 64_000 52 (omega arith)

halves : round_half_even 5 2 + round_half_even 7 2 ≡ 6
unfolding round_half_even
halves = refl

unknown_protocol : proto_name 132 ≡ "132"
unfolding proto_name str
unknown_protocol = refl
