-- ===== src/Capture/Tests.antt =====
-- The traffic sources run on short captures.
use algo_guard.Prelude.{
  ℕ, ◌+◌, ◌≤◌, ◌≡◌, refl, Bool, true, false, ◌&&◌, ◌||◌, Option, none, some, List, [], ◌∷◌, ◌++◌,
  map, length, arith, str_eq,
}
use algo_guard.Prelude.Dict.{get, put, has}
use algo_guard.Flow.Packet.{PacketInfo, ScapyPacket, packet_info_from_scapy, proto_name}
use algo_guard.Flow.State.{FlowKey-discrete, add_to_flow, new_flow}
use algo_guard.Flow.Features.{Event, emit}
use algo_guard.Flow.Tracker.{Tracker, init}
use algo_guard.Flow.Feed.{run, add_packet, flush}
use algo_guard.Capture.Pcap.{buffer_flows, prepare_sequential, Replay, next_event}
use algo_guard.Capture.Replay.{inputs_of, reads_of, drain}
use algo_guard.Capture.Prepared.{
  first_burst, Prepares, prepare_sequential-Prepares, buffer_flows-run,
}
use algo_guard.Capture.Connections.{
  Connection, Connection-discrete, Registry, register, fresh_entry, matches, inbound, outbound,
}
use algo_guard.Capture.Owned.{is_current, register-bounded, matches-is_current}
use algo_guard.Capture.Live.{Moment, Live, Received, track_turn}
use algo_guard.Capture.Fed.{Turned, track_turn-Turned}

abbrev tracker : Tracker
tracker = init 15_000_000 120_000_000

-- A UDP packet from a port of one host.
abbrev datagram : ℕ → ℕ → ScapyPacket
datagram time sport = record {
  time = time;
  ip = some (record {
    len = some 60;
    raw_bytes = 60;
    proto = 17;
    ihl = 5;
    src = "10.0.0.1";
    dst = "10.0.0.2";
    ttl = 64;
  });
  ports = some (record { sport = sport; dport = 53; flags = ""; dataofs = 0 });
  icmp = none;
}

-- Two conversations that both last to the end of the file, and a packet without an IP layer.
abbrev capture : List ScapyPacket
capture =
    datagram 1_000_000 5001
    ∷ record { time = 1_100_000; ip = none; ports = none; icmp = none }
    ∷ datagram 1_200_000 5002
    ∷ []

prepare_sequential-Prepares_example :
    let burst = first_burst tracker (inputs_of capture) in
    (burst.0 ++ burst.1 ≡ (run tracker (inputs_of capture)).0)
    × Prepares burst (prepare_sequential (reads_of capture) tracker)
prepare_sequential-Prepares_example = prepare_sequential-Prepares capture tracker

buffer_flows-run_example :
    buffer_flows (reads_of capture) tracker 4
    ≡ some ((run tracker (inputs_of capture)).0, 4 + length (inputs_of capture))
buffer_flows-run_example = buffer_flows-run capture tracker 4

abbrev ports_of : Option (List Event) → List ℕ
ports_of none = []
ports_of (some events) = map (λ (e : Event). e.source_port) events

abbrev replayed : Option Replay → List ℕ
replayed none = []
replayed (some s) = ports_of (drain 3 s)

emitted : map (λ (e : Event). e.source_port) (run tracker (inputs_of capture)).0 ≡ 5001 ∷ 5002 ∷ []
unfolding run packet_info_from_scapy proto_name get init put FlowKey-discrete has add_to_flow
    new_flow emit
emitted = refl

-- The first of two flows that end together is replayed last.
rotated : replayed (prepare_sequential (reads_of capture) tracker) ≡ 5002 ∷ 5001 ∷ []
unfolding prepare_sequential packet_info_from_scapy proto_name add_packet get init put
    FlowKey-discrete has add_to_flow new_flow flush drain next_event emit
rotated = refl

abbrev registry : Registry
registry = record { retention = 120; limit = 1; entries = []; registered_total = 0; evicted = 0 }

abbrev cloud_api : Connection
cloud_api = record { local_port = 50_000; remote_ip = "203.0.113.5"; remote_port = 443 }

abbrev opened : ℕ → Bool
opened socket = true

register-bounded_example :
    (length (register opened 10 cloud_api (some 1) registry).entries ≤ 1)
    × (get Connection-discrete cloud_api (register opened 10 cloud_api (some 1) registry).entries
        ≡ some (fresh_entry (some 1) 10))
register-bounded_example =
    register-bounded opened 10 cloud_api (some 1) registry (omega arith) (omega arith)

abbrev own_packet : PacketInfo
own_packet = record {
  ts = 1_000_000;
  src_ip = "10.0.0.1";
  dst_ip = "203.0.113.5";
  src_port = 50_000;
  dst_port = 443;
  proto = "tcp";
  length = 60;
  ttl = 64;
  tcp_flags = "A";
  segments = 1;
  icmp_type = none;
}

abbrev registered : Registry
registered = register opened 10 cloud_api (some 1) registry

matches-is_current_example : (matches (λ ip. ip) opened 20 own_packet registered).0 ≡ (
    str_eq "tcp" "tcp"
    && (is_current opened registered.retention 20
          (get Connection-discrete (outbound (λ ip. ip) own_packet) registered.entries)
        || is_current opened registered.retention 20
            (get Connection-discrete (inbound (λ ip. ip) own_packet) registered.entries)))
matches-is_current_example = matches-is_current (λ ip. ip) opened 20 own_packet registered

abbrev moment : Moment
moment = record {
  canonical = λ ip. ip;
  opened = opened;
  clock = 20;
  maintenance = λ info new_connection. false;
}

abbrev source : Live
source = record {
  exclude_ports = 5000 ∷ [];
  owned = registered;
  tracker = tracker;
  flows = [];
  packets_captured = 0;
  packets_dropped = 0;
  packets_excluded = 0;
  packets_excluded_cloud = 0;
  flows_emitted = 0;
  last_idle_check = 0;
}

abbrev received : Received
received = record {
  infos =
      (moment, own_packet)
      ∷ (moment, record own_packet { dst_ip = "198.51.100.7"; ts = 1_050_000 })
      ∷ [];
  ignored_ts = some 1_100_000;
  dropped = 2;
}

track_turn-Turned_example :
    Turned received 20_000_000 source (track_turn received 20_000_000 source)
track_turn-Turned_example = track_turn-Turned received 20_000_000 source
