-- ===== src/Capture/Live.antt =====
-- `LiveCaptureSource`: the packets that the capture process sends are counted, the application's own
-- are kept from the tracker, and the flows that end wait in a queue for the monitor. Times are
-- whole microseconds.
use algo_guard.Prelude.{
  ℕ, ◌+◌, Bool, true, false, ◌&&◌, ◌||◌, not, Option, none, some, List, [], ◌∷◌, ◌++◌, String, leb,
  ◌==◌, has_char, if◌then◌else◌,
}
use algo_guard.Flow.Packet.{PacketInfo}
use algo_guard.Flow.Features.{Event}
use algo_guard.Flow.Tracker.{Tracker}
use algo_guard.Flow.Feed.{add_packet, expire_idle, close_due}
use algo_guard.Capture.Connections.{Registry, matches}

-- What the machine answers while one packet is handled: which sockets are open, the monotonic
-- clock, and `SharedConnections.matches` of the maintainer tools, which is told whether the packet
-- opens a connection.
pub record Moment : Type 0 where
  pub canonical : String → String
  pub opened : ℕ → Bool
  pub clock : ℕ
  pub maintenance : PacketInfo → Bool → Bool

pub record Live : Type 0 where
  pub exclude_ports : List ℕ
  pub owned : Registry
  pub tracker : Tracker
  pub flows : List Event
  pub packets_captured : ℕ
  pub packets_dropped : ℕ
  pub packets_excluded : ℕ
  pub packets_excluded_cloud : ℕ
  pub flows_emitted : ℕ
  pub last_idle_check : ℕ

pub data Own : Type 0 where
  web cloud : Own

unfoldable pub is_among : ℕ → List ℕ → Bool
is_among port [] = false
is_among port (p ∷ ports) = port == p || is_among port ports

unfoldable pub is_web : List ℕ → PacketInfo → Bool
unfolding is_among
is_web ports info = is_among info.src_port ports || is_among info.dst_port ports

-- "S" in flags and "A" not in flags
abbrev pub is_syn : PacketInfo → Bool
is_syn info = has_char b'S' info.tcp_flags && not (has_char b'A' info.tcp_flags)

-- Whether a connection is the cloud's, after the look-up among the application's own.
unfoldable pub cloud_kind : Moment → PacketInfo → Bool × Registry → Option Own × Registry
cloud_kind m info (true, owned) = (some cloud, owned)
cloud_kind m info (false, owned) =
    (if m.maintenance info (is_syn info) then some cloud else none, owned)

-- _own_traffic_kind(info)
unfoldable pub own_traffic_kind : Moment → PacketInfo → List ℕ → Registry → Option Own × Registry
unfolding is_web matches cloud_kind
own_traffic_kind m info ports owned =
    if is_web ports info
    then (some web, owned)
    else cloud_kind m info (matches m.canonical m.opened m.clock info owned)

-- _emit(flows), of what a call of the tracker returns
unfoldable pub emit_flows : List Event × Tracker → Live → Live
emit_flows (events, t) s = record s { tracker = t; flows = s.flows ++ events }

abbrev pub cloud_count : Own → ℕ
cloud_count web = 0
cloud_count cloud = 1

-- The packet of a kind, once the kind is known.
unfoldable pub sort_info : PacketInfo → Live → Option Own × Registry → Live
unfolding emit_flows
sort_info info s (some own, owned) = emit_flows (expire_idle info.ts s.tracker) (record s {
  owned = owned;
  packets_excluded = s.packets_excluded + 1;
  packets_excluded_cloud = s.packets_excluded_cloud + cloud_count own;
})
sort_info info s (none, owned) =
    emit_flows (add_packet s.tracker info)
      (record s { owned = owned; packets_captured = s.packets_captured + 1 })

-- _process_info(info)
unfoldable pub process_info : Moment → PacketInfo → Live → Live
unfolding own_traffic_kind sort_info
process_info m info s = sort_info info s (own_traffic_kind m info s.exclude_ports s.owned)

abbrev pub idle_check : ℕ
idle_check = 1_000_000

unfoldable pub expire_check : ℕ → Live → Live
unfolding emit_flows
expire_check now s =
    if leb (s.last_idle_check + idle_check) now
    then emit_flows (expire_idle now s.tracker) (record s { last_idle_check = now })
    else s

-- _expire(now)
unfoldable pub expire : ℕ → Live → Live
unfolding emit_flows expire_check
expire now s = expire_check now (emit_flows (close_due now s.tracker) s)

-- What `capture.receive` gives: packets with an IP layer, the time of the last packet without one,
-- and how many packets the capture process has dropped.
pub record Received : Type 0 where
  pub infos : List (Moment × PacketInfo)
  pub ignored_ts : Option ℕ
  pub dropped : ℕ

unfoldable pub process_all : List (Moment × PacketInfo) → Live → Live
unfolding process_info
process_all [] s = s
process_all ((m, info) ∷ infos) s = process_all infos (process_info m info s)

unfoldable pub pass_ignored : Option ℕ → Live → Live
unfolding emit_flows
pass_ignored none s = s
pass_ignored (some ts) s = emit_flows (expire_idle ts s.tracker) s

-- One turn of `_track`, which ends at the time `now`.
unfoldable pub track_turn : Received → ℕ → Live → Live
unfolding process_all pass_ignored expire
track_turn r now s = expire now (
    pass_ignored r.ignored_ts
      (process_all r.infos (record s { packets_dropped = s.packets_dropped + r.dropped })))

-- `_flows.get` in `next_event`
unfoldable pub take_flow : Live → Option Event × Live
take_flow s = elim s.flows [
  | [] ↦ (none, s)
  | e ∷ events ↦ (some e, record s { flows = events; flows_emitted = s.flows_emitted + 1 })
]
