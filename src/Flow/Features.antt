-- ===== src/Flow/Features.antt =====
-- The features of a finished flow: `_service_for`, `_state_for`, `_mean_interval_ms`,
-- `_load_bps`, `compute_features` and `_emit`. A feature that the source rounds to six decimals is
-- a whole number of millionths of its unit (seconds, packets per second, bits per second,
-- milliseconds), computed exactly and rounded half to even as Python's `round` does.
use algo_guard.Prelude.{
  ℕ, zero, suc, ◌+◌, ◌-◌, ◌*◌, ◌/◌, ◌%◌, ◌^◌, ◌&&◌, ◌||◌, Option, none, some, List, [], ◌∷◌, String,
  ltb, leb, ◌==◌, str_eq, if◌then◌else◌, length,
}
use algo_guard.Prelude.Int.{ℤ, pos, negsuc, ◌+ℤ◌}
use algo_guard.Flow.State.{FlowState}

abbrev pub service_ports : List (ℕ × String)
service_ports =
    (20, "ftp-data")
    ∷ (21, "ftp")
    ∷ (22, "ssh")
    ∷ (25, "smtp")
    ∷ (53, "dns")
    ∷ (67, "dhcp")
    ∷ (68, "dhcp")
    ∷ (80, "http")
    ∷ (110, "pop3")
    ∷ (161, "snmp")
    ∷ (587, "smtp")
    ∷ (1812, "radius")
    ∷ (6667, "irc")
    ∷ (8080, "http")
    ∷ []

port_name : ℕ → List (ℕ × String) → Option String
port_name port [] = none
port_name port ((p, name) ∷ rest) = if p == port then some name else port_name port rest

unfoldable pub service_for : FlowState → String
unfolding port_name
service_for f = elim (port_name f.dst_port service_ports) [
  | some name ↦ name
  | none ↦ elim (port_name f.src_port service_ports) [ some name ↦ name | none ↦ "-" ]
]

pub data ConnState : Type 0 where
  eco rst fin con req int : ConnState

unfoldable pub state_for : FlowState → ConnState
state_for f =
    let answered = ltb 0 f.spkts && ltb 0 f.dpkts in
    if str_eq f.proto "icmp" && f.saw_echo
    then eco
    else if str_eq f.proto "tcp"
    then (if f.saw_rst
        then rst
        else if f.saw_fin
        then fin
        else if answered
        then con
        else if f.saw_syn
        then req
        else int)
    else if answered
    then con
    else int

-- num / den rounded to the nearest whole number, a tie to the even one.
unfoldable pub round_half_even : ℕ → ℕ → ℕ
round_half_even num den =
    let q = num / den in
    let twice = 2 * (num % den) in
    if ltb twice den then q else if ltb den twice then suc q else if q % 2 == 0 then q else suc q

abbrev pub ticks : ℕ
ticks = 10 ^ 6

abbrev pub millionths : ℕ
millionths = 10 ^ 6

unfoldable pub sum_ℤ : List ℤ → ℤ
unfolding ◌+ℤ◌
sum_ℤ [] = pos 0
sum_ℤ (x ∷ xs) = x +ℤ sum_ℤ xs

minus : ℕ → ℤ
minus zero = pos 0
minus (suc n) = negsuc n

round_ℤ : ℤ → ℕ → ℤ
unfolding round_half_even minus
round_ℤ (pos n) den = pos (round_half_even n den)
round_ℤ (negsuc n) den = minus (round_half_even (suc n) den)

scale_ℤ : ℕ → ℤ → ℤ
scale_ℤ k (pos n) = pos (k * n)
scale_ℤ k (negsuc n) = negsuc (k * suc n - 1)

-- Of gaps in microseconds: sum / len * 1000 / 10^6 milliseconds, in millionths.
unfoldable pub mean_interval_ms : List ℤ → ℤ
unfolding sum_ℤ round_ℤ scale_ℤ
mean_interval_ms [] = pos 0
mean_interval_ms (x ∷ xs) = round_ℤ (scale_ℤ 1000 (sum_ℤ (x ∷ xs))) (length (x ∷ xs))

-- bytes * 8 * (packets - 1) / packets / dur, with `dur` in microseconds.
unfoldable pub load_bps : ℕ → ℕ → ℕ → ℕ
unfolding round_half_even
load_bps byte_count packets dur =
    if dur == 0 || leb packets 1
    then 0
    else round_half_even (byte_count * 8 * (packets - 1) * ticks * millionths) (packets * dur)

unfoldable pub rate_of : ℕ → ℕ → ℕ
unfolding round_half_even
rate_of total dur =
    if ltb 0 dur && ltb 1 total then round_half_even ((total - 1) * ticks * millionths) dur else 0

pub record Features : Type 0 where
  pub dur : ℕ
  pub proto : String
  pub service : String
  pub state : ConnState
  pub spkts : ℕ
  pub dpkts : ℕ
  pub sbytes : ℕ
  pub dbytes : ℕ
  pub rate : ℕ
  pub sload : ℕ
  pub dload : ℕ
  pub sinpkt : ℤ
  pub dinpkt : ℤ

-- max(flow.last_ts - flow.first_ts, 0.0) is the truncated difference.
unfoldable pub compute_features : FlowState → Features
compute_features f = record {
  dur = dur;
  proto = f.proto;
  service = service_for f;
  state = state_for f;
  spkts = f.spkts;
  dpkts = f.dpkts;
  sbytes = f.sbytes;
  dbytes = f.dbytes;
  rate = rate_of (f.spkts + f.dpkts) dur;
  sload = load_bps f.sbytes f.spkts dur;
  dload = load_bps f.dbytes f.dpkts dur;
  sinpkt = mean_interval_ms f.src_intervals;
  dinpkt = mean_interval_ms f.dst_intervals;
}
  where
    dur : ℕ
    dur = f.last_ts - f.first_ts

pub data EndReason : Type 0 where
  idle_timeout active_timeout fin_close rst_close flush_end : EndReason

-- The three connection-history features that `_count` adds.
pub record History : Type 0 where
  pub ct_dst_src_ltm : ℕ
  pub ct_dst_ltm : ℕ
  pub ct_srv_dst : ℕ

pub record Event : Type 0 where
  pub features : Features
  pub history : Option History
  pub source_ip : String
  pub destination_ip : String
  pub source_port : ℕ
  pub destination_port : ℕ
  pub protocol : String
  pub first_ts : ℕ
  pub last_ts : ℕ
  pub end_reason : EndReason

unfoldable pub emit : FlowState → EndReason → Event
unfolding compute_features
emit f reason = record {
  features = compute_features f;
  history = none;
  source_ip = f.src_ip;
  destination_ip = f.dst_ip;
  source_port = f.src_port;
  destination_port = f.dst_port;
  protocol = f.proto;
  first_ts = f.first_ts;
  last_ts = f.last_ts;
  end_reason = reason;
}
