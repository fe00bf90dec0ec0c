-- ===== src/Flow/State.antt =====
-- `_FlowState`: the accumulators of one flow, and `FlowTracker._add_to_flow`.
use algo_guard.Prelude.{
  ℕ, ◌+◌, ◌-◌, Bool, false, ◌&&◌, ◌||◌, not, Option, none, some, List, [], ◌∷◌, ◌++◌, String, max,
  ◌==◌, str_eq, has_char, if◌then◌else◌, replicate, String-discrete, ℕ_discrete,
}
use algo_guard.Prelude.Int.{ℤ, pos, sub_ℕ}
use algo_guard.Flow.Packet.{PacketInfo}

-- A 5-tuple, in the order of the dictionary keys of the tracker.
pub record FlowKey : Type 0 where
  pub src_ip : String
  pub src_port : ℕ
  pub dst_ip : String
  pub dst_port : ℕ
  pub proto : String

unfoldable pub FlowKey-discrete : Discrete FlowKey
unfolding String-discrete ℕ_discrete
FlowKey-discrete = hlevel (String-discrete, ℕ_discrete)

-- The same pair of endpoints in the other direction.
abbrev pub flip : FlowKey → FlowKey
flip k = record {
  src_ip = k.dst_ip;
  src_port = k.dst_port;
  dst_ip = k.src_ip;
  dst_port = k.src_port;
  proto = k.proto;
}

abbrev pub forward_key : PacketInfo → FlowKey
forward_key info = record {
  src_ip = info.src_ip;
  src_port = info.src_port;
  dst_ip = info.dst_ip;
  dst_port = info.dst_port;
  proto = info.proto;
}

pub record FlowState : Type 0 where
  pub src_ip : String
  pub dst_ip : String
  pub src_port : ℕ
  pub dst_port : ℕ
  pub proto : String
  pub first_ts : ℕ
  pub last_ts : ℕ
  pub spkts : ℕ
  pub dpkts : ℕ
  pub sbytes : ℕ
  pub dbytes : ℕ
  pub src_intervals : List ℤ
  pub dst_intervals : List ℤ
  pub last_src_ts : Option ℕ
  pub last_dst_ts : Option ℕ
  pub saw_syn : Bool
  pub saw_fin : Bool
  pub saw_rst : Bool
  pub saw_echo : Bool
  pub fin_forward : Bool
  pub fin_reverse : Bool

-- A flow with the dataclass's defaults.
unfoldable pub new_flow : FlowKey → ℕ → FlowState
new_flow k ts = record {
  src_ip = k.src_ip;
  dst_ip = k.dst_ip;
  src_port = k.src_port;
  dst_port = k.dst_port;
  proto = k.proto;
  first_ts = ts;
  last_ts = ts;
  spkts = 0;
  dpkts = 0;
  sbytes = 0;
  dbytes = 0;
  src_intervals = [];
  dst_intervals = [];
  last_src_ts = none;
  last_dst_ts = none;
  saw_syn = false;
  saw_fin = false;
  saw_rst = false;
  saw_echo = false;
  fin_forward = false;
  fin_reverse = false;
}

-- The key under which a flow was opened.
abbrev pub key_of : FlowState → FlowKey
key_of f = record {
  src_ip = f.src_ip;
  src_port = f.src_port;
  dst_ip = f.dst_ip;
  dst_port = f.dst_port;
  proto = f.proto;
}

-- The gap to the direction's last packet, if it had one, and no gap between the segments.
unfoldable pub add_gaps : List ℤ → Option ℕ → ℕ → ℕ → List ℤ
add_gaps gaps none ts segments = gaps ++ replicate (segments - 1) (pos 0)
add_gaps gaps (some last) ts segments =
    (gaps ++ sub_ℕ ts last ∷ []) ++ replicate (segments - 1) (pos 0)

-- flow.saw_echo, from an ICMP echo reply or request.
is_echo : Option ℕ → Bool
is_echo none = false
is_echo (some t) = t == 0 || t == 8

unfoldable pub add_direction : FlowState → PacketInfo → Bool → FlowState
unfolding add_gaps
add_direction f info is_forward =
    if is_forward
    then record f {
      spkts = f.spkts + info.segments;
      sbytes = f.sbytes + info.length;
      src_intervals = add_gaps f.src_intervals f.last_src_ts info.ts info.segments;
      last_src_ts = some info.ts;
    }
    else record f {
      dpkts = f.dpkts + info.segments;
      dbytes = f.dbytes + info.length;
      dst_intervals = add_gaps f.dst_intervals f.last_dst_ts info.ts info.segments;
      last_dst_ts = some info.ts;
    }

unfoldable pub add_flags : FlowState → PacketInfo → Bool → FlowState
add_flags f info is_forward =
    if str_eq info.proto "tcp"
    then (let fin = has_char b'F' info.tcp_flags in
        record f {
          saw_syn =
              (has_char b'S' info.tcp_flags && not (has_char b'A' info.tcp_flags)) || f.saw_syn;
          saw_fin = fin || f.saw_fin;
          fin_forward = (fin && is_forward) || f.fin_forward;
          fin_reverse = (fin && not is_forward) || f.fin_reverse;
          saw_rst = has_char b'R' info.tcp_flags || f.saw_rst;
        })
    else f

unfoldable pub add_to_flow : FlowState → PacketInfo → Bool → FlowState
unfolding add_direction add_flags is_echo
add_to_flow f info is_forward =
    let timed : FlowState = record f { last_ts = max f.last_ts info.ts } in
    let counted = add_direction timed info is_forward in
    let echoed : FlowState = record counted {
      saw_echo = is_echo info.icmp_type || counted.saw_echo;
    } in
    add_flags echoed info is_forward
