-- ===== src/Flow/Packet.antt =====
-- `PacketInfo` and `packet_info_from_scapy`. What the function reads off a Scapy packet is a
-- record of its own. Times are whole microseconds.
use algo_guard.Prelude.{
  ℕ, zero, suc, ◌+◌, ◌-◌, ◌*◌, ◌/◌, ◌%◌, Option, none, some, String, ltb, ◌==◌, str_eq,
  if◌then◌else◌,
}
use Prim.Native.String.{◌++◌}

abbrev pub ethernet_mtu : ℕ
ethernet_mtu = 1500

pub record PacketInfo : Type 0 where
  pub ts : ℕ
  pub src_ip : String
  pub dst_ip : String
  pub src_port : ℕ
  pub dst_port : ℕ
  pub proto : String
  pub length : ℕ
  pub ttl : ℕ
  pub tcp_flags : String
  pub segments : ℕ
  pub icmp_type : Option ℕ

-- The fields of the IP layer; `raw_bytes` is `len(bytes(ip))`, `ihl` counts 32-bit words.
pub record IpLayer : Type 0 where
  pub len : Option ℕ
  pub raw_bytes : ℕ
  pub proto : ℕ
  pub ihl : ℕ
  pub src : String
  pub dst : String
  pub ttl : ℕ

-- The TCP layer, or else the UDP layer (`flags` and `dataofs` are read of TCP only).
pub record PortLayer : Type 0 where
  pub sport : ℕ
  pub dport : ℕ
  pub flags : String
  pub dataofs : ℕ

pub record ScapyPacket : Type 0 where
  pub time : ℕ
  pub ip : Option IpLayer
  pub ports : Option PortLayer
  pub icmp : Option ℕ

-- `str` of a number, its last digit last.
digit : ℕ → String
digit n =
    if n == 0
    then "0"
    else if n == 1
    then "1"
    else if n == 2
    then "2"
    else if n == 3
    then "3"
    else if n == 4
    then "4"
    else if n == 5
    then "5"
    else if n == 6
    then "6"
    else if n == 7
    then "7"
    else if n == 8
    then "8"
    else "9"

digits_of : ℕ → ℕ → String → String
unfolding digit
digits_of zero n acc = acc
digits_of (suc fuel) n acc =
    let more = digits_of fuel (n / 10) (digit (n % 10) ++ acc) in
    if ltb n 10 then digit n ++ acc else more

unfoldable pub str : ℕ → String
unfolding digits_of
str n = digits_of (suc n) n ""

-- PROTO_NAMES.get(n, str(n))
unfoldable pub proto_name : ℕ → String
proto_name n = if n == 1 then "icmp" else if n == 6 then "tcp" else if n == 17 then "udp" else str n

-- int(ip.len) if ip.len else len(bytes(ip))
unfoldable pub ip_bytes : IpLayer → ℕ
ip_bytes ip = elim ip.len [ none ↦ ip.raw_bytes | some n ↦ if n == 0 then ip.raw_bytes else n ]

-- -(-a // b) for a positive b
unfoldable pub ceil_div : ℕ → ℕ → ℕ
ceil_div a b = (a + (b - 1)) / b

unfoldable pub headers : IpLayer → PortLayer → ℕ
headers ip layer4 = ip.ihl * 4 + layer4.dataofs * 4

-- How many wire packets a captured TCP packet stands for, and their bytes together.
unfoldable pub wire : ℕ → ℕ → ℕ × ℕ
unfolding ceil_div
wire bytes header =
    if ltb ethernet_mtu bytes
    then (let payload = bytes - header in
        let segments = ceil_div payload (ethernet_mtu - header) in
        (segments, payload + segments * header))
    else (1, bytes)

unfoldable pub packet_info_from_scapy : ScapyPacket → Option PacketInfo
packet_info_from_scapy packet = elim packet.ip [
  | none ↦ none
  | some ip ↦
      let proto = proto_name ip.proto in
      let bytes = ip_bytes ip in
      let icmp = if str_eq proto "icmp" then packet.icmp else none in
      let info = λ (sport : ℕ) (dport : ℕ) (flags : String) (sent : ℕ × ℕ).
        let r : PacketInfo = record {
          ts = packet.time;
          src_ip = ip.src;
          dst_ip = ip.dst;
          src_port = sport;
          dst_port = dport;
          proto = proto;
          length = sent.1;
          ttl = ip.ttl;
          tcp_flags = flags;
          segments = sent.0;
          icmp_type = icmp;
        } in
        r in
      elim packet.ports [
        | none ↦ some (info 0 0 "" (1, bytes))
        | some layer4 ↦
            if str_eq proto "tcp"
            then some (info layer4.sport layer4.dport layer4.flags (wire bytes (headers ip layer4)))
            else some (info layer4.sport layer4.dport "" (1, bytes))
      ]
]
