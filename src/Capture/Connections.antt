-- ===== src/Capture/Connections.antt =====
-- cloud_connections.py: `OwnedConnections`, the application's own TCP connections, by local port and
-- remote end. Times are microseconds of the monotonic clock. A socket is a number, and whether its
-- object lives with an open descriptor is a test, asked at each call.
use algo_guard.Prelude.{
  ℕ, ◌+◌, Bool, true, false, ◌&&◌, not, Option, none, some, [], ◌∷◌, String, ltb, leb, str_eq,
  if◌then◌else◌, length, String-discrete, ℕ_discrete,
}
use algo_guard.Prelude.Dict.{Dict, get, has, put, remove}
use algo_guard.Flow.Packet.{PacketInfo}

-- _key(local_port, remote_ip, remote_port), the address in its canonical form
pub record Connection : Type 0 where
  pub local_port : ℕ
  pub remote_ip : String
  pub remote_port : ℕ

unfoldable pub Connection-discrete : Discrete Connection
unfolding String-discrete ℕ_discrete
Connection-discrete = hlevel (String-discrete, ℕ_discrete)

pub record Entry : Type 0 where
  pub owner : Option ℕ
  pub registered_at : ℕ
  pub closed_at : Option ℕ

pub record Registry : Type 0 where
  pub retention : ℕ
  pub limit : ℕ
  pub entries : Dict Connection Entry
  pub registered_total : ℕ
  pub evicted : ℕ

abbrev pub is_open : (ℕ → Bool) → Option ℕ → Bool
is_open opened none = false
is_open opened (some socket) = opened socket

abbrev pub closed_since : ℕ → Option ℕ → ℕ
closed_since now none = now
closed_since now (some closed_at) = closed_at

-- _live_locked(entry, now): its answer, and the entry as it is left.
unfoldable pub live : (ℕ → Bool) → ℕ → ℕ → Entry → Bool × Entry
live opened retention now e =
    if is_open opened e.owner then (true, record e { closed_at = none }) else (
      leb now (closed_since now e.closed_at + retention),
      record e { closed_at = some (closed_since now e.closed_at) },
    )

unfoldable pub prune_loop : (ℕ → Bool) → ℕ → ℕ → Dict Connection Entry → Dict Connection Entry
unfolding live
prune_loop opened retention now [] = []
prune_loop opened retention now ((k, e) ∷ rest) =
    let kept = prune_loop opened retention now rest in
    let (stays, e') = live opened retention now e in if stays then (k, e') ∷ kept else kept

-- _prune_locked()
unfoldable pub prune : (ℕ → Bool) → ℕ → Registry → Registry
unfolding prune_loop
prune opened now r = record r { entries = prune_loop opened r.retention now r.entries }

-- min(self._entries, key=… registered_at): the first of the oldest.
unfoldable pub oldest : Connection → ℕ → Dict Connection Entry → Connection
oldest k at [] = k
oldest k at ((j, e) ∷ rest) =
    if ltb e.registered_at at then oldest j e.registered_at rest else oldest k at rest

unfoldable pub evict_oldest : Dict Connection Entry → Dict Connection Entry
unfolding oldest
evict_oldest [] = []
evict_oldest ((k, e) ∷ rest) =
    remove Connection-discrete (oldest k e.registered_at rest) ((k, e) ∷ rest)

unfoldable pub make_room : Connection → Registry → Registry
unfolding evict_oldest
make_room k r =
    if not (has Connection-discrete k r.entries) && leb r.limit (length r.entries)
    then record r { entries = evict_oldest r.entries; evicted = r.evicted + 1 }
    else r

abbrev pub fresh_entry : Option ℕ → ℕ → Entry
fresh_entry owner now = record { owner = owner; registered_at = now; closed_at = none }

-- register(local_port, remote_ip, remote_port, owner)
unfoldable pub register : (ℕ → Bool) → ℕ → Connection → Option ℕ → Registry → Registry
unfolding prune make_room
register opened now k owner r =
    let roomy = make_room k (prune opened now r) in
    record roomy {
      entries = put Connection-discrete k (fresh_entry owner now) roomy.entries;
      registered_total = roomy.registered_total + 1;
    }

-- adopt(key, owner)
unfoldable pub adopt : Connection → ℕ → Registry → Registry
adopt k socket r = elim (get Connection-discrete k r.entries) [
  | none ↦ r
  | some e ↦ record r {
    entries =
        put Connection-discrete k (record e { owner = some socket; closed_at = none }) r.entries;
  }
]

abbrev pub released : ℕ → Entry → Entry
released now e = elim e.closed_at [
  | some closed_at ↦ e
  | none ↦ record e { owner = none; closed_at = some now }
]

-- release(key)
unfoldable pub release : ℕ → Connection → Registry → Registry
release now k r = elim (get Connection-discrete k r.entries) [
  | none ↦ r
  | some e ↦ record r { entries = put Connection-discrete k (released now e) r.entries }
]

-- What `matches` does with the entry of one key.
unfoldable pub look_up : (ℕ → Bool) → ℕ → Connection → Registry → Option Entry → Bool × Registry
unfolding live
look_up opened now k r none = (false, r)
look_up opened now k r (some e) =
    let (stays, e') = live opened r.retention now e in
    if stays
    then (true, record r { entries = put Connection-discrete k e' r.entries })
    else (false, record r { entries = remove Connection-discrete k r.entries })

unfoldable pub match_key : (ℕ → Bool) → ℕ → Connection → Registry → Bool × Registry
unfolding look_up
match_key opened now k r = look_up opened now k r (get Connection-discrete k r.entries)

abbrev pub outbound : (String → String) → PacketInfo → Connection
outbound canonical info = record {
  local_port = info.src_port;
  remote_ip = canonical info.dst_ip;
  remote_port = info.dst_port;
}

abbrev pub inbound : (String → String) → PacketInfo → Connection
inbound canonical info = record {
  local_port = info.dst_port;
  remote_ip = canonical info.src_ip;
  remote_port = info.src_port;
}

-- The second key is looked up only when the first has no live entry.
unfoldable pub match_either : (ℕ → Bool) → ℕ → Connection → Bool × Registry → Bool × Registry
unfolding match_key
match_either opened now k (true, r) = (true, r)
match_either opened now k (false, r) = match_key opened now k r

-- matches(protocol, …) of a packet, whose protocol is in lower case; `canonical` is _canonical_ip.
unfoldable pub matches :
    (String → String) → (ℕ → Bool) → ℕ → PacketInfo → Registry → Bool × Registry
unfolding match_either
matches canonical opened now info r =
    let found = match_key opened now (outbound canonical info) r in
    if str_eq info.proto "tcp"
    then match_either opened now (inbound canonical info) found
    else (false, r)
