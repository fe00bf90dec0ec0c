-- ===== src/Capture/Owned.antt =====
-- How many connections the registry holds, and which packets it takes for the application's own.
use algo_guard.Prelude.{
  ℕ, ◌+◌, ◌≤◌, ◌<◌, ◌≡◌, refl, ap, ◌∙◌, Bool, true, false, ◌&&◌, ◌||◌, Option, none, some, [], ◌∷◌,
  String, leb, ltb, str_eq, length, arith, if_elim, inl, inr, ◌⊎◌,
}
use algo_guard.Prelude.Dict.{Dict, get, has, put, remove, get-put, get-remove}
use algo_guard.Flow.Packet.{PacketInfo}
use algo_guard.Capture.Connections.{
  Connection, Connection-discrete, Entry, Registry, is_open, closed_since, live, prune_loop, prune,
  oldest, evict_oldest, make_room, fresh_entry, register, look_up, match_key, match_either, matches,
  outbound, inbound,
}

module _ {K V : Type 0} (dec : Discrete K) where
  length-put : (k : K) (v : V) (d : Dict K V) → length (put dec k v d) ≤ length d + 1
  unfolding put
  length-put k v [] = omega arith
  length-put k v ((j, w) ∷ d) = ground (arith, length-put k v d)

  length-put_old :
      (k : K) (v : V) (d : Dict K V) → has dec k d ≡ true → length (put dec k v d) ≡ length d
  unfolding put has
  length-put_old k v [] h = cc
  length-put_old k v ((j, w) ∷ d) h = ground (arith, length-put_old k v d)

  length-remove-le : (k : K) (d : Dict K V) → length (remove dec k d) ≤ length d
  unfolding remove
  length-remove-le k [] = omega arith
  length-remove-le k ((j, w) ∷ d) = ground (arith, length-remove-le k d)

  length-remove : (k : K) (d : Dict K V) → has dec k d ≡ true → length (remove dec k d) < length d
  unfolding remove has
  length-remove k [] h = cc
  length-remove k ((j, w) ∷ d) h = ground (arith, length-remove k d, length-remove-le k d)

length-prune_loop :
    (opened : ℕ → Bool) (retention now : ℕ) (d : Dict Connection Entry)
    → length (prune_loop opened retention now d) ≤ length d
unfolding prune_loop
length-prune_loop opened retention now [] = omega arith
length-prune_loop opened retention now ((k, e) ∷ d) =
    ground (arith, length-prune_loop opened retention now d)

has-oldest :
    (k : Connection) (at : ℕ) (d whole : Dict Connection Entry)
    → has Connection-discrete k whole ≡ true
    → ((j : Connection)
        → has Connection-discrete j d ≡ true
        → has Connection-discrete j whole ≡ true)
    → has Connection-discrete (oldest k at d) whole ≡ true
unfolding oldest has
has-oldest k at [] whole h inside = h
has-oldest k at ((j, e) ∷ d) whole h inside =
    if_elim (λ i. has Connection-discrete i whole ≡ true) (ltb e.registered_at at)
      (λ _.
        has-oldest j e.registered_at d whole (inside j (ground arith))
          (λ i g. inside i (ground arith)))
      (λ _. has-oldest k at d whole h (λ i g. inside i (ground arith)))

length-evict_oldest :
    (d : Dict Connection Entry) → 0 < length d → length (evict_oldest d) < length d
unfolding evict_oldest has
length-evict_oldest [] h = absurd (omega arith)
length-evict_oldest ((k, e) ∷ d) h =
    length-remove Connection-discrete (oldest k e.registered_at d) ((k, e) ∷ d)
      (has-oldest k e.registered_at d ((k, e) ∷ d) (ground arith) (λ j g. ground arith))

-- Room for one entry more, or the entry is there.
make_room-has :
    (k : Connection) (r : Registry)
    → 0 < r.limit
    → length r.entries ≤ r.limit
    → ((has Connection-discrete k (make_room k r).entries ≡ true)
        × (length (make_room k r).entries ≤ r.limit))
      ⊎ (length (make_room k r).entries < r.limit)
unfolding make_room
make_room-has k r pos full = ground (arith, length-evict_oldest r.entries)

-- With a positive limit, a registry that is within its limit stays within it when a connection is
-- registered, and the connection is registered with its socket, open from then on.
pub register-bounded :
    (opened : ℕ → Bool) (now : ℕ) (k : Connection) (owner : Option ℕ) (r : Registry)
    → 0 < r.limit
    → length r.entries ≤ r.limit
    → (length (register opened now k owner r).entries ≤ r.limit)
      × (get Connection-discrete k (register opened now k owner r).entries
          ≡ some (fresh_entry owner now))
unfolding register prune
register-bounded opened now k owner r pos full =
    let pruned = prune opened now r in
    let fits : length pruned.entries ≤ r.limit =
      omega (arith, length-prune_loop opened r.retention now r.entries) in
    let roomy = make_room k pruned in
    (
      elim (make_room-has k pruned pos fits) [
        | inl (old, within) ↦
            omega (
              arith,
              length-put_old Connection-discrete k (fresh_entry owner now) roomy.entries old,
            )
        | inr room ↦
            omega (arith, length-put Connection-discrete k (fresh_entry owner now) roomy.entries)
      ],
      ground (arith, get-put Connection-discrete k k (fresh_entry owner now) roomy.entries),
    )

-- A connection is the application's own while its socket is open, and for the retention after it
-- was seen closed.
abbrev pub is_current : (ℕ → Bool) → ℕ → ℕ → Option Entry → Bool
is_current opened retention now none = false
is_current opened retention now (some e) =
    is_open opened e.owner || leb now (closed_since now e.closed_at + retention)

look_up-is_current :
    (opened : ℕ → Bool) (now : ℕ) (k : Connection) (r : Registry) (found : Option Entry)
    → (look_up opened now k r found).0 ≡ is_current opened r.retention now found
unfolding look_up live
look_up-is_current opened now k r none = refl
look_up-is_current opened now k r (some e) = ground arith

-- After a look-up that failed, every other key is found as before.
look_up-others :
    (opened : ℕ → Bool) (now : ℕ) (k j : Connection) (r : Registry) (found : Option Entry)
    → get Connection-discrete k r.entries ≡ found
    → (look_up opened now k r found).0 ≡ false
    → is_current opened
        (look_up opened now k r found).1.retention
        now
        (get Connection-discrete j (look_up opened now k r found).1.entries)
      ≡ is_current opened r.retention now (get Connection-discrete j r.entries)
unfolding look_up live
look_up-others opened now k j r none e h = refl
look_up-others opened now k j r (some x) e h =
    ground (arith, get-remove Connection-discrete k j r.entries)

match_either-is_current :
    (opened : ℕ → Bool) (now : ℕ) (j : Connection) (found : Bool × Registry)
    → (match_either opened now j found).0 ≡ (
        found.0
        || is_current opened found.1.retention now (get Connection-discrete j found.1.entries))
unfolding match_either match_key
match_either-is_current opened now j (true, r) = refl
match_either-is_current opened now j (false, r) = look_up-is_current opened now j r _

or_under : (a b c : Bool) → (a ≡ false → b ≡ c) → (a || b) ≡ (a || c)
or_under true b c h = refl
or_under false b c h = h refl

-- A packet is taken for the application's own exactly when it is TCP and one of its two ends, seen
-- from this machine, is a registered connection whose socket is open, or was seen closed no longer
-- ago than the retention.
pub matches-is_current :
    (canonical : String → String) (opened : ℕ → Bool) (now : ℕ) (info : PacketInfo) (r : Registry)
    → (matches canonical opened now info r).0 ≡ (
        str_eq info.proto "tcp"
        && (is_current opened r.retention now
              (get Connection-discrete (outbound canonical info) r.entries)
            || is_current opened r.retention now
                (get Connection-discrete (inbound canonical info) r.entries)))
unfolding matches match_key
matches-is_current canonical opened now info r =
    let k = outbound canonical info in
    let j = inbound canonical info in
    let e = get Connection-discrete k r.entries in
    let found = look_up opened now k r e in
    if_elim
      (λ (x : Bool × Registry). x.0 ≡ (
        str_eq info.proto "tcp"
        && (is_current opened r.retention now e
            || is_current opened r.retention now (get Connection-discrete j r.entries))))
      (str_eq info.proto "tcp")
      (λ tcp. rw tcp (
        match_either-is_current opened now j found
        ∙ or_under found.0 _ _ (look_up-others opened now k j r e refl)
        ∙ ap (λ b. b || is_current opened r.retention now (get Connection-discrete j r.entries))
            (look_up-is_current opened now k r e)))
      (λ other. rw other refl)
