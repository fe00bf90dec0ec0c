-- ===== src/Flow/Numbers.antt =====
-- The numbers behind the features: rounding, loads, and the segments of a large send.
use algo_guard.Prelude.{
  ℕ, zero, suc, ◌+◌, ◌-◌, ◌*◌, ◌/◌, ◌%◌, ◌≤◌, ◌<◌, ◌≡◌, refl, arith, ◌⊎◌, inl, inr, Bool-cases, ltb,
  ltb→lt, ap, ◌==◌,
}
use algo_guard.Flow.Packet.{wire, ceil_div, ethernet_mtu}
use algo_guard.Flow.Features.{round_half_even}
use native.Mathlib.Nat.{div-add-mod, mod-lt}

-- A quotient with its remainder, rounded down or up.
abbrev pub Near : ℕ → ℕ → ℕ → Type 0
Near num den q = (2 * num ≤ 2 * (den * q) + den) × (2 * (den * q) ≤ 2 * num + den)

down-Near : (num den q r : ℕ) → den * q + r ≡ num → 2 * r ≤ den → Near num den q
down-Near num den q r e h = omega arith

up-Near : (num den q r : ℕ) → den * q + r ≡ num → r < den → den ≤ 2 * r → Near num den (suc q)
up-Near num den q r e l h = omega arith

-- For a positive denominator the rounded quotient is a nearest one: it is within half a unit of
-- the exact value on both sides.
pub round_half_even-Near : (num den : ℕ) → 0 < den → Near num den (round_half_even num den)
unfolding round_half_even
round_half_even-Near num den h =
    let e = div-add-mod num den in
    let l = mod-lt num h in
    let q = num / den in
    let r = num % den in
    elim (Bool-cases (ltb (2 * r) den)) [
      | inl b ↦ rw (b, round_half_even) (down-Near num den q r e (ground arith))
      | inr b ↦ elim (Bool-cases (ltb den (2 * r))) [
        | inl c ↦ rw (b, c, round_half_even) (up-Near num den q r e l (ground arith))
        | inr c ↦ elim (Bool-cases (q % 2 == 0)) [
          | inl d ↦ rw (b, c, d, round_half_even) (down-Near num den q r e (ground arith))
          | inr d ↦ rw (b, c, d, round_half_even) (up-Near num den q r e l (ground arith))
        ]
      ]
    ]

ceil_div_bounds : (a b : ℕ) → 0 < b → (a ≤ b * ceil_div a b) × (b * ceil_div a b < a + b)
unfolding ceil_div
ceil_div_bounds a b h =
    let e = div-add-mod (a + (b - 1)) b in
    let l = mod-lt (a + (b - 1)) h in (omega arith, omega arith)

-- `segments` wire packets of at most an MTU carry `bytes` captured bytes, in `length` bytes with
-- the headers that each of them has, and no fewer segments would do.
pub record Segmented (bytes header segments length : ℕ) : Type 0 where
  pub some_packet : 1 ≤ segments
  pub carried : length + header ≡ bytes + segments * header
  pub fits : length ≤ segments * ethernet_mtu
  pub fewest : (segments ≡ 1) ⊎ ((segments - 1) * (ethernet_mtu - header) + header < bytes)

large_send :
    (bytes header d k : ℕ)
    → header + d ≡ ethernet_mtu
    → ethernet_mtu < bytes
    → bytes - header ≤ d * k
    → d * k < bytes - header + d
    → Segmented bytes header k (bytes - header + k * header)
large_send bytes header d zero e b l u = absurd (omega arith)
large_send bytes header d (suc k) e b l u = record {
  some_packet = omega arith;
  carried = omega arith;
  fits = omega (arith, ap (λ (n : ℕ). suc k * n) e);
  fewest = inr (less (ethernet_mtu - header) (omega arith));
}
  where
    less : (n : ℕ) → n ≡ d → (suc k - 1) * n + header < bytes
    less n same = let back : suc k - 1 ≡ k = omega arith in rw (same, back) (omega arith)

-- Headers shorter than an MTU: a captured TCP packet is counted as the fewest segments that a
-- network card makes of it, each within the MTU, and with the bytes of all their headers.
pub wire-Segmented :
    (bytes header : ℕ)
    → header < ethernet_mtu
    → Segmented bytes header (wire bytes header).0 (wire bytes header).1
unfolding wire
wire-Segmented bytes header h = elim (Bool-cases (ltb ethernet_mtu bytes)) [
  | inr b ↦
      rw (b, wire)
        (record {
          some_packet = omega arith;
          carried = omega arith;
          fits = ground arith;
          fewest = inl refl;
        })
  | inl b ↦
      let d = ethernet_mtu - header in
      let c = ceil_div_bounds (bytes - header) d (omega arith) in
      rw (b, wire)
        (large_send bytes header d (ceil_div (bytes - header) d) (omega arith) (ltb→lt _ _ b) c.0
          c.1)
]
