-- ===== src/Pipe/Framing.antt =====
-- What `receive` makes of the bytes that `send` wrote, whole or cut.
use algo_guard.Prelude.{
  ℕ, zero, suc, ◌+◌, ◌*◌, ◌/◌, ◌%◌, ◌^◌, ◌<◌, ◌≡◌, refl, sym, ap, ◌∙◌, Option, some, List, [], ◌∷◌,
  ◌++◌, length, take, drop, arith, length-append, ◌≤◌, ltb, Bool-cases, inl, inr, length-take,
  length-drop,
}
use algo_guard.Pipe.{
  header_size, pack, unpack, unpack_onto, Pickle, received, send, receive, load, closed,
}
use mathlib.Core.List.{append_assoc}
use native.Mathlib.Nat.{div-add-mod, pow-suc}

unpack_onto-append :
    (acc : ℕ) (bytes : List ℕ) (b : ℕ)
    → unpack_onto acc (bytes ++ b ∷ []) ≡ unpack_onto acc bytes * 256 + b
unfolding unpack_onto
unpack_onto-append acc [] b = refl
unpack_onto-append acc (x ∷ bytes) b = unpack_onto-append (acc * 256 + x) bytes b

length-pack : (size n : ℕ) → length (pack size n) ≡ size
unfolding pack
length-pack zero n = refl
length-pack (suc size) n =
    omega (arith, length-append (pack size (n / 256)) (n % 256 ∷ []), length-pack size (n / 256))

-- The header is the length again.
unpack-pack : (size n : ℕ) → n < 256 ^ size → unpack (pack size n) ≡ n
unfolding unpack pack
unpack-pack zero n h = omega arith
unpack-pack (suc size) n h =
    let e = div-add-mod n 256 in
    let p : 256 ^ suc size ≡ 256 ^ size * 256 = pow-suc 256 size in
    unpack_onto-append 0 (pack size (n / 256)) (n % 256)
    ∙ ap (λ (q : ℕ). q * 256 + n % 256) (unpack-pack size (n / 256) (omega (arith, e, p, h)))
    ∙ omega (arith, e)

module _ {A : Type 0} where
  take-append : (xs ys : List A) → take (length xs) (xs ++ ys) ≡ xs
  take-append [] ys = refl
  take-append (x ∷ xs) ys = ap (◌∷◌ x) (take-append xs ys)

  take-take : (m n : ℕ) (xs : List A) → m ≤ n → take m (take n xs) ≡ take m xs
  take-take zero n xs h = refl
  take-take (suc m) zero xs h = absurd (omega arith)
  take-take (suc m) (suc n) [] h = refl
  take-take (suc m) (suc n) (x ∷ xs) h = ap (◌∷◌ x) (take-take m n xs (omega arith))

  drop-append : (xs ys : List A) → drop (length xs) (xs ++ ys) ≡ ys
  drop-append [] ys = refl
  drop-append (x ∷ xs) ys = drop-append xs ys

module _ {V : Type 0} (p : Pickle V) where
  receive-framed :
      (body rest : List ℕ)
      → length body < 256 ^ 8
      → receive p (pack header_size (length body) ++ (body ++ rest)) ≡ load (p.loads body) rest
  unfolding receive
  receive-framed body rest short =
      let n = length body in
      let e8 = length-pack header_size n in
      let header : take header_size (pack header_size n ++ (body ++ rest)) ≡ pack header_size n =
        ap (λ (k : ℕ). take k (pack header_size n ++ (body ++ rest))) (sym e8)
        ∙ take-append (pack header_size n) (body ++ rest) in
      let after : drop header_size (pack header_size n ++ (body ++ rest)) ≡ body ++ rest =
        ap (λ (k : ℕ). drop k (pack header_size n ++ (body ++ rest))) (sym e8)
        ∙ drop-append (pack header_size n) (body ++ rest) in
      rw
        (
          header,
          after,
          unpack-pack header_size n short,
          take-append body rest,
          drop-append body rest,
        )
        (ground (arith, e8))

  sent_is :
      (value : V) (sent : List ℕ)
      → send p value ≡ some sent
      → (length (p.dumps value) < 256 ^ 8)
        × (sent ≡ pack header_size (length (p.dumps value)) ++ p.dumps value)
  unfolding send
  sent_is value sent written = ground arith

  -- If the pickle of a value reads back as the value, then whatever `send` writes for it,
  -- `receive` reads as that value, and leaves exactly the bytes that follow.
  pub send-receive :
      (value : V) (sent rest : List ℕ)
      → p.loads (p.dumps value) ≡ some value
      → send p value ≡ some sent
      → receive p (sent ++ rest) ≡ received value rest
  unfolding send load
  send-receive value sent rest back written =
      let body = p.dumps value in
      let w = sent_is value sent written in
      ap (λ (bytes : List ℕ). receive p (bytes ++ rest)) w.1
      ∙ ap (receive p) (append_assoc (pack header_size (length body)) body rest)
      ∙ receive-framed body rest w.0
      ∙ ap (λ (r : Option V). load r rest) back

  cut_short :
      (body : List ℕ) (n : ℕ)
      → length body < 256 ^ 8
      → n < 8 + length body
      → receive p (take n (pack header_size (length body) ++ body)) ≡ closed
  unfolding receive
  cut_short body n short cut =
      let sent = pack header_size (length body) ++ body in
      let s = take n sent in
      let e8 = length-pack header_size (length body) in
      let all = length-append (pack header_size (length body)) body in
      elim (Bool-cases (ltb n 8)) [
        | inl early ↦ ground (arith, length-take header_size s, length-take n sent)
        | inr late ↦
            let header : take header_size s ≡ pack header_size (length body) =
              take-take header_size n sent (ground arith)
              ∙ ap (λ (k : ℕ). take k sent) (sym e8)
              ∙ take-append (pack header_size (length body)) body in
            rw (header, unpack-pack header_size (length body) short)
              (ground (
                arith,
                e8,
                all,
                length-take n sent,
                length-drop header_size s,
                length-take (length body) (drop header_size s),
              ))
      ]

  -- A stream that ends before the whole of a message has come is seen as closed, wherever it ends:
  -- `receive` never reads a value from a part of it.
  pub receive-take :
      (value : V) (sent : List ℕ) (n : ℕ)
      → send p value ≡ some sent
      → n < length sent
      → receive p (take n sent) ≡ closed
  receive-take value sent n written cut =
      let w = sent_is value sent written in
      let body = p.dumps value in
      let longer : length sent ≡ 8 + length body =
        ap length w.1
        ∙ length-append (pack header_size (length body)) body
        ∙ ap (λ (k : ℕ). k + length body) (length-pack header_size (length body)) in
      ap (λ (bytes : List ℕ). receive p (take n bytes)) w.1
      ∙ cut_short body n w.0 (omega (arith, longer, cut))
