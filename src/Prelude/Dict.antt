-- ===== src/Prelude/Dict.antt =====
-- Python's `dict`, in insertion order: an assignment to a key that is there keeps its place, a
-- new key goes to the end.
use Prim.Native.Nat.{ℕ, ◌+◌}
use mathlib.Core.Path.{◌≡◌, refl}
use mathlib.Core.Logic.{ite}
use mathlib.Core.Bool.{Bool, true, false, not, ◌&&◌, ◌||◌}
use mathlib.Core.Option.{Option, none, some}
use mathlib.Core.List.{List, [], ◌∷◌}
use native.Mathlib.Omega.{arith}
use algo_guard.Prelude.Lists.{total}

-- A decision as a Boolean.
abbrev pub hit {ℓ} : {P : Type ℓ} → Dec P → Bool
hit (yes p) = true
hit (no n) = false

abbrev pub Dict {ℓ} : Type ℓ → Type ℓ → Type ℓ
Dict K V = List (K × V)

module _ {ℓ} {K V : Type ℓ} (dec : Discrete K) where
  -- d.get(k)
  unfoldable pub get : K → Dict K V → Option V
  get k [] = none
  get k ((j, v) ∷ d) = ite (dec j k) (some v) (get k d)

  -- k in d
  unfoldable pub has : K → Dict K V → Bool
  has k [] = false
  has k ((j, v) ∷ d) = hit (dec j k) || has k d

  -- d[k] = v
  unfoldable pub put : K → V → Dict K V → Dict K V
  put k v [] = (k, v) ∷ []
  put k v ((j, w) ∷ d) = ite (dec j k) ((j, v) ∷ d) ((j, w) ∷ put k v d)

  -- del d[k], d.pop(k, None)
  unfoldable pub remove : K → Dict K V → Dict K V
  remove k [] = []
  remove k ((j, v) ∷ d) = ite (dec j k) (remove k d) ((j, v) ∷ remove k d)

  -- No key stands twice.
  abbrev pub Unique : Dict K V → Type 0
  Unique [] = Unit
  Unique ((k, v) ∷ d) = (has k d ≡ false) × Unique d

  pub has-put : (k j : K) (v : V) (d : Dict K V) → has j (put k v d) ≡ (hit (dec k j) || has j d)
  unfolding has put
  has-put k j v [] = refl
  has-put k j v ((i, w) ∷ d) = ground (arith, has-put k j v d)

  pub has-remove : (k j : K) (d : Dict K V) → has j (remove k d) ≡ (not (hit (dec k j)) && has j d)
  unfolding has remove
  has-remove k j [] = ground arith
  has-remove k j ((i, w) ∷ d) = ground (arith, has-remove k j d)

  pub get-put :
      (k j : K) (v : V) (d : Dict K V) → get j (put k v d) ≡ ite (dec k j) (some v) (get j d)
  unfolding get put
  get-put k j v [] = refl
  get-put k j v ((i, w) ∷ d) = ground (arith, get-put k j v d)

  pub get-remove : (k j : K) (d : Dict K V) → get j (remove k d) ≡ ite (dec k j) none (get j d)
  unfolding get remove
  get-remove k j [] = ground arith
  get-remove k j ((i, w) ∷ d) = ground (arith, get-remove k j d)

  pub get-none-has : (k : K) (d : Dict K V) → get k d ≡ none → has k d ≡ false
  unfolding get has
  get-none-has k [] h = refl
  get-none-has k ((i, w) ∷ d) h = ground (arith, get-none-has k d)

  pub has-false-get : (k : K) (d : Dict K V) → has k d ≡ false → get k d ≡ none
  unfolding get has
  has-false-get k [] h = refl
  has-false-get k ((i, w) ∷ d) h = ground (arith, has-false-get k d)

  pub get-some-has : (k : K) (d : Dict K V) (v : V) → get k d ≡ some v → has k d ≡ true
  unfolding get has
  get-some-has k [] v h = cc
  get-some-has k ((i, w) ∷ d) v h = ground (arith, get-some-has k d v)

  pub Unique-put : (k : K) (v : V) (d : Dict K V) → Unique d → Unique (put k v d)
  unfolding put has
  Unique-put k v [] u = (refl, tt)
  Unique-put k v ((i, w) ∷ d) u = ground (arith, Unique-put k v d u.1, has-put k i v d)

  pub Unique-remove : (k : K) (d : Dict K V) → Unique d → Unique (remove k d)
  unfolding remove has
  Unique-remove k [] u = tt
  Unique-remove k ((i, w) ∷ d) u = ground (arith, Unique-remove k d u.1, has-remove k i d)

  pub remove_absent : (k : K) (d : Dict K V) → has k d ≡ false → remove k d ≡ d
  unfolding remove has
  remove_absent k [] h = refl
  remove_absent k ((i, w) ∷ d) h = ground (arith, remove_absent k d)

  -- What the values weigh together.
  abbrev pub weigh : (V → ℕ) → Dict K V → ℕ
  weigh w d = total (λ e. w e.1) d

  pub weigh-remove_absent :
      (w : V → ℕ) (k : K) (d : Dict K V) → get k d ≡ none → weigh w (remove k d) ≡ weigh w d
  weigh-remove_absent w k d h = rw (remove_absent k d (get-none-has k d h))

  pub weigh-remove :
      (w : V → ℕ) (k : K) (d : Dict K V) (v : V)
      → Unique d
      → get k d ≡ some v
      → weigh w (remove k d) + w v ≡ weigh w d
  unfolding get remove total has
  weigh-remove w k [] v u h = cc
  weigh-remove w k ((i, x) ∷ d) v u h = elim (dec i k) [
    | yes e ↦ ground (arith, remove_absent k d)
    | no n ↦ ground (arith, weigh-remove w k d v u.1)
  ]

  pub weigh-put_old :
      (w : V → ℕ) (k : K) (v x : V) (d : Dict K V)
      → get k d ≡ some x
      → weigh w (put k v d) + w x ≡ weigh w d + w v
  unfolding get put total
  weigh-put_old w k v x [] h = cc
  weigh-put_old w k v x ((i, y) ∷ d) h = ground (arith, weigh-put_old w k v x d)

  pub weigh-put_new :
      (w : V → ℕ) (k : K) (v : V) (d : Dict K V)
      → has k d ≡ false
      → weigh w (put k v d) ≡ weigh w d + w v
  unfolding has put total
  weigh-put_new w k v [] h = omega arith
  weigh-put_new w k v ((i, y) ∷ d) h = ground (arith, weigh-put_new w k v d)

module _ {ℓ κ} {K V : Type ℓ} (dec : Discrete K) (P : K → V → Type κ) where
  -- Every entry satisfies `P`.
  abbrev pub Entries : Dict K V → Type κ
  Entries [] = Unit
  Entries ((k, v) ∷ d) = P k v × Entries d

  pub get-Entries : (k : K) (d : Dict K V) (v : V) → Entries d → get dec k d ≡ some v → P k v
  unfolding get
  get-Entries k [] v a h = cc
  get-Entries k ((i, x) ∷ d) v a h = ground (arith, get-Entries k d v a.1)

  pub put-Entries : (k : K) (v : V) (d : Dict K V) → P k v → Entries d → Entries (put dec k v d)
  unfolding put
  put-Entries k v [] p a = (p, tt)
  put-Entries k v ((i, x) ∷ d) p a = ground (arith, put-Entries k v d p a.1)

  pub remove-Entries : (k : K) (d : Dict K V) → Entries d → Entries (remove dec k d)
  unfolding remove
  remove-Entries k [] a = tt
  remove-Entries k ((i, x) ∷ d) a = ground (arith, remove-Entries k d a.1)
