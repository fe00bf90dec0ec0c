-- ===== src/Tokens/Requests.antt =====
-- How often the keys are requested, and when a token is left unjudged.
use algo_guard.Prelude.{
  ℕ, ◌+◌, ◌≤◌, ◌≡◌, refl, subst, true, Option, none, some, List, [], ◌∷◌, ◌++◌, String, str_eq,
  leb→le, length, arith, if_elim, if◌then◌else◌, String-discrete,
}
use algo_guard.Prelude.Dict.{get}
use algo_guard.Tokens.Keys.{
  Key, Reply, JwksCache, key_for, key_or, after_refresh, refresh, Refreshed, fetched, may_refresh,
  fetch_json,
}
use algo_guard.Tokens.Verify.{
  Header, Expected, Jwt, Judged, is_blank, is_allowed, rejected, looked_up, with_header,
  verify_token,
}

-- Times that are at least so far apart, from the last one on.
abbrev pub Spaced : ℕ → Option ℕ → List ℕ → Type 0
Spaced gap last [] = Unit
Spaced gap none (t ∷ times) = Spaced gap (some t) times
Spaced gap (some last) (t ∷ times) = (last + gap ≤ t) × Spaced gap (some t) times

abbrev pub last_of : Option ℕ → List ℕ → Option ℕ
last_of last [] = last
last_of last (t ∷ times) = last_of (some t) times

Spaced-append :
    (gap : ℕ) (last : Option ℕ) (xs ys : List ℕ)
    → Spaced gap last xs
    → Spaced gap (last_of last xs) ys
    → Spaced gap last (xs ++ ys)
Spaced-append gap last [] ys a b = b
Spaced-append gap none (x ∷ xs) ys a b = Spaced-append gap (some x) xs ys a b
Spaced-append gap (some last) (x ∷ xs) ys (far, a) b = (far, Spaced-append gap (some x) xs ys a b)

-- A call that asks at most once, late enough, and remembers when.
pub record IsPatient (c : JwksCache) (requests : List ℕ) (c' : JwksCache) : Type 0 where
  pub spaced : Spaced c.min_refresh c.last_refresh requests
  pub at_most_once : length requests ≤ 1
  pub remembered : c'.last_refresh ≡ last_of c.last_refresh requests
  pub same_gap : c'.min_refresh ≡ c.min_refresh

quiet-IsPatient : (c : JwksCache) → IsPatient c [] c
quiet-IsPatient c = record {
  spaced = tt;
  at_most_once = omega arith;
  remembered = refl;
  same_gap = refl;
}

far_enough :
    (gap now : ℕ) (last : Option ℕ) → may_refresh gap now last ≡ true → Spaced gap last (now ∷ [])
far_enough gap now none h = tt
far_enough gap now (some last) h = (leb→le (last + gap) now h, tt)

fetched-IsPatient :
    (now : ℕ) (o : Option (Option (List Key))) (c : JwksCache)
    → may_refresh c.min_refresh now c.last_refresh ≡ true
    → (let r = fetched now o (record c { last_refresh = some now }) in
        IsPatient c r.requests r.cache)
fetched-IsPatient now none c h = record {
  spaced = far_enough c.min_refresh now c.last_refresh h;
  at_most_once = omega arith;
  remembered = refl;
  same_gap = refl;
}
fetched-IsPatient now (some none) c h = record {
  spaced = far_enough c.min_refresh now c.last_refresh h;
  at_most_once = omega arith;
  remembered = refl;
  same_gap = refl;
}
fetched-IsPatient now (some (some keys)) c h = record {
  spaced = far_enough c.min_refresh now c.last_refresh h;
  at_most_once = omega arith;
  remembered = refl;
  same_gap = refl;
}

refresh-IsPatient :
    (now : ℕ) (reply : Reply) (c : JwksCache)
    → IsPatient c (refresh now reply c).requests (refresh now reply c).cache
unfolding refresh
refresh-IsPatient now reply c =
    if_elim (λ (r : Refreshed). IsPatient c r.requests r.cache)
      (may_refresh c.min_refresh now c.last_refresh) (fetched-IsPatient now (fetch_json reply) c)
      (λ _. quiet-IsPatient c)

key_for-IsPatient :
    (kid : String) (now : ℕ) (reply : Reply) (c : JwksCache)
    → IsPatient c (key_for kid now reply c).requests (key_for kid now reply c).cache
unfolding key_for
key_for-IsPatient kid now reply c = by_key (get String-discrete kid c.keys)
  where
    by_key :
        (o : Option Key)
        → (let l = key_or o (after_refresh kid (refresh now reply c)) c in
            IsPatient c l.requests l.cache)
    by_key (some key) = quiet-IsPatient c
    by_key none = refresh-IsPatient now reply c

abbrev Patient : JwksCache → Judged → Type 0
Patient c j = IsPatient c j.requests j.cache

verify_token-IsPatient :
    (lib : Jwt) (expected : Expected) (token : String) (now : ℕ) (reply : Reply) (c : JwksCache)
    → Patient c (verify_token lib expected token now reply c)
unfolding verify_token with_header looked_up
verify_token-IsPatient lib expected token now reply c =
    if_elim (Patient c) (is_blank token) (λ _. quiet-IsPatient c)
      (λ _. by_header (lib.header_of token))
  where
    by_kid :
        (algorithm : String) (o : Option String)
        → Patient c (elim o as (λ _. Judged) [
          | none ↦ rejected c
          | some kid ↦
              if str_eq kid ""
              then rejected c
              else looked_up lib expected token algorithm (key_for kid now reply c)
        ])
    by_kid algorithm none = quiet-IsPatient c
    by_kid algorithm (some kid) =
        if_elim (Patient c) (str_eq kid "") (λ _. quiet-IsPatient c)
          (λ _. key_for-IsPatient kid now reply c)

    by_algorithm :
        (kid : Option String) (o : Option String)
        → Patient c
            (with_header lib expected token now reply c (some (record { alg = o; kid = kid })))
    by_algorithm kid none = quiet-IsPatient c
    by_algorithm kid (some algorithm) =
        if_elim (Patient c) (is_allowed algorithm) (λ _. by_kid algorithm kid)
          (λ _. quiet-IsPatient c)

    by_header : (o : Option Header) → Patient c (with_header lib expected token now reply c o)
    by_header none = quiet-IsPatient c
    by_header (some header) = by_algorithm header.kid header.alg

-- One call: a token, the time, and what the endpoint would answer.
pub record Call : Type 0 where
  pub token : String
  pub now : ℕ
  pub reply : Reply

-- The times of the requests that a sequence of calls makes.
unfoldable pub requests_of : Jwt → Expected → List Call → JwksCache → List ℕ
requests_of lib expected [] c = []
requests_of lib expected (call ∷ calls) c =
    let j = verify_token lib expected call.token call.now call.reply c in
    j.requests ++ requests_of lib expected calls j.cache

-- Whatever tokens are presented, the requests for the keys are at least the minimum interval apart,
-- also from the last one before.
pub requests_of-Spaced :
    (lib : Jwt) (expected : Expected) (calls : List Call) (c : JwksCache)
    → Spaced c.min_refresh c.last_refresh (requests_of lib expected calls c)
unfolding requests_of
requests_of-Spaced lib expected [] c = tt
requests_of-Spaced lib expected (call ∷ calls) c =
    let j = verify_token lib expected call.token call.now call.reply c in
    let p = verify_token-IsPatient lib expected call.token call.now call.reply c in
    Spaced-append c.min_refresh c.last_refresh j.requests _ p.spaced (
      subst (λ last. Spaced c.min_refresh last (requests_of lib expected calls j.cache))
        p.remembered
        (subst (λ gap. Spaced gap j.cache.last_refresh (requests_of lib expected calls j.cache))
          p.same_gap (requests_of-Spaced lib expected calls j.cache)))
