-- ===== src/Tokens/Verify.antt =====
-- `verify_token`. PyJWT is the record `Jwt` of its two functions.
use Prim.Native.Char.{code}
use algo_guard.Prelude.{
  ℕ, Bool, true, ◌&&◌, ◌||◌, Option, none, some, List, [], String, leb, ◌==◌, str_eq, if◌then◌else◌,
}
use algo_guard.Tokens.Keys.{
  Key, Reply, JwksCache, Found, found, unknown, unavailable, LookedUp, key_for,
}

-- The claims that are read; `sub` and `email` are none unless they are texts.
pub record Claims : Type 0 where
  pub sub : Option String
  pub email : Option String
  pub exp : ℕ

pub data Decoded : Type 0 where
  decoded : Claims → Decoded
  expired_signature invalid_token : Decoded

-- The fields of a header; none unless they are texts.
pub record Header : Type 0 where
  pub alg : Option String
  pub kid : Option String

pub record Expected : Type 0 where
  pub issuer : String
  pub audience : String
  pub leeway : ℕ

-- `get_unverified_header`, none where it raises, and `decode` with one algorithm allowed and the
-- signature and every required claim checked.
pub record Jwt : Type 0 where
  pub header_of : String → Option Header
  pub decode : Expected → String → Key → String → Decoded

pub record VerifiedToken : Type 0 where
  pub subject : String
  pub email : Option String
  pub expires_at : ℕ
  pub claims : Claims

pub data Verdict : Type 0 where
  verified : VerifiedToken → Verdict
  token_expired token_rejected keys_unavailable : Verdict

pub record Judged : Type 0 where
  pub verdict : Verdict
  pub requests : List ℕ
  pub cache : JwksCache

-- The white space of `str.strip`.
unfoldable pub is_space : ℕ → Bool
is_space c =
    leb 9 c && leb c 13
    || leb 28 c && leb c 32
    || c == 133
    || c == 160
    || c == 5760
    || leb 8192 c && leb c 8202
    || c == 8232
    || c == 8233
    || c == 8239
    || c == 8287
    || c == 12288

-- not token.strip()
unfoldable pub is_blank : String → Bool
unfolding is_space
is_blank String.[] = true
is_blank (String.◌∷◌ x s) = is_space (code x) && is_blank s

-- algorithm in ALLOWED_ALGORITHMS
abbrev pub is_allowed : String → Bool
is_allowed algorithm = str_eq algorithm "ES256" || str_eq algorithm "RS256"

-- not declared or declared == algorithm
abbrev pub agrees : Option String → String → Bool
agrees none algorithm = true
agrees (some declared) algorithm = str_eq declared "" || str_eq declared algorithm

abbrev pub given : Option String → Option String
given none = none
given (some email) = if str_eq email "" then none else some email

abbrev pub token_of : Claims → String → VerifiedToken
token_of claims subject = record {
  subject = subject;
  email = given claims.email;
  expires_at = claims.exp;
  claims = claims;
}

abbrev pub with_subject : Claims → Option String → Verdict
with_subject claims none = token_rejected
with_subject claims (some subject) =
    if str_eq subject "" then token_rejected else verified (token_of claims subject)

abbrev pub with_claims : Decoded → Verdict
with_claims (decoded claims) = with_subject claims claims.sub
with_claims expired_signature = token_expired
with_claims invalid_token = token_rejected

-- The checks of the key, then `jwt.decode`.
unfoldable pub with_key : Jwt → Expected → String → String → Found → Verdict
with_key lib expected token algorithm unknown = token_rejected
with_key lib expected token algorithm unavailable = keys_unavailable
with_key lib expected token algorithm (found key) =
    if str_eq key.key_type "oct"
    then token_rejected
    else if agrees key.algorithm_name algorithm
    then with_claims (lib.decode expected token key algorithm)
    else token_rejected

abbrev pub rejected : JwksCache → Judged
rejected c = record { verdict = token_rejected; requests = []; cache = c }

unfoldable pub looked_up : Jwt → Expected → String → String → LookedUp → Judged
unfolding with_key
looked_up lib expected token algorithm l = record {
  verdict = with_key lib expected token algorithm l.result;
  requests = l.requests;
  cache = l.cache;
}

unfoldable pub with_header :
    Jwt → Expected → String → ℕ → Reply → JwksCache → Option Header → Judged
unfolding looked_up key_for
with_header lib expected token now reply c none = rejected c
with_header lib expected token now reply c (some header) = elim header.alg [
  | none ↦ rejected c
  | some algorithm ↦
      if is_allowed algorithm
      then elim header.kid [
        | none ↦ rejected c
        | some kid ↦
            if str_eq kid ""
            then rejected c
            else looked_up lib expected token algorithm (key_for kid now reply c)
      ]
      else rejected c
]

-- verify_token(token, keys, issuer, audience, leeway), at the time `now`, by what the endpoint would
-- answer.
unfoldable pub verify_token : Jwt → Expected → String → ℕ → Reply → JwksCache → Judged
unfolding is_blank with_header
verify_token lib expected token now reply c =
    if is_blank token
    then rejected c
    else with_header lib expected token now reply c (lib.header_of token)
