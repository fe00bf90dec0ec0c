-- ===== src/Tokens/Accepted.antt =====
-- What an accepted token has been checked for.
use algo_guard.Prelude.{
  ℕ, ◌≡◌, ◌≢◌, ◌⊎◌, inl, inr, refl, Bool, true, false, Option, none, some, String, str_eq,
  str_eq_iff, if_elim, if◌then◌else◌, Bool-cases, String-discrete, ◌||◌,
}
use algo_guard.Prelude.Dict.{get}
use algo_guard.Tokens.Keys.{
  Key, Reply, JwksCache, Found, found, unknown, unavailable, key_for, key_or, after_refresh,
  refresh, known,
}
use algo_guard.Tokens.Verify.{
  Claims, Decoded, decoded, expired_signature, invalid_token, Header, Expected, Jwt, VerifiedToken,
  Verdict, verified, token_expired, token_rejected, keys_unavailable, Judged, is_blank, is_allowed,
  agrees, with_subject, with_claims, with_key, rejected, looked_up, with_header, verify_token,
}

-- The key is published, is not symmetric and declares no other algorithm; the token decodes with it
-- under one asymmetric algorithm, its own, and names a subject.
pub record IsGenuine (lib : Jwt) (expected : Expected) (token : String) (c : JwksCache)
    (t : VerifiedToken) : Type 0 where
  pub header : Header
  pub algorithm : String
  pub kid : String
  pub key : Key
  pub header_read : lib.header_of token ≡ some header
  pub algorithm_read : header.alg ≡ some algorithm
  pub asymmetric : (algorithm ≡ "ES256") ⊎ (algorithm ≡ "RS256")
  pub kid_read : header.kid ≡ some kid
  pub published : get String-discrete kid c.keys ≡ some key
  pub not_symmetric : key.key_type ≢ "oct"
  pub declared : agrees key.algorithm_name algorithm ≡ true
  pub decodes : lib.decode expected token key algorithm ≡ decoded t.claims
  pub subject_read : t.claims.sub ≡ some t.subject
  pub has_subject : t.subject ≢ ""
  pub expiry : t.expires_at ≡ t.claims.exp

-- A predicate on the token of a verdict that has one.
abbrev pub WhenVerified : (VerifiedToken → Type 0) → Verdict → Type 0
WhenVerified P (verified t) = P t
WhenVerified P token_expired = Unit
WhenVerified P token_rejected = Unit
WhenVerified P keys_unavailable = Unit

differs : (s t : String) → str_eq s t ≡ false → s ≢ t
differs s t h e = cc (h, (str_eq_iff s t).1 e)

allowed :
    (algorithm : String)
    → is_allowed algorithm ≡ true
    → (algorithm ≡ "ES256") ⊎ (algorithm ≡ "RS256")
allowed algorithm h = elim (Bool-cases (str_eq algorithm "ES256")) [
  | inl e ↦ inl ((str_eq_iff algorithm "ES256").0 e)
  | inr n ↦ inr ((str_eq_iff algorithm "RS256").0 (under (str_eq algorithm "ES256") n h))
]
  where
    under :
        (b : Bool)
        → b ≡ false
        → (b || str_eq algorithm "RS256") ≡ true
        → str_eq algorithm "RS256" ≡ true
    under true n g = cc
    under false n g = g

-- What the claims of a token that decodes give.
record Names (o : Decoded) (t : VerifiedToken) : Type 0 where
  decodes : o ≡ decoded t.claims
  subject_read : t.claims.sub ≡ some t.subject
  has_subject : t.subject ≢ ""
  expiry : t.expires_at ≡ t.claims.exp

with_subject-Names :
    (claims : Claims) (sub : Option String)
    → claims.sub ≡ sub
    → WhenVerified (Names (decoded claims)) (with_subject claims sub)
with_subject-Names claims none e = tt
with_subject-Names claims (some subject) e =
    if_elim (WhenVerified (Names (decoded claims))) (str_eq subject "") (λ _. tt)
      (λ n. record {
        decodes = refl;
        subject_read = e;
        has_subject = differs subject "" n;
        expiry = refl;
      })

with_claims-Names : (o : Decoded) → WhenVerified (Names o) (with_claims o)
with_claims-Names (decoded claims) = with_subject-Names claims claims.sub refl
with_claims-Names expired_signature = tt
with_claims-Names invalid_token = tt

when_mono :
    (P Q : VerifiedToken → Type 0)
    → ((t : VerifiedToken) → P t → Q t)
    → (v : Verdict) → WhenVerified P v
    → WhenVerified Q v
when_mono P Q f (verified t) h = f t h
when_mono P Q f token_expired h = tt
when_mono P Q f token_rejected h = tt
when_mono P Q f keys_unavailable h = tt

-- A key that is found is in the cache that the call leaves.
abbrev IsPublished : String → Found → JwksCache → Type 0
IsPublished kid (found key) c = get String-discrete kid c.keys ≡ some key
IsPublished kid unknown c = Unit
IsPublished kid unavailable c = Unit

known-IsPublished :
    (kid : String) (o : Option Key) (c : JwksCache)
    → get String-discrete kid c.keys ≡ o
    → IsPublished kid (known o) c
known-IsPublished kid none c e = tt
known-IsPublished kid (some key) c e = e

key_for-IsPublished :
    (kid : String) (now : ℕ) (reply : Reply) (c : JwksCache)
    → IsPublished kid (key_for kid now reply c).result (key_for kid now reply c).cache
unfolding key_for
key_for-IsPublished kid now reply c = by_key (get String-discrete kid c.keys) refl
  where
    by_key :
        (o : Option Key)
        → get String-discrete kid c.keys ≡ o
        → IsPublished kid
            (key_or o (after_refresh kid (refresh now reply c)) c).result
            (key_or o (after_refresh kid (refresh now reply c)) c).cache
    by_key (some key) e = e
    by_key none e =
        let r = refresh now reply c in
        if_elim (λ f. IsPublished kid f r.cache) r.available
          (λ _. known-IsPublished kid (get String-discrete kid r.cache.keys) r.cache refl) (λ _. tt)

with_key-IsGenuine :
    (lib : Jwt) (expected : Expected) (token algorithm kid : String) (header : Header)
    (c : JwksCache) (f : Found)
    → lib.header_of token ≡ some header
    → header.alg ≡ some algorithm
    → is_allowed algorithm ≡ true
    → header.kid ≡ some kid
    → IsPublished kid f c
    → WhenVerified (IsGenuine lib expected token c) (with_key lib expected token algorithm f)
unfolding with_key
with_key-IsGenuine lib expected token algorithm kid header c unknown h a ok k p = tt
with_key-IsGenuine lib expected token algorithm kid header c unavailable h a ok k p = tt
with_key-IsGenuine lib expected token algorithm kid header c (found key) h a ok k p =
    let Genuine = WhenVerified (IsGenuine lib expected token c) in
    if_elim Genuine (str_eq key.key_type "oct") (λ _. tt)
      (λ asymmetric.
        if_elim Genuine (agrees key.algorithm_name algorithm)
          (λ declared.
            when_mono (Names (lib.decode expected token key algorithm))
              (IsGenuine lib expected token c)
              (λ t n. record {
                header = header;
                algorithm = algorithm;
                kid = kid;
                key = key;
                header_read = h;
                algorithm_read = a;
                asymmetric = allowed algorithm ok;
                kid_read = k;
                published = p;
                not_symmetric = differs key.key_type "oct" asymmetric;
                declared = declared;
                decodes = n.decodes;
                subject_read = n.subject_read;
                has_subject = n.has_subject;
                expiry = n.expiry;
              })
              (with_claims (lib.decode expected token key algorithm))
              (with_claims-Names (lib.decode expected token key algorithm)))
          (λ _. tt))

abbrev Accepts : Jwt → Expected → String → Judged → Type 0
Accepts lib expected token j = WhenVerified (IsGenuine lib expected token j.cache) j.verdict

with_header-Accepts :
    (lib : Jwt) (expected : Expected) (token : String) (now : ℕ) (reply : Reply) (c : JwksCache)
    (o : Option Header)
    → lib.header_of token ≡ o
    → Accepts lib expected token (with_header lib expected token now reply c o)
unfolding with_header
with_header-Accepts lib expected token now reply c none h = tt
with_header-Accepts lib expected token now reply c (some header) h = by_algorithm header.alg refl
  where
    with_kid : (algorithm : String) → Option String → Judged
    with_kid algorithm o = elim o [
      | none ↦ rejected c
      | some kid ↦
          if str_eq kid ""
          then rejected c
          else looked_up lib expected token algorithm (key_for kid now reply c)
    ]

    by_kid :
        (algorithm : String)
        → header.alg ≡ some algorithm
        → is_allowed algorithm ≡ true
        → (o : Option String) → header.kid ≡ o
        → Accepts lib expected token (with_kid algorithm o)
    by_kid algorithm a ok none k = tt
    by_kid algorithm a ok (some kid) k =
        let l = key_for kid now reply c in
        if_elim (Accepts lib expected token) (str_eq kid "") (λ _. tt)
          (λ _.
            with_key-IsGenuine lib expected token algorithm kid header l.cache l.result h a ok k
              (key_for-IsPublished kid now reply c))

    by_algorithm :
        (o : Option String)
        → header.alg ≡ o
        → Accepts lib expected token (elim o as (λ _. Judged) [
          | none ↦ rejected c
          | some algorithm ↦
              if is_allowed algorithm then with_kid algorithm header.kid else rejected c
        ])
    by_algorithm none a = tt
    by_algorithm (some algorithm) a =
        if_elim (Accepts lib expected token) (is_allowed algorithm)
          (λ ok. by_kid algorithm a ok header.kid refl) (λ _. tt)

-- Whatever PyJWT and the endpoint answer, a token that is accepted names ES256 or RS256 in its own
-- header and a key that is in the cache when the call ends, which is not symmetric and declares no
-- other algorithm; it decodes under that key and that algorithm alone, with the issuer, audience
-- and leeway of the caller, to the claims handed on, and its subject is a text that is not empty.
pub verify_token-IsGenuine :
    (lib : Jwt) (expected : Expected) (token : String) (now : ℕ) (reply : Reply) (c : JwksCache)
    → (let j = verify_token lib expected token now reply c in
        WhenVerified (IsGenuine lib expected token j.cache) j.verdict)
unfolding verify_token
verify_token-IsGenuine lib expected token now reply c =
    if_elim (Accepts lib expected token) (is_blank token) (λ _. tt)
      (λ _. with_header-Accepts lib expected token now reply c (lib.header_of token) refl)
