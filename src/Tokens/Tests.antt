-- ===== src/Tokens/Tests.antt =====
-- The verifier run on one token.
use algo_guard.Prelude.{ℕ, ◌≡◌, refl, none, some, List, [], ◌∷◌, String-discrete}
use algo_guard.Prelude.Dict.{get, put}
use algo_guard.Tokens.Keys.{Key, Reply, network_error, answered, JwksCache, new_cache}
use algo_guard.Tokens.Verify.{
  Claims, decoded, Expected, Jwt, Verdict, verified, token_rejected, keys_unavailable, verify_token,
}
use algo_guard.Tokens.Accepted.{IsGenuine, WhenVerified, verify_token-IsGenuine}
use algo_guard.Tokens.Requests.{Spaced, Call, requests_of, requests_of-Spaced}

abbrev claims : Claims
claims = record { sub = some "user"; email = none; exp = 900 }

abbrev jwt : Jwt
jwt = record {
  header_of = λ token. some (record { alg = some "ES256"; kid = some "k1" });
  decode = λ expected token key algorithm. decoded claims;
}

abbrev expected : Expected
expected = record { issuer = "https://cloud/auth/v1"; audience = "authenticated"; leeway = 10 }

abbrev signing_key : Key
signing_key = record {
  key_id = some "k1";
  key_type = "EC";
  algorithm_name = some "ES256";
  material = 1;
}

abbrev key_set : Reply
key_set = answered 200 (some (some (signing_key ∷ [])))

abbrev cache : JwksCache
cache = new_cache 30

abbrev verdict_of : ℕ → Reply → JwksCache → Verdict
verdict_of now reply c = (verify_token jwt expected "token" now reply c).verdict

accepted :
    verdict_of 5 key_set cache
    ≡ verified (record { subject = "user"; email = none; expires_at = 900; claims = claims })
unfolding verify_token get put String-discrete
accepted = refl

-- Once a request has failed, the token is rejected for as long as no other request is made.
unjudged : verdict_of 5 network_error cache ≡ keys_unavailable
unfolding verify_token get
unjudged = refl

rejected_unjudged :
    verdict_of 20 key_set (verify_token jwt expected "token" 5 network_error cache).cache
    ≡ token_rejected
unfolding verify_token get
rejected_unjudged = refl

verify_token-IsGenuine_example :
    (let j = verify_token jwt expected "token" 5 key_set cache in
      WhenVerified (IsGenuine jwt expected "token" j.cache) j.verdict)
verify_token-IsGenuine_example = verify_token-IsGenuine jwt expected "token" 5 key_set cache

abbrev calls : List Call
calls =
    record { token = "token"; now = 5; reply = network_error }
    ∷ record { token = "token"; now = 20; reply = key_set }
    ∷ record { token = "token"; now = 40; reply = key_set }
    ∷ record { token = "token"; now = 80; reply = key_set }
    ∷ []

requested : requests_of jwt expected calls cache ≡ 5 ∷ 40 ∷ []
unfolding requests_of verify_token get put String-discrete
requested = refl

requests_of-Spaced_example : Spaced 30 none (requests_of jwt expected calls cache)
requests_of-Spaced_example = requests_of-Spaced jwt expected calls cache
