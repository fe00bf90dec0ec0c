-- ===== src/Tokens/Keys.antt =====
-- `JwksCache`: the public signing keys, fetched when a key is unknown. Times are whole
-- microseconds.
use algo_guard.Prelude.{
  ℕ, ◌+◌, Bool, true, false, Option, none, some, List, [], ◌∷◌, String, leb, ◌==◌, str_eq,
  if◌then◌else◌, String-discrete,
}
use algo_guard.Prelude.Dict.{Dict, get, put}

-- What is read of a PyJWK; its key material stands for itself.
pub record Key : Type 0 where
  pub key_id : Option String
  pub key_type : String
  pub algorithm_name : Option String
  pub material : ℕ

-- What the endpoint answers: the status and what `json.loads` makes of the body (none where it
-- raises), of which `PyJWKSet.from_dict` makes keys (none where it raises).
pub data Reply : Type 0 where
  network_error : Reply
  answered : ℕ → Option (Option (List Key)) → Reply

-- _fetch_json(url, timeout); none is SigningKeysUnavailable
unfoldable pub fetch_json : Reply → Option (Option (List Key))
fetch_json network_error = none
fetch_json (answered status body) = if status == 200 then body else none

pub record JwksCache : Type 0 where
  pub min_refresh : ℕ
  pub keys : Dict String Key
  pub last_refresh : Option ℕ

abbrev pub new_cache : ℕ → JwksCache
new_cache min_refresh = record { min_refresh = min_refresh; keys = []; last_refresh = none }

-- `key.key_id: key` of the comprehension, for a key with an id
abbrev pub put_key : Option String → Key → Dict String Key → Dict String Key
put_key none key d = d
put_key (some kid) key d = if str_eq kid "" then d else put String-discrete kid key d

unfoldable pub index_keys : List Key → Dict String Key → Dict String Key
index_keys [] d = d
index_keys (key ∷ keys) d = index_keys keys (put_key key.key_id key d)

-- What a call leaves: whether it raised nothing, the times of the requests it made, the cache.
pub record Refreshed : Type 0 where
  pub available : Bool
  pub requests : List ℕ
  pub cache : JwksCache

abbrev pub may_refresh : ℕ → ℕ → Option ℕ → Bool
may_refresh min_refresh now none = true
may_refresh min_refresh now (some last) = leb (last + min_refresh) now

abbrev pub fetched : ℕ → Option (Option (List Key)) → JwksCache → Refreshed
fetched now none c = record { available = false; requests = now ∷ []; cache = c }
fetched now (some none) c = record { available = false; requests = now ∷ []; cache = c }
fetched now (some (some keys)) c = record {
  available = true;
  requests = now ∷ [];
  cache = record c { keys = index_keys keys [] };
}

-- refresh()
unfoldable pub refresh : ℕ → Reply → JwksCache → Refreshed
unfolding fetch_json index_keys
refresh now reply c =
    if may_refresh c.min_refresh now c.last_refresh
    then fetched now (fetch_json reply) (record c { last_refresh = some now })
    else record { available = true; requests = []; cache = c }

pub data Found : Type 0 where
  found : Key → Found
  unknown unavailable : Found

pub record LookedUp : Type 0 where
  pub result : Found
  pub requests : List ℕ
  pub cache : JwksCache

abbrev pub known : Option Key → Found
known none = unknown
known (some key) = found key

abbrev pub after_refresh : String → Refreshed → LookedUp
after_refresh kid r = record {
  result = if r.available then known (get String-discrete kid r.cache.keys) else unavailable;
  requests = r.requests;
  cache = r.cache;
}

-- key_for(kid)
abbrev pub key_or : Option Key → LookedUp → JwksCache → LookedUp
key_or (some key) refreshed c = record { result = found key; requests = []; cache = c }
key_or none refreshed c = refreshed

unfoldable pub key_for : String → ℕ → Reply → JwksCache → LookedUp
unfolding refresh
key_for kid now reply c =
    key_or (get String-discrete kid c.keys) (after_refresh kid (refresh now reply c)) c
