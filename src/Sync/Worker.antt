-- ===== src/Sync/Worker.antt =====
-- The state of `SyncWorker`: `register`, `unregister`, the state that `status` shows, the recheck of
-- an approval, and what a pass leaves behind by how it ended. Times are whole microseconds of the
-- monotonic clock. An identity is an object: the worker holds references to it.
use algo_guard.Prelude.{
  ℕ, ◌+◌, ◌-◌, ◌*◌, ◌/◌, ◌^◌, Bool, true, false, ◌&&◌, ◌||◌, not, Option, none, some, min, leb,
  ◌==◌, if◌then◌else◌, ℕ_discrete,
}
use algo_guard.Prelude.Dict.{Dict, get, has, put, remove}
use algo_guard.Sync.Store.{
  Category, transient, authentication, permission, is_retryable, Failure, cloud, storage,
}

-- In microseconds.
abbrev pub second : ℕ
second = 10 ^ 6

abbrev pub permission_recheck : ℕ
permission_recheck = 30 * second

abbrev pub max_backoff : ℕ
max_backoff = 60 * second

pub record Identity : Type 0 where
  pub user_id : ℕ
  pub active : Bool
  pub session_bound : Bool

-- The dictionaries are keyed by the user.
pub record Worker : Type 0 where
  pub heap : ℕ → Identity
  pub identities : Dict ℕ ℕ
  pub blocked : Dict ℕ Category
  pub permission_checked : Dict ℕ ℕ
  pub retry : Dict ℕ (ℕ × ℕ)
  pub last_error : Dict ℕ Failure
  pub last_success : Dict ℕ ℕ
  pub last_authorization : Dict ℕ ℕ
  pub last_heartbeat : Dict ℕ ℕ
  pub heartbeat_error : Dict ℕ Category

abbrev pub owner_of : ℕ → Worker → ℕ
owner_of ref w = (w.heap ref).user_id

unfoldable pub enlist : ℕ → Worker → Worker
enlist ref w =
    let owner = owner_of ref w in
    let listed : Worker = record w { identities = put ℕ_discrete owner ref w.identities } in
    if (w.heap ref).session_bound
    then record listed {
      blocked = remove ℕ_discrete owner w.blocked;
      retry = remove ℕ_discrete owner w.retry;
      last_authorization = remove ℕ_discrete owner w.last_authorization;
    }
    else listed

-- A browser login replaces a bearer token or an identity that has ended, never the reverse.
unfoldable pub replaces_current : ℕ → ℕ → Worker → Bool
replaces_current ref current w =
    not (w.heap current).active
    || ((w.heap ref).session_bound && not (w.heap current).session_bound)

-- register(identity), by what `identities.get(owner)` is
unfoldable pub register_over : Option ℕ → ℕ → Worker → Worker
unfolding enlist replaces_current
register_over none ref w = enlist ref w
register_over (some current) ref w =
    if current == ref then w else if replaces_current ref current w then enlist ref w else w

unfoldable pub register : ℕ → Worker → Worker
unfolding register_over
register ref w = register_over (get ℕ_discrete (owner_of ref w) w.identities) ref w

-- identities.get(owner) is identity
unfoldable pub is_registered : ℕ → Worker → Bool
is_registered ref w = elim (get ℕ_discrete (owner_of ref w) w.identities) [
  | none ↦ false
  | some current ↦ current == ref
]

unfoldable pub unregister : ℕ → Worker → Worker
unfolding is_registered
unregister ref w =
    if is_registered ref w
    then record w {
      identities = remove ℕ_discrete (owner_of ref w) w.identities;
      last_heartbeat = remove ℕ_discrete (owner_of ref w) w.last_heartbeat;
    }
    else w

pub data Shown : Type 0 where
  blocked_state retrying waiting_for_login active_state : Shown

-- The `state` of `status(identity)`.
unfoldable pub shown : ℕ → Worker → Shown
shown ref w =
    let owner = owner_of ref w in
    let registered : Bool = elim (get ℕ_discrete owner w.identities) [
      | none ↦ false
      | some current ↦ (w.heap current).active
    ] in
    if has ℕ_discrete owner w.blocked
    then blocked_state
    else if has ℕ_discrete owner w.retry
    then retrying
    else if registered
    then active_state
    else waiting_for_login

-- `repo.node_access()`
pub data Access : Type 0 where
  granted denied : Access
  access_failed : Category → Access

abbrev pub waits_for_approval : Option Category → Bool
waits_for_approval (some permission) = true
waits_for_approval _ = false

-- now - checked.get(owner, -1e9) >= interval, for a clock above -1e9 and the interval.
unfoldable pub is_due : ℕ → ℕ → Option ℕ → Bool
is_due now interval none = true
is_due now interval (some last) = leb (last + interval) now

-- What follows the check of the approval.
unfoldable pub approved : ℕ → ℕ → Access → ℕ → Worker → Bool × Worker
approved now later access owner w =
    let times = put ℕ_discrete owner now w.permission_checked in
    elim access [
      | granted ↦ (
        true,
        record w {
          blocked = remove ℕ_discrete owner w.blocked;
          permission_checked = remove ℕ_discrete owner times;
          last_authorization = put ℕ_discrete owner later w.last_authorization;
        },
      )
      | denied ↦ (false, record w { permission_checked = times })
      | access_failed category ↦ (false, record w { permission_checked = times })
    ]

-- _approval_restored(identity, owner), at the time `now`, and at `later` once it is approved
unfoldable pub approval_restored : ℕ → ℕ → Access → ℕ → Worker → Bool × Worker
unfolding is_due approved
approval_restored now later access owner w =
    if not (waits_for_approval (get ℕ_discrete owner w.blocked))
    then (false, w)
    else if not (is_due now permission_recheck (get ℕ_discrete owner w.permission_checked))
    then (false, w)
    else approved now later access owner w

-- The `with` block at the end of a pass that raised nothing.
unfoldable pub after_success : ℕ → ℕ → Worker → Worker
after_success now owner w = record w {
  retry = remove ℕ_discrete owner w.retry;
  last_error = remove ℕ_discrete owner w.last_error;
  last_success = put ℕ_discrete owner now w.last_success;
}

-- min(self.retry.get(owner, (0, 0))[0] + 1, 10)
unfoldable pub next_attempt : ℕ → Worker → ℕ
next_attempt owner w =
    let tried : ℕ = elim (get ℕ_discrete owner w.retry) [ none ↦ 0 | some (n, due) ↦ n ] in
    min (tried + 1) 10

-- `random.random()` is `jitter / 2 ^ 53`; the delay is cut to whole microseconds.
unfoldable pub backoff : ℕ → ℕ → ℕ
backoff attempt jitter = min max_backoff (2 ^ (attempt - 1) * second) * (2 ^ 53 + jitter) / 2 ^ 54

-- What `_renew` answers; `renewal` is how `auth.repository(identity, refused=…)` ends.
pub data Renewal : Type 0 where
  renewed postponed ended : Renewal

unfoldable pub renew : Bool → Option Category → ℕ → Worker → Renewal
renew connected renewal ref w =
    if not connected || not (w.heap ref).active then ended else elim renewal [
      | none ↦ renewed
      | some category ↦ if is_retryable category then postponed else ended
    ]

unfoldable pub postpone : ℕ → ℕ → ℕ → Worker → Worker
unfolding next_attempt backoff
postpone now jitter owner w =
    let attempt = next_attempt owner w in
    record w { retry = put ℕ_discrete owner (attempt, now + backoff attempt jitter) w.retry }

-- identity.clear()
unfoldable pub cleared : ℕ → (ℕ → Identity) → ℕ → Identity
cleared ref heap r =
    if r == ref then record (heap r) { active = false; session_bound = false } else heap r

unfoldable pub sign_out : ℕ → Worker → Worker
unfolding is_registered cleared
sign_out ref w =
    let identities =
      if is_registered ref w
      then remove ℕ_discrete (owner_of ref w) w.identities
      else w.identities in
    record w { heap = cleared ref w.heap; identities = identities }

unfoldable pub after_renewal : Renewal → ℕ → ℕ → ℕ → Worker → Worker
unfolding postpone sign_out
after_renewal renewed now jitter ref w = record w {
  last_authorization = remove ℕ_discrete (owner_of ref w) w.last_authorization;
}
after_renewal postponed now jitter ref w = postpone now jitter (owner_of ref w) w
after_renewal ended now jitter ref w = sign_out ref w

unfoldable pub block : Category → ℕ → ℕ → Worker → Worker
block category now owner w = record w {
  blocked = put ℕ_discrete owner category w.blocked;
  permission_checked = put ℕ_discrete owner now w.permission_checked;
}

unfoldable pub handle : Category → Renewal → ℕ → ℕ → ℕ → Worker → Worker
unfolding after_renewal postpone block
handle authentication answer now jitter ref w = after_renewal answer now jitter ref w
handle transient answer now jitter ref w = postpone now jitter (owner_of ref w) w
handle category answer now jitter ref w = block category now (owner_of ref w) w

-- The `except` branch of `sync_once`.
unfoldable pub after_error : Category → Bool → Option Category → ℕ → ℕ → ℕ → Worker → Worker
unfolding handle renew
after_error category connected renewal now jitter ref w =
    handle category (renew connected renewal ref w) now jitter ref
      (record w { last_error = put ℕ_discrete (owner_of ref w) (cloud category) w.last_error })

-- What `_run` does when a pass raises an error of the local storage.
unfoldable pub after_local_failure : ℕ → ℕ → Worker → Worker
unfolding next_attempt
after_local_failure now ref w =
    let owner = owner_of ref w in
    let attempt = next_attempt owner w in
    record w {
      retry = put ℕ_discrete owner (attempt, now + min max_backoff (2 ^ attempt * second)) w.retry;
      last_error = put ℕ_discrete owner storage w.last_error;
    }
