-- ===== src/Sync/Identities.antt =====
-- Whose sign-in the worker uses, and how long it waits.
use algo_guard.Prelude.{
  false, not, ℕ, ◌+◌, ◌-◌, ◌*◌, ◌/◌, ◌%◌, ◌^◌, ◌≤◌, ◌<◌, ◌≡◌, refl, Bool, Option, none, some, arith,
  min, if_elim, ◌==◌, ℕ_discrete, ◌∙◌, [], ◌∷◌,
}
use algo_guard.Prelude.Dict.{get, Dict, Entries, put-Entries, remove-Entries}
use algo_guard.Sync.Store.{
  Category, transient, authentication, permission, validation, conflict, not_found, protocol,
}
use algo_guard.Sync.Worker.{
  Worker, Identity, owner_of, enlist, register_over, register, unregister, is_registered,
  after_success, next_attempt, postpone, sign_out, cleared, Renewal, renewed, postponed, ended,
  after_renewal, block, handle, after_error, after_local_failure, backoff, max_backoff, second,
  approval_restored, approved, waits_for_approval, is_due, permission_recheck, Access, granted,
  denied, access_failed,
}
use native.Mathlib.Nat.{div-add-mod, mod-lt, mul-le-mul_left}

-- Every user's events are uploaded with an identity of that same user, and a user that is retried
-- has failed one to ten times.
pub record Inv (w : Worker) : Type 0 where
  pub own : Entries ℕ_discrete (λ owner ref. owner_of ref w ≡ owner) w.identities
  pub attempts : Entries ℕ_discrete (λ owner entry. (1 ≤ entry.0) × (entry.0 ≤ 10)) w.retry

enlist-Inv : (ref : ℕ) (w : Worker) → Inv w → Inv (enlist ref w)
unfolding enlist
enlist-Inv ref w v =
    let own = put-Entries ℕ_discrete _ (owner_of ref w) ref w.identities refl v.own in
    if_elim Inv (w.heap ref).session_bound
      (λ _. record {
        own = own;
        attempts = remove-Entries ℕ_discrete _ (owner_of ref w) w.retry v.attempts;
      })
      (λ _. record { own = own; attempts = v.attempts })

register_over-Inv :
    (current : Option ℕ) (ref : ℕ) (w : Worker) → Inv w → Inv (register_over current ref w)
unfolding register_over
register_over-Inv none ref w v = enlist-Inv ref w v
register_over-Inv (some current) ref w v =
    if_elim Inv (current == ref) (λ _. v) (λ _. if_elim Inv _ (λ _. enlist-Inv ref w v) (λ _. v))

pub register-Inv : (ref : ℕ) (w : Worker) → Inv w → Inv (register ref w)
unfolding register
register-Inv ref w v = register_over-Inv _ ref w v

pub unregister-Inv : (ref : ℕ) (w : Worker) → Inv w → Inv (unregister ref w)
unfolding unregister
unregister-Inv ref w v =
    if_elim Inv (is_registered ref w)
      (λ _. record {
        own = remove-Entries ℕ_discrete _ (owner_of ref w) w.identities v.own;
        attempts = v.attempts;
      })
      (λ _. v)

next_attempt-bounds :
    (owner : ℕ) (w : Worker) → (1 ≤ next_attempt owner w) × (next_attempt owner w ≤ 10)
unfolding next_attempt
next_attempt-bounds owner w = (omega arith, omega arith)

postpone-Inv : (now jitter owner : ℕ) (w : Worker) → Inv w → Inv (postpone now jitter owner w)
unfolding postpone
postpone-Inv now jitter owner w v = record {
  own = v.own;
  attempts = put-Entries ℕ_discrete _ owner _ w.retry (next_attempt-bounds owner w) v.attempts;
}

-- The end of a sign-in changes nobody's user.
cleared-user_id :
    (ref : ℕ) (heap : ℕ → Identity) (r : ℕ) → (cleared ref heap r).user_id ≡ (heap r).user_id
unfolding cleared
cleared-user_id ref heap r =
    if_elim (λ (i : Identity). i.user_id ≡ (heap r).user_id) (r == ref) (λ _. refl) (λ _. refl)

own-cleared :
    (ref : ℕ) (heap : ℕ → Identity) (d : Dict ℕ ℕ)
    → Entries ℕ_discrete (λ owner r. (heap r).user_id ≡ owner) d
    → Entries ℕ_discrete (λ owner r. (cleared ref heap r).user_id ≡ owner) d
own-cleared ref heap [] a = tt
own-cleared ref heap ((owner, r) ∷ d) a =
    (cleared-user_id ref heap r ∙ a.0, own-cleared ref heap d a.1)

sign_out-Inv : (ref : ℕ) (w : Worker) → Inv w → Inv (sign_out ref w)
unfolding sign_out
sign_out-Inv ref w v = record {
  own =
      if_elim (Entries ℕ_discrete (λ owner r. (cleared ref w.heap r).user_id ≡ owner))
        (is_registered ref w)
        (λ _.
          own-cleared ref w.heap _
            (remove-Entries ℕ_discrete _ (owner_of ref w) w.identities v.own))
        (λ _. own-cleared ref w.heap w.identities v.own);
  attempts = v.attempts;
}

after_renewal-Inv :
    (answer : Renewal) (now jitter ref : ℕ) (w : Worker)
    → Inv w
    → Inv (after_renewal answer now jitter ref w)
unfolding after_renewal
after_renewal-Inv renewed now jitter ref w v = record { own = v.own; attempts = v.attempts }
after_renewal-Inv postponed now jitter ref w v = postpone-Inv now jitter (owner_of ref w) w v
after_renewal-Inv ended now jitter ref w v = sign_out-Inv ref w v

block-Inv :
    (category : Category) (now owner : ℕ) (w : Worker) → Inv w → Inv (block category now owner w)
unfolding block
block-Inv category now owner w v = record { own = v.own; attempts = v.attempts }

handle-Inv :
    (category : Category) (answer : Renewal) (now jitter ref : ℕ) (w : Worker)
    → Inv w
    → Inv (handle category answer now jitter ref w)
unfolding handle
handle-Inv authentication answer now jitter ref w v = after_renewal-Inv answer now jitter ref w v
handle-Inv transient answer now jitter ref w v = postpone-Inv now jitter (owner_of ref w) w v
handle-Inv permission answer now jitter ref w v = block-Inv permission now (owner_of ref w) w v
handle-Inv validation answer now jitter ref w v = block-Inv validation now (owner_of ref w) w v
handle-Inv conflict answer now jitter ref w v = block-Inv conflict now (owner_of ref w) w v
handle-Inv not_found answer now jitter ref w v = block-Inv not_found now (owner_of ref w) w v
handle-Inv protocol answer now jitter ref w v = block-Inv protocol now (owner_of ref w) w v

pub after_error-Inv :
    (category : Category) (connected : Bool) (renewal : Option Category) (now jitter ref : ℕ)
    (w : Worker)
    → Inv w
    → Inv (after_error category connected renewal now jitter ref w)
unfolding after_error
after_error-Inv category connected renewal now jitter ref w v =
    handle-Inv category _ now jitter ref _ (record { own = v.own; attempts = v.attempts })

pub after_success-Inv : (now owner : ℕ) (w : Worker) → Inv w → Inv (after_success now owner w)
unfolding after_success
after_success-Inv now owner w v = record {
  own = v.own;
  attempts = remove-Entries ℕ_discrete _ owner w.retry v.attempts;
}

pub after_local_failure-Inv :
    (now ref : ℕ) (w : Worker) → Inv w → Inv (after_local_failure now ref w)
unfolding after_local_failure
after_local_failure-Inv now ref w v = record {
  own = v.own;
  attempts =
      put-Entries ℕ_discrete _ (owner_of ref w) _ w.retry (next_attempt-bounds _ w) v.attempts;
}

pub approval_restored-Inv :
    (now later : ℕ) (access : Access) (owner : ℕ) (w : Worker)
    → Inv w
    → Inv (approval_restored now later access owner w).1
unfolding approval_restored approved
approval_restored-Inv now later access owner w v =
    if_elim (λ (r : Bool × Worker). Inv r.1)
      (not (waits_for_approval (get ℕ_discrete owner w.blocked))) {x = (false, w)} (λ _. v)
      λ _.
        if_elim (λ (r : Bool × Worker). Inv r.1)
          (not (is_due now permission_recheck (get ℕ_discrete owner w.permission_checked)))
          {x = (false, w)} {y = approved now later access owner w} (λ _. v) (λ _. by_access access)
  where
    by_access : (a : Access) → Inv (approved now later a owner w).1
    by_access granted = record { own = v.own; attempts = v.attempts }
    by_access denied = record { own = v.own; attempts = v.attempts }
    by_access (access_failed category) = record { own = v.own; attempts = v.attempts }

-- The calls of the worker, those of a pass by how the pass ended.
pub data Call : Type 0 where
  registers unregisters : ℕ → Call
  rechecks : ℕ → ℕ → Access → ℕ → Call
  succeeds : ℕ → ℕ → Call
  fails : Category → Bool → Option Category → ℕ → ℕ → ℕ → Call
  fails_locally : ℕ → ℕ → Call

unfoldable pub perform : Call → Worker → Worker
perform (registers ref) w = register ref w
perform (unregisters ref) w = unregister ref w
perform (rechecks now later access owner) w = (approval_restored now later access owner w).1
perform (succeeds now owner) w = after_success now owner w
perform (fails category connected renewal now jitter ref) w =
    after_error category connected renewal now jitter ref w
perform (fails_locally now ref) w = after_local_failure now ref w

-- No call makes the worker hold for a user an identity of somebody else, and none takes the number
-- of attempts of a user under retry out of one to ten.
pub perform-Inv : (call : Call) (w : Worker) → Inv w → Inv (perform call w)
unfolding perform
perform-Inv (registers ref) w v = register-Inv ref w v
perform-Inv (unregisters ref) w v = unregister-Inv ref w v
perform-Inv (rechecks now later access owner) w v = approval_restored-Inv now later access owner w v
perform-Inv (succeeds now owner) w v = after_success-Inv now owner w v
perform-Inv (fails category connected renewal now jitter ref) w v =
    after_error-Inv category connected renewal now jitter ref w v
perform-Inv (fails_locally now ref) w v = after_local_failure-Inv now ref w v

scaled :
    (most jitter : ℕ)
    → jitter < 9007199254740992
    → (most ≤ 2 * (most * (9007199254740992 + jitter) / 18014398509481984) + 1)
      × (most * (9007199254740992 + jitter) / 18014398509481984 ≤ most)
scaled most jitter h =
    let product = most * (9007199254740992 + jitter) in
    let e = div-add-mod product 18014398509481984 in
    let l : product % 18014398509481984 < 18014398509481984 = mod-lt product (omega arith) in
    let low : most * 9007199254740992 ≤ product = mul-le-mul_left most (omega arith) in
    let high : product ≤ most * 18014398509481984 = mul-le-mul_left most (omega arith) in
    (omega (arith, e, l, low), omega (arith, e, l, high))

-- The delay before a retry, at whole microseconds, is between half of its cap and its cap, which
-- doubles with each attempt and is at most a minute.
pub backoff_bounds :
    (attempt jitter : ℕ)
    → jitter < 2 ^ 53
    → (min max_backoff (2 ^ (attempt - 1) * second) ≤ 2 * backoff attempt jitter + 1)
      × (backoff attempt jitter ≤ min max_backoff (2 ^ (attempt - 1) * second))
unfolding backoff
backoff_bounds attempt jitter h = scaled (min max_backoff (2 ^ (attempt - 1) * second)) jitter h
