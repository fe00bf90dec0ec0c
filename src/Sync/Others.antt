-- ===== src/Sync/Others.antt =====
-- What one pass leaves of the other users' state.
use algo_guard.Prelude.{ℕ, ◌≡◌, ◌≢◌, refl, Bool, Option, if_elim, arith, ℕ_discrete}
use algo_guard.Prelude.Dict.{Dict, get, put}
use algo_guard.Sync.Store.{
  Category, transient, authentication, permission, validation, conflict, not_found, protocol,
  Failure, cloud, storage,
}
use algo_guard.Sync.Worker.{
  Identity, Worker, owner_of, after_success, after_error, after_local_failure, handle, renew,
  Renewal, renewed, postponed, ended, after_renewal, sign_out, cleared, postpone, block,
  is_registered,
}
use algo_guard.Sync.Held.{SameFor, then-SameFor, get-put_other, get-remove_other}

module _ (user r owner : ℕ) (other : user ≢ owner) where
  pub after_success-SameFor : (now : ℕ) (w : Worker) → SameFor user r w (after_success now owner w)
  unfolding after_success
  after_success-SameFor now w =
      rw
        (
          get-remove_other user owner other w.retry,
          get-remove_other user owner other w.last_error,
          get-put_other user owner other now w.last_success,
        )
        refl

  postpone-SameFor : (now jitter : ℕ) (w : Worker) → SameFor user r w (postpone now jitter owner w)
  unfolding postpone
  postpone-SameFor now jitter w = rw (get-put_other user owner other) refl

  block-SameFor :
      (category : Category) (now : ℕ) (w : Worker) → SameFor user r w (block category now owner w)
  unfolding block
  block-SameFor category now w =
      rw
        (
          get-put_other user owner other category w.blocked,
          get-put_other user owner other now w.permission_checked,
        )
        refl

module _ (user r ref : ℕ) (apart : r ≢ ref) where
  cleared_other : (heap : ℕ → Identity) → cleared ref heap r ≡ heap r
  unfolding cleared
  cleared_other heap = ground arith

  sign_out-SameFor : (w : Worker) → user ≢ owner_of ref w → SameFor user r w (sign_out ref w)
  unfolding sign_out
  sign_out-SameFor w other =
      let listed : get ℕ_discrete user (sign_out ref w).identities
          ≡ get ℕ_discrete user w.identities =
        if_elim (λ (d : Dict ℕ ℕ). get ℕ_discrete user d ≡ get ℕ_discrete user w.identities)
          (is_registered ref w) (λ _. get-remove_other user (owner_of ref w) other w.identities)
          (λ _. refl) in
      rw (cleared_other w.heap, listed) refl

  after_renewal-SameFor :
      (answer : Renewal) (now jitter : ℕ) (w : Worker)
      → user ≢ owner_of ref w
      → SameFor user r w (after_renewal answer now jitter ref w)
  unfolding after_renewal
  after_renewal-SameFor renewed now jitter w other =
      rw (get-remove_other user (owner_of ref w) other w.last_authorization) refl
  after_renewal-SameFor postponed now jitter w other =
      postpone-SameFor user r (owner_of ref w) other now jitter w
  after_renewal-SameFor ended now jitter w other = sign_out-SameFor w other

  handle-SameFor :
      (category : Category) (answer : Renewal) (now jitter : ℕ) (w : Worker)
      → user ≢ owner_of ref w
      → SameFor user r w (handle category answer now jitter ref w)
  unfolding handle
  handle-SameFor authentication answer now jitter w other =
      after_renewal-SameFor answer now jitter w other
  handle-SameFor transient answer now jitter w other =
      postpone-SameFor user r (owner_of ref w) other now jitter w
  handle-SameFor permission answer now jitter w other =
      block-SameFor user r (owner_of ref w) other permission now w
  handle-SameFor validation answer now jitter w other =
      block-SameFor user r (owner_of ref w) other validation now w
  handle-SameFor conflict answer now jitter w other =
      block-SameFor user r (owner_of ref w) other conflict now w
  handle-SameFor not_found answer now jitter w other =
      block-SameFor user r (owner_of ref w) other not_found now w
  handle-SameFor protocol answer now jitter w other =
      block-SameFor user r (owner_of ref w) other protocol now w

  noted-SameFor :
      (f : Failure) (w : Worker)
      → user ≢ owner_of ref w
      → SameFor user r w (record w { last_error = put ℕ_discrete (owner_of ref w) f w.last_error })
  noted-SameFor f w other = rw (get-put_other user (owner_of ref w) other f w.last_error) refl

  pub after_error-SameFor :
      (category : Category) (live : Bool) (renewal : Option Category) (now jitter : ℕ) (w : Worker)
      → user ≢ owner_of ref w
      → SameFor user r w (after_error category live renewal now jitter ref w)
  unfolding after_error
  after_error-SameFor category live renewal now jitter w other =
      let noted : Worker = record w {
        last_error = put ℕ_discrete (owner_of ref w) (cloud category) w.last_error;
      } in
      then-SameFor user r w noted (handle category (renew live renewal ref w) now jitter ref noted)
        (noted-SameFor (cloud category) w other)
        (handle-SameFor category (renew live renewal ref w) now jitter noted other)

  pub after_local_failure-SameFor :
      (now : ℕ) (w : Worker)
      → user ≢ owner_of ref w
      → SameFor user r w (after_local_failure now ref w)
  unfolding after_local_failure
  after_local_failure-SameFor now w other =
      let owner = owner_of ref w in
      rw (get-put_other user owner other storage w.last_error)
        (rw (get-put_other user owner other) refl)
