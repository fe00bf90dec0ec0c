-- ===== src/Sync/Isolation.antt =====
-- One pass of the worker, and what it holds for the other users.
use algo_guard.Prelude.{
  ℕ, ◌<◌, ◌≡◌, ◌≢◌, refl, sym, subst, Bool, true, false, Option, none, some, if_elim, ℕ_discrete,
  not,
}
use algo_guard.Prelude.Dict.{get, has, put}
use algo_guard.Outbox.Spool.{Owner}
use algo_guard.Sync.Store.{Category, cloud, storage}
use algo_guard.Sync.Worker.{
  Worker, owner_of, Access, granted, denied, access_failed, is_due, approval_restored, approved,
  waits_for_approval, permission_recheck,
}
use algo_guard.Sync.Identities.{
  Inv, after_success-Inv, after_error-Inv, after_local_failure-Inv, approval_restored-Inv,
}
use algo_guard.Sync.Pass.{
  Meets, Site, with_worker, Stage, connected, run_stages, conclude_pass, concluded, run_pass,
  if_restored, sync_once,
}
use algo_guard.Sync.Passes.{same-SameBut, CoreKept, Inv-SameCore, pass_stages-CoreKept}
use algo_guard.Sync.Held.{SameFor, then-SameFor, get-put_other, get-remove_other}
use algo_guard.Sync.Others.{after_success-SameFor, after_error-SameFor, after_local_failure-SameFor}

-- What a pass leaves is fit for the next one, and what is held for the user is as it was, and so
-- is the identity object `r`.
abbrev pub Left : ℕ → ℕ → Worker → Option Site → Type 0
Left user r w none = ⊥
Left user r w (some s) = Inv s.worker × SameFor user r w s.worker

approval_restored-heap :
    (now later : ℕ) (access : Access) (owner : ℕ) (w : Worker)
    → (approval_restored now later access owner w).1.heap ≡ w.heap
unfolding approval_restored approved
approval_restored-heap now later access owner w =
    let Kept = λ (r : Bool × Worker). r.1.heap ≡ w.heap in
    if_elim Kept (not (waits_for_approval (get ℕ_discrete owner w.blocked))) {x = (false, w)}
      (λ _. refl)
      (λ _.
        if_elim Kept
          (not (is_due now permission_recheck (get ℕ_discrete owner w.permission_checked)))
          {x = (false, w)} {y = approved now later access owner w} (λ _. refl)
          (λ _. by_access access))
  where
    by_access : (a : Access) → (approved now later a owner w).1.heap ≡ w.heap
    by_access granted = refl
    by_access denied = refl
    by_access (access_failed category) = refl

module _ (user r ref : ℕ) (apart : r ≢ ref) where
  conclude_pass-Left :
      (m : Meets) (stage : Stage)
      → Inv stage.1.worker
      → user ≢ owner_of ref stage.1.worker
      → Left user r stage.1.worker (some (conclude_pass m ref stage))
  unfolding conclude_pass
  conclude_pass-Left m (none, s) v other = (
    after_success-Inv m.ended_at (owner_of ref s.worker) s.worker v,
    after_success-SameFor user r (owner_of ref s.worker) other m.ended_at s.worker,
  )
  conclude_pass-Left m (some (cloud category), s) v other = (
    after_error-Inv category (connected m.connection) m.renewal m.ended_at m.jitter ref s.worker v,
    after_error-SameFor user r ref apart category (connected m.connection) m.renewal m.ended_at
        m.jitter s.worker other,
  )
  conclude_pass-Left m (some storage, s) v other = (
    after_local_failure-Inv m.ended_at ref s.worker v,
    after_local_failure-SameFor user r ref apart m.ended_at s.worker other,
  )

  concluded-Left :
      (m : Meets) (w : Worker) (o : Option Stage)
      → CoreKept user r w o
      → Inv w
      → user ≢ owner_of ref w
      → Left user r w (concluded m ref o)
  concluded-Left m w none h v other = h
  concluded-Left m w (some (f, s)) h v other =
      let left =
        conclude_pass-Left m (f, s) (Inv-SameCore w s.worker h.0 v)
          (subst (λ heap. user ≢ (heap ref).user_id) (sym h.0.same_heap) other) in
      (left.0, then-SameFor user r w s.worker (conclude_pass m ref (f, s)).worker h.1 left.1)

  module _ (m : Meets) (parallelism : ℕ) (c : Owner) (pos : 0 < parallelism) where
    run_stages-CoreKept :
        (owner : ℕ) (s : Site) (o : Option Category)
        → user ≢ owner
        → CoreKept user r s.worker (run_stages m parallelism c owner s o)
    unfolding run_stages
    run_stages-CoreKept owner s (some category) other = same-SameBut user r s.worker
    run_stages-CoreKept owner s none other =
        pass_stages-CoreKept user r owner other m parallelism c s pos

    run_pass-Left :
        (s : Site)
        → Inv s.worker
        → user ≢ owner_of ref s.worker
        → Left user r s.worker (run_pass m parallelism c ref s)
    unfolding run_pass
    run_pass-Left s v other =
        concluded-Left m s.worker
          (run_stages m parallelism c (owner_of ref s.worker) s m.connection)
          (run_stages-CoreKept (owner_of ref s.worker) s m.connection other) v other

  approval_restored-SameFor :
      (now later : ℕ) (access : Access) (w : Worker)
      → user ≢ owner_of ref w
      → SameFor user r w (approval_restored now later access (owner_of ref w) w).1
  unfolding approval_restored approved
  approval_restored-SameFor now later access w other =
      let owner = owner_of ref w in
      let Kept = λ (answer : Bool × Worker). SameFor user r w answer.1 in
      if_elim Kept (not (waits_for_approval (get ℕ_discrete owner w.blocked))) {x = (false, w)}
        (λ _. refl)
        (λ _.
          if_elim Kept
            (not (is_due now permission_recheck (get ℕ_discrete owner w.permission_checked)))
            {x = (false, w)} {y = approved now later access owner w} (λ _. refl)
            (λ _. by_access access))
    where
      by_access : (a : Access) → SameFor user r w (approved now later a (owner_of ref w) w).1
      by_access granted =
          let owner = owner_of ref w in
          rw
            (
              get-remove_other user owner other w.blocked,
              get-remove_other user owner other (put ℕ_discrete owner now w.permission_checked),
              get-put_other user owner other now w.permission_checked,
              get-put_other user owner other later w.last_authorization,
            )
            refl
      by_access denied =
          rw (get-put_other user (owner_of ref w) other now w.permission_checked) refl
      by_access (access_failed category) =
          rw (get-put_other user (owner_of ref w) other now w.permission_checked) refl

  module _ (m : Meets) (parallelism : ℕ) (c : Owner) (pos : 0 < parallelism) where
    if_restored-Left :
        (restored : Bool × Worker) (s : Site)
        → Inv restored.1
        → user ≢ owner_of ref restored.1
        → SameFor user r s.worker restored.1
        → Left user r s.worker (if_restored restored s (run_pass m parallelism c ref))
    if_restored-Left (false, w) s v other h = (v, h)
    if_restored-Left (true, w) s v other h =
        after_approval s.worker w (run_pass m parallelism c ref (with_worker s w)) h
          (run_pass-Left m parallelism c pos (with_worker s w) v other)
      where
        after_approval :
            (u w : Worker) (o : Option Site)
            → SameFor user r u w
            → Left user r w o
            → Left user r u o
        after_approval u w none h left = left
        after_approval u w (some s) h left = (left.0, then-SameFor user r u w s.worker h left.1)

-- A pass for one identity always ends, with the worker's invariant kept, whatever the cloud and the
-- disk answer; and for any user but the identity's, and any identity object but this one, all is as
-- it was: what the object holds, and the user's registration, block, retry, last error, last
-- success, and the times and the error of its membership checks and health reports.
pub sync_once-Left :
    (m : Meets) (parallelism : ℕ) (c : Owner) (ref user r : ℕ) (s : Site)
    → 0 < parallelism
    → Inv s.worker
    → user ≢ owner_of ref s.worker
    → r ≢ ref
    → Left user r s.worker (sync_once m parallelism c ref s)
unfolding sync_once
sync_once-Left m parallelism c ref user r s pos v other apart =
    let owner = owner_of ref s.worker in
    let restored = approval_restored m.checked_at m.restored_at m.approval owner s.worker in
    let heap = approval_restored-heap m.checked_at m.restored_at m.approval owner s.worker in
    if_elim (Left user r s.worker) (has ℕ_discrete owner s.worker.blocked)
      (λ _.
        if_restored-Left user r ref apart m parallelism c pos restored s
          (approval_restored-Inv m.checked_at m.restored_at m.approval owner s.worker v)
          (subst (λ h. user ≢ (h ref).user_id) (sym heap) other)
          (approval_restored-SameFor user r ref apart m.checked_at m.restored_at m.approval s.worker
            other))
      (λ _. run_pass-Left user r ref apart m parallelism c pos s v other)
