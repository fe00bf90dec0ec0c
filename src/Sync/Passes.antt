-- ===== src/Sync/Passes.antt =====
-- What one pass changes in the worker.
use algo_guard.Prelude.{
  ℕ, ◌<◌, ◌≡◌, ◌≢◌, ◌≤◌, refl, sym, ◌∙◌, subst, ◌&&◌, Bool, true, false, Option, none, some, List,
  if_elim, ℕ_discrete,
}
use algo_guard.Prelude.Dict.{Entries, get}
use algo_guard.Outbox.Spool.{Owner, Row}
use algo_guard.Sync.Store.{Category, Failure, storage}
use algo_guard.Sync.Upload.{upload}
use algo_guard.Sync.Rounds.{Ends, upload-Ends}
use algo_guard.Sync.Worker.{Worker, owner_of, Access, granted, denied, access_failed, is_due}
use algo_guard.Sync.Reports.{heartbeat, after_report}
use algo_guard.Sync.Identities.{Inv}
use algo_guard.Sync.Held.{SameFor, then-SameFor, get-put_other, get-remove_other}
use algo_guard.Sync.Pass.{
  Meets, Site, with_worker, Stage, and_then, member, check_membership, with_events, summarised,
  rechecked, reported, pass_stages, membership_recheck,
}

-- A worker in which the sign-ins, the blocks, the retries and the errors are as they were.
pub record SameCore (w w' : Worker) : Type 0 where
  pub same_heap : w'.heap ≡ w.heap
  pub same_identities : w'.identities ≡ w.identities
  pub same_blocked : w'.blocked ≡ w.blocked
  pub same_retry : w'.retry ≡ w.retry
  pub same_error : w'.last_error ≡ w.last_error

pub same-SameCore : (w : Worker) → SameCore w w
same-SameCore w = record {
  same_heap = refl;
  same_identities = refl;
  same_blocked = refl;
  same_retry = refl;
  same_error = refl;
}

then-SameCore : (u v w : Worker) → SameCore u v → SameCore v w → SameCore u w
then-SameCore u v w a b = record {
  same_heap = b.same_heap ∙ a.same_heap;
  same_identities = b.same_identities ∙ a.same_identities;
  same_blocked = b.same_blocked ∙ a.same_blocked;
  same_retry = b.same_retry ∙ a.same_retry;
  same_error = b.same_error ∙ a.same_error;
}

-- The core is as it was, and so is what is held for one user.
abbrev pub SameBut : ℕ → ℕ → Worker → Worker → Type 0
SameBut user r w w' = SameCore w w' × SameFor user r w w'

pub same-SameBut : (user r : ℕ) (w : Worker) → SameBut user r w w
same-SameBut user r w = (same-SameCore w, refl)

module _ (user r : ℕ) where
  then-SameBut : (u v w : Worker) → SameBut user r u v → SameBut user r v w → SameBut user r u w
  then-SameBut u v w a b = (then-SameCore u v w a.0 b.0, then-SameFor user r u v w a.1 b.1)

  abbrev pub CoreKept : Worker → Option Stage → Type 0
  CoreKept w none = ⊥
  CoreKept w (some (f, s)) = SameBut user r w s.worker

  and_then-CoreKept :
      (w : Worker) (stage : Stage) (next : Site → Option Stage)
      → SameBut user r w stage.1.worker
      → ((s : Site) → SameBut user r w s.worker → CoreKept w (next s))
      → CoreKept w (and_then stage next)
  and_then-CoreKept w (some f, s) next h g = h
  and_then-CoreKept w (none, s) next h g = g s h

  with_events-CoreKept :
      (w : Worker) (s : Site) (o : Option (Option Failure × List Row)) (next : Stage → Option Stage)
      → Ends o
      → SameBut user r w s.worker
      → ((stage : Stage) → SameBut user r w stage.1.worker → CoreKept w (next stage))
      → CoreKept w (with_events s o next)
  with_events-CoreKept w s none next (end, e) h g = cc
  with_events-CoreKept w s (some (f, events)) next e h g =
      g (f, record s { outbox = record s.outbox { events = events } }) h

  summarised-SameBut :
      (m : Meets) (c : Owner) (w : Worker) (s : Site)
      → SameBut user r w s.worker
      → SameBut user r w (summarised m c s).1.worker
  unfolding summarised
  summarised-SameBut m c w s h =
      if_elim (λ (stage : Stage). SameBut user r w stage.1.worker) m.summaries_fail
        {x = (some storage, s)} (λ _. h) (λ _. h)

  rechecked-SameBut :
      (m : Meets) (w : Worker) (s : Site)
      → SameBut user r w s.worker
      → SameBut user r w (rechecked m s).1.worker
  unfolding rechecked
  rechecked-SameBut m w s h =
      if_elim (λ (stage : Stage). SameBut user r w stage.1.worker) m.recheck_fails
        {x = (some storage, s)} (λ _. h) (λ _. h)

  module _ (owner : ℕ) (other : user ≢ owner) where
    check_membership-SameBut :
        (m : Meets) (s : Site) → SameBut user r s.worker (check_membership m owner s).1.worker
    unfolding check_membership
    check_membership-SameBut m s =
        if_elim (λ (stage : Stage). SameBut user r s.worker stage.1.worker)
          (is_due m.began_at membership_recheck (get ℕ_discrete owner s.worker.last_authorization))
          (λ _. by_access m.membership) (λ _. same-SameBut user r s.worker)
      where
        by_access : (a : Access) → SameBut user r s.worker (member m.began_at a owner s).1.worker
        by_access granted = (
          record {
            same_heap = refl;
            same_identities = refl;
            same_blocked = refl;
            same_retry = refl;
            same_error = refl;
          },
          rw (get-put_other user owner other m.began_at s.worker.last_authorization) refl,
        )
        by_access denied = same-SameBut user r s.worker
        by_access (access_failed category) = same-SameBut user r s.worker

    heartbeat-SameBut :
        (health : Bool) (now later : ℕ) (w : Worker)
        → SameBut user r w (heartbeat health now later owner w).1
    unfolding heartbeat
    heartbeat-SameBut health now later w =
        if_elim (λ (sent : Bool × Worker). SameBut user r w sent.1) _ {x = (false, w)}
          (λ _. same-SameBut user r w)
          (λ _. (
            record {
              same_heap = refl;
              same_identities = refl;
              same_blocked = refl;
              same_retry = refl;
              same_error = refl;
            },
            rw (get-put_other user owner other later w.last_heartbeat) refl,
          ))

    after_report-SameBut :
        (error : Option Category) (sent : Bool × Worker)
        → SameBut user r sent.1 (after_report error owner sent)
    unfolding after_report
    after_report-SameBut error (false, w) = same-SameBut user r w
    after_report-SameBut none (true, w) = (
      record {
        same_heap = refl;
        same_identities = refl;
        same_blocked = refl;
        same_retry = refl;
        same_error = refl;
      },
      rw (get-remove_other user owner other w.heartbeat_error) refl,
    )
    after_report-SameBut (some category) (true, w) = (
      record {
        same_heap = refl;
        same_identities = refl;
        same_blocked = refl;
        same_retry = refl;
        same_error = refl;
      },
      rw (get-put_other user owner other category w.heartbeat_error) refl,
    )

    reported-SameBut :
        (m : Meets) (w : Worker) (s : Site)
        → SameBut user r w s.worker
        → SameBut user r w (reported m owner s).1.worker
    reported-SameBut m w s h =
        let beat = heartbeat m.health m.reported_at m.reported_at owner s.worker in
        let beaten =
          then-SameBut w s.worker beat.1 h
            (heartbeat-SameBut m.health m.reported_at m.reported_at s.worker) in
        if_elim (λ (stage : Stage). SameBut user r w stage.1.worker) (beat.0 && m.health_fails)
          {x = (some storage, with_worker s beat.1)} (λ _. beaten)
          (λ _.
            then-SameBut w beat.1 (after_report m.report owner beat) beaten
              (after_report-SameBut m.report beat))

    pub pass_stages-CoreKept :
        (m : Meets) (parallelism : ℕ) (c : Owner) (s : Site)
        → 0 < parallelism
        → CoreKept s.worker (pass_stages m parallelism c owner s)
    unfolding pass_stages
    pass_stages-CoreKept m parallelism c s pos =
        let w = s.worker in
        and_then-CoreKept w (check_membership m owner s) _ (check_membership-SameBut m s)
          (λ member h.
            with_events-CoreKept w member (upload m.servers c parallelism member.outbox.events) _
              (upload-Ends m.servers c parallelism pos member.outbox.events) h
              (λ uploaded h. and_then-CoreKept w uploaded _ h (λ sent h.
                and_then-CoreKept w (summarised m c sent) _ (summarised-SameBut m c w sent h)
                  (λ told h.
                    and_then-CoreKept w (rechecked m told) _ (rechecked-SameBut m w told h)
                      (λ checked h. reported-SameBut m w checked h)))))

pub Inv-SameCore : (w w' : Worker) → SameCore w w' → Inv w → Inv w'
Inv-SameCore w w' c v = record {
  own =
      subst (λ d. Entries ℕ_discrete (λ owner r. owner_of r w' ≡ owner) d) (sym c.same_identities)
        (subst (λ h. Entries ℕ_discrete (λ owner r. (h r).user_id ≡ owner) w.identities)
          (sym c.same_heap) v.own);
  attempts =
      subst (λ d. Entries ℕ_discrete (λ owner (entry : ℕ × ℕ). (1 ≤ entry.0) × (entry.0 ≤ 10)) d)
        (sym c.same_retry) v.attempts;
}
