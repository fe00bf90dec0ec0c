-- ===== src/Sync/Turns.antt =====
-- Whose turn it is in a round of the background loop.
use algo_guard.Prelude.{ℕ, ◌≡◌, sym, subst, true, [], ◌∷◌, ◌&&◌, All, arith, if_elim, ℕ_discrete}
use algo_guard.Prelude.Dict.{Dict, get, Entries}
use algo_guard.Sync.Worker.{Worker, owner_of}
use algo_guard.Sync.Identities.{Inv}
use algo_guard.Sync.Reports.{may_retry, due_from, due}

-- The identity has not ended, and its user is past the time of the next retry, if there is one.
abbrev pub IsReady : ℕ → Worker → ℕ → Type 0
IsReady now w ref =
    ((w.heap ref).active ≡ true) × (may_retry now (get ℕ_discrete (owner_of ref w) w.retry) ≡ true)

due_from-IsReady :
    (now : ℕ) (w : Worker) (identities : Dict ℕ ℕ)
    → Entries ℕ_discrete (λ owner ref. owner_of ref w ≡ owner) identities
    → All (IsReady now w) (due_from w now identities)
unfolding due_from
due_from-IsReady now w [] own = tt
due_from-IsReady now w ((owner, ref) ∷ identities) own =
    let rest = due_from-IsReady now w identities own.1 in
    if_elim (All (IsReady now w))
      ((w.heap ref).active && may_retry now (get ℕ_discrete owner w.retry))
      (λ h. (
        (
          ground arith,
          subst (λ (n : ℕ). may_retry now (get ℕ_discrete n w.retry) ≡ true) (sym own.0)
              (ground arith),
        ),
        rest,
      ))
      (λ _. rest)

-- When each user has an identity of their own, `_due` gives a turn only to identities that have
-- not ended, and to none whose user still waits for a retry.
pub due-IsReady : (now : ℕ) (w : Worker) → Inv w → All (IsReady now w) (due now w)
unfolding due
due-IsReady now w v = due_from-IsReady now w w.identities v.own
