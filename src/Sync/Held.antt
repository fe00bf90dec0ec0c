-- ===== src/Sync/Held.antt =====
-- What the worker holds for one user, and the updates for another that leave it alone.
use algo_guard.Prelude.{ℕ, ◌≡◌, ◌≢◌, ◌∙◌, Option, arith, ℕ_discrete}
use algo_guard.Prelude.Dict.{Dict, get, put, remove, get-put, get-remove}
use algo_guard.Sync.Store.{Category, Failure}
use algo_guard.Sync.Worker.{Identity, Worker}

-- All that the worker holds for a user, and one identity object.
pub record Held : Type 0 where
  pub object : Identity
  pub identity : Option ℕ
  pub block : Option Category
  pub checked : Option ℕ
  pub retry : Option (ℕ × ℕ)
  pub error : Option Failure
  pub success : Option ℕ
  pub authorization : Option ℕ
  pub heartbeat : Option ℕ
  pub report : Option Category

abbrev pub held : ℕ → ℕ → Worker → Held
held user r w = record {
  object = w.heap r;
  identity = get ℕ_discrete user w.identities;
  block = get ℕ_discrete user w.blocked;
  checked = get ℕ_discrete user w.permission_checked;
  retry = get ℕ_discrete user w.retry;
  error = get ℕ_discrete user w.last_error;
  success = get ℕ_discrete user w.last_success;
  authorization = get ℕ_discrete user w.last_authorization;
  heartbeat = get ℕ_discrete user w.last_heartbeat;
  report = get ℕ_discrete user w.heartbeat_error;
}

-- What the worker holds for the user, and the object, are as they were.
abbrev pub SameFor : ℕ → ℕ → Worker → Worker → Type 0
SameFor user r w w' = held user r w' ≡ held user r w

pub then-SameFor :
    (user r : ℕ) (u v w : Worker) → SameFor user r u v → SameFor user r v w → SameFor user r u w
then-SameFor user r u v w a b = b ∙ a

module _ (user owner : ℕ) (other : user ≢ owner) where
  pub get-put_other :
      {V : Type 0} (v : V) (d : Dict ℕ V)
      → get ℕ_discrete user (put ℕ_discrete owner v d) ≡ get ℕ_discrete user d
  get-put_other v d = ground (arith, get-put ℕ_discrete owner user v d)

  pub get-remove_other :
      {V : Type 0} (d : Dict ℕ V)
      → get ℕ_discrete user (remove ℕ_discrete owner d) ≡ get ℕ_discrete user d
  get-remove_other d = ground (arith, get-remove ℕ_discrete owner user d)
