-- ===== src/Sync/Tests.antt =====
-- The upload worker on small spools.
use algo_guard.Prelude.{
  ℕ, ◌+◌, ◌-◌, ◌*◌, ◌^◌, ◌≤◌, ◌≡◌, refl, true, false, none, some, List, [], ◌∷◌, arith, map, min,
  ◌⊎◌, All, if◌then◌else◌, ◌==◌,
}
use algo_guard.Outbox.Spool.{Receipt, Owner, Row, pending, is_pending, acknowledge, reject}
use algo_guard.Sync.Store.{
  transient, validation, Failure, Answer, receipts_for, failed_with, Server, store,
}
use algo_guard.Sync.Upload.{upload, split_batches, store_parallel, store_batches}
use algo_guard.Sync.Rows.{AllUpload}
use algo_guard.Sync.Fates.{store_parallel-AllUpload}
use algo_guard.Sync.Rounds.{
  joined, IsBatch, split_batches-IsBatch, Ends, upload-Ends, Gravest, store_parallel-Gravest,
}
use algo_guard.Sync.Worker.{Worker, backoff, max_backoff, second}
use algo_guard.Sync.Identities.{Inv, fails, perform, perform-Inv, backoff_bounds}
use algo_guard.Prelude.Dict.{get}
use algo_guard.Prelude.{ℕ_discrete}
use algo_guard.Sync.Reports.{due}
use algo_guard.Sync.Turns.{IsReady, due-IsReady}

abbrev owner : Owner
owner = record { user_id = 1; profile_id = 2; node_id = 3 }

abbrev row : ℕ → Row
row uuid = record {
  event_uuid = uuid;
  owner = owner;
  session_id = "s";
  deployment_id = 1;
  created_at = uuid;
  payload = "{}";
  status = pending;
  reason = none;
  receipt = none;
  payload_hash = "h";
}

abbrev rows : List Row
rows = row 7 ∷ row 8 ∷ []

abbrev receipt : ℕ → Receipt
receipt uuid = record { event_uuid = uuid; prediction_id = 11; alert_id = none }

-- The cloud refuses event 7, and with it every batch that begins with it.
abbrev answer : List Row → Answer
answer [] = failed_with validation
answer (r ∷ batch) =
    if r.event_uuid == 7 then failed_with validation else receipts_for (receipt 8 ∷ [])

abbrev server : Server
server = record { store_flows = answer; spool_fails = λ events. false }

abbrev busy : Server
busy = record { store_flows = λ events. failed_with transient; spool_fails = λ events. false }

-- The bad event is rejected, the good one of the same batch is synced.
isolated :
    map (λ (r : Row). is_pending r.status) (store server owner rows rows).rows ≡ false ∷ false ∷ []
unfolding store acknowledge reject
isolated = refl

store_parallel-AllUpload_example :
    AllUpload server owner rows (store_parallel server owner (rows ∷ []) rows).1
store_parallel-AllUpload_example = store_parallel-AllUpload server owner (rows ∷ []) rows

split_batches-IsBatch_example :
    (joined (split_batches rows) ≡ rows) × All IsBatch (split_batches rows)
split_batches-IsBatch_example = split_batches-IsBatch rows

upload-Ends_example : Ends (upload (λ sent. server) owner 4 rows)
upload-Ends_example = upload-Ends (λ sent. server) owner 4 (omega arith) rows

store_parallel-Gravest_example :
    (((store_batches busy owner (rows ∷ []) rows).0 ≡ [])
      × ((store_parallel busy owner (rows ∷ []) rows).0 ≡ none))
    ⊎ ((f : Failure) × ((store_parallel busy owner (rows ∷ []) rows).0 ≡ some f)
        × Gravest (store_batches busy owner (rows ∷ []) rows).0 f)
store_parallel-Gravest_example = store_parallel-Gravest busy owner (rows ∷ []) rows

abbrev worker : Worker
worker = record {
  heap = λ ref. record { user_id = 1; active = true; session_bound = true };
  identities = (1, 5) ∷ [];
  blocked = [];
  permission_checked = [];
  retry = (1, (3, 900)) ∷ [];
  last_error = [];
  last_success = [];
  last_authorization = [];
  last_heartbeat = [];
  heartbeat_error = [];
}

worker-Inv : Inv worker
worker-Inv = record { own = (refl, tt); attempts = ((omega arith, omega arith), tt) }

perform-Inv_example : Inv (perform (fails transient true none 1000 0 5) worker)
perform-Inv_example = perform-Inv (fails transient true none 1000 0 5) worker worker-Inv

backoff_bounds_example :
    (min max_backoff (2 ^ (4 - 1) * second) ≤ 2 * backoff 4 0 + 1)
    × (backoff 4 0 ≤ min max_backoff (2 ^ (4 - 1) * second))
backoff_bounds_example = backoff_bounds 4 0 (omega arith)

due-IsReady_example : All (IsReady 1000 worker) (due 1000 worker)
due-IsReady_example = due-IsReady 1000 worker worker-Inv

-- The user waits until 900.
one_turn : due 1000 worker ≡ 5 ∷ []
unfolding due get ℕ_discrete
one_turn = refl
