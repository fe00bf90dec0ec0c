-- ===== src/Sync/PassTests.antt =====
-- One pass for the first of two users, while the cloud is busy.
use algo_guard.Prelude.{
  ℕ, ◌≡◌, refl, true, false, Option, none, some, [], ◌∷◌, ◌==◌, if◌then◌else◌, arith, ℕ_discrete,
}
use algo_guard.Prelude.Dict.{get, has, put}
use algo_guard.Outbox.Spool.{Owner, Row, pending, pending_rows}
use algo_guard.Outbox.State.{Outbox}
use algo_guard.Sync.Store.{transient, failed_with, Server, store}
use algo_guard.Sync.Worker.{Worker, granted}
use algo_guard.Sync.Reports.{delivered}
use algo_guard.Sync.Identities.{Inv}
use algo_guard.Sync.Pass.{Meets, Site, sync_once}
use algo_guard.Sync.Isolation.{Left, sync_once-Left}

abbrev owner : Owner
owner = record { user_id = 1; profile_id = 2; node_id = 3 }

abbrev row : Row
row = record {
  event_uuid = 7;
  owner = owner;
  session_id = "s";
  deployment_id = 1;
  created_at = 7;
  payload = "{}";
  status = pending;
  reason = none;
  receipt = none;
  payload_hash = "h";
}

abbrev outbox : Outbox
outbox = record {
  total_bytes = 1000;
  flow_budget = 1000;
  max_queue = 10;
  queue = [];
  reservations = [];
  reservation_times = [];
  memory_status = [];
  lost = [];
  session_dropped = [];
  dropped = 0;
  summaries_dropped = 0;
  disk_failed = false;
  loss_reason = none;
  events = row ∷ [];
  saved_reservations = [];
}

abbrev worker : Worker
worker = record {
  heap = λ ref. record { user_id = if ref == 5 then 1 else 2; active = true; session_bound = true };
  identities = (1, 5) ∷ (2, 6) ∷ [];
  blocked = [];
  permission_checked = [];
  retry = (2, (3, 900)) ∷ [];
  last_error = [];
  last_success = [];
  last_authorization = [];
  last_heartbeat = [];
  heartbeat_error = [];
}

worker-Inv : Inv worker
worker-Inv = record { own = (refl, (refl, tt)); attempts = ((omega arith, omega arith), tt) }

abbrev site : Site
site = record { worker = worker; outbox = outbox; summaries = [] }

abbrev busy : Server
busy = record { store_flows = λ events. failed_with transient; spool_fails = λ events. false }

abbrev meets : Meets
meets = record {
  approval = granted;
  connection = none;
  membership = granted;
  servers = λ sent. busy;
  desk = record { deliver = λ s. delivered; spool_fails = λ s. false };
  disk = record { directory_bytes = 0; used_bytes = 0; read_fault = none; fault = none };
  health = true;
  report = none;
  renewal = none;
  jitter = 0;
  checked_at = 1000;
  restored_at = 1000;
  began_at = 1000;
  reported_at = 1000;
  ended_at = 1000;
  summaries_fail = false;
  recheck_fails = false;
  health_fails = false;
}

abbrev retries : Option Site → Option (ℕ × ℕ)
retries none = none
retries (some s) = get ℕ_discrete 1 s.worker.retry

-- Half of the first delay, a second.
postponed_once : retries (sync_once meets 4 owner 5 site) ≡ some (1, 501_000)
unfolding sync_once has get pending_rows store put ℕ_discrete
postponed_once = refl

sync_once-Left_example : Left 2 6 worker (sync_once meets 4 owner 5 site)
sync_once-Left_example =
    sync_once-Left meets 4 owner 5 2 6 site (omega arith) worker-Inv
      (λ e. absurd (omega (arith, e))) (λ e. absurd (omega (arith, e)))
