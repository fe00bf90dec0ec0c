-- ===== src/Sync/Reports.antt =====
-- `SyncWorker._summaries`, `_heartbeat` and `_due`: the summaries of a pass, the health report, and
-- the identities whose turn it is.
use algo_guard.Prelude.{
  ℕ, ◌*◌, Bool, true, false, ◌&&◌, ◌||◌, not, String, Option, none, some, List, [], ◌∷◌, leb,
  if◌then◌else◌, ℕ_discrete,
}
use algo_guard.Prelude.Dict.{Dict, get, put, remove}
use algo_guard.Outbox.Spool.{Owner}
use algo_guard.Outbox.Summaries.{Summary, pending_summaries, finish_lifecycle}
use algo_guard.Sync.Store.{
  Category, not_found, category_name, is_permanent, Failure, cloud, storage,
}
use algo_guard.Sync.Worker.{Worker, second, is_due}

-- What the cloud makes of one summary: `finalize_capture` or `append_system_log` returns, it fails,
-- or the payload is none that they could send.
pub data Delivery : Type 0 where
  delivered unsendable : Delivery
  undelivered : Category → Delivery

pub record Desk : Type 0 where
  pub deliver : Summary → Delivery
  pub spool_fails : Summary → Bool

-- category in PERMANENT_EVENT_ERRORS | {"not_found"}
abbrev pub is_final : Category → Bool
is_final not_found = true
is_final category = is_permanent category

-- What `finish_lifecycle` is told, or the error that ends the pass.
unfoldable pub verdict : Delivery → Option (Option String)
verdict delivered = some none
verdict unsendable = some (some "invalid_summary")
verdict (undelivered category) =
    if is_final category then some (some (category_name category)) else none

abbrev pub failure_of : Delivery → Failure
failure_of (undelivered category) = cloud category
failure_of _ = storage

unfoldable pub finish_each :
    Desk → Owner → List Summary → List Summary → Option Failure × List Summary
unfolding verdict
finish_each desk c [] rows = (none, rows)
finish_each desk c (s ∷ summaries) rows = elim (verdict (desk.deliver s)) [
  | none ↦ (some (failure_of (desk.deliver s)), rows)
  | some reason ↦
      let rest = finish_each desk c summaries (finish_lifecycle c s.summary_id reason rows) in
      if desk.spool_fails s then (some storage, rows) else rest
]

-- _summaries(repo)
unfoldable pub send_summaries : Desk → Owner → List Summary → Option Failure × List Summary
unfolding finish_each
send_summaries desk c rows = finish_each desk c (pending_summaries c 10 rows) rows

abbrev pub heartbeat_interval : ℕ
heartbeat_interval = 60 * second

-- _heartbeat(repo, owner): whether a report is sent, and the worker. `health` is whether the
-- application has set a report.
unfoldable pub heartbeat : Bool → ℕ → ℕ → ℕ → Worker → Bool × Worker
unfolding is_due
heartbeat health now later owner w =
    if not health || not (is_due now heartbeat_interval (get ℕ_discrete owner w.last_heartbeat))
    then (false, w)
    else (true, record w { last_heartbeat = put ℕ_discrete owner later w.last_heartbeat })

-- How the report ended, where one is sent.
unfoldable pub after_report : Option Category → ℕ → Bool × Worker → Worker
after_report error owner (false, w) = w
after_report none owner (true, w) = record w {
  heartbeat_error = remove ℕ_discrete owner w.heartbeat_error;
}
after_report (some category) owner (true, w) = record w {
  heartbeat_error = put ℕ_discrete owner category w.heartbeat_error;
}

-- retry.get(owner, (0, 0))[1] <= now
unfoldable pub may_retry : ℕ → Option (ℕ × ℕ) → Bool
may_retry now none = true
may_retry now (some (attempt, at)) = leb at now

unfoldable pub due_from : Worker → ℕ → Dict ℕ ℕ → List ℕ
unfolding may_retry
due_from w now [] = []
due_from w now ((owner, ref) ∷ identities) =
    let rest = due_from w now identities in
    if (w.heap ref).active && may_retry now (get ℕ_discrete owner w.retry) then ref ∷ rest else rest

-- _due()
unfoldable pub due : ℕ → Worker → List ℕ
unfolding due_from
due now w = due_from w now w.identities
