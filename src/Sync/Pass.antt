-- ===== src/Sync/Pass.antt =====
-- `sync_once` for one identity, with what `_run` does when it raises.
use algo_guard.Prelude.{
  ℕ, ◌*◌, Bool, true, false, ◌&&◌, Option, none, some, List, if◌then◌else◌, ℕ_discrete,
}
use algo_guard.Prelude.Dict.{get, has, put}
use algo_guard.Outbox.Spool.{Owner, Row}
use algo_guard.Outbox.State.{Outbox}
use algo_guard.Outbox.Writer.{Disk, recheck_capacity}
use algo_guard.Outbox.Summaries.{Summary}
use algo_guard.Sync.Store.{Category, permission, Failure, cloud, storage, Server}
use algo_guard.Sync.Upload.{upload}
use algo_guard.Sync.Worker.{
  Worker, second, owner_of, Access, granted, denied, access_failed, is_due, approval_restored,
  after_success, after_error, after_local_failure,
}
use algo_guard.Sync.Reports.{Desk, send_summaries, heartbeat, after_report}

-- What a pass meets: the answers of the cloud, of the disk and of `random`, the clock where it is
-- read, and whether the read of the summaries, the recheck of the capacity and `health` raise.
pub record Meets : Type 0 where
  pub approval : Access
  pub connection : Option Category
  pub membership : Access
  pub servers : ℕ → Server
  pub desk : Desk
  pub disk : Disk
  pub health : Bool
  pub report : Option Category
  pub renewal : Option Category
  pub jitter : ℕ
  pub checked_at : ℕ
  pub restored_at : ℕ
  pub began_at : ℕ
  pub reported_at : ℕ
  pub ended_at : ℕ
  pub summaries_fail : Bool
  pub recheck_fails : Bool
  pub health_fails : Bool

-- What the worker reads and writes.
pub record Site : Type 0 where
  pub worker : Worker
  pub outbox : Outbox
  pub summaries : List Summary

abbrev pub with_worker : Site → Worker → Site
with_worker s w = record s { worker = w }

abbrev pub Stage : Type 0
Stage = Option Failure × Site

-- What raises ends the pass; `none` is out of fuel.
abbrev pub and_then : Stage → (Site → Option Stage) → Option Stage
and_then (some f, s) next = some (some f, s)
and_then (none, s) next = next s

abbrev pub membership_recheck : ℕ
membership_recheck = 15 * second

abbrev pub member : ℕ → Access → ℕ → Site → Stage
member now granted owner s = (
  none,
  with_worker s (record s.worker {
    last_authorization = put ℕ_discrete owner now s.worker.last_authorization;
  }),
)
member now denied owner s = (some (cloud permission), s)
member now (access_failed category) owner s = (some (cloud category), s)

unfoldable pub check_membership : Meets → ℕ → Site → Stage
unfolding is_due
check_membership m owner s =
    if is_due m.began_at membership_recheck (get ℕ_discrete owner s.worker.last_authorization)
    then member m.began_at m.membership owner s
    else (none, s)

abbrev pub with_events :
    Site → Option (Option Failure × List Row) → (Stage → Option Stage) → Option Stage
with_events s none next = none
with_events s (some (f, events)) next =
    next (f, record s { outbox = record s.outbox { events = events } })

abbrev pub with_summaries : Site → Option Failure × List Summary → Stage
with_summaries s (f, summaries) = (f, record s { summaries = summaries })

unfoldable pub summarised : Meets → Owner → Site → Stage
unfolding send_summaries
summarised m c s =
    if m.summaries_fail
    then (some storage, s)
    else with_summaries s (send_summaries m.desk c s.summaries)

unfoldable pub rechecked : Meets → Site → Stage
unfolding recheck_capacity
rechecked m s =
    if m.recheck_fails
    then (some storage, s)
    else (none, record s { outbox = recheck_capacity m.disk s.outbox })

-- An error of `health` is raised once the time of the report is set.
abbrev pub reported : Meets → ℕ → Site → Stage
reported m owner s =
    let (sent, w) = heartbeat m.health m.reported_at m.reported_at owner s.worker in
    if sent && m.health_fails
    then (some storage, with_worker s w)
    else (none, with_worker s (after_report m.report owner (sent, w)))

-- The stages of a pass once there is a connection.
unfoldable pub pass_stages : Meets → ℕ → Owner → ℕ → Site → Option Stage
unfolding check_membership upload summarised rechecked heartbeat after_report
pass_stages m parallelism c owner s = and_then (check_membership m owner s) (λ member.
    with_events member (upload m.servers c parallelism member.outbox.events) (λ uploaded.
      and_then uploaded (λ sent.
        and_then (summarised m c sent)
          (λ told. and_then (rechecked m told) (λ checked. some (reported m owner checked))))))

abbrev pub connected : Option Category → Bool
connected none = true
connected (some category) = false

unfoldable pub run_stages : Meets → ℕ → Owner → ℕ → Site → Option Category → Option Stage
unfolding pass_stages
run_stages m parallelism c owner s (some category) = some (some (cloud category), s)
run_stages m parallelism c owner s none = pass_stages m parallelism c owner s

-- What the pass leaves by how it ended.
unfoldable pub conclude_pass : Meets → ℕ → Stage → Site
unfolding after_success after_error after_local_failure
conclude_pass m ref (none, s) =
    with_worker s (after_success m.ended_at (owner_of ref s.worker) s.worker)
conclude_pass m ref (some (cloud category), s) =
    with_worker s
      (after_error category (connected m.connection) m.renewal m.ended_at m.jitter ref s.worker)
conclude_pass m ref (some storage, s) = with_worker s (after_local_failure m.ended_at ref s.worker)

abbrev pub concluded : Meets → ℕ → Option Stage → Option Site
concluded m ref none = none
concluded m ref (some r) = some (conclude_pass m ref r)

unfoldable pub run_pass : Meets → ℕ → Owner → ℕ → Site → Option Site
unfolding run_stages conclude_pass
run_pass m parallelism c ref s =
    concluded m ref (run_stages m parallelism c (owner_of ref s.worker) s m.connection)

-- A user that is blocked goes on only once the installation has been approved.
abbrev pub if_restored : Bool × Worker → Site → (Site → Option Site) → Option Site
if_restored (true, w) s next = next (with_worker s w)
if_restored (false, w) s next = some (with_worker s w)

-- sync_once(identity)
unfoldable pub sync_once : Meets → ℕ → Owner → ℕ → Site → Option Site
unfolding run_pass approval_restored
sync_once m parallelism c ref s =
    let owner = owner_of ref s.worker in
    let restored = approval_restored m.checked_at m.restored_at m.approval owner s.worker in
    if has ℕ_discrete owner s.worker.blocked
    then if_restored restored s (run_pass m parallelism c ref)
    else run_pass m parallelism c ref s
