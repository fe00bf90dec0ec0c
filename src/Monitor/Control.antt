-- ===== src/Monitor/Control.antt =====
-- The control of the monitor: `start_session`, `pause_session`, `resume_session`, `stop_session`, and
-- the states that the worker publishes. `none` is a LiveMonitorError.
use algo_guard.Prelude.{
  ℕ, Bool, true, false, ◌&&◌, ◌||◌, ◌==◌, Option, none, some, List, [], ◌∷◌, if◌then◌else◌,
}
use algo_guard.Monitor.Session.{
  State, running, paused, stopping, stopped, completed, errored, is_active, SourceType, Persist,
  Session, FeedEvent, Scored, new_session, handle_flow,
}
use algo_guard.Monitor.Loop.{finish_rows}

-- The globals of the module; `thread` is whether `_THREAD` is a worker that has not published its
-- final state.
pub record Monitor : Type 0 where
  pub session : Option Session
  pub thread : Bool
  pub stop_event : Bool
  pub pause_event : Bool
  pub events : List FeedEvent

abbrev pub initial : Monitor
initial = record {
  session = none;
  thread = false;
  stop_event = false;
  pause_event = false;
  events = [];
}

abbrev pub session_active : Option Session → Bool
session_active none = false
session_active (some s) = is_active s.state

-- The locked part of `start_session`, once its choices have been validated.
unfoldable pub start_session : ℕ → SourceType → Persist → Monitor → Option Monitor
start_session session_id source_type persist m =
    if m.thread || session_active m.session
    then none
    else some (record {
      session = some (new_session session_id source_type persist);
      thread = true;
      stop_event = false;
      pause_event = false;
      events = [];
    })

abbrev pub with_state : State → Monitor → Session → Monitor
with_state state m s = record m { session = some (record s { state = state }) }

abbrev pub is_running : State → Bool
is_running running = true
is_running _ = false

abbrev pub is_paused : State → Bool
is_paused paused = true
is_paused _ = false

unfoldable pub pause_session : Monitor → Option Monitor
pause_session m = elim m.session [
  | none ↦ none
  | some s ↦
      if is_running s.state
      then some (record (with_state paused m s) { pause_event = true })
      else none
]

unfoldable pub resume_session : Monitor → Option Monitor
resume_session m = elim m.session [
  | none ↦ none
  | some s ↦
      if is_paused s.state
      then some (record (with_state running m s) { pause_event = false })
      else none
]

-- `stop_session` up to the wait for the worker.
unfoldable pub stop_signal : Monitor → Option Monitor
stop_signal m = elim m.session [
  | none ↦ none
  | some s ↦
      if is_active s.state then some (record m { stop_event = true; pause_event = false }) else none
]

-- `stop_session` after the wait, whether or not the worker has ended by then: the state that it
-- writes is that of the session that it took before the wait.
unfoldable pub stop_wait : ℕ → Monitor → Monitor
stop_wait session_id m = elim m.session [
  | none ↦ m
  | some s ↦
      if s.session_id == session_id && is_active s.state
      then with_state (if m.thread then stopping else stopped) m s
      else m
]

-- The worker, once its source is ready: the rows are known and the state is shown.
unfoldable pub worker_ready : ℕ → Monitor → Monitor
worker_ready row_total m = elim m.session [
  | none ↦ m
  | some s ↦
      if m.thread
      then record m { session = some (record s { row_total = row_total; state = running }) }
      else m
]

-- What a flow leaves behind; the worker that raises writes nothing more.
abbrev pub keep : Option (Session × List FeedEvent) → Monitor → Monitor
keep none m = m
keep (some (s, events)) m = record m { session = some s; events = events }

-- The worker handles one flow of a batch.
unfoldable pub worker_flow : ℕ → ℕ → Scored → Monitor → Monitor
unfolding handle_flow
worker_flow row_index latency flow m = elim m.session [
  | none ↦ m
  | some s ↦ if m.thread then keep (handle_flow row_index latency flow (s, m.events)) m else m
]

-- What a worker returns as its final state.
pub data Final : Type 0 where
  final_stopped final_completed final_error : Final

abbrev pub final_state : Final → State
final_state final_stopped = stopped
final_state final_completed = completed
final_state final_error = errored

-- The end of `_worker`: the final state is published, and the thread is given up.
unfoldable pub publish : Final → Monitor → Monitor
unfolding finish_rows
publish final m = elim m.session [
  | none ↦ m
  | some s ↦
      if m.thread
      then record (with_state (final_state final) m (finish_rows (final_state final) s)) {
        thread = false;
      }
      else m
]

pub data Action : Type 0 where
  start : ℕ → SourceType → Persist → Action
  pause resume signal : Action
  wait : ℕ → Action
  ready : ℕ → Action
  classify : ℕ → ℕ → Scored → Action
  end_of_worker : Final → Action

-- A refused call leaves the globals as they were.
abbrev pub or_same : Monitor → Option Monitor → Monitor
or_same m none = m
or_same m (some m') = m'

unfoldable pub act : Action → Monitor → Monitor
unfolding start_session pause_session resume_session stop_signal stop_wait worker_ready worker_flow
    publish
act (start session_id source_type persist) m =
    or_same m (start_session session_id source_type persist m)
act pause m = or_same m (pause_session m)
act resume m = or_same m (resume_session m)
act signal m = or_same m (stop_signal m)
act (wait session_id) m = stop_wait session_id m
act (ready row_total) m = worker_ready row_total m
act (classify row_index latency flow) m = worker_flow row_index latency flow m
act (end_of_worker final) m = publish final m

unfoldable pub act_all : List Action → Monitor → Monitor
unfolding act
act_all [] m = m
act_all (a ∷ actions) m = act_all actions (act a m)
