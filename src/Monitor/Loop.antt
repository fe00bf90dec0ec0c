-- ===== src/Monitor/Loop.antt =====
-- `collect_batch` and the loop of `_run_worker`. What the source, the clock, the scorer and the two
-- events give at each turn is an argument.
use algo_guard.Prelude.{
  ℕ, ◌+◌, Bool, true, false, ◌&&◌, Option, none, some, List, [], ◌∷◌, ◌++◌, ltb, length,
  if◌then◌else◌,
}
use algo_guard.Monitor.Session.{
  State, stopped, completed, errored, pcap, Session, FeedEvent, Scored, handle_flow,
}

abbrev pub max_batch : ℕ
max_batch = 64

-- `source.next_event(timeout=0)`
pub data Got {ℓ} (A : Type ℓ) : Type ℓ where
  got_event : A → Got A
  got_nothing got_end got_cancelled : Got A

-- One turn of the loop of `collect_batch`: whether the window is open, and whether more can be read.
pub record Poll {ℓ} (A : Type ℓ) : Type ℓ where
  pub in_window : Bool
  pub backlog : Bool
  pub got : Got A

module _ {ℓ} {A : Type ℓ} where
  unfoldable pub collect_loop : List A → List (Poll A) → List A × Bool
  collect_loop batch [] = (batch, false)
  collect_loop batch (poll ∷ polls) =
      let without = collect_loop batch polls in
      let next = λ (e : A). collect_loop (batch ++ e ∷ []) polls in
      if ltb (length batch) max_batch && (poll.in_window && poll.backlog)
      then elim poll.got [
        | got_event e ↦ next e
        | got_nothing ↦ without
        | got_end ↦ (batch, true)
        | got_cancelled ↦ (batch, false)
      ]
      else (batch, false)

  -- collect_batch(source, first_event, pacing)
  unfoldable pub collect_batch : Bool → A → List (Poll A) → List A × Bool
  unfolding collect_loop
  collect_batch pacing first polls =
      if pacing then (first ∷ [], false) else collect_loop (first ∷ []) polls

-- The flows of a batch, one after the other. The row index counts them; an error ends the batch.
pub record Progress : Type 0 where
  pub session : Session
  pub events : List FeedEvent
  pub row_index : ℕ
  pub raised : Bool

abbrev pub went_on : ℕ → Option (Session × List FeedEvent) → Progress → Progress
went_on row_index none p = record p { row_index = row_index; raised = true }
went_on row_index (some (s, events)) p = record {
  session = s;
  events = events;
  row_index = row_index;
  raised = false;
}

-- `row_index` is the index of the next row.
unfoldable pub handle_batch : ℕ → List Scored → Progress → Progress
unfolding handle_flow
handle_batch latency [] p = p
handle_batch latency (flow ∷ flows) p =
    let next =
      went_on (p.row_index + 1) (handle_flow p.row_index latency flow (p.session, p.events)) p in
    let rest = handle_batch latency flows next in if next.raised then next else rest

-- What the source gives at one turn: a batch that has been scored in this time, with whether the
-- source ended behind it; or nothing, its end, a cancellation; or it or the scorer raises.
pub data Pull : Type 0 where
  scored : ℕ → List Scored → Bool → Pull
  quiet ended cancelled failed : Pull

-- One turn of the loop: whether the stop event is seen at its top or while it pauses, the source,
-- and whether the stop event is seen while it waits out the pace.
pub record Turn : Type 0 where
  pub stop_seen : Bool
  pub pull : Pull
  pub stop_in_pace : Bool

-- The loop of `_run_worker` over the turns that it takes; none when it has not ended by then.
unfoldable pub after_batch :
    Bool → Bool → Progress → Option (State × Progress) → Option (State × Progress)
after_batch source_ended stop_in_pace p later =
    if p.raised
    then some (errored, p)
    else if source_ended
    then some (completed, p)
    else if stop_in_pace
    then some (stopped, p)
    else later

unfoldable pub run_loop : Bool → List Turn → Progress → Option (State × Progress)
unfolding handle_batch after_batch
run_loop pacing [] p = none
run_loop pacing (turn ∷ turns) p =
    let idle = run_loop pacing turns p in
    let classify = λ (latency : ℕ) (flows : List Scored) (source_ended : Bool).
      let next = handle_batch latency flows p in
      after_batch source_ended (pacing && turn.stop_in_pace) next (run_loop pacing turns next) in
    if turn.stop_seen then some (stopped, p) else elim turn.pull [
      | scored latency flows source_ended ↦ classify latency flows source_ended
      | quiet ↦ idle
      | ended ↦ some (completed, p)
      | cancelled ↦ some (stopped, p)
      | failed ↦ some (errored, p)
    ]

-- After the loop: a recorded capture that was replayed whole shows its flows as its rows.
unfoldable pub finish_rows : State → Session → Session
finish_rows completed s = elim s.source_type [
  | pcap ↦ record s { row_total = s.totals.flows }
  | _ ↦ s
]
finish_rows _ s = s
