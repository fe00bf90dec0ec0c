-- ===== src/Monitor/Endings.antt =====
-- How the loop of the worker ends, and what it has counted by then.
use algo_guard.Prelude.{
  ℕ, ◌+◌, ◌≡◌, refl, Bool, true, false, not, ◌&&◌, Option, none, some, List, [], ◌∷◌, leb, arith,
  if_elim, inl, inr, ◌⊎◌,
}
use algo_guard.Monitor.Session.{
  State, stopped, completed, errored, Session, FeedEvent, Scored, handle_flow, after_store,
  record_outcome, should_persist, prediction_of, max_persisted,
}
use algo_guard.Monitor.Loop.{
  Progress, went_on, handle_batch, Pull, scored, quiet, ended, cancelled, failed, Turn, after_batch,
  run_loop,
}
use algo_guard.Monitor.Sound.{Sound, WhenSome, handle_flow-Sound}

abbrev pub one_if : Bool → ℕ
one_if true = 1
one_if false = 0

-- The rows that were handled are the flows that were counted, and the one that raised.
pub record Tallied (p : Progress) : Type 0 where
  pub progress_sound : Sound (p.session, p.events)
  pub rows : p.row_index ≡ p.session.seq + one_if p.raised

handle_flow-seq :
    (row_index latency : ℕ) (flow : Scored) (s : Session) (events : List FeedEvent)
    → WhenSome
        (λ (r : Session × List FeedEvent). r.0.seq ≡ s.seq + 1)
        (handle_flow row_index latency flow (s, events))
unfolding handle_flow record_outcome
handle_flow-seq row_index latency flow s events =
    if_elim (WhenSome (λ (r : Session × List FeedEvent). r.0.seq ≡ s.seq + 1))
      (should_persist s.persist (prediction_of flow) && not (leb max_persisted s.totals.persisted))
      (λ _. after flow.saved) (λ _. refl)
  where
    after :
        (saved : Option (ℕ × Option ℕ))
        → WhenSome
            (λ (r : Session × List FeedEvent). r.0.seq ≡ s.seq + 1)
            (after_store flow row_index latency saved (s, events))
    after none = tt
    after (some (prediction_id, alert_id)) = refl

went_on-Tallied :
    (p : Progress) (o : Option (Session × List FeedEvent))
    → Tallied p
    → p.raised ≡ false
    → WhenSome Sound o
    → WhenSome (λ (r : Session × List FeedEvent). r.0.seq ≡ p.session.seq + 1) o
    → Tallied (went_on (p.row_index + 1) o p)
went_on-Tallied p none t h sound numbered =
    let rows = t.rows in
    record { progress_sound = t.progress_sound; rows = rows_of p.raised h rows }
  where
    rows_of :
        (b : Bool)
        → b ≡ false
        → p.row_index ≡ p.session.seq + one_if b
        → p.row_index + 1 ≡ p.session.seq + 1
    rows_of true h e = cc
    rows_of false h e = omega arith
went_on-Tallied p (some (s, events)) t h sound numbered = record {
  progress_sound = sound;
  rows = rows_of p.raised h t.rows;
}
  where
    rows_of :
        (b : Bool)
        → b ≡ false
        → p.row_index ≡ p.session.seq + one_if b
        → p.row_index + 1 ≡ s.seq + 0
    rows_of true h e = cc
    rows_of false h e = omega (arith, numbered)

handle_batch-Tallied :
    (latency : ℕ) (flows : List Scored) (p : Progress)
    → Tallied p
    → p.raised ≡ false
    → Tallied (handle_batch latency flows p)
unfolding handle_batch
handle_batch-Tallied latency [] p t h = t
handle_batch-Tallied latency (flow ∷ flows) p t h =
    let outcome = handle_flow p.row_index latency flow (p.session, p.events) in
    let next = went_on (p.row_index + 1) outcome p in
    let counted =
      went_on-Tallied p outcome t h
        (handle_flow-Sound p.row_index latency flow p.session p.events t.progress_sound)
        (handle_flow-seq p.row_index latency flow p.session p.events) in
    if_elim Tallied next.raised (λ _. counted)
      (λ fine. handle_batch-Tallied latency flows next counted fine)

-- A tallied end, which is an error if a flow raised.
abbrev pub Ended : State × Progress → Type 0
Ended (state, p) = Tallied p × ((p.raised ≡ false) ⊎ (state ≡ errored))

after_batch-Ended :
    (source_ended stop_in_pace : Bool) (p : Progress) (later : Option (State × Progress))
    → Tallied p
    → (p.raised ≡ false → WhenSome Ended later)
    → WhenSome Ended (after_batch source_ended stop_in_pace p later)
unfolding after_batch
after_batch-Ended source_ended stop_in_pace p later t h =
    if_elim (WhenSome Ended) p.raised (λ _. (t, inr refl))
      (λ fine.
        if_elim (WhenSome Ended) source_ended (λ _. (t, inl fine))
          (λ _. if_elim (WhenSome Ended) stop_in_pace (λ _. (t, inl fine)) (λ _. h fine)))

-- However the loop ends, each row that it handled has been counted once in the totals and shown
-- once in the feed, in order, but for the row that raised; and after a row that raised the loop
-- ends at once, as an error.
pub run_loop-Ended :
    (pacing : Bool) (turns : List Turn) (p : Progress)
    → Tallied p
    → p.raised ≡ false
    → WhenSome Ended (run_loop pacing turns p)
unfolding run_loop
run_loop-Ended pacing [] p t h = tt
run_loop-Ended pacing (turn ∷ turns) p t h =
    if_elim (WhenSome Ended) turn.stop_seen (λ _. (t, inl h))
      (λ _.
        by_pull turn.pull (run_loop-Ended pacing turns p t h) (λ q. run_loop-Ended pacing turns q))
  where
    by_pull :
        (pull : Pull)
        → WhenSome Ended (run_loop pacing turns p)
        → ((q : Progress) → Tallied q → q.raised ≡ false → WhenSome Ended (run_loop pacing turns q))
        → WhenSome Ended (elim pull as (λ _. Option (State × Progress)) [
          | scored latency flows source_ended ↦
              (let next = handle_batch latency flows p in
                after_batch source_ended
                  (pacing && turn.stop_in_pace)
                  next
                  (run_loop pacing turns next))
          | quiet ↦ run_loop pacing turns p
          | ended ↦ some (completed, p)
          | cancelled ↦ some (stopped, p)
          | failed ↦ some (errored, p)
        ])
    by_pull (scored latency flows source_ended) idle next =
        let q = handle_batch latency flows p in
        let counted = handle_batch-Tallied latency flows p t h in
        after_batch-Ended source_ended (pacing && turn.stop_in_pace) q _ counted (next q counted)
    by_pull quiet idle next = idle
    by_pull ended idle next = (t, inl h)
    by_pull cancelled idle next = (t, inl h)
    by_pull failed idle next = (t, inl h)
