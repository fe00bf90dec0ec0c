-- ===== src/Monitor/Sound.antt =====
-- What holds of a session and its feed whenever the lock is free.
use algo_guard.Prelude.{
  ℕ, ◌+◌, ◌≤◌, ◌≡◌, refl, Bool, true, false, ◌&&◌, not, Option, none, some, List, [], leb, arith,
  if_elim,
}
use algo_guard.Monitor.Session.{
  Label, Persist, session_only, save_attacks, save_all, SourceType, Session, FeedEvent, Scored,
  Totals, counted, new_session, prediction_of, should_persist, record_outcome, after_store,
  handle_flow, max_persisted, present, feed_event,
}
use algo_guard.Monitor.Counts.{Consistent, counted-Consistent, no_totals-Consistent, present-le}
use algo_guard.Monitor.Window.{Window, push_event-Window, no_events-Window}

-- How many flows a session may store.
abbrev pub storable : Persist → ℕ
storable session_only = 0
storable save_attacks = max_persisted
storable save_all = max_persisted

-- The totals and the feed agree with the number of the last event, and no more is stored than the
-- session may store.
abbrev pub Sound : Session × List FeedEvent → Type 0
Sound (s, events) =
    Consistent s.seq s.totals × (Window s.seq events × (s.totals.persisted ≤ storable s.persist))

abbrev pub WhenSome {ℓ κ} : {A : Type ℓ} → (A → Type κ) → Option A → Type κ
WhenSome P none = Unit
WhenSome P (some x) = P x

counted-persisted :
    (l : Label) (actual : Option Label) (prediction_id alert_id : Option ℕ) (t : Totals)
    → (counted l actual prediction_id alert_id t).persisted ≡ t.persisted + present prediction_id
unfolding counted
counted-persisted l actual prediction_id alert_id t = refl

record_outcome-Sound :
    (flow : Scored) (row_index latency : ℕ) (hit_cap : Bool) (prediction_id alert_id : Option ℕ)
    (s : Session) (events : List FeedEvent)
    → Sound (s, events)
    → s.totals.persisted + present prediction_id ≤ max_persisted
    → present alert_id ≤ present prediction_id
    → s.totals.persisted + present prediction_id ≤ storable s.persist
    → Sound (record_outcome flow row_index latency hit_cap prediction_id alert_id (s, events))
unfolding record_outcome
record_outcome-Sound flow row_index latency hit_cap prediction_id alert_id s events
      (c, (w, unsaved)) room stored allowed =
    (
      counted-Consistent (prediction_of flow) flow.actual prediction_id alert_id s.seq s.totals c
          room stored,
      (
        push_event-Window s.seq events
            (feed_event flow row_index (s.seq + 1) prediction_id alert_id) w refl,
        omega (
          arith,
          allowed,
          counted-persisted (prediction_of flow) flow.actual prediction_id alert_id s.totals,
        ),
      ),
    )

after_store-Sound :
    (flow : Scored) (row_index latency : ℕ) (saved : Option (ℕ × Option ℕ)) (s : Session)
    (events : List FeedEvent)
    → Sound (s, events)
    → s.totals.persisted + 1 ≤ max_persisted
    → storable s.persist ≡ max_persisted
    → WhenSome Sound (after_store flow row_index latency saved (s, events))
unfolding after_store
after_store-Sound flow row_index latency none s events h room saves = tt
after_store-Sound flow row_index latency (some (prediction_id, alert_id)) s events h room saves =
    record_outcome-Sound flow row_index latency false (some prediction_id) alert_id s events h room
      (present-le alert_id) (omega (arith, saves, room))

saves_something :
    (persist : Persist) (prediction : Label)
    → should_persist persist prediction ≡ true
    → storable persist ≡ max_persisted
saves_something session_only prediction h = cc
saves_something save_attacks prediction h = refl
saves_something save_all prediction h = refl

-- Whatever the model, the clock and the database answer, a flow leaves a sound session behind, or it
-- raises and changes nothing.
pub handle_flow-Sound :
    (row_index latency : ℕ) (flow : Scored) (s : Session) (events : List FeedEvent)
    → Sound (s, events)
    → WhenSome Sound (handle_flow row_index latency flow (s, events))
unfolding handle_flow
handle_flow-Sound row_index latency flow s events h =
    let c = h.0 in
    let bounded = c.persisted_bounded in
    let store = should_persist s.persist (prediction_of flow) in
    let at_cap = leb max_persisted s.totals.persisted in
    if_elim (WhenSome Sound) (store && not at_cap)
      (λ go.
        after_store-Sound flow row_index latency flow.saved s events h (ground (arith, go))
          (saves_something s.persist (prediction_of flow) (ground (arith, go))))
      (λ _.
        record_outcome-Sound flow row_index latency (store && at_cap) none none s events h
          (omega arith) (omega arith) (omega (arith, h.1.1)))

pub new_session-Sound :
    (session_id : ℕ) (source_type : SourceType) (persist : Persist)
    → Sound (new_session session_id source_type persist, [])
unfolding new_session
new_session-Sound session_id source_type persist =
    (no_totals-Consistent, (no_events-Window, omega arith))
