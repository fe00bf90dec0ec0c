-- ===== src/Monitor/Interleaved.antt =====
-- Any interleaving of the calls of the page with the steps of the worker.
use algo_guard.Prelude.{
  ℕ, ◌≡◌, refl, sym, subst, Bool, true, false, ◌||◌, ◌&&◌, not, leb, Option, none, some, List, [],
  ◌∷◌, if_elim, if◌then◌else◌, ◌==◌,
}
use algo_guard.Monitor.Session.{
  State, starting, running, paused, stopping, stopped, completed, errored, is_active, SourceType,
  csv, pcap, live, Persist, Session, FeedEvent, Scored, handle_flow, new_session, record_outcome,
  after_store, should_persist, prediction_of, max_persisted,
}
use algo_guard.Monitor.Loop.{finish_rows}
use algo_guard.Monitor.Control.{
  Monitor, initial, session_active, start_session, with_state, is_running, is_paused, pause_session,
  resume_session, stop_signal, stop_wait, worker_ready, keep, worker_flow, Final, final_stopped,
  final_completed, final_error, final_state, publish, Action, start, pause, resume, signal, wait,
  ready, classify, end_of_worker, or_same, act, act_all,
}
use algo_guard.Monitor.Sound.{Sound, WhenSome, handle_flow-Sound, new_session-Sound}

-- A worker lives exactly while the session is shown as active, and what a session shows is sound.
abbrev pub SoundSession : Option Session → List FeedEvent → Type 0
SoundSession none events = events ≡ []
SoundSession (some s) events = Sound (s, events)

pub record Inv (m : Monitor) : Type 0 where
  pub one_worker : m.thread ≡ session_active m.session
  pub session_sound : SoundSession m.session m.events

initial-Inv : Inv initial
initial-Inv = record { one_worker = refl; session_sound = refl }

or_same-Inv :
    (m : Monitor) (after : Option Monitor) → Inv m → WhenSome Inv after → Inv (or_same m after)
or_same-Inv m none i h = i
or_same-Inv m (some m') i h = h

start_session-Inv :
    (session_id : ℕ) (source_type : SourceType) (persist : Persist) (m : Monitor)
    → WhenSome Inv (start_session session_id source_type persist m)
unfolding start_session new_session
start_session-Inv session_id source_type persist m =
    if_elim (WhenSome Inv) (m.thread || session_active m.session) (λ _. tt)
      (λ _. record {
        one_worker = refl;
        session_sound = new_session-Sound session_id source_type persist;
      })

running-active : (s : State) → is_running s ≡ true → is_active s ≡ true
running-active running h = refl
running-active starting h = cc
running-active paused h = cc
running-active stopping h = cc
running-active stopped h = cc
running-active completed h = cc
running-active errored h = cc

paused-active : (s : State) → is_paused s ≡ true → is_active s ≡ true
paused-active paused h = refl
paused-active starting h = cc
paused-active running h = cc
paused-active stopping h = cc
paused-active stopped h = cc
paused-active completed h = cc
paused-active errored h = cc

-- A statement on a monitor with the invariant, by whether it has a session.
abbrev made : Option Session → Bool → Bool → Bool → List FeedEvent → Monitor
made o thread stop_event pause_event events = record {
  session = o;
  thread = thread;
  stop_event = stop_event;
  pause_event = pause_event;
  events = events;
}

pub by_session :
    (P : Monitor → Type 0)
    → ((stop_event pause_event : Bool) → P (made none false stop_event pause_event []))
    → ((s : Session) (stop_event pause_event : Bool) (events : List FeedEvent)
        → Sound (s, events)
        → P (made (some s) (is_active s.state) stop_event pause_event events))
    → (m : Monitor) → Inv m
    → P m
by_session P idle there m i =
    from m.session m.thread m.stop_event m.pause_event m.events i.one_worker i.session_sound
  where
    from :
        (o : Option Session) (thread stop_event pause_event : Bool) (events : List FeedEvent)
        → thread ≡ session_active o
        → SoundSession o events
        → P (made o thread stop_event pause_event events)
    from none thread stop_event pause_event events w h =
        subst (λ t. P (made none t stop_event pause_event events)) (sym w)
          (subst (λ es. P (made none false stop_event pause_event es)) (sym h)
            (idle stop_event pause_event))
    from (some s) thread stop_event pause_event events w h =
        subst (λ t. P (made (some s) t stop_event pause_event events)) (sym w)
          (there s stop_event pause_event events h)

pause_session-Inv : (m : Monitor) → Inv m → WhenSome Inv (pause_session m)
unfolding pause_session
pause_session-Inv =
    by_session (λ m. WhenSome Inv (pause_session m)) (λ _ _. tt)
      (λ s _ _ events h.
        if_elim (WhenSome Inv) (is_running s.state)
          (λ r. record { one_worker = running-active s.state r; session_sound = h }) (λ _. tt))

resume_session-Inv : (m : Monitor) → Inv m → WhenSome Inv (resume_session m)
unfolding resume_session
resume_session-Inv =
    by_session (λ m. WhenSome Inv (resume_session m)) (λ _ _. tt)
      (λ s _ _ events h.
        if_elim (WhenSome Inv) (is_paused s.state)
          (λ r. record { one_worker = paused-active s.state r; session_sound = h }) (λ _. tt))

stop_signal-Inv : (m : Monitor) → Inv m → WhenSome Inv (stop_signal m)
unfolding stop_signal
stop_signal-Inv =
    by_session (λ m. WhenSome Inv (stop_signal m)) (λ _ _. tt)
      (λ s _ _ events h.
        if_elim (WhenSome Inv) (is_active s.state)
          (λ r. record { one_worker = refl; session_sound = h }) (λ _. tt))

stop_wait-Inv : (session_id : ℕ) (m : Monitor) → Inv m → Inv (stop_wait session_id m)
unfolding stop_wait
stop_wait-Inv session_id =
    by_session (λ m. Inv (stop_wait session_id m))
      (λ _ _. record { one_worker = refl; session_sound = refl })
      (λ s stop_event pause_event events h.
        if_elim Inv (s.session_id == session_id && is_active s.state)
          (λ r. waited s (is_active s.state) stop_event pause_event events h)
          (λ _. record { one_worker = refl; session_sound = h }))
  where
    waited :
        (s : Session) (thread stop_event pause_event : Bool) (events : List FeedEvent)
        → Sound (s, events)
        → Inv (
            with_state
              (if thread then stopping else stopped)
              (made (some s) thread stop_event pause_event events)
              s)
    waited s true stop_event pause_event events h = record { one_worker = refl; session_sound = h }
    waited s false stop_event pause_event events h = record { one_worker = refl; session_sound = h }

worker_ready-Inv : (row_total : ℕ) (m : Monitor) → Inv m → Inv (worker_ready row_total m)
unfolding worker_ready
worker_ready-Inv row_total =
    by_session (λ m. Inv (worker_ready row_total m))
      (λ _ _. record { one_worker = refl; session_sound = refl })
      (λ s _ _ events h.
        if_elim Inv (is_active s.state) (λ r. record { one_worker = r; session_sound = h })
          (λ _. record { one_worker = refl; session_sound = h }))

keep-Inv :
    (s : Session) (stop_event pause_event : Bool) (events : List FeedEvent)
    (after : Option (Session × List FeedEvent))
    → Sound (s, events)
    → WhenSome Sound after
    → WhenSome (λ (r : Session × List FeedEvent). is_active r.0.state ≡ true) after
    → Inv (made (some s) true stop_event pause_event events)
    → Inv (keep after (made (some s) true stop_event pause_event events))
keep-Inv s stop_event pause_event events none h g a i = i
keep-Inv s stop_event pause_event events (some r) h g a i = record {
  one_worker = sym a;
  session_sound = g;
}

-- A flow does not change the state of the session.
handle_flow-active :
    (row_index latency : ℕ) (flow : Scored) (s : Session) (events : List FeedEvent)
    → is_active s.state ≡ true
    → WhenSome
        (λ (r : Session × List FeedEvent). is_active r.0.state ≡ true)
        (handle_flow row_index latency flow (s, events))
unfolding handle_flow record_outcome
handle_flow-active row_index latency flow s events a =
    let Active : Option (Session × List FeedEvent) → Type 0 =
      WhenSome (λ (r : Session × List FeedEvent). is_active r.0.state ≡ true) in
    if_elim Active
      (should_persist s.persist (prediction_of flow) && not (leb max_persisted s.totals.persisted))
      (λ _. after flow.saved) (λ _. a)
  where
    after :
        (saved : Option (ℕ × Option ℕ))
        → WhenSome
            (λ (r : Session × List FeedEvent). is_active r.0.state ≡ true)
            (after_store flow row_index latency saved (s, events))
    after none = tt
    after (some (prediction_id, alert_id)) = a

worker_flow-Inv :
    (row_index latency : ℕ) (flow : Scored) (m : Monitor)
    → Inv m
    → Inv (worker_flow row_index latency flow m)
unfolding worker_flow
worker_flow-Inv row_index latency flow =
    by_session (λ m. Inv (worker_flow row_index latency flow m))
      (λ _ _. record { one_worker = refl; session_sound = refl })
      (λ s stop_event pause_event events h.
        if_elim Inv (is_active s.state)
          (λ r.
            subst
              (λ t. Inv (
                keep (handle_flow row_index latency flow (s, events))
                  (made (some s) t stop_event pause_event events)))
              (sym r)
              (keep-Inv s stop_event pause_event events
                (handle_flow row_index latency flow (s, events)) h
                (handle_flow-Sound row_index latency flow s events h)
                (handle_flow-active row_index latency flow s events r)
                (record { one_worker = sym r; session_sound = h })))
          (λ _. record { one_worker = refl; session_sound = h }))

finish_rows-Sound :
    (state : State) (s : Session) (events : List FeedEvent)
    → Sound (s, events)
    → Sound (finish_rows state s, events)
unfolding finish_rows
finish_rows-Sound starting s events h = h
finish_rows-Sound running s events h = h
finish_rows-Sound paused s events h = h
finish_rows-Sound stopping s events h = h
finish_rows-Sound stopped s events h = h
finish_rows-Sound errored s events h = h
finish_rows-Sound completed s events h =
    elim (s.source_type)
      as (λ t. Sound (elim t [ pcap ↦ record s { row_total = s.totals.flows } | _ ↦ s ], events)) [
        | csv ↦ h
        | pcap ↦ h
        | live ↦ h
      ]

pub final-inactive : (f : Final) → is_active (final_state f) ≡ false
final-inactive final_stopped = refl
final-inactive final_completed = refl
final-inactive final_error = refl

pub publish-Inv : (f : Final) (m : Monitor) → Inv m → Inv (publish f m)
unfolding publish
publish-Inv f =
    by_session (λ m. Inv (publish f m)) (λ _ _. record { one_worker = refl; session_sound = refl })
      (λ s stop_event pause_event events h.
        if_elim Inv (is_active s.state)
          (λ r. record {
            one_worker = sym (final-inactive f);
            session_sound = finish_rows-Sound (final_state f) s events h;
          })
          (λ _. record { one_worker = refl; session_sound = h }))

act-Inv : (a : Action) (m : Monitor) → Inv m → Inv (act a m)
unfolding act
act-Inv (start session_id source_type persist) m i =
    or_same-Inv m (start_session session_id source_type persist m) i
      (start_session-Inv session_id source_type persist m)
act-Inv pause m i = or_same-Inv m (pause_session m) i (pause_session-Inv m i)
act-Inv resume m i = or_same-Inv m (resume_session m) i (resume_session-Inv m i)
act-Inv signal m i = or_same-Inv m (stop_signal m) i (stop_signal-Inv m i)
act-Inv (wait session_id) m i = stop_wait-Inv session_id m i
act-Inv (ready row_total) m i = worker_ready-Inv row_total m i
act-Inv (classify row_index latency flow) m i = worker_flow-Inv row_index latency flow m i
act-Inv (end_of_worker f) m i = publish-Inv f m i

act_all_from-Inv : (actions : List Action) (m : Monitor) → Inv m → Inv (act_all actions m)
unfolding act_all
act_all_from-Inv [] m i = i
act_all_from-Inv (a ∷ actions) m i = act_all_from-Inv actions (act a m) (act-Inv a m i)

-- Whatever the page and the worker do, in any order, a worker lives exactly while a session is
-- shown as active, the totals of the session are consistent with each other and with the number of
-- its last event, at most 300 flows are stored and none in a session that stores nothing, and the
-- feed holds the newest 250 events, each once and in order.
pub act_all-Inv : (actions : List Action) → Inv (act_all actions initial)
act_all-Inv actions = act_all_from-Inv actions initial initial-Inv
