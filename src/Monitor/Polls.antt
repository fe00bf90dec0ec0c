-- ===== src/Monitor/Polls.antt =====
-- What the page is given by `get_status` and by the calls that start and stop a session.
use algo_guard.Prelude.{
  ℕ, ◌-◌, ◌≤◌, ◌≡◌, ◌≢◌, ◌↔◌, refl, sym, ap, ◌∙◌, subst, ◌==◌, ◌||◌, leb, ltb, if◌then◌else◌, true,
  false, Option, none, some, List, min, arith, if_elim,
}
use algo_guard.Monitor.Session.{State, Session, FeedEvent, is_active, SourceType, Persist}
use algo_guard.Monitor.Control.{
  Monitor, initial, session_active, start_session, publish, Final, final_state, Action, act_all,
}
use algo_guard.Monitor.Status.{
  get_status, effective_since, other_session, last_seq, max_events_per_poll,
}
use algo_guard.Monitor.Loop.{finish_rows}
use algo_guard.Monitor.Window.{Window, seqs, after, last_events-newest, no_events-Window}
use algo_guard.Monitor.Interleaved.{
  Inv, SoundSession, act_all-Inv, publish-Inv, by_session, final-inactive,
}

effective_since-le :
    (since : ℕ) (session_id : Option ℕ) (m : Monitor)
    → effective_since since session_id m ≤ last_seq m.session
unfolding effective_since
effective_since-le since session_id m = ground arith

feed-Window :
    (o : Option Session) (events : List FeedEvent)
    → SoundSession o events
    → Window (last_seq o) events
feed-Window none events h = subst (Window 0) (sym h) no_events-Window
feed-Window (some s) events h = h.1.0

-- The number from which a page goes on: the one that it has seen, if it has seen this session and
-- no more of it than there is.
abbrev pub seen_of : ℕ → ℕ → ℕ
seen_of since last = if leb since last then since else 0

abbrev pub goes_on_from : ℕ → Option ℕ → Option Session → ℕ
goes_on_from since session_id none = 0
goes_on_from since none (some s) = seen_of since s.seq
goes_on_from since (some id) (some s) = if id == s.session_id then seen_of since s.seq else 0

goes_on_from-eq :
    (since : ℕ) (session_id : Option ℕ) (m : Monitor)
    → effective_since since session_id m ≡ goes_on_from since session_id m.session
unfolding effective_since
goes_on_from-eq since session_id m = by_session_id session_id m.session
  where
    by_session_id :
        (id : Option ℕ) (o : Option Session)
        → (if other_session id o || ltb (last_seq o) since then 0 else since)
          ≡ goes_on_from since id o
    by_session_id none none = ground arith
    by_session_id (some id) none = ground arith
    by_session_id none (some s) = ground arith
    by_session_id (some id) (some s) = ground arith

-- The numbers that a poll is owed: the last ones behind `since`, at most as many as a poll gives.
abbrev pub owed : ℕ → ℕ → List ℕ
owed since n = after (n - min (n - since) max_events_per_poll) (min (n - since) max_events_per_poll)

-- Whatever the page and the worker have done, a poll gives the number of the newest event and
-- exactly the newest events, each once and in order, at most 100, of those behind the number that
-- the page has seen, or of all where it saw another session or a number that is not there yet.
pub get_status-newest :
    (actions : List Action) (since : ℕ) (session_id : Option ℕ)
    → (let m = act_all actions initial in
        let (events, last) = get_status since session_id m in
        (seqs events ≡ owed (goes_on_from since session_id m.session) last)
        × (last ≡ last_seq m.session))
unfolding get_status
get_status-newest actions since session_id =
    let m = act_all actions initial in
    let i = act_all-Inv actions in
    (
      last_events-newest (last_seq m.session) (effective_since since session_id m) m.events
            (feed-Window m.session m.events i.session_sound) (effective_since-le since session_id m)
          ∙ ap (λ n. owed n (last_seq m.session)) (goes_on_from-eq since session_id m),
      refl,
    )

start_session-none :
    (session_id : ℕ) (source_type : SourceType) (persist : Persist) (m : Monitor)
    → Inv m
    → (start_session session_id source_type persist m ≡ none) ↔ (session_active m.session ≡ true)
unfolding start_session
start_session-none session_id source_type persist m i =
    let w = i.one_worker in (λ h. ground (arith, w, h), λ h. ground (arith, w, h))

published :
    (state : State)
    → is_active state ≡ false
    → (s : Session) → is_active (record (finish_rows state s) { state = state }).state ≡ false
published state h s = h

publish-inactive : (f : Final) (m : Monitor) → Inv m → session_active (publish f m).session ≡ false
unfolding publish
publish-inactive f m i =
    by_session (λ m. session_active (publish f m).session ≡ false) (λ _ _. refl)
      (λ s stop_event pause_event events h.
        if_elim (λ (r : Monitor). session_active r.session ≡ false) (is_active s.state)
          (λ _. published (final_state f) (final-inactive f) s) (λ r. r))
      m i

-- A session can be started exactly while none is shown as active; and once a worker has ended,
-- however it ends, one can be started.
pub start_session-exclusive :
    (actions : List Action) (f : Final) (session_id : ℕ) (source_type : SourceType)
    (persist : Persist)
    → (let m = act_all actions initial in
        ((start_session session_id source_type persist m ≡ none)
          ↔ (session_active m.session ≡ true))
        × (start_session session_id source_type persist (publish f m) ≢ none))
start_session-exclusive actions f session_id source_type persist =
    let m = act_all actions initial in
    let i = act_all-Inv actions in
    (
      start_session-none session_id source_type persist m i,
      λ e. ground (
        arith,
        (start_session-none session_id source_type persist (publish f m) (publish-Inv f m i)).0 e,
        publish-inactive f m i,
      ),
    )
