-- ===== src/Monitor/Status.antt =====
-- `get_status`: the feed events newer than the browser has seen.
use algo_guard.Prelude.{
  ℕ, ◌-◌, Bool, true, false, ◌||◌, not, Option, none, some, List, [], ◌∷◌, ltb, ◌==◌, if◌then◌else◌,
  length, drop,
}
use algo_guard.Monitor.Session.{Session, FeedEvent}
use algo_guard.Monitor.Control.{Monitor}

abbrev pub max_events_per_poll : ℕ
max_events_per_poll = 100

abbrev pub last_seq : Option Session → ℕ
last_seq none = 0
last_seq (some s) = s.seq

-- session_id is not None and session_id != session["session_id"]
abbrev pub other_session : Option ℕ → Option Session → Bool
other_session none s = false
other_session (some id) none = true
other_session (some id) (some s) = not (id == s.session_id)

-- The browser starts anew when the session is another one, or when it is ahead of it.
unfoldable pub effective_since : ℕ → Option ℕ → Monitor → ℕ
effective_since since session_id m =
    if other_session session_id m.session || ltb (last_seq m.session) since then 0 else since

unfoldable pub newer : ℕ → List FeedEvent → List FeedEvent
newer since [] = []
newer since (e ∷ events) =
    let rest = newer since events in if ltb since e.seq then e ∷ rest else rest

-- events[-MAX_EVENTS_PER_POLL:] where there are more
unfoldable pub last_events : List FeedEvent → List FeedEvent
last_events events = drop (length events - max_events_per_poll) events

-- get_status(since_seq, session_id): its events, and `last_seq`.
unfoldable pub get_status : ℕ → Option ℕ → Monitor → List FeedEvent × ℕ
unfolding effective_since newer last_events
get_status since session_id m =
    (last_events (newer (effective_since since session_id m) m.events), last_seq m.session)
