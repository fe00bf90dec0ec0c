-- ===== src/Monitor/Session.antt =====
-- A monitoring session, and what one classified flow does to it. Times are whole microseconds; the
-- averages, which `_public_session` rounds, are left out, and so are the fields of a feed event
-- that are copied from the flow.
use algo_guard.Prelude.{
  ℕ, ◌+◌, ◌-◌, Bool, true, false, ◌&&◌, ◌||◌, not, Option, none, some, List, [], ◌∷◌, ◌++◌, leb,
  ◌==◌, if◌then◌else◌, length, drop,
}

pub data State : Type 0 where
  starting running paused stopping stopped completed errored : State

-- state in ACTIVE_STATES; the others are in TERMINAL_STATES
abbrev pub is_active : State → Bool
is_active starting = true
is_active running = true
is_active paused = true
is_active stopping = true
is_active stopped = false
is_active completed = false
is_active errored = false

pub data SourceType : Type 0 where
  csv pcap live : SourceType

-- PERSIST_CHOICES: "none", "attacks", "all"
pub data Persist : Type 0 where
  session_only save_attacks save_all : Persist

pub data Label : Type 0 where
  attack normal : Label

abbrev pub feed_maxlen : ℕ
feed_maxlen = 250

abbrev pub max_persisted : ℕ
max_persisted = 300

pub record Totals : Type 0 where
  pub flows : ℕ
  pub attacks : ℕ
  pub normals : ℕ
  pub alerts : ℕ
  pub persisted : ℕ
  pub mismatches : ℕ
  pub labelled : ℕ

pub record Session : Type 0 where
  pub session_id : ℕ
  pub state : State
  pub source_type : SourceType
  pub persist : Persist
  pub capped : Bool
  pub seq : ℕ
  pub row_total : ℕ
  pub totals : Totals
  pub latency_total : ℕ
  pub lag_total : ℕ

abbrev pub no_totals : Totals
no_totals = record {
  flows = 0;
  attacks = 0;
  normals = 0;
  alerts = 0;
  persisted = 0;
  mismatches = 0;
  labelled = 0;
}

-- _new_session(…)
unfoldable pub new_session : ℕ → SourceType → Persist → Session
new_session session_id source_type persist = record {
  session_id = session_id;
  state = starting;
  source_type = source_type;
  persist = persist;
  capped = false;
  seq = 0;
  row_total = 0;
  totals = no_totals;
  latency_total = 0;
  lag_total = 0;
}

-- An entry of `_EVENTS`.
pub record FeedEvent : Type 0 where
  pub seq : ℕ
  pub row_index : ℕ
  pub prediction : Label
  pub actual : Option Label
  pub agrees : Option Bool
  pub prediction_id : Option ℕ
  pub alert_id : Option ℕ

-- One flow of a batch with its verdict. `saved` is what `store_classified_flow` would return, the
-- prediction and the alert; none where it raises.
pub record Scored : Type 0 where
  pub predicted_value : ℕ
  pub actual : Option Label
  pub lag : Option ℕ
  pub saved : Option (ℕ × Option ℕ)

abbrev pub prediction_of : Scored → Label
prediction_of flow = if flow.predicted_value == 1 then attack else normal

abbrev pub is_attack : Label → Bool
is_attack attack = true
is_attack normal = false

-- _should_persist(mode, prediction)
abbrev pub should_persist : Persist → Label → Bool
should_persist session_only prediction = false
should_persist save_attacks prediction = is_attack prediction
should_persist save_all prediction = true

abbrev pub same_label : Label → Label → Bool
same_label attack attack = true
same_label normal normal = true
same_label _ _ = false

abbrev pub agreement : Option Label → Label → Option Bool
agreement none prediction = none
agreement (some actual) prediction = some (same_label actual prediction)

-- 1 for what is there, 0 for what is not.
abbrev pub present {ℓ} : {A : Type ℓ} → Option A → ℕ
present none = 0
present (some x) = 1

abbrev pub mismatch : Option Bool → ℕ
mismatch (some false) = 1
mismatch _ = 0

abbrev pub of_attack : Label → ℕ
of_attack attack = 1
of_attack normal = 0

abbrev pub of_normal : Label → ℕ
of_normal attack = 0
of_normal normal = 1

abbrev pub or_zero : Option ℕ → ℕ
or_zero none = 0
or_zero (some n) = n

unfoldable pub counted : Label → Option Label → Option ℕ → Option ℕ → Totals → Totals
counted prediction actual prediction_id alert_id t = record {
  flows = t.flows + 1;
  attacks = t.attacks + of_attack prediction;
  normals = t.normals + of_normal prediction;
  alerts = t.alerts + present alert_id;
  persisted = t.persisted + present prediction_id;
  mismatches = t.mismatches + mismatch (agreement actual prediction);
  labelled = t.labelled + present actual;
}

abbrev pub feed_event : Scored → ℕ → ℕ → Option ℕ → Option ℕ → FeedEvent
feed_event flow row_index seq prediction_id alert_id = record {
  seq = seq;
  row_index = row_index;
  prediction = prediction_of flow;
  actual = flow.actual;
  agrees = agreement flow.actual (prediction_of flow);
  prediction_id = prediction_id;
  alert_id = alert_id;
}

-- _EVENTS.append(event), a deque of at most `feed_maxlen`
unfoldable pub push_event : List FeedEvent → FeedEvent → List FeedEvent
push_event events e = let longer = events ++ e ∷ [] in drop (length longer - feed_maxlen) longer

-- The block that records the outcome under the lock.
unfoldable pub record_outcome :
    Scored
    → ℕ
    → ℕ
    → Bool
    → Option ℕ
    → Option ℕ
    → Session × List FeedEvent
    → Session × List FeedEvent
unfolding counted push_event
record_outcome flow row_index latency hit_cap prediction_id alert_id (s, events) = (
  record s {
    capped = hit_cap || s.capped;
    totals = counted (prediction_of flow) flow.actual prediction_id alert_id s.totals;
    latency_total = s.latency_total + latency;
    lag_total = s.lag_total + or_zero flow.lag;
    seq = s.seq + 1;
  },
  push_event events (feed_event flow row_index (s.seq + 1) prediction_id alert_id),
)

-- After `_store_flow`, if it was called; none where it raises.
unfoldable pub after_store :
    Scored
    → ℕ
    → ℕ
    → Option (ℕ × Option ℕ)
    → Session × List FeedEvent
    → Option (Session × List FeedEvent)
unfolding record_outcome
after_store flow row_index latency none m = none
after_store flow row_index latency (some (prediction_id, alert_id)) m =
    some (record_outcome flow row_index latency false (some prediction_id) alert_id m)

-- One flow of a batch in `_run_worker`; none where it raises.
unfoldable pub handle_flow :
    ℕ → ℕ → Scored → Session × List FeedEvent → Option (Session × List FeedEvent)
unfolding after_store record_outcome
handle_flow row_index latency flow (s, events) =
    let store = should_persist s.persist (prediction_of flow) in
    let at_cap = leb max_persisted s.totals.persisted in
    if store && not at_cap
    then after_store flow row_index latency flow.saved (s, events)
    else some (record_outcome flow row_index latency (store && at_cap) none none (s, events))
