-- ===== src/Outbox/State.antt =====
-- The state of `Outbox`, its limits, and `_drop_locked`. What the host computes (JSON, UUIDs,
-- hashes) is a parameter.
use algo_guard.Prelude.{
  ℕ, ◌+◌, ◌-◌, ◌*◌, Bool, Option, none, some, List, [], ◌∷◌, ◌++◌, String, length, drop,
  String-discrete, ℕ_discrete,
}
use algo_guard.Prelude.Dict.{Dict, get, remove}
use algo_guard.Outbox.Spool.{Owner, Row}

abbrev pub handoff_limit : ℕ
handoff_limit = 1000

abbrev pub session_limit : ℕ
session_limit = 300

abbrev pub event_bytes : ℕ
event_bytes = 65536

abbrev pub mib : ℕ
mib = 1024 * 1024

abbrev pub tracked_outcomes : ℕ
tracked_outcomes = 1000

abbrev pub tracked_sessions : ℕ
tracked_sessions = 256

-- An event as the caller hands it in, its fields as texts.
pub record Event : Type 0 where
  pub event_uuid : String
  pub deployment_id : String
  pub body : String

-- `json.dumps`, `UUID`, `int`, `len(payload.encode())` and SHA-256; `none` where they raise.
pub record Host : Type 0 where
  pub dumps : Event → Option String
  pub parse_uuid : String → Option ℕ
  pub parse_int : String → Option ℕ
  pub utf8_bytes : String → ℕ
  pub sha256 : String → String

-- One entry of the handoff queue.
pub record Item : Type 0 where
  pub event_id : ℕ
  pub owner : Owner
  pub session_id : String
  pub deployment_id : ℕ
  pub created_at : ℕ
  pub payload : String
  pub capped : Bool

-- An event that is not yet saved.
pub record Memory : Type 0 where
  pub user_id : ℕ
  pub node_id : ℕ
  pub payload : String
  pub session_id : String

pub data Loss : Type 0 where
  quota disk : Loss

-- A row of the `reservation` table.
pub record Reservation : Type 0 where
  pub accepted : ℕ
  pub created_at : ℕ

pub record Outbox : Type 0 where
  pub total_bytes : ℕ
  pub flow_budget : ℕ
  pub max_queue : ℕ
  pub queue : List Item
  pub reservations : Dict String ℕ
  pub reservation_times : Dict String ℕ
  pub memory_status : Dict ℕ Memory
  pub lost : Dict ℕ String
  pub session_dropped : Dict String ℕ
  pub dropped : ℕ
  pub summaries_dropped : ℕ
  pub disk_failed : Bool
  pub loss_reason : Option Loss
  pub events : List Row
  pub saved_reservations : Dict String Reservation

-- What `submit` answers.
pub data Reply : Type 0 where
  in_memory : Reply
  dropped_for : String → Reply
  rejected_for : String → Reply

-- _Bounded.__setitem__
unfoldable pub bounded_put : {K V : Type 0} → Discrete K → ℕ → K → V → Dict K V → Dict K V
bounded_put dec limit k v d = let d' = remove dec k d ++ (k, v) ∷ [] in drop (length d' - limit) d'

unfoldable pub get_or : {K V : Type 0} → Discrete K → K → V → Dict K V → V
get_or dec k v d = elim (get dec k d) [ none ↦ v | some x ↦ x ]

-- _drop_locked
unfoldable pub drop_event : ℕ → String → String → Outbox → Outbox
unfolding bounded_put get_or
drop_event event_id session_id reason o = record o {
  dropped = o.dropped + 1;
  session_dropped =
      bounded_put String-discrete tracked_sessions session_id
        (get_or String-discrete session_id 0 o.session_dropped + 1) o.session_dropped;
  lost = bounded_put ℕ_discrete tracked_outcomes event_id reason o.lost;
}

abbrev pub reserved : String → Outbox → ℕ
reserved session o = get_or String-discrete session 0 o.reservations
