-- ===== src/Sync/Store.antt =====
-- `SyncWorker._store` and `_store_parallel`: one batch, and several at once. What the cloud answers
-- to a request is a parameter, and so is whether the spool raises when the answer is written down.
use algo_guard.Prelude.{
  ℕ, ◌+◌, Bool, true, false, Option, none, some, List, [], ◌∷◌, String, length, if◌then◌else◌,
}
use algo_guard.Outbox.Spool.{Receipt, Owner, Row, acknowledge, reject}

-- The categories of `RepositoryError`.
pub data Category : Type 0 where
  transient authentication permission validation conflict not_found protocol : Category

abbrev pub category_name : Category → String
category_name transient = "transient"
category_name authentication = "authentication"
category_name permission = "permission"
category_name validation = "validation"
category_name conflict = "conflict"
category_name not_found = "not_found"
category_name protocol = "protocol"

-- error.retryable
abbrev pub is_retryable : Category → Bool
is_retryable transient = true
is_retryable _ = false

-- category in PERMANENT_EVENT_ERRORS
abbrev pub is_permanent : Category → Bool
is_permanent validation = true
is_permanent conflict = true
is_permanent _ = false

-- What a pass raises: an error of the cloud, or of the local storage.
pub data Failure : Type 0 where
  cloud : Category → Failure
  storage : Failure

pub data Answer : Type 0 where
  receipts_for : List Receipt → Answer
  failed_with : Category → Answer

-- `repo.store_flows`, and whether the spool raises on the answer to these events.
pub record Server : Type 0 where
  pub store_flows : List Row → Answer
  pub spool_fails : List Row → Bool

-- How a call ends: the number of events accepted or what it raises, and the `event` table.
pub record Stored : Type 0 where
  pub raised : Option Failure
  pub accepted : ℕ
  pub rows : List Row

abbrev pub raise : Failure → List Row → Stored
raise f rows = record { raised = some f; accepted = 0; rows = rows }

unfoldable pub accept_receipts : Server → Owner → List Row → List Row → List Receipt → Stored
accept_receipts server c events rows receipts =
    if server.spool_fails events
    then raise storage rows
    else record { raised = none; accepted = length receipts; rows = acknowledge c receipts rows }

-- A batch of one event that the cloud will never take.
unfoldable pub reject_event : Server → Owner → Row → List Row → Category → Stored
reject_event server c event rows category =
    if server.spool_fails (event ∷ []) then raise storage rows else record {
      raised = none;
      accepted = 0;
      rows = reject c (event.event_uuid ∷ []) (category_name category) rows;
    }

-- _store(repo, [event])
unfoldable pub store_one : Server → Owner → Row → List Row → Stored
unfolding accept_receipts reject_event
store_one server c event rows = elim (server.store_flows (event ∷ [])) [
  | receipts_for receipts ↦ accept_receipts server c (event ∷ []) rows receipts
  | failed_with category ↦
      if is_permanent category
      then reject_event server c event rows category
      else raise (cloud category) rows
]

-- The end of the loop below after one event: an error ends it.
unfoldable pub next_or_stop : Option Failure → Stored → Stored → Stored
next_or_stop (some failure) first rest = first
next_or_stop none first rest = record rest { accepted = first.accepted + rest.accepted }

-- The loop over the events of a batch that failed.
unfoldable pub store_each : Server → Owner → List Row → List Row → Stored
unfolding store_one next_or_stop
store_each server c [] rows = record { raised = none; accepted = 0; rows = rows }
store_each server c (event ∷ events) rows =
    let first = store_one server c event rows in
    let rest = store_each server c events first.rows in next_or_stop first.raised first rest

unfoldable pub isolate : Server → Owner → List Row → List Row → Category → Stored
unfolding reject_event store_each
isolate server c [] rows category = store_each server c [] rows
isolate server c (event ∷ []) rows category = reject_event server c event rows category
isolate server c (event ∷ next ∷ events) rows category =
    store_each server c (event ∷ next ∷ events) rows

-- _store(repo, events)
unfoldable pub store : Server → Owner → List Row → List Row → Stored
unfolding accept_receipts isolate
store server c events rows = elim (server.store_flows events) [
  | receipts_for receipts ↦ accept_receipts server c events rows receipts
  | failed_with category ↦
      if is_permanent category
      then isolate server c events rows category
      else raise (cloud category) rows
]
