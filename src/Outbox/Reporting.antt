-- ===== src/Outbox/Reporting.antt =====
-- What the outbox says of an event: `wait_durable` and `statuses`.
use algo_guard.Prelude.{
  ℕ, ◌&&◌, Option, none, some, List, [], ◌∷◌, String, ◌==◌, if◌then◌else◌, ℕ_discrete,
}
use algo_guard.Prelude.Dict.{get, has}
use algo_guard.Outbox.Spool.{pending, synced, rejected, Receipt, Owner, Row, same_station}
use algo_guard.Outbox.State.{Outbox}
use algo_guard.Outbox.Writer.{find_row}

-- What `wait_durable` and `statuses` report of one event.
pub data Persistence : Type 0 where
  unknown held_in_memory durable_pending : Persistence
  committed : Option Receipt → Persistence
  refused : Option String → Persistence
  gone : String → Persistence

-- wait_durable, over the states that it sees when it wakes up before its deadline, and the one at
-- the deadline.
unfoldable pub wait_durable : ℕ → List Outbox → Outbox → Persistence
wait_durable event_id [] o =
    if has ℕ_discrete event_id o.memory_status
    then held_in_memory
    else elim (get ℕ_discrete event_id o.lost) [ some why ↦ gone why | none ↦ durable_pending ]
wait_durable event_id (o ∷ later) last =
    let waits = wait_durable event_id later last in
    if has ℕ_discrete event_id o.memory_status
    then waits
    else elim (get ℕ_discrete event_id o.lost) [ some why ↦ gone why | none ↦ durable_pending ]

unfoldable pub row_status : Row → Persistence
row_status r = elim r.status [
  | pending ↦ durable_pending
  | synced ↦ committed r.receipt
  | rejected ↦ refused r.reason
]

-- statuses(context, [event_id])
unfoldable pub status_of : Owner → ℕ → Outbox → Persistence
unfolding find_row row_status
status_of c event_id o =
    let in_process : Persistence = elim (get ℕ_discrete event_id o.memory_status) [
      | some m ↦
          if c.user_id == m.user_id && c.node_id == m.node_id
          then held_in_memory
          else elim (get ℕ_discrete event_id o.lost) [ some why ↦ gone why | none ↦ unknown ]
      | none ↦ elim (get ℕ_discrete event_id o.lost) [ some why ↦ gone why | none ↦ unknown ]
    ] in
    elim (find_row event_id o.events) [
      | some r ↦ if same_station c r then row_status r else in_process
      | none ↦ in_process
    ]
