-- ===== src/Outbox/Handoff.antt =====
-- `Outbox.submit`: an event is handed to the writer, or dropped, or refused.
use algo_guard.Prelude.{
  ℕ, ◌+◌, Bool, ◌&&◌, not, Option, none, some, [], ◌∷◌, ◌++◌, String, ltb, leb, ◌==◌, str_eq,
  if◌then◌else◌, length, String-discrete, ℕ_discrete,
}
use algo_guard.Prelude.Dict.{get, has, put}
use algo_guard.Outbox.Spool.{Owner}
use algo_guard.Outbox.State.{
  Event, Host, Item, Memory, Outbox, Reply, in_memory, dropped_for, rejected_for, get_or,
  drop_event, reserved, session_limit, event_bytes,
}

-- The checks of the `try` block of `submit`: the UUID, the payload and the deployment.
unfoldable pub validate : Host → Event → Option (ℕ × String × ℕ)
validate host e = elim (host.parse_uuid e.event_uuid) [
  | none ↦ none
  | some event_id ↦ elim (host.dumps e) [
    | none ↦ none
    | some payload ↦
        if ltb event_bytes (host.utf8_bytes payload)
        then none
        else elim (host.parse_int e.deployment_id) [
          | none ↦ none
          | some deployment ↦ some (event_id, payload, deployment)
        ]
  ]
]

abbrev pub memory_of : Item → Memory
memory_of item = record {
  user_id = item.owner.user_id;
  node_id = item.owner.node_id;
  payload = item.payload;
  session_id = item.session_id;
}

-- Taking the queue's place and the session's slot.
unfoldable pub accept : Item → Outbox → Outbox
unfolding get_or
accept item o = record o {
  queue = o.queue ++ item ∷ [];
  reservations =
      if item.capped
      then put String-discrete item.session_id (reserved item.session_id o + 1) o.reservations
      else o.reservations;
  reservation_times =
      if item.capped && not (has String-discrete item.session_id o.reservation_times)
      then put String-discrete item.session_id item.created_at o.reservation_times
      else o.reservation_times;
  memory_status = put ℕ_discrete item.event_id (memory_of item) o.memory_status;
}

-- existing[1:4] == (user_id, node_id, payload)
unfoldable pub same_memory : Item → Memory → Bool
same_memory item m =
    m.user_id == item.owner.user_id
    && (m.node_id == item.owner.node_id && str_eq m.payload item.payload)

unfoldable pub submit_new : Item → Outbox → Reply × Outbox
unfolding accept drop_event get_or
submit_new item o =
    if o.disk_failed
    then (dropped_for "storage", drop_event item.event_id item.session_id "storage" o)
    else if item.capped && leb session_limit (reserved item.session_id o)
    then (dropped_for "session_cap", drop_event item.event_id item.session_id "session_cap" o)
    else if leb o.max_queue (length o.queue)
    then (dropped_for "handoff_full", drop_event item.event_id item.session_id "handoff_full" o)
    else (in_memory, accept item o)

-- The answer for an event that is held in memory, or for a new one.
unfoldable pub submit_answer : Item → Outbox → Option Memory → Reply × Outbox
unfolding submit_new same_memory
submit_answer item o (some m) =
    if same_memory item m then (in_memory, o) else (rejected_for "identity_conflict", o)
submit_answer item o none = submit_new item o

unfoldable pub submit_item : Item → Outbox → Reply × Outbox
unfolding submit_answer
submit_item item o = submit_answer item o (get ℕ_discrete item.event_id o.memory_status)

-- submit(context, session_id, event, capped=capped), at the time `now`
unfoldable pub submit : Host → Owner → String → Event → Bool → ℕ → Outbox → Reply × Outbox
unfolding validate submit_item
submit host owner session event capped now o = elim (validate host event) [
  | none ↦ (rejected_for "invalid_event", o)
  | some (event_id, payload, deployment) ↦
      submit_item
        (record {
          event_id = event_id;
          owner = owner;
          session_id = session;
          deployment_id = deployment;
          created_at = now;
          payload = payload;
          capped = capped;
        })
        o
]
