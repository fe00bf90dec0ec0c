-- ===== src/Outbox/Retention.antt =====
-- `Outbox.expire`: one `update` or `delete` after the other, as the source sends them.
use algo_guard.Prelude.{
  ℕ, zero, suc, ◌+◌, ◌-◌, ◌*◌, ◌^◌, Bool, true, false, ◌&&◌, ◌||◌, not, some, List, [], ◌∷◌, String,
  ltb, str_eq, if◌then◌else◌, count_if, String-discrete,
}
use algo_guard.Prelude.Dict.{Dict, remove}
use algo_guard.Outbox.Spool.{
  rejected, Row, is_pending, is_synced, is_rejected, update_where, delete_where,
}
use algo_guard.Outbox.Summaries.{Summary, exists_where}
use algo_guard.Outbox.State.{Outbox, Reservation}

-- In microseconds.
abbrev pub second : ℕ
second = 10 ^ 6

abbrev pub max_age : ℕ
max_age = 7 * 86400 * second

abbrev pub tombstone_age : ℕ
tombstone_age = 28 * 86400 * second

abbrev pub synced_keep : ℕ
synced_keep = 10_000

-- created_at < now - age
abbrev pub past : ℕ → ℕ → ℕ → Bool
past now age created = ltb (created + age) now

unfoldable pub expire_pending : ℕ → Row → Row
expire_pending now r =
    if past now max_age r.created_at && is_pending r.status
    then record r { status = rejected; reason = some "expired" }
    else r

unfoldable pub drop_payload : ℕ → Row → Row
drop_payload now r =
    if past now max_age r.created_at && (is_rejected r.status && not (str_eq r.payload "{}"))
    then record r { payload = "{}" }
    else r

unfoldable pub outdated : ℕ → Row → Bool
outdated now r =
    (is_synced r.status && past now max_age r.created_at) || past now tombstone_age r.created_at

-- The first `n` synced rows go.
unfoldable pub drop_synced : ℕ → List Row → List Row
drop_synced zero rows = rows
drop_synced (suc n) [] = []
drop_synced (suc n) (r ∷ rows) = elim (is_synced r.status) [
  | true ↦ drop_synced n rows
  | false ↦ r ∷ drop_synced (suc n) rows
]

-- All but the `synced_keep` synced rows with the highest rowids.
unfoldable pub trim_synced : List Row → List Row
unfolding drop_synced
trim_synced rows = drop_synced (count_if (λ r. is_synced r.status) rows - synced_keep) rows

unfoldable pub expire_rows : ℕ → List Row → List Row
unfolding update_where delete_where expire_pending drop_payload outdated trim_synced
expire_rows now rows =
    let expired = update_where (λ r. true) (expire_pending now) rows in
    let emptied = update_where (λ r. true) (drop_payload now) expired in
    trim_synced (delete_where (outdated now) emptied)

-- How many pending rows it expires, which `expire` returns.
unfoldable pub expire_count : ℕ → List Row → ℕ
expire_count now rows = count_if (λ r. past now max_age r.created_at && is_pending r.status) rows

-- The reservations of sessions with nothing pending.
unfoldable pub expire_reservations :
    ℕ → List Row → Dict String Reservation → Dict String Reservation
unfolding exists_where
expire_reservations now rows [] = []
expire_reservations now rows ((session, r) ∷ rest) =
    let kept = expire_reservations now rows rest in
    let awaited = exists_where (λ e. str_eq e.session_id session && is_pending e.status) rows in
    if past now max_age r.created_at && not awaited then kept else (session, r) ∷ kept

unfoldable pub expire_summaries : ℕ → List Summary → List Summary
unfolding update_where delete_where
expire_summaries now rows =
    delete_where (λ s. past now tombstone_age s.created_at)
      (update_where (λ s. past now max_age s.created_at && is_pending s.status)
        (λ s. record s { status = rejected; reason = some "expired"; payload = "{}" }) rows)

unfoldable pub expired_summaries : ℕ → List Summary → ℕ
expired_summaries now rows =
    count_if (λ s. past now max_age s.created_at && is_pending s.status) rows

-- The loop over `reservation_times`: (times, reservations) after it.
unfoldable pub forget_times : ℕ → Dict String ℕ → Dict String ℕ → Dict String ℕ × Dict String ℕ
forget_times now [] reservations = ([], reservations)
forget_times now ((session, created) ∷ rest) reservations =
    let stale = past now max_age created in
    let (times, left) =
      forget_times now rest
        (if stale then remove String-discrete session reservations else reservations) in
    (if stale then times else (session, created) ∷ times, left)

-- expire(now): what it returns, the outbox and the summaries after it.
unfoldable pub expire : ℕ → Outbox → List Summary → ℕ × Outbox × List Summary
unfolding expire_rows expire_count expire_reservations expire_summaries expired_summaries
    forget_times
expire now o summaries =
    let rows = expire_rows now o.events in
    let (times, reservations) = forget_times now o.reservation_times o.reservations in
    (
      expire_count now o.events,
      record o {
        events = rows;
        saved_reservations = expire_reservations now rows o.saved_reservations;
        summaries_dropped = o.summaries_dropped + expired_summaries now summaries;
        reservation_times = times;
        reservations = reservations;
      },
      expire_summaries now summaries,
    )
