-- ===== src/Sync/Upload.antt =====
-- `SyncWorker._store_parallel` and `_upload`: several batches at once, at most ten a pass. The
-- batches of one round share no event, so one `Server` answers for the round; their threads are
-- taken in the order of the batches.
use algo_guard.Prelude.{
  ℕ, zero, suc, ◌+◌, ◌-◌, ◌*◌, Bool, Option, none, some, List, [], ◌∷◌, min, ltb, length, take,
  drop, if◌then◌else◌,
}
use algo_guard.Outbox.Spool.{Owner, Row, batch_limit, pending_rows}
use algo_guard.Sync.Store.{transient, Failure, cloud, storage, Server, store}

-- The key of `min`: the most serious failure has the least.
abbrev pub gravity : Failure → ℕ
gravity (cloud transient) = 2
gravity (cloud _) = 0
gravity storage = 1

-- min(errors, key=…): the first of the least.
unfoldable pub gravest : Failure → List Failure → Failure
gravest f [] = f
gravest f (g ∷ failures) =
    if ltb (gravity g) (gravity f) then gravest g failures else gravest f failures

-- The failures of the batches, and the table after all of them.
unfoldable pub store_batches : Server → Owner → List (List Row) → List Row → List Failure × List Row
store_batches server c [] rows = ([], rows)
store_batches server c (batch ∷ batches) rows =
    let first = store server c batch rows in
    let (failures, rows') = store_batches server c batches first.rows in
    (elim first.raised [ none ↦ failures | some f ↦ f ∷ failures ], rows')

unfoldable pub raised_of : List Failure → Option Failure
unfolding gravest
raised_of [] = none
raised_of (f ∷ failures) = some (gravest f failures)

unfoldable pub store_parallel :
    Server → Owner → List (List Row) → List Row → Option Failure × List Row
unfolding store_batches raised_of
store_parallel server c batches rows =
    let (failures, rows') = store_batches server c batches rows in (raised_of failures, rows')

abbrev pub max_batches : ℕ
max_batches = 10

-- [events[start:start + 50] for start in range(0, len(events), 50)]
unfoldable pub batches_of : ℕ → List Row → List (List Row)
batches_of zero events = []
batches_of (suc fuel) [] = []
batches_of (suc fuel) (e ∷ events) =
    take batch_limit (e ∷ events) ∷ batches_of fuel (drop batch_limit (e ∷ events))

unfoldable pub split_batches : List Row → List (List Row)
unfolding batches_of
split_batches events = batches_of (length events) events

-- After one round: it raises, or it was not full, or the loop goes on as `rest` says.
unfoldable pub after_round :
    Bool
    → Option Failure × List Row
    → Option (Option Failure × List Row)
    → Option (Option Failure × List Row)
after_round short (some f, rows) rest = some (some f, rows)
after_round short (none, rows) rest = if short then some (none, rows) else rest

-- No round without events; a short one is the last.
unfoldable pub unless_empty :
    List Row
    → List Row
    → ℕ
    → Option Failure × List Row
    → Option (Option Failure × List Row)
    → Option (Option Failure × List Row)
unfolding after_round
unless_empty [] rows full round rest = some (none, rows)
unless_empty (e ∷ events) rows full round rest =
    after_round (ltb (length (e ∷ events)) full) round rest

unfoldable pub round_width : ℕ → ℕ → ℕ
round_width parallelism sent = min parallelism (max_batches - sent)

-- The loop of `_upload` with `sent` batches sent; `none` is out of fuel.
unfoldable pub upload_loop :
    (ℕ → Server) → Owner → ℕ → ℕ → ℕ → List Row → Option (Option Failure × List Row)
unfolding store_parallel split_batches unless_empty round_width
upload_loop servers c parallelism zero sent rows =
    if ltb sent max_batches then none else some (none, rows)
upload_loop servers c parallelism (suc fuel) sent rows =
    let width = round_width parallelism sent in
    let events = pending_rows c (width * batch_limit) rows in
    let round = store_parallel (servers sent) c (split_batches events) rows in
    let rest = upload_loop servers c parallelism fuel (sent + width) round.1 in
    if ltb sent max_batches
    then unless_empty events rows (width * batch_limit) round rest
    else some (none, rows)

-- _upload(repo), with the server of each round under the number of batches sent before it
unfoldable pub upload : (ℕ → Server) → Owner → ℕ → List Row → Option (Option Failure × List Row)
unfolding upload_loop
upload servers c parallelism rows = upload_loop servers c parallelism max_batches 0 rows
