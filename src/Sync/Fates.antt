-- ===== src/Sync/Fates.antt =====
-- What becomes of the rows of the spool when a batch is uploaded, whatever the cloud answers.
use algo_guard.Prelude.{
  ◌≡◌, refl, sym, subst, true, Option, none, some, List, [], ◌∷◌, if_elim, if◌then◌else◌,
}
use algo_guard.Outbox.Spool.{Receipt, Owner, Row}
use algo_guard.Outbox.Upload.{acknowledged, acknowledge-eq-map, refused, reject-eq-map}
use algo_guard.Sync.Store.{
  Category, category_name, is_permanent, Failure, cloud, Answer, receipts_for, failed_with, Server,
  Stored, raise, accept_receipts, reject_event, store_one, store_each, isolate, store, next_or_stop,
}
use algo_guard.Sync.Upload.{store_batches, store_parallel}
use algo_guard.Sync.Rows.{
  Each-map, Uploads, AllUpload, same-AllUpload, then-AllUpload, more_receipts, refuse_one,
}

module _ (server : Server) (c : Owner) where
  accept-AllUpload :
      (batch rows : List Row) (receipts : List Receipt)
      → server.store_flows batch ≡ receipts_for receipts
      → AllUpload server c rows (accept_receipts server c batch rows receipts).rows
  unfolding accept_receipts
  accept-AllUpload batch rows receipts answer =
      if_elim (λ (r : Stored). AllUpload server c rows r.rows) (server.spool_fails batch)
        (λ _. same-AllUpload server c rows)
        (λ _. subst (AllUpload server c rows) (sym (acknowledge-eq-map c receipts rows)) (
          Each-map (Uploads server c) (acknowledged c receipts)
            (more_receipts server c batch receipts receipts answer (λ x among. among)) rows))

  reject-AllUpload :
      (event : Row) (rows : List Row) (category : Category)
      → server.store_flows (event ∷ []) ≡ failed_with category
      → is_permanent category ≡ true
      → AllUpload server c rows (reject_event server c event rows category).rows
  unfolding reject_event
  reject-AllUpload event rows category answer permanent =
      if_elim (λ (r : Stored). AllUpload server c rows r.rows) (server.spool_fails (event ∷ []))
        (λ _. same-AllUpload server c rows)
        (λ _.
          subst (AllUpload server c rows)
            (sym (reject-eq-map c (event.event_uuid ∷ []) (category_name category) rows))
            (Each-map (Uploads server c)
              (refused c (event.event_uuid ∷ []) (category_name category))
              (refuse_one server c event category answer permanent) rows))

  abbrev answered_one : Row → List Row → Answer → Stored
  answered_one event rows (receipts_for receipts) =
      accept_receipts server c (event ∷ []) rows receipts
  answered_one event rows (failed_with category) =
      if is_permanent category
      then reject_event server c event rows category
      else raise (cloud category) rows

  store_one-AllUpload :
      (event : Row) (rows : List Row) → AllUpload server c rows (store_one server c event rows).rows
  unfolding store_one
  store_one-AllUpload event rows = go (server.store_flows (event ∷ [])) refl
    where
      go :
          (answer : Answer)
          → server.store_flows (event ∷ []) ≡ answer
          → AllUpload server c rows (answered_one event rows answer).rows
      go (receipts_for receipts) e = accept-AllUpload (event ∷ []) rows receipts e
      go (failed_with category) e =
          if_elim (λ (r : Stored). AllUpload server c rows r.rows) (is_permanent category)
            (λ permanent. reject-AllUpload event rows category e permanent)
            (λ _. same-AllUpload server c rows)

  store_each-AllUpload :
      (events rows : List Row) → AllUpload server c rows (store_each server c events rows).rows
  unfolding store_each
  store_each-AllUpload [] rows = same-AllUpload server c rows
  store_each-AllUpload (event ∷ events) rows =
      let first = store_one server c event rows in
      go first.raised (store_one-AllUpload event rows) (
        then-AllUpload server c rows first.rows (store_each server c events first.rows).rows
          (store_one-AllUpload event rows) (store_each-AllUpload events first.rows))
    where
      go :
          (raised : Option Failure)
          → AllUpload server c rows (store_one server c event rows).rows
          → AllUpload server c rows
              (store_each server c events (store_one server c event rows).rows).rows
          → AllUpload server c rows
              (next_or_stop raised
                (store_one server c event rows)
                (store_each server c events (store_one server c event rows).rows)).rows
      go none a b = b
      go (some failure) a b = a

  isolate-AllUpload :
      (events rows : List Row) (category : Category)
      → server.store_flows events ≡ failed_with category
      → is_permanent category ≡ true
      → AllUpload server c rows (isolate server c events rows category).rows
  unfolding isolate
  isolate-AllUpload [] rows category answer permanent = store_each-AllUpload [] rows
  isolate-AllUpload (event ∷ []) rows category answer permanent =
      reject-AllUpload event rows category answer permanent
  isolate-AllUpload (event ∷ next ∷ events) rows category answer permanent =
      store_each-AllUpload (event ∷ next ∷ events) rows

  abbrev answered : List Row → List Row → Answer → Stored
  answered events rows (receipts_for receipts) = accept_receipts server c events rows receipts
  answered events rows (failed_with category) =
      if is_permanent category
      then isolate server c events rows category
      else raise (cloud category) rows

  pub store-AllUpload :
      (events rows : List Row) → AllUpload server c rows (store server c events rows).rows
  unfolding store
  store-AllUpload events rows = go (server.store_flows events) refl
    where
      go :
          (answer : Answer)
          → server.store_flows events ≡ answer
          → AllUpload server c rows (answered events rows answer).rows
      go (receipts_for receipts) e = accept-AllUpload events rows receipts e
      go (failed_with category) e =
          if_elim (λ (r : Stored). AllUpload server c rows r.rows) (is_permanent category)
            (λ permanent. isolate-AllUpload events rows category e permanent)
            (λ _. same-AllUpload server c rows)

  store_batches-AllUpload :
      (batches : List (List Row)) (rows : List Row)
      → AllUpload server c rows (store_batches server c batches rows).1
  unfolding store_batches
  store_batches-AllUpload [] rows = same-AllUpload server c rows
  store_batches-AllUpload (batch ∷ batches) rows =
      let first = store server c batch rows in
      then-AllUpload server c rows first.rows (store_batches server c batches first.rows).1
        (store-AllUpload batch rows) (store_batches-AllUpload batches first.rows)

  -- Whatever the cloud and the spool do in a round of several batches, also when some of them
  -- fail, each row of the spool fares as `Uploads` says: it keeps its identity, and one that no
  -- longer waits does not change; it becomes synced only by a receipt of the cloud for it, and
  -- rejected only by a permanent refusal of this event alone, in both cases for its own owner.
  pub store_parallel-AllUpload :
      (batches : List (List Row)) (rows : List Row)
      → AllUpload server c rows (store_parallel server c batches rows).1
  unfolding store_parallel
  store_parallel-AllUpload batches rows = store_batches-AllUpload batches rows
