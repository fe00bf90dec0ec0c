-- ===== src/Outbox/Upload.antt =====
-- What the upload side does to each row, and what it reads.
use algo_guard.Prelude.{
  ℕ, ◌≡◌, refl, ap, ◌∙◌, Bool, false, List, [], ◌∷◌, String, arith, map, if◌then◌else◌, ◌⊎◌,
}
use algo_guard.Outbox.Spool.{
  is_pending, Receipt, Owner, Row, acknowledge, reject, update_where, names, sync_row, reject_row,
}

-- One row under a whole list of receipts: the first that names it counts.
unfoldable pub acknowledged : Owner → List Receipt → Row → Row
unfolding names sync_row
acknowledged c [] r = r
acknowledged c (receipt ∷ receipts) r =
    let later = acknowledged c receipts r in
    if names receipt.event_uuid c r then sync_row receipt r else later

-- One row under a list of refused events.
unfoldable pub refused : Owner → List ℕ → String → Row → Row
unfolding names reject_row
refused c [] why r = r
refused c (uuid ∷ uuids) why r =
    let later = refused c uuids why r in if names uuid c r then reject_row why r else later

map-update_where :
    (p : Row → Bool) (f g h : Row → Row)
    → ((r : Row) → g (if p r then f r else r) ≡ h r)
    → (rows : List Row) → map g (update_where p f rows) ≡ map h rows
unfolding update_where
map-update_where p f g h same [] = refl
map-update_where p f g h same (r ∷ rows) = cc (same r, map-update_where p f g h same rows)

-- A row that no longer waits is left alone.
acknowledged-settled :
    (c : Owner) (receipts : List Receipt) (r : Row)
    → is_pending r.status ≡ false
    → acknowledged c receipts r ≡ r
unfolding acknowledged
acknowledged-settled c [] r h = refl
acknowledged-settled c (receipt ∷ receipts) r h = ground (arith, acknowledged-settled c receipts r)

refused-settled :
    (c : Owner) (uuids : List ℕ) (why : String) (r : Row)
    → is_pending r.status ≡ false
    → refused c uuids why r ≡ r
unfolding refused
refused-settled c [] why r h = refl
refused-settled c (uuid ∷ uuids) why r h = ground (arith, refused-settled c uuids why r)

map_self : (rows : List Row) → rows ≡ map (λ r. r) rows
map_self [] = refl
map_self (r ∷ rows) = ap (◌∷◌ r) (map_self rows)

-- The loop of `update` statements is one pass over the table: each row that waits for this owner
-- takes the first receipt that names it, and every other row stays as it is.
pub acknowledge-eq-map :
    (c : Owner) (receipts : List Receipt) (rows : List Row)
    → acknowledge c receipts rows ≡ map (acknowledged c receipts) rows
unfolding acknowledge acknowledged
acknowledge-eq-map c [] rows = map_self rows
acknowledge-eq-map c (receipt ∷ receipts) rows =
    acknowledge-eq-map c receipts
      (update_where (names receipt.event_uuid c) (sync_row receipt) rows)
    ∙ map-update_where (names receipt.event_uuid c) (sync_row receipt) (acknowledged c receipts)
        (acknowledged c (receipt ∷ receipts))
        (λ r. ground (arith, acknowledged-settled c receipts (sync_row receipt r))) rows

-- So is the loop of `reject`.
pub reject-eq-map :
    (c : Owner) (uuids : List ℕ) (why : String) (rows : List Row)
    → reject c uuids why rows ≡ map (refused c uuids why) rows
unfolding reject refused
reject-eq-map c [] why rows = map_self rows
reject-eq-map c (uuid ∷ uuids) why rows =
    reject-eq-map c uuids why (update_where (names uuid c) (reject_row why) rows)
    ∙ map-update_where (names uuid c) (reject_row why) (refused c uuids why)
        (refused c (uuid ∷ uuids) why)
        (λ r. ground (arith, refused-settled c uuids why (reject_row why r))) rows

-- The receipt is one of the list.
abbrev pub Among : Receipt → List Receipt → Type 0
Among receipt [] = ⊥
Among receipt (x ∷ xs) = (receipt ≡ x) ⊎ Among receipt xs

-- How the upload side may change a row: its identity, its hash and its time never, a row that is
-- synced or rejected not at all.
pub record Moves (r s : Row) : Type 0 where
  pub event : s.event_uuid ≡ r.event_uuid
  pub owner : s.owner ≡ r.owner
  pub session : s.session_id ≡ r.session_id
  pub deployment : s.deployment_id ≡ r.deployment_id
  pub created : s.created_at ≡ r.created_at
  pub hash : s.payload_hash ≡ r.payload_hash
  pub final : is_pending r.status ≡ false → s ≡ r
