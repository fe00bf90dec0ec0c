-- ===== src/Sync/Rows.antt =====
-- What an upload may do to a row of the spool: by a receipt, by a refusal, or not at all.
use algo_guard.Prelude.{
  ◌≡◌, refl, sym, subst, true, some, List, [], ◌∷◌, arith, map, ◌⊎◌, inl, inr, if_elim, Bool-cases,
}
use algo_guard.Outbox.Spool.{
  Receipt, Owner, Row, is_pending, is_synced, is_rejected, same_owner, names, waits_for, reject_row,
  sync_row,
}
use algo_guard.Outbox.Upload.{Moves, Among, acknowledged, refused}
use algo_guard.Sync.Store.{Category, category_name, is_permanent, receipts_for, failed_with, Server}

-- Two tables of the same length, row by row.
abbrev pub Each : (Row → Row → Type 0) → List Row → List Row → Type 0
Each P [] [] = Unit
Each P (r ∷ rows) (s ∷ rows') = P r s × Each P rows rows'
Each P [] (s ∷ rows') = ⊥
Each P (r ∷ rows) [] = ⊥

pub Each-map :
    (P : Row → Row → Type 0) (f : Row → Row)
    → ((r : Row) → P r (f r))
    → (rows : List Row) → Each P rows (map f rows)
Each-map P f h [] = tt
Each-map P f h (r ∷ rows) = (h r, Each-map P f h rows)

module _ (server : Server) (c : Owner) where
  -- The cloud committed the event: a receipt for it stands in an answer, and the row keeps it.
  abbrev pub Committed : Row → Row → Type 0
  Committed r s =
      (batch : List Row) × (receipts : List Receipt) × (receipt : Receipt) × (server.store_flows
          batch
        ≡ receipts_for receipts)
      × Among receipt receipts
      × (receipt.event_uuid ≡ r.event_uuid)
      × (s.receipt ≡ some receipt)

  -- The cloud refused this event for good when it was sent alone.
  abbrev pub RefusedAlone : Row → Row → Type 0
  RefusedAlone r s =
      (event : Row) × (category : Category) × (server.store_flows (event ∷ [])
        ≡ failed_with category)
      × (is_permanent category ≡ true)
      × (event.event_uuid ≡ r.event_uuid)
      × (s.reason ≡ some (category_name category))

  -- A row keeps its identity, and once it no longer waits it does not change. It becomes synced
  -- only by a receipt of the cloud for it, and rejected only by a permanent refusal of this event
  -- alone, and then it is a row of the caller.
  pub record Uploads (r s : Row) : Type 0 where
    pub moves : Moves r s
    pub if_synced :
        is_synced s.status ≡ true → (s ≡ r) ⊎ ((same_owner c r.owner ≡ true) × Committed r s)
    pub if_rejected :
        is_rejected s.status ≡ true → (s ≡ r) ⊎ ((same_owner c r.owner ≡ true) × RefusedAlone r s)
    pub if_pending : is_pending s.status ≡ true → s ≡ r

  same-Uploads : (r : Row) → Uploads r r
  same-Uploads r = record {
    moves = record {
      event = refl;
      owner = refl;
      session = refl;
      deployment = refl;
      created = refl;
      hash = refl;
      final = λ h. refl;
    };
    if_synced = λ h. inl refl;
    if_rejected = λ h. inl refl;
    if_pending = λ h. refl;
  }

  -- A row that waits for the caller, after the answer has been written into it.
  synced-Uploads :
      (batch : List Row) (receipts : List Receipt) (receipt : Receipt) (r : Row)
      → server.store_flows batch ≡ receipts_for receipts
      → Among receipt receipts
      → names receipt.event_uuid c r ≡ true
      → Uploads r (sync_row receipt r)
  unfolding names waits_for sync_row
  synced-Uploads batch receipts receipt r answer among named = record {
    moves = record {
      event = refl;
      owner = refl;
      session = refl;
      deployment = refl;
      created = refl;
      hash = refl;
      final = λ h. ground arith;
    };
    if_synced =
        λ h. inr (ground arith, (batch, receipts, receipt, answer, among, ground arith, refl));
    if_rejected = λ h. cc;
    if_pending = λ h. cc;
  }

  refused-Uploads :
      (event : Row) (category : Category) (r : Row)
      → server.store_flows (event ∷ []) ≡ failed_with category
      → is_permanent category ≡ true
      → names event.event_uuid c r ≡ true
      → Uploads r (reject_row (category_name category) r)
  unfolding names waits_for reject_row
  refused-Uploads event category r answer permanent named = record {
    moves = record {
      event = refl;
      owner = refl;
      session = refl;
      deployment = refl;
      created = refl;
      hash = refl;
      final = λ h. ground arith;
    };
    if_synced = λ h. cc;
    if_rejected = λ h. inr (ground arith, (event, category, answer, permanent, ground arith, refl));
    if_pending = λ h. cc;
  }

  pub more_receipts :
      (batch : List Row) (all receipts : List Receipt)
      → server.store_flows batch ≡ receipts_for all
      → ((receipt : Receipt) → Among receipt receipts → Among receipt all)
      → (r : Row) → Uploads r (acknowledged c receipts r)
  unfolding acknowledged
  more_receipts batch all [] answer inside r = same-Uploads r
  more_receipts batch all (receipt ∷ receipts) answer inside r =
      if_elim (Uploads r) (names receipt.event_uuid c r)
        (λ named. synced-Uploads batch all receipt r answer (inside receipt (inl refl)) named)
        (λ _. more_receipts batch all receipts answer (λ x among. inside x (inr among)) r)

  pub refuse_one :
      (event : Row) (category : Category)
      → server.store_flows (event ∷ []) ≡ failed_with category
      → is_permanent category ≡ true
      → (r : Row) → Uploads r (refused c (event.event_uuid ∷ []) (category_name category) r)
  unfolding refused
  refuse_one event category answer permanent r =
      if_elim (Uploads r) (names event.event_uuid c r)
        (λ named. refused-Uploads event category r answer permanent named) (λ _. same-Uploads r)

  -- A second change finds the row waiting, and then the first left it alone, or it finds it settled.
  then-Uploads : (r s t : Row) → Uploads r s → Uploads s t → Uploads r t
  then-Uploads r s t a b = elim (Bool-cases (is_pending s.status)) [
    | inl h ↦ subst (λ x. Uploads x t) (a.if_pending h) b
    | inr h ↦ subst (λ x. Uploads r x) (sym (b.moves.final h)) a
  ]

  abbrev pub AllUpload : List Row → List Row → Type 0
  AllUpload = Each Uploads

  pub same-AllUpload : (rows : List Row) → AllUpload rows rows
  same-AllUpload [] = tt
  same-AllUpload (r ∷ rows) = (same-Uploads r, same-AllUpload rows)

  pub then-AllUpload :
      (rows rows' last : List Row)
      → AllUpload rows rows'
      → AllUpload rows' last
      → AllUpload rows last
  then-AllUpload [] [] [] a b = tt
  then-AllUpload (r ∷ rows) (s ∷ rows') (t ∷ last) a b =
      (then-Uploads r s t a.0 b.0, then-AllUpload rows rows' last a.1 b.1)
  then-AllUpload [] (s ∷ rows') last a b = absurd a
  then-AllUpload (r ∷ rows) [] last a b = absurd a
  then-AllUpload [] [] (t ∷ last) a b = absurd b
  then-AllUpload (r ∷ rows) (s ∷ rows') [] a b = absurd b
