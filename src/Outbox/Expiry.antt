-- ===== src/Outbox/Expiry.antt =====
-- What `Outbox.expire` keeps of the event table.
use algo_guard.Prelude.{
  ℕ, zero, suc, ◌+◌, ◌-◌, ◌≤◌, ◌≡◌, refl, ◌∙◌, Bool, true, false, ◌&&◌, not, List, [], ◌∷◌, arith,
  count_if, All, Bool-cases, if_elim, inl, inr,
}
use algo_guard.Outbox.Spool.{Row, is_pending, is_synced, update_where, delete_where, select_where}
use algo_guard.Outbox.Retention.{
  max_age, synced_keep, past, expire_pending, drop_payload, outdated, drop_synced, trim_synced,
  expire_rows, expire_count,
}

-- A pending row that is not too old.
unfoldable pub is_fresh : ℕ → Row → Bool
is_fresh now r = not (past now max_age r.created_at) && is_pending r.status

-- The rows before the trim: of each row, what the two updates and the delete leave.
pub swept : ℕ → List Row → List Row
swept now rows = delete_where (outdated now) (
    update_where (λ r. true) (drop_payload now)
      (update_where (λ r. true) (expire_pending now) rows))

select-drop_synced :
    (n : ℕ) (rows : List Row)
    → select_where (λ r. is_pending r.status) (drop_synced n rows)
      ≡ select_where (λ r. is_pending r.status) rows
unfolding drop_synced select_where
select-drop_synced zero rows = refl
select-drop_synced (suc n) [] = refl
select-drop_synced (suc n) (r ∷ rows) =
    ground (arith, select-drop_synced n rows, select-drop_synced (suc n) rows)

select-swept :
    (now : ℕ) (rows : List Row)
    → select_where (λ r. is_pending r.status) (swept now rows) ≡ select_where (is_fresh now) rows
unfolding swept select_where delete_where update_where expire_pending drop_payload outdated is_fresh
select-swept now [] = refl
select-swept now (r ∷ rows) = ground (arith, select-swept now rows)

-- The pending rows after a pass are the pending rows of at most seven days before it, each
-- unchanged and in the same order: no event is dropped before its time, and none waits longer.
pub expire_rows-keeps_pending :
    (now : ℕ) (rows : List Row)
    → select_where (λ r. is_pending r.status) (expire_rows now rows)
      ≡ select_where (is_fresh now) rows
unfolding expire_rows trim_synced swept
expire_rows-keeps_pending now rows = select-drop_synced _ (swept now rows) ∙ select-swept now rows

count-drop_synced :
    (n : ℕ) (rows : List Row)
    → count_if (λ r. is_synced r.status) (drop_synced n rows)
      ≡ count_if (λ r. is_synced r.status) rows - n
unfolding drop_synced count_if
count-drop_synced zero rows = omega arith
count-drop_synced (suc n) [] = omega arith
count-drop_synced (suc n) (r ∷ rows) =
    ground (arith, count-drop_synced n rows, count-drop_synced (suc n) rows)

-- Nothing of a pass is outdated.
All-drop_synced :
    (P : Row → Type 0) (n : ℕ) (rows : List Row) → All P rows → All P (drop_synced n rows)
unfolding drop_synced
All-drop_synced P zero rows a = a
All-drop_synced P (suc n) [] a = a
All-drop_synced P (suc n) (r ∷ rows) a = elim (Bool-cases (is_synced r.status)) [
  | inl e ↦ rw (e, drop_synced, All) (All-drop_synced P n rows a.1)
  | inr e ↦ rw (e, drop_synced, All) (a.0, All-drop_synced P (suc n) rows a.1)
]

All-delete_where : (p : Row → Bool) (rows : List Row) → All (λ r. p r ≡ false) (delete_where p rows)
unfolding delete_where
All-delete_where p [] = tt
All-delete_where p (r ∷ rows) =
    if_elim (All (λ r. p r ≡ false)) (p r) (λ _. All-delete_where p rows)
      (λ e. (e, All-delete_where p rows))

-- After a pass the table holds at most `synced_keep` synced rows, none of them over seven days
-- old, and no row at all over 28 days old.
pub record Expired (now : ℕ) (rows : List Row) : Type 0 where
  pub few_synced : count_if (λ r. is_synced r.status) rows ≤ synced_keep
  pub none_outdated : All (λ r. outdated now r ≡ false) rows

pub expire_rows-Expired : (now : ℕ) (rows : List Row) → Expired now (expire_rows now rows)
unfolding expire_rows trim_synced swept
expire_rows-Expired now rows =
    let n = count_if (λ r. is_synced r.status) (swept now rows) - synced_keep in
    record {
      few_synced = omega (arith, count-drop_synced n (swept now rows));
      none_outdated =
          All-drop_synced (λ r. outdated now r ≡ false) n (swept now rows)
            (All-delete_where (outdated now) (
              update_where (λ r. true) (drop_payload now)
                (update_where (λ r. true) (expire_pending now) rows)));
    }

count-drop_pending :
    (n : ℕ) (rows : List Row)
    → count_if (λ r. is_pending r.status) (drop_synced n rows)
      ≡ count_if (λ r. is_pending r.status) rows
unfolding drop_synced count_if
count-drop_pending zero rows = refl
count-drop_pending (suc n) [] = refl
count-drop_pending (suc n) (r ∷ rows) =
    ground (arith, count-drop_pending n rows, count-drop_pending (suc n) rows)

count-swept :
    (now : ℕ) (rows : List Row)
    → expire_count now rows + count_if (λ r. is_pending r.status) (swept now rows)
      ≡ count_if (λ r. is_pending r.status) rows
unfolding swept expire_count count_if delete_where update_where expire_pending drop_payload outdated
count-swept now [] = refl
count-swept now (r ∷ rows) = ground (arith, count-swept now rows)

-- Every pending row is expired, and counted as such, or stays pending.
pub expire_count-split :
    (now : ℕ) (rows : List Row)
    → expire_count now rows + count_if (λ r. is_pending r.status) (expire_rows now rows)
      ≡ count_if (λ r. is_pending r.status) rows
unfolding expire_count expire_rows trim_synced swept
expire_count-split now rows =
    omega (arith, count-drop_pending _ (swept now rows), count-swept now rows)
