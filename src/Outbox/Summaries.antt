-- ===== src/Outbox/Summaries.antt =====
-- The `lifecycle` table, the reserve for summaries: `save_lifecycle`, `pending_summaries`,
-- `pending_lifecycle`, `finish_lifecycle`, `export_summaries`.
use algo_guard.Prelude.{
  ℕ, Bool, false, ◌&&◌, ◌||◌, not, Option, none, some, List, [], ◌∷◌, ◌++◌, String, ltb, leb, ◌==◌,
  str_eq, if◌then◌else◌, take, count_if,
}
use algo_guard.Outbox.Spool.{
  Status, pending, rejected, Owner, is_pending, same_owner, update_where, delete_where,
  select_where, sort_by,
}

abbrev pub summary_bytes : ℕ
summary_bytes = 4096

pub record Summary : Type 0 where
  pub summary_id : ℕ
  pub owner : Owner
  pub created_at : ℕ
  pub payload : String
  pub status : Status
  pub reason : Option String
  pub kind : String

-- SUMMARY_LIMITS
unfoldable pub summary_limit : String → Option ℕ
summary_limit kind =
    if str_eq kind "capture" then some 32 else if str_eq kind "log" then some 96 else none

-- How `save_lifecycle` ends: the table it leaves, and whether it counts a summary as dropped.
pub data Saved : Type 0 where
  saved : List Summary → Saved
  invalid : Saved
  unavailable : Saved

abbrev pub has_id : ℕ → Summary → Bool
has_id summary_id s = summary_id == s.summary_id

unfoldable pub exists_where {ℓ} : {A : Type ℓ} → (A → Bool) → List A → Bool
exists_where test [] = false
exists_where test (r ∷ rows) = test r || exists_where test rows

abbrev pub waiting_of : String → Summary → Bool
waiting_of kind s = str_eq kind s.kind && is_pending s.status

-- on conflict(summary_id) do update … where the user and the node are the same
unfoldable pub upsert : Summary → List Summary → List Summary
unfolding exists_where update_where
upsert new rows =
    if exists_where (has_id new.summary_id) rows
    then update_where
        (λ s.
          has_id new.summary_id s
          && (s.owner.user_id == new.owner.user_id && s.owner.node_id == new.owner.node_id))
        (λ s. record s { payload = new.payload; status = pending }) rows
    else rows ++ new ∷ []

-- save_lifecycle(context, summary_id, payload, kind); `encoded` is the dumped payload, `bytes` its
-- size, and `broken` is an error of SQLite.
unfoldable pub save_lifecycle : Owner → ℕ → String → ℕ → String → ℕ → Bool → List Summary → Saved
unfolding summary_limit upsert
save_lifecycle c summary_id encoded bytes kind now broken rows = elim (summary_limit kind) [
  | none ↦ invalid
  | some limit ↦
      if ltb summary_bytes bytes
      then invalid
      else if broken
      then unavailable
      else if not (exists_where (has_id summary_id) rows)
          && leb limit (count_if (waiting_of kind) rows)
      then unavailable
      else saved (
          upsert
            (record {
              summary_id = summary_id;
              owner = c;
              created_at = now;
              payload = encoded;
              status = pending;
              reason = none;
              kind = kind;
            })
            rows)
]

earlier : Summary → Summary → Bool
earlier r s =
    ltb r.created_at s.created_at || (r.created_at == s.created_at && leb r.summary_id s.summary_id)

unfoldable pub pending_summaries : Owner → ℕ → List Summary → List Summary
unfolding select_where sort_by earlier
pending_summaries c limit rows =
    take limit
      (sort_by earlier (select_where (λ s. same_owner c s.owner && is_pending s.status) rows))

-- The capture summaries of the first ten.
unfoldable pub pending_lifecycle : Owner → List Summary → List Summary
unfolding pending_summaries
pending_lifecycle c rows = select_where (λ s. str_eq s.kind "capture") (pending_summaries c 10 rows)

-- An empty reason is falsy, as none is.
unfoldable pub finish_lifecycle : Owner → ℕ → Option String → List Summary → List Summary
unfolding update_where delete_where
finish_lifecycle c summary_id reason rows =
    let mine = λ (s : Summary). has_id summary_id s && s.owner.user_id == c.user_id in
    elim reason [
      | none ↦ delete_where mine rows
      | some why ↦
          if str_eq why ""
          then delete_where mine rows
          else update_where mine (λ s. record s { status = rejected; reason = some why }) rows
    ]

older : Summary → Summary → Bool
older r s = leb r.created_at s.created_at

unfoldable pub export_summaries : Owner → List Summary → List Summary
unfolding select_where sort_by older
export_summaries c rows =
    sort_by older
      (select_where (λ s. s.owner.user_id == c.user_id && s.owner.node_id == c.node_id) rows)
