-- ===== src/Monitor/Batches.antt =====
-- The batch that is read before a scoring call.
use algo_guard.Prelude.{
  ℕ, suc, ◌≤◌, ◌≡◌, sym, ◌∙◌, Bool, true, false, ◌&&◌, List, [], ◌∷◌, ◌++◌, take, length,
  length-append, ltb, arith, if_elim, if◌then◌else◌,
}
use algo_guard.Monitor.Loop.{
  max_batch, Got, got_event, got_nothing, got_end, got_cancelled, Poll, collect_loop, collect_batch,
}
use mathlib.Core.List.{append_assoc, append-nil}

module _ {ℓ} {A : Type ℓ} where
  abbrev pub with_got : Got A → List A → List A
  with_got (got_event e) rest = e ∷ rest
  with_got got_nothing rest = rest
  with_got got_end rest = rest
  with_got got_cancelled rest = rest

  -- What the source would give.
  abbrev pub events_of : List (Poll A) → List A
  events_of [] = []
  events_of (poll ∷ polls) = with_got poll.got (events_of polls)

  -- At most `max_batch` events: those read, in order, up to some point, with nothing between lost.
  abbrev pub IsBatch : List A → List A → List A → Type ℓ
  IsBatch batch source r = (length r ≤ max_batch) × ((k : ℕ) × (r ≡ batch ++ take k source))

  stay-IsBatch : (batch source : List A) → length batch ≤ max_batch → IsBatch batch source batch
  stay-IsBatch batch source h = (h, (0, sym (append-nil batch)))

  more-IsBatch :
      (batch source : List A) (e : A) (r : List A)
      → IsBatch (batch ++ e ∷ []) source r
      → IsBatch batch (e ∷ source) r
  more-IsBatch batch source e r (h, (k, eq)) =
      (h, (suc k, eq ∙ append_assoc batch (e ∷ []) (take k source)))

  collect_loop-IsBatch :
      (batch : List A) (polls : List (Poll A))
      → length batch ≤ max_batch
      → IsBatch batch (events_of polls) (collect_loop batch polls).0
  unfolding collect_loop
  collect_loop-IsBatch batch [] h = stay-IsBatch batch [] h
  collect_loop-IsBatch batch (poll ∷ polls) h =
      if_elim (λ (r : List A × Bool). IsBatch batch (events_of (poll ∷ polls)) r.0)
        (ltb (length batch) max_batch && (poll.in_window && poll.backlog))
        (λ go. by_got poll.got (collect_loop-IsBatch batch polls h) (λ e.
          collect_loop-IsBatch (batch ++ e ∷ []) polls
            (ground (arith, go, length-append batch (e ∷ [])))))
        (λ _. stay-IsBatch batch _ h)
    where
      by_got :
          (g : Got A)
          → IsBatch batch (events_of polls) (collect_loop batch polls).0
          → ((e : A)
              → IsBatch
                  (batch ++ e ∷ [])
                  (events_of polls)
                  (collect_loop (batch ++ e ∷ []) polls).0)
          → IsBatch batch
              (with_got g (events_of polls))
              (elim g as (λ _. List A × Bool) [
                | got_event e ↦ collect_loop (batch ++ e ∷ []) polls
                | got_nothing ↦ collect_loop batch polls
                | got_end ↦ (batch, true)
                | got_cancelled ↦ (batch, false)
              ]).0
      by_got (got_event e) without next = more-IsBatch batch (events_of polls) e _ (next e)
      by_got got_nothing without next = without
      by_got got_end without next = stay-IsBatch batch _ h
      by_got got_cancelled without next = stay-IsBatch batch _ h

  -- A batch is its first event and the events that the source gives next, in order and none left
  -- out between them; it has at most 64 events, and one in a paced replay.
  pub collect_batch-IsBatch :
      (pacing : Bool) (first : A) (polls : List (Poll A))
      → IsBatch (first ∷ []) (events_of polls) (collect_batch pacing first polls).0
        × (length (collect_batch pacing first polls).0 ≤ (if pacing then 1 else max_batch))
  unfolding collect_batch
  collect_batch-IsBatch true first polls =
      (stay-IsBatch (first ∷ []) (events_of polls) (omega arith), omega arith)
  collect_batch-IsBatch false first polls =
      let b = collect_loop-IsBatch (first ∷ []) polls (omega arith) in (b, b.0)
