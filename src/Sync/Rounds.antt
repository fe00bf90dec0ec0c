-- ===== src/Sync/Rounds.antt =====
-- The rounds of an upload: their end, their batches and the failure that they raise.
use algo_guard.Prelude.{
  ℕ, zero, suc, ◌+◌, ◌*◌, ◌≤◌, ◌<◌, ◌≡◌, refl, ap, ◌∙◌, Bool, Option, none, some, List, [], ◌∷◌,
  ◌++◌, ltb, length, take, drop, length-take, length-drop, take-append-drop, All, All-mono, arith,
  if_elim, ◌⊎◌, inl, inr, true, false, ◌&&◌, ◌||◌, not, ◌==◌,
}
use algo_guard.Outbox.Spool.{Owner, Row, batch_limit, pending_rows}
use algo_guard.Sync.Store.{
  Failure, Server, cloud, storage, transient, authentication, permission, validation, conflict,
  not_found, protocol,
}
use algo_guard.Sync.Upload.{
  gravity, gravest, raised_of, store_parallel, store_batches, batches_of, split_batches,
  after_round, unless_empty, round_width, upload_loop, upload, max_batches,
}

abbrev pub joined : List (List Row) → List Row
joined [] = []
joined (b ∷ batches) = b ++ joined batches

abbrev pub IsBatch : List Row → Type 0
IsBatch batch = (1 ≤ length batch) × (length batch ≤ batch_limit)

batches_of-joined :
    (fuel : ℕ) (events : List Row) → length events ≤ fuel → joined (batches_of fuel events) ≡ events
unfolding batches_of
batches_of-joined zero [] h = refl
batches_of-joined zero (e ∷ events) h = absurd (omega arith)
batches_of-joined (suc fuel) [] h = refl
batches_of-joined (suc fuel) (e ∷ events) h =
    ap (λ (rest : List Row). take batch_limit (e ∷ events) ++ rest)
      (batches_of-joined fuel (drop batch_limit (e ∷ events))
        (omega (arith, length-drop batch_limit (e ∷ events))))
    ∙ take-append-drop batch_limit (e ∷ events)

batches_of-IsBatch : (fuel : ℕ) (events : List Row) → All IsBatch (batches_of fuel events)
unfolding batches_of
batches_of-IsBatch zero events = tt
batches_of-IsBatch (suc fuel) [] = tt
batches_of-IsBatch (suc fuel) (e ∷ events) =
    let n = length-take batch_limit (e ∷ events) in
    ((omega (arith, n), omega (arith, n)), batches_of-IsBatch fuel (drop batch_limit (e ∷ events)))

-- The batches of a round are its events, in order and each once, and none is empty or over 50.
pub split_batches-IsBatch :
    (events : List Row)
    → (joined (split_batches events) ≡ events) × All IsBatch (split_batches events)
unfolding split_batches
split_batches-IsBatch events = (
  batches_of-joined (length events) events (omega arith),
  batches_of-IsBatch (length events) events,
)

abbrev pub Ends : Option (Option Failure × List Row) → Type 0
Ends r = (end : Option Failure × List Row) × (r ≡ some end)

after_round-Ends :
    (short : Bool) (round : Option Failure × List Row) (rest : Option (Option Failure × List Row))
    → Ends rest
    → Ends (after_round short round rest)
unfolding after_round
after_round-Ends short (some f, rows) rest e = ((some f, rows), refl)
after_round-Ends short (none, rows) rest e = if_elim Ends short (λ _. ((none, rows), refl)) (λ _. e)

unless_empty-Ends :
    (events rows : List Row) (full : ℕ) (round : Option Failure × List Row)
    (rest : Option (Option Failure × List Row))
    → Ends rest
    → Ends (unless_empty events rows full round rest)
unfolding unless_empty
unless_empty-Ends [] rows full round rest e = ((none, rows), refl)
unless_empty-Ends (x ∷ events) rows full round rest e = after_round-Ends _ round rest e

module _ (servers : ℕ → Server) (c : Owner) (parallelism : ℕ) (pos : 0 < parallelism) where
  upload_loop-Ends :
      (fuel sent : ℕ) (rows : List Row)
      → max_batches ≤ sent + fuel
      → Ends (upload_loop servers c parallelism fuel sent rows)
  unfolding upload_loop round_width
  upload_loop-Ends zero sent rows enough =
      if_elim Ends (ltb sent max_batches) (λ h. absurd (ground arith)) (λ _. ((none, rows), refl))
  upload_loop-Ends (suc fuel) sent rows enough =
      if_elim Ends (ltb sent max_batches)
        (λ h.
          let width = round_width parallelism sent in
          let events = pending_rows c (width * batch_limit) rows in
          let round = store_parallel (servers sent) c (split_batches events) rows in
          unless_empty-Ends events rows (width * batch_limit) round
            (upload_loop servers c parallelism fuel (sent + width) round.1)
            (upload_loop-Ends fuel (sent + width) round.1 (ground arith)))
        (λ _. ((none, rows), refl))

  -- With at least one request at a time, an upload pass ends: ten turns of the loop are enough for
  -- any spool and any answers of the cloud.
  pub upload-Ends : (rows : List Row) → Ends (upload servers c parallelism rows)
  unfolding upload
  upload-Ends rows = upload_loop-Ends max_batches 0 rows (omega arith)

-- `f` is one of the failures, and none is graver.
abbrev pub OneOf : Failure → List Failure → Type 0
OneOf f [] = ⊥
OneOf f (g ∷ failures) = (f ≡ g) ⊎ OneOf f failures

-- Whether the cloud refuses for good, may still accept, or was not reached for the storage.
abbrev pub is_refusal : Failure → Bool
is_refusal (cloud transient) = false
is_refusal (cloud _) = true
is_refusal storage = false

abbrev pub is_passing : Failure → Bool
is_passing (cloud transient) = true
is_passing _ = false

abbrev pub is_local : Failure → Bool
is_local storage = true
is_local (cloud category) = false

-- A refusal of the cloud comes before all else, and a failure of the storage before what passes.
abbrev pub is_graver : Failure → Failure → Bool
is_graver g f = (is_refusal g && not (is_refusal f)) || (is_local g && is_passing f)

abbrev pub Gravest : List Failure → Failure → Type 0
Gravest failures f = OneOf f failures × All (λ g. is_graver g f ≡ false) failures

-- The same by the key of the source.
Least : List Failure → Failure → Type 0
Least failures f = OneOf f failures × All (λ g. gravity f ≤ gravity g) failures

kinds :
    (f : Failure)
    → (is_refusal f ≡ (gravity f == 0))
      × ((is_local f ≡ (gravity f == 1)) × (is_passing f ≡ (gravity f == 2)))
kinds storage = (refl, (refl, refl))
kinds (cloud transient) = (refl, (refl, refl))
kinds (cloud authentication) = (refl, (refl, refl))
kinds (cloud permission) = (refl, (refl, refl))
kinds (cloud validation) = (refl, (refl, refl))
kinds (cloud conflict) = (refl, (refl, refl))
kinds (cloud not_found) = (refl, (refl, refl))
kinds (cloud protocol) = (refl, (refl, refl))

gravity-is_graver : (f g : Failure) → gravity f ≤ gravity g → is_graver g f ≡ false
gravity-is_graver f g h = ground (arith, kinds f, kinds g)

widen :
    (f g h : Failure) (failures : List Failure)
    → OneOf h (f ∷ failures)
    → OneOf h (f ∷ g ∷ failures)
widen f g h failures (inl e) = inl e
widen f g h failures (inr one) = inr (inr one)

gravest-Least : (f : Failure) (failures : List Failure) → Least (f ∷ failures) (gravest f failures)
unfolding gravest Least
gravest-Least f [] = (inl refl, (omega arith, tt))
gravest-Least f (g ∷ failures) =
    if_elim (Least (f ∷ g ∷ failures)) (ltb (gravity g) (gravity f))
      (λ h.
        let least = gravest-Least g failures in (inr least.0, (ground (arith, least.1.0), least.1)))
      (λ h.
        let least = gravest-Least f failures in
        (widen f g _ failures least.0, (least.1.0, (ground (arith, least.1.0), least.1.1))))

-- When batches of a round fail, the round raises one of their failures, and none of them is
-- graver: a refusal of the cloud before a failure of the storage, that before a transient one.
pub store_parallel-Gravest :
    (server : Server) (c : Owner) (batches : List (List Row)) (rows : List Row)
    → (((store_batches server c batches rows).0 ≡ [])
        × ((store_parallel server c batches rows).0 ≡ none))
      ⊎ ((f : Failure) × ((store_parallel server c batches rows).0 ≡ some f)
          × Gravest (store_batches server c batches rows).0 f)
unfolding store_parallel raised_of Least
store_parallel-Gravest server c batches rows = go (store_batches server c batches rows).0
  where
    go :
        (failures : List Failure)
        → ((failures ≡ []) × (raised_of failures ≡ none))
          ⊎ ((f : Failure) × (raised_of failures ≡ some f) × Gravest failures f)
    go [] = inl (refl, refl)
    go (f ∷ failures) =
        let least = gravest-Least f failures in
        inr (
          gravest f failures,
          refl,
          (
            least.0,
            All-mono (λ g. gravity (gravest f failures) ≤ gravity g)
                (λ g. is_graver g (gravest f failures) ≡ false)
                (λ g. gravity-is_graver (gravest f failures) g) (f ∷ failures) least.1,
          ),
        )
