-- ===== src/Deploy/Atomic.antt =====
-- A deployment happens whole or not at all.
use algo_guard.Prelude.{
  ℕ, ◌≡◌, ◌≢◌, refl, ap, ◌∙◌, true, ◌&&◌, Option, none, some, String, if_elim, arith,
  String-discrete,
}
use algo_guard.Prelude.Dict.{get, put, remove, get-put, get-remove}
use algo_guard.Deploy.Tables.{Model, TrainingRun, get_model_result}
use algo_guard.Deploy.Artifact.{
  Artifact, stacking_deployment_eligibility, validate_stacking_artifact,
}
use algo_guard.Deploy.History.{IsRecorded, record_deployment-IsRecorded}
use algo_guard.Deploy.Promotion.{
  Content, readable, unreadable, Files, Operation, Disk, Result, deployed, refused, World,
  remove_temporary_file, stamped, refuse, with_files, place, publish_artifact, is_valid, publish_or,
  stage, source_of, with_source, with_model, deploy_model,
}

-- What a call may have done to the world `w`: recorded a valid artifact at its path, or nothing to
-- the tables; another path holds what it held.
abbrev pub Outcome : Operation → String → World → Result × World → Type 0
Outcome op path w (deployed, w') =
    IsRecorded op.published_path w.tables w'.tables
    × ((is_valid op.workflow (get String-discrete op.published_path w'.files) ≡ true)
        × (get String-discrete path w'.files ≡ get String-discrete path w.files))
Outcome op path w (refused, w') =
    (w'.tables ≡ w.tables) × (get String-discrete path w'.files ≡ get String-discrete path w.files)

module _ (op : Operation) (path : String) (p : path ≢ op.published_path)
    (q : path ≢ op.temporary_path) where
  get-removed :
      (disk : Disk) (other : String) (files : Files)
      → path ≢ other
      → get String-discrete path (remove_temporary_file disk other files)
        ≡ get String-discrete path files
  unfolding remove_temporary_file
  get-removed disk other files n = ground (arith, get-remove String-discrete other path files)

  get-place :
      (other : String) (o : Option Content) (files : Files)
      → path ≢ other
      → get String-discrete path (place other o files) ≡ get String-discrete path files
  get-place other none files n = refl
  get-place other (some content) files n =
      ground (arith, get-put String-discrete other path content files)

  get-moved :
      (content : Content) (files : Files)
      → get String-discrete path (
          put String-discrete op.published_path content
            (remove String-discrete op.temporary_path files))
        ≡ get String-discrete path files
  get-moved content files = ground (
    arith,
    get-put String-discrete op.published_path path content
        (remove String-discrete op.temporary_path files),
    get-remove String-discrete op.temporary_path path files,
  )

  module _ (apart : op.published_path ≢ op.temporary_path) where
    get-published :
        (disk : Disk) (content : Content) (files : Files)
        → get String-discrete op.published_path (
            remove_temporary_file disk op.temporary_path (
              put String-discrete op.published_path content
                (remove String-discrete op.temporary_path files)))
          ≡ some content
    unfolding remove_temporary_file
    get-published disk content files =
        let removed = remove String-discrete op.temporary_path files in
        ground (
          arith,
          get-remove String-discrete op.temporary_path op.published_path
              (put String-discrete op.published_path content removed),
          get-put String-discrete op.published_path op.published_path content removed,
        )

    publish_artifact-Outcome :
        (disk : Disk) (admin : ℕ) (m : Model) (content : Content) (w : World)
        → is_valid op.workflow (some content) ≡ true
        → Outcome op path w (publish_artifact op disk admin m content w)
    unfolding publish_artifact
    publish_artifact-Outcome disk admin m content w valid =
        let moved =
          put String-discrete op.published_path content
            (remove String-discrete op.temporary_path w.files) in
        let unpublished = remove_temporary_file disk op.published_path moved in
        if_elim (Outcome op path w) disk.replace_works
          (λ _.
            if_elim (Outcome op path w) disk.record_works
              (λ _. (
                record_deployment-IsRecorded m.model_id m.run_id admin op.published_path op.now
                    w.tables,
                (
                  ap (is_valid op.workflow) (get-published disk content w.files) ∙ valid,
                  get-removed disk op.temporary_path moved q ∙ get-moved content w.files,
                ),
              ))
              (λ _. (
                refl,
                get-removed disk op.temporary_path unpublished q
                    ∙ get-removed disk op.published_path moved p
                    ∙ get-moved content w.files,
              )))
          (λ _. (
            refl,
            get-removed disk op.temporary_path
                  (remove_temporary_file disk op.published_path w.files) q
                ∙ get-removed disk op.published_path w.files p,
          ))

    -- The staged file does not concern the other paths.
    staged-Outcome :
        (w : World) (files : Files) (r : Result × World)
        → get String-discrete path files ≡ get String-discrete path w.files
        → Outcome op path (with_files w files) r
        → Outcome op path w r
    staged-Outcome w files (deployed, w') same (h, (valid, kept)) = (h, (valid, kept ∙ same))
    staged-Outcome w files (refused, w') same (h, kept) = (h, kept ∙ same)

    publish_or-Outcome :
        (w : World) (otherwise : Result × World) (o : Option Content)
        (next : Content → Result × World)
        → is_valid op.workflow o ≡ true
        → Outcome op path w otherwise
        → ((c : Content) → is_valid op.workflow (some c) ≡ true → Outcome op path w (next c))
        → Outcome op path w (publish_or otherwise o next)
    publish_or-Outcome w otherwise none next valid h f = h
    publish_or-Outcome w otherwise (some c) next valid h f = f c valid

    stage-Outcome :
        (disk : Disk) (admin : ℕ) (m : Model) (a : Artifact) (w : World)
        → Outcome op path w (stage op disk admin m a w)
    unfolding stage
    stage-Outcome disk admin m a w =
        let staged = place op.temporary_path (disk.dumped a) w.files in
        let content = get String-discrete op.temporary_path staged in
        let same = get-place op.temporary_path (disk.dumped a) w.files q in
        let cleaned = refuse (with_files w (remove_temporary_file disk op.temporary_path staged)) in
        let clean : Outcome op path w cleaned =
          (refl, get-removed disk op.temporary_path staged q ∙ same) in
        if_elim (Outcome op path w) (disk.dump_works && is_valid op.workflow content)
          (λ ok.
            publish_or-Outcome w cleaned content
              (λ c. publish_artifact op disk admin m c (with_files w staged)) (ground (arith, ok))
              clean
              (λ c valid.
                staged-Outcome w staged (publish_artifact op disk admin m c (with_files w staged))
                  same (publish_artifact-Outcome disk admin m c (with_files w staged) valid)))
          (λ _. clean)

    with_source-Outcome :
        (disk : Disk) (admin : ℕ) (w : World) (m : Model) (o : Option Content)
        → Outcome op path w (with_source op disk admin w m o)
    with_source-Outcome disk admin w m none = (refl, refl)
    with_source-Outcome disk admin w m (some unreadable) = (refl, refl)
    with_source-Outcome disk admin w m (some (readable a)) =
        if_elim (Outcome op path w) (validate_stacking_artifact op.workflow a)
          (λ _. stage-Outcome disk admin m (stamped op m a) w) (λ _. (refl, refl))

    with_model-Outcome :
        (disk : Disk) (admin : ℕ) (w : World) (o : Option (Model × Option TrainingRun))
        → Outcome op path w (with_model op disk admin w o)
    with_model-Outcome disk admin w none = (refl, refl)
    with_model-Outcome disk admin w (some (m, run)) =
        if_elim (Outcome op path w)
          (stacking_deployment_eligibility op.workflow op.quality (m, run))
          (λ _. with_source-Outcome disk admin w m (source_of m.artifact_path w.files))
          (λ _. (refl, refl))

-- Whatever the disk and the database do, a deployment that is refused leaves the tables as they
-- were, and one that succeeds is recorded as the only active deployment at a path that holds a
-- readable and valid Stacking artifact; any path but the two of the operation, which differ, holds
-- what it held before.
pub deploy_model-Outcome :
    (op : Operation) (disk : Disk) (model_id admin : ℕ) (w : World) (path : String)
    → op.published_path ≢ op.temporary_path
    → path ≢ op.published_path
    → path ≢ op.temporary_path
    → Outcome op path w (deploy_model op disk model_id admin w)
unfolding deploy_model
deploy_model-Outcome op disk model_id admin w path apart p q =
    with_model-Outcome op path p q apart disk admin w (get_model_result model_id w.tables)
