-- ===== src/Deploy/Gate.antt =====
-- What a model has passed when it is deployed.
use algo_guard.Prelude.{ℕ, ◌≡◌, refl, true, Option, none, some, if_elim}
use algo_guard.Deploy.Tables.{Model, TrainingRun, get_model_result}
use algo_guard.Deploy.Artifact.{
  Artifact, stacking_deployment_eligibility, validate_stacking_artifact,
}
use algo_guard.Deploy.Promotion.{
  Content, readable, unreadable, Operation, Disk, Result, deployed, refused, World, stamped, stage,
  source_of, with_source, with_model, deploy_model,
}

-- The model is there and eligible, and the artifact at its path loads and is a valid Stacking one.
pub record HasPassed (op : Operation) (model_id : ℕ) (w : World) : Type 0 where
  pub model : Model
  pub run : Option TrainingRun
  pub artifact : Artifact
  pub model_found : get_model_result model_id w.tables ≡ some (model, run)
  pub eligible : stacking_deployment_eligibility op.workflow op.quality (model, run) ≡ true
  pub source_loads : source_of model.artifact_path w.files ≡ some (readable artifact)
  pub source_valid : validate_stacking_artifact op.workflow artifact ≡ true

abbrev pub WhenDeployed : Type 0 → Result × World → Type 0
WhenDeployed P (deployed, w) = P
WhenDeployed P (refused, w) = Unit

when_passed : (P : Type 0) (r : Result × World) → P → WhenDeployed P r
when_passed P (deployed, w) h = h
when_passed P (refused, w) h = tt

with_source-HasPassed :
    (op : Operation) (disk : Disk) (model_id admin : ℕ) (w : World) (m : Model)
    (run : Option TrainingRun) (o : Option Content)
    → get_model_result model_id w.tables ≡ some (m, run)
    → stacking_deployment_eligibility op.workflow op.quality (m, run) ≡ true
    → source_of m.artifact_path w.files ≡ o
    → WhenDeployed (HasPassed op model_id w) (with_source op disk admin w m o)
with_source-HasPassed op disk model_id admin w m run none e ok s = tt
with_source-HasPassed op disk model_id admin w m run (some unreadable) e ok s = tt
with_source-HasPassed op disk model_id admin w m run (some (readable a)) e ok s =
    if_elim (WhenDeployed (HasPassed op model_id w)) (validate_stacking_artifact op.workflow a)
      (λ valid.
        when_passed (HasPassed op model_id w) (stage op disk admin m (stamped op m a) w) (record {
          model = m;
          run = run;
          artifact = a;
          model_found = e;
          eligible = ok;
          source_loads = s;
          source_valid = valid;
        }))
      (λ _. tt)

with_model-HasPassed :
    (op : Operation) (disk : Disk) (model_id admin : ℕ) (w : World)
    (o : Option (Model × Option TrainingRun))
    → get_model_result model_id w.tables ≡ o
    → WhenDeployed (HasPassed op model_id w) (with_model op disk admin w o)
with_model-HasPassed op disk model_id admin w none e = tt
with_model-HasPassed op disk model_id admin w (some (m, run)) e =
    if_elim (WhenDeployed (HasPassed op model_id w))
      (stacking_deployment_eligibility op.workflow op.quality (m, run))
      (λ ok.
        with_source-HasPassed op disk model_id admin w m run (source_of m.artifact_path w.files) e
          ok refl)
      (λ _. tt)

-- A model is deployed only if its row is there and passes every check of
-- `stacking_deployment_eligibility`, and the artifact at its path loads and is a valid Stacking
-- artifact of the current workflow.
pub deploy_model-HasPassed :
    (op : Operation) (disk : Disk) (model_id admin : ℕ) (w : World)
    → WhenDeployed (HasPassed op model_id w) (deploy_model op disk model_id admin w)
unfolding deploy_model
deploy_model-HasPassed op disk model_id admin w =
    with_model-HasPassed op disk model_id admin w (get_model_result model_id w.tables) refl
