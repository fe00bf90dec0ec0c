-- ===== src/Deploy/Tests.antt =====
-- A model deployed in place of another.
use algo_guard.Prelude.{
  ℕ, ◌≡◌, ◌≢◌, refl, true, false, Option, none, some, [], ◌∷◌, String, String-discrete, str_eq_iff,
  str_eq,
}
use algo_guard.Prelude.Dict.{get, put, remove}
use algo_guard.Deploy.Tables.{Model}
use algo_guard.Deploy.Artifact.{Artifact, Classifier, Estimator, validate_stacking_artifact}
use algo_guard.Deploy.Promotion.{
  readable, Operation, Disk, World, deploy_model, load_active_artifact,
}
use algo_guard.Deploy.Atomic.{Outcome, deploy_model-Outcome}
use algo_guard.Deploy.Gate.{HasPassed, WhenDeployed, deploy_model-HasPassed}

abbrev any_class : Estimator
any_class = record { instance_of = λ class. true }

abbrev stack : Classifier
stack = record {
  estimators = some (
      ("random_forest", any_class)
      ∷ ("gradient_boosting", any_class)
      ∷ ("adaboost", any_class)
      ∷ ("knn", any_class)
      ∷ ("naive_bayes", any_class)
      ∷ []);
  final_estimator = any_class;
  stack_method = "predict_proba";
  is_fitted = true;
  fitted_estimators = some 5;
  fitted_final_estimator = any_class;
}

abbrev artifact : Artifact
artifact = record {
  model_id = some "stacking";
  model_name = "Stacking Ensemble";
  model_type = "ensemble";
  workflow_version = some "6";
  pipeline = some (some stack);
  database_model_id = none;
  source_run_id = none;
  deployment_timestamp = none;
}

abbrev model : Model
model = record {
  model_id = 7;
  run_id = 3;
  model_name = "Stacking Ensemble";
  model_type = "ensemble";
  version = "6";
  evaluation_status = "completed";
  accuracy = some 97;
  f1_score = some 96;
  roc_auc = some 99;
  artifact_path = some "runs/3.joblib";
  is_deployed = false;
  deployed_at = none;
}

abbrev world : World
world = record {
  files = ("runs/3.joblib", readable artifact) ∷ ("active.old.joblib", readable artifact) ∷ [];
  tables = record {
    models = model ∷ [];
    runs = record { run_id = 3; training_status = "completed"; deployment_status = "pending" } ∷ [];
    deployments =
        record {
          deployment_id = 4;
          model_id = 7;
          run_id = 3;
          deployed_by = 1;
          artifact_path = "active.old.joblib";
          deployed_at = 10;
          is_active = true;
          replaced_deployment_id = none;
        }
        ∷ [];
    last_deployment_id = 5;
  };
}

abbrev operation : Operation
operation = record {
  workflow = "6";
  quality = record { accuracy = 90; f1_score = 90; roc_auc = 90 };
  published_path = "active.new.joblib";
  temporary_path = "active.new.joblib.tmp";
  now = 20;
}

abbrev disk : Disk
disk = record {
  dumped = λ a. some (readable a);
  dump_works = true;
  replace_works = true;
  record_works = true;
  remove_works = true;
}

abbrev id_in : Option Artifact → Option ℕ
id_in none = none
id_in (some a) = a.database_model_id

loaded :
    id_in (load_active_artifact "6" "active.joblib" (deploy_model operation disk 7 1 world).1)
    ≡ some 7
unfolding load_active_artifact deploy_model get String-discrete put remove
    validate_stacking_artifact
loaded = refl

apart : (s t : String) → str_eq s t ≡ false → s ≢ t
apart s t h e = cc (h, (str_eq_iff s t).1 e)

deploy_model-Outcome_example :
    Outcome operation "active.old.joblib" world (deploy_model operation disk 7 1 world)
deploy_model-Outcome_example =
    deploy_model-Outcome operation disk 7 1 world "active.old.joblib"
      (apart "active.new.joblib" "active.new.joblib.tmp" refl)
      (apart "active.old.joblib" "active.new.joblib" refl)
      (apart "active.old.joblib" "active.new.joblib.tmp" refl)

deploy_model-HasPassed_example :
    WhenDeployed (HasPassed operation 7 world) (deploy_model operation disk 7 1 world)
deploy_model-HasPassed_example = deploy_model-HasPassed operation disk 7 1 world
