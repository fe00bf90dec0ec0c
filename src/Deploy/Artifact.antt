-- ===== src/Deploy/Artifact.antt =====
-- What may be deployed: `stacking_deployment_eligibility` and `_validate_stacking_artifact`. What
-- scikit-learn tells of an estimator is in the records. `false` is a refusal; messages are left out.
use algo_guard.Prelude.{
  ℕ, Bool, true, false, ◌&&◌, Option, none, some, List, [], ◌∷◌, String, leb, ◌==◌, str_eq,
  String-discrete,
}
use algo_guard.Prelude.Dict.{Dict, put}
use algo_guard.Deploy.Tables.{Model, TrainingRun}

-- STACKING_MODEL_ID, STACKING_MODEL_NAME, and the version of the workflow
abbrev pub stacking_model_id : String
stacking_model_id = "stacking"

abbrev pub stacking_model_name : String
stacking_model_name = "Stacking Ensemble"

-- The thresholds of the configuration, in the unit of the metrics.
pub record Quality : Type 0 where
  pub accuracy : ℕ
  pub f1_score : ℕ
  pub roc_auc : ℕ

-- One pass of the loop over the thresholds appends nothing to `failures`.
abbrev pub reaches : Option ℕ → ℕ → Bool
reaches none minimum = false
reaches (some value) minimum = leb minimum value

abbrev pub run_completed : Option TrainingRun → Bool
run_completed none = false
run_completed (some r) = str_eq r.training_status "completed"

-- stacking_deployment_eligibility(model), by MODEL_WORKFLOW_VERSION
unfoldable pub stacking_deployment_eligibility :
    String → Quality → Model × Option TrainingRun → Bool
stacking_deployment_eligibility workflow q (m, run) =
    str_eq m.model_name stacking_model_name
    && (str_eq m.version workflow
        && (run_completed run
            && (str_eq m.evaluation_status "completed"
                && (reaches m.accuracy q.accuracy
                    && (reaches m.f1_score q.f1_score && reaches m.roc_auc q.roc_auc)))))

-- An estimator, by the classes that it is an instance of.
pub record Estimator : Type 0 where
  pub instance_of : String → Bool

pub record Classifier : Type 0 where
  pub estimators : Option (List (String × Estimator))
  pub final_estimator : Estimator
  pub stack_method : String
  pub is_fitted : Bool
  pub fitted_estimators : Option ℕ
  pub fitted_final_estimator : Estimator

-- `pipeline` is none unless it is a Pipeline; its step is none unless it is a StackingClassifier.
pub record Artifact : Type 0 where
  pub model_id : Option String
  pub model_name : String
  pub model_type : String
  pub workflow_version : Option String
  pub pipeline : Option (Option Classifier)
  pub database_model_id : Option ℕ
  pub source_run_id : Option ℕ
  pub deployment_timestamp : Option ℕ

-- INDIVIDUAL_MODEL_IDS, with the classes of `build_individual_estimators`
abbrev pub individual_models : List (String × String)
individual_models =
    ("random_forest", "RandomForestClassifier")
    ∷ ("gradient_boosting", "GradientBoostingClassifier")
    ∷ ("adaboost", "AdaBoostClassifier")
    ∷ ("knn", "KNeighborsClassifier")
    ∷ ("naive_bayes", "GaussianNB")
    ∷ []

-- The configured base models are the five, in order, each of its class.
unfoldable pub are_base_models : List (String × Estimator) → List (String × String) → Bool
are_base_models [] [] = true
are_base_models ((id, e) ∷ estimators) ((expected, class) ∷ models) =
    (str_eq id expected && e.instance_of class) && are_base_models estimators models
are_base_models _ _ = false

abbrev pub is_text : Option String → String → Bool
is_text none expected = false
is_text (some s) expected = str_eq s expected

-- dict(estimator_configuration): a name that comes again keeps its place and takes the later value.
unfoldable pub dict_of : List (String × Estimator) → Dict String Estimator → Dict String Estimator
dict_of [] d = d
dict_of ((name, e) ∷ estimators) d = dict_of estimators (put String-discrete name e d)

unfoldable pub base_models_configured : Option (List (String × Estimator)) → Bool
unfolding dict_of are_base_models
base_models_configured none = false
base_models_configured (some estimators) = are_base_models (dict_of estimators []) individual_models

abbrev pub all_fitted : Option ℕ → Bool
all_fitted none = false
all_fitted (some n) = n == 5

unfoldable pub is_stack : Classifier → Bool
unfolding base_models_configured
is_stack c =
    base_models_configured c.estimators
    && (c.final_estimator.instance_of "LogisticRegression"
        && (str_eq c.stack_method "predict_proba"
            && (c.is_fitted
                && (all_fitted c.fitted_estimators
                    && c.fitted_final_estimator.instance_of "LogisticRegression"))))

unfoldable pub is_stack_pipeline : Option (Option Classifier) → Bool
unfolding is_stack
is_stack_pipeline (some (some c)) = is_stack c
is_stack_pipeline _ = false

-- _validate_stacking_artifact(artifact)
unfoldable pub validate_stacking_artifact : String → Artifact → Bool
unfolding is_stack_pipeline
validate_stacking_artifact workflow a =
    is_text a.model_id stacking_model_id
    && (str_eq a.model_name stacking_model_name
        && (is_text a.workflow_version workflow && is_stack_pipeline a.pipeline))
