-- ===== src/Deploy/Tables.antt =====
-- `get_model_result`, `record_deployment` and `get_active_deployment` over the rows they read and
-- write.
use algo_guard.Prelude.{
  ℕ, ◌+◌, Bool, true, false, Option, none, some, List, [], ◌∷◌, ◌++◌, String, ltb, ◌==◌, max,
  if◌then◌else◌, map,
}

-- A row of `detection_model`; a metric is none unless it is a finite number.
pub record Model : Type 0 where
  pub model_id : ℕ
  pub run_id : ℕ
  pub model_name : String
  pub model_type : String
  pub version : String
  pub evaluation_status : String
  pub accuracy : Option ℕ
  pub f1_score : Option ℕ
  pub roc_auc : Option ℕ
  pub artifact_path : Option String
  pub is_deployed : Bool
  pub deployed_at : Option ℕ

pub record TrainingRun : Type 0 where
  pub run_id : ℕ
  pub training_status : String
  pub deployment_status : String

pub record Deployment : Type 0 where
  pub deployment_id : ℕ
  pub model_id : ℕ
  pub run_id : ℕ
  pub deployed_by : ℕ
  pub artifact_path : String
  pub deployed_at : ℕ
  pub is_active : Bool
  pub replaced_deployment_id : Option ℕ

-- `last_deployment_id` is what SQLite remembers of an AUTOINCREMENT key: the greatest id ever given.
pub record Tables : Type 0 where
  pub models : List Model
  pub runs : List TrainingRun
  pub deployments : List Deployment
  pub last_deployment_id : ℕ

unfoldable pub find_model : ℕ → List Model → Option Model
find_model id [] = none
find_model id (m ∷ models) =
    let rest = find_model id models in if m.model_id == id then some m else rest

unfoldable pub find_run : ℕ → List TrainingRun → Option TrainingRun
find_run id [] = none
find_run id (r ∷ runs) = let rest = find_run id runs in if r.run_id == id then some r else rest

-- get_model_result(model_id): the row, with the status of its run
unfoldable pub get_model_result : ℕ → Tables → Option (Model × Option TrainingRun)
unfolding find_model find_run
get_model_result id t = elim (find_model id t.models) [
  | none ↦ none
  | some m ↦ some (m, find_run m.run_id t.runs)
]

-- SELECT * FROM model_deployment WHERE is_active = 1 LIMIT 1
unfoldable pub first_active : List Deployment → Option Deployment
first_active [] = none
first_active (d ∷ deployments) =
    let rest = first_active deployments in if d.is_active then some d else rest

abbrev pub deactivate : Deployment → Deployment
deactivate d = record d { is_active = false }

abbrev pub undeploy : Model → Model
undeploy m = record m { is_deployed = false }

abbrev pub set_status : ℕ → String → TrainingRun → TrainingRun
set_status id status r = if r.run_id == id then record r { deployment_status = status } else r

abbrev pub replace_run : Option Deployment → List TrainingRun → List TrainingRun
replace_run none runs = runs
replace_run (some previous) runs = map (set_status previous.run_id "replaced") runs

abbrev pub mark_deployed : ℕ → ℕ → Model → Model
mark_deployed id now m =
    if m.model_id == id then record m { is_deployed = true; deployed_at = some now } else m

abbrev pub id_of : Option Deployment → Option ℕ
id_of none = none
id_of (some d) = some d.deployment_id

-- The greatest id of the rows.
unfoldable pub largest_id : List Deployment → ℕ
largest_id [] = 0
largest_id (d ∷ deployments) = max d.deployment_id (largest_id deployments)

-- The id that SQLite gives to the next row: an AUTOINCREMENT key is not given twice.
abbrev pub next_id : Tables → ℕ
next_id t = max t.last_deployment_id (largest_id t.deployments) + 1

abbrev pub new_deployment : ℕ → ℕ → ℕ → String → ℕ → Tables → Deployment
new_deployment model_id run_id deployed_by path now t = record {
  deployment_id = next_id t;
  model_id = model_id;
  run_id = run_id;
  deployed_by = deployed_by;
  artifact_path = path;
  deployed_at = now;
  is_active = true;
  replaced_deployment_id = id_of (first_active t.deployments);
}

-- record_deployment(model_id, run_id, deployed_by, artifact_path): the tables when the transaction
-- is committed
unfoldable pub record_deployment : ℕ → ℕ → ℕ → String → ℕ → Tables → Tables
unfolding first_active largest_id
record_deployment model_id run_id deployed_by path now t = record {
  models = map (mark_deployed model_id now) (map undeploy t.models);
  runs = map (set_status run_id "deployed") (replace_run (first_active t.deployments) t.runs);
  deployments =
      map deactivate t.deployments ++ new_deployment model_id run_id deployed_by path now t ∷ [];
  last_deployment_id = next_id t;
}

-- A deployment that is active, joined with its model and its run.
abbrev pub joined :
    Tables → Deployment → Option Model → Option TrainingRun → Option (Deployment × Model)
joined t d (some m) (some r) = if d.is_active then some (d, m) else none
joined t d m r = none

abbrev pub newer_of :
    Option (Deployment × Model) → Option (Deployment × Model) → Option (Deployment × Model)
newer_of none later = later
newer_of (some x) none = some x
newer_of (some x) (some y) = if ltb y.0.deployment_id x.0.deployment_id then some x else some y

unfoldable pub newest_active : Tables → List Deployment → Option (Deployment × Model)
unfolding find_model find_run
newest_active t [] = none
newest_active t (d ∷ deployments) =
    newer_of (joined t d (find_model d.model_id t.models) (find_run d.run_id t.runs))
      (newest_active t deployments)

-- get_active_deployment()
unfoldable pub get_active_deployment : Tables → Option (Deployment × Model)
unfolding newest_active
get_active_deployment t = newest_active t t.deployments
