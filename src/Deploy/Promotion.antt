-- ===== src/Deploy/Promotion.antt =====
-- `_deploy_model_unlocked` and `load_active_artifact` over the files and the tables.
use algo_guard.Prelude.{
  ℕ, Bool, false, ◌&&◌, Option, none, some, String, ◌==◌, str_eq, if◌then◌else◌, String-discrete,
}
use algo_guard.Prelude.Dict.{Dict, get, put, remove}
use algo_guard.Deploy.Tables.{
  Model, TrainingRun, Deployment, Tables, get_model_result, record_deployment,
  get_active_deployment,
}
use algo_guard.Deploy.Artifact.{
  Artifact, Quality, stacking_model_name, stacking_deployment_eligibility,
  validate_stacking_artifact,
}

-- What `joblib.load` finds in a file.
pub data Content : Type 0 where
  readable : Artifact → Content
  unreadable : Content

abbrev pub Files : Type 0
Files = Dict String Content

-- The configuration, the paths of this operation, which hold a new UUID, and the clock.
pub record Operation : Type 0 where
  pub workflow : String
  pub quality : Quality
  pub published_path : String
  pub temporary_path : String
  pub now : ℕ

-- What the disk and the database do: the file that `joblib.dump` leaves and whether it raises, and
-- whether `os.replace`, the transaction and each removal work.
pub record Disk : Type 0 where
  pub dumped : Artifact → Option Content
  pub dump_works : Bool
  pub replace_works : Bool
  pub record_works : Bool
  pub remove_works : Bool

-- `refused` is a DeploymentError.
pub data Result : Type 0 where
  deployed refused : Result

pub record World : Type 0 where
  pub files : Files
  pub tables : Tables

-- _remove_temporary_file(path)
unfoldable pub remove_temporary_file : Disk → String → Files → Files
remove_temporary_file disk path files =
    if disk.remove_works then remove String-discrete path files else files

-- The fields that are written into the artifact.
abbrev pub stamped : Operation → Model → Artifact → Artifact
stamped op m a = record a {
  database_model_id = some m.model_id;
  source_run_id = some m.run_id;
  model_name = m.model_name;
  model_type = m.model_type;
  deployment_timestamp = some op.now;
}

abbrev pub refuse : World → Result × World
refuse w = (refused, w)

abbrev pub with_files : World → Files → World
with_files w files = record w { files = files }

abbrev pub place : String → Option Content → Files → Files
place path none files = files
place path (some content) files = put String-discrete path content files

-- The staged file is activated.
unfoldable pub publish_artifact : Operation → Disk → ℕ → Model → Content → World → Result × World
unfolding remove_temporary_file record_deployment
publish_artifact op disk admin m content w =
    let clean = remove_temporary_file disk op.temporary_path in
    let unpublish = remove_temporary_file disk op.published_path in
    let moved =
      put String-discrete op.published_path content
        (remove String-discrete op.temporary_path w.files) in
    if disk.replace_works
    then if disk.record_works
      then (
        deployed,
        record {
          files = clean moved;
          tables = record_deployment m.model_id m.run_id admin op.published_path op.now w.tables;
        },
      )
      else refuse (with_files w (clean (unpublish moved)))
    else refuse (with_files w (clean (unpublish w.files)))

abbrev pub is_valid : String → Option Content → Bool
is_valid workflow (some (readable a)) = validate_stacking_artifact workflow a
is_valid workflow _ = false

-- The artifact is written to the temporary file, which is read again and validated.
abbrev pub publish_or :
    Result × World → Option Content → (Content → Result × World) → Result × World
publish_or otherwise none next = otherwise
publish_or otherwise (some content) next = next content

unfoldable pub stage : Operation → Disk → ℕ → Model → Artifact → World → Result × World
unfolding remove_temporary_file publish_artifact
stage op disk admin m a w =
    let staged = place op.temporary_path (disk.dumped a) w.files in
    let content = get String-discrete op.temporary_path staged in
    let cleaned = refuse (with_files w (remove_temporary_file disk op.temporary_path staged)) in
    if disk.dump_works && is_valid op.workflow content
    then publish_or cleaned content (λ c. publish_artifact op disk admin m c (with_files w staged))
    else cleaned

-- The artifact of the model: its path is there, and it loads.
abbrev pub source_of : Option String → Files → Option Content
source_of none files = none
source_of (some path) files = if str_eq path "" then none else get String-discrete path files

abbrev pub with_source : Operation → Disk → ℕ → World → Model → Option Content → Result × World
with_source op disk admin w m none = refuse w
with_source op disk admin w m (some unreadable) = refuse w
with_source op disk admin w m (some (readable a)) =
    if validate_stacking_artifact op.workflow a
    then stage op disk admin m (stamped op m a) w
    else refuse w

abbrev pub with_model :
    Operation → Disk → ℕ → World → Option (Model × Option TrainingRun) → Result × World
with_model op disk admin w none = refuse w
with_model op disk admin w (some (m, run)) =
    if stacking_deployment_eligibility op.workflow op.quality (m, run)
    then with_source op disk admin w m (source_of m.artifact_path w.files)
    else refuse w

-- deploy_model(model_id, admin_id)
unfoldable pub deploy_model : Operation → Disk → ℕ → ℕ → World → Result × World
unfolding stage stacking_deployment_eligibility validate_stacking_artifact get_model_result
deploy_model op disk model_id admin w =
    with_model op disk admin w (get_model_result model_id w.tables)

abbrev pub matching : String → ℕ → Option Content → Option Artifact
matching workflow model_id none = none
matching workflow model_id (some unreadable) = none
matching workflow model_id (some (readable a)) = elim a.database_model_id [
  | none ↦ none
  | some id ↦ if validate_stacking_artifact workflow a && id == model_id then some a else none
]

abbrev pub path_or : String → String → String
path_or path otherwise = if str_eq path "" then otherwise else path

abbrev pub active_artifact : String → String → Files → Option (Deployment × Model) → Option Artifact
active_artifact workflow active_model_path files none = none
active_artifact workflow active_model_path files (some (d, m)) =
    if str_eq m.model_name stacking_model_name
    then matching workflow d.model_id
        (get String-discrete (path_or d.artifact_path active_model_path) files)
    else none

-- load_active_artifact(); none is a DeploymentError
unfoldable pub load_active_artifact : String → String → World → Option Artifact
unfolding validate_stacking_artifact get_active_deployment
load_active_artifact workflow active_model_path w =
    active_artifact workflow active_model_path w.files (get_active_deployment w.tables)
