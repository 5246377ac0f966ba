-- ===== src/Control/Database.antt =====
-- The rows that the control plane keeps (supabase/migrations), and requests as actions on them. An
-- identifier is only compared, so it is a number; a time is a number of milliseconds.
use dev_ops_deployment_tool.Common.{
  ℕ, Bool, true, false, Option, none, some, List, String, if◌then◌else◌,
}
use dev_ops_deployment_tool.Status.Pipeline.{PipelineRunStatus}
use dev_ops_deployment_tool.Status.Task.{TaskRunStatus}
use dev_ops_deployment_tool.Status.Step.{StepRunStatus}

pub record Project : Type 0 where
  pub id : ℕ
  pub org_id : ℕ

pub data RunnerStatus : Type 0 where
  online offline busy : RunnerStatus

-- `runner_registrations`
pub record Runner : Type 0 where
  pub id : ℕ
  pub org_id : ℕ
  pub token_hash : ℕ
  pub current_job_id : Option ℕ
  pub status : RunnerStatus
  pub last_heartbeat_at : Option ℕ

pub record VersionStep : Type 0 where
  pub name : String
  pub command : String

pub record VersionTask : Type 0 where
  pub depends_on : List String
  pub approval_required : Option Bool
  pub required_approvals : Option ℕ
  pub steps : List VersionStep

-- `pipeline_definition_versions`, with the tasks of `config_json` in their order.
pub record Version : Type 0 where
  pub id : ℕ
  pub tasks : List (String × VersionTask)

-- `pipeline_runs`
pub record Run : Type 0 where
  pub id : ℕ
  pub project_id : ℕ
  pub pipeline_version_id : ℕ
  pub status : PipelineRunStatus
  pub runner_id : Option ℕ
  pub target_runner_id : Option ℕ
  pub git_sha : Option String
  pub started_at : Option ℕ
  pub finished_at : Option ℕ
  pub updated_at : ℕ

-- `task_runs`
pub record TaskRun : Type 0 where
  pub id : ℕ
  pub pipeline_run_id : ℕ
  pub task_name : String
  pub status : TaskRunStatus
  pub sort_order : ℕ
  pub depends_on : List String
  pub approval_required : Bool
  pub started_at : Option ℕ
  pub finished_at : Option ℕ

-- `step_runs`
pub record StepRun : Type 0 where
  pub id : ℕ
  pub task_run_id : ℕ
  pub step_name : String
  pub status : StepRunStatus
  pub sort_order : ℕ
  pub command : String
  pub exit_code : Option ℕ
  pub started_at : Option ℕ
  pub finished_at : Option ℕ

pub data ApprovalStatus : Type 0 where
  pending approved rejected : ApprovalStatus

-- `deployment_approvals`
pub record Approval : Type 0 where
  pub task_run_id : ℕ
  pub required_approvals : ℕ
  pub status : ApprovalStatus

-- `run_logs` and the notifications.
pub data Entry : Type 0 where
  status_report : ℕ → String → Entry
  reaped : ℕ → Option ℕ → Entry
  run_finished : ℕ → PipelineRunStatus → Entry
  approval_requested : ℕ → String → Entry

pub record Db : Type 0 where
  pub projects : List Project
  pub runners : List Runner
  pub versions : List Version
  pub runs : List Run
  pub tasks : List TaskRun
  pub steps : List StepRun
  pub approvals : List Approval
  pub entries : List Entry

-- The calls of the database of one request, each of which may fail by itself.
pub data Query : Type 0 where
  select_runner select_run select_status select_task select_step : Query
  insert_log update_run update_task update_step release_runner : Query
  claim_run occupy_runner insert_tasks insert_approvals insert_steps : Query
  cancel_run cancel_tasks select_tasks cancel_steps select_runner_id : Query
  offline_runners select_running select_runners : Query
  time_out_run select_tasks_of cancel_tasks_of cancel_steps_of : ℕ → Query
  log_reaped release_runner_of : ℕ → Query

-- A response by its code, if it is an error.
pub data Response {ℓ} (A : Type ℓ) : Type ℓ where
  reply : A → Response A
  error : ℕ → Response A

abbrev pub Action {ℓ} : Type ℓ → Type ℓ
Action A = Db → Response A × Db

abbrev pub and_then {ℓ κ} : {A : Type ℓ} {B : Type κ} → Response A → (A → Action B) → Action B
and_then (reply a) f db = f a db
and_then (error code) f db = (error code, db)

infixl 5 ◌>>=◌ ◌>>◌
abbrev pub ◌>>=◌ {ℓ κ} : {A : Type ℓ} {B : Type κ} → Action A → (A → Action B) → Action B
◌>>=◌ m f db = let (r, db') = m db in and_then r f db'

abbrev pub ◌>>◌ {ℓ κ} : {A : Type ℓ} {B : Type κ} → Action A → Action B → Action B
m >> n = m >>= λ _. n

abbrev pub pure {ℓ} : {A : Type ℓ} → A → Action A
pure a db = (reply a, db)

-- `NextResponse.json({ error }, { status })`
abbrev pub refuse {ℓ} : {A : Type ℓ} → ℕ → Action A
refuse code db = (error code, db)

-- What a read finds, or a response with this code.
abbrev pub require {ℓ} : {A : Type ℓ} → Option A → ℕ → Action A
require (some a) code = pure a
require none code = refuse code

abbrev pub check : Bool → ℕ → Action (Unit {0})
check true code = pure tt
check false code = refuse code

-- A write, or nothing where the call fails.
abbrev pub write : Bool → (Db → Db) → Action (Unit {0})
write fails change db = (reply tt, if fails then db else change db)

-- A write whose failure ends the request with this code.
abbrev pub write_or : ℕ → Bool → (Db → Db) → Action (Unit {0})
write_or code fails change db = if fails then (error code, db) else (reply tt, change db)

abbrev pub gets {ℓ} : {A : Type ℓ} → (Db → A) → Action A
gets f db = (reply (f db), db)
