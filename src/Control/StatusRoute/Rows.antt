-- ===== src/Control/StatusRoute/Rows.antt =====
-- What the status route reads and writes: the reported status as a state of each table, the row
-- that a report is about, and the update of that row.
use dev_ops_deployment_tool.Common.{
  ℕ, Bool, Option, none, some, String, str_eq, ◌==◌, ◌&&◌, if◌then◌else◌,
}
use dev_ops_deployment_tool.Status.Pipeline
use dev_ops_deployment_tool.Status.Pipeline.{PipelineRunStatus}
use dev_ops_deployment_tool.Status.Task
use dev_ops_deployment_tool.Status.Task.{TaskRunStatus}
use dev_ops_deployment_tool.Status.Step
use dev_ops_deployment_tool.Status.Step.{StepRunStatus}
use dev_ops_deployment_tool.Control.Tables.{select, single, update}
use dev_ops_deployment_tool.Control.Database.{
  Run, TaskRun, StepRun, Db, select_status, select_task, select_step,
}
use dev_ops_deployment_tool.Control.Auth.{Env}

-- The words that the schema takes.
pub data ReportedStatus : Type 0 where
  created queued running success failed cancelled timed_out : ReportedStatus
  pending skipped awaiting_approval : ReportedStatus

unfoldable pub to_pipeline : ReportedStatus → Option PipelineRunStatus
to_pipeline ReportedStatus.created = some Pipeline.created
to_pipeline ReportedStatus.queued = some Pipeline.queued
to_pipeline ReportedStatus.running = some Pipeline.running
to_pipeline ReportedStatus.success = some Pipeline.success
to_pipeline ReportedStatus.failed = some Pipeline.failed
to_pipeline ReportedStatus.cancelled = some Pipeline.cancelled
to_pipeline ReportedStatus.timed_out = some Pipeline.timed_out
to_pipeline _ = none

unfoldable pub to_task : ReportedStatus → Option TaskRunStatus
to_task ReportedStatus.pending = some Task.pending
to_task ReportedStatus.running = some Task.running
to_task ReportedStatus.success = some Task.success
to_task ReportedStatus.failed = some Task.failed
to_task ReportedStatus.cancelled = some Task.cancelled
to_task ReportedStatus.skipped = some Task.skipped
to_task ReportedStatus.awaiting_approval = some Task.awaiting_approval
to_task _ = none

unfoldable pub to_step : ReportedStatus → Option StepRunStatus
to_step ReportedStatus.pending = some Step.pending
to_step ReportedStatus.running = some Step.running
to_step ReportedStatus.success = some Step.success
to_step ReportedStatus.failed = some Step.failed
to_step ReportedStatus.cancelled = some Step.cancelled
to_step ReportedStatus.skipped = some Step.skipped
to_step _ = none

-- An optional text that is there and not empty.
unfoldable pub truthy : Option String → Option String
truthy none = none
truthy (some s) = if str_eq s "" then none else some s

-- `if (value) updates.column = value`
abbrev pub or_kept : {A : Type 0} → Option A → Option A → Option A
or_kept (some new) old = some new
or_kept none old = old

-- `if (gitSha && !run.git_sha) updates.git_sha = gitSha`
abbrev pub filled : Option String → Option String → Option String → Option String
filled none sha old = or_kept sha old
filled (some read) sha old = old

abbrev pub is_run : ℕ → Run → Bool
is_run run_id r = r.id == run_id

abbrev pub is_task : ℕ → TaskRun → Bool
is_task task_id t = t.id == task_id

abbrev pub is_named_task : ℕ → String → TaskRun → Bool
is_named_task run_id name t = t.pipeline_run_id == run_id && str_eq t.task_name name

abbrev pub is_step : ℕ → StepRun → Bool
is_step step_id s = s.id == step_id

abbrev pub is_named_step : ℕ → String → StepRun → Bool
is_named_step task_id name s = s.task_run_id == task_id && str_eq s.step_name name

unfoldable pub find_status : Env → ℕ → Db → Option Run
find_status env run_id db =
    if env.fails select_status then none else single (select (is_run run_id) db.runs)

unfoldable pub find_task : Env → ℕ → String → Db → Option TaskRun
find_task env run_id name db =
    if env.fails select_task then none else single (select (is_named_task run_id name) db.tasks)

unfoldable pub find_step : Env → ℕ → String → Db → Option StepRun
find_step env task_id name db =
    if env.fails select_step then none else single (select (is_named_step task_id name) db.steps)

-- The columns of a report that are set.
pub record Report : Type 0 where
  pub exit_code : Option ℕ
  pub started_at : Option ℕ
  pub finished_at : Option ℕ
  pub git_sha : Option String

abbrev pub reported_run : ℕ → PipelineRunStatus → Report → Option String → Run → Run
reported_run now to report read r = record r {
  status = to;
  updated_at = now;
  started_at = or_kept report.started_at r.started_at;
  finished_at = or_kept report.finished_at r.finished_at;
  git_sha = filled read report.git_sha r.git_sha;
}

abbrev pub reported_task : TaskRunStatus → Report → TaskRun → TaskRun
reported_task to report t = record t {
  status = to;
  started_at = or_kept report.started_at t.started_at;
  finished_at = or_kept report.finished_at t.finished_at;
}

abbrev pub reported_step : StepRunStatus → Report → StepRun → StepRun
reported_step to report s = record s {
  status = to;
  exit_code = or_kept report.exit_code s.exit_code;
  started_at = or_kept report.started_at s.started_at;
  finished_at = or_kept report.finished_at s.finished_at;
}

unfoldable pub set_run : ℕ → ℕ → PipelineRunStatus → Report → Option String → Db → Db
set_run now run_id to report read db = record db {
  runs = update (is_run run_id) (reported_run now to report read) db.runs;
}

unfoldable pub set_task : ℕ → TaskRunStatus → Report → Db → Db
set_task task_id to report db = record db {
  tasks = update (is_task task_id) (reported_task to report) db.tasks;
}

unfoldable pub set_step : ℕ → StepRunStatus → Report → Db → Db
set_step step_id to report db = record db {
  steps = update (is_step step_id) (reported_step to report) db.steps;
}
