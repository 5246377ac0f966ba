-- ===== src/Control/StatusRoute.antt =====
-- apps/web/src/app/api/runner/jobs/[runId]/status/route.ts. The check of a body by zod is given by
-- its result.
pub mod Rows
pub mod Changes
pub mod Legal
pub mod Request
pub mod Outcome
use dev_ops_deployment_tool.Common.{
  ℕ, true, false, Option, none, some, List, String, if◌then◌else◌, ◌==◌, ◌∷◌,
}
use dev_ops_deployment_tool.Status.Result.{Result, ok, invalid_transition}
use dev_ops_deployment_tool.Status.Pipeline.{
  PipelineRunStatus, assert_pipeline_transition, is_pipeline_terminal,
}
use dev_ops_deployment_tool.Status.Task.{assert_task_transition}
use dev_ops_deployment_tool.Status.Step.{assert_step_transition}
use dev_ops_deployment_tool.Control.Database.{
  Runner, Run, Db, status_report, run_finished, approval_requested, insert_log, Action, ◌>>=◌, ◌>>◌,
  pure, refuse, require, write, write_or, gets, Entry, update_run, update_task, update_step,
  release_runner, online,
}
use dev_ops_deployment_tool.Control.Tables.{update}
use dev_ops_deployment_tool.Control.Auth.{Env, authenticate_runner, authorize_runner_for_run}
use Rows.{
  ReportedStatus, Report, to_pipeline, to_task, to_step, find_status, find_task, find_step, set_run,
  set_task, set_step, truthy,
}

pub data Scope : Type 0 where
  pipeline task step : Scope

-- `RunStatusUpdateInput`
pub record StatusUpdate : Type 0 where
  pub status : ReportedStatus
  pub scope : Scope
  pub task_name : Option String
  pub step_name : Option String
  pub error_message : Option String
  pub report : Report

-- A body that is no JSON or does not fit the schema, or its parsed update.
pub data Body : Type 0 where
  invalid : Body
  parsed : StatusUpdate → Body

abbrev pub parse_body : Body → Action StatusUpdate
parse_body invalid = refuse 400
parse_body (parsed u) = pure u

-- An `assert…Transition` whose exception is caught by `POST`. A status that the table does not know
-- is not among its targets.
abbrev pub caught : {S : Type 0} → S → Result S (Unit {0}) → Action S
caught to (ok _) = pure to
caught to (invalid_transition _ _) = refuse 422

abbrev pub assert_to : {S : Type 0} → (S → S → Result S (Unit {0})) → S → Option S → Action S
assert_to assert from none = refuse 422
assert_to assert from (some to) = caught to (assert from to)

abbrev pub add_entry : Entry → Db → Db
add_entry e db = record db { entries = e ∷ db.entries }

abbrev log_entry : Env → ℕ → Option String → Action (Unit {0})
log_entry env run_id none = pure tt
log_entry env run_id (some message) =
    write (env.fails insert_log) (add_entry (status_report run_id message))

unfoldable pub log_error : Env → ℕ → StatusUpdate → Action (Unit {0})
log_error env run_id u = log_entry env run_id (truthy u.error_message)

unfoldable pub free_runner : ℕ → Db → Db
free_runner runner_id db = record db {
  runners =
      update (λ (r : Runner). r.id == runner_id)
        (λ (r : Runner). record r { current_job_id = none; status = online }) db.runners;
}

-- The release of the runner and the notification after a terminal status.
unfoldable pub finish_run : Env → Runner → ℕ → PipelineRunStatus → Action (Unit {0})
finish_run env runner run_id status =
    if is_pipeline_terminal status
    then (write (env.fails release_runner) (free_runner runner.id)
        >> write false (add_entry (run_finished run_id status)))
    else pure tt

unfoldable pub update_pipeline_status : Env → Runner → ℕ → StatusUpdate → Action ReportedStatus
update_pipeline_status env runner run_id u = do
  run ← require (← gets (find_status env run_id)) 404
  to ← assert_to assert_pipeline_transition run.status (to_pipeline u.status)
  write_or 500 (env.fails update_run) (set_run env.now run_id to u.report (truthy run.git_sha))
  finish_run env runner run_id to
  pure u.status

-- The notification of the reviewers.
abbrev pub request_approval : ℕ → String → ReportedStatus → Action (Unit {0})
request_approval run_id name ReportedStatus.awaiting_approval =
    write false (add_entry (approval_requested run_id name))
request_approval run_id name _ = pure tt

unfoldable pub update_task_status : Env → ℕ → String → StatusUpdate → Action ReportedStatus
update_task_status env run_id name u = do
  task_run ← require (← gets (find_task env run_id name)) 404
  to ← assert_to assert_task_transition task_run.status (to_task u.status)
  write_or 500 (env.fails update_task) (set_task task_run.id to u.report)
  request_approval run_id name u.status
  pure u.status

unfoldable pub update_step_status : Env → ℕ → String → String → StatusUpdate → Action ReportedStatus
update_step_status env run_id name step_name u = do
  task_run ← require (← gets (find_task env run_id name)) 404
  step_run ← require (← gets (find_step env task_run.id step_name)) 404
  to ← assert_to assert_step_transition step_run.status (to_step u.status)
  write_or 500 (env.fails update_step) (set_step step_run.id to u.report)
  pure u.status

-- The scope with the names that are given and not empty.
abbrev pub dispatch :
    Env → Runner → ℕ → StatusUpdate → Scope → Option String → Option String → Action ReportedStatus
dispatch env runner run_id u pipeline task_name step_name =
    update_pipeline_status env runner run_id u
dispatch env runner run_id u task (some name) step_name = update_task_status env run_id name u
dispatch env runner run_id u step (some name) (some step_name) =
    update_step_status env run_id name step_name u
dispatch env runner run_id u _ _ _ = refuse 400

-- The rest of `POST`, from the parsing of the body.
abbrev pub take_report : Env → Runner → ℕ → Body → Action ReportedStatus
take_report env runner run_id body = do
  u ← parse_body body
  log_error env run_id u
  dispatch env runner run_id u u.scope (truthy u.task_name) (truthy u.step_name)

unfoldable pub post_status : Env → Option (List ℕ) → ℕ → Body → Action ReportedStatus
post_status env header run_id body = do
  runner ← authenticate_runner env header
  authorize_runner_for_run env runner run_id true
  take_report env runner run_id body

unfoldable pub get_status : Env → Option (List ℕ) → ℕ → Action PipelineRunStatus
get_status env header run_id = do
  runner ← authenticate_runner env header
  run ← authorize_runner_for_run env runner run_id false
  pure run.status
