-- ===== src/Runner/Task.antt =====
-- `executeTask` of apps/runner/src/executor/task-executor.ts with the functions that it calls there.
-- Left out are the text of the log lines, and the values that are only passed on to `executeStep`,
-- `uploadTaskArtifacts` and `executeDeployment`, which stand in `World`.
pub mod Steps
pub mod Legal
pub mod Gate
pub mod Received
pub mod Waiting
pub mod Returns
use dev_ops_deployment_tool.Common.{
  ℕ, String, Bool, true, false, ◌&&◌, ◌||◌, not, List, [], ◌∷◌, Option, none, some, str_eq, ◌==◌,
  if◌then◌else◌,
}
use dev_ops_deployment_tool.Status.Task.{TaskRunStatus}
use dev_ops_deployment_tool.Status.Step.{StepRunStatus}
use dev_ops_deployment_tool.Runner.Effects.{
  info, warn, error, task_report, step_report, StepConfig, TaskConfig, executed, uploaded, deployed,
  StepRun, finished, crashed, World, return, thrown, Action, pure, log, ◌>>=◌, ◌>>◌, try_catch,
  throw,
}
use dev_ops_deployment_tool.Runner.Report.{
  report_safe, report_cancelled, report_step, report_task, skip_steps,
}
use dev_ops_deployment_tool.Runner.Approval.{ApprovalOutcome, approved, rejected, wait_for_approval}

pub data TaskOutcome : Type 0 where
  success failed cancelled : TaskOutcome

abbrev pub step_names : List StepConfig → List String
step_names [] = []
step_names (s ∷ ss) = s.name ∷ step_names ss

-- Whether an optional text is truthy.
abbrev pub is_given : Option String → Bool
is_given none = false
is_given (some x) = not (str_eq x "")

module _ (w : World) where
  -- `cancelTask`
  unfoldable pub cancel_task : (task : String) → List String → Action TaskOutcome
  unfolding report_cancelled
  cancel_task task steps = do log warn task; report_cancelled task steps true; pure cancelled

  -- `rejectTask`
  unfoldable pub reject_task : (task : String) → List StepConfig → Action TaskOutcome
  unfolding skip_steps report_task
  reject_task task steps = do
    log error task
    skip_steps w task steps
    report_task w task TaskRunStatus.failed
    pure failed

  abbrev pub log_gate : (task : String) → ApprovalOutcome → Action ApprovalOutcome
  log_gate task approved = log info task >> pure approved
  log_gate task rejected = pure rejected
  log_gate task ApprovalOutcome.cancelled = pure ApprovalOutcome.cancelled

  -- `passApprovalGate`
  unfoldable pub pass_approval_gate : ℕ → (task : String) → Action ApprovalOutcome
  unfolding report_safe wait_for_approval
  pass_approval_gate rounds task = do
    report_safe w (task_report task TaskRunStatus.awaiting_approval)
    log info task
    wait_for_approval rounds w task >>= log_gate task

  -- What `executeStepWithReporting` does with the result of `executeStep`.
  unfoldable pub settle_step : (task : String) → StepConfig → StepRun → Action TaskOutcome
  unfolding report_step
  settle_step task step crashed = throw
  settle_step task step (finished true timed_out exit_code) = do log warn step.name; pure cancelled
  settle_step task step (finished false timed_out exit_code) =
      if timed_out || not (exit_code == 0)
      then (do log error step.name; report_step w task step StepRunStatus.failed; pure failed)
      else (do log info step.name; report_step w task step StepRunStatus.success; pure success)

  -- The call of `executeStep`.
  abbrev pub call_step : StepConfig → Action StepRun
  call_step step tr = (return (w.execute_step tr step), executed step ∷ tr)

  -- The branch for a step whose image needs the missing Docker.
  abbrev pub refuse_step : (task : String) → StepConfig → Action TaskOutcome
  refuse_step task step = do
    log error step.name
    report_step w task step StepRunStatus.failed
    pure failed

  abbrev pub launch_step : (task : String) → StepConfig → Action TaskOutcome
  launch_step task step = do log info step.name; run ← call_step step; settle_step task step run

  -- `executeStepWithReporting`
  unfoldable pub execute_step_with_reporting : (task : String) → StepConfig → Action TaskOutcome
  unfolding report_safe report_step settle_step
  execute_step_with_reporting task step = do
    report_safe w (step_report task step.name StepRunStatus.running)
    if is_given step.image && not w.docker_available
        then refuse_step task step
        else launch_step task step

  -- One round of the loop in `runSteps`: `rest` are the steps behind this one, `next` the loop over
  -- them.
  unfoldable pub after_step :
      (task : String) (step : StepConfig) (rest : List StepConfig)
      → Action TaskOutcome
      → TaskOutcome
      → Action TaskOutcome
  unfolding cancel_task skip_steps report_task
  after_step task step rest next success = next
  after_step task step rest next cancelled = cancel_task task (step_names (step ∷ rest))
  after_step task step rest next failed = do
    skip_steps w task rest
    report_task w task TaskRunStatus.failed
    log error task
    pure failed

  -- `runSteps`
  unfoldable pub run_steps : (task : String) → List StepConfig → Action TaskOutcome
  unfolding cancel_task execute_step_with_reporting after_step
  run_steps task [] tr = (return success, tr)
  run_steps task (step ∷ rest) tr = elim (w.aborted tr) [
    | true ↦ cancel_task task (step_names (step ∷ rest)) tr
    | false ↦
        (execute_step_with_reporting task step >>= after_step task step rest (run_steps task rest))
          tr
  ]

  -- The call of `uploadTaskArtifacts`.
  abbrev pub call_upload : List String → Action (Unit {0})
  call_upload artifacts tr = (if w.upload tr artifacts then return tt else thrown, uploaded ∷ tr)

  -- The call of `executeDeployment`.
  abbrev pub call_deployment : Action Bool
  call_deployment tr =
      (elim (w.deployment tr) [ none ↦ thrown | some done ↦ return done ], deployed ∷ tr)

  abbrev pub upload_artifacts : List String → Action (Unit {0})
  upload_artifacts [] = pure tt
  upload_artifacts (a ∷ artifacts) = call_upload (a ∷ artifacts)

  -- The end of `finishTask`.
  abbrev pub complete_task : (task : String) → Action TaskOutcome
  complete_task task = do report_task w task TaskRunStatus.success; log info task; pure success

  abbrev pub fail_task : (task : String) → Action TaskOutcome
  fail_task task = do report_task w task TaskRunStatus.failed; log error task; pure failed

  abbrev pub after_deployment : (task : String) → Bool → Action TaskOutcome
  after_deployment task done = if done then complete_task task else fail_task task

  unfoldable pub deploy_task : (task : String) → Action TaskOutcome
  unfolding cancel_task report_task
  deploy_task task tr = elim (w.aborted tr) [
    | true ↦ cancel_task task [] tr
    | false ↦ (call_deployment >>= after_deployment task) tr
  ]

  -- `finishTask`
  unfoldable pub finish_task : (task : String) → TaskConfig → Action TaskOutcome
  unfolding deploy_task
  finish_task task config = do
    upload_artifacts config.artifacts
    if config.deploy then deploy_task task else complete_task task

  abbrev pub after_steps : (task : String) → TaskConfig → TaskOutcome → Action TaskOutcome
  after_steps task config success = finish_task task config
  after_steps task config failed = pure failed
  after_steps task config cancelled = pure cancelled

  -- The body of the `try` in `executeTask`.
  unfoldable pub run_and_finish : (task : String) → TaskConfig → Action TaskOutcome
  unfolding run_steps finish_task
  run_and_finish task config = run_steps task config.steps >>= after_steps task config

  -- The `catch` in `executeTask`.
  abbrev pub report_crash : (task : String) → Action TaskOutcome
  report_crash task = do log error task; report_task w task TaskRunStatus.failed; pure failed

  -- `executeTask` behind the approval gate.
  unfoldable pub start_task : (task : String) → TaskConfig → Action TaskOutcome
  unfolding report_safe run_and_finish report_task
  start_task task config = do
    report_safe w (task_report task TaskRunStatus.running)
    log info task
    try_catch (run_and_finish task config) (report_crash task)

  abbrev pub after_gate : (task : String) → TaskConfig → ApprovalOutcome → Action TaskOutcome
  after_gate task config approved = start_task task config
  after_gate task config rejected = reject_task task config.steps
  after_gate task config ApprovalOutcome.cancelled = cancel_task task (step_names config.steps)

  -- `executeTask`, with the rounds that the approval gate may take.
  unfoldable pub execute_task : ℕ → (task : String) → TaskConfig → Action TaskOutcome
  unfolding pass_approval_gate reject_task cancel_task start_task
  execute_task rounds task config =
      if config.approval_required
      then pass_approval_gate rounds task >>= after_gate task config
      else start_task task config
