-- ===== src/Runner/Task/Legal.antt =====
-- What `executeTask` reports (task-executor.ts, lines 54 to 86), and what the approval gate decides.
use dev_ops_deployment_tool.Common.{
  ◌≡◌, ◌≢◌, refl, String, true, List, ◌∷◌, eq_refl, Distinct, arith,
}
use dev_ops_deployment_tool.Status.Task.{TaskRunStatus, validate_task_transition}
use dev_ops_deployment_tool.Status.Step.{StepRunStatus, validate_step_transition}
use dev_ops_deployment_tool.Runner.Effects.{
  StepConfig, TaskConfig, info, error, logged, reported, task_report, handle, Trace, World, Result,
  return, thrown, waiting, and_then,
}
use dev_ops_deployment_tool.Runner.Report.{report_task, report_safe}
use dev_ops_deployment_tool.Runner.Approval.{ApprovalOutcome, approved, rejected}
use dev_ops_deployment_tool.Runner.Protocol.{task_state, IsLegal}
use dev_ops_deployment_tool.Runner.Task.{
  TaskOutcome, success, failed, cancelled, step_names, cancel_task, reject_task, run_steps,
  finish_task, run_and_finish, start_task, after_steps, report_crash, log_gate, after_gate,
}
use dev_ops_deployment_tool.Runner.Task.Steps.{
  StepsEnd, IsPending, IsPending-CanMark, run_steps-StepsEnd, cancel_task-StepsEnd,
  skip_steps-IsSkipped,
}

module _ (w : World) (task : String) where
  -- What a task leaves: it never throws, and its last report says what it returns. A task whose gate
  -- has no decision yet is left awaiting its approval.
  abbrev pub TaskEnd : Result TaskOutcome × Trace → Type 0
  TaskEnd (return success, tr) = IsLegal tr × (task_state task tr ≡ TaskRunStatus.success)
  TaskEnd (return failed, tr) = IsLegal tr × (task_state task tr ≡ TaskRunStatus.failed)
  TaskEnd (return cancelled, tr) = IsLegal tr × (task_state task tr ≡ TaskRunStatus.cancelled)
  TaskEnd (thrown, tr) = ⊥
  TaskEnd (waiting, tr) = IsLegal tr × (task_state task tr ≡ TaskRunStatus.awaiting_approval)

  -- As `TaskEnd`, but the post-step work may throw, with the task still running.
  abbrev pub FinishEnd : Result TaskOutcome × Trace → Type 0
  FinishEnd (thrown, tr) = IsLegal tr × (task_state task tr ≡ TaskRunStatus.running)
  FinishEnd (waiting, tr) = ⊥
  FinishEnd (return o, tr) = TaskEnd (return o, tr)

  finish_task-FinishEnd :
      (config : TaskConfig) (tr : Trace)
      → IsLegal tr
      → task_state task tr ≡ TaskRunStatus.running
      → FinishEnd (finish_task w task config tr)
  unfolding finish_task validate_task_transition
  finish_task-FinishEnd config tr l run = ground (arith, eq_refl task)

  after_steps-FinishEnd :
      (config : TaskConfig) (r : Result TaskOutcome) (tr : Trace)
      → StepsEnd w task (r, tr)
      → FinishEnd (and_then r (after_steps w task config) tr)
  after_steps-FinishEnd config (return success) tr e = finish_task-FinishEnd config tr e.0 e.1
  after_steps-FinishEnd config (return failed) tr e = e
  after_steps-FinishEnd config (return cancelled) tr e = e
  after_steps-FinishEnd config thrown tr e = e
  after_steps-FinishEnd config waiting tr e = e

  pub run_and_finish-FinishEnd :
      (config : TaskConfig) (tr : Trace)
      → Distinct (step_names config.steps)
      → IsPending w task (step_names config.steps) tr
      → IsLegal tr
      → task_state task tr ≡ TaskRunStatus.running
      → FinishEnd (run_and_finish w task config tr)
  unfolding run_and_finish
  run_and_finish-FinishEnd config tr once p l run =
      after_steps-FinishEnd config (run_steps w task config.steps tr).0
        (run_steps w task config.steps tr).1
        (run_steps-StepsEnd w task config.steps tr once p l run)

  -- The `catch` turns an exception into a failed task.
  handle-TaskEnd :
      (r : Result TaskOutcome) (tr : Trace)
      → FinishEnd (r, tr)
      → TaskEnd (handle r (report_crash w task) tr)
  unfolding report_task report_safe validate_task_transition
  handle-TaskEnd (return success) tr e = e
  handle-TaskEnd (return failed) tr e = e
  handle-TaskEnd (return cancelled) tr e = e
  handle-TaskEnd thrown tr e = ground (arith, eq_refl task)
  handle-TaskEnd waiting tr e = absurd e

  pub start_task-TaskEnd :
      (config : TaskConfig) (tr : Trace)
      → Distinct (step_names config.steps)
      → IsPending w task (step_names config.steps) tr
      → IsLegal tr
      → validate_task_transition (task_state task tr) TaskRunStatus.running ≡ true
      → TaskEnd (start_task w task config tr)
  unfolding start_task
  start_task-TaskEnd config tr once p l ok =
      let tr' = logged info task ∷ reported (task_report task TaskRunStatus.running) ∷ tr in
      handle-TaskEnd (run_and_finish w task config tr').0 (run_and_finish w task config tr').1
        (run_and_finish-FinishEnd config tr' once p (tt, (ok, l)) (ground (arith, eq_refl task)))

  reject_task-TaskEnd :
      (steps : List StepConfig) (tr : Trace)
      → Distinct (step_names steps)
      → IsPending w task (step_names steps) tr
      → IsLegal tr
      → task_state task tr ≡ TaskRunStatus.awaiting_approval
      → TaskEnd (reject_task w task steps tr)
  unfolding reject_task validate_task_transition validate_step_transition
  reject_task-TaskEnd steps tr once p l a =
      let k =
        skip_steps-IsSkipped w task steps (logged error task ∷ tr) once
          (IsPending-CanMark w task StepRunStatus.skipped (step_names steps) tr refl p) (tt, l) in
      rw k.returns (ground (arith, eq_refl task, k.legal, k.task_kept))

  pub after_gate-TaskEnd :
      (config : TaskConfig) (r : Result ApprovalOutcome) (tr : Trace)
      → Distinct (step_names config.steps)
      → IsPending w task (step_names config.steps) tr
      → IsLegal tr
      → task_state task tr ≡ TaskRunStatus.awaiting_approval
      → r ≢ thrown
      → TaskEnd (
          and_then
            (and_then r (log_gate w task) tr).0
            (after_gate w task config)
            (and_then r (log_gate w task) tr).1)
  unfolding cancel_task validate_task_transition validate_step_transition
  after_gate-TaskEnd config (return approved) tr once p l a ok =
      start_task-TaskEnd config (logged info task ∷ tr) once p (tt, l) (rw a refl)
  after_gate-TaskEnd config (return rejected) tr once p l a ok =
      reject_task-TaskEnd config.steps tr once p l a
  after_gate-TaskEnd config (return ApprovalOutcome.cancelled) tr once p l a ok =
      cancel_task-StepsEnd w task (step_names config.steps) tr once
        (IsPending-CanMark w task StepRunStatus.cancelled (step_names config.steps) tr refl p) l
        (rw a refl)
  after_gate-TaskEnd config thrown tr once p l a ok = absurd (ok refl)
  after_gate-TaskEnd config waiting tr once p l a ok = (l, a)
