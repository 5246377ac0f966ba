-- ===== src/Runner/Task/Returns.antt =====
-- `executeTask` (task-executor.ts, lines 54 to 86) comes to an outcome once its gate does.
use dev_ops_deployment_tool.Common.{
  ℕ, ◌≡◌, ◌≢◌, ◌<◌, ◌∙◌, refl, String, true, [], ◌∷◌, eq_refl, Distinct, Bool-cases, inl, inr,
  arith,
}
use dev_ops_deployment_tool.Status.Task.{TaskRunStatus, validate_task_transition}
use dev_ops_deployment_tool.Runner.Effects.{
  TaskConfig, info, error, logged, reported, task_report, handle, Trace, World, Result, return,
  thrown, waiting, and_then,
}
use dev_ops_deployment_tool.Runner.Approval.{ApprovalOutcome, approved, rejected, wait_for_approval}
use dev_ops_deployment_tool.Runner.Protocol.{task_state, IsLegal}
use dev_ops_deployment_tool.Runner.Report.{report_task}
use dev_ops_deployment_tool.Runner.Task.{
  TaskOutcome, step_names, cancel_task, reject_task, run_and_finish, start_task, report_crash,
  log_gate, after_gate, execute_task, pass_approval_gate,
}
use dev_ops_deployment_tool.Runner.Task.Steps.{IsPending}
use dev_ops_deployment_tool.Runner.Task.Legal.{FinishEnd, TaskEnd, run_and_finish-FinishEnd}
use dev_ops_deployment_tool.Runner.Task.Waiting.{Decides, wait-ne-waiting, skip_steps_quiet}
use dev_ops_deployment_tool.Runner.Task.Gate.{wait-IsQuiet, execute_task-TaskEnd}

module _ (w : World) (task : String) where
  handle-ne-waiting :
      (r : Result TaskOutcome) (start : Trace)
      → FinishEnd w task (r, start)
      → (handle r (report_crash w task) start).0 ≢ waiting
  unfolding report_task
  handle-ne-waiting (return o) start e = λ h. cc
  handle-ne-waiting thrown start e = λ h. cc
  handle-ne-waiting waiting start e = absurd e

  start_task-ne-waiting :
      (config : TaskConfig) (start : Trace)
      → Distinct (step_names config.steps)
      → IsPending w task (step_names config.steps) start
      → IsLegal start
      → validate_task_transition (task_state task start) TaskRunStatus.running ≡ true
      → (start_task w task config start).0 ≢ waiting
  unfolding start_task
  start_task-ne-waiting config start once p l ok =
      let begun = logged info task ∷ reported (task_report task TaskRunStatus.running) ∷ start in
      handle-ne-waiting (run_and_finish w task config begun).0
        (run_and_finish w task config begun).1
        (run_and_finish-FinishEnd w task config begun once p (tt, (ok, l))
          (ground (arith, eq_refl task)))

  after_gate-ne-waiting :
      (config : TaskConfig) (r : Result ApprovalOutcome) (start : Trace)
      → Distinct (step_names config.steps)
      → IsPending w task (step_names config.steps) start
      → IsLegal start
      → task_state task start ≡ TaskRunStatus.awaiting_approval
      → r ≢ waiting
      → (and_then
          (and_then r (log_gate w task) start).0
          (after_gate w task config)
          (and_then r (log_gate w task) start).1).0
        ≢ waiting
  unfolding cancel_task reject_task validate_task_transition
  after_gate-ne-waiting config (return approved) start once p l a ok =
      start_task-ne-waiting config (logged info task ∷ start) once p (tt, l) (rw a refl)
  after_gate-ne-waiting config (return rejected) start once p l a ok =
      rw ((skip_steps_quiet w task config.steps (logged error task ∷ start)).0) (λ e. cc)
  after_gate-ne-waiting config (return ApprovalOutcome.cancelled) start once p l a ok = λ e. cc
  after_gate-ne-waiting config thrown start once p l a ok = λ e. cc
  after_gate-ne-waiting config waiting start once p l a ok = absurd (ok refl)

  execute_task-ne-waiting :
      (n rounds : ℕ) (config : TaskConfig)
      → Distinct (step_names config.steps)
      → Decides n w
      → n < rounds
      → (execute_task w rounds task config []).0 ≢ waiting
  unfolding execute_task pass_approval_gate validate_task_transition
  execute_task-ne-waiting n rounds config once d h = elim (Bool-cases config.approval_required) [
    | inl gated ↦
        let begun =
          logged info task ∷ reported (task_report task TaskRunStatus.awaiting_approval) ∷ [] in
        let q = wait-IsQuiet w task rounds begun in
        rw gated (
          after_gate-ne-waiting config (wait_for_approval rounds w task begun).0
            (wait_for_approval rounds w task begun).1 once (λ s m. q.steps task s)
            (q.legal (tt, (refl, tt))) (q.tasks task ∙ rw eq_refl refl)
            (wait-ne-waiting w task n rounds begun d (omega arith) (omega arith)))
    | inr free ↦ rw free (start_task-ne-waiting config [] once (λ s m. refl) tt refl)
  ]

-- If after `n` polls a reviewer has decided or the run is cancelled, and the gate is given more than
-- `n` rounds, then `executeTask` returns an outcome for a task with distinct step names.
pub execute_task_returns :
    (w : World) (n rounds : ℕ) (task : String) (config : TaskConfig)
    → Distinct (step_names config.steps)
    → Decides n w
    → n < rounds
    → (o : TaskOutcome) × ((execute_task w rounds task config []).0 ≡ return o)
execute_task_returns w n rounds task config once d h =
    returns (execute_task w rounds task config []).0 (execute_task w rounds task config []).1
      (execute_task-TaskEnd w rounds task config [] once tt refl (λ s m. refl))
      (execute_task-ne-waiting w task n rounds config once d h)
  where
    returns :
        (r : Result TaskOutcome) (start : Trace)
        → TaskEnd w task (r, start)
        → r ≢ waiting
        → (o : TaskOutcome) × (r ≡ return o)
    returns (return o) start e h = (o, refl)
    returns thrown start e h = absurd e
    returns waiting start e h = absurd (h refl)
