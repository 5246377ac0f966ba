-- ===== src/Runner/Report.antt =====
-- apps/runner/src/executor/status-reporter.ts, and the reporting helpers of task-executor.ts.
use dev_ops_deployment_tool.Common.{String, Bool, List, [], ◌∷◌, if◌then◌else◌}
use dev_ops_deployment_tool.Status.Task.{TaskRunStatus}
use dev_ops_deployment_tool.Status.Step.{StepRunStatus}
use dev_ops_deployment_tool.Runner.Effects.{
  warn, Report, task_report, step_report, StepConfig, reported, Trace, World, return, Action, pure,
  log, ◌>>◌,
}

-- `reportSafe`: never throws, and returns whether the update was accepted.
unfoldable pub report_safe : World → Report → Action Bool
report_safe w r tr = (return (w.accepts tr r), reported r ∷ tr)

-- The payloads of `reportCancelled` for the steps.
unfoldable pub mark_steps : String → StepRunStatus → List String → Trace → Trace
mark_steps task status [] tr = tr
mark_steps task status (step ∷ steps) tr =
    mark_steps task status steps (reported (step_report task step status) ∷ tr)

-- `reportCancelled`: all payloads are sent, whatever becomes of each.
unfoldable pub report_cancelled :
    (task : String) → List String → (include_task : Bool) → Action (Unit {0})
unfolding mark_steps
report_cancelled task steps include_task tr =
    let tr' = mark_steps task StepRunStatus.cancelled steps tr in
    (
      return tt,
      if include_task then reported (task_report task TaskRunStatus.cancelled) ∷ tr' else tr',
    )

-- `reportStep`
unfoldable pub report_step : World → (task : String) → StepConfig → StepRunStatus → Action Bool
unfolding report_safe
report_step w task step status = report_safe w (step_report task step.name status)

-- `reportTask`
unfoldable pub report_task : World → (task : String) → TaskRunStatus → Action Bool
unfolding report_safe
report_task w task status = report_safe w (task_report task status)

-- `skipSteps`
unfoldable pub skip_steps : World → (task : String) → List StepConfig → Action (Unit {0})
unfolding report_step
skip_steps w task [] = pure tt
skip_steps w task (step ∷ steps) = do
  log warn step.name
  report_step w task step StepRunStatus.skipped
  skip_steps w task steps
