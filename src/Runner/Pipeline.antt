-- ===== src/Runner/Pipeline.antt =====
-- `executePipeline` of apps/runner/src/executor/pipeline-executor.ts (lines 40 to 129). Left out are
-- the clean-up of the workspace, the text of log lines, and the values that are only passed on.
pub mod Verdict
pub mod Samples
use dev_ops_deployment_tool.Common.{
  ℕ, String, Bool, true, false, ◌||◌, List, [], ◌∷◌, none, some, if◌then◌else◌,
}
use dev_ops_deployment_tool.Status.Pipeline.{PipelineRunStatus}
use dev_ops_deployment_tool.Dag.Resolve.{Outcome, resolved, resolve_dag}
use dev_ops_deployment_tool.Runner.Effects.{
  info, error, Report, pipeline_report, reported, logged, Trace, return, thrown, Action, pure,
  throw, log, ◌>>=◌, ◌>>◌, try_catch,
}
use dev_ops_deployment_tool.Runner.Groups.{
  TaskMap, dag_input, Outcomes, any_stops, Schedule, execute_groups,
}

-- What a run meets beside what `Schedule` has.
pub record RunWorld : Type 0 where
  pub schedule : Schedule
  -- Whether the workspace and the run context can be set up.
  pub workspace : Trace → Bool
  -- Whether the control plane accepts a report.
  pub accepts : Trace → Report → Bool
  -- Whether `watcher.cancelled` is first seen when the log has been shut down.
  pub cancelled_late : Trace → Bool

-- The names in the map of outcomes.
unfoldable pub keys : Outcomes → List String
keys [] = []
keys ((n, o) ∷ outcomes) = n ∷ keys outcomes

-- `[...outcomes.values()].some((o) => o !== "success")`
unfoldable pub has_failed : Outcomes → Bool
unfolding any_stops keys
has_failed outcomes = any_stops outcomes (keys outcomes)

abbrev pub pipeline_status : Bool → PipelineRunStatus
pipeline_status true = PipelineRunStatus.failed
pipeline_status false = PipelineRunStatus.success

module _ (w : RunWorld) where
  -- `client.reportStatus`, which throws if the report is refused.
  abbrev pub report_status : Report → Action (Unit {0})
  report_status r tr = (if w.accepts tr r then return tt else thrown, reported r ∷ tr)

  -- `createWorkspace` and `prepareRunContext`
  abbrev pub prepare : Action (Unit {0})
  prepare tr = (if w.workspace tr then return tt else thrown, tr)

  -- What follows `executeGroups`.
  unfoldable pub complete_run : Bool × Outcomes → Action (Unit {0})
  unfolding has_failed
  complete_run (cancelled, outcomes) tr =
      if cancelled || w.cancelled_late tr
      then (return tt, tr)
      else report_status (pipeline_report (pipeline_status (has_failed outcomes))) tr

  -- The body of the `try`.
  unfoldable pub run_plan : ℕ → TaskMap → List (List String) → Action (Unit {0})
  unfolding execute_groups complete_run
  run_plan rounds tasks groups = do
    log info "run"
    prepare
    execute_groups w.schedule rounds tasks groups >>= complete_run

  -- The `catch`, which throws the error again.
  abbrev pub fail_run : Action (Unit {0})
  fail_run tr =
      let tr' = logged error "run" ∷ tr in
      if w.schedule.cancelled tr'
      then (thrown, tr')
      else (thrown, reported (pipeline_report PipelineRunStatus.failed) ∷ tr')

  abbrev pub run_resolved : ℕ → TaskMap → Outcome → Action (Unit {0})
  run_resolved rounds tasks (resolved r) = try_catch (run_plan rounds tasks r.groups) fail_run
  run_resolved rounds tasks _ = throw

  -- `executePipeline`
  unfoldable pub execute_pipeline : ℕ → TaskMap → Action (Unit {0})
  unfolding run_plan
  execute_pipeline rounds [] = report_status (pipeline_report PipelineRunStatus.success)
  execute_pipeline rounds (task ∷ tasks) = elim (resolve_dag (dag_input (task ∷ tasks))) [
    | none ↦ throw
    | some o ↦ run_resolved rounds (task ∷ tasks) o
  ]
