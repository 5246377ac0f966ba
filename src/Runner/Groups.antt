-- ===== src/Runner/Groups.antt =====
-- `executeGroups`, `skipTask` and `cancelUnstartedTasks` of
-- apps/runner/src/executor/pipeline-executor.ts. The tasks of a group run in parallel: each leaves a
-- trace of its own, in a world of its own, and the traces are interleaved in any order.
pub mod Group
pub mod Gating
pub mod Returns
pub mod Samples
use dev_ops_deployment_tool.Common.{
  ℕ, String, Bool, true, false, not, ◌||◌, List, [], ◌∷◌, ◌++◌, Option, none, some, str_eq,
  if◌then◌else◌,
}
use dev_ops_deployment_tool.Status.Task.{TaskRunStatus}
use dev_ops_deployment_tool.Status.Step.{StepRunStatus}
use dev_ops_deployment_tool.Dag.Graph.{Tasks}
use dev_ops_deployment_tool.Dag.Validate.{keep}
use dev_ops_deployment_tool.Dag.Order.{concat}
use dev_ops_deployment_tool.Runner.Effects.{
  TaskConfig, warn, logged, reported, task_report, Trace, World, Result, return, thrown, waiting,
  Action, and_then,
}
use dev_ops_deployment_tool.Runner.Report.{mark_steps, report_cancelled}
use dev_ops_deployment_tool.Runner.Task.{TaskOutcome, success, step_names, execute_task}

-- `TaskMap`: an object, as its entries.
abbrev pub TaskMap : Type 0
TaskMap = List (String × TaskConfig)

-- What `tasks[name]?.field ?? []` reads when there is no such task.
abbrev no_config : TaskConfig
no_config = record {
  depends_on = [];
  approval_required = false;
  steps = [];
  deploy = false;
  artifacts = [];
}

-- `tasks[name]`
unfoldable pub config_of : TaskMap → String → TaskConfig
config_of [] x = no_config
config_of ((n, c) ∷ tasks) x = if str_eq n x then c else config_of tasks x

-- The tasks as `resolveDAG` reads them.
unfoldable pub dag_input : TaskMap → Tasks
dag_input [] = []
dag_input ((n, c) ∷ tasks) = (n, record { depends_on = some c.depends_on }) ∷ dag_input tasks

-- `TaskOutcome | "skipped"`
pub data Settlement : Type 0 where
  ran : TaskOutcome → Settlement
  skipped : Settlement

-- The map `outcomes`, the newest entry first.
abbrev pub Outcomes : Type 0
Outcomes = List (String × Settlement)

-- `outcomes.get(name)`
unfoldable pub outcome_of : Outcomes → String → Option Settlement
outcome_of [] x = none
outcome_of ((n, o) ∷ outcomes) x = if str_eq n x then some o else outcome_of outcomes x

-- `o !== undefined && o !== "success"`
abbrev pub stops : Option Settlement → Bool
stops none = false
stops (some (ran success)) = false
stops (some _) = true

unfoldable pub any_stops : Outcomes → List String → Bool
unfolding outcome_of
any_stops outcomes [] = false
any_stops outcomes (dep ∷ ds) = stops (outcome_of outcomes dep) || any_stops outcomes ds

-- `blocked`
unfoldable pub blocked : TaskMap → Outcomes → String → Bool
unfolding config_of any_stops
blocked tasks outcomes name = any_stops outcomes (config_of tasks name).depends_on

-- `skipTask`
unfoldable pub skip_task : String → TaskConfig → Trace → Trace
unfolding mark_steps
skip_task name config tr =
    mark_steps name StepRunStatus.skipped (step_names config.steps)
      (reported (task_report name TaskRunStatus.skipped) ∷ logged warn name ∷ tr)

-- The loop over the blocked tasks of a group.
unfoldable pub skip_all : TaskMap → List String → Outcomes → Trace → Outcomes × Trace
unfolding skip_task config_of
skip_all tasks [] outcomes tr = (outcomes, tr)
skip_all tasks (name ∷ ns) outcomes tr =
    skip_all tasks ns ((name, skipped) ∷ outcomes) (skip_task name (config_of tasks name) tr)

-- What the runner meets while it walks over the groups. Its answers depend on the trace at the start
-- of a group.
pub record Schedule : Type 0 where
  -- `await watcher.check()` before a group.
  pub check : Trace → Bool
  -- The world that a task meets.
  pub world : Trace → String → World
  -- How the task's trace is interleaved with those of the tasks behind it.
  pub order : Trace → String → List Bool
  -- `watcher.cancelled` behind the loop, if no check has seen the cancellation.
  pub cancelled : Trace → Bool

-- Every interleaving of two traces comes from some list of choices.
unfoldable pub interleave : List Bool → Trace → Trace → Trace
interleave [] xs ys = xs ++ ys
interleave (true ∷ cs) [] ys = ys
interleave (true ∷ cs) (x ∷ xs) ys = x ∷ interleave cs xs ys
interleave (false ∷ cs) xs [] = xs
interleave (false ∷ cs) xs (y ∷ ys) = y ∷ interleave cs xs ys

-- `Promise.all`, with the results under their names.
abbrev pub both : String → Result TaskOutcome → Result Outcomes → Result Outcomes
both name thrown rs = thrown
both name waiting thrown = thrown
both name waiting _ = waiting
both name (return o) (return rs) = return ((name, ran o) ∷ rs)
both name (return o) thrown = thrown
both name (return o) waiting = waiting

-- `outcomes.set` for each result.
unfoldable pub set_all : Outcomes → Outcomes → Outcomes
set_all [] outcomes = outcomes
set_all (entry ∷ rs) outcomes = set_all rs (entry ∷ outcomes)

module _ (s : Schedule) (rounds : ℕ) (tasks : TaskMap) where
  -- The runnable tasks of a group that starts at the trace `start`.
  unfoldable pub run_parallel : (start : Trace) → List String → Result Outcomes × Trace
  unfolding execute_task config_of interleave
  run_parallel start [] = (return [], [])
  run_parallel start (name ∷ ns) =
      let (r, tr) = execute_task (s.world start name) rounds name (config_of tasks name) [] in
      let (rs, tr') = run_parallel start ns in
      (both name r rs, interleave (s.order start name) tr tr')

  -- The body of the loop: one group.
  unfoldable pub execute_group : List String → Outcomes → Action Outcomes
  unfolding skip_all run_parallel keep blocked set_all
  execute_group group outcomes tr =
      let (outcomes', tr') = skip_all tasks (keep (blocked tasks outcomes) group) outcomes tr in
      let (rs, local) = run_parallel tr' (keep (λ x. not (blocked tasks outcomes' x)) group) in
      and_then rs (λ rs tr. (return (set_all rs outcomes'), tr)) (local ++ tr')

  -- The loop over the groups. The Boolean says that a check has stopped it.
  unfoldable pub walk_groups : List (List String) → Outcomes → Action (Bool × Outcomes)
  unfolding execute_group
  walk_groups [] outcomes tr = (return (false, outcomes), tr)
  walk_groups (group ∷ groups) outcomes tr = elim (s.check tr) [
    | true ↦ (return (true, outcomes), tr)
    | false ↦ let (r, tr') = execute_group group outcomes tr in and_then r (walk_groups groups) tr'
  ]

  abbrev pub has : Outcomes → String → Bool
  has outcomes x = elim (outcome_of outcomes x) [ none ↦ false | some o ↦ true ]

  unfoldable pub cancel_each : List String → Trace → Trace
  unfolding report_cancelled config_of
  cancel_each [] tr = tr
  cancel_each (name ∷ ns) tr =
      cancel_each ns (report_cancelled name (step_names (config_of tasks name).steps) true tr).1

  abbrev pub cancel_listed : List String → Trace → Trace
  cancel_listed [] tr = tr
  cancel_listed (name ∷ ns) tr = cancel_each (name ∷ ns) (logged warn "run" ∷ tr)

  -- `cancelUnstartedTasks`
  unfoldable pub cancel_unstarted : List String → Outcomes → Trace → Trace
  unfolding cancel_each keep outcome_of
  cancel_unstarted order outcomes tr = cancel_listed (keep (λ x. not (has outcomes x)) order) tr

  -- What follows the loop. The result says whether the run is cancelled.
  unfoldable pub finish_groups : List (List String) → Bool × Outcomes → Action (Bool × Outcomes)
  unfolding cancel_unstarted
  finish_groups groups (stopped, outcomes) tr =
      if stopped || s.cancelled tr
      then (return (true, outcomes), cancel_unstarted (concat groups) outcomes tr)
      else (return (false, outcomes), tr)

  -- `executeGroups`
  unfoldable pub execute_groups : List (List String) → Action (Bool × Outcomes)
  unfolding walk_groups finish_groups
  execute_groups groups tr =
      let (r, tr') = walk_groups groups [] tr in and_then r (finish_groups groups) tr'
