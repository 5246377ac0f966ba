-- ===== src/Status/Laws.antt =====
-- How the tables of packages/shared/src/constants.ts and the checks of
-- packages/pipeline-engine/src/state-machine.ts fit together.
use dev_ops_deployment_tool.Common.{ℕ, ◌+◌, ◌≤◌, ◌≡◌, ◌↔◌, Bool, true, false, List, [], ◌∷◌, arith}
use dev_ops_deployment_tool.Status.Result.{Result, ok, invalid_transition}
use dev_ops_deployment_tool.Status.Pipeline
use dev_ops_deployment_tool.Status.Pipeline.{
  PipelineRunStatus, validate_pipeline_transition, assert_pipeline_transition, is_pipeline_terminal,
}
use dev_ops_deployment_tool.Status.Task
use dev_ops_deployment_tool.Status.Task.{
  TaskRunStatus, validate_task_transition, assert_task_transition, is_task_terminal,
}
use dev_ops_deployment_tool.Status.Step
use dev_ops_deployment_tool.Status.Step.{
  StepRunStatus, validate_step_transition, assert_step_transition, is_step_terminal,
}
use dev_ops_deployment_tool.Status.Deployment
use dev_ops_deployment_tool.Status.Deployment.{
  DeploymentStatus, validate_deployment_transition, assert_deployment_transition,
  is_deployment_terminal,
}

-- A state is terminal by its list exactly if its table allows no transition.
abbrev pub IsConsistent : {S : Type 0} → (S → S → Bool) → (S → Bool) → Type 0
IsConsistent {S} validate terminal =
    (s : S) → (terminal s ≡ true) ↔ ((to : S) → validate s to ≡ false)

-- The state after a sequence of updates, each of which is applied if `assert` lets it pass, and how
-- many were applied.
abbrev pub accept : {S : Type 0} → Result S (Unit {0}) → S → S → S
accept (ok _) from to = to
accept (invalid_transition _ _) from to = from

abbrev pub accepted : {S : Type 0} → Result S (Unit {0}) → ℕ
accepted (ok _) = 1
accepted (invalid_transition _ _) = 0

module _ {S : Type 0} (assert : S → S → Result S (Unit {0})) where
  abbrev pub updates : S → List S → S
  updates s [] = s
  updates s (to ∷ more) = updates (accept (assert s to) s to) more

  abbrev pub count_accepted : S → List S → ℕ
  count_accepted s [] = 0
  count_accepted s (to ∷ more) =
      accepted (assert s to) + count_accepted (accept (assert s to) s to) more

  -- A rank that every applied update lowers bounds how many are applied.
  count_accepted-le :
      (rank : S → ℕ)
      → ((s to : S) → accepted (assert s to) + rank (accept (assert s to) s to) ≤ rank s)
      → (s : S) (more : List S) → count_accepted s more ≤ rank s
  count_accepted-le rank h s [] = omega arith
  count_accepted-le rank h s (to ∷ more) =
      omega (arith, h s to, count_accepted-le rank h (accept (assert s to) s to) more)

pipeline-IsConsistent : IsConsistent validate_pipeline_transition is_pipeline_terminal
unfolding validate_pipeline_transition is_pipeline_terminal
pipeline-IsConsistent s = (
  λ t to. ground arith,
  λ none. ground (arith, none Pipeline.queued, none Pipeline.running, none Pipeline.success),
)

task-IsConsistent : IsConsistent validate_task_transition is_task_terminal
unfolding validate_task_transition is_task_terminal
task-IsConsistent s =
    (λ t to. ground arith, λ none. ground (arith, none Task.running, none Task.success))

step-IsConsistent : IsConsistent validate_step_transition is_step_terminal
unfolding validate_step_transition is_step_terminal
step-IsConsistent s =
    (λ t to. ground arith, λ none. ground (arith, none Step.running, none Step.success))

deployment-IsConsistent : IsConsistent validate_deployment_transition is_deployment_terminal
unfolding validate_deployment_transition is_deployment_terminal
deployment-IsConsistent s = (
  λ t to. ground arith,
  λ none.
      ground (arith, none Deployment.deploying, none Deployment.active, none Deployment.draining),
)

-- For pipeline runs, task runs, step runs and deployments alike: the list of terminal states holds
-- exactly the states from which the transition table allows no transition.
pub terminal_iff_stuck :
    IsConsistent validate_pipeline_transition is_pipeline_terminal
    × IsConsistent validate_task_transition is_task_terminal
    × IsConsistent validate_step_transition is_step_terminal
    × IsConsistent validate_deployment_transition is_deployment_terminal
terminal_iff_stuck =
    (pipeline-IsConsistent, task-IsConsistent, step-IsConsistent, deployment-IsConsistent)

pipeline_rank : PipelineRunStatus → ℕ
pipeline_rank Pipeline.created = 3
pipeline_rank Pipeline.queued = 2
pipeline_rank Pipeline.running = 1
pipeline_rank _ = 0

task_rank : TaskRunStatus → ℕ
task_rank Task.pending = 3
task_rank Task.awaiting_approval = 2
task_rank Task.running = 1
task_rank _ = 0

step_rank : StepRunStatus → ℕ
step_rank Step.pending = 2
step_rank Step.running = 1
step_rank _ = 0

pipeline_descends :
    (s to : PipelineRunStatus)
    → accepted (assert_pipeline_transition s to)
        + pipeline_rank (accept (assert_pipeline_transition s to) s to)
      ≤ pipeline_rank s
unfolding assert_pipeline_transition pipeline_rank
pipeline_descends s to = ground arith

task_descends :
    (s to : TaskRunStatus)
    → accepted (assert_task_transition s to) + task_rank (accept (assert_task_transition s to) s to)
      ≤ task_rank s
unfolding assert_task_transition task_rank
task_descends s to = ground arith

step_descends :
    (s to : StepRunStatus)
    → accepted (assert_step_transition s to) + step_rank (accept (assert_step_transition s to) s to)
      ≤ step_rank s
unfolding assert_step_transition step_rank
step_descends s to = ground arith

-- Whatever sequence of updates is requested, at most three are ever applied to a created pipeline
-- run, at most three to a pending task run and at most two to a pending step run.
pub updates_bounded :
    ((us : List PipelineRunStatus)
      → count_accepted assert_pipeline_transition Pipeline.created us ≤ 3)
    × ((us : List TaskRunStatus) → count_accepted assert_task_transition Task.pending us ≤ 3)
    × ((us : List StepRunStatus) → count_accepted assert_step_transition Step.pending us ≤ 2)
unfolding pipeline_rank task_rank step_rank
updates_bounded = (
  count_accepted-le assert_pipeline_transition pipeline_rank pipeline_descends Pipeline.created,
  count_accepted-le assert_task_transition task_rank task_descends Task.pending,
  count_accepted-le assert_step_transition step_rank step_descends Step.pending,
)
