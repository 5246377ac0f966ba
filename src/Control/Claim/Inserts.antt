-- ===== src/Control/Claim/Inserts.antt =====
-- The rows that a claim inserts for the tasks of the pipeline's version: task runs, approvals of
-- gated tasks, and step runs.
use dev_ops_deployment_tool.Common.{
  ℕ, suc, ◌+◌, Bool, false, Option, none, some, List, [], ◌∷◌, ◌++◌, String, str_eq, ◌==◌, leb,
  if◌then◌else◌, length,
}
use dev_ops_deployment_tool.Status.Task
use dev_ops_deployment_tool.Status.Step
use dev_ops_deployment_tool.Control.Tables.{select}
use dev_ops_deployment_tool.Control.Database.{
  TaskRun, StepRun, Approval, pending, VersionTask, VersionStep,
}

-- `DEFAULT_REQUIRED_APPROVALS` of packages/shared/src/constants.ts.
abbrev pub default_required_approvals : ℕ
default_required_approvals = 1

-- `a ?? b`
abbrev pub or_default {ℓ} : {A : Type ℓ} → Option A → A → A
or_default (some a) b = a
or_default none b = b

abbrev pub task_row : ℕ → ℕ → ℕ → String → VersionTask → TaskRun
task_row id run_id index name config = record {
  id = id;
  pipeline_run_id = run_id;
  task_name = name;
  status = Task.pending;
  sort_order = index;
  depends_on = config.depends_on;
  approval_required = or_default config.approval_required false;
  started_at = none;
  finished_at = none;
}

unfoldable pub task_rows : (ℕ → ℕ) → ℕ → ℕ → List (String × VersionTask) → List TaskRun
task_rows new_id run_id index [] = []
task_rows new_id run_id index ((name, config) ∷ tasks) =
    task_row (new_id index) run_id index name config ∷ task_rows new_id run_id (suc index) tasks

-- `tasks[name]`
unfoldable pub config_named : List (String × VersionTask) → String → Option VersionTask
config_named [] name = none
config_named ((other, config) ∷ tasks) name =
    let rest = config_named tasks name in if str_eq other name then some config else rest

-- `tasks[name]?.approval_required`
abbrev pub is_gated : Option VersionTask → Bool
is_gated none = false
is_gated (some config) = or_default config.approval_required false

abbrev pub max : ℕ → ℕ → ℕ
max a b = if leb a b then b else a

abbrev pub approvals_wanted : Option VersionTask → ℕ
approvals_wanted none = max 1 default_required_approvals
approvals_wanted (some config) =
    max 1 (or_default config.required_approvals default_required_approvals)

unfoldable pub approval_rows : List (String × VersionTask) → List TaskRun → List Approval
approval_rows tasks [] = []
approval_rows tasks (t ∷ ts) =
    let rest = approval_rows tasks ts in
    let config = config_named tasks t.task_name in
    if is_gated config
    then record {
      task_run_id = t.id;
      required_approvals = approvals_wanted config;
      status = pending;
    }
      ∷ rest
    else rest

abbrev pub steps_of : Option VersionTask → List VersionStep
steps_of none = []
steps_of (some config) = config.steps

abbrev pub step_row : ℕ → ℕ → ℕ → VersionStep → StepRun
step_row id task_id index step = record {
  id = id;
  task_run_id = task_id;
  step_name = step.name;
  status = Step.pending;
  sort_order = index;
  command = step.command;
  exit_code = none;
  started_at = none;
  finished_at = none;
}

unfoldable pub rows_of_task : (ℕ → ℕ) → ℕ → ℕ → ℕ → List VersionStep → List StepRun
rows_of_task new_id serial task_id index [] = []
rows_of_task new_id serial task_id index (step ∷ steps) =
    step_row (new_id serial) task_id index step
    ∷ rows_of_task new_id (suc serial) task_id (suc index) steps

-- All step runs, numbered on through the tasks.
unfoldable pub step_rows : (ℕ → ℕ) → ℕ → List (String × VersionTask) → List TaskRun → List StepRun
step_rows new_id serial tasks [] = []
step_rows new_id serial tasks (t ∷ ts) =
    let steps = steps_of (config_named tasks t.task_name) in
    rows_of_task new_id serial t.id 0 steps ++ step_rows new_id (serial + length steps) tasks ts

-- `sort((a, b) => a.sort_order - b.sort_order)`
unfoldable pub insert_sorted : StepRun → List StepRun → List StepRun
insert_sorted s [] = s ∷ []
insert_sorted s (x ∷ xs) =
    let rest = insert_sorted s xs in if leb s.sort_order x.sort_order then s ∷ x ∷ xs else x ∷ rest

unfoldable pub sorted : List StepRun → List StepRun
sorted [] = []
sorted (x ∷ xs) = insert_sorted x (sorted xs)

-- The step runs nested under their task runs.
unfoldable pub nested : List TaskRun → List StepRun → List (TaskRun × List StepRun)
nested [] steps = []
nested (t ∷ ts) steps =
    (t, sorted (select (λ (s : StepRun). s.task_run_id == t.id) steps)) ∷ nested ts steps
