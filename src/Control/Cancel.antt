-- ===== src/Control/Cancel.antt =====
-- `cancelPipelineRun` of apps/web/src/app/(dashboard)/projects/[projectId]/runs/actions.ts, and
-- `hasMinRole` of packages/shared/src/validators/membership.ts.
pub mod Outcome
use dev_ops_deployment_tool.Common.{
  ℕ, ◌&&◌, ◌||◌, not, includes, Bool, true, false, Option, none, some, List, [], ◌∷◌, String,
  str_eq, leb, ◌==◌, if◌then◌else◌, includes_of, map,
}
use dev_ops_deployment_tool.Status.Pipeline
use dev_ops_deployment_tool.Status.Pipeline.{PipelineRunStatus}
use dev_ops_deployment_tool.Status.Task
use dev_ops_deployment_tool.Status.Task.{TaskRunStatus}
use dev_ops_deployment_tool.Status.Step
use dev_ops_deployment_tool.Status.Step.{StepRunStatus}
use dev_ops_deployment_tool.Control.Tables.{select, single, update}
use dev_ops_deployment_tool.Control.Database.{
  Runner, online, Run, TaskRun, StepRun, Db, Query, select_status, cancel_run, cancel_tasks,
  select_tasks, cancel_steps, release_runner, select_runner_id, Action, ◌>>=◌, ◌>>◌, pure, require,
  check, write, write_or, gets,
}
use dev_ops_deployment_tool.Control.Auth.{Env}

-- `ROLE_HIERARCHY[role]`
unfoldable pub level : String → Option ℕ
level role =
    if str_eq role "viewer"
    then some 0
    else if str_eq role "developer"
    then some 1
    else if str_eq role "admin"
    then some 2
    else if str_eq role "owner"
    then some 3
    else none

-- A role that is not listed is below every level, and a minimum that is not listed above.
abbrev pub reaches_level : Option ℕ → Option ℕ → Bool
reaches_level (some user) (some wanted) = leb wanted user
reaches_level _ _ = false

unfoldable pub has_min_role : String → String → Bool
has_min_role user_role min_role = reaches_level (level user_role) (level min_role)

-- The errors of the action, which are texts in the source.
abbrev pub not_permitted : ℕ
not_permitted = 0

abbrev pub run_not_found : ℕ
run_not_found = 1

abbrev pub already_finished : ℕ
already_finished = 2

abbrev pub cancel_failed : ℕ
cancel_failed = 3

-- `TERMINAL_STATUSES.has(run.status)`
unfoldable pub is_finished_run : PipelineRunStatus → Bool
unfolding includes_of
is_finished_run =
    includes_of Pipeline.same
      (Pipeline.success ∷ Pipeline.failed ∷ Pipeline.cancelled ∷ Pipeline.timed_out ∷ [])

-- `TERMINAL_STATUSES`
unfoldable pub terminal_statuses : List String
terminal_statuses = "success" ∷ "failed" ∷ "cancelled" ∷ "timed_out" ∷ []

-- The words of the enum `task_run_status`.
abbrev pub task_word : TaskRunStatus → String
task_word Task.pending = "pending"
task_word Task.running = "running"
task_word Task.success = "success"
task_word Task.failed = "failed"
task_word Task.cancelled = "cancelled"
task_word Task.skipped = "skipped"
task_word Task.awaiting_approval = "awaiting_approval"

unfoldable pub task_words : List String
task_words =
    "pending" ∷ "running" ∷ "success" ∷ "failed" ∷ "cancelled" ∷ "skipped" ∷ "awaiting_approval"
    ∷ []

-- The words of the enum `step_run_status`.
abbrev pub step_word : StepRunStatus → String
step_word Step.pending = "pending"
step_word Step.running = "running"
step_word Step.success = "success"
step_word Step.failed = "failed"
step_word Step.cancelled = "cancelled"
step_word Step.skipped = "skipped"

unfoldable pub step_words : List String
step_words = "pending" ∷ "running" ∷ "success" ∷ "failed" ∷ "cancelled" ∷ "skipped" ∷ []

-- Postgres refuses a query whose filter compares a column of an enum with another word.
unfoldable pub is_refused : List String → List String → Bool
unfolding includes
is_refused enum [] = false
is_refused enum (word ∷ words) = not (includes enum word) || is_refused enum words

-- The user's role in the active organisation, and what the policies of the tables (migration 008)
-- allow the user: to read the rows of a project, to change its runs, and to change the runners of an
-- organisation. A query reads, and an update changes, only the rows that they allow.
pub record Session : Type 0 where
  pub role : String
  pub reads : (project_id : ℕ) → Bool
  pub develops : (project_id : ℕ) → Bool
  pub administers : (org_id : ℕ) → Bool

abbrev pub is_run_of : ℕ → ℕ → Run → Bool
is_run_of project_id run_id r = r.id == run_id && r.project_id == project_id

abbrev pub cancelled_run : ℕ → Run → Run
cancelled_run now r = record r {
  status = Pipeline.cancelled;
  finished_at = some now;
  updated_at = now;
}

abbrev pub cancelled_task : TaskRun → TaskRun
cancelled_task t = record t { status = Task.cancelled }

abbrev pub cancelled_step : StepRun → StepRun
cancelled_step s = record s { status = Step.cancelled }

abbrev pub is_cancellable : Session → ℕ → Run → Bool
is_cancellable session run_id r =
    r.id == run_id && session.reads r.project_id && session.develops r.project_id

unfoldable pub set_cancelled : Session → ℕ → ℕ → Db → Db
set_cancelled session now run_id db = record db {
  runs = update (is_cancellable session run_id) (cancelled_run now) db.runs;
}

abbrev pub is_task_of : ℕ → TaskRun → Bool
is_task_of run_id t = t.pipeline_run_id == run_id

unfoldable pub set_tasks_cancelled : Session → ℕ → ℕ → Db → Db
unfolding includes terminal_statuses
set_tasks_cancelled session project_id run_id db = record db {
  tasks =
      update
        (λ (t : TaskRun).
          session.develops project_id
          && is_task_of run_id t
          && not (includes terminal_statuses (task_word t.status)))
        cancelled_task db.tasks;
}

abbrev pub is_among : List ℕ → ℕ → Bool
is_among ids id = includes_of (λ a b. a == b) ids id

abbrev pub task_id : TaskRun → ℕ
task_id t = t.id

-- The ids of the run's tasks.
unfoldable pub task_ids : Env → ℕ → Db → List ℕ
task_ids env run_id db =
    if env.fails select_tasks then [] else map task_id (select (is_task_of run_id) db.tasks)

unfoldable pub set_steps_cancelled : Session → ℕ → List ℕ → Db → Db
unfolding includes terminal_statuses
set_steps_cancelled session project_id ids db = record db {
  steps =
      update
        (λ (s : StepRun).
          session.develops project_id
          && is_among ids s.task_run_id
          && not (includes terminal_statuses (step_word s.status)))
        cancelled_step db.steps;
}

unfoldable pub runner_of : Env → Session → ℕ → Db → Option Run
runner_of env session run_id db =
    if env.fails select_runner_id
    then none
    else single (select (λ (r : Run). r.id == run_id && session.reads r.project_id) db.runs)

-- `updatedRun?.runner_id`
abbrev pub assigned : Option Run → Option ℕ
assigned none = none
assigned (some run) = run.runner_id

unfoldable pub free_own_runner : Session → ℕ → Db → Db
free_own_runner session runner_id db = record db {
  runners =
      update (λ (r : Runner). r.id == runner_id && session.administers r.org_id)
        (λ (r : Runner). record r { current_job_id = none; status = online }) db.runners;
}

abbrev pub free_assigned : Env → Session → Option ℕ → Action (Unit {0})
free_assigned env session none = pure tt
free_assigned env session (some runner_id) =
    write (env.fails release_runner) (free_own_runner session runner_id)

unfoldable pub find_run_of : Env → Session → ℕ → ℕ → Db → Option Run
find_run_of env session project_id run_id db =
    if env.fails select_status
    then none
    else single
        (select (λ (r : Run). is_run_of project_id run_id r && session.reads r.project_id) db.runs)

-- The errors of these updates are ignored. An update of no step where there is no task.
unfoldable pub cancel_children : Env → Session → ℕ → ℕ → Action (Unit {0})
unfolding is_refused task_words step_words terminal_statuses
cancel_children env session project_id run_id = do
  write (is_refused task_words terminal_statuses || env.fails cancel_tasks)
      (set_tasks_cancelled session project_id run_id)
  ids ← gets (task_ids env run_id)
  write (is_refused step_words terminal_statuses || env.fails cancel_steps)
      (set_steps_cancelled session project_id ids)
  run ← gets (runner_of env session run_id)
  free_assigned env session (assigned run)

unfoldable pub cancel_pipeline_run : Env → Session → ℕ → ℕ → Action (Unit {0})
cancel_pipeline_run env session project_id run_id = do
  check (has_min_role session.role "developer") not_permitted
  run ← require (← gets (find_run_of env session project_id run_id)) run_not_found
  check (not (is_finished_run run.status)) already_finished
  write_or cancel_failed (env.fails cancel_run) (set_cancelled session env.now run_id)
  cancel_children env session project_id run_id
