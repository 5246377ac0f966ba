-- ===== src/Control/Claim.antt =====
-- apps/web/src/app/api/runner/jobs/[runId]/claim/route.ts. The update of the run is one call of the
-- database, so its filter and its write cannot be separated.
pub mod Inserts
pub mod Expansion
pub mod Outcome
use dev_ops_deployment_tool.Common.{
  ℕ, ◌&&◌, not, Bool, true, false, Option, none, some, List, [], ◌∷◌, ◌++◌, String, ◌==◌,
  if◌then◌else◌,
}
use dev_ops_deployment_tool.Status.Pipeline
use dev_ops_deployment_tool.Control.Tables.{select, single, update}
use dev_ops_deployment_tool.Control.Database.{
  Runner, Run, TaskRun, StepRun, Version, VersionTask, Approval, Db, busy, reply, Action, ◌>>=◌,
  ◌>>◌, pure, require, write, write_or, gets, check, claim_run, occupy_runner, insert_tasks,
  insert_approvals, insert_steps,
}
use dev_ops_deployment_tool.Control.Auth.{
  Env, authenticate_runner, authorize_runner_for_run, AuthorizedRun,
}
use Inserts.{task_rows, approval_rows, step_rows, nested}

-- `target_runner_id.is.null,target_runner_id.eq.…`
abbrev pub is_open_to : ℕ → Option ℕ → Bool
is_open_to runner_id none = true
is_open_to runner_id (some target) = target == runner_id

unfoldable pub is_claimable : ℕ → ℕ → Run → Bool
is_claimable run_id runner_id r =
    r.id == run_id
    && (Pipeline.same r.status Pipeline.queued && is_open_to runner_id r.target_runner_id)

abbrev pub claimed_run : ℕ → ℕ → Run → Run
claimed_run now runner_id r = record r {
  status = Pipeline.running;
  runner_id = some runner_id;
  started_at = some now;
  updated_at = now;
}

-- The row that the claim has updated, if there is one.
unfoldable pub claim : ℕ → ℕ → ℕ → Action (Option Run)
claim now run_id runner_id = do
  found ← gets (λ db. single (select (is_claimable run_id runner_id) db.runs))
  write false (λ db. record db {
    runs = update (is_claimable run_id runner_id) (claimed_run now runner_id) db.runs;
  })
  pure found

abbrev pub tasks_of : Option Version → List (String × VersionTask)
tasks_of none = []
tasks_of (some version) = version.tasks

unfoldable pub config_of_run : Run → Db → List (String × VersionTask)
config_of_run run db =
    tasks_of (single (select (λ (v : Version). v.id == run.pipeline_version_id) db.versions))

unfoldable pub occupy : ℕ → ℕ → Db → Db
occupy run_id runner_id db = record db {
  runners =
      update (λ (r : Runner). r.id == runner_id)
        (λ (r : Runner). record r { current_job_id = some run_id; status = busy }) db.runners;
}

-- An insertion returns the inserted rows, or none where the call fails.
abbrev pub insert_into : {A : Type 0} → Bool → (List A → Db → Db) → List A → Action (List A)
insert_into fails add rows db = if fails then (reply [], db) else (reply rows, add rows db)

abbrev pub append_tasks : List TaskRun → Db → Db
append_tasks rows db = record db { tasks = db.tasks ++ rows }

abbrev pub append_steps : List StepRun → Db → Db
append_steps rows db = record db { steps = db.steps ++ rows }

abbrev pub append_approvals : List Approval → Db → Db
append_approvals rows db = record db { approvals = db.approvals ++ rows }

pub record Claimed : Type 0 where
  pub run : Run
  pub tasks : List (String × VersionTask)
  pub task_runs : List (TaskRun × List StepRun)

abbrev pub claimed_reply : Run → List (String × VersionTask) → List TaskRun → List StepRun → Claimed
claimed_reply run tasks task_runs step_runs = record {
  run = run;
  tasks = tasks;
  task_runs = nested task_runs step_runs;
}

-- The task runs, approvals and step runs of a claimed run.
unfoldable pub expand : Env → ℕ → ℕ → Run → Action Claimed
expand env run_id runner_id run = do
  write (env.fails occupy_runner) (occupy run_id runner_id)
  tasks ← gets (config_of_run run)
  task_runs ←
      insert_into (env.fails insert_tasks) append_tasks (task_rows env.new_task_id run_id 0 tasks)
  write (env.fails insert_approvals) (append_approvals (approval_rows tasks task_runs))
  step_runs ←
      insert_into (env.fails insert_steps) append_steps
        (step_rows env.new_step_id 0 tasks task_runs)
  pure (claimed_reply run tasks task_runs step_runs)

unfoldable pub post_claim : Env → Option (List ℕ) → ℕ → Action Claimed
post_claim env header run_id = do
  runner ← authenticate_runner env header
  authorized ← authorize_runner_for_run env runner run_id false
  check (not (env.fails claim_run)) 500
  run ← require (← claim env.now run_id runner.id) 409
  expand env run_id runner.id run
