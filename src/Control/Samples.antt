-- ===== src/Control/Samples.antt =====
-- A run that is claimed, reported on, cancelled and reaped.
use dev_ops_deployment_tool.Common.{
  ℕ, ◌+◌, ◌≡◌, refl, inl, true, false, Option, none, some, List, [], ◌∷◌, ◌++◌, length,
}
use dev_ops_deployment_tool.Status.Pipeline
use dev_ops_deployment_tool.Status.Task
use dev_ops_deployment_tool.Control.Tables.{In, Each, Once, Unique, Unique-eq, select, update}
use dev_ops_deployment_tool.Control.Database.{
  Runner, online, Run, TaskRun, StepRun, VersionTask, Db, reply, error,
}
use dev_ops_deployment_tool.Control.Rules.{Post}
use dev_ops_deployment_tool.Control.Auth.{
  Env, bearer, strip, token_of, non_empty, find_runner, authenticate_runner, find_run,
  authorize_runner_for_run,
}
use dev_ops_deployment_tool.Control.StatusRoute.{
  StatusUpdate, task, parsed, post_status, log_error, update_task_status,
}
use dev_ops_deployment_tool.Control.StatusRoute.Rows.{ReportedStatus, truthy, find_task, to_task}
use dev_ops_deployment_tool.Control.StatusRoute.Changes.{Wrote}
use dev_ops_deployment_tool.Control.StatusRoute.Legal.{IsKeyed}
use dev_ops_deployment_tool.Control.StatusRoute.Outcome.{Accepted, post_status-Accepted}
use dev_ops_deployment_tool.Control.Claim.{
  Claimed, claim, expand, occupy, config_of_run, is_claimable, post_claim,
}
use dev_ops_deployment_tool.Control.Claim.Inserts.{
  task_rows, task_row, step_rows, rows_of_task, step_row, approval_rows, config_named, nested,
  sorted, insert_sorted,
}
use dev_ops_deployment_tool.Control.Claim.Outcome.{ClaimedBy, post_claim-Outcome}
use dev_ops_deployment_tool.Control.Cancel.{Session, cancel_pipeline_run}
use dev_ops_deployment_tool.Control.Cancel.Outcome.{CancelledBy, cancel_pipeline_run-CancelledBy}
use dev_ops_deployment_tool.Control.Reaper.{
  reap_orphans, timed_out_run, reaped_task, reaped_step, is_unfinished_task,
}
use dev_ops_deployment_tool.Control.Reaper.Laws.{ReapableStep, runners_read}
use dev_ops_deployment_tool.Control.Reaper.Orphans.{IsOrphan, reap_orphans-IsOrphan}
use dev_ops_deployment_tool.Control.Requests.{Request, to_claim, to_cancel, to_reap, serve_all}
use dev_ops_deployment_tool.Control.Requests.Runs.{
  RunKeeps, run_key, serve_all-RunKeeps, is_started,
}
use dev_ops_deployment_tool.Control.Requests.Exclusive.{claim_kept, claim_once}

-- A token's hash is its length, and no call of the database fails.
abbrev env : Env
env = record {
  hash_token = length;
  fails = λ q. false;
  now = 1000000;
  new_task_id = λ i. 100 + i;
  new_step_id = λ i. 200 + i;
}

abbrev header : Option (List ℕ)
header = some (bearer ++ 1 ∷ 2 ∷ [])

abbrev worker : Runner
worker = record {
  id = 3;
  org_id = 7;
  token_hash = 2;
  current_job_id = none;
  status = online;
  last_heartbeat_at = some 5;
}

abbrev queued_run : Run
queued_run = record {
  id = 5;
  project_id = 1;
  pipeline_version_id = 9;
  status = Pipeline.queued;
  runner_id = none;
  target_runner_id = some 3;
  git_sha = none;
  started_at = none;
  finished_at = none;
  updated_at = 10;
}

abbrev build : VersionTask
build = record {
  depends_on = [];
  approval_required = some true;
  required_approvals = none;
  steps = record { name = "make"; command = "make all" } ∷ [];
}

abbrev db : Db
db = record {
  projects = record { id = 1; org_id = 7 } ∷ [];
  runners = worker ∷ [];
  versions = record { id = 9; tasks = ("build", build) ∷ [] } ∷ [];
  runs = queued_run ∷ [];
  tasks = [];
  steps = [];
  approvals = [];
  entries = [];
}

runs-Unique : Unique run_key db.runs
runs-Unique = (λ y m. absurd m, tt)

-- The reply to the claim.
abbrev reply_of_claim : Claimed
reply_of_claim = record {
  run = queued_run;
  tasks = ("build", build) ∷ [];
  task_runs =
      (
        task_row 100 5 0 "build" build,
        step_row 200 100 0 (record { name = "make"; command = "make all" }) ∷ [],
      )
      ∷ [];
}

abbrev claimed_db : Db
claimed_db = (post_claim env header 5 db).1

claim_won : post_claim env header 5 db ≡ (reply reply_of_claim, claimed_db)
unfolding post_claim authenticate_runner token_of strip non_empty find_runner select find_run
    authorize_runner_for_run claim expand occupy config_of_run is_claimable task_rows step_rows
    rows_of_task approval_rows config_named nested sorted insert_sorted update
claim_won = refl

authenticated : authenticate_runner env header db ≡ (reply worker, db)
unfolding authenticate_runner token_of strip non_empty find_runner select
authenticated = refl

abbrev owner : Session
owner = record { role = "owner"; reads = λ p. true; develops = λ p. true; administers = λ o. true }

-- The run is then cancelled, reaped and claimed again.
abbrev later : List Request
later = to_cancel env owner 1 5 ∷ to_reap env ∷ []

claim_once_example :
    (code : ℕ) × ((post_claim env header 5 (serve_all later claimed_db)).0 ≡ error code)
claim_once_example =
    claim_once env env header header 5 db claimed_db reply_of_claim later runs-Unique claim_won

serve_all-RunKeeps_example :
    Each RunKeeps db.runs (serve_all (to_claim env header 5 ∷ later) db).runs
serve_all-RunKeeps_example = serve_all-RunKeeps (to_claim env header 5 ∷ later) db runs-Unique

post_claim-Outcome_example :
    Post (Wrote (ClaimedBy env header 5 db) db) (post_claim env header 5 db)
post_claim-Outcome_example = post_claim-Outcome env header 5 db

cancel_pipeline_run-CancelledBy_example :
    Post (Wrote (CancelledBy env owner 1 5 db) db) (cancel_pipeline_run env owner 1 5 db)
cancel_pipeline_run-CancelledBy_example = cancel_pipeline_run-CancelledBy env owner 1 5 db

-- After a claim, with nothing requested since.
abbrev claimed_row : Run
claimed_row = record queued_run {
  status = Pipeline.running;
  runner_id = some 3;
  started_at = some 1000000;
  updated_at = 1000000;
}

abbrev running_db : Db
running_db = record db {
  runs = claimed_row ∷ [];
  tasks = task_row 100 5 0 "build" build ∷ [];
  steps = step_row 200 100 0 (record { name = "make"; command = "make all" }) ∷ [];
}

claim_kept_example :
    (is_started claimed_row.status ≡ true) × (claimed_row.runner_id ≡ some worker.id)
unfolding serve_all post_claim authenticate_runner token_of strip non_empty find_runner select
    find_run authorize_runner_for_run claim expand occupy config_of_run is_claimable update
claim_kept_example =
    claim_kept env header 5 db claimed_db reply_of_claim worker [] claimed_row runs-Unique
      authenticated claim_won (inl refl) refl

task_id : TaskRun → ℕ
task_id t = t.id

step_id : StepRun → ℕ
step_id s = s.id

running-IsKeyed : IsKeyed running_db
unfolding task_id step_id
running-IsKeyed = (
  Unique-eq task_id running_db.tasks (λ y m. absurd m, tt),
  Unique-eq step_id running_db.steps (λ y m. absurd m, tt),
)

-- The runner asks for an approval of the task `build`.
abbrev ask : StatusUpdate
ask = record {
  status = ReportedStatus.awaiting_approval;
  scope = task;
  task_name = some "build";
  step_name = none;
  error_message = none;
  report = record { exit_code = none; started_at = none; finished_at = none; git_sha = none };
}

post_status-Accepted_example :
    Post
      (Wrote (Accepted env 5 header (parsed ask) running_db) running_db)
      (post_status env header 5 (parsed ask) running_db)
post_status-Accepted_example =
    post_status-Accepted env 5 header (parsed ask) running_db running-IsKeyed

-- It is replied to.
post_status-ask :
    (post_status env header 5 (parsed ask) running_db).0 ≡ reply ReportedStatus.awaiting_approval
unfolding post_status authenticate_runner token_of strip non_empty find_runner select find_run
    authorize_runner_for_run log_error truthy update_task_status find_task to_task
    Task.assert_task_transition
post_status-ask = refl

-- The run was last touched, and its runner last heard of, long ago.
reap_orphans-IsOrphan_example :
    let db' = (reap_orphans env running_db).1 in
    let IsReaped = IsOrphan env.now (runners_read env running_db) in
    Each (Once IsReaped (timed_out_run env.now)) running_db.runs db'.runs
    × Each
        (Once
          (λ (t : TaskRun).
            (is_unfinished_task t.status ≡ true)
            × ((r : Run) × In r running_db.runs × IsReaped r × (t.pipeline_run_id ≡ r.id)))
          (reaped_task env.now))
        running_db.tasks
        db'.tasks
    × Each (Once ReapableStep (reaped_step env.now)) running_db.steps db'.steps
reap_orphans-IsOrphan_example =
    reap_orphans-IsOrphan env running_db (Unique-eq run_key running_db.runs (λ y m. absurd m, tt))
