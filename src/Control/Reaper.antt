-- ===== src/Control/Reaper.antt =====
-- apps/web/src/lib/cron/reap-orphans.ts, with the constants of packages/shared/src/constants.ts.
-- The writes that `timeOutRun` makes at once touch different tables and are made in their order.
pub mod Laws
pub mod Orphans
use dev_ops_deployment_tool.Common.{
  ℕ, suc, ◌+◌, ◌*◌, ◌&&◌, ◌||◌, not, Bool, true, false, Option, none, some, List, [], ◌∷◌, ltb,
  ◌==◌, if◌then◌else◌, includes_of, map, length,
}
use dev_ops_deployment_tool.Status.Pipeline
use dev_ops_deployment_tool.Status.Task
use dev_ops_deployment_tool.Status.Task.{TaskRunStatus}
use dev_ops_deployment_tool.Status.Step
use dev_ops_deployment_tool.Status.Step.{StepRunStatus}
use dev_ops_deployment_tool.Control.Tables.{select, update}
use dev_ops_deployment_tool.Control.Database.{
  Runner, RunnerStatus, online, busy, offline, Run, TaskRun, StepRun, Db, reaped, run_finished,
  offline_runners, select_running, select_runners, time_out_run, select_tasks_of, cancel_tasks_of,
  cancel_steps_of, log_reaped, release_runner_of,
}
use dev_ops_deployment_tool.Control.Auth.{Env, is_id}
use dev_ops_deployment_tool.Control.StatusRoute.{add_entry}
use dev_ops_deployment_tool.Control.Cancel.{is_task_of, is_among, task_id}

abbrev pub heartbeat_interval_ms : ℕ
heartbeat_interval_ms = 10000

abbrev pub runner_stale_heartbeat_multiplier : ℕ
runner_stale_heartbeat_multiplier = 3

abbrev pub orphaned_run_grace_ms : ℕ
orphaned_run_grace_ms = 90000

abbrev pub runner_stale_after_ms : ℕ
runner_stale_after_ms = heartbeat_interval_ms * runner_stale_heartbeat_multiplier

unfoldable pub is_stale : Option ℕ → ℕ → ℕ → Bool
is_stale none now stale_after = true
is_stale (some heartbeat) now stale_after = ltb (heartbeat + stale_after) now

-- The verdict on a run that has been idle for long enough.
abbrev pub is_abandoned : Option ℕ → Option Runner → ℕ → ℕ → Bool
is_abandoned none runner now limit = true
is_abandoned (some id) none now limit = true
is_abandoned (some id) (some runner) now limit = is_stale runner.last_heartbeat_at now limit

unfoldable pub is_run_orphaned : Run → Option Runner → ℕ → ℕ → ℕ → Bool
unfolding is_stale
is_run_orphaned run runner now stale_after grace =
    ltb (run.updated_at + grace) now && is_abandoned run.runner_id runner now (stale_after + grace)

-- `runnersById.get(id)`: the map keeps the last of two entries for a key.
unfoldable pub runner_by_id : List Runner → ℕ → Option Runner
runner_by_id [] id = none
runner_by_id (r ∷ rs) id = elim (runner_by_id rs id) [
  | some later ↦ some later
  | none ↦ if r.id == id then some r else none
]

abbrev pub runner_for : List Runner → Option ℕ → Option Runner
runner_for runners none = none
runner_for runners (some id) = runner_by_id runners id

abbrev pub is_running : Run → Bool
is_running r = Pipeline.same r.status Pipeline.running

-- The runs that were read as running and judged as orphaned.
unfoldable pub orphans : ℕ → List Runner → List Run → List Run
unfolding is_run_orphaned
orphans now runners runs =
    select
      (λ (r : Run).
        is_run_orphaned r (runner_for runners r.runner_id) now runner_stale_after_ms
          orphaned_run_grace_ms)
      runs

abbrev pub is_live : RunnerStatus → Bool
is_live online = true
is_live busy = true
is_live offline = false

abbrev pub is_silent : ℕ → Runner → Bool
is_silent now r = is_live r.status && is_stale r.last_heartbeat_at now runner_stale_after_ms

unfoldable pub mark_offline : ℕ → Db → Db
unfolding is_stale
mark_offline now db = record db {
  runners = update (is_silent now) (λ (r : Runner). record r { status = offline }) db.runners;
}

abbrev pub timed_out_run : ℕ → Run → Run
timed_out_run now r = record r {
  status = Pipeline.timed_out;
  finished_at = some now;
  updated_at = now;
}

-- A run that is still running.
abbrev pub is_still : ℕ → Run → Bool
is_still run_id r = r.id == run_id && is_running r

unfoldable pub set_timed_out : ℕ → ℕ → Db → Db
set_timed_out now run_id db = record db {
  runs = update (is_still run_id) (timed_out_run now) db.runs;
}

unfoldable pub is_unfinished_task : TaskRunStatus → Bool
unfolding includes_of
is_unfinished_task =
    includes_of Task.same (Task.pending ∷ Task.running ∷ Task.awaiting_approval ∷ [])

unfoldable pub is_unfinished_step : StepRunStatus → Bool
unfolding includes_of
is_unfinished_step = includes_of Step.same (Step.pending ∷ Step.running ∷ [])

abbrev pub reaped_task : ℕ → TaskRun → TaskRun
reaped_task now t = record t { status = Task.cancelled; finished_at = some now }

abbrev pub reaped_step : ℕ → StepRun → StepRun
reaped_step now s = record s { status = Step.cancelled; finished_at = some now }

unfoldable pub reap_tasks : ℕ → ℕ → Db → Db
reap_tasks now run_id db = record db {
  tasks =
      update (λ (t : TaskRun). is_task_of run_id t && is_unfinished_task t.status) (reaped_task now)
        db.tasks;
}

unfoldable pub reap_steps : ℕ → List ℕ → Db → Db
reap_steps now ids db = record db {
  steps =
      update (λ (s : StepRun). is_among ids s.task_run_id && is_unfinished_step s.status)
        (reaped_step now) db.steps;
}

abbrev pub frees : Run → Option ℕ → Runner → Bool
frees run none r = false
frees run (some id) r = r.id == id && is_id run.id r.current_job_id

-- The runner keeps its status, and loses the job only if it is this run.
unfoldable pub free_reaped : Run → Db → Db
free_reaped run db = record db {
  runners =
      update (frees run run.runner_id) (λ (r : Runner). record r { current_job_id = none })
        db.runners;
}

abbrev pub unless : Bool → (Db → Db) → Db → Db
unless fails change db = if fails then db else change db

unfoldable pub task_ids_of : Env → ℕ → Db → List ℕ
task_ids_of env run_id db =
    if env.fails (select_tasks_of run_id)
    then []
    else map task_id (select (is_task_of run_id) db.tasks)

-- The tasks, steps, log, runner and notification of a run that has been timed out.
unfoldable pub close_run : Env → Run → Db → Db
close_run env run db =
    let ids = task_ids_of env run.id db in
    let d₁ = unless (env.fails (cancel_tasks_of run.id)) (reap_tasks env.now run.id) db in
    let d₂ = unless (env.fails (cancel_steps_of run.id)) (reap_steps env.now ids) d₁ in
    let log = add_entry (reaped run.id run.runner_id) in
    let d₃ = unless (env.fails (log_reaped run.id)) log d₂ in
    add_entry (run_finished run.id Pipeline.timed_out)
      (unless (env.fails (release_runner_of run.id)) (free_reaped run) d₃)

-- `true`, `false` or an error text.
pub data TimeOut : Type 0 where
  timed_out finished_meanwhile failed : TimeOut

abbrev pub settled : Env → Run → Db → List Run → TimeOut × Db
settled env run db [] = (finished_meanwhile, db)
settled env run db (x ∷ xs) = (timed_out, close_run env run (set_timed_out env.now run.id db))

unfoldable pub time_out_run_of : Env → Run → Db → TimeOut × Db
time_out_run_of env run db =
    if env.fails (time_out_run run.id)
    then (failed, db)
    else settled env run db (select (is_still run.id) db.runs)

pub record ReapResult : Type 0 where
  pub runners_marked_offline : ℕ
  pub runs_timed_out : ℕ
  pub errors : ℕ

abbrev pub tally : TimeOut → ReapResult → ReapResult
tally timed_out c = record c { runs_timed_out = suc c.runs_timed_out }
tally finished_meanwhile c = c
tally failed c = record c { errors = suc c.errors }

unfoldable pub reap_all : Env → List Run → ReapResult → Db → ReapResult × Db
reap_all env [] c db = (c, db)
reap_all env (run ∷ runs) c db =
    let (outcome, db') = time_out_run_of env run db in reap_all env runs (tally outcome c) db'

-- The runners marked as offline, with the count or an error.
unfoldable pub mark : Env → Db → ReapResult × Db
unfolding is_stale
mark env db =
    if env.fails offline_runners
    then (record { runners_marked_offline = 0; runs_timed_out = 0; errors = 1 }, db)
    else (
      record {
        runners_marked_offline = length (select (is_silent env.now) db.runners);
        runs_timed_out = 0;
        errors = 0;
      },
      mark_offline env.now db,
    )

unfoldable pub reap_orphans : Env → Db → ReapResult × Db
reap_orphans env db =
    let (c, marked) = mark env db in
    let runners = if env.fails select_runners then [] else marked.runners in
    if env.fails select_running
    then (record c { errors = suc c.errors }, marked)
    else reap_all env (orphans env.now runners (select is_running marked.runs)) c marked
