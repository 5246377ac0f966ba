-- ===== src/Control/Reaper/Orphans.antt =====
-- Which runs the reaper may take for orphans.
use dev_ops_deployment_tool.Common.{
  ℕ, ◌+◌, ◌<◌, ◌≡◌, inl, inr, true, Option, none, some, List, arith,
}
use dev_ops_deployment_tool.Status.Pipeline
use dev_ops_deployment_tool.Control.Tables.{In, Each, Each-map, Once, select, select-In}
use dev_ops_deployment_tool.Control.Database.{Runner, Run, TaskRun, Db}
use dev_ops_deployment_tool.Control.Auth.{Env}
use dev_ops_deployment_tool.Control.Reaper.{
  is_run_orphaned, is_abandoned, is_stale, runner_for, orphans, is_running, timed_out_run,
  reaped_task, reaped_step, reap_orphans, is_unfinished_task,
}
use dev_ops_deployment_tool.Control.Reaper.Laws.{
  Reapable, ReapableTask, ReapableStep, runners_read, running-eq, reap_orphans-Reaps,
}

-- No runner was read for the run, or it has sent no heartbeat for 120 seconds.
abbrev pub IsGone : ℕ → Option Runner → Type 0
IsGone now none = Unit
IsGone now (some runner) =
    (heartbeat : ℕ) → runner.last_heartbeat_at ≡ some heartbeat → heartbeat + 120000 < now

-- A running run that nobody has touched for 90 seconds, of a runner that is gone.
abbrev pub IsOrphan : ℕ → List Runner → Run → Type 0
IsOrphan now runners r =
    (r.status ≡ Pipeline.running)
    × (r.updated_at + 90000 < now)
    × IsGone now (runner_for runners r.runner_id)

silent-IsGone :
    (now id : ℕ) (runner : Option Runner)
    → is_abandoned (some id) runner now 120000 ≡ true
    → IsGone now runner
unfolding is_stale
silent-IsGone now id none h = tt
silent-IsGone now id (some r) h = λ heartbeat e. ground (arith, e)

abandoned-IsGone :
    (now : ℕ) (id : Option ℕ) (runners : List Runner)
    → is_abandoned id (runner_for runners id) now 120000 ≡ true
    → IsGone now (runner_for runners id)
abandoned-IsGone now none runners h = tt
abandoned-IsGone now (some id) runners h = silent-IsGone now id (runner_for runners (some id)) h

orphaned-parts :
    (now : ℕ) (runners : List Runner) (o : Run)
    → is_run_orphaned o (runner_for runners o.runner_id) now 30000 90000 ≡ true
    → (o.updated_at + 90000 < now)
      × (is_abandoned o.runner_id (runner_for runners o.runner_id) now 120000 ≡ true)
unfolding is_run_orphaned
orphaned-parts now runners o h = (ground arith, ground arith)

orphans-IsOrphan :
    (now : ℕ) (runners : List Runner) (runs : List Run) (o : Run)
    → In o (orphans now runners (select is_running runs))
    → In o runs × IsOrphan now runners o
unfolding orphans
orphans-IsOrphan now runners runs o m =
    let (m', t) = select-In _ o (select is_running runs) m in
    let (m'', s) = select-In is_running o runs m' in
    let (idle, gone) = orphaned-parts now runners o t in
    (m'', (running-eq o.status s, idle, abandoned-IsGone now o.runner_id runners gone))

-- The reaper, whatever calls of the database fail and with distinct ids of runs: it times out no run
-- but one that is running, has not been updated for 90 seconds, and whose runner was not read or has
-- sent no heartbeat for 120 seconds; it cancels no task but an unfinished one of such a run, and no
-- step but an unfinished one; and it changes nothing else in these three tables.
pub reap_orphans-IsOrphan :
    (env : Env) (db : Db)
    → ((x y : Run) → In x db.runs → In y db.runs → x.id ≡ y.id → x ≡ y)
    → let db' = (reap_orphans env db).1 in
      let IsReaped = IsOrphan env.now (runners_read env db) in
      Each (Once IsReaped (timed_out_run env.now)) db.runs db'.runs
      × Each
          (Once
            (λ (t : TaskRun).
              (is_unfinished_task t.status ≡ true)
              × ((r : Run) × In r db.runs × IsReaped r × (t.pipeline_run_id ≡ r.id)))
            (reaped_task env.now))
          db.tasks
          db'.tasks
      × Each (Once ReapableStep (reaped_step env.now)) db.steps db'.steps
reap_orphans-IsOrphan env db keyed =
    let os = orphans env.now (runners_read env db) (select is_running db.runs) in
    let (runs, tasks, steps) = reap_orphans-Reaps env db in
    (
      Each-map (Once (Reapable os) (timed_out_run env.now)) _ db.runs _
          (λ x y m o. reaped_once x y m o) runs,
      Each-map (Once (ReapableTask os) (reaped_task env.now)) _ db.tasks _
          (λ x y m o. reaped_task_once x y o) tasks,
      steps,
    )
  where
    os : List Run
    os = orphans env.now (runners_read env db) (select is_running db.runs)

    reaped_once :
        (x y : Run)
        → In x db.runs
        → Once (Reapable os) (timed_out_run env.now) x y
        → Once (IsOrphan env.now (runners_read env db)) (timed_out_run env.now) x y
    reaped_once x y m (inl e) = inl e
    reaped_once x y m (inr ((s, (o, l, i)), e)) =
        let (here, orphan) = orphans-IsOrphan env.now (runners_read env db) db.runs o l in
        inr (rw (keyed x o m here i) orphan, e)

    reaped_task_once :
        (x y : TaskRun)
        → Once (ReapableTask os) (reaped_task env.now) x y
        → Once
            (λ (t : TaskRun).
              (is_unfinished_task t.status ≡ true)
              × ((r : Run) × In r db.runs
                  × IsOrphan env.now (runners_read env db) r
                  × (t.pipeline_run_id ≡ r.id)))
            (reaped_task env.now)
            x
            y
    reaped_task_once x y (inl e) = inl e
    reaped_task_once x y (inr ((u, (o, l, i)), e)) =
        let (here, orphan) = orphans-IsOrphan env.now (runners_read env db) db.runs o l in
        inr ((u, (o, here, orphan, i)), e)
