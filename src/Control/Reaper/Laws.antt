-- ===== src/Control/Reaper/Laws.antt =====
-- What the reaper changes.
use dev_ops_deployment_tool.Common.{
  ℕ, ◌≡◌, refl, inl, inr, Bool, true, false, List, [], ◌∷◌, arith, Bool-cases, if◌then◌else◌,
}
use dev_ops_deployment_tool.Status.Pipeline
use dev_ops_deployment_tool.Status.Pipeline.{PipelineRunStatus}
use dev_ops_deployment_tool.Control.Tables.{
  In, Each, Each-refl, Each-update, Each-trans, Once, Once-trans, select,
}
use dev_ops_deployment_tool.Control.Database.{
  Runner, Run, TaskRun, StepRun, Db, time_out_run, offline_runners, select_runners, select_running,
  reaped, cancel_tasks_of, cancel_steps_of, log_reaped, release_runner_of,
}
use dev_ops_deployment_tool.Control.Auth.{Env}
use dev_ops_deployment_tool.Control.StatusRoute.{add_entry}
use dev_ops_deployment_tool.Control.Reaper.{
  orphans, is_running, mark, mark_offline, set_timed_out, timed_out_run, is_still, reaped_task,
  reaped_step, reap_tasks, reap_steps, is_unfinished_task, is_unfinished_step, free_reaped,
  close_run, time_out_run_of, reap_all, reap_orphans, ReapResult, tally, unless, settled,
  task_ids_of,
}

module _ (os : List Run) where
  -- A run is timed out if it runs and is listed as an orphan.
  abbrev pub Reapable : Run → Type 0
  Reapable x = (x.status ≡ Pipeline.running) × ((o : Run) × In o os × (x.id ≡ o.id))

  -- An unfinished task of an orphan is cancelled.
  abbrev pub ReapableTask : TaskRun → Type 0
  ReapableTask t =
      (is_unfinished_task t.status ≡ true) × ((o : Run) × In o os × (t.pipeline_run_id ≡ o.id))

abbrev pub ReapableStep : StepRun → Type 0
ReapableStep s = is_unfinished_step s.status ≡ true

module _ (now : ℕ) (os : List Run) where
  abbrev pub Reaps : Db → Db → Type 0
  Reaps db db' =
      Each (Once (Reapable os) (timed_out_run now)) db.runs db'.runs
      × Each (Once (ReapableTask os) (reaped_task now)) db.tasks db'.tasks
      × Each (Once ReapableStep (reaped_step now)) db.steps db'.steps

  Reaps-refl : (db : Db) → Reaps db db
  Reaps-refl db = (
    Each-refl (Once (Reapable os) (timed_out_run now)) (λ x. inl refl) db.runs,
    Each-refl (Once (ReapableTask os) (reaped_task now)) (λ x. inl refl) db.tasks,
    Each-refl (Once ReapableStep (reaped_step now)) (λ x. inl refl) db.steps,
  )

  Reaps-trans : (a b c : Db) → Reaps a b → Reaps b c → Reaps a c
  unfolding is_unfinished_task is_unfinished_step
  Reaps-trans a b c (p, q, r) (p', q', r') = (
    Each-trans (Once (Reapable os) (timed_out_run now))
        (Once-trans (Reapable os) (timed_out_run now) (λ x h. ground arith)) a.runs b.runs c.runs p
        p',
    Each-trans (Once (ReapableTask os) (reaped_task now))
        (Once-trans (ReapableTask os) (reaped_task now) (λ x h. ground arith)) a.tasks b.tasks
        c.tasks q q',
    Each-trans (Once ReapableStep (reaped_step now))
        (Once-trans ReapableStep (reaped_step now) (λ x h. ground arith)) a.steps b.steps c.steps r
        r',
  )

pub running-eq :
    (s : PipelineRunStatus) → Pipeline.same s Pipeline.running ≡ true → s ≡ Pipeline.running
running-eq s h = ground arith

is_still-eq :
    (id : ℕ) (x : Run) → is_still id x ≡ true → (x.id ≡ id) × (x.status ≡ Pipeline.running)
is_still-eq id x h = ground (arith, running-eq x.status)

module _ (env : Env) (os : List Run) (run : Run) (listed : In run os) where
  set_timed_out-Reaps : (db : Db) → Reaps env.now os db (set_timed_out env.now run.id db)
  unfolding set_timed_out
  set_timed_out-Reaps db =
      let (_, t, s) = Reaps-refl env.now os db in
      (
        Each-update (Once (Reapable os) (timed_out_run env.now)) (is_still run.id)
            (timed_out_run env.now) (λ x. inl refl) db.runs
            (λ x m t. let (i, s) = is_still-eq run.id x t in inr ((s, (run, listed, i)), refl)),
        t,
        s,
      )

  reap_tasks-Reaps : (db : Db) → Reaps env.now os db (reap_tasks env.now run.id db)
  unfolding reap_tasks
  reap_tasks-Reaps db =
      let (r, _, s) = Reaps-refl env.now os db in
      (
        r,
        Each-update (Once (ReapableTask os) (reaped_task env.now)) _ (reaped_task env.now)
            (λ x. inl refl) db.tasks
            (λ x m t. inr ((ground arith, (run, listed, ground arith)), refl)),
        s,
      )

  reap_steps-Reaps : (ids : List ℕ) (db : Db) → Reaps env.now os db (reap_steps env.now ids db)
  unfolding reap_steps
  reap_steps-Reaps ids db =
      let (r, t, _) = Reaps-refl env.now os db in
      (
        r,
        t,
        Each-update (Once ReapableStep (reaped_step env.now)) _ (reaped_step env.now)
            (λ x. inl refl) db.steps (λ x m t. inr (ground arith, refl)),
      )

  unless-Reaps :
      (fails : Bool) (change : Db → Db) (db d : Db)
      → ((e : Db) → Reaps env.now os e (change e))
      → Reaps env.now os db d
      → Reaps env.now os db (unless fails change d)
  unless-Reaps true change db d h k = k
  unless-Reaps false change db d h k = Reaps-trans env.now os db d (change d) k (h d)

  close_run-Reaps : (db : Db) → Reaps env.now os db (close_run env run db)
  unfolding close_run free_reaped
  close_run-Reaps db =
      let ids = task_ids_of env run.id db in
      let d₁ = unless (env.fails (cancel_tasks_of run.id)) (reap_tasks env.now run.id) db in
      let d₂ = unless (env.fails (cancel_steps_of run.id)) (reap_steps env.now ids) d₁ in
      let log = add_entry (reaped run.id run.runner_id) in
      let d₃ = unless (env.fails (log_reaped run.id)) log d₂ in
      unless-Reaps (env.fails (release_runner_of run.id)) (free_reaped run) db d₃
        (λ d. Reaps-refl env.now os d)
        (unless-Reaps (env.fails (log_reaped run.id)) log db d₂ (λ d. Reaps-refl env.now os d)
          (unless-Reaps (env.fails (cancel_steps_of run.id)) (reap_steps env.now ids) db d₁
            (reap_steps-Reaps ids)
            (unless-Reaps (env.fails (cancel_tasks_of run.id)) (reap_tasks env.now run.id) db db
              reap_tasks-Reaps (Reaps-refl env.now os db))))

  time_out_run_of-Reaps : (db : Db) → Reaps env.now os db (time_out_run_of env run db).1
  unfolding time_out_run_of
  time_out_run_of-Reaps db = elim (Bool-cases (env.fails (time_out_run run.id))) [
    | inl e ↦ rw e (Reaps-refl env.now os db)
    | inr e ↦ rw e (found (select (is_still run.id) db.runs))
  ]
    where
      found : (xs : List Run) → Reaps env.now os db (settled env run db xs).1
      found [] = Reaps-refl env.now os db
      found (x ∷ xs) =
          let d = set_timed_out env.now run.id db in
          Reaps-trans env.now os db d (close_run env run d) (set_timed_out-Reaps db)
            (close_run-Reaps d)

reap_all-Reaps :
    (env : Env) (os runs : List Run) (c : ReapResult) (db : Db)
    → ((r : Run) → In r runs → In r os)
    → Reaps env.now os db (reap_all env runs c db).1
unfolding reap_all
reap_all-Reaps env os [] c db h = Reaps-refl env.now os db
reap_all-Reaps env os (run ∷ runs) c db h =
    let (outcome, d) = time_out_run_of env run db in
    let c' = tally outcome c in
    Reaps-trans env.now os db d (reap_all env runs c' d).1
      (time_out_run_of-Reaps env os run (h run (inl refl)) db)
      (reap_all-Reaps env os runs c' d (λ r m. h r (inr m)))

-- The runners that the reaper has read.
abbrev pub runners_read : Env → Db → List Runner
runners_read env db = if env.fails select_runners then [] else (mark env db).1.runners

mark-runs :
    (env : Env) (db : Db)
    → ((mark env db).1.runs ≡ db.runs)
      × ((mark env db).1.tasks ≡ db.tasks)
      × ((mark env db).1.steps ≡ db.steps)
unfolding mark mark_offline
mark-runs env db = elim (Bool-cases (env.fails offline_runners)) [
  | inl e ↦ rw e (refl, refl, refl)
  | inr e ↦ rw e (refl, refl, refl)
]

-- The same from the tables before the runners were marked.
reap_all-marked :
    (env : Env) (runners : List Runner) (marked : Db) (c : ReapResult) (runs : List Run)
    (tasks : List TaskRun) (steps : List StepRun)
    → marked.runs ≡ runs
    → marked.tasks ≡ tasks
    → marked.steps ≡ steps
    → let os = orphans env.now runners (select is_running runs) in
      let db' =
        (reap_all env (orphans env.now runners (select is_running marked.runs)) c marked).1 in
      Each (Once (Reapable os) (timed_out_run env.now)) runs db'.runs
      × Each (Once (ReapableTask os) (reaped_task env.now)) tasks db'.tasks
      × Each (Once ReapableStep (reaped_step env.now)) steps db'.steps
reap_all-marked env runners marked c runs tasks steps er et es =
    let os = orphans env.now runners (select is_running marked.runs) in
    rw (← er) (rw (← et) (rw (← es) (reap_all-Reaps env os os c marked (λ r m. m))))

pub reap_orphans-Reaps :
    (env : Env) (db : Db)
    → let db' = (reap_orphans env db).1 in
      let os = orphans env.now (runners_read env db) (select is_running db.runs) in
      Reaps env.now os db db'
unfolding reap_orphans
reap_orphans-Reaps env db =
    let (er, et, es) = mark-runs env db in
    elim (Bool-cases (env.fails select_running)) [
      | inl e ↦ rw e (rw (er, et, es) (Reaps-refl env.now _ db))
      | inr e ↦ rw e (
          reap_all-marked env (runners_read env db) (mark env db).1 (mark env db).0 db.runs db.tasks
            db.steps er et es)
    ]
