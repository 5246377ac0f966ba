-- ===== src/Control/StatusRoute/Legal.antt =====
-- A report changes the row that it names, of a run that the runner has claimed, and only along the
-- transition tables.
use dev_ops_deployment_tool.Common.{
  ℕ, ◌≡◌, refl, sym, ap, ◌∙◌, ◌⊎◌, inl, inr, true, some, List, String, arith, ==_iff,
}
use dev_ops_deployment_tool.Status.Pipeline.{PipelineRunStatus, validate_pipeline_transition}
use dev_ops_deployment_tool.Status.Task.{TaskRunStatus, validate_task_transition}
use dev_ops_deployment_tool.Status.Step.{StepRunStatus, validate_step_transition}
use dev_ops_deployment_tool.Control.Tables.{
  In, Each, Each-refl, Each-update, single-In, single-eq, select, single,
}
use dev_ops_deployment_tool.Control.Database.{Run, TaskRun, StepRun, Db}
use dev_ops_deployment_tool.Control.Auth.{Env}
use dev_ops_deployment_tool.Control.Auth.Laws.{the_run}
use dev_ops_deployment_tool.Control.StatusRoute.{StatusUpdate}
use dev_ops_deployment_tool.Control.StatusRoute.Rows.{
  ReportedStatus, to_pipeline, to_task, to_step, find_status, find_task, find_step, set_run,
  set_task, set_step, truthy, reported_run, reported_task, reported_step, is_run, is_task,
  is_named_task, is_step, is_named_step,
}
use dev_ops_deployment_tool.Control.StatusRoute.Changes.{WroteRun, WroteTask, WroteStep}

-- The primary keys of tasks and steps.
abbrev pub IsKeyed : Db → Type 0
IsKeyed db =
    ((x y : TaskRun) → In x db.tasks → In y db.tasks → x.id ≡ y.id → x ≡ y)
    × ((x y : StepRun) → In x db.steps → In y db.steps → x.id ≡ y.id → x ≡ y)

module _ (now run_id runner_id : ℕ) (u : StatusUpdate) where
  -- A run is kept, or it is the one named, the runner has claimed it, and its status moves along
  -- the table.
  abbrev pub RunChange : Run → Run → Type 0
  RunChange x y =
      (y ≡ x)
      ⊎ ((to : PipelineRunStatus) × (x.id ≡ run_id)
          × (x.runner_id ≡ some runner_id)
          × (to_pipeline u.status ≡ some to)
          × (validate_pipeline_transition x.status to ≡ true)
          × (y ≡ reported_run now to u.report (truthy x.git_sha) x))

module _ (run_id : ℕ) (u : StatusUpdate) where
  abbrev pub TaskChange : TaskRun → TaskRun → Type 0
  TaskChange x y =
      (y ≡ x)
      ⊎ ((to : TaskRunStatus) × (x.pipeline_run_id ≡ run_id)
          × (to_task u.status ≡ some to)
          × (validate_task_transition x.status to ≡ true)
          × (y ≡ reported_task to u.report x))

  abbrev pub StepChange : List TaskRun → StepRun → StepRun → Type 0
  StepChange tasks x y =
      (y ≡ x)
      ⊎ ((t : TaskRun) × (to : StepRunStatus) × In t tasks
          × (t.pipeline_run_id ≡ run_id)
          × (x.task_run_id ≡ t.id)
          × (to_step u.status ≡ some to)
          × (validate_step_transition x.status to ≡ true)
          × (y ≡ reported_step to u.report x))

abbrev pub Changed : Env → ℕ → ℕ → StatusUpdate → Db → Db → Type 0
Changed env run_id runner_id u db db' =
    Each (RunChange env.now run_id runner_id u) db.runs db'.runs
    × Each (TaskChange run_id u) db.tasks db'.tasks
    × Each (StepChange run_id u db.tasks) db.steps db'.steps

find_status-eq :
    (env : Env) (run_id : ℕ) (db : Db) (r : Run)
    → find_status env run_id db ≡ some r
    → the_run run_id db ≡ some r
unfolding find_status
find_status-eq env run_id db r h = ground arith

find_task-eq :
    (env : Env) (run_id : ℕ) (name : String) (db : Db) (t : TaskRun)
    → find_task env run_id name db ≡ some t
    → In t db.tasks × (t.pipeline_run_id ≡ run_id)
unfolding find_task
find_task-eq env run_id name db t h =
    let e : single (select (is_named_task run_id name) db.tasks) ≡ some t = ground arith in
    let (i, n) = single-In (is_named_task run_id name) t db.tasks e in (i, ground arith)

find_step-eq :
    (env : Env) (task_id : ℕ) (name : String) (db : Db) (s : StepRun)
    → find_step env task_id name db ≡ some s
    → In s db.steps × (s.task_run_id ≡ task_id)
unfolding find_step
find_step-eq env task_id name db s h =
    let e : single (select (is_named_step task_id name) db.steps) ≡ some s = ground arith in
    let (i, n) = single-In (is_named_step task_id name) s db.steps e in (i, ground arith)

module _ (env : Env) (run_id runner_id : ℕ) (u : StatusUpdate) (db : Db) where
  pub set_run-Changed :
      (r : Run)
      → the_run run_id db ≡ some r
      → r.runner_id ≡ some runner_id
      → (s : ReportedStatus) (db' : Db) → WroteRun env run_id u db s db'
      → Changed env run_id runner_id u db db'
  unfolding set_run
  set_run-Changed r here owner s db' (r', to, found, known, valid, (er, et, es)) =
      rw (er, et, es)
        (
          Each-update (RunChange env.now run_id runner_id u) (is_run run_id) _ (λ x. inl refl)
              db.runs
              (λ x m t.
                let e =
                  single-eq (is_run run_id) r' x db.runs (find_status-eq env run_id db r' found) m
                    t in
                let e' = single-eq (is_run run_id) r x db.runs here m t in
                inr (
                  to,
                  (==_iff x.id run_id).0 t,
                  ap (λ (q : Run). q.runner_id) e' ∙ owner,
                  known,
                  rw (ap (λ (q : Run). q.status) e) valid,
                  ap (λ (q : Run). reported_run env.now to u.report (truthy q.git_sha) x) (sym e),
                )),
          Each-refl (TaskChange run_id u) (λ x. inl refl) db.tasks,
          Each-refl (StepChange run_id u db.tasks) (λ x. inl refl) db.steps,
        )

  pub set_task-Changed :
      IsKeyed db
      → (name : String) (s : ReportedStatus) (db' : Db) → WroteTask env run_id u db name s db'
      → Changed env run_id runner_id u db db'
  unfolding set_task
  set_task-Changed keyed name s db' (t', to, found, known, valid, (er, et, es)) =
      let (here, mine) = find_task-eq env run_id name db t' found in
      rw (er, et, es)
        (
          Each-refl (RunChange env.now run_id runner_id u) (λ x. inl refl) db.runs,
          Each-update (TaskChange run_id u) (is_task t'.id) _ (λ x. inl refl) db.tasks
              (λ x m t.
                let e = keyed.0 x t' m here ((==_iff x.id t'.id).0 t) in
                inr (
                  to,
                  ap (λ (q : TaskRun). q.pipeline_run_id) e ∙ mine,
                  known,
                  rw (ap (λ (q : TaskRun). q.status) e) valid,
                  refl,
                )),
          Each-refl (StepChange run_id u db.tasks) (λ x. inl refl) db.steps,
        )

  pub set_step-Changed :
      IsKeyed db
      → (name step_name : String) (s : ReportedStatus) (db' : Db)
      → WroteStep env run_id u db name step_name s db'
      → Changed env run_id runner_id u db db'
  unfolding set_step
  set_step-Changed keyed name step_name s db'
        (t', s', to, t_found, s_found, known, valid, (er, et, es)) =
      let (here, mine) = find_task-eq env run_id name db t' t_found in
      let (there, its) = find_step-eq env t'.id step_name db s' s_found in
      rw (er, et, es)
        (
          Each-refl (RunChange env.now run_id runner_id u) (λ x. inl refl) db.runs,
          Each-refl (TaskChange run_id u) (λ x. inl refl) db.tasks,
          Each-update (StepChange run_id u db.tasks) (is_step s'.id) _ (λ x. inl refl) db.steps
              (λ x m t.
                let e = keyed.1 x s' m there ((==_iff x.id s'.id).0 t) in
                inr (
                  t',
                  to,
                  here,
                  mine,
                  ap (λ (q : StepRun). q.task_run_id) e ∙ its,
                  known,
                  rw (ap (λ (q : StepRun). q.status) e) valid,
                  refl,
                )),
        )
