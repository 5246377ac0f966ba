-- ===== src/Control/Cancel/Outcome.antt =====
-- What a cancellation writes.
use dev_ops_deployment_tool.Common.{
  ℕ, ◌≡◌, ◌≢◌, refl, ◌∙◌, ◌⊎◌, inl, inr, Bool, true, false, not, Option, none, some, includes,
  eq_iff, String, arith, Bool-cases, ◌&&◌,
}
use dev_ops_deployment_tool.Status.Pipeline
use dev_ops_deployment_tool.Status.Pipeline.{PipelineRunStatus}
use dev_ops_deployment_tool.Control.Tables.{Each, Each-update_if, In, select, single, single-In}
use dev_ops_deployment_tool.Control.Database.{Run, Db, cancel_run, release_runner}
use dev_ops_deployment_tool.Control.Rules.{Post, require-rule, check-rule, weaken-rule}
use dev_ops_deployment_tool.Control.Auth.{Env}
use dev_ops_deployment_tool.Control.StatusRoute.Changes.{Wrote, Passes}
use dev_ops_deployment_tool.Control.Cancel.{
  Session, level, has_min_role, is_finished_run, is_run_of, is_cancellable, cancelled_run,
  set_cancelled, is_refused, task_words, step_words, terminal_statuses, runner_of, assigned,
  free_own_runner, free_assigned, find_run_of, cancel_children, cancel_pipeline_run, not_permitted,
  run_not_found, already_finished,
}

-- The run is cancelled if the user may change it, and every other run is kept.
abbrev pub CancelRun : Session → ℕ → ℕ → Run → Run → Type 0
CancelRun session now run_id x y =
    (((x.id ≢ run_id)
        ⊎ ((session.reads x.project_id ≡ false) ⊎ (session.develops x.project_id ≡ false)))
      × (y ≡ x))
    ⊎ ((x.id ≡ run_id)
        × (session.develops x.project_id ≡ true)
        × (y ≡ record x { status = Pipeline.cancelled; finished_at = some now; updated_at = now }))

free_assigned-Passes :
    (env : Env) (session : Session) (id : Option ℕ) (db : Db)
    → Post (Passes db) (free_assigned env session id db)
unfolding free_own_runner
free_assigned-Passes env session none db = (refl, refl, refl)
free_assigned-Passes env session (some id) db = elim (Bool-cases (env.fails release_runner)) [
  | inl e ↦ rw e (refl, refl, refl)
  | inr e ↦ rw e (refl, refl, refl)
]

-- The updates of the tasks and steps are refused.
cancel_children-Passes :
    (env : Env) (session : Session) (project_id run_id : ℕ) (db : Db)
    → Post (Passes db) (cancel_children env session project_id run_id db)
unfolding cancel_children is_refused includes task_words step_words terminal_statuses
cancel_children-Passes env session project_id run_id db =
    free_assigned-Passes env session (assigned (runner_of env session run_id db)) db

-- The run has not finished.
abbrev pub IsOpen : PipelineRunStatus → Type 0
IsOpen s =
    (s ≢ Pipeline.success)
    × (s ≢ Pipeline.failed)
    × (s ≢ Pipeline.cancelled)
    × (s ≢ Pipeline.timed_out)

unfinished-IsOpen : (s : PipelineRunStatus) → not (is_finished_run s) ≡ true → IsOpen s
unfolding is_finished_run
unfinished-IsOpen s h = (λ e. ground arith, λ e. ground arith, λ e. ground arith, λ e. ground arith)

has_min_role-developer :
    (role : String)
    → has_min_role role "developer" ≡ true
    → (role ≡ "developer") ⊎ ((role ≡ "admin") ⊎ (role ≡ "owner"))
unfolding has_min_role level
has_min_role-developer role h =
    ground (arith, eq_iff role "developer", eq_iff role "admin", eq_iff role "owner")

-- What a reply to `cancelPipelineRun` has done.
abbrev pub CancelledBy : Env → Session → ℕ → ℕ → Db → Unit {0} → Db → Type 0
CancelledBy env session project_id run_id db _ db' =
    (r : Run) × ((session.role ≡ "developer")
      ⊎ ((session.role ≡ "admin") ⊎ (session.role ≡ "owner")))
    × In r db.runs
    × (r.id ≡ run_id)
    × (r.project_id ≡ project_id)
    × (session.reads project_id ≡ true)
    × IsOpen r.status
    × Each (CancelRun session env.now run_id) db.runs db'.runs
    × (db'.tasks ≡ db.tasks)
    × (db'.steps ≡ db.steps)

is_cancellable-kept :
    (session : Session) (run_id : ℕ) (x : Run)
    → is_cancellable session run_id x ≡ false
    → (x.id ≢ run_id)
      ⊎ ((session.reads x.project_id ≡ false) ⊎ (session.develops x.project_id ≡ false))
is_cancellable-kept session run_id x f = ground arith

set_cancelled-CancelRun :
    (session : Session) (now run_id : ℕ) (db : Db)
    → Each (CancelRun session now run_id) db.runs (set_cancelled session now run_id db).runs
unfolding set_cancelled
set_cancelled-CancelRun session now run_id db =
    Each-update_if (CancelRun session now run_id) (is_cancellable session run_id)
      (cancelled_run now) db.runs (λ x m t. inr (ground arith, ground arith, refl))
      (λ x m f. inl (is_cancellable-kept session run_id x f, refl))

set_cancelled-kept :
    (session : Session) (now run_id : ℕ) (db : Db)
    → let d = set_cancelled session now run_id db in (d.tasks ≡ db.tasks) × (d.steps ≡ db.steps)
unfolding set_cancelled
set_cancelled-kept session now run_id db = (refl, refl)

find_run_of-In :
    (env : Env) (session : Session) (project_id run_id : ℕ) (db : Db) (r : Run)
    → find_run_of env session project_id run_id db ≡ some r
    → In r db.runs
      × (r.id ≡ run_id)
      × (r.project_id ≡ project_id)
      × (session.reads project_id ≡ true)
unfolding find_run_of
find_run_of-In env session project_id run_id db r h =
    let test : Run → Bool = λ x. is_run_of project_id run_id x && session.reads x.project_id in
    let found : single (select test db.runs) ≡ some r = ground arith in
    let (m, t) = single-In test r db.runs found in
    let owner : r.project_id ≡ project_id = ground arith in (m, ground arith, owner, ground arith)

-- `cancelPipelineRun`, run alone, whatever calls of the database fail: an error changes no run, task or
-- step. A success comes only for the role of a developer, an administrator or an owner, and a run of the project that the user
-- can read and that has not finished. Then every run with this id that the policies let the user
-- change is cancelled, with the time, and every other run is kept; no task and no step changes.
pub cancel_pipeline_run-CancelledBy :
    (env : Env) (session : Session) (project_id run_id : ℕ) (db : Db)
    → Post
        (Wrote (CancelledBy env session project_id run_id db) db)
        (cancel_pipeline_run env session project_id run_id db)
unfolding cancel_pipeline_run
cancel_pipeline_run-CancelledBy env session project_id run_id db =
    let P = Wrote (CancelledBy env session project_id run_id db) db in
    check-rule P (has_min_role session.role "developer") not_permitted _ db
      (λ permitted.
        require-rule P (find_run_of env session project_id run_id db) run_not_found _ db
          (λ r found.
            check-rule P (not (is_finished_run r.status)) already_finished _ db
              (λ open_run. elim (Bool-cases (env.fails cancel_run)) [
                | inl e ↦ rw e (refl, refl, refl)
                | inr e ↦
                    let d = set_cancelled session env.now run_id db in
                    let (kt, ks) = set_cancelled-kept session env.now run_id db in
                    let (m, i, o, v) = find_run_of-In env session project_id run_id db r found in
                    rw e (
                      weaken-rule P (Passes d) (cancel_children env session project_id run_id d)
                        (cancel_children-Passes env session project_id run_id d)
                        (λ _ d' (runs, tasks, steps). (
                          r,
                          has_min_role-developer session.role permitted,
                          m,
                          i,
                          o,
                          v,
                          unfinished-IsOpen r.status open_run,
                          rw runs (set_cancelled-CancelRun session env.now run_id db),
                          tasks ∙ kt,
                          steps ∙ ks,
                        ))
                        (λ _ _ q. absurd q))
              ])
              (λ _. (refl, refl, refl)))
          (λ _. (refl, refl, refl)))
      (λ _. (refl, refl, refl))
