-- ===== src/Control/StatusRoute/Changes.antt =====
-- What each of the three updates writes.
use dev_ops_deployment_tool.Common.{
  ℕ, ◌≡◌, refl, inl, inr, true, Option, none, some, String, arith, Bool-cases, Option-cases,
}
use dev_ops_deployment_tool.Status.Result.{Result, ok, invalid_transition}
use dev_ops_deployment_tool.Status.Pipeline.{
  PipelineRunStatus, assert_pipeline_transition, is_pipeline_terminal, validate_pipeline_transition,
}
use dev_ops_deployment_tool.Status.Task.{
  TaskRunStatus, assert_task_transition, validate_task_transition,
}
use dev_ops_deployment_tool.Status.Step.{
  StepRunStatus, assert_step_transition, validate_step_transition,
}
use dev_ops_deployment_tool.Control.Database.{
  Runner, Run, TaskRun, StepRun, Db, Response, reply, error, Action, ◌>>=◌, update_run, update_task,
  update_step,
}
use dev_ops_deployment_tool.Control.Rules.{Post, require-rule, bind-rule}
use dev_ops_deployment_tool.Control.Auth.{Env}
use dev_ops_deployment_tool.Control.StatusRoute.{
  StatusUpdate, caught, assert_to, log_error, free_runner, finish_run, request_approval,
  update_pipeline_status, update_task_status, update_step_status,
}
use dev_ops_deployment_tool.Control.StatusRoute.Rows.{
  ReportedStatus, to_pipeline, to_task, to_step, find_status, find_task, find_step, set_run,
  set_task, set_step, truthy,
}

-- The tables of runs, tasks and steps are the same.
abbrev pub Frame : Db → Db → Type 0
Frame db db' = (db'.runs ≡ db.runs) × (db'.tasks ≡ db.tasks) × (db'.steps ≡ db.steps)

-- A step that always goes on, with the three tables as they were.
abbrev pub Passes {ℓ} : {A : Type ℓ} → Db → Response A → Db → Type 0
Passes db (reply a) db' = Frame db db'
Passes db (error code) db' = ⊥

pub log_error-Passes :
    (env : Env) (run_id : ℕ) (u : StatusUpdate) (db : Db)
    → Post (Passes db) (log_error env run_id u db)
unfolding log_error
log_error-Passes env run_id u db = elim (Option-cases (truthy u.error_message)) [
  | inl e ↦ rw e (refl, refl, refl)
  | inr (m, e) ↦ rw e (ground arith)
]

finish_run-Passes :
    (env : Env) (runner : Runner) (run_id : ℕ) (status : PipelineRunStatus) (db : Db)
    → Post (Passes db) (finish_run env runner run_id status db)
unfolding finish_run free_runner
finish_run-Passes env runner run_id status db = elim (Bool-cases (is_pipeline_terminal status)) [
  | inl e ↦ rw e (ground arith)
  | inr e ↦ rw e (refl, refl, refl)
]

request_approval-Passes :
    (run_id : ℕ) (name : String) (status : ReportedStatus) (db : Db)
    → Post (Passes db) (request_approval run_id name status db)
request_approval-Passes run_id name ReportedStatus.awaiting_approval db = (refl, refl, refl)
request_approval-Passes run_id name _ db = (refl, refl, refl)

-- Handlers that refuse leave the three tables alone; those that reply have done `W`.
abbrev pub Wrote : {A : Type 0} → (A → Db → Type 0) → Db → Response A → Db → Type 0
Wrote W db (reply a) db' = W a db'
Wrote W db (error code) db' = Frame db db'

module _ {S B : Type 0} (P : Response B → Db → Type 0) where
  caught-rule :
      (r : Result S (Unit {0})) (to : S) (f : S → Action B) (db : Db)
      → (r ≡ ok tt → Post P (f to db))
      → P (error 422) db
      → Post P ((caught to r >>= f) db)
  caught-rule (ok tt) to f db h k = h refl
  caught-rule (invalid_transition _ _) to f db h k = k

  assert_to-rule :
      (assert : S → S → Result S (Unit {0})) (from : S) (target : Option S) (f : S → Action B)
      (db : Db)
      → ((to : S) → target ≡ some to → assert from to ≡ ok tt → Post P (f to db))
      → P (error 422) db
      → Post P ((assert_to assert from target >>= f) db)
  assert_to-rule assert from none f db h k = k
  assert_to-rule assert from (some to) f db h k =
      caught-rule (assert from to) to f db (λ e. h to refl e) k

pipeline-valid :
    (x y : PipelineRunStatus)
    → assert_pipeline_transition x y ≡ ok tt
    → validate_pipeline_transition x y ≡ true
unfolding assert_pipeline_transition
pipeline-valid x y h = ground arith

task-valid :
    (x y : TaskRunStatus) → assert_task_transition x y ≡ ok tt → validate_task_transition x y ≡ true
unfolding assert_task_transition
task-valid x y h = ground arith

step-valid :
    (x y : StepRunStatus) → assert_step_transition x y ≡ ok tt → validate_step_transition x y ≡ true
unfolding assert_step_transition
step-valid x y h = ground arith

module _ (env : Env) (run_id : ℕ) (u : StatusUpdate) (db : Db) where
  -- A reply to a report on the run: the run found is updated as its table allows.
  abbrev pub WroteRun : ReportedStatus → Db → Type 0
  WroteRun status db' =
      (r : Run) × (to : PipelineRunStatus) × (find_status env run_id db ≡ some r)
      × (to_pipeline u.status ≡ some to)
      × (validate_pipeline_transition r.status to ≡ true)
      × Frame (set_run env.now run_id to u.report (truthy r.git_sha) db) db'

  pub update_pipeline_status-Wrote :
      (runner : Runner) → Post (Wrote WroteRun db) (update_pipeline_status env runner run_id u db)
  unfolding update_pipeline_status
  update_pipeline_status-Wrote runner =
      let P = Wrote WroteRun db in
      require-rule P (find_status env run_id db) 404 _ db
        (λ r found.
          assert_to-rule P assert_pipeline_transition r.status (to_pipeline u.status) _ db
            (λ to known valid.
              let db' = set_run env.now run_id to u.report (truthy r.git_sha) db in
              elim (Bool-cases (env.fails update_run)) [
                | inl e ↦ rw e (refl, refl, refl)
                | inr e ↦ rw e (
                    bind-rule P (Passes db') (finish_run env runner run_id to) _ db'
                      (finish_run-Passes env runner run_id to db')
                      (λ _ _ q. (r, to, found, known, pipeline-valid r.status to valid, q))
                      (λ _ _ q. absurd q))
              ])
            (refl, refl, refl))
        (λ missing. (refl, refl, refl))

  -- A reply to a report on a task.
  abbrev pub WroteTask : String → ReportedStatus → Db → Type 0
  WroteTask name status db' =
      (t : TaskRun) × (to : TaskRunStatus) × (find_task env run_id name db ≡ some t)
      × (to_task u.status ≡ some to)
      × (validate_task_transition t.status to ≡ true)
      × Frame (set_task t.id to u.report db) db'

  pub update_task_status-Wrote :
      (name : String) → Post (Wrote (WroteTask name) db) (update_task_status env run_id name u db)
  unfolding update_task_status
  update_task_status-Wrote name =
      let P = Wrote (WroteTask name) db in
      require-rule P (find_task env run_id name db) 404 _ db
        (λ t found.
          assert_to-rule P assert_task_transition t.status (to_task u.status) _ db
            (λ to known valid.
              let db' = set_task t.id to u.report db in
              elim (Bool-cases (env.fails update_task)) [
                | inl e ↦ rw e (refl, refl, refl)
                | inr e ↦ rw e (
                    bind-rule P (Passes db') (request_approval run_id name u.status) _ db'
                      (request_approval-Passes run_id name u.status db')
                      (λ _ _ q. (t, to, found, known, task-valid t.status to valid, q))
                      (λ _ _ q. absurd q))
              ])
            (refl, refl, refl))
        (λ missing. (refl, refl, refl))

  -- A reply to a report on a step.
  abbrev pub WroteStep : String → String → ReportedStatus → Db → Type 0
  WroteStep name step_name status db' =
      (t : TaskRun) × (s : StepRun) × (to : StepRunStatus) × (find_task env run_id name db ≡ some t)
      × (find_step env t.id step_name db ≡ some s)
      × (to_step u.status ≡ some to)
      × (validate_step_transition s.status to ≡ true)
      × Frame (set_step s.id to u.report db) db'

  pub update_step_status-Wrote :
      (name step_name : String)
      → Post
          (Wrote (WroteStep name step_name) db)
          (update_step_status env run_id name step_name u db)
  unfolding update_step_status
  update_step_status-Wrote name step_name =
      let P = Wrote (WroteStep name step_name) db in
      require-rule P (find_task env run_id name db) 404 _ db
        (λ t t_found.
          require-rule P (find_step env t.id step_name db) 404 _ db
            (λ s s_found.
              assert_to-rule P assert_step_transition s.status (to_step u.status) _ db
                (λ to known valid. elim (Bool-cases (env.fails update_step)) [
                  | inl e ↦ rw e (refl, refl, refl)
                  | inr e ↦
                      let v = step-valid s.status to valid in
                      rw e (t, s, to, t_found, s_found, known, v, (refl, refl, refl))
                ])
                (refl, refl, refl))
            (λ missing. (refl, refl, refl)))
        (λ missing. (refl, refl, refl))
