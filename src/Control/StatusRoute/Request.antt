-- ===== src/Control/StatusRoute/Request.antt =====
-- The whole request.
use dev_ops_deployment_tool.Common.{ℕ, ◌≡◌, refl, ◌∙◌, true, Option, none, some, List, String}
use dev_ops_deployment_tool.Control.Database.{Runner, Run, Db, Response, reply, error}
use dev_ops_deployment_tool.Control.Rules.{Post, bind-rule}
use dev_ops_deployment_tool.Control.Auth.{Env, authenticate_runner}
use dev_ops_deployment_tool.Control.Auth.Laws.{the_run, IsOwn, authorized-rule}
use dev_ops_deployment_tool.Control.StatusRoute.{
  StatusUpdate, Body, take_report, invalid, parsed, dispatch, post_status, log_error, Scope,
  pipeline, task, step,
}
use dev_ops_deployment_tool.Control.StatusRoute.Rows.{ReportedStatus, truthy}
use dev_ops_deployment_tool.Control.StatusRoute.Changes.{
  Frame, Wrote, WroteRun, WroteTask, WroteStep, Passes, log_error-Passes,
  update_pipeline_status-Wrote, update_task_status-Wrote, update_step_status-Wrote,
}

-- A handler that starts from tables as they were.
pub Wrote-after :
    {A : Type 0} (db db₁ : Db)
    → Frame db db₁
    → (W W' : A → Db → Type 0) → ((a : A) (db' : Db) → W a db' → W' a db')
    → (r : Response A × Db) → Post (Wrote W db₁) r
    → Post (Wrote W' db) r
Wrote-after db db₁ (f, g, h) W W' imp (reply a, db') w = imp a db' w
Wrote-after db db₁ (f, g, h) W W' imp (error c, db') (k, l, m) = (k ∙ f, l ∙ g, m ∙ h)

module _ (env : Env) (run_id : ℕ) (u : StatusUpdate) (db : Db) where
  -- What the scope and the names of a report ask for.
  abbrev pub WroteAny : Scope → Option String → Option String → ReportedStatus → Db → Type 0
  WroteAny pipeline name step_name = WroteRun env run_id u db
  WroteAny task (some name) step_name = WroteTask env run_id u db name
  WroteAny step (some name) (some step_name) = WroteStep env run_id u db name step_name
  WroteAny _ _ _ = λ s db'. ⊥

  dispatch-Wrote :
      (runner : Runner) (scope : Scope) (name step_name : Option String)
      → Post
          (Wrote (WroteAny scope name step_name) db)
          (dispatch env runner run_id u scope name step_name db)
  dispatch-Wrote runner pipeline name step_name =
      update_pipeline_status-Wrote env run_id u db runner
  dispatch-Wrote runner task none step_name = (refl, refl, refl)
  dispatch-Wrote runner task (some name) step_name = update_task_status-Wrote env run_id u db name
  dispatch-Wrote runner step none step_name = (refl, refl, refl)
  dispatch-Wrote runner step (some name) none = (refl, refl, refl)
  dispatch-Wrote runner step (some name) (some step_name) =
      update_step_status-Wrote env run_id u db name step_name

module _ (env : Env) (run_id : ℕ) where
  -- A reply has written what the report asks for, to the tables that were there.
  abbrev pub Answered : StatusUpdate → Db → ReportedStatus → Db → Type 0
  Answered u db s db' =
      (logged : Db) × Frame db logged
      × WroteAny env run_id u logged u.scope (truthy u.task_name) (truthy u.step_name) s db'

  dispatch_logged :
      (runner : Runner) (u : StatusUpdate) (db logged : Db)
      → Frame db logged
      → Post
          (Wrote (Answered u db) db)
          (dispatch env runner run_id u u.scope (truthy u.task_name) (truthy u.step_name) logged)
  dispatch_logged runner u db logged frame =
      let name = truthy u.task_name in
      let step_name = truthy u.step_name in
      Wrote-after db logged frame (WroteAny env run_id u logged u.scope name step_name)
        (Answered u db) (λ s db' w. (logged, frame, w))
        (dispatch env runner run_id u u.scope name step_name logged)
        (dispatch-Wrote env run_id u logged runner u.scope name step_name)

  -- A reply goes to the report of an authenticated runner on a run that it has claimed, in its own
  -- organisation.
  abbrev pub Requested : Option (List ℕ) → Body → Db → ReportedStatus → Db → Type 0
  Requested header body db s db' =
      (runner : Runner) × (r : Run) × (u : StatusUpdate) × (authenticate_runner env header db
        ≡ (reply runner, db))
      × (the_run run_id db ≡ some r)
      × IsOwn runner r db
      × (r.runner_id ≡ some runner.id)
      × (body ≡ parsed u)
      × Answered u db s db'

  take_report-Requested :
      (runner : Runner) (r : Run) (header : Option (List ℕ)) (body : Body) (db : Db)
      → authenticate_runner env header db ≡ (reply runner, db)
      → the_run run_id db ≡ some r
      → IsOwn runner r db
      → r.runner_id ≡ some runner.id
      → Post (Wrote (Requested header body db) db) (take_report env runner run_id body db)
  take_report-Requested runner r header invalid db auth here own owner = (refl, refl, refl)
  take_report-Requested runner r header (parsed u) db auth here own owner =
      bind-rule (Wrote (Requested header (parsed u) db) db) (Passes db) (log_error env run_id u) _
        db (log_error-Passes env run_id u db)
        (λ _ logged frame.
          Wrote-after db db (refl, refl, refl) (Answered u db) _
            (λ s db' a. (runner, r, u, auth, here, own, owner, refl, a))
            (dispatch env runner run_id u u.scope (truthy u.task_name) (truthy u.step_name) logged)
            (dispatch_logged runner u db logged frame))
        (λ _ _ q. absurd q)

  pub post_status-Requested :
      (header : Option (List ℕ)) (body : Body) (db : Db)
      → Post (Wrote (Requested header body db) db) (post_status env header run_id body db)
  unfolding post_status
  post_status-Requested header body db =
      authorized-rule (Wrote (Requested header body db) db) env run_id header true _ db
        (λ runner a r auth here own _ claimed.
          take_report-Requested runner r header body db auth here own (claimed refl))
        (λ code. (refl, refl, refl))
