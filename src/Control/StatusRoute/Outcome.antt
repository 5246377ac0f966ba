-- ===== src/Control/StatusRoute/Outcome.antt =====
-- The whole request, on the tables: the rows that it changes and how.
use dev_ops_deployment_tool.Common.{ℕ, ◌≡◌, refl, Option, none, some, List, String}
use dev_ops_deployment_tool.Control.Database.{Runner, Run, Db, reply}
use dev_ops_deployment_tool.Control.Rules.{Post}
use dev_ops_deployment_tool.Control.Auth.{Env, authenticate_runner}
use dev_ops_deployment_tool.Control.Auth.Laws.{the_run}
use dev_ops_deployment_tool.Control.StatusRoute.{
  StatusUpdate, Body, parsed, post_status, Scope, pipeline, task, step,
}
use dev_ops_deployment_tool.Control.StatusRoute.Rows.{ReportedStatus, truthy}
use dev_ops_deployment_tool.Control.StatusRoute.Changes.{Wrote}
use dev_ops_deployment_tool.Control.StatusRoute.Request.{
  WroteAny, Wrote-after, Requested, post_status-Requested,
}
use dev_ops_deployment_tool.Control.StatusRoute.Legal.{
  IsKeyed, Changed, set_run-Changed, set_task-Changed, set_step-Changed,
}

module _ (env : Env) (run_id : ℕ) (u : StatusUpdate) (db : Db) where
  WroteAny-Changed :
      (runner_id : ℕ)
      → IsKeyed db
      → (r : Run) → the_run run_id db ≡ some r
      → r.runner_id ≡ some runner_id
      → (scope : Scope) (name step_name : Option String) (s : ReportedStatus) (db' : Db)
      → WroteAny env run_id u db scope name step_name s db'
      → Changed env run_id runner_id u db db'
  WroteAny-Changed runner_id keyed r here owner pipeline name step_name =
      set_run-Changed env run_id runner_id u db r here owner
  WroteAny-Changed runner_id keyed r here owner task none step_name = λ s db' w. absurd w
  WroteAny-Changed runner_id keyed r here owner task (some name) step_name =
      set_task-Changed env run_id runner_id u db keyed name
  WroteAny-Changed runner_id keyed r here owner step none step_name = λ s db' w. absurd w
  WroteAny-Changed runner_id keyed r here owner step (some name) none = λ s db' w. absurd w
  WroteAny-Changed runner_id keyed r here owner step (some name) (some step_name) =
      set_step-Changed env run_id runner_id u db keyed name step_name

-- What a request does.
abbrev pub Accepted : Env → ℕ → Option (List ℕ) → Body → Db → ReportedStatus → Db → Type 0
Accepted env run_id header body db s db' =
    (runner : Runner) × (u : StatusUpdate) × Requested env run_id header body db s db'
    × (body ≡ parsed u)
    × (authenticate_runner env header db ≡ (reply runner, db))
    × Changed env run_id runner.id u db db'

-- `POST` of the status route, whatever calls of the database fail, with distinct primary keys: a
-- request that is answered by an error changes no run, task or step. A request that is replied to
-- was sent with the token of a runner, for a run of the runner's own organisation that the runner
-- has claimed; it has updated the row that the report names, by a transition of the table, and
-- changed no other run, task or step.
pub post_status-Accepted :
    (env : Env) (run_id : ℕ) (header : Option (List ℕ)) (body : Body) (db : Db)
    → IsKeyed db
    → Post (Wrote (Accepted env run_id header body db) db) (post_status env header run_id body db)
post_status-Accepted env run_id header body db keyed =
    Wrote-after db db (refl, refl, refl) (Requested env run_id header body db) _
      (λ s db' (runner, r, u, auth, here, own, owner, e, (logged, frame, w)).
        let keyed' : IsKeyed logged = rw frame.1 (rw frame.2 keyed) in
        let here' : the_run run_id logged ≡ some r = rw frame.0 here in
        let moved =
          WroteAny-Changed env run_id u logged runner.id keyed' r here' owner u.scope
            (truthy u.task_name) (truthy u.step_name) s db' w in
        (
          runner,
          u,
          (runner, r, u, auth, here, own, owner, e, (logged, frame, w)),
          e,
          auth,
          rw (← frame.0) (rw (← frame.1) (rw (← frame.2) moved)),
        ))
      (post_status env header run_id body db) (post_status-Requested env run_id header body db)
