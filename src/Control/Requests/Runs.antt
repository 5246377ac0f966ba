-- ===== src/Control/Requests/Runs.antt =====
-- What any request keeps of a run.
use dev_ops_deployment_tool.Common.{
  ℕ, ◌≡◌, refl, sym, ◌∙◌, ◌⊎◌, inl, inr, Bool, true, false, Option, none, some, List, [], ◌∷◌,
  String, arith,
}
use dev_ops_deployment_tool.Status.Pipeline
use dev_ops_deployment_tool.Status.Pipeline.{
  PipelineRunStatus, validate_pipeline_transition, is_pipeline_terminal,
}
use dev_ops_deployment_tool.Control.Tables.{
  In, Each, Each-refl, Each-trans, Each-map, Unique, Unique-eq, Unique-Each, Once,
}
use dev_ops_deployment_tool.Control.Database.{Run, Db, Response, reply, error}
use dev_ops_deployment_tool.Control.Rules.{Post}
use dev_ops_deployment_tool.Control.Auth.{Env}
use dev_ops_deployment_tool.Control.Auth.Laws.{the_run}
use dev_ops_deployment_tool.Control.StatusRoute.{
  Body, Scope, StatusUpdate, pipeline, task, step, post_status,
}
use dev_ops_deployment_tool.Control.StatusRoute.Rows.{ReportedStatus, truthy, set_task, set_step}
use dev_ops_deployment_tool.Control.StatusRoute.Changes.{Wrote}
use dev_ops_deployment_tool.Control.StatusRoute.Legal.{RunChange, set_run-Changed}
use dev_ops_deployment_tool.Control.StatusRoute.Request.{WroteAny, Requested, post_status-Requested}
use dev_ops_deployment_tool.Control.Claim.{post_claim}
use dev_ops_deployment_tool.Control.Claim.Outcome.{ClaimChange, ClaimedBy, post_claim-Outcome}
use dev_ops_deployment_tool.Control.Cancel.{Session, cancel_pipeline_run}
use dev_ops_deployment_tool.Control.Cancel.Outcome.{
  CancelRun, CancelledBy, IsOpen, cancel_pipeline_run-CancelledBy,
}
use dev_ops_deployment_tool.Control.Reaper.{timed_out_run}
use dev_ops_deployment_tool.Control.Reaper.Laws.{Reapable, reap_orphans-Reaps}
use dev_ops_deployment_tool.Control.Requests.{
  Request, to_claim, to_report, to_cancel, to_reap, serve, serve_all,
}

-- The run has left the queue.
unfoldable pub is_started : PipelineRunStatus → Bool
is_started Pipeline.created = false
is_started Pipeline.queued = false
is_started _ = true

-- A run keeps its id; if it has started, it stays so and keeps its runner; if its status is
-- terminal, it keeps it.
abbrev pub RunKeeps : Run → Run → Type 0
RunKeeps x y =
    (y.id ≡ x.id)
    × ((is_started x.status ≡ false) ⊎ ((is_started y.status ≡ true) × (y.runner_id ≡ x.runner_id)))
    × ((is_pipeline_terminal x.status ≡ false) ⊎ (y.status ≡ x.status))

abbrev pub run_key : Run → ℕ
run_key r = r.id

RunKeeps-refl : (x : Run) → RunKeeps x x
RunKeeps-refl x = (refl, ground arith, inr refl)

RunKeeps-trans : (x y z : Run) → RunKeeps x y → RunKeeps y z → RunKeeps x z
RunKeeps-trans x y z p q = (q.0 ∙ p.0, ground arith, ground arith)

kept : (x y : Run) → y ≡ x → RunKeeps x y
kept x y e = rw e (RunKeeps-refl x)

ClaimChange-RunKeeps :
    (now run_id runner_id : ℕ) (x y : Run) → ClaimChange now run_id runner_id x y → RunKeeps x y
unfolding is_started is_pipeline_terminal
ClaimChange-RunKeeps now run_id runner_id x y (inl (_, e)) = kept x y e
ClaimChange-RunKeeps now run_id runner_id x y (inr (i, q, o, e)) =
    rw (e, q) (refl, inl refl, inl refl)

valid-keeps :
    (s to : PipelineRunStatus)
    → validate_pipeline_transition s to ≡ true
    → ((is_started s ≡ false) ⊎ (is_started to ≡ true)) × (is_pipeline_terminal s ≡ false)
unfolding validate_pipeline_transition is_started is_pipeline_terminal
valid-keeps s to h = ground arith

RunChange-RunKeeps :
    (now run_id runner_id : ℕ) (u : StatusUpdate) (x y : Run)
    → RunChange now run_id runner_id u x y
    → RunKeeps x y
RunChange-RunKeeps now run_id runner_id u x y (inl e) = kept x y e
RunChange-RunKeeps now run_id runner_id u x y (inr (to, i, o, k, v, e)) =
    let (s, t) = valid-keeps x.status to v in rw e (refl, ground arith, inl t)

unfinished-keeps : (s : PipelineRunStatus) → IsOpen s → is_pipeline_terminal s ≡ false
unfolding is_pipeline_terminal
unfinished-keeps Pipeline.created h = refl
unfinished-keeps Pipeline.queued h = refl
unfinished-keeps Pipeline.running h = refl
unfinished-keeps Pipeline.success (n, _, _, _) = absurd (n refl)
unfinished-keeps Pipeline.failed (_, n, _, _) = absurd (n refl)
unfinished-keeps Pipeline.cancelled (_, _, n, _) = absurd (n refl)
unfinished-keeps Pipeline.timed_out (_, _, _, n) = absurd (n refl)

running-keeps :
    (now : ℕ) (os : List Run) (x y : Run)
    → Once (Reapable os) (timed_out_run now) x y
    → RunKeeps x y
unfolding is_started is_pipeline_terminal
running-keeps now os x y (inl e) = kept x y e
running-keeps now os x y (inr ((s, _), e)) = rw (e, s) (refl, inr (refl, refl), inl refl)

WroteAny-runs :
    (env : Env) (run_id runner_id : ℕ) (u : StatusUpdate) (db : Db) (r : Run)
    → the_run run_id db ≡ some r
    → r.runner_id ≡ some runner_id
    → (scope : Scope) (name step_name : Option String) (s : ReportedStatus) (db' : Db)
    → WroteAny env run_id u db scope name step_name s db'
    → Each RunKeeps db.runs db'.runs
unfolding set_task set_step
WroteAny-runs env run_id runner_id u db r here owner pipeline name step_name s db' w =
    Each-map (RunChange env.now run_id runner_id u) RunKeeps db.runs db'.runs
      (λ x y m. RunChange-RunKeeps env.now run_id runner_id u x y)
      (set_run-Changed env run_id runner_id u db r here owner s db' w).0
WroteAny-runs env run_id runner_id u db r here owner task (some name) step_name s db'
      (t, to, found, known, valid, (er, _, _)) =
    rw er (Each-refl RunKeeps RunKeeps-refl db.runs)
WroteAny-runs env run_id runner_id u db r here owner step (some name) (some step_name) s db'
      (t, s', to, f, g, known, valid, (er, _, _)) =
    rw er (Each-refl RunKeeps RunKeeps-refl db.runs)
WroteAny-runs env run_id runner_id u db r here owner task none step_name s db' w = absurd w
WroteAny-runs env run_id runner_id u db r here owner step none step_name s db' w = absurd w
WroteAny-runs env run_id runner_id u db r here owner step (some name) none s db' w = absurd w

Wrote-runs :
    {A : Type 0} (db : Db) (W : A → Db → Type 0)
    → ((a : A) (db' : Db) → W a db' → Each RunKeeps db.runs db'.runs)
    → (r : Response A × Db) → Post (Wrote W db) r
    → Each RunKeeps db.runs r.1.runs
Wrote-runs db W h (reply a, db') w = h a db' w
Wrote-runs db W h (error code, db') (e, _, _) = rw e (Each-refl RunKeeps RunKeeps-refl db.runs)

Requested-runs :
    (env : Env) (header : Option (List ℕ)) (run_id : ℕ) (body : Body) (db : Db) (s : ReportedStatus)
    (db' : Db)
    → Requested env run_id header body db s db'
    → Each RunKeeps db.runs db'.runs
Requested-runs env header run_id body db s db'
      (runner, r, u, auth, here, own, owner, e, (logged, (er, _, _), w)) =
    rw (← er) (
      WroteAny-runs env run_id runner.id u logged r (rw er here) owner u.scope (truthy u.task_name)
        (truthy u.step_name) s db' w)

CancelRun-RunKeeps :
    (env : Env) (session : Session) (project_id run_id : ℕ) (db db' : Db)
    → Unique run_key db.runs
    → CancelledBy env session project_id run_id db tt db'
    → Each RunKeeps db.runs db'.runs
unfolding is_started
CancelRun-RunKeeps env session project_id run_id db db' unique
      (r, _, here, named, _, _, unfinished, runs, _, _) =
    Each-map (CancelRun session env.now run_id) RunKeeps db.runs db'.runs change runs
  where
    change : (x y : Run) → In x db.runs → CancelRun session env.now run_id x y → RunKeeps x y
    change x y m (inl (_, e)) = kept x y e
    change x y m (inr (i, _, e)) =
        let x-r = Unique-eq run_key db.runs unique x r m here (i ∙ sym named) in
        let f = unfinished-keeps r.status unfinished in
        rw e (refl, inr (refl, refl), inl (rw x-r f))

-- One request.
pub serve-RunKeeps :
    (q : Request) (db : Db) → Unique run_key db.runs → Each RunKeeps db.runs (serve q db).runs
unfolding serve
serve-RunKeeps (to_claim env header run_id) db unique =
    Wrote-runs db (ClaimedBy env header run_id db)
      (λ c db' (runner, r, _, _, _, _, _, _, runs, _, _, _, _).
        Each-map (ClaimChange env.now run_id runner.id) RunKeeps db.runs db'.runs
          (λ x y m. ClaimChange-RunKeeps env.now run_id runner.id x y) runs)
      (post_claim env header run_id db) (post_claim-Outcome env header run_id db)
serve-RunKeeps (to_report env header run_id body) db unique =
    Wrote-runs db (Requested env run_id header body db) (Requested-runs env header run_id body db)
      (post_status env header run_id body db) (post_status-Requested env run_id header body db)
serve-RunKeeps (to_cancel env session project_id run_id) db unique =
    Wrote-runs db (CancelledBy env session project_id run_id db)
      (λ _ db'. CancelRun-RunKeeps env session project_id run_id db db' unique)
      (cancel_pipeline_run env session project_id run_id db)
      (cancel_pipeline_run-CancelledBy env session project_id run_id db)
serve-RunKeeps (to_reap env) db unique =
    Each-map (Once (Reapable _) (timed_out_run env.now)) RunKeeps db.runs _
      (λ x y m. running-keeps env.now _ x y) (reap_orphans-Reaps env db).0

-- Over any sequence of claims, status reports, cancellations and rounds of the reaper, each run alone
-- and one after another, whatever calls of the database fail, with distinct ids of runs: every run keeps its id, a run that has started stays started and keeps
-- the runner that claimed it, and a run with a terminal status keeps that status.
pub serve_all-RunKeeps :
    (qs : List Request) (db : Db)
    → Unique run_key db.runs
    → Each RunKeeps db.runs (serve_all qs db).runs
unfolding serve_all
serve_all-RunKeeps [] db unique = Each-refl RunKeeps RunKeeps-refl db.runs
serve_all-RunKeeps (q ∷ qs) db unique =
    let one = serve-RunKeeps q db unique in
    let d = serve q db in
    Each-trans RunKeeps RunKeeps-trans db.runs d.runs (serve_all qs d).runs one (
      serve_all-RunKeeps qs d
        (Unique-Each run_key RunKeeps (λ x y k. k.0) db.runs d.runs unique one))
