-- ===== src/Control/Requests/Exclusive.antt =====
-- A claimed run belongs to one runner.
use dev_ops_deployment_tool.Common.{
  ℕ, ◌≡◌, refl, sym, ap, ◌∙◌, inl, inr, true, Option, some, List, arith,
}
use mathlib.Core.Path.{subst}
use dev_ops_deployment_tool.Control.Tables.{In, Each-In, Unique, Unique-Each, single-In}
use dev_ops_deployment_tool.Control.Database.{Runner, Run, Db, Response, reply, error}
use dev_ops_deployment_tool.Control.Rules.{Post}
use dev_ops_deployment_tool.Control.Auth.{Env, authenticate_runner}
use dev_ops_deployment_tool.Control.StatusRoute.Rows.{is_run}
use dev_ops_deployment_tool.Control.StatusRoute.Changes.{Wrote}
use dev_ops_deployment_tool.Control.Claim.{Claimed, post_claim}
use dev_ops_deployment_tool.Control.Claim.Outcome.{ClaimChange, ClaimedBy, post_claim-Outcome}
use dev_ops_deployment_tool.Control.Requests.{Request, serve_all, to_claim, serve}
use dev_ops_deployment_tool.Control.Requests.Runs.{
  is_started, RunKeeps, run_key, serve-RunKeeps, serve_all-RunKeeps,
}

same_reply :
    (a b : Runner) (r : Response Runner × Db) (db : Db)
    → r ≡ (reply a, db)
    → r ≡ (reply b, db)
    → a ≡ b
same_reply a b r db e f = ground arith

-- The row of a run that has just been claimed.
ClaimedBy-row :
    (env : Env) (header : Option (List ℕ)) (run_id : ℕ) (db db' : Db) (c : Claimed)
    (runner : Runner) (x : Run)
    → authenticate_runner env header db ≡ (reply runner, db)
    → ClaimedBy env header run_id db c db'
    → In x db'.runs
    → x.id ≡ run_id
    → (is_started x.status ≡ true) × (x.runner_id ≡ some runner.id)
unfolding is_started
ClaimedBy-row env header run_id db db' c runner x auth
      (winner, r, _, _, auth', _, _, _, runs, _, _, _, _) m i =
    let same : winner ≡ runner =
      same_reply winner runner (authenticate_runner env header db) db auth' auth in
    let (w, here, change) =
      Each-In (ClaimChange env.now run_id winner.id) db.runs db'.runs x runs m in
    elim change [
      | inl (other, e) ↦ absurd (other (sym (ap (λ (q : Run). q.id) e) ∙ i))
      | inr (_, _, _, e) ↦ rw e (refl, ap (λ (q : Runner). some q.id) same)
    ]

started_keeps :
    (runner_id : ℕ) (x y : Run)
    → RunKeeps x y
    → is_started x.status ≡ true
    → x.runner_id ≡ some runner_id
    → (is_started y.status ≡ true) × (y.runner_id ≡ some runner_id)
started_keeps runner_id x y (_, inl f, _) s o = absurd (ground arith)
started_keeps runner_id x y (_, inr (t, e), _) s o = (t, e ∙ o)

-- After a runner has claimed a run, and then any sequence of claims, status reports, cancellations and
-- rounds of the reaper, each run alone and one after another, whatever calls of the database fail,
-- with distinct ids of runs: the run has started and belongs to this runner.
pub claim_kept :
    (env : Env) (header : Option (List ℕ)) (run_id : ℕ) (db db' : Db) (c : Claimed)
    (runner : Runner) (qs : List Request) (x : Run)
    → Unique run_key db.runs
    → authenticate_runner env header db ≡ (reply runner, db)
    → post_claim env header run_id db ≡ (reply c, db')
    → In x (serve_all qs db').runs
    → x.id ≡ run_id
    → (is_started x.status ≡ true) × (x.runner_id ≡ some runner.id)
unfolding serve
claim_kept env header run_id db db' c runner qs x unique auth won m i =
    let claimed : ClaimedBy env header run_id db c db' =
      subst (Post (Wrote (ClaimedBy env header run_id db) db)) won
        (post_claim-Outcome env header run_id db) in
    let first = serve-RunKeeps (to_claim env header run_id) db unique in
    let unique' = Unique-Each run_key RunKeeps (λ x y k. k.0) db.runs _ unique first in
    let unique'' : Unique run_key db'.runs =
      subst (λ (r : Response Claimed × Db). Unique run_key r.1.runs) won unique' in
    let (w, here, keeps) =
      Each-In RunKeeps db'.runs (serve_all qs db').runs x (serve_all-RunKeeps qs db' unique'') m in
    let (started, owner) =
      ClaimedBy-row env header run_id db db' c runner w auth claimed here (sym keeps.0 ∙ i) in
    started_keeps runner.id w x keeps started owner

refused :
    (env : Env) (header : Option (List ℕ)) (run_id : ℕ) (db : Db)
    → ((x : Run) → In x db.runs → x.id ≡ run_id → is_started x.status ≡ true)
    → (r : Response Claimed × Db) → Post (Wrote (ClaimedBy env header run_id db) db) r
    → (code : ℕ) × (r.0 ≡ error code)
unfolding is_started
refused env header run_id db started (error code, db') w = (code, refl)
refused env header run_id db started (reply c, db')
      (_, r, _, _, _, here, _, queued, _, _, _, _, _) =
    let (m, t) = single-In (is_run run_id) r db.runs here in
    let s = started r m (ground arith) in absurd (ground arith)

-- Once a claim of a run has been replied to, and after any sequence of claims, status reports,
-- cancellations and rounds of the reaper, each run alone and one after another, whatever calls of the
-- database fail, with distinct ids of runs: every further claim of the run, by any runner, is answered
-- by an error.
pub claim_once :
    (env env' : Env) (header header' : Option (List ℕ)) (run_id : ℕ) (db db' : Db) (c : Claimed)
    (qs : List Request)
    → Unique run_key db.runs
    → post_claim env header run_id db ≡ (reply c, db')
    → (code : ℕ) × ((post_claim env' header' run_id (serve_all qs db')).0 ≡ error code)
claim_once env env' header header' run_id db db' c qs unique won =
    let (runner, r, tasks, steps, auth, _, _, _, _, _, _, _, _) : ClaimedBy env header run_id db c
        db' =
      subst (Post (Wrote (ClaimedBy env header run_id db) db)) won
        (post_claim-Outcome env header run_id db) in
    refused env' header' run_id (serve_all qs db')
      (λ x m i. (claim_kept env header run_id db db' c runner qs x unique auth won m i).0)
      (post_claim env' header' run_id (serve_all qs db'))
      (post_claim-Outcome env' header' run_id (serve_all qs db'))
