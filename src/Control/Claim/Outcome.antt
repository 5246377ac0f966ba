-- ===== src/Control/Claim/Outcome.antt =====
-- What a claim writes.
use dev_ops_deployment_tool.Common.{
  ℕ, ◌≡◌, ◌≢◌, refl, sym, ◌⊎◌, inl, inr, true, false, not, Option, some, List, ◌++◌, arith,
  Bool-cases, ==_iff, All,
}
use mathlib.Core.Path.{subst}
use dev_ops_deployment_tool.Status.Pipeline
use dev_ops_deployment_tool.Status.Pipeline.{PipelineRunStatus}
use dev_ops_deployment_tool.Control.Tables.{
  Each, Each-update_if, select, single, update, single-eq, single-narrow,
}
use dev_ops_deployment_tool.Control.Database.{
  Runner, Run, TaskRun, StepRun, Db, reply, claim_run, require, ◌>>=◌,
}
use dev_ops_deployment_tool.Control.Rules.{Post, check-rule, weaken-rule}
use dev_ops_deployment_tool.Control.Auth.{Env, authenticate_runner}
use dev_ops_deployment_tool.Control.Auth.Laws.{the_run, IsOwn, authorized-rule}
use dev_ops_deployment_tool.Control.StatusRoute.Rows.{is_run}
use dev_ops_deployment_tool.Control.StatusRoute.Changes.{Wrote}
use dev_ops_deployment_tool.Control.Claim.{
  Claimed, claim, expand, post_claim, is_open_to, is_claimable, claimed_run,
}
use dev_ops_deployment_tool.Control.Claim.Expansion.{IsNewTask, IsNewStep, Expands, expand-Expands}

queued-eq : (s : PipelineRunStatus) → Pipeline.same s Pipeline.queued ≡ true → s ≡ Pipeline.queued
queued-eq s h = ground arith

module _ (now run_id runner_id : ℕ) where
  -- The run claimed is queued and open to the runner; it runs on that runner from now on. Any other
  -- is kept.
  abbrev pub ClaimChange : Run → Run → Type 0
  ClaimChange x y =
      ((x.id ≢ run_id) × (y ≡ x))
      ⊎ ((x.id ≡ run_id)
          × (x.status ≡ Pipeline.queued)
          × (is_open_to runner_id x.target_runner_id ≡ true)
          × (y ≡ claimed_run now runner_id x))

  claimable-eq :
      (r : Run)
      → is_claimable run_id runner_id r ≡ true
      → (r.id ≡ run_id)
        × (r.status ≡ Pipeline.queued)
        × (is_open_to runner_id r.target_runner_id ≡ true)
  unfolding is_claimable
  claimable-eq r h = ground (arith, queued-eq r.status)

  claimable-is_run : (r : Run) → is_claimable run_id runner_id r ≡ true → is_run run_id r ≡ true
  unfolding is_claimable
  claimable-is_run r h = ground arith

  claim-Each :
      (r : Run) (runs : List Run)
      → single (select (is_run run_id) runs) ≡ some r
      → is_claimable run_id runner_id r ≡ true
      → Each ClaimChange runs
          (update (is_claimable run_id runner_id) (claimed_run now runner_id) runs)
  claim-Each r runs here allowed =
      Each-update_if ClaimChange (is_claimable run_id runner_id) (claimed_run now runner_id) runs
        (λ x m t. let (i, q, o) = claimable-eq x t in inr (i, q, o, refl))
        (λ x m f. inl (
          λ e.
              let same = single-eq (is_run run_id) r x runs here m ((==_iff x.id run_id).1 e) in
              cc
                (f, subst (λ (q : Run). is_claimable run_id runner_id q ≡ true) (sym same) allowed),
          refl,
        ))

-- What a reply to a claim has done.
abbrev pub ClaimedBy : Env → Option (List ℕ) → ℕ → Db → Claimed → Db → Type 0
ClaimedBy env header run_id db c db' =
    (runner : Runner) × (r : Run) × (tasks : List TaskRun) × (steps : List StepRun)
    × (authenticate_runner env header db ≡ (reply runner, db))
    × (the_run run_id db ≡ some r)
    × IsOwn runner r db
    × (r.status ≡ Pipeline.queued)
    × Each (ClaimChange env.now run_id runner.id) db.runs db'.runs
    × (db'.tasks ≡ db.tasks ++ tasks)
    × (db'.steps ≡ db.steps ++ steps)
    × All (IsNewTask run_id) tasks
    × All (IsNewStep tasks) steps

-- The claim of the run that is there.
claim_here :
    (env : Env) (header : Option (List ℕ)) (run_id : ℕ) (db : Db) (runner : Runner) (r : Run)
    → authenticate_runner env header db ≡ (reply runner, db)
    → the_run run_id db ≡ some r
    → IsOwn runner r db
    → Post (Wrote (ClaimedBy env header run_id db) db) (
        (claim env.now run_id runner.id >>= λ found.
        require found 409 >>= expand env run_id runner.id)
          db)
unfolding claim
claim_here env header run_id db runner r auth here own =
    let P = Wrote (ClaimedBy env header run_id db) db in
    let test = is_claimable run_id runner.id in
    let change = claimed_run env.now runner.id in
    let db' = record db { runs = update test change db.runs } in
    let (hit, miss) =
      single-narrow (is_run run_id) test (claimable-is_run env.now run_id runner.id) change r
        db.runs here in
    elim (Bool-cases (test r)) [
      | inl t ↦ rw (hit t) (
          weaken-rule P (Expands run_id db') (expand env run_id runner.id r db')
            (expand-Expands env run_id runner.id r db')
            (λ c d (tasks, steps, er, et, es, new_tasks, new_steps). (
              runner,
              r,
              tasks,
              steps,
              auth,
              here,
              own,
              (claimable-eq env.now run_id runner.id r t).1,
              rw er (claim-Each env.now run_id runner.id r db.runs here t),
              et,
              es,
              new_tasks,
              new_steps,
            ))
            (λ _ _ q. absurd q))
      | inr f ↦ let (none_found, kept) = miss f in rw none_found (kept, refl, refl)
    ]

-- A claim, whatever calls of the database fail: a request that is answered by an error changes no
-- run, task or step. A reply goes to a runner for a run of its own organisation that was queued, and
-- was pinned to no other runner: the run is now running on this runner, every other run is as it
-- was, and the task runs and step runs that were added are pending and belong to the run.
pub post_claim-Outcome :
    (env : Env) (header : Option (List ℕ)) (run_id : ℕ) (db : Db)
    → Post (Wrote (ClaimedBy env header run_id db) db) (post_claim env header run_id db)
unfolding post_claim claim
post_claim-Outcome env header run_id db =
    let P = Wrote (ClaimedBy env header run_id db) db in
    authorized-rule P env run_id header false _ db
      (λ runner a r auth here own _ _.
        check-rule P (not (env.fails claim_run)) 500 _ db
          (λ _. claim_here env header run_id db runner r auth here own) (λ _. (refl, refl, refl)))
      (λ code. (refl, refl, refl))
