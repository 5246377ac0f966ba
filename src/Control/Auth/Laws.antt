-- ===== src/Control/Auth/Laws.antt =====
-- What an authorization shows of the run, and that it changes nothing.
use dev_ops_deployment_tool.Common.{
  ℕ, ◌≡◌, refl, ap, sym, inl, inr, Bool, true, Option, none, some, List, ◌==◌, arith, Bool-cases,
  Option-cases, not, ◌||◌,
}
use mathlib.Core.Path.{subst}
use mathlib.Core.Option.{some-injective}
use dev_ops_deployment_tool.Control.Tables.{select, single}
use dev_ops_deployment_tool.Control.Database.{
  Project, Runner, Run, Db, Response, reply, error, select_run, Action, ◌>>=◌,
}
use dev_ops_deployment_tool.Control.Rules.{Post, require-rule, check-rule, bind-rule}
use dev_ops_deployment_tool.Control.Auth.{
  Env, AuthorizedRun, authenticate_runner, authorize_runner_for_run, find_run, find_runner,
  non_empty, token_of, is_id, joined, joined_to,
}

abbrev pub the_run : ℕ → Db → Option Run
the_run run_id db = single (select (λ (r : Run). r.id == run_id) db.runs)

-- The run is there, in a project of the runner's organisation.
abbrev pub IsOwn : Runner → Run → Db → Type 0
IsOwn runner run db =
    (p : Project) × (single (select (λ (q : Project). q.id == run.project_id) db.projects) ≡ some p)
    × (p.org_id ≡ runner.org_id)

joined-eq :
    (run : Run) (o : Option Project) (r : Run) (org : ℕ)
    → joined run o ≡ some (r, org)
    → (run ≡ r) × ((p : Project) × (o ≡ some p) × (p.org_id ≡ org))
joined-eq run none r org h = absurd (ground arith)
joined-eq run (some p) r org h =
    let pair : (run, p.org_id) ≡ (r, org) = some-injective (run, p.org_id) (r, org) h in
    (ap (λ (q : Run × ℕ). q.0) pair, (p, refl, ap (λ (q : Run × ℕ). q.1) pair))

joined_to-eq :
    (projects : List Project) (found : Option Run) (r : Run) (org : ℕ)
    → joined_to projects found ≡ some (r, org)
    → (found ≡ some r)
      × ((p : Project) × (single (select (λ (q : Project). q.id == r.project_id) projects) ≡ some p)
          × (p.org_id ≡ org))
joined_to-eq projects none r org h = absurd (ground arith)
joined_to-eq projects (some run) r org h =
    let (e, (p, e', o)) =
      joined-eq run (single (select (λ (q : Project). q.id == run.project_id) projects)) r org h in
    (
      ap some e,
      (
        p,
        subst
            (λ (q : Run). single (select (λ (x : Project). x.id == q.project_id) projects) ≡ some p)
            e e',
        o,
      ),
    )

pub find_run-eq :
    (env : Env) (run_id : ℕ) (db : Db) (r : Run) (org : ℕ)
    → find_run env run_id db ≡ some (r, org)
    → (the_run run_id db ≡ some r)
      × ((p : Project) × (single (select (λ (q : Project). q.id == r.project_id) db.projects)
            ≡ some p)
          × (p.org_id ≡ org))
unfolding find_run
find_run-eq env run_id db r org h = elim (Bool-cases (env.fails select_run)) [
  | inl e ↦ absurd (ground arith)
  | inr e ↦ joined_to-eq db.projects (the_run run_id db) r org (rw e at h)
]

is_id-eq : (i : ℕ) (o : Option ℕ) → is_id i o ≡ true → o ≡ some i
is_id-eq i none h = cc
is_id-eq i (some j) h = ground arith

-- An authorization shows the run, its owner and, where this is asked for, who has claimed it.
abbrev pub Authorized : Runner → ℕ → Bool → Db → Response AuthorizedRun → Db → Type 0
Authorized runner run_id claimed db (reply a) db' =
    (db' ≡ db)
    × ((r : Run) × (the_run run_id db ≡ some r)
        × IsOwn runner r db
        × (a.status ≡ r.status)
        × (claimed ≡ true → r.runner_id ≡ some runner.id))
Authorized runner run_id claimed db (error code) db' = (db' ≡ db)

pub authorize_runner_for_run-Authorized :
    (env : Env) (runner : Runner) (run_id : ℕ) (claimed : Bool) (db : Db)
    → Post
        (Authorized runner run_id claimed db)
        (authorize_runner_for_run env runner run_id claimed db)
unfolding authorize_runner_for_run
authorize_runner_for_run-Authorized env runner run_id claimed db =
    let P = Authorized runner run_id claimed db in
    require-rule P (find_run env run_id db) 404 _ db
      (λ found e.
        check-rule P (found.1 == runner.org_id) 404 _ db
          (λ same.
            check-rule P (not claimed || is_id runner.id found.0.runner_id) 403 _ db
              (λ allowed.
                let (here, (p, e', o)) = find_run-eq env run_id db found.0 found.1 e in
                (
                  refl,
                  (
                    found.0,
                    here,
                    (p, e', ground arith),
                    refl,
                    λ c. is_id-eq runner.id found.0.runner_id (rw c at allowed),
                  ),
                ))
              (λ _. refl))
          (λ _. refl))
      (λ _. refl)

-- An authentication changes nothing.
abbrev pub Same {ℓ} : {A : Type ℓ} → Db → Response A → Db → Type 0
Same db r db' = (db' ≡ db)

pub authenticate_runner-Same :
    (env : Env) (header : Option (List ℕ)) (db : Db) → (authenticate_runner env header db).1 ≡ db
unfolding authenticate_runner
authenticate_runner-Same env header db =
    require-rule (Same db) (non_empty (token_of header)) 401 _ db
      (λ token e. elim (Option-cases (find_runner env token db)) [
        | inl f ↦ rw f refl
        | inr (r, f) ↦ rw f refl
      ])
      (λ _. refl)

-- A handler that begins with both checks.
module _ {ℓ κ} {B : Type ℓ} (P : Response B → Db → Type κ) (env : Env) (run_id : ℕ) where
  authorize-rule :
      (claimed : Bool) (runner : Runner) (f : AuthorizedRun → Action B) (db : Db)
      → ((a : AuthorizedRun) (r : Run)
          → the_run run_id db ≡ some r
          → IsOwn runner r db
          → a.status ≡ r.status
          → (claimed ≡ true → r.runner_id ≡ some runner.id)
          → Post P (f a db))
      → ((code : ℕ) → P (error code) db)
      → Post P ((authorize_runner_for_run env runner run_id claimed >>= f) db)
  authorize-rule claimed runner f db h k =
      bind-rule P (Authorized runner run_id claimed db)
        (authorize_runner_for_run env runner run_id claimed) f db
        (authorize_runner_for_run-Authorized env runner run_id claimed db)
        (λ a db' (same, (r, here, own, status, owner)).
          subst (λ (d : Db). Post P (f a d)) (sym same) (h a r here own status owner))
        (λ code db' same. subst (λ (d : Db). P (error code) d) (sym same) (k code))

  pub authorized-rule :
      (header : Option (List ℕ)) (claimed : Bool) (f : Runner → AuthorizedRun → Action B) (db : Db)
      → ((runner : Runner) (a : AuthorizedRun) (r : Run)
          → authenticate_runner env header db ≡ (reply runner, db)
          → the_run run_id db ≡ some r
          → IsOwn runner r db
          → a.status ≡ r.status
          → (claimed ≡ true → r.runner_id ≡ some runner.id)
          → Post P (f runner a db))
      → ((code : ℕ) → P (error code) db)
      → Post P (
          (authenticate_runner env header >>= λ runner.
          authorize_runner_for_run env runner run_id claimed >>= f runner)
            db)
  authorized-rule header claimed f db h k =
      bind-rule P (λ r db'. (authenticate_runner env header db ≡ (r, db')) × (db' ≡ db))
        (authenticate_runner env header) _ db (refl, authenticate_runner-Same env header db)
        (λ runner db' (auth, same).
          let auth' : authenticate_runner env header db ≡ (reply runner, db) =
            subst (λ (d : Db). authenticate_runner env header db ≡ (reply runner, d)) same auth in
          subst
            (λ (d : Db).
              Post P ((authorize_runner_for_run env runner run_id claimed >>= f runner) d))
            (sym same) (authorize-rule claimed runner (f runner) db (λ a r. h runner a r auth') k))
        (λ code db' (e, same). subst (λ (d : Db). P (error code) d) (sym same) (k code))
