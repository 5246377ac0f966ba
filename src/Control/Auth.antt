-- ===== src/Control/Auth.antt =====
-- apps/web/src/lib/auth/runner.ts. A text is the list of its character codes, and `hashToken` is a
-- parameter.
pub mod Laws
use dev_ops_deployment_tool.Common.{
  ℕ, Bool, true, false, ◌||◌, not, Option, none, some, List, [], ◌∷◌, ◌==◌, if◌then◌else◌,
}
use dev_ops_deployment_tool.Status.Pipeline.{PipelineRunStatus}
use dev_ops_deployment_tool.Control.Tables.{select, single}
use dev_ops_deployment_tool.Control.Database.{
  Project, Runner, Run, Db, Query, select_runner, select_run, Action, ◌>>=◌, ◌>>◌, pure, refuse,
  require, check, gets,
}

-- What lies outside the routes: the hash, the database's failures, the clock and the identifiers of
-- new rows.
pub record Env : Type 0 where
  pub hash_token : List ℕ → ℕ
  pub fails : Query → Bool
  pub now : ℕ
  pub new_task_id : ℕ → ℕ
  pub new_step_id : ℕ → ℕ

-- `"Bearer "`
abbrev pub bearer : List ℕ
bearer = b'B' ∷ b'e' ∷ b'a' ∷ b'r' ∷ b'e' ∷ b'r' ∷ b' ' ∷ []

-- `startsWith(prefix)` and `slice` of its length.
unfoldable pub strip : List ℕ → List ℕ → Option (List ℕ)
strip [] text = some text
strip (c ∷ cs) [] = none
strip (c ∷ cs) (d ∷ ds) = let rest = strip cs ds in if c == d then rest else none

unfoldable pub token_of : Option (List ℕ) → Option (List ℕ)
token_of none = none
token_of (some header) = strip bearer header

unfoldable pub non_empty : Option (List ℕ) → Option (List ℕ)
non_empty none = none
non_empty (some []) = none
non_empty (some (c ∷ cs)) = some (c ∷ cs)

unfoldable pub find_runner : Env → List ℕ → Db → Option Runner
find_runner env token db =
    if env.fails select_runner
    then none
    else single (select (λ (r : Runner). r.token_hash == env.hash_token token) db.runners)

unfoldable pub authenticate_runner : Env → Option (List ℕ) → Action Runner
authenticate_runner env header = do
  token ← require (non_empty (token_of header)) 401
  require (← gets (find_runner env token)) 401

pub record AuthorizedRun : Type 0 where
  pub id : ℕ
  pub project_id : ℕ
  pub org_id : ℕ
  pub runner_id : Option ℕ
  pub status : PipelineRunStatus

abbrev pub is_id : ℕ → Option ℕ → Bool
is_id i none = false
is_id i (some j) = j == i

abbrev pub joined : Run → Option Project → Option (Run × ℕ)
joined run none = none
joined run (some project) = some (run, project.org_id)

abbrev pub joined_to : List Project → Option Run → Option (Run × ℕ)
joined_to projects none = none
joined_to projects (some run) =
    joined run (single (select (λ (p : Project). p.id == run.project_id) projects))

-- The row of a run with the organisation of its project.
unfoldable pub find_run : Env → ℕ → Db → Option (Run × ℕ)
find_run env run_id db =
    if env.fails select_run
    then none
    else joined_to db.projects (single (select (λ (r : Run). r.id == run_id) db.runs))

unfoldable pub authorize_runner_for_run : Env → Runner → ℕ → Bool → Action AuthorizedRun
authorize_runner_for_run env runner run_id require_claimed_by = do
  found ← require (← gets (find_run env run_id)) 404
  check (found.1 == runner.org_id) 404
  check (not require_claimed_by || is_id runner.id found.0.runner_id) 403
  pure record {
    id = found.0.id;
    project_id = found.0.project_id;
    org_id = found.1;
    runner_id = found.0.runner_id;
    status = found.0.status;
  }
