-- ===== src/Control/Requests.antt =====
-- Claims and status reports of runners, cancellations of users and rounds of the reaper, each run alone,
-- one after another. Two requests that overlap are not covered, and neither are the routes that create
-- runs and put them in the queue.
pub mod Runs
pub mod Exclusive
use dev_ops_deployment_tool.Common.{ℕ, Option, List, [], ◌∷◌}
use dev_ops_deployment_tool.Control.Database.{Db}
use dev_ops_deployment_tool.Control.Auth.{Env}
use dev_ops_deployment_tool.Control.StatusRoute.{Body, post_status}
use dev_ops_deployment_tool.Control.Claim.{post_claim}
use dev_ops_deployment_tool.Control.Cancel.{Session, cancel_pipeline_run}
use dev_ops_deployment_tool.Control.Reaper.{reap_orphans}

-- Each with its own failures of the database and its own time.
pub data Request : Type 0 where
  to_claim : Env → Option (List ℕ) → ℕ → Request
  to_report : Env → Option (List ℕ) → ℕ → Body → Request
  to_cancel : Env → Session → ℕ → ℕ → Request
  to_reap : Env → Request

-- The database after a request.
unfoldable pub serve : Request → Db → Db
serve (to_claim env header run_id) db = (post_claim env header run_id db).1
serve (to_report env header run_id body) db = (post_status env header run_id body db).1
serve (to_cancel env session project_id run_id) db =
    (cancel_pipeline_run env session project_id run_id db).1
serve (to_reap env) db = (reap_orphans env db).1

unfoldable pub serve_all : List Request → Db → Db
serve_all [] db = db
serve_all (q ∷ qs) db = serve_all qs (serve q db)
