-- ===== src/Status/Samples.antt =====
-- Runs of the status checks.
use dev_ops_deployment_tool.Common.{◌≡◌, refl, [], ◌∷◌}
use dev_ops_deployment_tool.Status.Deployment.{
  active, draining, deploying, assert_deployment_transition,
}
use dev_ops_deployment_tool.Status.Laws.{updates}

-- A deployment whose replacement fails goes back to active.
draining_again :
    updates assert_deployment_transition deploying (active ∷ draining ∷ active ∷ []) ≡ active
unfolding assert_deployment_transition
draining_again = refl
