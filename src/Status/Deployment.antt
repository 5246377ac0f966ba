-- ===== src/Status/Deployment.antt =====
-- The states of a deployment (enums.ts and constants.ts) and its checks (state-machine.ts, lines 107 to 126).
use dev_ops_deployment_tool.Common.{Bool, true, false, List, [], ◌∷◌, includes_of, if◌then◌else◌}
use dev_ops_deployment_tool.Status.Result.{Result, ok, invalid_transition}

pub data DeploymentStatus : Type 0 where
  pending deploying active draining stopped rolled_back failed : DeploymentStatus

pub DeploymentStatus-discrete : Discrete DeploymentStatus
DeploymentStatus-discrete = hlevel

-- `a === b`
abbrev pub same : DeploymentStatus → DeploymentStatus → Bool
same pending pending = true
same deploying deploying = true
same active active = true
same draining draining = true
same stopped stopped = true
same rolled_back rolled_back = true
same failed failed = true
same _ _ = false

-- `VALID_DEPLOYMENT_TRANSITIONS`
unfoldable pub transitions : DeploymentStatus → List DeploymentStatus
transitions pending = deploying ∷ failed ∷ []
transitions deploying = active ∷ failed ∷ []
transitions active = draining ∷ stopped ∷ rolled_back ∷ []
transitions draining = active ∷ stopped ∷ rolled_back ∷ []
transitions stopped = []
transitions rolled_back = []
transitions failed = []

unfoldable pub terminal_states : List DeploymentStatus
terminal_states = stopped ∷ rolled_back ∷ failed ∷ []

unfoldable pub validate_deployment_transition : DeploymentStatus → DeploymentStatus → Bool
unfolding transitions includes_of
validate_deployment_transition from to = includes_of same (transitions from) to

-- Returns, or throws an `InvalidTransitionError`.
unfoldable pub assert_deployment_transition :
    DeploymentStatus → DeploymentStatus → Result DeploymentStatus (Unit {0})
unfolding validate_deployment_transition
assert_deployment_transition from to =
    if validate_deployment_transition from to then ok tt else invalid_transition from to

unfoldable pub is_deployment_terminal : DeploymentStatus → Bool
unfolding terminal_states includes_of
is_deployment_terminal status = includes_of same terminal_states status
