-- ===== src/Rolling.antt =====
-- `DockerLocalRollingDeployer` of apps/runner/src/deployers/docker-local-rolling-deployer.ts. Log
-- lines, waits, the reports to the control plane (which cannot fail a deployment), the network, the
-- port and the environment of a container are left out.
pub mod Calls
pub mod Plan
pub mod Steps
pub mod Rollout
pub mod Batches
pub mod Success
pub mod Deployed
pub mod Failure
pub mod Restoring
pub mod Samples
use dev_ops_deployment_tool.Common.{
  ℕ, zero, suc, ◌+◌, ◌-◌, Bool, true, false, not, Option, none, some, List, [], ◌∷◌, ◌++◌, String,
  ltb, leb, ◌==◌, ◌*◌, if◌then◌else◌, includes_of,
}
use dev_ops_deployment_tool.Healing.PreviousImage.{
  ContainerInspection, Labels, resolve_previous_image, with_previous_image_label,
  read_previous_image,
}
use dev_ops_deployment_tool.Rolling.Calls.{
  Docker, Host, Instance, Action, ◌>>=◌, ◌>>◌, pure, is_container_running, inspect_running,
  stop_container, remove_container, remove_proxy, run_container, wait_for_healthy,
  write_and_reload_nginx, start_proxy, check_health,
}
use dev_ops_deployment_tool.Rolling.Plan.{
  Deploy, DeployResult, Progress, RolloutPlan, batches, instance_count, is_excluded, max,
  max_unavailable, min, or_default, ordinals_from, plan_of, rolling_default_instances,
  rolling_max_instances, rolling_max_unavailable, stop_with, succeeded, unsuccessful, updated_to,
}
use dev_ops_deployment_tool.Rolling.Steps.{
  after_batch, after_first, after_instance, configure_first, first_deploy, container_of,
  new_instance, next_batch, remove_each, replace_batch, restore_each, roll_batches,
  rollback_instances, running_names, start_and_verify, start_batch, start_first, stop_batch,
  stop_if, update_nginx, verified, write_names,
}

abbrev pub found : Option ContainerInspection → List ContainerInspection → List ContainerInspection
found none more = more
found (some c) more = c ∷ more

-- `discoverInstances`
unfoldable pub discover : Host → List ℕ → Action (List ContainerInspection)
discover h [] = pure []
discover h (i ∷ is) = inspect_running h i >>= λ c. discover h is >>= λ more. pure (found c more)

abbrev pub caught_result : Option DeployResult → Option DeployResult
caught_result (some r) = some r
caught_result none = some unsuccessful

-- `try { … } catch { return { success: false } }`
abbrev pub caught_deploy : Action DeployResult → Action DeployResult
caught_deploy m d = let (r, d') = m d in (caught_result r, d')

unfoldable pub roll : Host → Deploy → ContainerInspection → Action DeployResult
roll h ctx outgoing = do
  start_proxy h
  let count = instance_count ctx
  roll_batches h ctx (plan_of ctx outgoing) (batches count count (max_unavailable ctx) 0) []

-- A first deployment is returned without being awaited, so its exceptions are not caught_deploy.
abbrev pub deploy_onto : Host → Deploy → List ContainerInspection → Action DeployResult
deploy_onto h ctx [] = first_deploy h ctx (instance_count ctx)
deploy_onto h ctx (outgoing ∷ more) = caught_deploy (roll h ctx outgoing)

unfoldable pub deploy : Host → Deploy → Action DeployResult
deploy h ctx = discover h (ordinals_from 0 rolling_max_instances) >>= deploy_onto h ctx

unfoldable pub rollback : Host → Deploy → String → Action DeployResult
rollback h ctx image = deploy h (record ctx { image_tag = image })

unfoldable pub stop : Host → Deploy → Action (Unit {0})
stop h ctx = remove_each h (ordinals_from 0 (instance_count ctx)) >> remove_proxy h

abbrev pub count_if : Bool → ℕ → ℕ
count_if true n = suc n
count_if false n = n

-- The number of running instances, and of those that pass a health check.
unfoldable pub probe_all : Host → List ℕ → Action (ℕ × ℕ)
probe_all h [] = pure (0, 0)
probe_all h (i ∷ is) = do
  running ← is_container_running h i
  passed ← check_health h running i
  counts ← probe_all h is
  pure (count_if running counts.0, count_if passed counts.1)

pub data HealthStatus : Type 0 where
  healthy unhealthy degraded unknown : HealthStatus

-- `healthy > total / 2` on fractions.
unfoldable pub health_from : ℕ → ℕ → HealthStatus
health_from total passed =
    if total == 0
    then unknown
    else if passed == total
    then healthy
    else if ltb total (2 * passed)
    then degraded
    else unhealthy

unfoldable pub get_health : Host → Action HealthStatus
get_health h = do
  counts ← probe_all h (ordinals_from 0 rolling_max_instances)
  pure (health_from counts.0 counts.1)

abbrev pub active_or : Action Bool → Bool → Action Bool
active_or rest true = pure true
active_or rest false = rest

-- `getStatus`: whether any instance is active.
unfoldable pub is_active : Host → List ℕ → Action Bool
is_active h [] = pure false
is_active h (i ∷ is) = is_container_running h i >>= active_or (is_active h is)

unfoldable pub get_status : Host → Action Bool
get_status h = is_active h (ordinals_from 0 rolling_max_instances)
