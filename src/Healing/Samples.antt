-- ===== src/Healing/Samples.antt =====
-- Runs of the health monitor and the remediation of one project.
use dev_ops_deployment_tool.Common.{
  List, String, ◌≡◌, ◌⊎◌, ◌↔◌, ◌<◌, ◌*◌, length, ◌+◌, ◌≤◌, refl, true, false, [], ◌∷◌, none, some,
  str_eq, arith,
}
use dev_ops_deployment_tool.Healing.Window.{
  healthy, unhealthy, create_window, compute_health, pass_count,
}
use dev_ops_deployment_tool.Healing.Windows.{
  push_all, push_all_lem, latest, compute_health_iff, healthy_threshold, degraded_threshold,
}
use dev_ops_deployment_tool.Healing.Effects.{Host}
use dev_ops_deployment_tool.Healing.Remediation.{
  blue, green, DeploymentRef, RemediationState, create_remediation_state, slot, proxy,
  attempt_rollback, remediate, rolled,
}
use dev_ops_deployment_tool.Healing.Decisions.{count_restarts, count_restarts-le}
use dev_ops_deployment_tool.Healing.Remedies.{Ends, Remedied, remediate_lem}
use dev_ops_deployment_tool.Healing.Discovery.{
  DiscoveredContainer, get, reconcile, monitored_of, last_container, Follows, reconcile_lem,
}
use dev_ops_deployment_tool.Healing.PreviousImage.{
  read_previous_image, deployed, newest_other, read_previous_image_lem,
}
use dev_ops_deployment_tool.Healing.Switching.{is_orderly, attempt_rollback_orderly}
use dev_ops_deployment_tool.Healing.Monitor.{
  MonitoredDeployment, probe, check_one, StaysMonitored, check_one-IsMonitored,
}

-- Docker obeys, and only the green container answers.
abbrev calm : Host
calm = record {
  throws = λ log c. false;
  running = λ log name. true;
  passes = λ log name. str_eq name "deployx-shop-green";
  now = λ log. 1000000;
}

abbrev shop : DeploymentRef
shop = record {
  project_slug = "shop";
  container_name = "deployx-shop-blue";
  current_color = blue;
  previous_image_tag = some "shop:1";
  strategy = none;
}

abbrev exhausted : RemediationState
exhausted = record { restart_count = 3; last_restart_at = 0; is_remediating = false }

remediate-exhausted : (remediate calm shop unhealthy exhausted []).0 ≡ some (rolled true exhausted)
unfolding remediate
remediate-exhausted = refl

remediate_lem_example :
    Ends (Remedied calm shop exhausted [] unhealthy) (remediate calm shop unhealthy exhausted [])
remediate_lem_example = remediate_lem calm shop exhausted [] unhealthy

count_restarts-le_example :
    count_restarts calm shop ((unhealthy, []) ∷ (unhealthy, []) ∷ []) create_remediation_state + 0
    ≤ 3
count_restarts-le_example =
    count_restarts-le calm shop ((unhealthy, []) ∷ (unhealthy, []) ∷ []) create_remediation_state
      (omega arith) (λ e. cc, (λ e. cc, tt))

attempt_rollback_orderly_example :
    is_orderly "deployx-shop-blue"
      (proxy "shop")
      (slot "shop" green)
      (attempt_rollback calm shop "shop:1" exhausted []).1
    ≡ true
attempt_rollback_orderly_example = attempt_rollback_orderly calm shop "shop:1" exhausted refl

push_all_lem_example :
    ((push_all (create_window 2) (true ∷ true ∷ false ∷ [])).entries
      ≡ latest 2 (true ∷ true ∷ false ∷ []))
    × (length (push_all (create_window 2) (true ∷ true ∷ false ∷ [])).entries ≤ 2)
push_all_lem_example = push_all_lem 2 (true ∷ true ∷ false ∷ [])

compute_health_iff_example :
    ((compute_health
          (push_all (create_window 10) (true ∷ false ∷ false ∷ []))
          healthy_threshold
          degraded_threshold
        ≡ unhealthy)
      ↔ (pass_count (latest 10 (true ∷ false ∷ false ∷ [])) * 2
          < length (latest 10 (true ∷ false ∷ false ∷ []))))
    × ((compute_health
            (push_all (create_window 10) (true ∷ false ∷ false ∷ []))
            healthy_threshold
            degraded_threshold
          ≡ healthy)
        ↔ (4 * length (latest 10 (true ∷ false ∷ false ∷ []))
            ≤ pass_count (latest 10 (true ∷ false ∷ false ∷ [])) * 5))
compute_health_iff_example = compute_health_iff (true ∷ false ∷ false ∷ [])

abbrev watched : MonitoredDeployment
watched = record {
  ref = shop;
  window = create_window 10;
  remediation_state = create_remediation_state;
}

check_one-IsMonitored_example :
    (((probe calm "deployx-shop-blue" []).0 ≡ none) × ((check_one calm watched []).0 ≡ none))
    ⊎ StaysMonitored shop (check_one calm watched []).0
check_one-IsMonitored_example = check_one-IsMonitored calm watched [] (omega arith, omega arith)

-- Two instances of one rolling deployment.
abbrev instance_of : String → DiscoveredContainer
instance_of name = record {
  container_name = name;
  project_slug = "shop";
  deployment_id = "d1";
  color = none;
  strategy = "rolling";
  previous_image = none;
}

abbrev instances : List DiscoveredContainer
instances = instance_of "deployx-shop-1" ∷ instance_of "deployx-shop-2" ∷ []

-- The second alone is monitored.
reconcile-instances :
    get (reconcile [] instances) "d1" ≡ some (monitored_of none (instance_of "deployx-shop-2"))
unfolding get reconcile
reconcile-instances = refl

reconcile_lem_example :
    Follows (get [] "d1") (last_container "d1" instances none) (get (reconcile [] instances) "d1")
reconcile_lem_example = reconcile_lem [] instances "d1"

-- The second version is deployed twice.
read_previous_image_lem_example :
    read_previous_image (deployed (λ key. none) ("shop:2" ∷ "shop:2" ∷ "shop:1" ∷ []))
    ≡ newest_other "shop:2" ("shop:2" ∷ "shop:1" ∷ [])
read_previous_image_lem_example =
    read_previous_image_lem (λ key. none) "shop:2" ("shop:2" ∷ "shop:1" ∷ []) refl
      (refl, (refl, tt))
