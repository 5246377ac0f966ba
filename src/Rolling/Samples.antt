-- ===== src/Rolling/Samples.antt =====
-- A rollout over three instances, and one that fails.
use dev_ops_deployment_tool.Common.{
  ℕ, suc, ◌<◌, ◌≤◌, ◌+◌, ◌-◌, ◌≡◌, refl, true, none, some, str_eq, [], ◌∷◌, arith, ◌==◌, ltb, not,
  All, includes_of, if◌then◌else◌,
}
use dev_ops_deployment_tool.Healing.PreviousImage.{
  ContainerInspection, Labels, resolve_previous_image,
}
use dev_ops_deployment_tool.Rolling.Calls.{
  Docker, Host, Instance, inspect_running, done, seen_up, is_container_running, stop_container,
  remove_container, run_container, wait_for_healthy, write_and_reload_nginx, start_proxy,
}
use dev_ops_deployment_tool.Rolling.Plan.{
  Deploy, succeeded, unsuccessful, stop_with, instance_count, max_unavailable, plan_of,
  ordinals_from, batches, rolling_max_instances,
}
use dev_ops_deployment_tool.Rolling.Steps.{
  running_names, update_nginx, stop_batch, start_and_verify, start_batch, replace_batch,
  roll_batches, rollback_instances,
}
use dev_ops_deployment_tool.Rolling.{roll, discover, deploy}
use dev_ops_deployment_tool.Rolling.Batches.{in_order, AtMost, batches_lem}
use dev_ops_deployment_tool.Rolling.Deployed.{previous_label, deploy_succeeds}
use dev_ops_deployment_tool.Rolling.Failure.{replace_batch_fails}
use dev_ops_deployment_tool.Rolling.Restoring.{restored}

-- Every command takes effect, and every container is healthy.
abbrev calm : Host
calm = record { answer = λ n. done; sees = λ n. true; passes = λ n i. true }

abbrev no_labels : Labels
no_labels key = none

abbrev outgoing : ContainerInspection
outgoing = record { image = "app:1"; labels = no_labels }

abbrev ctx : Deploy
ctx = record {
  image_tag = "app:2";
  instances = some 3;
  max_unavailable = some 2;
  labels = λ i. no_labels;
}

abbrev before : Docker
before = record {
  instances = λ i. if ltb i 3 then some (record { inspection = outgoing; is_up = true }) else none;
  written = [];
  loaded = [];
  has_proxy = true;
  calls = 0;
}

abbrev found_state : Docker
found_state = record before { calls = 10 }

abbrev after : Docker
after = (deploy calm ctx before).1

discover-before :
    discover calm (ordinals_from 0 rolling_max_instances) before
    ≡ (some (outgoing ∷ outgoing ∷ outgoing ∷ []), found_state)
unfolding discover inspect_running ordinals_from
discover-before = refl

deploy-succeeded : deploy calm ctx before ≡ (some succeeded, after)
unfolding deploy discover inspect_running roll start_proxy roll_batches batches instance_count
    max_unavailable replace_batch update_nginx running_names is_container_running
    write_and_reload_nginx stop_batch stop_container remove_container start_batch start_and_verify
    run_container wait_for_healthy ordinals_from includes_of plan_of
deploy-succeeded = refl

deploy_succeeds_example :
    (i : ℕ) × (old new : Instance) × (before.instances i ≡ some old)
    × (old.is_up ≡ true)
    × (after.instances 2 ≡ some new)
    × (new.is_up ≡ true)
    × (new.inspection.image ≡ "app:2")
    × (new.inspection.labels "deployx.previousImage" ≡ (
        if str_eq "deployx.previousImage" "deployx.previousImage"
        then previous_label old.inspection "app:2" none
        else none))
unfolding instance_count max_unavailable
deploy_succeeds_example =
    deploy_succeeds calm ctx outgoing (outgoing ∷ outgoing ∷ []) before found_state after 2
      "deployx.previousImage" (omega arith) discover-before deploy-succeeded (omega arith)

batches_lem_example :
    (batches 6 5 2 0 ≡ batches 5 5 2 0)
    × (in_order (batches 5 5 2 0) ≡ ordinals_from 0 5)
    × All (AtMost 2) (batches 5 5 2 0)
batches_lem_example = batches_lem 5 2 (omega arith)

-- The first instance is unhealthy: the second one, of the same batch, is left removed.
abbrev first_sick : Host
first_sick = record { answer = λ n. done; sees = λ n. true; passes = λ n i. not (i == 0) }

rolled_back : (roll first_sick ctx outgoing before).1.instances 1 ≡ none
unfolding roll start_proxy roll_batches batches instance_count max_unavailable replace_batch
    update_nginx running_names is_container_running write_and_reload_nginx stop_batch stop_container
    remove_container start_batch start_and_verify run_container wait_for_healthy ordinals_from
    includes_of plan_of rollback_instances resolve_previous_image
rolled_back = refl

abbrev sick_after : Docker
sick_after =
    (replace_batch first_sick ctx (plan_of ctx outgoing) (ordinals_from 0 2) (ordinals_from 0 0)
      before).1

before-up : (j : ℕ) → 0 ≤ j → j < 0 + 2 → seen_up true (before.instances j) ≡ true
before-up j le lt = ground arith

batch-stopped :
    replace_batch first_sick ctx
      (plan_of ctx outgoing)
      (ordinals_from 0 2)
      (ordinals_from 0 0)
      before
    ≡ (some (stop_with unsuccessful), sick_after)
unfolding instance_count max_unavailable replace_batch update_nginx running_names
    is_container_running write_and_reload_nginx stop_batch stop_container remove_container
    start_batch start_and_verify run_container wait_for_healthy ordinals_from includes_of plan_of
    rollback_instances resolve_previous_image
batch-stopped = refl

replace_batch_fails_example :
    (f : ℕ) × (0 ≤ f)
    × (f < 0 + 2)
    × All
        (λ j.
          sick_after.instances j ≡ some (restored first_sick ctx (plan_of ctx outgoing) "app:1" j))
        (ordinals_from 0 (suc f))
    × All (λ j. sick_after.instances j ≡ none) (ordinals_from (suc f) (0 + 2 - suc f))
unfolding plan_of resolve_previous_image
replace_batch_fails_example =
    replace_batch_fails first_sick ctx (plan_of ctx outgoing) "app:1" 0 2 before sick_after
      unsuccessful refl (λ n. refl) before-up batch-stopped
