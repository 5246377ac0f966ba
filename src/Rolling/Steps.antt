-- ===== src/Rolling/Steps.antt =====
-- The steps of a rollout: the upstreams of nginx, the batches, the rollback, and a first deployment.
use dev_ops_deployment_tool.Common.{
  ℕ, suc, Bool, true, false, Option, none, some, List, [], ◌∷◌, ◌++◌, String, if◌then◌else◌,
}
use dev_ops_deployment_tool.Healing.PreviousImage.{Labels, with_previous_image_label}
use dev_ops_deployment_tool.Rolling.Calls.{
  Host, Instance, Action, ◌>>=◌, ◌>>◌, pure, is_container_running, stop_container, remove_container,
  run_container, wait_for_healthy, write_and_reload_nginx, start_proxy,
}
use dev_ops_deployment_tool.Rolling.Plan.{
  Deploy, DeployResult, Progress, RolloutPlan, batches, is_excluded, max, ordinals_from,
  rolling_max_instances, stop_with, succeeded, unsuccessful, updated_to,
}

abbrev pub after_instance :
    (List ℕ → Action Progress) → List ℕ → Option DeployResult → Action Progress
after_instance rest updated (some failure) = pure (stop_with failure)
after_instance rest updated none = rest updated

abbrev pub next_batch : (List ℕ → Action DeployResult) → Progress → Action DeployResult
next_batch rest (stop_with failure) = pure failure
next_batch rest (updated_to updated) = rest updated

abbrev pub container_of : String → Labels → Instance
container_of image labels = record {
  inspection = record { image = image; labels = labels };
  is_up = true;
}

module _ (h : Host) where
  -- The instances that are seen as running, of the listed ones that are not excluded.
  unfoldable pub running_names : List ℕ → List ℕ → Action (List ℕ)
  running_names exclude [] = pure []
  running_names exclude (i ∷ is) =
      let rest = running_names exclude is in
      if is_excluded exclude i
      then rest
      else is_container_running h i >>= λ running.
          rest >>= λ names. pure (if running then i ∷ names else names)

  abbrev pub write_names : List ℕ → Action (Unit {0})
  write_names [] = pure tt
  write_names (i ∷ is) = write_and_reload_nginx h (i ∷ is)

  unfoldable pub update_nginx : RolloutPlan → List ℕ → Action (Unit {0})
  update_nginx plan exclude = do
    names ← running_names exclude (ordinals_from 0 (max plan.instance_count rolling_max_instances))
    write_names names

  abbrev pub remove_each : List ℕ → Action (Unit {0})
  remove_each [] = pure tt
  remove_each (i ∷ is) = remove_container h i >> remove_each is

  abbrev pub stop_if : Bool → ℕ → Action (Unit {0})
  stop_if true i = stop_container h i >> remove_container h i
  stop_if false i = pure tt

  -- The old containers of a batch.
  unfoldable pub stop_batch : List ℕ → Action (Unit {0})
  stop_batch [] = pure tt
  stop_batch (i ∷ is) = is_container_running h i >>= λ running. stop_if running i >> stop_batch is

module _ (h : Host) (ctx : Deploy) where
  abbrev pub new_instance : Option String → ℕ → Instance
  new_instance previous i =
      container_of ctx.image_tag (with_previous_image_label (ctx.labels i) previous)

  abbrev pub restore_each : String → Option String → List ℕ → Action (Unit {0})
  restore_each image label [] = pure tt
  restore_each image label (i ∷ is) =
      remove_container h i
      >> run_container h i (container_of image (with_previous_image_label (ctx.labels i) label))
      >> restore_each image label is

  -- Nothing is roll-succeeded back where no previous image is known.
  unfoldable pub rollback_instances : RolloutPlan → List ℕ → Action (Unit {0})
  rollback_instances plan ordinals = elim plan.previous_image [
    | none ↦ pure tt
    | some image ↦ restore_each image plan.outgoing_label ordinals
  ]

  abbrev pub verified : RolloutPlan → List ℕ → ℕ → Bool → Action (Option DeployResult)
  verified plan updated i true = pure none
  verified plan updated i false = do
    rollback_instances plan (updated ++ i ∷ [])
    update_nginx h plan []
    pure (some unsuccessful)

  -- `none`: the instance is healthy.
  unfoldable pub start_and_verify : RolloutPlan → List ℕ → ℕ → Action (Option DeployResult)
  start_and_verify plan updated i = do
    run_container h i (new_instance plan.previous_image i)
    passed ← wait_for_healthy h i
    verified plan updated i passed

  unfoldable pub start_batch : RolloutPlan → List ℕ → List ℕ → Action Progress
  start_batch plan [] updated = pure (updated_to updated)
  start_batch plan (i ∷ is) updated =
      start_and_verify plan updated i >>= after_instance (start_batch plan is) (updated ++ i ∷ [])

  abbrev pub after_batch : RolloutPlan → Progress → Action Progress
  after_batch plan (stop_with failure) = pure (stop_with failure)
  after_batch plan (updated_to updated) = update_nginx h plan [] >> pure (updated_to updated)

  unfoldable pub replace_batch : RolloutPlan → List ℕ → List ℕ → Action Progress
  replace_batch plan batch updated = do
    update_nginx h plan batch
    stop_batch h batch
    p ← start_batch plan batch updated
    after_batch plan p

  -- The loop over the batches.
  unfoldable pub roll_batches : RolloutPlan → List (List ℕ) → List ℕ → Action DeployResult
  roll_batches plan [] updated = pure succeeded
  roll_batches plan (batch ∷ batches) updated =
      replace_batch plan batch updated >>= next_batch (roll_batches plan batches)

  abbrev pub after_first : Action DeployResult → ℕ → Bool → Action DeployResult
  after_first rest i true = rest
  after_first rest i false = remove_each h (ordinals_from 0 (suc i)) >> pure unsuccessful

  -- The instances of a first deployment, one after another.
  unfoldable pub start_first : List ℕ → Action DeployResult
  start_first [] = pure succeeded
  start_first (i ∷ is) =
      remove_container h i
      >> run_container h i (container_of ctx.image_tag (ctx.labels i))
      >> wait_for_healthy h i
      >>= after_first (start_first is) i

  abbrev pub configure_first : ℕ → DeployResult → Action DeployResult
  configure_first count unsuccessful = pure unsuccessful
  configure_first count succeeded =
      start_proxy h >> write_and_reload_nginx h (ordinals_from 0 count) >> pure succeeded

  unfoldable pub first_deploy : ℕ → Action DeployResult
  first_deploy count = start_first (ordinals_from 0 count) >>= configure_first count
