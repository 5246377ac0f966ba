-- ===== src/Rolling/Success.antt =====
-- A rollout that succeeds has replaced every instance.
use dev_ops_deployment_tool.Common.{
  ℕ, zero, suc, ◌+◌, ◌-◌, ◌<◌, ◌≤◌, ◌≡◌, refl, ap, ◌∙◌, ◌⊎◌, inl, inr, Bool, true, false, Option,
  none, some, List, [], ◌∷◌, ◌++◌, arith, Option-cases, dec_lt,
}
use mathlib.Core.Path.{subst}
use dev_ops_deployment_tool.Healing.PreviousImage.{ContainerInspection}
use dev_ops_deployment_tool.Rolling.Calls.{
  Docker, Host, Instance, Action, count_call, put, run_container, wait_for_healthy, start_proxy,
}
use dev_ops_deployment_tool.Rolling.Plan.{
  Deploy, RolloutPlan, DeployResult, succeeded, unsuccessful, Progress, stop_with, updated_to,
  ordinals_from, batches, min, plan_of, instance_count, max_unavailable,
}
use dev_ops_deployment_tool.Rolling.Steps.{
  update_nginx, stop_batch, rollback_instances, new_instance, verified, start_and_verify,
  after_instance, start_batch, after_batch, replace_batch, next_batch, roll_batches,
}
use dev_ops_deployment_tool.Rolling.{roll}
use dev_ops_deployment_tool.Rolling.Batches.{batches-done, batches-step}
use dev_ops_deployment_tool.Rolling.Rollout.{
  Then, Then-rule, Then-any, Leaves, Below, update_nginx-Leaves, stop_batch-Below, set-command,
  put-ne,
}

module _ (h : Host) (ctx : Deploy) (plan : RolloutPlan) where
  -- The instances below `b` run the new image.
  abbrev Upto : ℕ → Docker → Type 0
  Upto b d = (j : ℕ) → j < b → d.instances j ≡ some (new_instance h ctx plan.previous_image j)

  abbrev Verified : ℕ → Docker → Option DeployResult → Docker → Type 0
  Verified i d none d' =
      d'.instances ≡ put i (some (new_instance h ctx plan.previous_image i)) d.instances
  Verified i d (some unsuccessful) d' = Unit
  Verified i d (some succeeded) d' = ⊥

  abbrev Batched : ℕ → Progress → Docker → Type 0
  Batched b (updated_to us) d' = Upto b d'
  Batched b (stop_with unsuccessful) d' = Unit
  Batched b (stop_with succeeded) d' = ⊥

  abbrev Rolled : ℕ → DeployResult → Docker → Type 0
  Rolled b succeeded d' = Upto b d'
  Rolled b unsuccessful d' = Unit

  pub run_container-put :
      (i : ℕ) (c : Instance) (d : Docker)
      → Then (λ _ d'. d'.instances ≡ put i (some c) d.instances) (run_container h i c d)
  unfolding run_container
  run_container-put i c d = elim (Option-cases (d.instances i)) [
    | inl e ↦ rw e (set-command h i (some c) d)
    | inr (taken, e) ↦ rw e tt
  ]

  verified-Verified :
      (us : List ℕ) (i : ℕ) (passed : Bool) (d d₁ : Docker)
      → d₁.instances ≡ put i (some (new_instance h ctx plan.previous_image i)) d.instances
      → Then (Verified i d) (verified h ctx plan us i passed d₁)
  verified-Verified us i true d d₁ e = e
  verified-Verified us i false d d₁ e =
      Then-rule (λ _ _. Unit) (Verified i d) (rollback_instances h ctx plan (us ++ i ∷ [])) _ d₁
        (Then-any _)
        (λ _ d₂ _.
          Then-rule (λ _ _. Unit) (Verified i d) (update_nginx h plan []) _ d₂ (Then-any _)
            (λ _ _ _. tt))

  start_and_verify-Verified :
      (us : List ℕ) (i : ℕ) (d : Docker) → Then (Verified i d) (start_and_verify h ctx plan us i d)
  unfolding start_and_verify wait_for_healthy
  start_and_verify-Verified us i d =
      let c = new_instance h ctx plan.previous_image i in
      Then-rule (λ _ d'. d'.instances ≡ put i (some c) d.instances) (Verified i d)
        (run_container h i c) _ d (run_container-put i c d)
        (λ _ d₁ e. verified-Verified us i (h.passes d₁.calls i) d (count_call d₁) e)

  Upto-put :
      (i : ℕ) (d d' : Docker)
      → Upto i d
      → d'.instances ≡ put i (some (new_instance h ctx plan.previous_image i)) d.instances
      → Upto (suc i) d'
  Upto-put i d d' up e j lt = rw e (elim (dec_lt j i) [
    | yes less ↦ put-ne i j _ d.instances (λ s. omega arith) ∙ up j less
    | no n ↦ let s : i ≡ j = omega arith in ground arith
  ])

  Upto-weaken : (b c : ℕ) (d : Docker) → c ≤ b → Upto b d → Upto c d
  Upto-weaken b c d le up j lt = up j (omega arith)

  Upto-kept : (b : ℕ) (d d' : Docker) → Below b d d' → Upto b d → Upto b d'
  Upto-kept b d d' same up j lt = same j lt ∙ up j lt

  after_instance-Batched :
      (i b : ℕ) (rest : List ℕ → Action Progress) (us : List ℕ) (d d₁ : Docker)
      (r : Option DeployResult)
      → ((d₂ : Docker) → Upto (suc i) d₂ → Then (Batched b) (rest us d₂))
      → Upto i d
      → Verified i d r d₁
      → Then (Batched b) (after_instance rest us r d₁)
  after_instance-Batched i b rest us d d₁ none go up v = go d₁ (Upto-put i d d₁ up v)
  after_instance-Batched i b rest us d d₁ (some unsuccessful) go up v = tt
  after_instance-Batched i b rest us d d₁ (some succeeded) go up v = absurd v

  start_batch-Batched :
      (i k b : ℕ) (us : List ℕ) (d : Docker)
      → b ≡ i + k
      → Upto i d
      → Then (Batched b) (start_batch h ctx plan (ordinals_from i k) us d)
  unfolding ordinals_from start_batch
  start_batch-Batched i zero b us d e up = Upto-weaken i b d (omega arith) up
  start_batch-Batched i (suc k) b us d e up =
      let us' = us ++ i ∷ [] in
      Then-rule (Verified i d) (Batched b) (start_and_verify h ctx plan us i) _ d
        (start_and_verify-Verified us i d)
        (λ r d₁ v.
          after_instance-Batched i b (start_batch h ctx plan (ordinals_from (suc i) k)) us' d d₁ r
            (λ d₂. start_batch-Batched (suc i) k b us' d₂ (omega arith)) up v)

  after_batch-Batched :
      (b : ℕ) (p : Progress) (d : Docker)
      → Batched b p d
      → Then (Batched b) (after_batch h ctx plan p d)
  after_batch-Batched b (stop_with succeeded) d q = absurd q
  after_batch-Batched b (stop_with unsuccessful) d q = tt
  after_batch-Batched b (updated_to us) d q =
      Then-rule (Leaves d) (Batched b) (update_nginx h plan []) _ d
        (update_nginx-Leaves h plan [] d)
        (λ _ d' same. Upto-kept b d d' (λ j lt. ap (λ (f : ℕ → Option Instance). f j) same) q)

  replace_batch-Batched :
      (i k : ℕ) (us : List ℕ) (d : Docker)
      → Upto i d
      → Then (Batched (i + k)) (replace_batch h ctx plan (ordinals_from i k) us d)
  unfolding replace_batch
  replace_batch-Batched i k us d up =
      let batch = ordinals_from i k in
      let P = Batched (i + k) in
      Then-rule (Leaves d) P (update_nginx h plan batch) _ d (update_nginx-Leaves h plan batch d)
        (λ _ d₁ same.
          Then-rule (λ _ d'. Below i d₁ d') P (stop_batch h batch) _ d₁
            (stop_batch-Below h i k i d₁ (omega arith))
            (λ _ d₂ below.
              let up₁ = Upto-kept i d d₁ (λ j lt. ap (λ (f : ℕ → Option Instance). f j) same) up in
              Then-rule P P (start_batch h ctx plan batch us) (after_batch h ctx plan) d₂
                (start_batch-Batched i k (i + k) us d₂ refl (Upto-kept i d₁ d₂ below up₁))
                (λ p d₃. after_batch-Batched (i + k) p d₃)))

  next_batch-Rolled :
      (b count : ℕ) (rest : List ℕ → Action DeployResult) (p : Progress) (d : Docker)
      → ((us : List ℕ) → Upto b d → Then (Rolled count) (rest us d))
      → Batched b p d
      → Then (Rolled count) (next_batch rest p d)
  next_batch-Rolled b count rest (stop_with succeeded) d go q = absurd q
  next_batch-Rolled b count rest (stop_with unsuccessful) d go q = tt
  next_batch-Rolled b count rest (updated_to us) d go q = go us q

  roll_batches-Rolled :
      (fuel count m i b : ℕ) (us : List ℕ) (d : Docker)
      → 0 < m
      → count ≤ fuel + i
      → (i ≤ b) ⊎ (count ≤ b)
      → Upto b d
      → Then (Rolled count) (roll_batches h ctx plan (batches fuel count m i) us d)
  unfolding roll_batches
  roll_batches-Rolled zero count m i b us d pos enough far up =
      rw (batches-done 0 count m i (omega arith)) (Upto-weaken b count d (omega arith) up)
  roll_batches-Rolled (suc fuel) count m i b us d pos enough far up = elim (dec_lt i count) [
    | no n ↦
        rw (batches-done (suc fuel) count m i (omega arith))
          (Upto-weaken b count d (omega arith) up)
    | yes lt ↦
        let k = min m (count - i) in
        let more = batches fuel count m (i + m) in
        rw (batches-step fuel count m i lt) (
          Then-rule (Batched (i + k)) (Rolled count)
            (replace_batch h ctx plan (ordinals_from i k) us)
            (next_batch (roll_batches h ctx plan more)) d
            (replace_batch-Batched i k us d (Upto-weaken b i d (omega arith) up))
            (λ p d₁. next_batch-Rolled (i + k) count (roll_batches h ctx plan more) p d₁ (λ us' up'.
              roll_batches-Rolled fuel count m (i + m) (i + k) us' d₁ pos (omega arith)
                (ground arith) up')))
  ]

start_proxy-Any : (h : Host) (d : Docker) → Then (λ _ _. Unit) (start_proxy h d)
start_proxy-Any h d = Then-any (start_proxy h d)

-- A rollout onto running instances, whatever Docker and nginx answer: if it reports success, and
-- `max_unavailable` and the number of instances are positive, every instance of the configured number
-- runs the image of the deployment, labelled with the image that it replaces.
pub roll_succeeds :
    (h : Host) (ctx : Deploy) (outgoing : ContainerInspection) (d d' : Docker) (j : ℕ)
    → 0 < max_unavailable ctx
    → roll h ctx outgoing d ≡ (some succeeded, d')
    → j < instance_count ctx
    → d'.instances j ≡ some (new_instance h ctx (plan_of ctx outgoing).previous_image j)
unfolding roll
roll_succeeds h ctx outgoing d d' j pos won lt =
    let plan = plan_of ctx outgoing in
    let count = instance_count ctx in
    let m = max_unavailable ctx in
    subst (Then (Rolled h ctx plan count)) won
      (Then-rule (λ _ _. Unit) (Rolled h ctx plan count) (start_proxy h)
        (λ _. roll_batches h ctx plan (batches count count m 0) []) d (start_proxy-Any h d)
        (λ _ d₁ _.
          roll_batches-Rolled h ctx plan count count m 0 0 [] d₁ pos (omega arith)
            (inl (omega arith)) (λ k none_below. absurd (omega arith))))
      j lt
