-- ===== src/Rolling/Restoring.antt =====
-- The instances that a failed health check of a rolling update puts back to the outgoing image.
use dev_ops_deployment_tool.Common.{
  ℕ, zero, suc, ◌+◌, ◌<◌, ◌≤◌, ◌≡◌, refl, sym, ap, ◌∙◌, ◌⊎◌, inl, inr, Bool, true, false, Option,
  none, some, List, [], ◌∷◌, ◌++◌, String, arith, dec_lt,
}
use mathlib.Core.Path.{subst}
use dev_ops_deployment_tool.Healing.PreviousImage.{with_previous_image_label}
use dev_ops_deployment_tool.Rolling.Calls.{
  Docker, Host, Instance, Action, pure, ◌>>◌, command, count_call, set_instance, put, run_container,
  remove_container, wait_for_healthy,
}
use dev_ops_deployment_tool.Rolling.Plan.{
  Deploy, RolloutPlan, DeployResult, Progress, stop_with, updated_to, ordinals_from,
}
use dev_ops_deployment_tool.Rolling.Batches.{ordinals_from-append}
use dev_ops_deployment_tool.Rolling.Steps.{
  container_of, new_instance, restore_each, rollback_instances, verified, start_and_verify,
  after_instance, start_batch, update_nginx,
}
use dev_ops_deployment_tool.Rolling.Rollout.{
  Then, Then-rule, Then-map, Leaves, update_nginx-Leaves, set-command, put-ne,
}
use dev_ops_deployment_tool.Rolling.Success.{run_container-put}

ordinals_from-snoc : (i : ℕ) → ordinals_from 0 i ++ i ∷ [] ≡ ordinals_from 0 (suc i)
unfolding ordinals_from
ordinals_from-snoc i =
    let e : i ≡ 0 + i = omega arith in
    let e' : i + 1 ≡ suc i = omega arith in
    ap (λ (x : ℕ). ordinals_from 0 i ++ x ∷ []) e
    ∙ ordinals_from-append 0 i 1
    ∙ ap (ordinals_from 0) e'

module _ (h : Host) (ctx : Deploy) (plan : RolloutPlan) (image : String) where
  abbrev pub restored : ℕ → Instance
  restored i = container_of image (with_previous_image_label (ctx.labels i) plan.outgoing_label)

  abbrev Restores : ℕ → ℕ → Docker → Docker → Type 0
  Restores a b d d' =
      ((j : ℕ) → a ≤ j → j < b → d'.instances j ≡ some (restored j))
      × ((j : ℕ) → (j < a) ⊎ (b ≤ j) → d'.instances j ≡ d.instances j)

  Restores-step :
      (a b : ℕ) (d d₂ d₃ : Docker)
      → a < b
      → d₂.instances ≡ put a (some (restored a)) (put a none d.instances)
      → Restores (suc a) b d₂ d₃
      → Restores a b d d₃
  Restores-step a b d d₂ d₃ lt e (r, l) = (
    λ j le lt'. elim (dec_lt a j) [
      | yes above ↦ r j (omega arith) lt'
      | no n ↦
          let same : a ≡ j = omega arith in
          l j (inl (omega arith)) ∙ ap (λ (f : ℕ → Option Instance). f j) e ∙ ground arith
    ],
    λ j outside.
        let ne : a ≡ j → ⊥ = λ same. ground arith in
        l j (ground arith)
        ∙ ap (λ (f : ℕ → Option Instance). f j) e
        ∙ put-ne a j (some (restored a)) (put a none d.instances) ne
        ∙ put-ne a j none d.instances ne,
  )

  replace_one :
      (a : ℕ) (d : Docker)
      → Then
          (λ _ d₂. d₂.instances ≡ put a (some (restored a)) (put a none d.instances))
          ((remove_container h a >> run_container h a (restored a)) d)
  unfolding remove_container
  replace_one a d =
      Then-rule (λ _ d₁. d₁.instances ≡ put a none d.instances) _ (command h (set_instance a none))
        (λ _. run_container h a (restored a)) d (set-command h a none d)
        (λ _ d₁ e.
          subst
            (λ (f : ℕ → Option Instance).
              Then (λ (_ : Unit {0}) (d₂ : Docker). d₂.instances ≡ put a (some (restored a)) f)
                (run_container h a (restored a) d₁))
            e (run_container-put h ctx plan a (restored a) d₁))

  restore_each-Restores :
      (a n b : ℕ) (d : Docker)
      → b ≡ a + n
      → Then
          (λ _ d'. Restores a b d d')
          (restore_each h ctx image plan.outgoing_label (ordinals_from a n) d)
  unfolding ordinals_from
  restore_each-Restores a zero b d e = (λ j le lt. absurd (omega arith), λ j s. refl)
  restore_each-Restores a (suc n) b d e =
      Then-rule (λ _ d₂. d₂.instances ≡ put a (some (restored a)) (put a none d.instances))
        (λ _ d'. Restores a b d d') (remove_container h a >> run_container h a (restored a))
        (λ _. restore_each h ctx image plan.outgoing_label (ordinals_from (suc a) n)) d
        (replace_one a d)
        (λ _ d₂ e'.
          Then-map (λ _ d₃. Restores-step a b d d₂ d₃ (omega arith) e')
            (restore_each h ctx image plan.outgoing_label (ordinals_from (suc a) n) d₂)
            (restore_each-Restores (suc a) n b d₂ (omega arith)))

  -- The failing instance `f` and those before it are restored; those behind it are as they were.
  abbrev pub Fails : ℕ → ℕ → Docker → Progress → Docker → Type 0
  Fails i b d (updated_to us) d' = Unit
  Fails i b d (stop_with r) d' =
      (f : ℕ) × (i ≤ f)
      × (f < b)
      × ((j : ℕ) → j ≤ f → d'.instances j ≡ some (restored j))
      × ((j : ℕ) → f < j → d'.instances j ≡ d.instances j)

  abbrev Checked : ℕ → Docker → Option DeployResult → Docker → Type 0
  Checked i d none d' = (j : ℕ) → i < j → d'.instances j ≡ d.instances j
  Checked i d (some r) d' = Fails i (suc i) d (stop_with r) d'

  Fails-step :
      (i b : ℕ) (d d₁ d₂ : Docker) (p : Progress)
      → Checked i d none d₁
      → Fails (suc i) b d₁ p d₂
      → Fails i b d p d₂
  Fails-step i b d d₁ d₂ (updated_to us) kept q = tt
  Fails-step i b d d₁ d₂ (stop_with r) kept (f, low, high, up, same) =
      (f, omega arith, high, up, λ j lt. same j lt ∙ kept j (omega arith))

  module _ (known : plan.previous_image ≡ some image) where
    rollback_instances-Restores :
        (i : ℕ) (d : Docker)
        → Then
            (λ _ d'. Restores 0 (suc i) d d')
            (rollback_instances h ctx plan (ordinals_from 0 (suc i)) d)
    unfolding rollback_instances
    rollback_instances-Restores i d =
        subst
          (λ (o : Option String).
            Then (λ _ d'. Restores 0 (suc i) d d')
              (elim o as (λ _. Action (Unit {0})) [
                | none ↦ pure tt
                | some im ↦ restore_each h ctx im plan.outgoing_label (ordinals_from 0 (suc i))
              ]
                d))
          (sym known) (restore_each-Restores 0 (suc i) (suc i) d (omega arith))

    verified-Checked :
        (i : ℕ) (passed : Bool) (d d₁ : Docker)
        → ((j : ℕ) → i < j → d₁.instances j ≡ d.instances j)
        → Then (Checked i d) (verified h ctx plan (ordinals_from 0 i) i passed d₁)
    verified-Checked i true d d₁ kept = kept
    verified-Checked i false d d₁ kept =
        Then-rule (λ _ d₂. Restores 0 (suc i) d₁ d₂) (Checked i d)
          (rollback_instances h ctx plan (ordinals_from 0 i ++ i ∷ [])) _ d₁
          (subst
            (λ (us : List ℕ).
              Then (λ _ d₂. Restores 0 (suc i) d₁ d₂) (rollback_instances h ctx plan us d₁))
            (sym (ordinals_from-snoc i)) (rollback_instances-Restores i d₁))
          (λ _ d₂ (r, l).
            Then-rule (Leaves d₂) (Checked i d) (update_nginx h plan []) _ d₂
              (update_nginx-Leaves h plan [] d₂)
              (λ _ d₃ same. (
                i,
                omega arith,
                omega arith,
                λ j le.
                    ap (λ (f : ℕ → Option Instance). f j) same ∙ r j (omega arith) (omega arith),
                λ j lt.
                    ap (λ (f : ℕ → Option Instance). f j) same
                    ∙ l j (inr (omega arith))
                    ∙ kept j lt,
              )))

    start_and_verify-Checked :
        (i : ℕ) (d : Docker)
        → Then (Checked i d) (start_and_verify h ctx plan (ordinals_from 0 i) i d)
    unfolding start_and_verify wait_for_healthy
    start_and_verify-Checked i d =
        let c = new_instance h ctx plan.previous_image i in
        Then-rule (λ _ d'. d'.instances ≡ put i (some c) d.instances) (Checked i d)
          (run_container h i c) _ d (run_container-put h ctx plan i c d)
          (λ _ d₁ e. verified-Checked i (h.passes d₁.calls i) d (count_call d₁) (λ j lt.
            ap (λ (f : ℕ → Option Instance). f j) e
            ∙ put-ne i j (some c) d.instances (λ s. omega arith)))

    after_instance-Fails :
        (i b : ℕ) (rest : List ℕ → Action Progress) (us : List ℕ) (d d₁ : Docker)
        (r : Option DeployResult)
        → suc i ≤ b
        → Then (Fails (suc i) b d₁) (rest us d₁)
        → Checked i d r d₁
        → Then (Fails i b d) (after_instance rest us r d₁)
    after_instance-Fails i b rest us d d₁ none le go kept =
        Then-map (λ p d₂ q. Fails-step i b d d₁ d₂ p kept q) (rest us d₁) go
    after_instance-Fails i b rest us d d₁ (some r) le go (f, low, high, up, same) =
        (f, low, omega arith, up, same)

    pub start_batch-Fails :
        (i k b : ℕ) (d : Docker)
        → b ≡ i + k
        → Then (Fails i b d) (start_batch h ctx plan (ordinals_from i k) (ordinals_from 0 i) d)
    unfolding ordinals_from start_batch
    start_batch-Fails i zero b d e = tt
    start_batch-Fails i (suc k) b d e =
        Then-rule (Checked i d) (Fails i b d) (start_and_verify h ctx plan (ordinals_from 0 i) i) _
          d (start_and_verify-Checked i d)
          (λ r d₁ v.
            after_instance-Fails i b (start_batch h ctx plan (ordinals_from (suc i) k))
              (ordinals_from 0 i ++ i ∷ []) d d₁ r (omega arith)
              (subst
                (λ (us : List ℕ).
                  Then (Fails (suc i) b d₁)
                    (start_batch h ctx plan (ordinals_from (suc i) k) us d₁))
                (sym (ordinals_from-snoc i)) (start_batch-Fails (suc i) k b d₁ (omega arith)))
              v)
