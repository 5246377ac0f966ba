-- ===== src/Rolling/Failure.antt =====
-- What a batch leaves behind whose new instance is unhealthy.
use dev_ops_deployment_tool.Common.{
  ℕ, zero, suc, ◌+◌, ◌-◌, ◌<◌, ◌≤◌, ◌≡◌, refl, sym, ap, ◌∙◌, Bool, true, Option, none, some, [],
  String, arith, dec_lt, All,
}
use mathlib.Core.Path.{subst}
use dev_ops_deployment_tool.Rolling.Calls.{
  Docker, Host, Instance, command, count_call, set_instance, seen_up, put, stopped,
  remove_container, is_container_running, stop_container,
}
use dev_ops_deployment_tool.Rolling.Plan.{
  Deploy, RolloutPlan, DeployResult, Progress, stop_with, updated_to, ordinals_from,
}
use dev_ops_deployment_tool.Rolling.Steps.{
  start_batch, after_batch, replace_batch, update_nginx, stop_batch, stop_if,
}
use dev_ops_deployment_tool.Rolling.Rollout.{
  Then, Then-rule, Then-map, Then-any, Leaves, update_nginx-Leaves, set-command, put-ne,
}
use dev_ops_deployment_tool.Rolling.Restoring.{restored, Fails, start_batch-Fails}

All-ordinals_from :
    (P : ℕ → Type 0) (a n : ℕ) → ((j : ℕ) → a ≤ j → j < a + n → P j) → All P (ordinals_from a n)
unfolding ordinals_from
All-ordinals_from P a zero p = tt
All-ordinals_from P a (suc n) p = (
  p a (omega arith) (omega arith),
  All-ordinals_from P (suc a) n (λ j le lt. p j (omega arith) (omega arith)),
)

module _ (h : Host) (ctx : Deploy) (plan : RolloutPlan) (image : String) where
  module _ (known : plan.previous_image ≡ some image) where
    -- The batch from `i` on is removed, and the instances before it are as they were.
    abbrev Removed : ℕ → ℕ → Docker → Docker → Type 0
    Removed i b d d' =
        ((j : ℕ) → j < i → d'.instances j ≡ d.instances j)
        × ((j : ℕ) → i ≤ j → j < b → d'.instances j ≡ none)

    Removed-step :
        (i b : ℕ) (c : Option Instance) (d d₂ d₃ : Docker)
        → d₂.instances ≡ put i none (put i c d.instances)
        → Removed (suc i) b d₂ d₃
        → Removed i b d d₃
    Removed-step i b c d d₂ d₃ e (below, gone) = (
      λ j lt.
          let ne : i ≡ j → ⊥ = λ same. omega arith in
          below j (omega arith)
          ∙ ap (λ (f : ℕ → Option Instance). f j) e
          ∙ put-ne i j none (put i c d.instances) ne
          ∙ put-ne i j c d.instances ne,
      λ j le lt. elim (dec_lt i j) [
        | yes above ↦ gone j (omega arith) lt
        | no n ↦
            let same : i ≡ j = omega arith in
            below j (omega arith) ∙ ap (λ (f : ℕ → Option Instance). f j) e ∙ ground arith
      ],
    )

    stop_one :
        (i : ℕ) (d : Docker)
        → Then
            (λ _ d₂. d₂.instances ≡ put i none (put i (stopped (d.instances i)) d.instances))
            (stop_if h true i d)
    unfolding stop_container remove_container
    stop_one i d =
        let c = stopped (d.instances i) in
        Then-rule (λ _ d₁. d₁.instances ≡ put i c d.instances) _ (command h (set_instance i c))
          (λ _. remove_container h i) d (set-command h i c d)
          (λ _ d₁ e.
            subst
              (λ (f : ℕ → Option Instance).
                Then (λ (_ : Unit {0}) (d₂ : Docker). d₂.instances ≡ put i none f)
                  (command h (set_instance i none) d₁))
              e (set-command h i none d₁))

    abbrev UpFrom : ℕ → ℕ → Docker → Type 0
    UpFrom i b d = (j : ℕ) → i ≤ j → j < b → seen_up true (d.instances j) ≡ true

    UpFrom-step :
        (i b : ℕ) (d d₂ : Docker)
        → d₂.instances ≡ put i none (put i (stopped (d.instances i)) d.instances)
        → UpFrom i b d
        → UpFrom (suc i) b d₂
    UpFrom-step i b d d₂ e up j le lt =
        let c = stopped (d.instances i) in
        let ne : i ≡ j → ⊥ = λ same. omega arith in
        ap (λ (f : ℕ → Option Instance). seen_up true (f j)) e
        ∙ ap (seen_up true) (put-ne i j none (put i c d.instances) ne ∙ put-ne i j c d.instances ne)
        ∙ up j (omega arith) lt

    module _ (sees : (n : ℕ) → h.sees n ≡ true) where
      stop_batch-Removed :
          (i k b : ℕ) (d : Docker)
          → b ≡ i + k
          → UpFrom i b d
          → Then (λ _ d'. Removed i b d d') (stop_batch h (ordinals_from i k) d)
      unfolding ordinals_from stop_batch is_container_running
      stop_batch-Removed i zero b d e up = (λ j lt. refl, λ j le lt. absurd (omega arith))
      stop_batch-Removed i (suc k) b d e up =
          let c = stopped (d.instances i) in
          let is_seen : seen_up (h.sees d.calls) (d.instances i) ≡ true =
            ap (λ (s : Bool). seen_up s (d.instances i)) (sees d.calls)
            ∙ up i (omega arith) (omega arith) in
          Then-rule (λ _ d₂. d₂.instances ≡ put i none (put i c d.instances))
            (λ _ d'. Removed i b d d') (stop_if h (seen_up (h.sees d.calls) (d.instances i)) i) _
            (count_call d)
            (subst
              (λ (s : Bool).
                Then (λ _ d₂. d₂.instances ≡ put i none (put i c d.instances))
                  (stop_if h s i (count_call d)))
              (sym is_seen) (stop_one i (count_call d)))
            (λ _ d₂ e'.
              Then-map (λ _ d₃. Removed-step i b c d d₂ d₃ e')
                (stop_batch h (ordinals_from (suc i) k) d₂)
                (stop_batch-Removed (suc i) k b d₂ (omega arith) (UpFrom-step i b d d₂ e' up)))

      -- The batch ends with the instances up to the failing one restored, and no other one of it.
      abbrev Partly : ℕ → ℕ → Progress → Docker → Type 0
      Partly i b (updated_to us) d' = Unit
      Partly i b (stop_with r) d' =
          (f : ℕ) × (i ≤ f)
          × (f < b)
          × ((j : ℕ) → j ≤ f → d'.instances j ≡ some (restored h ctx plan image j))
          × ((j : ℕ) → f < j → j < b → d'.instances j ≡ none)

      after_batch-Partly :
          (i b : ℕ) (p : Progress) (d d' : Docker)
          → ((j : ℕ) → i ≤ j → j < b → d.instances j ≡ none)
          → Fails h ctx plan image i b d p d'
          → Then (Partly i b) (after_batch h ctx plan p d')
      after_batch-Partly i b (stop_with r) d d' gone (f, low, high, up, same) =
          (f, low, high, up, λ j lt lt'. same j lt ∙ gone j (omega arith) lt')
      after_batch-Partly i b (updated_to us) d d' gone q =
          Then-rule (λ _ _. Unit) (Partly i b) (update_nginx h plan []) _ d' (Then-any _)
            (λ _ _ _. tt)

      replace_batch-Partly :
          (i k : ℕ) (d : Docker)
          → UpFrom i (i + k) d
          → Then
              (Partly i (i + k))
              (replace_batch h ctx plan (ordinals_from i k) (ordinals_from 0 i) d)
      unfolding replace_batch
      replace_batch-Partly i k d up =
          let batch = ordinals_from i k in
          let P = Partly i (i + k) in
          Then-rule (Leaves d) P (update_nginx h plan batch) _ d
            (update_nginx-Leaves h plan batch d)
            (λ _ d₁ same.
              Then-rule (λ _ d₂. Removed i (i + k) d₁ d₂) P (stop_batch h batch) _ d₁
                (stop_batch-Removed i k (i + k) d₁ refl (λ j le lt.
                  ap (λ (f : ℕ → Option Instance). seen_up true (f j)) same ∙ up j le lt))
                (λ _ d₂ (below, gone).
                  Then-rule (Fails h ctx plan image i (i + k) d₂) P
                    (start_batch h ctx plan batch (ordinals_from 0 i)) (after_batch h ctx plan) d₂
                    (start_batch-Fails h ctx plan image known i k (i + k) d₂ refl)
                    (λ p d₃. after_batch-Partly i (i + k) p d₂ d₃ gone)))

-- A batch onto running containers, with the image that they run known, whatever the commands
-- answer: if it reports a failure, one of its instances is the failing one, that instance and
-- all before it, of earlier batches too, are put back to the outgoing image, and each later
-- instance of the batch is left without a container.
pub replace_batch_fails :
    (h : Host) (ctx : Deploy) (plan : RolloutPlan) (image : String) (i k : ℕ) (d d' : Docker)
    (result : DeployResult)
    → plan.previous_image ≡ some image
    → ((n : ℕ) → h.sees n ≡ true)
    → ((j : ℕ) → i ≤ j → j < i + k → seen_up true (d.instances j) ≡ true)
    → replace_batch h ctx plan (ordinals_from i k) (ordinals_from 0 i) d
      ≡ (some (stop_with result), d')
    → (f : ℕ) × (i ≤ f)
      × (f < i + k)
      × All (λ j. d'.instances j ≡ some (restored h ctx plan image j)) (ordinals_from 0 (suc f))
      × All (λ j. d'.instances j ≡ none) (ordinals_from (suc f) (i + k - suc f))
replace_batch_fails h ctx plan image i k d d' result known sees up failed =
    let (f, low, high, up', gone) =
      subst (Then (Partly h ctx plan image known sees i (i + k))) failed
        (replace_batch-Partly h ctx plan image known sees i k d up) in
    (
      f,
      low,
      high,
      All-ordinals_from _ 0 (suc f) (λ j le lt. up' j (omega arith)),
      All-ordinals_from _ (suc f) (i + k - suc f) (λ j le lt. gone j (omega arith) (omega arith)),
    )
