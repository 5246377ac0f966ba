-- ===== src/Healing/Remedies.antt =====
-- What `remediate` (remediation-engine.ts, lines 71 to 125) does: its calls beside its result.
use dev_ops_deployment_tool.Common.{
  ℕ, suc, ◌+◌, ◌-◌, ◌*◌, ◌^◌, ◌≤◌, ◌<◌, ◌≡◌, ◌⊎◌, inl, inr, refl, sym, ap, String, Bool, true,
  false, ◌||◌, ◌&&◌, not, [], ◌∷◌, Option, none, some, str_eq, eq_refl, eq_iff, Bool-cases, dec_lt,
  arith, if◌then◌else◌,
}
use mathlib.Core.Path.{subst}
use dev_ops_deployment_tool.Healing.Window.{AggregateHealth, healthy, degraded, unhealthy}
use dev_ops_deployment_tool.Healing.Effects.{
  Call, Calls, Host, restarted, started, recorded, rollback_failed,
}
use dev_ops_deployment_tool.Healing.Remediation.{
  is_blue_green, opposite, slot, DeploymentRef, RemediationState, no_action, restart, rollback,
  RemediationResult, is_backoff_elapsed, attempt_restart, attempt_rollback,
  attempt_in_place_rollback, roll_back, remediate_unhealthy, remediate,
}
use dev_ops_deployment_tool.Healing.Decisions.{ltb_yes, ltb_no}

abbrev restarts_call : String → Call → Bool
restarts_call name (restarted other) = str_eq other name
restarts_call name _ = false

-- How often the calls restart a container.
abbrev pub restarts_of : String → Calls → ℕ
restarts_of name [] = 0
restarts_of name (c ∷ log) = (if restarts_call name c then 1 else 0) + restarts_of name log

abbrev starts_call : String → String → Call → Bool
starts_call name image (started other other_image) = str_eq other name && str_eq other_image image
starts_call name image _ = false

-- How often the calls start a container on an image.
abbrev pub starts_of : String → String → Calls → ℕ
starts_of name image [] = 0
starts_of name image (c ∷ log) =
    (if starts_call name image c then 1 else 0) + starts_of name image log

abbrev pub Ends : (RemediationResult → Calls → Type 0) → Option RemediationResult × Calls → Type 0
Ends P (none, log) = ⊥
Ends P (some r, log) = P r log

-- A remediation is marked as running, or the backoff after the last restart lasts.
abbrev pub Waits : RemediationState → ℕ → Type 0
Waits state t =
    (state.is_remediating ≡ true)
    ⊎ ((0 < state.restart_count)
        × (t < state.last_restart_at + 5000 * 2 ^ (state.restart_count - 1)))

abbrev pub Restarts : DeploymentRef → RemediationState → Calls → RemediationResult → Calls → Type 0
Restarts ref state log r log' =
    (r.action ≡ restart)
    × (restarts_of ref.container_name log' ≡ suc (restarts_of ref.container_name log))
    × (r.new_state.restart_count ≡ suc state.restart_count)
    × (r.new_state.is_remediating ≡ false)

-- The container that a rollback starts.
abbrev pub rollback_container : DeploymentRef → String
rollback_container ref =
    if is_blue_green ref.strategy
    then slot ref.project_slug (opposite ref.current_color)
    else ref.container_name

abbrev RollsBackTo :
    DeploymentRef
    → RemediationState
    → (name image : String) → Calls
    → RemediationResult
    → Calls
    → Type 0
RollsBackTo ref state name image log r log' =
    (r.action ≡ rollback)
    × (restarts_of ref.container_name log' ≡ restarts_of ref.container_name log)
    × ((r.success ≡ false) ⊎ (starts_of name image log' ≡ suc (starts_of name image log)))
    × (r.new_state.restart_count ≡ state.restart_count)
    × (r.new_state.last_restart_at ≡ state.last_restart_at)

module _ (h : Host) (ref : DeploymentRef) (state : RemediationState) (log : Calls) where
  attempt_restart-Restarts : Ends (Restarts ref state log) (attempt_restart h ref state log)
  unfolding attempt_restart
  attempt_restart-Restarts = ground (arith, eq_refl ref.container_name)

  attempt_rollback-RollsBackTo :
      (image : String)
      → Ends
          (RollsBackTo ref state (slot ref.project_slug (opposite ref.current_color)) image log)
          (attempt_rollback h ref image state log)
  unfolding attempt_rollback
  attempt_rollback-RollsBackTo image =
      ground (arith, eq_refl image, eq_refl (slot ref.project_slug (opposite ref.current_color)))

  attempt_in_place_rollback-RollsBackTo :
      (image : String)
      → Ends
          (RollsBackTo ref state ref.container_name image log)
          (attempt_in_place_rollback h ref image state log)
  unfolding attempt_in_place_rollback
  attempt_in_place_rollback-RollsBackTo image =
      ground (arith, eq_refl image, eq_refl ref.container_name)

  -- Without an image to go back to, the failure is recorded and nothing else is called.
  abbrev pub RollsBack : Option String → RemediationResult → Calls → Type 0
  RollsBack none r log' =
      (r ≡ record { action = rollback; success = false; new_state = state })
      × (log' ≡ recorded rollback_failed none ∷ log)
  RollsBack (some image) r log' =
      ((image ≡ "")
        × (r ≡ record { action = rollback; success = false; new_state = state })
        × (log' ≡ recorded rollback_failed none ∷ log))
      ⊎ RollsBackTo ref state (rollback_container ref) image log r log'

  Ends-map :
      (P Q : RemediationResult → Calls → Type 0) (o : Option RemediationResult × Calls)
      → ((r : RemediationResult) (log' : Calls) → P r log' → Q r log')
      → Ends P o
      → Ends Q o
  Ends-map P Q (none, log') f p = p
  Ends-map P Q (some r, log') f p = f r log' p

  rolls_back :
      (name image : String) (o : Option RemediationResult × Calls)
      → rollback_container ref ≡ name
      → Ends (RollsBackTo ref state name image log) o
      → Ends (RollsBack (some image)) o
  rolls_back name image o e p =
      Ends-map (RollsBackTo ref state name image log) (RollsBack (some image)) o
        (λ r log' q.
          inr (subst (λ (x : String). RollsBackTo ref state x image log r log') (sym e) q))
        p

  roll_back-RollsBack :
      (target : Option String) → Ends (RollsBack target) (roll_back h ref state target log)
  roll_back-RollsBack none = (refl, refl)
  roll_back-RollsBack (some image) = elim (Bool-cases (str_eq image "")) [
    | inl empty ↦ rw empty (inl ((eq_iff image "").0 empty, refl, refl))
    | inr full ↦ elim (Bool-cases (is_blue_green ref.strategy)) [
      | inl b ↦
          let e : rollback_container ref ≡ slot ref.project_slug (opposite ref.current_color) =
            ap
              (λ t.
                if t
                then slot ref.project_slug (opposite ref.current_color)
                else ref.container_name)
              b in
          rw (full, b)
            (rolls_back (slot ref.project_slug (opposite ref.current_color)) image
              (attempt_rollback h ref image state log) e (attempt_rollback-RollsBackTo image))
      | inr b ↦
          let e : rollback_container ref ≡ ref.container_name =
            ap
              (λ t.
                if t
                then slot ref.project_slug (opposite ref.current_color)
                else ref.container_name)
              b in
          rw (full, b)
            (rolls_back ref.container_name image (attempt_in_place_rollback h ref image state log) e
              (attempt_in_place_rollback-RollsBackTo image))
    ]
  ]

  -- What is done, by the health, then by the wait, then by the restarts that are left.
  abbrev pub Remedied : AggregateHealth → RemediationResult → Calls → Type 0
  Remedied healthy r log' = (r.action ≡ no_action) × (r.new_state.restart_count ≡ 0) × (log' ≡ log)
  Remedied degraded r log' = (r.action ≡ no_action) × (r.new_state ≡ state) × (log' ≡ log)
  Remedied unhealthy r log' =
      (Waits state (h.now log) × (r.action ≡ no_action) × (r.new_state ≡ state) × (log' ≡ log))
      ⊎ (((Waits state (h.now log) → ⊥) × (state.restart_count < 3) × Restarts ref state log r log')
          ⊎ ((Waits state (h.now log) → ⊥)
              × (3 ≤ state.restart_count)
              × RollsBack ref.previous_image_tag r log'))

  waits_lem :
      (t : ℕ) → state.is_remediating || not (is_backoff_elapsed t state) ≡ true → Waits state t
  waits_lem t e = ground arith

  goes_lem :
      (t : ℕ) → state.is_remediating || not (is_backoff_elapsed t state) ≡ false → Waits state t → ⊥
  goes_lem t e w = ground arith

  -- Whatever Docker, nginx and the control plane answer, `remediate` returns. For a healthy deployment
  -- it calls nothing, and the count of restarts is then 0; for a degraded one it calls nothing and keeps
  -- the state. For an unhealthy one it calls nothing and keeps the state exactly while a remediation is
  -- marked as running or the backoff of 5 seconds, doubled with each restart, lasts. Otherwise, with
  -- fewer than three restarts counted, it restarts the container once and counts that; with three, it
  -- restarts nothing and keeps the count, and reports a success only if it has started the previous
  -- image, in the other slot for a blue-green deployment and under the container's name for any other
  -- one. Without a previous image it only records the failure.
  pub remediate_lem :
      (health : AggregateHealth) → Ends (Remedied health) (remediate h ref health state log)
  unfolding remediate
  remediate_lem healthy = ground arith
  remediate_lem degraded = (refl, refl, refl)
  remediate_lem unhealthy =
      let P = Remedied unhealthy in
      elim (Bool-cases (state.is_remediating || not (is_backoff_elapsed (h.now log) state))) [
        | inl wait ↦
            rw (wait, remediate_unhealthy) (inl (waits_lem (h.now log) wait, refl, refl, refl))
        | inr go ↦ elim (dec_lt state.restart_count 3) [
          | yes left ↦
              rw (go, remediate_unhealthy, ltb_yes state.restart_count 3 left)
                (Ends-map (Restarts ref state log) P (attempt_restart h ref state log)
                  (λ r log' p. inr (inl (goes_lem (h.now log) go, left, p)))
                  attempt_restart-Restarts)
          | no gone ↦
              rw (go, remediate_unhealthy, ltb_no state.restart_count 3 (omega arith))
                (Ends-map (RollsBack ref.previous_image_tag) P
                  (roll_back h ref state ref.previous_image_tag log)
                  (λ r log' p. inr (inr (goes_lem (h.now log) go, omega arith, p)))
                  (roll_back-RollsBack ref.previous_image_tag))
        ]
      ]
