-- ===== src/Healing/Decisions.antt =====
-- What `remediate` (remediation-engine.ts, lines 71 to 125) decides.
use dev_ops_deployment_tool.Common.{
  ℕ, suc, ◌+◌, ◌≤◌, ◌<◌, ◌≡◌, ◌≢◌, ◌⊎◌, inl, inr, refl, String, true, false, ◌||◌, not, List, [],
  ◌∷◌, Option, none, some, str_eq, ltb, Bool-cases, dec_lt, arith,
}
use dev_ops_deployment_tool.Healing.Window.{AggregateHealth, healthy, degraded, unhealthy}
use dev_ops_deployment_tool.Healing.Effects.{Calls, Host}
use dev_ops_deployment_tool.Healing.Remediation.{
  is_blue_green, DeploymentRef, RemediationState, no_action, restart, rollback, RemediationResult,
  calculate_backoff_ms, is_backoff_elapsed, unchanged, attempt_restart, attempt_rollback,
  attempt_in_place_rollback, roll_back, remediate_unhealthy, remediate,
}

-- The call returns, and its result has the property.
abbrev pub Returns : (RemediationResult → Type 0) → Option RemediationResult → Type 0
Returns P none = ⊥
Returns P (some r) = P r

abbrev Restarts : RemediationState → RemediationResult → Type 0
Restarts state r =
    (r.action ≡ restart)
    × (r.new_state.restart_count ≡ suc state.restart_count)
    × (r.new_state.is_remediating ≡ false)

abbrev RollsBack : RemediationState → RemediationResult → Type 0
RollsBack state r =
    (r.action ≡ rollback)
    × (r.new_state.restart_count ≡ state.restart_count)
    × (r.new_state.last_restart_at ≡ state.last_restart_at)

-- Why no action is taken for an unhealthy deployment at the time `t`.
abbrev Waits : RemediationState → ℕ → Type 0
Waits state t =
    (state.is_remediating ≡ true)
    ⊎ ((0 < state.restart_count)
        × (t < calculate_backoff_ms state.restart_count + state.last_restart_at))

-- The decision: by the health, then by the wait, then by the restarts that are left.
abbrev pub Decides : AggregateHealth → RemediationState → ℕ → RemediationResult → Type 0
Decides healthy state t r = (r.action ≡ no_action) × (r.new_state.restart_count ≡ 0)
Decides degraded state t r = r ≡ unchanged state
Decides unhealthy state t r =
    (Waits state t × (r ≡ unchanged state))
    ⊎ (((state.restart_count < 3) × Restarts state r)
        ⊎ ((3 ≤ state.restart_count) × RollsBack state r))

Returns-map :
    (P Q : RemediationResult → Type 0) (o : Option RemediationResult)
    → ((r : RemediationResult) → P r → Q r)
    → Returns P o
    → Returns Q o
Returns-map P Q none f p = p
Returns-map P Q (some r) f p = f r p

pub ltb_yes : (a b : ℕ) → a < b → ltb a b ≡ true
ltb_yes a b h = ground arith

pub ltb_no : (a b : ℕ) → b ≤ a → ltb a b ≡ false
ltb_no a b h = ground arith

module _ (h : Host) (ref : DeploymentRef) (state : RemediationState) (log : Calls) where
  attempt_restart-Returns : Returns (Restarts state) (attempt_restart h ref state log).0
  unfolding attempt_restart
  attempt_restart-Returns = ground arith

  attempt_rollback-Returns :
      (image : String) → Returns (RollsBack state) (attempt_rollback h ref image state log).0
  unfolding attempt_rollback
  attempt_rollback-Returns image = ground arith

  attempt_in_place_rollback-Returns :
      (image : String)
      → Returns (RollsBack state) (attempt_in_place_rollback h ref image state log).0
  unfolding attempt_in_place_rollback
  attempt_in_place_rollback-Returns image = ground arith

  roll_back-Returns :
      (target : Option String) → Returns (RollsBack state) (roll_back h ref state target log).0
  roll_back-Returns none = (refl, refl, refl)
  roll_back-Returns (some image) = elim (Bool-cases (str_eq image "")) [
    | inl empty ↦ rw empty (refl, refl, refl)
    | inr full ↦ elim (Bool-cases (is_blue_green ref.strategy)) [
      | inl b ↦ rw (full, b) (attempt_rollback-Returns image)
      | inr b ↦ rw (full, b) (attempt_in_place_rollback-Returns image)
    ]
  ]

  waits_lem :
      (t : ℕ) → state.is_remediating || not (is_backoff_elapsed t state) ≡ true → Waits state t
  waits_lem t e = ground arith

  -- What each result says.
  pub remediate-Decides :
      (health : AggregateHealth)
      → Returns (Decides health state (h.now log)) (remediate h ref health state log).0
  unfolding remediate
  remediate-Decides healthy = ground arith
  remediate-Decides degraded = refl
  remediate-Decides unhealthy =
      elim (Bool-cases (state.is_remediating || not (is_backoff_elapsed (h.now log) state))) [
        | inl wait ↦ rw (wait, remediate_unhealthy) (inl (waits_lem (h.now log) wait, refl))
        | inr go ↦ elim (dec_lt state.restart_count 3) [
          | yes left ↦
              rw (go, remediate_unhealthy, ltb_yes state.restart_count 3 left)
                (Returns-map (Restarts state) (Decides unhealthy state (h.now log))
                  (attempt_restart h ref state log).0 (λ r p. inr (inl (left, p)))
                  attempt_restart-Returns)
          | no gone ↦
              rw (go, remediate_unhealthy, ltb_no state.restart_count 3 (omega arith))
                (Returns-map (RollsBack state) (Decides unhealthy state (h.now log))
                  (roll_back h ref state ref.previous_image_tag log).0
                  (λ r p. inr (inr (omega arith, p))) (roll_back-Returns ref.previous_image_tag))
        ]
      ]

-- A decision keeps the count of restarts at most three.
pub Decides-bound :
    (health : AggregateHealth) (state : RemediationState) (t : ℕ) (r : RemediationResult)
    → state.restart_count ≤ 3
    → Decides health state t r
    → r.new_state.restart_count ≤ 3
Decides-bound healthy state t r b p = ground (arith, p)
Decides-bound degraded state t r b p = ground (arith, p)
Decides-bound unhealthy state t r b p = ground (arith, p)

-- The actions that a sequence of checks takes, with the health that each finds and the log before it.
abbrev after : RemediationState → Option RemediationResult → RemediationState
after state none = state
after state (some r) = r.new_state

abbrev is_restart : Option RemediationResult → ℕ
is_restart none = 0
is_restart (some r) = elim r.action [ restart ↦ 1 | _ ↦ 0 ]

module _ (h : Host) (ref : DeploymentRef) where
  -- How many restarts the checks make.
  unfoldable pub count_restarts : List (AggregateHealth × Calls) → RemediationState → ℕ
  unfolding remediate
  count_restarts [] state = 0
  count_restarts ((health, log) ∷ checks) state =
      let r = (remediate h ref health state log).0 in
      is_restart r + count_restarts checks (after state r)

  abbrev pub IsNeverHealthy : List (AggregateHealth × Calls) → Type 0
  IsNeverHealthy [] = Unit
  IsNeverHealthy ((health, log) ∷ checks) = (health ≢ healthy) × IsNeverHealthy checks

  step_le :
      (aggregate : AggregateHealth) (state : RemediationState) (t : ℕ)
      (o : Option RemediationResult)
      → aggregate ≢ healthy
      → state.restart_count ≤ 3
      → Returns (Decides aggregate state t) o
      → (is_restart o + state.restart_count ≡ (after state o).restart_count)
        × ((after state o).restart_count ≤ 3)
  step_le aggregate state t none n b p = absurd p
  step_le healthy state t (some r) n b p = absurd (n refl)
  step_le degraded state t (some r) n b p = ground (arith, p)
  step_le unhealthy state t (some r) n b p = ground (arith, p)

  -- From a state with at most three counted restarts, a deployment that is never found healthy is
  -- restarted at most as often as leaves the count at three, however many checks are made.
  pub count_restarts-le :
      (checks : List (AggregateHealth × Calls)) (state : RemediationState)
      → state.restart_count ≤ 3
      → IsNeverHealthy checks
      → count_restarts checks state + state.restart_count ≤ 3
  unfolding count_restarts
  count_restarts-le [] state b n = omega arith
  count_restarts-le ((health, log) ∷ checks) state b n =
      let o = (remediate h ref health state log).0 in
      let step =
        step_le health state (h.now log) o n.0 b (remediate-Decides h ref state log health) in
      omega (arith, step.0, count_restarts-le checks (after state o) step.1 n.1)
