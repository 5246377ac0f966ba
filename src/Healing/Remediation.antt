-- ===== src/Healing/Remediation.antt =====
-- apps/runner/src/deployers/remediation-engine.ts. Left out are the texts of errors, the details of
-- healing events, and what `runContainer` is passed beside the name and the image.
use Prim.Native.String.{◌++◌ as append}
use dev_ops_deployment_tool.Common.{
  ℕ, zero, suc, ◌+◌, ◌*◌, ◌^◌, String, Bool, true, false, ◌||◌, not, Option, none, some, str_eq,
  ltb, leb, if◌then◌else◌,
}
use dev_ops_deployment_tool.Healing.Window.{AggregateHealth, healthy, degraded, unhealthy}
use dev_ops_deployment_tool.Healing.Effects.{
  restart_started, restart_succeeded, restart_failed, rollback_started, rollback_succeeded,
  rollback_failed, slept, marked, restarted, inspected, removed, stopped, reloaded, allocated,
  started, wrote_proxy, Host, Action, pure, ◌>>=◌, ◌>>◌, try_catch, record_healing_event, invoke,
  is_container_running, wait_for_healthy, now,
}

pub data Color : Type 0 where
  blue green : Color

pub record DeploymentRef : Type 0 where
  pub project_slug : String
  pub container_name : String
  pub current_color : Color
  pub previous_image_tag : Option String
  pub strategy : Option String

pub record RemediationState : Type 0 where
  pub restart_count : ℕ
  pub last_restart_at : ℕ
  pub is_remediating : Bool

pub data RemediationAction : Type 0 where
  no_action restart rollback : RemediationAction

pub record RemediationResult : Type 0 where
  pub action : RemediationAction
  pub success : Bool
  pub new_state : RemediationState

-- `createRemediationState`
abbrev pub create_remediation_state : RemediationState
create_remediation_state = record { restart_count = 0; last_restart_at = 0; is_remediating = false }

abbrev pub max_restart_attempts : ℕ
max_restart_attempts = 3

-- `calculateBackoffMs`: 5000 * 2 ** (attempt - 1)
abbrev pub calculate_backoff_ms : ℕ → ℕ
calculate_backoff_ms zero = 2500
calculate_backoff_ms (suc attempt) = 5000 * 2 ^ attempt

-- `isBackoffElapsed`, at the time `t`
abbrev pub is_backoff_elapsed : ℕ → RemediationState → Bool
is_backoff_elapsed t state = elim state.restart_count [
  | zero ↦ true
  | suc n ↦ leb (calculate_backoff_ms (suc n) + state.last_restart_at) t
]

abbrev pub unchanged : RemediationState → RemediationResult
unchanged state = record { action = no_action; success = true; new_state = state }

abbrev pub rolled : Bool → RemediationState → RemediationResult
rolled success state = record {
  action = rollback;
  success = success;
  new_state = record state { is_remediating = false };
}

abbrev pub color_name : Color → String
color_name blue = "blue"
color_name green = "green"

-- The name of the container of a project and a color, and of the project's nginx.
abbrev pub slot : String → Color → String
slot slug color = append "deployx-" (append slug (append "-" (color_name color)))

abbrev pub proxy : String → String
proxy slug = append "deployx-proxy-" slug

abbrev pub opposite : Color → Color
opposite blue = green
opposite green = blue

-- `(ref.strategy ?? "blue_green") === "blue_green"`
abbrev pub is_blue_green : Option String → Bool
is_blue_green none = true
is_blue_green (some strategy) = str_eq strategy "blue_green"

module _ (h : Host) where
  abbrev pub restart_result : ℕ → Bool → Action RemediationResult
  restart_result attempt success = do
    t ← now h
    pure (record {
      action = restart;
      success = success;
      new_state = record { restart_count = attempt; last_restart_at = t; is_remediating = false };
    })

  abbrev pub after_restart : ℕ → Bool → Action RemediationResult
  after_restart attempt true = do
    record_healing_event restart_succeeded (some attempt)
    restart_result attempt true
  after_restart attempt false = do
    record_healing_event restart_failed (some attempt)
    restart_result attempt false

  -- `attemptRestart`
  unfoldable pub attempt_restart : DeploymentRef → RemediationState → Action RemediationResult
  attempt_restart ref state = do
    record_healing_event restart_started (some (suc state.restart_count))
    try_catch
        (do
          invoke h (restarted ref.container_name)
          invoke h slept
          running ← is_container_running h ref.container_name
          after_restart (suc state.restart_count) running)
        (after_restart (suc state.restart_count) false)

  -- `markRolledBack`, and its like in `attemptRollback`: a failed update is ignored.
  abbrev pub mark_rolled_back : Action (Unit {0})
  mark_rolled_back = try_catch (invoke h marked) (pure tt)

  -- What follows the health check of the rollback container.
  abbrev pub after_rollback_check :
      DeploymentRef → RemediationState → (container : String) → Bool → Action RemediationResult
  after_rollback_check ref state container false = do
    invoke h (removed container)
    record_healing_event rollback_failed none
    pure (rolled false state)
  after_rollback_check ref state container true = do
    invoke h (allocated ref.project_slug)
    invoke h (wrote_proxy (proxy ref.project_slug) container)
    invoke h (reloaded (proxy ref.project_slug))
    invoke h (stopped ref.container_name)
    invoke h (removed ref.container_name)
    mark_rolled_back
    record_healing_event rollback_succeeded none
    pure (rolled true state)

  abbrev pub fail_rollback : RemediationState → Action RemediationResult
  fail_rollback state = do record_healing_event rollback_failed none; pure (rolled false state)

  -- `attemptRollback`
  unfoldable pub attempt_rollback :
      DeploymentRef → (image : String) → RemediationState → Action RemediationResult
  attempt_rollback ref image state = do
    record_healing_event rollback_started none
    try_catch
        (do
          invoke h (inspected ref.container_name)
          invoke h (removed (slot ref.project_slug (opposite ref.current_color)))
          invoke h (started (slot ref.project_slug (opposite ref.current_color)) image)
          passed ← wait_for_healthy h (slot ref.project_slug (opposite ref.current_color))
          after_rollback_check ref state (slot ref.project_slug (opposite ref.current_color))
              passed)
        (fail_rollback state)

  -- `recreateWithImage`
  abbrev pub recreate_with_image : DeploymentRef → (image : String) → Action (Unit {0})
  recreate_with_image ref image = do
    invoke h (inspected ref.container_name)
    invoke h (removed ref.container_name)
    invoke h (started ref.container_name image)

  abbrev pub after_in_place_check :
      DeploymentRef → RemediationState → Bool → Action RemediationResult
  after_in_place_check ref state false = fail_rollback state
  after_in_place_check ref state true = do
    invoke h (reloaded (proxy ref.project_slug))
    mark_rolled_back
    record_healing_event rollback_succeeded none
    pure (rolled true state)

  -- `attemptInPlaceRollback`
  unfoldable pub attempt_in_place_rollback :
      DeploymentRef → (image : String) → RemediationState → Action RemediationResult
  attempt_in_place_rollback ref image state = do
    record_healing_event rollback_started none
    try_catch
        (do
          recreate_with_image ref image
          passed ← wait_for_healthy h ref.container_name
          after_in_place_check ref state passed)
        (fail_rollback state)

  -- The end of `remediate` when there is no image to go back to.
  abbrev pub no_target : RemediationState → Action RemediationResult
  no_target state = do
    record_healing_event rollback_failed none
    pure (record { action = rollback; success = false; new_state = state })

  -- The end of `remediate`, behind the exhausted restarts.
  abbrev pub roll_back : DeploymentRef → RemediationState → Option String → Action RemediationResult
  roll_back ref state none = no_target state
  roll_back ref state (some image) =
      if str_eq image ""
      then no_target state
      else (if is_blue_green ref.strategy
          then attempt_rollback ref image state
          else attempt_in_place_rollback ref image state)

  -- `remediate` for an unhealthy deployment.
  unfoldable pub remediate_unhealthy : DeploymentRef → RemediationState → Action RemediationResult
  unfolding attempt_restart attempt_rollback attempt_in_place_rollback
  remediate_unhealthy ref state log =
      if state.is_remediating || not (is_backoff_elapsed (h.now log) state)
      then (some (unchanged state), log)
      else (if ltb state.restart_count max_restart_attempts
          then attempt_restart ref state log
          else roll_back ref state ref.previous_image_tag log)

  -- `remediate`
  unfoldable pub remediate :
      DeploymentRef → AggregateHealth → RemediationState → Action RemediationResult
  unfolding remediate_unhealthy
  remediate ref healthy state log =
      if ltb 0 state.restart_count
      then (some (unchanged create_remediation_state), log)
      else (some (unchanged state), log)
  remediate ref degraded state log = (some (unchanged state), log)
  remediate ref unhealthy state log = remediate_unhealthy ref state log
