-- ===== src/Healing/Switching.antt =====
-- The order of the calls in `attemptRollback` (remediation-engine.ts, lines 194 to 309).
use dev_ops_deployment_tool.Common.{
  ◌≡◌, String, Bool, true, false, ◌&&◌, ◌||◌, not, [], ◌∷◌, str_eq, eq_refl, arith,
}
use dev_ops_deployment_tool.Healing.Effects.{
  Calls, Host, removed, stopped, reloaded, wrote_proxy, probed, marked,
}
use dev_ops_deployment_tool.Healing.Remediation.{
  DeploymentRef, RemediationState, slot, proxy, opposite, attempt_rollback,
}

-- The replacement has passed its health check.
abbrev pub is_proven : String → Calls → Bool
is_proven new [] = false
is_proven new (probed name true ∷ log) = str_eq name new || is_proven new log
is_proven new (_ ∷ log) = is_proven new log

-- The proxy's configuration names the replacement, which had been proven before.
abbrev pub is_written : (nginx new : String) → Calls → Bool
is_written nginx new [] = false
is_written nginx new (wrote_proxy name upstream ∷ log) =
    (str_eq name nginx && str_eq upstream new && is_proven new log) || is_written nginx new log
is_written nginx new (_ ∷ log) = is_written nginx new log

-- The proxy has loaded that configuration.
abbrev pub is_switched : (nginx new : String) → Calls → Bool
is_switched nginx new [] = false
is_switched nginx new (reloaded name ∷ log) =
    (str_eq name nginx && is_written nginx new log) || is_switched nginx new log
is_switched nginx new (_ ∷ log) = is_switched nginx new log

-- The container is stopped, removed or given up only behind the switch to the replacement.
abbrev pub is_orderly : (old nginx new : String) → Calls → Bool
is_orderly old nginx new [] = true
is_orderly old nginx new (stopped name ∷ log) =
    (not (str_eq name old) || is_switched nginx new log) && is_orderly old nginx new log
is_orderly old nginx new (removed name ∷ log) =
    (not (str_eq name old) || is_switched nginx new log) && is_orderly old nginx new log
is_orderly old nginx new (marked ∷ log) = is_switched nginx new log && is_orderly old nginx new log
is_orderly old nginx new (_ ∷ log) = is_orderly old nginx new log

-- Whatever fails on the way, a blue-green rollback stops or removes the failing container, and reports
-- the deployment as rolled back, only after the replacement in the other slot has passed its health
-- check and the project's proxy has been configured for it and reloaded, if the two containers have
-- different names.
pub attempt_rollback_orderly :
    (h : Host) (ref : DeploymentRef) (image : String) (state : RemediationState)
    → str_eq (slot ref.project_slug (opposite ref.current_color)) ref.container_name ≡ false
    → is_orderly ref.container_name
        (proxy ref.project_slug)
        (slot ref.project_slug (opposite ref.current_color))
        (attempt_rollback h ref image state []).1
      ≡ true
unfolding attempt_rollback
attempt_rollback_orderly h ref image state other = ground (
  arith,
  eq_refl (slot ref.project_slug (opposite ref.current_color)),
  eq_refl (proxy ref.project_slug),
)
