-- ===== src/Healing/Monitor.antt =====
-- `checkOne` of apps/runner/src/deployers/health-monitor.ts (lines 244 to 313), without
-- the log lines and the report of the probe, which is sent without waiting for it.
use dev_ops_deployment_tool.Common.{
  ℕ, ◌-◌, ◌++◌, ◌⊎◌, inl, inr, Option-cases, ◌≤◌, ◌≡◌, refl, String, Bool, false, [], ◌∷◌, Option,
  none, some, if◌then◌else◌, length, arith,
}
use dev_ops_deployment_tool.Healing.Window.{
  AggregateHealth, SlidingWindowState, push_entry, compute_health,
}
use dev_ops_deployment_tool.Healing.Windows.{
  trim-latest, length-drop, healthy_threshold, degraded_threshold,
}
use dev_ops_deployment_tool.Healing.Effects.{
  and_then, Calls, Host, Action, pure, ◌>>=◌, is_container_running, check_health,
}
use dev_ops_deployment_tool.Healing.Remediation.{
  DeploymentRef, RemediationState, RemediationResult, remediate,
}
use dev_ops_deployment_tool.Healing.Decisions.{Returns, Decides, Decides-bound, remediate-Decides}

pub record MonitoredDeployment : Type 0 where
  pub ref : DeploymentRef
  pub window : SlidingWindowState
  pub remediation_state : RemediationState

module _ (h : Host) where
  -- The two checks: the container runs, and it answers its probe.
  unfoldable pub probe : String → Action Bool
  probe name = do
    running ← is_container_running h name
    if running then check_health h name else pure false

  -- What follows the checks.
  unfoldable pub settle : MonitoredDeployment → (passed : Bool) → Action MonitoredDeployment
  unfolding push_entry compute_health remediate
  settle m passed = do
    result ←
        remediate h m.ref
          (compute_health (push_entry m.window passed) healthy_threshold degraded_threshold)
          m.remediation_state
    pure (record {
      ref = m.ref;
      window = push_entry m.window passed;
      remediation_state = result.new_state;
    })

  -- `checkOne`
  unfoldable pub check_one : MonitoredDeployment → Action MonitoredDeployment
  unfolding probe settle
  check_one m = probe m.ref.container_name >>= settle m

-- What the monitor keeps of a deployment: no more results than its window holds, and at most three
-- counted restarts.
abbrev pub IsMonitored : MonitoredDeployment → Type 0
IsMonitored m =
    (length m.window.entries ≤ m.window.window_size) × (m.remediation_state.restart_count ≤ 3)

-- The check returns a deployment that is kept so.
abbrev pub StaysMonitored : DeploymentRef → Option MonitoredDeployment → Type 0
StaysMonitored ref none = ⊥
StaysMonitored ref (some m) = (m.ref ≡ ref) × IsMonitored m

push_entry-length :
    (window : SlidingWindowState) (passed : Bool)
    → length (push_entry window passed).entries ≤ window.window_size
unfolding push_entry
push_entry-length window passed =
    let xs = window.entries ++ passed ∷ [] in
    rw (trim-latest window.window_size xs)
      (omega (arith, length-drop (length xs - window.window_size) xs))

module _ (h : Host) where
  remediated :
      (m : MonitoredDeployment) (passed : Bool) (aggregate : AggregateHealth) (t : ℕ)
      (o : Option RemediationResult) (log : Calls)
      → m.remediation_state.restart_count ≤ 3
      → Returns (Decides aggregate m.remediation_state t) o
      → StaysMonitored m.ref
          (and_then o
            (λ result. pure (record {
              ref = m.ref;
              window = push_entry m.window passed;
              remediation_state = result.new_state;
            }))
            log).0
  unfolding push_entry
  remediated m passed aggregate t none log b p = absurd p
  remediated m passed aggregate t (some r) log b p = (
    refl,
    (push_entry-length m.window passed, Decides-bound aggregate m.remediation_state t r b p),
  )

  settle-StaysMonitored :
      (m : MonitoredDeployment) (passed : Bool) (log : Calls)
      → m.remediation_state.restart_count ≤ 3
      → StaysMonitored m.ref (settle h m passed log).0
  unfolding settle
  settle-StaysMonitored m passed log b =
      let aggregate =
        compute_health (push_entry m.window passed) healthy_threshold degraded_threshold in
      let r = remediate h m.ref aggregate m.remediation_state log in
      remediated m passed aggregate (h.now log) r.0 r.1 b
        (remediate-Decides h m.ref m.remediation_state log aggregate)

-- From a monitored deployment with at most three counted restarts, `checkOne` fails only if one of its
-- two checks throws; otherwise it returns the same deployment with at most as many results as its
-- window holds and at most three counted restarts.
pub check_one-IsMonitored :
    (h : Host) (m : MonitoredDeployment) (log : Calls)
    → IsMonitored m
    → (((probe h m.ref.container_name log).0 ≡ none) × ((check_one h m log).0 ≡ none))
      ⊎ StaysMonitored m.ref (check_one h m log).0
unfolding check_one
check_one-IsMonitored h m log i = elim (Option-cases (probe h m.ref.container_name log).0) [
  | inl e ↦ inl (e, rw e refl)
  | inr (passed, e) ↦
      inr (rw e (settle-StaysMonitored h m passed (probe h m.ref.container_name log).1 i.1))
]
