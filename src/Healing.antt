-- ===== src/Healing.antt =====
-- apps/runner/src/deployers: how the runner watches a deployed container and mends it.
-- `Healing.Window` follows sliding-window.ts, `Healing.Remediation` remediation-engine.ts,
-- `Healing.Monitor` and `Healing.Discovery` health-monitor.ts, `Healing.PreviousImage`
-- previous-image.ts; `Healing.Effects` has the calls to
-- Docker, nginx and the control plane. `Healing.Windows`, `Healing.Decisions` and `Healing.Switching`
-- have the lemmas on the window, on what is decided and on the order of a rollback's calls.
pub mod Window
pub mod Windows
pub mod Effects
pub mod Remediation
pub mod Decisions
pub mod Remedies
pub mod Switching
pub mod Monitor
pub mod Discovery
pub mod PreviousImage
pub mod Samples
