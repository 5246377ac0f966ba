-- ===== src/Control.antt =====
-- The control plane: the routes by which runners claim runs and report their status
-- (apps/web/src/app/api/runner/jobs), the checks of their tokens and runs
-- (apps/web/src/lib/auth/runner.ts), the cancellation of a run and the reaper of orphaned runs.
pub mod Tables
pub mod Database
pub mod Rules
pub mod Auth
pub mod StatusRoute
pub mod Claim
pub mod Cancel
pub mod Reaper
pub mod Settle
pub mod Requests
pub mod Samples
