-- ===== src/Runner.antt =====
-- apps/runner/src/executor: how a runner executes a claimed run. `Runner.Effects` has the trace of
-- calls and what the outside world answers; `Runner.Report` follows status-reporter.ts,
-- `Runner.Approval` approval-gate.ts, `Runner.Task` task-executor.ts, `Runner.Groups` and
-- `Runner.Pipeline` pipeline-executor.ts. `Runner.Protocol` reads the reports of a trace.
pub mod Effects
pub mod Report
pub mod Approval
pub mod Task
pub mod Groups
pub mod Pipeline
pub mod Protocol
pub mod Samples
