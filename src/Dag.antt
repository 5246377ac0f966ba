-- ===== src/Dag.antt =====
-- packages/pipeline-engine/src/dag.ts. `Dag.Degrees` is the state of Kahn's algorithm that both
-- functions of that file share; `Dag.Validate` and `Dag.Resolve` follow the two functions.
-- `Dag.Sweep` and `Dag.Kahn` hold the lemmas about one removal of a task, `Dag.Order` what a
-- resolved plan guarantees, `Dag.Drain` and `Dag.Complete` when a plan is found, `Dag.Accept` the
-- results of both functions, a dependency that is listed twice included, and `Dag.Samples` the runs at concrete graphs.
pub mod Graph
pub mod Degrees
pub mod Validate
pub mod Resolve
pub mod Sweep
pub mod Kahn
pub mod Counts
pub mod Order
pub mod Drain
pub mod Complete
pub mod References
pub mod Accept
pub mod Samples
