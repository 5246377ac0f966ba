-- ===== src/Status.antt =====
-- The status enums of packages/shared/src/types/enums.ts, the transition tables of
-- packages/shared/src/constants.ts and the checks of packages/pipeline-engine/src/state-machine.ts.
-- `Status.Laws` relates the tables, the terminal states and the sequences of accepted updates.
pub mod Result
pub mod Pipeline
pub mod Task
pub mod Step
pub mod Deployment
pub mod Laws
pub mod Samples
