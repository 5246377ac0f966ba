-- ===== src/Lib.antt =====
-- DeployX runs pipelines of tasks: a control plane (apps/web) stores runs and accepts status
-- reports, a runner (apps/runner) claims a run, resolves the order of its tasks, executes their
-- steps and reports every status change.
--
-- `Dag` models packages/pipeline-engine/src/dag.ts: `Dag.Validate` is `validateDAG`, `Dag.Resolve`
-- is `resolveDAG`, an object of tasks is the list of its entries, and the in-degree maps are
-- functions of the name. Both `while` loops run on fuel, one unit per task; `Dag.Drain` and
-- `Dag.Order` prove that this is enough, since every round removes a task that was not removed
-- before.
--
-- `Status` models the status enums of packages/shared/src/types/enums.ts, the transition tables of
-- packages/shared/src/constants.ts and the functions of
-- packages/pipeline-engine/src/state-machine.ts; an exception is a constructor of `Status.Result`.
--
-- `Runner` models apps/runner/src/executor: status-reporter.ts is `Runner.Report`,
-- approval-gate.ts is `Runner.Approval`, task-executor.ts is `Runner.Task`, and
-- pipeline-executor.ts is `Runner.Groups` (`executeGroups`) and `Runner.Pipeline`
-- (`executePipeline`), where each parallel task of a group leaves a trace of its own and the
-- traces are interleaved as a `Schedule` says. An asynchronous function is an action on the trace
-- of the calls that it makes, and everything outside (the control plane, the reviewer,
-- cancellation, the steps' commands, the upload and the deployment) answers through `World`, as a
-- function of the trace so far. The polling loop of the approval gate has no bound in the source,
-- so the model gives it a number of rounds and has the result `waiting` for when they are used up;
-- `Runner.Task.Waiting` proves how many are enough once a decision comes. The text of log
-- messages, timestamps and process handling are left out.
--
-- `Ports` models apps/runner/src/deployers/port-allocator.ts on the list of allocations; `Healing`
-- models sliding-window.ts (`Healing.Window`), remediation-engine.ts (`Healing.Remediation`),
-- previous-image.ts (`Healing.PreviousImage`) and health-monitor.ts (`Healing.Discovery` for
-- discovery and reconciliation, `Healing.Monitor` for the check of one deployment) of the same
-- directory. A call of Docker, nginx or the control plane is recorded in a log, and a `Host`
-- answers it, possibly by an exception, as a function of the log.
--
-- `Control` models the control plane: lib/auth/runner.ts of apps/web/src is `Control.Auth`, the
-- routes app/api/runner/jobs/[runId]/status/route.ts and claim/route.ts are `Control.StatusRoute`
-- and `Control.Claim`, `cancelPipelineRun` of app/(dashboard)/projects/[projectId]/runs/actions.ts
-- is `Control.Cancel`, lib/cron/reap-orphans.ts is `Control.Reaper`, and
-- lib/settle-previous-deployments.ts is `Control.Settle`, on the table of deployments alone. The
-- database is a record of tables, which are lists of rows (`Control.Database`); a query is a
-- function on it, and fails by itself where the `Env` of the request says so. A request runs alone
-- from its first query to its last; in `Control.Requests`, claims, status reports, cancellations
-- and rounds of the reaper follow one another. Requests that overlap are not modelled, nor are the
-- routes that create runs and put them in the queue. The user who cancels is a `Session`, with
-- what the policies of the tables allow; the filter of an update is refused where it has a word
-- that the enum of the column lacks. The hash of tokens, the clock and the identifiers of new rows
-- come from `Env`, and the checks of bodies by zod are given by their result.
--
-- `Rolling` models apps/runner/src/deployers/docker-local-rolling-deployer.ts on a state of Docker
-- and nginx: the instances of one project by their ordinal and the upstreams of its proxy. A
-- command takes effect or throws, with or without effect, as a `Host` says. The loop over the
-- batches has a fuel of one unit per instance, which `Rolling.Batches` proves to be enough for a
-- positive `max_unavailable`.
--
-- `Schedule` models `getNextCronRun` of packages/shared/src/validators/schedule.ts on an
-- expression that has been parsed, with the clock of the time zone as a parameter; the iterations
-- of the search are those of the source.
--
-- Not modelled are the other deployers, the timer of the health monitor, the set-up of a
-- workspace, the other routes and cron jobs of the control plane, the parser of cron expressions,
-- the user interface, the SQL migrations, the command line, and the clients of Docker, git and the
-- cloud services.
pub mod Common
pub mod Dag
pub mod Status
pub mod Runner
pub mod Ports
pub mod Healing
pub mod Control
pub mod Rolling
pub mod Schedule
