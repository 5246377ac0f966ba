-- ===== src/Runner/Effects.antt =====
-- The calls that apps/runner/src/executor makes, and the outside world that answers them. A call
-- leaves an event in the trace, and an answer may depend on the whole trace before it, so the world
-- is any environment that the runner can meet: a control plane that accepts or refuses, a reviewer, a
-- user who cancels, steps that exit or throw.
use dev_ops_deployment_tool.Common.{ℕ, String, Bool, List, ◌∷◌, Option}
use dev_ops_deployment_tool.Status.Pipeline.{PipelineRunStatus}
use dev_ops_deployment_tool.Status.Task.{TaskRunStatus}
use dev_ops_deployment_tool.Status.Step.{StepRunStatus}

pub data LogLevel : Type 0 where
  debug info warn error : LogLevel

-- The payload of a status report: its scope, its names and the status.
pub data Report : Type 0 where
  pipeline_report : PipelineRunStatus → Report
  task_report : (task : String) → TaskRunStatus → Report
  step_report : (task step : String) → StepRunStatus → Report

-- `StepConfig` of packages/shared/src/validators/pipeline.ts.
pub record StepConfig : Type 0 where
  pub name : String
  pub command : String
  pub image : Option String
  pub env : List (String × String)
  pub timeout_seconds : Option ℕ

-- `PipelineTaskConfig`. An absent list reads as the empty one, an absent flag as false.
pub record TaskConfig : Type 0 where
  pub depends_on : List String
  pub approval_required : Bool
  pub steps : List StepConfig
  pub deploy : Bool
  pub artifacts : List String

pub data Event : Type 0 where
  reported : Report → Event
  logged : LogLevel → String → Event
  polled slept uploaded deployed : Event
  executed : StepConfig → Event

-- What has happened, the newest event first.
abbrev pub Trace : Type 0
Trace = List Event

-- The answer of `getApprovalStatus`: a decision, a status that is none, or a failed request.
pub data Poll : Type 0 where
  approve reject undecided unreachable : Poll

-- What `executeStep` does: it returns a result, or throws.
pub data StepRun : Type 0 where
  finished : (cancelled timed_out : Bool) (exit_code : ℕ) → StepRun
  crashed : StepRun

pub record World : Type 0 where
  pub aborted : Trace → Bool
  pub accepts : Trace → Report → Bool
  pub poll : Trace → Poll
  pub execute_step : Trace → StepConfig → StepRun
  -- false: the upload throws.
  pub upload : Trace → List String → Bool
  -- `none`: the deployment throws.
  pub deployment : Trace → Option Bool
  pub docker_available : Bool

-- `waiting` means that the rounds given to the approval gate are used up.
pub data Result (A : Type 0) : Type 0 where
  return : A → Result A
  thrown waiting : Result A

abbrev pub Action : Type 0 → Type 0
Action A = Trace → Result A × Trace

abbrev pub pure : {A : Type 0} → A → Action A
pure a tr = (return a, tr)

abbrev pub throw : {A : Type 0} → Action A
throw tr = (thrown, tr)

abbrev pub emit : Event → Action (Unit {0})
emit e tr = (return tt, e ∷ tr)

abbrev pub log : LogLevel → String → Action (Unit {0})
log level name = emit (logged level name)

abbrev pub and_then : {A B : Type 0} → Result A → (A → Action B) → Action B
and_then (return a) f tr = f a tr
and_then thrown f tr = (thrown, tr)
and_then waiting f tr = (waiting, tr)

infixl 5 ◌>>=◌ ◌>>◌
abbrev pub ◌>>=◌ : {A B : Type 0} → Action A → (A → Action B) → Action B
◌>>=◌ m f tr = let (r, tr') = m tr in and_then r f tr'

abbrev pub ◌>>◌ : {A B : Type 0} → Action A → Action B → Action B
m >> n = m >>= λ _. n

-- `try { body } catch { handler }`
abbrev pub handle : {A : Type 0} → Result A → Action A → Action A
handle thrown handler tr = handler tr
handle (return a) handler tr = (return a, tr)
handle waiting handler tr = (waiting, tr)

abbrev pub try_catch : {A : Type 0} → Action A → Action A → Action A
try_catch body handler tr = let (r, tr') = body tr in handle r handler tr'
