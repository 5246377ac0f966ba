-- ===== src/Runner/Protocol.antt =====
-- The reports in a trace, in the order in which they are sent: the status that each task and step
-- was last reported with, and whether every report was a transition that state-machine.ts allows.
use dev_ops_deployment_tool.Common.{
  ◌≡◌, refl, String, true, ◌&&◌, List, [], ◌∷◌, ◌<◌, str_eq, eq_iff, eq_refl, if◌then◌else◌, count,
  Distinct, includes, arith,
}
use dev_ops_deployment_tool.Status.Task.{TaskRunStatus, validate_task_transition}
use dev_ops_deployment_tool.Status.Step.{StepRunStatus, validate_step_transition}
use dev_ops_deployment_tool.Runner.Effects.{task_report, step_report, Event, reported, Trace}
use dev_ops_deployment_tool.Runner.Report.{mark_steps}

abbrev pub on_task : String → Event → TaskRunStatus → TaskRunStatus
on_task task (reported (task_report name status)) old = if str_eq name task then status else old
on_task task _ old = old

-- The status that a task was last reported with; a run starts with its tasks pending.
abbrev pub task_state : String → Trace → TaskRunStatus
task_state task [] = TaskRunStatus.pending
task_state task (e ∷ tr) = on_task task e (task_state task tr)

abbrev pub on_step : String → String → Event → StepRunStatus → StepRunStatus
on_step task step (reported (step_report name step_name status)) old =
    if str_eq name task && str_eq step_name step then status else old
on_step task step _ old = old

abbrev pub step_state : String → String → Trace → StepRunStatus
step_state task step [] = StepRunStatus.pending
step_state task step (e ∷ tr) = on_step task step e (step_state task step tr)

-- An event that is a report makes a transition that is allowed from the report before it.
abbrev pub IsLegalEvent : Trace → Event → Type 0
IsLegalEvent tr (reported (task_report task status)) =
    validate_task_transition (task_state task tr) status ≡ true
IsLegalEvent tr (reported (step_report task step status)) =
    validate_step_transition (step_state task step tr) status ≡ true
IsLegalEvent tr _ = Unit

-- Every report of tasks and steps in the trace is an allowed transition.
abbrev pub IsLegal : Trace → Type 0
IsLegal [] = Unit
IsLegal (e ∷ tr) = IsLegalEvent tr e × IsLegal tr

-- Every listed step may be reported with the status.
abbrev pub CanMark : String → StepRunStatus → List String → Trace → Type 0
CanMark task status steps tr =
    (s : String) → 0 < count s steps → validate_step_transition (step_state task s tr) status ≡ true

pub CanMark-tail :
    (task step : String) (status by : StepRunStatus) (steps : List String) (tr : Trace)
    → Distinct (step ∷ steps)
    → CanMark task status (step ∷ steps) tr
    → CanMark task status steps (reported (step_report task step by) ∷ tr)
CanMark-tail task step status by steps tr once h s m =
    ground (arith, eq_iff step s, eq_refl s, once s, h s)

pub mark_steps-IsLegal :
    (task : String) (status : StepRunStatus) (steps : List String) (tr : Trace)
    → Distinct steps
    → CanMark task status steps tr
    → IsLegal tr
    → IsLegal (mark_steps task status steps tr)
unfolding mark_steps
mark_steps-IsLegal task status [] tr once h l = l
mark_steps-IsLegal task status (step ∷ steps) tr once h l =
    mark_steps-IsLegal task status steps (reported (step_report task step status) ∷ tr)
      (λ x. omega (arith, once x)) (CanMark-tail task step status status steps tr once h)
      (h step (ground (arith, eq_refl step)), l)

pub task_state-mark_steps :
    (n task : String) (status : StepRunStatus) (steps : List String) (tr : Trace)
    → task_state n (mark_steps task status steps tr) ≡ task_state n tr
unfolding mark_steps
task_state-mark_steps n task status [] tr = refl
task_state-mark_steps n task status (step ∷ steps) tr =
    task_state-mark_steps n task status steps (reported (step_report task step status) ∷ tr)

-- Marking leaves the listed steps at the status, and every other step as it was.
pub step_state-mark_steps :
    (task : String) (status : StepRunStatus) (steps : List String) (s : String) (tr : Trace)
    → step_state task s (mark_steps task status steps tr)
      ≡ (if includes steps s then status else step_state task s tr)
unfolding mark_steps includes
step_state-mark_steps task status [] s tr = refl
step_state-mark_steps task status (step ∷ steps) s tr = ground (
  arith,
  eq_refl task,
  step_state-mark_steps task status steps s (reported (step_report task step status) ∷ tr),
)
