-- ===== src/Runner/Task/Received.antt =====
-- The reports of `executeTask` at the control plane, which checks each of them against the status that it
-- has stored (status/route.ts) and stores those that state-machine.ts allows.
use dev_ops_deployment_tool.Common.{
  ℕ, ◌≡◌, refl, ap, ◌∙◌, String, Bool, true, ◌&&◌, [], ◌∷◌, str_eq, eq_iff, Distinct, if◌then◌else◌,
  Bool-cases, inl, inr,
}
use mathlib.Core.Path.{subst}
use dev_ops_deployment_tool.Status.Task.{TaskRunStatus, validate_task_transition}
use dev_ops_deployment_tool.Status.Step.{StepRunStatus, validate_step_transition}
use dev_ops_deployment_tool.Runner.Effects.{
  Report, pipeline_report, task_report, step_report, Event, reported, logged, polled, slept,
  uploaded, deployed, executed, Trace, World, Result, return, thrown, waiting, TaskConfig,
}
use dev_ops_deployment_tool.Runner.Protocol.{task_state, step_state, IsLegal}
use dev_ops_deployment_tool.Runner.Task.{
  TaskOutcome, success, failed, cancelled, step_names, execute_task,
}
use dev_ops_deployment_tool.Runner.Task.Legal.{TaskEnd}
use dev_ops_deployment_tool.Runner.Task.Gate.{execute_task-TaskEnd}

-- `reaches`: which reports get through to the control plane.
module _ (reaches : Trace → Report → Bool) where
  abbrev receive_task : String → Trace → Event → TaskRunStatus → TaskRunStatus
  receive_task task tr (reported (task_report name status)) stored =
      if str_eq name task
        && reaches tr (task_report name status)
        && validate_task_transition stored status
      then status
      else stored
  receive_task task tr _ stored = stored

  -- The status of a task that the control plane has stored.
  abbrev pub stored_task : String → Trace → TaskRunStatus
  stored_task task [] = TaskRunStatus.pending
  stored_task task (e ∷ tr) = receive_task task tr e (stored_task task tr)

  abbrev receive_step : String → String → Trace → Event → StepRunStatus → StepRunStatus
  receive_step task step tr (reported (step_report name step_name status)) stored =
      if str_eq name task
        && str_eq step_name step
        && reaches tr (step_report name step_name status)
        && validate_step_transition stored status
      then status
      else stored
  receive_step task step tr _ stored = stored

  -- The status of a step that the control plane has stored.
  abbrev pub stored_step : String → String → Trace → StepRunStatus
  stored_step task step [] = StepRunStatus.pending
  stored_step task step (e ∷ tr) = receive_step task step tr e (stored_step task step tr)

  abbrev IsAcceptedEvent : Trace → Event → Type 0
  IsAcceptedEvent tr (reported (task_report task status)) =
      (reaches tr (task_report task status) ≡ true)
      × (validate_task_transition (stored_task task tr) status ≡ true)
  IsAcceptedEvent tr (reported (step_report task step status)) =
      (reaches tr (step_report task step status) ≡ true)
      × (validate_step_transition (stored_step task step tr) status ≡ true)
  IsAcceptedEvent tr _ = Unit

  -- The control plane has stored every report of tasks and steps.
  abbrev pub IsAccepted : Trace → Type 0
  IsAccepted [] = Unit
  IsAccepted (e ∷ tr) = IsAcceptedEvent tr e × IsAccepted tr

  -- It has stored what was reported last.
  abbrev Agrees : Trace → Type 0
  Agrees tr =
      ((t : String) → stored_task t tr ≡ task_state t tr)
      × ((t s : String) → stored_step t s tr ≡ step_state t s tr)

  -- What the control plane has stored when a task ends.
  abbrev pub Received : String → Result TaskOutcome × Trace → Type 0
  Received task (return success, tr) = IsAccepted tr × (stored_task task tr ≡ TaskRunStatus.success)
  Received task (return failed, tr) = IsAccepted tr × (stored_task task tr ≡ TaskRunStatus.failed)
  Received task (return cancelled, tr) =
      IsAccepted tr × (stored_task task tr ≡ TaskRunStatus.cancelled)
  Received task (thrown, tr) = ⊥
  Received task (waiting, tr) =
      IsAccepted tr × (stored_task task tr ≡ TaskRunStatus.awaiting_approval)

  validates_task :
      (n : String) (st : TaskRunStatus) (tr : Trace)
      → stored_task n tr ≡ task_state n tr
      → validate_task_transition (task_state n tr) st ≡ true
      → validate_task_transition (stored_task n tr) st ≡ true
  validates_task n st tr e v = ap (λ (x : TaskRunStatus). validate_task_transition x st) e ∙ v

  validates_step :
      (n p : String) (st : StepRunStatus) (tr : Trace)
      → stored_step n p tr ≡ step_state n p tr
      → validate_step_transition (step_state n p tr) st ≡ true
      → validate_step_transition (stored_step n p tr) st ≡ true
  validates_step n p st tr e v = ap (λ (x : StepRunStatus). validate_step_transition x st) e ∙ v

  module _ (all : (tr : Trace) (r : Report) → reaches tr r ≡ true) where
    task_agrees :
        (n t : String) (st : TaskRunStatus) (tr : Trace)
        → validate_task_transition (stored_task n tr) st ≡ true
        → stored_task t tr ≡ task_state t tr
        → stored_task t (reported (task_report n st) ∷ tr)
          ≡ task_state t (reported (task_report n st) ∷ tr)
    task_agrees n t st tr v e = elim (Bool-cases (str_eq n t)) [
      | inl same ↦
          let v' : validate_task_transition (stored_task t tr) st ≡ true =
            subst (λ (x : String). validate_task_transition (stored_task x tr) st ≡ true)
              ((eq_iff n t).0 same) v in
          rw (same, all tr (task_report n st), v') refl
      | inr other ↦ rw other e
    ]

    step_agrees :
        (n p t s : String) (st : StepRunStatus) (tr : Trace)
        → validate_step_transition (stored_step n p tr) st ≡ true
        → stored_step t s tr ≡ step_state t s tr
        → stored_step t s (reported (step_report n p st) ∷ tr)
          ≡ step_state t s (reported (step_report n p st) ∷ tr)
    step_agrees n p t s st tr v e = elim (Bool-cases (str_eq n t)) [
      | inl same ↦ elim (Bool-cases (str_eq p s)) [
        | inl same_step ↦
            let v' : validate_step_transition (stored_step t s tr) st ≡ true =
              subst (λ (x : String). validate_step_transition (stored_step x s tr) st ≡ true)
                ((eq_iff n t).0 same)
                (subst (λ (y : String). validate_step_transition (stored_step n y tr) st ≡ true)
                  ((eq_iff p s).0 same_step) v) in
            rw (same, same_step, all tr (step_report n p st), v') refl
        | inr other ↦ rw (same, other) e
      ]
      | inr other ↦ rw other e
    ]

    IsLegal-IsAccepted : (tr : Trace) → IsLegal tr → IsAccepted tr × Agrees tr
    IsLegal-IsAccepted [] l = (tt, ((λ t. refl), (λ t s. refl)))
    IsLegal-IsAccepted (reported (task_report n st) ∷ tr) (v, l) =
        let (a, (et, es)) = IsLegal-IsAccepted tr l in
        let v' = validates_task n st tr (et n) v in
        (((all tr (task_report n st), v'), a), ((λ t. task_agrees n t st tr v' (et t)), es))
    IsLegal-IsAccepted (reported (step_report n p st) ∷ tr) (v, l) =
        let (a, (et, es)) = IsLegal-IsAccepted tr l in
        let v' = validates_step n p st tr (es n p) v in
        (
          ((all tr (step_report n p st), v'), a),
          (et, (λ t s. step_agrees n p t s st tr v' (es t s))),
        )
    IsLegal-IsAccepted (reported (pipeline_report st) ∷ tr) (v, l) =
        let (a, e) = IsLegal-IsAccepted tr l in ((tt, a), e)
    IsLegal-IsAccepted (logged level name ∷ tr) (v, l) =
        let (a, e) = IsLegal-IsAccepted tr l in ((tt, a), e)
    IsLegal-IsAccepted (polled ∷ tr) (v, l) = let (a, e) = IsLegal-IsAccepted tr l in ((tt, a), e)
    IsLegal-IsAccepted (slept ∷ tr) (v, l) = let (a, e) = IsLegal-IsAccepted tr l in ((tt, a), e)
    IsLegal-IsAccepted (uploaded ∷ tr) (v, l) = let (a, e) = IsLegal-IsAccepted tr l in ((tt, a), e)
    IsLegal-IsAccepted (deployed ∷ tr) (v, l) = let (a, e) = IsLegal-IsAccepted tr l in ((tt, a), e)
    IsLegal-IsAccepted (executed step ∷ tr) (v, l) =
        let (a, e) = IsLegal-IsAccepted tr l in ((tt, a), e)

    TaskEnd-Received :
        (w : World) (task : String) (r : Result TaskOutcome × Trace)
        → TaskEnd w task r
        → Received task r
    TaskEnd-Received w task (return success, tr) (l, e) =
        let (a, (et, _)) = IsLegal-IsAccepted tr l in (a, et task ∙ e)
    TaskEnd-Received w task (return failed, tr) (l, e) =
        let (a, (et, _)) = IsLegal-IsAccepted tr l in (a, et task ∙ e)
    TaskEnd-Received w task (return cancelled, tr) (l, e) =
        let (a, (et, _)) = IsLegal-IsAccepted tr l in (a, et task ∙ e)
    TaskEnd-Received w task (thrown, tr) q = q
    TaskEnd-Received w task (waiting, tr) (l, e) =
        let (a, (et, _)) = IsLegal-IsAccepted tr l in (a, et task ∙ e)

-- For a task of a run that has just started, with distinct step names, if every report gets through and
-- nothing else changes the stored statuses, whatever answers the runner is given, whatever the
-- reviewer and the commands do, and whether or not the runner is told to stop: `executeTask` does not
-- throw, the control plane finds each of its reports to be an allowed transition from the status that
-- is stored, and stores it, and the status of the task that is stored in the end is the outcome that
-- is returned. If the rounds of the approval gate are used up, that status is that the task awaits its
-- approval.
pub execute_task-Received :
    (reaches : Trace → Report → Bool) (w : World) (rounds : ℕ) (task : String) (config : TaskConfig)
    → ((tr : Trace) (r : Report) → reaches tr r ≡ true)
    → Distinct (step_names config.steps)
    → Received reaches task (execute_task w rounds task config [])
execute_task-Received reaches w rounds task config all once =
    TaskEnd-Received reaches all w task (execute_task w rounds task config [])
      (execute_task-TaskEnd w rounds task config [] once tt refl (λ s m. refl))
