-- ===== src/Runner/Task/Steps.antt =====
-- What the steps of a task report (`runSteps` and `executeStepWithReporting` of task-executor.ts).
use dev_ops_deployment_tool.Common.{
  ◌≡◌, ◌∙◌, refl, String, true, false, List, [], ◌∷◌, ◌<◌, str_eq, eq_iff, eq_refl, count, Distinct,
  arith, Bool-cases, inl, inr,
}
use dev_ops_deployment_tool.Status.Task.{TaskRunStatus, validate_task_transition}
use dev_ops_deployment_tool.Status.Step.{StepRunStatus, validate_step_transition}
use dev_ops_deployment_tool.Runner.Effects.{
  StepConfig, warn, logged, reported, step_report, Trace, World, Result, return, thrown, waiting,
  and_then,
}
use dev_ops_deployment_tool.Runner.Report.{skip_steps}
use dev_ops_deployment_tool.Runner.Protocol.{
  task_state, step_state, IsLegal, CanMark, CanMark-tail, mark_steps-IsLegal, task_state-mark_steps,
}
use dev_ops_deployment_tool.Runner.Task.{
  TaskOutcome, success, failed, cancelled, step_names, cancel_task, execute_step_with_reporting,
  after_step, run_steps,
}

-- What `skip_steps` leaves, for steps that may be skipped.
pub record IsSkipped (tr : Trace) (task : String) (r : Result (Unit {0})) (tr' : Trace)
    : Type 0 where
  pub returns : r ≡ return tt
  pub legal : IsLegal tr'
  pub task_kept : task_state task tr' ≡ task_state task tr

module _ (w : World) (task : String) where
  pub skip_steps-IsSkipped :
      (steps : List StepConfig) (tr : Trace)
      → Distinct (step_names steps)
      → CanMark task StepRunStatus.skipped (step_names steps) tr
      → IsLegal tr
      → IsSkipped tr task (skip_steps w task steps tr).0 (skip_steps w task steps tr).1
  unfolding skip_steps
  skip_steps-IsSkipped [] tr once h l = record { returns = refl; legal = l; task_kept = refl }
  skip_steps-IsSkipped (step ∷ steps) tr once h l =
      let tr' = logged warn step.name ∷ tr in
      let rest =
        skip_steps-IsSkipped steps
          (reported (step_report task step.name StepRunStatus.skipped) ∷ tr')
          (λ x. omega (arith, once x))
          (CanMark-tail task step.name StepRunStatus.skipped StepRunStatus.skipped
            (step_names steps) tr' once h)
          (h step.name (ground (arith, eq_refl step.name)), (tt, l)) in
      record { returns = rest.returns; legal = rest.legal; task_kept = rest.task_kept }

  -- What one step leaves. A step that throws has been reported as running.
  abbrev StepEnd : StepConfig → Trace → Result TaskOutcome → Trace → Type 0
  StepEnd step tr (return success) tr' =
      IsLegal tr'
      × (task_state task tr' ≡ task_state task tr)
      × (step_state task step.name tr' ≡ StepRunStatus.success)
  StepEnd step tr (return failed) tr' =
      IsLegal tr'
      × (task_state task tr' ≡ task_state task tr)
      × (step_state task step.name tr' ≡ StepRunStatus.failed)
  StepEnd step tr (return cancelled) tr' =
      IsLegal tr'
      × (task_state task tr' ≡ task_state task tr)
      × (step_state task step.name tr' ≡ StepRunStatus.running)
  StepEnd step tr thrown tr' =
      IsLegal tr'
      × (task_state task tr' ≡ task_state task tr)
      × (step_state task step.name tr' ≡ StepRunStatus.running)
  StepEnd step tr waiting tr' = ⊥

  execute_step-StepEnd :
      (step : StepConfig) (tr : Trace)
      → IsLegal tr
      → step_state task step.name tr ≡ StepRunStatus.pending
      → StepEnd step tr
          (execute_step_with_reporting w task step tr).0
          (execute_step_with_reporting w task step tr).1
  unfolding execute_step_with_reporting validate_step_transition
  execute_step-StepEnd step tr l p = ground (arith, eq_refl task, eq_refl step.name)

  execute_step_others :
      (step : StepConfig) (tr : Trace) (s : String)
      → str_eq step.name s ≡ false
      → step_state task s (execute_step_with_reporting w task step tr).1 ≡ step_state task s tr
  unfolding execute_step_with_reporting
  execute_step_others step tr s other = ground arith

  -- What the loop over the steps leaves. Only a successful or throwing loop leaves the task running.
  abbrev pub StepsEnd : Result TaskOutcome × Trace → Type 0
  StepsEnd (return success, tr) = IsLegal tr × (task_state task tr ≡ TaskRunStatus.running)
  StepsEnd (return failed, tr) = IsLegal tr × (task_state task tr ≡ TaskRunStatus.failed)
  StepsEnd (return cancelled, tr) = IsLegal tr × (task_state task tr ≡ TaskRunStatus.cancelled)
  StepsEnd (thrown, tr) = IsLegal tr × (task_state task tr ≡ TaskRunStatus.running)
  StepsEnd (waiting, tr) = ⊥

  pub cancel_task-StepsEnd :
      (steps : List String) (tr : Trace)
      → Distinct steps
      → CanMark task StepRunStatus.cancelled steps tr
      → IsLegal tr
      → validate_task_transition (task_state task tr) TaskRunStatus.cancelled ≡ true
      → StepsEnd (cancel_task w task steps tr)
  unfolding cancel_task
  cancel_task-StepsEnd steps tr once h l t =
      let tr' = logged warn task ∷ tr in
      ground (
        arith,
        eq_refl task,
        mark_steps-IsLegal task StepRunStatus.cancelled steps tr' once h (tt, l),
        task_state-mark_steps task task StepRunStatus.cancelled steps tr',
      )

  -- Every listed step is still pending.
  abbrev pub IsPending : List String → Trace → Type 0
  IsPending steps tr =
      (s : String) → 0 < count s steps → step_state task s tr ≡ StepRunStatus.pending

  IsPending-tail :
      (step : StepConfig) (rest : List String) (tr tr' : Trace)
      → Distinct (step.name ∷ rest)
      → IsPending (step.name ∷ rest) tr
      → ((s : String) → str_eq step.name s ≡ false → step_state task s tr' ≡ step_state task s tr)
      → IsPending rest tr'
  IsPending-tail step rest tr tr' once h others s m = ground (arith, once s, h s, others s)

  pub IsPending-CanMark :
      (status : StepRunStatus) (steps : List String) (tr : Trace)
      → validate_step_transition StepRunStatus.pending status ≡ true
      → IsPending steps tr
      → CanMark task status steps tr
  IsPending-CanMark status steps tr ok h s m = rw (h s m) ok

  after_step-StepsEnd :
      (step : StepConfig) (rest : List StepConfig) (tr tr' : Trace) (r : Result TaskOutcome)
      → Distinct (step_names (step ∷ rest))
      → StepEnd step tr r tr'
      → task_state task tr ≡ TaskRunStatus.running
      → IsPending (step_names rest) tr'
      → (StepEnd step tr (return success) tr' → StepsEnd (run_steps w task rest tr'))
      → StepsEnd (and_then r (after_step w task step rest (run_steps w task rest)) tr')
  unfolding after_step validate_step_transition validate_task_transition
  after_step-StepsEnd step rest tr tr' (return success) once end run p next = next end
  after_step-StepsEnd step rest tr tr' (return failed) once end run p next =
      let k =
        skip_steps-IsSkipped rest tr' (λ x. omega (arith, once x))
          (IsPending-CanMark StepRunStatus.skipped (step_names rest) tr' refl p) end.0 in
      rw k.returns (ground (arith, eq_refl task, k.legal, k.task_kept, run))
  after_step-StepsEnd step rest tr tr' (return cancelled) once end run p next =
      cancel_task-StepsEnd (step_names (step ∷ rest)) tr' once
        (λ s m. ground (arith, eq_iff step.name s, end.2, p s)) end.0 (rw (end.1 ∙ run) refl)
  after_step-StepsEnd step rest tr tr' thrown once end run p next = (end.0, end.1 ∙ run)
  after_step-StepsEnd step rest tr tr' waiting once end run p next = end

  -- Every report of the loop is allowed, and the task ends in the state of the loop's outcome.
  pub run_steps-StepsEnd :
      (steps : List StepConfig) (tr : Trace)
      → Distinct (step_names steps)
      → IsPending (step_names steps) tr
      → IsLegal tr
      → task_state task tr ≡ TaskRunStatus.running
      → StepsEnd (run_steps w task steps tr)
  unfolding run_steps validate_step_transition validate_task_transition
  run_steps-StepsEnd [] tr once p l run = (l, run)
  run_steps-StepsEnd (step ∷ rest) tr once p l run = elim (Bool-cases (w.aborted tr)) [
    | inl stop ↦
        rw (stop, run_steps)
          (cancel_task-StepsEnd (step_names (step ∷ rest)) tr once
            (IsPending-CanMark StepRunStatus.cancelled (step_names (step ∷ rest)) tr refl p) l
            (rw run refl))
    | inr go ↦
        let (r, tr') = execute_step_with_reporting w task step tr in
        let end =
          execute_step-StepEnd step tr l (p step.name (ground (arith, eq_refl step.name))) in
        let p' =
          IsPending-tail step (step_names rest) tr tr' once p (execute_step_others step tr) in
        rw (go, run_steps)
          (after_step-StepsEnd step rest tr tr' r once end run p'
            (λ e. run_steps-StepsEnd rest tr' (λ x. omega (arith, once x)) p' e.0 (e.1 ∙ run)))
  ]
