-- ===== src/Runner/Task/Waiting.antt =====
-- How long the approval gate waits, and what a task may do before it is approved.
use dev_ops_deployment_tool.Common.{
  ℕ, zero, suc, ◌+◌, ◌≤◌, ◌<◌, ◌≡◌, ◌≢◌, ◌⊎◌, ◌∙◌, refl, String, true, List, [], ◌∷◌, dec_lt, arith,
  Bool-cases, inl, inr,
}
use dev_ops_deployment_tool.Status.Task.{TaskRunStatus}
use dev_ops_deployment_tool.Status.Step.{StepRunStatus}
use dev_ops_deployment_tool.Runner.Effects.{
  StepConfig, TaskConfig, error, warn, info, logged, slept, polled, executed, reported, task_report,
  step_report, Trace, Poll, approve, reject, undecided, unreachable, World, Result, return, thrown,
  waiting, Action, and_then,
}
use dev_ops_deployment_tool.Runner.Report.{skip_steps, mark_steps}
use dev_ops_deployment_tool.Runner.Approval.{
  ApprovalOutcome, approved, rejected, after_poll, wait_for_approval,
}
use dev_ops_deployment_tool.Runner.Task.Gate.{wait-ne-thrown}
use dev_ops_deployment_tool.Runner.Task.{
  step_names, cancel_task, reject_task, pass_approval_gate, after_gate, log_gate, execute_task,
}

-- How often the trace asks for the approval's status.
abbrev pub polls : Trace → ℕ
polls [] = 0
polls (polled ∷ tr) = suc (polls tr)
polls (_ ∷ tr) = polls tr

-- How many steps the trace starts.
abbrev pub executions : Trace → ℕ
executions [] = 0
executions (executed s ∷ tr) = suc (executions tr)
executions (_ ∷ tr) = executions tr

-- After `n` polls a reviewer has decided or the run is cancelled.
abbrev pub Decides : ℕ → World → Type 0
Decides n w =
    (tr : Trace)
    → n ≤ polls tr
    → (w.aborted tr ≡ true) ⊎ ((w.poll tr ≡ approve) ⊎ (w.poll tr ≡ reject))

module _ (w : World) (task : String) where
  decided-ne-waiting :
      (p : Poll) (next : Action ApprovalOutcome) (tr : Trace)
      → (p ≡ approve) ⊎ (p ≡ reject)
      → (after_poll task p next tr).0 ≢ waiting
  unfolding after_poll
  decided-ne-waiting p next tr h = ground arith

  after_poll-ne-waiting :
      (p : Poll) (next : Action ApprovalOutcome) (tr : Trace)
      → ((tr' : Trace) → polls tr' ≡ polls tr → (next tr').0 ≢ waiting)
      → (after_poll task p next tr).0 ≢ waiting
  unfolding after_poll
  after_poll-ne-waiting approve next tr h = λ e. cc
  after_poll-ne-waiting reject next tr h = λ e. cc
  after_poll-ne-waiting undecided next tr h = h (slept ∷ tr) refl
  after_poll-ne-waiting unreachable next tr h = h (slept ∷ logged warn task ∷ tr) refl

  pub wait-ne-waiting :
      (n rounds : ℕ) (tr : Trace)
      → Decides n w
      → polls tr ≤ n
      → n < rounds + polls tr
      → (wait_for_approval rounds w task tr).0 ≢ waiting
  unfolding wait_for_approval
  wait-ne-waiting n zero tr d low h = absurd (omega arith)
  wait-ne-waiting n (suc rounds) tr d low h = elim (Bool-cases (w.aborted tr)) [
    | inl stop ↦ rw (stop, wait_for_approval) (λ e. cc)
    | inr go ↦
        rw (go, wait_for_approval)
          (elim (dec_lt (polls tr) n) [
            | yes more ↦
                after_poll-ne-waiting (w.poll tr) (wait_for_approval rounds w task) (polled ∷ tr)
                  (λ tr' same. wait-ne-waiting n rounds tr' d (omega arith) (omega arith))
            | no last ↦
                decided-ne-waiting (w.poll tr) (wait_for_approval rounds w task) (polled ∷ tr)
                  (elim (d tr (omega arith)) [ inl stop ↦ absurd (cc) | inr now ↦ now ])
          ])
  ]

  executions-mark_steps :
      (status : StepRunStatus) (steps : List String) (tr : Trace)
      → executions (mark_steps task status steps tr) ≡ executions tr
  unfolding mark_steps
  executions-mark_steps status [] tr = refl
  executions-mark_steps status (step ∷ steps) tr =
      executions-mark_steps status steps (reported (step_report task step status) ∷ tr)

  executions-cancel_task :
      (steps : List String) (tr : Trace)
      → executions (cancel_task w task steps tr).1 ≡ executions tr
  unfolding cancel_task
  executions-cancel_task steps tr =
      executions-mark_steps StepRunStatus.cancelled steps (logged warn task ∷ tr)

  pub skip_steps_quiet :
      (steps : List StepConfig) (tr : Trace)
      → ((skip_steps w task steps tr).0 ≡ return tt)
        × (executions (skip_steps w task steps tr).1 ≡ executions tr)
  unfolding skip_steps
  skip_steps_quiet [] tr = (refl, refl)
  skip_steps_quiet (step ∷ steps) tr =
      skip_steps_quiet steps
        (reported (step_report task step.name StepRunStatus.skipped) ∷ logged warn step.name ∷ tr)

  executions-reject_task :
      (steps : List StepConfig) (tr : Trace)
      → executions (reject_task w task steps tr).1 ≡ executions tr
  unfolding reject_task
  executions-reject_task steps tr =
      let k = skip_steps_quiet steps (logged error task ∷ tr) in rw k.0 k.1

  executions-after_poll :
      (p : Poll) (next : Action ApprovalOutcome) (tr : Trace)
      → ((tr' : Trace) → executions (next tr').1 ≡ executions tr')
      → executions (after_poll task p next tr).1 ≡ executions tr
  unfolding after_poll
  executions-after_poll approve next tr h = refl
  executions-after_poll reject next tr h = refl
  executions-after_poll undecided next tr h = h (slept ∷ tr)
  executions-after_poll unreachable next tr h = h (slept ∷ logged warn task ∷ tr)

  executions-wait :
      (rounds : ℕ) (tr : Trace) → executions (wait_for_approval rounds w task tr).1 ≡ executions tr
  unfolding wait_for_approval
  executions-wait zero tr = refl
  executions-wait (suc rounds) tr = elim (Bool-cases (w.aborted tr)) [
    | inl stop ↦ rw (stop, wait_for_approval) refl
    | inr go ↦
        rw (go, wait_for_approval)
          (executions-after_poll (w.poll tr) (wait_for_approval rounds w task) (polled ∷ tr)
            (executions-wait rounds))
  ]

  executions-after_gate :
      (config : TaskConfig) (r : Result ApprovalOutcome) (tr : Trace)
      → (and_then r (log_gate w task) tr).0 ≢ return approved
      → executions
          (and_then
            (and_then r (log_gate w task) tr).0
            (after_gate w task config)
            (and_then r (log_gate w task) tr).1).1
        ≡ executions tr
  executions-after_gate config (return approved) tr h = absurd (h refl)
  executions-after_gate config (return rejected) tr h = executions-reject_task config.steps tr
  executions-after_gate config (return ApprovalOutcome.cancelled) tr h =
      executions-cancel_task (step_names config.steps) tr
  executions-after_gate config thrown tr h = refl
  executions-after_gate config waiting tr h = refl

-- If after `n` polls a reviewer has decided or the run is cancelled, then `waitForApproval` returns
-- within `n + 1` rounds from a trace without polls.
pub wait_for_approval_returns :
    (w : World) (task : String) (n rounds : ℕ) (tr : Trace)
    → Decides n w
    → polls tr ≡ 0
    → n < rounds
    → (o : ApprovalOutcome) × ((wait_for_approval rounds w task tr).0 ≡ return o)
wait_for_approval_returns w task n rounds tr d none_yet h =
    returns (wait_for_approval rounds w task tr).0 (wait-ne-thrown w task rounds tr)
      (wait-ne-waiting w task n rounds tr d (omega arith) (omega arith))
  where
    returns :
        (r : Result ApprovalOutcome)
        → r ≢ thrown
        → r ≢ waiting
        → (o : ApprovalOutcome) × (r ≡ return o)
    returns (return o) a b = (o, refl)
    returns thrown a b = absurd (a refl)
    returns waiting a b = absurd (b refl)

-- A task that requires approval, and whose gate does not return `approved`, starts no step.
pub execute_task_unapproved :
    (w : World) (rounds : ℕ) (task : String) (config : TaskConfig) (tr : Trace)
    → config.approval_required ≡ true
    → (pass_approval_gate w rounds task tr).0 ≢ return approved
    → executions (execute_task w rounds task config tr).1 ≡ executions tr
unfolding execute_task pass_approval_gate
execute_task_unapproved w rounds task config tr gated h =
    let start =
      logged info task ∷ reported (task_report task TaskRunStatus.awaiting_approval) ∷ tr in
    let r = wait_for_approval rounds w task start in
    rw gated (executions-after_gate w task config r.0 r.1 h ∙ executions-wait w task rounds start)
