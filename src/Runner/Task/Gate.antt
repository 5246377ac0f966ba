-- ===== src/Runner/Task/Gate.antt =====
-- The approval gate (approval-gate.ts and `passApprovalGate` of task-executor.ts).
use dev_ops_deployment_tool.Common.{
  ℕ, zero, suc, ◌≡◌, ◌≢◌, ◌∙◌, refl, String, ◌∷◌, eq_refl, Distinct, Bool-cases, inl, inr,
}
use dev_ops_deployment_tool.Status.Task.{TaskRunStatus, validate_task_transition}
use dev_ops_deployment_tool.Runner.Effects.{
  TaskConfig, info, logged, reported, task_report, polled, slept, warn, Action, Trace, Poll,
  approve, reject, undecided, unreachable, World, thrown,
}
use dev_ops_deployment_tool.Runner.Approval.{ApprovalOutcome, after_poll, wait_for_approval}
use dev_ops_deployment_tool.Runner.Protocol.{task_state, step_state, IsLegal}
use dev_ops_deployment_tool.Runner.Task.{step_names, pass_approval_gate, execute_task}
use dev_ops_deployment_tool.Runner.Task.Legal.{TaskEnd, start_task-TaskEnd, after_gate-TaskEnd}
use dev_ops_deployment_tool.Runner.Task.Steps.{IsPending}

-- The events between two traces are no reports.
pub record IsQuiet (tr tr' : Trace) : Type 0 where
  pub legal : IsLegal tr → IsLegal tr'
  pub tasks : (t : String) → task_state t tr' ≡ task_state t tr
  pub steps : (t s : String) → step_state t s tr' ≡ step_state t s tr

IsQuiet-trans : {tr tr' tr'' : Trace} → IsQuiet tr tr' → IsQuiet tr' tr'' → IsQuiet tr tr''
IsQuiet-trans a b = record {
  legal = λ l. b.legal (a.legal l);
  tasks = λ t. b.tasks t ∙ a.tasks t;
  steps = λ t s. b.steps t s ∙ a.steps t s;
}

IsQuiet-log : (tr : Trace) (task : String) → IsQuiet tr (logged info task ∷ tr)
IsQuiet-log tr task = record { legal = λ l. (tt, l); tasks = λ t. refl; steps = λ t s. refl }

module _ (w : World) (task : String) where
  after_poll-IsQuiet :
      (p : Poll) (next : Action ApprovalOutcome) (tr : Trace)
      → ((tr' : Trace) → IsQuiet tr' (next tr').1)
      → IsQuiet tr (after_poll task p next tr).1
  unfolding after_poll
  after_poll-IsQuiet approve next tr h = record {
    legal = λ l. l;
    tasks = λ t. refl;
    steps = λ t s. refl;
  }
  after_poll-IsQuiet reject next tr h = record {
    legal = λ l. l;
    tasks = λ t. refl;
    steps = λ t s. refl;
  }
  after_poll-IsQuiet undecided next tr h =
      let q = h (slept ∷ tr) in
      record { legal = λ l. q.legal (tt, l); tasks = q.tasks; steps = q.steps }
  after_poll-IsQuiet unreachable next tr h =
      let q = h (slept ∷ logged warn task ∷ tr) in
      record { legal = λ l. q.legal (tt, (tt, l)); tasks = q.tasks; steps = q.steps }

  pub wait-IsQuiet : (rounds : ℕ) (tr : Trace) → IsQuiet tr (wait_for_approval rounds w task tr).1
  unfolding wait_for_approval
  wait-IsQuiet zero tr = record { legal = λ l. l; tasks = λ t. refl; steps = λ t s. refl }
  wait-IsQuiet (suc rounds) tr = elim (Bool-cases (w.aborted tr)) [
    | inl stop ↦
        rw (stop, wait_for_approval)
          (record { legal = λ l. l; tasks = λ t. refl; steps = λ t s. refl })
    | inr go ↦
        let q =
          after_poll-IsQuiet (w.poll tr) (wait_for_approval rounds w task) (polled ∷ tr)
            (wait-IsQuiet rounds) in
        rw (go, wait_for_approval)
          (record { legal = λ l. q.legal (tt, l); tasks = q.tasks; steps = q.steps })
  ]

  after_poll-ne-thrown :
      (p : Poll) (next : Action ApprovalOutcome) (tr : Trace)
      → ((tr' : Trace) → (next tr').0 ≢ thrown)
      → (after_poll task p next tr).0 ≢ thrown
  unfolding after_poll
  after_poll-ne-thrown approve next tr h = λ e. cc
  after_poll-ne-thrown reject next tr h = λ e. cc
  after_poll-ne-thrown undecided next tr h = h (slept ∷ tr)
  after_poll-ne-thrown unreachable next tr h = h (slept ∷ logged warn task ∷ tr)

  -- Waiting never throws: a failed request is tried again.
  pub wait-ne-thrown : (rounds : ℕ) (tr : Trace) → (wait_for_approval rounds w task tr).0 ≢ thrown
  unfolding wait_for_approval
  wait-ne-thrown zero tr = λ e. cc
  wait-ne-thrown (suc rounds) tr = elim (Bool-cases (w.aborted tr)) [
    | inl stop ↦ rw (stop, wait_for_approval) (λ e. cc)
    | inr go ↦
        rw (go, wait_for_approval)
          (after_poll-ne-thrown (w.poll tr) (wait_for_approval rounds w task) (polled ∷ tr)
            (wait-ne-thrown rounds))
  ]

-- What `executeTask` sends, each report read against the one before it that was sent for the same task
-- or step.
pub execute_task-TaskEnd :
    (w : World) (rounds : ℕ) (task : String) (config : TaskConfig) (tr : Trace)
    → Distinct (step_names config.steps)
    → IsLegal tr
    → task_state task tr ≡ TaskRunStatus.pending
    → IsPending w task (step_names config.steps) tr
    → TaskEnd w task (execute_task w rounds task config tr)
unfolding execute_task pass_approval_gate validate_task_transition
execute_task-TaskEnd w rounds task config tr once l t p =
    elim (Bool-cases config.approval_required) [
      | inl gated ↦
          let start =
            logged info task ∷ reported (task_report task TaskRunStatus.awaiting_approval) ∷ tr in
          let q = wait-IsQuiet w task rounds start in
          let tr' = (wait_for_approval rounds w task start).1 in
          rw gated (
            after_gate-TaskEnd w task config (wait_for_approval rounds w task start).0 tr' once
              (λ s m. q.steps task s ∙ p s m) (q.legal (tt, (rw t refl, l)))
              (q.tasks task ∙ rw eq_refl refl) (wait-ne-thrown w task rounds start))
      | inr free ↦ rw free (start_task-TaskEnd w task config tr once p l (rw t refl))
    ]
