-- ===== src/Runner/Samples.antt =====
-- A task with an approval gate, approved and rejected.
use dev_ops_deployment_tool.Common.{
  Bool, ◌≡◌, ◌≢◌, refl, String, true, false, [], ◌∷◌, none, some, leb, if◌then◌else◌, Distinct,
  all_distinct-Distinct, arith, inl, inr, includes,
}
use dev_ops_deployment_tool.Runner.Effects.{
  Trace, Report, StepConfig, TaskConfig, approve, reject, undecided, World, finished, return,
}
use dev_ops_deployment_tool.Runner.Approval.{ApprovalOutcome, approved, wait_for_approval}
use dev_ops_deployment_tool.Runner.Task.{
  TaskOutcome, success, step_names, pass_approval_gate, execute_task,
}
use dev_ops_deployment_tool.Runner.Task.Returns.{execute_task_returns}
use dev_ops_deployment_tool.Runner.Task.Received.{Received, execute_task-Received}
use dev_ops_deployment_tool.Runner.Task.Waiting.{
  polls, executions, Decides, wait_for_approval_returns, execute_task_unapproved,
}

abbrev step : String → StepConfig
step name = record { name = name; command = "make"; image = none; env = []; timeout_seconds = none }

abbrev pub release : TaskConfig
release = record {
  depends_on = [];
  approval_required = true;
  steps = step "build" ∷ step "push" ∷ [];
  deploy = true;
  artifacts = [];
}

-- The second poll is answered by an approval, every step exits with 0 and the deployment succeeds.
abbrev pub calm : World
calm = record {
  aborted = λ tr. false;
  accepts = λ tr r. true;
  poll = λ tr. if leb 1 (polls tr) then approve else undecided;
  execute_step = λ tr s. finished false false 0;
  upload = λ tr ps. true;
  deployment = λ tr. some true;
  docker_available = true;
}

abbrev pub strict : World
strict = record calm { poll = λ tr. reject }

execute_task-calm : (execute_task calm 5 "release" release []).0 ≡ return success
unfolding execute_task
execute_task-calm = refl

release-Distinct : Distinct (step_names release.steps)
unfolding includes
release-Distinct = all_distinct-Distinct (step_names release.steps) refl

-- Every report gets through.
abbrev all_reach : Trace → Report → Bool
all_reach tr r = true

execute_task-Received_example :
    Received all_reach "release" (execute_task calm 5 "release" release [])
execute_task-Received_example =
    execute_task-Received all_reach calm 5 "release" release (λ tr r. refl) release-Distinct

calm-Decides : Decides 1 calm
calm-Decides tr h = inr (inl (ground arith))

wait_for_approval_returns_example :
    (o : ApprovalOutcome) × ((wait_for_approval 2 calm "release" []).0 ≡ return o)
wait_for_approval_returns_example =
    wait_for_approval_returns calm "release" 1 2 [] calm-Decides refl (omega arith)

strict_rejects : (pass_approval_gate strict 5 "release" []).0 ≢ return approved
unfolding pass_approval_gate
strict_rejects e = cc

execute_task_unapproved_example : executions (execute_task strict 5 "release" release []).1 ≡ 0
execute_task_unapproved_example =
    execute_task_unapproved strict 5 "release" release [] refl strict_rejects

execute_task_returns_example :
    (o : TaskOutcome) × ((execute_task calm 2 "release" release []).0 ≡ return o)
execute_task_returns_example =
    execute_task_returns calm 1 2 "release" release release-Distinct calm-Decides (omega arith)
