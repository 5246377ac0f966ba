-- ===== src/Runner/Groups/Samples.antt =====
-- A pipeline of three tasks, the second of which fails.
use dev_ops_deployment_tool.Common.{
  ◌≡◌, refl, String, Bool, true, false, List, [], ◌∷◌, none, some, str_eq, if◌then◌else◌, Distinct,
  includes, all_distinct-Distinct, inl, inr, arith,
}
use dev_ops_deployment_tool.Dag.Graph.{names}
use dev_ops_deployment_tool.Dag.Degrees.{initial_degrees}
use dev_ops_deployment_tool.Dag.Validate.{validate_dag}
use dev_ops_deployment_tool.Dag.Resolve.{DagResult, resolved, resolve_dag}
use dev_ops_deployment_tool.Runner.Effects.{
  StepConfig, TaskConfig, approve, World, finished, return,
}
use dev_ops_deployment_tool.Runner.Task.{success, failed}
use dev_ops_deployment_tool.Runner.Groups.{
  TaskMap, config_of, dag_input, ran, skipped, Outcomes, Schedule, execute_groups,
}
use dev_ops_deployment_tool.Runner.Groups.Gating.{IsGated}
use dev_ops_deployment_tool.Runner.Groups.Returns.{
  HasDistinctSteps, IsComplete, IsConfined, execute_groups-IsGated,
}

abbrev step : String → StepConfig
step name = record { name = name; command = name; image = none; env = []; timeout_seconds = none }

abbrev task : List String → String → TaskConfig
task ds name = record {
  depends_on = ds;
  approval_required = false;
  steps = step name ∷ [];
  deploy = false;
  artifacts = [];
}

abbrev pub chain : TaskMap
chain =
    ("build", task [] "make")
    ∷ ("test", task ("build" ∷ []) "false")
    ∷ ("deploy", task ("test" ∷ []) "push")
    ∷ []

-- Every step but `false` exits with 0.
abbrev shell : World
shell = record {
  aborted = λ tr. false;
  accepts = λ tr r. true;
  poll = λ tr. approve;
  execute_step = λ tr s. finished false false (if str_eq s.command "false" then 1 else 0);
  upload = λ tr ps. true;
  deployment = λ tr. some true;
  docker_available = true;
}

abbrev pub in_turn : Schedule
in_turn = record {
  check = λ tr. false;
  world = λ tr name. shell;
  order = λ tr name. true ∷ [];
  cancelled = λ tr. false;
}

abbrev pub chain_plan : DagResult
chain_plan = record {
  groups = ("build" ∷ []) ∷ ("test" ∷ []) ∷ ("deploy" ∷ []) ∷ [];
  order = "build" ∷ "test" ∷ "deploy" ∷ [];
}

pub resolve_dag-chain : resolve_dag (dag_input chain) ≡ some (resolved chain_plan)
unfolding dag_input resolve_dag validate_dag names initial_degrees
resolve_dag-chain = refl

execute_groups-chain :
    (execute_groups in_turn 1 chain chain_plan.groups []).0
    ≡ return (false, ("deploy", skipped) ∷ ("test", ran failed) ∷ ("build", ran success) ∷ [])
unfolding execute_groups
execute_groups-chain = refl

pub chain-Distinct : Distinct (names (dag_input chain))
unfolding dag_input names includes
chain-Distinct = all_distinct-Distinct (names (dag_input chain)) refl

pub chain-HasDistinctSteps : HasDistinctSteps chain
unfolding config_of
chain-HasDistinctSteps name x = ground arith

execute_groups-IsGated_example :
    (c : Bool) × (os : Outcomes) × ((execute_groups in_turn 1 chain chain_plan.groups []).0
      ≡ return (c, os))
    × IsGated chain os
    × IsComplete (names (dag_input chain)) c os
    × IsConfined (names (dag_input chain)) os
execute_groups-IsGated_example =
    execute_groups-IsGated in_turn 0 1 chain chain_plan [] chain-Distinct resolve_dag-chain
      chain-HasDistinctSteps (λ start name tr m. inr (inl refl)) (omega arith)
