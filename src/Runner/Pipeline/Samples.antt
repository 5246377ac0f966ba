-- ===== src/Runner/Pipeline/Samples.antt =====
-- The run of the three tasks of `Runner.Groups.Samples`.
use dev_ops_deployment_tool.Common.{◌≡◌, ◌||◌, refl, Bool, true, false, [], inl, inr, arith}
use dev_ops_deployment_tool.Dag.Graph.{names}
use dev_ops_deployment_tool.Runner.Effects.{return}
use dev_ops_deployment_tool.Runner.Groups.{dag_input, Outcomes}
use dev_ops_deployment_tool.Runner.Groups.Samples.{
  chain, chain_plan, in_turn, resolve_dag-chain, chain-Distinct, chain-HasDistinctSteps,
}
use dev_ops_deployment_tool.Runner.Pipeline.{RunWorld, execute_pipeline}
use dev_ops_deployment_tool.Runner.Pipeline.Verdict.{
  IsReachable, Verdict, groups_run, execute_pipeline-Verdict,
}

abbrev office : RunWorld
office = record {
  schedule = in_turn;
  workspace = λ tr. true;
  accepts = λ tr r. true;
  cancelled_late = λ tr. false;
}

office-IsReachable : IsReachable office
office-IsReachable = record { accepted = λ tr r. refl; ready = λ tr. refl }

execute_pipeline-Verdict_example :
    (c : Bool) × (os : Outcomes) × ((groups_run office 1 chain chain_plan []).0 ≡ return (c, os))
    × ((execute_pipeline office 1 chain []).0 ≡ return tt)
    × Verdict
        (names (dag_input chain))
        (c || office.cancelled_late (groups_run office 1 chain chain_plan []).1)
        os
        (groups_run office 1 chain chain_plan []).1
        (execute_pipeline office 1 chain []).1
execute_pipeline-Verdict_example =
    execute_pipeline-Verdict office 0 1 chain chain_plan [] office-IsReachable chain-Distinct
      resolve_dag-chain chain-HasDistinctSteps (λ start name tr m. inr (inl refl)) (omega arith)
      (omega arith)
