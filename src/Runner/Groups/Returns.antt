-- ===== src/Runner/Groups/Returns.antt =====
-- `executeGroups` (pipeline-executor.ts, lines 208 to 249) on a plan of `resolveDAG`.
use dev_ops_deployment_tool.Common.{
  none, ℕ, ◌≡◌, SameNames, ◌⊎◌, ◌<◌, refl, String, Bool, true, false, not, ◌||◌, List, [], ◌∷◌,
  some, count, Distinct, Bool-cases, inl, inr, arith,
}
use mathlib.Core.Path.{subst}
use dev_ops_deployment_tool.Dag.Graph.{names}
use dev_ops_deployment_tool.Dag.Validate.{keep}
use dev_ops_deployment_tool.Dag.Resolve.{DagResult, resolved, resolve_dag}
use dev_ops_deployment_tool.Dag.Order.{concat}
use dev_ops_deployment_tool.Dag.Accept.{resolve_dag_sound}
use dev_ops_deployment_tool.Runner.Effects.{Trace, return}
use dev_ops_deployment_tool.Runner.Task.{step_names}
use dev_ops_deployment_tool.Runner.Task.Waiting.{Decides}
use dev_ops_deployment_tool.Runner.Task.Returns.{execute_task_returns}
use dev_ops_deployment_tool.Runner.Groups.{
  TaskMap, config_of, dag_input, Settlement, ran, Outcomes, outcome_of, set_all, skip_all, blocked,
  Schedule, run_parallel, execute_group, walk_groups, finish_groups, execute_groups,
}
use dev_ops_deployment_tool.Runner.Groups.Gating.{IsGated, WalkEnd, plan-WalkEnd}

-- Every gate that the run meets is decided after at most `n` polls.
abbrev pub AllDecide : ℕ → Schedule → Type 0
AllDecide n s = (start : Trace) (name : String) → Decides n (s.world start name)

-- No task has two steps of one name.
abbrev pub HasDistinctSteps : TaskMap → Type 0
HasDistinctSteps tasks = (name : String) → Distinct (step_names (config_of tasks name).steps)

module _ (s : Schedule) (n rounds : ℕ) (tasks : TaskMap) (once : HasDistinctSteps tasks)
    (d : AllDecide n s) (h : n < rounds) where
  run_parallel_returns :
      (start : Trace) (ns : List String)
      → (rs : Outcomes) × ((run_parallel s rounds tasks start ns).0 ≡ return rs)
  unfolding run_parallel
  run_parallel_returns start [] = ([], refl)
  run_parallel_returns start (name ∷ ns) =
      let (o, e) =
        execute_task_returns (s.world start name) n rounds name (config_of tasks name) (once name)
          (d start name) h in
      let (rs, e') = run_parallel_returns start ns in ((name, ran o) ∷ rs, rw (e, e') refl)

  execute_group_returns :
      (group : List String) (os : Outcomes) (start : Trace)
      → (os' : Outcomes) × ((execute_group s rounds tasks group os start).0 ≡ return os')
  unfolding execute_group
  execute_group_returns group os start =
      let (os1, tr1) = skip_all tasks (keep (blocked tasks os) group) os start in
      let (rs, e) = run_parallel_returns tr1 (keep (λ x. not (blocked tasks os1 x)) group) in
      (set_all rs os1, rw e refl)

  walk_groups_returns :
      (groups : List (List String)) (os : Outcomes) (start : Trace)
      → (c : Bool) × (os' : Outcomes) × ((walk_groups s rounds tasks groups os start).0
          ≡ return (c, os'))
  unfolding walk_groups
  walk_groups_returns [] os start = (false, os, refl)
  walk_groups_returns (g ∷ gs) os start = elim (Bool-cases (s.check start)) [
    | inl stop ↦ (true, os, rw (stop, walk_groups) refl)
    | inr go ↦
        let (os', e) = execute_group_returns g os start in
        let (c, os'', e') =
          walk_groups_returns gs os' (execute_group s rounds tasks g os start).1 in
        (c, os'', rw (go, walk_groups, e) e')
  ]

-- Unless the run is cancelled, every listed task has an outcome.
abbrev pub IsComplete : List String → Bool → Outcomes → Type 0
IsComplete ns stopped os =
    (stopped ≡ true)
    ⊎ ((x : String) → 0 < count x ns → (o : Settlement) × (outcome_of os x ≡ some o))

-- No other task has one.
abbrev pub IsConfined : List String → Outcomes → Type 0
IsConfined ns os = (x : String) → count x ns ≡ 0 → outcome_of os x ≡ none

finish_lem :
    (s : Schedule) (rounds : ℕ) (tasks : TaskMap) (groups : List (List String)) (ns : List String)
    (stopped : Bool) (os : Outcomes) (start : Trace)
    → SameNames (concat groups) ns
    → WalkEnd tasks (concat groups) (return (stopped, os))
    → (c : Bool) × ((finish_groups s rounds tasks groups (stopped, os) start).0 ≡ return (c, os))
      × IsComplete ns c os
unfolding finish_groups
finish_lem s rounds tasks groups ns stopped os start same e =
    elim (Bool-cases (stopped || s.cancelled start)) [
      | inl c ↦ (true, rw c refl, inl refl)
      | inr c ↦ (false, rw c refl, inr (λ x m. e.1 x (omega (arith, same x)) (ground (arith, c))))
    ]

-- For a plan that `resolveDAG` returns, distinct step names, and gates that are decided after at most
-- `n` polls when each may take more than `n` rounds: `executeGroups` returns; every task that it ran
-- has all of its dependencies succeeded, every task that it skipped has a dependency that did not
-- succeed, unless the run is cancelled every task has an outcome, and nothing else has one.
pub execute_groups-IsGated :
    (s : Schedule) (n rounds : ℕ) (tasks : TaskMap) (r : DagResult) (start : Trace)
    → Distinct (names (dag_input tasks))
    → resolve_dag (dag_input tasks) ≡ some (resolved r)
    → HasDistinctSteps tasks
    → AllDecide n s
    → n < rounds
    → (c : Bool) × (os : Outcomes) × ((execute_groups s rounds tasks r.groups start).0
        ≡ return (c, os))
      × IsGated tasks os
      × IsComplete (names (dag_input tasks)) c os
      × IsConfined (names (dag_input tasks)) os
unfolding execute_groups
execute_groups-IsGated s n rounds tasks r start known plan once d h =
    let (same, flat, layered) = resolve_dag_sound (dag_input tasks) r known plan in
    let placed : SameNames (concat r.groups) (names (dag_input tasks)) = rw flat same in
    let (stopped, os, e) = walk_groups_returns s n rounds tasks once d h r.groups [] start in
    let walked : WalkEnd tasks (concat r.groups) (return (stopped, os)) =
      subst (WalkEnd tasks (concat r.groups)) e (
        plan-WalkEnd tasks s rounds r.groups start layered
          (λ x. omega (arith, placed x, known x))) in
    let (c, e', complete) =
      finish_lem s rounds tasks r.groups (names (dag_input tasks)) stopped os
        (walk_groups s rounds tasks r.groups [] start).1 placed walked in
    (c, os, rw e e', walked.0, complete, λ x m. walked.2 x (omega (arith, placed x)))
