-- ===== src/Dag/Samples.antt =====
-- Runs of dag.ts at concrete graphs.
use dev_ops_deployment_tool.Common.{
  ◌≡◌, ◌⊎◌, ◌↔◌, ◌<◌, refl, String, List, [], ◌∷◌, none, some, includes, Distinct, SameNames,
  all_distinct-Distinct, arith, count,
}
use dev_ops_deployment_tool.Dag.Graph.{DagInput, Tasks, names, dependencies, IsDag, IsRepeatFree}
use dev_ops_deployment_tool.Dag.Degrees.{initial_degrees}
use dev_ops_deployment_tool.Dag.Validate.{DagError, missing, self, cycle, validate_dag}
use dev_ops_deployment_tool.Dag.Resolve.{DagResult, resolved, invalid, resolve_valid, resolve_dag}
use dev_ops_deployment_tool.Dag.Order.{IsLayered, concat}
use dev_ops_deployment_tool.Dag.Accept.{
  validate_dag_iff, resolve_dag_sound, resolve_dag_total, repeated_dependency,
}

abbrev pub root : DagInput
root = record { depends_on = none }

abbrev pub after : List String → DagInput
after ds = record { depends_on = some ds }

-- `deploy` waits for `test` and `lint`, which wait for `build`.
abbrev pub diamond : Tasks
diamond =
    ("test", after ("build" ∷ []))
    ∷ ("deploy", after ("test" ∷ "lint" ∷ []))
    ∷ ("lint", after ("build" ∷ []))
    ∷ ("build", root)
    ∷ []

pub resolve_dag-diamond :
    resolve_dag diamond
    ≡ some (
        resolved (record {
          groups = ("build" ∷ []) ∷ ("lint" ∷ "test" ∷ []) ∷ ("deploy" ∷ []) ∷ [];
          order = "build" ∷ "lint" ∷ "test" ∷ "deploy" ∷ [];
        }))
unfolding resolve_dag validate_dag names initial_degrees
resolve_dag-diamond = refl

validate_dag_missing :
    validate_dag (("a", after ("b" ∷ "a" ∷ [])) ∷ []) ≡ some (missing "a" "b" ∷ self "a" ∷ [])
unfolding validate_dag names initial_degrees
validate_dag_missing = refl

validate_dag_cycle :
    validate_dag (("a", after ("b" ∷ [])) ∷ ("b", after ("a" ∷ [])) ∷ ("c", root) ∷ [])
    ≡ some (cycle ("a" ∷ "b" ∷ []) ∷ [])
unfolding validate_dag names initial_degrees
validate_dag_cycle = refl

diamond-Distinct : Distinct (names diamond)
unfolding names includes
diamond-Distinct = all_distinct-Distinct (names diamond) refl

validate_dag_iff_example : (validate_dag diamond ≡ some []) ↔ (IsDag diamond × IsRepeatFree diamond)
validate_dag_iff_example = validate_dag_iff diamond diamond-Distinct

abbrev diamond_plan : DagResult
diamond_plan = record {
  groups = ("build" ∷ []) ∷ ("lint" ∷ "test" ∷ []) ∷ ("deploy" ∷ []) ∷ [];
  order = "build" ∷ "lint" ∷ "test" ∷ "deploy" ∷ [];
}

resolve_dag_sound_example :
    SameNames diamond_plan.order (names diamond)
    × (concat diamond_plan.groups ≡ diamond_plan.order)
    × IsLayered diamond [] diamond_plan.groups
resolve_dag_sound_example =
    resolve_dag_sound diamond diamond_plan diamond-Distinct resolve_dag-diamond

resolve_dag_total_example :
    ((r : DagResult) × (validate_dag diamond ≡ some []) × (resolve_dag diamond ≡ some (resolved r)))
    ⊎ ((e : DagError) × (es : List DagError) × (validate_dag diamond ≡ some (e ∷ es))
        × (resolve_dag diamond ≡ some (invalid (e ∷ es))))
resolve_dag_total_example = resolve_dag_total diamond diamond-Distinct

-- `b` lists `a` twice.
abbrev doubled : Tasks
doubled = ("a", root) ∷ ("b", after ("a" ∷ "a" ∷ [])) ∷ []

doubled-Distinct : Distinct (names doubled)
unfolding names includes
doubled-Distinct = all_distinct-Distinct (names doubled) refl

doubled-IsDag : IsDag doubled
unfolding names dependencies
doubled-IsDag =
    ("a" ∷ "b" ∷ [], λ x. refl, (λ d m. absurd (omega arith), (λ d m. ground arith, tt)))

doubled_known : 0 < count "b" (names doubled)
unfolding names
doubled_known = omega arith

doubled_twice : 1 < count "a" (dependencies doubled "b")
unfolding dependencies
doubled_twice = omega arith

repeated_dependency_example :
    ((nodes : List String) × (validate_dag doubled ≡ some (cycle nodes ∷ [])))
    × ((r : DagResult) × (resolve_valid doubled ≡ some (resolved r)))
repeated_dependency_example =
    repeated_dependency doubled "b" "a" doubled-Distinct doubled-IsDag doubled_known doubled_twice
