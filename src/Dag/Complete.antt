-- ===== src/Dag/Complete.antt =====
-- When dag.ts accepts a graph: `validateDAG` finds no error exactly for the graphs without a cycle, a
-- dangling reference or a repeated dependency, and `resolveDAG` then returns a plan.
use dev_ops_deployment_tool.Common.{
  ◌<◌, ◌≡◌, refl, String, List, [], ◌∷◌, ◌++◌, some, length, count, count-append, Distinct,
  SameNames, eq_iff, eq_refl, arith,
}
use dev_ops_deployment_tool.Dag.Graph.{Tasks, names, IsSettled, IsTopological, IsDag}
use dev_ops_deployment_tool.Dag.Degrees.{Degrees, is_zero, initial_degrees}
use dev_ops_deployment_tool.Dag.Validate.{keep, drain}
use dev_ops_deployment_tool.Dag.Resolve.{DagResult, add_tasks, build_groups, empty}
use dev_ops_deployment_tool.Dag.Sweep.{hits}
use dev_ops_deployment_tool.Dag.Kahn.{removed, IsGraph, Inv, count-keep}
use dev_ops_deployment_tool.Dag.Counts.{start_degree, initial_degrees_lem}
use dev_ops_deployment_tool.Dag.Order.{IsPlan, build_groups_total}
use dev_ops_deployment_tool.Dag.Drain.{IsDrained, drain_total}

-- The queue or first group: the tasks of degree 0.
abbrev pub ready : Tasks → List String
ready tasks = keep (λ x. is_zero (initial_degrees tasks x)) (names tasks)

pub ready-Inv :
    (tasks : Tasks) (hits : String → List String)
    → Inv (names tasks) (start_degree tasks) hits [] (ready tasks) (initial_degrees tasks)
ready-Inv tasks hits = record {
  degrees = λ x known. ground (arith, initial_degrees_lem tasks x known);
  places = λ x. ground (
    arith,
    initial_degrees_lem tasks x,
    count-keep (λ y. is_zero (initial_degrees tasks y)) x (names tasks),
  );
}

module _ (tasks : Tasks) (h : Distinct (names tasks)) where
  module _ {hits : String → List String} (g : IsGraph (names tasks) (start_degree tasks) hits)
      (done : List String) (deg : Degrees)
      (i : Inv (names tasks) (start_degree tasks) hits done [] deg)
      (reached : (x : String)
        → 0 < count x (names tasks)
        → IsSettled tasks done x
        → start_degree tasks x ≡ removed hits done x) where
    -- With nothing waiting, every task of a topological order has been removed.
    all_done :
        (xs seen : List String) (x : String)
        → IsTopological tasks seen xs
        → ((y : String) → 0 < count y seen → 0 < count y done)
        → ((y : String) → 0 < count y xs → 0 < count y (names tasks))
        → 0 < count x xs
        → 0 < count x done
    all_done [] seen x t old known m = omega arith
    all_done (y ∷ ys) seen x t old known m =
        let here : 0 < count y (names tasks) = known y (ground (arith, eq_refl y)) in
        let placed : 0 < count y done =
          ground (arith, i.places y, reached y here (λ d listed. old d (t.0 d listed))) in
        ground (
          arith,
          eq_iff y x,
          all_done ys (seen ++ y ∷ []) x t.1
              (λ z now. ground (arith, eq_iff y z, old z, count-append z seen (y ∷ [])))
              (λ z later. known z (omega arith)),
        )

    pub done-SameNames : IsDag tasks → SameNames done (names tasks)
    done-SameNames (plan, same, ordered) x = ground (
      arith,
      same x,
      h x,
      i.places x,
      all_done plan [] x ordered (λ y now. omega arith) (λ y now. omega (arith, same y)),
    )

  pub validate_finishes :
      (done : List String) × (deg : Degrees) × (drain
          (length (names tasks))
          tasks
          (ready tasks)
          (initial_degrees tasks)
          0
        ≡ some (length done, deg))
      × IsDrained tasks h done deg
  validate_finishes =
      drain_total tasks h (length (names tasks)) (ready tasks) (initial_degrees tasks) 0 [] refl
        (omega arith) (ready-Inv tasks (hits tasks)) tt

  pub resolve_finishes :
      (r : DagResult) × (build_groups
          (length (names tasks))
          (add_tasks tasks (λ _. []))
          (ready tasks)
          (initial_degrees tasks)
          empty
        ≡ some r)
      × IsPlan tasks h r
  resolve_finishes =
      build_groups_total tasks h (length (names tasks)) (ready tasks) (initial_degrees tasks) empty
        (omega arith) (ready-Inv tasks (add_tasks tasks (λ _. []))) tt refl
