-- ===== src/Dag/References.antt =====
-- The first loop of `validateDAG` (dag.ts, lines 106 to 118): a graph with a topological order has no
-- dangling reference and no task that depends on itself.
use dev_ops_deployment_tool.Common.{
  ◌+◌, ◌≤◌, ◌<◌, ◌≡◌, refl, String, true, false, List, [], ◌∷◌, ◌++◌, str_eq, eq_iff, eq_refl,
  includes, not_includes-count, count, count-append, Distinct, arith,
}
use dev_ops_deployment_tool.Dag.Graph.{Tasks, deps, names, dependencies, IsTopological, IsDag}
use dev_ops_deployment_tool.Dag.Validate.{check_deps, reference_errors}
use dev_ops_deployment_tool.Dag.Counts.{Distinct-tail, head-absent, dependencies_absent}

check_deps_nil :
    (known : List String) (name : String) (ds : List String)
    → ((d : String) → 0 < count d ds → (includes known d ≡ true) × (str_eq d name ≡ false))
    → check_deps known name ds ≡ []
unfolding check_deps
check_deps_nil known name [] h = refl
check_deps_nil known name (d ∷ ds) h =
    ground (arith, eq_refl d, h d, check_deps_nil known name ds (λ e m. h e (omega arith)))

pub reference_errors_nil :
    (known : List String) (tasks : Tasks)
    → Distinct (names tasks)
    → ((x d : String)
        → 0 < count d (dependencies tasks x)
        → (includes known d ≡ true) × (str_eq d x ≡ false))
    → reference_errors known tasks ≡ []
unfolding reference_errors names dependencies
reference_errors_nil known [] once h = refl
reference_errors_nil known ((n, t) ∷ tasks) once h =
    rw (check_deps_nil known n (deps t) (λ d m. h n d (ground (arith, eq_refl n)))) (
      reference_errors_nil known tasks (Distinct-tail n (names tasks) once) (λ x d m. h x d (
        ground (arith, eq_iff n x, dependencies_absent tasks x, head-absent n (names tasks) once))))

-- In a topological order every dependency of a task is another task of the order.
topological_refs :
    (tasks : Tasks) (xs seen : List String) (x d : String)
    → IsTopological tasks seen xs
    → ((z : String) → count z seen + count z xs ≤ 1)
    → 0 < count x xs
    → 0 < count d (dependencies tasks x)
    → (0 < count d seen + count d xs) × (str_eq d x ≡ false)
topological_refs tasks [] seen x d t once m listed = absurd (omega arith)
topological_refs tasks (y ∷ ys) seen x d t once m listed = ground (
  arith,
  eq_iff y x,
  eq_iff d x,
  eq_refl x,
  once x,
  t.0 d,
  count-append d seen (y ∷ []),
  topological_refs tasks ys (seen ++ y ∷ []) x d t.1
      (λ z. ground (arith, once z, count-append z seen (y ∷ []))),
)

pub IsDag-reference_errors :
    (tasks : Tasks)
    → Distinct (names tasks)
    → IsDag tasks
    → reference_errors (names tasks) tasks ≡ []
IsDag-reference_errors tasks once (plan, same, ordered) =
    reference_errors_nil (names tasks) tasks once λ x d listed. ground (
      arith,
      same x,
      same d,
      dependencies_absent tasks x,
      not_includes-count (names tasks) d,
      topological_refs tasks plan [] x d ordered (λ z. omega (arith, same z, once z)),
    )
