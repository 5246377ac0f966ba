-- ===== src/Dag/Counts.antt =====
-- The two ways in which dag.ts finds the tasks that depend on a removed one: the map `dependents`
-- of `resolveDAG` (lines 40 to 53), and the scan of all tasks in `validateDAG` (lines 138 and 139).
use dev_ops_deployment_tool.Common.{
  ℕ, ◌+◌, ◌≤◌, ◌<◌, ◌≡◌, refl, String, List, [], ◌∷◌, some, str_eq, eq_iff, eq_refl, if◌then◌else◌,
  length, includes, includes-count, not_includes-count, count, count-append, Distinct, covered,
  covered-nil, covered-cons, covered-le, covered_all, all_covered, dec_lt, arith,
}
use dev_ops_deployment_tool.Dag.Graph.{Tasks, deps, names, dependencies, IsSettled}
use dev_ops_deployment_tool.Dag.Degrees.{initial_degrees}
use dev_ops_deployment_tool.Dag.Resolve.{Dependents, push, add_deps, add_tasks}
use dev_ops_deployment_tool.Dag.Sweep.{hits}
use dev_ops_deployment_tool.Dag.Kahn.{removed, IsGraph}

pub Distinct-tail : (n : String) (ns : List String) → Distinct (n ∷ ns) → Distinct ns
Distinct-tail n ns h x = omega (arith, h x)

pub head-absent : (n : String) (ns : List String) → Distinct (n ∷ ns) → count n ns ≡ 0
head-absent n ns h = ground (arith, h n, eq_refl n)

-- The degree that a task starts with.
abbrev pub start_degree : Tasks → String → ℕ
start_degree tasks x = length (dependencies tasks x)

pub initial_degrees_lem :
    (tasks : Tasks) (x : String)
    → 0 < count x (names tasks)
    → initial_degrees tasks x ≡ some (start_degree tasks x)
unfolding names dependencies initial_degrees
initial_degrees_lem [] x h = ground arith
initial_degrees_lem ((n, t) ∷ tasks) x h = ground (arith, initial_degrees_lem tasks x)

pub dependencies_absent :
    (tasks : Tasks) (x : String) → count x (names tasks) ≡ 0 → dependencies tasks x ≡ []
unfolding names dependencies
dependencies_absent [] x h = refl
dependencies_absent ((n, t) ∷ tasks) x h = ground (arith, dependencies_absent tasks x)

count-add_deps :
    (n : String) (ds : List String) (m : Dependents) (d x : String)
    → count x (add_deps n ds m d) ≡ count x (m d) + (if str_eq n x then count d ds else 0)
unfolding add_deps
count-add_deps n [] m d x = ground arith
count-add_deps n (e ∷ ds) m d x =
    ground (arith, count-add_deps n ds (push m e n) d x, count-append x (m d) (n ∷ []))

-- The map lists a task under each of its dependencies, as often as it names that dependency.
pub count-add_tasks :
    (tasks : Tasks) (m : Dependents) (d x : String)
    → Distinct (names tasks)
    → count x (add_tasks tasks m d) ≡ count x (m d) + count d (dependencies tasks x)
unfolding add_tasks names dependencies
count-add_tasks [] m d x h = ground arith
count-add_tasks ((n, t) ∷ tasks) m d x h = ground (
  arith,
  eq_iff n x,
  head-absent n (names tasks) h,
  dependencies_absent tasks x,
  count-add_deps n (deps t) m d x,
  count-add_tasks tasks (add_deps n (deps t) m) d x (Distinct-tail n (names tasks) h),
)

-- The scan meets a task once if it lists the removed one at all.
pub count-hits :
    (tasks : Tasks) (current x : String)
    → Distinct (names tasks)
    → count x (hits tasks current)
      ≡ (if includes (dependencies tasks x) current then count x (names tasks) else 0)
unfolding hits names dependencies
count-hits [] current x h = ground arith
count-hits ((n, t) ∷ tasks) current x h = ground (
  arith,
  eq_iff n x,
  head-absent n (names tasks) h,
  count-hits tasks current x (Distinct-tail n (names tasks) h),
)

module _ (tasks : Tasks) (h : Distinct (names tasks)) where
  removed-resolve :
      (done : List String) (x : String)
      → removed (add_tasks tasks (λ _. [])) done x ≡ covered done (dependencies tasks x)
  removed-resolve [] x = omega (arith, covered-nil (dependencies tasks x))
  removed-resolve (n ∷ done) x = omega (
    arith,
    count-add_tasks tasks (λ _. []) n x h,
    covered-cons n done (dependencies tasks x),
    removed-resolve done x,
  )

  removed-validate-le :
      (done : List String) (x : String)
      → removed (hits tasks) done x ≤ covered done (dependencies tasks x)
  removed-validate-le [] x = omega arith
  removed-validate-le (n ∷ done) x = ground (
    arith,
    h x,
    count-hits tasks n x h,
    includes-count (dependencies tasks x) n,
    covered-cons n done (dependencies tasks x),
    removed-validate-le done x,
  )

  -- Both counts agree at a task that lists no dependency twice.
  removed-validate :
      (done : List String) (x : String)
      → 0 < count x (names tasks)
      → Distinct (dependencies tasks x)
      → removed (hits tasks) done x ≡ covered done (dependencies tasks x)
  removed-validate [] x known once = omega (arith, covered-nil (dependencies tasks x))
  removed-validate (n ∷ done) x known once = ground (
    arith,
    h x,
    once n,
    count-hits tasks n x h,
    includes-count (dependencies tasks x) n,
    not_includes-count (dependencies tasks x) n,
    covered-cons n done (dependencies tasks x),
    removed-validate done x known once,
  )

  -- A dependency that is listed twice is still counted once.
  removed-validate_gap :
      (done : List String) (x d : String)
      → 0 < count d done
      → 0 < count d (dependencies tasks x)
      → removed (hits tasks) done x + count d (dependencies tasks x)
        ≤ covered done (dependencies tasks x) + 1
  removed-validate_gap [] x d now listed = omega arith
  removed-validate_gap (n ∷ done) x d now listed = ground (
    arith,
    eq_iff n d,
    h x,
    count-hits tasks n x h,
    includes-count (dependencies tasks x) n,
    covered-cons n done (dependencies tasks x),
    removed-validate-le done x,
    removed-validate_gap done x d,
  )

  pub resolve-IsGraph : IsGraph (names tasks) (start_degree tasks) (add_tasks tasks (λ _. []))
  resolve-IsGraph = record {
    distinct = h;
    inside = λ n x pos.
        ground (arith, count-add_tasks tasks (λ _. []) n x h, dependencies_absent tasks x);
    within = λ done once x.
        omega (arith, removed-resolve done x, covered-le done (dependencies tasks x) once);
  }

  pub validate-IsGraph : IsGraph (names tasks) (start_degree tasks) (hits tasks)
  validate-IsGraph = record {
    distinct = h;
    inside = λ n x pos. ground (arith, count-hits tasks n x h);
    within = λ done once x.
        omega (arith, removed-validate-le done x, covered-le done (dependencies tasks x) once);
  }

  module _ (done : List String) (once : Distinct done) (x : String) where
    pub resolve-IsSettled :
        start_degree tasks x ≡ removed (add_tasks tasks (λ _. [])) done x → IsSettled tasks done x
    resolve-IsSettled e d =
        covered_all done (dependencies tasks x) d once (omega (arith, removed-resolve done x))

    pub settled_resolve :
        IsSettled tasks done x → start_degree tasks x ≡ removed (add_tasks tasks (λ _. [])) done x
    settled_resolve all =
        omega (arith, removed-resolve done x, all_covered done (dependencies tasks x) once all)

    pub validate-IsSettled :
        start_degree tasks x ≡ removed (hits tasks) done x → IsSettled tasks done x
    validate-IsSettled e d =
        covered_all done (dependencies tasks x) d once
          (omega (arith, removed-validate-le done x, covered-le done (dependencies tasks x) once))

    -- A task whose count reaches 0 lists no dependency twice.
    pub validate_once :
        start_degree tasks x ≡ removed (hits tasks) done x → Distinct (dependencies tasks x)
    validate_once e d = elim (dec_lt 0 (count d (dependencies tasks x))) [
      | yes listed ↦ omega (
        arith,
        covered-le done (dependencies tasks x) once,
        removed-validate_gap done x d (validate-IsSettled e d listed) listed,
      )
      | no unlisted ↦ omega arith
    ]

    pub settled_validate :
        0 < count x (names tasks)
        → Distinct (dependencies tasks x)
        → IsSettled tasks done x
        → start_degree tasks x ≡ removed (hits tasks) done x
    settled_validate known single all = omega (
      arith,
      removed-validate done x known single,
      all_covered done (dependencies tasks x) once all,
    )
