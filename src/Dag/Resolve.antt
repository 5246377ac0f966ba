-- ===== src/Dag/Resolve.antt =====
-- `resolveDAG` of packages/pipeline-engine/src/dag.ts (lines 20 to 94).
-- The loop over the groups runs on fuel, one unit for each group; `Dag.Order` shows that as many
-- units as there are tasks are enough.
use Prim.Native.Nat.{Ordering}
use dev_ops_deployment_tool.Common.{
  ℕ, zero, suc, String, Bool, true, false, not, List, [], ◌∷◌, ◌++◌, Option, none, some, str_eq,
  str_compare, ◌==◌, if◌then◌else◌, length, includes,
}
use dev_ops_deployment_tool.Dag.Graph.{Tasks, deps, names}
use dev_ops_deployment_tool.Dag.Degrees.{Degrees, is_zero, initial_degrees, sweep}
use dev_ops_deployment_tool.Dag.Validate.{DagError, validate_dag, keep}

pub record DagResult : Type 0 where
  pub groups : List (List String)
  pub order : List String

-- What a call returns, or the error that it throws.
pub data Outcome : Type 0 where
  resolved : DagResult → Outcome
  invalid : List DagError → Outcome
  cyclic : List String → Outcome

-- `[...currentGroup].sort()`. Task names are ASCII (validators/pipeline.ts), where the order of code
-- units is that of the code points.
abbrev pub before : String → String → Bool
before x y = elim (str_compare x y) [ Ordering.gt ↦ false | _ ↦ true ]

unfoldable pub insert : String → List String → List String
insert x [] = x ∷ []
insert x (y ∷ ys) = if before x y then x ∷ y ∷ ys else y ∷ insert x ys

unfoldable pub sort : List String → List String
unfolding insert
sort [] = []
sort (x ∷ xs) = insert x (sort xs)

-- The map `dependents`. It has an entry for each task; a dependency that is no task would throw, but
-- `validate_dag` has refused such input.
abbrev pub Dependents : Type 0
Dependents = String → List String

abbrev pub push : Dependents → String → String → Dependents
push m dep name y = if str_eq dep y then m y ++ name ∷ [] else m y

unfoldable pub add_deps : String → List String → Dependents → Dependents
add_deps name [] m = m
add_deps name (dep ∷ ds) m = add_deps name ds (push m dep name)

unfoldable pub add_tasks : Tasks → Dependents → Dependents
unfolding add_deps
add_tasks [] m = m
add_tasks ((n, t) ∷ tasks) m = add_tasks tasks (add_deps n (deps t) m)

-- The loop over the sorted group: every dependent of each of its tasks loses one dependency.
unfoldable pub release : Dependents → List String → Degrees → List String → Degrees × List String
unfolding sweep
release m [] deg next = (deg, next)
release m (name ∷ group) deg next =
    let (deg', next') = sweep (m name) deg next in release m group deg' next'

-- The `while` loop over the current group.
unfoldable pub build_groups : ℕ → Dependents → List String → Degrees → DagResult → Option DagResult
unfolding release sort
build_groups fuel m [] deg acc = some acc
build_groups zero m (x ∷ xs) deg acc = none
build_groups (suc fuel) m (x ∷ xs) deg acc =
    let group = sort (x ∷ xs) in
    let (deg', next) = release m group deg [] in
    build_groups fuel m next deg'
      (record { groups = acc.groups ++ group ∷ []; order = acc.order ++ group })

-- The safety net behind the loop.
abbrev pub check_all : List String → DagResult → Outcome
check_all ns r =
    if length r.order == length ns
    then resolved r
    else cyclic (keep (λ x. not (includes r.order x)) ns)

abbrev pub outcome : List String → Option DagResult → Option Outcome
outcome ns none = none
outcome ns (some r) = some (check_all ns r)

abbrev pub empty : DagResult
empty = record { groups = []; order = [] }

-- Everything behind the validation. The early return for no task gives what the loop gives.
unfoldable pub resolve_valid : Tasks → Option Outcome
unfolding build_groups add_tasks keep
resolve_valid [] = some (resolved empty)
resolve_valid (task ∷ tasks) =
    let all = task ∷ tasks in
    let ns = names all in
    let deg = initial_degrees all in
    outcome ns (
      build_groups (length ns) (add_tasks all (λ _. [])) (keep (λ x. is_zero (deg x)) ns) deg empty)

abbrev pub if_valid : Option (List DagError) → Option Outcome → Option Outcome
if_valid none next = none
if_valid (some []) next = next
if_valid (some (e ∷ es)) next = some (invalid (e ∷ es))

-- `none` means that the fuel ran out.
unfoldable pub resolve_dag : Tasks → Option Outcome
unfolding resolve_valid
resolve_dag tasks = if_valid (validate_dag tasks) (resolve_valid tasks)
