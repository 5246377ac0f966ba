-- ===== src/Dag/Validate.antt =====
-- `validateDAG` of packages/pipeline-engine/src/dag.ts (lines 96 to 159).
-- The queue runs on fuel, one unit for each task that leaves it; `Dag.Drain` shows that as many
-- units as there are tasks are enough.
use dev_ops_deployment_tool.Common.{
  ℕ, zero, suc, ◌+◌, String, Bool, List, [], ◌∷◌, ◌++◌, Option, none, some, str_eq, ◌==◌,
  if◌then◌else◌, length, includes,
}
use dev_ops_deployment_tool.Dag.Graph.{Tasks, deps, names}
use dev_ops_deployment_tool.Dag.Degrees.{
  Degrees, decrement, is_zero, is_positive, update, initial_degrees,
}

-- The messages that are pushed to `errors`.
pub data DagError : Type 0 where
  missing : (name dep : String) → DagError
  self : (name : String) → DagError
  cycle : (nodes : List String) → DagError

-- The two tests at one dependency of one task.
abbrev pub check_dep : List String → String → String → List DagError
check_dep known name dep =
    (if includes known dep then [] else missing name dep ∷ [])
    ++ (if str_eq dep name then self name ∷ [] else [])

unfoldable pub check_deps : List String → String → List String → List DagError
unfolding includes
check_deps known name [] = []
check_deps known name (dep ∷ ds) = check_dep known name dep ++ check_deps known name ds

-- The first loop, over the entries.
unfoldable pub reference_errors : List String → Tasks → List DagError
unfolding check_deps
reference_errors known [] = []
reference_errors known ((n, t) ∷ tasks) =
    check_deps known n (deps t) ++ reference_errors known tasks

-- The names that a filter of an array of names keeps.
unfoldable pub keep : (String → Bool) → List String → List String
keep p [] = []
keep p (x ∷ xs) = if p x then x ∷ keep p xs else keep p xs

-- The inner loop: every task that lists `current` loses one dependency.
unfoldable pub visit : Tasks → String → Degrees → List String → Degrees × List String
unfolding includes
visit [] current deg queue = (deg, queue)
visit ((n, t) ∷ tasks) current deg queue =
    let hit = includes (deps t) current in
    let d = decrement (deg n) in
    visit tasks current (if hit then update deg n d else deg)
      (if hit then (if is_zero d then queue ++ n ∷ [] else queue) else queue)

-- The `while` loop. Returns `processed` and the map.
unfoldable pub drain : ℕ → Tasks → List String → Degrees → ℕ → Option (ℕ × Degrees)
unfolding visit
drain fuel tasks [] deg processed = some (processed, deg)
drain zero tasks (x ∷ queue) deg processed = none
drain (suc fuel) tasks (current ∷ queue) deg processed =
    let (deg', queue') = visit tasks current deg queue in
    drain fuel tasks queue' deg' (processed + 1)

-- The test behind the loop.
abbrev pub cycle_errors : List String → ℕ × Degrees → List DagError
cycle_errors ns (processed, deg) =
    if processed == length ns then [] else cycle (keep (λ x. is_positive (deg x)) ns) ∷ []

abbrev pub finish : List String → Option (ℕ × Degrees) → Option (List DagError)
finish ns none = none
finish ns (some result) = some (cycle_errors ns result)

-- The second half: cycle detection, with the fuel that is given.
unfoldable pub find_cycles : Tasks → Option (List DagError)
unfolding drain keep
find_cycles tasks =
    let ns = names tasks in
    let deg = initial_degrees tasks in
    finish ns (drain (length ns) tasks (keep (λ x. is_zero (deg x)) ns) deg 0)

abbrev pub or_else : List DagError → Option (List DagError) → Option (List DagError)
or_else [] next = next
or_else (e ∷ es) next = some (e ∷ es)

-- `none` means that the fuel ran out.
unfoldable pub validate_dag : Tasks → Option (List DagError)
unfolding reference_errors find_cycles
validate_dag tasks = or_else (reference_errors (names tasks) tasks) (find_cycles tasks)
