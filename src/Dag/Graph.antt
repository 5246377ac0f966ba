-- ===== src/Dag/Graph.antt =====
-- The input of dag.ts: an object from task names to tasks, as its entries in `Object.entries` order.
use dev_ops_deployment_tool.Common.{
  String, List, [], ◌∷◌, Option, none, some, str_eq, if◌then◌else◌, count, ◌<◌, ◌++◌, Distinct,
  SameNames,
}

pub record DagInput : Type 0 where
  pub depends_on : Option (List String)

abbrev pub Tasks : Type 0
Tasks = List (String × DagInput)

-- `task.depends_on ?? []`
abbrev pub deps : DagInput → List String
deps t = elim t.depends_on [ none ↦ [] | some ds ↦ ds ]

-- `Object.keys(tasks)`
unfoldable pub names : Tasks → List String
names [] = []
names ((n, t) ∷ tasks) = n ∷ names tasks

-- `tasks[name].depends_on ?? []`
unfoldable pub dependencies : Tasks → String → List String
dependencies [] x = []
dependencies ((n, t) ∷ tasks) x = if str_eq n x then deps t else dependencies tasks x

-- Every dependency of `x` is in `done`.
abbrev pub IsSettled : Tasks → List String → String → Type 0
IsSettled tasks done x = (d : String) → 0 < count d (dependencies tasks x) → 0 < count d done

-- Every listed task has all of its dependencies in `seen` and the tasks before it.
abbrev pub IsTopological : Tasks → List String → List String → Type 0
IsTopological tasks seen [] = Unit
IsTopological tasks seen (x ∷ xs) = IsSettled tasks seen x × IsTopological tasks (seen ++ x ∷ []) xs

-- The graph has no cycle and no dangling reference: its tasks can be put in an order in which each
-- stands behind its dependencies.
abbrev pub IsDag : Tasks → Type 0
IsDag tasks = (plan : List String) × SameNames plan (names tasks) × IsTopological tasks [] plan

-- No task lists a dependency twice.
abbrev pub IsRepeatFree : Tasks → Type 0
IsRepeatFree tasks = (x : String) → 0 < count x (names tasks) → Distinct (dependencies tasks x)
