-- ===== src/Dag/Degrees.antt =====
-- The in-degree map of dag.ts, and the decrements that both of its loops make.
use dev_ops_deployment_tool.Common.{
  ℕ, zero, suc, String, Bool, true, false, List, [], ◌∷◌, ◌++◌, Option, none, some, str_eq,
  if◌then◌else◌, length,
}
use dev_ops_deployment_tool.Dag.Graph.{Tasks, deps}

-- The map `inDegree`. `none` stands for every value that no decrement brings to 0: `undefined`,
-- NaN and the negative numbers.
abbrev pub Degrees : Type 0
Degrees = String → Option ℕ

abbrev pub decrement : Option ℕ → Option ℕ
decrement none = none
decrement (some zero) = none
decrement (some (suc n)) = some n

abbrev pub is_zero : Option ℕ → Bool
is_zero (some zero) = true
is_zero _ = false

abbrev pub is_positive : Option ℕ → Bool
is_positive (some (suc n)) = true
is_positive _ = false

-- `inDegree.set(name, degree)`
abbrev pub update : Degrees → String → Option ℕ → Degrees
update deg x d y = if str_eq x y then d else deg y

-- The first loop: each task starts at the number of dependencies that it lists.
unfoldable pub initial_degrees : Tasks → Degrees
initial_degrees [] x = none
initial_degrees ((n, t) ∷ tasks) x =
    if str_eq n x then some (length (deps t)) else initial_degrees tasks x

-- Decrements each listed task in turn, and appends to `queue` those that reach 0.
unfoldable pub sweep : List String → Degrees → List String → Degrees × List String
sweep [] deg queue = (deg, queue)
sweep (x ∷ xs) deg queue =
    let d = decrement (deg x) in
    sweep xs (update deg x d) (if is_zero d then queue ++ x ∷ [] else queue)
