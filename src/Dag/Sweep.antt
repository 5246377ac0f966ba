-- ===== src/Dag/Sweep.antt =====
-- What a run of decrements (dag.ts, lines 70 to 78 and 138 to 146) does to one task.
use dev_ops_deployment_tool.Common.{
  ℕ, zero, suc, ◌+◌, ◌-◌, ◌≤◌, ◌≡◌, refl, String, Bool, true, false, inl, inr, List, [], ◌∷◌, ◌++◌,
  some, str_eq, eq_iff, ◌==◌, if◌then◌else◌, includes, count, count-append, Bool-cases, arith,
}
use dev_ops_deployment_tool.Dag.Graph.{Tasks, deps}
use dev_ops_deployment_tool.Dag.Degrees.{Degrees, decrement, is_zero, update, sweep}
use dev_ops_deployment_tool.Dag.Validate.{visit}

-- Whether `hits` decrements bring a degree of `k` to 0.
abbrev pub fires : ℕ → ℕ → ℕ
fires k zero = 0
fires k (suc hits) = if k == suc hits then 1 else 0

-- The queue behind one decrement of `y`.
abbrev push_if : Bool → String → List String → List String
push_if b y queue = if b then queue ++ y ∷ [] else queue

count-push_other :
    (b : Bool) (x y : String) (queue : List String)
    → str_eq y x ≡ false
    → count x (push_if b y queue) ≡ count x queue
count-push_other true x y queue e = ground (arith, count-append x queue (y ∷ []))
count-push_other false x y queue e = refl

count-push_same :
    (b : Bool) (x y : String) (queue : List String)
    → str_eq y x ≡ true
    → count x (push_if b y queue) ≡ count x queue + (if b then 1 else 0)
count-push_same true x y queue e = ground (arith, count-append x queue (y ∷ []))
count-push_same false x y queue e = omega arith

-- A task that no decrement meets is left alone.
pub sweep_miss :
    (xs : List String) (deg : Degrees) (queue : List String) (x : String)
    → count x xs ≡ 0
    → ((sweep xs deg queue).0 x ≡ deg x) × (count x (sweep xs deg queue).1 ≡ count x queue)
unfolding sweep
sweep_miss [] deg queue x h = (refl, refl)
sweep_miss (y ∷ ys) deg queue x h =
    let d = decrement (deg y) in
    let queue' = push_if (is_zero d) y queue in
    ground (arith, sweep_miss ys (update deg y d) queue' x, count-push_other (is_zero d) x y queue)

-- A task that is decremented at most as often as it has dependencies left loses that many, and
-- enters the queue once if that leaves none.
pub sweep_hit :
    (xs : List String) (deg : Degrees) (queue : List String) (x : String) (k : ℕ)
    → deg x ≡ some k
    → count x xs ≤ k
    → ((sweep xs deg queue).0 x ≡ some (k - count x xs))
      × (count x (sweep xs deg queue).1 ≡ count x queue + fires k (count x xs))
unfolding sweep
sweep_hit [] deg queue x k d h = ground arith
sweep_hit (y ∷ ys) deg queue x zero d h =
    let d' = decrement (deg y) in
    ground (
      arith,
      sweep_hit ys (update deg y d') (push_if (is_zero d') y queue) x zero,
      count-push_other (is_zero d') x y queue,
    )
sweep_hit (y ∷ ys) deg queue x (suc k) d h =
    let d' = decrement (deg y) in
    ground (
      arith,
      eq_iff y x,
      sweep_hit ys (update deg y d') (push_if (is_zero d') y queue) x k,
      sweep_hit ys (update deg y d') (push_if (is_zero d') y queue) x (suc k),
      count-push_same (is_zero d') x y queue,
      count-push_other (is_zero d') x y queue,
    )

-- The tasks that list `current`.
unfoldable pub hits : Tasks → String → List String
hits [] current = []
hits ((n, t) ∷ tasks) current =
    if includes (deps t) current then n ∷ hits tasks current else hits tasks current

pub visit-sweep :
    (tasks : Tasks) (current : String) (deg : Degrees) (queue : List String)
    → visit tasks current deg queue ≡ sweep (hits tasks current) deg queue
unfolding visit sweep hits
visit-sweep [] current deg queue = refl
visit-sweep ((n, t) ∷ tasks) current deg queue = elim (Bool-cases (includes (deps t) current)) [
  | inl h ↦ rw h (visit-sweep tasks current _ _)
  | inr h ↦ rw h (visit-sweep tasks current _ _)
]
