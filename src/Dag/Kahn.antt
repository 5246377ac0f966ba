-- ===== src/Dag/Kahn.antt =====
-- Kahn's algorithm without its data structures: the invariant of the loops in dag.ts, over the list
-- of removed tasks, and that removing one more task keeps it. `validateDAG` and `resolveDAG` count
-- dependencies differently, so `hits` is a parameter.
use dev_ops_deployment_tool.Common.{
  ℕ, ◌+◌, ◌-◌, ◌≤◌, ◌<◌, ◌≡◌, String, List, [], ◌∷◌, ◌++◌, some, eq_iff, ◌==◌, if◌then◌else◌, count,
  count-append, Distinct, arith, Bool,
}
use dev_ops_deployment_tool.Dag.Degrees.{Degrees, sweep}
use dev_ops_deployment_tool.Dag.Validate.{keep}
use dev_ops_deployment_tool.Dag.Sweep.{sweep_miss, sweep_hit}

pub count-keep :
    (p : String → Bool) (x : String) (xs : List String)
    → count x (keep p xs) ≡ (if p x then count x xs else 0)
unfolding keep
count-keep p x [] = ground arith
count-keep p x (y ∷ ys) = ground (arith, eq_iff y x, count-keep p x ys)

-- How many dependencies of `x` the removal of the listed tasks takes away.
abbrev pub removed : (String → List String) → List String → String → ℕ
removed hits [] x = 0
removed hits (n ∷ done) x = count x (hits n) + removed hits done x

pub removed-append :
    (hits : String → List String) (xs ys : List String) (x : String)
    → removed hits (xs ++ ys) x ≡ removed hits xs x + removed hits ys x
removed-append hits [] ys x = omega arith
removed-append hits (n ∷ xs) ys x = omega (arith, removed-append hits xs ys x)

-- What the algorithm needs of the graph: `ns` are the tasks, `start x` the degree that `x` starts
-- with, `hits n` the tasks that lose a dependency when `n` is removed.
pub record IsGraph (ns : List String) (start : String → ℕ) (hits : String → List String)
    : Type 0 where
  pub distinct : Distinct ns
  pub inside : (n x : String) → 0 < count x (hits n) → 0 < count x ns
  pub within : (done : List String) → Distinct done → (x : String) → removed hits done x ≤ start x

-- `done` are the removed tasks and `waiting` those that may be removed next: together they are the
-- tasks that have no dependency left, each once.
pub record Inv (ns : List String) (start : String → ℕ) (hits : String → List String)
    (done waiting : List String) (deg : Degrees) : Type 0 where
  pub degrees : (x : String) → 0 < count x ns → deg x ≡ some (start x - removed hits done x)
  pub places :
      (x : String)
      → count x done + count x waiting ≡ (if start x == removed hits done x then count x ns else 0)

module _ {ns : List String} {start : String → ℕ} {hits : String → List String}
    (g : IsGraph ns start hits) where
  pub done-Distinct :
      {done waiting : List String} {deg : Degrees}
      → Inv ns start hits done waiting deg
      → (x : String) → count x done + count x waiting ≤ 1
  done-Distinct i x = ground (arith, i.places x, g.distinct x)

  module _ (done rest queue : List String) (deg : Degrees) (n : String)
      (i : Inv ns start hits done ((n ∷ rest) ++ queue) deg) where
    next-Distinct : Distinct (done ++ n ∷ [])
    next-Distinct x =
        omega
          (arith, done-Distinct i x, count-append x (n ∷ rest) queue, count-append x done (n ∷ []))

    hits-le : (x : String) → count x (hits n) ≤ start x - removed hits done x
    hits-le x =
        omega
          (arith, removed-append hits done (n ∷ []) x, g.within (done ++ n ∷ []) next-Distinct x)

    next-degrees :
        (x : String)
        → 0 < count x ns
        → (sweep (hits n) deg queue).0 x ≡ some (start x - removed hits (done ++ n ∷ []) x)
    next-degrees x known = ground (
      arith,
      sweep_hit (hits n) deg queue x (start x - removed hits done x) (i.degrees x known)
          (hits-le x),
      removed-append hits done (n ∷ []) x,
    )

    next-places :
        (x : String)
        → count x (done ++ n ∷ []) + count x (rest ++ (sweep (hits n) deg queue).1)
          ≡ (if start x == removed hits (done ++ n ∷ []) x then count x ns else 0)
    next-places x = ground (
      arith,
      sweep_hit (hits n) deg queue x (start x - removed hits done x),
      sweep_miss (hits n) deg queue x,
      i.degrees x,
      i.places x,
      hits-le x,
      g.inside n x,
      g.distinct x,
      removed-append hits done (n ∷ []) x,
      count-append x done (n ∷ []),
      count-append x rest queue,
      count-append x rest (sweep (hits n) deg queue).1,
    )

    -- Removing one task keeps the invariant.
    pub remove-Inv :
        Inv ns start hits
          (done ++ n ∷ [])
          (rest ++ (sweep (hits n) deg queue).1)
          (sweep (hits n) deg queue).0
    remove-Inv = record { degrees = next-degrees; places = next-places }
