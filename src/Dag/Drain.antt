-- ===== src/Dag/Drain.antt =====
-- The queue of `validateDAG` (dag.ts, lines 131 to 147): it removes tasks in a topological order, and
-- as many rounds as there are tasks are enough.
use mathlib.Core.List.{append-nil, append_assoc}
use dev_ops_deployment_tool.Common.{
  ℕ, zero, suc, ◌+◌, ◌≤◌, ◌≡◌, String, List, [], ◌∷◌, ◌++◌, some, length, length-append,
  count-append, Distinct, Fits-length, eq_refl, arith,
}
use dev_ops_deployment_tool.Dag.Graph.{Tasks, names, IsSettled, IsTopological}
use dev_ops_deployment_tool.Dag.Degrees.{Degrees}
use dev_ops_deployment_tool.Dag.Validate.{visit, drain}
use dev_ops_deployment_tool.Dag.Sweep.{hits, visit-sweep}
use dev_ops_deployment_tool.Dag.Kahn.{Inv, done-Distinct, remove-Inv}
use dev_ops_deployment_tool.Dag.Counts.{start_degree, validate-IsGraph, validate-IsSettled}

IsTopological-snoc :
    (tasks : Tasks) (seen xs : List String) (x : String)
    → IsTopological tasks seen xs
    → IsSettled tasks (seen ++ xs) x
    → IsTopological tasks seen (xs ++ x ∷ [])
IsTopological-snoc tasks seen [] x h last = (rw append-nil at last, tt)
IsTopological-snoc tasks seen (y ∷ ys) x h last =
    (h.0, IsTopological-snoc tasks (seen ++ y ∷ []) ys x h.1 (rw append_assoc last))

module _ (tasks : Tasks) (h : Distinct (names tasks)) where
  -- The invariant of `Dag.Kahn` at the scan of `validateDAG`.
  abbrev pub ValidateInv : List String → List String → Degrees → Type 0
  ValidateInv = Inv (names tasks) (start_degree tasks) (hits tasks)

  -- What the loop leaves: the tasks that were removed, in a topological order, and nothing waiting.
  pub record IsDrained (done : List String) (deg : Degrees) : Type 0 where
    pub complete : ValidateInv done [] deg
    pub ordered : IsTopological tasks [] done

  visit-Inv :
      (done queue : List String) (deg : Degrees) (n : String)
      → ValidateInv done (n ∷ queue) deg
      → ValidateInv (done ++ n ∷ []) (visit tasks n deg queue).1 (visit tasks n deg queue).0
  visit-Inv done queue deg n i =
      rw visit-sweep (remove-Inv (validate-IsGraph tasks h) done [] queue deg n i)

  head-IsSettled :
      (done queue : List String) (deg : Degrees) (n : String)
      → ValidateInv done (n ∷ queue) deg
      → IsSettled tasks done n
  head-IsSettled done queue deg n i =
      validate-IsSettled tasks h done
        (λ z. omega (arith, done-Distinct (validate-IsGraph tasks h) i z)) n
        (ground (arith, i.places n, eq_refl n))

  queue-le-length :
      (done queue : List String) (deg : Degrees)
      → ValidateInv done queue deg
      → length done + length queue ≤ length (names tasks)
  queue-le-length done queue deg i = omega (
    arith,
    length-append done queue,
    Fits-length (done ++ queue) (names tasks)
        (λ x. ground (arith, count-append x done queue, i.places x)),
  )

  pub drain_total :
      (fuel : ℕ) (queue : List String) (deg : Degrees) (processed : ℕ) (done : List String)
      → processed ≡ length done
      → length (names tasks) ≤ fuel + length done
      → ValidateInv done queue deg
      → IsTopological tasks [] done
      → (done' : List String) × (deg' : Degrees) × (drain fuel tasks queue deg processed
          ≡ some (length done', deg'))
        × IsDrained done' deg'
  unfolding drain
  drain_total fuel [] deg processed done same enough i ordered =
      (done, deg, rw same, record { complete = i; ordered = ordered })
  drain_total zero (n ∷ queue) deg processed done same enough i ordered =
      absurd (omega (arith, queue-le-length done (n ∷ queue) deg i))
  drain_total (suc fuel) (n ∷ queue) deg processed done same enough i ordered =
      let (deg', queue') = visit tasks n deg queue in
      drain_total fuel queue' deg' (processed + 1) (done ++ n ∷ [])
        (omega (arith, length-append done (n ∷ []))) (omega (arith, length-append done (n ∷ [])))
        (visit-Inv done queue deg n i)
        (IsTopological-snoc tasks [] done n ordered (head-IsSettled done queue deg n i))
