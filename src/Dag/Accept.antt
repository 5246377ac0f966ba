-- ===== src/Dag/Accept.antt =====
-- The results of `validateDAG` and `resolveDAG` (packages/pipeline-engine/src/dag.ts) for every input
-- whose keys are distinct, as the keys of an object are.
use dev_ops_deployment_tool.Common.{
  ◌<◌, ◌≡◌, refl, ◌∙◌, ◌↔◌, ◌⊎◌, inl, inr, String, List, [], ◌∷◌, Option, none, some, length, count,
  Distinct, SameNames, SameNames-length, Fits-SameNames, ◌==◌, arith, Bool-cases,
}
use dev_ops_deployment_tool.Dag.Graph.{Tasks, names, dependencies, IsDag, IsRepeatFree}
use dev_ops_deployment_tool.Dag.Degrees.{Degrees, is_positive}
use dev_ops_deployment_tool.Dag.Validate.{
  DagError, cycle, reference_errors, cycle_errors, keep, find_cycles, validate_dag, or_else,
}
use dev_ops_deployment_tool.Dag.Resolve.{
  DagResult, Outcome, resolved, invalid, resolve_valid, resolve_dag, check_all, if_valid,
}
use dev_ops_deployment_tool.Dag.Kahn.{done-Distinct}
use dev_ops_deployment_tool.Dag.Counts.{
  resolve-IsGraph, validate-IsGraph, settled_resolve, settled_validate, validate_once,
}
use dev_ops_deployment_tool.Dag.Order.{IsLayered, concat, IsPlan}
use dev_ops_deployment_tool.Dag.Drain.{IsDrained}
use dev_ops_deployment_tool.Dag.Complete.{validate_finishes, resolve_finishes, done-SameNames}
use dev_ops_deployment_tool.Dag.References.{IsDag-reference_errors}

resolve_valid_lem :
    (tasks : Tasks) (h : Distinct (names tasks))
    → (r : DagResult) × (resolve_valid tasks ≡ some (check_all (names tasks) r)) × IsPlan tasks h r
unfolding resolve_valid names
resolve_valid_lem [] h = let (r, ran, p) = resolve_finishes [] h in (r, ground (arith, ran), p)
resolve_valid_lem (task ∷ tasks) h =
    let (r, ran, p) = resolve_finishes (task ∷ tasks) h in (r, rw ran, p)

module _ (tasks : Tasks) (h : Distinct (names tasks)) where
  find_cycles_lem :
      (done : List String) × (deg : Degrees) × (find_cycles tasks
        ≡ some (cycle_errors (names tasks) (length done, deg)))
      × IsDrained tasks h done deg
  unfolding find_cycles
  find_cycles_lem =
      let (done, deg, ran, drained) = validate_finishes tasks h in (done, deg, rw ran, drained)

  no_cycles :
      find_cycles tasks ≡ some []
      → (done : List String) × (deg : Degrees) × (length done ≡ length (names tasks))
        × IsDrained tasks h done deg
  no_cycles e =
      let (done, deg, ran, drained) = find_cycles_lem in
      (done, deg, ground (arith, ran, e), drained)

  drained-SameNames :
      (done : List String) (deg : Degrees)
      → IsDrained tasks h done deg
      → length done ≡ length (names tasks)
      → SameNames done (names tasks)
  drained-SameNames done deg d e =
      Fits-SameNames done (names tasks) (λ x. ground (arith, d.complete.places x)) e

  drained-IsRepeatFree :
      (done : List String) (deg : Degrees)
      → IsDrained tasks h done deg
      → SameNames done (names tasks)
      → IsRepeatFree tasks
  drained-IsRepeatFree done deg d same x known =
      validate_once tasks h done
        (λ z. omega (arith, done-Distinct (validate-IsGraph tasks h) d.complete z)) x
        (ground (arith, same x, d.complete.places x))

  find_cycles_sound : find_cycles tasks ≡ some [] → IsDag tasks × IsRepeatFree tasks
  find_cycles_sound e =
      let (done, deg, size, drained) = no_cycles e in
      let same = drained-SameNames done deg drained size in
      ((done, same, drained.ordered), drained-IsRepeatFree done deg drained same)

  find_cycles_complete : IsDag tasks → IsRepeatFree tasks → find_cycles tasks ≡ some []
  find_cycles_complete dag single =
      let (done, deg, ran, drained) = find_cycles_lem in
      let size : length done ≡ length (names tasks) = SameNames-length done (names tasks) (
        done-SameNames tasks h (validate-IsGraph tasks h) done deg drained.complete
          (λ x known settled.
            settled_validate tasks h done
              (λ z. omega (arith, done-Distinct (validate-IsGraph tasks h) drained.complete z)) x
              known (single x known) settled)
          dag) in
      ground (arith, ran, size)

  plan-SameNames :
      (r : DagResult)
      → IsPlan tasks h r
      → length r.order ≡ length (names tasks)
      → SameNames r.order (names tasks)
  plan-SameNames r p e =
      Fits-SameNames r.order (names tasks) (λ x. ground (arith, p.complete.places x)) e

  -- When the graph has a topological order the loop places every task.
  resolve_valid_complete : IsDag tasks → (r : DagResult) × (resolve_valid tasks ≡ some (resolved r))
  resolve_valid_complete dag =
      let (r, ran, p) = resolve_valid_lem tasks h in
      let size : length r.order ≡ length (names tasks) = SameNames-length r.order (names tasks) (
        done-SameNames tasks h (resolve-IsGraph tasks h) r.order p.final p.complete
          (λ x known.
            settled_resolve tasks h r.order
              (λ z. omega (arith, done-Distinct (resolve-IsGraph tasks h) p.complete z)) x)
          dag) in
      (r, ground (arith, ran, size))

  check_all-resolved :
      (r' r : DagResult)
      → check_all (names tasks) r' ≡ resolved r
      → (r' ≡ r) × (length r'.order ≡ length (names tasks))
  check_all-resolved r' r e = ground arith

or_else-nil :
    (es : List DagError) (next : Option (List DagError))
    → or_else es next ≡ some []
    → next ≡ some []
or_else-nil [] next e = e
or_else-nil (x ∷ es) next e = cc

if_valid-resolved :
    (v : Option (List DagError)) (next : Option Outcome) (r : DagResult)
    → if_valid v next ≡ some (resolved r)
    → next ≡ some (resolved r)
if_valid-resolved none next r e = cc
if_valid-resolved (some []) next r e = e
if_valid-resolved (some (x ∷ es)) next r e = cc

-- For distinct task names, `validateDAG` reports no error exactly when the graph has a topological
-- order of all its tasks and no task lists a dependency twice.
pub validate_dag_iff :
    (tasks : Tasks)
    → Distinct (names tasks)
    → (validate_dag tasks ≡ some []) ↔ (IsDag tasks × IsRepeatFree tasks)
unfolding validate_dag
validate_dag_iff tasks h = (
  λ e. find_cycles_sound tasks h (or_else-nil _ _ e),
  λ (dag, single).
      rw (IsDag-reference_errors tasks h dag) (find_cycles_complete tasks h dag single),
)

-- For distinct task names, every plan that `resolveDAG` returns holds each task exactly once, its
-- flat order is that of its groups, and each task's dependencies all lie in groups before its own.
pub resolve_dag_sound :
    (tasks : Tasks) (r : DagResult)
    → Distinct (names tasks)
    → resolve_dag tasks ≡ some (resolved r)
    → SameNames r.order (names tasks) × (concat r.groups ≡ r.order) × IsLayered tasks [] r.groups
unfolding resolve_dag
resolve_dag_sound tasks r h e =
    let (r', ran, p) = resolve_valid_lem tasks h in
    let last = if_valid-resolved (validate_dag tasks) (resolve_valid tasks) r e in
    let (same, size) = check_all-resolved tasks h r' r (cc) in
    rw (← same) (plan-SameNames tasks h r' p size, p.flat, p.layered)

or_else-some : (es fs : List DagError) → (r : List DagError) × (or_else es (some fs) ≡ some r)
or_else-some [] fs = (fs, refl)
or_else-some (e ∷ es) fs = (e ∷ es, refl)

validate_dag-some :
    (tasks : Tasks) → Distinct (names tasks) → (es : List DagError) × (validate_dag tasks ≡ some es)
unfolding validate_dag
validate_dag-some tasks h =
    let (done, deg, ran, _) = find_cycles_lem tasks h in
    let (es, e) =
      or_else-some (reference_errors (names tasks) tasks)
        (cycle_errors (names tasks) (length done, deg)) in
    (es, rw ran e)

resolve_cases :
    (tasks : Tasks) (h : Distinct (names tasks)) (es : List DagError)
    → validate_dag tasks ≡ some es
    → ((r : DagResult) × (validate_dag tasks ≡ some []) × (resolve_dag tasks ≡ some (resolved r)))
      ⊎ ((e : DagError) × (es : List DagError) × (validate_dag tasks ≡ some (e ∷ es))
          × (resolve_dag tasks ≡ some (invalid (e ∷ es))))
unfolding resolve_dag
resolve_cases tasks h [] found =
    let (r, ran) = resolve_valid_complete tasks h ((validate_dag_iff tasks h).0 found).0 in
    inl (r, found, rw found ran)
resolve_cases tasks h (e ∷ es) found = inr (e, es, found, rw found)

-- For distinct task names, `resolveDAG` returns a plan if `validateDAG` reports no error, and throws
-- the errors that `validateDAG` reports otherwise: neither runs out of rounds, and the check for a
-- cycle behind the loop never fails.
pub resolve_dag_total :
    (tasks : Tasks)
    → Distinct (names tasks)
    → ((r : DagResult) × (validate_dag tasks ≡ some []) × (resolve_dag tasks ≡ some (resolved r)))
      ⊎ ((e : DagError) × (es : List DagError) × (validate_dag tasks ≡ some (e ∷ es))
          × (resolve_dag tasks ≡ some (invalid (e ∷ es))))
resolve_dag_total tasks h =
    let (es, found) = validate_dag-some tasks h in resolve_cases tasks h es found

-- For distinct task names, a graph that has a topological order, but in which some task lists a
-- dependency twice, is refused by `validateDAG` with a cycle, although the loop of `resolveDAG`
-- finds a plan for it.
pub repeated_dependency :
    (tasks : Tasks) (x d : String)
    → Distinct (names tasks)
    → IsDag tasks
    → 0 < count x (names tasks)
    → 1 < count d (dependencies tasks x)
    → ((nodes : List String) × (validate_dag tasks ≡ some (cycle nodes ∷ [])))
      × ((r : DagResult) × (resolve_valid tasks ≡ some (resolved r)))
unfolding validate_dag
repeated_dependency tasks x d h dag known twice =
    let (done, deg, ran, drained) = find_cycles_lem tasks h in
    (
      elim (Bool-cases (length done == length (names tasks))) [
        | inl full ↦
            let clean = find_cycles_sound tasks h (ran ∙ rw full refl) in
            absurd (omega (arith, clean.1 x known d))
        | inr part ↦ (
          keep (λ y. is_positive (deg y)) (names tasks),
          rw (IsDag-reference_errors tasks h dag) (ran ∙ rw part refl),
        )
      ],
      resolve_valid_complete tasks h dag,
    )
