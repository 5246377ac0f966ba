-- ===== src/Dag/Order.antt =====
-- What a resolved plan guarantees: the loop of `resolveDAG` (dag.ts, lines 62 to 82) places every
-- task behind its dependencies, and as many rounds as there are tasks are enough.
use mathlib.Core.List.{append-nil, append_assoc}
use dev_ops_deployment_tool.Common.{
  ℕ, zero, suc, ◌+◌, ◌≤◌, ◌<◌, ◌≡◌, refl, ap, ◌∙◌, String, List, [], ◌∷◌, ◌++◌, some, length,
  length-append, count, count-append, Distinct, SameNames, Fits-length, SameNames-length, arith,
  if◌then◌else◌, str_eq,
}
use dev_ops_deployment_tool.Dag.Graph.{Tasks, names, IsSettled}
use dev_ops_deployment_tool.Dag.Degrees.{Degrees, sweep}
use dev_ops_deployment_tool.Dag.Resolve.{
  DagResult, Dependents, insert, sort, add_tasks, release, build_groups,
}
use dev_ops_deployment_tool.Dag.Kahn.{Inv, done-Distinct, remove-Inv}
use dev_ops_deployment_tool.Dag.Counts.{start_degree, resolve-IsGraph, resolve-IsSettled}

count-insert :
    (x z : String) (xs : List String)
    → count z (insert x xs) ≡ (if str_eq x z then 1 else 0) + count z xs
unfolding insert
count-insert x z [] = refl
count-insert x z (y ∷ ys) = ground (arith, count-insert x z ys)

pub sort-SameNames : (xs : List String) → SameNames (sort xs) xs
unfolding sort
sort-SameNames [] z = refl
sort-SameNames (x ∷ xs) z = omega (arith, count-insert x z (sort xs), sort-SameNames xs z)

-- All tasks of the groups, in order.
abbrev pub concat : List (List String) → List String
concat [] = []
concat (g ∷ gs) = g ++ concat gs

concat_snoc : (gs : List (List String)) (g : List String) → concat (gs ++ g ∷ []) ≡ concat gs ++ g
concat_snoc [] g = append-nil g
concat_snoc (k ∷ gs) g = simp (concat_snoc gs g, append_assoc)

-- Every task of a group has all of its dependencies in `seen` and the groups before its own.
abbrev pub IsLayered : (tasks : Tasks) → List String → List (List String) → Type 0
IsLayered tasks seen [] = Unit
IsLayered tasks seen (g ∷ gs) =
    ((x : String) → 0 < count x g → IsSettled tasks seen x) × IsLayered tasks (seen ++ g) gs

IsLayered-snoc :
    (tasks : Tasks) (seen : List String) (gs : List (List String)) (g : List String)
    → IsLayered tasks seen gs
    → ((x : String) → 0 < count x g → IsSettled tasks (seen ++ concat gs) x)
    → IsLayered tasks seen (gs ++ g ∷ [])
IsLayered-snoc tasks seen [] g h last = (λ x m. rw append-nil at (last x m), tt)
IsLayered-snoc tasks seen (k ∷ gs) g h last =
    (h.0, IsLayered-snoc tasks (seen ++ k) gs g h.1 (λ x m. rw append_assoc (last x m)))

module _ (tasks : Tasks) (h : Distinct (names tasks)) where
  abbrev dependents : Dependents
  dependents = add_tasks tasks (λ _. [])

  -- The invariant of `Dag.Kahn` at the map of `resolveDAG`.
  abbrev pub ResolveInv : List String → List String → Degrees → Type 0
  ResolveInv = Inv (names tasks) (start_degree tasks) dependents

  release-Inv :
      (group done next : List String) (deg : Degrees)
      → ResolveInv done (group ++ next) deg
      → ResolveInv
          (done ++ group)
          (release dependents group deg next).1
          (release dependents group deg next).0
  unfolding release
  release-Inv [] done next deg i = rw append-nil i
  release-Inv (n ∷ group) done next deg i =
      let s = sweep (dependents n) deg next in
      rw append_assoc at (
        release-Inv group (done ++ n ∷ []) s.1 s.0
          (remove-Inv (resolve-IsGraph tasks h) done group next deg n i))

  -- What the loop returns: each group is settled by the groups before it, and nothing waits.
  pub record IsPlan (r : DagResult) : Type 0 where
    pub layered : IsLayered tasks [] r.groups
    pub flat : concat r.groups ≡ r.order
    pub final : Degrees
    pub complete : ResolveInv r.order [] final

  Inv-sort :
      (done waiting : List String) (deg : Degrees)
      → ResolveInv done waiting deg
      → ResolveInv done (sort waiting ++ []) deg
  Inv-sort done waiting deg i = record {
    degrees = i.degrees;
    places = λ x. rw append-nil (ground (arith, i.places x, sort-SameNames waiting x));
  }

  waiting-IsSettled :
      (done waiting : List String) (deg : Degrees)
      → ResolveInv done waiting deg
      → (x : String) → 0 < count x (sort waiting)
      → IsSettled tasks done x
  waiting-IsSettled done waiting deg i x m =
      resolve-IsSettled tasks h done
        (λ z. omega (arith, done-Distinct (resolve-IsGraph tasks h) i z)) x
        (ground (arith, i.places x, sort-SameNames waiting x))

  -- A round with something waiting leaves a task that is not placed yet.
  done-lt-length :
      (done waiting : List String) (deg : Degrees)
      → ResolveInv done waiting deg
      → length done + length waiting ≤ length (names tasks)
  done-lt-length done waiting deg i = omega (
    arith,
    length-append done waiting,
    Fits-length (done ++ waiting) (names tasks)
        (λ x. ground (arith, count-append x done waiting, i.places x)),
  )

  pub build_groups_total :
      (fuel : ℕ) (waiting : List String) (deg : Degrees) (acc : DagResult)
      → length (names tasks) ≤ fuel + length acc.order
      → ResolveInv acc.order waiting deg
      → IsLayered tasks [] acc.groups
      → concat acc.groups ≡ acc.order
      → (r : DagResult) × (build_groups fuel dependents waiting deg acc ≡ some r) × IsPlan r
  unfolding build_groups
  build_groups_total fuel [] deg acc enough i layered flat =
      (acc, refl, record { layered = layered; flat = flat; final = deg; complete = i })
  build_groups_total zero (x ∷ xs) deg acc enough i layered flat =
      absurd (omega (arith, done-lt-length acc.order (x ∷ xs) deg i))
  build_groups_total (suc fuel) (x ∷ xs) deg acc enough i layered flat =
      let group = sort (x ∷ xs) in
      let (deg', next) = release dependents group deg [] in
      build_groups_total fuel next deg'
        (record { groups = acc.groups ++ group ∷ []; order = acc.order ++ group })
        (omega (
          arith,
          length-append acc.order group,
          SameNames-length group (x ∷ xs) (sort-SameNames (x ∷ xs)),
        ))
        (release-Inv group acc.order [] deg (Inv-sort acc.order (x ∷ xs) deg i))
        (IsLayered-snoc tasks [] acc.groups group layered
          (λ y m. rw flat (waiting-IsSettled acc.order (x ∷ xs) deg i y m)))
        (concat_snoc acc.groups group ∙ ap (λ o. o ++ group) flat)
