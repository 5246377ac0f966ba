-- ===== src/Ports/Laws.antt =====
-- What `allocatePort` and `releasePort` (port-allocator.ts, lines 58 to 110) keep and change.
use dev_ops_deployment_tool.Common.{
  ℕ, ◌≡◌, ◌∙◌, ◌≤◌, ◌<◌, ◌↔◌, refl, String, false, List, [], ◌∷◌, ◌++◌, none, some, str_eq, eq_iff,
  eq_refl, if◌then◌else◌, arith,
}
use dev_ops_deployment_tool.Ports.{
  PortAllocation, range_start, range_end, get_port_for_project, or_allocate, allocate_port,
  release_port,
}
use dev_ops_deployment_tool.Ports.Calls.{
  slug_count, port_count, IsValid, not_found, found-append, allocation, append-IsValid, found,
  stored, exhausted, call_cases,
}

release_port-slug_count :
    (slug s : String) (xs : List PortAllocation)
    → slug_count s (release_port slug xs) ≡ (if str_eq slug s then 0 else slug_count s xs)
unfolding release_port
release_port-slug_count slug s [] = ground arith
release_port-slug_count slug s (a ∷ xs) = ground (
  arith,
  eq_iff a.project_slug slug,
  eq_iff a.project_slug s,
  eq_iff slug s,
  release_port-slug_count slug s xs,
)

release_port-port_count :
    (slug : String) (p : ℕ) (xs : List PortAllocation)
    → port_count p (release_port slug xs) ≤ port_count p xs
unfolding release_port
release_port-port_count slug p [] = omega arith
release_port-port_count slug p (a ∷ xs) = ground (arith, release_port-port_count slug p xs)

-- From a valid file, `allocatePort` leaves a valid file, also when it throws, and so does
-- `releasePort`: no project has two ports, no port has two projects, and every port is in the range.
pub allocate_port-IsValid :
    (slug : String) (xs : List PortAllocation)
    → IsValid xs
    → IsValid (allocate_port slug xs).1 × IsValid (release_port slug xs)
allocate_port-IsValid slug xs v = (
  elim (call_cases slug xs) [
    | found a g e ↦ rw e v
    | exhausted g all e ↦ rw e v
    | stored p g a b free e ↦ rw e (append-IsValid slug p xs v (not_found slug xs g) free a b)
  ],
  record {
    slugs = λ s. ground (arith, release_port-slug_count slug s xs, v.slugs s);
    ports = λ p. omega (arith, release_port-port_count slug p xs, v.ports p);
    range = λ p m. v.range p (omega (arith, release_port-port_count slug p xs));
  },
)

-- `allocatePort` throws exactly if the project has no port and every port of the range is taken.
pub allocate_port_throws :
    (slug : String) (xs : List PortAllocation)
    → ((allocate_port slug xs).0 ≡ none) ↔ (
        (get_port_for_project slug xs ≡ none)
        × ((port : ℕ) → range_start ≤ port → port ≤ range_end → 0 < port_count port xs))
allocate_port_throws slug xs = elim (call_cases slug xs) [
  | found a g e ↦ (λ n. absurd (cc (n, e)), λ (n, all). absurd (cc (n, g)))
  | exhausted g all e ↦ (λ n. (g, all), λ n. rw e refl)
  | stored p g a b free e ↦
      (λ n. absurd (cc (n, e)), λ (n, all). absurd (omega (arith, all p a b, free)))
]

get_port-append :
    (slug s : String) (p : ℕ) (xs : List PortAllocation)
    → str_eq slug s ≡ false
    → get_port_for_project s (xs ++ allocation slug p ∷ []) ≡ get_port_for_project s xs
unfolding get_port_for_project
get_port-append slug s p [] other = ground arith
get_port-append slug s p (a ∷ xs) other = ground (arith, get_port-append slug s p xs)

get_port-release_port :
    (slug s : String) (xs : List PortAllocation)
    → get_port_for_project s (release_port slug xs)
      ≡ (if str_eq slug s then none else get_port_for_project s xs)
unfolding get_port_for_project release_port
get_port-release_port slug s [] = ground arith
get_port-release_port slug s (a ∷ xs) = ground (
  arith,
  eq_iff a.project_slug slug,
  eq_iff a.project_slug s,
  eq_iff slug s,
  get_port-release_port slug s xs,
)

again :
    (slug : String) (a : PortAllocation) (xs : List PortAllocation)
    → get_port_for_project slug xs ≡ some a
    → allocate_port slug xs ≡ (some a, xs)
unfolding allocate_port
again slug a xs e = rw (e, or_allocate) refl

get_after :
    (slug s : String) (a : PortAllocation) (xs : List PortAllocation)
    → (allocate_port slug xs).0 ≡ some a
    → str_eq slug s ≡ false
    → (get_port_for_project slug (allocate_port slug xs).1 ≡ some a)
      × (get_port_for_project s (allocate_port slug xs).1 ≡ get_port_for_project s xs)
get_after slug s a xs e other = elim (call_cases slug xs) [
  | found b g c ↦ ground (arith, g, c, e)
  | exhausted g all c ↦ absurd (cc (c, e))
  | stored p g low high free c ↦
      rw c (ground (arith, found-append slug p xs g, get_port-append slug s p xs other, c, e))
]

-- An allocation that `allocatePort` returns is what `getPortForProject` finds for the project
-- afterwards, a second `allocatePort` returns it again and changes nothing, and after `releasePort`
-- the project has none; any other project keeps its port through both.
pub allocate_port_round_trip :
    (slug s : String) (a : PortAllocation) (xs : List PortAllocation)
    → (allocate_port slug xs).0 ≡ some a
    → str_eq slug s ≡ false
    → (get_port_for_project slug (allocate_port slug xs).1 ≡ some a)
      × (allocate_port slug (allocate_port slug xs).1 ≡ (some a, (allocate_port slug xs).1))
      × (get_port_for_project slug (release_port slug (allocate_port slug xs).1) ≡ none)
      × (get_port_for_project s (allocate_port slug xs).1 ≡ get_port_for_project s xs)
      × (get_port_for_project s (release_port slug xs) ≡ get_port_for_project s xs)
allocate_port_round_trip slug s a xs e other =
    let here = get_after slug s a xs e other in
    (
      here.0,
      again slug a (allocate_port slug xs).1 here.0,
      get_port-release_port slug slug (allocate_port slug xs).1 ∙ (rw (eq_refl slug) refl),
      here.1,
      get_port-release_port slug s xs ∙ (rw other refl),
    )
