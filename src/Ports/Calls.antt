-- ===== src/Ports/Calls.antt =====
-- How a call of `allocatePort` (port-allocator.ts, lines 58 to 100) can go.
use dev_ops_deployment_tool.Common.{
  ℕ, zero, suc, ◌+◌, ◌≡◌, ◌≤◌, ◌<◌, ◌⊎◌, inl, inr, refl, String, true, false, List, [], ◌∷◌, ◌++◌,
  none, some, str_eq, eq_iff, eq_refl, ◌==◌, if◌then◌else◌, Option-cases, dec_lt, arith,
}
use dev_ops_deployment_tool.Ports.{
  PortAllocation, range_start, range_end, get_port_for_project, used, next_port, store, or_allocate,
  allocate_port,
}

-- How many allocations a project, and a port, has.
abbrev pub slug_count : String → List PortAllocation → ℕ
slug_count slug [] = 0
slug_count slug (a ∷ allocations) =
    (if str_eq a.project_slug slug then 1 else 0) + slug_count slug allocations

abbrev pub port_count : ℕ → List PortAllocation → ℕ
port_count port [] = 0
port_count port (a ∷ allocations) =
    (if a.proxy_port == port then 1 else 0) + port_count port allocations

-- No project has two ports, no port has two projects, and every port is in the range.
pub record IsValid (allocations : List PortAllocation) : Type 0 where
  pub slugs : (slug : String) → slug_count slug allocations ≤ 1
  pub ports : (port : ℕ) → port_count port allocations ≤ 1
  pub range :
      (port : ℕ) → 0 < port_count port allocations → (range_start ≤ port) × (port ≤ range_end)

pub slug_count-append :
    (slug : String) (xs ys : List PortAllocation)
    → slug_count slug (xs ++ ys) ≡ slug_count slug xs + slug_count slug ys
slug_count-append slug [] ys = omega arith
slug_count-append slug (a ∷ xs) ys = omega (arith, slug_count-append slug xs ys)

pub port_count-append :
    (port : ℕ) (xs ys : List PortAllocation)
    → port_count port (xs ++ ys) ≡ port_count port xs + port_count port ys
port_count-append port [] ys = omega arith
port_count-append port (a ∷ xs) ys = omega (arith, port_count-append port xs ys)

used-port_count :
    (xs : List PortAllocation) (port : ℕ)
    → ((used xs port ≡ true) × (0 < port_count port xs))
      ⊎ ((used xs port ≡ false) × (port_count port xs ≡ 0))
unfolding used
used-port_count [] port = inr (refl, refl)
used-port_count (a ∷ xs) port = ground (arith, used-port_count xs port)

pub not_found :
    (slug : String) (xs : List PortAllocation)
    → get_port_for_project slug xs ≡ none
    → slug_count slug xs ≡ 0
unfolding get_port_for_project
not_found slug [] e = refl
not_found slug (a ∷ xs) e = ground (arith, not_found slug xs)

pub found-append :
    (slug : String) (port : ℕ) (xs : List PortAllocation)
    → get_port_for_project slug xs ≡ none
    → get_port_for_project slug (xs ++ record { project_slug = slug; proxy_port = port } ∷ [])
      ≡ some (record { project_slug = slug; proxy_port = port })
unfolding get_port_for_project
found-append slug port [] e = ground (arith, eq_refl slug)
found-append slug port (a ∷ xs) e = ground (arith, found-append slug port xs)

-- The loop finds the first free port of the ones that it tries, if there is one.
next_port_lem :
    (left port : ℕ) (xs : List PortAllocation)
    → ((p : ℕ) × (next_port left port xs ≡ some p)
        × (port ≤ p)
        × (p < port + left)
        × (port_count p xs ≡ 0))
      ⊎ ((next_port left port xs ≡ none)
          × ((q : ℕ) → port ≤ q → q < port + left → 0 < port_count q xs))
unfolding next_port
next_port_lem zero port xs = inr (refl, λ q a b. absurd (omega arith))
next_port_lem (suc left) port xs = elim (used-port_count xs port) [
  | inl (u, c) ↦ elim (next_port_lem left (suc port) xs) [
    | inl (p, e, a, b, n) ↦ inl (p, rw (u, next_port) e, omega arith, omega arith, n)
    | inr (e, all) ↦ inr (
      rw (u, next_port) e,
      λ q a b. elim (dec_lt port q) [
        | yes more ↦ all q (omega arith) (omega arith)
        | no here ↦ ground (arith, c)
      ],
    )
  ]
  | inr (u, c) ↦ inl (port, rw (u, next_port) refl, omega arith, omega arith, c)
]

abbrev pub allocation : String → ℕ → PortAllocation
allocation slug port = record { project_slug = slug; proxy_port = port }

pub append-IsValid :
    (slug : String) (p : ℕ) (xs : List PortAllocation)
    → IsValid xs
    → slug_count slug xs ≡ 0
    → port_count p xs ≡ 0
    → range_start ≤ p
    → p ≤ range_end
    → IsValid (xs ++ allocation slug p ∷ [])
append-IsValid slug p xs v new free low high = record {
  slugs = λ s.
      ground (arith, slug_count-append s xs (allocation slug p ∷ []), v.slugs s, eq_iff slug s);
  ports = λ q. ground (arith, port_count-append q xs (allocation slug p ∷ []), v.ports q);
  range = λ q m. ground (arith, port_count-append q xs (allocation slug p ∷ []), v.range q);
}

-- The three ways in which a call of `allocatePort` can go.
pub data Call (slug : String) (xs : List PortAllocation) : Type 0 where
  found :
      (a : PortAllocation)
      → get_port_for_project slug xs ≡ some a
      → allocate_port slug xs ≡ (some a, xs)
      → Call slug xs
  stored :
      (p : ℕ)
      → get_port_for_project slug xs ≡ none
      → range_start ≤ p
      → p ≤ range_end
      → port_count p xs ≡ 0
      → allocate_port slug xs ≡ (some (allocation slug p), xs ++ allocation slug p ∷ [])
      → Call slug xs
  exhausted :
      get_port_for_project slug xs ≡ none
      → ((q : ℕ) → range_start ≤ q → q ≤ range_end → 0 < port_count q xs)
      → allocate_port slug xs ≡ (none, xs)
      → Call slug xs

pub call_cases : (slug : String) (xs : List PortAllocation) → Call slug xs
unfolding allocate_port
call_cases slug xs = elim (Option-cases (get_port_for_project slug xs)) [
  | inr (a, e) ↦ found a e (rw (e, or_allocate) refl)
  | inl e ↦ elim (next_port_lem 1000 range_start xs) [
    | inr (n, all) ↦
        exhausted e (λ q a b. all q a (omega arith)) (rw (e, or_allocate, n, store) refl)
    | inl (p, n, a, b, free) ↦ stored p e a (omega arith) free (rw (e, or_allocate, n, store) refl)
  ]
]
