-- ===== src/Ports.antt =====
-- apps/runner/src/deployers/port-allocator.ts. The file ~/.deployx/ports.json is the list of
-- allocations that `readPortsFile` finds in it, which is empty for a file that cannot be read.
-- `Ports.Calls` has how a call can go, `Ports.Laws` what the three operations keep and change, `Ports.Samples` their runs.
pub mod Calls
pub mod Laws
pub mod Samples
use dev_ops_deployment_tool.Common.{
  ℕ, zero, suc, String, Bool, true, false, ◌||◌, not, List, [], ◌∷◌, ◌++◌, Option, none, some,
  str_eq, ◌==◌, if◌then◌else◌,
}

pub record PortAllocation : Type 0 where
  pub project_slug : String
  pub proxy_port : ℕ

-- `DEPLOYER_PORT_RANGE_START` and `DEPLOYER_PORT_RANGE_END`
abbrev pub range_start : ℕ
range_start = 10000

abbrev pub range_end : ℕ
range_end = 10999

-- `getPortForProject`
unfoldable pub get_port_for_project : String → List PortAllocation → Option PortAllocation
get_port_for_project slug [] = none
get_port_for_project slug (a ∷ allocations) =
    if str_eq a.project_slug slug then some a else get_port_for_project slug allocations

-- `usedPorts.has(port)`
unfoldable pub used : List PortAllocation → ℕ → Bool
used [] port = false
used (a ∷ allocations) port = (a.proxy_port == port) || used allocations port

-- The loop over the ports, `left` of which are still to be tried.
unfoldable pub next_port : (left : ℕ) → (port : ℕ) → List PortAllocation → Option ℕ
unfolding used
next_port zero port allocations = none
next_port (suc left) port allocations = elim (used allocations port) [
  | true ↦ next_port left (suc port) allocations
  | false ↦ some port
]

-- What `allocatePort` returns, and the allocations that it leaves; `none` for the error that the range
-- is exhausted.
abbrev pub store :
    String → Option ℕ → List PortAllocation → Option PortAllocation × List PortAllocation
store slug none allocations = (none, allocations)
store slug (some port) allocations =
    let allocation : PortAllocation = record { project_slug = slug; proxy_port = port } in
    (some allocation, allocations ++ allocation ∷ [])

abbrev pub or_allocate :
    String
    → Option PortAllocation
    → List PortAllocation
    → Option PortAllocation × List PortAllocation
or_allocate slug (some existing) allocations = (some existing, allocations)
or_allocate slug none allocations = store slug (next_port 1000 range_start allocations) allocations

-- `allocatePort`
unfoldable pub allocate_port :
    String → List PortAllocation → Option PortAllocation × List PortAllocation
unfolding get_port_for_project next_port
allocate_port slug allocations =
    or_allocate slug (get_port_for_project slug allocations) allocations

-- `releasePort`
unfoldable pub release_port : String → List PortAllocation → List PortAllocation
release_port slug [] = []
release_port slug (a ∷ allocations) =
    if str_eq a.project_slug slug
    then release_port slug allocations
    else a ∷ release_port slug allocations
