-- ===== src/Ports/Samples.antt =====
-- Runs of the port allocator.
use dev_ops_deployment_tool.Common.{
  ◌≡◌, ◌↔◌, all_distinct-Distinct, includes, ◌≤◌, ◌<◌, ℕ, refl, List, [], ◌∷◌, none, some, arith,
}
use dev_ops_deployment_tool.Ports.{
  PortAllocation, range_start, range_end, get_port_for_project, allocate_port, release_port,
}
use dev_ops_deployment_tool.Ports.Calls.{IsValid, port_count}
use dev_ops_deployment_tool.Ports.Laws.{
  allocate_port-IsValid, allocate_port_throws, allocate_port_round_trip,
}

abbrev shop : PortAllocation
shop = record { project_slug = "shop"; proxy_port = 10000 }

abbrev blog : PortAllocation
blog = record { project_slug = "blog"; proxy_port = 10002 }

abbrev taken : List PortAllocation
taken = shop ∷ blog ∷ []

abbrev wiki : PortAllocation
wiki = record { project_slug = "wiki"; proxy_port = 10001 }

-- The lowest free port lies between the two.
allocate_port-taken : allocate_port "wiki" taken ≡ (some wiki, shop ∷ blog ∷ wiki ∷ [])
unfolding allocate_port
allocate_port-taken = refl

taken-IsValid : IsValid taken
unfolding includes
taken-IsValid = record {
  slugs = all_distinct-Distinct ("shop" ∷ "blog" ∷ []) refl;
  ports = λ p. ground arith;
  range = λ p m. ground arith;
}

allocate_port-IsValid_example :
    IsValid (allocate_port "wiki" taken).1 × IsValid (release_port "wiki" taken)
allocate_port-IsValid_example = allocate_port-IsValid "wiki" taken taken-IsValid

allocate_port_throws_example : ((allocate_port "wiki" taken).0 ≡ none) ↔ (
    (get_port_for_project "wiki" taken ≡ none)
    × ((port : ℕ) → range_start ≤ port → port ≤ range_end → 0 < port_count port taken))
allocate_port_throws_example = allocate_port_throws "wiki" taken

wiki_stored : (allocate_port "wiki" taken).0 ≡ some wiki
unfolding allocate_port
wiki_stored = refl

allocate_port_round_trip_example :
    (get_port_for_project "wiki" (allocate_port "wiki" taken).1 ≡ some wiki)
    × (allocate_port "wiki" (allocate_port "wiki" taken).1
        ≡ (some wiki, (allocate_port "wiki" taken).1))
    × (get_port_for_project "wiki" (release_port "wiki" (allocate_port "wiki" taken).1) ≡ none)
    × (get_port_for_project "shop" (allocate_port "wiki" taken).1
        ≡ get_port_for_project "shop" taken)
    × (get_port_for_project "shop" (release_port "wiki" taken) ≡ get_port_for_project "shop" taken)
allocate_port_round_trip_example =
    allocate_port_round_trip "wiki" "shop" wiki taken wiki_stored refl
