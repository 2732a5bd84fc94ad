-- ===== src/Topology/Tests.antt =====
-- A run of the inference of upstreams, and the theorem at it.
use monitoring_project.Prelude.{
  ℕ, ◌≡◌, refl, String, Option, none, some, List, [], ◌∷◌, ◌=s=◌, if◌then◌else◌, map, elem, lookup,
  insert, to_lower, contains, has_prefix, before, trim_space,
}
use monitoring_project.Prelude.Results.{ok}
use monitoring_project.Config.Types.{DeviceConfig, upstreams}
use monitoring_project.Config.Inventory.{bare_device}
use monitoring_project.Config.Dependencies.{validate_dependencies}
use monitoring_project.Topology.{
  enrich, enrich_all, enrich_device, upstream_of, bfs_parents, name_all, name_one, naming_upstream,
  below_core, is_access, mdf_of, role_for_device, naming_depth, pick_root, best_degree, named_core,
  probe_all, add_neighbours, add_edge, link, neighbours_of, host_to_id, topology_ids, search,
  dequeue, visit_all, visit, depth_of,
}
use monitoring_project.Topology.Ranks.{searched, enrich-accepted}

program : Unit {0}
unfolding enrich enrich_all enrich_device upstream_of bfs_parents name_all name_one naming_upstream
    below_core is_access mdf_of role_for_device naming_depth pick_root best_degree named_core
    probe_all add_neighbours add_edge link neighbours_of host_to_id topology_ids search dequeue
    visit_all visit depth_of elem lookup insert to_lower contains has_prefix before trim_space
    upstreams
program = tt

abbrev switch : String → String → DeviceConfig ℕ
switch id host = record (bare_device id none) { host = host }

-- An access switch that answers no probe, and a core with a distribution switch.
abbrev switches : List (DeviceConfig ℕ)
switches =
    switch "North-IDF-2" "10.0.0.3"
    ∷ switch "north-mdf" "10.0.0.2"
    ∷ switch "do-core" "10.0.0.1"
    ∷ []

abbrev links : String → Option (List String)
links h =
    if h =s= "10.0.0.1"
    then some ("10.0.0.2" ∷ "10.9.9.9" ∷ [])
    else if h =s= "10.0.0.2"
    then some ("10.0.0.1" ∷ [])
    else none

switches_enriched :
    map {B = String × List String} (λ d. (d.role, upstreams d)) (enrich links switches)
    ≡ ("Access Switch", "north-mdf" ∷ [])
      ∷ ("Distribution Switch", "do-core" ∷ [])
      ∷ ("Core Switch", [])
      ∷ []
unfolding program
switches_enriched = refl

enrich-accepted_example :
    ((searched links
        (switch "North-IDF-2" "10.0.0.3")
        (switch "north-mdf" "10.0.0.2" ∷ switch "do-core" "10.0.0.1" ∷ [])).queue
      ≡ [])
    × (validate_dependencies (enrich links switches) ≡ some (ok tt))
enrich-accepted_example =
    enrich-accepted links (switch "North-IDF-2" "10.0.0.3")
      (switch "north-mdf" "10.0.0.2" ∷ switch "do-core" "10.0.0.1" ∷ [])
