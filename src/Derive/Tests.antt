-- ===== src/Derive/Tests.antt =====
-- Runs of the derivation, and the theorems at them.
use monitoring_project.Prelude.{
  ℕ, ◌+◌, ◌≤◌, ◌≡◌, refl, inl, inr, String, Bool, true, false, ◌||◌, none, some, List, [], ◌∷◌,
  ◌=s=◌, eq_iff, if◌then◌else◌, lookup, insert, keys, elem, IsDistinct, IsWithin, IsSorted, sort_by,
  trim_space, to_lower, contains, before, arith, Bool-cases,
}
use monitoring_project.Derive.Status.{DeviceProjection, zero_counts, site_status_from_health}
use monitoring_project.Derive.Sites.{
  SiteTopologyNode, SiteRawHealth, Sites, Raw, node_of, raw_of, site_unavailable, walk,
  collect_root_cause_sites, topological_site_order, complete_missing_site_upstreams,
  evaluate_site_topology, projected_site_health,
}
use monitoring_project.Derive.Counts.{
  projected_site_health-total, site_status_of_devices, any, raises_alert, raises_caution,
}
use monitoring_project.Derive.Roots.{
  IsTrapped, site_walk-IsTrapped, AreRoots, collect_root_cause_sites-returns,
}
use monitoring_project.Derive.Visits.{IsClosed, topological_site_order-returns}

program : Unit {0}
unfolding evaluate_site_topology lookup insert keys elem sort_by trim_space to_lower contains before
    complete_missing_site_upstreams
program = tt

abbrev broken : DeviceProjection
broken = record {
  status = 3;
  status_reason = "direct_unreachable";
  failure_count = none;
  upstream_device_ids = [];
  unavailable_upstream_ids = [];
  root_cause_device_ids = [];
  alerts_enabled = true;
}

abbrev broken_site : SiteRawHealth
broken_site = record {
  devices = record { inventory_device_id = "sw1"; projection = broken } ∷ [];
  counts = record zero_counts { critical_count = 1 };
}

abbrev site : String → List String → String × SiteTopologyNode
site name ups = (name, record { name = name; upstream_site_ids = ups; hub_device_ids = [] })

-- The operator put the core below an MDF site, which has no upstream: no cycle.
abbrev configured : Sites
configured = site "do-core" ("a-mdf" ∷ []) ∷ site "a-mdf" [] ∷ []

-- The naming rule then puts the MDF site below the core.
abbrev completed : Sites
completed = site "do-core" ("a-mdf" ∷ []) ∷ site "a-mdf" ("do-core" ∷ []) ∷ []

completed_run : complete_missing_site_upstreams configured ≡ completed
unfolding program
completed_run = refl

abbrev all_broken : Raw
all_broken = ("do-core", broken_site) ∷ ("a-mdf", broken_site) ∷ []

in_cycle : String → Bool
in_cycle name = name =s= "do-core" || name =s= "a-mdf"

completed-IsTrapped : IsTrapped in_cycle all_broken completed
unfolding in_cycle lookup raw_of site_unavailable
completed-IsTrapped name h = elim (Bool-cases (name =s= "do-core")) [
  | inl e ↦
      rw ((eq_iff name "do-core").0 e)
        ((site "do-core" ("a-mdf" ∷ [])).1, "a-mdf", [], refl, refl, refl, refl)
  | inr n ↦
      rw ((eq_iff name "a-mdf").0 (ground arith))
        ((site "a-mdf" ("do-core" ∷ [])).1, "do-core", [], refl, refl, refl, refl)
]

site_walk-IsTrapped_example : walk 1000 all_broken completed "do-core" [] ≡ none
unfolding in_cycle elem
site_walk-IsTrapped_example =
    site_walk-IsTrapped all_broken completed in_cycle completed-IsTrapped 1000 "do-core" [] refl
      (λ x h. refl)

-- So `EvaluateSiteTopology` does not return when both sites are down.
evaluation_lost : evaluate_site_topology 50 configured all_broken ≡ none
unfolding program
evaluation_lost = refl

abbrev chain : Sites
chain = site "core" [] ∷ site "idf" ("core" ∷ []) ∷ []

abbrev core_down : Raw
core_down = ("core", broken_site) ∷ ("idf", broken_site) ∷ []

chain_run :
    evaluate_site_topology 5 chain core_down
    ≡ some (
        (
          "core",
          record {
            upstream_site_ids = [];
            unavailable_upstream_site_ids = [];
            root_cause_site_ids = [];
            site_dependency_impacted = false;
          },
        )
        ∷ (
          "idf",
          record {
            upstream_site_ids = "core" ∷ [];
            unavailable_upstream_site_ids = "core" ∷ [];
            root_cause_site_ids = "core" ∷ [];
            site_dependency_impacted = true;
          },
        )
        ∷ [])
unfolding program
chain_run = refl

abbrev rank : String → ℕ
rank name = if name =s= "core" then 0 else 1

collect_root_cause_sites-returns_example :
    (out : List String) × (collect_root_cause_sites 2 ("core" ∷ []) core_down chain ≡ some out)
    × AreRoots core_down chain out
    × IsSorted out
collect_root_cause_sites-returns_example =
    collect_root_cause_sites-returns core_down chain rank (tt, ((omega arith, tt), tt)) 2
      (λ name. ground arith) ("core" ∷ [])

chain-IsClosed : IsClosed completed ("do-core" ∷ "a-mdf" ∷ [])
unfolding elem node_of lookup
chain-IsClosed x h = elim (Bool-cases (x =s= "do-core")) [
  | inl e ↦ rw ((eq_iff x "do-core").0 e) (refl, tt)
  | inr n ↦ rw ((eq_iff x "a-mdf").0 (ground arith)) (refl, tt)
]

topological_site_order-returns_example :
    (order : List String) × (topological_site_order 3 completed ≡ some order)
    × IsDistinct order
    × IsWithin order ("do-core" ∷ "a-mdf" ∷ [])
    × IsWithin (keys completed) order
unfolding keys
topological_site_order-returns_example =
    topological_site_order-returns completed ("do-core" ∷ "a-mdf" ∷ []) chain-IsClosed 3
      (omega arith) (λ x h. h)

projected_site_health-total_example :
    let c = projected_site_health (broken ∷ []) in
    (c.healthy_count + c.warning_count + c.critical_count + c.unknown_count ≡ 1)
    × (c.dependency_impacted_count ≤ c.unknown_count)
projected_site_health-total_example = projected_site_health-total (broken ∷ []) (omega arith, tt)

site_status_of_devices_example : site_status_from_health (projected_site_health (broken ∷ [])) ≡ (
    if any raises_alert (broken ∷ [])
    then "alert"
    else if any raises_caution (broken ∷ [])
    then "caution"
    else "ok")
site_status_of_devices_example = site_status_of_devices (broken ∷ [])
