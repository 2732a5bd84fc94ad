-- ===== src/Derive/Sites.antt =====
-- Dependencies between sites, services/backend-api/internal/derive/site_topology.go. The closures
-- `visit` and `walk` recurse on fuel; `none` means that the call did not return.
use monitoring_project.Prelude.{
  ℕ, zero, suc, ◌+◌, ◌*◌, String, Bool, true, false, not, ◌||◌, ◌&&◌, Option, none, some, List, [],
  ◌∷◌, ◌++◌, ltb, ◌==◌, ◌=s=◌, if◌then◌else◌, trim_space, to_lower, equal_fold, contains, before,
  concat, length, Map, lookup, insert, keys, elem, sort_strings,
}
use monitoring_project.Derive.Status.{
  DeviceProjection, SiteHealthCounts, zero_counts, accumulate, status_unknown, status_critical,
}

infixl 5 ◌>>=◌
abbrev pub ◌>>=◌ : {A B : Type 0} → Option A → (A → Option B) → Option B
none >>= f = none
some a >>= f = f a

abbrev pub reason_upstream_site_unreachable : String
reason_upstream_site_unreachable = "upstream_site_unreachable"

pub record SiteTopologyNode : Type 0 where
  pub name : String
  pub upstream_site_ids : List String
  pub hub_device_ids : List String

pub record SiteDeviceHealth : Type 0 where
  pub inventory_device_id : String
  pub projection : DeviceProjection

pub record SiteRawHealth : Type 0 where
  pub devices : List SiteDeviceHealth
  pub counts : SiteHealthCounts

pub record SiteDependencyState : Type 0 where
  pub upstream_site_ids : List String
  pub unavailable_upstream_site_ids : List String
  pub root_cause_site_ids : List String
  pub site_dependency_impacted : Bool

abbrev pub Sites : Type 0
Sites = Map SiteTopologyNode

abbrev pub Raw : Type 0
Raw = Map SiteRawHealth

-- `index[name]`, `raw[name]` and `idByLower[key]`, with Go's zero values.
unfoldable pub node_of : Sites → String → SiteTopologyNode
node_of index name = elim (lookup name index) [
  | some n ↦ n
  | none ↦ record { name = ""; upstream_site_ids = []; hub_device_ids = [] }
]

unfoldable pub raw_of : Raw → String → SiteRawHealth
raw_of raw name = elim (lookup name raw) [
  | some r ↦ r
  | none ↦ record { devices = []; counts = zero_counts }
]

unfoldable pub text_of : Map String → String → String
text_of m k = elim (lookup k m) [ some v ↦ v | none ↦ "" ]

unfoldable pub build_site_topology_index : Sites → List SiteTopologyNode → Sites
build_site_topology_index out [] = out
build_site_topology_index out (n ∷ ns) = build_site_topology_index (insert n.name n out) ns

-- The sets and lists of `visit`.
pub record Visit : Type 0 where
  pub visited : List String
  pub out : List String

unfoldable pub visit_all : (String → Visit → Option Visit) → List String → Visit → Option Visit
visit_all call [] s = some s
visit_all call (id ∷ ids) s = do s' ← call id s; visit_all call ids s'

unfoldable pub visit : ℕ → Sites → String → Visit → Option Visit
unfolding visit_all node_of
visit zero index id s = none
visit (suc fuel) index id s = if elem id s.visited then some s else do
  s' ←
      visit_all (visit fuel index) (node_of index id).upstream_site_ids
        (record s { visited = id ∷ s.visited })
  some (record s' { out = s'.out ++ (id ∷ []) })

unfoldable pub topological_site_order : ℕ → Sites → Option (List String)
unfolding visit
topological_site_order fuel index = do
  s ← visit_all (visit fuel index) (sort_strings (keys index)) (record { visited = []; out = [] })
  some s.out

abbrev pub is_core : String → Bool
is_core lower = lower =s= "do-core" || contains lower "core"

unfoldable pub matching_mdf_site_id : String → Map String → String
unfolding text_of
matching_mdf_site_id lower_idf id_by_lower =
    if not (contains lower_idf "-idf") || before lower_idf "-idf" =s= ""
    then ""
    else text_of id_by_lower (concat (before lower_idf "-idf") "-mdf")

-- The first loop of `CompleteMissingSiteUpstreams`: the names by their lower case, and the core.
unfoldable pub scan_names : Sites → Map String × String → Map String × String
scan_names [] s = s
scan_names ((name, node) ∷ rest) (id_by_lower, core_id) =
    let lower = to_lower name in
    scan_names rest
      (insert lower name id_by_lower, if core_id =s= "" && is_core lower then name else core_id)

-- The body of the second loop, the upstreams that a site gets.
unfoldable pub complete_upstreams : Map String → String → String → List String → List String
unfolding matching_mdf_site_id
complete_upstreams id_by_lower core_id name upstreams =
    if ltb 0 (length upstreams)
    then upstreams
    else let lower = to_lower name in
      if is_core lower
      then upstreams
      else if contains lower "-idf"
      then (let mdf = matching_mdf_site_id lower id_by_lower in
          if not (mdf =s= "")
          then mdf ∷ []
          else if not (core_id =s= "")
          then core_id ∷ []
          else upstreams)
      else if contains lower "-mdf"
      then (if not (core_id =s= "") then core_id ∷ [] else upstreams)
      else upstreams

unfoldable pub complete_nodes : Map String → String → Sites → Sites
unfolding complete_upstreams
complete_nodes id_by_lower core_id [] = []
complete_nodes id_by_lower core_id ((name, node) ∷ rest) =
    (
      name,
      record node {
        upstream_site_ids = complete_upstreams id_by_lower core_id name node.upstream_site_ids;
      },
    )
    ∷ complete_nodes id_by_lower core_id rest

unfoldable pub complete_missing_site_upstreams : Sites → Sites
unfolding scan_names complete_nodes
complete_missing_site_upstreams index =
    let s = scan_names index ([], "") in complete_nodes s.0 s.1 index

unfoldable pub is_direct_failure_reason : String → Bool
is_direct_failure_reason reason =
    let r = to_lower (trim_space reason) in
    r =s= "direct_unreachable" || r =s= "poll_failed" || r =s= ""

unfoldable pub is_direct_critical : DeviceProjection → Bool
unfolding is_direct_failure_reason
is_direct_critical proj =
    proj.status == status_critical && is_direct_failure_reason proj.status_reason

unfoldable pub some_hub_critical : List String → List SiteDeviceHealth → Bool
unfolding is_direct_critical
some_hub_critical hubs [] = false
some_hub_critical hubs (d ∷ ds) =
    (elem d.inventory_device_id hubs && is_direct_critical d.projection)
    || some_hub_critical hubs ds

unfoldable pub site_unavailable : SiteRawHealth → SiteTopologyNode → Bool
unfolding some_hub_critical
site_unavailable raw node =
    if ltb 0 (length node.hub_device_ids)
    then some_hub_critical node.hub_device_ids raw.devices
    else ltb 0 raw.counts.critical_count

abbrev pub has_failed : SiteDeviceHealth → Bool
has_failed d = is_direct_critical d.projection || d.projection.status == status_unknown

unfoldable pub count_failed : List SiteDeviceHealth → ℕ
unfolding is_direct_critical
count_failed [] = 0
count_failed (d ∷ ds) = let rest = count_failed ds in if has_failed d then rest + 1 else rest

unfoldable pub site_shows_cascade_signature : SiteRawHealth → Bool
unfolding count_failed
site_shows_cascade_signature raw =
    if length raw.devices == 0
    then false
    else ltb (length raw.devices) (count_failed raw.devices * 2)

unfoldable pub walk_sites :
    (String → List String → Option (List String))
    → (String → Bool)
    → List String
    → List String × Bool
    → Option (List String × Bool)
walk_sites call is_unavailable [] s = some s
walk_sites call is_unavailable (up ∷ ups) (out, found) =
    if is_unavailable up
    then (do out' ← call up out; walk_sites call is_unavailable ups (out', true))
    else walk_sites call is_unavailable ups (out, found)

abbrev pub unavailable_in : Raw → Sites → String → Bool
unavailable_in raw index name = site_unavailable (raw_of raw name) (node_of index name)

-- `walk` of `collectRootCauseSites`; the set `seen` holds what `out` holds.
unfoldable pub walk : ℕ → Raw → Sites → String → List String → Option (List String)
unfolding walk_sites site_unavailable raw_of node_of
walk zero raw index name out = none
walk (suc fuel) raw index name out = if elem name out then some out else elim (lookup name index) [
  | none ↦ some out
  | some node ↦
      if not (site_unavailable (raw_of raw name) node)
      then some out
      else if length node.upstream_site_ids == 0
      then some (out ++ (name ∷ []))
      else do
        s ←
            walk_sites (walk fuel raw index) (unavailable_in raw index) node.upstream_site_ids
              (out, false)
        if s.1 then some s.0 else some (s.0 ++ (name ∷ []))
]

unfoldable pub walk_each :
    (String → List String → Option (List String)) → List String → List String → Option (List String)
walk_each call [] out = some out
walk_each call (name ∷ names) out = do out' ← call name out; walk_each call names out'

unfoldable pub collect_root_cause_sites : ℕ → List String → Raw → Sites → Option (List String)
unfolding walk walk_each
collect_root_cause_sites fuel unavailable raw index = do
  out ← walk_each (walk fuel raw index) unavailable []
  some (sort_strings out)

-- The first loop of `EvaluateSiteTopology`: which sites of the order are unavailable.
unfoldable pub mark_unavailable : Raw → Sites → List String → List String → List String
unfolding raw_of node_of site_unavailable
mark_unavailable raw index [] marked = marked
mark_unavailable raw index (name ∷ names) marked =
    mark_unavailable raw index names
      (if unavailable_in raw index name then name ∷ marked else marked)

unfoldable pub only_marked : List String → List String → List String
only_marked marked [] = []
only_marked marked (up ∷ ups) =
    let rest = only_marked marked ups in if elem up marked then up ∷ rest else rest

-- The body of the second loop.
unfoldable pub site_state : ℕ → Raw → Sites → List String → String → Option SiteDependencyState
unfolding only_marked site_shows_cascade_signature collect_root_cause_sites raw_of node_of
site_state fuel raw index marked name =
    let upstreams = (node_of index name).upstream_site_ids in
    let unavailable = sort_strings (only_marked marked upstreams) in
    let state : SiteDependencyState = record {
      upstream_site_ids = upstreams;
      unavailable_upstream_site_ids = unavailable;
      root_cause_site_ids = [];
      site_dependency_impacted = false;
    } in
    if ltb 0 (length upstreams)
      && length unavailable == length upstreams
      && site_shows_cascade_signature (raw_of raw name)
    then (do
      roots ← collect_root_cause_sites fuel unavailable raw index
      some (record state { site_dependency_impacted = true; root_cause_site_ids = roots }))
    else some state

unfoldable pub site_states :
    ℕ
    → Raw
    → Sites
    → List String
    → List String
    → Map SiteDependencyState
    → Option (Map SiteDependencyState)
unfolding site_state
site_states fuel raw index marked [] states = some states
site_states fuel raw index marked (name ∷ names) states = do
  state ← site_state fuel raw index marked name
  site_states fuel raw index marked names (insert name state states)

unfoldable pub evaluate_site_topology : ℕ → Sites → Raw → Option (Map SiteDependencyState)
unfolding complete_missing_site_upstreams topological_site_order mark_unavailable site_states
evaluate_site_topology fuel sites raw = do
  let index = complete_missing_site_upstreams sites
  order ← topological_site_order fuel index
  site_states fuel raw index (mark_unavailable raw index order []) order []

unfoldable pub apply_site_dependency_overlay :
    SiteDependencyState → DeviceProjection → DeviceProjection
unfolding is_direct_critical
apply_site_dependency_overlay state proj =
    if not state.site_dependency_impacted || not (is_direct_critical proj)
    then proj
    else record proj { status = status_unknown; status_reason = reason_upstream_site_unreachable }

-- The loop of `ProjectedSiteHealth`.
unfoldable pub projected_from : SiteHealthCounts → List DeviceProjection → SiteHealthCounts
unfolding accumulate
projected_from c [] = c
projected_from c (proj ∷ projs) =
    projected_from
      (if not proj.alerts_enabled
        then c
        else if equal_fold proj.status_reason reason_upstream_site_unreachable
        then record c {
          unknown_count = c.unknown_count + 1;
          dependency_impacted_count = c.dependency_impacted_count + 1;
        }
        else accumulate proj.status proj.unavailable_upstream_ids proj.alerts_enabled c)
      projs

unfoldable pub projected_site_health : List DeviceProjection → SiteHealthCounts
unfolding projected_from
projected_site_health devices = projected_from zero_counts devices
