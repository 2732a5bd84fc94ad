-- ===== src/Topology.antt =====
-- The inference of upstreams from the links that switches report,
-- services/snmp-collector/internal/topology/infer.go. The probe of a device's neighbours is a
-- parameter. `range` over a set of neighbours goes through a list of them. The queue of `bfsParents`
-- has as much fuel as there are devices, and one more.
mod Tests
pub mod Lower
pub mod Search
pub mod Names
pub mod Links
pub mod Ranks
use monitoring_project.Prelude.{
  ℕ, zero, suc, String, Bool, true, false, not, ◌&&◌, ◌||◌, Option, none, some, List, [], ◌∷◌, ◌++◌,
  ◌=s=◌, ◌==◌, ltb, leb, if◌then◌else◌, Map, lookup, insert, elem, length, trim_space, to_lower,
  contains, has_prefix, before, concat,
}
use monitoring_project.Config.Types.{DeviceConfig}

-- `adj`: a set of neighbours for each device.
abbrev pub Adjacency : Type 0
Adjacency = Map (List String)

unfoldable pub neighbours_of : Adjacency → String → List String
neighbours_of adj id = elim (lookup id adj) [ none ↦ [] | some ns ↦ ns ]

-- `adj[a][b] = struct{}{}`
unfoldable pub link : String → String → Adjacency → Adjacency
link a b adj =
    let ns = neighbours_of adj a in insert a (if elem b ns then ns else ns ++ (b ∷ [])) adj

unfoldable pub add_edge : String → String → Adjacency → Adjacency
add_edge a b adj = if a =s= "" || b =s= "" || a =s= b then adj else link b a (link a b adj)

-- The loop over the neighbours that one device reports.
unfoldable pub add_neighbours : Map String → String → List String → Adjacency → Adjacency
add_neighbours host_to_id id [] adj = adj
add_neighbours host_to_id id (n ∷ ns) adj = elim (lookup n host_to_id) [
  | none ↦ add_neighbours host_to_id id ns adj
  | some nid ↦ add_neighbours host_to_id id ns (add_edge id nid adj)
]

-- The state of `bfsParents`.
pub record Bfs : Type 0 where
  pub seen : List String
  pub parent : Map String
  pub depth : Map ℕ
  pub queue : List String

-- `depth[id]`, 0 where there is none.
unfoldable pub depth_of : Map ℕ → String → ℕ
depth_of depth id = elim (lookup id depth) [ none ↦ 0 | some d ↦ d ]

unfoldable pub visit : String → String → Bfs → Bfs
visit cur neighbour s = record {
  seen = neighbour ∷ s.seen;
  parent = insert neighbour cur s.parent;
  depth = insert neighbour (suc (depth_of s.depth cur)) s.depth;
  queue = s.queue ++ (neighbour ∷ []);
}

-- The loop over the neighbours of the device that was taken from the queue.
unfoldable pub visit_all : String → List String → Bfs → Bfs
visit_all cur [] s = s
visit_all cur (n ∷ ns) s =
    if elem n s.seen then visit_all cur ns s else visit_all cur ns (visit cur n s)

unfoldable pub dequeue : List String → Bfs → Bfs
dequeue queue s = record s { queue = queue }

unfoldable pub search : ℕ → Adjacency → Bfs → Bfs
search zero adj s = s
search (suc fuel) adj s = elim (s.queue) [
  | [] ↦ s
  | cur ∷ queue ↦ search fuel adj (visit_all cur (neighbours_of adj cur) (dequeue queue s))
]

abbrev pub start : String → Bfs
start root = record { seen = root ∷ []; parent = []; depth = (root, 0) ∷ []; queue = root ∷ [] }

unfoldable pub naming_depth : String → ℕ
naming_depth id =
    let lower = to_lower id in
    if contains lower "core"
    then 0
    else if contains lower "-mdf"
    then 1
    else if contains lower "-idf"
    then 2
    else 1

unfoldable pub role_for_device : String → ℕ → String
role_for_device id depth =
    let lower = to_lower id in
    if contains lower "core" || depth == 0
    then "Core Switch"
    else if contains lower "-mdf"
    then "Distribution Switch"
    else if contains lower "-idf"
    then "Access Switch"
    else if depth == 1
    then "Distribution Switch"
    else "Access Switch"

-- The name of the distribution switch of an access switch, `lower[:i] + "-mdf"`.
unfoldable pub mdf_of : String → String
mdf_of id = concat (before (to_lower id) "-idf") "-mdf"

-- Whether `-idf` stands in the name, but not at its start.
unfoldable pub is_access : String → Bool
is_access id = contains (to_lower id) "-idf" && not (before (to_lower id) "-idf" =s= "")

unfoldable pub below_core : String → List String → String
below_core id ids =
    if (contains (to_lower id) "-mdf" || contains (to_lower id) "-idf") && elem "do-core" ids
    then "do-core"
    else ""

unfoldable pub naming_upstream : String → List String → String
naming_upstream id ids =
    if is_access id && elem (mdf_of id) ids then mdf_of id else below_core id ids

unfoldable pub name_one : List String → String → Map String × Map ℕ → Map String × Map ℕ
name_one ids id s = elim (lookup id s.1) [
  | some _ ↦ s
  | none ↦
      let up = naming_upstream id ids in
      (if up =s= "" then s.0 else insert id up s.0, insert id (naming_depth id) s.1)
]

-- `if p := parent[id]; p != ""`
unfoldable pub upstream_of : Map String → String → Option (List String)
upstream_of parent id = elim (lookup id parent) [
  | none ↦ none
  | some p ↦ if p =s= "" then none else some (p ∷ [])
]

module _ {F : Type 0} where
  unfoldable pub host_to_id : Map String → List (DeviceConfig F) → Map String
  host_to_id m [] = m
  host_to_id m (d ∷ ds) = host_to_id (insert (trim_space d.host) d.id m) ds

  unfoldable pub topology_ids : List (DeviceConfig F) → List String
  topology_ids [] = []
  topology_ids (d ∷ ds) = d.id ∷ topology_ids ds

  -- The loop that probes each device; `none` is an error of the probe.
  unfoldable pub probe_all :
      (String → Option (List String)) → Map String → List (DeviceConfig F) → Adjacency → Adjacency
  probe_all probe hosts [] adj = adj
  probe_all probe hosts (d ∷ ds) adj = elim (probe d.host) [
    | none ↦ probe_all probe hosts ds adj
    | some ns ↦ probe_all probe hosts ds (add_neighbours hosts d.id ns adj)
  ]

  -- The first loop of `pickRoot`. An id that `EqualFold` takes for do-core contains core.
  unfoldable pub named_core : List (DeviceConfig F) → Option String
  named_core [] = none
  named_core (d ∷ ds) = if contains (to_lower d.id) "core" then some d.id else named_core ds

  -- The second loop, with the best id and its degree; no degree stands for -1.
  unfoldable pub best_degree : Adjacency → String → Option ℕ → List (DeviceConfig F) → String
  best_degree adj best degree [] = best
  best_degree adj best none (d ∷ ds) =
      best_degree adj d.id (some (length (neighbours_of adj d.id))) ds
  best_degree adj best (some n) (d ∷ ds) =
      let k = length (neighbours_of adj d.id) in
      if ltb n k then best_degree adj d.id (some k) ds else best_degree adj best (some n) ds

  unfoldable pub pick_root : String → List (DeviceConfig F) → Adjacency → String
  pick_root first devices adj = elim (named_core devices) [
    | some id ↦ id
    | none ↦ best_degree adj first none devices
  ]

  -- The loop over the devices that the search did not meet.
  unfoldable pub name_all :
      List String → List (DeviceConfig F) → Map String × Map ℕ → Map String × Map ℕ
  name_all ids [] s = s
  name_all ids (d ∷ ds) s = name_all ids ds (name_one ids d.id s)

  unfoldable pub bfs_parents : String → Adjacency → List (DeviceConfig F) → Map String × Map ℕ
  bfs_parents root adj devices =
      let s = search (suc (length devices)) adj (start root) in
      name_all (topology_ids devices) devices (s.parent, s.depth)

  unfoldable pub enrich_device : Map String × Map ℕ → DeviceConfig F → DeviceConfig F
  enrich_device s d = record d {
    role = role_for_device d.id (depth_of s.1 d.id);
    upstream_device_ids = upstream_of s.0 d.id;
  }

  unfoldable pub enrich_all : Map String × Map ℕ → List (DeviceConfig F) → List (DeviceConfig F)
  enrich_all s [] = []
  enrich_all s (d ∷ ds) = enrich_device s d ∷ enrich_all s ds

  unfoldable pub enrich :
      (String → Option (List String)) → List (DeviceConfig F) → List (DeviceConfig F)
  enrich probe [] = []
  enrich probe (d ∷ ds) =
      let devices = d ∷ ds in
      let adj = probe_all probe (host_to_id [] devices) devices [] in
      enrich_all (bfs_parents (pick_root d.id devices adj) adj devices) devices
