-- ===== src/Health/Order.antt =====
-- `topologicalOrder`, `buildDeviceIndex` and `normalizeIDs` of tracker.go. The loop over the queue
-- takes fuel; it removes one id a round, and no id is queued twice.
use monitoring_project.Prelude.{
  ℕ, zero, suc, String, none, some, List, [], ◌∷◌, ◌++◌, ◌=s=◌, if◌then◌else◌, Map, lookup, insert,
  keys, elem, length, ltb, sort_strings,
}
use monitoring_project.Prelude.Int.{ℤ, pos, pred_ℤ, suc_ℤ, is_zero}
use monitoring_project.Health.Types.{DeviceConfig}

-- The loop of `normalizeIDs`; the set `seen` holds what `out` holds.
unfoldable pub add_id : String → List String → List String
add_id id out = if id =s= "" then out else if elem id out then out else out ++ (id ∷ [])

unfoldable pub dedup : List String → List String → List String
unfolding add_id
dedup out [] = out
dedup out (id ∷ ids) = dedup (add_id id out) ids

unfoldable pub normalize_ids : List String → List String
unfolding dedup
normalize_ids ids = sort_strings (dedup [] ids)

abbrev pub Index : Type 0 → Type 0
Index F = Map (DeviceConfig F)

unfoldable pub build_device_index : {F : Type 0} → Index F → List (DeviceConfig F) → Index F
build_device_index index [] = index
build_device_index index (d ∷ ds) = build_device_index (insert d.id d index) ds

-- `m[k]` of a map of counters, and of a map of lists.
unfoldable pub degree_of : Map ℤ → String → ℤ
degree_of m k = elim (lookup k m) [ some z ↦ z | none ↦ pos 0 ]

unfoldable pub children_of : Map (List String) → String → List String
children_of m k = elim (lookup k m) [ some l ↦ l | none ↦ [] ]

pub record Graph : Type 0 where
  pub indegree : Map ℤ
  pub children : Map (List String)

-- One device's edges, then all devices'.
unfoldable pub add_edges : {F : Type 0} → Index F → String → List String → Graph → Graph
unfolding degree_of children_of
add_edges index id [] g = g
add_edges index id (up ∷ ups) g = add_edges index id ups (elim (lookup up index) [
  | none ↦ g
  | some _ ↦ record {
    indegree = insert id (suc_ℤ (degree_of g.indegree id)) g.indegree;
    children = insert up (children_of g.children up ++ (id ∷ [])) g.children;
  }
])

unfoldable pub build_graph : {F : Type 0} → Index F → Index F → Graph → Graph
unfolding add_edges
build_graph index [] g = g
build_graph index ((id, device) ∷ rest) g =
    build_graph index rest (add_edges index id (normalize_ids device.upstream_device_ids) g)

-- The ids of `ids` with no incoming edge.
unfoldable pub roots : Map ℤ → List String → List String
unfolding degree_of
roots indegree [] = []
roots indegree (id ∷ ids) =
    let rest = roots indegree ids in if is_zero (degree_of indegree id) then id ∷ rest else rest

-- `for _, child := range children[id]`, over the queue and the counters.
unfoldable pub release : List String → List String × Map ℤ → List String × Map ℤ
unfolding degree_of
release [] s = s
release (child ∷ rest) (queue, indegree) =
    let d = pred_ℤ (degree_of indegree child) in
    release rest
      ((if is_zero d then sort_strings (queue ++ (child ∷ [])) else queue), insert child d indegree)

-- The main loop: the order so far, and what is still queued when the fuel is out.
unfoldable pub drain :
    ℕ → Map (List String) → List String → Map ℤ → List String → List String × List String
unfolding release children_of
drain fuel children [] indegree order = (order, [])
drain zero children (id ∷ queue) indegree order = (order, id ∷ queue)
drain (suc fuel) children (id ∷ queue) indegree order =
    let s = release (sort_strings (children_of children id)) (queue, indegree) in
    drain fuel children s.0 s.1 (order ++ (id ∷ []))

-- The ids of a cycle, which the loop leaves out, follow in their order.
unfoldable pub append_missing : List String → List String → List String → List String
append_missing seen [] order = order
append_missing seen (id ∷ ids) order =
    append_missing seen ids (if elem id seen then order else order ++ (id ∷ []))

unfoldable pub complete_order : List String → List String → List String
unfolding append_missing
complete_order order ids =
    if ltb (length order) (length ids) then append_missing order ids order else order

unfoldable pub topological_order : {F : Type 0} → Index F → List String
unfolding build_graph roots drain complete_order
topological_order index =
    let ids = sort_strings (keys index) in
    let g = build_graph index index (record { indegree = []; children = [] }) in
    let result = drain (length ids) g.children (roots g.indegree ids) g.indegree [] in
    complete_order result.0 ids
