-- ===== src/Topology/Links.antt =====
-- The links that `Enrich`, services/snmp-collector/internal/topology/infer.go, collects join
-- devices of the inventory, and the root is one of them.
use monitoring_project.Prelude.{
  ℕ, ◌≡◌, refl, sym, ◌∙◌, inl, inr, String, true, ◌||◌, Option, none, some, List, [], ◌∷◌, ◌++◌,
  ◌=s=◌, if◌then◌else◌, ltb, Map, lookup, insert, lookup-insert, elem, length, All, All-append,
  arith, Bool-cases, Option-cases, to_lower, contains, trim_space,
}
use monitoring_project.Config.Types.{DeviceConfig}
use monitoring_project.Topology.{
  Adjacency, neighbours_of, link, add_edge, add_neighbours, host_to_id, probe_all, named_core,
  best_degree, pick_root,
}

module _ (ids : List String) where
  -- All neighbours are among the ids.
  abbrev pub AreLinks : Adjacency → Type 0
  AreLinks adj = (x : String) → All (λ n. elem n ids ≡ true) (neighbours_of adj x)

  neighbours_of-insert :
      (a x : String) (ns : List String) (adj : Adjacency)
      → neighbours_of (insert a ns adj) x ≡ (if a =s= x then ns else neighbours_of adj x)
  unfolding neighbours_of
  neighbours_of-insert a x ns adj = ground (arith, lookup-insert a x ns adj)

  link-AreLinks :
      (a b : String) (adj : Adjacency) → elem b ids ≡ true → AreLinks adj → AreLinks (link a b adj)
  unfolding link
  link-AreLinks a b adj h l x =
      let ns = neighbours_of adj a in
      rw (neighbours_of-insert a x (if elem b ns then ns else ns ++ (b ∷ [])) adj)
        (elim (Bool-cases (a =s= x)) [
          | inr e ↦ rw e (l x)
          | inl e ↦ elim (Bool-cases (elem b ns)) [
            | inl q ↦ rw (e, q) (l a)
            | inr q ↦ rw (e, q) (All-append (λ n. elem n ids ≡ true) ns (b ∷ []) (l a) (h, tt))
          ]
        ])

  add_edge-AreLinks :
      (a b : String) (adj : Adjacency)
      → elem a ids ≡ true
      → elem b ids ≡ true
      → AreLinks adj
      → AreLinks (add_edge a b adj)
  unfolding add_edge
  add_edge-AreLinks a b adj h k l = elim (Bool-cases (a =s= "" || b =s= "" || a =s= b)) [
    | inl e ↦ rw (e, add_edge) l
    | inr e ↦ rw (e, add_edge) (link-AreLinks b a (link a b adj) h (link-AreLinks a b adj k l))
  ]

  abbrev AreHosts : Map String → Type 0
  AreHosts hosts = (h id : String) → lookup h hosts ≡ some id → elem id ids ≡ true

  add_neighbours-AreLinks :
      (hosts : Map String) (id : String) (ns : List String) (adj : Adjacency)
      → AreHosts hosts
      → elem id ids ≡ true
      → AreLinks adj
      → AreLinks (add_neighbours hosts id ns adj)
  unfolding add_neighbours
  add_neighbours-AreLinks hosts id [] adj g h l = l
  add_neighbours-AreLinks hosts id (n ∷ ns) adj g h l = elim (Option-cases (lookup n hosts)) [
    | inl e ↦ rw (e, add_neighbours) (add_neighbours-AreLinks hosts id ns adj g h l)
    | inr (k, e) ↦
        rw (e, add_neighbours)
          (add_neighbours-AreLinks hosts id ns (add_edge id k adj) g h
            (add_edge-AreLinks id k adj h (g n k e) l))
  ]

  module _ {F : Type 0} where
    abbrev pub AreDevices : List (DeviceConfig F) → Type 0
    AreDevices ds = All (λ d. elem d.id ids ≡ true) ds

    host_to_id-AreHosts :
        (m : Map String) (ds : List (DeviceConfig F))
        → AreHosts m
        → AreDevices ds
        → AreHosts (host_to_id m ds)
    unfolding host_to_id
    host_to_id-AreHosts m [] g a = g
    host_to_id-AreHosts m (d ∷ ds) g a =
        host_to_id-AreHosts (insert (trim_space d.host) d.id m) ds
          (λ h id k. elim (Bool-cases (trim_space d.host =s= h)) [
            | inl e ↦
                let q : lookup h (insert (trim_space d.host) d.id m) ≡ some d.id =
                  lookup-insert (trim_space d.host) h d.id m ∙ rw e refl in
                rw (sym (some_inj (sym q ∙ k))) a.0
            | inr e ↦
                let q : lookup h (insert (trim_space d.host) d.id m) ≡ lookup h m =
                  lookup-insert (trim_space d.host) h d.id m ∙ rw e refl in
                g h id (sym q ∙ k)
          ])
          a.1
      where
        some_inj : {A : Type 0} {a b : A} → some a ≡ some b → a ≡ b
        some_inj h = cc

    probe_all-AreLinks :
        (probe : String → Option (List String)) (hosts : Map String) (ds : List (DeviceConfig F))
        (adj : Adjacency)
        → AreHosts hosts
        → AreDevices ds
        → AreLinks adj
        → AreLinks (probe_all probe hosts ds adj)
    unfolding probe_all
    probe_all-AreLinks probe hosts [] adj g a l = l
    probe_all-AreLinks probe hosts (d ∷ ds) adj g a l = elim (Option-cases (probe d.host)) [
      | inl e ↦ rw (e, probe_all) (probe_all-AreLinks probe hosts ds adj g a.1 l)
      | inr (ns, e) ↦
          rw (e, probe_all)
            (probe_all-AreLinks probe hosts ds (add_neighbours hosts d.id ns adj) g a.1
              (add_neighbours-AreLinks hosts d.id ns adj g a.0 l))
    ]

    named_core-known :
        (ds : List (DeviceConfig F)) (id : String)
        → AreDevices ds
        → named_core ds ≡ some id
        → elem id ids ≡ true
    unfolding named_core
    named_core-known [] id a h = absurd (cc)
    named_core-known (d ∷ ds) id a h = elim (Bool-cases (contains (to_lower d.id) "core")) [
      | inl e ↦ rw (sym (some_inj (rw (e, named_core) at h))) a.0
      | inr e ↦ named_core-known ds id a.1 (rw (e, named_core) at h)
    ]
      where
        some_inj : {A : Type 0} {a b : A} → some a ≡ some b → a ≡ b
        some_inj h = cc

    best_degree-known :
        (adj : Adjacency) (best : String) (degree : Option ℕ) (ds : List (DeviceConfig F))
        → elem best ids ≡ true
        → AreDevices ds
        → elem (best_degree adj best degree ds) ids ≡ true
    unfolding best_degree
    best_degree-known adj best degree [] h a = h
    best_degree-known adj best none (d ∷ ds) h a = best_degree-known adj d.id _ ds a.0 a.1
    best_degree-known adj best (some n) (d ∷ ds) h a =
        elim (Bool-cases (ltb n (length (neighbours_of adj d.id)))) [
          | inl e ↦ rw (e, best_degree) (best_degree-known adj d.id _ ds a.0 a.1)
          | inr e ↦ rw (e, best_degree) (best_degree-known adj best (some n) ds h a.1)
        ]

    pub pick_root-known :
        (first : String) (ds : List (DeviceConfig F)) (adj : Adjacency)
        → elem first ids ≡ true
        → AreDevices ds
        → elem (pick_root first ds adj) ids ≡ true
    unfolding pick_root
    pick_root-known first ds adj h a = elim (Option-cases (named_core ds)) [
      | inl e ↦ rw (e, pick_root) (best_degree-known adj first none ds h a)
      | inr (id, e) ↦ rw (e, pick_root) (named_core-known ds id a e)
    ]

    pub probed-AreLinks :
        (probe : String → Option (List String)) (ds : List (DeviceConfig F))
        → AreDevices ds
        → AreLinks (probe_all probe (host_to_id [] ds) ds [])
    unfolding neighbours_of lookup
    probed-AreLinks probe ds a =
        probe_all-AreLinks probe (host_to_id [] ds) ds []
          (host_to_id-AreHosts [] ds (λ h id k. absurd (cc)) a) a (λ x. tt)
