-- ===== src/Topology/Ranks.antt =====
-- The upstreams that `Enrich`, services/snmp-collector/internal/topology/infer.go, gives the devices
-- are accepted by the checks of the configuration.
use monitoring_project.Prelude.{
  ℕ, suc, ◌+◌, ◌<◌, ◌≡◌, refl, ◌∙◌, ap, inl, inr, String, true, false, ◌||◌, Option, none, some,
  List, [], ◌∷◌, ◌=s=◌, eq_iff, Map, lookup, insert, keys, elem, elem-keys-insert, IsDistinct,
  length, All, All-weaken, All-insert, All-lookup, All-elem, arith, Bool-cases, Option-cases,
}
use monitoring_project.Prelude.Results.{ok}
use monitoring_project.Config.Types.{DeviceConfig, upstreams}
use monitoring_project.Config.Dependencies.{by_id, upstreams_of, validate_dependencies}
use monitoring_project.Config.Cycles.{IsRanking}
use monitoring_project.Config.Accepts.{AreReferences, validate_dependencies-IsRanking}
use monitoring_project.Topology.{
  Bfs, start, search, topology_ids, name_all, bfs_parents, upstream_of, enrich_device, enrich_all,
  probe_all, host_to_id, pick_root, enrich,
}
use monitoring_project.Topology.Search.{Inv, search-Inv, start-Inv}
use monitoring_project.Topology.Names.{rank_of, IsHinted, naming_upstream-ranks, name_all-IsHinted}
use monitoring_project.Topology.Links.{AreDevices, pick_root-known, probed-AreLinks}

rank_of-lt : (x : String) → rank_of x < 3
unfolding rank_of
rank_of-lt x = ground arith

-- A device that the search measured ranks by its distance from the root, any other above all of
-- those, by its name.
rank_in : Map ℕ → ℕ → String → ℕ
rank_in depth bound x = elim (lookup x depth) [ some d ↦ d | none ↦ bound + rank_of x ]

rank_in-lt :
    (depth : Map ℕ) (bound : ℕ)
    → ((x : String) (d : ℕ) → lookup x depth ≡ some d → d < bound)
    → (x : String) → rank_in depth bound x < bound + 3
unfolding rank_in
rank_in-lt depth bound below x = elim (Option-cases (lookup x depth)) [
  | inl e ↦ rw (e, rank_in) (omega (arith, rank_of-lt x))
  | inr (d, e) ↦ rw (e, rank_in) (omega (arith, below x d e))
]

rank_in-measured :
    (depth : Map ℕ) (bound d : ℕ) (x : String) → lookup x depth ≡ some d → rank_in depth bound x ≡ d
unfolding rank_in
rank_in-measured depth bound d x e = rw (e, rank_in) refl

rank_in-unmeasured :
    (depth : Map ℕ) (bound : ℕ) (x : String)
    → lookup x depth ≡ none
    → rank_in depth bound x ≡ bound + rank_of x
unfolding rank_in
rank_in-unmeasured depth bound x e = rw (e, rank_in) refl

-- Whatever the hint, the parent ranks below.
hint-ranks :
    (ids : List String) (s : Bfs) (v : Inv ids s) (hinted : Map String) (x p : String)
    → IsHinted ids s.parent s.depth hinted
    → lookup x hinted ≡ some p
    → (rank_in s.depth v.bound p < rank_in s.depth v.bound x) × (elem p ids ≡ true)
hint-ranks ids s v hinted x p h e = elim (h x p e) [
  | inl k ↦
      let (d, a, b, known) = v.parents x p k in
      let rx = rank_in-measured s.depth v.bound (suc d) x a in
      let rp = rank_in-measured s.depth v.bound d p b in (omega (arith, rx, rp), known)
  | inr (free, up, n) ↦
      let (lower, known) = naming_upstream-ranks x ids p up n in
      let rx = rank_in-unmeasured s.depth v.bound x free in
      (
        elim (Option-cases (lookup p s.depth)) [
          | inl q ↦ let rp = rank_in-unmeasured s.depth v.bound p q in omega (arith, rx, rp, lower)
          | inr (d, q) ↦
              let rp = rank_in-measured s.depth v.bound d p q in
              omega (arith, rx, rp, v.below p d q)
        ],
        known,
      )
]

listed : Option (List String) → List String
listed none = []
listed (some us) = us

-- The upstreams of one device.
IsLower : List String → (String → ℕ) → String → List String → Type 0
IsLower ids rank x us = IsDistinct us × All (λ u. (rank u < rank x) × (elem u ids ≡ true)) us

upstream_of-IsLower :
    (ids : List String) (rank : String → ℕ) (parent : Map String) (x : String)
    → ((p : String) → lookup x parent ≡ some p → (rank p < rank x) × (elem p ids ≡ true))
    → IsLower ids rank x (listed (upstream_of parent x))
unfolding upstream_of listed IsLower elem
upstream_of-IsLower ids rank parent x h = elim (Option-cases (lookup x parent)) [
  | inl e ↦ rw (e, upstream_of) (tt, tt)
  | inr (p, e) ↦ elim (Bool-cases (p =s= "")) [
    | inl q ↦ rw (e, q, upstream_of) (tt, tt)
    | inr q ↦ rw (e, q, upstream_of) ((refl, tt), (h p e, tt))
  ]
]

lower_apart : (rank : String → ℕ) (u x : String) → rank u < rank x → (u =s= x) ≡ false
lower_apart rank u x h = elim (Bool-cases (u =s= x)) [
  | inl e ↦ let q : rank u ≡ rank x = ap rank ((eq_iff u x).0 e) in absurd (omega (arith, q))
  | inr e ↦ e
]

module _ {F : Type 0} where
  keys-by_id :
      (x : String) (m : Map (DeviceConfig F)) (ds : List (DeviceConfig F))
      → elem x (keys (by_id m ds)) ≡ (elem x (keys m) || elem x (topology_ids ds))
  unfolding by_id topology_ids elem
  keys-by_id x m [] = ground arith
  keys-by_id x m (d ∷ ds) =
      ground (arith, keys-by_id x (insert d.id d m) ds, elem-keys-insert d.id x d m)

  by_id-entries :
      (P : String × DeviceConfig F → Type 0) (m : Map (DeviceConfig F)) (ds : List (DeviceConfig F))
      → All P m
      → All (λ d. P (d.id, d)) ds
      → All P (by_id m ds)
  unfolding by_id
  by_id-entries P m [] a b = a
  by_id-entries P m (d ∷ ds) a b =
      by_id-entries P (insert d.id d m) ds (All-insert P d.id d m b.0 a) b.1

  AllLower : List String → (String → ℕ) → List (DeviceConfig F) → Type 0
  AllLower ids rank out = All (λ d. IsLower ids rank d.id (upstreams d)) out

  ranking :
      (rank : String → ℕ) (out : List (DeviceConfig F))
      → AllLower (topology_ids out) rank out
      → IsRanking (by_id [] out) rank
  unfolding AllLower IsLower upstreams_of
  ranking rank out h x =
      let m = by_id [] out in
      elim (Option-cases (lookup x m)) [
        | inl e ↦ rw (e, upstreams_of) tt
        | inr (d, e) ↦
            rw (e, upstreams_of)
              (All-lookup (λ e. All (λ u. rank u < rank e.0) (upstreams e.1)) x d m
                (by_id-entries (λ e. All (λ u. rank u < rank e.0) (upstreams e.1)) [] out tt
                  (All-weaken _ _ out (λ d l. All-weaken _ _ (upstreams d) (λ u p. p.0) l.1) h))
                e)
      ]

  -- An inventory whose upstreams are lower devices of it is accepted.
  AllLower-accepted :
      (out : List (DeviceConfig F)) (rank : String → ℕ) (n : ℕ)
      → ((x : String) → rank x < n)
      → AllLower (topology_ids out) rank out
      → validate_dependencies out ≡ some (ok tt)
  unfolding AllLower IsLower elem topology_ids keys
  AllLower-accepted out rank n bound h =
      let m = by_id [] out in
      let refs : AreReferences out =
        All-weaken _ _ out
          (λ d l. (
            l.0,
            λ x e.
                let (lower, known) =
                  All-elem (λ u. (rank u < rank d.id) × (elem u (topology_ids out) ≡ true)) x
                    (upstreams d) l.1 e in
                (lower_apart rank x d.id lower, keys-by_id x [] out ∙ known),
          ))
          h in
      (validate_dependencies-IsRanking out).1.1 (refs, (rank, n, bound, ranking rank out h))

  enrich_all-AllLower :
      (ids : List String) (rank : String → ℕ) (s : Map String × Map ℕ) (ds : List (DeviceConfig F))
      → ((x p : String) → lookup x s.0 ≡ some p → (rank p < rank x) × (elem p ids ≡ true))
      → AllLower ids rank (enrich_all s ds)
  unfolding AllLower enrich_all enrich_device upstreams listed
  enrich_all-AllLower ids rank s [] h = tt
  enrich_all-AllLower ids rank s (d ∷ ds) h =
      (upstream_of-IsLower ids rank s.0 d.id (h d.id), enrich_all-AllLower ids rank s ds h)

  topology_ids-enrich_all :
      (s : Map String × Map ℕ) (ds : List (DeviceConfig F))
      → topology_ids (enrich_all s ds) ≡ topology_ids ds
  unfolding topology_ids enrich_all enrich_device
  topology_ids-enrich_all s [] = refl
  topology_ids-enrich_all s (d ∷ ds) = ap (λ t. d.id ∷ t) (topology_ids-enrich_all s ds)

  topology_ids-AreDevices :
      (ids : List String) (ds : List (DeviceConfig F))
      → ((x : String) → elem x (topology_ids ds) ≡ true → elem x ids ≡ true)
      → AreDevices ids ds
  unfolding topology_ids elem
  topology_ids-AreDevices ids [] h = tt
  topology_ids-AreDevices ids (d ∷ ds) h = (
    h d.id (ground (arith, eq_iff d.id d.id)),
    topology_ids-AreDevices ids ds (λ x k. h x (ground arith)),
  )

  length-topology_ids : (ds : List (DeviceConfig F)) → length (topology_ids ds) ≡ length ds
  unfolding topology_ids
  length-topology_ids [] = refl
  length-topology_ids (d ∷ ds) = ap suc (length-topology_ids ds)

  -- The state of the search when its loop ends, on the links that the probe found.
  abbrev pub searched :
      (String → Option (List String)) → DeviceConfig F → List (DeviceConfig F) → Bfs
  searched probe d ds =
      let devices = d ∷ ds in
      let adj = probe_all probe (host_to_id [] devices) devices [] in
      search (suc (length devices)) adj (start (pick_root d.id devices adj))

  searched-Inv :
      (probe : String → Option (List String)) (d : DeviceConfig F) (ds : List (DeviceConfig F))
      → Inv (topology_ids (d ∷ ds)) (searched probe d ds) × ((searched probe d ds).queue ≡ [])
  searched-Inv probe d ds =
      let devices = d ∷ ds in
      let ids = topology_ids devices in
      let adj = probe_all probe (host_to_id [] devices) devices [] in
      let known = topology_ids-AreDevices ids devices (λ x h. h) in
      let root = pick_root d.id devices adj in
      let l : length ids ≡ length devices = length-topology_ids devices in
      search-Inv ids (suc (length devices)) 0 adj (start root)
        (probed-AreLinks ids probe devices known)
        (start-Inv ids root (pick_root-known ids d.id devices adj known.0 known)) (omega arith)
        (omega (arith, l))

  -- Whatever the probe of neighbours answers, the search ends with an empty queue, and
  -- `validateDependencies` accepts the devices with the upstreams that `Enrich` gives them, on every
  -- inventory: each upstream is another device of it, and no chain of upstreams comes back to its
  -- start.
  pub enrich-accepted :
      (probe : String → Option (List String)) (d : DeviceConfig F) (ds : List (DeviceConfig F))
      → ((searched probe d ds).queue ≡ [])
        × (validate_dependencies (enrich probe (d ∷ ds)) ≡ some (ok tt))
  unfolding enrich bfs_parents
  enrich-accepted probe d ds =
      let devices = d ∷ ds in
      let ids = topology_ids devices in
      let adj = probe_all probe (host_to_id [] devices) devices [] in
      let s = searched probe d ds in
      let (v, empty) = searched-Inv probe d ds in
      let rank = rank_in s.depth v.bound in
      let named = name_all ids devices (s.parent, s.depth) in
      let hinted = name_all-IsHinted ids s.parent s.depth devices in
      let out = enrich_all named devices in
      let same : topology_ids out ≡ ids = topology_ids-enrich_all named devices in
      (
        empty,
        AllLower-accepted out rank (v.bound + 3) (rank_in-lt s.depth v.bound v.below) (
            rw same (
              enrich_all-AllLower ids rank named devices
                (λ x p e. hint-ranks ids s v named.0 x p hinted e))),
      )
