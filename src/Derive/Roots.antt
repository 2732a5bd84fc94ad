-- ===== src/Derive/Roots.antt =====
-- `collectRootCauseSites`: when its walk returns, and when it does not.
use monitoring_project.Prelude.{
  ℕ, zero, suc, ◌<◌, ◌≡◌, refl, ap, ◌∙◌, ◌⊎◌, inl, inr, String, Bool, true, false, Option, none,
  some, List, [], ◌∷◌, ◌++◌, ◌==◌, if◌then◌else◌, lookup, elem, append-IsDistinct, IsDistinct, All,
  All-append, All-of, All-lookup, All-sort_by, sort_strings, sort_strings-IsDistinct, IsSorted,
  sort_strings-IsSorted, length, arith, Bool-cases, Option-cases,
}
use monitoring_project.Derive.Sites.{
  ◌>>=◌, SiteTopologyNode, Sites, Raw, raw_of, node_of, site_unavailable, walk_sites, walk,
  walk_each, collect_root_cause_sites,
}

abbrev unavailable : Raw → Sites → String → Bool
unavailable raw index name = site_unavailable (raw_of raw name) (node_of index name)

node_of-found :
    (index : Sites) (name : String) (n : SiteTopologyNode)
    → lookup name index ≡ some n
    → node_of index name ≡ n
unfolding node_of
node_of-found index name n h = rw (h, node_of)

-- The sites that `p` marks are unavailable, and the first upstream of each is marked too.
abbrev pub IsTrapped : (String → Bool) → Raw → Sites → Type 0
IsTrapped p raw index =
    (name : String)
    → p name ≡ true
    → (n : SiteTopologyNode) × (up : String) × (rest : List String) × (lookup name index ≡ some n)
      × (site_unavailable (raw_of raw name) n ≡ true)
      × (n.upstream_site_ids ≡ up ∷ rest)
      × (p up ≡ true)

module _ (raw : Raw) (index : Sites) where
  -- The body of `walk` at a site that is unavailable and not yet a root cause.
  abbrev descend :
      (String → List String → Option (List String))
      → String
      → List String
      → List String
      → Option (List String)
  descend call name ups out = if length ups == 0 then some (out ++ (name ∷ [])) else do
    s ← walk_sites call (unavailable raw index) ups (out, false)
    if s.1 then some s.0 else some (s.0 ++ (name ∷ []))

  walk-descend :
      (fuel : ℕ) (name : String) (out : List String) (n : SiteTopologyNode)
      → elem name out ≡ false
      → lookup name index ≡ some n
      → site_unavailable (raw_of raw name) n ≡ true
      → walk (suc fuel) raw index name out
        ≡ descend (walk fuel raw index) name n.upstream_site_ids out
  unfolding walk
  walk-descend fuel name out n e f u = rw (e, f, u)

  walk-seen :
      (fuel : ℕ) (name : String) (out : List String)
      → elem name out ≡ true
      → walk (suc fuel) raw index name out ≡ some out
  unfolding walk
  walk-seen fuel name out e = rw e

  walk-absent :
      (fuel : ℕ) (name : String) (out : List String)
      → elem name out ≡ false
      → lookup name index ≡ none
      → walk (suc fuel) raw index name out ≡ some out
  unfolding walk
  walk-absent fuel name out e f = rw (e, f)

  walk-available :
      (fuel : ℕ) (name : String) (out : List String) (n : SiteTopologyNode)
      → elem name out ≡ false
      → lookup name index ≡ some n
      → site_unavailable (raw_of raw name) n ≡ false
      → walk (suc fuel) raw index name out ≡ some out
  unfolding walk
  walk-available fuel name out n e f u = rw (e, f, u)

  descend-trapped :
      (call : String → List String → Option (List String)) (name up : String)
      (rest out : List String)
      → unavailable raw index up ≡ true
      → call up out ≡ none
      → descend call name (up ∷ rest) out ≡ none
  unfolding walk_sites
  descend-trapped call name up rest out u c = rw (u, c) (ground arith)

  -- If each marked site is unavailable, its first upstream is marked too, and none is a root cause
  -- yet, the walk from a marked site never returns, whatever depth of recursion it is given.
  pub site_walk-IsTrapped :
      (p : String → Bool)
      → IsTrapped p raw index
      → (fuel : ℕ) (name : String) (out : List String) → p name ≡ true
      → ((x : String) → p x ≡ true → elem x out ≡ false)
      → walk fuel raw index name out ≡ none
  unfolding walk
  site_walk-IsTrapped p trapped zero name out h fresh = refl
  site_walk-IsTrapped p trapped (suc fuel) name out h fresh =
      let (n, up, rest, found, down, ups, next) = trapped name h in
      let (n', up', rest', found', down', ups', next') = trapped up next in
      walk-descend fuel name out n (fresh name h) found down
      ∙ ap (λ l. descend (walk fuel raw index) name l out) ups
      ∙ descend-trapped (walk fuel raw index) name up rest out
          (ap (site_unavailable (raw_of raw up)) (node_of-found index up n' found') ∙ down')
          (site_walk-IsTrapped p trapped fuel up out next fresh)

  -- An unavailable site none of whose upstreams is unavailable.
  abbrev pub IsRoot : String → Type 0
  IsRoot name =
      (unavailable raw index name ≡ true)
      × All (λ u. unavailable raw index u ≡ false) (node_of index name).upstream_site_ids

  abbrev pub AreRoots : List String → Type 0
  AreRoots out = IsDistinct out × All IsRoot out

  abbrev Returns : Option (List String) → Type 0
  Returns r = (out : List String) × (r ≡ some out) × AreRoots out

  -- What the loop over the upstreams gives: some upstream was walked, or nothing changed.
  abbrev Loops : List String → List String × Bool → Option (List String × Bool) → Type 0
  Loops ups s o =
      (r : List String × Bool) × (o ≡ some r)
      × AreRoots r.0
      × ((r.1 ≡ true) ⊎ ((r ≡ s) × All (λ u. unavailable raw index u ≡ false) ups))

  module _ (call : String → List String → Option (List String)) (rank : String → ℕ) (n : ℕ)
      (spec : (u : String) (out : List String)
        → rank u < n
        → AreRoots out
        → Returns (call u out)) where
    walk_sites-found :
        (ups : List String) (out : List String)
        → All (λ u. rank u < n) ups
        → AreRoots out
        → (r : List String × Bool) × (walk_sites call (unavailable raw index) ups (out, true)
            ≡ some r)
          × AreRoots r.0
          × (r.1 ≡ true)
    unfolding walk_sites
    walk_sites-found [] out a g = ((out, true), refl, g, refl)
    walk_sites-found (up ∷ ups) out a g = elim (Bool-cases (unavailable raw index up)) [
      | inl u ↦
          let (out', e, g') = spec up out a.0 g in
          rw (u, walk_sites, e) (walk_sites-found ups out' a.1 g')
      | inr u ↦ rw (u, walk_sites) (walk_sites-found ups out a.1 g)
    ]

    walk_sites-Loops :
        (ups : List String) (out : List String)
        → All (λ u. rank u < n) ups
        → AreRoots out
        → Loops ups (out, false) (walk_sites call (unavailable raw index) ups (out, false))
    unfolding walk_sites
    walk_sites-Loops [] out a g = ((out, false), refl, g, inr (refl, tt))
    walk_sites-Loops (up ∷ ups) out a g = elim (Bool-cases (unavailable raw index up)) [
      | inl u ↦
          let (out', e, g') = spec up out a.0 g in
          let (r, e', g'', t) = walk_sites-found ups out' a.1 g' in
          rw (u, walk_sites, e) (r, e', g'', inl t)
      | inr u ↦
          let (r, e', g', c) = walk_sites-Loops ups out a.1 g in
          rw (u, walk_sites)
            (r, e', g', elim c [ inl t ↦ inl t | inr (same, rest) ↦ inr (same, (refl, rest)) ])
    ]

    -- The end of `walk` at a site that is unavailable.
    add_root :
        (name : String) (out : List String)
        → elem name out ≡ false
        → AreRoots out
        → unavailable raw index name ≡ true
        → All (λ u. unavailable raw index u ≡ false) (node_of index name).upstream_site_ids
        → Returns (some (out ++ (name ∷ [])))
    add_root name out e g u ups = (
      out ++ (name ∷ []),
      refl,
      (append-IsDistinct out name g.0 e, All-append IsRoot out (name ∷ []) g.1 ((u, ups), tt)),
    )

    descend-Returns :
        (name : String) (ups out : List String)
        → All (λ u. rank u < n) ups
        → elem name out ≡ false
        → AreRoots out
        → unavailable raw index name ≡ true
        → (node_of index name).upstream_site_ids ≡ ups
        → Returns (descend call name ups out)
    descend-Returns name [] out a e g u same = add_root name out e g u (rw same tt)
    descend-Returns name (up ∷ ups) out a e g u same =
        let (r, e', g', c) = walk_sites-Loops (up ∷ ups) out a g in
        elim c [
          | inl t ↦ (r.0, rw (e', t) (ground arith), g')
          | inr (kept, quiet) ↦
              let (out', f, g'') = add_root name out e g u (rw same quiet) in
              (out', rw (e', kept) (ground (arith, f)), g'')
        ]

  module _ (rank : String → ℕ)
      (acyclic : All (λ s. All (λ u. rank u < rank s.0) s.1.upstream_site_ids) index) where
    walk-Returns :
        (fuel : ℕ) (name : String) (out : List String)
        → rank name < fuel
        → AreRoots out
        → Returns (walk fuel raw index name out)
    unfolding walk
    walk-Returns zero name out h g = absurd (omega arith)
    walk-Returns (suc fuel) name out h g = elim (Bool-cases (elem name out)) [
      | inl e ↦ (out, walk-seen fuel name out e, g)
      | inr e ↦ elim (Option-cases (lookup name index)) [
        | inl f ↦ (out, walk-absent fuel name out e f, g)
        | inr (n, f) ↦ elim (Bool-cases (site_unavailable (raw_of raw name) n)) [
          | inr u ↦ (out, walk-available fuel name out n e f u, g)
          | inl u ↦
              let same : node_of index name ≡ n = node_of-found index name n f in
              let (out', returned, g') =
                descend-Returns (walk fuel raw index) rank (rank name)
                  (λ v o hv. walk-Returns fuel v o (omega arith)) name n.upstream_site_ids out
                  (All-lookup (λ s. All (λ v. rank v < rank s.0) s.1.upstream_site_ids) name n index
                    acyclic f)
                  e g (ap (site_unavailable (raw_of raw name)) same ∙ u)
                  (ap (λ m. m.upstream_site_ids) same) in
              (out', walk-descend fuel name out n e f u ∙ returned, g')
        ]
      ]
    ]

    walk_each-Returns :
        (fuel : ℕ) (names out : List String)
        → All (λ name. rank name < fuel) names
        → AreRoots out
        → Returns (walk_each (walk fuel raw index) names out)
    unfolding walk_each
    walk_each-Returns fuel [] out a g = (out, refl, g)
    walk_each-Returns fuel (name ∷ names) out a g =
        let (out', e, g') = walk-Returns fuel name out a.0 g in
        rw e (walk_each-Returns fuel names out' a.1 g')

    -- If the upstream edges of the sites run down a ranking below the fuel,
    -- `collectRootCauseSites` returns: a sorted list with no site twice, each of them unavailable
    -- while none of its upstreams is.
    pub collect_root_cause_sites-returns :
        (fuel : ℕ)
        → ((name : String) → rank name < fuel)
        → (names : List String)
        → (out : List String) × (collect_root_cause_sites fuel names raw index ≡ some out)
          × AreRoots out
          × IsSorted out
    unfolding collect_root_cause_sites
    collect_root_cause_sites-returns fuel enough names =
        let (out, e, g) =
          walk_each-Returns fuel names [] (All-of (λ name. rank name < fuel) names enough)
            (tt, tt) in
        rw e (
          sort_strings out,
          refl,
          (sort_strings-IsDistinct out g.0, All-sort_by (λ s. s) IsRoot out g.1),
          sort_strings-IsSorted out,
        )
