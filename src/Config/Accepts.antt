-- ===== src/Config/Accepts.antt =====
-- What an inventory that `validateDependencies` of
-- services/snmp-collector/internal/config/config.go accepts is like.
use monitoring_project.Prelude.{
  ℕ, suc, ◌<◌, ◌≡◌, refl, sym, ◌∙◌, inl, inr, ◌⊎◌, ◌↔◌, String, true, false, some, List, [], ◌∷◌,
  ◌=s=◌, ◌||◌, eq_iff, Map, insert, lookup, lookup-absent, lookup-present, lookup-known, keys, elem,
  IsDistinct, length, All, All-weaken, All-insert, All-lookup, All_of_IsWithin, All-elem,
  sort_strings, elem-sort_strings, arith, Bool-cases, Option-cases,
}
use monitoring_project.Prelude.Results.{ok, error, Check, Result-cases, check_all-ok}
use monitoring_project.Config.Types.{DeviceConfig, upstreams}
use monitoring_project.Config.Dependencies.{
  visiting, visited, Colours, by_id, check_upstreams, check_references, colour_of, upstreams_of,
  visit, search_cycles, searched, validate_dependencies,
}
use monitoring_project.Config.Colours.{unvisited_of-le}
use monitoring_project.Config.Cycles.{IsRanking, Ranked, visit_each-Outcome, visit-Outcome}

-- The upstreams are distinct, none of them is the device, and each one is a device of the map.
abbrev pub AreUpstreams : {V : Type 0} → Map V → String → List String → Type 0
AreUpstreams m id ups =
    IsDistinct ups
    × ((x : String) → elem x ups ≡ true → ((x =s= id) ≡ false) × (elem x (keys m) ≡ true))

check_upstreams-accepts :
    {V : Type 0} (m : Map V) (id : String) (seen ups : List String)
    → check_upstreams m id seen ups ≡ ok tt
    → AreUpstreams m id ups × ((x : String) → elem x ups ≡ true → elem x seen ≡ false)
unfolding check_upstreams elem
check_upstreams-accepts m id seen [] h = ((tt, λ x k. absurd (cc)), λ x k. absurd (cc))
check_upstreams-accepts m id seen (up ∷ ups) h = elim (Bool-cases (elem up seen)) [
  | inl e ↦ absurd (cc (rw e at h))
  | inr e ↦ elim (Bool-cases (up =s= id)) [
    | inl q ↦ absurd (cc (rw (e, q) at h))
    | inr q ↦ elim (Option-cases (lookup up m)) [
      | inl a ↦ absurd (cc (rw (e, q, a) at h))
      | inr (v, a) ↦
          let ((d, known), fresh) =
            check_upstreams-accepts m id (up ∷ seen) ups (rw (e, q, a) at h) in
          let here : elem up (keys m) ≡ true = lookup-present up v m a in
          (
            (
              ground (arith, fresh up, eq_iff up up),
              λ x k. ground (arith, known x, eq_iff x up, here, q),
            ),
            λ x k. ground (arith, fresh x, eq_iff x up, e),
          )
    ]
  ]
]

check_upstreams_complete :
    {V : Type 0} (m : Map V) (id : String) (seen ups : List String)
    → AreUpstreams m id ups
    → ((x : String) → elem x ups ≡ true → elem x seen ≡ false)
    → check_upstreams m id seen ups ≡ ok tt
unfolding check_upstreams elem
check_upstreams_complete m id seen [] h f = refl
check_upstreams_complete m id seen (up ∷ ups) h f =
    let here : (up =s= up || elem up ups) ≡ true = ground (arith, eq_iff up up) in
    elim (Option-cases (lookup up m)) [
      | inl a ↦ absurd (let (v, e) = lookup-known up m (h.1 up here).1 in cc (e, a))
      | inr (v, a) ↦
          rw (f up here, (h.1 up here).0, a)
            (check_upstreams_complete m id (up ∷ seen) ups (h.0.1, λ x k. h.1 x (ground arith))
              (λ x k. ground (arith, f x, eq_iff x up, h.0.0)))
    ]

module _ {F : Type 0} where
  -- The references of each device are good.
  abbrev pub AreReferences : List (DeviceConfig F) → Type 0
  AreReferences devices = All (λ d. AreUpstreams (by_id [] devices) d.id (upstreams d)) devices

  check_references-ok :
      (devices : List (DeviceConfig F))
      → (check_references (by_id [] devices) devices ≡ ok tt) ↔ AreReferences devices
  unfolding check_references elem
  check_references-ok devices = (
    λ h.
        All-weaken _ _ devices
          (λ d e. (check_upstreams-accepts (by_id [] devices) d.id [] (upstreams d) e).0)
          ((check_all-ok _ devices).0 h),
    λ h. (check_all-ok _ devices).1 (
        All-weaken _ _ devices
          (λ d e. check_upstreams_complete (by_id [] devices) d.id [] (upstreams d) e (λ x k. refl))
          h),
  )

  by_id-All :
      (P : DeviceConfig F → Type 0) (m : Map (DeviceConfig F)) (ds : List (DeviceConfig F))
      → All (λ e. P e.1) m
      → All P ds
      → All (λ e. P e.1) (by_id m ds)
  unfolding by_id
  by_id-All P m [] a b = a
  by_id-All P m (d ∷ ds) a b =
      by_id-All P (insert d.id d m) ds (All-insert (λ e. P e.1) d.id d m b.0 a) b.1

  -- The upstreams that the search follows are devices of the map.
  upstreams_of-known :
      (devices : List (DeviceConfig F))
      → AreReferences devices
      → (x : String)
      → All (λ u. elem u (keys (by_id [] devices)) ≡ true) (upstreams_of (by_id [] devices) x)
  unfolding upstreams_of
  upstreams_of-known devices refs x = elim (Option-cases (lookup x (by_id [] devices))) [
    | inl e ↦ rw (e, upstreams_of) tt
    | inr (d, e) ↦
        rw (e, upstreams_of)
          (All_of_IsWithin (upstreams d) (keys (by_id [] devices)) (λ u h.
            (All-lookup
              (λ e.
                (z : String)
                → elem z (upstreams e.1) ≡ true
                → elem z (keys (by_id [] devices)) ≡ true)
              x d (by_id [] devices)
              (by_id-All
                (λ c.
                  (z : String)
                  → elem z (upstreams c) ≡ true
                  → elem z (keys (by_id [] devices)) ≡ true)
                [] devices tt (All-weaken _ _ devices (λ c g z k. (g.1 z k).1) refs))
              e u h)))
  ]

  module _ (m : Map (DeviceConfig F)) where
    upstreams_of-absent : (x : String) → elem x (keys m) ≡ false → upstreams_of m x ≡ []
    unfolding upstreams_of
    upstreams_of-absent x h = rw (lookup-absent x m h, upstreams_of) refl

    -- What a search that visited every device shows.
    Ranked-IsRanking :
        (t : Colours)
        → ((x : String) → elem x (keys m) ≡ true → colour_of t x ≡ visited)
        → Ranked m t
        → (rank : String → ℕ) × (n : ℕ) × ((x : String) → rank x < n) × IsRanking m rank
    Ranked-IsRanking t all (rank, n, bound, r) = (
      rank,
      n,
      bound,
      λ x. elim (Bool-cases (elem x (keys m))) [
        | inl e ↦ All-weaken _ _ (upstreams_of m x) (λ u p. p.1) (r x (all x e))
        | inr e ↦ rw (upstreams_of-absent x e) tt
      ],
    )

    nothing_visited : Ranked m []
    unfolding colour_of lookup
    nothing_visited = (λ x. 0, 1, λ x. omega arith, λ x h. absurd (cc))

    nothing_visiting :
        (rank : String → ℕ) (us : List String) (x : String)
        → colour_of [] x ≡ visiting
        → All (λ u. rank u < rank x) us
    unfolding colour_of lookup
    nothing_visiting rank us x h = absurd (cc)

  -- A ranking, with a bound on its ranks.
  abbrev pub IsRanked : Map (DeviceConfig F) → Type 0
  IsRanked m = (rank : String → ℕ) × (n : ℕ) × ((x : String) → rank x < n) × IsRanking m rank

  search_cycles-IsRanked :
      (m : Map (DeviceConfig F))
      → ((x : String) → All (λ u. elem u (keys m) ≡ true) (upstreams_of m x))
      → ((searched (search_cycles m) ≡ some (ok tt)) × IsRanked m)
        ⊎ ((searched (search_cycles m) ≡ some (error "dependency cycle detected at device"))
            × (IsRanked m → ⊥))
  unfolding searched search_cycles
  search_cycles-IsRanked m known =
      let ids = keys m in
      let fuel = suc (length ids) in
      elim (visit_each-Outcome m ids (visit fuel m) fuel (visit-Outcome m ids known fuel)
        (sort_strings ids) []
        (All_of_IsWithin (sort_strings ids) ids (λ x h. sym (elem-sort_strings x ids) ∙ h))
        (omega (arith, unvisited_of-le ids []))) [
          | inl (t, e, k, all, ranked) ↦ inl (
            rw (e, searched) refl,
            Ranked-IsRanking m t
                (λ x h.
                  All-elem (λ u. colour_of t u ≡ visited) x (sort_strings ids) all
                    (elem-sort_strings x ids ∙ h))
                (ranked (nothing_visited m)),
          )
          | inr (e, refused) ↦ inr (
            rw (e, searched) refl,
            λ (rank, n, bound, r). refused rank r (nothing_visiting m rank (sort_strings ids)),
          )
        ]

  -- `validateDependencies` always answers: the recursion of `visit` is never deeper than the number
  -- of devices. It accepts an inventory exactly if the upstreams of each device are distinct other
  -- devices of the inventory and there is a ranking that puts each device above its upstreams, that
  -- is, if no chain of upstreams comes back to its start.
  pub validate_dependencies-IsRanking :
      (devices : List (DeviceConfig F))
      → ((r : Check) × (validate_dependencies devices ≡ some r))
        × ((validate_dependencies devices ≡ some (ok tt))
            ↔ (AreReferences devices × IsRanked (by_id [] devices)))
  unfolding validate_dependencies
  validate_dependencies-IsRanking devices =
      elim (Result-cases (check_references (by_id [] devices) devices)) [
        | inr (e, h) ↦
            rw (h, validate_dependencies)
              (
                (error e, refl),
                (λ k. absurd (cc), λ k. absurd (cc ((check_references-ok devices).1 k.0, h))),
              )
        | inl (_, h) ↦
            let refs = (check_references-ok devices).0 h in
            rw (h, validate_dependencies)
              (elim (search_cycles-IsRanked (by_id [] devices) (upstreams_of-known devices refs)) [
                | inl (e, ranked) ↦ ((ok tt, e), (λ k. (refs, ranked), λ k. e))
                | inr (e, none_ranks) ↦ (
                  (error "dependency cycle detected at device", e),
                  (λ k. absurd (cc (e, k)), λ k. absurd (none_ranks k.1)),
                )
              ])
      ]
