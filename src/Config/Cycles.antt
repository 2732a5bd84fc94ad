-- ===== src/Config/Cycles.antt =====
-- The search for cycles of services/snmp-collector/internal/config/config.go ends; it accepts where
-- the devices can be ranked, and refuses only where they cannot.
use monitoring_project.Prelude.{
  ℕ, zero, suc, ◌<◌, ◌≡◌, refl, sym, ◌∙◌, inl, inr, ◌⊎◌, String, true, false, some, List, [], ◌∷◌,
  ◌=s=◌, eq_iff, if◌then◌else◌, Map, insert, elem, All, All-weaken, arith, Bool-cases,
}
use monitoring_project.Prelude.Results.{ok, error}
use monitoring_project.Config.Types.{DeviceConfig}
use monitoring_project.Config.Dependencies.{
  Colour, unvisited, visiting, visited, Colours, colour_of, upstreams_of, Search, and_then,
  visit_each, visit_coloured, visit,
}
use monitoring_project.Config.Colours.{
  colour_of-same, colour_of-other, IsKept, IsKept-refl, IsKept-trans, visit-IsKept, unvisited_of,
  unvisited_of-IsKept, unvisited_of-insert,
}

module _ {F : Type 0} (m : Map (DeviceConfig F)) where
  -- Each device ranks above its upstreams.
  abbrev pub IsRanking : (String → ℕ) → Type 0
  IsRanking rank = (x : String) → All (λ u. rank u < rank x) (upstreams_of m x)

  -- The visited devices are ranked, and their upstreams are visited; all ranks are below a bound.
  abbrev pub Ranked : Colours → Type 0
  Ranked s =
      (rank : String → ℕ) × (n : ℕ) × ((x : String) → rank x < n)
      × ((x : String)
          → colour_of s x ≡ visited
          → All (λ u. (colour_of s u ≡ visited) × (rank u < rank x)) (upstreams_of m x))

  visited_other :
      (id u : String) (c : Colour) (s : Colours)
      → colour_of s u ≡ visited
      → (colour_of s id ≡ visited → ⊥)
      → ((id =s= u) ≡ false) × (colour_of (insert id c s) u ≡ visited)
  visited_other id u c s h n = elim (Bool-cases (id =s= u)) [
    | inl e ↦ absurd (n (rw ((eq_iff id u).0 e) h))
    | inr e ↦ (e, colour_of-other id u c s e ∙ h)
  ]

  Ranked-start :
      (id : String) (s : Colours)
      → colour_of s id ≡ unvisited
      → Ranked s
      → Ranked (insert id visiting s)
  Ranked-start id s h (rank, n, bound, r) = (
    rank,
    n,
    bound,
    λ x v. elim (Bool-cases (id =s= x)) [
      | inl e ↦ absurd (cc (rw (sym ((eq_iff id x).0 e)) at v, colour_of-same id visiting s))
      | inr e ↦
          All-weaken _ _ (upstreams_of m x)
            (λ u p. ((visited_other id u visiting s p.0 (λ q. cc)).1, p.1))
            (r x (sym (colour_of-other id x visiting s e) ∙ v))
    ],
  )

  Ranked-finish :
      (id : String) (t : Colours)
      → colour_of t id ≡ visiting
      → All (λ u. colour_of t u ≡ visited) (upstreams_of m id)
      → Ranked t
      → Ranked (insert id visited t)
  Ranked-finish id t h ups (rank, n, bound, r) = (
    λ x. if id =s= x then n else rank x,
    suc n,
    λ x. ground (arith, bound x),
    λ x v. elim (Bool-cases (id =s= x)) [
      | inl e ↦
          rw (e, sym ((eq_iff id x).0 e))
            (All-weaken _ _ (upstreams_of m id)
              (λ u p.
                let (ne, q) = visited_other id u visited t p (λ w. cc) in (q, rw ne (bound u)))
              ups)
      | inr e ↦ rw e (
          All-weaken _ _ (upstreams_of m x)
            (λ u p. let (ne, q) = visited_other id u visited t p.0 (λ w. cc) in (q, rw ne (p.1)))
            (r x (sym (colour_of-other id x visited t e) ∙ v)))
    ],
  )

  -- No ranking has the devices in progress above all of these.
  abbrev IsRefused : Colours → List String → Type 0
  IsRefused s us =
      (rank : String → ℕ)
      → IsRanking rank
      → ((x : String) → colour_of s x ≡ visiting → All (λ u. rank u < rank x) us)
      → ⊥

  abbrev pub Outcome : Colours → List String → Search → Type 0
  Outcome s us r =
      ((t : Colours) × (r ≡ some (ok t))
        × IsKept s t
        × All (λ u. colour_of t u ≡ visited) us
        × (Ranked s → Ranked t))
      ⊎ ((r ≡ some (error "dependency cycle detected at device")) × IsRefused s us)

  module _ (ids : List String) where
    pub visit_each-Outcome :
        (call : String → Colours → Search) (bound : ℕ)
        → ((id : String) (s : Colours)
            → elem id ids ≡ true
            → unvisited_of ids s < bound
            → Outcome s (id ∷ []) (call id s))
        → (us : List String) (s : Colours) → All (λ u. elem u ids ≡ true) us
        → unvisited_of ids s < bound
        → Outcome s us (visit_each call us s)
    unfolding visit_each and_then
    visit_each-Outcome call bound spec [] s a b = inl (s, refl, IsKept-refl s, tt, λ q. q)
    visit_each-Outcome call bound spec (u ∷ us) s a b = elim (spec u s a.0 b) [
      | inl (t, e, k, v, r) ↦
          rw (e, and_then)
            (elim (visit_each-Outcome call bound spec us t a.1
              (omega (arith, unvisited_of-IsKept ids s t k))) [
                | inl (t', e', k', vs, r') ↦ inl (
                  t',
                  e',
                  IsKept-trans s t t' k k',
                  ((k' u).0 (rw (v.0) refl) ∙ v.0, vs),
                  λ q. r' (r q),
                )
                | inr (e', refused) ↦
                    inr (e', λ rank ir below. refused rank ir (λ x vis. (below x ((k x).1 vis)).1))
              ])
      | inr (e, refused) ↦
          rw (e, and_then)
            (inr (refl, λ rank ir below. refused rank ir (λ x vis. ((below x vis).0, tt))))
    ]

    module _ (known : (x : String) → All (λ u. elem u ids ≡ true) (upstreams_of m x)) where
      visit_coloured-Outcome :
          (call : String → Colours → Search) (bound : ℕ)
          → ((id : String) (s : Colours)
              → elem id ids ≡ true
              → unvisited_of ids s < bound
              → Outcome s (id ∷ []) (call id s))
          → (id : String) (s : Colours) (c : Colour) → elem id ids ≡ true
          → unvisited_of ids s < suc bound
          → colour_of s id ≡ c
          → Outcome s (id ∷ []) (visit_coloured call (upstreams_of m id) id s c)
      unfolding visit_coloured and_then
      visit_coloured-Outcome call bound spec id s visiting h b c =
          inr (refl, λ rank ir below. absurd (omega (arith, (below id c).0)))
      visit_coloured-Outcome call bound spec id s visited h b c =
          inl (s, refl, IsKept-refl s, (c, tt), λ q. q)
      visit_coloured-Outcome call bound spec id s unvisited h b c =
          elim (visit_each-Outcome call bound spec (upstreams_of m id) (insert id visiting s)
            (known id) (omega (arith, unvisited_of-insert ids id s h c))) [
              | inl (t, e, k, vs, r) ↦
                  rw (e, and_then)
                    (inl (
                      insert id visited t,
                      refl,
                      visit-IsKept id s t c k,
                      (colour_of-same id visited t, tt),
                      λ q.
                          Ranked-finish id t
                            ((k id).0 (rw (colour_of-same id visiting s) refl)
                              ∙ colour_of-same id visiting s)
                            vs (r (Ranked-start id s c q)),
                    ))
              | inr (e, refused) ↦
                  rw (e, and_then)
                    (inr (
                      refl,
                      λ rank ir below. refused rank ir (λ x vis. elim (Bool-cases (id =s= x)) [
                        | inl q ↦ rw (sym ((eq_iff id x).0 q)) (ir id)
                        | inr q ↦
                            let d = (below x (sym (colour_of-other id x visiting s q) ∙ vis)).0 in
                            All-weaken _ _ (upstreams_of m id) (λ u p. omega arith) (ir id)
                      ]),
                    ))
            ]

      pub visit-Outcome :
          (fuel : ℕ) (id : String) (s : Colours)
          → elem id ids ≡ true
          → unvisited_of ids s < fuel
          → Outcome s (id ∷ []) (visit fuel m id s)
      unfolding visit
      visit-Outcome zero id s h b = absurd (omega arith)
      visit-Outcome (suc fuel) id s h b =
          visit_coloured-Outcome (visit fuel m) fuel (visit-Outcome fuel) id s (colour_of s id) h b
            refl
