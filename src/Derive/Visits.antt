-- ===== src/Derive/Visits.antt =====
-- `TopologicalSiteOrder`: it returns on every graph, and lists what it reaches once each.
use monitoring_project.Prelude.{
  ℕ, zero, suc, ◌+◌, ◌≤◌, ◌<◌, ◌≡◌, refl, ◌∙◌, inl, inr, String, true, false, not, ◌||◌, ◌&&◌,
  Option, some, List, [], ◌∷◌, ◌++◌, ◌=s=◌, eq_iff, keys, elem, elem-append, append-IsDistinct,
  IsDistinct, IsWithin, length, length-le_of_IsWithin, IsWithin-of_All, All_of_IsWithin, All,
  sort_strings, elem-sort_strings, arith, Bool-cases,
}
use monitoring_project.Derive.Sites.{
  Sites, node_of, Visit, visit_all, visit, topological_site_order,
}

-- `universe` holds the upstreams of each of its sites.
abbrev pub IsClosed : Sites → List String → Type 0
IsClosed index universe =
    (x : String)
    → elem x universe ≡ true
    → All (λ u. elem u universe ≡ true) (node_of index x).upstream_site_ids

-- The sets of `visit` hold no site twice, sites of the universe only, and what is listed was
-- visited.
record IsGood (universe : List String) (s : Visit) : Type 0 where
  visited_distinct : IsDistinct s.visited
  visited_within : IsWithin s.visited universe
  out_distinct : IsDistinct s.out
  out_visited : IsWithin s.out s.visited

-- From `s` to `t`: nothing visited is forgotten, and exactly what was visited anew is listed anew.
record Grows (s t : Visit) : Type 0 where
  kept : IsWithin s.visited t.visited
  listed :
      (x : String) → elem x t.out ≡ (elem x s.out || (elem x t.visited && not (elem x s.visited)))

empty_lem : (universe : List String) → IsGood universe (record { visited = []; out = [] })
unfolding elem
empty_lem universe = record {
  visited_distinct = tt;
  visited_within = λ x h. absurd (cc);
  out_distinct = tt;
  out_visited = λ x h. h;
}

nothing_seen : (x : String) → (elem x [] || (true && not (elem x []))) ≡ true
unfolding elem
nothing_seen x = refl

module _ (index : Sites) (universe : List String) (closed : IsClosed index universe) where
  -- The call returns, and has visited `ids`.
  abbrev Returns : List String → Visit → Option Visit → Type 0
  Returns ids s o =
      (t : Visit) × (o ≡ some t)
      × IsGood universe t
      × Grows s t
      × All (λ id. elem id t.visited ≡ true) ids

  All-kept :
      (s t : Visit) (ids : List String)
      → Grows s t
      → All (λ id. elem id s.visited ≡ true) ids
      → All (λ id. elem id t.visited ≡ true) ids
  All-kept s t [] g a = tt
  All-kept s t (id ∷ ids) g a = (g.kept id a.0, All-kept s t ids g a.1)

  Grows-trans : (s t u : Visit) → Grows s t → Grows t u → Grows s u
  Grows-trans s t u g h = record {
    kept = λ x k. h.kept x (g.kept x k);
    listed = λ x. ground (arith, g.listed x, h.listed x, g.kept x, h.kept x);
  }

  Grows-length : (s t : Visit) → IsGood universe s → Grows s t → length s.visited ≤ length t.visited
  Grows-length s t v g = length-le_of_IsWithin s.visited t.visited v.visited_distinct g.kept

  visit_all-Returns :
      (call : String → Visit → Option Visit) (room : ℕ)
      → ((id : String) (s : Visit)
          → elem id universe ≡ true
          → IsGood universe s
          → length universe < room + length s.visited
          → Returns (id ∷ []) s (call id s))
      → (ids : List String) (s : Visit) → All (λ id. elem id universe ≡ true) ids
      → IsGood universe s
      → length universe < room + length s.visited
      → Returns ids s (visit_all call ids s)
  unfolding visit_all
  visit_all-Returns call room spec [] s a v r =
      (s, refl, v, record { kept = λ x k. k; listed = λ x. ground arith }, tt)
  visit_all-Returns call room spec (id ∷ ids) s a v r =
      let (t, e, v', g, here) = spec id s a.0 v r in
      let (u, e', v'', g', rest) =
        visit_all-Returns call room spec ids t a.1 v' (omega (arith, Grows-length s t v g)) in
      (u, rw e e', v'', Grows-trans s t u g g', (g'.kept id here.0, rest))

  visit-seen :
      (fuel : ℕ) (id : String) (s : Visit)
      → elem id s.visited ≡ true
      → visit (suc fuel) index id s ≡ some s
  unfolding visit
  visit-seen fuel id s h = rw h

  visit-new :
      (fuel : ℕ) (id : String) (s t : Visit)
      → elem id s.visited ≡ false
      → visit_all
          (visit fuel index)
          (node_of index id).upstream_site_ids
          (record s { visited = id ∷ s.visited })
        ≡ some t
      → visit (suc fuel) index id s ≡ some (record t { out = t.out ++ (id ∷ []) })
  unfolding visit
  visit-new fuel id s t h e = rw (h, e)

  entered_IsGood :
      (id : String) (s : Visit)
      → elem id universe ≡ true
      → elem id s.visited ≡ false
      → IsGood universe s
      → IsGood universe (record s { visited = id ∷ s.visited })
  unfolding elem
  entered_IsGood id s h n v = record {
    visited_distinct = (n, v.visited_distinct);
    visited_within = λ x k. ground (arith, eq_iff x id, v.visited_within x);
    out_distinct = v.out_distinct;
    out_visited = λ x k. ground (arith, v.out_visited x);
  }

  -- What the recursive calls leave, with the site listed behind them.
  module _ (id : String) (s t : Visit) (n : elem id s.visited ≡ false) (v : IsGood universe s)
      (v' : IsGood universe t) (g : Grows (record s { visited = id ∷ s.visited }) t) where
    entered_visited : elem id t.visited ≡ true
    unfolding elem
    entered_visited = g.kept id (ground (arith, eq_iff id id))

    unlisted : elem id t.out ≡ false
    unfolding elem
    unlisted =
        let old : elem id s.out ≡ false = ground (arith, v.out_visited id) in
        ground (arith, g.listed id, eq_iff id id)

    left_IsGood : IsGood universe (record t { out = t.out ++ (id ∷ []) })
    unfolding elem
    left_IsGood = record {
      visited_distinct = v'.visited_distinct;
      visited_within = v'.visited_within;
      out_distinct = append-IsDistinct t.out id v'.out_distinct unlisted;
      out_visited = λ x k. elim (Bool-cases (x =s= id)) [
        | inl e ↦ rw ((eq_iff x id).0 e) entered_visited
        | inr m ↦ v'.out_visited x (ground (arith, elem-append x t.out (id ∷ [])))
      ];
    }

    left_Grows : Grows s (record t { out = t.out ++ (id ∷ []) })
    unfolding elem
    left_Grows = record {
      kept = λ x k. g.kept x (ground arith);
      listed = λ x. elim (Bool-cases (x =s= id)) [
        | inl e ↦
            rw ((eq_iff x id).0 e)
              (ground (arith, elem-append id t.out (id ∷ []), eq_iff id id, n, entered_visited))
        | inr m ↦ ground (arith, elem-append x t.out (id ∷ []), g.listed x)
      ];
    }

  visit-Returns :
      (fuel : ℕ) (id : String) (s : Visit)
      → elem id universe ≡ true
      → IsGood universe s
      → length universe < fuel + length s.visited
      → Returns (id ∷ []) s (visit fuel index id s)
  unfolding visit
  visit-Returns zero id s h v r =
      absurd (
        omega (arith, length-le_of_IsWithin s.visited universe v.visited_distinct v.visited_within))
  visit-Returns (suc fuel) id s h v r = elim (Bool-cases (elem id s.visited)) [
    | inl e ↦ (
      s,
      visit-seen fuel id s e,
      v,
      record { kept = λ x k. k; listed = λ x. ground arith },
      (e, tt),
    )
    | inr n ↦
        let entered : Visit = record s { visited = id ∷ s.visited } in
        let (t, e, v', g, _) =
          visit_all-Returns (visit fuel index) fuel (visit-Returns fuel)
            (node_of index id).upstream_site_ids entered (closed id h) (entered_IsGood id s h n v)
            (omega arith) in
        (
          record t { out = t.out ++ (id ∷ []) },
          visit-new fuel id s t n e,
          left_IsGood id s t n v v' g,
          left_Grows id s t n v v' g,
          (entered_visited id s t n v v' g, tt),
        )
  ]

  -- On every graph of sites, cyclic ones included, and with fuel for a visit of each site that is
  -- configured or named as an upstream, the order is found. It lists no site twice, only such
  -- sites, and every configured one.
  pub topological_site_order-returns :
      (fuel : ℕ)
      → length universe < fuel
      → IsWithin (keys index) universe
      → (order : List String) × (topological_site_order fuel index ≡ some order)
        × IsDistinct order
        × IsWithin order universe
        × IsWithin (keys index) order
  unfolding topological_site_order
  topological_site_order-returns fuel enough within =
      let start : Visit = record { visited = []; out = [] } in
      let ids = sort_strings (keys index) in
      let (t, e, v, g, all) =
        visit_all-Returns (visit fuel index) fuel (visit-Returns fuel) ids start
          (All_of_IsWithin ids universe (λ x h. within x (rw elem-sort_strings at h))) empty_IsGood
          (omega arith) in
      rw e (
        t.out,
        refl,
        v.out_distinct,
        (λ x h. v.visited_within x (v.out_visited x h)),
        λ x h.
            g.listed x
            ∙ first_listed t x (IsWithin-of_All ids t.visited all x (rw elem-sort_strings h)),
      )
    where
      empty_IsGood : IsGood universe (record { visited = []; out = [] })
      empty_IsGood = empty_lem universe

      first_listed :
          (t : Visit) (x : String)
          → elem x t.visited ≡ true
          → (elem x [] || (elem x t.visited && not (elem x []))) ≡ true
      first_listed t x h = rw h (nothing_seen x)
