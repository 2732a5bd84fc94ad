-- ===== src/Health/Roots.antt =====
-- `collectRootCauses`: when the walk over the unavailable upstreams returns, what it finds, and
-- when it does not return.
use monitoring_project.Prelude.{
  ℕ, zero, suc, ◌<◌, ◌≡◌, refl, sym, ◌∙◌, inl, inr, String, Bool, true, false, Option, none, some,
  List, [], ◌∷◌, ◌++◌, if◌then◌else◌, lookup, elem, IsDistinct, All, All-of, All-lookup,
  sort_strings, sort_strings-IsDistinct, elem-sort_strings, IsSorted, sort_strings-IsSorted, arith,
  Option-cases,
}
use monitoring_project.Health.Types.{
  State, no_state, healthy, warning, critical, unknown, DeviceHealth, Ledger,
}
use monitoring_project.Health.Evaluate.{walk_all, walk_entry, walk, collect_root_causes}
use monitoring_project.Health.Meets.{
  is_critical, AreRootsOf, Adds, is_unknown, Adds-none, Adds-then, Adds-leaf, Adds-critical,
  Adds-unknown, Meets-stop, Meets-cases,
}

module _ {F : Type 0} where
  walk_entry-unknown :
      (call : String → List String → Option (List String)) (id : String) (e : DeviceHealth F)
      (out : List String)
      → e.has_state ≡ true
      → e.state ≡ unknown
      → walk_entry call id (some e) out ≡ walk_all call e.unavailable_upstream out
  unfolding walk_entry
  walk_entry-unknown call id e out h k = rw (h, k)

  -- The ids that `p` marks are unknown devices, and the first unavailable upstream of each is
  -- marked too.
  abbrev pub IsTrapped : (String → Bool) → Ledger F → Type 0
  IsTrapped p devices =
      (id : String)
      → p id ≡ true
      → (e : DeviceHealth F) × (up : String) × (rest : List String) × (lookup id devices ≡ some e)
        × (e.has_state ≡ true)
        × (e.state ≡ unknown)
        × (e.unavailable_upstream ≡ up ∷ rest)
        × (p up ≡ true)

  -- If each marked device is unknown and the first of its unavailable upstreams is marked too, the
  -- walk from a marked device never returns, whatever depth of recursion it is given.
  pub walk-IsTrapped :
      (p : String → Bool) (devices : Ledger F)
      → IsTrapped p devices
      → (fuel : ℕ) (id : String) (out : List String) → p id ≡ true
      → walk fuel devices id out ≡ none
  unfolding walk walk_all
  walk-IsTrapped p devices trapped zero id out h = refl
  walk-IsTrapped p devices trapped (suc fuel) id out h =
      let (e, up, rest, found, has, un, blamed, next) = trapped id h in
      rw (found, walk_entry-unknown (walk fuel devices) id e out has un, blamed)
        (rw (walk-IsTrapped p devices trapped fuel up out next))

  -- The unavailable upstreams of each device are of lower rank.
  abbrev pub IsRanked : (String → ℕ) → Ledger F → Type 0
  IsRanked rank devices = All (λ e. All (λ u. rank u < rank e.0) e.1.unavailable_upstream) devices

  module _ (devices : Ledger F) (rank : String → ℕ) where
    abbrev Returns : List String → List String → Option (List String) → Type 0
    Returns ids out r = (out' : List String) × (r ≡ some out') × Adds devices ids out out'

    walk_all-Returns :
        (call : String → List String → Option (List String)) (n : ℕ)
        → ((u : String) (out : List String)
            → rank u < n
            → IsDistinct out
            → Returns (u ∷ []) out (call u out))
        → (ids out : List String) → All (λ u. rank u < n) ids
        → IsDistinct out
        → Returns ids out (walk_all call ids out)
    unfolding walk_all
    walk_all-Returns call n spec [] out a d = (out, refl, Adds-none devices out d)
    walk_all-Returns call n spec (id ∷ ids) out a d =
        let (out', e, first) = spec id out a.0 d in
        let (out2, e', rest) = walk_all-Returns call n spec ids out' a.1 first.0 in
        rw e (out2, e', Adds-then devices id ids out out' out2 first rest)

    walk_entry-Returns :
        (call : String → List String → Option (List String)) (id : String) (e : DeviceHealth F)
        → lookup id devices ≡ some e
        → (out : List String) → IsDistinct out
        → Returns e.unavailable_upstream out (walk_all call e.unavailable_upstream out)
        → Returns (id ∷ []) out (walk_entry call id (some e) out)
    unfolding walk_entry
    walk_entry-Returns call id e f out d r = entry e.state e.has_state refl refl
      where
        leaf :
            is_critical (some e) ≡ false
            → is_unknown devices e ≡ false
            → Adds devices (id ∷ []) out out
        leaf c n =
            Adds-leaf devices id out d (rw f c) (λ root m. Meets-stop devices id root e f n m)

        critical_root :
            is_critical (some e) ≡ true
            → is_unknown devices e ≡ false
            → Adds devices (id ∷ []) out (if elem id out then out else out ++ (id ∷ []))
        critical_root c n =
            Adds-critical devices id out d (rw f c) (λ root m. Meets-stop devices id root e f n m)

        if_some :
            (b : Bool) (x y : List String)
            → (if b then some x else some y) ≡ some (if b then x else y)
        if_some true x y = refl
        if_some false x y = refl

        entry :
            (s : State) (has : Bool)
            → e.state ≡ s
            → e.has_state ≡ has
            → Returns (id ∷ []) out (walk_entry call id (some e) out)
        entry s false es eh = rw eh (out, refl, leaf (rw eh refl) (rw eh refl))
        entry no_state true es eh =
            rw (eh, es) (out, refl, leaf (rw (eh, es) refl) (rw (eh, es) refl))
        entry healthy true es eh =
            rw (eh, es) (out, refl, leaf (rw (eh, es) refl) (rw (eh, es) refl))
        entry warning true es eh =
            rw (eh, es) (out, refl, leaf (rw (eh, es) refl) (rw (eh, es) refl))
        entry critical true es eh =
            rw (eh, es)
              (
                _,
                if_some (elem id out) out (out ++ (id ∷ [])),
                critical_root (rw (eh, es) refl) (rw (eh, es) refl),
              )
        entry unknown true es eh =
            let (out', e', a) = r in
            rw (eh, es) (out', e', Adds-unknown devices id e out out' f eh es a)

    walk-Returns :
        IsRanked rank devices
        → (fuel : ℕ) (id : String) (out : List String) → rank id < fuel
        → IsDistinct out
        → Returns (id ∷ []) out (walk fuel devices id out)
    unfolding walk
    walk-Returns ranked zero id out h d = absurd (omega arith)
    walk-Returns ranked (suc fuel) id out h d = elim (Option-cases (lookup id devices)) [
      | inl e ↦
          rw (e, walk_entry)
            (
              out,
              refl,
              Adds-leaf devices id out d (rw e refl) (λ root m.
                  elim (Meets-cases devices id root m) [
                    | inl same ↦ same
                    | inr (e', up, found, has, un, blamed, next) ↦ absurd (cc (e, found))
                  ]),
            )
      | inr (entry, e) ↦ rw e (
          walk_entry-Returns (walk fuel devices) id entry e out d (
            walk_all-Returns (walk fuel devices) (rank id)
              (λ u o hu. walk-Returns ranked fuel u o (omega arith)) entry.unavailable_upstream out
              (All-lookup _ id entry devices ranked e) d))
    ]

    -- If the blame of unknown devices runs down a ranking below the fuel, `collectRootCauses`
    -- returns a sorted list without repetition, of exactly the critical devices that the walk meets:
    -- those that it reaches from an unavailable upstream by the unavailable upstreams of unknown
    -- devices.
    pub collect_root_causes-returns :
        IsRanked rank devices
        → (fuel : ℕ) → ((id : String) → rank id < fuel)
        → (unavailable : List String)
        → (out : List String) × (collect_root_causes fuel devices unavailable ≡ some out)
          × IsDistinct out
          × AreRootsOf devices unavailable out
          × IsSorted out
    unfolding collect_root_causes elem
    collect_root_causes-returns ranked fuel enough unavailable =
        let (out, e, (d, f)) =
          walk_all-Returns (walk fuel devices) fuel (walk-Returns ranked fuel) unavailable []
            (All-of _ unavailable enough) tt in
        rw e (
          sort_strings out,
          refl,
          sort_strings-IsDistinct out d,
          (λ root. (
            λ h. elim ((f root).0 (sym (elem-sort_strings root out) ∙ h)) [
              | inl a ↦ absurd (cc)
              | inr a ↦ a
            ],
            λ a. elem-sort_strings root out ∙ (f root).1 (inr a),
          )),
          sort_strings-IsSorted out,
        )
