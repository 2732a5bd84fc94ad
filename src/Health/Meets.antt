-- ===== src/Health/Meets.antt =====
-- What the walk of `collectRootCauses` meets, and what a list gains by it.
use monitoring_project.Prelude.{
  ◌≡◌, ◌↔◌, ◌⊎◌, refl, sym, ◌∙◌, inl, inr, String, Bool, true, false, Option, none, some, List, [],
  ◌∷◌, ◌++◌, ◌=s=◌, eq_iff, eq_refl, if◌then◌else◌, lookup, elem, append-IsDistinct, IsDistinct,
  elem-append, arith, Bool-cases,
}
use mathlib.Core.Path.{subst}
use monitoring_project.Health.Types.{critical, unknown, DeviceHealth, Ledger}

some_inj : {A : Type 0} {a b : A} → some a ≡ some b → a ≡ b
some_inj h = cc

module _ {F : Type 0} where
  abbrev pub is_critical : Option (DeviceHealth F) → Bool
  is_critical none = false
  is_critical (some e) =
      if e.has_state then elim (e.state) [ critical ↦ true | _ ↦ false ] else false

  module _ (devices : Ledger F) where
    -- The walk from a device meets another: by the unavailable upstreams of unknown devices.
    pub data Meets : String → String → Type 0 where
      here : (id : String) → Meets id id
      further :
          (id up root : String) (e : DeviceHealth F)
          → lookup id devices ≡ some e
          → e.has_state ≡ true
          → e.state ≡ unknown
          → elem up e.unavailable_upstream ≡ true
          → Meets up root
          → Meets id root

    -- The walk from one of the ids meets the device.
    abbrev pub IsMet : List String → String → Type 0
    IsMet ids root = (id : String) × (elem id ids ≡ true) × Meets id root

    abbrev pub IsRoot : String → Type 0
    IsRoot id = is_critical (lookup id devices) ≡ true

    -- The list has the critical devices that the walk from the ids meets, and no other.
    abbrev pub AreRootsOf : List String → List String → Type 0
    AreRootsOf ids out = (root : String) → (elem root out ≡ true) ↔ (IsRoot root × IsMet ids root)

    -- What a walk from the ids adds to the list.
    abbrev pub Adds : List String → List String → List String → Type 0
    Adds ids out out' =
        IsDistinct out'
        × ((root : String)
            → (elem root out' ≡ true) ↔ ((elem root out ≡ true) ⊎ (IsRoot root × IsMet ids root)))

    pub Meets-cases :
        (id root : String)
        → Meets id root
        → (root ≡ id)
          ⊎ ((e : DeviceHealth F) × (up : String) × (lookup id devices ≡ some e)
              × (e.has_state ≡ true)
              × (e.state ≡ unknown)
              × (elem up e.unavailable_upstream ≡ true)
              × Meets up root)
    Meets-cases id root (here i) = inl refl
    Meets-cases id root (further i up r e found has un blamed next) =
        inr (e, up, found, has, un, blamed, next)

    IsMet-first : (id root : String) (ids : List String) → Meets id root → IsMet (id ∷ ids) root
    unfolding elem
    IsMet-first id root ids m = (id, rw (eq_refl id) refl, m)

    IsMet-rest : (id root : String) (ids : List String) → IsMet ids root → IsMet (id ∷ ids) root
    unfolding elem
    IsMet-rest id root ids (i, h, m) = (i, ground (arith, h), m)

    IsMet-cases :
        (id root : String) (ids : List String)
        → IsMet (id ∷ ids) root
        → Meets id root ⊎ IsMet ids root
    unfolding elem
    IsMet-cases id root ids (i, h, m) = elim (Bool-cases (i =s= id)) [
      | inl e ↦ inl (subst (λ x. Meets x root) ((eq_iff i id).0 e) m)
      | inr e ↦ inr (i, rw e at h, m)
    ]

    -- A walk from one id adds what it meets.
    Adds-one :
        (id : String) (out out' : List String)
        → IsDistinct out'
        → ((root : String)
            → elem root out' ≡ true
            → (elem root out ≡ true) ⊎ (IsRoot root × Meets id root))
        → ((root : String) → elem root out ≡ true → elem root out' ≡ true)
        → ((root : String) → IsRoot root → Meets id root → elem root out' ≡ true)
        → Adds (id ∷ []) out out'
    unfolding elem
    Adds-one id out out' d old kept met = (
      d,
      λ root. (
        λ h. elim (old root h) [ inl a ↦ inl a | inr (c, m) ↦ inr (c, IsMet-first id root [] m) ],
        λ h. elim h [
          | inl a ↦ kept root a
          | inr (c, m) ↦ elim (IsMet-cases id root [] m) [
            | inl m' ↦ met root c m'
            | inr (i, k, m') ↦ absurd (cc)
          ]
        ],
      ),
    )

    pub Adds-none : (out : List String) → IsDistinct out → Adds [] out out
    unfolding elem
    Adds-none out d =
        (d, λ root. (λ h. inl h, λ h. elim h [ inl a ↦ a | inr (c, (i, k, m)) ↦ absurd (cc) ]))

    pub Adds-then :
        (id : String) (ids a b c : List String)
        → Adds (id ∷ []) a b
        → Adds ids b c
        → Adds (id ∷ ids) a c
    unfolding elem
    Adds-then id ids a b c (d, f) (d', g) = (
      d',
      λ root. (
        λ h. elim ((g root).0 h) [
          | inr (r, m) ↦ inr (r, IsMet-rest id root ids m)
          | inl h' ↦ elim ((f root).0 h') [
            | inl h'' ↦ inl h''
            | inr (r, m) ↦ elim (IsMet-cases id root [] m) [
              | inl m' ↦ inr (r, IsMet-first id root ids m')
              | inr (i, k, m') ↦ absurd (cc)
            ]
          ]
        ],
        λ h. elim h [
          | inl h' ↦ (g root).1 (inl ((f root).1 (inl h')))
          | inr (r, m) ↦ elim (IsMet-cases id root ids m) [
            | inl m' ↦ (g root).1 (inl ((f root).1 (inr (r, IsMet-first id root [] m'))))
            | inr m' ↦ (g root).1 (inr (r, m'))
          ]
        ],
      ),
    )

    abbrev pub is_unknown : DeviceHealth F → Bool
    is_unknown e = if e.has_state then elim (e.state) [ unknown ↦ true | _ ↦ false ] else false

    -- The walk goes on at unknown devices only.
    pub Meets-stop :
        (id root : String) (e : DeviceHealth F)
        → lookup id devices ≡ some e
        → is_unknown e ≡ false
        → Meets id root
        → root ≡ id
    Meets-stop id root e found n m = elim (Meets-cases id root m) [
      | inl same ↦ same
      | inr (e', up, found', has, un, blamed, next) ↦
          let same : e ≡ e' = some_inj (sym found ∙ found') in absurd (cc (rw (same, has, un) at n))
    ]

    pub Adds-leaf :
        (id : String) (out : List String)
        → IsDistinct out
        → is_critical (lookup id devices) ≡ false
        → ((root : String) → Meets id root → root ≡ id)
        → Adds (id ∷ []) out out
    Adds-leaf id out d c stop =
        Adds-one id out out d (λ root h. inl h) (λ root h. h)
          (λ root r m. absurd (cc (stop root m, r, c)))

    pub Adds-critical :
        (id : String) (out : List String)
        → IsDistinct out
        → IsRoot id
        → ((root : String) → Meets id root → root ≡ id)
        → Adds (id ∷ []) out (if elem id out then out else out ++ (id ∷ []))
    unfolding elem
    Adds-critical id out d c stop = elim (Bool-cases (elem id out)) [
      | inl e ↦
          rw e
            (Adds-one id out out d (λ root h. inl h) (λ root h. h) (λ root r m. rw (stop root m) e))
      | inr e ↦ rw e (
          Adds-one id out (out ++ (id ∷ [])) (append-IsDistinct out id d e)
            (λ root h. elim (Bool-cases (root =s= id)) [
              | inl same ↦
                  let at_id = (eq_iff root id).0 same in inr (rw at_id c, rw at_id (here id))
              | inr other ↦ inl (ground (arith, h, other, elem-append root out (id ∷ [])))
            ])
            (λ root h. ground (arith, h, elem-append root out (id ∷ [])))
            (λ root r m.
              rw (stop root m) (ground (arith, eq_refl id, elem-append id out (id ∷ [])))))
    ]

    pub Adds-unknown :
        (id : String) (e : DeviceHealth F) (out out' : List String)
        → lookup id devices ≡ some e
        → e.has_state ≡ true
        → e.state ≡ unknown
        → Adds e.unavailable_upstream out out'
        → Adds (id ∷ []) out out'
    Adds-unknown id e out out' found has un (d, f) =
        Adds-one id out out' d
          (λ root h. elim ((f root).0 h) [
            | inl a ↦ inl a
            | inr (r, (up, blamed, m)) ↦ inr (r, further id up root e found has un blamed m)
          ])
          (λ root h. (f root).1 (inl h))
          (λ root r m. elim (Meets-cases id root m) [
            | inl same ↦ absurd (cc (rw (same, found, has, un) at r))
            | inr (e', up, found', has', un', blamed, next) ↦
                let same : e' ≡ e = some_inj (sym found' ∙ found) in
                (f root).1 (inr (r, (up, rw same at blamed, next)))
          ])
