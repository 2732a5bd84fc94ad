-- ===== src/Topology/Names.antt =====
-- The naming hints of `bfsParents`, services/snmp-collector/internal/topology/infer.go: where each
-- parent comes from, and that a name ranks above the name it points to.
use monitoring_project.Prelude.{
  ℕ, ◌<◌, ◌≡◌, refl, sym, ◌∙◌, ◌⊎◌, inl, inr, String, Bool, true, false, ◌&&◌, ◌||◌, none, some,
  List, [], ◌∷◌, ◌=s=◌, eq_iff, if◌then◌else◌, Map, lookup, insert, lookup-insert, elem, to_lower,
  contains, has_prefix, arith, Bool-cases, Option-cases,
}
use monitoring_project.Config.Types.{DeviceConfig}
use monitoring_project.Topology.{mdf_of, is_access, below_core, naming_upstream, name_one, name_all}
use monitoring_project.Topology.Lower.{contains-mdf_of}

-- The rank of a name: access switches above distribution switches, above the rest.
unfoldable pub rank_of : String → ℕ
rank_of id =
    if contains (to_lower id) "-idf" then 2 else if contains (to_lower id) "-mdf" then 1 else 0

core_rank : rank_of "do-core" ≡ 0
unfolding rank_of contains to_lower has_prefix
core_rank = refl

positive :
    (idf mdf known : Bool)
    → ((mdf || idf) && known) ≡ true
    → 0 < (if idf then 2 else if mdf then 1 else 0)
positive true mdf known h = omega arith
positive false true known h = omega arith
positive false false known h = absurd (cc)

both_right : (a b : Bool) → (a && b) ≡ true → b ≡ true
both_right true b h = h
both_right false b h = absurd (cc)

both_left : (a b : Bool) → (a && b) ≡ true → a ≡ true
both_left true b h = refl
both_left false b h = absurd (cc)

below_core-ranks :
    (id : String) (ids : List String) (up : String)
    → below_core id ids ≡ up
    → (up =s= "") ≡ false
    → (rank_of up < rank_of id) × (elem up ids ≡ true)
unfolding below_core rank_of
below_core-ranks id ids up h n =
    let named = contains (to_lower id) "-mdf" || contains (to_lower id) "-idf" in
    elim (Bool-cases (named && elem "do-core" ids)) [
      | inr e ↦ absurd (cc (n, (eq_iff up "").1 (sym (rw (e, below_core) at h))))
      | inl e ↦
          let is_core : up ≡ "do-core" = sym (rw (e, below_core) at h) in
          rw (is_core, core_rank)
            (
              positive (contains (to_lower id) "-idf") (contains (to_lower id) "-mdf")
                  (elem "do-core" ids) e,
              both_right named (elem "do-core" ids) e,
            )
    ]

low : (b : Bool) → (if b then 1 else 0) < 2
low true = omega arith
low false = omega arith

pub naming_upstream-ranks :
    (id : String) (ids : List String) (up : String)
    → naming_upstream id ids ≡ up
    → (up =s= "") ≡ false
    → (rank_of up < rank_of id) × (elem up ids ≡ true)
unfolding naming_upstream is_access rank_of
naming_upstream-ranks id ids up h n = elim (Bool-cases (is_access id && elem (mdf_of id) ids)) [
  | inl e ↦
      let is_mdf : up ≡ mdf_of id = sym (rw (e, naming_upstream) at h) in
      let access : contains (to_lower id) "-idf" ≡ true =
        both_left _ _ (both_left (is_access id) _ e) in
      rw (is_mdf, access, contains-mdf_of id)
        (
          low (contains (to_lower (mdf_of id)) "-mdf"),
          both_right (is_access id) (elem (mdf_of id) ids) e,
        )
  | inr e ↦ below_core-ranks id ids up (rw e at h) n
]

-- A parent after the naming hints is one that the search found, or the hint of a device that the
-- search did not measure.
abbrev pub IsHinted : List String → Map String → Map ℕ → Map String → Type 0
IsHinted ids parent depth hinted =
    (x p : String)
    → lookup x hinted ≡ some p
    → (lookup x parent ≡ some p)
      ⊎ ((lookup x depth ≡ none) × (naming_upstream x ids ≡ p) × ((p =s= "") ≡ false))

module _ (ids : List String) (parent : Map String) (depth : Map ℕ) where
  IsNamed : Map String × Map ℕ → Type 0
  IsNamed s =
      IsHinted ids parent depth s.0 × ((x : String) → lookup x s.1 ≡ none → lookup x depth ≡ none)

  hint_one :
      (id up : String) (p : Map String)
      → lookup id depth ≡ none
      → naming_upstream id ids ≡ up
      → (up =s= "") ≡ false
      → IsHinted ids parent depth p
      → IsHinted ids parent depth (insert id up p)
  hint_one id up p free named n h x q k = elim (Bool-cases (id =s= x)) [
    | inl e ↦
        let same : id ≡ x = (eq_iff id x).0 e in
        let is_up : up ≡ q = some_inj (sym (rw (lookup-insert id x up p, e) refl) ∙ k) in
        inr (rw (sym same) free, rw (sym same) named ∙ is_up, rw (sym is_up) n)
    | inr e ↦ h x q (sym (rw (lookup-insert id x up p, e) refl) ∙ k)
  ]
    where
      some_inj : {A : Type 0} {a b : A} → some a ≡ some b → a ≡ b
      some_inj h = cc

  insert-none :
      (id x : String) (d : ℕ) (m : Map ℕ) → lookup x (insert id d m) ≡ none → lookup x m ≡ none
  insert-none id x d m h = ground (arith, lookup-insert id x d m)

  name_one-IsNamed :
      (id : String) (s : Map String × Map ℕ) → IsNamed s → IsNamed (name_one ids id s)
  unfolding name_one IsNamed
  name_one-IsNamed id s (h, g) = elim (Option-cases (lookup id s.1)) [
    | inr (d, e) ↦ rw (e, name_one) (h, g)
    | inl e ↦ elim (Bool-cases (naming_upstream id ids =s= "")) [
      | inl q ↦ rw (e, q, name_one) (h, λ x k. g x (insert-none id x _ s.1 k))
      | inr q ↦
          rw (e, q, name_one)
            (
              hint_one id (naming_upstream id ids) s.0 (g id e) refl q h,
              λ x k. g x (insert-none id x _ s.1 k),
            )
    ]
  ]

  name_all-IsNamed :
      {F : Type 0} (ds : List (DeviceConfig F)) (s : Map String × Map ℕ)
      → IsNamed s
      → IsNamed (name_all ids ds s)
  unfolding name_all
  name_all-IsNamed [] s h = h
  name_all-IsNamed (d ∷ ds) s h =
      name_all-IsNamed ds (name_one ids d.id s) (name_one-IsNamed d.id s h)

  pub name_all-IsHinted :
      {F : Type 0} (ds : List (DeviceConfig F))
      → IsHinted ids parent depth (name_all ids ds (parent, depth)).0
  unfolding IsNamed
  name_all-IsHinted ds = (name_all-IsNamed ds (parent, depth) (λ x p h. inl h, λ x h. h)).0
