-- ===== src/Config/Colours.antt =====
-- What one call of `visit` does to the colours of the search of
-- services/snmp-collector/internal/config/config.go: which colours stay, and how many devices are
-- left to visit.
use monitoring_project.Prelude.{
  ℕ, suc, ◌≤◌, ◌<◌, ◌≡◌, refl, sym, ◌∙◌, inl, inr, String, Bool, true, false, List, [], ◌∷◌, length,
  ◌=s=◌, eq_iff, if◌then◌else◌, insert, lookup-insert, elem, arith, Bool-cases,
}
use monitoring_project.Config.Dependencies.{
  Colour, unvisited, visiting, visited, Colours, colour_of,
}

abbrev pub is_unvisited : Colour → Bool
is_unvisited unvisited = true
is_unvisited visiting = false
is_unvisited visited = false

pub colour_of-insert :
    (id x : String) (c : Colour) (s : Colours)
    → colour_of (insert id c s) x ≡ (if id =s= x then c else colour_of s x)
unfolding colour_of
colour_of-insert id x c s = ground (arith, lookup-insert id x c s)

pub colour_of-same : (id : String) (c : Colour) (s : Colours) → colour_of (insert id c s) id ≡ c
colour_of-same id c s = ground (arith, colour_of-insert id id c s, eq_iff id id)

pub colour_of-other :
    (id x : String) (c : Colour) (s : Colours)
    → (id =s= x) ≡ false
    → colour_of (insert id c s) x ≡ colour_of s x
colour_of-other id x c s n = rw (colour_of-insert id x c s, n) refl

-- A device that was coloured keeps its colour, and no other device is left in progress.
abbrev pub IsKept : Colours → Colours → Type 0
IsKept s t =
    (x : String)
    → (is_unvisited (colour_of s x) ≡ false → colour_of t x ≡ colour_of s x)
      × (colour_of t x ≡ visiting → colour_of s x ≡ visiting)

pub IsKept-refl : (s : Colours) → IsKept s s
IsKept-refl s x = (λ h. refl, λ h. h)

pub IsKept-trans : (r s t : Colours) → IsKept r s → IsKept s t → IsKept r t
IsKept-trans r s t a b x = (λ h. (b x).0 (rw ((a x).0 h) h) ∙ (a x).0 h, λ h. (a x).1 ((b x).1 h))

-- A whole visit: the device was unvisited, was in progress for the calls, and is visited.
pub visit-IsKept :
    (id : String) (s t : Colours)
    → colour_of s id ≡ unvisited
    → IsKept (insert id visiting s) t
    → IsKept s (insert id visited t)
visit-IsKept id s t h k x = elim (Bool-cases (id =s= x)) [
  | inl e ↦
      let q : id ≡ x = (eq_iff id x).0 e in
      (
        λ u. absurd (cc (rw q at h, u)),
        λ v. absurd (cc (rw (sym q) at v, colour_of-same id visited t)),
      )
  | inr n ↦ (
    λ u.
        colour_of-other id x visited t n
        ∙ (k x).0 (rw (colour_of-other id x visiting s n) u)
        ∙ colour_of-other id x visiting s n,
    λ v.
        sym (colour_of-other id x visiting s n)
        ∙ (k x).1 (sym (colour_of-other id x visited t n) ∙ v),
  )
]

-- The devices of a list that are not visited yet.
unfoldable pub unvisited_of : List String → Colours → ℕ
unvisited_of [] s = 0
unvisited_of (id ∷ ids) s =
    let rest = unvisited_of ids s in if is_unvisited (colour_of s id) then suc rest else rest

pub unvisited_of-IsKept :
    (ids : List String) (s t : Colours) → IsKept s t → unvisited_of ids t ≤ unvisited_of ids s
unfolding unvisited_of
unvisited_of-IsKept [] s t k = omega arith
unvisited_of-IsKept (id ∷ ids) s t k = elim (Bool-cases (is_unvisited (colour_of s id))) [
  | inl e ↦ ground (arith, unvisited_of-IsKept ids s t k)
  | inr e ↦
      let same : is_unvisited (colour_of t id) ≡ false = rw ((k id).0 e) e in
      ground (arith, unvisited_of-IsKept ids s t k, same)
]

insert-le :
    (ids : List String) (id : String) (s : Colours)
    → unvisited_of ids (insert id visiting s) ≤ unvisited_of ids s
unfolding unvisited_of
insert-le [] id s = omega arith
insert-le (x ∷ ids) id s = ground (arith, insert-le ids id s, colour_of-insert id x visiting s)

-- To start on an unvisited device leaves one fewer.
pub unvisited_of-insert :
    (ids : List String) (id : String) (s : Colours)
    → elem id ids ≡ true
    → colour_of s id ≡ unvisited
    → unvisited_of ids (insert id visiting s) < unvisited_of ids s
unfolding unvisited_of elem
unvisited_of-insert [] id s h u = absurd (cc)
unvisited_of-insert (x ∷ ids) id s h u = elim (Bool-cases (id =s= x)) [
  | inl e ↦
      rw (colour_of-insert id x visiting s, e)
        (rw (sym ((eq_iff id x).0 e)) (rw u (omega (arith, insert-le ids id s))))
  | inr n ↦
      rw (colour_of-insert id x visiting s, n) (ground (arith, unvisited_of-insert ids id s, n))
]

pub unvisited_of-le : (ids : List String) (s : Colours) → unvisited_of ids s ≤ length ids
unfolding unvisited_of
unvisited_of-le [] s = omega arith
unvisited_of-le (x ∷ ids) s = ground (arith, unvisited_of-le ids s)
