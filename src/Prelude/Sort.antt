-- ===== src/Prelude/Sort.antt =====
-- `sort.Strings` and `sort.Slice` by a text key: an insertion sort. The program compares whole
-- results only where the keys differ, so the order that Go leaves open does not matter there.
use monitoring_project.Prelude.Tests.{if◌then◌else◌, Bool-cases}
use monitoring_project.Prelude.Lists.{length, All}
use monitoring_project.Prelude.Text.{◌=s=◌, str_le, str_le_total, str_le_trans}
use monitoring_project.Prelude.Maps.{elem, IsDistinct}
use Prim.Native.Nat.{suc}
use Prim.Native.String.{String}
use text.Mathlib.TextEquality.{eq_iff}
use mathlib.Core.Path.{◌≡◌, refl, ap, sym, ◌∙◌}
use mathlib.Core.Bool.{true, false, ◌||◌}
use mathlib.Core.Logic.{inl, inr}
use mathlib.Core.List.{List, [], ◌∷◌, map}
use native.Mathlib.Omega.{arith}

module _ {ℓ} {A : Type ℓ} (key : A → String) where
  unfoldable pub insert_by : A → List A → List A
  insert_by x [] = x ∷ []
  insert_by x (y ∷ ys) = if str_le (key x) (key y) then x ∷ y ∷ ys else y ∷ insert_by x ys

  unfoldable pub sort_by : List A → List A
  unfolding insert_by
  sort_by [] = []
  sort_by (x ∷ xs) = insert_by x (sort_by xs)

  length-insert_by : (x : A) (xs : List A) → length (insert_by x xs) ≡ suc (length xs)
  unfolding insert_by
  length-insert_by x [] = refl
  length-insert_by x (y ∷ ys) = ground (arith, length-insert_by x ys)

  pub length-sort_by : (xs : List A) → length (sort_by xs) ≡ length xs
  unfolding sort_by
  length-sort_by [] = refl
  length-sort_by (x ∷ xs) = ground (arith, length-insert_by x (sort_by xs), length-sort_by xs)

  elem-insert_by :
      (k : String) (x : A) (xs : List A)
      → elem k (map key (insert_by x xs)) ≡ (k =s= key x || elem k (map key xs))
  unfolding insert_by elem
  elem-insert_by k x [] = refl
  elem-insert_by k x (y ∷ ys) = ground (arith, elem-insert_by k x ys)

  pub elem-sort_by :
      (k : String) (xs : List A) → elem k (map key (sort_by xs)) ≡ elem k (map key xs)
  unfolding sort_by elem
  elem-sort_by k [] = refl
  elem-sort_by k (x ∷ xs) = ground (arith, elem-insert_by k x (sort_by xs), elem-sort_by k xs)

  insert_by-IsDistinct :
      (x : A) (xs : List A)
      → IsDistinct (key x ∷ map key xs)
      → IsDistinct (map key (insert_by x xs))
  unfolding insert_by elem
  insert_by-IsDistinct x [] h = h
  insert_by-IsDistinct x (y ∷ ys) h = ground (
    arith,
    eq_iff (key x) (key y),
    eq_iff (key y) (key x),
    elem-insert_by (key y) x ys,
    insert_by-IsDistinct x ys,
  )

  pub sort_by-IsDistinct :
      (xs : List A) → IsDistinct (map key xs) → IsDistinct (map key (sort_by xs))
  unfolding sort_by
  sort_by-IsDistinct [] h = tt
  sort_by-IsDistinct (x ∷ xs) h =
      insert_by-IsDistinct x (sort_by xs)
        (ground (arith, elem-sort_by (key x) xs, sort_by-IsDistinct xs h.1))

-- Each text comes before all that follow it.
abbrev pub IsSorted : List String → Type 0
IsSorted [] = Unit
IsSorted (x ∷ xs) = All (λ y. str_le x y ≡ true) xs × IsSorted xs

module _ {ℓ κ} {A : Type ℓ} (key : A → String) (P : A → Type κ) where
  All-insert_by : (x : A) (xs : List A) → P x → All P xs → All P (insert_by key x xs)
  unfolding insert_by
  All-insert_by x [] h a = (h, a)
  All-insert_by x (y ∷ ys) h a = elim (Bool-cases (str_le (key x) (key y))) [
    | inl e ↦ rw e (h, a)
    | inr e ↦ rw e (a.0, All-insert_by x ys h a.1)
  ]

  pub All-sort_by : (xs : List A) → All P xs → All P (sort_by key xs)
  unfolding sort_by
  All-sort_by [] a = tt
  All-sort_by (x ∷ xs) a = All-insert_by x (sort_by key xs) a.0 (All-sort_by xs a.1)

All-le :
    (x y : String) (ys : List String)
    → str_le x y ≡ true
    → All (λ z. str_le y z ≡ true) ys
    → All (λ z. str_le x z ≡ true) ys
All-le x y [] h a = tt
All-le x y (z ∷ zs) h a = (str_le_trans x y z h a.0, All-le x y zs h a.1)

module _ {ℓ} {A : Type ℓ} (key : A → String) where
  All-map-insert_by :
      (k : String) (x : A) (xs : List A)
      → str_le k (key x) ≡ true
      → All (λ z. str_le k z ≡ true) (map key xs)
      → All (λ z. str_le k z ≡ true) (map key (insert_by key x xs))
  unfolding insert_by
  All-map-insert_by k x [] h a = (h, a)
  All-map-insert_by k x (y ∷ ys) h a = elim (Bool-cases (str_le (key x) (key y))) [
    | inl e ↦ rw e (h, a)
    | inr e ↦ rw e (a.0, All-map-insert_by k x ys h a.1)
  ]

  le_of_not-le : (a b : String) → str_le a b ≡ false → str_le b a ≡ true
  le_of_not-le a b h = ground (arith, str_le_total a b)

  insert_by-IsSorted :
      (x : A) (xs : List A) → IsSorted (map key xs) → IsSorted (map key (insert_by key x xs))
  unfolding insert_by
  insert_by-IsSorted x [] s = (tt, tt)
  insert_by-IsSorted x (y ∷ ys) s = elim (Bool-cases (str_le (key x) (key y))) [
    | inl e ↦ rw e ((e, All-le (key x) (key y) (map key ys) e s.0), s)
    | inr e ↦ rw e (
      All-map-insert_by (key y) x ys (le_of_not-le (key x) (key y) e) s.0,
      insert_by-IsSorted x ys s.1,
    )
  ]

  pub sort_by-IsSorted : (xs : List A) → IsSorted (map key (sort_by key xs))
  unfolding sort_by
  sort_by-IsSorted [] = tt
  sort_by-IsSorted (x ∷ xs) = insert_by-IsSorted x (sort_by key xs) (sort_by-IsSorted xs)

-- `sort.Strings`
abbrev pub sort_strings : List String → List String
sort_strings = sort_by (λ s. s)

map_id : (xs : List String) → map (λ s. s) xs ≡ xs
map_id [] = refl
map_id (x ∷ xs) = ap (◌∷◌ x) (map_id xs)

pub sort_strings-IsDistinct : (xs : List String) → IsDistinct xs → IsDistinct (sort_strings xs)
sort_strings-IsDistinct xs d =
    rw (map_id (sort_strings xs)) at (sort_by-IsDistinct (λ s. s) xs (rw map_id d))

pub sort_strings-IsSorted : (xs : List String) → IsSorted (sort_strings xs)
sort_strings-IsSorted xs = rw (map_id (sort_strings xs)) at (sort_by-IsSorted (λ s. s) xs)

pub elem-sort_strings : (k : String) (xs : List String) → elem k (sort_strings xs) ≡ elem k xs
elem-sort_strings k xs =
    ap (elem k) (sym (map_id (sort_strings xs)))
    ∙ elem-sort_by (λ s. s) k xs
    ∙ ap (elem k) (map_id xs)
