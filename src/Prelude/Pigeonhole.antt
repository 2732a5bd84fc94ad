-- ===== src/Prelude/Pigeonhole.antt =====
-- A list with no text twice, all of whose texts stand in another list, is no longer than that.
use monitoring_project.Prelude.Tests.{if◌then◌else◌, Bool-cases}
use monitoring_project.Prelude.Lists.{length, All}
use monitoring_project.Prelude.Text.{◌=s=◌}
use monitoring_project.Prelude.Maps.{elem, elem-append, IsDistinct}
use Prim.Native.Nat.{suc, ◌≤◌}
use Prim.Native.String.{String}
use text.Mathlib.TextEquality.{eq_iff}
use mathlib.Core.Path.{◌≡◌}
use mathlib.Core.Bool.{true, false}
use mathlib.Core.Logic.{inl, inr}
use mathlib.Core.List.{List, [], ◌∷◌, ◌++◌}
use native.Mathlib.Omega.{arith}

-- Drops the first occurrence.
drop_one : String → List String → List String
drop_one x [] = []
drop_one x (y ∷ ys) = if y =s= x then ys else y ∷ drop_one x ys

length-drop_one :
    (x : String) (ys : List String) → elem x ys ≡ true → suc (length (drop_one x ys)) ≡ length ys
unfolding drop_one elem
length-drop_one x [] h = absurd (cc)
length-drop_one x (y ∷ ys) h = ground (arith, eq_iff x y, eq_iff y x, length-drop_one x ys)

elem-drop_one :
    (x z : String) (ys : List String)
    → (x =s= z) ≡ false
    → elem z ys ≡ true
    → elem z (drop_one x ys) ≡ true
unfolding drop_one elem
elem-drop_one x z [] n h = h
elem-drop_one x z (y ∷ ys) n h =
    ground (arith, eq_iff x y, eq_iff y x, eq_iff z y, eq_iff x z, elem-drop_one x z ys n)

abbrev pub IsWithin : List String → List String → Type 0
IsWithin xs ys = (z : String) → elem z xs ≡ true → elem z ys ≡ true

absent-ne :
    (x z : String) (xs : List String) → elem x xs ≡ false → elem z xs ≡ true → (x =s= z) ≡ false
absent-ne x z xs h k = elim (Bool-cases (x =s= z)) [
  | inl e ↦ absurd (cc (h, k, (eq_iff x z).0 e))
  | inr e ↦ e
]

pub length-le_of_IsWithin :
    (xs ys : List String) → IsDistinct xs → IsWithin xs ys → length xs ≤ length ys
unfolding elem
length-le_of_IsWithin [] ys d w = omega arith
length-le_of_IsWithin (x ∷ xs) ys d w =
    let here : elem x ys ≡ true = w x (ground (arith, eq_iff x x)) in
    let rest : IsWithin xs (drop_one x ys) =
      λ z h. elem-drop_one x z ys (absent-ne x z xs d.0 h) (w z (ground arith)) in
    omega (arith, length-le_of_IsWithin xs (drop_one x ys) d.1 rest, length-drop_one x ys here)

pub ++-IsDistinct :
    (xs ys : List String)
    → IsDistinct xs
    → IsDistinct ys
    → ((z : String) → elem z xs ≡ true → elem z ys ≡ false)
    → IsDistinct (xs ++ ys)
unfolding elem
++-IsDistinct [] ys d e apart = e
++-IsDistinct (x ∷ xs) ys d e apart = (
  ground (arith, elem-append x xs ys, apart x, eq_iff x x),
  ++-IsDistinct xs ys d.1 e (λ z h. apart z (ground arith)),
)

-- If it is as long, the two hold the same texts.
pub IsWithin-of_length-le :
    (xs ys : List String) → IsDistinct xs → IsWithin xs ys → length ys ≤ length xs → IsWithin ys xs
unfolding elem
IsWithin-of_length-le xs ys d w l z h = elim (Bool-cases (elem z xs)) [
  | inl e ↦ e
  | inr e ↦ absurd (
      omega (
        arith,
        length-le_of_IsWithin (z ∷ xs) ys (e, d)
            (λ t k. elim (Bool-cases (t =s= z)) [
              | inl q ↦ ground (arith, eq_iff t z, h)
              | inr q ↦ w t (ground arith)
            ]),
      ))
]

pub IsWithin-of_All : (xs ys : List String) → All (λ x. elem x ys ≡ true) xs → IsWithin xs ys
unfolding elem
IsWithin-of_All [] ys a z h = absurd (cc)
IsWithin-of_All (x ∷ xs) ys a z h = elim (Bool-cases (z =s= x)) [
  | inl e ↦ rw ((eq_iff z x).0 e) a.0
  | inr n ↦ IsWithin-of_All xs ys a.1 z (ground arith)
]

pub All_of_IsWithin : (xs ys : List String) → IsWithin xs ys → All (λ x. elem x ys ≡ true) xs
unfolding elem
All_of_IsWithin [] ys w = tt
All_of_IsWithin (x ∷ xs) ys w =
    (w x (ground (arith, eq_iff x x)), All_of_IsWithin xs ys (λ z h. w z (ground arith)))
