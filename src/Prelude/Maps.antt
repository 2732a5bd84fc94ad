-- ===== src/Prelude/Maps.antt =====
-- Go's `map[string]V` as an association list, and `map[string]struct{}` as a list of texts. Where
-- the program ranges over a map, the model goes through the list: a theorem for every list is one
-- for every order of iteration.
use monitoring_project.Prelude.Tests.{if◌then◌else◌, Bool-cases}
use monitoring_project.Prelude.Lists.{All, length}
use monitoring_project.Prelude.Text.{◌=s=◌}
use Prim.Native.Nat.{suc, ◌≤◌, ◌<◌}
use Prim.Native.String.{String}
use text.Mathlib.TextEquality.{eq_iff}
use mathlib.Core.Path.{◌≡◌, refl, subst₂}
use mathlib.Core.Logic.{inl, inr}
use mathlib.Core.Bool.{Bool, true, false, not, ◌||◌}
use mathlib.Core.Option.{Option, none, some}
use mathlib.Core.List.{List, [], ◌∷◌, ◌++◌}
use native.Mathlib.Omega.{arith}

abbrev pub Map {ℓ} : Type ℓ → Type ℓ
Map V = List (String × V)

-- Membership in a set of texts.
unfoldable pub elem : String → List String → Bool
elem x [] = false
elem x (y ∷ ys) = x =s= y || elem x ys

pub elem-append : (x : String) (xs ys : List String) → elem x (xs ++ ys) ≡ (elem x xs || elem x ys)
unfolding elem
elem-append x [] ys = refl
elem-append x (y ∷ xs) ys = ground (arith, elem-append x xs ys)

-- No text stands twice.
abbrev pub IsDistinct : List String → Type 0
IsDistinct [] = Unit
IsDistinct (x ∷ xs) = (elem x xs ≡ false) × IsDistinct xs

pub append-IsDistinct :
    (xs : List String) (y : String)
    → IsDistinct xs
    → elem y xs ≡ false
    → IsDistinct (xs ++ (y ∷ []))
unfolding elem
append-IsDistinct [] y d h = (refl, tt)
append-IsDistinct (x ∷ xs) y d h = (
  ground (arith, elem-append x xs (y ∷ []), eq_iff x y, eq_iff y x),
  append-IsDistinct xs y d.1 (ground arith),
)

module _ {ℓ} {V : Type ℓ} where
  -- `v, ok := m[k]`
  unfoldable pub lookup : String → Map V → Option V
  lookup k [] = none
  lookup k ((j, v) ∷ m) = if j =s= k then some v else lookup k m

  -- `m[k] = v`
  unfoldable pub insert : String → V → Map V → Map V
  insert k v [] = (k, v) ∷ []
  insert k v ((j, w) ∷ m) = if j =s= k then (k, v) ∷ m else (j, w) ∷ insert k v m

  -- `delete(m, k)`
  unfoldable pub delete : String → Map V → Map V
  delete k [] = []
  delete k ((j, w) ∷ m) = let rest = delete k m in if j =s= k then rest else (j, w) ∷ rest

  -- The deletions of a loop over the whole map: what stays are the entries that pass the test.
  unfoldable pub keep : (String → V → Bool) → Map V → Map V
  keep p [] = []
  keep p ((j, w) ∷ m) = let rest = keep p m in if p j w then (j, w) ∷ rest else rest

  unfoldable pub keys : Map V → List String
  keys [] = []
  keys ((j, w) ∷ m) = j ∷ keys m

  pub lookup-insert :
      (x y : String) (new : V) (m : Map V)
      → lookup y (insert x new m) ≡ (if x =s= y then some new else lookup y m)
  unfolding insert lookup
  lookup-insert x y new [] = refl
  lookup-insert x y new ((z, old) ∷ m) =
      ground (lookup-insert x y new m, eq_iff z x, eq_iff x y, eq_iff z y, arith)

  pub lookup-delete :
      (k j : String) (m : Map V) → lookup j (delete k m) ≡ (if k =s= j then none else lookup j m)
  unfolding lookup delete
  lookup-delete k j [] = ground arith
  lookup-delete k j ((i, w) ∷ m) =
      ground (arith, eq_iff k j, eq_iff i k, eq_iff i j, lookup-delete k j m)

  pub elem-keys-insert :
      (k x : String) (v : V) (m : Map V)
      → elem x (keys (insert k v m)) ≡ (x =s= k || elem x (keys m))
  unfolding insert keys elem
  elem-keys-insert k x v [] = refl
  elem-keys-insert k x v ((i, w) ∷ m) =
      ground (arith, eq_iff i k, eq_iff x k, eq_iff x i, elem-keys-insert k x v m)

  pub keys-insert-IsDistinct :
      (k : String) (v : V) (m : Map V) → IsDistinct (keys m) → IsDistinct (keys (insert k v m))
  unfolding insert keys elem
  keys-insert-IsDistinct k v [] h = (refl, tt)
  keys-insert-IsDistinct k v ((i, w) ∷ m) h =
      ground (arith, eq_iff i k, elem-keys-insert k i v m, keys-insert-IsDistinct k v m h.1)

  pub elem-keys-keep :
      (p : String → V → Bool) (x : String) (m : Map V)
      → elem x (keys m) ≡ false
      → elem x (keys (keep p m)) ≡ false
  unfolding keep keys elem
  elem-keys-keep p x [] h = refl
  elem-keys-keep p x ((i, w) ∷ m) h = ground (arith, elem-keys-keep p x m)

  pub keys-keep-IsDistinct :
      (p : String → V → Bool) (m : Map V) → IsDistinct (keys m) → IsDistinct (keys (keep p m))
  unfolding keep keys elem
  keys-keep-IsDistinct p [] h = tt
  keys-keep-IsDistinct p ((i, w) ∷ m) h =
      ground (arith, elem-keys-keep p i m h.0, keys-keep-IsDistinct p m h.1)

  pub lookup-absent : (x : String) (m : Map V) → elem x (keys m) ≡ false → lookup x m ≡ none
  unfolding lookup keys elem
  lookup-absent x [] h = refl
  lookup-absent x ((i, w) ∷ m) h = ground (arith, eq_iff i x, eq_iff x i, lookup-absent x m)

  pub lookup-present :
      (x : String) (v : V) (m : Map V) → lookup x m ≡ some v → elem x (keys m) ≡ true
  unfolding lookup keys elem
  lookup-present x v [] h = cc
  lookup-present x v ((i, w) ∷ m) h = ground (arith, eq_iff i x, eq_iff x i, lookup-present x v m)

  pub lookup-known :
      (x : String) (m : Map V) → elem x (keys m) ≡ true → (v : V) × (lookup x m ≡ some v)
  unfolding lookup keys elem
  lookup-known x [] h = absurd (cc)
  lookup-known x ((i, w) ∷ m) h = elim (Bool-cases (i =s= x)) [
    | inl e ↦ rw e (w, refl)
    | inr e ↦ rw e (lookup-known x m (ground (arith, eq_iff i x, eq_iff x i)))
  ]

  abbrev pub keep_some : (String → V → Bool) → String → Option V → Option V
  keep_some p j none = none
  keep_some p j (some v) = if p j v then some v else none

  pub lookup-keep :
      (p : String → V → Bool) (j : String) (m : Map V)
      → IsDistinct (keys m)
      → lookup j (keep p m) ≡ keep_some p j (lookup j m)
  unfolding lookup keep keys
  lookup-keep p j [] h = refl
  lookup-keep p j ((i, w) ∷ m) h = ground (
    arith,
    eq_iff i j,
    lookup-keep p j m h.1,
    lookup-absent j m,
    elem-keys-keep p j m,
    lookup-absent j (keep p m),
  )

some_inj {ℓ} : {A : Type ℓ} {a b : A} → some a ≡ some b → a ≡ b
some_inj h = cc

-- What holds of every entry of a map.
module _ {ℓ κ} {V : Type ℓ} (P : String × V → Type κ) where
  pub All-insert : (k : String) (v : V) (m : Map V) → P (k, v) → All P m → All P (insert k v m)
  unfolding insert
  All-insert k v [] h a = (h, tt)
  All-insert k v ((i, w) ∷ m) h a = elim (Bool-cases (i =s= k)) [
    | inl e ↦ rw e (h, a.1)
    | inr e ↦ rw e (a.0, All-insert k v m h a.1)
  ]

  pub All-lookup : (k : String) (v : V) (m : Map V) → All P m → lookup k m ≡ some v → P (k, v)
  unfolding lookup
  All-lookup k v [] a h = absurd (cc)
  All-lookup k v ((i, w) ∷ m) a h = elim (Bool-cases (i =s= k)) [
    | inl e ↦ subst₂ (λ x y. P (x, y)) ((eq_iff i k).0 e) (some_inj (rw e at h)) a.0
    | inr e ↦ All-lookup k v m a.1 (rw e at h)
  ]

  pub All-keep : (p : String → V → Bool) (m : Map V) → All P m → All P (keep p m)
  unfolding keep
  All-keep p [] a = tt
  All-keep p ((i, w) ∷ m) a = elim (Bool-cases (p i w)) [
    | inl e ↦ rw e (a.0, All-keep p m a.1)
    | inr e ↦ rw e (All-keep p m a.1)
  ]

-- Sizes of maps.
module _ {ℓ} {V : Type ℓ} where
  pub length-insert :
      (k : String) (v : V) (m : Map V)
      → length (insert k v m) ≡ (if elem k (keys m) then length m else suc (length m))
  unfolding insert keys elem
  length-insert k v [] = refl
  length-insert k v ((i, w) ∷ m) = ground (arith, eq_iff i k, eq_iff k i, length-insert k v m)

  pub length-insert-le : (k : String) (v : V) (m : Map V) → length (insert k v m) ≤ suc (length m)
  length-insert-le k v m = grind (arith, length-insert k v m)

  pub length-keep-le : (p : String → V → Bool) (m : Map V) → length (keep p m) ≤ length m
  unfolding keep
  length-keep-le p [] = omega arith
  length-keep-le p ((i, w) ∷ m) = ground (arith, length-keep-le p m)

  pub delete-keep : (k : String) (m : Map V) → delete k m ≡ keep (λ j w. not (j =s= k)) m
  unfolding delete keep
  delete-keep k [] = refl
  delete-keep k ((i, w) ∷ m) = ground (arith, delete-keep k m)

  pub length-delete-le : (k : String) (m : Map V) → length (delete k m) ≤ length m
  length-delete-le k m = rw delete-keep (length-keep-le (λ j w. not (j =s= k)) m)

  pub length-delete-lt :
      (k : String) (m : Map V) → elem k (keys m) ≡ true → length (delete k m) < length m
  unfolding delete keys elem
  length-delete-lt k [] h = absurd (cc)
  length-delete-lt k ((i, w) ∷ m) h = elim (Bool-cases (i =s= k)) [
    | inl e ↦ rw (e, delete) (omega (arith, length-delete-le k m))
    | inr n ↦ rw (n, delete) (ground (arith, eq_iff k i, eq_iff i k, length-delete-lt k m))
  ]

-- What holds of all texts of a list holds of each.
pub All-elem {κ} :
    (P : String → Type κ) (x : String) (xs : List String) → All P xs → elem x xs ≡ true → P x
unfolding elem
All-elem P x [] a h = absurd (cc)
All-elem P x (y ∷ ys) a h = elim (Bool-cases (x =s= y)) [
  | inl e ↦ rw ((eq_iff x y).0 e) a.0
  | inr e ↦ All-elem P x ys a.1 (rw e at h)
]
