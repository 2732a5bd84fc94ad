-- ===== src/Prelude/Text.antt =====
-- What the program uses of Go's `strings` and of the order of strings. A text is a list of
-- characters. Upper case is turned to lower case in ASCII only: `strings.ToLower` also maps other
-- letters, which the identifiers and tags that the program compares do not have.
use Prim.Native.Char.{Char, code}
use Prim.Native.String.{String, compare, then as lex, ◌++◌}
use text.Mathlib.Text.{is_le}
use text.Mathlib.Text.{◌==◌ as text_eq}
use mathlib.Core.Path.{◌≡◌, refl, ap}
use mathlib.Core.Logic.{◌⊎◌, inl, inr}
use mathlib.Core.Bool.{Bool, true, false, not, ◌&&◌, ◌||◌}
use native.Mathlib.Omega.{arith}
use Prim.Native.Nat.{ℕ, compare as compare_ℕ}
use Prim.Native.String.compare
use monitoring_project.Prelude.Tests.{leb, ◌==◌, if◌then◌else◌, Bool-cases}
use Prim.Native.String.append

infix 50 ◌=s=◌
abbrev pub ◌=s=◌ : String → String → Bool
◌=s=◌ = text_eq

abbrev pub str_le : String → String → Bool
str_le a b = is_le (compare a b)

unfoldable pub is_space : ℕ → Bool
is_space n =
    (leb 9 n && leb n 13)
    || n == 32
    || n == 0x85
    || n == 0xa0
    || n == 0x1680
    || (leb 0x2000 n && leb n 0x200a)
    || n == 0x2028
    || n == 0x2029
    || n == 0x202f
    || n == 0x205f
    || n == 0x3000

trim_left : String → String
trim_left String.[] = String.[]
trim_left (String.◌∷◌ c s) = if is_space (code c) then trim_left s else String.◌∷◌ c s

trim_right : String → String
trim_right String.[] = String.[]
trim_right (String.◌∷◌ c s) = elim (trim_right s) [
  | String.[] ↦ if is_space (code c) then String.[] else String.◌∷◌ c String.[]
  | String.◌∷◌ d r ↦ String.◌∷◌ c (String.◌∷◌ d r)
]

-- `strings.TrimSpace`
unfoldable pub trim_space : String → String
unfolding is_space trim_left trim_right
trim_space s = trim_right (trim_left s)

-- No character of the text is a space.
unfoldable pub no_space : String → Bool
no_space String.[] = true
no_space (String.◌∷◌ c s) = not (is_space (code c)) && no_space s

trim_right-no_space : (s : String) → no_space s ≡ true → trim_right s ≡ s
unfolding no_space trim_right
trim_right-no_space String.[] h = refl
trim_right-no_space (String.◌∷◌ c String.[]) h = ground arith
trim_right-no_space (String.◌∷◌ c (String.◌∷◌ d s)) h =
    rw (trim_right-no_space (String.◌∷◌ d s) (ground arith)) refl

trim_left-no_space : (s : String) → no_space s ≡ true → trim_left s ≡ s
unfolding no_space trim_left
trim_left-no_space String.[] h = refl
trim_left-no_space (String.◌∷◌ c s) h = ground arith

pub trim_space-no_space : (s : String) → no_space s ≡ true → trim_space s ≡ s
unfolding trim_space
trim_space-no_space s h = rw (trim_left-no_space s h, trim_right-no_space s h) refl

translate : String → String → Char → Char
translate (String.◌∷◌ a as_) (String.◌∷◌ b bs) c =
    if code a == code c then b else translate as_ bs c
translate _ _ c = c

-- `strings.ToLower`
unfoldable pub to_lower : String → String
unfolding translate
to_lower String.[] = String.[]
to_lower (String.◌∷◌ c s) =
    String.◌∷◌ (translate "ABCDEFGHIJKLMNOPQRSTUVWXYZ" "abcdefghijklmnopqrstuvwxyz" c) (to_lower s)

-- The case folding of `strings.EqualFold` where one of the texts is ASCII: two letters outside of
-- ASCII, the long s and the Kelvin sign, fold with an ASCII letter.
unfoldable pub fold_case : String → String
unfolding translate
fold_case String.[] = String.[]
fold_case (String.◌∷◌ c s) =
    String.◌∷◌ (translate "ABCDEFGHIJKLMNOPQRSTUVWXYZſK" "abcdefghijklmnopqrstuvwxyzsk" c)
      (fold_case s)

unfoldable pub equal_fold : String → String → Bool
equal_fold s t = fold_case s =s= fold_case t

-- To lower a lower character changes nothing.
abbrev lower : Char → Char
lower = translate "ABCDEFGHIJKLMNOPQRSTUVWXYZ" "abcdefghijklmnopqrstuvwxyz"

AreLower : String → Type 0
AreLower String.[] = Unit
AreLower (String.◌∷◌ b bs) = (lower b ≡ b) × AreLower bs

translate-lower :
    (as_ bs : String) (c : Char)
    → AreLower bs
    → (translate as_ bs c ≡ c) ⊎ (lower (translate as_ bs c) ≡ translate as_ bs c)
unfolding translate AreLower
translate-lower String.[] bs c h = inl refl
translate-lower (String.◌∷◌ a as_) String.[] c h = inl refl
translate-lower (String.◌∷◌ a as_) (String.◌∷◌ b bs) c h =
    elim (code a == code c)
      as (λ t.
        ((if t then b else translate as_ bs c) ≡ c)
        ⊎ (lower (if t then b else translate as_ bs c) ≡ (if t then b else translate as_ bs c))) [
          | true ↦ inr h.0
          | false ↦ translate-lower as_ bs c h.1
        ]

lower_idem : (c : Char) → lower (lower c) ≡ lower c
unfolding AreLower translate
lower_idem c =
    elim (translate-lower "ABCDEFGHIJKLMNOPQRSTUVWXYZ" "abcdefghijklmnopqrstuvwxyz" c (
      refl,
      (
        refl,
        (
          refl,
          (
            refl,
            (
              refl,
              (
                refl,
                (
                  refl,
                  (
                    refl,
                    (
                      refl,
                      (
                        refl,
                        (
                          refl,
                          (
                            refl,
                            (
                              refl,
                              (
                                refl,
                                (
                                  refl,
                                  (
                                    refl,
                                    (
                                      refl,
                                      (
                                        refl,
                                        (
                                          refl,
                                          (
                                            refl,
                                            (refl, (refl, (refl, (refl, (refl, (refl, tt)))))),
                                          ),
                                        ),
                                      ),
                                    ),
                                  ),
                                ),
                              ),
                            ),
                          ),
                        ),
                      ),
                    ),
                  ),
                ),
              ),
            ),
          ),
        ),
      ),
    )) [ inl e ↦ ap lower e | inr e ↦ e ]

-- `strings.HasPrefix`
unfoldable pub has_prefix : String → String → Bool
has_prefix s String.[] = true
has_prefix String.[] (String.◌∷◌ d t) = false
has_prefix (String.◌∷◌ c s) (String.◌∷◌ d t) = code c == code d && has_prefix s t

-- `strings.Contains`
unfoldable pub contains : String → String → Bool
unfolding has_prefix
contains String.[] t = has_prefix String.[] t
contains (String.◌∷◌ c s) t = has_prefix (String.◌∷◌ c s) t || contains s t

-- The part of `s` before the first occurrence of `t`, `s[:strings.Index(s, t)]`; all of `s` where
-- there is none.
unfoldable pub before : String → String → String
unfolding has_prefix
before String.[] t = String.[]
before (String.◌∷◌ c s) t =
    if has_prefix (String.◌∷◌ c s) t then String.[] else String.◌∷◌ c (before s t)

-- `a + b`
abbrev pub concat : String → String → String
concat = ◌++◌

pub to_lower-concat : (a b : String) → to_lower (concat a b) ≡ concat (to_lower a) (to_lower b)
unfolding to_lower
to_lower-concat String.[] b = rw (append.nil, append.nil) refl
to_lower-concat (String.◌∷◌ c a) b =
    rw (append.cons, append.cons) (ap (String.◌∷◌ (lower c)) (to_lower-concat a b))

pub to_lower-before : (s t : String) → to_lower (before (to_lower s) t) ≡ before (to_lower s) t
unfolding to_lower before
to_lower-before String.[] t = refl
to_lower-before (String.◌∷◌ c s) t =
    elim (Bool-cases (has_prefix (String.◌∷◌ (lower c) (to_lower s)) t)) [
      | inl e ↦ rw (e, before) refl
      | inr e ↦ rw (e, before) (cc (lower_idem c, to_lower-before s t))
    ]

-- How the order of two texts goes by their first characters.
le_nil : (t : String) → str_le String.[] t ≡ true
le_nil String.[] = refl
le_nil (String.◌∷◌ d t) = rw compare.nil-cons

cons_not-le_nil : (c : Char) (s : String) → str_le (String.◌∷◌ c s) String.[] ≡ false
cons_not-le_nil c s = rw compare.cons-nil

le-cons :
    (c d : Char) (s t : String)
    → str_le (String.◌∷◌ c s) (String.◌∷◌ d t)
      ≡ is_le (lex (compare_ℕ (code c) (code d)) (compare s t))
le-cons c d s t = rw compare.cons-cons

pub str_le_total : (a b : String) → (str_le a b ≡ true) ⊎ (str_le b a ≡ true)
str_le_total String.[] t = inl (le_nil t)
str_le_total (String.◌∷◌ c s) String.[] = inr (le_nil _)
str_le_total (String.◌∷◌ c s) (String.◌∷◌ d t) =
    rw (le-cons c d s t, le-cons d c t s) (ground (arith, str_le_total s t))

le-lex :
    (x y z : ℕ) (s t u : String)
    → (str_le s t ≡ true → str_le t u ≡ true → str_le s u ≡ true)
    → is_le (lex (compare_ℕ x y) (compare s t)) ≡ true
    → is_le (lex (compare_ℕ y z) (compare t u)) ≡ true
    → is_le (lex (compare_ℕ x z) (compare s u)) ≡ true
le-lex x y z s t u ih h k = ground arith

pub str_le_trans : (a b c : String) → str_le a b ≡ true → str_le b c ≡ true → str_le a c ≡ true
str_le_trans String.[] b c h k = le_nil c
str_le_trans (String.◌∷◌ x s) String.[] c h k = cc (h, cons_not-le_nil x s)
str_le_trans (String.◌∷◌ x s) (String.◌∷◌ y t) String.[] h k = cc (k, cons_not-le_nil y t)
str_le_trans (String.◌∷◌ x s) (String.◌∷◌ y t) (String.◌∷◌ z u) h k =
    rw le-cons (le-lex _ _ _ s t u (str_le_trans s t u) (rw le-cons at h) (rw le-cons at k))

pub str_le_refl : (a : String) → str_le a a ≡ true
str_le_refl a = ground (arith, str_le_total a a)
