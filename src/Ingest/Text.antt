-- ===== src/Ingest/Text.antt =====
-- Identifiers and the texts they are checked by, services/ingestion-service/internal/validate/v2.go.
use Prim.Native.Char.{Char, code}
use Prim.Native.String.append
use monitoring_project.Prelude.{
  ℕ, ◌+◌, ◌≡◌, refl, String, Bool, true, false, not, ◌&&◌, ◌||◌, List, [], ◌∷◌, ltb, leb, ◌==◌,
  ◌=s=◌, arith, if◌then◌else◌, trim_space, is_space, no_space, trim_space-no_space, concat,
  Bool-cases, inl, inr,
}
use monitoring_project.Prelude.Results.{Result, ok, error}

-- The bytes of a character in UTF-8.
width : ℕ → ℕ
width n = if ltb n 0x80 then 1 else if ltb n 0x800 then 2 else if ltb n 0x10000 then 3 else 4

-- `len` of a string: its bytes in UTF-8.
unfoldable pub byte_length : String → ℕ
unfolding width
byte_length String.[] = 0
byte_length (String.◌∷◌ c s) = width (code c) + byte_length s

is_alphanumeric : ℕ → Bool
is_alphanumeric n = (leb 48 n && leb n 57) || (leb 65 n && leb n 90) || (leb 97 n && leb n 122)

-- A letter, a digit, `.`, `_` or `-`.
is_identifier_char : ℕ → Bool
unfolding is_alphanumeric
is_identifier_char n = is_alphanumeric n || n == 46 || n == 95 || n == 45

all_identifier_chars : String → Bool
unfolding is_identifier_char
all_identifier_chars String.[] = true
all_identifier_chars (String.◌∷◌ c s) = is_identifier_char (code c) && all_identifier_chars s

-- `identifierPattern.MatchString`
unfoldable pub identifier_pattern : String → Bool
unfolding is_alphanumeric all_identifier_chars
identifier_pattern String.[] = false
identifier_pattern (String.◌∷◌ c s) = is_alphanumeric (code c) && all_identifier_chars s

-- The identifiers that pass the check, after the spaces around them were cut.
unfoldable pub is_identifier : String → Bool
unfolding byte_length identifier_pattern
is_identifier v = not (v =s= "" || ltb 128 (byte_length v) || not (identifier_pattern v))

unfoldable pub check_identifier : String → String → Result Bool
unfolding is_identifier
check_identifier v field =
    if is_identifier (trim_space v) then ok true else error (concat "invalid " field)

prepend : Char → List String → List String
prepend c [] = String.◌∷◌ c "" ∷ []
prepend c (part ∷ parts) = String.◌∷◌ c part ∷ parts

-- `strings.Split(s, "/")`
unfoldable pub split_slash : String → List String
unfolding prepend
split_slash String.[] = "" ∷ []
split_slash (String.◌∷◌ c s) =
    let parts = split_slash s in if code c == 47 then "" ∷ parts else prepend c parts

unfoldable pub has_slash : String → Bool
has_slash String.[] = false
has_slash (String.◌∷◌ c s) = code c == 47 || has_slash s

has_slash-identifier_chars : (s : String) → all_identifier_chars s ≡ true → has_slash s ≡ false
unfolding all_identifier_chars has_slash is_identifier_char is_alphanumeric
has_slash-identifier_chars String.[] h = refl
has_slash-identifier_chars (String.◌∷◌ c s) h = ground (arith, has_slash-identifier_chars s)

pub has_slash-identifier : (s : String) → is_identifier s ≡ true → has_slash s ≡ false
unfolding is_identifier identifier_pattern has_slash is_alphanumeric
has_slash-identifier String.[] h = refl
has_slash-identifier (String.◌∷◌ c s) h = ground (arith, has_slash-identifier_chars s)

-- A part without a slash and a slash after it are the first part of the whole.
pub split_slash-append :
    (s t : String) → has_slash s ≡ false → split_slash (concat s (concat "/" t)) ≡ s ∷ split_slash t
unfolding has_slash split_slash prepend
split_slash-append String.[] t h = rw (append.nil, append.cons, append.nil) refl
split_slash-append (String.◌∷◌ c s) t h = elim (Bool-cases (code c == 47)) [
  | inl y ↦ absurd (ground arith)
  | inr n ↦ rw (append.cons, n, split_slash-append s t (ground (arith, n, h))) refl
]

-- The parts of a text with no slash are the text alone.
pub split_slash-alone : (s : String) → has_slash s ≡ false → split_slash s ≡ s ∷ []
unfolding has_slash split_slash prepend
split_slash-alone String.[] h = refl
split_slash-alone (String.◌∷◌ c s) h = elim (Bool-cases (code c == 47)) [
  | inl y ↦ absurd (ground arith)
  | inr n ↦ rw (n, split_slash-alone s (ground (arith, n, h))) refl
]

is_space-identifier_char : (n : ℕ) → is_identifier_char n ≡ true → is_space n ≡ false
unfolding is_identifier_char is_alphanumeric is_space
is_space-identifier_char n h = ground arith

no_space-identifier_chars : (s : String) → all_identifier_chars s ≡ true → no_space s ≡ true
unfolding all_identifier_chars no_space
no_space-identifier_chars String.[] h = refl
no_space-identifier_chars (String.◌∷◌ c s) h =
    ground (arith, is_space-identifier_char (code c), no_space-identifier_chars s)

-- An identifier has no spaces to cut.
pub trim_space-identifier : (s : String) → is_identifier s ≡ true → trim_space s ≡ s
unfolding is_identifier identifier_pattern no_space is_identifier_char
trim_space-identifier String.[] h = absurd (ground arith)
trim_space-identifier (String.◌∷◌ c s) h =
    trim_space-no_space (String.◌∷◌ c s)
      (ground (arith, is_space-identifier_char (code c), no_space-identifier_chars s))

pub check_identifier-ok :
    (s field : String) → is_identifier s ≡ true → check_identifier s field ≡ ok true
unfolding check_identifier
check_identifier-ok s field h = rw (trim_space-identifier s h, h) refl

pub is_empty-identifier : (s : String) → is_identifier s ≡ true → (s =s= "") ≡ false
unfolding is_identifier
is_empty-identifier s h = ground arith
