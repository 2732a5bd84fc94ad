-- ===== src/Prelude/Results.antt =====
-- Results of Go functions that return a value or an error; an error keeps its message.
use Prim.Native.String.{String}
use mathlib.Core.Bool.{Bool, true, false}
use mathlib.Core.Option.{Option, none, some}
use mathlib.Core.Path.{◌≡◌, refl}
use mathlib.Core.Logic.{◌↔◌, ◌⊎◌, inl, inr}
use mathlib.Core.List.{List, [], ◌∷◌}
use monitoring_project.Prelude.Lists.{All}
use monitoring_project.Prelude.Tests.{if◌then◌else◌}

pub data Result {ℓ} (A : Type ℓ) : Type ℓ where
  ok : A → Result A
  error : String → Result A

infixl 5 ◌>>=◌
abbrev pub ◌>>=◌ {ℓ κ} : {A : Type ℓ} {B : Type κ} → Result A → (A → Result B) → Result B
ok a >>= f = f a
error e >>= f = error e

-- `if v == nil { return err }`
abbrev pub require {ℓ} : {A : Type ℓ} → Option A → String → Result A
require none e = error e
require (some a) e = ok a

-- A chain that gives a value gives one at each step.
pub bind-ok {ℓ κ} :
    {A : Type ℓ} {B : Type κ} (r : Result A) (f : A → Result B) (b : B)
    → (r >>= f) ≡ ok b
    → (a : A) × (r ≡ ok a) × (f a ≡ ok b)
bind-ok (ok a) f b h = (a, refl, h)
bind-ok (error e) f b h = absurd (cc)

-- Where a guarded result is a value, the guard let it pass.
pub if-ok {ℓ} :
    {A : Type ℓ} (c : Bool) (e : String) (r : Result A) (b : A)
    → (if c then error e else r) ≡ ok b
    → (c ≡ false) × (r ≡ ok b)
if-ok true e r b h = absurd (cc)
if-ok false e r b h = (refl, h)

pub require-ok {ℓ} :
    {A : Type ℓ} (o : Option A) (e : String) (a : A) → require o e ≡ ok a → o ≡ some a
require-ok none e a h = absurd (cc)
require-ok (some x) e a h = cc

pub ok_inj {ℓ} : {A : Type ℓ} {a b : A} → ok a ≡ ok b → a ≡ b
ok_inj h = cc

-- A Go function that returns an error only.
abbrev pub Check : Type 0
Check = Result {0} Unit

-- A check, then another one where it passes.
infixl 5 ◌>>◌
abbrev pub ◌>>◌ {ℓ} : {A : Type ℓ} → Check → Result A → Result A
ok _ >> r = r
error e >> r = error e

pub seq-ok {ℓ} :
    {A : Type ℓ} (r : Check) (s : Result A) (a : A) → (r >> s) ≡ ok a → (r ≡ ok tt) × (s ≡ ok a)
seq-ok (ok _) s a h = (refl, h)
seq-ok (error e) s a h = absurd (cc)

-- A series of `if c { return errors.New(m) }`.
unfoldable pub refuse_if : List (Bool × String) → Check
refuse_if [] = ok tt
refuse_if ((c, m) ∷ rest) = if c then error m else refuse_if rest

pub refuse_if-ok : (cs : List (Bool × String)) → (refuse_if cs ≡ ok tt) ↔ All (λ c. c.0 ≡ false) cs
unfolding refuse_if
refuse_if-ok [] = (λ h. tt, λ h. refl)
refuse_if-ok ((true, m) ∷ rest) = (λ h. absurd (cc), λ h. absurd (cc (h.0)))
refuse_if-ok ((false, m) ∷ rest) =
    (λ h. (refl, (refuse_if-ok rest).0 h), λ h. (refuse_if-ok rest).1 h.1)

-- `for _, x := range xs { if err := check(x); err != nil { return err } }`
unfoldable pub check_all {ℓ} : {A : Type ℓ} → (A → Check) → List A → Check
check_all check [] = ok tt
check_all check (x ∷ xs) = check x >> check_all check xs

pub check_all-ok {ℓ} :
    {A : Type ℓ} (check : A → Check) (xs : List A)
    → (check_all check xs ≡ ok tt) ↔ All (λ x. check x ≡ ok tt) xs
unfolding check_all
check_all-ok check [] = (λ h. tt, λ h. refl)
check_all-ok check (x ∷ xs) = (
  λ h. let (a, b) = seq-ok (check x) (check_all check xs) tt h in (a, (check_all-ok check xs).0 b),
  λ h. rw (h.0) ((check_all-ok check xs).1 h.1),
)

pub Result-cases {ℓ} :
    {A : Type ℓ} (r : Result A) → ((a : A) × (r ≡ ok a)) ⊎ ((e : String) × (r ≡ error e))
Result-cases (ok a) = inl (a, refl)
Result-cases (error e) = inr (e, refl)
