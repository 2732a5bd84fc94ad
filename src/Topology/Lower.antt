-- ===== src/Topology/Lower.antt =====
-- The names that services/snmp-collector/internal/topology/infer.go makes up: the name of a
-- distribution switch is not that of an access switch.
use Prim.Native.Char.{code}
use Prim.Native.String.append
use monitoring_project.Prelude.{
  ℕ, ◌≡◌, refl, ◌∙◌, ap, inl, inr, String, Bool, true, false, not, ◌&&◌, ◌==◌, to_lower, contains,
  has_prefix, before, concat, arith, Bool-cases, to_lower-concat, to_lower-before,
}
use monitoring_project.Topology.{mdf_of}

-- No character of the text is a dash.
no_dash : String → Bool
no_dash String.[] = true
no_dash (String.◌∷◌ c s) = not (code c == 45) && no_dash s

dash_apart : (e : ℕ) (a b : Bool) → (not (e == 45) && b) ≡ true → (45 == e && a) ≡ true → ⊥
dash_apart e a b n h = ground arith

both : (a b : Bool) → (a && b) ≡ true → (a ≡ true) × (b ≡ true)
both true b h = (refl, h)
both false b h = absurd (cc)

-- What starts the name of the distribution switch, without a dash, starts the text.
has_prefix-mdf :
    (s p : String)
    → no_dash p ≡ true
    → has_prefix (concat (before s "-idf") "-mdf") p ≡ true
    → has_prefix s p ≡ true
unfolding has_prefix before no_dash
has_prefix-mdf s String.[] n h = refl
has_prefix-mdf String.[] (String.◌∷◌ e p) n h = ground arith
has_prefix-mdf (String.◌∷◌ d s) (String.◌∷◌ e p) n h =
    elim (Bool-cases (has_prefix (String.◌∷◌ d s) "-idf")) [
      | inl k ↦
          let h1 : (45 == code e && has_prefix "mdf" p) ≡ true = rw (k, before) at h in
          absurd (dash_apart (code e) (has_prefix "mdf" p) (no_dash p) n h1)
      | inr k ↦
          let h1 : (code d == code e && has_prefix (concat (before s "-idf") "-mdf") p) ≡ true =
            rw append.cons at (rw (k, before) at h) in
          let (a, b) =
            both (code d == code e) (has_prefix (concat (before s "-idf") "-mdf") p) h1 in
          let (_, c) = both (not (code e == 45)) (no_dash p) n in
          rw (a, has_prefix-mdf s p c b) refl
    ]

pub contains-mdf : (s : String) → contains (concat (before s "-idf") "-mdf") "-idf" ≡ false
unfolding contains has_prefix before no_dash
contains-mdf String.[] = refl
contains-mdf (String.◌∷◌ c s) = elim (Bool-cases (has_prefix (String.◌∷◌ c s) "-idf")) [
  | inl k ↦ rw k refl
  | inr k ↦ elim (Bool-cases (code c == 45 && has_prefix (concat (before s "-idf") "-mdf") "idf")) [
    | inr q ↦ rw (k, before) (rw append.cons (rw (q, contains-mdf s) refl))
    | inl q ↦
        let (a, b) = both (code c == 45) (has_prefix (concat (before s "-idf") "-mdf") "idf") q in
        absurd (cc (k, a, has_prefix-mdf s "idf" refl b))
  ]
]

-- A made-up name is in lower case, and is no name of an access switch.
pub to_lower-mdf_of : (id : String) → to_lower (mdf_of id) ≡ mdf_of id
unfolding mdf_of to_lower
to_lower-mdf_of id =
    to_lower-concat (before (to_lower id) "-idf") "-mdf"
    ∙ ap (λ s. concat s "-mdf") (to_lower-before id "-idf")

pub contains-mdf_of : (id : String) → contains (to_lower (mdf_of id)) "-idf" ≡ false
unfolding mdf_of
contains-mdf_of id = rw (to_lower-mdf_of id) (contains-mdf (to_lower id))
