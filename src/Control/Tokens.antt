-- ===== src/Control/Tokens.antt =====
-- The confirmation tokens of services/snmp-collector/internal/control/pending.go against an abstract
-- store, which is a function from tokens to what may still be confirmed.
use monitoring_project.Prelude.{
  ℕ, ◌≡◌, refl, ap, inl, inr, String, Option, none, some, List, [], ◌∷◌, ◌=s=◌, if◌then◌else◌, Map,
  lookup, lookup-insert, lookup-delete, arith, Option-cases, eq_iff, ◌+◌,
}
use mathlib.Core.Path.{fun_ext}
use monitoring_project.Control.Pending.{
  Reply, refuse, confirm_expired, PendingMutation, confirm_ttl, put, check_item, take_found, take,
}

pub data Operation (P : Type 0) : Type 0 where
  puts : Option String → ℕ → String → String → P → Operation P
  takes : ℕ → String → String → String → Operation P

pub data Result (P : Type 0) : Type 0 where
  was_put : Option (PendingMutation P) → Result P
  was_taken : Reply (PendingMutation P) → Result P

-- The operations on the store, in turn, and what each gave.
unfoldable pub run : {P : Type 0} → List (Operation P) → Map (PendingMutation P) → List (Result P)
run [] items = []
run (puts token now action revision payload ∷ ops) items =
    let r = put token now action revision payload items in was_put r.0 ∷ run ops r.1
run (takes now token revision action ∷ ops) items =
    let r = take now token revision action items in was_taken r.0 ∷ run ops r.1

abbrev pub View : Type 0 → Type 0
View P = String → Option (PendingMutation P)

-- The abstract store. A take uses its token up, whatever it answers.
abbrev pub answer :
    {P : Type 0} → ℕ → String → String → Option (PendingMutation P) → Reply (PendingMutation P)
answer now revision action none = refuse confirm_expired "confirm token is unknown or already used"
answer now revision action (some item) = check_item now revision action item

abbrev pub put_in : {P : Type 0} → Option (PendingMutation P) → View P → View P
put_in none v = v
put_in (some item) v = λ x. if item.token =s= x then some item else v x

abbrev pub use_up : {P : Type 0} → String → View P → View P
use_up token v = λ x. if token =s= x then none else v x

abbrev pub item_of :
    {P : Type 0} → Option String → ℕ → String → String → P → Option (PendingMutation P)
item_of none now action revision payload = none
item_of (some token) now action revision payload = some (record {
  token = token;
  revision = revision;
  action = action;
  expires_at = now + confirm_ttl;
  payload = payload;
})

abbrev pub run_view : {P : Type 0} → List (Operation P) → View P → List (Result P)
run_view [] v = []
run_view (puts token now action revision payload ∷ ops) v =
    let item = item_of token now action revision payload in
    was_put item ∷ run_view ops (put_in item v)
run_view (takes now token revision action ∷ ops) v =
    was_taken (answer now revision action (v token)) ∷ run_view ops (use_up token v)

module _ {P : Type 0} where
  view : Map (PendingMutation P) → View P
  view items x = lookup x items

  put-item :
      (token : Option String) (now : ℕ) (action revision : String) (payload : P)
      (items : Map (PendingMutation P))
      → let r = put token now action revision payload items in
        (r.0 ≡ item_of token now action revision payload)
        × ((x : String)
            → view r.1 x ≡ put_in (item_of token now action revision payload) (view items) x)
  unfolding put view
  put-item none now action revision payload items = (refl, λ x. refl)
  put-item (some token) now action revision payload items =
      (refl, λ x. lookup-insert token x _ items)

  take-answer :
      (now : ℕ) (token revision action : String) (items : Map (PendingMutation P))
      → let r = take now token revision action items in
        (r.0 ≡ answer now revision action (view items token))
        × ((x : String) → view r.1 x ≡ use_up token (view items) x)
  unfolding take take_found view
  take-answer now token revision action items = elim (Option-cases (lookup token items)) [
    | inl e ↦ rw (e, take_found) (refl, λ x. ground (arith, eq_iff token x, e))
    | inr (item, e) ↦ rw (e, take_found) (refl, λ x. lookup-delete token x items)
  ]

  run-view :
      (ops : List (Operation P)) (items : Map (PendingMutation P))
      → run ops items ≡ run_view ops (view items)
  unfolding run
  run-view [] items = refl
  run-view (puts token now action revision payload ∷ ops) items =
      let (e, f) = put-item token now action revision payload items in
      let after = (put token now action revision payload items).1 in
      cc (e, run-view ops after, ap (run_view ops) (fun_ext f))
  run-view (takes now token revision action ∷ ops) items =
      let (e, f) = take-answer now token revision action items in
      let after = (take now token revision action items).1 in
      cc (e, run-view ops after, ap (run_view ops) (fun_ext f))

  -- Any series of operations on an empty store answers what it answers on the abstract store, where
  -- a token is put with an expiry 60 seconds later and the first take of it, successful or not, uses
  -- it up.
  pub run-abstract : (ops : List (Operation P)) → run ops [] ≡ run_view ops (λ x. none)
  unfolding view lookup
  run-abstract ops = run-view ops []
