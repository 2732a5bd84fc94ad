-- ===== src/Filter/Accepted.antt =====
-- A filter that the configuration's checks accept compiles: `New` of
-- services/snmp-collector/internal/snmp/filter/filter.go gives no error on it.
use monitoring_project.Prelude.{
  ℕ, suc, ◌≡◌, refl, inl, inr, String, Bool, true, false, none, some, List, [], ◌∷◌, ◌=s=◌, All,
  All-weaken, All-of, Bool-cases,
}
use monitoring_project.Prelude.Results.{Result, ok, ◌>>=◌, seq-ok, check_all, check_all-ok}
use monitoring_project.Config.Types.{Std, InterfaceFilterConfig, InterfaceFilterRule}
use monitoring_project.Config.Filters.{
  check_pattern, check_unless_empty, check_rule, validate_interface_filters,
}
use monitoring_project.Filter.{
  Library, RuleId, CompiledRule, Filter, add, add_each, index_rule, type_rule, admin_rule,
  oper_rule, regex_rule, optional_regex, compile_rule, new,
}

module _ {R : Type 0} (lib : Library R) (std : Std)
    (agree : (p : String) → std.compiles p ≡ true → (r : R) × (lib.compile p ≡ some r)) where
  abbrev Compiles : {A : Type 0} → Result A → Type 0
  Compiles {A} r = (a : A) × (r ≡ ok a)

  add_each-Compiles :
      {A : Type 0} (rule_of : A → RuleId → Result (CompiledRule R)) (field : String) (n : ℕ)
      (as_ : List A) (f : Filter R)
      → All (λ a. (id : RuleId) → Compiles (rule_of a id)) as_
      → Compiles (add_each rule_of field n as_ f)
  unfolding add_each
  add_each-Compiles rule_of field n [] f h = (f, refl)
  add_each-Compiles rule_of field n (a ∷ as_) f h =
      let (rule, e) = h.0 (field, n) in
      rw e (add_each-Compiles rule_of field (suc n) as_ (add rule f) h.1)

  bind-Compiles :
      {A B : Type 0} (r : Result A) (g : A → Result B)
      → Compiles r
      → ((a : A) → Compiles (g a))
      → Compiles (r >>= g)
  bind-Compiles r g (a, e) h = rw e (h a)

  check_pattern-compiles : (p : String) → check_pattern std p ≡ ok tt → std.compiles p ≡ true
  unfolding check_pattern
  check_pattern-compiles p h = elim (Bool-cases (std.compiles p)) [
    | inl e ↦ e
    | inr e ↦ absurd (cc (rw e at h))
  ]

  regex_rule-Compiles :
      (action : String) (alias : Bool) (p : String)
      → check_pattern std p ≡ ok tt
      → (id : RuleId) → Compiles (regex_rule lib action id p alias)
  unfolding regex_rule
  regex_rule-Compiles action alias p h id =
      let (r, e) = agree p (check_pattern-compiles p h) in rw (e, regex_rule) (_, refl)

  optional_regex-Compiles :
      (p : String)
      → check_unless_empty (check_pattern std) p ≡ ok tt
      → Compiles (optional_regex lib p)
  unfolding optional_regex check_unless_empty
  optional_regex-Compiles p h = elim (Bool-cases (p =s= "")) [
    | inl e ↦ rw e (none, refl)
    | inr e ↦
        let (r, k) = agree p (check_pattern-compiles p (rw e at h)) in rw (e, k) (some r, refl)
  ]

  rule_patterns :
      (rule : InterfaceFilterRule)
      → check_rule std rule ≡ ok tt
      → check_all (check_unless_empty (check_pattern std)) (rule.name_regex ∷ rule.alias_regex ∷ [])
        ≡ ok tt
  unfolding check_rule
  rule_patterns rule h = (seq-ok _ _ tt (seq-ok _ _ tt (seq-ok _ _ tt (seq-ok _ _ tt h).0).0).0).1

  compile_rule-Compiles :
      (rule : InterfaceFilterRule)
      → check_rule std rule ≡ ok tt
      → (id : RuleId) → Compiles (compile_rule lib rule id)
  unfolding compile_rule
  compile_rule-Compiles rule h id =
      let checked =
        (check_all-ok (check_unless_empty (check_pattern std)) _).0 (rule_patterns rule h) in
      let (a, e) = optional_regex-Compiles rule.name_regex checked.0 in
      let (b, k) = optional_regex-Compiles rule.alias_regex checked.1.0 in rw (e, k) (_, refl)

  -- The parts of an accepted filter that `New` compiles.
  patterns_checked :
      (cfg : InterfaceFilterConfig)
      → validate_interface_filters std cfg ≡ ok tt
      → (All
          (λ ps. All (λ p. check_pattern std p ≡ ok tt) ps)
          (cfg.include_name_regex ∷ cfg.exclude_name_regex ∷ cfg.include_alias_regex
            ∷ cfg.exclude_alias_regex ∷ []))
        × All (λ rule. check_rule std rule ≡ ok tt) cfg.rules
  unfolding validate_interface_filters
  patterns_checked cfg h =
      let (before_, rules) = seq-ok _ _ tt h in
      let lists = (seq-ok _ _ tt (seq-ok _ _ tt (seq-ok _ _ tt before_).0).0).1 in
      (
        All-weaken _ _
            (cfg.include_name_regex ∷ cfg.exclude_name_regex ∷ cfg.include_alias_regex
              ∷ cfg.exclude_alias_regex ∷ [])
            (λ ps. (check_all-ok (check_pattern std) ps).0)
            ((check_all-ok (check_all (check_pattern std)) _).0 lists),
        (check_all-ok (check_rule std) cfg.rules).0 rules,
      )

  step :
      {A : Type 0} (rule_of : A → RuleId → Result (CompiledRule R)) (field : String) (as_ : List A)
      (r : Result (Filter R))
      → All (λ a. (id : RuleId) → Compiles (rule_of a id)) as_
      → Compiles r
      → Compiles (r >>= add_each rule_of field 0 as_)
  step rule_of field as_ r h c =
      bind-Compiles r (add_each rule_of field 0 as_) c
        (λ f. add_each-Compiles rule_of field 0 as_ f h)

  patterns :
      (action : String) (alias : Bool) (ps : List String)
      → All (λ p. check_pattern std p ≡ ok tt) ps
      → All (λ p. (id : RuleId) → Compiles (regex_rule lib action id p alias)) ps
  patterns action alias ps h = All-weaken _ _ ps (λ p e. regex_rule-Compiles action alias p e) h

  -- If the check of a pattern agrees with the compiler, every filter that
  -- `validateInterfaceFilters` accepts compiles.
  pub new-Compiles :
      (cfg : InterfaceFilterConfig)
      → validate_interface_filters std cfg ≡ ok tt
      → (f : Filter R) × (new lib cfg ≡ ok f)
  unfolding new index_rule type_rule admin_rule oper_rule
  new-Compiles cfg h =
      let (ps, rs) = patterns_checked cfg h in
      let c0 =
        add_each-Compiles (index_rule "include") "include_if_indexes" 0 cfg.include_if_indexes
          (record { includes = []; excludes = [] })
          (All-of _ cfg.include_if_indexes (λ a id. (_, refl))) in
      let c1 =
        step (λ p id. regex_rule lib "include" id p false) "include_name_regex"
          cfg.include_name_regex _ (patterns "include" false cfg.include_name_regex ps.0) c0 in
      let c2 =
        step (λ p id. regex_rule lib "include" id p true) "include_alias_regex"
          cfg.include_alias_regex _ (patterns "include" true cfg.include_alias_regex ps.1.1.0) c1 in
      let c3 =
        step (type_rule "include") "include_types" cfg.include_types _
          (All-of _ cfg.include_types (λ a id. (_, refl))) c2 in
      let c4 =
        step (admin_rule "include") "include_admin_statuses" cfg.include_admin_statuses _
          (All-of _ cfg.include_admin_statuses (λ a id. (_, refl))) c3 in
      let c5 =
        step (oper_rule "include") "include_oper_statuses" cfg.include_oper_statuses _
          (All-of _ cfg.include_oper_statuses (λ a id. (_, refl))) c4 in
      let c6 =
        step (compile_rule lib) "rules" cfg.rules _
          (All-weaken _ _ cfg.rules (λ rule e. compile_rule-Compiles rule e) rs) c5 in
      let c7 =
        step (index_rule "exclude") "exclude_if_indexes" cfg.exclude_if_indexes _
          (All-of _ cfg.exclude_if_indexes (λ a id. (_, refl))) c6 in
      let c8 =
        step (λ p id. regex_rule lib "exclude" id p false) "exclude_name_regex"
          cfg.exclude_name_regex _ (patterns "exclude" false cfg.exclude_name_regex ps.1.0) c7 in
      let c9 =
        step (λ p id. regex_rule lib "exclude" id p true) "exclude_alias_regex"
          cfg.exclude_alias_regex _ (patterns "exclude" true cfg.exclude_alias_regex ps.1.1.1.0)
          c8 in
      let c10 =
        step (type_rule "exclude") "exclude_types" cfg.exclude_types _
          (All-of _ cfg.exclude_types (λ a id. (_, refl))) c9 in
      let c11 =
        step (admin_rule "exclude") "exclude_admin_statuses" cfg.exclude_admin_statuses _
          (All-of _ cfg.exclude_admin_statuses (λ a id. (_, refl))) c10 in
      let c12 =
        step (oper_rule "exclude") "exclude_oper_statuses" cfg.exclude_oper_statuses _
          (All-of _ cfg.exclude_oper_statuses (λ a id. (_, refl))) c11 in
      c12
