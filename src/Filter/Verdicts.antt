-- ===== src/Filter/Verdicts.antt =====
-- The selection that the filter of services/snmp-collector/internal/snmp/filter/filter.go leaves on
-- each interface, described without its loops.
use monitoring_project.Prelude.{
  ℕ, suc, ◌+◌, ◌≡◌, refl, ◌∙◌, ap, inl, inr, String, Bool, true, false, Option, none, some, List,
  [], ◌∷◌, map, if◌then◌else◌, elem, arith, Bool-cases, Option-cases,
}
use monitoring_project.Filter.{
  Library, InterfaceReading, Selection, selected, excluded_default, excluded_rule, RuleId,
  Interface, FilterSummary, CompiledRule, Filter, default_excluded_types, normalize_type, matches,
  apply_rules, select_default, select, count, apply_from, apply,
}

abbrev pub is_kind : Selection → Selection → Bool
is_kind selected selected = true
is_kind excluded_default excluded_default = true
is_kind excluded_rule excluded_rule = true
is_kind _ _ = false

-- How many interfaces have a selection.
abbrev pub tally : Selection → List Interface → ℕ
tally kind [] = 0
tally kind (i ∷ is_) =
    let rest = tally kind is_ in if is_kind kind i.selection then suc rest else rest

abbrev pub summary_of : List Interface → FilterSummary
summary_of is_ = record {
  selected_count = tally selected is_;
  excluded_default_count = tally excluded_default is_;
  excluded_rule_count = tally excluded_rule is_;
}

-- By the exclude that decides, if there is one, else by the include, else by the type.
abbrev pub verdict_of : Option RuleId → Option RuleId → Bool → InterfaceReading → Interface
verdict_of (some id) included virtual reading = record {
  reading = reading;
  selection = excluded_rule;
  filter_reason = "explicit exclude";
  rule_id = some id;
}
verdict_of none (some id) virtual reading = record {
  reading = reading;
  selection = selected;
  filter_reason = "explicit include";
  rule_id = some id;
}
verdict_of none none true reading = record {
  reading = reading;
  selection = excluded_default;
  filter_reason = "default virtual interface type";
  rule_id = none;
}
verdict_of none none false reading = record {
  reading = reading;
  selection = selected;
  filter_reason = "";
  rule_id = none;
}

summary : ℕ → ℕ → ℕ → FilterSummary
summary a b c = record { selected_count = a; excluded_default_count = b; excluded_rule_count = c }

decided : Selection → String → Option RuleId → Interface → Interface
decided kind reason none i = i
decided kind reason (some id) i = record {
  reading = i.reading;
  selection = kind;
  filter_reason = reason;
  rule_id = some id;
}

decided-verdict_of :
    (ex inc : Option RuleId) (virtual : Bool) (i : Interface)
    → decided excluded_rule "explicit exclude" ex (
        decided selected "explicit include" inc (
          if virtual
          then verdict_of none none true i.reading
          else verdict_of none none false i.reading))
      ≡ verdict_of ex inc virtual i.reading
unfolding decided
decided-verdict_of (some id) (some k) true i = refl
decided-verdict_of (some id) (some k) false i = refl
decided-verdict_of (some id) none true i = refl
decided-verdict_of (some id) none false i = refl
decided-verdict_of none (some k) true i = refl
decided-verdict_of none (some k) false i = refl
decided-verdict_of none none true i = refl
decided-verdict_of none none false i = refl

module _ {R : Type 0} (lib : Library R) where
  -- The last rule of a list that matches.
  abbrev pub last_match : List (CompiledRule R) → InterfaceReading → Option RuleId
  last_match [] reading = none
  last_match (r ∷ rs) reading = elim (last_match rs reading) [
    | some id ↦ some id
    | none ↦ if matches lib r reading then some r.id else none
  ]

  -- The last exclude that matches decides; where none does, the last include; where none of those
  -- does either, the type.
  abbrev pub verdict : Filter R → Interface → Interface
  verdict f i =
      verdict_of (last_match f.excludes i.reading) (last_match f.includes i.reading)
        (elem (normalize_type i.reading.if_type_name) default_excluded_types) i.reading

  apply_rules-last_match :
      (kind : Selection) (reason : String) (rs : List (CompiledRule R)) (i : Interface)
      → apply_rules lib kind reason rs i ≡ decided kind reason (last_match rs i.reading) i
  unfolding apply_rules decided
  apply_rules-last_match kind reason [] i = refl
  apply_rules-last_match kind reason (r ∷ rs) i = elim (Bool-cases (matches lib r i.reading)) [
    | inl e ↦ elim (Option-cases (last_match rs i.reading)) [
      | inl n ↦ rw (e, apply_rules) (apply_rules-last_match kind reason rs _ ∙ rw (n, e) refl)
      | inr (id, n) ↦ rw (e, apply_rules) (apply_rules-last_match kind reason rs _ ∙ rw n refl)
    ]
    | inr e ↦ elim (Option-cases (last_match rs i.reading)) [
      | inl n ↦ rw (e, apply_rules) (apply_rules-last_match kind reason rs i ∙ rw (n, e) refl)
      | inr (id, n) ↦ rw (e, apply_rules) (apply_rules-last_match kind reason rs i ∙ rw n refl)
    ]
  ]

  decided-reading :
      (kind : Selection) (reason : String) (o : Option RuleId) (i : Interface)
      → (decided kind reason o i).reading ≡ i.reading
  unfolding decided
  decided-reading kind reason none i = refl
  decided-reading kind reason (some id) i = refl

  select_default-if :
      (i : Interface)
      → select_default i ≡ (
          if elem (normalize_type i.reading.if_type_name) default_excluded_types
          then verdict_of none none true i.reading
          else verdict_of none none false i.reading)
  unfolding select_default
  select_default-if i = refl

  select_default-reading : (i : Interface) → (select_default i).reading ≡ i.reading
  unfolding select_default
  select_default-reading i =
      elim (Bool-cases (elem (normalize_type i.reading.if_type_name) default_excluded_types)) [
        | inl e ↦ rw e refl
        | inr e ↦ rw e refl
      ]

  settled :
      (f : Filter R) (i : Interface)
      → let d = select_default i in
        let j = decided selected "explicit include" (last_match f.includes d.reading) d in
        decided excluded_rule "explicit exclude" (last_match f.excludes j.reading) j ≡ verdict f i
  unfolding decided select_default
  settled f i =
      rw (decided-reading, select_default-reading)
        (ap
            (λ d.
              decided excluded_rule "explicit exclude" (last_match f.excludes i.reading)
                (decided selected "explicit include" (last_match f.includes i.reading) d))
            (select_default-if i)
          ∙ decided-verdict_of (last_match f.excludes i.reading) (last_match f.includes i.reading)
              (elem (normalize_type i.reading.if_type_name) default_excluded_types) i)

  select-verdict : (f : Filter R) (i : Interface) → select lib f i ≡ verdict f i
  unfolding select
  select-verdict f i =
      let d = select_default i in
      let j = decided selected "explicit include" (last_match f.includes d.reading) d in
      ap (apply_rules lib excluded_rule "explicit exclude" f.excludes)
        (apply_rules-last_match selected "explicit include" f.includes d)
      ∙ apply_rules-last_match excluded_rule "explicit exclude" f.excludes j
      ∙ settled f i

  same_summary : (a b c a' b' c' : ℕ) → a ≡ a' → b ≡ b' → c ≡ c' → summary a b c ≡ summary a' b' c'
  unfolding summary
  same_summary a b c a' b' c' p q r = cc

  counted : FilterSummary → List Interface → FilterSummary
  counted s is_ = record {
    selected_count = s.selected_count + tally selected is_;
    excluded_default_count = s.excluded_default_count + tally excluded_default is_;
    excluded_rule_count = s.excluded_rule_count + tally excluded_rule is_;
  }

  count-counted :
      (kind : Selection) (s : FilterSummary) (i : Interface) (is_ : List Interface)
      → i.selection ≡ kind
      → counted (count kind s) is_ ≡ counted s (i ∷ is_)
  unfolding counted count summary
  count-counted selected s i is_ h =
      rw h (same_summary _ _ _ _ _ _ (omega arith) (omega arith) (omega arith))
  count-counted excluded_default s i is_ h =
      rw h (same_summary _ _ _ _ _ _ (omega arith) (omega arith) (omega arith))
  count-counted excluded_rule s i is_ h =
      rw h (same_summary _ _ _ _ _ _ (omega arith) (omega arith) (omega arith))

  counted_none : (s : FilterSummary) → s ≡ counted s []
  unfolding counted summary
  counted_none s =
      same_summary s.selected_count s.excluded_default_count s.excluded_rule_count _ _ _
        (omega arith) (omega arith) (omega arith)

  apply_from-verdicts :
      (f : Filter R) (s : FilterSummary) (is_ : List Interface)
      → apply_from lib f s is_ ≡ (counted s (map (verdict f) is_), map (verdict f) is_)
  unfolding apply_from
  apply_from-verdicts f s [] = ap (λ t. (t, [])) (counted_none s)
  apply_from-verdicts f s (i ∷ is_) =
      rw (select-verdict f i, apply_from-verdicts f (count (verdict f i).selection s) is_)
        (ap (λ t. (t, verdict f i ∷ map (verdict f) is_))
          (count-counted (verdict f i).selection s (verdict f i) (map (verdict f) is_) refl))

  -- Each interface gets its verdict and nothing of it but the selection changes, and the summary
  -- counts the selections.
  pub apply-verdicts :
      (f : Filter R) (is_ : List Interface)
      → apply lib f is_ ≡ (summary_of (map (verdict f) is_), map (verdict f) is_)
  unfolding apply counted summary
  apply-verdicts f is_ =
      apply_from-verdicts f (summary 0 0 0) is_
      ∙ ap (λ t. (t, map (verdict f) is_))
          (same_summary _ _ _ _ _ _ (omega arith) (omega arith) (omega arith))
