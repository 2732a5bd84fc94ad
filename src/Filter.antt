-- ===== src/Filter.antt =====
-- The interface filter of the collector, services/snmp-collector/internal/snmp/filter/filter.go. A
-- rule's id, `include_types[2]` in the code, is its list and its index. Regular expressions and
-- `strconv.Itoa` are parameters.
mod Tests
pub mod Verdicts
pub mod Accepted
use monitoring_project.Prelude.{
  ℕ, suc, String, Bool, true, false, not, ◌&&◌, ◌||◌, Option, none, some, List, [], ◌∷◌, ◌++◌,
  ◌=s=◌, if◌then◌else◌, elem, trim_space, to_lower,
}
use monitoring_project.Prelude.Int.{ℤ, same_int}
use monitoring_project.Prelude.Results.{Result, ok, error, ◌>>=◌}
use monitoring_project.Config.Types.{InterfaceFilterConfig, InterfaceFilterRule}

-- `regexp` and `strconv.Itoa`; `R` is the type of compiled expressions.
pub record Library (R : Type 0) : Type 0 where
  pub compile : String → Option R
  pub match_string : R → String → Bool
  pub itoa : ℤ → String

-- What the filter reads of core.InterfaceReading.
pub record InterfaceReading : Type 0 where
  pub if_index : ℤ
  pub if_name : String
  pub if_descr : String
  pub if_alias : String
  pub if_type : ℤ
  pub if_type_name : String
  pub admin_status : String
  pub oper_status : String

pub data Selection : Type 0 where
  selected excluded_default excluded_rule : Selection

abbrev pub RuleId : Type 0
RuleId = String × ℕ

-- One entry of `Interfaces`, with the fields that the filter owns.
pub record Interface : Type 0 where
  pub reading : InterfaceReading
  pub selection : Selection
  pub filter_reason : String
  pub rule_id : Option RuleId

pub record FilterSummary : Type 0 where
  pub selected_count : ℕ
  pub excluded_default_count : ℕ
  pub excluded_rule_count : ℕ

pub record CompiledRule (R : Type 0) : Type 0 where
  pub action : String
  pub id : RuleId
  pub if_index : Option ℤ
  pub name : Option R
  pub alias : Option R
  pub if_type : String
  pub admin_status : String
  pub oper_status : String

pub record Filter (R : Type 0) : Type 0 where
  pub includes : List (CompiledRule R)
  pub excludes : List (CompiledRule R)

abbrev pub default_excluded_types : List String
default_excluded_types = "softwareloopback" ∷ "l2vlan" ∷ "propvirtual" ∷ "tunnel" ∷ "bridge" ∷ []

unfoldable pub normalize_type : String → String
normalize_type value = to_lower (trim_space value)

-- `compiledRule{action: action, id: id}`
abbrev pub bare_rule : {R : Type 0} → String → RuleId → CompiledRule R
bare_rule action id = record {
  action = action;
  id = id;
  if_index = none;
  name = none;
  alias = none;
  if_type = "";
  admin_status = "";
  oper_status = "";
}

unfoldable pub matches_index : Option ℤ → ℤ → Bool
matches_index none index = true
matches_index (some i) index = same_int index i

unfoldable pub select_default : Interface → Interface
select_default i =
    if elem (normalize_type i.reading.if_type_name) default_excluded_types
    then record i {
      selection = excluded_default;
      filter_reason = "default virtual interface type";
      rule_id = none;
    }
    else record i { selection = selected; filter_reason = ""; rule_id = none }

unfoldable pub count : Selection → FilterSummary → FilterSummary
count selected s = record s { selected_count = suc s.selected_count }
count excluded_default s = record s { excluded_default_count = suc s.excluded_default_count }
count excluded_rule s = record s { excluded_rule_count = suc s.excluded_rule_count }

module _ {R : Type 0} where
  -- `add`
  unfoldable pub add : CompiledRule R → Filter R → Filter R
  add rule f =
      if rule.action =s= "include"
      then record f { includes = f.includes ++ (rule ∷ []) }
      else record f { excludes = f.excludes ++ (rule ∷ []) }

  -- A loop over one list of the configuration, from index `n`.
  unfoldable pub add_each :
      {A : Type 0}
      → (A → RuleId → Result (CompiledRule R))
      → String
      → ℕ
      → List A
      → Filter R
      → Result (Filter R)
  add_each rule_of field n [] f = ok f
  add_each rule_of field n (a ∷ as_) f =
      rule_of a (field, n) >>= λ rule. add_each rule_of field (suc n) as_ (add rule f)

  unfoldable pub index_rule : String → ℤ → RuleId → Result (CompiledRule R)
  index_rule action index id = ok (record (bare_rule action id) { if_index = some index })

  unfoldable pub type_rule : String → String → RuleId → Result (CompiledRule R)
  type_rule action value id = ok (record (bare_rule action id) { if_type = normalize_type value })

  unfoldable pub admin_rule : String → String → RuleId → Result (CompiledRule R)
  admin_rule action value id = ok (record (bare_rule action id) { admin_status = to_lower value })

  unfoldable pub oper_rule : String → String → RuleId → Result (CompiledRule R)
  oper_rule action value id = ok (record (bare_rule action id) { oper_status = to_lower value })

module _ {R : Type 0} (lib : Library R) where
  unfoldable pub regex_rule : String → RuleId → String → Bool → Result (CompiledRule R)
  regex_rule action id pattern alias = elim (lib.compile pattern) [
    | none ↦ error "invalid regex"
    | some r ↦ ok (
        if alias
        then record (bare_rule action id) { alias = some r }
        else record (bare_rule action id) { name = some r })
  ]

  -- An expression of a rule, which may be left out.
  unfoldable pub optional_regex : String → Result (Option R)
  optional_regex pattern =
      if pattern =s= ""
      then ok none
      else elim (lib.compile pattern) [ none ↦ error "invalid regex" | some r ↦ ok (some r) ]

  unfoldable pub compile_rule : InterfaceFilterRule → RuleId → Result (CompiledRule R)
  compile_rule rule id = optional_regex rule.name_regex >>= λ name.
      optional_regex rule.alias_regex >>= λ alias. ok (record {
        action = rule.action;
        id = id;
        if_index = rule.if_index;
        name = name;
        alias = alias;
        if_type = normalize_type rule.if_type;
        admin_status = to_lower rule.admin_status;
        oper_status = to_lower rule.oper_status;
      })

  unfoldable pub new : InterfaceFilterConfig → Result (Filter R)
  new cfg =
      add_each (index_rule "include") "include_if_indexes" 0 cfg.include_if_indexes
        (record { includes = []; excludes = [] })
      >>= add_each (λ p id. regex_rule "include" id p false) "include_name_regex" 0
          cfg.include_name_regex
      >>= add_each (λ p id. regex_rule "include" id p true) "include_alias_regex" 0
          cfg.include_alias_regex
      >>= add_each (type_rule "include") "include_types" 0 cfg.include_types
      >>= add_each (admin_rule "include") "include_admin_statuses" 0 cfg.include_admin_statuses
      >>= add_each (oper_rule "include") "include_oper_statuses" 0 cfg.include_oper_statuses
      >>= add_each compile_rule "rules" 0 cfg.rules
      >>= add_each (index_rule "exclude") "exclude_if_indexes" 0 cfg.exclude_if_indexes
      >>= add_each (λ p id. regex_rule "exclude" id p false) "exclude_name_regex" 0
          cfg.exclude_name_regex
      >>= add_each (λ p id. regex_rule "exclude" id p true) "exclude_alias_regex" 0
          cfg.exclude_alias_regex
      >>= add_each (type_rule "exclude") "exclude_types" 0 cfg.exclude_types
      >>= add_each (admin_rule "exclude") "exclude_admin_statuses" 0 cfg.exclude_admin_statuses
      >>= add_each (oper_rule "exclude") "exclude_oper_statuses" 0 cfg.exclude_oper_statuses

  unfoldable pub matches_name : Option R → InterfaceReading → Bool
  matches_name none iface = true
  matches_name (some r) iface =
      lib.match_string r iface.if_name || lib.match_string r iface.if_descr

  unfoldable pub matches_alias : Option R → InterfaceReading → Bool
  matches_alias none iface = true
  matches_alias (some r) iface = lib.match_string r iface.if_alias

  unfoldable pub matches : CompiledRule R → InterfaceReading → Bool
  matches r iface =
      matches_index r.if_index iface.if_index
      && matches_name r.name iface
      && matches_alias r.alias iface
      && (r.if_type =s= ""
          || normalize_type iface.if_type_name =s= r.if_type
          || lib.itoa iface.if_type =s= r.if_type)
      && (r.admin_status =s= "" || to_lower iface.admin_status =s= r.admin_status)
      && (r.oper_status =s= "" || to_lower iface.oper_status =s= r.oper_status)

  -- The loops over the includes and the excludes, which overwrite what a rule before them set.
  unfoldable pub apply_rules : Selection → String → List (CompiledRule R) → Interface → Interface
  apply_rules kind reason [] i = i
  apply_rules kind reason (r ∷ rs) i = apply_rules kind reason rs (
      if matches r i.reading
      then record i { selection = kind; filter_reason = reason; rule_id = some r.id }
      else i)

  unfoldable pub select : Filter R → Interface → Interface
  select f i =
      apply_rules excluded_rule "explicit exclude" f.excludes
        (apply_rules selected "explicit include" f.includes (select_default i))

  unfoldable pub apply_from :
      Filter R → FilterSummary → List Interface → FilterSummary × List Interface
  apply_from f s [] = (s, [])
  apply_from f s (i ∷ is_) =
      let j = select f i in let r = apply_from f (count j.selection s) is_ in (r.0, j ∷ r.1)

  unfoldable pub apply : Filter R → List Interface → FilterSummary × List Interface
  apply f =
      apply_from f
        (record { selected_count = 0; excluded_default_count = 0; excluded_rule_count = 0 })
