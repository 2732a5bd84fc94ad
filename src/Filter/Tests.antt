-- ===== src/Filter/Tests.antt =====
-- Runs of the interface filter, and the theorems at them. An expression matches the names that
-- start with it.
use monitoring_project.Prelude.{
  ◌≡◌, refl, String, true, false, none, some, List, [], ◌∷◌, map, ◌=s=◌, elem, has_prefix,
  trim_space, to_lower, if◌then◌else◌, Bool-cases, inl, inr,
}
use monitoring_project.Prelude.Int.{pos}
use monitoring_project.Prelude.Results.{ok, check_all, refuse_if}
use monitoring_project.Config.Types.{Std, InterfaceFilterConfig}
use monitoring_project.Config.Filters.{
  validate_interface_filters, validate_interface_type, parse_positive_int, check_index,
  check_pattern, check_state, check_unless_empty, has_index, index_not_positive, has_matcher,
  check_rule,
}
use monitoring_project.Filter.{
  Library, Interface, selected, excluded_default, excluded_rule, Filter, bare_rule, new, apply,
  add_each, add, regex_rule, index_rule, type_rule, admin_rule, oper_rule, compile_rule,
  normalize_type, matches, matches_index, matches_name, matches_alias, apply_rules, select_default,
  select, count, apply_from,
}
use monitoring_project.Filter.Verdicts.{summary_of, verdict, apply-verdicts}
use monitoring_project.Filter.Accepted.{new-Compiles}

program : Unit {0}
unfolding validate_interface_filters validate_interface_type parse_positive_int check_index
    check_pattern check_state check_unless_empty has_index index_not_positive has_matcher check_rule
    new apply add_each add regex_rule index_rule type_rule admin_rule oper_rule compile_rule
    normalize_type matches matches_index matches_name matches_alias apply_rules select_default
    select count apply_from elem trim_space to_lower has_prefix check_all refuse_if
program = tt

abbrev prefixes : Library String
prefixes = record {
  compile = λ p. if p =s= "(" then none else some p;
  match_string = λ r s. has_prefix s r;
  itoa = λ n. "6";
}

abbrev std : Std
std = record {
  parse_ip = λ s. none;
  parse_cidr = λ s. true;
  compiles = λ p. if p =s= "(" then false else true;
  atoi = λ s. none;
  parse_duration = λ s. none;
  parse_url = λ s. none;
  getenv = λ s. "";
}

agreed : (p : String) → std.compiles p ≡ true → (r : String) × (prefixes.compile p ≡ some r)
agreed p h = elim (Bool-cases (p =s= "(")) [
  | inl e ↦ absurd (cc (rw e at h))
  | inr e ↦ (p, rw e refl)
]

-- Virtual interfaces of VLANs are wanted, but none that is down.
abbrev policy : InterfaceFilterConfig
policy = record {
  rules = [];
  include_if_indexes = [];
  exclude_if_indexes = [];
  include_name_regex = "Vlan" ∷ [];
  exclude_name_regex = [];
  include_alias_regex = [];
  exclude_alias_regex = [];
  include_types = [];
  exclude_types = [];
  include_admin_statuses = [];
  exclude_admin_statuses = [];
  include_oper_statuses = [];
  exclude_oper_statuses = "Down" ∷ [];
}

abbrev interface : String → String → String → Interface
interface name type_name state = record {
  reading = record {
    if_index = pos 1;
    if_name = name;
    if_descr = "";
    if_alias = "";
    if_type = pos 6;
    if_type_name = type_name;
    admin_status = "up";
    oper_status = state;
  };
  selection = selected;
  filter_reason = "";
  rule_id = none;
}

abbrev ports : List Interface
ports =
    interface "Gi1" "ethernetCsmacd" "up"
    ∷ interface "Lo0" "softwareLoopback" "up"
    ∷ interface "Vlan1" "l2vlan" "up"
    ∷ interface "Vlan2" "l2vlan" "down"
    ∷ []

abbrev policy_filter : Filter String
policy_filter = record {
  includes = record (bare_rule "include" ("include_name_regex", 0)) { name = some "Vlan" } ∷ [];
  excludes =
      record (bare_rule "exclude" ("exclude_oper_statuses", 0)) { oper_status = "down" } ∷ [];
}

policy_compiled : new prefixes policy ≡ ok policy_filter
unfolding program
policy_compiled = refl

policy-accepted : validate_interface_filters std policy ≡ ok tt
unfolding program
policy-accepted = refl

ports_selected :
    map (λ i. i.selection) (apply prefixes policy_filter ports).1
    ≡ selected ∷ excluded_default ∷ selected ∷ excluded_rule ∷ []
unfolding program
ports_selected = refl

apply-verdicts_example : apply prefixes policy_filter ports ≡ (
  summary_of (map (verdict prefixes policy_filter) ports),
  map (verdict prefixes policy_filter) ports,
)
apply-verdicts_example = apply-verdicts prefixes policy_filter ports

new-Compiles_example : (f : Filter String) × (new prefixes policy ≡ ok f)
new-Compiles_example = new-Compiles prefixes std agreed policy policy-accepted
