-- ===== src/Config/Filters.antt =====
-- The checks of interface filters of services/snmp-collector/internal/config/config.go. The code
-- ranges over small maps of field names, whose order only decides which of several errors is
-- reported; the model goes through them in the order of the source. Errors leave out the name and
-- the index of the field.
use monitoring_project.Prelude.{
  String, Bool, true, false, not, ◌&&◌, ◌||◌, none, some, List, [], ◌∷◌, ◌=s=◌, if◌then◌else◌, elem,
  trim_space, to_lower,
}
use monitoring_project.Prelude.Int.{ℤ, pos, is_not_positive, exceeds}
use monitoring_project.Prelude.Results.{ok, error, Check, ◌>>◌, check_all, refuse_if}
use monitoring_project.Config.Types.{Std, InterfaceFilterRule, InterfaceFilterConfig}

abbrev pub valid_interface_states : List String
valid_interface_states = "up" ∷ "down" ∷ "testing" ∷ "unknown" ∷ []

abbrev pub valid_interface_types : List String
valid_interface_types =
    "other" ∷ "ethernetcsmacd" ∷ "ieee8023adlag" ∷ "l2vlan" ∷ "softwareloopback" ∷ "propvirtual"
    ∷ "tunnel" ∷ "bridge" ∷ "ieee80211" ∷ "fddi" ∷ "ppp" ∷ "framerelay" ∷ "atm" ∷ []

unfoldable pub check_index : ℤ → Check
check_index index = if is_not_positive index then error "must be positive" else ok tt

unfoldable pub check_state : String → Check
check_state state =
    if elem (to_lower state) valid_interface_states then ok tt else error "has unsupported state"

-- A matcher of a rule that may be left empty.
unfoldable pub check_unless_empty : (String → Check) → String → Check
check_unless_empty check value = if value =s= "" then ok tt else check value

unfoldable pub has_index : InterfaceFilterRule → Bool
has_index rule = elim (rule.if_index) [ none ↦ false | some _ ↦ true ]

unfoldable pub index_not_positive : InterfaceFilterRule → Bool
index_not_positive rule = elim (rule.if_index) [ none ↦ false | some n ↦ is_not_positive n ]

-- `matched`, as the loop body leaves it.
unfoldable pub has_matcher : InterfaceFilterRule → Bool
has_matcher rule =
    has_index rule
    || not (rule.name_regex =s= "")
    || not (rule.alias_regex =s= "")
    || not (rule.if_type =s= "")
    || not (rule.admin_status =s= "")
    || not (rule.oper_status =s= "")

module _ (std : Std) where
  unfoldable pub parse_positive_int : String → ℤ
  parse_positive_int value = elim (std.atoi value) [ none ↦ pos 0 | some n ↦ n ]

  unfoldable pub validate_interface_type : String → Check
  validate_interface_type value =
      let normalized = to_lower (trim_space value) in
      let n = parse_positive_int normalized in
      if normalized =s= ""
      then error "interface type is required"
      else if elem normalized valid_interface_types
      then ok tt
      else if not (is_not_positive n) && not (exceeds n 255)
      then ok tt
      else error "unsupported interface type"

  unfoldable pub check_pattern : String → Check
  check_pattern pattern = if std.compiles pattern then ok tt else error "invalid regex"

  unfoldable pub check_rule : InterfaceFilterRule → Check
  check_rule rule =
      refuse_if (
        (
          not (rule.action =s= "include") && not (rule.action =s= "exclude"),
          "action must be include or exclude",
        )
        ∷ (index_not_positive rule, "if_index must be positive")
        ∷ [])
      >> check_all (check_unless_empty check_pattern) (rule.name_regex ∷ rule.alias_regex ∷ [])
      >> check_unless_empty validate_interface_type rule.if_type
      >> check_all (check_unless_empty check_state) (rule.admin_status ∷ rule.oper_status ∷ [])
      >> (if has_matcher rule then ok tt else error "must contain at least one matcher")

  unfoldable pub validate_interface_filters : InterfaceFilterConfig → Check
  validate_interface_filters filters =
      check_all (check_all check_index)
        (filters.include_if_indexes ∷ filters.exclude_if_indexes ∷ [])
      >> check_all (check_all check_pattern) (
          filters.include_name_regex ∷ filters.exclude_name_regex ∷ filters.include_alias_regex
          ∷ filters.exclude_alias_regex ∷ [])
      >> check_all (check_all validate_interface_type)
          (filters.include_types ∷ filters.exclude_types ∷ [])
      >> check_all (check_all check_state) (
          filters.include_admin_statuses ∷ filters.exclude_admin_statuses
          ∷ filters.include_oper_statuses ∷ filters.exclude_oper_statuses ∷ [])
      >> check_all check_rule filters.rules
