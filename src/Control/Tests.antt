-- ===== src/Control/Tests.antt =====
-- Runs of the control server, and the theorems at them.
use monitoring_project.Prelude.{
  ℕ, ◌≡◌, refl, String, true, none, some, List, [], ◌∷◌, ◌=s=◌, if◌then◌else◌, lookup, insert,
  delete, elem, keys, trim_space, to_lower, arith, sort_by,
}
use monitoring_project.Prelude.Results.{ok, error, refuse_if, check_all}
use monitoring_project.Config.Types.{
  Config, DeviceConfig, ManagedInventory, upstreams, temperature_out_of_range,
}
use monitoring_project.Config.Inventory.{
  bare_device, trim_dot, canonical_host, has_interface_filter_config, clone, overlaid_upstreams,
  validate_uniqueness, validate_inventory_uniqueness, apply_device_overlay, index_static,
  overlay_at, merge_managed, merge_inventories, has_device, set_upstreams, mutated, check_mutation,
}
use monitoring_project.Config.Load.{
  found, empty_inventory, group_or_world_writable, group_or_world_bits, check_file, is_missing,
  read_managed, load_managed_document, default_appends, prepare_config, load,
}
use monitoring_project.Config.Manager.{
  same_admin, same_publisher, same_buffer, same_mqtt, validate_reload, new_manager, activate,
  reload, managed_inventory_path, read_managed_document, read_static_devices, read_inventories,
  validate_pending_dependency_mutation,
}
use monitoring_project.Config.Sample.{whole, plain, host, blank, files_with}
use monitoring_project.Config.Dependencies.{
  by_id, check_upstreams, check_references, colour_of, upstreams_of, and_then, visit_each,
  visit_coloured, visit, search_cycles, searched, validate_dependencies,
}
use monitoring_project.Config.Filters.{
  check_index, check_state, check_unless_empty, has_index, index_not_positive, has_matcher,
  parse_positive_int, validate_interface_type, check_pattern, check_rule,
  validate_interface_filters,
}
use monitoring_project.Config.Devices.{
  identifier_rest, matches_identifier, env_name_rest, matches_env_name, validate_env_name,
  optional_not_positive, optional_negative, device_defaults, ids_of, overlay_duplicate,
  optional_le_zero, optional_out_of_range, check_device, check_devices, validate_device_source,
  validate_managed_overlay, timeout_invalid, validate_managed_discovery_policy, part_managed,
  validate_managed_document,
}
use monitoring_project.Config.Defaults.{
  or_int, or_text, or_float, apply_defaults, apply_discovery_defaults, managed_timeout,
  apply_managed_policy, apply_env_overrides, mqtt_password, discovery_community,
  mqtt_insecure_skip_verify,
}
use monitoring_project.Config.Validate.{
  outside, valid_broker, validate_mqtt, is_unset, validate_discovery, validate_settings,
  validate_config, validate, validate_runtime_secrets,
}
use monitoring_project.Control.Pending.{done, refuse, put, take, check_item, take_found}
use monitoring_project.Control.Mutations.{
  text, array, Params, Disk, string_of, validate_dependency_targets, write_dependencies, strings_of,
  as_float, as_string_slice, as_bool, is_null, is_given, validate_threshold_params,
  validate_dependency_params, validate_alerting_params, update_first, upsert, part_written,
  check_written, write_managed_document, reply_of, rewrite, with_path, apply_threshold_mutation,
  apply_dependency_mutation, apply_alerting_mutation,
}
use monitoring_project.Control.Handlers.{
  Server, Moment, written, Action, active_revision, prepare, commit, dependencies, record_audit,
  prepare_put, commit_applied, commit_taken, reload_reply, handle_config_reload, handle,
}
use monitoring_project.Control.Tokens.{Operation, puts, takes, run, run_view, run-abstract}
use monitoring_project.Control.Commits.{commit-prepare}
use monitoring_project.Status.{new_store}

program : Unit {0}
unfolding upstreams temperature_out_of_range by_id check_upstreams check_references colour_of
    upstreams_of and_then visit_each visit_coloured visit search_cycles searched
    validate_dependencies check_index check_state check_unless_empty has_index index_not_positive
    has_matcher parse_positive_int validate_interface_type check_pattern check_rule
    validate_interface_filters trim_dot canonical_host has_interface_filter_config clone
    overlaid_upstreams validate_uniqueness validate_inventory_uniqueness apply_device_overlay
    index_static overlay_at merge_managed merge_inventories has_device set_upstreams mutated
    check_mutation identifier_rest matches_identifier env_name_rest matches_env_name
    validate_env_name optional_not_positive optional_negative device_defaults ids_of
    overlay_duplicate optional_le_zero optional_out_of_range check_device check_devices
    validate_device_source validate_managed_overlay timeout_invalid
    validate_managed_discovery_policy part_managed validate_managed_document or_int or_text or_float
    apply_defaults apply_discovery_defaults managed_timeout apply_managed_policy apply_env_overrides
    mqtt_password discovery_community mqtt_insecure_skip_verify outside valid_broker validate_mqtt
    is_unset validate_discovery validate_settings validate_config validate validate_runtime_secrets
    group_or_world_writable group_or_world_bits check_file is_missing read_managed
    load_managed_document default_appends prepare_config load same_admin same_publisher same_buffer
    same_mqtt validate_reload new_manager activate reload managed_inventory_path
    read_managed_document read_static_devices read_inventories validate_pending_dependency_mutation
    refuse put check_item take_found take strings_of string_of as_float as_string_slice as_bool
    is_null is_given validate_threshold_params validate_dependency_params validate_alerting_params
    update_first upsert part_written check_written write_managed_document reply_of rewrite with_path
    apply_threshold_mutation validate_dependency_targets write_dependencies
    apply_dependency_mutation apply_alerting_mutation record_audit active_revision prepare_put
    prepare commit_applied commit_taken commit reload_reply handle_config_reload handle refuse_if
    check_all lookup insert delete elem keys trim_space to_lower sort_by
program = tt

-- A token is taken once; the second take finds none.
abbrev operations : List (Operation String)
operations =
    puts (some "t1") 0 "thresholds" "r1" "70"
    ∷ takes 5 "t1" "r1" "thresholds"
    ∷ takes 6 "t1" "r1" "thresholds"
    ∷ []

run-abstract_example : run operations [] ≡ run_view operations (λ x. none)
run-abstract_example = run-abstract operations

-- Two devices, and a managed inventory that the disk holds.
abbrev pair : List (DeviceConfig ℕ)
pair = host "a" "10.0.0.1" [] ∷ host "b" "10.0.0.2" [] ∷ []

abbrev disk : Disk ℕ (ManagedInventory ℕ)
disk = record {
  files = λ d. record (files_with pair) {
    stat = λ p. if p =s= "/etc/collector.yaml" then found true 420 else found true 384;
    decode_managed = λ t. ok d;
  };
  replace = λ path doc d. (ok tt, doc);
}

abbrev active : Config ℕ
active = record (blank pair) { managed_path = "/etc/managed.yaml" }

abbrev server : Server ℕ (ManagedInventory ℕ)
server = record {
  manager = record { path = "/etc/collector.yaml"; current = active };
  pending = [];
  status = new_store;
  disk = empty_inventory;
  audit = [];
}

abbrev revision_of : Config ℕ → String
revision_of c = "revision-1"

abbrev a_below_b : Params ℕ
a_below_b = ("device_id", text "a") ∷ ("upstream_device_ids", array (some "b" ∷ [])) ∷ []

abbrev change : Action ℕ (ManagedInventory ℕ)
change = dependencies whole plain disk

abbrev first : Moment
first = record { now = 10; random = some "token-1" }

abbrev second_moment : Moment
second_moment = record { now = 20; random = none }

abbrev confirm : Params ℕ
confirm = ("confirm_token", text "token-1") ∷ ("revision", text "revision-1") ∷ []

abbrev written_disk : ManagedInventory ℕ
written_disk = record empty_inventory {
  devices = record (bare_device "a" (some ("b" ∷ []))) { port = 161; version = "2c" } ∷ [];
}

a_below_b_applied : change.apply active a_below_b empty_inventory ≡ some (done tt, written_disk)
unfolding program
a_below_b_applied = refl

-- Both changes are checked, then both are written: a below b and b below a.
both_checked :
    (validate_dependency_targets whole plain disk active "a" ("b" ∷ []) empty_inventory
      ≡ some (done tt))
    × (validate_dependency_targets whole plain disk active "b" ("a" ∷ []) empty_inventory
        ≡ some (done tt))
unfolding program
both_checked = (refl, refl)

both_written : ManagedInventory ℕ
both_written =
    (write_dependencies whole plain disk "/etc/managed.yaml" "b" ("a" ∷ [])
      (write_dependencies whole plain disk "/etc/managed.yaml" "a" ("b" ∷ []) empty_inventory).1).1

race_writes_cycle :
    validate_dependencies (merge_inventories pair both_written.devices)
    ≡ some (error "dependency cycle detected at device")
unfolding program both_written
race_writes_cycle = refl

prepare_first : Server ℕ (ManagedInventory ℕ)
prepare_first = (prepare revision_of change first a_below_b server).1

a_below_b_checked : change.check a_below_b ≡ ok tt
unfolding program
a_below_b_checked = refl

commit-prepare_example :
    (s' : Server ℕ (ManagedInventory ℕ)) × (commit revision_of change second_moment
        (("confirm_token", text "token-1")
          ∷ ("revision", text (active_revision revision_of server))
          ∷ [])
        (prepare revision_of change first a_below_b server).1
      ≡ some (done (written (active_revision revision_of server)), s'))
    × (s'.disk ≡ written_disk)
unfolding active_revision
commit-prepare_example =
    commit-prepare revision_of change first second_moment "token-1" a_below_b server
      a_below_b_checked refl refl refl (omega arith) written_disk a_below_b_applied
