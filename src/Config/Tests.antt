-- ===== src/Config/Tests.antt =====
-- Runs of the checks of a configuration, and the theorems at them.
use monitoring_project.Prelude.{
  ℕ, ◌≤◌, ◌≡◌, ◌⊎◌, ◌↔◌, refl, false, not, some, List, [], ◌∷◌, ◌++◌, map, leb, elem, lookup,
  insert, keys, trim_space, to_lower, sort_by,
}
use monitoring_project.Prelude.Results.{ok, error, Check, refuse_if, check_all}
use monitoring_project.Config.Types.{DeviceConfig, Config}
use monitoring_project.Config.Types.{upstreams, temperature_out_of_range}
use monitoring_project.Config.Dependencies.{
  by_id, check_upstreams, check_references, colour_of, upstreams_of, and_then, visit_each,
  visit_coloured, visit, search_cycles, searched, validate_dependencies,
}
use monitoring_project.Config.Filters.{
  parse_positive_int, validate_interface_type, check_index, check_pattern, check_state,
  check_unless_empty, has_index, index_not_positive, has_matcher, check_rule,
  validate_interface_filters,
}
use monitoring_project.Config.Inventory.{
  trim_dot, canonical_host, has_interface_filter_config, clone, overlaid_upstreams,
  validate_uniqueness, validate_inventory_uniqueness, apply_device_overlay, index_static,
  overlay_at, merge_managed, merge_inventories, has_device, set_upstreams, mutated, check_mutation,
}
use monitoring_project.Config.Devices.{
  identifier_rest, matches_identifier, env_name_rest, matches_env_name, validate_env_name,
  optional_not_positive, optional_negative, device_defaults, ids_of, overlay_duplicate,
  optional_le_zero, optional_out_of_range, check_device, check_devices, validate_device_source,
  validate_managed_overlay, timeout_invalid, validate_managed_discovery_policy, part_managed,
  validate_managed_document,
}
use monitoring_project.Config.Defaults.{
  or_int, or_text, or_float, apply_defaults, apply_discovery_defaults, managed_timeout,
  apply_managed_policy, apply_env_overrides, mqtt_password, discovery_community,
  mqtt_insecure_skip_verify,
}
use monitoring_project.Config.Validate.{
  outside, valid_broker, validate_mqtt, is_unset, validate_discovery, validate_settings,
  validate_config, validate, validate_runtime_secrets,
}
use monitoring_project.Config.Load.{
  group_or_world_writable, group_or_world_bits, check_file, is_missing, read_managed,
  load_managed_document, default_appends, prepare_config, load,
}
use monitoring_project.Config.Manager.{
  same_admin, same_publisher, same_buffer, same_mqtt, validate_reload, new_manager, activate,
  reload, managed_inventory_path, read_managed_document, read_static_devices, read_inventories,
  validate_pending_dependency_mutation,
}
use monitoring_project.Config.Accepts.{AreReferences, IsRanked, validate_dependencies-IsRanking}
use monitoring_project.Config.Inventory.{bare_device}
use monitoring_project.Config.Merge.{identity, unlisted, merge_inventories-identity}
use monitoring_project.Config.Manager.{Manager}
use monitoring_project.Config.Reload.{
  AreSettingsKept, IsAccepted, Reloads, stays, reloads, reload-IsAccepted, Reloads-IsAccepted,
}
use monitoring_project.Config.Tracked.{tracked, run_cycles, accepted-returns}
use monitoring_project.Config.Sample.{whole, plain, host, campus, ring, blank, files_with}
use monitoring_project.Health.Types.{PollOutcome, Ledger}
use monitoring_project.Health.Types as Health_types

program : Unit {0}
unfolding upstreams temperature_out_of_range by_id check_upstreams check_references colour_of
    upstreams_of and_then visit_each visit_coloured visit search_cycles searched
    validate_dependencies parse_positive_int validate_interface_type check_index check_pattern
    check_state check_unless_empty has_index index_not_positive has_matcher check_rule
    validate_interface_filters trim_dot canonical_host has_interface_filter_config clone
    overlaid_upstreams validate_uniqueness validate_inventory_uniqueness apply_device_overlay
    index_static overlay_at merge_managed merge_inventories has_device set_upstreams mutated
    check_mutation identifier_rest matches_identifier env_name_rest matches_env_name
    validate_env_name optional_not_positive optional_negative device_defaults ids_of
    overlay_duplicate optional_le_zero optional_out_of_range check_device check_devices
    validate_device_source validate_managed_overlay timeout_invalid
    validate_managed_discovery_policy part_managed validate_managed_document or_int or_text or_float
    apply_defaults apply_discovery_defaults managed_timeout apply_managed_policy apply_env_overrides
    mqtt_password discovery_community mqtt_insecure_skip_verify outside valid_broker validate_mqtt
    is_unset validate_discovery validate_settings validate_config validate validate_runtime_secrets
    group_or_world_writable group_or_world_bits check_file is_missing read_managed
    load_managed_document default_appends prepare_config load same_admin same_publisher same_buffer
    same_mqtt validate_reload new_manager activate reload managed_inventory_path
    read_managed_document read_static_devices read_inventories validate_pending_dependency_mutation
    refuse_if check_all lookup insert elem keys trim_space to_lower sort_by
program = tt

abbrev campus_config : Config ℕ
campus_config = apply_defaults whole (blank campus)

campus-IsAccepted : validate whole plain campus_config ≡ some (ok tt)
unfolding program
campus-IsAccepted = refl

ring_refused : validate_dependencies ring ≡ some (error "dependency cycle detected at device")
unfolding program
ring_refused = refl

abbrev manager : Manager ℕ
manager = record { path = "/etc/collector.yaml"; current = campus_config }

abbrev smaller : List (DeviceConfig ℕ)
smaller = host "core" "10.0.0.1" [] ∷ []

smaller_activated :
    reload whole plain (files_with smaller) manager
    ≡ some (ok tt, record manager { current = apply_defaults whole (blank smaller) })
unfolding program
smaller_activated = refl

ring_not_activated :
    reload whole plain (files_with ring) manager
    ≡ some (error "dependency cycle detected at device", manager)
unfolding program
ring_not_activated = refl

validate_dependencies-IsRanking_example :
    ((r : Check) × (validate_dependencies campus ≡ some r))
    × ((validate_dependencies campus ≡ some (ok tt))
        ↔ (AreReferences campus × IsRanked (by_id [] campus)))
validate_dependencies-IsRanking_example = validate_dependencies-IsRanking campus

merge_inventories-identity_example :
    map identity (merge_inventories campus ring)
    ≡ map identity campus ++ map identity (unlisted campus ring)
merge_inventories-identity_example = merge_inventories-identity campus ring

reload-IsAccepted_example :
    (r : Check) × (m' : Manager ℕ) × (reload whole plain (files_with ring) manager ≡ some (r, m'))
    × IsAccepted whole plain m'.current
    × AreSettingsKept manager.current m'.current
    × (m'.path ≡ manager.path)
    × ((r ≡ ok tt) ⊎ (m' ≡ manager))
reload-IsAccepted_example =
    reload-IsAccepted whole plain (files_with ring) manager campus-IsAccepted

two-Reloads :
    Reloads whole plain manager (record manager { current = apply_defaults whole (blank smaller) })
two-Reloads =
    reloads manager manager _ (files_with smaller) (ok tt)
      (reloads manager manager manager (files_with ring)
        (error "dependency cycle detected at device") (stays manager) ring_not_activated)
      smaller_activated

Reloads-IsAccepted_example :
    IsAccepted whole plain (apply_defaults whole (blank smaller))
    × AreSettingsKept campus_config (apply_defaults whole (blank smaller))
Reloads-IsAccepted_example =
    Reloads-IsAccepted whole plain manager
      (record manager { current = apply_defaults whole (blank smaller) }) two-Reloads
      campus-IsAccepted

abbrev degrees : Health_types.Floats ℕ
degrees = record {
  ge = λ a b. leb b a;
  gt = λ a b. not (leb a b);
  is_nan = λ a. false;
  is_negative = λ a. false;
}

accepted-returns_example :
    (n : ℕ) × ((fuel : ℕ)
      → n ≤ fuel
      → (cycles : List (List (PollOutcome ℕ)))
      → (after : Ledger ℕ) × (run_cycles degrees
            (λ c. "policy")
            fuel
            (tracked campus_config)
            cycles
            []
          ≡ some after))
accepted-returns_example =
    accepted-returns whole plain degrees (λ c. "policy") campus_config campus-IsAccepted

-- Managed overlays took away the upstreams of a and made b depend on it. To clear those of a again
-- is refused: the check reads the empty list as no change and finds the static upstream of a.
cleared_refused :
    check_mutation "a"
      (some [])
      (host "a" "10.0.0.1" ("b" ∷ []) ∷ host "b" "10.0.0.2" [] ∷ [])
      (bare_device "a" (some []) ∷ bare_device "b" (some ("a" ∷ [])) ∷ [])
    ≡ some (error "dependency cycle detected at device")
unfolding program
cleared_refused = refl
