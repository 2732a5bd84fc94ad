-- ===== src/Config/Devices.antt =====
-- The checks of devices, static and managed, of services/snmp-collector/internal/config/config.go.
-- Errors leave out the source and the index of the device.
use Prim.Native.Char.{code}
use monitoring_project.Prelude.{
  ℕ, String, Bool, true, false, not, ◌&&◌, ◌||◌, Option, none, some, List, [], ◌∷◌, ◌=s=◌, ◌==◌,
  leb, if◌then◌else◌, elem, trim_space, to_lower, map,
}
use monitoring_project.Prelude.Int.{ℤ, exceeds, is_negative, is_not_positive}
use monitoring_project.Prelude.Results.{Result, ok, error, Check, ◌>>=◌, ◌>>◌, check_all, refuse_if}
use monitoring_project.Config.Types.{
  Std, Floats, DeviceConfig, ManagedDiscoveryPolicy, ManagedInventory, temperature_out_of_range,
}
use monitoring_project.Config.Filters.{validate_interface_filters}
use monitoring_project.Config.Inventory.{canonical_host}

abbrev pub max_poll_interval : ℕ
max_poll_interval = 86400000000000

abbrev pub max_snmp_timeout : ℕ
max_snmp_timeout = 300000000000

abbrev pub max_retries : ℕ
max_retries = 10

is_letter : ℕ → Bool
is_letter n = (leb 65 n && leb n 90) || (leb 97 n && leb n 122)

is_digit : ℕ → Bool
is_digit n = leb 48 n && leb n 57

-- `^[A-Za-z0-9][A-Za-z0-9._-]*$`
unfoldable pub identifier_rest : String → Bool
unfolding is_letter is_digit
identifier_rest String.[] = true
identifier_rest (String.◌∷◌ c s) =
    let n = code c in
    (is_letter n || is_digit n || n == 46 || n == 95 || n == 45) && identifier_rest s

unfoldable pub matches_identifier : String → Bool
unfolding is_letter is_digit
matches_identifier String.[] = false
matches_identifier (String.◌∷◌ c s) = (is_letter (code c) || is_digit (code c)) && identifier_rest s

-- `^[A-Za-z_][A-Za-z0-9_]*$`
unfoldable pub env_name_rest : String → Bool
unfolding is_letter is_digit
env_name_rest String.[] = true
env_name_rest (String.◌∷◌ c s) =
    let n = code c in (is_letter n || is_digit n || n == 95) && env_name_rest s

unfoldable pub matches_env_name : String → Bool
unfolding is_letter
matches_env_name String.[] = false
matches_env_name (String.◌∷◌ c s) = (is_letter (code c) || code c == 95) && env_name_rest s

unfoldable pub validate_env_name : String → Check
validate_env_name value = refuse_if (
    (trim_space value =s= "", "environment variable name is required")
    ∷ (not (matches_env_name value), "must be a valid environment variable name")
    ∷ [])

unfoldable pub optional_not_positive : Option ℤ → Bool
optional_not_positive none = false
optional_not_positive (some n) = is_not_positive n

unfoldable pub optional_negative : Option ℤ → Bool
optional_negative none = false
optional_negative (some n) = is_negative n

module _ {F : Type 0} where
  -- `applyDeviceDefaults`, for one device.
  unfoldable pub device_defaults : DeviceConfig F → DeviceConfig F
  device_defaults d = record d {
    port = if d.port == 0 then 161 else d.port;
    version = if d.version =s= "" then "2c" else d.version;
  }

  unfoldable pub ids_of : List (DeviceConfig F) → List String
  ids_of [] = []
  ids_of (d ∷ ds) = d.id ∷ ids_of ds

  unfoldable pub overlay_duplicate : List String → List (DeviceConfig F) → Check
  overlay_duplicate seen [] = ok tt
  overlay_duplicate seen (d ∷ ds) =
      if elem d.id seen
      then error "duplicate device id in managed devices"
      else overlay_duplicate (d.id ∷ seen) ds

module _ {F : Type 0} (fl : Floats F) where
  unfoldable pub optional_le_zero : Option F → Bool
  optional_le_zero none = false
  optional_le_zero (some v) = fl.le v fl.zero_value

  unfoldable pub optional_out_of_range : Option F → Bool
  optional_out_of_range none = false
  optional_out_of_range (some v) = temperature_out_of_range fl v

  module _ (std : Std) where
    -- One round of the loop, with the ids and the canonical hosts seen so far.
    unfoldable pub check_device : List String → List String → DeviceConfig F → Check
    check_device seen_ids seen_hosts d =
        refuse_if (
          (trim_space d.id =s= "", "id is required")
          ∷ (not (matches_identifier d.id), "id has invalid format")
          ∷ (trim_space d.host =s= "", "host is required")
          ∷ (d.port == 0, "port must be between 1 and 65535")
          ∷ (not (d.version =s= "2c"), "only version 2c is supported")
          ∷ [])
        >> validate_env_name d.community_env
        >> refuse_if (
            (
              not (elem (to_lower (trim_space d.vendor)) ("" ∷ "core" ∷ "cisco" ∷ "arista" ∷ [])),
              "vendor must be empty, core, cisco, or arista",
            )
            ∷ (elem d.id seen_ids, "duplicate device id")
            ∷ (elem (canonical_host std d.host) seen_hosts, "duplicate device host")
            ∷ (
              is_negative d.poll_interval || exceeds d.poll_interval max_poll_interval,
              "poll_interval out of range",
            )
            ∷ (is_negative d.timeout || exceeds d.timeout max_snmp_timeout, "timeout out of range")
            ∷ (is_negative d.retries || exceeds d.retries max_retries, "retries out of range")
            ∷ (optional_out_of_range d.temperature_warning_c, "temperature_warning_c out of range")
            ∷ [])
        >> validate_interface_filters std d.interface_filters

    unfoldable pub check_devices : List String → List String → List (DeviceConfig F) → Check
    check_devices seen_ids seen_hosts [] = ok tt
    check_devices seen_ids seen_hosts (d ∷ ds) =
        check_device seen_ids seen_hosts d
        >> check_devices (d.id ∷ seen_ids) (canonical_host std d.host ∷ seen_hosts) ds

    unfoldable pub validate_device_source : List (DeviceConfig F) → Check
    validate_device_source = check_devices [] []

    unfoldable pub validate_managed_overlay : DeviceConfig F → Check
    validate_managed_overlay d =
        refuse_if (
          (trim_space d.id =s= "", "id is required")
          ∷ (not (matches_identifier d.id), "id has invalid format")
          ∷ (optional_out_of_range d.temperature_warning_c, "temperature_warning_c out of range")
          ∷ [])
        >> validate_interface_filters std d.interface_filters

    unfoldable pub timeout_invalid : String → Bool
    timeout_invalid timeout =
        if trim_space timeout =s= ""
        then false
        else elim (std.parse_duration (trim_space timeout)) [ none ↦ true | some _ ↦ false ]

    unfoldable pub validate_managed_discovery_policy : ManagedDiscoveryPolicy F → Check
    validate_managed_discovery_policy p =
        check_all
          (λ cidr.
            refuse_if ((not (std.parse_cidr (trim_space cidr)), "managed cidr is invalid") ∷ []))
          p.allowed_cidrs
        >> (if p.community_env =s= "" then ok tt else validate_env_name p.community_env)
        >> refuse_if (
            (optional_not_positive p.max_targets, "managed max_targets must be positive")
            ∷ (optional_not_positive p.max_workers, "managed max_workers must be positive")
            ∷ (optional_negative p.retries, "managed retries must not be negative")
            ∷ (timeout_invalid p.timeout, "managed timeout is invalid")
            ∷ [])

    -- The loop that checks the overlays and parts them from the devices to append.
    unfoldable pub part_managed :
        List String → List (DeviceConfig F) → Result (List (DeviceConfig F) × List (DeviceConfig F))
    part_managed static_ids [] = ok ([], [])
    part_managed static_ids (d ∷ ds) =
        let rest = part_managed static_ids ds in
        if elem d.id static_ids
        then validate_managed_overlay d >> (rest >>= λ p. ok (d ∷ p.0, p.1))
        else rest >>= λ p. ok (p.0, d ∷ p.1)

    unfoldable pub validate_managed_document : ManagedInventory F → List (DeviceConfig F) → Check
    validate_managed_document managed static =
        refuse_if (
          (
            optional_out_of_range managed.temperature_warning_c,
            "managed temperature_warning_c out of range",
          )
          ∷ (
            optional_le_zero managed.discovery.max_probes_per_second,
            "managed max_probes_per_second must be positive",
          )
          ∷ (
            optional_not_positive managed.discovery.probe_burst,
            "managed probe_burst must be positive",
          )
          ∷ [])
        >> validate_managed_discovery_policy managed.discovery
        >> (part_managed (ids_of static) managed.devices >>= λ p.
            validate_device_source (map device_defaults p.1) >> overlay_duplicate [] p.0)
