-- ===== src/Config/Inventory.antt =====
-- The inventory of services/snmp-collector/internal/config/config.go: the merge of static and
-- managed devices, and the checks that no two devices share an id or a host.
use monitoring_project.Prelude.{
  ℕ, zero, suc, String, Bool, true, false, ◌||◌, Option, none, some, List, [], ◌∷◌, ◌++◌, ◌=s=◌,
  if◌then◌else◌, elem, Map, lookup, insert, trim_space, to_lower,
}
use monitoring_project.Prelude.Int.{pos}
use monitoring_project.Prelude.Results.{ok, error, Check}
use monitoring_project.Config.Types.{Std, DeviceConfig, InterfaceFilterConfig}
use monitoring_project.Config.Dependencies.{validate_dependencies}

-- `strings.TrimSuffix(s, ".")`
unfoldable pub trim_dot : String → String
trim_dot String.[] = String.[]
trim_dot (String.◌∷◌ c String.[]) = if String.◌∷◌ c String.[] =s= "." then "" else String.◌∷◌ c ""
trim_dot (String.◌∷◌ c (String.◌∷◌ d s)) = String.◌∷◌ c (trim_dot (String.◌∷◌ d s))

unfoldable pub canonical_host : Std → String → String
canonical_host std host =
    let trimmed = trim_space (trim_dot host) in
    elim (std.parse_ip trimmed) [ some ip ↦ ip | none ↦ to_lower trimmed ]

-- `len(xs) > 0`
abbrev is_nonempty {ℓ} : {A : Type ℓ} → List A → Bool
is_nonempty [] = false
is_nonempty (x ∷ xs) = true

unfoldable pub has_interface_filter_config : InterfaceFilterConfig → Bool
has_interface_filter_config filters =
    is_nonempty filters.rules
    || is_nonempty filters.include_if_indexes
    || is_nonempty filters.exclude_if_indexes
    || is_nonempty filters.include_name_regex
    || is_nonempty filters.exclude_name_regex
    || is_nonempty filters.include_alias_regex
    || is_nonempty filters.exclude_alias_regex
    || is_nonempty filters.include_types
    || is_nonempty filters.exclude_types
    || is_nonempty filters.include_admin_statuses
    || is_nonempty filters.exclude_admin_statuses
    || is_nonempty filters.include_oper_statuses
    || is_nonempty filters.exclude_oper_statuses

-- `append([]string(nil), xs...)`: nil where `xs` is empty.
unfoldable pub clone : List String → Option (List String)
clone [] = none
clone (x ∷ xs) = some (x ∷ xs)

-- `if overlay.F != nil { base.F = clone }`
abbrev pub or_else : {A : Type 0} → Option A → Option A → Option A
or_else none base = base
or_else (some a) base = some a

unfoldable pub overlaid_upstreams :
    Option (List String) → Option (List String) → Option (List String)
overlaid_upstreams none base = base
overlaid_upstreams (some ups) base = clone ups

module _ {F : Type 0} where
  unfoldable pub validate_uniqueness :
      Std → List String → List String → List (DeviceConfig F) → Check
  validate_uniqueness std seen_ids seen_hosts [] = ok tt
  validate_uniqueness std seen_ids seen_hosts (d ∷ ds) =
      let host = canonical_host std d.host in
      if elem d.id seen_ids
      then error "duplicate device id"
      else if elem host seen_hosts
      then error "duplicate device host"
      else validate_uniqueness std (d.id ∷ seen_ids) (host ∷ seen_hosts) ds

  unfoldable pub validate_inventory_uniqueness : Std → List (DeviceConfig F) → Check
  validate_inventory_uniqueness std = validate_uniqueness std [] []

  -- `cloneInterfaceFilters` copies every list: a clone holds the same values.
  unfoldable pub apply_device_overlay : DeviceConfig F → DeviceConfig F → DeviceConfig F
  apply_device_overlay base overlay = record base {
    temperature_warning_c = or_else overlay.temperature_warning_c base.temperature_warning_c;
    upstream_device_ids = overlaid_upstreams overlay.upstream_device_ids base.upstream_device_ids;
    role = if trim_space overlay.role =s= "" then base.role else trim_space overlay.role;
    alerts_enabled = or_else overlay.alerts_enabled base.alerts_enabled;
    interface_filters =
        if has_interface_filter_config overlay.interface_filters
        then overlay.interface_filters
        else base.interface_filters;
  }

  -- `indexByID`, where the last static device with an id counts.
  unfoldable pub index_static : ℕ → Map ℕ → List (DeviceConfig F) → Map ℕ
  index_static n m [] = m
  index_static n m (d ∷ ds) = index_static (suc n) (insert d.id n m) ds

  -- `merged[idx] = applyDeviceOverlay(merged[idx], device)`
  unfoldable pub overlay_at : ℕ → DeviceConfig F → List (DeviceConfig F) → List (DeviceConfig F)
  overlay_at n o [] = []
  overlay_at zero o (d ∷ ds) = apply_device_overlay d o ∷ ds
  overlay_at (suc n) o (d ∷ ds) = d ∷ overlay_at n o ds

  -- The second loop, with the devices merged so far.
  unfoldable pub merge_managed :
      Map ℕ → List (DeviceConfig F) → List (DeviceConfig F) → List (DeviceConfig F)
  merge_managed index merged [] = merged
  merge_managed index merged (d ∷ ds) = elim (lookup d.id index) [
    | some n ↦ merge_managed index (overlay_at n d merged) ds
    | none ↦ merge_managed index (merged ++ (d ∷ [])) ds
  ]

  unfoldable pub merge_inventories :
      List (DeviceConfig F) → List (DeviceConfig F) → List (DeviceConfig F)
  merge_inventories static managed = merge_managed (index_static 0 [] static) static managed

  unfoldable pub has_device : String → List (DeviceConfig F) → Bool
  has_device id [] = false
  has_device id (d ∷ ds) = d.id =s= id || has_device id ds

  -- The loop that sets the upstreams of the first managed device with the id.
  unfoldable pub set_upstreams :
      String → Option (List String) → List (DeviceConfig F) → List (DeviceConfig F)
  set_upstreams id ups [] = []
  set_upstreams id ups (d ∷ ds) =
      let rest = set_upstreams id ups ds in
      if d.id =s= id then record d { upstream_device_ids = ups } ∷ ds else d ∷ rest

  -- `DeviceConfig{ID: deviceID, UpstreamDeviceIDs: upstreams}`
  abbrev pub bare_device : String → Option (List String) → DeviceConfig F
  bare_device id ups = record {
    id = id;
    host = "";
    port = 0;
    community_env = "";
    version = "";
    vendor = "";
    poll_interval = pos 0;
    timeout = pos 0;
    retries = pos 0;
    temperature_warning_c = none;
    role = "";
    upstream_device_ids = ups;
    alerts_enabled = none;
    interface_filters = record {
      rules = [];
      include_if_indexes = [];
      exclude_if_indexes = [];
      include_name_regex = [];
      exclude_name_regex = [];
      include_alias_regex = [];
      exclude_alias_regex = [];
      include_types = [];
      exclude_types = [];
      include_admin_statuses = [];
      exclude_admin_statuses = [];
      include_oper_statuses = [];
      exclude_oper_statuses = [];
    };
  }

  -- The managed devices after the mutation. `upstreams` comes from the caller as a slice that may
  -- be nil; a device that is there already gets a clone of it.
  unfoldable pub mutated :
      String → Option (List String) → List (DeviceConfig F) → List (DeviceConfig F)
  mutated id ups managed =
      if has_device id managed
      then set_upstreams id (elim ups [ none ↦ none | some us ↦ clone us ]) managed
      else managed ++ (bare_device id ups ∷ [])

  -- `ValidatePendingDependencyMutation` once both inventories are read.
  unfoldable pub check_mutation :
      String → Option (List String) → List (DeviceConfig F) → List (DeviceConfig F) → Option Check
  check_mutation id ups static managed =
      let merged = merge_inventories static (mutated id ups managed) in
      if has_device id merged
      then validate_dependencies merged
      else some (error "device_id not found in active inventory")
