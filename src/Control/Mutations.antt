-- ===== src/Control/Mutations.antt =====
-- The mutations of the managed inventory, services/snmp-collector/internal/control/handlers.go, and
-- the checks of `WriteManagedDocument` (internal/config/config.go). The disk is a parameter: what it
-- holds as files, and the atomic replacement of the managed file.
use monitoring_project.Prelude.{
  String, Bool, true, false, not, ◌&&◌, Option, none, some, List, [], ◌∷◌, ◌++◌, ◌=s=◌,
  if◌then◌else◌, Map, lookup, trim_space, map,
}
use monitoring_project.Prelude.Results.{Result, ok, error, Check, ◌>>=◌, ◌>>◌, refuse_if}
use monitoring_project.Config.Types.{Std, Floats, Config, DeviceConfig, ManagedInventory}
use monitoring_project.Config.Inventory.{has_device, bare_device}
use monitoring_project.Config.Devices.{
  device_defaults, validate_device_source, validate_managed_overlay, optional_out_of_range,
  optional_le_zero, optional_not_positive,
}
use monitoring_project.Config.Load.{Files}
use monitoring_project.Config.Manager.{
  managed_inventory_path, read_managed_document, validate_pending_dependency_mutation,
}
use monitoring_project.Control.Pending.{validation_failed, Reply, done, refused, refuse}

-- The values of a request's parameters. An element of an array that is no string is `none`.
pub data Json (F : Type 0) : Type 0 where
  null : Json F
  text : String → Json F
  number : F → Json F
  boolean : Bool → Json F
  array : List (Option String) → Json F
  other : Json F

abbrev pub Params : Type 0 → Type 0
Params F = Map (Json F)

pub record Disk (F D : Type 0) : Type 0 where
  pub files : D → Files F
  pub replace : String → ManagedInventory F → D → Check × D

-- The loop over an array; `none` is the error.
unfoldable pub strings_of : List (Option String) → Option (List String)
strings_of [] = some []
strings_of (none ∷ rest) = none
strings_of (some s ∷ rest) = elim (strings_of rest) [ none ↦ none | some ss ↦ some (s ∷ ss) ]

abbrev is_none : {A : Type 0} → Option A → Bool
is_none none = true
is_none (some _) = false

module _ {F : Type 0} where
  -- `id, _ := v.(string)`, of a value that may be missing.
  unfoldable pub string_of : Option (Json F) → String
  string_of (some (text s)) = s
  string_of _ = ""

  unfoldable pub as_float : Option (Json F) → Option F
  as_float (some (number n)) = some n
  as_float _ = none

  unfoldable pub as_string_slice : Option (Json F) → Option (List String)
  as_string_slice none = some []
  as_string_slice (some null) = some []
  as_string_slice (some (array items)) = strings_of items
  as_string_slice _ = none

  unfoldable pub as_bool : Option (Json F) → Option Bool
  as_bool (some (boolean b)) = some b
  as_bool _ = none

  unfoldable pub is_null : Option (Json F) → Bool
  is_null none = true
  is_null (some null) = true
  is_null _ = false

  unfoldable pub is_given : Option (Json F) → Bool
  is_given none = false
  is_given (some _) = true

  -- The three checks of the parameters. They give the message of the error.
  unfoldable pub validate_threshold_params : Params F → Check
  validate_threshold_params params =
      let temperature = lookup "temperature_warning_c" params in
      let device = lookup "device_id" params in
      refuse_if (
        (
          is_given temperature && is_none (as_float temperature),
          "temperature_warning_c must be a number",
        )
        ∷ (
          not (is_null device) && string_of device =s= "",
          "device_id must be a non-empty string when set",
        )
        ∷ (is_null temperature && is_null device, "temperature_warning_c is required")
        ∷ (is_null temperature, "temperature_warning_c is required")
        ∷ [])

  unfoldable pub validate_dependency_params : Params F → Check
  validate_dependency_params params =
      let ups = lookup "upstream_device_ids" params in
      refuse_if (
        (string_of (lookup "device_id" params) =s= "", "device_id is required")
        ∷ (not (is_given ups), "upstream_device_ids is required")
        ∷ (is_none (as_string_slice ups), "upstream_device_ids must be a string array")
        ∷ [])

  unfoldable pub validate_alerting_params : Params F → Check
  validate_alerting_params params =
      let enabled = lookup "alerts_enabled" params in
      refuse_if (
        (string_of (lookup "device_id" params) =s= "", "device_id is required")
        ∷ (is_null enabled, "alerts_enabled is required")
        ∷ (is_none (as_bool enabled), "alerts_enabled must be a boolean")
        ∷ [])

  -- The loop over the managed devices: the first one with the id changes.
  unfoldable pub update_first :
      String → (DeviceConfig F → DeviceConfig F) → List (DeviceConfig F) → List (DeviceConfig F)
  update_first id change [] = []
  update_first id change (d ∷ ds) =
      let rest = update_first id change ds in if d.id =s= id then change d ∷ ds else d ∷ rest

  -- Where there is none, a device with the id and the change is appended.
  unfoldable pub upsert :
      String → (DeviceConfig F → DeviceConfig F) → ManagedInventory F → ManagedInventory F
  upsert id change doc = record doc {
    devices =
        if has_device id doc.devices
        then update_first id change doc.devices
        else doc.devices ++ (change (bare_device id none) ∷ []);
  }

  module _ (fl : Floats F) (std : Std) where
    -- The loop that checks the overlays and collects the whole devices.
    unfoldable pub part_written : List (DeviceConfig F) → Result (List (DeviceConfig F))
    part_written [] = ok []
    part_written (d ∷ ds) =
        let rest = part_written ds in
        if trim_space d.host =s= ""
        then validate_managed_overlay fl std d >> rest
        else rest >>= λ whole. ok (d ∷ whole)

    unfoldable pub check_written : ManagedInventory F → Check
    check_written doc =
        (part_written doc.devices >>= λ whole. validate_device_source fl std whole)
        >> refuse_if (
            (
              optional_out_of_range fl doc.temperature_warning_c,
              "managed temperature_warning_c out of range",
            )
            ∷ (
              optional_le_zero fl doc.discovery.max_probes_per_second,
              "managed max_probes_per_second must be positive",
            )
            ∷ (
              optional_not_positive doc.discovery.probe_burst,
              "managed probe_burst must be positive",
            )
            ∷ [])

    module _ {D : Type 0} (disk : Disk F D) where
      unfoldable pub write_managed_document : String → ManagedInventory F → D → Check × D
      write_managed_document path doc d =
          let normalized = record doc { devices = map device_defaults doc.devices } in
          if trim_space path =s= ""
          then (error "managed inventory path is required", d)
          else elim (check_written normalized) [
            | error e ↦ (error e, d)
            | ok _ ↦ disk.replace path normalized d
          ]

      unfoldable pub reply_of : Check × D → Reply Unit × D
      reply_of (ok _, d) = (done tt, d)
      reply_of (error e, d) = (refuse validation_failed e, d)

      -- Under the lock of mutations: read, change, write.
      unfoldable pub rewrite :
          String → (ManagedInventory F → ManagedInventory F) → D → Reply Unit × D
      rewrite path change d = elim (read_managed_document (disk.files d) path) [
        | error e ↦ (refuse validation_failed e, d)
        | ok doc ↦ reply_of (write_managed_document path (change doc) d)
      ]

      -- `inventory.managed_path` of the active configuration, and the check that it is set.
      unfoldable pub with_path :
          Config F → (String → D → Option (Reply Unit × D)) → D → Option (Reply Unit × D)
      with_path c act d =
          let path = managed_inventory_path (disk.files d) c in
          if path =s= ""
          then some (refuse validation_failed "inventory.managed_path is not configured", d)
          else act path d

      unfoldable pub apply_threshold_mutation : Config F → Params F → D → Option (Reply Unit × D)
      apply_threshold_mutation c params = with_path c (λ path d.
          let id = string_of (lookup "device_id" params) in
          elim (as_float (lookup "temperature_warning_c" params)) [
            | none ↦ some (refuse validation_failed "expected number", d)
            | some value ↦
                if not (id =s= "") && not (has_device id c.devices)
                then some (refuse validation_failed "device_id not found in active inventory", d)
                else if id =s= ""
                then some
                    (rewrite path (λ doc. record doc { temperature_warning_c = some value }) d)
                else some (
                    rewrite path (upsert id (λ v. record v { temperature_warning_c = some value }))
                      d)
          ])

      -- `validateDependencyTargets` runs before the lock is taken.
      unfoldable pub validate_dependency_targets :
          Config F → String → List String → D → Option (Reply Unit)
      validate_dependency_targets c id ups d =
          if not (has_device id c.devices)
          then some (refuse validation_failed "device_id not found in active inventory")
          else elim (validate_pending_dependency_mutation (disk.files d) (some c) id (some ups)) [
            | none ↦ none
            | some (error e) ↦ some (refuse validation_failed e)
            | some (ok _) ↦ some (done tt)
          ]

      unfoldable pub write_dependencies : String → String → List String → D → Reply Unit × D
      write_dependencies path id ups =
          rewrite path (upsert id (λ v. record v { upstream_device_ids = some ups }))

      unfoldable pub apply_dependency_mutation : Config F → Params F → D → Option (Reply Unit × D)
      apply_dependency_mutation c params = with_path c (λ path d.
          let id = string_of (lookup "device_id" params) in
          elim (as_string_slice (lookup "upstream_device_ids" params)) [
            | none ↦ some (refuse validation_failed "expected string array", d)
            | some ups ↦ elim (validate_dependency_targets c id ups d) [
              | none ↦ none
              | some (refused e) ↦ some (refused e, d)
              | some (done _) ↦ some (write_dependencies path id ups d)
            ]
          ])

      unfoldable pub apply_alerting_mutation : Config F → Params F → D → Option (Reply Unit × D)
      apply_alerting_mutation c params = with_path c (λ path d.
          let id = string_of (lookup "device_id" params) in
          elim (as_bool (lookup "alerts_enabled" params)) [
            | none ↦ some (refuse validation_failed "alerts_enabled must be a boolean", d)
            | some enabled ↦
                if not (has_device id c.devices)
                then some (refuse validation_failed "device_id not found in active inventory", d)
                else some
                    (rewrite path (upsert id (λ v. record v { alerts_enabled = some enabled })) d)
          ])
