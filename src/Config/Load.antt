-- ===== src/Config/Load.antt =====
-- `load` of services/snmp-collector/internal/config/config.go and the manager of snapshot.go beside
-- it. The file system, the paths and the YAML decoder are parameters. The lock of the manager makes
-- a reload one step.
use monitoring_project.Prelude.{
  ℕ, ◌/◌, ◌%◌, String, Bool, true, false, not, ◌&&◌, ◌||◌, Option, none, some, List, [], ◌∷◌, ◌=s=◌,
  ◌==◌, if◌then◌else◌, elem, trim_space,
}
use monitoring_project.Prelude.Results.{Result, ok, error, Check, ◌>>=◌, ◌>>◌, refuse_if}
use monitoring_project.Config.Types.{Std, Floats, Config, DeviceConfig, ManagedInventory}
use monitoring_project.Config.Inventory.{merge_inventories}
use monitoring_project.Config.Devices.{
  device_defaults, ids_of, validate_device_source, validate_managed_document,
}
use monitoring_project.Config.Defaults.{apply_defaults, apply_env_overrides, apply_managed_policy}
use monitoring_project.Config.Validate.{validate, validate_runtime_secrets}

-- What `os.Stat` says: the file does not exist, another error, or whether it is a regular file and
-- its permission bits.
pub data Stat : Type 0 where
  missing : Stat
  failed : String → Stat
  found : Bool → ℕ → Stat

pub record Files (F : Type 0) : Type 0 where
  pub stat : String → Stat
  pub read_file : String → Result String
  pub decode_config : String → Result (Config F)
  pub decode_managed : String → Result (ManagedInventory F)
  pub decode_devices : String → Result (List (DeviceConfig F))
  pub abs : String → Result String
  pub is_abs : String → Bool
  pub join_dir : String → String → String  -- `filepath.Join(filepath.Dir(a), b)`
  pub clean : String → String

-- `perm&0o022 != 0` and `perm&0o077 != 0`.
unfoldable pub group_or_world_writable : ℕ → Bool
group_or_world_writable perm = not ((perm / 16) % 2 == 0) || not ((perm / 2) % 2 == 0)

unfoldable pub group_or_world_bits : ℕ → Bool
group_or_world_bits perm = not (perm % 64 == 0)

unfoldable pub check_file : Bool → Stat → Check
check_file managed missing = error "file does not exist"
check_file managed (failed e) = error e
check_file managed (found regular perm) = refuse_if (
    (not regular, "must be a regular file")
    ∷ (group_or_world_writable perm, "must not be group/world writable")
    ∷ (managed && group_or_world_bits perm, "managed inventory must be owner-only (0600)")
    ∷ [])

unfoldable pub is_missing : Stat → Bool
is_missing missing = true
is_missing (failed e) = false
is_missing (found regular perm) = false

abbrev pub empty_inventory : {F : Type 0} → ManagedInventory F
empty_inventory = record {
  temperature_warning_c = none;
  discovery = record {
    allowed_cidrs = [];
    community_env = "";
    max_targets = none;
    max_workers = none;
    retries = none;
    timeout = "";
    max_probes_per_second = none;
    probe_burst = none;
  };
  devices = [];
}

module _ {F : Type 0} where
  unfoldable pub read_managed : Files F → String → Result (ManagedInventory F)
  read_managed files path =
      if is_missing (files.stat path)
      then ok empty_inventory
      else check_file true (files.stat path)
        >> (files.read_file path >>= λ data_. files.decode_managed data_)

  unfoldable pub load_managed_document : Files F → String → String → Result (ManagedInventory F)
  load_managed_document files path config_path =
      if trim_space path =s= ""
      then ok empty_inventory
      else read_managed files
          (files.clean (if files.is_abs path then path else files.join_dir config_path path))

  -- The loop that gives defaults to the managed devices that no static device has the id of.
  unfoldable pub default_appends : List String → List (DeviceConfig F) → List (DeviceConfig F)
  default_appends static_ids [] = []
  default_appends static_ids (d ∷ ds) =
      (if elem d.id static_ids then d else device_defaults d) ∷ default_appends static_ids ds

  -- `load` up to the call of `validate`.
  unfoldable pub prepare_config : Floats F → Std → Files F → String → Result (Config F)
  prepare_config fl std files path =
      (if trim_space path =s= "" then error "config path is required" else ok tt)
      >> check_file false (files.stat path)
      >> (files.read_file path >>= λ data_. files.decode_config data_ >>= λ decoded.
          files.abs path >>= λ config_path.
          let c =
            apply_env_overrides std
              (apply_defaults fl (record decoded { config_path = config_path })) in
          let static = c.devices in
          validate_device_source fl std static
          >> (load_managed_document files c.managed_path config_path >>= λ managed.
              validate_managed_document fl std managed static
              >> (let ds = default_appends (ids_of static) managed.devices in
                  ok (
                    apply_managed_policy fl std (record managed { devices = ds })
                      (record c { devices = merge_inventories static ds })))))

  unfoldable pub load : Floats F → Std → Files F → Bool → String → Option (Result (Config F))
  load fl std files require_runtime_secrets path = elim (prepare_config fl std files path) [
    | error e ↦ some (error e)
    | ok c ↦ elim (validate fl std c) [
      | none ↦ none
      | some (error e) ↦ some (error e)
      | some (ok _) ↦
          some
            ((if require_runtime_secrets then validate_runtime_secrets fl std c else ok tt) >> ok c)
    ]
  ]
