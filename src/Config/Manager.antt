-- ===== src/Config/Manager.antt =====
-- The manager of the active configuration, services/snmp-collector/internal/config/snapshot.go, and
-- the check of a change of dependencies before it is written (config.go). The lock of the manager
-- makes a reload one step.
use monitoring_project.Prelude.{
  String, Bool, true, not, ◌&&◌, Option, none, some, List, [], ◌∷◌, ◌=s=◌, ◌==◌, if◌then◌else◌,
  trim_space, map,
}
use monitoring_project.Prelude.Int.{same_int}
use monitoring_project.Prelude.Results.{Result, ok, error, Check, ◌>>=◌, ◌>>◌, refuse_if}
use monitoring_project.Config.Types.{
  Std, Floats, Config, DeviceConfig, ManagedInventory, PublisherConfig, BufferConfig, MqttConfig,
  AdminConfig,
}
use monitoring_project.Config.Inventory.{check_mutation}
use monitoring_project.Config.Devices.{device_defaults}
use monitoring_project.Config.Load.{Files, load, read_managed, empty_inventory}

-- `==` and `reflect.DeepEqual` of the sections that a reload may not change.
unfoldable pub same_admin : AdminConfig → AdminConfig → Bool
same_admin a b = a.listen =s= b.listen && a.control_socket =s= b.control_socket

unfoldable pub same_publisher : PublisherConfig → PublisherConfig → Bool
same_publisher a b =
    a.mode =s= b.mode && same_int a.timeout b.timeout && a.telemetry_version =s= b.telemetry_version

unfoldable pub same_buffer : BufferConfig → BufferConfig → Bool
same_buffer a b =
    a.path =s= b.path
    && same_int a.max_entries b.max_entries
    && same_int a.busy_timeout_ms b.busy_timeout_ms
    && same_int a.batch_size b.batch_size
    && same_int a.idle_backoff b.idle_backoff

unfoldable pub same_mqtt : MqttConfig → MqttConfig → Bool
same_mqtt a b =
    a.broker =s= b.broker
    && a.client_id =s= b.client_id
    && a.username =s= b.username
    && a.password_env =s= b.password_env
    && a.qos == b.qos
    && a.tls.ca_file =s= b.tls.ca_file
    && a.tls.cert_file =s= b.tls.cert_file
    && a.tls.key_file =s= b.tls.key_file
    && same_int a.reconnect.initial b.reconnect.initial
    && same_int a.reconnect.max b.reconnect.max

pub record Manager (F : Type 0) : Type 0 where
  pub path : String
  pub current : Config F

module _ {F : Type 0} where
  unfoldable pub validate_reload : Config F → Config F → Check
  validate_reload current next = refuse_if (
      (not (current.site_id =s= next.site_id), "site_id cannot change during reload")
      ∷ (
        not (current.collector.id =s= next.collector.id),
        "collector.id cannot change during reload",
      )
      ∷ (not (same_admin current.admin next.admin), "admin settings cannot change during reload")
      ∷ (
        not (same_publisher current.publisher next.publisher),
        "publisher settings cannot change during reload",
      )
      ∷ (
        not (same_buffer current.buffer next.buffer),
        "buffer settings cannot change during reload",
      )
      ∷ (not (same_mqtt current.mqtt next.mqtt), "mqtt settings cannot change during reload")
      ∷ [])

  unfoldable pub new_manager : String → Option (Config F) → Result (Manager F)
  new_manager path none = error "initial configuration is required"
  new_manager path (some initial) =
      if path =s= ""
      then error "configuration path is required"
      else ok (record { path = path; current = initial })

  -- The result of `load` against the active configuration: the error and the manager after it.
  unfoldable pub activate : Result (Config F) → Manager F → Check × Manager F
  activate (error e) m = (error e, m)
  activate (ok next) m = elim (validate_reload m.current next) [
    | error e ↦ (error e, m)
    | ok _ ↦ (ok tt, record m { current = next })
  ]

  unfoldable pub reload : Floats F → Std → Files F → Manager F → Option (Check × Manager F)
  reload fl std files m = elim (load fl std files true m.path) [
    | none ↦ none
    | some r ↦ some (activate r m)
  ]

  unfoldable pub managed_inventory_path : Files F → Config F → String
  managed_inventory_path files c =
      if trim_space c.managed_path =s= ""
      then ""
      else if files.is_abs c.managed_path
      then files.clean c.managed_path
      else files.join_dir c.config_path c.managed_path

  unfoldable pub read_managed_document : Files F → String → Result (ManagedInventory F)
  read_managed_document files path =
      if trim_space path =s= "" then ok empty_inventory else read_managed files (files.clean path)

  unfoldable pub read_static_devices : Files F → String → Result (List (DeviceConfig F))
  read_static_devices files config_path = files.read_file config_path >>= λ data_.
      files.decode_devices data_ >>= λ devices. ok (map device_defaults devices)

  -- Both inventories, static and managed, that a change of dependencies is checked against.
  unfoldable pub read_inventories :
      Files F → Config F → Result (List (DeviceConfig F) × List (DeviceConfig F))
  read_inventories files c =
      (if trim_space c.config_path =s= "" then error "configuration path is required" else ok tt)
      >> (read_static_devices files c.config_path >>= λ static.
          read_managed_document files (managed_inventory_path files c) >>= λ managed.
          ok (static, managed.devices))

  unfoldable pub validate_pending_dependency_mutation :
      Files F → Option (Config F) → String → Option (List String) → Option Check
  validate_pending_dependency_mutation files none id ups = some (error "configuration is required")
  validate_pending_dependency_mutation files (some c) id ups = elim (read_inventories files c) [
    | error e ↦ some (error e)
    | ok p ↦ check_mutation id ups p.0 p.1
  ]
