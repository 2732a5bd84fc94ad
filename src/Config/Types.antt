-- ===== src/Config/Types.antt =====
-- The types of services/snmp-collector/internal/config/config.go, and what its checks use of other
-- packages. `float64` is a type `F` with the tests that the code makes; a duration is its number of
-- nanoseconds. A slice is a list, but for `UpstreamDeviceIDs`, which the merge tests against nil:
-- there `none` is nil.
use monitoring_project.Prelude.{ℕ, String, Bool, List, [], Option, none, some, ◌||◌}
use monitoring_project.Prelude.Int.{ℤ}

-- The constants and the tests on `float64`.
pub record Floats (F : Type 0) : Type 0 where
  pub lt : F → F → Bool  -- a < b
  pub le : F → F → Bool  -- a <= b
  pub eq : F → F → Bool  -- a == b
  pub is_nan : F → Bool
  pub is_inf : F → Bool
  pub zero_value : F
  pub five : F
  pub min_temperature_celsius : F  -- -100
  pub max_temperature_celsius : F  -- 250
  pub default_temperature_warning : F  -- 65
  pub max_discovery_rate : F  -- 100000

-- The functions of the standard library that the checks call.
pub record Std : Type 0 where
  pub parse_ip : String → Option String  -- `net.ParseIP(s)`, and its `String()` where it is not nil
  pub parse_cidr : String → Bool  -- `net.ParseCIDR` gives no error
  pub compiles : String → Bool  -- `regexp.Compile` gives no error
  pub atoi : String → Option ℤ  -- `strconv.Atoi`
  pub parse_duration : String → Option ℤ  -- `time.ParseDuration`
  pub parse_url : String → Option (String × String)  -- `url.Parse`: scheme and `Hostname()`
  pub getenv : String → String  -- `os.Getenv`

pub record InterfaceFilterRule : Type 0 where
  pub action : String
  pub if_index : Option ℤ
  pub name_regex : String
  pub alias_regex : String
  pub if_type : String
  pub admin_status : String
  pub oper_status : String

pub record InterfaceFilterConfig : Type 0 where
  pub rules : List InterfaceFilterRule
  pub include_if_indexes : List ℤ
  pub exclude_if_indexes : List ℤ
  pub include_name_regex : List String
  pub exclude_name_regex : List String
  pub include_alias_regex : List String
  pub exclude_alias_regex : List String
  pub include_types : List String
  pub exclude_types : List String
  pub include_admin_statuses : List String
  pub exclude_admin_statuses : List String
  pub include_oper_statuses : List String
  pub exclude_oper_statuses : List String

pub record DeviceConfig (F : Type 0) : Type 0 where
  pub id : String
  pub host : String
  pub port : ℕ
  pub community_env : String
  pub version : String
  pub vendor : String
  pub poll_interval : ℤ
  pub timeout : ℤ
  pub retries : ℤ
  pub temperature_warning_c : Option F
  pub role : String
  pub upstream_device_ids : Option (List String)
  pub alerts_enabled : Option Bool
  pub interface_filters : InterfaceFilterConfig

-- `range` over a slice that may be nil.
unfoldable pub upstreams : {F : Type 0} → DeviceConfig F → List String
upstreams d = elim (d.upstream_device_ids) [ none ↦ [] | some us ↦ us ]

pub record CollectorConfig : Type 0 where
  pub id : String
  pub heartbeat_interval : ℤ

pub record HealthConfig (F : Type 0) : Type 0 where
  pub temperature_warning_c : F
  pub failure_threshold : ℤ

pub record DiscoveryConfig (F : Type 0) : Type 0 where
  pub allowed_cidrs : List String
  pub community_env : String
  pub max_targets : ℤ
  pub timeout : ℤ
  pub retries : ℤ
  pub max_workers : ℤ
  pub max_probes_per_second : F
  pub probe_burst : ℤ

pub record PublisherConfig : Type 0 where
  pub mode : String
  pub timeout : ℤ
  pub telemetry_version : String

pub record BufferConfig : Type 0 where
  pub path : String
  pub max_entries : ℤ
  pub busy_timeout_ms : ℤ
  pub batch_size : ℤ
  pub idle_backoff : ℤ

pub record MqttTlsConfig : Type 0 where
  pub ca_file : String
  pub cert_file : String
  pub key_file : String

pub record ReconnectConfig : Type 0 where
  pub initial : ℤ
  pub max : ℤ

pub record MqttConfig : Type 0 where
  pub broker : String
  pub client_id : String
  pub username : String
  pub password_env : String
  pub qos : ℕ
  pub tls : MqttTlsConfig
  pub reconnect : ReconnectConfig

pub record AdminConfig : Type 0 where
  pub listen : String
  pub control_socket : String

pub record SnmpConfig : Type 0 where
  pub timeout : ℤ
  pub retries : ℤ

-- `managed_path` is the one field of `InventoryConfig`.
pub record Config (F : Type 0) : Type 0 where
  pub site_id : String
  pub poll_interval : ℤ
  pub max_workers : ℤ
  pub collector : CollectorConfig
  pub managed_path : String
  pub health : HealthConfig F
  pub discovery : DiscoveryConfig F
  pub admin : AdminConfig
  pub snmp : SnmpConfig
  pub publisher : PublisherConfig
  pub buffer : BufferConfig
  pub mqtt : MqttConfig
  pub devices : List (DeviceConfig F)
  pub config_path : String

pub record ManagedDiscoveryPolicy (F : Type 0) : Type 0 where
  pub allowed_cidrs : List String
  pub community_env : String
  pub max_targets : Option ℤ
  pub max_workers : Option ℤ
  pub retries : Option ℤ
  pub timeout : String
  pub max_probes_per_second : Option F
  pub probe_burst : Option ℤ

-- `temperature_warning_c` is the one field of `ManagedHealthPolicy`.
pub record ManagedInventory (F : Type 0) : Type 0 where
  pub temperature_warning_c : Option F
  pub discovery : ManagedDiscoveryPolicy F
  pub devices : List (DeviceConfig F)

-- Nanoseconds in a second.
abbrev pub second : ℕ
second = 1000000000

-- `v < minTemperatureCelsius || v > maxTemperatureCelsius`
unfoldable pub temperature_out_of_range : {F : Type 0} → Floats F → F → Bool
temperature_out_of_range fl v =
    fl.lt v fl.min_temperature_celsius || fl.lt fl.max_temperature_celsius v
