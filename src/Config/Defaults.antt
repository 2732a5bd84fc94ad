-- ===== src/Config/Defaults.antt =====
-- The defaults of services/snmp-collector/internal/config/config.go, the overrides of the
-- environment and the policy of the managed inventory.
use monitoring_project.Prelude.{
  ℕ, ◌*◌, String, Bool, not, ◌&&◌, Option, none, some, [], ◌∷◌, ◌=s=◌, ◌==◌, if◌then◌else◌, concat,
  trim_space, to_lower, elem, map,
}
use monitoring_project.Prelude.Int.{ℤ, pos, is_zero}
use monitoring_project.Config.Types.{Std, Floats, Config, DiscoveryConfig, ManagedInventory, second}
use monitoring_project.Config.Devices.{device_defaults}

-- `if v == 0 { v = d }`, and the same for texts.
unfoldable pub or_int : ℤ → ℕ → ℤ
or_int v d = if is_zero v then pos d else v

unfoldable pub or_text : String → String → String
or_text v d = if v =s= "" then d else v

-- `if p != nil { v = *p }`
abbrev pub or_given : {A : Type 0} → Option A → A → A
or_given none v = v
or_given (some a) v = a

module _ {F : Type 0} (fl : Floats F) where
  unfoldable pub or_float : F → F → F
  or_float v d = if fl.eq v fl.zero_value then d else v

  unfoldable pub apply_defaults : Config F → Config F
  apply_defaults c = record c {
    poll_interval = or_int c.poll_interval (60 * second);
    max_workers = or_int c.max_workers 10;
    collector = record c.collector {
      heartbeat_interval = or_int c.collector.heartbeat_interval (60 * second);
    };
    health = record c.health {
      temperature_warning_c =
          or_float c.health.temperature_warning_c fl.default_temperature_warning;
      failure_threshold = or_int c.health.failure_threshold 2;
    };
    admin = record c.admin { listen = or_text c.admin.listen ":9090" };
    snmp = record c.snmp {
      timeout = or_int c.snmp.timeout (5 * second);
      retries = or_int c.snmp.retries 2;
    };
    publisher = record c.publisher {
      mode = or_text c.publisher.mode "stdout";
      timeout = or_int c.publisher.timeout (10 * second);
      telemetry_version = or_text c.publisher.telemetry_version "v2";
    };
    buffer = record c.buffer {
      path = or_text c.buffer.path "buffer.db";
      max_entries = or_int c.buffer.max_entries 50000;
      busy_timeout_ms = or_int c.buffer.busy_timeout_ms 5000;
      batch_size = or_int c.buffer.batch_size 50;
      idle_backoff = or_int c.buffer.idle_backoff 500000000;
    };
    mqtt = record c.mqtt {
      password_env = or_text c.mqtt.password_env "MQTT_PASSWORD";
      qos = if c.mqtt.qos == 0 then 1 else c.mqtt.qos;
      client_id =
          if c.mqtt.client_id =s= "" && not (c.site_id =s= "")
          then concat "collector-" c.site_id
          else c.mqtt.client_id;
      reconnect = record c.mqtt.reconnect {
        initial = or_int c.mqtt.reconnect.initial second;
        max = or_int c.mqtt.reconnect.max (60 * second);
      };
    };
    discovery = record c.discovery {
      probe_burst =
          if is_zero c.discovery.probe_burst
            && fl.lt fl.zero_value c.discovery.max_probes_per_second
          then pos 1
          else c.discovery.probe_burst;
    };
    devices = map device_defaults c.devices;
  }

  unfoldable pub apply_discovery_defaults : DiscoveryConfig F → DiscoveryConfig F
  apply_discovery_defaults d = elim (d.allowed_cidrs) [
    | [] ↦ d
    | _ ∷ _ ↦ record d {
      max_targets = or_int d.max_targets 256;
      timeout = or_int d.timeout (2 * second);
      max_workers = or_int d.max_workers 4;
      max_probes_per_second = or_float d.max_probes_per_second fl.five;
      probe_burst = or_int d.probe_burst 2;
      community_env = or_text d.community_env "SNMP_DISCOVERY_COMMUNITY";
    }
  ]

  -- The timeout of the managed policy, where it is given and parses.
  unfoldable pub managed_timeout : Std → String → ℤ → ℤ
  managed_timeout std timeout v =
      if trim_space timeout =s= "" then v else or_given (std.parse_duration (trim_space timeout)) v

  unfoldable pub apply_managed_policy : Std → ManagedInventory F → Config F → Config F
  apply_managed_policy std managed c =
      let p = managed.discovery in
      let d = c.discovery in
      record c {
        health = record c.health {
          temperature_warning_c =
              or_given managed.temperature_warning_c c.health.temperature_warning_c;
        };
        discovery = apply_discovery_defaults (record d {
          allowed_cidrs = elim (p.allowed_cidrs) [ [] ↦ d.allowed_cidrs | x ∷ xs ↦ x ∷ xs ];
          community_env =
              if trim_space p.community_env =s= ""
              then d.community_env
              else trim_space p.community_env;
          max_targets = or_given p.max_targets d.max_targets;
          max_workers = or_given p.max_workers d.max_workers;
          retries = or_given p.retries d.retries;
          timeout = managed_timeout std p.timeout d.timeout;
          max_probes_per_second = or_given p.max_probes_per_second d.max_probes_per_second;
          probe_burst = or_given p.probe_burst d.probe_burst;
        });
      }

module _ {F : Type 0} (std : Std) where
  unfoldable pub apply_env_overrides : Config F → Config F
  apply_env_overrides c =
      let v = std.getenv "MQTT_BROKER" in
      if v =s= "" then c else record c { mqtt = record c.mqtt { broker = v } }

  unfoldable pub mqtt_password : Config F → String
  mqtt_password c = if c.mqtt.password_env =s= "" then "" else std.getenv c.mqtt.password_env

  unfoldable pub discovery_community : Config F → String
  discovery_community c =
      if c.discovery.community_env =s= "" then "" else std.getenv c.discovery.community_env

unfoldable pub mqtt_insecure_skip_verify : Std → Bool
mqtt_insecure_skip_verify std =
    elem (to_lower (trim_space (std.getenv "MQTT_TLS_INSECURE"))) ("1" ∷ "true" ∷ "yes" ∷ [])
