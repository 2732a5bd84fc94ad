-- ===== src/Config/Sample.antt =====
-- Sample configurations for the tests.
use monitoring_project.Prelude.{
  ℕ, String, true, false, none, some, List, [], ◌∷◌, leb, ltb, ◌==◌, ◌=s=◌, if◌then◌else◌,
}
use monitoring_project.Prelude.Int.{pos}
use monitoring_project.Prelude.Results.{ok}
use monitoring_project.Config.Types.{Std, Floats, DeviceConfig, Config}
use monitoring_project.Config.Inventory.{bare_device}
use monitoring_project.Config.Load.{Files, found, missing, empty_inventory}

-- Temperatures in whole degrees above -100.
abbrev pub whole : Floats ℕ
whole = record {
  lt = ltb;
  le = leb;
  eq = ◌==◌;
  is_nan = λ x. false;
  is_inf = λ x. false;
  zero_value = 100;
  five = 105;
  min_temperature_celsius = 0;
  max_temperature_celsius = 350;
  default_temperature_warning = 165;
  max_discovery_rate = 100100;
}

abbrev pub plain : Std
plain = record {
  parse_ip = λ s. none;
  parse_cidr = λ s. true;
  compiles = λ s. true;
  atoi = λ s. none;
  parse_duration = λ s. none;
  parse_url = λ s. some ("tls", "broker");
  getenv = λ s. "";
}

abbrev pub host : String → String → List String → DeviceConfig ℕ
host id address ups = record (bare_device id (some ups)) {
  host = address;
  community_env = "COMMUNITY";
  port = 161;
  version = "2c";
}

-- An access switch below two distribution switches below a core.
abbrev pub campus : List (DeviceConfig ℕ)
campus =
    host "access" "10.0.0.4" ("left" ∷ "right" ∷ [])
    ∷ host "left" "10.0.0.2" ("core" ∷ [])
    ∷ host "right" "10.0.0.3" ("core" ∷ [])
    ∷ host "core" "10.0.0.1" []
    ∷ []

abbrev pub ring : List (DeviceConfig ℕ)
ring =
    host "a" "10.0.0.1" ("b" ∷ [])
    ∷ host "b" "10.0.0.2" ("c" ∷ [])
    ∷ host "c" "10.0.0.3" ("a" ∷ [])
    ∷ []

abbrev pub blank : List (DeviceConfig ℕ) → Config ℕ
blank devices = record {
  site_id = "site-1";
  poll_interval = pos 0;
  max_workers = pos 0;
  collector = record { id = "collector-1"; heartbeat_interval = pos 0 };
  managed_path = "";
  health = record { temperature_warning_c = 100; failure_threshold = pos 0 };
  discovery = record {
    allowed_cidrs = [];
    community_env = "";
    max_targets = pos 0;
    timeout = pos 0;
    retries = pos 0;
    max_workers = pos 0;
    max_probes_per_second = 100;
    probe_burst = pos 0;
  };
  admin = record { listen = ""; control_socket = "" };
  snmp = record { timeout = pos 0; retries = pos 0 };
  publisher = record { mode = ""; timeout = pos 0; telemetry_version = "" };
  buffer = record {
    path = "";
    max_entries = pos 0;
    busy_timeout_ms = pos 0;
    batch_size = pos 0;
    idle_backoff = pos 0;
  };
  mqtt = record {
    broker = "";
    client_id = "";
    username = "";
    password_env = "";
    qos = 0;
    tls = record { ca_file = ""; cert_file = ""; key_file = "" };
    reconnect = record { initial = pos 0; max = pos 0 };
  };
  devices = devices;
  config_path = "/etc/collector.yaml";
}

-- The configuration file with the campus, and with a ring.
abbrev pub files_with : List (DeviceConfig ℕ) → Files ℕ
files_with devices = record {
  stat = λ p. if p =s= "/etc/collector.yaml" then found true 420 else missing;
  read_file = λ p. ok "text";
  decode_config = λ t. ok (blank devices);
  decode_managed = λ t. ok empty_inventory;
  decode_devices = λ t. ok devices;
  abs = λ p. ok p;
  is_abs = λ p. true;
  join_dir = λ a b. b;
  clean = λ p. p;
}
