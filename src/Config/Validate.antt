-- ===== src/Config/Validate.antt =====
-- `validate` of services/snmp-collector/internal/config/config.go, in the order of its checks.
-- Errors leave out the limits. `none` is the fuel of the search for cycles that ran out.
use monitoring_project.Prelude.{
  ℕ, suc, String, Bool, true, false, not, ◌&&◌, ◌||◌, Option, none, some, List, [], ◌∷◌, ◌=s=◌,
  ◌==◌, if◌then◌else◌, elem, trim_space,
}
use monitoring_project.Prelude.Int.{ℤ, is_zero, is_negative, is_not_positive, exceeds, less_than}
use monitoring_project.Prelude.Results.{ok, error, Check, ◌>>◌, check_all, refuse_if}
use monitoring_project.Config.Types.{Std, Floats, Config, DiscoveryConfig, temperature_out_of_range}
use monitoring_project.Config.Inventory.{validate_inventory_uniqueness}
use monitoring_project.Config.Devices.{
  max_poll_interval, max_snmp_timeout, max_retries, matches_identifier, validate_env_name,
  validate_device_source,
}
use monitoring_project.Config.Defaults.{mqtt_password, mqtt_insecure_skip_verify}
use monitoring_project.Config.Dependencies.{validate_dependencies}

-- `v <= 0 || v > limit`
unfoldable pub outside : ℤ → ℕ → Bool
outside v limit = is_not_positive v || exceeds v limit

abbrev pub max_workers : ℕ
max_workers = 1024

abbrev is_empty {ℓ} : {A : Type ℓ} → List A → Bool
is_empty [] = true
is_empty (x ∷ xs) = false

-- `a != b` of two tests.
abbrev differ : Bool → Bool → Bool
differ true b = not b
differ false b = b

unfoldable pub valid_broker : Std → String → Bool
valid_broker std broker = elim (std.parse_url broker) [
  | none ↦ false
  | some u ↦ u.0 =s= "tls" && not (u.1 =s= "")
]

module _ {F : Type 0} (fl : Floats F) (std : Std) where
  unfoldable pub validate_mqtt : Config F → Check
  validate_mqtt c =
      refuse_if (
        (trim_space c.mqtt.broker =s= "", "mqtt.broker is required when publisher.mode is mqtt")
        ∷ (not (valid_broker std c.mqtt.broker), "mqtt.broker must be a tls URL with a host")
        ∷ (
          trim_space c.mqtt.username =s= "",
          "mqtt.username is required when publisher.mode is mqtt",
        )
        ∷ [])
      >> validate_env_name c.mqtt.password_env
      >> refuse_if (
          (not (c.mqtt.qos == 1), "mqtt.qos must be 1")
          ∷ (is_negative c.buffer.max_entries, "buffer.max_entries must be >= 0")
          ∷ (is_not_positive c.buffer.busy_timeout_ms, "buffer.busy_timeout_ms must be positive")
          ∷ (is_not_positive c.buffer.batch_size, "buffer.batch_size must be positive")
          ∷ (is_not_positive c.buffer.idle_backoff, "buffer.idle_backoff must be positive")
          ∷ (
            is_not_positive c.mqtt.reconnect.initial || is_not_positive c.mqtt.reconnect.max,
            "mqtt.reconnect.initial and max must be positive",
          )
          ∷ (
            less_than c.mqtt.reconnect.max c.mqtt.reconnect.initial,
            "mqtt.reconnect.max must be >= initial",
          )
          ∷ (
            trim_space c.mqtt.tls.ca_file =s= "" && not (mqtt_insecure_skip_verify std),
            "mqtt.tls.ca_file is required unless MQTT_TLS_INSECURE is set",
          )
          ∷ (
            differ (c.mqtt.tls.cert_file =s= "") (c.mqtt.tls.key_file =s= ""),
            "mqtt.tls.cert_file and key_file must be configured together",
          )
          ∷ [])

  unfoldable pub is_unset : DiscoveryConfig F → Bool
  is_unset d =
      is_empty d.allowed_cidrs
      && d.community_env =s= ""
      && is_zero d.max_targets
      && is_zero d.timeout
      && is_zero d.retries
      && is_zero d.max_workers
      && fl.eq d.max_probes_per_second fl.zero_value
      && is_zero d.probe_burst

  unfoldable pub validate_discovery : DiscoveryConfig F → Check
  validate_discovery d =
      let rate = d.max_probes_per_second in
      if is_unset d
      then ok tt
      else (if is_empty d.allowed_cidrs
          then error "discovery.allowed_cidrs is required when discovery is configured"
          else ok tt)
        >> validate_env_name d.community_env
        >> refuse_if (
            (outside d.max_targets 1000000, "discovery.max_targets out of range")
            ∷ (outside d.timeout max_snmp_timeout, "discovery.timeout out of range")
            ∷ (
              is_negative d.retries || exceeds d.retries max_retries,
              "discovery.retries out of range",
            )
            ∷ (outside d.max_workers max_workers, "discovery.max_workers out of range")
            ∷ (
              fl.le rate fl.zero_value
                  || fl.is_nan rate
                  || fl.is_inf rate
                  || fl.lt fl.max_discovery_rate rate,
              "discovery.max_probes_per_second out of range",
            )
            ∷ (outside d.probe_burst 100000, "discovery.probe_burst out of range")
            ∷ [])
        >> check_all
            (λ cidr. if std.parse_cidr cidr then ok tt else error "discovery cidr is invalid")
            d.allowed_cidrs

  -- The checks of `validate` up to the publisher's.
  unfoldable pub validate_settings : Config F → Check
  validate_settings c = refuse_if (
      (trim_space c.site_id =s= "", "site_id is required")
      ∷ (not (matches_identifier c.site_id), "site_id has invalid format")
      ∷ (trim_space c.collector.id =s= "", "collector.id is required")
      ∷ (not (matches_identifier c.collector.id), "collector.id has invalid format")
      ∷ (outside c.poll_interval max_poll_interval, "poll_interval out of range")
      ∷ (outside c.max_workers max_workers, "max_workers out of range")
      ∷ (
        outside c.collector.heartbeat_interval max_poll_interval,
        "collector.heartbeat_interval out of range",
      )
      ∷ (
        temperature_out_of_range fl c.health.temperature_warning_c,
        "health.temperature_warning_c out of range",
      )
      ∷ (
        outside c.health.failure_threshold (suc max_retries),
        "health.failure_threshold out of range",
      )
      ∷ (outside c.snmp.timeout max_snmp_timeout, "snmp.timeout out of range")
      ∷ (
        is_negative c.snmp.retries || exceeds c.snmp.retries max_retries,
        "snmp.retries out of range",
      )
      ∷ (outside c.publisher.timeout max_snmp_timeout, "publisher.timeout out of range")
      ∷ (
        not (elem c.publisher.mode ("stdout" ∷ "mqtt" ∷ [])),
        "publisher.mode must be stdout or mqtt",
      )
      ∷ (
        not (elem c.publisher.telemetry_version ("v1" ∷ "v2" ∷ "both" ∷ [])),
        "publisher.telemetry_version must be v1, v2, or both",
      )
      ∷ [])

  -- All checks of `validate` but the last.
  unfoldable pub validate_config : Config F → Check
  validate_config c =
      validate_settings c
      >> (if c.publisher.mode =s= "mqtt" then validate_mqtt c else ok tt)
      >> validate_discovery c.discovery
      >> refuse_if (
          (
            is_empty c.devices && is_empty c.discovery.allowed_cidrs,
            "at least one device is required",
          )
          ∷ [])
      >> validate_device_source fl std c.devices
      >> validate_inventory_uniqueness std c.devices

  -- It never reads `requireRuntimeSecrets`.
  unfoldable pub validate : Config F → Option Check
  validate c = elim (validate_config c) [
    | error e ↦ some (error e)
    | ok _ ↦ validate_dependencies c.devices
  ]

  unfoldable pub validate_runtime_secrets : Config F → Check
  validate_runtime_secrets c =
      if c.publisher.mode =s= "mqtt" && mqtt_password std c =s= ""
      then error "environment variable is required when publisher.mode is mqtt"
      else ok tt
