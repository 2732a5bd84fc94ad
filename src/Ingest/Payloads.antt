-- ===== src/Ingest/Payloads.antt =====
-- The payloads of the v2 messages: `validateDeviceV2`, `validateInterfaceV2`, `validateHealthV2`,
-- `validateHeartbeatV2` and the checks they use, services/ingestion-service/internal/validate/v2.go.
-- `cloneStrings` copies a slice, which a list needs not.
use monitoring_project.Prelude.{
  ◌≡◌, sym, ◌∙◌, String, Bool, true, not, ◌||◌, Option, none, some, List, [], ◌∷◌, ◌=s=◌,
  if◌then◌else◌, trim_space, elem, ◌++◌, IsDistinct, append-IsDistinct,
}
use mathlib.Core.Path.{subst}
use mathlib.Core.List.{append_assoc, append-nil}
use monitoring_project.Prelude.Int.{ℤ, is_zero, is_negative}
use monitoring_project.Prelude.Results.{Result, ok, error, ◌>>=◌, require, if-ok, ok_inj}
use monitoring_project.Ingest.Text.{check_identifier}
use monitoring_project.Ingest.Types.{
  EnvelopeV2, ComponentRaw, ComponentReading, DeviceTelemetryV2, InterfaceTelemetryV2,
  HealthStateV2, HeartbeatV2, External,
}
use monitoring_project.Ingest.Envelope.{parse_timestamp}

is_empty : String → Bool
is_empty s = trim_space s =s= ""

-- `p == nil || *p < bound`, for the bounds 0 and 1.
below_zero_or_nil : Option ℤ → Bool
below_zero_or_nil none = true
below_zero_or_nil (some n) = is_negative n

below_one_or_nil : Option ℤ → Bool
below_one_or_nil none = true
below_one_or_nil (some n) = is_negative n || is_zero n

unfoldable pub check_all_identifiers : List String → String → Result Bool
check_all_identifiers [] field = ok true
check_all_identifiers (id ∷ ids) field =
    check_identifier id field >>= λ _. check_all_identifiers ids field

check_status_enum : String → String → Result Bool
check_status_enum v e =
    if not (elem v ("up" ∷ "down" ∷ "testing" ∷ "unknown" ∷ [])) then error e else ok true

-- The loop over the capabilities; `caps` holds those before, as `seenCap` does.
unfoldable pub check_capabilities : List String → List String → Result (List String)
check_capabilities [] caps = ok caps
check_capabilities (c ∷ cs) caps =
    if not (elem c ("cpu" ∷ "memory" ∷ "temperature" ∷ "power" ∷ []))
    then error "invalid capability"
    else if elem c caps
    then error "duplicate capability"
    else check_capabilities cs (caps ++ (c ∷ []))

module _ {F : Type 0} where
  unfoldable pub check_component_common : ComponentRaw F → Result Bool
  unfolding is_empty
  check_component_common c =
      if is_empty c.component_id || is_empty c.name || is_empty c.index
      then error "component_id, name, and index are required"
      else if not (elem c.status ("ok" ∷ "warning" ∷ "critical" ∷ "not_present" ∷ "unknown" ∷ []))
      then error "invalid component status"
      else ok true

module _ {F U T : Type 0} (ext : External F U T) where
  open ext use {
    decode_device_v2, decode_interface_v2, decode_health_v2, decode_heartbeat_v2, below_zero,
    above_hundred,
  }

  check_optional_pct : Option F → String → Result Bool
  check_optional_pct none e = ok true
  check_optional_pct (some v) e = if below_zero v || above_hundred v then error e else ok true

  reading_of : ComponentRaw F → T → ComponentReading F T
  reading_of c observed_at = record {
    component_id = c.component_id;
    name = c.name;
    index = c.index;
    value = c.value;
    unit = c.unit;
    status = c.status;
    observed_at = observed_at;
  }

  temp_value : Option F → Result F
  temp_value v = require v "temperature component value is required"

  -- `seen` and `out` of the loops.
  unfoldable pub validate_temp_components :
      List (ComponentRaw F)
      → List String
      → List (ComponentReading F T)
      → Result (List (ComponentReading F T))
  unfolding temp_value reading_of
  validate_temp_components [] seen out = ok out
  validate_temp_components (c ∷ cs) seen out = check_component_common c >>= λ _.
      if not (c.unit =s= "celsius")
      then error "temperature component unit must be celsius"
      else temp_value c.value >>= λ _.
          if elem c.component_id seen
          then error "duplicate temperature component_id"
          else parse_timestamp ext c.observed_at >>= λ observed_at.
              validate_temp_components cs (c.component_id ∷ seen)
                (out ++ (reading_of c observed_at ∷ []))

  unfoldable pub validate_power_components :
      List (ComponentRaw F)
      → List String
      → List (ComponentReading F T)
      → Result (List (ComponentReading F T))
  unfolding reading_of
  validate_power_components [] seen out = ok out
  validate_power_components (c ∷ cs) seen out = check_component_common c >>= λ _.
      if not (elem c.unit ("state" ∷ "watts" ∷ "volts" ∷ "amps" ∷ "percent" ∷ []))
      then error "invalid power component unit"
      else if elem c.component_id seen
      then error "duplicate power component_id"
      else parse_timestamp ext c.observed_at >>= λ observed_at.
          validate_power_components cs (c.component_id ∷ seen)
            (out ++ (reading_of c observed_at ∷ []))

  list_of : Option (List (ComponentRaw F)) → List (ComponentRaw F)
  list_of none = []
  list_of (some cs) = cs

  nonnegative : Option F → Result F
  nonnegative none = error "uptime_seconds is required and must be >= 0"
  nonnegative (some v) =
      if below_zero v then error "uptime_seconds is required and must be >= 0" else ok v

  unfoldable pub validate_device_v2 : EnvelopeV2 U T → String → Result (DeviceTelemetryV2 F U T)
  unfolding is_empty nonnegative check_optional_pct list_of
  validate_device_v2 env payload =
      require (decode_device_v2 payload) "decode device payload" >>= λ p.
      if is_empty p.hostname
        || is_empty p.sys_object_id
        || is_empty p.sys_name
        || p.sys_descr =s= ""
      then error "device identity fields are required"
      else if not (p.snmp_version =s= "2c")
      then error "snmp_version must be 2c"
      else if not (elem p.profile_name ("core" ∷ "cisco" ∷ "arista" ∷ "unknown" ∷ []))
      then error "invalid profile name"
      else check_capabilities p.capabilities [] >>= λ caps.
          nonnegative p.uptime_seconds >>= λ uptime.
          check_optional_pct p.cpu_utilization_pct "cpu_utilization_pct" >>= λ _.
          check_optional_pct p.memory_utilization_pct "memory_utilization_pct" >>= λ _.
          validate_temp_components (list_of p.temperature_components) [] [] >>= λ temps.
          validate_power_components (list_of p.power_components) [] [] >>= λ powers.
          require p.temperature_components
            "temperature_components and power_components are required"
          >>= λ _.
              require p.power_components "temperature_components and power_components are required"
              >>= λ _. ok (record {
                envelope = env;
                hostname = p.hostname;
                management_address = trim_space p.management_address;
                role = trim_space p.role;
                sys_object_id = p.sys_object_id;
                sys_name = p.sys_name;
                sys_descr = p.sys_descr;
                vendor = p.vendor;
                model = p.model;
                serial = p.serial;
                snmp_version = p.snmp_version;
                profile_name = p.profile_name;
                capabilities = caps;
                uptime_seconds = uptime;
                cpu_utilization_pct = p.cpu_utilization_pct;
                memory_utilization_pct = p.memory_utilization_pct;
                primary_temperature_c = p.primary_temperature_c;
                temperature_components = temps;
                power_components = powers;
              })

  speed_ok : Option ℤ → Bool
  speed_ok none = true
  speed_ok (some n) = not (is_negative n)

  unfoldable pub validate_interface_v2 : EnvelopeV2 U T → String → Result (InterfaceTelemetryV2 U T)
  unfolding is_empty below_one_or_nil speed_ok check_status_enum
  validate_interface_v2 env payload =
      require (decode_interface_v2 payload) "decode interface payload" >>= λ p.
      if below_one_or_nil p.if_index
      then error "if_index must be >= 1"
      else if is_empty p.name
      then error "interface name is required"
      else check_status_enum p.admin_status "invalid admin_status" >>= λ _.
          check_status_enum p.oper_status "invalid oper_status" >>= λ _.
          if not (speed_ok p.speed_bps)
          then error "speed_bps must be >= 0"
          else require p.if_index "if_index must be >= 1" >>= λ if_index.
              require p.in_octets "counter fields are required" >>= λ in_octets.
              require p.out_octets "counter fields are required" >>= λ out_octets.
              require p.in_errors "counter fields are required" >>= λ in_errors.
              require p.out_errors "counter fields are required" >>= λ out_errors. ok (record {
                envelope = env;
                if_index = if_index;
                name = p.name;
                alias = p.alias;
                type_ = p.type_;
                admin_status = p.admin_status;
                oper_status = p.oper_status;
                speed_bps = p.speed_bps;
                in_octets = in_octets;
                out_octets = out_octets;
                in_errors = in_errors;
                out_errors = out_errors;
                in_discards = p.in_discards;
                out_discards = p.out_discards;
              })

  abbrev state_names : List String
  state_names = "healthy" ∷ "warning" ∷ "critical" ∷ "unknown" ∷ []

  abbrev reason_names : List String
  reason_names =
      "reachable" ∷ "temperature_threshold" ∷ "direct_unreachable" ∷ "upstream_unreachable"
      ∷ "recovered" ∷ []

  abbrev transition_names : List String
  transition_names = "initial" ∷ "entered" ∷ "recovered" ∷ "reasserted" ∷ []

  previous_ok : Option String → Bool
  previous_ok none = true
  previous_ok (some s) = elem s state_names

  or_true : Option Bool → Bool
  or_true none = true
  or_true (some b) = b

  unfoldable pub validate_health_v2 : EnvelopeV2 U T → String → Result (HealthStateV2 F U T)
  unfolding below_zero_or_nil below_one_or_nil previous_ok or_true
  validate_health_v2 env payload =
      require (decode_health_v2 payload) "decode health payload" >>= λ p.
      if not (elem p.state state_names)
      then error "invalid health state"
      else if not (elem p.reason reason_names)
      then error "invalid health reason"
      else if not (elem p.transition transition_names)
      then error "invalid health transition"
      else if not (previous_ok p.previous_state)
      then error "invalid previous_state"
      else if below_zero_or_nil p.failure_count
      then error "failure_count is required and must be >= 0"
      else if below_one_or_nil p.failure_threshold
      then error "failure_threshold is required and must be >= 1"
      else require p.failure_count "failure_count is required" >>= λ count.
          require p.failure_threshold "failure_threshold is required" >>= λ threshold.
          require p.upstream_device_ids "upstream evidence arrays are required" >>= λ ups.
          require p.unavailable_upstream_device_ids "upstream evidence arrays are required"
          >>= λ unavailable.
              require p.root_cause_device_ids "upstream evidence arrays are required" >>= λ roots.
              check_all_identifiers ups "upstream_device_ids" >>= λ _.
              check_all_identifiers unavailable "unavailable_upstream_device_ids" >>= λ _.
              check_all_identifiers roots "root_cause_device_ids" >>= λ _. ok (record {
                envelope = env;
                state = p.state;
                reason = p.reason;
                previous_state = p.previous_state;
                transition = p.transition;
                failure_count = count;
                failure_threshold = threshold;
                temperature_c = p.temperature_c;
                temperature_warning_c = p.temperature_warning_c;
                temperature_policy_revision = p.temperature_policy_revision;
                upstream_device_ids = ups;
                unavailable_upstream_device_ids = unavailable;
                root_cause_device_ids = roots;
                alerts_enabled = or_true p.alerts_enabled;
              })

  build_time_ok : String → Result Bool
  build_time_ok s = if s =s= "unknown" then ok true else elim (parse_timestamp ext s) [
    | ok t ↦ ok true
    | error e ↦ error "build_time must be RFC3339 or \"unknown\""
  ]

  unfoldable pub validate_heartbeat_v2 : EnvelopeV2 U T → String → Result (HeartbeatV2 U T)
  unfolding is_empty below_zero_or_nil build_time_ok
  validate_heartbeat_v2 env payload =
      require (decode_heartbeat_v2 payload) "decode heartbeat payload" >>= λ p.
      if is_empty p.hostname || is_empty p.version || is_empty p.git_commit || is_empty p.build_time
      then error "heartbeat identity fields are required"
      else build_time_ok p.build_time >>= λ _.
          if below_zero_or_nil p.uptime_seconds
          then error "uptime_seconds is required and must be >= 0"
          else if below_zero_or_nil p.sqlite_queue_depth
          then error "sqlite_queue_depth is required and must be >= 0"
          else if below_zero_or_nil p.memory_usage_bytes
          then error "memory_usage_bytes is required and must be >= 0"
          else if below_zero_or_nil p.goroutine_count
          then error "goroutine_count is required and must be >= 0"
          else require p.uptime_seconds "uptime_seconds" >>= λ uptime.
              require p.sqlite_queue_depth "sqlite_queue_depth" >>= λ depth.
              require p.memory_usage_bytes "memory_usage_bytes" >>= λ memory.
              require p.goroutine_count "goroutine_count" >>= λ goroutines. ok (record {
                envelope = env;
                hostname = p.hostname;
                version = p.version;
                git_commit = p.git_commit;
                build_time = p.build_time;
                uptime_seconds = uptime;
                sqlite_queue_depth = depth;
                memory_usage_bytes = memory;
                goroutine_count = goroutines;
              })

-- The capabilities of an accepted device are the payload's, each once.
pub check_capabilities-IsDistinct :
    (cs caps out : List String)
    → IsDistinct caps
    → check_capabilities cs caps ≡ ok out
    → IsDistinct out × (out ≡ caps ++ cs)
unfolding check_capabilities
check_capabilities-IsDistinct [] caps out d h =
    let e : caps ≡ out = ok_inj h in (subst IsDistinct e d, sym e ∙ sym (append-nil caps))
check_capabilities-IsDistinct (c ∷ cs) caps out d h =
    let a = if-ok (not (elem c ("cpu" ∷ "memory" ∷ "temperature" ∷ "power" ∷ []))) _ _ out h in
    let b = if-ok (elem c caps) _ (check_capabilities cs (caps ++ (c ∷ []))) out a.1 in
    let r =
      check_capabilities-IsDistinct cs (caps ++ (c ∷ [])) out (append-IsDistinct caps c d b.0)
        b.1 in
    (r.0, r.1 ∙ append_assoc caps (c ∷ []) cs)
