-- ===== src/Ingest/Types.antt =====
-- The messages of services/ingestion-service/internal/validate (validate.go and v2.go): as decoded
-- from JSON, with `none` for a nil pointer or a nil slice, and as validated. The numbers of type
-- float64 are of a type `F`, the event ids of a type `U` and the times of a type `T`.
use monitoring_project.Prelude.{ℕ, String, Bool, Option, List}
use monitoring_project.Prelude.Int.{ℤ}

pub record EnvelopeRaw : Type 0 where
  pub schema_version : String
  pub event_id : String
  pub event_type : String
  pub site_id : String
  pub collector_id : String
  pub device_id : String
  pub observed_at : String
  pub emitted_at : String
  pub config_revision : String
  pub payload : String

pub record EnvelopeV2 (U T : Type 0) : Type 0 where
  pub schema_version : String
  pub event_id : U
  pub event_type : String
  pub site_id : String
  pub collector_id : String
  pub device_id : String
  pub observed_at : T
  pub emitted_at : T
  pub config_revision : String

pub record ComponentRaw (F : Type 0) : Type 0 where
  pub component_id : String
  pub name : String
  pub index : String
  pub value : Option F
  pub unit : String
  pub status : String
  pub observed_at : String

pub record ComponentReading (F T : Type 0) : Type 0 where
  pub component_id : String
  pub name : String
  pub index : String
  pub value : Option F
  pub unit : String
  pub status : String
  pub observed_at : T

pub record DevicePayloadV2 (F : Type 0) : Type 0 where
  pub hostname : String
  pub management_address : String
  pub role : String
  pub sys_object_id : String
  pub sys_name : String
  pub sys_descr : String
  pub vendor : String
  pub model : String
  pub serial : String
  pub snmp_version : String
  pub profile_name : String
  pub capabilities : List String
  pub uptime_seconds : Option F
  pub cpu_utilization_pct : Option F
  pub memory_utilization_pct : Option F
  pub primary_temperature_c : Option F
  pub temperature_components : Option (List (ComponentRaw F))
  pub power_components : Option (List (ComponentRaw F))

pub record DeviceTelemetryV2 (F U T : Type 0) : Type 0 where
  pub envelope : EnvelopeV2 U T
  pub hostname : String
  pub management_address : String
  pub role : String
  pub sys_object_id : String
  pub sys_name : String
  pub sys_descr : String
  pub vendor : String
  pub model : String
  pub serial : String
  pub snmp_version : String
  pub profile_name : String
  pub capabilities : List String
  pub uptime_seconds : F
  pub cpu_utilization_pct : Option F
  pub memory_utilization_pct : Option F
  pub primary_temperature_c : Option F
  pub temperature_components : List (ComponentReading F T)
  pub power_components : List (ComponentReading F T)

pub record InterfacePayloadV2 : Type 0 where
  pub if_index : Option ℤ
  pub name : String
  pub alias : String
  pub type_ : String
  pub admin_status : String
  pub oper_status : String
  pub speed_bps : Option ℤ
  pub in_octets : Option ℕ
  pub out_octets : Option ℕ
  pub in_errors : Option ℕ
  pub out_errors : Option ℕ
  pub in_discards : Option ℕ
  pub out_discards : Option ℕ

pub record InterfaceTelemetryV2 (U T : Type 0) : Type 0 where
  pub envelope : EnvelopeV2 U T
  pub if_index : ℤ
  pub name : String
  pub alias : String
  pub type_ : String
  pub admin_status : String
  pub oper_status : String
  pub speed_bps : Option ℤ
  pub in_octets : ℕ
  pub out_octets : ℕ
  pub in_errors : ℕ
  pub out_errors : ℕ
  pub in_discards : Option ℕ
  pub out_discards : Option ℕ

pub record HealthPayloadV2 (F : Type 0) : Type 0 where
  pub state : String
  pub reason : String
  pub previous_state : Option String
  pub transition : String
  pub failure_count : Option ℤ
  pub failure_threshold : Option ℤ
  pub temperature_c : Option F
  pub temperature_warning_c : Option F
  pub temperature_policy_revision : Option String
  pub upstream_device_ids : Option (List String)
  pub unavailable_upstream_device_ids : Option (List String)
  pub root_cause_device_ids : Option (List String)
  pub alerts_enabled : Option Bool

pub record HealthStateV2 (F U T : Type 0) : Type 0 where
  pub envelope : EnvelopeV2 U T
  pub state : String
  pub reason : String
  pub previous_state : Option String
  pub transition : String
  pub failure_count : ℤ
  pub failure_threshold : ℤ
  pub temperature_c : Option F
  pub temperature_warning_c : Option F
  pub temperature_policy_revision : Option String
  pub upstream_device_ids : List String
  pub unavailable_upstream_device_ids : List String
  pub root_cause_device_ids : List String
  pub alerts_enabled : Bool

pub record HeartbeatPayloadV2 : Type 0 where
  pub hostname : String
  pub version : String
  pub git_commit : String
  pub build_time : String
  pub uptime_seconds : Option ℤ
  pub sqlite_queue_depth : Option ℤ
  pub memory_usage_bytes : Option ℤ
  pub goroutine_count : Option ℤ

pub record HeartbeatV2 (U T : Type 0) : Type 0 where
  pub envelope : EnvelopeV2 U T
  pub hostname : String
  pub version : String
  pub git_commit : String
  pub build_time : String
  pub uptime_seconds : ℤ
  pub sqlite_queue_depth : ℤ
  pub memory_usage_bytes : ℤ
  pub goroutine_count : ℤ

pub record DevicePayload (F : Type 0) : Type 0 where
  pub timestamp : String
  pub site_id : String
  pub device_id : String
  pub ip_address : String
  pub metric : String
  pub value : Option F

pub record DeviceMessage (F T : Type 0) : Type 0 where
  pub site_id : String
  pub device_id : String
  pub ip_address : String
  pub timestamp : T
  pub metric : String
  pub value : F

pub record InterfacePayload : Type 0 where
  pub timestamp : String
  pub site_id : String
  pub device_id : String
  pub if_index : Option ℤ
  pub in_octets : Option ℕ
  pub out_octets : Option ℕ
  pub in_errors : Option ℕ
  pub out_errors : Option ℕ

pub record InterfaceMessage (T : Type 0) : Type 0 where
  pub site_id : String
  pub device_id : String
  pub timestamp : T
  pub if_index : ℤ
  pub in_octets : ℕ
  pub out_octets : ℕ
  pub in_errors : ℕ
  pub out_errors : ℕ

-- A `Message` with its kind and the one pointer that is not nil.
pub data Message (F U T : Type 0) : Type 0 where
  device : DeviceMessage F T → Message F U T
  interface : InterfaceMessage T → Message F U T
  device_v2 : DeviceTelemetryV2 F U T → Message F U T
  interface_v2 : InterfaceTelemetryV2 U T → Message F U T
  health_v2 : HealthStateV2 F U T → Message F U T
  heartbeat_v2 : HeartbeatV2 U T → Message F U T

-- What the validation takes from the packages `encoding/json`, `github.com/google/uuid` and `time`,
-- and the comparisons of float64 numbers.
pub record External (F U T : Type 0) : Type 0 where
  pub json_valid : String → Bool
  pub decode_envelope : String → Option EnvelopeRaw
  pub decode_device_v2 : String → Option (DevicePayloadV2 F)
  pub decode_interface_v2 : String → Option InterfacePayloadV2
  pub decode_health_v2 : String → Option (HealthPayloadV2 F)
  pub decode_heartbeat_v2 : String → Option HeartbeatPayloadV2
  pub decode_device : String → Option (DevicePayload F)
  pub decode_interface : String → Option InterfacePayload
  pub parse_uuid : String → Option U
  pub parse_rfc3339 : String → Option T
  pub parse_rfc3339_nano : String → Option T
  pub below_zero : F → Bool
  pub above_hundred : F → Bool
