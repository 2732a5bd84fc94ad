-- ===== src/Ingest/Envelope.antt =====
-- `ValidateV2`'s envelope: `validateEnvelope` of services/ingestion-service/internal/validate/v2.go,
-- and `parseTimestamp` of validate.go beside it.
pub mod Bound
use monitoring_project.Prelude.{
  ◌≡◌, refl, ◌∙◌, String, Bool, false, not, ◌||◌, Option, none, some, ltb, ◌=s=◌, if◌then◌else◌,
  trim_space, arith, eq_iff,
}
use mathlib.Core.Path.{subst}
use monitoring_project.Prelude.Results.{Result, ok, error, ◌>>=◌, require, bind-ok, if-ok, ok_inj}
use monitoring_project.Ingest.Text.{byte_length, check_identifier}
use monitoring_project.Ingest.Topics.{
  Kind, kind_device, kind_interface, kind_device_v2, kind_interface_v2, kind_health_v2,
  kind_heartbeat_v2, TopicPartsV2,
}
use monitoring_project.Ingest.Types.{EnvelopeRaw, EnvelopeV2, External}

-- The event type that a topic's kind expects.
unfoldable pub expected_type : Kind → String
expected_type kind_device = ""
expected_type kind_interface = ""
expected_type kind_device_v2 = "device_telemetry"
expected_type kind_interface_v2 = "interface_telemetry"
expected_type kind_health_v2 = "health_state"
expected_type kind_heartbeat_v2 = "collector_heartbeat"

module _ {F U T : Type 0} (ext : External F U T) where
  open ext use {parse_uuid, parse_rfc3339, parse_rfc3339_nano}

  first_time : Option T → Option T → Option T
  first_time none t = t
  first_time (some s) t = some s

  unfoldable pub parse_timestamp : String → Result T
  unfolding first_time
  parse_timestamp raw =
      if trim_space raw =s= ""
      then error "timestamp is required"
      else require (first_time (parse_rfc3339 raw) (parse_rfc3339_nano raw)) "invalid timestamp"

  bind_heartbeat : EnvelopeRaw → TopicPartsV2 → EnvelopeV2 U T → Result (EnvelopeV2 U T)
  bind_heartbeat raw tp env =
      if not (raw.device_id =s= "")
      then error "device_id must be absent for heartbeat"
      else if not (raw.collector_id =s= tp.collector_id)
      then error "collector_id body does not match topic"
      else ok env

  bind_device : EnvelopeRaw → TopicPartsV2 → EnvelopeV2 U T → Result (EnvelopeV2 U T)
  bind_device raw tp env = check_identifier raw.device_id "device_id" >>= λ _.
      if not (raw.device_id =s= tp.device_id)
      then error "device_id body does not match topic"
      else ok (record env { device_id = raw.device_id })

  -- The `switch` on the topic's kind at the end.
  bind_kind : Kind → EnvelopeRaw → TopicPartsV2 → EnvelopeV2 U T → Result (EnvelopeV2 U T)
  unfolding bind_heartbeat bind_device
  bind_kind kind_heartbeat_v2 raw tp env = bind_heartbeat raw tp env
  bind_kind kind raw tp env = bind_device raw tp env

  unfoldable pub validate_envelope : EnvelopeRaw → TopicPartsV2 → Result (EnvelopeV2 U T)
  unfolding bind_kind
  validate_envelope raw tp =
      if not (raw.schema_version =s= "2.0")
      then error "unsupported schema_version"
      else require (parse_uuid (trim_space raw.event_id)) "invalid event_id" >>= λ event_id.
          check_identifier raw.site_id "site_id" >>= λ _.
          check_identifier raw.collector_id "collector_id" >>= λ _.
          if not (raw.site_id =s= tp.site_id)
          then error "site_id body does not match topic"
          else parse_timestamp raw.observed_at >>= λ observed_at.
              parse_timestamp raw.emitted_at >>= λ emitted_at.
              if trim_space raw.config_revision =s= "" || ltb 128 (byte_length raw.config_revision)
              then error "config_revision is required and must be <= 128 chars"
              else if raw.payload =s= "" || raw.payload =s= "null" || raw.payload =s= "{}"
              then error "payload is required"
              else if not (raw.event_type =s= expected_type tp.kind)
              then error "event_type does not match topic kind"
              else bind_kind tp.kind raw tp (record {
                schema_version = raw.schema_version;
                event_id = event_id;
                event_type = raw.event_type;
                site_id = raw.site_id;
                collector_id = raw.collector_id;
                device_id = "";
                observed_at = observed_at;
                emitted_at = emitted_at;
                config_revision = raw.config_revision;
              })
