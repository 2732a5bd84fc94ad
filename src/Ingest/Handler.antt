-- ===== src/Ingest/Handler.antt =====
-- The handler of a message, services/ingestion-service/internal/handler/handler.go, on `Validate` of
-- services/ingestion-service/internal/validate (validate.go and v2.go). The store is a parameter:
-- `persist` takes a message to the store's answer and its next state, of a type `S`; the
-- transformation of a message before it is stored belongs to it. Logs and the histogram of
-- durations are left out.
use monitoring_project.Prelude.{
  ℕ, suc, String, Bool, true, false, not, ◌&&◌, List, [], ◌∷◌, ◌=s=◌, if◌then◌else◌, trim_space,
  contains,
}
use monitoring_project.Prelude.Results.{Result, ok, error, ◌>>=◌, require}
use monitoring_project.Ingest.Topics.{
  Kind, kind_device, kind_interface, kind_device_v2, kind_interface_v2, kind_health_v2,
  kind_heartbeat_v2, TopicParts, parse_topic, parse_topic_v2,
}
use monitoring_project.Ingest.Types.{
  EnvelopeV2, DeviceMessage, InterfaceMessage, Message, device, interface, device_v2, interface_v2,
  health_v2, heartbeat_v2, External,
}
use monitoring_project.Ingest.Envelope.{parse_timestamp, validate_envelope}
use monitoring_project.Ingest.Payloads.{
  validate_device_v2, validate_interface_v2, validate_health_v2, validate_heartbeat_v2,
}

module _ {F U T : Type 0} (ext : External F U T) where
  open ext use {json_valid, decode_envelope, decode_device, decode_interface}

  validate_kind : Kind → EnvelopeV2 U T → String → Result (Message F U T)
  validate_kind kind_device_v2 env payload =
      validate_device_v2 ext env payload >>= λ m. ok (device_v2 m)
  validate_kind kind_interface_v2 env payload =
      validate_interface_v2 ext env payload >>= λ m. ok (interface_v2 m)
  validate_kind kind_health_v2 env payload =
      validate_health_v2 ext env payload >>= λ m. ok (health_v2 m)
  validate_kind kind_heartbeat_v2 env payload =
      validate_heartbeat_v2 ext env payload >>= λ m. ok (heartbeat_v2 m)
  validate_kind _ env payload = error "unsupported v2 kind"

  unfoldable pub validate_v2 : String → String → Result (Message F U T)
  unfolding validate_kind
  validate_v2 topic payload = parse_topic_v2 topic >>= λ tp.
      if not (json_valid payload)
      then error "invalid JSON"
      else require (decode_envelope payload) "decode envelope" >>= λ raw.
          validate_envelope ext raw tp >>= λ env. validate_kind tp.kind env raw.payload

  check_optional_ids : TopicParts → String → String → Result Bool
  check_optional_ids tp site_id device_id =
      if not (site_id =s= "") && not (site_id =s= tp.site_id)
      then error "site_id body does not match topic"
      else if not (device_id =s= "") && not (device_id =s= tp.device_id)
      then error "device_id body does not match topic"
      else ok true

  unfoldable pub validate_device : TopicParts → String → Result (DeviceMessage F T)
  unfolding check_optional_ids
  validate_device tp payload = require (decode_device payload) "decode device payload" >>= λ p.
      check_optional_ids tp p.site_id p.device_id >>= λ _. parse_timestamp ext p.timestamp >>= λ ts.
      if trim_space p.metric =s= ""
      then error "metric is required"
      else require p.value "value is required" >>= λ value. ok (record {
        site_id = tp.site_id;
        device_id = tp.device_id;
        ip_address = trim_space p.ip_address;
        timestamp = ts;
        metric = p.metric;
        value = value;
      })

  unfoldable pub validate_interface : TopicParts → String → Result (InterfaceMessage T)
  unfolding check_optional_ids
  validate_interface tp payload =
      require (decode_interface payload) "decode interface payload" >>= λ p.
      check_optional_ids tp p.site_id p.device_id >>= λ _. parse_timestamp ext p.timestamp >>= λ ts.
      require p.if_index "if_index is required" >>= λ if_index.
      require p.in_octets "counters are required" >>= λ in_octets.
      require p.out_octets "counters are required" >>= λ out_octets.
      require p.in_errors "counters are required" >>= λ in_errors.
      require p.out_errors "counters are required" >>= λ out_errors. ok (record {
        site_id = tp.site_id;
        device_id = tp.device_id;
        timestamp = ts;
        if_index = if_index;
        in_octets = in_octets;
        out_octets = out_octets;
        in_errors = in_errors;
        out_errors = out_errors;
      })

  validate_metric : TopicParts → String → Kind → Result (Message F U T)
  validate_metric tp payload kind_device = validate_device tp payload >>= λ m. ok (device m)
  validate_metric tp payload kind_interface =
      validate_interface tp payload >>= λ m. ok (interface m)
  validate_metric tp payload _ = error "unsupported kind"

  unfoldable pub validate : String → String → Result (Message F U T)
  unfolding validate_metric
  validate topic payload =
      if contains topic "/telemetry/v2/"
      then validate_v2 topic payload
      else parse_topic topic >>= λ tp.
          if not (json_valid payload)
          then error "invalid JSON"
          else validate_metric tp payload tp.kind

-- The counters of `metrics.Ingestion` that the handler changes.
pub record Ingestion : Type 0 where
  pub messages_received : ℕ
  pub messages_accepted : ℕ
  pub messages_rejected : ℕ
  pub messages_deduplicated : ℕ
  pub db_write_failure : ℕ

-- A store's answer: `ErrUnknownMetricType`, any other error, or a result.
pub data Persisted : Type 0 where
  inserted : Persisted
  duplicate : Persisted
  unknown_metric_type : Persisted
  failed : Persisted

accepted : Ingestion → Ingestion × Bool
accepted m = (record m { messages_accepted = suc m.messages_accepted }, true)

rejected : Ingestion → Ingestion × Bool
rejected m = (record m { messages_rejected = suc m.messages_rejected }, true)

database_error : Ingestion → Ingestion × Bool
database_error m = (record m { db_write_failure = suc m.db_write_failure }, false)

deduplicated : Ingestion → Ingestion × Bool
deduplicated m = (record m { messages_deduplicated = suc m.messages_deduplicated }, true)

-- `handleDevice` and `handleDeviceV2`, and `recordResult`.
unfoldable pub settle_device : Persisted → Ingestion → Ingestion × Bool
unfolding accepted rejected database_error deduplicated
settle_device inserted m = accepted m
settle_device duplicate m = deduplicated m
settle_device unknown_metric_type m = rejected m
settle_device failed m = database_error m

-- `handleInterface`, `handleInterfaceV2`, `handleHealthV2` and `handleHeartbeatV2`.
unfoldable pub settle_other : Persisted → Ingestion → Ingestion × Bool
unfolding accepted database_error deduplicated
settle_other inserted m = accepted m
settle_other duplicate m = deduplicated m
settle_other unknown_metric_type m = database_error m
settle_other failed m = database_error m

unfoldable pub settle : {F U T : Type 0} → Message F U T → Persisted → Ingestion → Ingestion × Bool
unfolding settle_device settle_other
settle (device msg) r m = settle_device r m
settle (device_v2 msg) r m = settle_device r m
settle (interface msg) r m = settle_other r m
settle (interface_v2 msg) r m = settle_other r m
settle (health_v2 msg) r m = settle_other r m
settle (heartbeat_v2 msg) r m = settle_other r m

pub record Server (S : Type 0) : Type 0 where
  pub store : S
  pub metrics : Ingestion

module _ {F U T S : Type 0} (ext : External F U T)
    (persist : Message F U T → S → Persisted × S) where
  unfoldable pub handle_result : Result (Message F U T) → Server S → Server S × Bool
  unfolding rejected settle
  handle_result (error e) s = let r = rejected s.metrics in (record s { metrics = r.0 }, r.1)
  handle_result (ok msg) s =
      let p = persist msg s.store in
      let r = settle msg p.0 s.metrics in (record { store = p.1; metrics = r.0 }, r.1)

  -- The server after a message, and whether the broker may discard it.
  unfoldable pub handle : String → String → Server S → Server S × Bool
  unfolding handle_result
  handle topic payload s =
      let m = record s.metrics { messages_received = suc s.metrics.messages_received } in
      handle_result (validate ext topic payload) (record s { metrics = m })

  unfoldable pub handle_all : List (String × String) → Server S → Server S
  handle_all [] s = s
  handle_all ((topic, payload) ∷ messages) s = handle_all messages (handle topic payload s).0
