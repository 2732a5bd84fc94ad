-- ===== src/Ingest/Tests.antt =====
-- Runs of the ingestion service.
use monitoring_project.Prelude.{
  ℕ, ◌≡◌, refl, String, true, false, none, some, List, [], ◌∷◌, ◌↔◌, IsDistinct, elem, contains,
  trim_space, ◌++◌, ◌==◌, ◌+◌, if◌then◌else◌,
}
use monitoring_project.Prelude.Int.{pos}
use monitoring_project.Prelude.Results.{ok}
use monitoring_project.Ingest.Text.{is_identifier, check_identifier, split_slash}
use monitoring_project.Ingest.Topics.{
  kind_device_v2, kind_heartbeat_v2, TopicPartsV2, parse_topic, parse_topic_v2, device_metric_topic,
  interface_metric_topic, device_telemetry_topic, interface_telemetry_topic, health_state_topic,
  heartbeat_topic, kind_device, kind_interface, kind_health_v2, kind_interface_v2,
}
use monitoring_project.Ingest.Topics.RoundTrip.{parse-topics}
use monitoring_project.Ingest.Types.{
  EnvelopeRaw, EnvelopeV2, External, Message, heartbeat_v2, HeartbeatPayloadV2,
}
use monitoring_project.Ingest.Envelope.{validate_envelope, parse_timestamp, expected_type}
use monitoring_project.Ingest.Envelope.Bound.{IsBound, validate_envelope-IsBound}
use monitoring_project.Ingest.Payloads.{
  check_capabilities, check_capabilities-IsDistinct, validate_heartbeat_v2,
}
use monitoring_project.Ingest.Handler.{
  Persisted, inserted, failed, Server, validate, validate_v2, handle, handle_all, handle_result,
  settle,
}
use monitoring_project.Ingest.Acks.{settled, handle-counts, handle-persist, handle_all-settled}

abbrev raw_heartbeat : EnvelopeRaw
raw_heartbeat = record {
  schema_version = "2.0";
  event_id = "id";
  event_type = "collector_heartbeat";
  site_id = "hq";
  collector_id = "col-1";
  device_id = "";
  observed_at = "noon";
  emitted_at = "noon";
  config_revision = "r1";
  payload = "beat";
}

abbrev beat : HeartbeatPayloadV2
beat = record {
  hostname = "h";
  version = "1";
  git_commit = "c";
  build_time = "unknown";
  uptime_seconds = some (pos 1);
  sqlite_queue_depth = some (pos 0);
  memory_usage_bytes = some (pos 5);
  goroutine_count = some (pos 3);
}

-- Only heartbeats decode here; a number is a natural number, a time and an id are texts.
abbrev ext : External ℕ String String
ext = record {
  json_valid = λ s. true;
  decode_envelope = λ s. some raw_heartbeat;
  decode_device_v2 = λ s. none;
  decode_interface_v2 = λ s. none;
  decode_health_v2 = λ s. none;
  decode_heartbeat_v2 = λ s. some beat;
  decode_device = λ s. none;
  decode_interface = λ s. none;
  parse_uuid = λ s. some s;
  parse_rfc3339 = λ s. some s;
  parse_rfc3339_nano = λ s. none;
  below_zero = λ n. false;
  above_hundred = λ n. false;
}

-- A store of as many rows as it was given, which fails once it has one.
abbrev persist : Message ℕ String String → ℕ → Persisted × ℕ
persist m n = if n == 1 then (failed, n) else (inserted, n + 1)

abbrev server : Server ℕ
server = record {
  store = 0;
  metrics = record {
    messages_received = 0;
    messages_accepted = 0;
    messages_rejected = 0;
    messages_deduplicated = 0;
    db_write_failure = 0;
  };
}

abbrev heartbeats : List (String × String)
heartbeats =
    ("site/hq/collector/col-1/telemetry/v2/heartbeat", "{..}")
    ∷ ("site/hq", "{..}")
    ∷ ("site/hq/collector/col-1/telemetry/v2/heartbeat", "{..}")
    ∷ []

parse-topics_example :
    (parse_topic (device_metric_topic "hq" "sw-1")
      ≡ ok (record { site_id = "hq"; device_id = "sw-1"; kind = kind_device }))
    × (parse_topic (interface_metric_topic "hq" "sw-1")
        ≡ ok (record { site_id = "hq"; device_id = "sw-1"; kind = kind_interface }))
    × (parse_topic_v2 (device_telemetry_topic "hq" "sw-1")
        ≡ ok (record {
          site_id = "hq";
          device_id = "sw-1";
          collector_id = "";
          kind = kind_device_v2;
        }))
    × (parse_topic_v2 (interface_telemetry_topic "hq" "sw-1")
        ≡ ok (record {
          site_id = "hq";
          device_id = "sw-1";
          collector_id = "";
          kind = kind_interface_v2;
        }))
    × (parse_topic_v2 (health_state_topic "hq" "sw-1")
        ≡ ok (record {
          site_id = "hq";
          device_id = "sw-1";
          collector_id = "";
          kind = kind_health_v2;
        }))
    × (parse_topic_v2 (heartbeat_topic "hq" "sw-1")
        ≡ ok (record {
          site_id = "hq";
          device_id = "";
          collector_id = "sw-1";
          kind = kind_heartbeat_v2;
        }))
unfolding is_identifier
parse-topics_example = parse-topics "hq" "sw-1" refl refl

abbrev heartbeat_parts : TopicPartsV2
heartbeat_parts = record {
  site_id = "hq";
  device_id = "";
  collector_id = "col-1";
  kind = kind_heartbeat_v2;
}

abbrev heartbeat_envelope : EnvelopeV2 String String
heartbeat_envelope = record {
  schema_version = "2.0";
  event_id = "id";
  event_type = "collector_heartbeat";
  site_id = "hq";
  collector_id = "col-1";
  device_id = "";
  observed_at = "noon";
  emitted_at = "noon";
  config_revision = "r1";
}

-- The heartbeat is accepted, so it is bound.
heartbeat-IsBound : IsBound ext raw_heartbeat heartbeat_parts heartbeat_envelope
unfolding validate_envelope parse_timestamp expected_type check_identifier is_identifier trim_space
heartbeat-IsBound =
    (validate_envelope-IsBound ext raw_heartbeat heartbeat_parts heartbeat_envelope).0 refl

handle-counts_example :
    ((handle ext persist "site/hq" "{..}" server).0.metrics.messages_received ≡ 1)
    × (settled (handle ext persist "site/hq" "{..}" server).0.metrics ≡ 1)
    × (((handle ext persist "site/hq" "{..}" server).1 ≡ false)
        ↔ ((handle ext persist "site/hq" "{..}" server).0.metrics.db_write_failure ≡ 1))
handle-counts_example = handle-counts ext persist "site/hq" "{..}" server

abbrev heartbeat_message : Message ℕ String String
heartbeat_message = heartbeat_v2 (record {
  envelope = heartbeat_envelope;
  hostname = "h";
  version = "1";
  git_commit = "c";
  build_time = "unknown";
  uptime_seconds = pos 1;
  sqlite_queue_depth = pos 0;
  memory_usage_bytes = pos 5;
  goroutine_count = pos 3;
})

abbrev heartbeat_topic_text : String
heartbeat_topic_text = "site/hq/collector/col-1/telemetry/v2/heartbeat"

handle-persist_example :
    ((handle ext persist heartbeat_topic_text "{..}" server).0.store ≡ 1)
    × ((handle ext persist heartbeat_topic_text "{..}" server).1 ≡ true)
unfolding validate validate_v2 validate_envelope validate_heartbeat_v2 parse_topic_v2
    parse_timestamp expected_type check_identifier is_identifier contains split_slash trim_space
handle-persist_example =
    handle-persist ext persist heartbeat_topic_text "{..}" server heartbeat_message refl

handle_all-settled_example :
    (handle_all ext persist heartbeats server).metrics.messages_received
    ≡ settled (handle_all ext persist heartbeats server).metrics
handle_all-settled_example = handle_all-settled ext persist heartbeats server refl

abbrev cpu_and_power : List String
cpu_and_power = "cpu" ∷ "power" ∷ []

check_capabilities-IsDistinct_example :
    IsDistinct cpu_and_power × (cpu_and_power ≡ [] ++ cpu_and_power)
unfolding check_capabilities elem
check_capabilities-IsDistinct_example =
    check_capabilities-IsDistinct cpu_and_power [] cpu_and_power tt refl

-- An accepted heartbeat, a message with no such topic, and a heartbeat that the store fails on.
heartbeats_run : (handle_all ext persist heartbeats server).metrics ≡ record {
  messages_received = 3;
  messages_accepted = 1;
  messages_rejected = 1;
  messages_deduplicated = 0;
  db_write_failure = 1;
}
unfolding handle_all handle handle_result settle validate validate_v2 validate_envelope
    validate_heartbeat_v2 parse_topic_v2 parse_topic parse_timestamp expected_type check_identifier
    is_identifier contains split_slash trim_space
heartbeats_run = refl

-- The check cuts the spaces around an identifier, which the message then keeps.
spaces_pass : check_identifier " col-1 " "collector_id" ≡ ok true
unfolding check_identifier is_identifier trim_space
spaces_pass = refl
