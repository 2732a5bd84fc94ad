-- ===== src/Ingest/Topics.antt =====
-- The topics that the collector publishes to, `Topic` of services/snmp-collector/internal/events
-- (events.go and v2.go), and the ingestion service's reading of them, `ParseTopic` and
-- `ParseTopicV2` of services/ingestion-service/internal/validate (validate.go and v2.go).
pub mod RoundTrip
use monitoring_project.Prelude.{
  String, true, false, not, ◌&&◌, ◌||◌, List, [], ◌∷◌, ◌=s=◌, if◌then◌else◌, trim_space, concat,
}
use monitoring_project.Prelude.Results.{Result, ok, error, ◌>>=◌}
use monitoring_project.Ingest.Text.{check_identifier, split_slash}

pub data Kind : Type 0 where
  kind_device : Kind
  kind_interface : Kind
  kind_device_v2 : Kind
  kind_interface_v2 : Kind
  kind_health_v2 : Kind
  kind_heartbeat_v2 : Kind

pub record TopicParts : Type 0 where
  pub site_id : String
  pub device_id : String
  pub kind : Kind

pub record TopicPartsV2 : Type 0 where
  pub site_id : String
  pub device_id : String
  pub collector_id : String
  pub kind : Kind

-- `Topic` of each event.
abbrev pub device_metric_topic : String → String → String
device_metric_topic site_id device_id =
    concat "site/" (concat site_id (concat "/device/" (concat device_id "/metric/device")))

abbrev pub interface_metric_topic : String → String → String
interface_metric_topic site_id device_id =
    concat "site/" (concat site_id (concat "/device/" (concat device_id "/metric/interface")))

abbrev pub device_telemetry_topic : String → String → String
device_telemetry_topic site_id device_id =
    concat "site/" (concat site_id (concat "/device/" (concat device_id "/telemetry/v2/device")))

abbrev pub interface_telemetry_topic : String → String → String
interface_telemetry_topic site_id device_id =
    concat "site/" (concat site_id (concat "/device/" (concat device_id "/telemetry/v2/interface")))

abbrev pub health_state_topic : String → String → String
health_state_topic site_id device_id =
    concat "site/" (concat site_id (concat "/device/" (concat device_id "/telemetry/v2/health")))

abbrev pub heartbeat_topic : String → String → String
heartbeat_topic site_id collector_id =
    concat "site/"
      (concat site_id (concat "/collector/" (concat collector_id "/telemetry/v2/heartbeat")))

kind_of : String → Result Kind
kind_of part =
    if part =s= "device"
    then ok kind_device
    else if part =s= "interface"
    then ok kind_interface
    else error "invalid topic kind"

parts_v1 : List String → Result TopicParts
unfolding kind_of
parts_v1 (p0 ∷ p1 ∷ p2 ∷ p3 ∷ p4 ∷ p5 ∷ []) =
    if not (p0 =s= "site" && p2 =s= "device" && p4 =s= "metric")
    then error "invalid topic layout"
    else let site_id = trim_space p1 in
      let device_id = trim_space p3 in
      if site_id =s= "" || device_id =s= ""
      then error "invalid topic: empty site_id or device_id"
      else do
        kind ← kind_of p5
        ok (record { site_id = site_id; device_id = device_id; kind = kind })
parts_v1 _ = error "invalid topic: expected 6 segments"

unfoldable pub parse_topic : String → Result TopicParts
unfolding parts_v1
parse_topic topic = parts_v1 (split_slash topic)

kind_v2_of : String → Result Kind
kind_v2_of part =
    if part =s= "device"
    then ok kind_device_v2
    else if part =s= "interface"
    then ok kind_interface_v2
    else if part =s= "health"
    then ok kind_health_v2
    else error "invalid v2 device topic kind"

device_parts : String → String → String → Result TopicPartsV2
unfolding kind_v2_of
device_parts site_id device_id part =
    if site_id =s= "" || device_id =s= ""
    then error "invalid v2 topic: empty site_id or device_id"
    else do
      _ ← check_identifier site_id "site_id"
      _ ← check_identifier device_id "device_id"
      kind ← kind_v2_of part
      ok (record { site_id = site_id; device_id = device_id; collector_id = ""; kind = kind })

heartbeat_parts : String → String → Result TopicPartsV2
heartbeat_parts site_id collector_id =
    if site_id =s= "" || collector_id =s= ""
    then error "invalid heartbeat topic: empty site_id or collector_id"
    else do
      _ ← check_identifier site_id "site_id"
      _ ← check_identifier collector_id "collector_id"
      ok (record {
        site_id = site_id;
        device_id = "";
        collector_id = collector_id;
        kind = kind_heartbeat_v2;
      })

parts_v2 : List String → Result TopicPartsV2
unfolding device_parts heartbeat_parts
parts_v2 (p0 ∷ p1 ∷ p2 ∷ p3 ∷ p4 ∷ p5 ∷ p6 ∷ []) =
    if p0 =s= "site" && p2 =s= "device" && p4 =s= "telemetry" && p5 =s= "v2"
    then device_parts (trim_space p1) (trim_space p3) p6
    else if p0 =s= "site"
        && p2 =s= "collector"
        && p4 =s= "telemetry"
        && p5 =s= "v2"
        && p6 =s= "heartbeat"
    then heartbeat_parts (trim_space p1) (trim_space p3)
    else error "invalid v2 topic layout"
parts_v2 _ = error "invalid v2 topic layout"

unfoldable pub parse_topic_v2 : String → Result TopicPartsV2
unfolding parts_v2
parse_topic_v2 topic = parts_v2 (split_slash topic)
