-- ===== src/Ingest/Topics/RoundTrip.antt =====
-- The topics that the collector publishes to are read back.
use monitoring_project.Prelude.{
  ◌≡◌, refl, ap, ◌∙◌, String, true, false, [], ◌∷◌, trim_space, concat,
}
use text.Mathlib.TextLemmas.{append_assoc}
use monitoring_project.Prelude.Results.{ok, ◌>>=◌}
use monitoring_project.Ingest.Text.{
  is_identifier, split_slash, has_slash, has_slash-identifier, split_slash-append,
  split_slash-alone, trim_space-identifier, check_identifier-ok, is_empty-identifier,
}
use monitoring_project.Ingest.Topics.{
  kind_device, kind_interface, kind_device_v2, kind_interface_v2, kind_health_v2, kind_heartbeat_v2,
  device_metric_topic, interface_metric_topic, device_telemetry_topic, interface_telemetry_topic,
  health_state_topic, heartbeat_topic, kind_of, parts_v1, parse_topic, kind_v2_of, device_parts,
  heartbeat_parts, parts_v2, parse_topic_v2,
}

-- The parts of a route that begins with two words and two identifiers in turn.
split_route :
    (a s b t c : String)
    → has_slash a ≡ false
    → is_identifier s ≡ true
    → has_slash b ≡ false
    → is_identifier t ≡ true
    → split_slash (
        concat
          (concat a "/")
          (concat s (concat (concat "/" (concat b "/")) (concat t (concat "/" c)))))
      ≡ a ∷ s ∷ b ∷ t ∷ split_slash c
split_route a s b t c ha hs hb ht =
    let z = concat t (concat "/" c) in
    let y = concat b (concat "/" z) in
    rw
      (
        append_assoc a "/" (concat s (concat (concat "/" (concat b "/")) z)),
        append_assoc "/" (concat b "/") z,
        append_assoc b "/" z,
        split_slash-append a (concat s (concat "/" y)) ha,
        split_slash-append s y (has_slash-identifier s hs),
        split_slash-append b z hb,
        split_slash-append t c (has_slash-identifier t ht),
      )
      refl

split_telemetry :
    (part : String)
    → has_slash part ≡ false
    → split_slash (concat (concat "telemetry" (concat "/" (concat "v2" "/"))) part)
      ≡ "telemetry" ∷ "v2" ∷ part ∷ []
unfolding has_slash
split_telemetry part h =
    rw
      (
        append_assoc "telemetry" (concat "/" (concat "v2" "/")) part,
        append_assoc "/" (concat "v2" "/") part,
        append_assoc "v2" "/" part,
        split_slash-append "telemetry" (concat "v2" (concat "/" part)) refl,
        split_slash-append "v2" part refl,
        split_slash-alone part h,
      )
      refl

device_parts-ok :
    (s t part : String)
    → is_identifier s ≡ true
    → is_identifier t ≡ true
    → device_parts (trim_space s) (trim_space t) part ≡ (
        kind_v2_of part >>= λ kind.
        ok (record { site_id = s; device_id = t; collector_id = ""; kind = kind }))
unfolding device_parts
device_parts-ok s t part hs ht =
    rw
      (
        trim_space-identifier s hs,
        trim_space-identifier t ht,
        is_empty-identifier s hs,
        is_empty-identifier t ht,
        check_identifier-ok s "site_id" hs,
        check_identifier-ok t "device_id" ht,
      )
      refl

heartbeat_parts-ok :
    (s t : String)
    → is_identifier s ≡ true
    → is_identifier t ≡ true
    → heartbeat_parts (trim_space s) (trim_space t)
      ≡ ok (record { site_id = s; device_id = ""; collector_id = t; kind = kind_heartbeat_v2 })
unfolding heartbeat_parts
heartbeat_parts-ok s t hs ht =
    rw
      (
        trim_space-identifier s hs,
        trim_space-identifier t ht,
        is_empty-identifier s hs,
        is_empty-identifier t ht,
        check_identifier-ok s "site_id" hs,
        check_identifier-ok t "collector_id" ht,
      )
      refl

-- What the last part of a device's route decides.
device_topic-parts :
    (s t part : String)
    → is_identifier s ≡ true
    → is_identifier t ≡ true
    → has_slash part ≡ false
    → parse_topic_v2 (
        concat "site/"
          (concat s (concat "/device/" (concat t (concat "/" (concat "telemetry/v2/" part))))))
      ≡ (kind_v2_of part >>= λ kind.
          ok (record { site_id = s; device_id = t; collector_id = ""; kind = kind }))
unfolding parse_topic_v2 parts_v2 has_slash
device_topic-parts s t part hs ht hp =
    ap parts_v2 (
      split_route "site" s "device" t (concat "telemetry/v2/" part) refl hs refl ht
      ∙ ap (λ r. "site" ∷ s ∷ "device" ∷ t ∷ r) (split_telemetry part hp))
    ∙ device_parts-ok s t part hs ht

heartbeat_topic-parts :
    (s t : String)
    → is_identifier s ≡ true
    → is_identifier t ≡ true
    → parse_topic_v2 (heartbeat_topic s t)
      ≡ ok (record { site_id = s; device_id = ""; collector_id = t; kind = kind_heartbeat_v2 })
unfolding parse_topic_v2 parts_v2 has_slash split_slash
heartbeat_topic-parts s t hs ht =
    ap parts_v2 (split_route "site" s "collector" t "telemetry/v2/heartbeat" refl hs refl ht)
    ∙ heartbeat_parts-ok s t hs ht

split_metric :
    (part : String)
    → has_slash part ≡ false
    → split_slash (concat (concat "metric" "/") part) ≡ "metric" ∷ part ∷ []
unfolding has_slash
split_metric part h =
    rw
      (
        append_assoc "metric" "/" part,
        split_slash-append "metric" part refl,
        split_slash-alone part h,
      )
      refl

metric_topic-parts :
    (s t part : String)
    → is_identifier s ≡ true
    → is_identifier t ≡ true
    → has_slash part ≡ false
    → parse_topic (
        concat "site/"
          (concat s (concat "/device/" (concat t (concat "/" (concat "metric/" part))))))
      ≡ (kind_of part >>= λ kind. ok (record { site_id = s; device_id = t; kind = kind }))
unfolding parse_topic parts_v1 has_slash
metric_topic-parts s t part hs ht hp =
    ap parts_v1 (
      split_route "site" s "device" t (concat "metric/" part) refl hs refl ht
      ∙ ap (λ r. "site" ∷ s ∷ "device" ∷ t ∷ r) (split_metric part hp))
    ∙ rw
        (
          trim_space-identifier s hs,
          trim_space-identifier t ht,
          is_empty-identifier s hs,
          is_empty-identifier t ht,
        )
        refl

-- The ingestion service reads each topic that the collector publishes to back as the kind of its
-- event and the identifiers it was made of, where these are valid.
pub parse-topics :
    (s t : String)
    → is_identifier s ≡ true
    → is_identifier t ≡ true
    → (parse_topic (device_metric_topic s t)
        ≡ ok (record { site_id = s; device_id = t; kind = kind_device }))
      × (parse_topic (interface_metric_topic s t)
          ≡ ok (record { site_id = s; device_id = t; kind = kind_interface }))
      × (parse_topic_v2 (device_telemetry_topic s t)
          ≡ ok (record { site_id = s; device_id = t; collector_id = ""; kind = kind_device_v2 }))
      × (parse_topic_v2 (interface_telemetry_topic s t)
          ≡ ok (record { site_id = s; device_id = t; collector_id = ""; kind = kind_interface_v2 }))
      × (parse_topic_v2 (health_state_topic s t)
          ≡ ok (record { site_id = s; device_id = t; collector_id = ""; kind = kind_health_v2 }))
      × (parse_topic_v2 (heartbeat_topic s t)
          ≡ ok (record { site_id = s; device_id = ""; collector_id = t; kind = kind_heartbeat_v2 }))
unfolding kind_of kind_v2_of has_slash
parse-topics s t hs ht = (
  metric_topic-parts s t "device" hs ht refl,
  metric_topic-parts s t "interface" hs ht refl,
  device_topic-parts s t "device" hs ht refl,
  device_topic-parts s t "interface" hs ht refl,
  device_topic-parts s t "health" hs ht refl,
  heartbeat_topic-parts s t hs ht,
)
