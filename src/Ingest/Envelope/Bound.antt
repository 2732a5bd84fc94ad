-- ===== src/Ingest/Envelope/Bound.antt =====
-- What an accepted envelope of services/ingestion-service/internal/validate/v2.go is.
use monitoring_project.Prelude.{
  ◌≡◌, ◌≢◌, ◌↔◌, ◌≤◌, refl, sym, ap, ◌∙◌, inl, inr, String, Bool, false, not, ◌||◌, some, ltb,
  ◌=s=◌, trim_space, arith, eq_iff, Bool-cases,
}
use mathlib.Core.Path.{subst}
use monitoring_project.Prelude.Results.{ok, require, require-ok, bind-ok, if-ok, ok_inj}
use monitoring_project.Ingest.Text.{byte_length, check_identifier}
use monitoring_project.Ingest.Topics.{
  Kind, kind_device, kind_interface, kind_device_v2, kind_interface_v2, kind_health_v2,
  kind_heartbeat_v2, TopicPartsV2,
}
use monitoring_project.Ingest.Types.{EnvelopeRaw, EnvelopeV2, External}
use monitoring_project.Ingest.Envelope.{
  expected_type, parse_timestamp, bind_heartbeat, bind_device, bind_kind, validate_envelope,
}

module _ {F U T : Type 0} (ext : External F U T) where
  open ext use {parse_uuid}

  -- A heartbeat names the topic's collector and no device, any other event the topic's device.
  pub IsDeviceOf : Kind → EnvelopeRaw → TopicPartsV2 → EnvelopeV2 U T → Type 0
  IsDeviceOf kind_heartbeat_v2 raw tp env =
      (raw.device_id ≡ "") × (env.device_id ≡ "") × (raw.collector_id ≡ tp.collector_id)
  IsDeviceOf kind raw tp env =
      (raw.device_id ≡ tp.device_id)
      × (env.device_id ≡ raw.device_id)
      × ((b : Bool) × (check_identifier raw.device_id "device_id" ≡ ok b))

  -- What the body of a message and its topic must be for an envelope to come out.
  pub record IsBound (raw : EnvelopeRaw) (tp : TopicPartsV2) (env : EnvelopeV2 U T) : Type 0 where
    pub version : raw.schema_version ≡ "2.0"
    pub event_id : parse_uuid (trim_space raw.event_id) ≡ some env.event_id
    pub site : raw.site_id ≡ tp.site_id
    pub site_checked : (b : Bool) × (check_identifier raw.site_id "site_id" ≡ ok b)
    pub collector_checked : (b : Bool) × (check_identifier raw.collector_id "collector_id" ≡ ok b)
    pub observed : parse_timestamp ext raw.observed_at ≡ ok env.observed_at
    pub emitted : parse_timestamp ext raw.emitted_at ≡ ok env.emitted_at
    pub revision_given : trim_space raw.config_revision ≢ ""
    pub revision_fits : byte_length raw.config_revision ≤ 128
    pub payload : (raw.payload ≢ "") × (raw.payload ≢ "null") × (raw.payload ≢ "{}")
    pub event : raw.event_type ≡ expected_type tp.kind
    pub device : IsDeviceOf tp.kind raw tp env
    pub kept_version : env.schema_version ≡ raw.schema_version
    pub kept_event : env.event_type ≡ raw.event_type
    pub kept_site : env.site_id ≡ raw.site_id
    pub kept_collector : env.collector_id ≡ raw.collector_id
    pub kept_revision : env.config_revision ≡ raw.config_revision

  not-not : (s t : String) → not (s =s= t) ≡ false → s ≡ t
  not-not s t h = (eq_iff s t).0 (ground arith)

  differs : (s t : String) → (s =s= t) ≡ false → s ≢ t
  differs s t h e = absurd (cc ((eq_iff s t).1 e, h))

  differs-not : (s t : String) → s ≢ t → (s =s= t) ≡ false
  differs-not s t h = elim (Bool-cases (s =s= t)) [
    | inl e ↦ absurd (h ((eq_iff s t).0 e))
    | inr e ↦ e
  ]

  -- The envelope before the device is bound.
  abbrev unbound : EnvelopeRaw → U → T → T → EnvelopeV2 U T
  unbound raw event_id observed_at emitted_at = record {
    schema_version = raw.schema_version;
    event_id = event_id;
    event_type = raw.event_type;
    site_id = raw.site_id;
    collector_id = raw.collector_id;
    device_id = "";
    observed_at = observed_at;
    emitted_at = emitted_at;
    config_revision = raw.config_revision;
  }

  bound_device :
      (raw : EnvelopeRaw) (tp : TopicPartsV2) (e env : EnvelopeV2 U T)
      → bind_device ext raw tp e ≡ ok env
      → ((raw.device_id ≡ tp.device_id)
          × ((b : Bool) × (check_identifier raw.device_id "device_id" ≡ ok b)))
        × (record e { device_id = raw.device_id } ≡ env)
  unfolding bind_device
  bound_device raw tp e env h =
      let c = bind-ok (check_identifier raw.device_id "device_id") _ env h in
      let d = if-ok _ _ _ env c.2 in
      ((not-not raw.device_id tp.device_id d.0, (c.0, c.1)), ok_inj d.1)

  bound_heartbeat :
      (raw : EnvelopeRaw) (tp : TopicPartsV2) (e env : EnvelopeV2 U T)
      → bind_heartbeat ext raw tp e ≡ ok env
      → (raw.device_id ≡ "") × (raw.collector_id ≡ tp.collector_id) × (e ≡ env)
  unfolding bind_heartbeat
  bound_heartbeat raw tp e env h =
      let c = if-ok _ _ _ env h in
      let d = if-ok _ _ _ env c.1 in
      (not-not raw.device_id "" c.0, not-not raw.collector_id tp.collector_id d.0, ok_inj d.1)

  -- The envelope that comes out differs from the one that was made in its device only.
  IsFrom : Kind → EnvelopeRaw → TopicPartsV2 → EnvelopeV2 U T → EnvelopeV2 U T → Type 0
  IsFrom kind raw tp e env =
      (d : String) × IsDeviceOf kind raw tp (record e { device_id = d })
      × (record e { device_id = d } ≡ env)

  bound_kind :
      (raw : EnvelopeRaw) (tp : TopicPartsV2) (e env : EnvelopeV2 U T) (kind : Kind)
      → e.device_id ≡ ""
      → bind_kind ext kind raw tp e ≡ ok env
      → IsFrom kind raw tp e env
  unfolding bind_kind IsDeviceOf IsFrom
  bound_kind raw tp e env kind_heartbeat_v2 d h =
      let (a, c, b) = bound_heartbeat raw tp e env h in (e.device_id, (a, d, c), b)
  bound_kind raw tp e env kind_device d h =
      let (a, b) = bound_device raw tp e env h in (raw.device_id, (a.0, refl, a.1), b)
  bound_kind raw tp e env kind_interface d h =
      let (a, b) = bound_device raw tp e env h in (raw.device_id, (a.0, refl, a.1), b)
  bound_kind raw tp e env kind_device_v2 d h =
      let (a, b) = bound_device raw tp e env h in (raw.device_id, (a.0, refl, a.1), b)
  bound_kind raw tp e env kind_interface_v2 d h =
      let (a, b) = bound_device raw tp e env h in (raw.device_id, (a.0, refl, a.1), b)
  bound_kind raw tp e env kind_health_v2 d h =
      let (a, b) = bound_device raw tp e env h in (raw.device_id, (a.0, refl, a.1), b)

  bind_device-made :
      (raw : EnvelopeRaw) (tp : TopicPartsV2) (e env : EnvelopeV2 U T)
      → (raw.device_id ≡ tp.device_id)
        × (env.device_id ≡ raw.device_id)
        × ((b : Bool) × (check_identifier raw.device_id "device_id" ≡ ok b))
      → record e { device_id = env.device_id } ≡ env
      → bind_device ext raw tp e ≡ ok env
  unfolding bind_device
  bind_device-made raw tp e env (a, same, (b, c)) made =
      rw (c, (eq_iff raw.device_id tp.device_id).1 a)
        (ap ok (ap {A = String} (λ x. record e { device_id = x }) (sym same) ∙ made))

  bind_kind-made :
      (raw : EnvelopeRaw) (tp : TopicPartsV2) (e env : EnvelopeV2 U T) (kind : Kind)
      → e.device_id ≡ ""
      → IsDeviceOf kind raw tp env
      → record e { device_id = env.device_id } ≡ env
      → bind_kind ext kind raw tp e ≡ ok env
  unfolding bind_kind bind_heartbeat IsDeviceOf
  bind_kind-made raw tp e env kind_heartbeat_v2 d (a, none_, c) made =
      rw ((eq_iff raw.device_id "").1 a, (eq_iff raw.collector_id tp.collector_id).1 c)
        (ap ok (cc (made, none_, d)))
  bind_kind-made raw tp e env kind_device d b made = bind_device-made raw tp e env b made
  bind_kind-made raw tp e env kind_interface d b made = bind_device-made raw tp e env b made
  bind_kind-made raw tp e env kind_device_v2 d b made = bind_device-made raw tp e env b made
  bind_kind-made raw tp e env kind_interface_v2 d b made = bind_device-made raw tp e env b made
  bind_kind-made raw tp e env kind_health_v2 d b made = bind_device-made raw tp e env b made

  no_text : (a b c : Bool) → (a || b || c) ≡ false → (a ≡ false) × (b ≡ false) × (c ≡ false)
  no_text a b c h = (ground arith, ground arith, ground arith)

  accepted-IsBound :
      (raw : EnvelopeRaw) (tp : TopicPartsV2) (env : EnvelopeV2 U T)
      → validate_envelope ext raw tp ≡ ok env
      → IsBound raw tp env
  unfolding validate_envelope IsFrom
  accepted-IsBound raw tp env h =
      let a = if-ok _ _ _ env h in
      let b =
        bind-ok (require (parse_uuid (trim_space raw.event_id)) "invalid event_id") _ env a.1 in
      let c = bind-ok (check_identifier raw.site_id "site_id") _ env b.2 in
      let d = bind-ok (check_identifier raw.collector_id "collector_id") _ env c.2 in
      let e = if-ok _ _ _ env d.2 in
      let f = bind-ok (parse_timestamp ext raw.observed_at) _ env e.1 in
      let g = bind-ok (parse_timestamp ext raw.emitted_at) _ env f.2 in
      let blank = trim_space raw.config_revision =s= "" in
      let long = ltb 128 (byte_length raw.config_revision) in
      let i = if-ok (blank || long) _ _ env g.2 in
      let j = if-ok _ _ _ env i.1 in
      let k = if-ok _ _ _ env j.1 in
      let r = bound_kind raw tp (unbound raw b.0 f.0 g.0) env tp.kind refl k.1 in
      let (p, q, o) =
        no_text (raw.payload =s= "") (raw.payload =s= "null") (raw.payload =s= "{}") j.0 in
      let short : long ≡ false = ground (arith, i.0) in
      subst (IsBound raw tp) r.2 (record {
        version = not-not raw.schema_version "2.0" a.0;
        event_id = require-ok _ _ b.0 b.1;
        site = not-not raw.site_id tp.site_id e.0;
        site_checked = (c.0, c.1);
        collector_checked = (d.0, d.1);
        observed = f.1;
        emitted = g.1;
        revision_given = differs (trim_space raw.config_revision) "" (ground (arith, i.0));
        revision_fits = ground (arith, short);
        payload =
            (differs raw.payload "" p, differs raw.payload "null" q, differs raw.payload "{}" o);
        event = not-not raw.event_type (expected_type tp.kind) k.0;
        device = r.1;
        kept_version = refl;
        kept_event = refl;
        kept_site = refl;
        kept_collector = refl;
        kept_revision = refl;
      })

  bound-accepted :
      (raw : EnvelopeRaw) (tp : TopicPartsV2) (env : EnvelopeV2 U T)
      → IsBound raw tp env
      → validate_envelope ext raw tp ≡ ok env
  unfolding validate_envelope
  bound-accepted raw tp env b =
      let short : ltb 128 (byte_length raw.config_revision) ≡ false =
        ground (arith, b.revision_fits) in
      rw
        (
          (eq_iff raw.schema_version "2.0").1 b.version,
          b.event_id,
          b.site_checked.1,
          b.collector_checked.1,
          (eq_iff raw.site_id tp.site_id).1 b.site,
          b.observed,
          b.emitted,
          differs-not (trim_space raw.config_revision) "" b.revision_given,
          short,
          differs-not raw.payload "" b.payload.0,
          differs-not raw.payload "null" b.payload.1,
          differs-not raw.payload "{}" b.payload.2,
          (eq_iff raw.event_type (expected_type tp.kind)).1 b.event,
        )
        (bind_kind-made raw tp (unbound raw env.event_id env.observed_at env.emitted_at) env tp.kind
          refl b.device
          (cc (b.kept_version, b.kept_event, b.kept_site, b.kept_collector, b.kept_revision)))

  pub validate_envelope-IsBound :
      (raw : EnvelopeRaw) (tp : TopicPartsV2) (env : EnvelopeV2 U T)
      → (validate_envelope ext raw tp ≡ ok env) ↔ IsBound raw tp env
  validate_envelope-IsBound raw tp env = (accepted-IsBound raw tp env, bound-accepted raw tp env)
