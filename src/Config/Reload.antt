-- ===== src/Config/Reload.antt =====
-- What stays true of the active configuration over the reloads of
-- services/snmp-collector/internal/config/snapshot.go.
use monitoring_project.Prelude.{
  ◌≡◌, refl, sym, ap, ◌∙◌, inl, inr, ◌⊎◌, String, Bool, true, false, not, ◌&&◌, some, ==_iff,
  eq_iff, if◌then◌else◌,
}
use monitoring_project.Prelude.Int.{ℤ, pos, negsuc, same_int}
use monitoring_project.Prelude.Results.{
  Result, ok, error, Check, Result-cases, seq-ok, refuse_if-ok, ok_inj, ◌>>◌,
}
use monitoring_project.Config.Types.{
  Std, Floats, Config, PublisherConfig, BufferConfig, MqttConfig, AdminConfig,
}
use monitoring_project.Config.Accepts.{validate_dependencies-IsRanking}
use monitoring_project.Config.Validate.{validate_config, validate, validate_runtime_secrets}
use monitoring_project.Config.Load.{Files, prepare_config, load}
use monitoring_project.Config.Manager.{
  same_admin, same_publisher, same_buffer, same_mqtt, validate_reload, Manager, activate, reload,
}

same_int-eq : (a b : ℤ) → same_int a b ≡ true → a ≡ b
same_int-eq (pos a) (pos b) h = ap pos ((==_iff a b).0 h)
same_int-eq (pos a) (negsuc b) h = absurd (cc)
same_int-eq (negsuc a) (pos b) h = absurd (cc)
same_int-eq (negsuc a) (negsuc b) h = ap negsuc ((==_iff a b).0 h)

and_true : (a b : Bool) → (a && b) ≡ true → (a ≡ true) × (b ≡ true)
and_true true b h = (refl, h)
and_true false b h = absurd (cc)

same_admin-eq : (a b : AdminConfig) → same_admin a b ≡ true → a ≡ b
unfolding same_admin
same_admin-eq a b h =
    let (h1, h2) = and_true _ _ h in
    cc ((eq_iff a.listen b.listen).0 h1, (eq_iff a.control_socket b.control_socket).0 h2)

same_publisher-eq : (a b : PublisherConfig) → same_publisher a b ≡ true → a ≡ b
unfolding same_publisher
same_publisher-eq a b h =
    let (h12, h3) = and_true _ _ h in
    let (h1, h2) = and_true _ _ h12 in
    cc (
      (eq_iff a.mode b.mode).0 h1,
      same_int-eq a.timeout b.timeout h2,
      (eq_iff a.telemetry_version b.telemetry_version).0 h3,
    )

same_buffer-eq : (a b : BufferConfig) → same_buffer a b ≡ true → a ≡ b
unfolding same_buffer
same_buffer-eq a b h =
    let (h1234, h5) = and_true _ _ h in
    let (h123, h4) = and_true _ _ h1234 in
    let (h12, h3) = and_true _ _ h123 in
    let (h1, h2) = and_true _ _ h12 in
    cc (
      (eq_iff a.path b.path).0 h1,
      same_int-eq a.max_entries b.max_entries h2,
      same_int-eq a.busy_timeout_ms b.busy_timeout_ms h3,
      same_int-eq a.batch_size b.batch_size h4,
      same_int-eq a.idle_backoff b.idle_backoff h5,
    )

same_mqtt-eq : (a b : MqttConfig) → same_mqtt a b ≡ true → a ≡ b
unfolding same_mqtt
same_mqtt-eq a b h =
    let (g9, h10) = and_true _ _ h in
    let (g8, h9) = and_true _ _ g9 in
    let (g7, h8) = and_true _ _ g8 in
    let (g6, h7) = and_true _ _ g7 in
    let (g5, h6) = and_true _ _ g6 in
    let (g4, h5) = and_true _ _ g5 in
    let (g3, h4) = and_true _ _ g4 in
    let (g2, h3) = and_true _ _ g3 in
    let (h1, h2) = and_true _ _ g2 in
    let tls : a.tls ≡ b.tls = cc (
      (eq_iff a.tls.ca_file b.tls.ca_file).0 h6,
      (eq_iff a.tls.cert_file b.tls.cert_file).0 h7,
      (eq_iff a.tls.key_file b.tls.key_file).0 h8,
    ) in
    let reconnect : a.reconnect ≡ b.reconnect = cc (
      same_int-eq a.reconnect.initial b.reconnect.initial h9,
      same_int-eq a.reconnect.max b.reconnect.max h10,
    ) in
    cc (
      (eq_iff a.broker b.broker).0 h1,
      (eq_iff a.client_id b.client_id).0 h2,
      (eq_iff a.username b.username).0 h3,
      (eq_iff a.password_env b.password_env).0 h4,
      (==_iff a.qos b.qos).0 h5,
      tls,
      reconnect,
    )

not-false : (b : Bool) → not b ≡ false → b ≡ true
not-false true h = refl
not-false false h = absurd (cc)

module _ {F : Type 0} where
  -- What a reload may not change.
  abbrev pub AreSettingsKept : Config F → Config F → Type 0
  AreSettingsKept a b =
      (a.site_id ≡ b.site_id)
      × (a.collector.id ≡ b.collector.id)
      × (a.admin ≡ b.admin)
      × (a.publisher ≡ b.publisher)
      × (a.buffer ≡ b.buffer)
      × (a.mqtt ≡ b.mqtt)

  validate_reload-ok : (a b : Config F) → validate_reload a b ≡ ok tt → AreSettingsKept a b
  unfolding validate_reload
  validate_reload-ok a b h =
      let hs = (refuse_if-ok _).0 h in
      (
        (eq_iff a.site_id b.site_id).0 (not-false _ hs.0),
        (eq_iff a.collector.id b.collector.id).0 (not-false _ hs.1.0),
        same_admin-eq a.admin b.admin (not-false _ hs.1.1.0),
        same_publisher-eq a.publisher b.publisher (not-false _ hs.1.1.1.0),
        same_buffer-eq a.buffer b.buffer (not-false _ hs.1.1.1.1.0),
        same_mqtt-eq a.mqtt b.mqtt (not-false _ hs.1.1.1.1.1.0),
      )

  AreSettingsKept-refl : (a : Config F) → AreSettingsKept a a
  AreSettingsKept-refl a = (refl, refl, refl, refl, refl, refl)

  AreSettingsKept-trans :
      (a b c : Config F) → AreSettingsKept a b → AreSettingsKept b c → AreSettingsKept a c
  AreSettingsKept-trans a b c (p1, p2, p3, p4, p5, p6) (q1, q2, q3, q4, q5, q6) =
      (p1 ∙ q1, p2 ∙ q2, p3 ∙ q3, p4 ∙ q4, p5 ∙ q5, p6 ∙ q6)

  module _ (fl : Floats F) (std : Std) where
    abbrev pub IsAccepted : Config F → Type 0
    IsAccepted c = validate fl std c ≡ some (ok tt)

    pub validate-returns : (c : Config F) → (r : Check) × (validate fl std c ≡ some r)
    unfolding validate
    validate-returns c = elim (Result-cases (validate_config fl std c)) [
      | inr (e, h) ↦ rw (h, validate) (error e, refl)
      | inl (_, h) ↦ rw (h, validate) (validate_dependencies-IsRanking c.devices).0
    ]

    -- `load` always answers, and a configuration that it gives is accepted.
    pub load-IsAccepted :
        (files : Files F) (secrets : Bool) (path : String)
        → (r : Result (Config F)) × (load fl std files secrets path ≡ some r)
          × ((c : Config F) → r ≡ ok c → IsAccepted c)
    unfolding load
    load-IsAccepted files secrets path = elim (Result-cases (prepare_config fl std files path)) [
      | inr (e, h) ↦ rw (h, load) (error e, refl, λ c k. absurd (cc))
      | inl (c, h) ↦
          let (r, v) = validate-returns c in
          elim (Result-cases r) [
            | inr (e, k) ↦ rw (h, v, k, load) (error e, refl, λ d q. absurd (cc))
            | inl (_, k) ↦
                rw (h, v, k, load)
                  (
                    (if secrets then validate_runtime_secrets fl std c else ok tt) >> ok c,
                    refl,
                    λ d q.
                        let (_, w) =
                          seq-ok (if secrets then validate_runtime_secrets fl std c else ok tt)
                            (ok c) d q in
                        rw (sym (ok_inj w)) (v ∙ ap some k),
                  )
          ]
    ]

    -- A reload, of whatever the files hold.
    pub data Reloads : Manager F → Manager F → Type 0 where
      stays : (m : Manager F) → Reloads m m
      reloads :
          (m n p : Manager F) (files : Files F) (r : Check)
          → Reloads m n
          → reload fl std files n ≡ some (r, p)
          → Reloads m p

    activate-IsAccepted :
        (r : Result (Config F)) (m : Manager F)
        → IsAccepted m.current
        → ((c : Config F) → r ≡ ok c → IsAccepted c)
        → let a = activate r m in
          IsAccepted a.1.current
          × AreSettingsKept m.current a.1.current
          × (a.1.path ≡ m.path)
          × ((a.0 ≡ ok tt) ⊎ (a.1 ≡ m))
    unfolding activate
    activate-IsAccepted (error e) m a f = (a, AreSettingsKept-refl m.current, refl, inr refl)
    activate-IsAccepted (ok next) m a f = elim (Result-cases (validate_reload m.current next)) [
      | inr (e, h) ↦ rw (h, activate) (a, AreSettingsKept-refl m.current, refl, inr refl)
      | inl (_, h) ↦
          rw (h, activate) (f next refl, validate_reload-ok m.current next h, refl, inl refl)
    ]

    -- A reload always answers. Whatever the files hold, the configuration after it is accepted and
    -- keeps the settings that a reload may not change, and a reload that gives an error leaves the
    -- manager as it was.
    pub reload-IsAccepted :
        (files : Files F) (m : Manager F)
        → IsAccepted m.current
        → (r : Check) × (m' : Manager F) × (reload fl std files m ≡ some (r, m'))
          × IsAccepted m'.current
          × AreSettingsKept m.current m'.current
          × (m'.path ≡ m.path)
          × ((r ≡ ok tt) ⊎ (m' ≡ m))
    unfolding reload
    reload-IsAccepted files m a =
        let (r, e, f) = load-IsAccepted files true m.path in
        let (b, c, d, g) = activate-IsAccepted r m a f in
        ((activate r m).0, (activate r m).1, rw (e, reload) refl, b, c, d, g)

    -- Over any series of reloads, failed ones included, the active configuration stays accepted
    -- and keeps those settings.
    pub Reloads-IsAccepted :
        (m n : Manager F)
        → Reloads m n
        → IsAccepted m.current
        → IsAccepted n.current × AreSettingsKept m.current n.current
    Reloads-IsAccepted m n (stays _) a = (a, AreSettingsKept-refl m.current)
    Reloads-IsAccepted m n (reloads _ k _ files r before_ h) a =
        let (b, c) = Reloads-IsAccepted m k before_ a in
        let (r', n', e, d, g, _, _) = reload-IsAccepted files k b in
        let same : n' ≡ n = cc (e, h) in
        rw (sym same) (d, AreSettingsKept-trans m.current k.current n'.current c g)
