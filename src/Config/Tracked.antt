-- ===== src/Config/Tracked.antt =====
-- A collector that runs on a configuration that `Validate` of
-- services/snmp-collector/internal/config/config.go accepts: what the health tracker
-- (services/snmp-collector/internal/health/tracker.go) is given, and that its cycles end.
use monitoring_project.Prelude.{
  ℕ, ◌<◌, ◌≤◌, ◌≡◌, refl, ◌∙◌, inl, inr, String, true, false, Option, none, some, List, [], ◌∷◌,
  map, eq_iff, Map, lookup, insert, lookup-insert, elem, IsDistinct, All, arith,
}
use monitoring_project.Prelude.Results.{ok, Result-cases, seq-ok, if-ok}
use monitoring_project.Config.Types.{Std, DeviceConfig, Config, upstreams}
use monitoring_project.Config.Types as Config_types
use monitoring_project.Config.Dependencies.{by_id, upstreams_of, validate_dependencies}
use monitoring_project.Config.Cycles.{IsRanking}
use monitoring_project.Config.Accepts.{validate_dependencies-IsRanking}
use monitoring_project.Config.Inventory.{
  canonical_host, validate_uniqueness, validate_inventory_uniqueness,
}
use monitoring_project.Config.Devices.{ids_of}
use monitoring_project.Config.Validate.{validate_config, validate}
use monitoring_project.Config.Reload.{IsAccepted}
use monitoring_project.Health.Types.{PollOutcome, Ledger, Floats}
use monitoring_project.Health.Types as Health_types
use monitoring_project.Health.Tracker.{apply_batch}
use monitoring_project.Health.Batch.{IsGood, IsAcyclic, apply_batch-returns}

module _ {F : Type 0} where
  hosts_of : Std → List (DeviceConfig F) → List String
  hosts_of std [] = []
  hosts_of std (d ∷ ds) = canonical_host std d.host ∷ hosts_of std ds

  -- `validateInventoryUniqueness` accepts exactly the inventories whose ids are distinct and whose
  -- canonical hosts are.
  validate_uniqueness-ok :
      (std : Std) (ids hosts : List String) (ds : List (DeviceConfig F))
      → validate_uniqueness std ids hosts ds ≡ ok tt
      → IsDistinct (ids_of ds)
        × IsDistinct (hosts_of std ds)
        × ((x : String) → elem x (ids_of ds) ≡ true → elem x ids ≡ false)
        × ((x : String) → elem x (hosts_of std ds) ≡ true → elem x hosts ≡ false)
  unfolding validate_uniqueness ids_of hosts_of elem
  validate_uniqueness-ok std ids hosts [] h = (tt, tt, λ x k. absurd (cc), λ x k. absurd (cc))
  validate_uniqueness-ok std ids hosts (d ∷ ds) h =
      let host = canonical_host std d.host in
      let (p, h1) = if-ok (elem d.id ids) "duplicate device id" _ tt h in
      let (q, h2) = if-ok (elem host hosts) "duplicate device host" _ tt h1 in
      let (a, b, c, e) = validate_uniqueness-ok std (d.id ∷ ids) (host ∷ hosts) ds h2 in
      (
        (ground (arith, c d.id, eq_iff d.id d.id), a),
        (ground (arith, e host, eq_iff host host), b),
        λ x k. ground (arith, c x, eq_iff x d.id, p),
        λ x k. ground (arith, e x, eq_iff x host, q),
      )

  lookup-by_id-absent :
      (x : String) (m : Map (DeviceConfig F)) (ds : List (DeviceConfig F))
      → elem x (ids_of ds) ≡ false
      → lookup x (by_id m ds) ≡ lookup x m
  unfolding by_id ids_of elem
  lookup-by_id-absent x m [] h = refl
  lookup-by_id-absent x m (d ∷ ds) h =
      lookup-by_id-absent x (insert d.id d m) ds (ground arith)
      ∙ ground (arith, lookup-insert d.id x d m, eq_iff d.id x, eq_iff x d.id)

  -- With distinct ids, each device is the one that the map has for its id.
  lookup-by_id :
      (m : Map (DeviceConfig F)) (ds : List (DeviceConfig F))
      → IsDistinct (ids_of ds)
      → All (λ d. lookup d.id (by_id m ds) ≡ some d) ds
  unfolding by_id ids_of
  lookup-by_id m [] u = tt
  lookup-by_id m (d ∷ ds) u = (
    lookup-by_id-absent d.id (insert d.id d m) ds u.0
        ∙ ground (arith, lookup-insert d.id d.id d m, eq_iff d.id d.id),
    lookup-by_id (insert d.id d m) ds u.1,
  )

  -- What the tracker reads of a configuration.
  tracked_device : DeviceConfig F → Health_types.DeviceConfig F
  tracked_device d = record {
    id = d.id;
    temperature_warning_c = d.temperature_warning_c;
    upstream_device_ids = upstreams d;
    alerts_enabled = d.alerts_enabled;
  }

  unfoldable pub tracked : Config F → Health_types.Config F
  unfolding tracked_device
  tracked c = record {
    temperature_warning_c = c.health.temperature_warning_c;
    failure_threshold = c.health.failure_threshold;
    devices = map tracked_device c.devices;
  }

  tracked-IsAcyclic :
      (rank : String → ℕ) (m : Map (DeviceConfig F)) (ds : List (DeviceConfig F))
      → IsRanking m rank
      → All (λ d. lookup d.id m ≡ some d) ds
      → All (λ d. IsAcyclic rank (d.id, d)) (map tracked_device ds)
  unfolding tracked_device upstreams_of
  tracked-IsAcyclic rank m [] r l = tt
  tracked-IsAcyclic rank m (d ∷ ds) r l =
      (rw (l.0, upstreams_of) at (r d.id), tracked-IsAcyclic rank m ds r l.1)

  module _ (fl : Floats F) (revision : Health_types.Config F → String) where
    -- A cycle after another, each with the outcomes of its polls, and the ledger after them.
    unfoldable pub run_cycles :
        ℕ → Health_types.Config F → List (List (PollOutcome F)) → Ledger F → Option (Ledger F)
    run_cycles fuel c [] devices = some devices
    run_cycles fuel c (outcomes ∷ later) devices =
        elim (apply_batch fl revision fuel c outcomes devices) [
          | none ↦ none
          | some b ↦ run_cycles fuel c later b.0
        ]

    cycles-return :
        (rank : String → ℕ) (fuel : ℕ)
        → ((x : String) → rank x < fuel)
        → (c : Health_types.Config F) → All (λ d. IsAcyclic rank (d.id, d)) c.devices
        → (cycles : List (List (PollOutcome F))) (devices : Ledger F) → All (IsGood rank) devices
        → (after : Ledger F) × (run_cycles fuel c cycles devices ≡ some after)
    unfolding run_cycles
    cycles-return rank fuel enough c acyclic [] devices g = (devices, refl)
    cycles-return rank fuel enough c acyclic (o ∷ os) devices g =
        let (b, e, g', _, _) =
          apply_batch-returns fl revision rank fuel enough c o devices acyclic g in
        rw (e, run_cycles) (cycles-return rank fuel enough c acyclic os b.0 g')

  -- The parts of `validate` that the tracker relies on.
  module _ (cfl : Config_types.Floats F) (std : Std) where
    config_unique :
        (c : Config F)
        → validate_config cfl std c ≡ ok tt
        → validate_inventory_uniqueness std c.devices ≡ ok tt
    unfolding validate_config
    config_unique c h = (seq-ok _ (validate_inventory_uniqueness std c.devices) tt h).1

    accepted-parts :
        (c : Config F)
        → IsAccepted cfl std c
        → IsDistinct (ids_of c.devices) × (validate_dependencies c.devices ≡ some (ok tt))
    unfolding validate validate_inventory_uniqueness
    accepted-parts c h = elim (Result-cases (validate_config cfl std c)) [
      | inr (e, k) ↦ absurd (cc (rw (k, validate) at h))
      | inl (_, k) ↦ (
        (validate_uniqueness-ok std [] [] c.devices (config_unique c k)).0,
        rw (k, validate) at h,
      )
    ]

    module _ (fl : Floats F) (revision : Health_types.Config F → String) where
      -- A collector that starts on an accepted configuration: there is a bound on the depth of the
      -- recursion of `collectRootCauses` with which every series of cycles returns, whatever its
      -- polls give.
      pub accepted-returns :
          (c : Config F)
          → IsAccepted cfl std c
          → (n : ℕ) × ((fuel : ℕ)
              → n ≤ fuel
              → (cycles : List (List (PollOutcome F)))
              → (after : Ledger F) × (run_cycles fl revision fuel (tracked c) cycles []
                  ≡ some after))
      unfolding tracked
      accepted-returns c h =
          let (distinct, dependencies) = accepted-parts c h in
          let (rank, n, bound, ranking) =
            ((validate_dependencies-IsRanking c.devices).1.0 dependencies).1 in
          (
            n,
            λ fuel le cycles.
                cycles-return fl revision rank fuel (λ x. omega (arith, bound x)) (tracked c)
                  (tracked-IsAcyclic rank (by_id [] c.devices) c.devices ranking
                    (lookup-by_id [] c.devices distinct))
                  cycles [] tt,
          )
