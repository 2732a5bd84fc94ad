-- ===== src/Health/Tracker.antt =====
-- The operations of `Tracker`, tracker.go. The mutex makes each one atomic, so a call is a function
-- of the ledger. `policy_revision` stands for `config.TemperaturePolicyRevision`, a SHA-256 of
-- the policy.
use monitoring_project.Prelude.{
  ℕ, suc, ◌+◌, String, Bool, true, false, not, ◌&&◌, ◌||◌, Option, none, some, List, [], ◌∷◌, ◌++◌,
  ltb, ◌==◌, if◌then◌else◌, lookup, insert, keep, elem, sort_by,
}
use monitoring_project.Health.Types.{
  Floats, State, no_state, healthy, warning, critical, unknown, Reason, no_reason, reachable,
  temperature_threshold, direct_unreachable, upstream_unreachable, reason_recovered, Transition,
  initial, entered, recovered, reasserted, PollOutcome, Event, DeviceHealth, new_device, Ledger,
  Snapshot, DeviceConfig, Config, effective_temperature_warning_c, alerts_enabled_or_default,
  effective_threshold,
}
use monitoring_project.Health.Evaluate.{◌>>=◌, Evaluated, evaluate_device}
use monitoring_project.Health.Order.{Index, normalize_ids, build_device_index, topological_order}

abbrev pub state_rank : State → ℕ
state_rank healthy = 4
state_rank warning = 3
state_rank unknown = 2
state_rank critical = 1
state_rank no_state = 0

unfoldable pub healthier : State → State → Bool
healthier candidate baseline = ltb (state_rank baseline) (state_rank candidate)

unfoldable pub is_recovery : State → State → Bool
unfolding healthier
is_recovery critical next = healthier next critical
is_recovery unknown next = healthier next unknown
is_recovery warning next = healthier next warning
is_recovery _ next = false

-- `a == b` on states: they have different ranks.
abbrev pub same_state : State → State → Bool
same_state a b = state_rank a == state_rank b

abbrev reason_code : Reason → ℕ
reason_code no_reason = 0
reason_code reachable = 1
reason_code temperature_threshold = 2
reason_code direct_unreachable = 3
reason_code upstream_unreachable = 4
reason_code reason_recovered = 5

abbrev pub same_reason : Reason → Reason → Bool
same_reason a b = reason_code a == reason_code b

abbrev pub same_bool : Bool → Bool → Bool
same_bool true b = b
same_bool false b = not b

unfoldable pub classify_transition : Bool → State → State → Transition
unfolding is_recovery
classify_transition has_state previous next =
    if not has_state then initial else if is_recovery previous next then recovered else entered

abbrev pub empty_snapshot : Snapshot
empty_snapshot = record {
  healthy_count = 0;
  warning_count = 0;
  critical_count = 0;
  unknown_count = 0;
  no_state_count = 0;
  dependency_impacted = 0;
  pending_failures = 0;
}

module _ {F : Type 0} where
  unfoldable pub previous_state_of : DeviceHealth F → Option State
  previous_state_of entry = if entry.has_state then some entry.state else none

  -- The commit of one outcome.
  unfoldable pub commit_entry : PollOutcome F → DeviceHealth F → DeviceHealth F
  commit_entry outcome entry =
      let e = record entry {
        has_outcome = true;
        last_outcome_success = outcome.success;
        last_observed_at = outcome.observed_at;
        temperature_c = outcome.temperature_c;
      } in
      if outcome.success
      then record e { failure_count = 0; last_success_at = outcome.observed_at }
      else record e { failure_count = suc e.failure_count }

  unfoldable pub commit_outcome : PollOutcome F → Ledger F → Ledger F
  unfolding commit_entry
  commit_outcome outcome devices = elim (lookup outcome.device_id devices) [
    | none ↦ devices
    | some entry ↦ insert outcome.device_id (commit_entry outcome entry) devices
  ]

  unfoldable pub commit_outcomes : List (PollOutcome F) → Ledger F → Ledger F
  unfolding commit_outcome
  commit_outcomes [] devices = devices
  commit_outcomes (o ∷ os) devices = commit_outcomes os (commit_outcome o devices)

  -- `for id := range index`: an entry for each configured device.
  unfoldable pub ensure_devices : Index F → Ledger F → Ledger F
  ensure_devices [] devices = devices
  ensure_devices ((id, d) ∷ index) devices =
      ensure_devices index
        (elim (lookup id devices) [ none ↦ insert id new_device devices | some _ ↦ devices ])

  unfoldable pub prune : List String → Ledger F → Ledger F
  prune active_ids devices = keep (λ id entry. elem id active_ids) devices

  -- `Device`
  unfoldable pub device : String → Ledger F → Option (DeviceHealth F)
  device id devices = lookup id devices

  unfoldable pub count_entry : DeviceHealth F → Snapshot → Snapshot
  count_entry entry snap =
      if not entry.has_state
      then (if ltb 0 entry.failure_count
          then record snap { pending_failures = snap.pending_failures + 1 }
          else snap)
      else let counted : Snapshot = elim (entry.state) [
        | no_state ↦ record snap { no_state_count = snap.no_state_count + 1 }
        | healthy ↦ record snap { healthy_count = snap.healthy_count + 1 }
        | warning ↦ record snap { warning_count = snap.warning_count + 1 }
        | critical ↦ record snap { critical_count = snap.critical_count + 1 }
        | unknown ↦ record snap {
          unknown_count = snap.unknown_count + 1;
          dependency_impacted = snap.dependency_impacted + 1;
        }
      ] in
        if ltb 0 entry.failure_count
          && not (same_state entry.state critical)
          && not (same_state entry.state unknown)
        then record counted { pending_failures = counted.pending_failures + 1 }
        else counted

  unfoldable pub count_entries : Ledger F → Snapshot → Snapshot
  unfolding count_entry
  count_entries [] snap = snap
  count_entries ((id, entry) ∷ devices) snap = count_entries devices (count_entry entry snap)

  unfoldable pub snapshot : Ledger F → Snapshot
  unfolding count_entries
  snapshot devices = count_entries devices empty_snapshot

-- What a cycle's evaluation knows of one device.
pub record Policy (F : Type 0) : Type 0 where
  pub threshold : ℕ
  pub revision : String
  pub warning_c : F
  pub upstreams : List String
  pub alerts_enabled : Bool

module _ {F : Type 0} where
  -- The rest of the loop's body, once a state is decided: the new entry, and the event if one is
  -- emitted.
  unfoldable pub publish :
      Policy F → String → DeviceHealth F → Evaluated F → DeviceHealth F × Option (Event F)
  unfolding classify_transition previous_state_of
  publish p id entry desired =
      let same = same_state entry.state desired.state && same_reason entry.reason desired.reason in
      let policy_changed =
        entry.has_state
        && entry.has_alerts_enabled
        && not (same_bool entry.alerts_enabled_published p.alerts_enabled) in
      let class = classify_transition entry.has_state entry.state desired.state in
      let event_reason : Reason = elim class [
        | recovered ↦ reason_recovered
        | _ ↦ desired.reason
      ] in
      let transition = if policy_changed && same then reasserted else class in
      let entry' = record entry {
        has_state = true;
        state = desired.state;
        reason = desired.reason;
        temperature_c = desired.temperature_c;
        temperature_warning_c = some p.warning_c;
        upstream_device_ids = p.upstreams;
        unavailable_upstream = desired.unavailable;
        root_cause_device_ids = desired.root_causes;
        alerts_enabled_published = p.alerts_enabled;
        has_alerts_enabled = true;
      } in
      (
        entry',
        if not entry.has_state || not same || policy_changed
            then some (record {
              device_id = id;
              state = desired.state;
              reason = event_reason;
              previous_state = previous_state_of entry;
              transition = transition;
              failure_count = entry.failure_count;
              failure_threshold = p.threshold;
              temperature_c = desired.temperature_c;
              temperature_warning_c = some p.warning_c;
              temperature_policy_revision = p.revision;
              upstream_device_ids = p.upstreams;
              unavailable_upstream_device_ids = desired.unavailable;
              root_cause_device_ids = desired.root_causes;
              alerts_enabled = p.alerts_enabled;
              observed_at =
                  if entry.last_observed_at == 0
                  then entry.last_success_at
                  else entry.last_observed_at;
            })
            else none,
      )

-- The ledger and the events so far.
abbrev pub Batch : Type 0 → Type 0
Batch F = Ledger F × List (Event F)

module _ {F : Type 0} (fl : Floats F) (policy_revision : Config F → String) where
  unfoldable pub policy_of : Config F → DeviceConfig F → Policy F
  unfolding effective_temperature_warning_c alerts_enabled_or_default effective_threshold
  policy_of cfg d = record {
    threshold = effective_threshold cfg.failure_threshold;
    revision = policy_revision cfg;
    warning_c = effective_temperature_warning_c d cfg.temperature_warning_c;
    upstreams = normalize_ids d.upstream_device_ids;
    alerts_enabled = alerts_enabled_or_default d;
  }

  abbrev add_event : Option (Event F) → List (Event F) → List (Event F)
  add_event none events = events
  add_event (some e) events = events ++ (e ∷ [])

  -- The loop's body at a device that is configured and in the ledger.
  unfoldable pub evaluate_entry :
      ℕ → Policy F → String → DeviceHealth F → Batch F → Option (Batch F)
  unfolding publish
  evaluate_entry fuel p id entry (devices, events) = do
    verdict ← evaluate_device fl fuel devices entry p.upstreams p.warning_c p.threshold
    elim verdict [
      | none ↦ some (devices, events)
      | some desired ↦
          let out = publish p id entry desired in
          some (insert id out.0 devices, add_event out.1 events)
    ]

  -- `device := index[id]; entry := t.devices[id]`. Both are there for the ids of the order.
  unfoldable pub evaluate_id : ℕ → Config F → Index F → String → Batch F → Option (Batch F)
  unfolding evaluate_entry policy_of
  evaluate_id fuel cfg index id (devices, events) = elim (lookup id index) [
    | none ↦ some (devices, events)
    | some d ↦ elim (lookup id devices) [
      | none ↦ some (devices, events)
      | some entry ↦ evaluate_entry fuel (policy_of cfg d) id entry (devices, events)
    ]
  ]

  unfoldable pub evaluate_order : ℕ → Config F → Index F → List String → Batch F → Option (Batch F)
  unfolding evaluate_id
  evaluate_order fuel cfg index [] b = some b
  evaluate_order fuel cfg index (id ∷ ids) b = do
    b' ← evaluate_id fuel cfg index id b
    evaluate_order fuel cfg index ids b'

  -- `ApplyBatch` with a configuration. `none`: the walk of the root causes did not return.
  unfoldable pub apply_batch : ℕ → Config F → List (PollOutcome F) → Ledger F → Option (Batch F)
  unfolding ensure_devices commit_outcomes evaluate_order topological_order build_device_index
  apply_batch fuel cfg outcomes devices = do
    let index = build_device_index [] cfg.devices
    let committed = commit_outcomes outcomes (ensure_devices index devices)
    b ← evaluate_order fuel cfg index (topological_order index) (committed, [])
    some (b.0, sort_by (λ e. e.device_id) b.1)

  -- `ApplyBatch(nil, …)` changes nothing.
  unfoldable pub apply_batch_nil_config :
      ℕ → Option (Config F) → List (PollOutcome F) → Ledger F → Option (Batch F)
  unfolding apply_batch
  apply_batch_nil_config fuel none outcomes devices = some (devices, [])
  apply_batch_nil_config fuel (some cfg) outcomes devices = apply_batch fuel cfg outcomes devices
