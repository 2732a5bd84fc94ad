-- ===== src/Health/Gauges.antt =====
-- The totals of `Snapshot`.
use monitoring_project.Prelude.{
  ℕ, suc, ◌+◌, ◌≤◌, ◌≡◌, refl, ◌∙◌, [], ◌∷◌, if◌then◌else◌, All, length, arith,
}
use monitoring_project.Health.Types.{DeviceHealth, Ledger, Snapshot}
use monitoring_project.Health.Tracker.{count_entry, count_entries, snapshot, empty_snapshot}
use monitoring_project.Health.Entry.{IsConsistent}

abbrev states_total : Snapshot → ℕ
states_total s = s.healthy_count + s.warning_count + s.critical_count + s.unknown_count

module _ {F : Type 0} where
  abbrev pub with_state : Ledger F → ℕ
  with_state [] = 0
  with_state ((id, e) ∷ devices) =
      let rest = with_state devices in if e.has_state then suc rest else rest

  -- What counting one entry adds.
  count_entry_lem :
      (e : DeviceHealth F) (s : Snapshot)
      → IsConsistent e
      → (states_total (count_entry e s) ≡ states_total s + (if e.has_state then 1 else 0))
        × ((count_entry e s).no_state_count ≡ s.no_state_count)
        × ((count_entry e s).dependency_impacted + s.unknown_count
            ≡ (count_entry e s).unknown_count + s.dependency_impacted)
        × ((count_entry e s).pending_failures ≤ s.pending_failures + 1)
  unfolding count_entry
  count_entry_lem e s c = (ground arith, ground arith, ground arith, ground arith)

  count_entries_lem :
      (devices : Ledger F) (s : Snapshot)
      → All (λ e. IsConsistent e.1) devices
      → (states_total (count_entries devices s) ≡ states_total s + with_state devices)
        × ((count_entries devices s).no_state_count ≡ s.no_state_count)
        × ((count_entries devices s).dependency_impacted + s.unknown_count
            ≡ (count_entries devices s).unknown_count + s.dependency_impacted)
        × ((count_entries devices s).pending_failures ≤ s.pending_failures + length devices)
  unfolding count_entries
  count_entries_lem [] s c = (omega arith, refl, omega arith, omega arith)
  count_entries_lem ((id, e) ∷ devices) s c =
      let (a, n, d, p) = count_entry_lem e s c.0 in
      let (a', n', d', p') = count_entries_lem devices (count_entry e s) c.1 in
      (ground arith, n' ∙ n, omega arith, omega arith)

  -- Over a consistent ledger the four counters of the snapshot add up to the devices that have a
  -- state, none is counted under the empty state, the dependency-impacted devices are the unknown
  -- ones, and no more failures are pending than there are devices.
  pub snapshot_totals :
      (devices : Ledger F)
      → All (λ e. IsConsistent e.1) devices
      → (states_total (snapshot devices) ≡ with_state devices)
        × ((snapshot devices).no_state_count ≡ 0)
        × ((snapshot devices).dependency_impacted ≡ (snapshot devices).unknown_count)
        × ((snapshot devices).pending_failures ≤ length devices)
  unfolding snapshot
  snapshot_totals devices c =
      let (a, n, d, p) = count_entries_lem devices empty_snapshot c in
      (a ∙ omega arith, n, omega arith, omega arith)
