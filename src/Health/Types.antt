-- ===== src/Health/Types.antt =====
-- The ledger and the events of services/snmp-collector/internal/health/types.go, and what the
-- tracker reads of the configuration (internal/config/config.go). `float64` is a type `F` with the
-- tests that the code makes. A time is a number of nanoseconds since Go's zero time; `UTC()` keeps
-- it. Counters of polls are unbounded: an `int` would need 2^63 polls to wrap.
use monitoring_project.Prelude.{
  ℕ, String, Bool, Option, List, false, true, none, some, [], zero, suc,
}
use monitoring_project.Prelude.{Map}
use monitoring_project.Prelude.Int.{ℤ, pos, negsuc}

-- The tests on `float64` that the package makes.
pub record Floats (F : Type 0) : Type 0 where
  pub ge : F → F → Bool  -- a >= b
  pub gt : F → F → Bool  -- a > b
  pub is_nan : F → Bool
  pub is_negative : F → Bool  -- a < 0

-- `no_state` is the empty string of an entry that was never evaluated.
pub data State : Type 0 where
  no_state healthy warning critical unknown : State

pub data Reason : Type 0 where
  no_reason reachable temperature_threshold direct_unreachable upstream_unreachable : Reason
  reason_recovered : Reason

pub data Transition : Type 0 where
  initial entered recovered reasserted : Transition

pub record PollOutcome (F : Type 0) : Type 0 where
  pub device_id : String
  pub success : Bool
  pub observed_at : ℕ
  pub temperature_c : Option F

pub record Event (F : Type 0) : Type 0 where
  pub device_id : String
  pub state : State
  pub reason : Reason
  pub previous_state : Option State
  pub transition : Transition
  pub failure_count : ℕ
  pub failure_threshold : ℕ
  pub temperature_c : Option F
  pub temperature_warning_c : Option F
  pub temperature_policy_revision : String
  pub upstream_device_ids : List String
  pub unavailable_upstream_device_ids : List String
  pub root_cause_device_ids : List String
  pub alerts_enabled : Bool
  pub observed_at : ℕ

pub record DeviceHealth (F : Type 0) : Type 0 where
  pub has_state : Bool
  pub state : State
  pub reason : Reason
  pub failure_count : ℕ
  pub last_success_at : ℕ
  pub last_observed_at : ℕ
  pub last_outcome_success : Bool
  pub has_outcome : Bool
  pub temperature_c : Option F
  pub temperature_warning_c : Option F
  pub upstream_device_ids : List String
  pub unavailable_upstream : List String
  pub root_cause_device_ids : List String
  pub alerts_enabled_published : Bool
  pub has_alerts_enabled : Bool

-- `DeviceHealth{}`
abbrev pub new_device : {F : Type 0} → DeviceHealth F
new_device = record {
  has_state = false;
  state = no_state;
  reason = no_reason;
  failure_count = 0;
  last_success_at = 0;
  last_observed_at = 0;
  last_outcome_success = false;
  has_outcome = false;
  temperature_c = none;
  temperature_warning_c = none;
  upstream_device_ids = [];
  unavailable_upstream = [];
  root_cause_device_ids = [];
  alerts_enabled_published = false;
  has_alerts_enabled = false;
}

-- The ledger: `map[string]*DeviceHealth`, whose pointers are never nil.
abbrev pub Ledger : Type 0 → Type 0
Ledger F = Map (DeviceHealth F)

-- The map of `DevicesByState` has one counter for each of four states.
pub record Snapshot : Type 0 where
  pub healthy_count : ℕ
  pub warning_count : ℕ
  pub critical_count : ℕ
  pub unknown_count : ℕ
  pub no_state_count : ℕ
  pub dependency_impacted : ℕ
  pub pending_failures : ℕ

-- What the tracker reads of a device's configuration.
pub record DeviceConfig (F : Type 0) : Type 0 where
  pub id : String
  pub temperature_warning_c : Option F
  pub upstream_device_ids : List String
  pub alerts_enabled : Option Bool

pub record Config (F : Type 0) : Type 0 where
  pub temperature_warning_c : F
  pub failure_threshold : ℤ
  pub devices : List (DeviceConfig F)

unfoldable pub effective_temperature_warning_c : {F : Type 0} → DeviceConfig F → F → F
effective_temperature_warning_c d global = elim (d.temperature_warning_c) [
  | some v ↦ v
  | none ↦ global
]

unfoldable pub alerts_enabled_or_default : {F : Type 0} → DeviceConfig F → Bool
alerts_enabled_or_default d = elim (d.alerts_enabled) [ some b ↦ b | none ↦ true ]

-- `if threshold < 1 { threshold = 1 }`
unfoldable pub effective_threshold : ℤ → ℕ
effective_threshold (pos zero) = 1
effective_threshold (pos (suc n)) = suc n
effective_threshold (negsuc n) = 1
