-- ===== src/Status.antt =====
-- The cache of operator status, services/snmp-collector/internal/status/store.go, and the readiness
-- of the collector, internal/readiness/readiness.go. The lock makes each operation one step; a time
-- is a number of nanoseconds, which `UTC()` keeps, and the clock is an argument.
use monitoring_project.Prelude.{
  ℕ, String, Bool, not, ◌&&◌, Option, none, some, List, [], ◌=s=◌, if◌then◌else◌, Map, lookup,
  insert, keep, elem,
}

pub data PollResultClass : Type 0 where
  poll_success poll_failure : PollResultClass

pub record InterfaceSummary : Type 0 where
  pub selected : ℕ
  pub excluded_default : ℕ
  pub excluded_rule : ℕ

pub record ComponentSummary (F : Type 0) : Type 0 where
  pub profile : String
  pub temperature_count : ℕ
  pub power_count : ℕ
  pub has_cpu : Bool
  pub has_memory : Bool
  pub primary_temp_c : Option F
  pub cpu_utilization_pct : Option F
  pub mem_utilization_pct : Option F

pub record DevicePoll (F : Type 0) : Type 0 where
  pub device_id : String
  pub observed_at : ℕ
  pub result : PollResultClass
  pub error_class : String
  pub sys_name : String
  pub sys_object_id : String
  pub interfaces : InterfaceSummary
  pub components : ComponentSummary F

pub record ReloadStatus : Type 0 where
  pub success : Bool
  pub message : String
  pub revision : String
  pub observed_at : ℕ

-- The cache; a snapshot of it is a copy.
pub record Store (F : Type 0) : Type 0 where
  pub devices : Map (DevicePoll F)
  pub reload : Option ReloadStatus
  pub revision : String

module _ {F : Type 0} where
  abbrev pub new_store : Store F
  new_store = record { devices = []; reload = none; revision = "" }

  unfoldable pub set_revision : String → Store F → Store F
  set_revision revision s = record s { revision = revision }

  unfoldable pub record_reload : ℕ → Bool → String → String → Store F → Store F
  record_reload now success message revision s = record s {
    reload =
        some
          (record { success = success; message = message; revision = revision; observed_at = now });
    revision = if success && not (revision =s= "") then revision else s.revision;
  }

  unfoldable pub record_poll : DevicePoll F → Store F → Store F
  record_poll poll s = record s { devices = insert poll.device_id poll s.devices }

  unfoldable pub device : String → Store F → Option (DevicePoll F)
  device id s = lookup id s.devices

  unfoldable pub prune : List String → Store F → Store F
  prune active s = record s { devices = keep (λ id poll. elem id active) s.devices }

pub record Readiness : Type 0 where
  pub has_config : Bool
  pub storage_ready : Bool
  pub buffer_ready : Bool
  pub publisher_ready : Bool

unfoldable pub ready : Readiness → Bool
ready s = s.has_config && s.storage_ready && s.buffer_ready && s.publisher_ready
