-- ===== src/Derive/Status.antt =====
-- Device and site status, services/backend-api/internal/derive/derive.go. Times and durations are
-- nanoseconds since Go's zero time; a threshold is not negative. `NormalizeIP` parses by the
-- package net and is a parameter of `device_map_key`.
use monitoring_project.Prelude.{
  ℕ, ◌+◌, ◌-◌, String, Bool, true, false, not, ◌||◌, ◌&&◌, Option, none, some, List, ltb, leb, ◌==◌,
  ◌=s=◌, if◌then◌else◌, trim_space, to_lower, length,
}

abbrev pub placeholder_ip : String
placeholder_ip = "0.0.0.0"

abbrev pub status_unknown : ℕ
status_unknown = 0

abbrev pub status_healthy : ℕ
status_healthy = 1

abbrev pub status_warning : ℕ
status_warning = 2

abbrev pub status_critical : ℕ
status_critical = 3

unfoldable pub device_online : String → Option ℕ → ℕ → ℕ → Bool
device_online status none now threshold = false
device_online status (some last_seen) now threshold =
    if not (status =s= "online") then false else leb (now - last_seen) threshold

unfoldable pub device_status_code : Bool → ℕ
device_status_code online = if online then status_healthy else status_critical

-- The two switches of `HealthStatusCode`, over the trimmed state in lower case.
abbrev pub code_of_state : Bool → String → ℕ
code_of_state false s =
    if s =s= "critical"
    then status_critical
    else if s =s= "unknown"
    then status_unknown
    else device_status_code false
code_of_state true s =
    if s =s= "healthy"
    then status_healthy
    else if s =s= "warning"
    then status_warning
    else if s =s= "critical"
    then status_critical
    else if s =s= "unknown"
    then status_unknown
    else device_status_code true

unfoldable pub health_status_code : String → Bool → ℕ
unfolding device_status_code
health_status_code state online = code_of_state online (to_lower (trim_space state))

-- The nil slices that `nonNilStrings` replaces are empty lists here.
pub record DeviceProjection : Type 0 where
  pub status : ℕ
  pub status_reason : String
  pub failure_count : Option ℕ
  pub upstream_device_ids : List String
  pub unavailable_upstream_ids : List String
  pub root_cause_device_ids : List String
  pub alerts_enabled : Bool

unfoldable pub project_device_status :
    String
    → Bool
    → String
    → ℕ
    → List String
    → List String
    → List String
    → Bool
    → Bool
    → DeviceProjection
unfolding health_status_code device_status_code
project_device_status health_state health_present reason failure_count upstream unavailable
      root_cause online alerts_enabled =
    let out : DeviceProjection = record {
      status = 0;
      status_reason = "";
      failure_count = none;
      upstream_device_ids = upstream;
      unavailable_upstream_ids = unavailable;
      root_cause_device_ids = root_cause;
      alerts_enabled = alerts_enabled;
    } in
    if health_present
    then record out {
      status = health_status_code health_state online;
      status_reason = reason;
      failure_count = some failure_count;
    }
    else record out { status = device_status_code online }

pub record SiteHealthCounts : Type 0 where
  pub healthy_count : ℕ
  pub warning_count : ℕ
  pub critical_count : ℕ
  pub unknown_count : ℕ
  pub dependency_impacted_count : ℕ

abbrev pub zero_counts : SiteHealthCounts
zero_counts = record {
  healthy_count = 0;
  warning_count = 0;
  critical_count = 0;
  unknown_count = 0;
  dependency_impacted_count = 0;
}

unfoldable pub accumulate : ℕ → List String → Bool → SiteHealthCounts → SiteHealthCounts
accumulate status unavailable_upstream alerts_enabled c =
    if not alerts_enabled
    then c
    else if status == status_healthy
    then record c { healthy_count = c.healthy_count + 1 }
    else if status == status_warning
    then record c { warning_count = c.warning_count + 1 }
    else if status == status_critical
    then record c { critical_count = c.critical_count + 1 }
    else if status == status_unknown
    then record c {
      unknown_count = c.unknown_count + 1;
      dependency_impacted_count =
          if ltb 0 (length unavailable_upstream)
          then c.dependency_impacted_count + 1
          else c.dependency_impacted_count;
    }
    else c

unfoldable pub site_status_from_health : SiteHealthCounts → String
site_status_from_health counts =
    if ltb 0 counts.critical_count
    then "alert"
    else if ltb 0 counts.warning_count || ltb 0 counts.unknown_count
    then "caution"
    else "ok"

unfoldable pub site_status : Bool → String
site_status any_offline = if any_offline then "alert" else "ok"

unfoldable pub device_map_key : (String → String) → String → String → String
device_map_key normalize_ip ip_address hostname =
    let ip = normalize_ip ip_address in
    if not (ip =s= "") && not (ip =s= placeholder_ip)
    then ip
    else if not (hostname =s= "")
    then hostname
    else ip

unfoldable pub location_or_name : String → String → String
location_or_name location name = if not (location =s= "") then location else name
