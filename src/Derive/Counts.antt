-- ===== src/Derive/Counts.antt =====
-- The counts of a site, its status, and the overlay of site dependencies.
use monitoring_project.Prelude.{
  ℕ, suc, ◌+◌, ◌≤◌, ◌≡◌, refl, sym, ap, ◌∙◌, ◌⊎◌, inl, inr, String, Bool, true, false, not, ◌||◌,
  ◌&&◌, List, [], ◌∷◌, ltb, ◌==◌, eq_iff, if◌then◌else◌, trim_space, to_lower, equal_fold,
  fold_case, All, arith, Bool-cases,
}
use monitoring_project.Derive.Status.{
  DeviceProjection, SiteHealthCounts, zero_counts, accumulate, status_unknown, status_healthy,
  status_warning, status_critical, health_status_code, device_status_code, site_status_from_health,
}
use monitoring_project.Derive.Sites.{
  reason_upstream_site_unreachable, SiteDependencyState, is_direct_critical,
  apply_site_dependency_overlay, projected_from, projected_site_health,
}

-- No status code of a device is above 3. A device that is offline is critical, or unknown where
-- its evidence is "unknown"; only a device that is online is healthy, or warning, and then its
-- evidence is "warning".
pub health_status_code_cases :
    (state : String) (online : Bool)
    → (health_status_code state online ≤ 3)
      × (online ≡ false
          → (health_status_code state online ≡ status_critical)
            ⊎ ((to_lower (trim_space state) ≡ "unknown")
                × (health_status_code state online ≡ status_unknown)))
      × (health_status_code state online ≡ status_healthy → online ≡ true)
      × (health_status_code state online ≡ status_warning
          → (online ≡ true) × (to_lower (trim_space state) ≡ "warning"))
unfolding health_status_code device_status_code
health_status_code_cases state true = (
  ground arith,
  λ h. cc,
  λ h. refl,
  λ h. (refl, ground (arith, eq_iff (to_lower (trim_space state)) "warning")),
)
health_status_code_cases state false = (
  ground arith,
  λ h. ground (arith, eq_iff (to_lower (trim_space state)) "unknown"),
  λ h. ground arith,
  λ h. ground arith,
)

-- The overlay marked the device.
abbrev pub is_overlaid : DeviceProjection → Bool
is_overlaid p = equal_fold p.status_reason reason_upstream_site_unreachable

abbrev pub alerting : List DeviceProjection → ℕ
alerting [] = 0
alerting (p ∷ ps) = let rest = alerting ps in if p.alerts_enabled then suc rest else rest

abbrev total : SiteHealthCounts → ℕ
total c = c.healthy_count + c.warning_count + c.critical_count + c.unknown_count

abbrev counted : DeviceProjection → SiteHealthCounts → SiteHealthCounts
counted p c =
    if not p.alerts_enabled
    then c
    else if is_overlaid p
    then record c {
      unknown_count = c.unknown_count + 1;
      dependency_impacted_count = c.dependency_impacted_count + 1;
    }
    else accumulate p.status p.unavailable_upstream_ids p.alerts_enabled c

counted_lem :
    (p : DeviceProjection) (c : SiteHealthCounts)
    → p.status ≤ 3
    → (total (counted p c) ≡ total c + (if p.alerts_enabled then 1 else 0))
      × ((counted p c).dependency_impacted_count + c.unknown_count
          ≤ (counted p c).unknown_count + c.dependency_impacted_count)
unfolding accumulate
counted_lem p c h = (ground arith, ground arith)

projected_from_lem :
    (ps : List DeviceProjection) (c : SiteHealthCounts)
    → All (λ p. p.status ≤ 3) ps
    → (total (projected_from c ps) ≡ total c + alerting ps)
      × ((projected_from c ps).dependency_impacted_count + c.unknown_count
          ≤ (projected_from c ps).unknown_count + c.dependency_impacted_count)
unfolding projected_from
projected_from_lem [] c h = (omega arith, omega arith)
projected_from_lem (p ∷ ps) c h =
    let (a, b) = counted_lem p c h.0 in
    let (a', b') = projected_from_lem ps (counted p c) h.1 in (ground arith, omega arith)

-- Each device that is not administratively ignored is counted in exactly one of the four classes,
-- and no more devices are impacted by a dependency than are unknown.
pub projected_site_health-total :
    (devices : List DeviceProjection)
    → All (λ p. p.status ≤ 3) devices
    → let c = projected_site_health devices in
      (c.healthy_count + c.warning_count + c.critical_count + c.unknown_count ≡ alerting devices)
      × (c.dependency_impacted_count ≤ c.unknown_count)
unfolding projected_site_health
projected_site_health-total devices h =
    let (a, b) = projected_from_lem devices zero_counts h in (a ∙ omega arith, omega arith)

abbrev pub any : (DeviceProjection → Bool) → List DeviceProjection → Bool
any p [] = false
any p (d ∷ ds) = p d || any p ds

-- A device that makes its site alert, or makes it cautious.
abbrev pub raises_alert : DeviceProjection → Bool
raises_alert p = p.alerts_enabled && not (is_overlaid p) && p.status == status_critical

abbrev pub raises_caution : DeviceProjection → Bool
raises_caution p =
    p.alerts_enabled && (is_overlaid p || p.status == status_warning || p.status == status_unknown)

counted-raises :
    (p : DeviceProjection) (c : SiteHealthCounts)
    → (ltb 0 (counted p c).critical_count ≡ (ltb 0 c.critical_count || raises_alert p))
      × ((ltb 0 (counted p c).warning_count || ltb 0 (counted p c).unknown_count)
          ≡ ((ltb 0 c.warning_count || ltb 0 c.unknown_count) || raises_caution p))
unfolding accumulate
counted-raises p c = (ground arith, ground arith)

projected_from-raises :
    (ps : List DeviceProjection) (c : SiteHealthCounts)
    → (ltb 0 (projected_from c ps).critical_count ≡ (ltb 0 c.critical_count || any raises_alert ps))
      × ((ltb 0 (projected_from c ps).warning_count || ltb 0 (projected_from c ps).unknown_count)
          ≡ ((ltb 0 c.warning_count || ltb 0 c.unknown_count) || any raises_caution ps))
unfolding projected_from
projected_from-raises [] c = (ground arith, ground arith)
projected_from-raises (p ∷ ps) c =
    let (a, b) = counted-raises p c in
    let (a', b') = projected_from-raises ps (counted p c) in (ground arith, ground arith)

-- The status of a site is decided by its devices one by one: it is "alert" if one of them, not
-- ignored and not excused by an upstream site, is critical; else "caution" if one that is not
-- ignored is excused, warning or unknown; else "ok".
pub site_status_of_devices :
    (devices : List DeviceProjection)
    → site_status_from_health (projected_site_health devices) ≡ (
        if any raises_alert devices
        then "alert"
        else if any raises_caution devices
        then "caution"
        else "ok")
unfolding site_status_from_health projected_site_health
site_status_of_devices devices = let (a, b) = projected_from-raises devices zero_counts in rw (a, b)

overlay_marks : equal_fold reason_upstream_site_unreachable reason_upstream_site_unreachable ≡ true
unfolding equal_fold fold_case
overlay_marks = refl

abbrev excused : DeviceProjection → DeviceProjection
excused p = record p { status = status_unknown; status_reason = reason_upstream_site_unreachable }

excused_lem :
    (p : DeviceProjection)
    → (is_direct_critical (excused p) ≡ false) × (raises_alert (excused p) ≡ false)
unfolding is_direct_critical
excused_lem p = (refl, rw overlay_marks (ground arith))

overlay_on :
    (state : SiteDependencyState) (p : DeviceProjection)
    → state.site_dependency_impacted ≡ true
    → is_direct_critical p ≡ true
    → apply_site_dependency_overlay state p ≡ excused p
unfolding apply_site_dependency_overlay
overlay_on state p h k = ground arith

overlay_off :
    (state : SiteDependencyState) (p : DeviceProjection)
    → is_direct_critical p ≡ false
    → apply_site_dependency_overlay state p ≡ p
unfolding apply_site_dependency_overlay
overlay_off state p h = ground arith

overlay_idle :
    (state : SiteDependencyState) (p : DeviceProjection)
    → state.site_dependency_impacted ≡ false
    → apply_site_dependency_overlay state p ≡ p
unfolding apply_site_dependency_overlay
overlay_idle state p h = ground arith

-- In a site that is impacted, the overlay leaves no device that is critical by itself, and a
-- device that it changes does not raise an alert; it changes no other device, and a second
-- overlay changes nothing.
pub overlay_excuses :
    (state : SiteDependencyState) (p : DeviceProjection)
    → (state.site_dependency_impacted ≡ true
        → is_direct_critical (apply_site_dependency_overlay state p) ≡ false)
      × (state.site_dependency_impacted ≡ true
          → is_direct_critical p ≡ true
          → raises_alert (apply_site_dependency_overlay state p) ≡ false)
      × (is_direct_critical p ≡ false → apply_site_dependency_overlay state p ≡ p)
      × (apply_site_dependency_overlay state (apply_site_dependency_overlay state p)
          ≡ apply_site_dependency_overlay state p)
overlay_excuses state p = elim (Bool-cases (is_direct_critical p)) [
  | inr n ↦
      let e = overlay_off state p n in
      (
        λ h. ap is_direct_critical e ∙ n,
        λ h k. cc,
        λ h. e,
        ap (apply_site_dependency_overlay state) e,
      )
  | inl c ↦ elim (Bool-cases state.site_dependency_impacted) [
    | inl i ↦
        let e = overlay_on state p i c in
        let (f, g) = excused_lem p in
        (
          λ h. ap is_direct_critical e ∙ f,
          λ h k. ap raises_alert e ∙ g,
          λ h. cc,
          ap (apply_site_dependency_overlay state) e ∙ overlay_off state (excused p) f ∙ sym e,
        )
    | inr i ↦
        let e = overlay_idle state p i in
        (λ h. cc, λ h k. cc, λ h. e, ap (apply_site_dependency_overlay state) e)
  ]
]
