-- ===== src/Health/Verdict.antt =====
-- What `evaluateFailure` decides, against a description that does not scan.
use monitoring_project.Prelude.{
  ℕ, ◌≡◌, refl, ◌≢◌, ◌⊎◌, inl, inr, String, Bool, true, false, not, ◌&&◌, ◌||◌, Option, none, some,
  ap, List, [], ◌∷◌, ◌++◌, leb, ltb, if◌then◌else◌, length, lookup, arith, Bool-cases, ltb_irrefl,
  sort_strings,
}
use monitoring_project.Health.Types.{unknown, upstream_unreachable, DeviceHealth, Ledger}
use monitoring_project.Health.Evaluate.{
  ◌>>=◌, Evaluated, Scan, is_down_state, empty_scan, scan_upstream, scan_upstreams,
  collect_root_causes, critical_verdict, judge_scan, evaluate_failure,
}
use mathlib.Core.List.{append_assoc, append-nil}

module _ {F : Type 0} where
  -- The upstream's last poll succeeded.
  abbrev pub answers : Option (DeviceHealth F) → Bool
  answers none = false
  answers (some up) = up.has_outcome && up.last_outcome_success

  -- The upstream's last poll failed, as did at least `threshold` in a row, and it is known to be
  -- down.
  abbrev pub confirmed_down : ℕ → Option (DeviceHealth F) → Bool
  confirmed_down threshold none = false
  confirmed_down threshold (some up) =
      up.has_outcome
      && not up.last_outcome_success
      && leb threshold up.failure_count
      && up.has_state
      && is_down_state up.state

  abbrev pub any_answers : Ledger F → List String → Bool
  any_answers devices [] = false
  any_answers devices (id ∷ ids) = answers (lookup id devices) || any_answers devices ids

  abbrev pub all_down : Ledger F → ℕ → List String → Bool
  all_down devices threshold [] = true
  all_down devices threshold (id ∷ ids) =
      confirmed_down threshold (lookup id devices) && all_down devices threshold ids

  abbrev any_pending : Ledger F → ℕ → List String → Bool
  any_pending devices threshold [] = false
  any_pending devices threshold (id ∷ ids) =
      (not (answers (lookup id devices)) && not (confirmed_down threshold (lookup id devices)))
      || any_pending devices threshold ids

  -- The ids of the upstreams that are down, in their order.
  abbrev downs : Ledger F → ℕ → List String → List String
  downs devices threshold [] = []
  downs devices threshold (id ∷ ids) =
      let rest = downs devices threshold ids in
      if confirmed_down threshold (lookup id devices) then id ∷ rest else rest

  scan_upstream-eq :
      (threshold : ℕ) (id : String) (o : Option (DeviceHealth F)) (s : Scan)
      → scan_upstream threshold id o s ≡ record {
        any_success = s.any_success || answers o;
        any_pending = s.any_pending || (not (answers o) && not (confirmed_down threshold o));
        unavailable = s.unavailable ++ (if confirmed_down threshold o then id ∷ [] else []);
      }
  unfolding scan_upstream
  scan_upstream-eq threshold id none s = ground (arith, append-nil s.unavailable)
  scan_upstream-eq threshold id (some up) s = ground (arith, append-nil s.unavailable)

  pub scan_upstreams-eq :
      (devices : Ledger F) (threshold : ℕ) (ids : List String) (s : Scan)
      → scan_upstreams devices threshold ids s ≡ record {
        any_success = s.any_success || any_answers devices ids;
        any_pending = s.any_pending || any_pending devices threshold ids;
        unavailable = s.unavailable ++ downs devices threshold ids;
      }
  unfolding scan_upstreams
  scan_upstreams-eq devices threshold [] s = ground (arith, append-nil s.unavailable)
  scan_upstreams-eq devices threshold (id ∷ ids) s =
      rw (scan_upstream-eq, scan_upstreams-eq devices threshold ids)
        (elim (Bool-cases (confirmed_down threshold (lookup id devices))) [
          | inl e ↦ rw e (ground (arith, append_assoc s.unavailable (id ∷ []) rest))
          | inr e ↦ rw e (ground (arith, append-nil s.unavailable))
        ])
    where
      rest : List String
      rest = downs devices threshold ids

  down_silent :
      (threshold : ℕ) (o : Option (DeviceHealth F))
      → confirmed_down threshold o ≡ true
      → answers o ≡ false
  down_silent threshold none h = refl
  down_silent threshold (some up) h = ground arith

  all_down-scan :
      (devices : Ledger F) (threshold : ℕ) (ids : List String)
      → all_down devices threshold ids ≡ true
      → (any_answers devices ids ≡ false)
        × (any_pending devices threshold ids ≡ false)
        × (downs devices threshold ids ≡ ids)
  all_down-scan devices threshold [] h = (refl, refl, refl)
  all_down-scan devices threshold (id ∷ ids) h =
      let o = lookup id devices in
      let here : confirmed_down threshold o ≡ true = ground arith in
      let (a, b, c) = all_down-scan devices threshold ids (ground arith) in
      (ground (arith, down_silent threshold o), ground (arith, a, b), rw here (ap (◌∷◌ id) c))

  pending_scan :
      (devices : Ledger F) (threshold : ℕ) (ids : List String)
      → any_answers devices ids ≡ false
      → all_down devices threshold ids ≡ false
      → any_pending devices threshold ids ≡ true
  pending_scan devices threshold [] h k = cc
  pending_scan devices threshold (id ∷ ids) h k = ground (arith, pending_scan devices threshold ids)

  -- The verdict `unknown`, with the upstreams and their root causes in order.
  abbrev pub unknown_verdict : List String → List String → Evaluated F
  unknown_verdict unavailable root_causes = record {
    state = unknown;
    reason = upstream_unreachable;
    temperature_c = none;
    unavailable = unavailable;
    root_causes = root_causes;
  }

  module _ (fuel : ℕ) (devices : Ledger F) (upstreams : List String) where
    judge_scan_answered :
        (s : Scan)
        → s.any_success ≡ true
        → judge_scan fuel devices upstreams s ≡ some (some critical_verdict)
    unfolding judge_scan
    judge_scan_answered s h = rw h

    judge_scan_pending :
        (s : Scan)
        → s.any_success ≡ false
        → s.any_pending ≡ true
        → judge_scan fuel devices upstreams s ≡ some none
    unfolding judge_scan
    judge_scan_pending s h k = rw (h, k)

    judge_scan_down :
        (s : Scan)
        → s.any_success ≡ false
        → s.any_pending ≡ false
        → s.unavailable ≡ upstreams
        → judge_scan fuel devices upstreams s ≡ (
            collect_root_causes fuel devices (sort_strings upstreams) >>= λ roots.
            some (some (unknown_verdict (sort_strings upstreams) roots)))
    unfolding judge_scan
    judge_scan_down s h k e =
        let full : ltb (length s.unavailable) (length upstreams) ≡ false =
          rw e (ltb_irrefl (length upstreams)) in
        rw (h, k, full, e)

  evaluate_failure-judge :
      (fuel : ℕ) (devices : Ledger F) (id : String) (ids : List String) (threshold : ℕ)
      → evaluate_failure fuel devices (id ∷ ids) threshold
        ≡ judge_scan fuel devices
            (id ∷ ids)
            (scan_upstreams devices threshold (id ∷ ids) empty_scan)
  unfolding evaluate_failure
  evaluate_failure-judge fuel devices id ids threshold = refl

  critical_of_none :
      (fuel : ℕ) (devices : Ledger F) (threshold : ℕ)
      → evaluate_failure fuel devices [] threshold ≡ some (some critical_verdict)
  unfolding evaluate_failure
  critical_of_none fuel devices threshold = refl

  -- Of a device whose polls fail, the upstreams decide, and the three cases are all there are:
  -- it is critical if it has no upstream or some upstream answered its last poll; it is unknown,
  -- with all its upstreams sorted as the unavailable ones, if it has upstreams and all of them are
  -- confirmed down; and nothing is decided if no upstream answers and not all are confirmed down.
  pub evaluate_failure_cases :
      (fuel : ℕ) (devices : Ledger F) (upstreams : List String) (threshold : ℕ)
      → ((upstreams ≡ []) ⊎ (any_answers devices upstreams ≡ true)
          → evaluate_failure fuel devices upstreams threshold ≡ some (some critical_verdict))
        × (upstreams ≢ []
            → all_down devices threshold upstreams ≡ true
            → evaluate_failure fuel devices upstreams threshold ≡ (
                collect_root_causes fuel devices (sort_strings upstreams) >>= λ roots.
                some (some (unknown_verdict (sort_strings upstreams) roots))))
        × (any_answers devices upstreams ≡ false
            → all_down devices threshold upstreams ≡ false
            → evaluate_failure fuel devices upstreams threshold ≡ some none)
  evaluate_failure_cases fuel devices [] threshold =
      (λ h. critical_of_none fuel devices threshold, λ h k. absurd (h refl), λ h k. cc)
  evaluate_failure_cases fuel devices (id ∷ ids) threshold = (
    λ h.
        rw (evaluate_failure-judge, scan_upstreams-eq devices threshold (id ∷ ids) empty_scan)
          (judge_scan_answered fuel devices (id ∷ ids) _ (ground arith)),
    λ h k.
        let (a, b, c) = all_down-scan devices threshold (id ∷ ids) k in
        rw (evaluate_failure-judge, scan_upstreams-eq devices threshold (id ∷ ids) empty_scan)
          (judge_scan_down fuel devices (id ∷ ids) _ a b c),
    λ h k.
        rw (evaluate_failure-judge, scan_upstreams-eq devices threshold (id ∷ ids) empty_scan)
          (judge_scan_pending fuel devices (id ∷ ids) _ h
            (pending_scan devices threshold (id ∷ ids) h k)),
  )
