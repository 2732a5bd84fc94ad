-- ===== src/Health/Entry.antt =====
-- What holds of every entry of the ledger, and of every event, and that one evaluation keeps it.
use monitoring_project.Prelude.{
  ℕ, ◌≤◌, ◌<◌, ◌≡◌, ◌↔◌, refl, ◌∙◌, inl, inr, String, Bool, true, false, Option, none, some, List,
  [], ltb, All, All-sort_by, sort_strings, arith, Bool-cases, List-cases,
}
use monitoring_project.Health.Types.{
  Floats, State, no_state, healthy, warning, critical, unknown, Reason, reachable,
  temperature_threshold, direct_unreachable, upstream_unreachable, reason_recovered, Transition,
  initial, entered, recovered, reasserted, PollOutcome, Event, DeviceHealth, new_device, Ledger,
}
use monitoring_project.Health.Evaluate.{
  Evaluated, evaluate_success, evaluate_failure, evaluate_device,
}
use monitoring_project.Health.Tracker.{state_rank, commit_entry, Policy, publish}
use monitoring_project.Health.Verdict.{any_answers, all_down, evaluate_failure_cases}
use monitoring_project.Health.Roots.{IsRanked, collect_root_causes-returns}

-- The reason that goes with a state.
abbrev pub matches : State → Reason → Bool
matches healthy reachable = true
matches warning temperature_threshold = true
matches critical direct_unreachable = true
matches unknown upstream_unreachable = true
matches _ _ = false

pub record IsConsistent {F : Type 0} (e : DeviceHealth F) : Type 0 where
  pub succeeded : e.last_outcome_success ≡ true → e.failure_count ≡ 0
  pub failed : e.has_outcome ≡ true → e.last_outcome_success ≡ false → 0 < e.failure_count
  pub unobserved : e.has_outcome ≡ false → (e.failure_count ≡ 0) × (e.has_state ≡ false)
  pub stateless : e.has_state ≡ false → e.state ≡ no_state
  pub stated : e.has_state ≡ true → matches e.state e.reason ≡ true
  pub alerts : e.has_alerts_enabled ≡ e.has_state

-- How the transition of an event relates the state before it, the new state and the reason.
abbrev pub Explains : Transition → Option State → State → Reason → Type 0
Explains initial previous state reason = (previous ≡ none) × (matches state reason ≡ true)
Explains entered previous state reason =
    (p : State) × (previous ≡ some p)
    × (state_rank state ≤ state_rank p)
    × (matches state reason ≡ true)
Explains recovered previous state reason =
    (p : State) × (previous ≡ some p)
    × (state_rank p < state_rank state)
    × (reason ≡ reason_recovered)
Explains reasserted previous state reason = (previous ≡ some state) × (matches state reason ≡ true)

module _ {F : Type 0} where
  abbrev pub IsExplained : Event F → Type 0
  IsExplained e = Explains e.transition e.previous_state e.state e.reason

  pub new_device-IsConsistent : IsConsistent (new_device {F = F})
  new_device-IsConsistent = ground arith

  pub commit_entry-IsConsistent :
      (o : PollOutcome F) (e : DeviceHealth F) → IsConsistent e → IsConsistent (commit_entry o e)
  unfolding commit_entry
  commit_entry-IsConsistent o e c = ground arith

  pub publish-IsConsistent :
      (p : Policy F) (id : String) (e : DeviceHealth F) (v : Evaluated F)
      → IsConsistent e
      → e.has_outcome ≡ true
      → matches v.state v.reason ≡ true
      → IsConsistent (publish p id e v).0
  unfolding publish
  publish-IsConsistent p id e v c h m = record {
    succeeded = c.succeeded;
    failed = c.failed;
    unobserved = λ k. absurd (cc (h, k));
    stateless = λ k. cc;
    stated = λ k. m;
    alerts = refl;
  }

  pub publish-device_id :
      (p : Policy F) (id : String) (e : DeviceHealth F) (v : Evaluated F) (ev : Event F)
      → (publish p id e v).1 ≡ some ev
      → ev.device_id ≡ id
  unfolding publish
  publish-device_id p id e v ev h = ground arith

  pub publish-explains :
      (p : Policy F) (id : String) (e : DeviceHealth F) (v : Evaluated F) (ev : Event F)
      → IsConsistent e
      → matches v.state v.reason ≡ true
      → (publish p id e v).1 ≡ some ev
      → IsExplained ev
  unfolding publish
  publish-explains p id e v ev c m h = ground arith

  -- A second evaluation with the same verdict and the same policy emits no event and leaves the
  -- entry as the first one wrote it.
  pub publish_again :
      (p : Policy F) (id : String) (e : DeviceHealth F) (v : Evaluated F)
      → publish p id (publish p id e v).0 v ≡ ((publish p id e v).0, none)
  unfolding publish
  publish_again p id e v = ground arith

  -- No event is made exactly where the device has a state, this state and its reason are as before,
  -- and so is the alerting flag if one was published.
  pub publish_silent :
      (p : Policy F) (id : String) (e : DeviceHealth F) (v : Evaluated F)
      → ((publish p id e v).1 ≡ none) ↔ (
          (e.has_state ≡ true)
          × (e.state ≡ v.state)
          × (e.reason ≡ v.reason)
          × (e.has_alerts_enabled ≡ true → e.alerts_enabled_published ≡ p.alerts_enabled))
  unfolding publish
  publish_silent p id e v = (λ h. ground arith, λ h. ground arith)

module _ {F : Type 0} (fl : Floats F) where
  -- What a verdict is worth: nothing decided, or a state with its reason, of a device that was
  -- polled, which blames devices of rank below `n` only.
  abbrev pub IsSound : DeviceHealth F → (String → ℕ) → ℕ → Option (Evaluated F) → Type 0
  IsSound entry rank n none = Unit
  IsSound entry rank n (some v) =
      (matches v.state v.reason ≡ true)
      × (entry.has_outcome ≡ true)
      × All (λ u. rank u < n) v.unavailable

  evaluate_success-matches :
      (entry : DeviceHealth F) (warning_c : F)
      → (matches
            (evaluate_success fl entry warning_c).state
            (evaluate_success fl entry warning_c).reason
          ≡ true)
        × ((evaluate_success fl entry warning_c).unavailable ≡ [])
  unfolding evaluate_success
  evaluate_success-matches entry warning_c = ground arith

  module _ (fuel : ℕ) (devices : Ledger F) (entry : DeviceHealth F) (rank : String → ℕ) (n : ℕ)
      (ranked : IsRanked rank devices) (enough : (id : String) → rank id < fuel)
      (upstreams : List String) (below : All (λ u. rank u < n) upstreams) where
    abbrev Decides : Option (Option (Evaluated F)) → Type 0
    Decides o = (r : Option (Evaluated F)) × (o ≡ some r) × IsSound entry rank n r

    evaluate_failure-Decides :
        (threshold : ℕ)
        → entry.has_outcome ≡ true
        → Decides (evaluate_failure fuel devices upstreams threshold)
    evaluate_failure-Decides threshold h =
        let (critical_case, unknown_case, open_case) =
          evaluate_failure_cases fuel devices upstreams threshold in
        elim (Bool-cases (any_answers devices upstreams)) [
          | inl a ↦ rw (critical_case (inr a)) (_, refl, (refl, h, tt))
          | inr a ↦ elim (Bool-cases (all_down devices threshold upstreams)) [
            | inr d ↦ rw (open_case a d) (none, refl, tt)
            | inl d ↦ elim (List-cases upstreams) [
              | inl e ↦ rw (critical_case (inl e)) (_, refl, (refl, h, tt))
              | inr e ↦
                  let (out, returned, _, _, _) =
                    collect_root_causes-returns devices rank ranked fuel enough
                      (sort_strings upstreams) in
                  rw (unknown_case e d, returned)
                    (_, refl, (refl, h, All-sort_by (λ s. s) (λ u. rank u < n) upstreams below))
            ]
          ]
        ]

    module _ (warning_c : F) (threshold : ℕ) where
      abbrev evaluation : Option (Option (Evaluated F))
      evaluation = evaluate_device fl fuel devices entry upstreams warning_c threshold

      device_unpolled : entry.has_outcome ≡ false → evaluation ≡ some none
      unfolding evaluate_device
      device_unpolled h = rw h

      device_answered :
          entry.has_outcome ≡ true
          → entry.last_outcome_success ≡ true
          → evaluation ≡ some (some (evaluate_success fl entry warning_c))
      unfolding evaluate_device
      device_answered h s = rw (h, s)

      device_failing :
          entry.has_outcome ≡ true
          → entry.last_outcome_success ≡ false
          → ltb entry.failure_count threshold ≡ true
          → evaluation ≡ some none
      unfolding evaluate_device
      device_failing h s b = rw (h, s, b)

      device_failed :
          entry.has_outcome ≡ true
          → entry.last_outcome_success ≡ false
          → ltb entry.failure_count threshold ≡ false
          → evaluation ≡ evaluate_failure fuel devices upstreams threshold
      unfolding evaluate_device
      device_failed h s b = rw (h, s, b)

      -- The evaluation returns, with a sound verdict.
      pub evaluate_device-Decides : Decides evaluation
      evaluate_device-Decides = elim (Bool-cases entry.has_outcome) [
        | inr h ↦ (none, device_unpolled h, tt)
        | inl h ↦ elim (Bool-cases entry.last_outcome_success) [
          | inl s ↦
              let (m, u) = evaluate_success-matches entry warning_c in
              (_, device_answered h s, (m, h, rw u tt))
          | inr s ↦ elim (Bool-cases (ltb entry.failure_count threshold)) [
            | inl b ↦ (none, device_failing h s b, tt)
            | inr b ↦
                let (r, e, sound) = evaluate_failure-Decides threshold h in
                (r, device_failed h s b ∙ e, sound)
          ]
        ]
      ]
