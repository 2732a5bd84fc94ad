-- ===== src/Health/Tests.antt =====
-- Runs of the tracker, and the theorems at them.
use monitoring_project.Prelude.{
  ℕ, ◌+◌, ◌≤◌, ◌<◌, ◌≡◌, ◌≢◌, ◌⊎◌, ◌↔◌, refl, inl, inr, String, Bool, true, false, ◌||◌, Option,
  none, some, List, [], ◌∷◌, map, ◌=s=◌, eq_iff, leb, if◌then◌else◌, Map, lookup, insert, keys,
  keep, elem, IsDistinct, All, IsSorted, sort_by, sort_strings, arith, Bool-cases,
}
use monitoring_project.Prelude.Int.{pos}
use monitoring_project.Health.Types.{
  Floats, State, unknown, critical, upstream_unreachable, direct_unreachable, PollOutcome,
  DeviceHealth, new_device, Ledger, DeviceConfig, Config, effective_temperature_warning_c,
  alerts_enabled_or_default, effective_threshold,
}
use monitoring_project.Health.Evaluate.{
  ◌>>=◌, evaluate_device, evaluate_failure, critical_verdict, walk, collect_root_causes,
}
use monitoring_project.Health.Order.{normalize_ids, topological_order}
use monitoring_project.Health.Tracker.{Batch, apply_batch, prune, snapshot, Policy, publish}
use monitoring_project.Health.Verdict.{
  unknown_verdict, any_answers, all_down, evaluate_failure_cases,
}
use monitoring_project.Health.Roots.{IsTrapped, walk-IsTrapped, collect_root_causes-returns}
use monitoring_project.Health.Complete.{topological_order_complete}
use monitoring_project.Health.Meets.{AreRootsOf}
use monitoring_project.Health.Entry.{publish_again, publish_silent}
use monitoring_project.Health.Batch.{IsGood, AreEvents, apply_batch-returns}
use monitoring_project.Health.Gauges.{snapshot_totals}

program : Unit {0}
unfolding apply_batch prune lookup insert keep elem keys sort_by effective_temperature_warning_c
    alerts_enabled_or_default effective_threshold normalize_ids evaluate_device
program = tt

-- Temperatures in whole degrees.
abbrev degrees : Floats ℕ
degrees = record {
  ge = λ a b. leb b a;
  gt = λ a b. if leb a b then false else true;
  is_nan = λ a. false;
  is_negative = λ a. false;
}

abbrev node : String → List String → DeviceConfig ℕ
node id ups = record {
  id = id;
  temperature_warning_c = none;
  upstream_device_ids = ups;
  alerts_enabled = none;
}

abbrev with_nodes : List (DeviceConfig ℕ) → Config ℕ
with_nodes ds = record { temperature_warning_c = 60; failure_threshold = pos 3; devices = ds }

abbrev fails : String → PollOutcome ℕ
fails id = record { device_id = id; success = false; observed_at = 7; temperature_c = none }

abbrev cycle : Config ℕ → List (PollOutcome ℕ) → Ledger ℕ → Option (Batch ℕ)
cycle cfg = apply_batch degrees (λ c. "policy") 5 cfg

-- c, then b below c, then a below b.
abbrev before_reload : Config ℕ
before_reload = with_nodes (node "a" ("b" ∷ []) ∷ node "b" ("c" ∷ []) ∷ node "c" [] ∷ [])

-- a new device d, then a below d, then b below a.
abbrev after_reload : Config ℕ
after_reload =
    with_nodes (node "a" ("d" ∷ []) ∷ node "b" ("a" ∷ []) ∷ node "c" [] ∷ node "d" [] ∷ [])

abbrev abc : List (PollOutcome ℕ)
abc = fails "a" ∷ fails "b" ∷ fails "c" ∷ []

abbrev abcd : List (PollOutcome ℕ)
abcd = fails "d" ∷ abc

three_cycles : Option (Batch ℕ)
three_cycles = do
  one ← cycle before_reload abc []
  two ← cycle before_reload abc one.0
  cycle before_reload abc two.0

abbrev summary : Batch ℕ → Option (List (String × State × List String))
summary b = some (map (λ e. (e.device_id, e.state, e.root_cause_device_ids)) b.1)

-- The third failed cycle makes c critical, and b and a unknown with c as the root cause.
three_cycles_events :
    (three_cycles >>= summary)
    ≡ some (("a", unknown, "c" ∷ []) ∷ ("b", unknown, "c" ∷ []) ∷ ("c", critical, []) ∷ [])
unfolding program three_cycles
three_cycles_events = refl

-- After the reload the first cycle returns. It leaves a, which waits for d, with the blame on b
-- of before, and puts the blame of b on a.
four_cycles : Option (Batch ℕ)
unfolding three_cycles
four_cycles = do
  three ← three_cycles
  cycle after_reload abcd (prune ("a" ∷ "b" ∷ "c" ∷ "d" ∷ []) three.0)

abbrev failing : ℕ → List String → List String → DeviceHealth ℕ
failing count blame roots = record new_device {
  has_state = true;
  state = unknown;
  reason = upstream_unreachable;
  failure_count = count;
  last_observed_at = 7;
  has_outcome = true;
  temperature_warning_c = some 60;
  upstream_device_ids = blame;
  unavailable_upstream = blame;
  root_cause_device_ids = roots;
  alerts_enabled_published = true;
  has_alerts_enabled = true;
}

abbrev down : ℕ → DeviceHealth ℕ
down count = record (failing count [] []) { state = critical; reason = direct_unreachable }

abbrev pending : ℕ → DeviceHealth ℕ
pending count = record new_device {
  failure_count = count;
  last_observed_at = 7;
  has_outcome = true;
}

abbrev knot : Ledger ℕ
knot =
    ("a", failing 4 ("b" ∷ []) ("c" ∷ []))
    ∷ ("b", failing 4 ("a" ∷ []) ("c" ∷ []))
    ∷ ("c", down 4)
    ∷ ("d", pending 1)
    ∷ []

four_cycles-knot : four_cycles ≡ some (knot, [])
unfolding program four_cycles
four_cycles-knot = refl

in_knot : String → Bool
in_knot id = id =s= "a" || id =s= "b"

knot-IsTrapped : IsTrapped in_knot knot
unfolding in_knot lookup
knot-IsTrapped id h = elim (Bool-cases (id =s= "a")) [
  | inl e ↦
      rw ((eq_iff id "a").0 e)
        (failing 4 ("b" ∷ []) ("c" ∷ []), "b", [], refl, refl, refl, refl, refl)
  | inr n ↦
      rw ((eq_iff id "b").0 (ground arith))
        (failing 4 ("a" ∷ []) ("c" ∷ []), "a", [], refl, refl, refl, refl, refl)
]

walk-IsTrapped_example : walk 1000 knot "a" [] ≡ none
unfolding in_knot
walk-IsTrapped_example = walk-IsTrapped in_knot knot knot-IsTrapped 1000 "a" [] refl

-- So the next cycle, in which b is evaluated with a as its upstream, does not return.
fifth_cycle : cycle after_reload abcd knot ≡ none
unfolding program
fifth_cycle = refl

abbrev only_d : List String
only_d = "d" ∷ []

evaluate_failure_cases_example :
    ((only_d ≡ []) ⊎ (any_answers knot only_d ≡ true)
      → evaluate_failure 5 knot only_d 3 ≡ some (some critical_verdict))
    × (only_d ≢ []
        → all_down knot 3 only_d ≡ true
        → evaluate_failure 5 knot only_d 3 ≡ (
            collect_root_causes 5 knot (sort_strings only_d) >>= λ roots.
            some (some (unknown_verdict (sort_strings only_d) roots))))
    × (any_answers knot only_d ≡ false
        → all_down knot 3 only_d ≡ false
        → evaluate_failure 5 knot only_d 3 ≡ some none)
evaluate_failure_cases_example = evaluate_failure_cases 5 knot only_d 3

undecided_run : evaluate_failure 5 knot ("d" ∷ []) 3 ≡ some none
unfolding lookup
undecided_run = (evaluate_failure_cases 5 knot ("d" ∷ []) 3).2 refl refl

abbrev rank : String → ℕ
rank id = if id =s= "c" then 0 else if id =s= "b" then 1 else if id =s= "a" then 2 else 3

rank_bounded : (id : String) → rank id < 5
rank_bounded id = ground arith

abbrev settled : Ledger ℕ
settled =
    ("a", failing 3 ("b" ∷ []) ("c" ∷ []))
    ∷ ("b", failing 3 ("c" ∷ []) ("c" ∷ []))
    ∷ ("c", down 3)
    ∷ []

collect_root_causes-returns_example :
    (out : List String) × (collect_root_causes 5 settled ("b" ∷ []) ≡ some out)
    × IsDistinct out
    × AreRootsOf settled ("b" ∷ []) out
    × IsSorted out
collect_root_causes-returns_example =
    collect_root_causes-returns settled rank ((omega arith, tt), ((omega arith, tt), (tt, tt))) 5
      rank_bounded ("b" ∷ [])

abbrev index : Map (DeviceConfig ℕ)
index = ("b", node "b" ("c" ∷ [])) ∷ ("c", node "c" []) ∷ []

index-IsDistinct : IsDistinct (keys index)
unfolding keys elem
index-IsDistinct = (refl, (refl, tt))

topological_order_complete_example :
    IsDistinct (topological_order index)
    × ((x : String) → elem x (topological_order index) ≡ elem x (keys index))
topological_order_complete_example = topological_order_complete index index-IsDistinct

topological_order_run : topological_order index ≡ "c" ∷ "b" ∷ []
unfolding program
topological_order_run = refl

abbrev policy : Policy ℕ
policy = record {
  threshold = 3;
  revision = "policy";
  warning_c = 60;
  upstreams = "c" ∷ [];
  alerts_enabled = true;
}

publish_again_example :
    publish policy "b"
      (publish policy "b" (down 3) (unknown_verdict ("c" ∷ []) ("c" ∷ []))).0
      (unknown_verdict ("c" ∷ []) ("c" ∷ []))
    ≡ ((publish policy "b" (down 3) (unknown_verdict ("c" ∷ []) ("c" ∷ []))).0, none)
publish_again_example = publish_again policy "b" (down 3) (unknown_verdict ("c" ∷ []) ("c" ∷ []))

publish_silent_example :
    let e = failing 3 ("c" ∷ []) ("c" ∷ []) in
    ((publish policy "b" e (unknown_verdict ("c" ∷ []) ("c" ∷ []))).1 ≡ none) ↔ (
      (e.has_state ≡ true)
      × (e.state ≡ unknown)
      × (e.reason ≡ upstream_unreachable)
      × (e.has_alerts_enabled ≡ true → e.alerts_enabled_published ≡ true))
publish_silent_example =
    publish_silent policy "b" (failing 3 ("c" ∷ []) ("c" ∷ []))
      (unknown_verdict ("c" ∷ []) ("c" ∷ []))

settled-IsGood : All (IsGood rank) settled
settled-IsGood = (
  (ground arith, (omega arith, tt)),
  ((ground arith, (omega arith, tt)), ((ground arith, tt), tt)),
)

apply_batch-returns_example :
    (r : Batch ℕ) × (cycle before_reload abc settled ≡ some r)
    × All (IsGood rank) r.0
    × AreEvents r.1
    × IsSorted (map (λ e. e.device_id) r.1)
apply_batch-returns_example =
    apply_batch-returns degrees (λ c. "policy") rank 5 rank_bounded before_reload abc settled
      ((omega arith, tt), ((omega arith, tt), (tt, tt))) settled-IsGood

snapshot_totals_example :
    let s = snapshot settled in
    (s.healthy_count + s.warning_count + s.critical_count + s.unknown_count ≡ 3)
    × (s.no_state_count ≡ 0)
    × (s.dependency_impacted ≡ s.unknown_count)
    × (s.pending_failures ≤ 3)
snapshot_totals_example = snapshot_totals settled (ground arith, (ground arith, (ground arith, tt)))
