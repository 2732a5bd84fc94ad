-- ===== src/Health/Evaluate.antt =====
-- The evaluation of one device, tracker.go: `evaluateDevice`, `evaluateSuccess`, `evaluateFailure`,
-- `collectRootCauses`, and temperature.go. The closure `walk` of `collectRootCauses` has no bound
-- of its own: it recurs on fuel here, and `none` of an outer `Option` means that it did not return.
use monitoring_project.Prelude.{
  ℕ, zero, suc, String, Bool, true, false, not, ◌||◌, Option, none, some, List, [], ◌∷◌, ◌++◌, ltb,
  if◌then◌else◌, length, lookup, elem, sort_strings,
}
use monitoring_project.Health.Types.{
  Floats, State, healthy, warning, critical, unknown, Reason, reachable, temperature_threshold,
  direct_unreachable, upstream_unreachable, DeviceHealth, Ledger,
}

-- A call that may not return.
infixl 5 ◌>>=◌
abbrev pub ◌>>=◌ : {A B : Type 0} → Option A → (A → Option B) → Option B
none >>= f = none
some a >>= f = f a

pub record ComponentReading (F : Type 0) : Type 0 where
  pub value : Option F

module _ {F : Type 0} (fl : Floats F) where
  open fl use {ge, gt, is_nan, is_negative}

  -- One round of the loop of `PrimaryTemperature`; `none` is `ok == false`.
  unfoldable pub better_temperature : Option F → Option F → Option F
  better_temperature best none = best
  better_temperature none (some candidate) =
      if is_nan candidate || is_negative candidate then none else some candidate
  better_temperature (some best) (some candidate) =
      if is_nan candidate || is_negative candidate
      then some best
      else if gt candidate best
      then some candidate
      else some best

  unfoldable pub primary_temperature_from : Option F → List (ComponentReading F) → Option F
  primary_temperature_from best [] = best
  primary_temperature_from best (c ∷ cs) =
      primary_temperature_from (better_temperature best c.value) cs

  unfoldable pub primary_temperature : List (ComponentReading F) → Option F
  unfolding primary_temperature_from better_temperature
  primary_temperature components = primary_temperature_from none components

pub record Evaluated (F : Type 0) : Type 0 where
  pub state : State
  pub reason : Reason
  pub temperature_c : Option F
  pub unavailable : List String
  pub root_causes : List String

-- The variables of the loop of `evaluateFailure`.
pub record Scan : Type 0 where
  pub any_success : Bool
  pub any_pending : Bool
  pub unavailable : List String

abbrev pub is_down_state : State → Bool
is_down_state critical = true
is_down_state unknown = true
is_down_state _ = false

abbrev pub empty_scan : Scan
empty_scan = record { any_success = false; any_pending = false; unavailable = [] }

-- A loop that calls `walk` on each id; the set `seen` holds what `out` holds.
unfoldable pub walk_all :
    (String → List String → Option (List String)) → List String → List String → Option (List String)
walk_all call [] out = some out
walk_all call (id ∷ ids) out = do out' ← call id out; walk_all call ids out'

module _ {F : Type 0} where
  unfoldable pub scan_upstream : ℕ → String → Option (DeviceHealth F) → Scan → Scan
  scan_upstream threshold id none s = record s { any_pending = true }
  scan_upstream threshold id (some up) s =
      if not up.has_outcome
      then record s { any_pending = true }
      else if up.last_outcome_success
      then record s { any_success = true }
      else if ltb up.failure_count threshold
      then record s { any_pending = true }
      else if not up.has_state || not (is_down_state up.state)
      then record s { any_pending = true }
      else record s { unavailable = s.unavailable ++ (id ∷ []) }

  unfoldable pub scan_upstreams : Ledger F → ℕ → List String → Scan → Scan
  unfolding scan_upstream
  scan_upstreams devices threshold [] s = s
  scan_upstreams devices threshold (id ∷ ids) s =
      scan_upstreams devices threshold ids (scan_upstream threshold id (lookup id devices) s)

  -- The body of `walk` at an entry.
  unfoldable pub walk_entry :
      (String → List String → Option (List String))
      → String
      → Option (DeviceHealth F)
      → List String
      → Option (List String)
  unfolding walk_all
  walk_entry call id none out = some out
  walk_entry call id (some entry) out =
      if not entry.has_state then some out else elim (entry.state) [
        | critical ↦ if elem id out then some out else some (out ++ (id ∷ []))
        | unknown ↦ walk_all call entry.unavailable_upstream out
        | _ ↦ some out
      ]

  unfoldable pub walk : ℕ → Ledger F → String → List String → Option (List String)
  unfolding walk_entry
  walk zero devices id out = none
  walk (suc fuel) devices id out = walk_entry (walk fuel devices) id (lookup id devices) out

  unfoldable pub collect_root_causes : ℕ → Ledger F → List String → Option (List String)
  unfolding walk
  collect_root_causes fuel devices unavailable = do
    out ← walk_all (walk fuel devices) unavailable []
    some (sort_strings out)

  abbrev pub critical_verdict : Evaluated F
  critical_verdict = record {
    state = critical;
    reason = direct_unreachable;
    temperature_c = none;
    unavailable = [];
    root_causes = [];
  }

  -- The end of `evaluateFailure`, after the loop.
  unfoldable pub judge_scan : ℕ → Ledger F → List String → Scan → Option (Option (Evaluated F))
  unfolding collect_root_causes
  judge_scan fuel devices upstreams s =
      if s.any_success
      then some (some critical_verdict)
      else if s.any_pending || ltb (length s.unavailable) (length upstreams)
      then some none
      else do
        let unavailable = sort_strings s.unavailable
        root_causes ← collect_root_causes fuel devices unavailable
        some (
            some (record {
              state = unknown;
              reason = upstream_unreachable;
              temperature_c = none;
              unavailable = unavailable;
              root_causes = root_causes;
            }))

  -- `some none` is the result `ok == false`.
  unfoldable pub evaluate_failure : ℕ → Ledger F → List String → ℕ → Option (Option (Evaluated F))
  unfolding judge_scan scan_upstreams
  evaluate_failure fuel devices [] threshold = some (some critical_verdict)
  evaluate_failure fuel devices (id ∷ ids) threshold =
      judge_scan fuel devices (id ∷ ids) (scan_upstreams devices threshold (id ∷ ids) empty_scan)

module _ {F : Type 0} (fl : Floats F) where
  open fl use {ge}

  abbrev is_hot : F → Option F → Bool
  is_hot warning_c none = false
  is_hot warning_c (some t) = ge t warning_c

  unfoldable pub evaluate_success : DeviceHealth F → F → Evaluated F
  evaluate_success entry warning_c =
      let hot = is_hot warning_c entry.temperature_c in
      record {
        state = if hot then warning else healthy;
        reason = if hot then temperature_threshold else reachable;
        temperature_c = entry.temperature_c;
        unavailable = [];
        root_causes = [];
      }

  unfoldable pub evaluate_device :
      ℕ → Ledger F → DeviceHealth F → List String → F → ℕ → Option (Option (Evaluated F))
  unfolding evaluate_success evaluate_failure
  evaluate_device fuel devices entry upstreams warning_c threshold =
      if not entry.has_outcome
      then some none
      else if entry.last_outcome_success
      then some (some (evaluate_success entry warning_c))
      else if ltb entry.failure_count threshold
      then some none
      else evaluate_failure fuel devices upstreams threshold
