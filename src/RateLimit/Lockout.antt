-- ===== src/RateLimit/Lockout.antt =====
-- Failures of one key in its window are counted, and the key is refused once they reach the limit.
use monitoring_project.Prelude.{
  ℕ, suc, ◌+◌, ◌≤◌, ◌≡◌, refl, ◌∙◌, String, false, none, some, List, [], ◌∷◌, ltb, ◌=s=◌, eq_iff,
  lookup, lookup-insert, lookup-keep, length, All, arith,
}
use mathlib.Core.Path.{subst}
use monitoring_project.RateLimit.{
  Entry, Limiter, is_live, prune_expired_locked, allow_entry, allow, ensure_capacity_locked,
  fail_entry, record_failure,
}
use monitoring_project.RateLimit.Bounds.{IsValid, record_failure-IsValid}

-- The failures of a key, at the given times in turn.
unfoldable pub record_all : String → List ℕ → Limiter → Limiter
record_all key [] l = l
record_all key (now ∷ times) l = record_all key times (record_failure key now l)

lookup-prune-live :
    (key : String) (now : ℕ) (e : Entry) (l : Limiter)
    → IsValid l
    → lookup key l.entries ≡ some e
    → now ≤ e.window_end
    → lookup key (prune_expired_locked now l.entries) ≡ some e
unfolding prune_expired_locked
lookup-prune-live key now e l v h t =
    rw (lookup-keep (λ key entry. is_live now entry) key l.entries v.distinct, h) (ground arith)

lookup-record-live :
    (key : String) (now : ℕ) (e : Entry) (l : Limiter)
    → (key =s= "") ≡ false
    → IsValid l
    → lookup key l.entries ≡ some e
    → now ≤ e.window_end
    → lookup key (record_failure key now l).entries ≡ some (record e { failures = suc e.failures })
unfolding record_failure fail_entry prune_expired_locked
lookup-record-live key now e l k v h t =
    let m = prune_expired_locked now l.entries in
    let f : Entry = record e { failures = suc e.failures } in
    let n : ltb e.window_end now ≡ false = ground arith in
    rw (k, lookup-prune-live key now e l v h t, n, lookup-insert key key f m)
      (ground (arith, eq_iff key key))

lookup-record-none :
    (key : String) (now : ℕ) (l : Limiter)
    → (key =s= "") ≡ false
    → lookup key (prune_expired_locked now l.entries) ≡ none
    → lookup key (record_failure key now l).entries
      ≡ some (record { failures = 1; window_end = now + l.window })
unfolding record_failure fail_entry prune_expired_locked
lookup-record-none key now l k h =
    let m = prune_expired_locked now l.entries in
    let f : Entry = record { failures = 1; window_end = now + l.window } in
    rw (k, h, lookup-insert key key f (ensure_capacity_locked l.max_entries m))
      (ground (arith, eq_iff key key))

record_failure-limit :
    (key : String) (now : ℕ) (l : Limiter) → (record_failure key now l).limit ≡ l.limit
unfolding record_failure
record_failure-limit key now l = ground arith

-- What is known of a limiter in which a key has failures.
record HasFailures (key : String) (limit : ℕ) (e : Entry) (l : Limiter) : Type 0 where
  valid : IsValid l
  entry : lookup key l.entries ≡ some e
  same_limit : l.limit ≡ limit

record_all-HasFailures :
    (key : String) (times : List ℕ) (limit : ℕ) (e : Entry) (l : Limiter)
    → (key =s= "") ≡ false
    → All (λ t. t ≤ e.window_end) times
    → HasFailures key limit e l
    → HasFailures key limit
        (record e { failures = e.failures + length times })
        (record_all key times l)
unfolding record_all
record_all-HasFailures key [] limit e l k a h =
    subst (λ n. HasFailures key limit (record e { failures = n }) l) (omega arith) h
record_all-HasFailures key (now ∷ times) limit e l k a h =
    let e' : Entry = record e { failures = suc e.failures } in
    let l' = record_failure key now l in
    let h' : HasFailures key limit e' l' = record {
      valid = record_failure-IsValid key now l h.valid;
      entry = lookup-record-live key now e l k h.valid h.entry a.0;
      same_limit = record_failure-limit key now l ∙ h.same_limit;
    } in
    let r = record_all-HasFailures key times limit e' l' k a.1 h' in
    subst (λ n. HasFailures key limit (record e { failures = n }) (record_all key times l'))
      (omega arith) r

allow-live :
    (key : String) (now : ℕ) (limit : ℕ) (e : Entry) (l : Limiter)
    → (key =s= "") ≡ false
    → HasFailures key limit e l
    → now ≤ e.window_end
    → (allow key now l).1 ≡ ltb e.failures limit
unfolding allow allow_entry prune_expired_locked
allow-live key now limit e l k h t =
    let n : ltb e.window_end now ≡ false = ground arith in
    rw (k, lookup-prune-live key now e l h.valid h.entry t, n, h.same_limit) refl

-- In a valid limiter, after a first failure of a key that has no live entry and failures at `times`
-- no later than its window's end, an attempt no later than that end is allowed exactly when fewer
-- failures than the limit were recorded.
pub allow-record_all :
    (key : String) (first : ℕ) (times : List ℕ) (now : ℕ) (l : Limiter)
    → (key =s= "") ≡ false
    → IsValid l
    → lookup key (prune_expired_locked first l.entries) ≡ none
    → All (λ t. t ≤ first + l.window) times
    → now ≤ first + l.window
    → (allow key now (record_all key times (record_failure key first l))).1
      ≡ ltb (suc (length times)) l.limit
allow-record_all key first times now l k v h a t =
    let e : Entry = record { failures = 1; window_end = first + l.window } in
    let s : HasFailures key l.limit e (record_failure key first l) = record {
      valid = record_failure-IsValid key first l v;
      entry = lookup-record-none key first l k h;
      same_limit = record_failure-limit key first l;
    } in
    let r = record_all-HasFailures key times l.limit e (record_failure key first l) k a s in
    allow-live key now l.limit (record e { failures = 1 + length times })
      (record_all key times (record_failure key first l)) k r t
    ∙ ground arith
