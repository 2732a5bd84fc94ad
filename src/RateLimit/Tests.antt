-- ===== src/RateLimit/Tests.antt =====
-- Runs of the login rate limiter.
use monitoring_project.Prelude.{
  ◌≡◌, refl, true, false, [], ◌∷◌, lookup, insert, delete, keep, keys, elem, arith,
}
use monitoring_project.Prelude.Int.{pos}
use monitoring_project.RateLimit.{
  Entry, Limiter, new_login_rate_limiter, positive_or, prune_expired_locked, allow, record_failure,
  fail_entry, ensure_capacity_locked, find_oldest, earlier, allow_entry,
}
use monitoring_project.RateLimit.Bounds.{IsValid, record_failure-IsValid}
use monitoring_project.RateLimit.Lockout.{record_all, allow-record_all}

-- Three failures a window of ten, and two keys.
abbrev fresh : Limiter
fresh = record { limit = 3; window = 10; max_entries = 2; entries = [] }

fresh_made : new_login_rate_limiter (pos 3) (pos 10) (pos 2) ≡ fresh
unfolding new_login_rate_limiter positive_or
fresh_made = refl

fresh-IsValid : IsValid fresh
unfolding keys elem
fresh-IsValid = record { room = omega arith; distinct = tt; bounded = omega arith; counted = tt }

record_failure-IsValid_example : IsValid (record_failure "alice" 100 fresh)
record_failure-IsValid_example = record_failure-IsValid "alice" 100 fresh fresh-IsValid

allow-record_all_example :
    (allow "alice" 106 (record_all "alice" (104 ∷ 105 ∷ []) (record_failure "alice" 100 fresh))).1
    ≡ false
unfolding prune_expired_locked keep lookup
allow-record_all_example =
    allow-record_all "alice" 100 (104 ∷ 105 ∷ []) 106 fresh refl fresh-IsValid refl
      (omega arith, (omega arith, tt)) (omega arith)

abbrev last : Entry
last = record { failures = 3; window_end = 110 }

abbrev locked : Limiter
locked = record { limit = 3; window = 10; max_entries = 2; entries = ("alice", last) ∷ [] }

after_expiry : (allow "alice" 111 (record_failure "alice" 100 fresh)).1 ≡ true
unfolding allow allow_entry record_failure fail_entry ensure_capacity_locked prune_expired_locked
    keep lookup insert
after_expiry = refl

-- With room for two keys, the third one takes the place of the entry that ends first.
eviction :
    keys
      (record_failure "carol" 102
        (record_failure "bob" 101 (record_failure "alice" 100 fresh))).entries
    ≡ "bob" ∷ "carol" ∷ []
unfolding record_failure fail_entry ensure_capacity_locked find_oldest earlier prune_expired_locked
    keep lookup insert delete keys
eviction = refl
