-- ===== src/RateLimit.antt =====
-- The login rate limiter, services/backend-api/internal/auth/ratelimit.go. The clock's reading is
-- an argument `now`, in nanoseconds since Go's zero time; the mutex makes each method atomic.
mod Tests
pub mod Bounds
pub mod Lockout
use monitoring_project.Prelude.{
  ℕ, zero, suc, ◌+◌, String, Bool, true, false, not, ◌||◌, Option, none, some, List, [], ◌∷◌, ltb,
  ◌=s=◌, if◌then◌else◌, Map, lookup, insert, delete, keep, length,
}
use monitoring_project.Prelude.Int.{ℤ, pos, negsuc}

pub record Entry : Type 0 where
  pub failures : ℕ
  pub window_end : ℕ

pub record Limiter : Type 0 where
  pub limit : ℕ
  pub window : ℕ
  pub max_entries : ℕ
  pub entries : Map Entry

-- A setting that is not positive gets its default.
unfoldable pub positive_or : ℕ → ℤ → ℕ
positive_or default (pos zero) = default
positive_or default (pos (suc n)) = suc n
positive_or default (negsuc n) = default

-- `time.Minute`
abbrev pub minute : ℕ
minute = 60000000000

unfoldable pub new_login_rate_limiter : ℤ → ℤ → ℤ → Limiter
unfolding positive_or
new_login_rate_limiter limit window max_entries = record {
  limit = positive_or 1 limit;
  window = positive_or minute window;
  max_entries = positive_or 1024 max_entries;
  entries = [];
}

-- `!now.After(entry.windowEnd)`
abbrev pub is_live : ℕ → Entry → Bool
is_live now entry = not (ltb entry.window_end now)

unfoldable pub prune_expired_locked : ℕ → Map Entry → Map Entry
prune_expired_locked now entries = keep (λ key entry. is_live now entry) entries

unfoldable pub allow_entry : ℕ → ℕ → String → Option Entry → Map Entry → Map Entry × Bool
allow_entry limit now key none entries = (entries, true)
allow_entry limit now key (some entry) entries =
    if ltb entry.window_end now
    then (delete key entries, true)
    else (entries, ltb entry.failures limit)

unfoldable pub allow : String → ℕ → Limiter → Limiter × Bool
unfolding prune_expired_locked allow_entry
allow key now l =
    if key =s= ""
    then (l, true)
    else let pruned = prune_expired_locked now l.entries in
      let r = allow_entry l.limit now key (lookup key pruned) pruned in
      (record l { entries = r.0 }, r.1)

-- The loop of `ensureCapacityLocked`: the key with the earliest end so far, and whether it is the
-- first round.
pub record Oldest : Type 0 where
  pub key : String
  pub end_time : ℕ
  pub first : Bool

unfoldable pub earlier : String → Entry → Oldest → Oldest
earlier key entry o =
    if o.first || ltb entry.window_end o.end_time
    then record { key = key; end_time = entry.window_end; first = false }
    else o

unfoldable pub find_oldest : Map Entry → Oldest → Oldest
unfolding earlier
find_oldest [] o = o
find_oldest ((key, entry) ∷ rest) o = find_oldest rest (earlier key entry o)

unfoldable pub ensure_capacity_locked : ℕ → Map Entry → Map Entry
unfolding find_oldest
ensure_capacity_locked max_entries entries =
    if ltb (length entries) max_entries
    then entries
    else let oldest = find_oldest entries (record { key = ""; end_time = 0; first = true }) in
      if not (oldest.key =s= "") then delete oldest.key entries else entries

-- The entry that the failure is counted in is live after the pruning, or new.
unfoldable pub fail_entry : Limiter → ℕ → String → Option Entry → Map Entry → Map Entry
unfolding ensure_capacity_locked
fail_entry l now key none entries =
    insert key (record { failures = 1; window_end = now + l.window })
      (ensure_capacity_locked l.max_entries entries)
fail_entry l now key (some entry) entries =
    if ltb entry.window_end now
    then insert key (record { failures = 1; window_end = now + l.window })
        (ensure_capacity_locked l.max_entries entries)
    else insert key (record entry { failures = suc entry.failures }) entries

unfoldable pub record_failure : String → ℕ → Limiter → Limiter
unfolding prune_expired_locked fail_entry
record_failure key now l =
    if key =s= ""
    then l
    else let pruned = prune_expired_locked now l.entries in
      record l { entries = fail_entry l now key (lookup key pruned) pruned }

unfoldable pub reset : String → Limiter → Limiter
reset key l = if key =s= "" then l else record l { entries = delete key l.entries }
