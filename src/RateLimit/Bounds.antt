-- ===== src/RateLimit/Bounds.antt =====
-- The limiter holds no more entries than it may, each with at least one failure.
use monitoring_project.Prelude.{
  ℕ, suc, ◌+◌, ◌≤◌, ◌<◌, ◌≡◌, refl, ◌⊎◌, inl, inr, String, true, false, not, ◌||◌, Option, none,
  some, [], ◌∷◌, ltb, ◌=s=◌, eq_iff, Map, lookup, insert, delete, keys, elem, IsDistinct,
  keys-insert-IsDistinct, keys-keep-IsDistinct, lookup-present, length, length-insert,
  length-insert-le, length-keep-le, delete-keep, length-delete-le, length-delete-lt, All,
  All-insert, All-keep, arith, Bool-cases,
}
use mathlib.Core.Path.{subst}
use monitoring_project.RateLimit.{
  Entry, Limiter, is_live, prune_expired_locked, allow_entry, allow, Oldest, find_oldest, earlier,
  ensure_capacity_locked, fail_entry, record_failure, reset,
}

abbrev IsCounted : String × Entry → Type 0
IsCounted e = (0 < e.1.failures) × ((e.0 =s= "") ≡ false)

pub record IsValid (l : Limiter) : Type 0 where
  pub room : 0 < l.max_entries
  pub distinct : IsDistinct (keys l.entries)
  pub bounded : length l.entries ≤ l.max_entries
  pub counted : All IsCounted l.entries

delete-IsDistinct :
    (k : String) (m : Map Entry) → IsDistinct (keys m) → IsDistinct (keys (delete k m))
delete-IsDistinct k m d = rw delete-keep (keys-keep-IsDistinct (λ j w. not (j =s= k)) m d)

delete-counted : (k : String) (m : Map Entry) → All IsCounted m → All IsCounted (delete k m)
delete-counted k m a = rw delete-keep (All-keep IsCounted (λ j w. not (j =s= k)) m a)

elem-counted :
    (k : String) (m : Map Entry) → All IsCounted m → elem k (keys m) ≡ true → (k =s= "") ≡ false
unfolding elem keys
elem-counted k [] a h = absurd (cc)
elem-counted k (e ∷ m) a h = elim (Bool-cases (k =s= e.0)) [
  | inl y ↦ ground (arith, eq_iff k e.0, a.0.1)
  | inr n ↦ elem-counted k m a.1 (ground (arith, n, h))
]

earlier-key :
    (k : String) (e : Entry) (o : Oldest)
    → ((earlier k e o).key ≡ k) ⊎ ((earlier k e o).key ≡ o.key)
unfolding earlier
earlier-key k e o = elim (Bool-cases (o.first || ltb e.window_end o.end_time)) [
  | inl y ↦ inl (rw y refl)
  | inr n ↦ inr (rw n refl)
]

-- Once started, the search keeps its key or takes one of the map.
find_oldest-elem : (m : Map Entry) (o : Oldest) → elem (find_oldest m o).key (o.key ∷ keys m) ≡ true
unfolding find_oldest keys elem
find_oldest-elem [] o = ground (arith, eq_iff o.key o.key)
find_oldest-elem ((k, e) ∷ m) o =
    let h = find_oldest-elem m (earlier k e o) in
    elim (earlier-key k e o) [
      | inl y ↦
          ground
            (arith, subst (λ x. elem (find_oldest m (earlier k e o)).key (x ∷ keys m) ≡ true) y h)
      | inr n ↦
          ground
            (arith, subst (λ x. elem (find_oldest m (earlier k e o)).key (x ∷ keys m) ≡ true) n h)
    ]

-- The search over a map that is not empty names one of its keys.
oldest-elem :
    (m : Map Entry)
    → 0 < length m
    → elem (find_oldest m (record { key = ""; end_time = 0; first = true })).key (keys m) ≡ true
unfolding earlier find_oldest keys elem
oldest-elem [] p = absurd (omega arith)
oldest-elem ((k, e) ∷ m) p =
    find_oldest-elem m (record { key = k; end_time = e.window_end; first = false })

length-ensure :
    (n : ℕ) (m : Map Entry)
    → 0 < n
    → All IsCounted m
    → length m ≤ n
    → length (ensure_capacity_locked n m) < n
unfolding ensure_capacity_locked
length-ensure n m p a b = elim (Bool-cases (ltb (length m) n)) [
  | inl y ↦ ground arith
  | inr f ↦
      let o : Oldest = record { key = ""; end_time = 0; first = true } in
      let i = oldest-elem m (ground arith) in
      let s = elem-counted (find_oldest m o).key m a i in
      let d = length-delete-lt (find_oldest m o).key m i in rw (f, s) (omega arith)
]

ensure-IsDistinct :
    (n : ℕ) (m : Map Entry) → IsDistinct (keys m) → IsDistinct (keys (ensure_capacity_locked n m))
unfolding ensure_capacity_locked
ensure-IsDistinct n m d =
    let k = (find_oldest m (record { key = ""; end_time = 0; first = true })).key in
    elim (Bool-cases (ltb (length m) n)) [
      | inl y ↦ rw y d
      | inr f ↦ elim (Bool-cases (k =s= "")) [
        | inl e ↦ rw (f, e) d
        | inr e ↦ rw (f, e) (delete-IsDistinct k m d)
      ]
    ]

ensure-counted :
    (n : ℕ) (m : Map Entry) → All IsCounted m → All IsCounted (ensure_capacity_locked n m)
unfolding ensure_capacity_locked
ensure-counted n m a =
    let k = (find_oldest m (record { key = ""; end_time = 0; first = true })).key in
    elim (Bool-cases (ltb (length m) n)) [
      | inl y ↦ rw y a
      | inr f ↦ elim (Bool-cases (k =s= "")) [
        | inl e ↦ rw (f, e) a
        | inr e ↦ rw (f, e) (delete-counted k m a)
      ]
    ]

prune-IsValid :
    (now : ℕ) (l : Limiter)
    → IsValid l
    → IsValid (record l { entries = prune_expired_locked now l.entries })
unfolding prune_expired_locked
prune-IsValid now l v = record {
  room = v.room;
  distinct = keys-keep-IsDistinct (λ key entry. is_live now entry) l.entries v.distinct;
  bounded = omega (arith, v.bounded, length-keep-le (λ key entry. is_live now entry) l.entries);
  counted = All-keep IsCounted (λ key entry. is_live now entry) l.entries v.counted;
}

delete-IsValid :
    (key : String) (l : Limiter) → IsValid l → IsValid (record l { entries = delete key l.entries })
delete-IsValid key l v = record {
  room = v.room;
  distinct = delete-IsDistinct key l.entries v.distinct;
  bounded = omega (arith, v.bounded, length-delete-le key l.entries);
  counted = delete-counted key l.entries v.counted;
}

-- A new entry comes after room was made for it.
insert-IsValid :
    (key : String) (e : Entry) (l : Limiter)
    → (key =s= "") ≡ false
    → 0 < e.failures
    → IsValid l
    → IsValid (record l { entries = insert key e (ensure_capacity_locked l.max_entries l.entries) })
insert-IsValid key e l k p v =
    let m = ensure_capacity_locked l.max_entries l.entries in
    record {
      room = v.room;
      distinct =
          keys-insert-IsDistinct key e m (ensure-IsDistinct l.max_entries l.entries v.distinct);
      bounded = omega (
        arith,
        length-insert-le key e m,
        length-ensure l.max_entries l.entries v.room v.counted v.bounded,
      );
      counted =
          All-insert IsCounted key e m (p, k) (ensure-counted l.max_entries l.entries v.counted);
    }

allow_entry-IsValid :
    (key : String) (now : ℕ) (r : Option Entry) (l : Limiter)
    → IsValid l
    → IsValid (record l { entries = (allow_entry l.limit now key r l.entries).0 })
unfolding allow_entry
allow_entry-IsValid key now none l v = v
allow_entry-IsValid key now (some e) l v = elim (Bool-cases (ltb e.window_end now)) [
  | inl y ↦ rw y (delete-IsValid key l v)
  | inr n ↦ rw n v
]

-- A failure more in an entry that is there takes no room.
count-IsValid :
    (key : String) (e : Entry) (l : Limiter)
    → (key =s= "") ≡ false
    → lookup key l.entries ≡ some e
    → IsValid l
    → IsValid (record l { entries = insert key (record e { failures = suc e.failures }) l.entries })
count-IsValid key e l k h v =
    let f : Entry = record e { failures = suc e.failures } in
    record {
      room = v.room;
      distinct = keys-insert-IsDistinct key f l.entries v.distinct;
      bounded =
          grind (arith, length-insert key f l.entries, lookup-present key e l.entries h, v.bounded);
      counted = All-insert IsCounted key f l.entries (omega arith, k) v.counted;
    }

fail_entry-IsValid :
    (key : String) (now : ℕ) (r : Option Entry) (l : Limiter)
    → (key =s= "") ≡ false
    → lookup key l.entries ≡ r
    → IsValid l
    → IsValid (record l { entries = fail_entry l now key r l.entries })
unfolding fail_entry
fail_entry-IsValid key now none l k h v =
    insert-IsValid key (record { failures = 1; window_end = now + l.window }) l k (omega arith) v
fail_entry-IsValid key now (some e) l k h v = elim (Bool-cases (ltb e.window_end now)) [
  | inl y ↦ rw y (
      insert-IsValid key (record { failures = 1; window_end = now + l.window }) l k (omega arith) v)
  | inr n ↦ rw n (count-IsValid key e l k h v)
]

-- An attempt leaves the limiter valid.
pub allow-IsValid : (key : String) (now : ℕ) (l : Limiter) → IsValid l → IsValid (allow key now l).0
unfolding allow
allow-IsValid key now l v = elim (Bool-cases (key =s= "")) [
  | inl y ↦ rw y v
  | inr n ↦
      let m = prune_expired_locked now l.entries in
      rw n (
        allow_entry-IsValid key now (lookup key m) (record l { entries = m })
          (prune-IsValid now l v))
]

-- A failed login leaves a valid limiter valid: it holds at most `maxEntries` keys, each once, none
-- empty and each with a failure.
pub record_failure-IsValid :
    (key : String) (now : ℕ) (l : Limiter) → IsValid l → IsValid (record_failure key now l)
unfolding record_failure
record_failure-IsValid key now l v = elim (Bool-cases (key =s= "")) [
  | inl y ↦ rw y v
  | inr n ↦
      let m = prune_expired_locked now l.entries in
      rw n (
        fail_entry-IsValid key now (lookup key m) (record l { entries = m }) n refl
          (prune-IsValid now l v))
]

-- A reset leaves the limiter valid.
pub reset-IsValid : (key : String) (l : Limiter) → IsValid l → IsValid (reset key l)
unfolding reset
reset-IsValid key l v = elim (Bool-cases (key =s= "")) [
  | inl y ↦ rw y v
  | inr n ↦ rw n (delete-IsValid key l v)
]
