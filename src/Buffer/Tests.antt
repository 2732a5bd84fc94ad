-- ===== src/Buffer/Tests.antt =====
-- Runs of the buffer over a database of one row.
use monitoring_project.Prelude.{
  ℕ, zero, suc, ◌+◌, ◌≡◌, ap, sym, refl, String, true, false, Option, none, some, List, [], ◌∷◌,
  ◌++◌, take, ◌==◌, length, arith,
}
use monitoring_project.Buffer.{
  Row, PendingEvent, Sqlite, Store, Flusher, Transport, without, AreKeyed, enqueue, enqueue_batch,
  delete, flush_once, flush_rows, flush_row, peek_oldest, is_full,
}
use mathlib.Core.Path.{subst}
use monitoring_project.Buffer.Depth.{
  some_inj, IsCounted, IsAtomic, enqueue-IsCounted, enqueue_batch-IsAtomic,
}
use monitoring_project.Buffer.Flush.{waiting, IsFlushed, flush_once-IsFlushed}

abbrev Slot : Type 0
Slot = Option PendingEvent

slot_rows : Slot → List Row
slot_rows none = []
slot_rows (some (topic, payload)) = record { id = 0; topic = topic; payload = payload } ∷ []

slot_insert : Slot → String → String → Option Slot
slot_insert none topic payload = some (some (topic, payload))
slot_insert (some e) topic payload = none

slot_delete : Slot → ℕ → Option (Slot × Option ℕ)
slot_delete none id = some (none, some 0)
slot_delete (some e) zero = some (none, some 1)
slot_delete (some e) (suc id) = some (some e, some 0)

slot_keyed : (d : Slot) → AreKeyed (slot_rows d)
unfolding slot_rows
slot_keyed none = tt
slot_keyed (some (topic, payload)) = (tt, tt)

slot_inserted :
    (d d' : Slot) (topic payload : String)
    → slot_insert d topic payload ≡ some d'
    → (id : ℕ) × (slot_rows d'
        ≡ slot_rows d ++ (record { id = id; topic = topic; payload = payload } ∷ []))
unfolding slot_rows slot_insert
slot_inserted none d' topic payload h =
    let e : some (topic, payload) ≡ d' = some_inj h in rw⁻¹ e (0, refl)
slot_inserted (some x) d' topic payload h = absurd (cc)

slot_deleted :
    (d d' : Slot) (id : ℕ) (o : Option ℕ)
    → slot_delete d id ≡ some (d', o)
    → slot_rows d' ≡ without id (slot_rows d)
unfolding slot_rows slot_delete
slot_deleted none d' id o h = subst (λ r. slot_rows r.0 ≡ []) (some_inj h) refl
slot_deleted (some (topic, payload)) d' zero o h = subst (λ r. slot_rows r.0 ≡ []) (some_inj h) refl
slot_deleted (some (topic, payload)) d' (suc id) o h =
    let other : (0 == suc id) ≡ false = ground arith in
    rw other (subst (λ r. slot_rows r.0 ≡ slot_rows (some (topic, payload))) (some_inj h) refl)

-- The number of affected rows is right, if it can be read.
IsRight : ℕ → Slot × Option ℕ → Type 0
IsRight k (d, none) = Unit
IsRight k (d, some m) = k ≡ m + length (slot_rows d)

slot_affected :
    (d d' : Slot) (id n : ℕ)
    → slot_delete d id ≡ some (d', some n)
    → length (slot_rows d) ≡ n + length (slot_rows d')
unfolding slot_rows slot_delete IsRight
slot_affected none d' id n h = subst (IsRight 0) (some_inj h) refl
slot_affected (some (topic, payload)) d' zero n h = subst (IsRight 1) (some_inj h) refl
slot_affected (some (topic, payload)) d' (suc id) n h = subst (IsRight 1) (some_inj h) refl

abbrev slot : Sqlite Slot
slot = record {
  rows = slot_rows;
  insert_row = slot_insert;
  begin_tx = λ d. true;
  commit = λ d. some d;
  select_rows = λ d n. some (take n (slot_rows d));
  delete_row = slot_delete;
  keyed = slot_keyed;
  inserted = slot_inserted;
  committed = λ d d' h. ap slot_rows (sym (some_inj h));
  selected = λ d n rs h. sym (some_inj h);
  deleted = slot_deleted;
  affected = slot_affected;
}

-- A broker that takes so many messages.
abbrev broker : Transport ℕ
broker = record {
  is_live = λ m. (true, m);
  publish = λ m topic payload. elim m [ zero ↦ (false, zero) | suc n ↦ (true, n) ];
}

abbrev empty_store : Store Slot
empty_store = record { db = none; depth = 0; max = 4; wake = false; enqueued = 0 }

abbrev full_store : Store Slot
full_store = record { db = some ("t", "p"); depth = 1; max = 4; wake = false; enqueued = 1 }

empty_IsCounted : IsCounted slot empty_store
unfolding slot_rows
empty_IsCounted = (refl, λ p. omega arith)

enqueue-IsCounted_example : IsCounted slot (enqueue slot true "t" "p" empty_store).0
enqueue-IsCounted_example = enqueue-IsCounted slot true "t" "p" empty_store empty_IsCounted

enqueue_batch-IsAtomic_example :
    IsAtomic slot
      (("t", "p") ∷ [])
      empty_store
      (enqueue_batch slot true (("t", "p") ∷ []) empty_store)
    × IsCounted slot (enqueue_batch slot true (("t", "p") ∷ []) empty_store).0
enqueue_batch-IsAtomic_example =
    enqueue_batch-IsAtomic slot true (("t", "p") ∷ []) empty_store empty_IsCounted

abbrev flusher : Flusher Slot ℕ
flusher = record {
  store = full_store;
  mqtt = 1;
  sent = [];
  publish_failures = 0;
  publish_total = 0;
  flushed_messages = 0;
  flush_batches = 0;
}

flush_once-IsFlushed_example :
    (done : List Row) × IsFlushed slot broker flusher (flush_once slot broker 50 flusher).0 done
    × ((flush_once slot broker 50 flusher).1 ≡ true → done ≡ take 50 (waiting slot broker flusher))
flush_once-IsFlushed_example = flush_once-IsFlushed slot broker 50 flusher

-- The waiting message is sent and deleted.
flush_run : (flush_once slot broker 50 flusher).0.sent ≡ ("t", "p") ∷ []
unfolding flush_once flush_rows flush_row delete peek_oldest slot_rows slot_delete
flush_run = refl

-- A batch of two does not fit the database, and leaves it as it was.
batch_refused : (enqueue_batch slot true (("t", "p") ∷ ("t", "q") ∷ []) empty_store).0 ≡ empty_store
unfolding enqueue_batch is_full slot_insert
batch_refused = refl
