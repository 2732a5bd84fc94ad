-- ===== src/Buffer.antt =====
-- The collector's telemetry buffer, services/snmp-collector/internal/buffer/store.go, and the flush of
-- services/snmp-collector/internal/publisher/buffered.go. SQLite, the MQTT transport and the
-- context are parameters; the mutex makes each method atomic. The two messages of an incomplete
-- event are one here.
mod Tests
pub mod Depth
pub mod Flush
use monitoring_project.Prelude.{
  ℕ, zero, suc, ◌+◌, ◌-◌, ◌≡◌, ◌≢◌, String, Bool, true, false, not, ◌&&◌, ◌||◌, Option, none, some,
  List, [], ◌∷◌, ◌++◌, ltb, leb, ◌==◌, ◌=s=◌, if◌then◌else◌, length, take, All,
}
use monitoring_project.Prelude.Results.{Result, ok, error}

pub record Row : Type 0 where
  pub id : ℕ
  pub topic : String
  pub payload : String

-- `PendingEvent`
abbrev pub PendingEvent : Type 0
PendingEvent = String × String

abbrev pub without : ℕ → List Row → List Row
without id [] = []
without id (row ∷ rows) = let rest = without id rows in if row.id == id then rest else row ∷ rest

-- No two rows have the same id.
abbrev pub AreKeyed : List Row → Type 0
AreKeyed [] = Unit
AreKeyed (row ∷ rows) = All (λ r. (r.id == row.id) ≡ false) rows × AreKeyed rows

-- The statements that the store executes on the table `pending_events`, each of which may fail, and
-- what SQLite documents of them: the table's rows in the order of their keys are those before an
-- insertion and a new one, a selection is their beginning, a deletion takes the rows with its key
-- and tells their number if that can be read, and a commit keeps what the transaction wrote.
pub record Sqlite (D : Type 0) : Type 0 where
  pub rows : D → List Row
  pub insert_row : D → String → String → Option D
  pub begin_tx : D → Bool
  pub commit : D → Option D
  pub select_rows : D → ℕ → Option (List Row)
  pub delete_row : D → ℕ → Option (D × Option ℕ)
  pub keyed : (d : D) → AreKeyed (rows d)
  pub inserted :
      (d d' : D) (topic payload : String)
      → insert_row d topic payload ≡ some d'
      → (id : ℕ) × (rows d' ≡ rows d ++ (record { id = id; topic = topic; payload = payload } ∷ []))
  pub committed : (d d' : D) → commit d ≡ some d' → rows d' ≡ rows d
  pub selected :
      (d : D) (limit : ℕ) (rs : List Row) → select_rows d limit ≡ some rs → rs ≡ take limit (rows d)
  pub deleted :
      (d d' : D) (id : ℕ) (o : Option ℕ)
      → delete_row d id ≡ some (d', o)
      → rows d' ≡ without id (rows d)
  pub affected :
      (d d' : D) (id n : ℕ)
      → delete_row d id ≡ some (d', some n)
      → length (rows d) ≡ n + length (rows d')

-- A store: `max` is `MaxEntries`, with 0 for any value that is not positive; `wake` tells whether
-- the channel holds a signal, and `enqueued` is `BufferEnqueueTotal`. The gauge of the depth is
-- left out: it is set to `depth` wherever that changes.
pub record Store (D : Type 0) : Type 0 where
  pub db : D
  pub depth : ℕ
  pub max : ℕ
  pub wake : Bool
  pub enqueued : ℕ

pub record Flusher (D M : Type 0) : Type 0 where
  pub store : Store D
  pub mqtt : M
  pub sent : List PendingEvent
  pub publish_failures : ℕ
  pub publish_total : ℕ
  pub flushed_messages : ℕ
  pub flush_batches : ℕ

-- The transport and the context: whether the context is still live, and whether the broker took a
-- message.
pub record Transport (M : Type 0) : Type 0 where
  pub is_live : M → Bool × M
  pub publish : M → String → String → Bool × M

unfoldable pub is_full : ℕ → ℕ → ℕ → Bool
is_full max depth n = ltb 0 max && ltb max (depth + n)

any_incomplete : List PendingEvent → Bool
any_incomplete [] = false
any_incomplete ((topic, payload) ∷ events) = topic =s= "" || payload =s= "" || any_incomplete events

module _ {D : Type 0} (sql : Sqlite D) where
  open sql use {rows, insert_row, begin_tx, commit, select_rows, delete_row}

  enqueue_inserted : Option D → Store D → Store D × Result Bool
  enqueue_inserted none s = (s, error "insert pending event")
  enqueue_inserted (some d) s =
      (record s { db = d; depth = s.depth + 1; wake = true; enqueued = s.enqueued + 1 }, ok true)

  -- The context's error is the first argument.
  unfoldable pub enqueue : Bool → String → String → Store D → Store D × Result Bool
  unfolding enqueue_inserted is_full
  enqueue live topic payload s =
      if not live
      then (s, error "context")
      else if topic =s= ""
      then (s, error "topic is required")
      else if payload =s= ""
      then (s, error "payload is required")
      else if ltb 0 s.max && leb s.max s.depth
      then (s, error "buffer full")
      else enqueue_inserted (insert_row s.db topic payload) s

  -- The insertions of a transaction.
  insert_all : List PendingEvent → D → Option D
  insert_all [] d = some d
  insert_all ((topic, payload) ∷ events) d = elim (insert_row d topic payload) [
    | none ↦ none
    | some d' ↦ insert_all events d'
  ]

  batch_committed : ℕ → Option D → Store D → Store D × Result Bool
  batch_committed n none s = (s, error "commit")
  batch_committed n (some d) s =
      (record s { db = d; depth = s.depth + n; wake = true; enqueued = s.enqueued + n }, ok true)

  batch_inserted : ℕ → Option D → Store D → Store D × Result Bool
  unfolding batch_committed
  batch_inserted n none s = (s, error "insert pending event")
  batch_inserted n (some d) s = batch_committed n (commit d) s

  unfoldable pub enqueue_batch : Bool → List PendingEvent → Store D → Store D × Result Bool
  unfolding any_incomplete is_full insert_all batch_inserted
  enqueue_batch live [] s = if not live then (s, error "context") else (s, ok true)
  enqueue_batch live (e ∷ events) s =
      if not live
      then (s, error "context")
      else if any_incomplete (e ∷ events)
      then (s, error "topic and payload are required")
      else if is_full s.max s.depth (length (e ∷ events))
      then (s, error "buffer full")
      else if not (begin_tx s.db)
      then (s, error "begin tx")
      else batch_inserted (length (e ∷ events)) (insert_all (e ∷ events) s.db) s

  unfoldable pub peek_oldest : ℕ → Store D → Option (List Row)
  peek_oldest zero s = some []
  peek_oldest (suc n) s = select_rows s.db (suc n)

  -- After the statement; `RowsAffected` may fail once the row is gone.
  delete_done : Option (D × Option ℕ) → Store D → Store D × Bool
  delete_done none s = (s, false)
  delete_done (some (d, none)) s = (record s { db = d }, false)
  delete_done (some (d, some zero)) s = (record s { db = d }, true)
  delete_done (some (d, some (suc n))) s = (record s { db = d; depth = s.depth - 1 }, true)

  -- The store, and whether the deletion went well.
  unfoldable pub delete : ℕ → Store D → Store D × Bool
  unfolding delete_done
  delete id s = delete_done (delete_row s.db id) s

  module _ {M : Type 0} (net : Transport M) where
    open net use {is_live, publish}

    -- After the deletion of a published row.
    row_deleted : Row → Store D × Bool → M → Flusher D M → Flusher D M × Bool
    row_deleted row (s, true) m f = (
      record f {
        store = s;
        mqtt = m;
        sent = f.sent ++ ((row.topic, row.payload) ∷ []);
        publish_total = f.publish_total + 1;
        flushed_messages = f.flushed_messages + 1;
      },
      true,
    )
    row_deleted row (s, false) m f =
        (record f { store = s; mqtt = m; sent = f.sent ++ ((row.topic, row.payload) ∷ []) }, false)

    row_published : Row → Bool × M → Flusher D M → Flusher D M × Bool
    unfolding row_deleted
    row_published row (true, m) f = row_deleted row (delete row.id f.store) m f
    row_published row (false, m) f =
        (record f { mqtt = m; publish_failures = f.publish_failures + 1 }, false)

    row_checked : Row → Bool × M → Flusher D M → Flusher D M × Bool
    unfolding row_published
    row_checked row (true, m) f = row_published row (publish m row.topic row.payload) f
    row_checked row (false, m) f = (record f { mqtt = m }, false)

    -- One round of the loop of `flushOnce`: whether it goes on.
    unfoldable pub flush_row : Row → Flusher D M → Flusher D M × Bool
    unfolding row_checked
    flush_row row f = row_checked row (is_live f.mqtt) f

    unfoldable pub flush_rows : List Row → Flusher D M → Flusher D M × Bool
    flush_rows [] f = (f, true)
    flush_rows (row ∷ rs) f =
        let (f', more) = flush_row row f in
        elim more [ true ↦ flush_rows rs f' | false ↦ (f', false) ]

    -- The end of the loop.
    batch_flushed : Flusher D M × Bool → Flusher D M × Bool
    batch_flushed (f, true) = (record f { flush_batches = f.flush_batches + 1 }, true)
    batch_flushed (f, false) = (f, false)

    flush_peeked : Option (List Row) → Flusher D M → Flusher D M × Bool
    unfolding batch_flushed
    flush_peeked none f = (f, false)
    flush_peeked (some []) f = (f, true)
    flush_peeked (some (row ∷ rs)) f = batch_flushed (flush_rows (row ∷ rs) f)

    -- `flushOnce` by batches of the given size, and whether it went well.
    unfoldable pub flush_once : ℕ → Flusher D M → Flusher D M × Bool
    unfolding flush_peeked
    flush_once batch_size f = flush_peeked (peek_oldest batch_size f.store) f
