-- ===== src/Buffer/Depth.antt =====
-- The depth that the store keeps in memory is the number of its rows, and stays within the capacity.
use monitoring_project.Prelude.{
  ℕ, suc, ◌+◌, ◌≡◌, ◌≤◌, ◌<◌, refl, sym, ap, ◌∙◌, inl, inr, ◌⊎◌, String, Bool, true, false, not,
  ◌&&◌, Option, none, some, List, [], ◌∷◌, ◌++◌, map, ltb, leb, ◌=s=◌, if◌then◌else◌, length,
  length-append, arith, All, ◌==◌, Option-cases,
}
use mathlib.Core.List.{append_assoc, append-nil}
use monitoring_project.Prelude.Results.{Result, ok, error}
use monitoring_project.Buffer.{
  Row, PendingEvent, Sqlite, Store, is_full, any_incomplete, enqueue_inserted, enqueue, insert_all,
  batch_committed, batch_inserted, enqueue_batch, without,
}

pub some_inj {ℓ} : {A : Type ℓ} {a b : A} → some a ≡ some b → a ≡ b
some_inj h = cc

pub without_absent :
    (id : ℕ) (rs : List Row) → All (λ r. (r.id == id) ≡ false) rs → without id rs ≡ rs
without_absent id [] a = refl
without_absent id (r ∷ rs) a = rw (a.0, without_absent id rs a.1) refl

module _ {D : Type 0} (sql : Sqlite D) where
  open sql use {
    rows, insert_row, begin_tx, commit, delete_row, inserted, committed, deleted, affected, keyed,
  }

  abbrev pub message : Row → PendingEvent
  message row = (row.topic, row.payload)

  -- The messages that wait, oldest first.
  abbrev pub pending : Store D → List PendingEvent
  pending s = map message (rows s.db)

  abbrev pub IsCounted : Store D → Type 0
  IsCounted s = (s.depth ≡ length (rows s.db)) × (0 < s.max → s.depth ≤ s.max)

  enqueue_inserted-IsCounted :
      (topic payload : String) (r : Option D) (s : Store D)
      → insert_row s.db topic payload ≡ r
      → (0 < s.max → s.depth < s.max)
      → IsCounted s
      → IsCounted (enqueue_inserted sql r s).0
  unfolding enqueue_inserted
  enqueue_inserted-IsCounted topic payload none s e room c = c
  enqueue_inserted-IsCounted topic payload (some d) s e room c =
      let (id, r) = inserted s.db d topic payload e in
      (
        rw
            (
              r,
              length-append (rows s.db) (record { id = id; topic = topic; payload = payload } ∷ []),
            )
            (omega (arith, c.0)),
        λ p. omega (arith, room p),
      )

  -- What holds of the refusal and of what is guarded holds of the guarded step.
  guarded :
      (P : Store D × Result Bool → Type 0) (c : Bool) (e : String) (s : Store D)
      (r : Store D × Result Bool)
      → P (s, error e)
      → (c ≡ false → P r)
      → P (if c then (s, error e) else r)
  guarded P true e s r h k = h
  guarded P false e s r h k = k refl

  -- Where depth and capacity are right before an event is offered, they are right after it, whether
  -- the event is taken or refused.
  pub enqueue-IsCounted :
      (live : Bool) (topic payload : String) (s : Store D)
      → IsCounted s
      → IsCounted (enqueue sql live topic payload s).0
  unfolding enqueue
  enqueue-IsCounted live topic payload s c =
      let P : Store D × Result Bool → Type 0 = λ r. IsCounted r.0 in
      guarded P (not live) _ s _ c λ _. guarded P (topic =s= "") _ s _ c λ _.
        guarded P (payload =s= "") _ s _ c λ _.
          guarded P (ltb 0 s.max && leb s.max s.depth) _ s _ c λ n.
            enqueue_inserted-IsCounted topic payload (insert_row s.db topic payload) s refl
              (λ p. ground (arith, n)) c

  message-append : (xs ys : List Row) → map message (xs ++ ys) ≡ map message xs ++ map message ys
  message-append [] ys = refl
  message-append (x ∷ xs) ys = cc (message-append xs ys)

  insert_all-rows :
      (events : List PendingEvent) (d d' : D)
      → insert_all sql events d ≡ some d'
      → (map message (rows d') ≡ map message (rows d) ++ events)
        × (length (rows d') ≡ length (rows d) + length events)
  unfolding insert_all
  insert_all-rows [] d d' h =
      let e : d ≡ d' = some_inj h in rw⁻¹ e (sym (append-nil (map message (rows d))), omega arith)
  insert_all-rows ((topic, payload) ∷ events) d d' h =
      elim (Option-cases (insert_row d topic payload)) [
        | inl n ↦ absurd (cc (rw (n, insert_all) at h))
        | inr (d1, e) ↦
            let (id, r) = inserted d d1 topic payload e in
            let row : Row = record { id = id; topic = topic; payload = payload } in
            let (a, b) = insert_all-rows events d1 d' (rw (e, insert_all) at h) in
            (
              a
                  ∙ ap (λ l. l ++ events) (ap (map message) r ∙ message-append (rows d) (row ∷ []))
                  ∙ append_assoc (map message (rows d)) ((topic, payload) ∷ []) events,
              b ∙ (rw (r, length-append (rows d) (row ∷ [])) (omega arith)),
            )
      ]

  -- A batch is taken as a whole, its events after those that wait, or leaves the store as it was.
  abbrev pub IsAtomic : List PendingEvent → Store D → Store D × Result Bool → Type 0
  IsAtomic events s r =
      ((r.1 ≡ ok true) × (pending r.0 ≡ pending s ++ events))
      ⊎ ((r.0 ≡ s) × ((e : String) × (r.1 ≡ error e)))

  IsTaken : List PendingEvent → Store D → Store D × Result Bool → Type 0
  IsTaken events s r = IsAtomic events s r × IsCounted r.0

  batch_committed-IsTaken :
      (events : List PendingEvent) (d : D) (r : Option D) (s : Store D)
      → commit d ≡ r
      → insert_all sql events s.db ≡ some d
      → (0 < s.max → s.depth + length events ≤ s.max)
      → IsCounted s
      → IsTaken events s (batch_committed sql (length events) r s)
  unfolding batch_committed IsTaken
  batch_committed-IsTaken events d none s e i room c = (inr (refl, (_, refl)), c)
  batch_committed-IsTaken events d (some d') s e i room c =
      let (a, b) = insert_all-rows events s.db d i in
      let k = committed d d' e in
      (inl (refl, ap (map message) k ∙ a), (omega (arith, ap length k, b, c.0), room))

  batch_inserted-IsTaken :
      (events : List PendingEvent) (r : Option D) (s : Store D)
      → insert_all sql events s.db ≡ r
      → (0 < s.max → s.depth + length events ≤ s.max)
      → IsCounted s
      → IsTaken events s (batch_inserted sql (length events) r s)
  unfolding batch_inserted IsTaken
  batch_inserted-IsTaken events none s i room c = (inr (refl, (_, refl)), c)
  batch_inserted-IsTaken events (some d) s i room c =
      batch_committed-IsTaken events d (commit d) s refl i room c

  -- Where depth and capacity are right, a batch is taken as a whole, its events after those that
  -- wait, or refused with the store as it was; depth and capacity are right after it.
  pub enqueue_batch-IsAtomic :
      (live : Bool) (events : List PendingEvent) (s : Store D)
      → IsCounted s
      → IsAtomic events s (enqueue_batch sql live events s)
        × IsCounted (enqueue_batch sql live events s).0
  unfolding enqueue_batch is_full IsTaken
  enqueue_batch-IsAtomic live [] s c =
      guarded (IsTaken [] s) (not live) _ s _ (inr (refl, (_, refl)), c)
        (λ _. (inl (refl, sym (append-nil (pending s))), c))
  enqueue_batch-IsAtomic live (e ∷ events) s c =
      let P = IsTaken (e ∷ events) s in
      guarded P (not live) _ s _ (inr (refl, (_, refl)), c)
        λ _.
          guarded P (any_incomplete (e ∷ events)) _ s _ (inr (refl, (_, refl)), c)
            λ _.
              guarded P (ltb 0 s.max && ltb s.max (s.depth + length (e ∷ events))) _ s _
                (inr (refl, (_, refl)), c)
                λ n.
                  guarded P (not (begin_tx s.db)) _ s _ (inr (refl, (_, refl)), c)
                    λ _.
                      batch_inserted-IsTaken (e ∷ events) (insert_all sql (e ∷ events) s.db) s refl
                        (λ p. ground (arith, n)) c

  -- The row is gone, its number could not be read, and the depth is one too high, within the
  -- capacity still.
  abbrev pub IsUncounted : ℕ → Store D → Store D × Bool → Type 0
  IsUncounted id s r =
      (r.1 ≡ false)
      × (rows r.0.db ≡ without id (rows s.db))
      × (r.0.depth ≡ suc (length (rows r.0.db)))
      × (0 < r.0.max → r.0.depth ≤ r.0.max)
