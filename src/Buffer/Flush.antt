-- ===== src/Buffer/Flush.antt =====
-- What a flush sends and deletes.
use mathlib.Core.Path.{subst}
use mathlib.Core.List.{append_assoc, append-nil}
use monitoring_project.Prelude.{
  ℕ, zero, suc, ◌≡◌, refl, sym, ap, ◌∙◌, inl, inr, ◌⊎◌, Bool, true, false, Option, none, some, List,
  [], ◌∷◌, ◌++◌, map, take, drop, ◌==◌, arith,
}
use monitoring_project.Buffer.{
  Row, AreKeyed, without, Sqlite, Store, Flusher, Transport, delete_done, delete, row_deleted,
  row_published, row_checked, flush_row, flush_rows, batch_flushed, flush_peeked, flush_once,
  peek_oldest,
}
use monitoring_project.Buffer.Depth.{without_absent, message}

module _ {D M : Type 0} (sql : Sqlite D) (net : Transport M) where
  open net use {is_live, publish}
  open sql use {rows, select_rows, delete_row, deleted, selected, keyed}

  abbrev pub waiting : Flusher D M → List Row
  waiting f = rows f.store.db

  -- One row: deleted once it is sent, or left, sent or not; where the round fails, a row that was
  -- sent may be deleted all the same.
  abbrev IsStep : Row → List Row → Flusher D M → Flusher D M × Bool → Type 0
  IsStep row rest f (f', true) = (waiting f' ≡ rest) × (f'.sent ≡ f.sent ++ (message sql row ∷ []))
  IsStep row rest f (f', false) =
      ((waiting f' ≡ waiting f)
        × ((f'.sent ≡ f.sent) ⊎ (f'.sent ≡ f.sent ++ (message sql row ∷ []))))
      ⊎ ((waiting f' ≡ rest) × (f'.sent ≡ f.sent ++ (message sql row ∷ [])))

  without_first :
      (row : Row) (rest : List Row) (d : D) → rows d ≡ row ∷ rest → without row.id (rows d) ≡ rest
  without_first row rest d e =
      let k = subst AreKeyed e (keyed d) in
      rw e (
        let same : (row.id == row.id) ≡ true = ground arith in
        rw same (without_absent row.id rest k.0))

  IsStep-deleted :
      (row : Row) (rest : List Row) (r : Option (D × Option ℕ)) (m : M) (f : Flusher D M)
      → delete_row f.store.db row.id ≡ r
      → waiting f ≡ row ∷ rest
      → IsStep row rest f (row_deleted sql net row (delete_done sql r f.store) m f)
  unfolding row_deleted delete_done
  IsStep-deleted row rest none m f e w = inl (refl, inr refl)
  IsStep-deleted row rest (some (d, none)) m f e w =
      inr (deleted f.store.db d row.id none e ∙ without_first row rest f.store.db w, refl)
  IsStep-deleted row rest (some (d, some zero)) m f e w =
      (deleted f.store.db d row.id (some 0) e ∙ without_first row rest f.store.db w, refl)
  IsStep-deleted row rest (some (d, some (suc n))) m f e w =
      (deleted f.store.db d row.id (some (suc n)) e ∙ without_first row rest f.store.db w, refl)

  IsStep-published :
      (row : Row) (rest : List Row) (r : Bool × M) (f : Flusher D M)
      → waiting f ≡ row ∷ rest
      → IsStep row rest f (row_published sql net row r f)
  unfolding row_published delete
  IsStep-published row rest (true, m) f w =
      IsStep-deleted row rest (delete_row f.store.db row.id) m f refl w
  IsStep-published row rest (false, m) f w = inl (refl, inl refl)

  IsStep-checked :
      (row : Row) (rest : List Row) (r : Bool × M) (f : Flusher D M)
      → waiting f ≡ row ∷ rest
      → IsStep row rest f (row_checked sql net row r f)
  unfolding row_checked
  IsStep-checked row rest (true, m) f w =
      IsStep-published row rest (publish m row.topic row.payload) f w
  IsStep-checked row rest (false, m) f w = inl (refl, inl refl)

  -- The rows `done` were sent in turn and deleted; the broker may have taken the next one too.
  abbrev pub IsFlushed : Flusher D M → Flusher D M → List Row → Type 0
  IsFlushed f f' done =
      (waiting f ≡ done ++ waiting f')
      × ((f'.sent ≡ f.sent ++ map (message sql) done)
          ⊎ ((row : Row) × (rest : List Row) × (waiting f' ≡ row ∷ rest)
              × (f'.sent ≡ f.sent ++ map (message sql) (done ++ (row ∷ [])))))

  abbrev IsRun : List Row → Flusher D M → Flusher D M × Bool → Type 0
  IsRun rs f (f', true) = IsFlushed f f' rs
  IsRun rs f (f', false) = (done : List Row) × IsFlushed f f' done

  extend-IsFlushed :
      (row : Row) (done : List Row) (f f' g : Flusher D M)
      → waiting f ≡ row ∷ waiting f'
      → f'.sent ≡ f.sent ++ (message sql row ∷ [])
      → IsFlushed f' g done
      → IsFlushed f g (row ∷ done)
  extend-IsFlushed row done f f' g w s (a, inl b) = (
    w ∙ ap (λ l. row ∷ l) a,
    inl (
        b
        ∙ ap (λ l. l ++ map (message sql) done) s
        ∙ append_assoc f.sent (message sql row ∷ []) (map (message sql) done)),
  )
  extend-IsFlushed row done f f' g w s (a, inr (r, rest, h, b)) = (
    w ∙ ap (λ l. row ∷ l) a,
    inr (
      r,
      rest,
      h,
      b
          ∙ ap (λ l. l ++ map (message sql) (done ++ (r ∷ []))) s
          ∙ append_assoc f.sent (message sql row ∷ []) (map (message sql) (done ++ (r ∷ []))),
    ),
  )

  extend-IsRun :
      (row : Row) (rs : List Row) (f f' : Flusher D M) (q : Flusher D M × Bool)
      → waiting f ≡ row ∷ waiting f'
      → f'.sent ≡ f.sent ++ (message sql row ∷ [])
      → IsRun rs f' q
      → IsRun (row ∷ rs) f q
  extend-IsRun row rs f f' (g, true) w s h = extend-IsFlushed row rs f f' g w s h
  extend-IsRun row rs f f' (g, false) w s (done, h) =
      (row ∷ done, extend-IsFlushed row done f f' g w s h)

  stopped :
      (row : Row) (rest : List Row) (f f' : Flusher D M)
      → waiting f ≡ row ∷ rest
      → IsStep row rest f (f', false)
      → (done : List Row) × IsFlushed f f' done
  stopped row rest f f' w (inl (a, inl b)) = ([], (sym a, inl (b ∙ sym (append-nil f.sent))))
  stopped row rest f f' w (inl (a, inr b)) = ([], (sym a, inr (row, rest, a ∙ w, b)))
  stopped row rest f f' w (inr (a, b)) = (row ∷ [], (w ∙ ap (λ l. row ∷ l) (sym a), inl b))

  flush_row-IsStep :
      (row : Row) (rest : List Row) (f : Flusher D M)
      → waiting f ≡ row ∷ rest
      → IsStep row rest f (flush_row sql net row f)
  unfolding flush_row
  flush_row-IsStep row rest f w = IsStep-checked row rest (is_live f.mqtt) f w

  abbrev continue : List Row → Flusher D M × Bool → Flusher D M × Bool
  continue rs r =
      let (f', more) = r in elim more [ true ↦ flush_rows sql net rs f' | false ↦ (f', false) ]

  continue-IsRun :
      (row : Row) (rs rest : List Row) (f : Flusher D M) (r : Flusher D M × Bool)
      → waiting f ≡ row ∷ rest
      → IsStep row rest f r
      → ((g : Flusher D M) → waiting g ≡ rest → IsRun rs g (flush_rows sql net rs g))
      → IsRun (row ∷ rs) f (continue rs r)
  continue-IsRun row rs rest f (f', true) w (a, b) next =
      extend-IsRun row rs f f' (flush_rows sql net rs f') (w ∙ ap (λ l. row ∷ l) (sym a)) b
        (next f' a)
  continue-IsRun row rs rest f (f', false) w s next = stopped row rest f f' w s

  flush_rows-IsRun :
      (rs tail : List Row) (f : Flusher D M)
      → waiting f ≡ rs ++ tail
      → IsRun rs f (flush_rows sql net rs f)
  unfolding flush_rows
  flush_rows-IsRun [] tail f w = (refl, inl (sym (append-nil f.sent)))
  flush_rows-IsRun (row ∷ rs) tail f w =
      continue-IsRun row rs (rs ++ tail) f (flush_row sql net row f) w
        (flush_row-IsStep row (rs ++ tail) f w) (λ g h. flush_rows-IsRun rs tail g h)

  take-drop : (n : ℕ) (rs : List Row) → rs ≡ take n rs ++ drop n rs
  take-drop zero rs = refl
  take-drop (suc n) [] = refl
  take-drop (suc n) (r ∷ rs) = ap (λ l. r ∷ l) (take-drop n rs)

  IsOnce : ℕ → Flusher D M → Flusher D M × Bool → Type 0
  IsOnce n f r = (done : List Row) × IsFlushed f r.0 done × (r.1 ≡ true → done ≡ take n (waiting f))

  batch-IsOnce :
      (n : ℕ) (rs : List Row) (f : Flusher D M) (q : Flusher D M × Bool)
      → rs ≡ take n (waiting f)
      → IsRun rs f q
      → IsOnce n f (batch_flushed sql net q)
  unfolding batch_flushed IsOnce
  batch-IsOnce n rs f (f', true) e h = (rs, h, λ _. e)
  batch-IsOnce n rs f (f', false) e (done, h) = (done, h, λ k. absurd (cc))

  peeked-IsOnce :
      (n : ℕ) (f : Flusher D M) (r : Option (List Row))
      → ((rs : List Row) → r ≡ some rs → rs ≡ take n (waiting f))
      → IsOnce n f (flush_peeked sql net r f)
  unfolding flush_peeked IsOnce
  peeked-IsOnce n f none t = ([], (refl, inl (sym (append-nil f.sent))), λ k. absurd (cc))
  peeked-IsOnce n f (some []) t = ([], (refl, inl (sym (append-nil f.sent))), λ k. t [] refl)
  peeked-IsOnce n f (some (row ∷ rs)) t =
      let e = t (row ∷ rs) refl in
      batch-IsOnce n (row ∷ rs) f (flush_rows sql net (row ∷ rs) f) e (
        flush_rows-IsRun (row ∷ rs) (drop n (waiting f)) f
          (take-drop n (waiting f) ∙ ap (λ l. l ++ drop n (waiting f)) (sym e)))

  peek_oldest-take :
      (n : ℕ) (s : Store D) (rs : List Row)
      → peek_oldest sql n s ≡ some rs
      → rs ≡ take n (rows s.db)
  unfolding peek_oldest
  peek_oldest-take zero s rs h = cc
  peek_oldest-take (suc n) s rs h = selected s.db (suc n) rs h

  -- A flush deletes some of the oldest rows and no other. The messages that the broker took are
  -- theirs, in order, and besides at most that of the first row that still waits. A flush that went
  -- well has sent and deleted a whole batch.
  pub flush_once-IsFlushed :
      (batch_size : ℕ) (f : Flusher D M)
      → (done : List Row) × IsFlushed f (flush_once sql net batch_size f).0 done
        × ((flush_once sql net batch_size f).1 ≡ true → done ≡ take batch_size (waiting f))
  unfolding flush_once IsOnce
  flush_once-IsFlushed batch_size f =
      peeked-IsOnce batch_size f (peek_oldest sql batch_size f.store)
        (λ rs h. peek_oldest-take batch_size f.store rs h)
