-- ===== src/Topology/Search.antt =====
-- The search of `bfsParents`, services/snmp-collector/internal/topology/infer.go: what it has found
-- between two of its steps, and that its queue runs empty.
use monitoring_project.Prelude.{
  ℕ, zero, suc, ◌+◌, ◌≤◌, ◌<◌, ◌≡◌, refl, sym, ◌∙◌, ap, ◌⊎◌, inl, inr, String, true, false, none,
  some, List, [], ◌∷◌, ◌=s=◌, eq_iff, Map, lookup, insert, lookup-insert, elem, elem-append,
  IsDistinct, IsWithin, length, length-append, length-le_of_IsWithin, All, arith, Bool-cases,
}
use monitoring_project.Topology.{
  Adjacency, neighbours_of, Bfs, depth_of, visit, visit_all, dequeue, search, start,
}

-- Each parent is a device that is one step nearer to the root.
pub record Inv (ids : List String) (s : Bfs) : Type 0 where
  pub distinct : IsDistinct s.seen
  pub within : IsWithin s.seen ids
  pub measured : (x : String) → elem x s.seen ≡ true → (d : ℕ) × (lookup x s.depth ≡ some d)
  pub unmeasured : (x : String) → elem x s.seen ≡ false → lookup x s.depth ≡ none
  pub parents :
      (x p : String)
      → lookup x s.parent ≡ some p
      → (d : ℕ) × (lookup x s.depth ≡ some (suc d))
        × (lookup p s.depth ≡ some d)
        × (elem p ids ≡ true)
  pub queued : (x : String) → elem x s.queue ≡ true → elem x s.seen ≡ true
  pub bound : ℕ
  pub below : (x : String) (d : ℕ) → lookup x s.depth ≡ some d → d < bound

lookup-same : {V : Type 0} (x : String) (v : V) (m : Map V) → lookup x (insert x v m) ≡ some v
lookup-same x v m = ground (arith, lookup-insert x x v m, eq_iff x x)

lookup-other :
    {V : Type 0} (x y : String) (v : V) (m : Map V)
    → (x =s= y) ≡ false
    → lookup y (insert x v m) ≡ lookup y m
lookup-other x y v m n = rw (lookup-insert x y v m, n) refl

module _ (ids : List String) where
  -- A device that was measured was seen, so it is not the one that is visited now.
  seen_other :
      (s : Bfs) (n x : String) (d : ℕ)
      → Inv ids s
      → elem n s.seen ≡ false
      → lookup x s.depth ≡ some d
      → (n =s= x) ≡ false
  seen_other s n x d v fresh h = elim (Bool-cases (n =s= x)) [
    | inl e ↦ absurd (cc (v.unmeasured n fresh, h, (eq_iff n x).0 e))
    | inr e ↦ e
  ]

  visit-Inv :
      (cur n : String) (s : Bfs)
      → Inv ids s
      → elem cur s.seen ≡ true
      → elem n s.seen ≡ false
      → elem n ids ≡ true
      → Inv ids (visit cur n s)
  unfolding visit elem depth_of
  visit-Inv cur n s v c fresh known =
      let (k, e) = v.measured cur c in
      let at : depth_of s.depth cur ≡ k = rw (e, depth_of) refl in
      let depth' = insert n (suc (depth_of s.depth cur)) s.depth in
      let kept : (x : String) (d : ℕ) → lookup x s.depth ≡ some d → lookup x depth' ≡ some d =
        λ x d h. lookup-other n x _ s.depth (seen_other s n x d v fresh h) ∙ h in
      record {
        distinct = (fresh, v.distinct);
        within = λ x h. ground (arith, v.within x, eq_iff x n, known);
        measured = λ x h. elim (Bool-cases (n =s= x)) [
          | inl q ↦
              (suc (depth_of s.depth cur), rw (sym ((eq_iff n x).0 q)) (lookup-same n _ s.depth))
          | inr q ↦
              let (d, m) = v.measured x (ground (arith, eq_iff x n, eq_iff n x, q, h)) in
              (d, kept x d m)
        ];
        unmeasured = λ x h.
            lookup-other n x _ s.depth (ground (arith, eq_iff x n, eq_iff n x, h))
            ∙ v.unmeasured x (ground (arith, h));
        parents = λ x p h. elim (Bool-cases (n =s= x)) [
          | inl q ↦
              let same : x ≡ n = sym ((eq_iff n x).0 q) in
              let is_cur : p ≡ cur = some_inj (sym h ∙ rw same (lookup-same n cur s.parent)) in
              (
                k,
                rw same (lookup-same n _ s.depth ∙ ap (λ t. some (suc t)) at),
                rw is_cur (kept cur k e),
                rw is_cur (v.within cur c),
              )
          | inr q ↦
              let (d, a, b, w) = v.parents x p (sym (lookup-other n x cur s.parent q) ∙ h) in
              (d, kept x (suc d) a, kept p d b, w)
        ];
        queued = λ x h. ground (arith, elem-append x s.queue (n ∷ []), v.queued x, eq_iff x n, h);
        bound = suc v.bound;
        below = λ x d h. elim (Bool-cases (n =s= x)) [
          | inl q ↦
              let same : x ≡ n = sym ((eq_iff n x).0 q) in
              let is_next : d ≡ suc k =
                some_inj (sym h ∙ rw same (lookup-same n _ s.depth ∙ ap (λ t. some (suc t)) at)) in
              omega (arith, v.below cur k e, is_next)
          | inr q ↦ omega (arith, v.below x d (sym (lookup-other n x _ s.depth q) ∙ h))
        ];
      }
    where
      some_inj : {A : Type 0} {a b : A} → some a ≡ some b → a ≡ b
      some_inj h = cc

  visit_all-Inv :
      (cur : String) (ns : List String) (s : Bfs)
      → Inv ids s
      → elem cur s.seen ≡ true
      → All (λ n. elem n ids ≡ true) ns
      → let t = visit_all cur ns s in
        Inv ids t × (length t.queue + length s.seen ≡ length s.queue + length t.seen)
  unfolding visit_all visit elem
  visit_all-Inv cur [] s v c a = (v, omega arith)
  visit_all-Inv cur (n ∷ ns) s v c a = elim (Bool-cases (elem n s.seen)) [
    | inl e ↦ rw (e, visit_all) (visit_all-Inv cur ns s v c a.1)
    | inr e ↦
        let (w, k) =
          visit_all-Inv cur ns (visit cur n s) (visit-Inv cur n s v c e a.0) (ground (arith, c))
            a.1 in
        rw (e, visit_all) (w, omega (arith, k, length-append s.queue (n ∷ [])))
  ]

  Queue-cases : (q : List String) → (q ≡ []) ⊎ ((x : String) × (xs : List String) × (q ≡ x ∷ xs))
  Queue-cases [] = inl refl
  Queue-cases (x ∷ xs) = inr (x, xs, refl)

  dequeue-Inv :
      (s : Bfs) (cur : String) (queue : List String)
      → Inv ids s
      → s.queue ≡ cur ∷ queue
      → Inv ids (dequeue queue s)
  unfolding dequeue elem
  dequeue-Inv s cur queue v e = record {
    distinct = v.distinct;
    within = v.within;
    measured = v.measured;
    unmeasured = v.unmeasured;
    parents = v.parents;
    queued = λ x h. v.queued x (rw e (ground (arith, h)));
    bound = v.bound;
    below = v.below;
  }

  -- With fuel for as many devices as are left, the queue runs empty.
  pub search-Inv :
      (fuel done : ℕ) (adj : Adjacency) (s : Bfs)
      → ((x : String) → All (λ n. elem n ids ≡ true) (neighbours_of adj x))
      → Inv ids s
      → done + length s.queue ≡ length s.seen
      → length ids ≤ done + fuel
      → let t = search fuel adj s in Inv ids t × (t.queue ≡ [])
  unfolding search dequeue elem
  search-Inv zero done adj s known v k enough = elim (Queue-cases s.queue) [
    | inl e ↦ (v, e)
    | inr (x, xs, e) ↦
        let l : length s.queue ≡ suc (length xs) = rw e refl in
        absurd (omega (arith, length-le_of_IsWithin s.seen ids v.distinct v.within, l, k))
  ]
  search-Inv (suc fuel) done adj s known v k enough = elim (Queue-cases s.queue) [
    | inl e ↦ rw (e, search) (v, e)
    | inr (x, xs, e) ↦
        let l : length s.queue ≡ suc (length xs) = rw e refl in
        let (w, j) =
          visit_all-Inv x (neighbours_of adj x) (dequeue xs s) (dequeue-Inv s x xs v e)
            (v.queued x (rw e (ground (arith, eq_iff x x)))) (known x) in
        rw (e, search)
          (search-Inv fuel (suc done) adj (visit_all x (neighbours_of adj x) (dequeue xs s)) known w
            (omega (arith, j, k, l)) (omega arith))
  ]

  pub start-Inv : (root : String) → elem root ids ≡ true → Inv ids (start root)
  unfolding elem lookup
  start-Inv root known = record {
    distinct = (refl, tt);
    within = λ x h. ground (arith, eq_iff x root, known, h);
    measured = λ x h. (0, ground (arith, eq_iff x root, eq_iff root x, h));
    unmeasured = λ x h. ground (arith, eq_iff x root, eq_iff root x, h);
    parents = λ x p h. absurd (cc);
    queued = λ x h. h;
    bound = 1;
    below = λ x d h. elim (Bool-cases (root =s= x)) [
      | inl e ↦ zero_below d (rw e at h)
      | inr e ↦ absurd (cc (rw e at h))
    ];
  }
    where
      zero_below : (d : ℕ) → some 0 ≡ some d → d < 1
      zero_below d h = let e : 0 ≡ d = cc in omega (arith, e)
