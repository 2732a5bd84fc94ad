-- ===== src/Health/Complete.antt =====
-- `topologicalOrder` visits every configured device exactly once, cycles included, and its loop
-- ends.
use monitoring_project.Prelude.{
  ℕ, zero, suc, ◌+◌, ◌≤◌, ◌≡◌, refl, ◌∙◌, inl, inr, String, Bool, true, false, not, ◌&&◌, ◌||◌,
  List, [], ◌∷◌, ◌++◌, ◌=s=◌, eq_iff, eq_refl, if◌then◌else◌, ltb, Map, lookup, insert,
  lookup-insert, keys, elem, elem-append, append-IsDistinct, IsDistinct, IsWithin, length,
  length-append, length-le_of_IsWithin, ++-IsDistinct, IsWithin-of_length-le, sort_strings,
  elem-sort_strings, sort_strings-IsDistinct, All, All-append, All-sort_by, arith, Bool-cases,
  Option-cases,
}
use monitoring_project.Prelude.Int.{ℤ, pos, negsuc, pred_ℤ, is_zero}
use monitoring_project.Health.Order.{
  Index, Graph, normalize_ids, degree_of, children_of, add_edges, build_graph, roots, release,
  drain, append_missing, complete_order, topological_order,
}

abbrev is_positive : ℤ → Bool
is_positive (pos zero) = false
is_positive (pos (suc n)) = true
is_positive (negsuc n) = false

-- Between two rounds of the loop. What is queued or ordered has no positive count left, so no
-- count can reach 0 for it again.
record Inv (ids order queue : List String) (indegree : Map ℤ) : Type 0 where
  distinct_order : IsDistinct order
  distinct_queue : IsDistinct queue
  apart : (x : String) → elem x order ≡ true → elem x queue ≡ false
  ordered_within : IsWithin order ids
  queued_within : IsWithin queue ids
  ordered_spent : (x : String) → elem x order ≡ true → is_positive (degree_of indegree x) ≡ false
  queued_spent : (x : String) → elem x queue ≡ true → is_positive (degree_of indegree x) ≡ false

degree_of-insert :
    (k x : String) (d : ℤ) (m : Map ℤ)
    → degree_of (insert k d m) x ≡ (if k =s= x then d else degree_of m x)
unfolding degree_of
degree_of-insert k x d m = ground (arith, lookup-insert k x d m)

pred_spent : (z : ℤ) → is_positive z ≡ false → is_positive (pred_ℤ z) ≡ false
pred_spent (pos zero) h = refl
pred_spent (pos (suc n)) h = cc
pred_spent (negsuc n) h = refl

zero_fresh : (z : ℤ) → is_zero (pred_ℤ z) ≡ true → is_positive z ≡ true
zero_fresh (pos zero) h = h
zero_fresh (pos (suc n)) h = refl
zero_fresh (negsuc n) h = h

zero_spent : (z : ℤ) → is_zero z ≡ true → is_positive z ≡ false
zero_spent (pos zero) h = refl
zero_spent (pos (suc n)) h = cc
zero_spent (negsuc n) h = refl

-- A child whose count is still positive after this round, or was not before.
step_kept :
    (ids order queue : List String) (indegree : Map ℤ) (child : String)
    → Inv ids order queue indegree
    → Inv ids order queue (insert child (pred_ℤ (degree_of indegree child)) indegree)
step_kept ids order queue indegree child v = record {
  distinct_order = v.distinct_order;
  distinct_queue = v.distinct_queue;
  apart = v.apart;
  ordered_within = v.ordered_within;
  queued_within = v.queued_within;
  ordered_spent = λ x h. spent x (v.ordered_spent x h);
  queued_spent = λ x h. spent x (v.queued_spent x h);
}
  where
    spent :
        (x : String)
        → is_positive (degree_of indegree x) ≡ false
        → is_positive (degree_of (insert child (pred_ℤ (degree_of indegree child)) indegree) x)
          ≡ false
    spent x h =
        let d = pred_ℤ (degree_of indegree child) in
        rw (degree_of-insert child x d indegree) (elim (Bool-cases (child =s= x)) [
          | inl e ↦ rw (e, (eq_iff child x).0 e) (pred_spent _ h)
          | inr e ↦ rw e h
        ])

-- A child whose count reaches 0 joins the queue.
step_queued :
    (ids order queue : List String) (indegree : Map ℤ) (child : String)
    → Inv ids order queue indegree
    → elem child ids ≡ true
    → is_zero (pred_ℤ (degree_of indegree child)) ≡ true
    → Inv ids order
        (sort_strings (queue ++ (child ∷ [])))
        (insert child (pred_ℤ (degree_of indegree child)) indegree)
unfolding elem
step_queued ids order queue indegree child v within z =
    let k = step_kept ids order queue indegree child v in
    let fresh = zero_fresh (degree_of indegree child) z in
    let not_queued : elem child queue ≡ false = ground (arith, v.queued_spent child) in
    let not_ordered : elem child order ≡ false = ground (arith, v.ordered_spent child) in
    let split : (x : String)
        → elem x (sort_strings (queue ++ (child ∷ []))) ≡ (elem x queue || (x =s= child || false)) =
      λ x. rw (elem-sort_strings, elem-append) in
    record {
      distinct_order = v.distinct_order;
      distinct_queue =
          sort_strings-IsDistinct _ (append-IsDistinct queue child v.distinct_queue not_queued);
      apart = λ x h. ground (arith, split x, v.apart x, eq_iff x child);
      ordered_within = v.ordered_within;
      queued_within = λ x h. ground (arith, split x, v.queued_within x, eq_iff x child);
      ordered_spent = k.ordered_spent;
      queued_spent = λ x h. elim (Bool-cases (elem x queue)) [
        | inl q ↦ k.queued_spent x q
        | inr n ↦
            let e : x ≡ child = (eq_iff x child).0 (ground (arith, split x)) in
            rw (degree_of-insert child x (pred_ℤ (degree_of indegree child)) indegree, e, eq_refl)
              (zero_spent _ z)
      ];
    }

release-Inv :
    (ids order children queue : List String) (indegree : Map ℤ)
    → Inv ids order queue indegree
    → All (λ c. elem c ids ≡ true) children
    → Inv ids order (release children (queue, indegree)).0 (release children (queue, indegree)).1
unfolding release
release-Inv ids order [] queue indegree v a = v
release-Inv ids order (child ∷ rest) queue indegree v a =
    elim (Bool-cases (is_zero (pred_ℤ (degree_of indegree child)))) [
      | inl z ↦
          rw (z, release)
            (release-Inv ids order rest _ _ (step_queued ids order queue indegree child v a.0 z)
              a.1)
      | inr n ↦
          rw (n, release)
            (release-Inv ids order rest _ _ (step_kept ids order queue indegree child v) a.1)
    ]

-- The head of the queue moves to the end of the order.
step_ordered :
    (ids order queue : List String) (id : String) (indegree : Map ℤ)
    → Inv ids order (id ∷ queue) indegree
    → Inv ids (order ++ (id ∷ [])) queue indegree
unfolding elem
step_ordered ids order queue id indegree v =
    let split : (x : String) → elem x (order ++ (id ∷ [])) ≡ (elem x order || (x =s= id || false)) =
      λ x. elem-append x order (id ∷ []) in
    record {
      distinct_order =
          append-IsDistinct order id v.distinct_order (ground (arith, v.apart id, eq_iff id id));
      distinct_queue = v.distinct_queue.1;
      apart = λ x h. ground (arith, split x, v.apart x, eq_iff x id, v.distinct_queue.0);
      ordered_within = λ x h. ground (arith, split x, v.ordered_within x, v.queued_within x);
      queued_within = λ x h. v.queued_within x (ground arith);
      ordered_spent = λ x h. ground (arith, split x, v.ordered_spent x, v.queued_spent x);
      queued_spent = λ x h. v.queued_spent x (ground arith);
    }

Inv-room :
    (ids order queue : List String) (indegree : Map ℤ)
    → Inv ids order queue indegree
    → length order + length queue ≤ length ids
unfolding elem
Inv-room ids order queue indegree v = omega (
  arith,
  length-append order queue,
  length-le_of_IsWithin (order ++ queue) ids
      (++-IsDistinct order queue v.distinct_order v.distinct_queue v.apart)
      (λ x h. ground (arith, elem-append x order queue, v.ordered_within x, v.queued_within x)),
)

AreWithin : List String → Map (List String) → Type 0
AreWithin ids children =
    (id : String) → All (λ c. elem c ids ≡ true) (sort_strings (children_of children id))

-- With as much fuel as there are ids, the queue runs empty.
drain-Inv :
    (fuel : ℕ) (ids : List String) (children : Map (List String)) (queue : List String)
    (indegree : Map ℤ) (order : List String)
    → AreWithin ids children
    → Inv ids order queue indegree
    → length ids ≤ length order + fuel
    → let r = drain fuel children queue indegree order in
      (r.1 ≡ []) × IsDistinct r.0 × IsWithin r.0 ids
unfolding drain AreWithin
drain-Inv zero ids children [] indegree order w v f = (refl, v.distinct_order, v.ordered_within)
drain-Inv (suc fuel) ids children [] indegree order w v f =
    (refl, v.distinct_order, v.ordered_within)
drain-Inv zero ids children (id ∷ queue) indegree order w v f =
    absurd (omega (arith, Inv-room ids order (id ∷ queue) indegree v))
drain-Inv (suc fuel) ids children (id ∷ queue) indegree order w v f =
    drain-Inv fuel ids children _ _ (order ++ (id ∷ [])) w
      (release-Inv ids (order ++ (id ∷ [])) (sort_strings (children_of children id)) queue indegree
        (step_ordered ids order queue id indegree v) (w id))
      (omega (arith, length-append order (id ∷ [])))

elem-roots :
    (g : Map ℤ) (x : String) (ids : List String)
    → elem x (roots g ids) ≡ true
    → (elem x ids ≡ true) × (is_zero (degree_of g x) ≡ true)
unfolding roots elem
elem-roots g x [] h = absurd (cc)
elem-roots g x (id ∷ ids) h = elim (Bool-cases (is_zero (degree_of g id))) [
  | inl z ↦ elim (Bool-cases (x =s= id)) [
    | inl e ↦ (rw e, rw ((eq_iff x id).0 e) z)
    | inr n ↦ let (a, b) = elem-roots g x ids (ground arith) in (rw (n, a), b)
  ]
  | inr n ↦ let (a, b) = elem-roots g x ids (ground arith) in (ground arith, b)
]

roots-IsDistinct : (g : Map ℤ) (ids : List String) → IsDistinct ids → IsDistinct (roots g ids)
unfolding roots
roots-IsDistinct g [] d = tt
roots-IsDistinct g (id ∷ ids) d = elim (Bool-cases (is_zero (degree_of g id))) [
  | inl z ↦ rw z (absent, roots-IsDistinct g ids d.1)
  | inr n ↦ rw n (roots-IsDistinct g ids d.1)
]
  where
    absent : elem id (roots g ids) ≡ false
    absent = elim (Bool-cases (elem id (roots g ids))) [
      | inl e ↦ absurd (cc (d.0, (elem-roots g id ids e).0))
      | inr e ↦ e
    ]

roots-Inv : (ids : List String) (g : Map ℤ) → IsDistinct ids → Inv ids [] (roots g ids) g
unfolding elem
roots-Inv ids g d = record {
  distinct_order = tt;
  distinct_queue = roots-IsDistinct g ids d;
  apart = λ x h. cc;
  ordered_within = λ x h. cc;
  queued_within = λ x h. (elem-roots g x ids h).0;
  ordered_spent = λ x h. cc;
  queued_spent = λ x h. zero_spent _ (elem-roots g x ids h).1;
}

-- Every child of the graph is one of the ids.
abbrev ChildrenIn : List String → Map (List String) → Type 0
ChildrenIn ids children = (id : String) → All (λ c. elem c ids ≡ true) (children_of children id)

children_of-insert :
    (k x : String) (l : List String) (m : Map (List String))
    → children_of (insert k l m) x ≡ (if k =s= x then l else children_of m x)
unfolding children_of
children_of-insert k x l m = ground (arith, lookup-insert k x l m)

add_child :
    (ids : List String) (up id : String) (children : Map (List String))
    → elem id ids ≡ true
    → ChildrenIn ids children
    → ChildrenIn ids (insert up (children_of children up ++ (id ∷ [])) children)
add_child ids up id children h c x =
    rw (children_of-insert up x (children_of children up ++ (id ∷ [])) children)
      (elim (Bool-cases (up =s= x)) [
        | inl e ↦
            rw e (
              All-append (λ c. elem c ids ≡ true) (children_of children up) (id ∷ []) (c up)
                (h, tt))
        | inr n ↦ rw n (c x)
      ])

add_edges-ChildrenIn :
    {F : Type 0} (index : Index F) (ids : List String) (id : String) (ups : List String) (g : Graph)
    → elem id ids ≡ true
    → ChildrenIn ids g.children
    → ChildrenIn ids (add_edges index id ups g).children
unfolding add_edges
add_edges-ChildrenIn index ids id [] g h c = c
add_edges-ChildrenIn index ids id (up ∷ ups) g h c = elim (Option-cases (lookup up index)) [
  | inl e ↦ rw (e, add_edges) (add_edges-ChildrenIn index ids id ups g h c)
  | inr (d, e) ↦
      rw (e, add_edges)
        (add_edges-ChildrenIn index ids id ups _ h (add_child ids up id g.children h c))
]

build_graph-ChildrenIn :
    {F : Type 0} (index : Index F) (ids : List String) (rest : Index F) (g : Graph)
    → IsWithin (keys rest) ids
    → ChildrenIn ids g.children
    → ChildrenIn ids (build_graph index rest g).children
unfolding build_graph keys elem
build_graph-ChildrenIn index ids [] g w c = c
build_graph-ChildrenIn index ids ((id, d) ∷ rest) g w c =
    build_graph-ChildrenIn index ids rest _ (λ x h. w x (ground arith))
      (add_edges-ChildrenIn index ids id (normalize_ids d.upstream_device_ids) g
        (w id (ground (arith, eq_iff id id))) c)

append_missing_lem :
    (seen ids order : List String)
    → IsDistinct order
    → IsDistinct ids
    → ((x : String) → elem x ids ≡ true → elem x order ≡ elem x seen)
    → let r = append_missing seen ids order in
      IsDistinct r × ((x : String) → elem x r ≡ (elem x order || (elem x ids && not (elem x seen))))
unfolding append_missing elem
append_missing_lem seen [] order d e h = (d, λ x. ground arith)
append_missing_lem seen (id ∷ ids) order d e h = elim (Bool-cases (elem id seen)) [
  | inl s ↦
      let (a, b) = append_missing_lem seen ids order d e.1 (λ x k. h x (ground arith)) in
      rw (s, append_missing) (a, λ x. ground (arith, b x, eq_iff x id))
  | inr s ↦
      let free : elem id order ≡ false = ground (arith, h id, eq_iff id id) in
      let (a, b) =
        append_missing_lem seen ids (order ++ (id ∷ [])) (append-IsDistinct order id d free) e.1
          (λ x k. ground (arith, h x, elem-append x order (id ∷ []), eq_iff x id, e.0)) in
      rw (s, append_missing)
        (a, λ x. ground (arith, b x, elem-append x order (id ∷ []), eq_iff x id))
]

complete_order_lem :
    (order ids : List String)
    → IsDistinct order
    → IsDistinct ids
    → IsWithin order ids
    → IsDistinct (complete_order order ids)
      × ((x : String) → elem x (complete_order order ids) ≡ elem x ids)
unfolding complete_order
complete_order_lem order ids d e w = elim (Bool-cases (ltb (length order) (length ids))) [
  | inl short ↦
      let (a, b) = append_missing_lem order ids order d e (λ x h. refl) in
      rw (short, complete_order) (a, λ x. ground (arith, b x, w x))
  | inr full ↦
      let back = IsWithin-of_length-le order ids d w (ground arith) in
      rw (full, complete_order) (d, λ x. ground (arith, w x, back x))
]

no_children : (ids : List String) → ChildrenIn ids []
unfolding children_of lookup
no_children ids id = tt

module _ {F : Type 0} (index : Index F) where
  abbrev graph : Graph
  graph = build_graph index index (record { indegree = []; children = [] })

  abbrev ids : List String
  ids = sort_strings (keys index)

  drained :
      IsDistinct (keys index)
      → let r = drain (length ids) graph.children (roots graph.indegree ids) graph.indegree [] in
        (r.1 ≡ []) × IsDistinct r.0 × IsWithin r.0 ids
  unfolding AreWithin
  drained d =
      drain-Inv (length ids) ids graph.children (roots graph.indegree ids) graph.indegree []
        (λ id.
          All-sort_by (λ s. s) (λ c. elem c ids ≡ true) (children_of graph.children id)
            (build_graph-ChildrenIn index ids index (record { indegree = []; children = [] })
              (λ x h. rw (elem-sort_strings x (keys index)) h) (no_children ids) id))
        (roots-Inv ids graph.indegree (sort_strings-IsDistinct (keys index) d)) (omega arith)

  -- The loop over the queue ends: with fuel for as many rounds as there are devices, nothing is
  -- left in the queue.
  pub drain-empties :
      IsDistinct (keys index)
      → (drain (length ids) graph.children (roots graph.indegree ids) graph.indegree []).1 ≡ []
  drain-empties d = (drained d).0

  -- The order holds every configured device, each one once, and no other, whatever the upstream
  -- edges are.
  pub topological_order_complete :
      IsDistinct (keys index)
      → IsDistinct (topological_order index)
        × ((x : String) → elem x (topological_order index) ≡ elem x (keys index))
  unfolding topological_order
  topological_order_complete d =
      let (empty, distinct, within) = drained d in
      let (a, b) =
        complete_order_lem _ ids distinct (sort_strings-IsDistinct (keys index) d) within in
      (a, λ x. b x ∙ elem-sort_strings x (keys index))
