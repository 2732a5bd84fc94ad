-- ===== src/Health/Batch.antt =====
-- `ApplyBatch` as a whole, and `Prune`.
use mathlib.Core.List.{map-append}
use monitoring_project.Prelude.{
  ℕ, ◌<◌, ◌≡◌, refl, ◌∙◌, ◌⊎◌, inl, inr, String, true, false, Option, none, some, List, [], ◌∷◌,
  ◌++◌, map, ◌=s=◌, eq_iff, lookup, insert, keys, elem, elem-append, append-IsDistinct, IsDistinct,
  keys-insert-IsDistinct, All, All-append, All-insert, All-lookup, All-keep, All-sort_by, sort_by,
  sort_by-IsDistinct, IsSorted, sort_by-IsSorted, arith, Bool-cases, Option-cases,
}
use monitoring_project.Health.Types.{
  Floats, PollOutcome, Event, DeviceHealth, new_device, Ledger, DeviceConfig, Config,
}
use monitoring_project.Health.Evaluate.{Evaluated, evaluate_device}
use monitoring_project.Health.Order.{
  Index, add_id, dedup, normalize_ids, build_device_index, topological_order,
}
use monitoring_project.Health.Tracker.{
  commit_entry, commit_outcome, commit_outcomes, ensure_devices, prune, Policy, publish, policy_of,
  Batch, evaluate_entry, evaluate_id, evaluate_order, apply_batch,
}
use monitoring_project.Health.Roots.{IsRanked}
use monitoring_project.Health.Complete.{topological_order_complete}
use monitoring_project.Health.Entry.{
  IsConsistent, IsExplained, new_device-IsConsistent, commit_entry-IsConsistent,
  publish-IsConsistent, publish-device_id, publish-explains, IsSound, evaluate_device-Decides,
}

commit_entry-blame :
    {F : Type 0} (o : PollOutcome F) (e : DeviceHealth F)
    → (commit_entry o e).unavailable_upstream ≡ e.unavailable_upstream
unfolding commit_entry
commit_entry-blame o e = ground arith

pub build_device_index-IsDistinct :
    {F : Type 0} (ds : List (DeviceConfig F)) (index : Index F)
    → IsDistinct (keys index)
    → IsDistinct (keys (build_device_index index ds))
unfolding build_device_index
build_device_index-IsDistinct [] index d = d
build_device_index-IsDistinct (c ∷ ds) index d =
    build_device_index-IsDistinct ds _ (keys-insert-IsDistinct c.id c index d)

module _ (P : String → Type 0) where
  All-add_id : (id : String) (out : List String) → P id → All P out → All P (add_id id out)
  unfolding add_id
  All-add_id id out h o = elim (Bool-cases (id =s= "")) [
    | inl e ↦ rw (e, add_id) o
    | inr n ↦ elim (Bool-cases (elem id out)) [
      | inl e ↦ rw (n, add_id, e) o
      | inr m ↦ rw (n, add_id, m) (All-append P out (id ∷ []) o (h, tt))
    ]
  ]

  All-dedup : (out ids : List String) → All P out → All P ids → All P (dedup out ids)
  unfolding dedup
  All-dedup out [] o a = o
  All-dedup out (id ∷ ids) o a = All-dedup (add_id id out) ids (All-add_id id out a.0 o) a.1

  All-normalize_ids : (ids : List String) → All P ids → All P (normalize_ids ids)
  unfolding normalize_ids
  All-normalize_ids ids a = All-sort_by (λ s. s) P (dedup [] ids) (All-dedup [] ids tt a)

module _ {F : Type 0} (rank : String → ℕ) where
  -- An entry is consistent, and blames devices of lower rank.
  abbrev pub IsGood : String × DeviceHealth F → Type 0
  IsGood e = IsConsistent e.1 × All (λ u. rank u < rank e.0) e.1.unavailable_upstream

  -- The upstreams of a configured device are of lower rank: its dependencies have no cycle.
  abbrev pub IsAcyclic : String × DeviceConfig F → Type 0
  IsAcyclic d = All (λ u. rank u < rank d.0) d.1.upstream_device_ids

  IsRanked-of_IsGood : (devices : Ledger F) → All IsGood devices → IsRanked rank devices
  IsRanked-of_IsGood [] g = tt
  IsRanked-of_IsGood (e ∷ devices) g = (g.0.1, IsRanked-of_IsGood devices g.1)

  commit_entry-IsGood :
      (o : PollOutcome F) (id : String) (e : DeviceHealth F)
      → IsGood (id, e)
      → IsGood (id, commit_entry o e)
  commit_entry-IsGood o id e g = (commit_entry-IsConsistent o e g.0, blame)
    where
      blame : All (λ u. rank u < rank id) (commit_entry o e).unavailable_upstream
      blame = rw (commit_entry-blame o e) g.1

  pub commit_outcomes-IsGood :
      (os : List (PollOutcome F)) (devices : Ledger F)
      → All IsGood devices
      → All IsGood (commit_outcomes os devices)
  unfolding commit_outcomes
  commit_outcomes-IsGood [] devices g = g
  commit_outcomes-IsGood (o ∷ os) devices g = commit_outcomes-IsGood os _ (one o)
    where
      one : (o : PollOutcome F) → All IsGood (commit_outcome o devices)
      one o = elim (Option-cases (lookup o.device_id devices)) [
        | inl e ↦ rw (e, commit_outcome) g
        | inr (entry, e) ↦
            rw (e, commit_outcome)
              (All-insert IsGood o.device_id (commit_entry o entry) devices
                (commit_entry-IsGood o o.device_id entry
                  (All-lookup IsGood o.device_id entry devices g e))
                g)
      ]

  pub ensure_devices-IsGood :
      (index : Index F) (devices : Ledger F)
      → All IsGood devices
      → All IsGood (ensure_devices index devices)
  unfolding ensure_devices
  ensure_devices-IsGood [] devices g = g
  ensure_devices-IsGood ((id, d) ∷ index) devices g = elim (Option-cases (lookup id devices)) [
    | inl e ↦
        rw (e, ensure_devices)
          (ensure_devices-IsGood index _
            (All-insert IsGood id new_device devices (new_device-IsConsistent, tt) g))
    | inr (entry, e) ↦ rw (e, ensure_devices) (ensure_devices-IsGood index devices g)
  ]

  pub prune-IsGood :
      (active_ids : List String) (devices : Ledger F)
      → All IsGood devices
      → All IsGood (prune active_ids devices)
  unfolding prune
  prune-IsGood active_ids devices g = All-keep IsGood (λ id entry. elem id active_ids) devices g

  build_device_index-IsAcyclic :
      (ds : List (DeviceConfig F)) (index : Index F)
      → All (λ d. IsAcyclic (d.id, d)) ds
      → All IsAcyclic index
      → All IsAcyclic (build_device_index index ds)
  unfolding build_device_index
  build_device_index-IsAcyclic [] index a i = i
  build_device_index-IsAcyclic (d ∷ ds) index a i =
      build_device_index-IsAcyclic ds _ a.1 (All-insert IsAcyclic d.id d index a.0 i)

-- Every event is explained by its transition, and no device has two.
abbrev pub AreEvents : {F : Type 0} → List (Event F) → Type 0
AreEvents events = All IsExplained events × IsDistinct (map (λ e. e.device_id) events)

abbrev event_ids : {F : Type 0} → List (Event F) → List String
event_ids = map (λ e. e.device_id)

other_id :
    (x id : String) (ids : List String)
    → elem id ids ≡ false
    → elem x ids ≡ true
    → (x =s= id) ≡ false
other_id x id ids h k = elim (Bool-cases (x =s= id)) [
  | inl e ↦ absurd (cc (h, k, (eq_iff x id).0 e))
  | inr e ↦ e
]

module _ {F : Type 0} (fl : Floats F) (policy_revision : Config F → String) (rank : String → ℕ)
    (fuel : ℕ) (enough : (id : String) → rank id < fuel) where
  abbrev evaluated_entry : Policy F → String → DeviceHealth F → Batch F → Option (Batch F)
  evaluated_entry = evaluate_entry fl policy_revision fuel

  -- After a step at `id`: the result, good, with at most an event of `id` more.
  abbrev Steps : String → List (Event F) → Option (Batch F) → Type 0
  Steps id events o =
      (b : Batch F) × (o ≡ some b)
      × All (IsGood rank) b.0
      × AreEvents b.1
      × ((x : String) → (x =s= id) ≡ false → elem x (event_ids b.1) ≡ elem x (event_ids events))

  evaluate_entry-undecided :
      (p : Policy F) (id : String) (entry : DeviceHealth F) (devices : Ledger F)
      (events : List (Event F))
      → evaluate_device fl fuel devices entry p.upstreams p.warning_c p.threshold ≡ some none
      → evaluated_entry p id entry (devices, events) ≡ some (devices, events)
  unfolding evaluate_entry
  evaluate_entry-undecided p id entry devices events h = rw h

  evaluate_entry-silent :
      (p : Policy F) (id : String) (entry : DeviceHealth F) (devices : Ledger F)
      (events : List (Event F)) (v : Evaluated F)
      → evaluate_device fl fuel devices entry p.upstreams p.warning_c p.threshold ≡ some (some v)
      → (publish p id entry v).1 ≡ none
      → evaluated_entry p id entry (devices, events)
        ≡ some (insert id (publish p id entry v).0 devices, events)
  unfolding evaluate_entry
  evaluate_entry-silent p id entry devices events v h k = rw (h, k)

  evaluate_entry-event :
      (p : Policy F) (id : String) (entry : DeviceHealth F) (devices : Ledger F)
      (events : List (Event F)) (v : Evaluated F) (ev : Event F)
      → evaluate_device fl fuel devices entry p.upstreams p.warning_c p.threshold ≡ some (some v)
      → (publish p id entry v).1 ≡ some ev
      → evaluated_entry p id entry (devices, events)
        ≡ some (insert id (publish p id entry v).0 devices, events ++ (ev ∷ []))
  unfolding evaluate_entry
  evaluate_entry-event p id entry devices events v ev h k = rw (h, k)

  published_IsGood :
      (p : Policy F) (id : String) (entry : DeviceHealth F) (devices : Ledger F) (v : Evaluated F)
      → All (IsGood rank) devices
      → IsGood rank (id, entry)
      → IsSound fl entry rank (rank id) (some v)
      → All (IsGood rank) (insert id (publish p id entry v).0 devices)
  unfolding publish
  published_IsGood p id entry devices v g e s =
      All-insert (IsGood rank) id (publish p id entry v).0 devices
        (publish-IsConsistent p id entry v e.0 s.1 s.0, s.2) g

  append-AreEvents :
      (p : Policy F) (id : String) (entry : DeviceHealth F) (events : List (Event F))
      (v : Evaluated F) (ev : Event F)
      → AreEvents events
      → elem id (event_ids events) ≡ false
      → IsConsistent entry
      → IsSound fl entry rank (rank id) (some v)
      → (publish p id entry v).1 ≡ some ev
      → AreEvents (events ++ (ev ∷ []))
        × ((x : String)
            → (x =s= id) ≡ false
            → elem x (event_ids (events ++ (ev ∷ []))) ≡ elem x (event_ids events))
  unfolding elem
  append-AreEvents p id entry events v ev a n c s h =
      let named : ev.device_id ≡ id = publish-device_id p id entry v ev h in
      (
        (
          All-append IsExplained events (ev ∷ []) a.0
              (publish-explains p id entry v ev c s.0 h, tt),
          rw (map-append, named) (append-IsDistinct (event_ids events) id a.1 n),
        ),
        λ x k. rw (map-append, named, elem-append) (ground arith),
      )

  evaluate_entry-Steps :
      (p : Policy F) (id : String) (entry : DeviceHealth F) (devices : Ledger F)
      (events : List (Event F))
      → All (IsGood rank) devices
      → IsGood rank (id, entry)
      → All (λ u. rank u < rank id) p.upstreams
      → AreEvents events
      → elem id (event_ids events) ≡ false
      → Steps id events (evaluated_entry p id entry (devices, events))
  evaluate_entry-Steps p id entry devices events g e below a n =
      let (r, decided, sound) =
        evaluate_device-Decides fl fuel devices entry rank (rank id)
          (IsRanked-of_IsGood rank devices g) enough p.upstreams below p.warning_c p.threshold in
      by_verdict r decided sound
    where
      by_verdict :
          (r : Option (Evaluated F))
          → evaluate_device fl fuel devices entry p.upstreams p.warning_c p.threshold ≡ some r
          → IsSound fl entry rank (rank id) r
          → Steps id events (evaluated_entry p id entry (devices, events))
      by_verdict none d s =
          (_, evaluate_entry-undecided p id entry devices events d, g, a, λ x k. refl)
      by_verdict (some v) d s = elim (Option-cases (publish p id entry v).1) [
        | inl h ↦ (
          _,
          evaluate_entry-silent p id entry devices events v d h,
          published_IsGood p id entry devices v g e s,
          a,
          λ x k. refl,
        )
        | inr (ev, h) ↦
            let (events', others) = append-AreEvents p id entry events v ev a n e.0 s h in
            (
              _,
              evaluate_entry-event p id entry devices events v ev d h,
              published_IsGood p id entry devices v g e s,
              events',
              others,
            )
      ]

  evaluate_id-missing :
      (cfg : Config F) (index : Index F) (id : String) (b : Batch F)
      → (lookup id index ≡ none) ⊎ (lookup id b.0 ≡ none)
      → evaluate_id fl policy_revision fuel cfg index id b ≡ some b
  unfolding evaluate_id
  evaluate_id-missing cfg index id (devices, events) (inl h) = rw (h, evaluate_id)
  evaluate_id-missing cfg index id (devices, events) (inr h) =
      elim (Option-cases (lookup id index)) [
        | inl e ↦ rw (e, evaluate_id)
        | inr (d, e) ↦ rw (e, evaluate_id, h)
      ]

  evaluate_id-entry :
      (cfg : Config F) (index : Index F) (id : String) (b : Batch F) (d : DeviceConfig F)
      (entry : DeviceHealth F)
      → lookup id index ≡ some d
      → lookup id b.0 ≡ some entry
      → evaluate_id fl policy_revision fuel cfg index id b
        ≡ evaluated_entry (policy_of fl policy_revision cfg d) id entry b
  unfolding evaluate_id
  evaluate_id-entry cfg index id (devices, events) d entry h k = rw (h, evaluate_id, k)

  policy_of-upstreams :
      (cfg : Config F) (d : DeviceConfig F)
      → (policy_of fl policy_revision cfg d).upstreams ≡ normalize_ids d.upstream_device_ids
  unfolding policy_of
  policy_of-upstreams cfg d = refl

  evaluate_id-Steps :
      (cfg : Config F) (index : Index F) (id : String) (b : Batch F)
      → All (IsAcyclic rank) index
      → All (IsGood rank) b.0
      → AreEvents b.1
      → elem id (event_ids b.1) ≡ false
      → Steps id b.1 (evaluate_id fl policy_revision fuel cfg index id b)
  evaluate_id-Steps cfg index id b acyclic g a n = elim (Option-cases (lookup id index)) [
    | inl h ↦ (b, evaluate_id-missing cfg index id b (inl h), g, a, λ x k. refl)
    | inr (d, h) ↦ elim (Option-cases (lookup id b.0)) [
      | inl m ↦ (b, evaluate_id-missing cfg index id b (inr m), g, a, λ x k. refl)
      | inr (entry, m) ↦ rw (evaluate_id-entry cfg index id b d entry h m) (
          evaluate_entry-Steps (policy_of fl policy_revision cfg d) id entry b.0 b.1 g
            (All-lookup (IsGood rank) id entry b.0 g m)
            (rw (policy_of-upstreams cfg d) (
              All-normalize_ids (λ u. rank u < rank id) d.upstream_device_ids
                (All-lookup (IsAcyclic rank) id d index acyclic h)))
            a n)
    ]
  ]

  evaluate_order-returns :
      (cfg : Config F) (index : Index F) (ids : List String) (b : Batch F)
      → All (IsAcyclic rank) index
      → IsDistinct ids
      → ((x : String) → elem x ids ≡ true → elem x (event_ids b.1) ≡ false)
      → All (IsGood rank) b.0
      → AreEvents b.1
      → (r : Batch F) × (evaluate_order fl policy_revision fuel cfg index ids b ≡ some r)
        × All (IsGood rank) r.0
        × AreEvents r.1
  unfolding evaluate_order elem
  evaluate_order-returns cfg index [] b acyclic d n g a = (b, refl, g, a)
  evaluate_order-returns cfg index (id ∷ ids) b acyclic d n g a =
      let (b', e, g', a', others) =
        evaluate_id-Steps cfg index id b acyclic g a (n id (ground (arith, eq_iff id id))) in
      rw e (
        evaluate_order-returns cfg index ids b' acyclic d.1
          (λ x h. others x (other_id x id ids d.0 h) ∙ n x (ground arith)) g' a')

  -- A cycle over a configuration whose dependencies have no cycle, from a ledger that is good:
  -- `ApplyBatch` returns, the new ledger is good, each event is explained by its transition, no
  -- device has two events, and the events are sorted by device.
  pub apply_batch-returns :
      (cfg : Config F) (outcomes : List (PollOutcome F)) (devices : Ledger F)
      → All (λ d. IsAcyclic rank (d.id, d)) cfg.devices
      → All (IsGood rank) devices
      → (r : Batch F) × (apply_batch fl policy_revision fuel cfg outcomes devices ≡ some r)
        × All (IsGood rank) r.0
        × AreEvents r.1
        × IsSorted (event_ids r.1)
  unfolding apply_batch elem keys
  apply_batch-returns cfg outcomes devices acyclic g =
      let index = build_device_index [] cfg.devices in
      let committed = commit_outcomes outcomes (ensure_devices index devices) in
      let (distinct, _) =
        topological_order_complete index (build_device_index-IsDistinct cfg.devices [] tt) in
      let (b, e, g', a) =
        evaluate_order-returns cfg index (topological_order index) (committed, [])
          (build_device_index-IsAcyclic rank cfg.devices [] acyclic tt) distinct (λ x h. refl)
          (commit_outcomes-IsGood rank outcomes _ (ensure_devices-IsGood rank index devices g))
          (tt, tt) in
      rw e (
        (b.0, sort_by (λ ev. ev.device_id) b.1),
        refl,
        g',
        (
          All-sort_by (λ ev. ev.device_id) IsExplained b.1 a.0,
          sort_by-IsDistinct (λ ev. ev.device_id) b.1 a.1,
        ),
        sort_by-IsSorted (λ ev. ev.device_id) b.1,
      )
