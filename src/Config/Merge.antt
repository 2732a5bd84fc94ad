-- ===== src/Config/Merge.antt =====
-- What the merge of inventories of services/snmp-collector/internal/config/config.go keeps of the
-- static devices.
use monitoring_project.Prelude.{
  ℕ, zero, suc, ◌≡◌, refl, ◌∙◌, ap, inl, inr, String, true, false, none, some, List, [], ◌∷◌, ◌++◌,
  map, ◌=s=◌, eq_iff, if◌then◌else◌, Map, lookup, insert, lookup-insert, elem, arith, Bool-cases,
}
use monitoring_project.Config.Types.{DeviceConfig}
use monitoring_project.Config.Inventory.{
  apply_device_overlay, index_static, overlay_at, merge_managed, merge_inventories,
}
use monitoring_project.Config.Devices.{ids_of}

append_one :
    {A : Type 0} (xs : List A) (y : A) (ys : List A) → (xs ++ (y ∷ [])) ++ ys ≡ xs ++ (y ∷ ys)
append_one [] y ys = refl
append_one (x ∷ xs) y ys = ap (λ t. x ∷ t) (append_one xs y ys)

module _ {F : Type 0} where
  -- What says which device is polled, and how.
  abbrev pub identity : DeviceConfig F → String × String × ℕ × String × String × String
  identity d = (d.id, d.host, d.port, d.community_env, d.version, d.vendor)

  -- The managed devices that no static device has the id of.
  abbrev pub unlisted : List (DeviceConfig F) → List (DeviceConfig F) → List (DeviceConfig F)
  unlisted static [] = []
  unlisted static (d ∷ ds) =
      if elem d.id (ids_of static) then unlisted static ds else d ∷ unlisted static ds

  identity-overlay_at :
      (n : ℕ) (o : DeviceConfig F) (ds : List (DeviceConfig F))
      → map identity (overlay_at n o ds) ≡ map identity ds
  unfolding overlay_at apply_device_overlay
  identity-overlay_at n o [] = refl
  identity-overlay_at zero o (d ∷ ds) = refl
  identity-overlay_at (suc n) o (d ∷ ds) = ap (λ t. identity d ∷ t) (identity-overlay_at n o ds)

  map-identity-append :
      (xs ys : List (DeviceConfig F)) → map identity (xs ++ ys) ≡ map identity xs ++ map identity ys
  map-identity-append [] ys = refl
  map-identity-append (x ∷ xs) ys = ap (λ t. identity x ∷ t) (map-identity-append xs ys)

  -- The index has the ids of the static devices.
  lookup-index_static :
      (n : ℕ) (m : Map ℕ) (static : List (DeviceConfig F)) (x : String)
      → (elem x (ids_of static) ≡ false
          → lookup x m ≡ none
          → lookup x (index_static n m static) ≡ none)
        × ((k : ℕ) → lookup x m ≡ some k → (j : ℕ) × (lookup x (index_static n m static) ≡ some j))
        × (elem x (ids_of static) ≡ true → (j : ℕ) × (lookup x (index_static n m static) ≡ some j))
  unfolding index_static ids_of elem
  lookup-index_static n m [] x = (λ h k. k, λ k h. (k, h), λ h. absurd (cc))
  lookup-index_static n m (d ∷ ds) x =
      let (a, b, c) = lookup-index_static (suc n) (insert d.id n m) ds x in
      (
        λ h k.
            a (ground arith)
              (ground (arith, lookup-insert d.id x n m, eq_iff d.id x, eq_iff x d.id)),
        λ k h. elim (Bool-cases (d.id =s= x)) [
          | inl e ↦ b n (lookup-insert d.id x n m ∙ rw e refl)
          | inr e ↦ b k (lookup-insert d.id x n m ∙ rw e h)
        ],
        λ h. elim (Bool-cases (x =s= d.id)) [
          | inl e ↦ b n (ground (arith, lookup-insert d.id x n m, eq_iff d.id x, eq_iff x d.id, e))
          | inr e ↦ c (ground arith)
        ],
      )

  identity-merge_managed :
      (static : List (DeviceConfig F)) (merged ds : List (DeviceConfig F))
      → map identity (merge_managed (index_static 0 [] static) merged ds)
        ≡ map identity merged ++ map identity (unlisted static ds)
  unfolding merge_managed lookup
  identity-merge_managed static merged [] = append_nil (map identity merged)
    where
      append_nil : {A : Type 0} (xs : List A) → xs ≡ xs ++ []
      append_nil [] = refl
      append_nil (x ∷ xs) = ap (λ t. x ∷ t) (append_nil xs)
  identity-merge_managed static merged (d ∷ ds) =
      let (absent, _, present) = lookup-index_static 0 [] static d.id in
      elim (Bool-cases (elem d.id (ids_of static))) [
        | inl e ↦
            let (n, f) = present e in
            rw (f, e, merge_managed)
              (identity-merge_managed static (overlay_at n d merged) ds
                ∙ ap (λ t. t ++ map identity (unlisted static ds)) (identity-overlay_at n d merged))
        | inr e ↦
            rw (absent e refl, e, merge_managed)
              (identity-merge_managed static (merged ++ (d ∷ [])) ds
                ∙ ap (λ t. t ++ map identity (unlisted static ds))
                    (map-identity-append merged (d ∷ []))
                ∙ append_one (map identity merged) (identity d) (map identity (unlisted static ds)))
      ]

  -- Whatever the managed inventory says, the merged inventory holds the static devices in their
  -- order with their own id, host, port, community variable, version and vendor, then the managed
  -- devices that no static device has the id of, in their order and with their own.
  pub merge_inventories-identity :
      (static managed : List (DeviceConfig F))
      → map identity (merge_inventories static managed)
        ≡ map identity static ++ map identity (unlisted static managed)
  unfolding merge_inventories
  merge_inventories-identity static managed = identity-merge_managed static static managed
