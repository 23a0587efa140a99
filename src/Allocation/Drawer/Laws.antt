-- ===== src/Allocation/Drawer/Laws.antt =====
-- What `get_limited_batches_for_drawer` keeps although it stops early in each warehouse.
use dmis_feature_branch.Base.{
  ℕ, ◌+◌, ◌-◌, ◌≤◌, ◌≡◌, refl, Bool, true, false, Option, some, List, [], ◌∷◌, ◌++◌, ◌==◌, leb,
  ◌&&◌, ◌||◌, not, if◌then◌else◌, filter, total, arith, ◌⊎◌, inl, inr, Bool-cases, total-append,
}
use dmis_feature_branch.Base.Table.{first}
use dmis_feature_branch.Store.{ItemBatch}
use dmis_feature_branch.Allocation.Batches.{Item, Catalogue}
use dmis_feature_branch.Allocation.Drawer.{
  Group, is_allocated, calc_available_qty, limit_group, limit_groups, drawer_groups,
  get_limited_batches_for_drawer,
}

-- the batches of all groups, without any limit
unfoldable pub all_of : List Group → List ItemBatch
all_of [] = []
all_of (g ∷ gs) = g.batches ++ all_of gs

module _ (remaining : ℕ) (ids : List ℕ) (current : ℕ → ℕ) where
  abbrev have : List ItemBatch → ℕ
  have = total (calc_available_qty remaining ids current)

  abbrev limited : ℕ → Bool → List ItemBatch → List ItemBatch
  limited = limit_group remaining ids current

  have-limit_group :
      (cum : ℕ) (done : Bool) (bs : List ItemBatch) → have (limited cum done bs) ≤ have bs
  unfolding limit_group
  have-limit_group cum done [] = omega arith
  have-limit_group cum done (b ∷ bs) =
      let keep = is_allocated remaining ids current b || not done in
      let cum' = if keep then cum + calc_available_qty remaining ids current b else cum in
      ground (arith, have-limit_group cum' (done || (keep && leb remaining cum')) bs)

  -- A warehouse is stopped early only when what it shows is enough.
  limit_group_covers :
      (cum : ℕ) (done : Bool) (bs : List ItemBatch)
      → (done ≡ true → remaining ≤ cum)
      → (remaining ≤ cum + have (limited cum done bs)) ⊎ (limited cum done bs ≡ bs)
  unfolding limit_group
  limit_group_covers cum done [] h = inr refl
  limit_group_covers cum done (b ∷ bs) h =
      let keep = is_allocated remaining ids current b || not done in
      let cum' = if keep then cum + calc_available_qty remaining ids current b else cum in
      let done' = done || (keep && leb remaining cum') in
      elim (limit_group_covers cum' done' bs (ground arith)) [
        | inl r ↦ inl (ground (arith, h))
        | inr e ↦ elim (Bool-cases done) [
          | inl t ↦ inl (ground (arith, h))
          | inr t ↦ inr (ground arith)
        ]
      ]

  limit_groups_covers :
      (gs : List Group)
      → ((remaining ≤ have (limit_groups remaining ids current gs))
          × (remaining ≤ have (all_of gs)))
        ⊎ (limit_groups remaining ids current gs ≡ all_of gs)
  unfolding limit_groups all_of
  limit_groups_covers [] = inr refl
  limit_groups_covers (g ∷ gs) =
      let one = limited 0 false g.batches in
      let rest = limit_groups remaining ids current gs in
      let w = calc_available_qty remaining ids current in
      elim (limit_group_covers 0 false g.batches (λ e. ground arith)) [
        | inl h ↦ inl (
          ground (arith, total-append w one rest),
          ground (arith, total-append w g.batches (all_of gs), have-limit_group 0 false g.batches),
        )
        | inr e ↦ elim (limit_groups_covers gs) [
          | inl h ↦ inl (
            ground (arith, total-append w one rest),
            ground (arith, total-append w g.batches (all_of gs)),
          )
          | inr e' ↦ inr (ground arith)
        ]
      ]

  -- Stopping early in each warehouse does not change the shortfall of an item that exists: it is what
  -- remains beyond all the batches of the warehouses that have stock, shown or not.
  pub get_limited_batches_for_drawer_shortfall :
      (today : ℕ) (c : Catalogue) (item_id : ℕ) (uom : Option ℕ) (item : Item)
      → first (λ i. i.item_id == item_id) c.items ≡ some item
      → (get_limited_batches_for_drawer remaining ids current today c item_id uom).2
        ≡ remaining
          - total
              (calc_available_qty remaining ids current)
              (all_of (drawer_groups remaining ids current today c item uom))
  unfolding get_limited_batches_for_drawer
  get_limited_batches_for_drawer_shortfall today c item_id uom item e =
      let gs = drawer_groups remaining ids current today c item uom in
      rw (e, get_limited_batches_for_drawer)
        (elim (limit_groups_covers gs) [ inl h ↦ omega arith | inr same ↦ rw same refl ])

  -- In each warehouse's loop, the batches that the package already holds are all kept.
  limit_group_allocated :
      (cum : ℕ) (done : Bool) (bs : List ItemBatch)
      → filter (is_allocated remaining ids current) (limited cum done bs)
        ≡ filter (is_allocated remaining ids current) bs
  unfolding limit_group
  limit_group_allocated cum done [] = refl
  limit_group_allocated cum done (b ∷ bs) =
      let keep = is_allocated remaining ids current b || not done in
      let cum' = if keep then cum + calc_available_qty remaining ids current b else cum in
      ground (arith, limit_group_allocated cum' (done || (keep && leb remaining cum')) bs)

  filter-append :
      (p : ItemBatch → Bool) (xs ys : List ItemBatch)
      → filter p (xs ++ ys) ≡ filter p xs ++ filter p ys
  filter-append p [] ys = refl
  filter-append p (x ∷ xs) ys = ground (arith, filter-append p xs ys)

  pub limit_groups_allocated :
      (gs : List Group)
      → filter (is_allocated remaining ids current) (limit_groups remaining ids current gs)
        ≡ filter (is_allocated remaining ids current) (all_of gs)
  unfolding limit_groups all_of
  limit_groups_allocated [] = refl
  limit_groups_allocated (g ∷ gs) =
      let p = is_allocated remaining ids current in
      ground (
        arith,
        filter-append p (limited 0 false g.batches) (limit_groups remaining ids current gs),
        filter-append p g.batches (all_of gs),
        limit_group_allocated 0 false g.batches,
        limit_groups_allocated gs,
      )
