-- ===== src/Allocation/Drawer/Shown.antt =====
-- What the drawer shows of the batches on file.
use dmis_feature_branch.Base.{
  ℕ, ◌≡◌, refl, sym, ap, ◌∙◌, ◌-◌, subst, inl, inr, Bool, true, Option, none, some, total, List, [],
  ◌∷◌, ◌==◌, ltb, ◌||◌, not, any, filter, In, In-filter, Bool-cases, arith,
}
use dmis_feature_branch.Base.Table.{first}
use dmis_feature_branch.Base.Sort.{sorted-In}
use dmis_feature_branch.Store.{ItemBatch}
use dmis_feature_branch.Allocation.Batches.{
  Item, Catalogue, is_stored, is_fresh, unexpired, drawer_key, get_available_batches,
  sort_batches_for_drawer,
}
use dmis_feature_branch.Allocation.Drawer.{
  Group, get_allocated_batches, drawer_batches, is_allocated, sort_groups, drawer_groups,
  limit_groups, get_limited_batches_for_drawer,
}
use dmis_feature_branch.Allocation.Drawer.Laws.{
  all_of, limit_groups_allocated, get_limited_batches_for_drawer_shortfall,
}
use dmis_feature_branch.Allocation.Drawer.Sums.{offer, total-drawer_groups}
use dmis_feature_branch.Allocation.Drawer.Held.{
  IsKeyed, same_batch, any-In, In-append_left, In-append_right, IsGrouped, group_batches-IsGrouped,
}

-- An active batch of the item, in an active warehouse; of an item that can expire, one that has not.
abbrev pub IsOnHand : ℕ → Catalogue → Item → ItemBatch → Type 0
IsOnHand today c item b =
    In b c.batches
    × (b.item_id ≡ item.item_id)
    × (b.status_code ≡ b'A')
    × (is_stored c b ≡ true)
    × (item.can_expire_flag ≡ true → is_fresh today b ≡ true)

unexpired-In :
    (today : ℕ) (item : Item) (bs : List ItemBatch) (b : ItemBatch)
    → In b bs
    → (item.can_expire_flag ≡ true → is_fresh today b ≡ true)
    → In b (unexpired today item bs)
unexpired-In today item bs b m fresh = elim (Bool-cases item.can_expire_flag) [
  | inl t ↦ rw t ((In-filter (is_fresh today) bs b).1 (m, fresh t))
  | inr t ↦ rw t m
]

module _ (remaining : ℕ) (ids : List ℕ) (current : ℕ → ℕ) where
  drawer_batches-In :
      (today : ℕ) (c : Catalogue) (item : Item) (uom : Option ℕ) (b : ItemBatch)
      → IsKeyed c.batches
      → IsOnHand today c item b
      → is_allocated remaining ids current b ≡ true
      → In b (drawer_batches c item.item_id uom ids)
  unfolding get_available_batches
  drawer_batches-In today c item uom b keyed (m, own, active, stored, fresh) allocated =
      let found = get_available_batches c item.item_id none uom in
      let is_new : ItemBatch → Bool = λ x. not (any (λ y. y.batch_id == x.batch_id) found) in
      let held = get_allocated_batches c item.item_id ids in
      elim (Bool-cases (any (λ y. y.batch_id == b.batch_id) found)) [
        | inl t ↦
            let (x, k, same) = any-In (λ y. y.batch_id == b.batch_id) found t in
            let file = ((In-filter _ c.batches x).0 k).0 in
            let equal : x ≡ b = same_batch c.batches x b keyed file m (ground arith) in
            In-append_left b found (filter is_new held) (subst (λ y. In y found) equal k)
        | inr t ↦
            let member : In b held = (In-filter _ c.batches b).1 (m, ground arith) in
            In-append_right b found (filter is_new held)
              ((In-filter is_new held b).1 (member, rw t refl))
      ]

  sort_groups-In :
      (today : ℕ) (item : Item) (gs : List Group) (b : ItemBatch)
      → is_allocated remaining ids current b ≡ true
      → (item.can_expire_flag ≡ true → is_fresh today b ≡ true)
      → IsGrouped remaining ids current b gs
      → In b (all_of (sort_groups remaining ids current today item gs))
  unfolding sort_groups all_of sort_batches_for_drawer
  sort_groups-In today item [] b allocated fresh (g, m, held, marked) = absurd m
  sort_groups-In today item (x ∷ gs) b allocated fresh (g, inl e, held, marked) =
      let own : x.has_allocated_batches ≡ true =
        subst (λ y. y.has_allocated_batches ≡ true) (sym e) marked in
      let mine : In b x.batches = subst (λ y. In b y.batches) (sym e) held in
      let kept = unexpired-In today item x.batches b mine fresh in
      let shown : (ltb 0 x.total_available || x.has_allocated_batches) ≡ true = ground arith in
      rw shown (
        In-append_left b (sort_batches_for_drawer today x.batches item ids) _ (
          (sorted-In (drawer_key item) _ b).1
            ((In-filter _ (unexpired today item x.batches) b).1 (kept, ground arith))))
  sort_groups-In today item (x ∷ gs) b allocated fresh (g, inr m, held, marked) =
      let rest = sort_groups-In today item gs b allocated fresh (g, m, held, marked) in
      elim (Bool-cases (ltb 0 x.total_available || x.has_allocated_batches)) [
        | inl t ↦ rw t (In-append_right b (sort_batches_for_drawer today x.batches item ids) _ rest)
        | inr t ↦ rw t rest
      ]

  -- A batch that the package holds is shown, if it is on hand.
  pub shown_batch :
      (today : ℕ) (c : Catalogue) (item : Item) (uom : Option ℕ) (b : ItemBatch)
      → IsKeyed c.batches
      → IsOnHand today c item b
      → is_allocated remaining ids current b ≡ true
      → In b (
          limit_groups remaining ids current (drawer_groups remaining ids current today c item uom))
  unfolding drawer_groups
  shown_batch today c item uom b keyed hand allocated =
      let bs = drawer_batches c item.item_id uom ids in
      let gs = drawer_groups remaining ids current today c item uom in
      let p = is_allocated remaining ids current in
      let grouped =
        group_batches-IsGrouped remaining ids current b bs [] allocated
          (inl (drawer_batches-In today c item uom b keyed hand allocated)) in
      let present : In b (all_of gs) = sort_groups-In today item _ b allocated hand.4 grouped in
      ((In-filter p (limit_groups remaining ids current gs) b).0 (
        subst (In b) (sym (limit_groups_allocated remaining ids current gs))
          ((In-filter p (all_of gs) b).1 (present, allocated)))).0

  -- For an item that exists, where batch_id is a key: the shortfall is what remains beyond all the
  -- batches on file that can be offered, though not all of them are shown: active ones of the item in
  -- an active warehouse that have not expired, if it can, with stock free in the unit that is asked for
  -- or already held by the package. And each active batch of the item in an active warehouse that the
  -- package holds and that has not expired, if it can, is shown.
  pub get_limited_batches_for_drawer-Covers :
      (today : ℕ) (c : Catalogue) (item_id : ℕ) (uom : Option ℕ) (item : Item)
      → first (λ i. i.item_id == item_id) c.items ≡ some item
      → IsKeyed c.batches
      → ((get_limited_batches_for_drawer remaining ids current today c item_id uom).2
          ≡ remaining - total (offer remaining ids current today item c uom) c.batches)
        × ((b : ItemBatch)
            → IsOnHand today c item b
            → any (λ i. i == b.batch_id) ids ≡ true
            → In b (get_limited_batches_for_drawer remaining ids current today c item_id uom).0)
  unfolding get_limited_batches_for_drawer
  get_limited_batches_for_drawer-Covers today c item_id uom item e keyed = (
    get_limited_batches_for_drawer_shortfall remaining ids current today c item_id uom item e
        ∙ ap (λ n. remaining - n)
            (total-drawer_groups remaining ids current today item c uom keyed),
    λ b hand allocated.
        rw (e, get_limited_batches_for_drawer)
          (shown_batch today c item uom b keyed hand allocated),
  )
