-- ===== src/Allocation/Drawer/Sums.antt =====
-- The quantity that the drawer has to offer, as a sum over the batches on file.
use dmis_feature_branch.Base.{
  ℕ, ◌+◌, ◌≤◌, ◌≡◌, refl, sym, subst, ◌∙◌, inl, inr, Bool, true, Option, none, List, [], ◌∷◌, ◌==◌,
  ltb, leb, ◌&&◌, ◌||◌, not, if◌then◌else◌, any, filter, total, total-append, All, All-append, In,
  In-filter, Bool-cases, true_and_false, arith,
}
use dmis_feature_branch.Base.Table.{modify, All-modify}
use dmis_feature_branch.Base.Sort.{sorted-total}
use dmis_feature_branch.Store.{ItemBatch}
use dmis_feature_branch.Allocation.Batches.{
  Item, Catalogue, is_stored, is_fresh, available, unexpired, drawer_key, wants,
  get_available_batches, sort_batches_for_drawer,
}
use dmis_feature_branch.Allocation.Drawer.{
  Group, is_group, empty_group, ensure_group, get_allocated_batches, drawer_batches, is_allocated,
  calc_available_qty, put_batch, group_batches, sort_groups, drawer_groups,
}
use dmis_feature_branch.Allocation.Drawer.Laws.{all_of}
use dmis_feature_branch.Allocation.Drawer.Held.{IsKeyed, same_batch, any-In, any-ensure_group}

total-filter :
    {A : Type 0} (w : A → ℕ) (p : A → Bool) (xs : List A)
    → total w (filter p xs) ≡ total (λ x. if p x then w x else 0) xs
total-filter w p [] = refl
total-filter w p (x ∷ xs) = ground (arith, total-filter w p xs)

-- Two sums that add up to a third at each member.
total_add :
    {A : Type 0} (u v w : A → ℕ) (xs : List A)
    → ((x : A) → In x xs → u x + v x ≡ w x)
    → total u xs + total v xs ≡ total w xs
total_add u v w [] h = omega arith
total_add u v w (x ∷ xs) h = omega (arith, h x (inl refl), total_add u v w xs (λ y m. h y (inr m)))

total_le :
    {A : Type 0} (v w : A → ℕ) (xs : List A) → ((x : A) → v x ≤ w x) → total v xs ≤ total w xs
total_le v w [] h = omega arith
total_le v w (x ∷ xs) h = omega (arith, h x, total_le v w xs h)

In-any :
    (x : ItemBatch) (xs : List ItemBatch) → In x xs → any (λ y. y.batch_id == x.batch_id) xs ≡ true
In-any x [] m = absurd m
In-any x (y ∷ xs) (inl e) =
    let same : (y.batch_id == x.batch_id) ≡ true =
      subst (λ z. (y.batch_id == z.batch_id) ≡ true) e (ground arith) in
    rw same refl
In-any x (y ∷ xs) (inr m) = let rest = In-any x xs m in ground arith

module _ (remaining : ℕ) (ids : List ℕ) (current : ℕ → ℕ) (today : ℕ) (item : Item) where
  abbrev calc : ItemBatch → ℕ
  calc = calc_available_qty remaining ids current

  abbrev allocated : ItemBatch → Bool
  allocated = is_allocated remaining ids current

  -- Not of an item that can expire, or not expired.
  abbrev pub is_usable : ItemBatch → Bool
  is_usable b = not item.can_expire_flag || is_fresh today b

  -- what a batch of a group counts for when the group is sorted
  abbrev weight : ItemBatch → ℕ
  weight b = if is_usable b && (ltb 0 (available b) || allocated b) then calc b else 0

  abbrev weight_of : Group → ℕ
  weight_of g = total weight g.batches

  abbrev IsCounted : Group → Type 0
  IsCounted g = g.total_available ≡ total calc g.batches

  kept_total :
      (bs : List ItemBatch)
      → total calc (filter (λ b. ltb 0 (available b) || allocated b) (unexpired today item bs))
        ≡ total weight bs
  kept_total [] = elim (Bool-cases item.can_expire_flag) [ inl t ↦ rw t refl | inr t ↦ rw t refl ]
  kept_total (b ∷ bs) = elim (Bool-cases item.can_expire_flag) [
    | inl t ↦ let rest = kept_total bs in ground arith
    | inr t ↦ let rest = kept_total bs in ground arith
  ]

  sort_batches_total :
      (bs : List ItemBatch)
      → total calc (sort_batches_for_drawer today bs item ids) ≡ total weight bs
  unfolding sort_batches_for_drawer
  sort_batches_total bs = sorted-total (drawer_key item) calc _ ∙ kept_total bs

  total-sort_groups :
      (gs : List Group)
      → All IsCounted gs
      → total calc (all_of (sort_groups remaining ids current today item gs)) ≡ total weight_of gs
  unfolding sort_groups all_of
  total-sort_groups [] h = refl
  total-sort_groups (g ∷ gs) (own, h) =
      let rest = total-sort_groups gs h in
      elim (Bool-cases (ltb 0 g.total_available || g.has_allocated_batches)) [
        | inl t ↦ rw t (
            omega (
              arith,
              total-append calc (sort_batches_for_drawer today g.batches item ids)
                  (all_of (sort_groups remaining ids current today item gs)),
              sort_batches_total g.batches,
              rest,
            ))
        | inr t ↦
            let least : weight_of g ≤ total calc g.batches =
              total_le weight calc g.batches (λ b. ground arith) in
            let nothing : g.total_available ≡ 0 = ground arith in
            rw t (omega (arith, own, rest, least, nothing))
      ]

  ensure_group-IsCounted :
      (w : ℕ) (gs : List Group) → All IsCounted gs → All IsCounted (ensure_group w gs)
  ensure_group-IsCounted w gs h = elim (Bool-cases (any (is_group w) gs)) [
    | inl t ↦ rw t h
    | inr t ↦ rw t (All-append IsCounted gs (empty_group w ∷ []) h (refl, tt))
  ]

  total-ensure_group :
      (w : ℕ) (gs : List Group) → total weight_of (ensure_group w gs) ≡ total weight_of gs
  total-ensure_group w gs = elim (Bool-cases (any (is_group w) gs)) [
    | inl t ↦ rw t refl
    | inr t ↦ rw t (omega (arith, total-append weight_of gs (empty_group w ∷ [])))
  ]

  put-IsCounted :
      (b : ItemBatch) (g : Group) → IsCounted g → IsCounted (put_batch remaining ids current b g)
  unfolding put_batch
  put-IsCounted b g h = omega (arith, h, total-append calc g.batches (b ∷ []))

  put_total :
      (b : ItemBatch) (gs : List Group)
      → any (is_group b.inventory_id) gs ≡ true
      → total weight_of (modify (is_group b.inventory_id) (put_batch remaining ids current b) gs)
        ≡ total weight_of gs + weight b
  unfolding modify put_batch
  put_total b [] h = cc
  put_total b (g ∷ gs) h = elim (Bool-cases (is_group b.inventory_id g)) [
    | inl t ↦ rw t (omega (arith, total-append weight g.batches (b ∷ [])))
    | inr t ↦ rw t (omega (arith, put_total b gs (ground arith)))
  ]

  total-group_batches :
      (bs : List ItemBatch) (gs : List Group)
      → All IsCounted gs
      → All IsCounted (group_batches remaining ids current bs gs)
        × (total weight_of (group_batches remaining ids current bs gs)
            ≡ total weight_of gs + total weight bs)
  unfolding group_batches
  total-group_batches [] gs h = (h, omega arith)
  total-group_batches (b ∷ bs) gs h =
      let gs' = ensure_group b.inventory_id gs in
      let f = put_batch remaining ids current b in
      let counted : All IsCounted gs' = ensure_group-IsCounted b.inventory_id gs h in
      let same = total-ensure_group b.inventory_id gs in
      elim (Bool-cases (leb (calc b) 0 && not (allocated b))) [
        | inl t ↦
            let (all_counted, sum) = total-group_batches bs gs' counted in
            let nothing : weight b ≡ 0 = ground arith in
            rw t (all_counted, omega (arith, sum, same, nothing))
        | inr t ↦
            let put : All IsCounted (modify (is_group b.inventory_id) f gs') =
              All-modify IsCounted (is_group b.inventory_id) f gs' (λ g e k. put-IsCounted b g k)
                counted in
            let (all_counted, sum) =
              total-group_batches bs (modify (is_group b.inventory_id) f gs') put in
            let one = put_total b gs' (any-ensure_group b.inventory_id gs) in
            rw t (all_counted, omega (arith, sum, same, one))
      ]

  -- The batch can be offered in the drawer: an active batch of the item in an active warehouse, of the
  -- unit that is asked for with stock free, or one that the package holds, and usable.
  abbrev pub is_on_offer : Catalogue → Option ℕ → ItemBatch → Bool
  is_on_offer c uom b =
      (b.item_id == item.item_id && b.status_code == b'A' && is_stored c b)
      && ((ltb b.reserved_qty b.usable_qty && wants uom b.uom_code) || allocated b)
      && is_usable b

  -- what is on offer of a batch
  abbrev pub offer : Catalogue → Option ℕ → ItemBatch → ℕ
  offer c uom b = if is_on_offer c uom b then calc b else 0

  total-drawer_batches :
      (c : Catalogue) (uom : Option ℕ)
      → IsKeyed c.batches
      → total weight (drawer_batches c item.item_id uom ids) ≡ total (offer c uom) c.batches
  unfolding get_available_batches
  total-drawer_batches c uom keyed =
      let found = get_available_batches c item.item_id none uom in
      let held = get_allocated_batches c item.item_id ids in
      let is_new : ItemBatch → Bool = λ x. not (any (λ y. y.batch_id == x.batch_id) found) in
      omega (
        arith,
        total-append weight found (filter is_new held),
        total-filter weight is_found c.batches,
        total-filter weight is_new held,
        total-filter (λ x. if is_new x then weight x else 0) is_held c.batches,
        total_add (λ x. if is_found x then weight x else 0)
            (λ x. if is_held x then (if is_new x then weight x else 0) else 0) (offer c uom)
            c.batches (λ x m. each x m),
      )
    where
      is_found : ItemBatch → Bool
      is_found b =
          b.item_id == item.item_id
          && b.status_code == b'A'
          && is_stored c b
          && ltb b.reserved_qty b.usable_qty
          && wants none b.inventory_id
          && wants uom b.uom_code

      is_held : ItemBatch → Bool
      is_held b =
          any (λ i. i == b.batch_id) ids
          && b.item_id == item.item_id
          && b.status_code == b'A'
          && is_stored c b

      -- Whether a batch on file has been found can be told by its number.
      by_number :
          (x : ItemBatch)
          → In x c.batches
          → any (λ y. y.batch_id == x.batch_id) (filter is_found c.batches) ≡ is_found x
      by_number x m = elim (Bool-cases (is_found x)) [
        | inl t ↦ In-any x _ ((In-filter is_found c.batches x).1 (m, t)) ∙ sym t
        | inr t ↦
            elim (Bool-cases (any (λ y. y.batch_id == x.batch_id) (filter is_found c.batches))) [
              | inr u ↦ u ∙ sym t
              | inl u ↦
                  let (y, k, same) = any-In (λ y. y.batch_id == x.batch_id) _ u in
                  let (file, y_found) = (In-filter is_found c.batches y).0 k in
                  let equal : y ≡ x = same_batch c.batches y x keyed file m (ground arith) in
                  absurd
                    (true_and_false (is_found x) (subst (λ z. is_found z ≡ true) equal y_found) t)
            ]
      ]

      each :
          (x : ItemBatch)
          → In x c.batches
          → (if is_found x then weight x else 0)
              + (if is_held x
                  then (if not (any (λ y. y.batch_id == x.batch_id) (filter is_found c.batches))
                      then weight x
                      else 0)
                  else 0)
            ≡ offer c uom x
      each x m = rw (by_number x m) (elim (Bool-cases (is_found x)) [
        | inl t ↦ rw t (ground arith)
        | inr t ↦ rw t (ground arith)
      ])

  -- What all the groups hold adds up to what is on offer.
  pub total-drawer_groups :
      (c : Catalogue) (uom : Option ℕ)
      → IsKeyed c.batches
      → total calc (all_of (drawer_groups remaining ids current today c item uom))
        ≡ total (offer c uom) c.batches
  unfolding drawer_groups
  total-drawer_groups c uom keyed =
      let (counted, sum) = total-group_batches (drawer_batches c item.item_id uom ids) [] tt in
      let groups = group_batches remaining ids current (drawer_batches c item.item_id uom ids) [] in
      omega (arith, total-sort_groups groups counted, sum, total-drawer_batches c uom keyed)
