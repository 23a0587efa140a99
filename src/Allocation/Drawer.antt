-- ===== src/Allocation/Drawer.antt =====
-- `get_limited_batches_for_drawer`: the batches that the drawer of an item shows, per warehouse, and
-- what is missing of the quantity that remains to be filled. `current` is `current_allocations`,
-- what the package under edit holds of a batch. c_itembatch_2b keeps reserved_qty at or below
-- usable_qty, so no difference here is negative.
pub mod Laws
pub mod Held
pub mod Shown
pub mod Sums
use dmis_feature_branch.Base.{
  ℕ, ◌+◌, ◌-◌, Bool, true, false, Option, none, some, List, [], ◌∷◌, ◌++◌, ◌==◌, ltb, leb, ◌&&◌,
  ◌||◌, not, if◌then◌else◌, any, filter, is_some, total,
}
use dmis_feature_branch.Base.Table.{first, modify}
use dmis_feature_branch.Store.{ItemBatch}
use dmis_feature_branch.Allocation.Batches.{
  Item, Catalogue, is_stored, get_available_batches, sort_batches_for_drawer,
}

-- an entry of `warehouse_groups`
pub record Group : Type 0 where
  pub warehouse_id : ℕ
  pub batches : List ItemBatch
  pub total_available : ℕ
  pub has_allocated_batches : Bool

abbrev pub empty_group : ℕ → Group
empty_group w = record {
  warehouse_id = w;
  batches = [];
  total_available = 0;
  has_allocated_batches = false;
}

abbrev pub is_group : ℕ → Group → Bool
is_group w g = g.warehouse_id == w

-- `if warehouse_id not in warehouse_groups: …`
abbrev pub ensure_group : ℕ → List Group → List Group
ensure_group w gs = if any (is_group w) gs then gs else gs ++ (empty_group w ∷ [])

-- The batches that are allocated, whatever they have left.
abbrev pub get_allocated_batches : Catalogue → ℕ → List ℕ → List ItemBatch
get_allocated_batches c item ids =
    filter
      (λ b.
        any (λ i. i == b.batch_id) ids
        && b.item_id == item
        && b.status_code == b'A'
        && is_stored c b)
      c.batches

-- `all_batches`
abbrev pub drawer_batches : Catalogue → ℕ → Option ℕ → List ℕ → List ItemBatch
drawer_batches c item uom ids =
    let found = get_available_batches c item none uom in
    found
    ++ filter (λ b. not (any (λ x. x.batch_id == b.batch_id) found))
        (get_allocated_batches c item ids)

module _ (remaining : ℕ) (ids : List ℕ) (current : ℕ → ℕ) where
  abbrev pub is_allocated : ItemBatch → Bool
  is_allocated b = any (λ i. i == b.batch_id) ids

  -- `usable_qty - (reserved_qty - released_qty)`
  abbrev pub calc_available_qty : ItemBatch → ℕ
  calc_available_qty b = b.usable_qty + current b.batch_id - b.reserved_qty

  unfoldable pub put_batch : ItemBatch → Group → Group
  put_batch b g = record g {
    batches = g.batches ++ (b ∷ []);
    total_available = g.total_available + calc_available_qty b;
    has_allocated_batches = g.has_allocated_batches || is_allocated b;
  }

  unfoldable pub group_batches : List ItemBatch → List Group → List Group
  unfolding put_batch
  group_batches [] gs = gs
  group_batches (b ∷ bs) gs =
      let gs' = ensure_group b.inventory_id gs in
      group_batches bs (
        if leb (calc_available_qty b) 0 && not (is_allocated b)
        then gs'
        else modify (is_group b.inventory_id) (put_batch b) gs')

  -- One warehouse's loop: `cumulative` and `fulfilled` are its two variables.
  unfoldable pub limit_group : ℕ → Bool → List ItemBatch → List ItemBatch
  limit_group cumulative fulfilled [] = []
  limit_group cumulative fulfilled (b ∷ bs) =
      let keep = is_allocated b || not fulfilled in
      let cumulative' = if keep then cumulative + calc_available_qty b else cumulative in
      let rest = limit_group cumulative' (fulfilled || (keep && leb remaining cumulative')) bs in
      if keep then b ∷ rest else rest

  unfoldable pub limit_groups : List Group → List ItemBatch
  unfolding limit_group
  limit_groups [] = []
  limit_groups (g ∷ gs) = limit_group 0 false g.batches ++ limit_groups gs

  -- The groups that are shown, each in the drawer's order.
  unfoldable pub sort_groups : ℕ → Item → List Group → List Group
  sort_groups today item [] = []
  sort_groups today item (g ∷ gs) =
      let rest = sort_groups today item gs in
      if ltb 0 g.total_available || g.has_allocated_batches
      then record g { batches = sort_batches_for_drawer today g.batches item ids } ∷ rest
      else rest

  unfoldable pub drawer_groups : ℕ → Catalogue → Item → Option ℕ → List Group
  unfolding group_batches sort_groups
  drawer_groups today c item uom =
      sort_groups today item (group_batches (drawer_batches c item.item_id uom ids) [])

  -- the batches, what they make available, and the shortfall
  unfoldable pub get_limited_batches_for_drawer :
      ℕ → Catalogue → ℕ → Option ℕ → List ItemBatch × ℕ × ℕ
  unfolding limit_groups drawer_groups
  get_limited_batches_for_drawer today c item_id uom =
      elim (first (λ i. i.item_id == item_id) c.items) [
        | none ↦ ([], 0, remaining)
        | some item ↦
            let shown = limit_groups (drawer_groups today c item uom) in
            (shown, total calc_available_qty shown, remaining - total calc_available_qty shown)
      ]
