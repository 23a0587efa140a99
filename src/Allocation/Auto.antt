-- ===== src/Allocation/Auto.antt =====
-- `auto_allocate_batches`, `get_batches_by_warehouse` and `assign_priority_groups`. An allocation is
-- the batch, from whose columns the source fills the rest of its dict, and the quantity.
use dmis_feature_branch.Base.{
  ℕ, ◌-◌, suc, Bool, true, false, Option, none, some, List, [], ◌∷◌, ◌==◌, ltb, ◌&&◌, ◌||◌, ◌++◌,
  not, if◌then◌else◌, min,
}
use dmis_feature_branch.Base.Table.{first}
use dmis_feature_branch.Store.{ItemBatch}
use dmis_feature_branch.Allocation.Batches.{
  Catalogue, Item, fefo, lifo, fifo, available, get_available_batches,
  sort_batches_by_allocation_rule,
}

-- the loop over the sorted batches; `break` when nothing remains
unfoldable pub allocate : ℕ → List ItemBatch → List (ItemBatch × ℕ)
allocate remaining [] = []
allocate remaining (b ∷ bs) =
    let q = min (available b) remaining in
    let rest = allocate (remaining - q) bs in
    if remaining == 0 then [] else if ltb 0 q then (b, q) ∷ rest else rest

unfoldable pub auto_allocate_batches : ℕ → Catalogue → ℕ → ℕ → Option ℕ → List (ItemBatch × ℕ)
unfolding allocate
auto_allocate_batches today c item_id requested warehouse =
    elim (first (λ i. i.item_id == item_id) c.items) [
      | none ↦ []
      | some item ↦ allocate requested (
          sort_batches_by_allocation_rule today (get_available_batches c item_id warehouse none)
            item)
    ]

-- `warehouse_batches[wh_id].append(batch)`
unfoldable pub append_to : ItemBatch → List (ℕ × List ItemBatch) → List (ℕ × List ItemBatch)
append_to b [] = (b.inventory_id, b ∷ []) ∷ []
append_to b ((w, bs) ∷ d) =
    if w == b.inventory_id then (w, bs ++ b ∷ []) ∷ d else (w, bs) ∷ append_to b d

unfoldable pub group : List ItemBatch → List (ℕ × List ItemBatch) → List (ℕ × List ItemBatch)
unfolding append_to
group [] d = d
group (b ∷ bs) d = group bs (append_to b d)

unfoldable pub get_batches_by_warehouse : ℕ → Catalogue → ℕ → List (ℕ × List ItemBatch)
unfolding group
get_batches_by_warehouse today c item_id =
    let batches = get_available_batches c item_id none none in
    elim (first (λ i. i.item_id == item_id) c.items) [
      | none ↦ group batches []
      | some item ↦ group (sort_batches_by_allocation_rule today batches item) []
    ]

-- the priority key is `(expiry_date, batch_date)` for FEFO, and `(batch_date,)` for the rest
abbrev pub opt_eq : Option ℕ → Option ℕ → Bool
opt_eq none none = true
opt_eq none (some y) = false
opt_eq (some x) none = false
opt_eq (some x) (some y) = x == y

abbrev pub by_expiry : Item → Bool
by_expiry item = elim item.issuance_order [
  | fefo ↦ item.can_expire_flag
  | lifo ↦ false
  | fifo ↦ false
]

abbrev pub same_priority : Item → ItemBatch → ItemBatch → Bool
same_priority item a b =
    (not (by_expiry item) || opt_eq a.expiry_date b.expiry_date) && opt_eq a.batch_date b.batch_date

-- the loop after its first round: `prev` is the batch of `prev_key`
unfoldable pub assign_from : Item → ItemBatch → ℕ → List ItemBatch → List (ItemBatch × ℕ)
assign_from item prev id [] = []
assign_from item prev id (b ∷ bs) =
    let id' = if same_priority item b prev then id else suc id in
    (b, id') ∷ assign_from item b id' bs

unfoldable pub assign_priority_groups : List ItemBatch → Item → List (ItemBatch × ℕ)
unfolding assign_from
assign_priority_groups [] item = []
assign_priority_groups (b ∷ bs) item = (b, 0) ∷ assign_from item b 0 bs
