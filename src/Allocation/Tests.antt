-- ===== src/Allocation/Tests.antt =====
-- The theorems on allocation at concrete inputs, and a run.
use dmis_feature_branch.Base.{
  ◌-◌, ◌≡◌, ◌↔◌, refl, inl, inr, min, none, some, true, [], ◌∷◌, arith, In, any, total, ◌==◌,
}
use dmis_feature_branch.Base.Table.{first}
use dmis_feature_branch.Base.Sort.{lex, sorted}
use dmis_feature_branch.Store.{ItemBatch}
use dmis_feature_branch.Store.Samples.{rice, rice_stock}
use dmis_feature_branch.Allocation.Batches.{
  Item, Catalogue, fefo, available, get_available_batches, sort_batches_by_allocation_rule,
}
use dmis_feature_branch.Allocation.Auto.{auto_allocate_batches}
use dmis_feature_branch.Allocation.Greedy.{IsDrawable, eligible, auto_allocate_total}
use dmis_feature_branch.Allocation.Order.{IsIssuable, auto_allocate-IsSafe, auto_allocate_fefo}
use dmis_feature_branch.Allocation.Validate.{validate_batch_allocation}
use dmis_feature_branch.Allocation.Validate.Laws.{IsAllowed, validate_batch_allocation-IsAllowed}
use dmis_feature_branch.Allocation.Drawer.{get_limited_batches_for_drawer}
use dmis_feature_branch.Allocation.Drawer.Sums.{offer}
use dmis_feature_branch.Allocation.Drawer.Shown.{IsOnHand, get_limited_batches_for_drawer-Covers}

abbrev perishable : Item
perishable = record { item_id = 3; can_expire_flag = true; issuance_order = fefo }

-- a batch with 70 units free that expires on day 90
abbrev soon : ItemBatch
soon = record rice { expiry_date = some 90 }

-- and one with 40 units free that expires on day 95
abbrev later : ItemBatch
later = record rice { batch_id = 2; expiry_date = some 95; usable_qty = 40; reserved_qty = 0 }

abbrev shelves : Catalogue
shelves = record {
  items = perishable ∷ [];
  warehouses = record { warehouse_id = 7; status_code = b'A' } ∷ [];
  inventories = rice_stock ∷ [];
  batches = later ∷ soon ∷ [];
}

allocate_run : auto_allocate_batches 80 shelves 3 100 none ≡ (soon, 70) ∷ (later, 30) ∷ []
unfolding auto_allocate_batches first sort_batches_by_allocation_rule sorted get_available_batches
    lex
allocate_run = refl

auto_allocate_total_example :
    total (λ e. e.1) (auto_allocate_batches 80 shelves 3 100 none)
    ≡ min 100 (total available (eligible 80 shelves perishable 3 none))
unfolding first
auto_allocate_total_example = auto_allocate_total 80 shelves perishable 3 100 none refl

auto_allocate-IsSafe_example : IsIssuable 80 shelves perishable 3 later × IsDrawable (later, 30)
unfolding first auto_allocate_batches sort_batches_by_allocation_rule sorted get_available_batches
    lex
auto_allocate-IsSafe_example =
    auto_allocate-IsSafe 80 shelves perishable 3 100 none refl later 30 (inr (inl refl))

auto_allocate_fefo_example : In (soon, available soon) (auto_allocate_batches 80 shelves 3 100 none)
unfolding first auto_allocate_batches sort_batches_by_allocation_rule sorted get_available_batches
    lex
auto_allocate_fefo_example =
    auto_allocate_fefo 80 shelves perishable 3 100 none refl later soon 30 90 refl refl
      (inr (inl refl)) (inr (inl refl)) refl (inr (95, refl, omega arith))

validate_batch_allocation-IsAllowed_example :
    (validate_batch_allocation 80 shelves.batches 1 3 90 20 ≡ none) ↔ (
      (b : ItemBatch) × (first (λ x. x.batch_id == 1) shelves.batches ≡ some b)
      × IsAllowed 80 3 90 20 b)
validate_batch_allocation-IsAllowed_example =
    validate_batch_allocation-IsAllowed 80 shelves.batches 1 3 90 20

get_limited_batches_for_drawer-Covers_example :
    ((get_limited_batches_for_drawer 150 (1 ∷ []) (λ b. 0) 80 shelves 3 none).2
      ≡ 150 - total (offer 150 (1 ∷ []) (λ b. 0) 80 perishable shelves none) shelves.batches)
    × ((b : ItemBatch)
        → IsOnHand 80 shelves perishable b
        → any (λ i. i == b.batch_id) (1 ∷ []) ≡ true
        → In b (get_limited_batches_for_drawer 150 (1 ∷ []) (λ b. 0) 80 shelves 3 none).0)
unfolding first
get_limited_batches_for_drawer-Covers_example =
    get_limited_batches_for_drawer-Covers 150 (1 ∷ []) (λ b. 0) 80 shelves 3 none perishable refl
      (ground arith)
