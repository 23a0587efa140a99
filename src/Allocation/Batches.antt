-- ===== src/Allocation/Batches.antt =====
-- The query for available batches, and the FEFO, FIFO and LIFO orders.
use dmis_feature_branch.Base.{
  ℕ, ◌-◌, Bool, true, Option, none, some, List, [], ◌∷◌, ◌==◌, ltb, leb, ◌&&◌, ◌||◌, if◌then◌else◌,
  any, filter,
}
use dmis_feature_branch.Base.Sort.{Part, up, down, sorted}
use dmis_feature_branch.Store.{ItemBatch, Inventory}

-- the strings that item.issuance_order is compared with, and any other
pub data IssuanceOrder : Type 0 where
  fefo lifo fifo : IssuanceOrder

pub record Item : Type 0 where
  pub item_id : ℕ
  pub can_expire_flag : Bool
  pub issuance_order : IssuanceOrder

pub record Warehouse : Type 0 where
  pub warehouse_id : ℕ
  pub status_code : ℕ

-- The tables that the service reads.
pub record Catalogue : Type 0 where
  pub items : List Item
  pub warehouses : List Warehouse
  pub inventories : List Inventory
  pub batches : List ItemBatch

-- the joins with active inventory and active warehouse
abbrev pub is_stored : Catalogue → ItemBatch → Bool
is_stored c b =
    any
      (λ r.
        r.inventory_id == b.inventory_id
        && r.item_id == b.item_id
        && r.status_code == b'A'
        && any (λ w. w.warehouse_id == r.inventory_id && w.status_code == b'A') c.warehouses)
      c.inventories

-- `if warehouse_id: …`, where None and 0 ask for nothing
abbrev pub wants : Option ℕ → ℕ → Bool
wants none x = true
wants (some w) x = w == 0 || x == w

unfoldable pub get_available_batches : Catalogue → ℕ → Option ℕ → Option ℕ → List ItemBatch
get_available_batches c item warehouse uom =
    filter
      (λ b.
        b.item_id == item
        && b.status_code == b'A'
        && is_stored c b
        && ltb b.reserved_qty b.usable_qty
        && wants warehouse b.inventory_id
        && wants uom b.uom_code)
      c.batches

-- `safe_decimal(b.usable_qty) - safe_decimal(b.reserved_qty)`, where only a positive result matters
abbrev pub available : ItemBatch → ℕ
available b = b.usable_qty - b.reserved_qty

-- `not b.expiry_date or b.expiry_date >= today`
abbrev pub is_fresh : ℕ → ItemBatch → Bool
is_fresh today b = elim b.expiry_date [ none ↦ true | some d ↦ leb today d ]

-- the ordinals of `date.min` and `date.max`
abbrev pub date_min : ℕ
date_min = 1

abbrev pub date_max : ℕ
date_max = 3652059

abbrev pub or_else : Option ℕ → ℕ → ℕ
or_else none d = d
or_else (some x) d = x

-- `b.expiry_date is None`
abbrev pub none_last : Option ℕ → ℕ
none_last none = 1
none_last (some d) = 0

abbrev pub fefo_key : ItemBatch → List Part
fefo_key b =
    up (none_last b.expiry_date)
    ∷ up (or_else b.expiry_date date_max)
    ∷ up (or_else b.batch_date date_max)
    ∷ down (available b)
    ∷ []

abbrev pub lifo_key : ItemBatch → List Part
lifo_key b = down (or_else b.batch_date 0) ∷ down (available b) ∷ []

abbrev pub fifo_key : ItemBatch → List Part
fifo_key b = up (or_else b.batch_date date_min) ∷ down (available b) ∷ []

abbrev pub rule_key : Item → ItemBatch → List Part
rule_key item b = elim item.issuance_order [
  | fefo ↦ if item.can_expire_flag then fefo_key b else fifo_key b
  | lifo ↦ lifo_key b
  | fifo ↦ fifo_key b
]

-- Batches that have expired are dropped for items that can expire.
abbrev pub unexpired : ℕ → Item → List ItemBatch → List ItemBatch
unexpired today item bs = if item.can_expire_flag then filter (is_fresh today) bs else bs

unfoldable pub sort_batches_by_allocation_rule : ℕ → List ItemBatch → Item → List ItemBatch
sort_batches_by_allocation_rule today bs item =
    sorted (rule_key item) (filter (λ b. ltb 0 (available b)) (unexpired today item bs))

abbrev pub drawer_fefo_key : ItemBatch → List Part
drawer_fefo_key b =
    up (none_last b.expiry_date)
    ∷ up (or_else b.expiry_date date_max)
    ∷ up (or_else b.batch_date date_max)
    ∷ []

abbrev pub drawer_fifo_key : ItemBatch → List Part
drawer_fifo_key b = up (or_else b.batch_date date_min) ∷ []

abbrev pub drawer_key : Item → ItemBatch → List Part
drawer_key item b = if item.can_expire_flag then drawer_fefo_key b else drawer_fifo_key b

-- A batch that is already allocated stays in the drawer when nothing of it is available.
unfoldable pub sort_batches_for_drawer : ℕ → List ItemBatch → Item → List ℕ → List ItemBatch
sort_batches_for_drawer today bs item allocated_ids = sorted (drawer_key item) (
    filter (λ b. ltb 0 (available b) || any (λ i. i == b.batch_id) allocated_ids)
      (unexpired today item bs))
