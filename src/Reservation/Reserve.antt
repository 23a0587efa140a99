-- ===== src/Reservation/Reserve.antt =====
-- `reserve_inventory`: brings the reservations of a package from its old allocations to its new
-- ones, batch by batch, then recomputes the warehouse level from the batches.
use dmis_feature_branch.Base.{
  ℕ, ◌+◌, ◌-◌, Option, none, some, List, [], ⊤, ltb, ◌==◌, if◌then◌else◌,
}
use dmis_feature_branch.Base.Dict.{Dict, keys, get_or_zero}
use dmis_feature_branch.Base.Table.{first, modify}
use dmis_feature_branch.Base.Action.{◌>>=◌, ◌>>◌, pure, raise, gets, for_each}
use dmis_feature_branch.Store.{Db, ItemBatch, Inventory, BatchKey, StockKey, key_eq}
use dmis_feature_branch.Store.Query.{is_batch, is_active_stock, reserved_total, set_reserved}
use dmis_feature_branch.Reservation.Maps.{
  Service, Allocation, batch_not_found, cannot_reserve, no_active_inventory, exceeds_inventory,
  get_current_batch_reservations, allocations_map, affected, key_union,
}

-- `batch.reserved_qty = q`
unfoldable pub write_reserved : BatchKey → ℕ → Service ⊤
unfolding set_reserved
write_reserved k q s =
    pure tt (record s { batches = modify (is_batch k) (set_reserved q) s.batches })

-- the found batch takes the delta `new - old`: clamped at 0, refused above the usable quantity
unfoldable pub apply_delta : BatchKey → ℕ → ℕ → ItemBatch → Service ⊤
unfolding write_reserved
apply_delta k old new b =
    if ltb (b.reserved_qty + new) old
    then write_reserved k 0
    else if ltb (b.usable_qty + old) (b.reserved_qty + new)
    then raise (cannot_reserve k)
    else write_reserved k (b.reserved_qty + new - old)

-- a batch that is gone fails an increase and is passed over in a release
unfoldable pub missing_batch : BatchKey → ℕ → ℕ → Service ⊤
missing_batch k old new = if ltb old new then raise (batch_not_found k) else pure tt

-- one round over `all_batch_keys`
unfoldable pub reserve_key : Dict BatchKey ℕ → Dict BatchKey ℕ → BatchKey → Service ⊤
unfolding apply_delta missing_batch
reserve_key olds news k s =
    let old = get_or_zero k olds in
    let new = get_or_zero k news in
    if new == old then pure tt s else elim (first (is_batch k) s.batches) [
      | none ↦ missing_batch k old new s
      | some b ↦ apply_delta k old new b s
    ]

-- `inventory.reserved_qty = q`
unfoldable pub set_stock_reserved : ℕ → Inventory → Inventory
set_stock_reserved q r = record r { reserved_qty = q }

-- one round over `affected_inventory`
unfoldable pub recalculate : StockKey → Service ⊤
unfolding set_stock_reserved
recalculate k s = elim (first (is_active_stock k) s.inventories) [
  | none ↦ raise (no_active_inventory k) s
  | some r ↦
      let q = reserved_total k s.batches in
      let s' : Db = record s {
        inventories = modify (is_active_stock k) (set_stock_reserved q) s.inventories;
      } in
      if ltb r.usable_qty q then raise (exceeds_inventory k) s' else pure tt s'
]

unfoldable pub reserve_maps : Dict BatchKey ℕ → Dict BatchKey ℕ → Service ⊤
reserve_maps olds news = do
  for_each (reserve_key olds news) (key_union (keys olds) (keys news))
  for_each recalculate (affected (keys news) (affected (keys olds) []))

unfoldable pub reserve_inventory : ℕ → List Allocation → Option (Dict BatchKey ℕ) → Service ⊤
unfolding reserve_maps
reserve_inventory rqst allocations none = do
  olds ← gets (get_current_batch_reservations rqst)
  reserve_maps olds (allocations_map allocations [])
reserve_inventory rqst allocations (some olds) = reserve_maps olds (allocations_map allocations [])
