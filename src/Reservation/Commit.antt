-- ===== src/Reservation/Commit.antt =====
-- `commit_inventory`: turns a package's allocations into deductions of usable and reserved stock.
use dmis_feature_branch.Base.{ℕ, ◌-◌, none, some, List, [], ◌∷◌, ⊤, ltb, if◌then◌else◌}
use dmis_feature_branch.Base.Dict.{add}
use dmis_feature_branch.Base.Table.{first, modify}
use dmis_feature_branch.Base.Action.{◌>>◌, pure, raise, for_each}
use dmis_feature_branch.Store.{
  ItemBatch, Inventory, ReliefPkgItem, BatchKey, StockKey, stock_of, stock_eq,
}
use dmis_feature_branch.Store.Query.{is_batch, is_stock, reserved_total, usable_total}
use dmis_feature_branch.Reservation.Maps.{
  Service, no_package, batch_not_found, insufficient_inventory, items_of, package_of, key_of_item,
}

-- `batch.usable_qty -= q` and `batch.reserved_qty = max(0, batch.reserved_qty - q)`
unfoldable pub deduct : ℕ → ItemBatch → ItemBatch
deduct q b = record b { usable_qty = b.usable_qty - q; reserved_qty = b.reserved_qty - q }

-- the deduction from the batch that was found
unfoldable pub deduct_batch : BatchKey → ℕ → ItemBatch → Service ⊤
unfolding deduct
deduct_batch k q b s =
    if ltb b.usable_qty q
    then raise (insufficient_inventory k) s
    else pure tt (record s { batches = modify (is_batch k) (deduct q) s.batches })

-- one round over the package's items
unfoldable pub commit_item : ReliefPkgItem → Service ⊤
unfolding deduct_batch
commit_item p s =
    if ltb 0 p.item_qty
    then elim (first (is_batch (key_of_item p)) s.batches) [
      | none ↦ raise (batch_not_found (key_of_item p)) s
      | some b ↦ deduct_batch (key_of_item p) p.item_qty b s
    ]
    else pure tt s

-- `affected_inventory` after all items have been committed
unfoldable pub affected_by : List ReliefPkgItem → List StockKey → List StockKey
affected_by [] ss = ss
affected_by (p ∷ ps) ss =
    affected_by ps (if ltb 0 p.item_qty then add (stock_of (key_of_item p)) ss else ss)

unfoldable pub set_totals : ℕ → ℕ → Inventory → Inventory
set_totals usable reserved r = record r { usable_qty = usable; reserved_qty = reserved }

-- one round over `affected_inventory`, whatever the row's status
unfoldable pub resum : StockKey → Service ⊤
unfolding set_totals
resum k s = pure tt (record s {
  inventories =
      modify (is_stock k) (set_totals (usable_total k s.batches) (reserved_total k s.batches))
        s.inventories;
})

unfoldable pub commit_items : List ReliefPkgItem → Service ⊤
commit_items ps = do for_each commit_item ps; for_each resum (affected_by ps [])

unfoldable pub commit_inventory : ℕ → Service ⊤
unfolding commit_items
commit_inventory rqst s = elim (package_of rqst s) [
  | none ↦ raise no_package s
  | some pkg ↦ commit_items (items_of pkg.reliefpkg_id s) s
]
