-- ===== src/Store/Query.antt =====
-- The queries by which the services read itembatch and inventory (`filter_by(…).first()`,
-- `func.sum`), and writes of the row that a query returned.
use dmis_feature_branch.Base.{
  ℕ, ◌+◌, ◌≡◌, Bool, true, false, some, List, arith, ◌==◌, ◌&&◌, if◌then◌else◌, total,
}
use dmis_feature_branch.Base.Table.{
  first, modify, first_holds, first-modify_other, total-modify, total-modify_same,
}
use dmis_feature_branch.Store.Rows.{
  ItemBatch, Inventory, BatchKey, StockKey, stock_of, stock_beq, key_beq,
}

-- `ItemBatch.query.filter_by(batch_id=…, item_id=…, inventory_id=…)`
abbrev pub is_batch : BatchKey → ItemBatch → Bool
is_batch k b =
    b.item_id == k.item_id && b.inventory_id == k.inventory_id && b.batch_id == k.batch_id

-- `Inventory.query.filter_by(item_id=…, inventory_id=…)`
abbrev pub is_stock : StockKey → Inventory → Bool
is_stock k r = r.item_id == k.item_id && r.inventory_id == k.inventory_id

-- the same with `status_code='A'`
abbrev pub is_active_stock : StockKey → Inventory → Bool
is_active_stock k r = is_stock k r && r.status_code == b'A'

abbrev pub in_stock : StockKey → ItemBatch → Bool
in_stock k b = b.item_id == k.item_id && b.inventory_id == k.inventory_id

-- `func.sum(ItemBatch.reserved_qty)` over the batches of an item in a warehouse; the code turns
-- the NULL of an empty sum into 0
abbrev pub reserved_total : StockKey → List ItemBatch → ℕ
reserved_total k = total (λ b. if in_stock k b then b.reserved_qty else 0)

abbrev pub usable_total : StockKey → List ItemBatch → ℕ
usable_total k = total (λ b. if in_stock k b then b.usable_qty else 0)

unfoldable pub set_reserved : ℕ → ItemBatch → ItemBatch
set_reserved q b = record b { reserved_qty = q }

module _ (k : BatchKey) (f : ItemBatch → ItemBatch)
    (keeps : (b : ItemBatch) → is_batch k b ≡ true → is_batch k (f b) ≡ true) where
  -- A write to one batch changes the sums of its own item and warehouse only.
  pub reserved_total-modify_other :
      (j : StockKey) (bs : List ItemBatch)
      → stock_beq (stock_of k) j ≡ false
      → reserved_total j (modify (is_batch k) f bs) ≡ reserved_total j bs
  reserved_total-modify_other j bs h =
      total-modify_same _ (is_batch k) f bs (λ b e. ground (arith, keeps b))

  pub usable_total-modify_other :
      (j : StockKey) (bs : List ItemBatch)
      → stock_beq (stock_of k) j ≡ false
      → usable_total j (modify (is_batch k) f bs) ≡ usable_total j bs
  usable_total-modify_other j bs h =
      total-modify_same _ (is_batch k) f bs (λ b e. ground (arith, keeps b))

  pub reserved_total-modify_self :
      (bs : List ItemBatch) (b : ItemBatch)
      → first (is_batch k) bs ≡ some b
      → reserved_total (stock_of k) (modify (is_batch k) f bs) + b.reserved_qty
        ≡ reserved_total (stock_of k) bs + (f b).reserved_qty
  reserved_total-modify_self bs b e = ground (
    arith,
    total-modify (λ b. if in_stock (stock_of k) b then b.reserved_qty else 0) (is_batch k) f bs b e,
    first_holds (is_batch k) bs b e,
    keeps b,
  )

  pub first-modify_batch :
      (j : BatchKey) (bs : List ItemBatch)
      → key_beq k j ≡ false
      → first (is_batch j) (modify (is_batch k) f bs) ≡ first (is_batch j) bs
  first-modify_batch j bs h =
      first-modify_other (is_batch k) (is_batch j) f bs (λ b e. ground (arith, keeps b))
