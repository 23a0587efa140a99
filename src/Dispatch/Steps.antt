-- ===== src/Dispatch/Steps.antt =====
-- The steps C.3.3 to C.3.6. `user` and `now` are the user and the time of the call.
use dmis_feature_branch.Base.{
  ℕ, ◌+◌, ◌-◌, Bool, String, Option, none, some, List, [], ◌∷◌, ◌++◌, ⊤, ltb, leb, ◌==◌, ◌&&◌, not,
  if◌then◌else◌, is_some,
}
use dmis_feature_branch.Base.Dict.{Dict, Eq, contains, keys}
use dmis_feature_branch.Base.Table.{first, modify}
use dmis_feature_branch.Base.Action.{◌>>◌, pure, raise, for_each}
use dmis_feature_branch.Store.{
  Db, ItemBatch, Inventory, ReliefPkgItem, ReliefRqstItem, BatchKey, StockKey, key_eq,
}
use dmis_feature_branch.Store.Query.{is_batch, is_stock}
use dmis_feature_branch.Dispatch.Plan.{
  Dispatch, batch_not_found, inconsistent_reservation, inventory_not_found, inconsistent_inventory,
  insufficient_stock, insufficient_inventory, LoEntry, LmEntry, key_of_lm, stock_totals,
  lo_quantities, lm_quantities,
}

instance abbrev pub id_eq : Eq ℕ
id_eq = record { beq = λ x y. x == y; beq_iff = λ x y. dmis_feature_branch.Base.==_iff x y }

unfoldable pub unreserve : String → ℕ → ℕ → ItemBatch → ItemBatch
unreserve user now q b = record b {
  reserved_qty = b.reserved_qty - q;
  update_by_id = user;
  update_dtime = now;
  version_nbr = b.version_nbr + 1;
}

unfoldable pub unreserve_stock : String → ℕ → ℕ → Inventory → Inventory
unreserve_stock user now q r = record r {
  reserved_qty = r.reserved_qty - q;
  update_by_id = user;
  update_dtime = now;
  version_nbr = r.version_nbr + 1;
}

unfoldable pub deplete : String → ℕ → ℕ → ItemBatch → ItemBatch
deplete user now q b = record b {
  usable_qty = b.usable_qty - q;
  update_by_id = user;
  update_dtime = now;
  version_nbr = b.version_nbr + 1;
}

unfoldable pub deplete_stock : String → ℕ → ℕ → Inventory → Inventory
deplete_stock user now q r = record r {
  usable_qty = r.usable_qty - q;
  update_by_id = user;
  update_dtime = now;
  version_nbr = r.version_nbr + 1;
}

-- `ReliefPkgItem.query.filter_by(reliefpkg_id=…, fr_inventory_id=…, batch_id=…, item_id=…)`
abbrev pub is_pkg_item : ℕ → BatchKey → ReliefPkgItem → Bool
is_pkg_item pkg k p =
    p.reliefpkg_id == pkg
    && p.fr_inventory_id == k.inventory_id
    && p.batch_id == k.batch_id
    && p.item_id == k.item_id

-- `ReliefRqstItem.query.filter_by(reliefrqst_id=…, item_id=…)`
abbrev pub is_rqst_item : ℕ → ℕ → ReliefRqstItem → Bool
is_rqst_item rqst item r = r.reliefrqst_id == rqst && r.item_id == item

module _ (user : String) (now : ℕ) where
  -- the batch that was found, with the test against what it has reserved
  unfoldable pub undo_found : BatchKey → ℕ → ItemBatch → Dispatch ⊤
  unfolding unreserve
  undo_found k q b s =
      if ltb b.reserved_qty q
      then raise (inconsistent_reservation k) s
      else pure tt (record s { batches = modify (is_batch k) (unreserve user now q) s.batches })

  unfoldable pub undo_batch : BatchKey × ℕ → Dispatch ⊤
  unfolding undo_found
  undo_batch (k, q) s = if leb q 0 then pure tt s else elim (first (is_batch k) s.batches) [
    | none ↦ raise (batch_not_found k) s
    | some b ↦ undo_found k q b s
  ]

  unfoldable pub undo_stock_found : StockKey → ℕ → Inventory → Dispatch ⊤
  unfolding unreserve_stock
  undo_stock_found k q r s =
      if ltb r.reserved_qty q
      then raise (inconsistent_inventory k) s
      else pure tt (record s {
        inventories = modify (is_stock k) (unreserve_stock user now q) s.inventories;
      })

  unfoldable pub undo_stock : StockKey × ℕ → Dispatch ⊤
  unfolding undo_stock_found
  undo_stock (k, q) s = elim (first (is_stock k) s.inventories) [
    | none ↦ raise (inventory_not_found k) s
    | some r ↦ undo_stock_found k q r s
  ]

  unfoldable pub undo_lo_reservations : Dict BatchKey LoEntry → Dispatch ⊤
  undo_lo_reservations lo = do
    for_each undo_batch (lo_quantities lo)
    for_each undo_stock (stock_totals (lo_quantities lo) [])

  unfoldable pub rewrite_item : LmEntry → ReliefPkgItem → ReliefPkgItem
  rewrite_item a p = record p {
    item_qty = a.lm_qty;
    uom_code = a.uom_code;
    update_by_id = user;
    update_dtime = now;
    version_nbr = p.version_nbr + 1;
  }

  unfoldable pub new_item : ℕ → LmEntry → ReliefPkgItem
  new_item pkg a = record {
    reliefpkg_id = pkg;
    fr_inventory_id = a.fr_inventory_id;
    batch_id = a.batch_id;
    item_id = a.item_id;
    item_qty = a.lm_qty;
    uom_code = a.uom_code;
    update_by_id = user;
    update_dtime = now;
    version_nbr = 1;
  }

  unfoldable pub overwrite_items : ℕ → List LmEntry → List ReliefPkgItem → List ReliefPkgItem
  unfolding rewrite_item new_item
  overwrite_items pkg [] ps = ps
  overwrite_items pkg (a ∷ lm) ps = overwrite_items pkg lm (
      if is_some (first (is_pkg_item pkg (key_of_lm a)) ps)
      then modify (is_pkg_item pkg (key_of_lm a)) (rewrite_item a) ps
      else ps ++ (new_item pkg a ∷ []))

  unfoldable pub zero_item : ReliefPkgItem → ReliefPkgItem
  zero_item p =
      if ltb 0 p.item_qty
      then record p {
        item_qty = 0;
        update_by_id = user;
        update_dtime = now;
        version_nbr = p.version_nbr + 1;
      }
      else p

  -- the rows of the officer's plan that the manager's plan does not name
  unfoldable pub zero_items :
      ℕ → List BatchKey → List BatchKey → List ReliefPkgItem → List ReliefPkgItem
  unfolding zero_item
  zero_items pkg lm_keys [] ps = ps
  zero_items pkg lm_keys (k ∷ ks) ps =
      zero_items pkg lm_keys ks
        (if contains k lm_keys then ps else modify (is_pkg_item pkg k) zero_item ps)

  unfoldable pub overwrite_package_items : ℕ → List LmEntry → Dict BatchKey LoEntry → Db → Db
  unfolding overwrite_items zero_items
  overwrite_package_items pkg lm lo s = record s {
    pkg_items =
        zero_items pkg (keys (lm_quantities lm)) (keys lo) (overwrite_items pkg lm s.pkg_items);
  }

  unfoldable pub deplete_found : BatchKey → ℕ → ItemBatch → Dispatch ⊤
  unfolding deplete
  deplete_found k q b s =
      if ltb b.usable_qty q
      then raise (insufficient_stock k) s
      else pure tt (record s { batches = modify (is_batch k) (deplete user now q) s.batches })

  unfoldable pub deplete_batch : BatchKey × ℕ → Dispatch ⊤
  unfolding deplete_found
  deplete_batch (k, q) s = if leb q 0 then pure tt s else elim (first (is_batch k) s.batches) [
    | none ↦ raise (batch_not_found k) s
    | some b ↦ deplete_found k q b s
  ]

  unfoldable pub deplete_stock_found : StockKey → ℕ → Inventory → Dispatch ⊤
  unfolding deplete_stock
  deplete_stock_found k q r s =
      if ltb r.usable_qty q
      then raise (insufficient_inventory k) s
      else pure tt
          (record s { inventories = modify (is_stock k) (deplete_stock user now q) s.inventories })

  unfoldable pub deplete_inventory : StockKey × ℕ → Dispatch ⊤
  unfolding deplete_stock_found
  deplete_inventory (k, q) s = elim (first (is_stock k) s.inventories) [
    | none ↦ raise (inventory_not_found k) s
    | some r ↦ deplete_stock_found k q r s
  ]

  unfoldable pub deplete_usable_stock : List LmEntry → Dispatch ⊤
  deplete_usable_stock lm = do
    for_each deplete_batch (lm_quantities lm)
    for_each deplete_inventory (stock_totals (lm_quantities lm) [])
