-- ===== src/Reservation/Cancel.antt =====
-- `cancel_relief_package`: releases what a package holds, and deletes the package and its items.
-- `db.session.rollback()` brings back the state in which the transaction began; a refusal before
-- the first write leaves the session as it is.
use dmis_feature_branch.Base.{
  ℕ, ◌+◌, ◌-◌, String, none, some, List, [], ◌∷◌, ⊤, ltb, leb, ◌==◌, ◌||◌, not, if◌then◌else◌,
  filter,
}
use dmis_feature_branch.Base.Table.{first, modify}
use dmis_feature_branch.Base.Action.{Result, ok, err, ◌>>◌, pure, raise, for_each, modifies}
use dmis_feature_branch.Store.{Db, ItemBatch, Inventory, ReliefPkgItem, BatchKey, StockKey}
use dmis_feature_branch.Store.Query.{is_batch, is_stock, reserved_total}
use dmis_feature_branch.Reservation.Maps.{
  Service, Failure, package_not_found, cannot_cancel_status, inconsistent_reservation,
  inventory_not_found, items_of, key_of_item,
}
use dmis_feature_branch.Reservation.Commit.{affected_by}

unfoldable pub cancel_batch : String → ℕ → ℕ → ItemBatch → ItemBatch
cancel_batch user now q b = record b {
  reserved_qty = b.reserved_qty - q;
  update_by_id = user;
  update_dtime = now;
  version_nbr = b.version_nbr + 1;
}

unfoldable pub cancel_stock : String → ℕ → ℕ → Inventory → Inventory
cancel_stock user now q r = record r {
  reserved_qty = q;
  update_by_id = user;
  update_dtime = now;
  version_nbr = r.version_nbr + 1;
}

module _ (user : String) (now : ℕ) where
  -- the release of the batch that was found
  unfoldable pub cancel_found : BatchKey → ℕ → ItemBatch → Service ⊤
  unfolding cancel_batch
  cancel_found k q b s =
      if ltb b.reserved_qty q
      then raise (inconsistent_reservation k) s
      else pure tt (record s { batches = modify (is_batch k) (cancel_batch user now q) s.batches })

  -- one round of phase 1; a batch that is gone is only logged
  unfoldable pub cancel_item : ReliefPkgItem → Service ⊤
  unfolding cancel_found
  cancel_item p s =
      if leb p.item_qty 0 then pure tt s else elim (first (is_batch (key_of_item p)) s.batches) [
        | none ↦ pure tt s
        | some b ↦ cancel_found (key_of_item p) p.item_qty b s
      ]

  -- one round of phase 2
  unfoldable pub cancel_refresh : StockKey → Service ⊤
  unfolding cancel_stock
  cancel_refresh k s = elim (first (is_stock k) s.inventories) [
    | none ↦ raise (inventory_not_found k) s
    | some r ↦ pure tt (record s {
      inventories =
          modify (is_stock k) (cancel_stock user now (reserved_total k s.batches)) s.inventories;
    })
  ]

  -- phases 1 and 2
  unfoldable pub cancel_items : List ReliefPkgItem → Service ⊤
  cancel_items ps = do for_each cancel_item ps; for_each cancel_refresh (affected_by ps [])

-- phase 3
unfoldable pub delete_package : ℕ → Db → Db
delete_package pkg s = record s {
  pkg_items = filter (λ p. not (p.reliefpkg_id == pkg)) s.pkg_items;
  packages = filter (λ p. not (p.reliefpkg_id == pkg)) s.packages;
}

-- a failure brings back the state `t`
abbrev pub rolled_back : Db → Result Failure ⊤ × Db → Result Failure ⊤ × Db
rolled_back t (ok a, s) = (ok a, s)
rolled_back t (err e, s) = (err e, t)

-- a package without items is deleted at once
unfoldable pub cancel_allocations : String → ℕ → ℕ → List ReliefPkgItem → Service ⊤
unfolding delete_package
cancel_allocations user now pkg [] s =
    pure tt (record s { packages = filter (λ p. not (p.reliefpkg_id == pkg)) s.packages })
cancel_allocations user now pkg (p ∷ ps) s =
    rolled_back s ((cancel_items user now (p ∷ ps) >> modifies (delete_package pkg)) s)

-- Only pending and dispatched packages can be cancelled.
unfoldable pub cancellable : ℕ → Service ⊤
cancellable status =
    if status == b'P' || status == b'D' then pure tt else raise (cannot_cancel_status status)

unfoldable pub cancel_relief_package : ℕ → String → ℕ → Service ⊤
unfolding cancel_allocations cancellable
cancel_relief_package pkg user now s = elim (first (λ p. p.reliefpkg_id == pkg) s.packages) [
  | none ↦ raise (package_not_found pkg) s
  | some p ↦ (cancellable p.status_code >> cancel_allocations user now pkg (items_of pkg s)) s
]
