-- ===== src/Reservation/Release.antt =====
-- `release_all_reservations`: gives back what a package holds, and recomputes the warehouse level.
use dmis_feature_branch.Base.{ℕ, ◌-◌, [], ⊤}
use dmis_feature_branch.Base.Dict.{Dict, keys}
use dmis_feature_branch.Base.Table.{modify}
use dmis_feature_branch.Base.Action.{◌>>=◌, ◌>>◌, pure, gets, for_each}
use dmis_feature_branch.Store.{ItemBatch, BatchKey, StockKey, key_eq}
use dmis_feature_branch.Store.Query.{is_batch, is_active_stock, reserved_total}
use dmis_feature_branch.Reservation.Maps.{Service, get_current_batch_reservations, affected}
use dmis_feature_branch.Reservation.Reserve.{set_stock_reserved}

-- `batch.reserved_qty = max(0, batch.reserved_qty - q)`: subtraction on ℕ stops at 0
unfoldable pub give_back : ℕ → ItemBatch → ItemBatch
give_back q b = record b { reserved_qty = b.reserved_qty - q }

-- one round over the reservations; a missing batch is only logged
unfoldable pub release_key : BatchKey × ℕ → Service ⊤
unfolding give_back
release_key (k, q) s = pure tt (record s { batches = modify (is_batch k) (give_back q) s.batches })

-- one round over `affected_inventory`; a row that is missing or not active is passed over
unfoldable pub refresh : StockKey → Service ⊤
unfolding set_stock_reserved
refresh k s = pure tt (record s {
  inventories =
      modify (is_active_stock k) (set_stock_reserved (reserved_total k s.batches)) s.inventories;
})

unfoldable pub release_map : Dict BatchKey ℕ → Service ⊤
release_map held = do for_each release_key held; for_each refresh (affected (keys held) [])

unfoldable pub release_all_reservations : ℕ → Service ⊤
unfolding release_map
release_all_reservations rqst = do
  held ← gets (get_current_batch_reservations rqst)
  release_map held
