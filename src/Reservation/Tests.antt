-- ===== src/Reservation/Tests.antt =====
-- The theorems on reservations at concrete inputs, and runs of the service.
use dmis_feature_branch.Base.{ℕ, ◌+◌, ◌≡◌, refl, none, some, List, [], ◌∷◌, arith, ⊤}
use dmis_feature_branch.Base.Dict.{Dict}
use dmis_feature_branch.Base.Table.{first}
use dmis_feature_branch.Base.Action.{Ends, Result, ok, err}
use dmis_feature_branch.Store.{BatchKey}
use dmis_feature_branch.Store.Query.{is_batch}
use dmis_feature_branch.Store.Samples.{rice, rice_stock, stocked}
use dmis_feature_branch.Store.Invariant.{AllCovered, IsConsistent}
use dmis_feature_branch.Reservation.Maps.{Failure, Allocation, allocations_map}
use dmis_feature_branch.Reservation.Reserve.{reserve_inventory}
use dmis_feature_branch.Reservation.Release.{release_all_reservations}
use dmis_feature_branch.Reservation.Commit.{commit_inventory}
use dmis_feature_branch.Reservation.Cancel.{cancel_relief_package}
use dmis_feature_branch.Reservation.Stock.{
  IsKept, reserve_inventory-IsKept, ended_reservations-IsKept, cancel_relief_package-IsKept,
}
use dmis_feature_branch.Reservation.Amounts.{reserved_after, reserve_inventory_batch}

-- the package now wants 45 units of the batch
abbrev wanted : List Allocation
wanted = record { item_id = 3; batch_id = 1; warehouse_id = 7; allocated_qty = 45 } ∷ []

abbrev rice_key : BatchKey
rice_key = record { item_id = 3; inventory_id = 7; batch_id = 1 }

-- what it held before
abbrev held : Dict BatchKey ℕ
held = (rice_key, 30) ∷ []

stocked-IsConsistent : IsConsistent stocked
unfolding first
stocked-IsConsistent k r e active = ground arith

stocked-AllCovered : AllCovered stocked
stocked-AllCovered = (omega arith, tt)

reserve_inventory-IsKept_example : IsKept (reserve_inventory 9 wanted (some held) stocked)
reserve_inventory-IsKept_example =
    reserve_inventory-IsKept stocked stocked-AllCovered stocked-IsConsistent 9 wanted (some held)

ended_reservations-IsKept_example :
    IsKept (commit_inventory 9 stocked) × IsKept (release_all_reservations 9 stocked)
ended_reservations-IsKept_example =
    ended_reservations-IsKept stocked stocked-AllCovered stocked-IsConsistent 9

cancel_relief_package-IsKept_example : IsKept (cancel_relief_package 5 "officer" 8 stocked)
cancel_relief_package-IsKept_example =
    cancel_relief_package-IsKept stocked stocked-AllCovered stocked-IsConsistent "officer" 8 5

reserve_inventory_batch_example :
    Ends
      (λ s.
        first (is_batch rice_key) s.batches
        ≡ some (reserved_after held (allocations_map wanted []) rice_key rice))
      (reserve_inventory 9 wanted (some held) stocked)
unfolding first
reserve_inventory_batch_example = reserve_inventory_batch 9 wanted held rice_key rice stocked found
  where
    found : first (is_batch rice_key) stocked.batches ≡ some rice
    found = refl

reserve_run : reserve_inventory 9 wanted none stocked ≡ (
  ok tt,
  record stocked {
    batches = record rice { reserved_qty = 45 } ∷ [];
    inventories = record rice_stock { reserved_qty = 45 } ∷ [];
  },
)
unfolding reserve_inventory dmis_feature_branch.Base.Action.for_each
    dmis_feature_branch.Reservation.Maps.key_union
    dmis_feature_branch.Reservation.Maps.get_current_batch_reservations first
    dmis_feature_branch.Base.Dict.insert dmis_feature_branch.Base.Dict.add allocations_map
    dmis_feature_branch.Reservation.Reserve.reserve_key dmis_feature_branch.Base.Dict.lookup
    dmis_feature_branch.Reservation.Maps.affected
    dmis_feature_branch.Reservation.Reserve.recalculate dmis_feature_branch.Base.Table.modify
reserve_run = refl
