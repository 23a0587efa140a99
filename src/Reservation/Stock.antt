-- ===== src/Reservation/Stock.antt =====
-- Both invariants of the stock, under each function of the service.
use dmis_feature_branch.Base.{ℕ, String, Option, List, ⊤}
use dmis_feature_branch.Base.Dict.{Dict}
use dmis_feature_branch.Base.Action.{Result, Ends}
use dmis_feature_branch.Store.{Db, BatchKey}
use dmis_feature_branch.Store.Invariant.{AllCovered, IsConsistent}
use dmis_feature_branch.Reservation.Maps.{Allocation, Failure}
use dmis_feature_branch.Reservation.Reserve.{reserve_inventory}
use dmis_feature_branch.Reservation.Release.{release_all_reservations}
use dmis_feature_branch.Reservation.Commit.{commit_inventory}
use dmis_feature_branch.Reservation.Cancel.{cancel_relief_package}
use dmis_feature_branch.Reservation.Coverage.{
  reserve_inventory-AllCovered, release_all_reservations-AllCovered, commit_inventory-AllCovered,
  cancel_relief_package-AllCovered,
}
use dmis_feature_branch.Reservation.Agreement.{reserve_inventory-IsConsistent}
use dmis_feature_branch.Reservation.Reconcile.{
  release_all_reservations-IsConsistent, commit_inventory-IsConsistent,
  cancel_relief_package-IsConsistent,
}

-- However a call ended, no batch has more reserved than usable; and if it ended well, the reserved
-- quantity of each active warehouse row is the sum of its batches' reservations.
abbrev pub IsKept : Result Failure ⊤ × Db → Type 0
IsKept r = AllCovered r.1 × Ends IsConsistent r

module _ (s : Db) (covered : AllCovered s) (consistent : IsConsistent s) where
  -- A reservation never leaves a batch with more reserved than usable, whether it succeeds or fails; and
  -- if it succeeds, the reserved quantity of each active warehouse row is still the sum of its batches'
  -- reservations.
  pub reserve_inventory-IsKept :
      (rqst : ℕ) (news : List Allocation) (olds : Option (Dict BatchKey ℕ))
      → IsKept (reserve_inventory rqst news olds s)
  reserve_inventory-IsKept rqst news olds = (
    reserve_inventory-AllCovered rqst news olds s covered,
    reserve_inventory-IsConsistent rqst news olds s consistent,
  )

  -- Releasing a request's reservations leaves no batch with more reserved than usable, and the reserved
  -- quantity of each active warehouse row the sum of its batches' reservations.
  pub release_all_reservations-IsKept : (rqst : ℕ) → IsKept (release_all_reservations rqst s)
  release_all_reservations-IsKept rqst = (
    release_all_reservations-AllCovered rqst s covered,
    release_all_reservations-IsConsistent rqst s consistent,
  )

  -- A commit leaves no batch with more reserved than usable, whether it succeeds or fails; and if it
  -- succeeds, the reserved quantity of each active warehouse row is still the sum of its batches'
  -- reservations.
  pub commit_inventory-IsKept : (rqst : ℕ) → IsKept (commit_inventory rqst s)
  commit_inventory-IsKept rqst =
      (commit_inventory-AllCovered rqst s covered, commit_inventory-IsConsistent rqst s consistent)

  -- A cancellation leaves no batch with more reserved than usable, whether it succeeds, is refused or is
  -- rolled back; and if it succeeds, the reserved quantity of each active warehouse row is still the
  -- sum of its batches' reservations.
  pub cancel_relief_package-IsKept :
      (user : String) (now pkg : ℕ) → IsKept (cancel_relief_package pkg user now s)
  cancel_relief_package-IsKept user now pkg = (
    cancel_relief_package-AllCovered user now pkg s covered,
    cancel_relief_package-IsConsistent user now pkg s consistent,
  )

  -- What ends a request's reservations, the commit that takes the stock or the release that gives it
  -- back, leaves no batch with more reserved than usable, whether it succeeds or fails; and if it
  -- succeeds, the reserved quantity of each active warehouse row is still the sum of its batches'
  -- reservations.
  pub ended_reservations-IsKept :
      (rqst : ℕ) → IsKept (commit_inventory rqst s) × IsKept (release_all_reservations rqst s)
  ended_reservations-IsKept rqst =
      (commit_inventory-IsKept rqst, release_all_reservations-IsKept rqst)
