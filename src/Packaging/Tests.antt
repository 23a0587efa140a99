-- ===== src/Packaging/Tests.antt =====
-- The theorems on packaging at concrete inputs, and a run.
use dmis_feature_branch.Base.{
  ℕ, ◌≤◌, ◌≡◌, refl, String, true, false, Option, none, some, List, [], ◌∷◌, ⊤, arith,
}
use dmis_feature_branch.Base.Table.{first}
use dmis_feature_branch.Base.Action.{Result, ok, err}
use dmis_feature_branch.Store.{Db, ReliefPkg, ReliefRqstItem}
use dmis_feature_branch.Store.Samples.{open_request, rice_request, stocked, pending_pkg}
use dmis_feature_branch.ItemStatus.{ItemStatusRow}
use dmis_feature_branch.Reservation.Maps.{items_of, package_of}
use dmis_feature_branch.Packaging.Form.{ItemForm, PackFailure, settle_item, check_taken}
use dmis_feature_branch.Packaging.Checked.{IsSettled, settle_item-IsSettled}
use dmis_feature_branch.Packaging.Draft.{save_draft, cancel_preparation}
use dmis_feature_branch.Packaging.Routes.{
  PrepareAction, ApproveAction, Roles, prepare_package, approve_package, hand_over, mark_handover,
}
use dmis_feature_branch.Packaging.Saved.{cancel_preparation_stock}
use dmis_feature_branch.Packaging.Kept.{IsSound}
use dmis_feature_branch.Packaging.Guarded.{IsGuarded}
use dmis_feature_branch.Packaging.Pages.{
  MayPrepare, MayApprove, prepare_package-IsSafe, approve_package-IsSafe,
}
use dmis_feature_branch.Packaging.Review.{ReviewAction, review_approval}
use dmis_feature_branch.Packaging.Reviewed.{MayReview, review_approval-IsReviewed}
use dmis_feature_branch.Packaging.Handover.{IsRefused, mark_handover_once}

abbrev statuses : List ItemStatusRow
statuses =
    record {
      status_code = b'P';
      status_desc = "PARTLY FILLED";
      item_qty_rule = "GT";
      active_flag = true;
    }
    ∷ []

-- 45 units of batch 1
abbrev item_form : ItemForm
item_form = record { entries = (1, 45) ∷ []; status = none; reason = none }

abbrev limited : ℕ → ℕ → String
limited allocated requested = "limited"

-- an item of which 0.5 has been asked for
abbrev asked : ReliefRqstItem
asked = record rice_request { request_qty = 5000; issue_qty = 0 }

settle_item-IsSettled_example :
    IsSettled (settle_item limited "denied" "officer" 8 b'P' none 4000 asked) × (4000 ≤ 5000)
unfolding check_taken dmis_feature_branch.ItemStatus.validate_quantity_limit
    dmis_feature_branch.ItemStatus.validate_status_transition
settle_item-IsSettled_example =
    settle_item-IsSettled limited "denied" "officer" 8 statuses false true item_form asked 4000 b'P'
      refl (omega arith) refl

stocked-IsSound : IsSound stocked
unfolding first
stocked-IsSound = ((omega arith, tt), λ k r e active. ground arith)

abbrev everyone : Roles
everyone = record { officer = true; manager = true; clerk = true }

prepare_package-IsSafe_example :
    IsSound
      (prepare_package limited "denied" statuses "manager" 8 60
        (λ i. item_form)
        everyone
        PrepareAction.send
        9
        6
        (some 1)
        (some 1)
        stocked).1
    × IsGuarded (MayPrepare everyone PrepareAction.send 9 (some 1) stocked) stocked (
        prepare_package limited "denied" statuses "manager" 8 60
          (λ i. item_form)
          everyone
          PrepareAction.send
          9
          6
          (some 1)
          (some 1)
          stocked)
prepare_package-IsSafe_example =
    prepare_package-IsSafe limited "denied" statuses "manager" 8 60 (λ i. item_form) everyone
      PrepareAction.send 9 6 (some 1) (some 1) stocked stocked-IsSound

approve_package-IsSafe_example :
    IsSound
      (approve_package limited "denied" statuses "manager" 8 60
        (λ i. item_form)
        everyone
        ApproveAction.approve
        9
        6
        (some 1)
        (some 1)
        stocked).1
    × IsGuarded (MayApprove everyone 9 (some 1) (some 1) stocked) stocked (
        approve_package limited "denied" statuses "manager" 8 60
          (λ i. item_form)
          everyone
          ApproveAction.approve
          9
          6
          (some 1)
          (some 1)
          stocked)
approve_package-IsSafe_example =
    approve_package-IsSafe limited "denied" statuses "manager" 8 60 (λ i. item_form) everyone
      ApproveAction.approve 9 6 (some 1) (some 1) stocked stocked-IsSound

review_approval-IsReviewed_example :
    IsSound
      (review_approval "manager" 8 everyone ReviewAction.approve 9 (some 1) (some 1) stocked).1
    × IsGuarded
        (MayReview everyone 9 (some 1) (some 1) stocked)
        stocked
        (review_approval "manager" 8 everyone ReviewAction.approve 9 (some 1) (some 1) stocked)
review_approval-IsReviewed_example =
    review_approval-IsReviewed "manager" 8 everyone ReviewAction.approve 9 (some 1) (some 1) stocked
      stocked-IsSound

-- the package of `stocked`, on its way
abbrev sent_pkg : ReliefPkg
sent_pkg = record pending_pkg { status_code = b'D'; dispatch_dtime = some 5 }

abbrev sent : Db
sent = record stocked { packages = sent_pkg ∷ [] }

abbrev received_there : Db
received_there = record stocked { packages = hand_over "clerk" 9 sent_pkg ∷ [] }

mark_handover_once_example :
    IsRefused received_there (mark_handover everyone (7 ∷ []) "other clerk" 10 5 received_there)
unfolding mark_handover first dmis_feature_branch.Base.Table.modify
mark_handover_once_example =
    mark_handover_once everyone (7 ∷ []) "clerk" 9 5 sent received_there refl everyone (7 ∷ [])
      "other clerk" 10

save_run :
    (save_draft limited "denied" statuses "officer" 8 60
      (λ i. item_form)
      6
      (some 1)
      (some 1)
      open_request
      stocked).0
    ≡ ok tt
unfolding save_draft first check_taken dmis_feature_branch.Packaging.Process.process_allocations
    dmis_feature_branch.Base.Action.for_each dmis_feature_branch.Packaging.Form.read_entries
    dmis_feature_branch.Allocation.Validate.validate_batch_allocation
    dmis_feature_branch.Base.Dict.lookup dmis_feature_branch.Base.Dict.insert
    dmis_feature_branch.ItemStatus.validate_quantity_limit
    dmis_feature_branch.ItemStatus.validate_status_transition
    dmis_feature_branch.Reservation.Reserve.reserve_inventory
    dmis_feature_branch.Reservation.Maps.key_union dmis_feature_branch.Base.Dict.add
    dmis_feature_branch.Reservation.Maps.allocations_map
    dmis_feature_branch.Reservation.Reserve.reserve_key
    dmis_feature_branch.Reservation.Maps.affected
    dmis_feature_branch.Reservation.Reserve.recalculate dmis_feature_branch.Base.Table.modify
save_run = refl

cancel_preparation_stock_example :
    ((p : ReliefPkg)
      → package_of 9 stocked ≡ some p
      → items_of p.reliefpkg_id (cancel_preparation 9 stocked) ≡ [])
    × ((cancel_preparation 9 stocked).batches ≡ stocked.batches)
    × ((cancel_preparation 9 stocked).inventories ≡ stocked.inventories)
cancel_preparation_stock_example = cancel_preparation_stock 9 stocked
