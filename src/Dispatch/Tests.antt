-- ===== src/Dispatch/Tests.antt =====
-- The theorems on dispatches at concrete inputs, and a run.
use dmis_feature_branch.Base.{ℕ, ◌+◌, ◌≡◌, refl, none, some, List, [], ◌∷◌, arith, ⊤}
use dmis_feature_branch.Base.Table.{first}
use dmis_feature_branch.Base.Action.{Ends, Result, ok}
use dmis_feature_branch.Store.{BatchKey}
use dmis_feature_branch.Store.Samples.{
  rice, rice_stock, pending_pkg, pending_item, open_request, rice_request, stocked,
}
use dmis_feature_branch.Store.Invariant.{IsConsistent, IsUsableConsistent}
use dmis_feature_branch.Dispatch.Plan.{DispatchFailure, LmEntry}
use dmis_feature_branch.Dispatch.Submit.{submit_for_dispatch}
use dmis_feature_branch.Dispatch.Consistency.{submit_for_dispatch-Agree}
use dmis_feature_branch.Dispatch.Quantities.{Sent, submit_for_dispatch-Sent}
use dmis_feature_branch.Dispatch.Header.{Dispatched, submit_for_dispatch-Dispatched}

-- the manager sends 20 of the 30 units that the officer reserved
abbrev plan : List LmEntry
plan = record { fr_inventory_id = 7; batch_id = 1; item_id = 3; lm_qty = 20; uom_code = 1 } ∷ []

abbrev rice_key : BatchKey
rice_key = record { item_id = 3; inventory_id = 7; batch_id = 1 }

reserved_agrees : IsConsistent stocked
unfolding first
reserved_agrees k r e active = ground arith

usable_agrees : IsUsableConsistent stocked
unfolding first
usable_agrees k r e active = ground arith

submit_for_dispatch-Agree_example :
    Ends
      (λ t. IsConsistent t × IsUsableConsistent t)
      (submit_for_dispatch 5 plan "manager" 9 1 stocked)
submit_for_dispatch-Agree_example =
    submit_for_dispatch-Agree 5 plan "manager" 9 1 stocked reserved_agrees usable_agrees

submit_for_dispatch-Sent_example :
    Ends
      (Sent "manager" 9 rice_key 5 plan stocked)
      (submit_for_dispatch 5 plan "manager" 9 1 stocked)
submit_for_dispatch-Sent_example = submit_for_dispatch-Sent "manager" 9 rice_key 5 plan 1 stocked

submit_for_dispatch-Dispatched_example :
    Ends
      (Dispatched "manager" 9 5 plan 1 stocked)
      (submit_for_dispatch 5 plan "manager" 9 1 stocked)
submit_for_dispatch-Dispatched_example = submit_for_dispatch-Dispatched "manager" 9 5 plan 1 stocked

dispatch_run : submit_for_dispatch 5 plan "manager" 9 1 stocked ≡ (
  ok tt,
  record stocked {
    batches =
        record rice {
          usable_qty = 80;
          reserved_qty = 0;
          update_by_id = "manager";
          update_dtime = 9;
          version_nbr = 3;
        }
        ∷ [];
    inventories =
        record rice_stock {
          usable_qty = 80;
          reserved_qty = 0;
          update_by_id = "manager";
          update_dtime = 9;
          version_nbr = 3;
        }
        ∷ [];
    packages =
        record pending_pkg {
          status_code = b'D';
          dispatch_dtime = some 9;
          verify_by_id = some "manager";
          verify_dtime = some 9;
          update_by_id = "manager";
          update_dtime = 9;
          version_nbr = 2;
        }
        ∷ [];
    pkg_items =
        record pending_item {
          item_qty = 20;
          update_by_id = "manager";
          update_dtime = 9;
          version_nbr = 2;
        }
        ∷ [];
    requests =
        record open_request {
          status_code = 5;
          action_by_id = some "manager";
          action_dtime = some 9;
          version_nbr = 2;
        }
        ∷ [];
    rqst_items =
        record rice_request {
          issue_qty = 25;
          update_by_id = "manager";
          update_dtime = 9;
          version_nbr = 2;
        }
        ∷ [];
  },
)
unfolding submit_for_dispatch first dmis_feature_branch.Dispatch.Steps.undo_lo_reservations
    dmis_feature_branch.Base.Action.for_each dmis_feature_branch.Dispatch.Plan.get_lo_plan
    dmis_feature_branch.Base.Dict.insert dmis_feature_branch.Dispatch.Steps.undo_batch
    dmis_feature_branch.Dispatch.Plan.stock_totals dmis_feature_branch.Base.Dict.add_to
    dmis_feature_branch.Dispatch.Steps.undo_stock dmis_feature_branch.Base.Dict.lookup
    dmis_feature_branch.Dispatch.Steps.deplete_usable_stock
    dmis_feature_branch.Dispatch.Steps.deplete_batch
    dmis_feature_branch.Dispatch.Steps.overwrite_package_items dmis_feature_branch.Base.Table.modify
    dmis_feature_branch.Dispatch.Steps.deplete_inventory dmis_feature_branch.Base.Dict.contains
dispatch_run = refl
