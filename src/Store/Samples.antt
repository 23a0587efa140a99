-- ===== src/Store/Samples.antt =====
-- Sample rows, for the tests of the services.
use dmis_feature_branch.Base.{none, some, [], ◌∷◌}
use dmis_feature_branch.Store.Rows.{
  Db, ItemBatch, Inventory, ReliefPkg, ReliefPkgItem, ReliefRqst, ReliefRqstItem,
}

-- a warehouse 7 with 100 units of item 3 in batch 1, of which 30 are reserved for package 5
abbrev pub rice : ItemBatch
rice = record {
  batch_id = 1;
  inventory_id = 7;
  item_id = 3;
  batch_no = b'L' ∷ b'1' ∷ [];
  batch_date = some 20;
  expiry_date = none;
  usable_qty = 100;
  reserved_qty = 30;
  defective_qty = 0;
  expired_qty = 0;
  uom_code = 1;
  avg_unit_value = 15;
  status_code = b'A';
  comments_text = none;
  update_by_id = "clerk";
  update_dtime = 4;
  version_nbr = 1;
}

abbrev pub rice_stock : Inventory
rice_stock = record {
  inventory_id = 7;
  item_id = 3;
  usable_qty = 100;
  reserved_qty = 30;
  defective_qty = 0;
  expired_qty = 0;
  uom_code = 1;
  status_code = b'A';
  update_by_id = "clerk";
  update_dtime = 4;
  version_nbr = 1;
}

abbrev pub pending_pkg : ReliefPkg
pending_pkg = record {
  reliefpkg_id = 5;
  reliefrqst_id = 9;
  status_code = b'P';
  dispatch_dtime = none;
  verify_by_id = none;
  verify_dtime = none;
  received_by_id = none;
  received_dtime = none;
  create_by_id = "officer";
  update_by_id = "officer";
  update_dtime = 4;
  version_nbr = 1;
}

abbrev pub pending_item : ReliefPkgItem
pending_item = record {
  reliefpkg_id = 5;
  fr_inventory_id = 7;
  batch_id = 1;
  item_id = 3;
  item_qty = 30;
  uom_code = 1;
  update_by_id = "officer";
  update_dtime = 4;
  version_nbr = 1;
}

abbrev pub open_request : ReliefRqst
open_request = record {
  reliefrqst_id = 9;
  agency_id = 2;
  request_date = 40;
  urgency_ind = b'H';
  eligible_event_id = none;
  rqst_notes_text = none;
  status_code = 3;
  status_reason_desc = none;
  create_by_id = "agency";
  create_dtime = 1;
  review_by_id = some "director";
  review_dtime = some 2;
  action_by_id = none;
  action_dtime = none;
  version_nbr = 1;
}

abbrev pub rice_request : ReliefRqstItem
rice_request = record {
  reliefrqst_id = 9;
  item_id = 3;
  request_qty = 50;
  issue_qty = 5;
  urgency_ind = b'H';
  rqst_reason_desc = none;
  required_by_date = none;
  status_code = b'R';
  status_reason_desc = none;
  action_by_id = none;
  action_dtime = none;
  update_by_id = "agency";
  update_dtime = 1;
  version_nbr = 1;
}

abbrev pub stocked : Db
stocked = record {
  batches = rice ∷ [];
  inventories = rice_stock ∷ [];
  packages = pending_pkg ∷ [];
  pkg_items = pending_item ∷ [];
  requests = open_request ∷ [];
  rqst_items = rice_request ∷ [];
}
