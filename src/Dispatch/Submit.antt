-- ===== src/Dispatch/Submit.antt =====
-- `_update_dispatch_records` and the entry point `submit_for_dispatch`.
use dmis_feature_branch.Base.{
  ℕ, ◌+◌, Bool, String, none, some, List, [], ◌∷◌, ⊤, ltb, ◌==◌, ◌||◌, not, if◌then◌else◌,
}
use dmis_feature_branch.Base.Dict.{Dict, add_to}
use dmis_feature_branch.Base.Table.{first, modify}
use dmis_feature_branch.Base.Action.{◌>>=◌, ◌>>◌, pure, raise, gets, modifies}
use dmis_feature_branch.Store.{Db, ReliefPkg, ReliefRqst, ReliefRqstItem}
use dmis_feature_branch.Dispatch.Plan.{
  Dispatch, package_not_found, package_modified, already_dispatched, wrong_status,
  request_not_found, LmEntry, get_lo_plan,
}
use dmis_feature_branch.Dispatch.Steps.{
  id_eq, is_rqst_item, undo_lo_reservations, overwrite_package_items, deplete_usable_stock,
}

abbrev pub is_package : ℕ → ReliefPkg → Bool
is_package pkg p = p.reliefpkg_id == pkg

abbrev pub is_request : ℕ → ReliefRqst → Bool
is_request rqst r = r.reliefrqst_id == rqst

-- `STATUS_PART_FILLED` of relief_request_service
abbrev pub status_part_filled : ℕ
status_part_filled = 5

unfoldable pub mark_dispatched : String → ℕ → ReliefPkg → ReliefPkg
mark_dispatched user now p = record p {
  status_code = b'D';
  dispatch_dtime = some now;
  verify_by_id = some user;
  verify_dtime = some now;
  update_by_id = user;
  update_dtime = now;
  version_nbr = p.version_nbr + 1;
}

unfoldable pub mark_issued : String → ℕ → ℕ → ReliefRqstItem → ReliefRqstItem
mark_issued user now q r = record r {
  issue_qty = r.issue_qty + q;
  update_by_id = user;
  update_dtime = now;
  version_nbr = r.version_nbr + 1;
}

unfoldable pub mark_part_filled : String → ℕ → ReliefRqst → ReliefRqst
mark_part_filled user now r = record r {
  action_by_id = some user;
  action_dtime = some now;
  status_code = status_part_filled;
  version_nbr = r.version_nbr + 1;
}

-- `item_totals`
unfoldable pub item_totals : List LmEntry → Dict ℕ ℕ → Dict ℕ ℕ
item_totals [] d = d
item_totals (a ∷ lm) d = item_totals lm (if ltb 0 a.lm_qty then add_to a.item_id a.lm_qty d else d)

-- the loop over `item_totals`; an item that the request does not name is passed over
unfoldable pub issue_items : String → ℕ → ℕ → Dict ℕ ℕ → List ReliefRqstItem → List ReliefRqstItem
unfolding mark_issued
issue_items user now rqst [] rs = rs
issue_items user now rqst ((item, q) ∷ d) rs =
    issue_items user now rqst d (modify (is_rqst_item rqst item) (mark_issued user now q) rs)

unfoldable pub update_dispatch_records :
    String → ℕ → ReliefPkg → ReliefRqst → List LmEntry → Db → Db
unfolding mark_dispatched item_totals issue_items mark_part_filled
update_dispatch_records user now pkg rqst lm s = record s {
  packages = modify (is_package pkg.reliefpkg_id) (mark_dispatched user now) s.packages;
  rqst_items = issue_items user now rqst.reliefrqst_id (item_totals lm []) s.rqst_items;
  requests = modify (is_request rqst.reliefrqst_id) (mark_part_filled user now) s.requests;
}

-- The tests of step 0 on the package that was found.
unfoldable pub dispatchable : ℕ → ReliefPkg → Dispatch ⊤
dispatchable version p =
    if not (p.version_nbr == version)
    then raise package_modified
    else if p.status_code == b'D'
    then raise already_dispatched
    else if not (p.status_code == b'P' || p.status_code == b'V')
    then raise (wrong_status p.status_code)
    else pure tt

-- The steps that write, on the package and the request that were found.
unfoldable pub dispatch_found : String → ℕ → ReliefPkg → List LmEntry → ReliefRqst → Dispatch ⊤
unfolding update_dispatch_records
dispatch_found user now p lm r = do
  lo ← gets (get_lo_plan p.reliefpkg_id)
  undo_lo_reservations user now lo
  modifies (overwrite_package_items user now p.reliefpkg_id lm lo)
  deplete_usable_stock user now lm
  modifies (update_dispatch_records user now p r lm)

unfoldable pub dispatch_package : String → ℕ → List LmEntry → ReliefPkg → Dispatch ⊤
unfolding dispatch_found
dispatch_package user now lm p s = elim (first (is_request p.reliefrqst_id) s.requests) [
  | none ↦ raise request_not_found s
  | some r ↦ dispatch_found user now p lm r s
]

-- A failure of a step answers False and leaves the session as it is: only an exception rolls back.
unfoldable pub submit_for_dispatch : ℕ → List LmEntry → String → ℕ → ℕ → Dispatch ⊤
unfolding dispatchable dispatch_package
submit_for_dispatch pkg lm user now version s = elim (first (is_package pkg) s.packages) [
  | none ↦ raise (package_not_found pkg) s
  | some p ↦ (dispatchable version p >> dispatch_package user now lm p) s
]
