-- ===== src/Packaging/Review.antt =====
-- The review page (review_approval): the manager sends a package on as it was submitted, or back.
use dmis_feature_branch.Base.{
  ℕ, ◌+◌, String, Option, none, some, ⊤, ltb, ◌||◌, not, if◌then◌else◌, any,
}
use dmis_feature_branch.Base.Table.{first, modify}
use dmis_feature_branch.Base.Action.{Action, ◌>>◌, raise, modifies}
use dmis_feature_branch.Store.{Db, ReliefPkg, ReliefRqst}
use dmis_feature_branch.Reservation.Commit.{commit_inventory}
use dmis_feature_branch.Dispatch.Submit.{is_package, is_request, mark_dispatched}
use dmis_feature_branch.Packaging.Form.{
  PackFailure, access_denied, invalid_action, no_pending_package, already_dispatched,
  request_missing, nothing_allocated,
}
use dmis_feature_branch.Packaging.Draft.{validate_version_nbr, rolled_back_to}
use dmis_feature_branch.Packaging.Submit.{require, as_commit, mark_request_sent}
use dmis_feature_branch.Packaging.Approve.{items_of_rqst, all_items_unavailable, check_package}
use dmis_feature_branch.Packaging.Routes.{Roles, is_pending_of, is_some}

pub data ReviewAction : Type 0 where
  approve : ReviewAction
  reject : ReviewAction
  other : ReviewAction

unfoldable pub check_issued : ℕ → Action Db PackFailure ⊤
check_issued rqst s =
    require (any (λ i. ltb 0 i.issue_qty) (items_of_rqst rqst s) || all_items_unavailable rqst s)
      nothing_allocated s

module _ (user : String) (now : ℕ) where
  unfoldable pub mark_reviewed : ℕ → Db → Db
  unfolding mark_dispatched
  mark_reviewed pkg s = record s {
    packages = modify (is_package pkg) (mark_dispatched user now) s.packages;
  }

  unfoldable pub review_steps :
      Option ℕ → Option ℕ → ReliefRqst → ReliefPkg → Action Db PackFailure ⊤
  unfolding validate_version_nbr check_package check_issued mark_reviewed mark_request_sent
  review_steps version pkg_version r p = do
    validate_version_nbr version r.version_nbr
    validate_version_nbr pkg_version p.version_nbr
    check_package p.reliefpkg_id r.reliefrqst_id
    check_issued r.reliefrqst_id
    modifies (mark_reviewed p.reliefpkg_id)
    (λ s. as_commit (commit_inventory r.reliefrqst_id s))
    modifies (mark_request_sent user now r.reliefrqst_id)

  unfoldable pub send_back : ReliefPkg → ReliefPkg
  send_back p = record p {
    verify_by_id = none;
    verify_dtime = none;
    status_code = b'P';
    update_by_id = user;
    update_dtime = now;
    version_nbr = p.version_nbr + 1;
  }

  unfoldable pub record_action : ReliefRqst → ReliefRqst
  record_action r = record r {
    action_by_id = some user;
    action_dtime = some now;
    version_nbr = r.version_nbr + 1;
  }

  unfoldable pub mark_rejected : ℕ → ℕ → Db → Db
  unfolding send_back record_action
  mark_rejected pkg rqst s = record s {
    packages = modify (is_package pkg) send_back s.packages;
    requests = modify (is_request rqst) record_action s.requests;
  }

  unfoldable pub reject_steps :
      Option ℕ → Option ℕ → ReliefRqst → ReliefPkg → Action Db PackFailure ⊤
  unfolding validate_version_nbr mark_rejected
  reject_steps version pkg_version r p = do
    validate_version_nbr version r.version_nbr
    validate_version_nbr pkg_version p.version_nbr
    modifies (mark_rejected p.reliefpkg_id r.reliefrqst_id)

  unfoldable pub review_action :
      ReviewAction → Option ℕ → Option ℕ → ReliefRqst → ReliefPkg → Action Db PackFailure ⊤
  unfolding review_steps reject_steps
  review_action ReviewAction.approve v w r p s = rolled_back_to s (review_steps v w r p s)
  review_action ReviewAction.reject v w r p s = rolled_back_to s (reject_steps v w r p s)
  review_action ReviewAction.other v w r p s = raise invalid_action s

  unfoldable pub review_found :
      ReviewAction → Option ℕ → Option ℕ → ReliefRqst → Option ReliefPkg → Action Db PackFailure ⊤
  unfolding review_action
  review_found a v w r none = raise no_pending_package
  review_found a v w r (some p) =
      if is_some p.dispatch_dtime then raise already_dispatched else review_action a v w r p

  -- the POST of review_approval
  unfoldable pub review_approval :
      Roles → ReviewAction → ℕ → Option ℕ → Option ℕ → Action Db PackFailure ⊤
  unfolding review_found
  review_approval roles a rqst v w s =
      if not roles.manager
      then raise access_denied s
      else elim (first (is_request rqst) s.requests) [
        | none ↦ raise request_missing s
        | some r ↦ review_found a v w r (first (is_pending_of rqst) s.packages) s
      ]
