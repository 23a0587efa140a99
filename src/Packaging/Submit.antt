-- ===== src/Packaging/Submit.antt =====
-- The officer's submission to the manager (_submit_for_approval), and the manager's dispatch of a
-- package that no one else has prepared (_send_for_dispatch).
use dmis_feature_branch.Base.{
  ℕ, ◌+◌, String, Bool, true, false, Option, none, some, List, ⊤, ◌==◌, ◌&&◌, not, if◌then◌else◌,
}
use dmis_feature_branch.Base.Table.{modify}
use dmis_feature_branch.Base.Action.{
  Result, ok, err, Action, ◌>>=◌, ◌>>◌, pure, raise, gets, modifies,
}
use dmis_feature_branch.Store.{Db, ReliefPkg, ReliefRqst}
use dmis_feature_branch.ItemStatus.{ItemStatusRow}
use dmis_feature_branch.Reservation.Maps.{Failure, package_of}
use dmis_feature_branch.Reservation.Reserve.{reserve_inventory}
use dmis_feature_branch.Reservation.Commit.{commit_inventory}
use dmis_feature_branch.Dispatch.Submit.{is_package, is_request, mark_part_filled}
use dmis_feature_branch.Packaging.Form.{
  ItemForm, PackFailure, access_denied, submitted_by_another, package_missing, commit_failed,
}
use dmis_feature_branch.Packaging.Process.{process_allocations}
use dmis_feature_branch.Packaging.Draft.{
  validate_version_nbr, validate_package, mark_preparing, as_pack, rolled_back_to,
}
use text.Mathlib.Text.{◌==◌ as str_eq}

-- a test that fails with `e`
abbrev pub require : Bool → PackFailure → Action Db PackFailure ⊤
require true e = pure tt
require false e = raise e

-- a call of commit_inventory, with its failure as one of this module
abbrev pub as_commit : Result Failure ⊤ × Db → Result PackFailure ⊤ × Db
as_commit (ok a, s) = (ok a, s)
as_commit (err e, s) = (err (commit_failed e), s)

abbrev pub found_package : Option ReliefPkg → Action Db PackFailure ReliefPkg
found_package none = raise package_missing
found_package (some p) = pure p

-- a package that another officer has made, and that is pending
unfoldable pub is_of_another : String → ReliefPkg → Bool
is_of_another user p = p.status_code == b'P' && not (str_eq p.create_by_id user)

-- The test before the form is read: what is pending is updated by its author only.
unfoldable pub refuse_other : String → Option ReliefPkg → Action Db PackFailure ⊤
unfolding is_of_another
refuse_other user none = pure tt
refuse_other user (some p) = require (not (is_of_another user p)) submitted_by_another

-- The test after it: has the package's version changed meanwhile?
unfoldable pub refuse_modified : String → Option ReliefPkg → ReliefPkg → Action Db PackFailure ⊤
unfolding is_of_another
refuse_modified user none p = pure tt
refuse_modified user (some before) p =
    require (not (not (p.version_nbr == before.version_nbr) && is_of_another user p))
      submitted_by_another

module _ (user : String) (now : ℕ) where
  -- the sentinel `__PENDING_LM__` tells a submitted package from a draft
  unfoldable pub submit_package : ReliefPkg → ReliefPkg
  submit_package p = record p {
    status_code = b'P';
    verify_by_id = some "__PENDING_LM__";
    verify_dtime = some now;
    update_by_id = user;
    update_dtime = now;
    version_nbr = p.version_nbr + 1;
  }

  unfoldable pub mark_submitted : ℕ → ℕ → Db → Db
  unfolding submit_package mark_preparing
  mark_submitted pkg rqst s = record s {
    packages = modify (is_package pkg) submit_package s.packages;
    requests = modify (is_request rqst) (mark_preparing user now) s.requests;
  }

  -- the same without a new version, as _send_for_dispatch writes it
  unfoldable pub send_package : ReliefPkg → ReliefPkg
  send_package p = record p {
    verify_by_id = some user;
    verify_dtime = some now;
    status_code = b'D';
    dispatch_dtime = some now;
    update_by_id = user;
    update_dtime = now;
  }

  unfoldable pub mark_sent : ℕ → Db → Db
  unfolding send_package
  mark_sent pkg s = record s { packages = modify (is_package pkg) send_package s.packages }

  unfoldable pub mark_request_sent : ℕ → Db → Db
  unfolding mark_part_filled
  mark_request_sent rqst s = record s {
    requests = modify (is_request rqst) (mark_part_filled user now) s.requests;
  }

module _ (wording : ℕ → ℕ → String) (denied : String) (rows : List ItemStatusRow) (user : String)
    (now today : ℕ) (form : ℕ → ItemForm) where
  unfoldable pub submit_steps : ℕ → Option ℕ → Option ℕ → ReliefRqst → Action Db PackFailure ⊤
  unfolding validate_version_nbr validate_package refuse_other refuse_modified mark_submitted
  submit_steps id version pkg_version r = do
    validate_version_nbr version r.version_nbr
    existing ← gets (package_of r.reliefrqst_id)
    validate_package pkg_version existing
    refuse_other user existing
    both ← process_allocations wording denied rows user now today false form id r.reliefrqst_id
    after ← gets (package_of r.reliefrqst_id)
    pkg ← found_package after
    refuse_modified user existing pkg
    modifies (mark_submitted user now pkg.reliefpkg_id r.reliefrqst_id)
    (λ s. as_pack (reserve_inventory r.reliefrqst_id both.0 (some both.1) s))

  -- `officer` is what is_logistics_officer answers
  unfoldable pub submit_for_approval :
      Bool → ℕ → Option ℕ → Option ℕ → ReliefRqst → Action Db PackFailure ⊤
  unfolding submit_steps
  submit_for_approval officer id version pkg_version r s =
      if officer
      then rolled_back_to s (submit_steps id version pkg_version r s)
      else raise access_denied s

  unfoldable pub send_steps : ℕ → Option ℕ → Option ℕ → ReliefRqst → Action Db PackFailure ⊤
  unfolding validate_version_nbr validate_package mark_sent mark_request_sent
  send_steps id version pkg_version r = do
    validate_version_nbr version r.version_nbr
    existing ← gets (package_of r.reliefrqst_id)
    validate_package pkg_version existing
    process_allocations wording denied rows user now today true form id r.reliefrqst_id
    after ← gets (package_of r.reliefrqst_id)
    pkg ← found_package after
    modifies (mark_sent user now pkg.reliefpkg_id)
    (λ s. as_commit (commit_inventory r.reliefrqst_id s))
    modifies (mark_request_sent user now r.reliefrqst_id)

  -- `manager` is what is_logistics_manager answers
  unfoldable pub send_for_dispatch :
      Bool → ℕ → Option ℕ → Option ℕ → ReliefRqst → Action Db PackFailure ⊤
  unfolding send_steps
  send_for_dispatch manager id version pkg_version r s =
      if manager
      then rolled_back_to s (send_steps id version pkg_version r s)
      else raise access_denied s
