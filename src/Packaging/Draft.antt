-- ===== src/Packaging/Draft.antt =====
-- `_save_draft` and `cancel_preparation` as transactions: a failure rolls back.
use dmis_feature_branch.Base.{
  ℕ, ◌+◌, String, false, Option, none, some, List, ⊤, ◌==◌, not, if◌then◌else◌, filter,
}
use dmis_feature_branch.Base.Table.{modify}
use dmis_feature_branch.Base.Action.{Result, ok, err, Action, ◌>>=◌, ◌>>◌, pure, raise, modifies}
use dmis_feature_branch.Store.{Db, ReliefPkg, ReliefRqst}
use dmis_feature_branch.ItemStatus.{ItemStatusRow}
use dmis_feature_branch.Reservation.Maps.{Failure, package_of}
use dmis_feature_branch.Reservation.Reserve.{reserve_inventory}
use dmis_feature_branch.Reservation.Release.{release_all_reservations}
use dmis_feature_branch.Dispatch.Submit.{is_request, status_part_filled}
use dmis_feature_branch.Packaging.Form.{
  ItemForm, PackFailure, version_required, version_conflict, reservation_failed,
}
use dmis_feature_branch.Packaging.Process.{process_allocations}

-- `expected` is none where the form has no version
unfoldable pub validate_version_nbr : Option ℕ → ℕ → Action Db PackFailure ⊤
validate_version_nbr none actual = raise version_required
validate_version_nbr (some v) actual = if v == actual then pure tt else raise version_conflict

-- `if existing_pkg and package_version: …`
unfoldable pub validate_package : Option ℕ → Option ReliefPkg → Action Db PackFailure ⊤
unfolding validate_version_nbr
validate_package none pkg = pure tt
validate_package (some v) none = pure tt
validate_package (some v) (some p) = validate_version_nbr (some v) p.version_nbr

-- the draft marker on the package
unfoldable pub unverify : ReliefPkg → ReliefPkg
unverify p = record p { verify_by_id = none; verify_dtime = none }

unfoldable pub mark_preparing : String → ℕ → ReliefRqst → ReliefRqst
mark_preparing user now r = record r {
  status_code = status_part_filled;
  action_by_id = some user;
  action_dtime = some now;
  version_nbr = r.version_nbr + 1;
}

unfoldable pub mark_draft : String → ℕ → ℕ → Db → Db
unfolding unverify mark_preparing
mark_draft user now rqst s = record s {
  packages = modify (λ p. p.reliefrqst_id == rqst) unverify s.packages;
  requests = modify (is_request rqst) (mark_preparing user now) s.requests;
}

-- a call of the reservation service, with its failure as one of this module
abbrev pub as_pack : Result Failure ⊤ × Db → Result PackFailure ⊤ × Db
as_pack (ok a, s) = (ok a, s)
as_pack (err e, s) = (err (reservation_failed e), s)

abbrev pub rolled_back_to : Db → Result PackFailure ⊤ × Db → Result PackFailure ⊤ × Db
rolled_back_to t (ok a, s) = (ok a, s)
rolled_back_to t (err e, s) = (err e, t)

module _ (wording : ℕ → ℕ → String) (denied : String) (rows : List ItemStatusRow) (user : String)
    (now today : ℕ) (form : ℕ → ItemForm) where
  -- the call up to its commit, for the request `r`
  unfoldable pub draft_steps : ℕ → Option ℕ → Option ℕ → ReliefRqst → Action Db PackFailure ⊤
  unfolding validate_version_nbr validate_package mark_draft
  draft_steps id version pkg_version r = do
    validate_version_nbr version r.version_nbr
    (λ s. validate_package pkg_version (package_of r.reliefrqst_id s) s)
    both ← process_allocations wording denied rows user now today false form id r.reliefrqst_id
    modifies (mark_draft user now r.reliefrqst_id)
    (λ s. as_pack (reserve_inventory r.reliefrqst_id both.0 (some both.1) s))

  unfoldable pub save_draft : ℕ → Option ℕ → Option ℕ → ReliefRqst → Action Db PackFailure ⊤
  unfolding draft_steps
  save_draft id version pkg_version r s = rolled_back_to s (draft_steps id version pkg_version r s)

-- the deletion of the package's items
unfoldable pub delete_items : ℕ → Db → Db
delete_items rqst s = elim (package_of rqst s) [
  | none ↦ s
  | some p ↦ record s {
    pkg_items = filter (λ i. not (i.reliefpkg_id == p.reliefpkg_id)) s.pkg_items;
  }
]

-- A failure to release is only reported; the service has none.
unfoldable pub cancel_preparation : ℕ → Db → Db
unfolding delete_items
cancel_preparation rqst s = (release_all_reservations rqst (delete_items rqst s)).1
