-- ===== src/Packaging/Approve.antt =====
-- The manager's part: saving changes to a submitted package (_save_draft_approval), and approving and
-- dispatching it (_approve_and_dispatch).
use dmis_feature_branch.Base.{
  ℕ, ◌+◌, ◌-◌, String, Bool, true, false, Option, some, List, [], ◌∷◌, ⊤, ltb, ◌==◌, ◌&&◌, ◌||◌,
  not, if◌then◌else◌, any, all, filter, total,
}
use dmis_feature_branch.Base.Table.{modify}
use dmis_feature_branch.Base.Action.{Action, ◌>>=◌, ◌>>◌, modifies, for_each}
use dmis_feature_branch.Store.{Db, ReliefPkg, ReliefPkgItem, ReliefRqst, ReliefRqstItem}
use dmis_feature_branch.ItemStatus.{ItemStatusRow}
use dmis_feature_branch.Reservation.Maps.{Allocation, items_of}
use dmis_feature_branch.Reservation.Reserve.{reserve_inventory}
use dmis_feature_branch.Reservation.Commit.{commit_inventory}
use dmis_feature_branch.Dispatch.Submit.{is_package, mark_dispatched}
use dmis_feature_branch.Packaging.Form.{ItemForm, PackFailure, nothing_allocated, issue_mismatch}
use dmis_feature_branch.Packaging.Process.{process_allocations}
use dmis_feature_branch.Packaging.Draft.{validate_version_nbr, as_pack, rolled_back_to}
use dmis_feature_branch.Packaging.Submit.{require, as_commit, mark_request_sent}

-- `relief_request.items`
abbrev pub items_of_rqst : ℕ → Db → List ReliefRqstItem
items_of_rqst rqst s = filter (λ i. i.reliefrqst_id == rqst) s.rqst_items

-- U, D and W
abbrev pub is_unavailable : ReliefRqstItem → Bool
is_unavailable i = i.status_code == b'U' || i.status_code == b'D' || i.status_code == b'W'

abbrev pub all_items_unavailable : ℕ → Db → Bool
all_items_unavailable rqst s = all is_unavailable (items_of_rqst rqst s)

abbrev pub is_none : List ReliefPkgItem → Bool
is_none [] = true
is_none (p ∷ ps) = false

-- an entry of `pkg_item_totals`
abbrev pub pkg_total : ℕ → List ReliefPkgItem → ℕ
pkg_total item = total (λ p. if p.item_id == item then p.item_qty else 0)

-- `abs(a - b) > 0.001`
abbrev pub differ : ℕ → ℕ → Bool
differ a b = ltb 10 (a - b) || ltb 10 (b - a)

-- one round of the comparison of issued quantities with the package
unfoldable pub check_issue : List ReliefPkgItem → ReliefRqstItem → Action Db PackFailure ⊤
check_issue ps i =
    require
      (not (ltb 0 i.issue_qty && pkg_total i.item_id ps == 0)
        && not (differ i.issue_qty (pkg_total i.item_id ps)))
      (issue_mismatch i.item_id)

-- An empty package passes only if every item is unavailable.
unfoldable pub check_package : ℕ → ℕ → Action Db PackFailure ⊤
unfolding check_issue
check_package pkg rqst = do
  (λ s.
      require (not (is_none (items_of pkg s)) || all_items_unavailable rqst s) nothing_allocated s)
  (λ s. for_each (check_issue (items_of pkg s)) (items_of_rqst rqst s) s)

unfoldable pub check_allocated : ℕ → List Allocation → Action Db PackFailure ⊤
check_allocated rqst news s =
    require (any (λ a. ltb 0 a.allocated_qty) news || all_items_unavailable rqst s)
      nothing_allocated s

-- `total_allocated` of an item
abbrev pub allocated_total : ℕ → List Allocation → ℕ
allocated_total item = total (λ a. if a.item_id == item then a.allocated_qty else 0)

unfoldable pub issue_allocated : List Allocation → ReliefRqstItem → ReliefRqstItem
issue_allocated news i = record i {
  issue_qty = allocated_total i.item_id news;
  version_nbr = i.version_nbr + 1;
}

-- the loop over the items of the request
unfoldable pub issue_all : ℕ → List Allocation → List ReliefRqstItem → List ReliefRqstItem
unfolding issue_allocated
issue_all rqst news [] = []
issue_all rqst news (i ∷ is) =
    (if i.reliefrqst_id == rqst then issue_allocated news i else i) ∷ issue_all rqst news is

module _ (user : String) (now : ℕ) where
  unfoldable pub keep_pending : ReliefPkg → ReliefPkg
  keep_pending p = record p {
    status_code = b'P';
    update_by_id = user;
    update_dtime = now;
    version_nbr = p.version_nbr + 1;
  }

  unfoldable pub mark_pending : ℕ → Db → Db
  unfolding keep_pending
  mark_pending pkg s = record s { packages = modify (is_package pkg) keep_pending s.packages }

  unfoldable pub mark_approved : ℕ → ℕ → List Allocation → Db → Db
  unfolding issue_all mark_dispatched
  mark_approved pkg rqst news s = record s {
    rqst_items = issue_all rqst news s.rqst_items;
    packages = modify (is_package pkg) (mark_dispatched user now) s.packages;
  }

module _ (wording : ℕ → ℕ → String) (denied : String) (rows : List ItemStatusRow) (user : String)
    (now today : ℕ) (form : ℕ → ItemForm) where
  unfoldable pub draft_approval_steps :
      ℕ → Option ℕ → Option ℕ → ReliefRqst → ReliefPkg → Action Db PackFailure ⊤
  unfolding validate_version_nbr mark_pending
  draft_approval_steps id version pkg_version r p = do
    validate_version_nbr version r.version_nbr
    validate_version_nbr pkg_version p.version_nbr
    both ← process_allocations wording denied rows user now today false form id r.reliefrqst_id
    modifies (mark_pending user now p.reliefpkg_id)
    (λ s. as_pack (reserve_inventory r.reliefrqst_id both.0 (some both.1) s))

  unfoldable pub save_draft_approval :
      ℕ → Option ℕ → Option ℕ → ReliefRqst → ReliefPkg → Action Db PackFailure ⊤
  unfolding draft_approval_steps
  save_draft_approval id version pkg_version r p s =
      rolled_back_to s (draft_approval_steps id version pkg_version r p s)

  unfoldable pub approve_steps :
      ℕ → Option ℕ → Option ℕ → ReliefRqst → ReliefPkg → Action Db PackFailure ⊤
  unfolding validate_version_nbr check_package check_allocated mark_approved mark_request_sent
  approve_steps id version pkg_version r p = do
    validate_version_nbr version r.version_nbr
    validate_version_nbr pkg_version p.version_nbr
    both ← process_allocations wording denied rows user now today false form id r.reliefrqst_id
    check_package p.reliefpkg_id r.reliefrqst_id
    check_allocated r.reliefrqst_id both.0
    modifies (mark_approved user now p.reliefpkg_id r.reliefrqst_id both.0)
    (λ s. as_commit (commit_inventory r.reliefrqst_id s))
    modifies (mark_request_sent user now r.reliefrqst_id)

  unfoldable pub approve_and_dispatch :
      ℕ → Option ℕ → Option ℕ → ReliefRqst → ReliefPkg → Action Db PackFailure ⊤
  unfolding approve_steps
  approve_and_dispatch id version pkg_version r p s =
      rolled_back_to s (approve_steps id version pkg_version r p s)
