-- ===== src/Packaging/Sound.antt =====
-- Whatever is done to a package in preparation or approval keeps the invariants of the stock.
use dmis_feature_branch.Base.{
  ℕ, inl, inr, String, true, false, Option, none, some, List, Bool-cases, Option-cases, not, ◌||◌,
}
use dmis_feature_branch.Base.Table.{first}
use dmis_feature_branch.Base.Action.{for_each-Ends, Keeps, >>=-Keeps}
use dmis_feature_branch.Store.{Db, ReliefPkg, ReliefPkgItem, ReliefRqst, ReliefRqstItem}
use dmis_feature_branch.ItemStatus.{ItemStatusRow}
use dmis_feature_branch.Reservation.Maps.{Allocation, package_of, items_of}
use dmis_feature_branch.Dispatch.Submit.{is_request}
use dmis_feature_branch.Packaging.Form.{ItemForm}
use dmis_feature_branch.Packaging.Draft.{mark_draft, draft_steps, save_draft}
use dmis_feature_branch.Packaging.Submit.{
  mark_submitted, mark_sent, mark_request_sent, submit_steps, submit_for_approval, send_steps,
  send_for_dispatch,
}
use dmis_feature_branch.Packaging.Approve.{
  items_of_rqst, check_issue, check_package, check_allocated, mark_pending, mark_approved,
  draft_approval_steps, save_draft_approval, approve_steps, approve_and_dispatch,
}
use dmis_feature_branch.Packaging.Routes.{
  PrepareAction, ApproveAction, Roles, is_open, is_pending_of, is_some, prepare_action,
  prepare_found, prepare_package, approve_action, approve_found, approve_package,
}
use dmis_feature_branch.Packaging.Kept.{
  IsSound, rolled_back-IsSound, reserve-Keeps, commit-Keeps, require-Keeps,
  validate_version_nbr-Keeps, validate_package-Keeps, found_package-Keeps, refuse_other-Keeps,
  refuse_modified-Keeps, process_allocations-Keeps,
}

pub check_package-Keeps : (pkg rqst : ℕ) → Keeps IsSound (check_package pkg rqst)
unfolding check_package
check_package-Keeps pkg rqst =
    >>=-Keeps _ _ _ (λ s. require-Keeps IsSound _ _ s)
      (λ _ s.
        for_each-Ends (λ _. IsSound) (check_issue (items_of pkg s))
          (λ i _ t. check_issue-Keeps (items_of pkg s) i t) (items_of_rqst rqst s) s)
  where
    check_issue-Keeps :
        (ps : List ReliefPkgItem) (i : ReliefRqstItem) → Keeps IsSound (check_issue ps i)
    check_issue-Keeps ps i = unfold check_issue in require-Keeps IsSound _ _

check_allocated-Keeps :
    (rqst : ℕ) (news : List Allocation) → Keeps IsSound (check_allocated rqst news)
unfolding check_allocated
check_allocated-Keeps rqst news s = require-Keeps IsSound _ _ s

module _ (wording : ℕ → ℕ → String) (denied : String) (rows : List ItemStatusRow) (user : String)
    (now today : ℕ) (form : ℕ → ItemForm) (id : ℕ) (version pkg_version : Option ℕ)
    (r : ReliefRqst) where
  draft_steps-Keeps :
      Keeps IsSound (draft_steps wording denied rows user now today form id version pkg_version r)
  unfolding draft_steps mark_draft
  draft_steps-Keeps =
      >>=-Keeps _ _ _ (validate_version_nbr-Keeps IsSound version r.version_nbr) (λ _.
        >>=-Keeps _ _ _
          (λ s. validate_package-Keeps IsSound pkg_version (package_of r.reliefrqst_id s) s)
          (λ _.
            >>=-Keeps _ _ _
              (process_allocations-Keeps wording denied rows user now today false form id
                r.reliefrqst_id)
              (λ both s h.
                reserve-Keeps r.reliefrqst_id both.0 both.1 (mark_draft user now r.reliefrqst_id s)
                  h)))

  -- Saving a draft keeps both invariants of the stock, whether it succeeds or fails.
  save_draft-IsSound :
      (s : Db)
      → IsSound s
      → IsSound (save_draft wording denied rows user now today form id version pkg_version r s).1
  unfolding save_draft
  save_draft-IsSound s h = rolled_back-IsSound s _ h (draft_steps-Keeps s h)

  submit_steps-Keeps :
      Keeps IsSound (submit_steps wording denied rows user now today form id version pkg_version r)
  unfolding submit_steps mark_submitted
  submit_steps-Keeps =
      >>=-Keeps _ _ _ (validate_version_nbr-Keeps IsSound version r.version_nbr) (λ _ s0.
        >>=-Keeps _ _ _ (validate_package-Keeps IsSound pkg_version (package_of r.reliefrqst_id s0))
          (λ _.
            >>=-Keeps _ _ _ (refuse_other-Keeps IsSound user (package_of r.reliefrqst_id s0)) (λ _.
              >>=-Keeps _ _ _
                (process_allocations-Keeps wording denied rows user now today false form id
                  r.reliefrqst_id)
                (λ both s1.
                  >>=-Keeps _ _ _ (found_package-Keeps IsSound (package_of r.reliefrqst_id s1))
                    (λ p.
                      >>=-Keeps _ _ _
                        (refuse_modified-Keeps IsSound user (package_of r.reliefrqst_id s0) p)
                        (λ _ s h.
                          reserve-Keeps r.reliefrqst_id both.0 both.1
                            (mark_submitted user now p.reliefpkg_id r.reliefrqst_id s) h))
                    s1)))
          s0)

  send_steps-Keeps :
      Keeps IsSound (send_steps wording denied rows user now today form id version pkg_version r)
  unfolding send_steps mark_sent mark_request_sent
  send_steps-Keeps =
      >>=-Keeps _ _ _ (validate_version_nbr-Keeps IsSound version r.version_nbr) (λ _ s0.
        >>=-Keeps _ _ _ (validate_package-Keeps IsSound pkg_version (package_of r.reliefrqst_id s0))
          (λ _.
            >>=-Keeps _ _ _
              (process_allocations-Keeps wording denied rows user now today true form id
                r.reliefrqst_id)
              (λ both s1.
                >>=-Keeps _ _ _ (found_package-Keeps IsSound (package_of r.reliefrqst_id s1))
                  (λ p s h.
                    >>=-Keeps IsSound _ _ (commit-Keeps r.reliefrqst_id) (λ _ t k. k)
                      (mark_sent user now p.reliefpkg_id s) h)
                  s1))
          s0)

  module _ (p : ReliefPkg) where
    draft_approval_steps-Keeps :
        Keeps IsSound
          (draft_approval_steps wording denied rows user now today form id version pkg_version r p)
    unfolding draft_approval_steps mark_pending
    draft_approval_steps-Keeps =
        >>=-Keeps _ _ _ (validate_version_nbr-Keeps IsSound version r.version_nbr) (λ _.
          >>=-Keeps _ _ _ (validate_version_nbr-Keeps IsSound pkg_version p.version_nbr) (λ _.
            >>=-Keeps _ _ _
              (process_allocations-Keeps wording denied rows user now today false form id
                r.reliefrqst_id)
              (λ both s h.
                reserve-Keeps r.reliefrqst_id both.0 both.1 (mark_pending user now p.reliefpkg_id s)
                  h)))

    approve_steps-Keeps :
        Keeps IsSound
          (approve_steps wording denied rows user now today form id version pkg_version r p)
    unfolding approve_steps mark_approved mark_request_sent
    approve_steps-Keeps =
        >>=-Keeps _ _ _ (validate_version_nbr-Keeps IsSound version r.version_nbr) (λ _.
          >>=-Keeps _ _ _ (validate_version_nbr-Keeps IsSound pkg_version p.version_nbr) (λ _.
            >>=-Keeps _ _ _
              (process_allocations-Keeps wording denied rows user now today false form id
                r.reliefrqst_id)
              (λ both. >>=-Keeps _ _ _ (check_package-Keeps p.reliefpkg_id r.reliefrqst_id) (λ _.
                >>=-Keeps _ _ _ (check_allocated-Keeps r.reliefrqst_id both.0) (λ _ s h.
                  >>=-Keeps IsSound _ _ (commit-Keeps r.reliefrqst_id) (λ _ t k. k)
                    (mark_approved user now p.reliefpkg_id r.reliefrqst_id both.0 s) h)))))

module _ (wording : ℕ → ℕ → String) (denied : String) (rows : List ItemStatusRow) (user : String)
    (now today : ℕ) (form : ℕ → ItemForm) (roles : Roles) where
  prepare_action-IsSound :
      (a : PrepareAction) (id : ℕ) (version pkg_version : Option ℕ) (r : ReliefRqst) (s : Db)
      → IsSound s
      → IsSound
          (prepare_action wording denied rows user now today form roles a id version pkg_version r
            s).1
  unfolding prepare_action submit_for_approval send_for_dispatch
  prepare_action-IsSound PrepareAction.save id v w r s h =
      save_draft-IsSound wording denied rows user now today form id v w r s h
  prepare_action-IsSound PrepareAction.submit id v w r s h = elim (Bool-cases roles.officer) [
    | inl t ↦ rw t (
        rolled_back-IsSound s _ h
          (submit_steps-Keeps wording denied rows user now today form id v w r s h))
    | inr t ↦ rw t h
  ]
  prepare_action-IsSound PrepareAction.send id v w r s h = elim (Bool-cases roles.manager) [
    | inl t ↦ rw t (
        rolled_back-IsSound s _ h
          (send_steps-Keeps wording denied rows user now today form id v w r s h))
    | inr t ↦ rw t h
  ]
  prepare_action-IsSound PrepareAction.other id v w r s h = h

  prepare_found-IsSound :
      (a : PrepareAction) (id : ℕ) (version pkg_version : Option ℕ) (r : ReliefRqst) (s : Db)
      → IsSound s
      → IsSound
          (prepare_found wording denied rows user now today form roles a id version pkg_version r
            s).1
  unfolding prepare_found
  prepare_found-IsSound a id v w r s h = elim (Bool-cases (is_open r)) [
    | inl t ↦ rw t (prepare_action-IsSound a id v w r s h)
    | inr t ↦ rw t h
  ]

  -- Whatever button of the preparation page is pressed, and whether the call succeeds or fails, both
  -- invariants of the stock are kept: no batch has more reserved than usable, and the reserved quantity
  -- of each active warehouse row is the sum of its batches' reservations.
  pub prepare_package-IsSound :
      (a : PrepareAction) (rqst id : ℕ) (version pkg_version : Option ℕ) (s : Db)
      → IsSound s
      → IsSound
          (prepare_package wording denied rows user now today form roles a rqst id version
            pkg_version s).1
  unfolding prepare_package
  prepare_package-IsSound a rqst id v w s h =
      elim (Bool-cases (not (roles.officer || roles.manager))) [
        | inl t ↦ rw t h
        | inr t ↦ rw t (elim (Option-cases (first (is_request rqst) s.requests)) [
          | inl e ↦ rw (e, prepare_package) h
          | inr (r, e) ↦ rw (e, prepare_package) (prepare_found-IsSound a id v w r s h)
        ])
      ]

  approve_action-IsSound :
      (a : ApproveAction) (id : ℕ) (version pkg_version : Option ℕ) (r : ReliefRqst) (p : ReliefPkg)
      (s : Db)
      → IsSound s
      → IsSound
          (approve_action wording denied rows user now today form roles a id version pkg_version r p
            s).1
  unfolding approve_action save_draft_approval approve_and_dispatch
  approve_action-IsSound ApproveAction.save id v w r p s h =
      rolled_back-IsSound s _ h
        (draft_approval_steps-Keeps wording denied rows user now today form id v w r p s h)
  approve_action-IsSound ApproveAction.approve id v w r p s h =
      rolled_back-IsSound s _ h
        (approve_steps-Keeps wording denied rows user now today form id v w r p s h)
  approve_action-IsSound ApproveAction.other id v w r p s h = h

  approve_found-IsSound :
      (a : ApproveAction) (id : ℕ) (version pkg_version : Option ℕ) (r : ReliefRqst)
      (p : Option ReliefPkg) (s : Db)
      → IsSound s
      → IsSound
          (approve_found wording denied rows user now today form roles a id version pkg_version r p
            s).1
  unfolding approve_found
  approve_found-IsSound a id v w r none s h = h
  approve_found-IsSound a id v w r (some p) s h = elim (Bool-cases (is_some p.dispatch_dtime)) [
    | inl t ↦ rw t h
    | inr t ↦ rw t (approve_action-IsSound a id v w r p s h)
  ]

  -- Whatever button of the approval page is pressed, and whether the call succeeds or fails, both
  -- invariants of the stock are kept: no batch has more reserved than usable, and the reserved quantity
  -- of each active warehouse row is the sum of its batches' reservations.
  pub approve_package-IsSound :
      (a : ApproveAction) (rqst id : ℕ) (version pkg_version : Option ℕ) (s : Db)
      → IsSound s
      → IsSound
          (approve_package wording denied rows user now today form roles a rqst id version
            pkg_version s).1
  unfolding approve_package
  approve_package-IsSound a rqst id v w s h = elim (Bool-cases (not roles.manager)) [
    | inl t ↦ rw t h
    | inr t ↦ rw t (elim (Option-cases (first (is_request rqst) s.requests)) [
      | inl e ↦ rw (e, approve_package) h
      | inr (r, e) ↦
          rw (e, approve_package)
            (approve_found-IsSound a id v w r (first (is_pending_of rqst) s.packages) s h)
    ])
  ]
