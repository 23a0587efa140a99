-- ===== src/Packaging/Routes.antt =====
-- The pages' POST handlers: who may call what, and which package and request they act on.
use dmis_feature_branch.Base.{
  ℕ, String, Bool, true, false, Option, none, some, List, [], ◌∷◌, ⊤, ◌==◌, ◌&&◌, ◌||◌, not,
  if◌then◌else◌, any,
}
use dmis_feature_branch.Base.Table.{first, modify}
use dmis_feature_branch.Base.Action.{Result, ok, err, Action, pure, raise}
use dmis_feature_branch.Store.{Db, ReliefPkg, ReliefRqst}
use dmis_feature_branch.ItemStatus.{ItemStatusRow}
use dmis_feature_branch.Reservation.Maps.{Failure, items_of}
use dmis_feature_branch.Reservation.Cancel.{cancel_relief_package}
use dmis_feature_branch.Dispatch.Plan.{
  LmEntry, DispatchFailure, build_lm_plan_from_form, build_lm_plan_from_pkg_items,
}
use dmis_feature_branch.Dispatch.Submit.{
  is_package, is_request, status_part_filled, submit_for_dispatch,
}
use dmis_feature_branch.Packaging.Form.{
  ItemForm, PackFailure, access_denied, invalid_action, not_open, no_pending_package,
  already_dispatched, request_missing,
}
use dmis_feature_branch.Packaging.Draft.{save_draft}
use dmis_feature_branch.Packaging.Submit.{submit_for_approval, send_for_dispatch}
use dmis_feature_branch.Packaging.Approve.{
  save_draft_approval, approve_and_dispatch, all_items_unavailable,
}

-- the form's button
pub data PrepareAction : Type 0 where
  save : PrepareAction
  submit : PrepareAction
  send : PrepareAction
  other : PrepareAction

pub data ApproveAction : Type 0 where
  save : ApproveAction
  approve : ApproveAction
  other : ApproveAction

-- what the session knows of the user's roles
pub record Roles : Type 0 where
  pub officer : Bool
  pub manager : Bool
  pub clerk : Bool

-- `STATUS_SUBMITTED` or `STATUS_PART_FILLED`
abbrev pub is_open : ReliefRqst → Bool
is_open r = r.status_code == 3 || r.status_code == status_part_filled

abbrev pub is_pending_of : ℕ → ReliefPkg → Bool
is_pending_of rqst p = p.reliefrqst_id == rqst && p.status_code == b'P'

abbrev pub is_some : {A : Type 0} → Option A → Bool
is_some none = false
is_some (some a) = true

module _ (wording : ℕ → ℕ → String) (denied : String) (rows : List ItemStatusRow) (user : String)
    (now today : ℕ) (form : ℕ → ItemForm) (roles : Roles) where
  unfoldable pub prepare_action :
      PrepareAction → ℕ → Option ℕ → Option ℕ → ReliefRqst → Action Db PackFailure ⊤
  prepare_action PrepareAction.save id version pkg_version r =
      save_draft wording denied rows user now today form id version pkg_version r
  prepare_action PrepareAction.submit id version pkg_version r =
      submit_for_approval wording denied rows user now today form roles.officer id version
        pkg_version r
  prepare_action PrepareAction.send id version pkg_version r =
      send_for_dispatch wording denied rows user now today form roles.manager id version pkg_version
        r
  prepare_action PrepareAction.other id version pkg_version r = raise invalid_action

  unfoldable pub prepare_found :
      PrepareAction → ℕ → Option ℕ → Option ℕ → ReliefRqst → Action Db PackFailure ⊤
  unfolding prepare_action
  prepare_found a id version pkg_version r =
      if is_open r then prepare_action a id version pkg_version r else raise not_open

  -- the POST of prepare_package
  unfoldable pub prepare_package :
      PrepareAction → ℕ → ℕ → Option ℕ → Option ℕ → Action Db PackFailure ⊤
  unfolding prepare_found
  prepare_package a rqst id version pkg_version s =
      if not (roles.officer || roles.manager)
      then raise access_denied s
      else elim (first (is_request rqst) s.requests) [
        | none ↦ raise request_missing s
        | some r ↦ prepare_found a id version pkg_version r s
      ]

  unfoldable pub approve_action :
      ApproveAction → ℕ → Option ℕ → Option ℕ → ReliefRqst → ReliefPkg → Action Db PackFailure ⊤
  approve_action ApproveAction.save id version pkg_version r p =
      save_draft_approval wording denied rows user now today form id version pkg_version r p
  approve_action ApproveAction.approve id version pkg_version r p =
      approve_and_dispatch wording denied rows user now today form id version pkg_version r p
  approve_action ApproveAction.other id version pkg_version r p = raise invalid_action

  unfoldable pub approve_found :
      ApproveAction
      → ℕ
      → Option ℕ
      → Option ℕ
      → ReliefRqst
      → Option ReliefPkg
      → Action Db PackFailure ⊤
  unfolding approve_action
  approve_found a id version pkg_version r none = raise no_pending_package
  approve_found a id version pkg_version r (some p) =
      if is_some p.dispatch_dtime
      then raise already_dispatched
      else approve_action a id version pkg_version r p

  -- the POST of approve_package
  unfoldable pub approve_package :
      ApproveAction → ℕ → ℕ → Option ℕ → Option ℕ → Action Db PackFailure ⊤
  unfolding approve_found
  approve_package a rqst id version pkg_version s =
      if not roles.manager
      then raise access_denied s
      else elim (first (is_request rqst) s.requests) [
        | none ↦ raise request_missing s
        | some r ↦
            approve_found a id version pkg_version r (first (is_pending_of rqst) s.packages) s
      ]

-- The answers of the routes that call a service.
pub data RouteFailure : Type 0 where
  denied : RouteFailure
  no_warehouse : RouteFailure
  missing : RouteFailure
  version_needed : RouteFailure
  empty_plan : RouteFailure
  not_cancelled : Failure → RouteFailure
  not_sent : DispatchFailure → RouteFailure
  not_dispatched : RouteFailure
  handed_over : RouteFailure
  not_here : RouteFailure

-- a service's call as a transaction: a failure brings back the state `t`
abbrev pub transaction :
    {E : Type 0} → (E → RouteFailure) → Db → Result E ⊤ × Db → Result RouteFailure ⊤ × Db
transaction f t (ok a, s) = (ok a, s)
transaction f t (err e, s) = (err (f e), t)

unfoldable pub cancel_package : Roles → String → ℕ → ℕ → Action Db RouteFailure ⊤
cancel_package roles user now pkg s =
    if not roles.manager
    then raise denied s
    else transaction not_cancelled s (cancel_relief_package pkg user now s)

-- the plan: that of the form, or the package's own items
abbrev pub lm_plan : Option (List LmEntry) → ℕ → Db → List LmEntry
lm_plan (some entries) pkg s = build_lm_plan_from_form entries
lm_plan none pkg s = build_lm_plan_from_pkg_items pkg s

-- An empty plan passes only if every item is unavailable.
unfoldable pub is_plan : List LmEntry → ℕ → Db → Bool
is_plan [] rqst s = all_items_unavailable rqst s
is_plan (a ∷ lm) rqst s = true

unfoldable pub dispatch_plan : String → ℕ → ℕ → ReliefPkg → List LmEntry → Action Db RouteFailure ⊤
unfolding is_plan
dispatch_plan user now version p lm s =
    if is_plan lm p.reliefrqst_id s
    then transaction not_sent s (submit_for_dispatch p.reliefpkg_id lm user now version s)
    else raise empty_plan s

unfoldable pub dispatch_versioned :
    String → ℕ → Option ℕ → ReliefPkg → Option (List LmEntry) → Action Db RouteFailure ⊤
unfolding dispatch_plan
dispatch_versioned user now none p entries s = raise version_needed s
dispatch_versioned user now (some v) p entries s =
    dispatch_plan user now v p (lm_plan entries p.reliefpkg_id s) s

-- The route of the same name as the service's submit_for_dispatch.
unfoldable pub submit_dispatch :
    Roles → String → ℕ → Option ℕ → Option (List LmEntry) → ℕ → Action Db RouteFailure ⊤
unfolding dispatch_versioned
submit_dispatch roles user now version entries pkg s =
    if not roles.manager then raise denied s else elim (first (is_package pkg) s.packages) [
      | none ↦ raise missing s
      | some p ↦ dispatch_versioned user now version p entries s
    ]

unfoldable pub hand_over : String → ℕ → ReliefPkg → ReliefPkg
hand_over user now p = record p {
  received_by_id = some user;
  received_dtime = some now;
  update_by_id = user;
  update_dtime = now;
}

-- the tests on the package that was found; `warehouses` are the clerk's
unfoldable pub handover_found : List ℕ → String → ℕ → ReliefPkg → Action Db RouteFailure ⊤
unfolding hand_over
handover_found warehouses user now p s =
    if not (p.status_code == b'D')
    then raise not_dispatched s
    else if is_some p.received_dtime
    then raise handed_over s
    else if not
        (any (λ i. any (λ w. i.fr_inventory_id == w) warehouses) (items_of p.reliefpkg_id s))
    then raise not_here s
    else pure tt
        (record s { packages = modify (is_package p.reliefpkg_id) (hand_over user now) s.packages })

unfoldable pub mark_handover : Roles → List ℕ → String → ℕ → ℕ → Action Db RouteFailure ⊤
unfolding handover_found
mark_handover roles [] user now pkg s =
    if not roles.clerk then raise denied s else raise no_warehouse s
mark_handover roles (w ∷ ws) user now pkg s =
    if not roles.clerk then raise denied s else elim (first (is_package pkg) s.packages) [
      | none ↦ raise missing s
      | some p ↦ handover_found (w ∷ ws) user now p s
    ]
