-- ===== src/Request/Close.antt =====
-- `check_and_autoclose_request`, `can_process_request` and `get_workflow_steps`.
use dmis_feature_branch.Base.{
  ℕ, ◌+◌, Bool, none, some, List, ⊤, ltb, ◌==◌, ◌&&◌, ◌||◌, not, if◌then◌else◌, any, all, filter,
  total, length,
}
use dmis_feature_branch.Base.Table.{first}
use dmis_feature_branch.Base.Action.{pure, raise}
use dmis_feature_branch.Store.{ReliefRqst, ReliefPkg}
use dmis_feature_branch.Request.Desk.{
  Desk, Requests, request_not_found, already_closed, packages_pending, not_fully_received,
  marked_ineligible, cannot_process, status_draft, status_awaiting_approval, status_cancelled,
  status_submitted, status_denied, status_part_filled, status_closed, status_filled,
  status_ineligible, is_request, items_of_request,
}
use dmis_feature_branch.Request.Draft.{change_request}

-- the request's packages in status P or D
abbrev pub pending_packages : ℕ → Desk → List ReliefPkg
pending_packages rqst s =
    filter (λ p. p.reliefrqst_id == rqst && (p.status_code == b'P' || p.status_code == b'D'))
      s.tables.packages

-- the sum over dbintake_item, joined with the packages of the request
abbrev pub received_qty : ℕ → ℕ → Desk → ℕ
received_qty rqst item s =
    total
      (λ i.
        if i.item_id == item
          && any (λ p. p.reliefpkg_id == i.reliefpkg_id && p.reliefrqst_id == rqst)
              s.tables.packages
        then i.usable_qty
        else 0)
      s.intake

abbrev pub all_items_satisfied : ℕ → Desk → Bool
all_items_satisfied rqst s =
    all (λ i. not (ltb (received_qty rqst i.item_id s) i.issue_qty)) (items_of_request rqst s)

unfoldable pub mark_filled : ReliefRqst → ReliefRqst
mark_filled r = record r { status_code = status_filled; version_nbr = r.version_nbr + 1 }

unfoldable pub close_found : ℕ → ReliefRqst → Requests ⊤
unfolding mark_filled
close_found rqst r s =
    if r.status_code == status_filled
    then raise already_closed s
    else if ltb 0 (length (pending_packages rqst s))
    then raise (packages_pending (length (pending_packages rqst s))) s
    else if not (all_items_satisfied rqst s)
    then raise not_fully_received s
    else pure tt (change_request rqst mark_filled s)

unfoldable pub check_and_autoclose_request : ℕ → Requests ⊤
unfolding close_found
check_and_autoclose_request rqst s = elim (first (is_request rqst) s.tables.requests) [
  | none ↦ raise request_not_found s
  | some r ↦ close_found rqst r s
]

unfoldable pub can_process_request : ℕ → Requests ⊤
can_process_request rqst s = elim (first (is_request rqst) s.tables.requests) [
  | none ↦ raise request_not_found s
  | some r ↦
      if r.status_code == status_ineligible
      then raise marked_ineligible s
      else if r.status_code == status_cancelled || r.status_code == status_denied
      then raise (cannot_process r.status_code) s
      else pure tt s
]

-- the step names and the step statuses of the stepper
pub data StepName : Type 0 where
  prepare_request submitted_to_odpem odpem_processing : StepName
  goods_dispatched goods_received request_closed unknown : StepName

pub data StepStatus : Type 0 where
  active completed terminated : StepStatus

unfoldable pub get_workflow_steps : ℕ → ℕ × StepName × StepStatus
get_workflow_steps status =
    if status == status_draft
    then (1, prepare_request, active)
    else if status == status_awaiting_approval || status == status_submitted
    then (2, submitted_to_odpem, active)
    else if status == status_part_filled
    then (3, odpem_processing, active)
    else if status == status_closed
    then (4, goods_dispatched, active)
    else if status == status_filled
    then (5, goods_received, completed)
    else if status == status_cancelled || status == status_denied || status == status_ineligible
    then (2, request_closed, terminated)
    else (1, unknown, active)
