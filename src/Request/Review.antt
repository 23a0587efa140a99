-- ===== src/Request/Review.antt =====
-- The eligibility review: `get_pending_eligibility_requests`, `get_request_eligibility_details` and
-- `submit_eligibility_decision`.
use dmis_feature_branch.Base.{
  ℕ, ◌+◌, String, Bool, true, Option, none, some, List, [], ◌∷◌, ⊤, ◌==◌, ◌&&◌, ◌||◌, not,
  if◌then◌else◌, any, filter, is_some,
}
use dmis_feature_branch.Base.Table.{first}
use dmis_feature_branch.Base.Sort.{Part, up, down, sorted}
use dmis_feature_branch.Base.Action.{pure, raise}
use dmis_feature_branch.Base.Text.{strip}
use dmis_feature_branch.Store.{ReliefRqst, ReliefRqstItem, Text}
use dmis_feature_branch.Request.Desk.{
  Desk, Requests, user_not_found, request_not_found, cannot_review, already_decided,
  invalid_decision, reason_required, status_awaiting_approval, status_submitted, status_denied,
  status_ineligible, is_request, items_of_request, find_user,
}
use dmis_feature_branch.Request.Draft.{change_request}

abbrev pub is_pending : ReliefRqst → Bool
is_pending r = r.status_code == status_awaiting_approval && not (is_some r.review_by_id)

-- ORDER BY request_date, urgency_ind DESC
abbrev pub pending_key : ReliefRqst → List Part
pending_key r = up r.request_date ∷ down r.urgency_ind ∷ []

unfoldable pub get_pending_eligibility_requests : Desk → List ReliefRqst
get_pending_eligibility_requests s = sorted pending_key (filter is_pending s.tables.requests)

abbrev pub decision_made : ReliefRqst → Bool
decision_made r =
    is_some r.review_by_id || r.status_code == status_ineligible || r.status_code == status_denied

-- 'decision_made' and 'can_edit' of the dict, with the request and its items
unfoldable pub get_request_eligibility_details :
    ℕ → Desk → Option (ReliefRqst × List ReliefRqstItem × Bool × Bool)
get_request_eligibility_details rqst s = elim (first (is_request rqst) s.tables.requests) [
  | none ↦ none
  | some r ↦ some (
    r,
    items_of_request rqst s,
    decision_made r,
    not (decision_made r) && r.status_code == status_awaiting_approval,
  )
]

-- `not reason or not reason.strip()`
abbrev pub lacks_reason : Option Text → Bool
lacks_reason none = true
lacks_reason (some t) = not (any (λ x. true) (strip t))

-- `reason.strip() if reason else None`
abbrev pub stripped : Option Text → Option Text
stripped none = none
stripped (some []) = none
stripped (some (c ∷ t)) = some (strip (c ∷ t))

unfoldable pub mark_ineligible : Option Text → String → ℕ → ReliefRqst → ReliefRqst
mark_ineligible reason reviewer now r = record r {
  review_by_id = some reviewer;
  review_dtime = some now;
  status_code = status_ineligible;
  status_reason_desc = stripped reason;
  action_by_id = some reviewer;
  action_dtime = some now;
  version_nbr = r.version_nbr + 1;
}

unfoldable pub mark_eligible : String → ℕ → ReliefRqst → ReliefRqst
mark_eligible reviewer now r = record r {
  review_by_id = some reviewer;
  review_dtime = some now;
  status_code = status_submitted;
  version_nbr = r.version_nbr + 1;
}

-- what the decision writes; `decision` is the character, 'Y' or 'N'
abbrev pub decide : ℕ → Option Text → String → ℕ → ReliefRqst → ReliefRqst
decide decision reason reviewer now r =
    if decision == b'N' then mark_ineligible reason reviewer now r else mark_eligible reviewer now r

-- the tests and the write, on the request that was found
unfoldable pub decide_found : ℕ → ℕ → Option Text → String → ℕ → ReliefRqst → Requests ⊤
unfolding mark_ineligible mark_eligible
decide_found rqst decision reason email now r s =
    if not (r.status_code == status_awaiting_approval)
    then raise (cannot_review r.status_code) s
    else if is_some r.review_by_id
    then raise already_decided s
    else if not (decision == b'Y' || decision == b'N')
    then raise invalid_decision s
    else if decision == b'N' && lacks_reason reason
    then raise reason_required s
    else elim (find_user email s) [
      | none ↦ raise (user_not_found email) s
      | some u ↦ pure tt (change_request rqst (decide decision reason u.user_name now) s)
    ]

unfoldable pub submit_eligibility_decision : ℕ → ℕ → Option Text → String → ℕ → Requests ⊤
unfolding decide_found
submit_eligibility_decision rqst decision reason email now s =
    elim (first (is_request rqst) s.tables.requests) [
      | none ↦ raise request_not_found s
      | some r ↦ decide_found rqst decision reason email now r s
    ]
