-- ===== src/Request/Reachable.antt =====
-- What holds in every state that the calls of the service reach.
use dmis_feature_branch.Base.{◌≡◌, subst, sym, [], All}
use dmis_feature_branch.Request.Desk.{Desk}
use dmis_feature_branch.Request.Moves.{
  Call, create, put_item, drop_item, submit, review, run, put_item_requests, drop_item_requests,
}
use dmis_feature_branch.Request.Recorded.{
  IsRecorded, AllRecorded, create_draft_request-AllRecorded, submit_request-AllRecorded,
  submit_eligibility_decision-AllRecorded,
}

-- The states that the calls reach from a desk without requests.
pub data Reachable : Desk → Type 0 where
  start : {s : Desk} → s.tables.requests ≡ [] → Reachable s
  after_call : {s : Desk} (c : Call) → Reachable s → Reachable (run c s)

run-AllRecorded : (c : Call) (s : Desk) → AllRecorded s → AllRecorded (run c s)
unfolding run
run-AllRecorded (create new today agency urgency event notes now email) s a =
    create_draft_request-AllRecorded new today agency urgency event notes now email s a
run-AllRecorded (put_item user now rqst item qty urgency reason by version) s a =
    subst (All IsRecorded)
      (sym (put_item_requests user now rqst item qty urgency reason by version s)) a
run-AllRecorded (drop_item rqst item) s a =
    subst (All IsRecorded) (sym (drop_item_requests rqst item s)) a
run-AllRecorded (submit rqst version) s a = submit_request-AllRecorded rqst version s a
run-AllRecorded (review rqst decision reason email now) s a =
    submit_eligibility_decision-AllRecorded rqst decision reason email now s a

-- In every state that the calls reach, each request has its reviewer on record exactly from the status
-- submitted on, who acted on it exactly where the status says that someone did, each with its time,
-- and the reason for the statuses that need one.
pub Reachable-AllRecorded : (s : Desk) → Reachable s → AllRecorded s
Reachable-AllRecorded s (start e) = subst (All IsRecorded) (sym e) tt
Reachable-AllRecorded _ (after_call {s} c r) = run-AllRecorded c s (Reachable-AllRecorded s r)
