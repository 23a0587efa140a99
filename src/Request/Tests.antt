-- ===== src/Request/Tests.antt =====
-- The theorems on requests at concrete inputs.
use dmis_feature_branch.Base.{
  ℕ, String, ◌<◌, ◌≡◌, ◌↔◌, refl, true, Option, none, some, [], ◌∷◌, ⊤, ◌==◌, map, if◌then◌else◌,
  In,
}
use dmis_feature_branch.Base.Table.{first}
use dmis_feature_branch.Base.Sort.{lex, sorted}
use dmis_feature_branch.Base.Action.{Result, ok, err, Ends}
use dmis_feature_branch.Base.Text.{strip, is_space}
use dmis_feature_branch.Store.{ReliefRqst, Text}
use dmis_feature_branch.Store.Samples.{stocked, open_request}
use dmis_feature_branch.Request.Desk.{
  Desk, RequestFailure, cannot_review, marked_ineligible, is_urgency,
}
use dmis_feature_branch.Request.Draft.{add_or_update_request_item, submit_request}
use dmis_feature_branch.Request.Review.{
  submit_eligibility_decision, get_pending_eligibility_requests,
}
use dmis_feature_branch.Request.Close.{can_process_request, check_and_autoclose_request}
use dmis_feature_branch.Request.Moves.{
  Call, create, put_item, submit, review, run, Moved, run-Moved,
}
use dmis_feature_branch.Request.Reachable.{start, after_call, Reachable-AllRecorded}
use dmis_feature_branch.Request.Recorded.{AllRecorded}
use dmis_feature_branch.Request.Decision.{
  IsQueue, IsAwaiting, decided_status, submit_eligibility_decision_settles,
  get_pending_eligibility_requests_lem,
}
use dmis_feature_branch.Request.Items.{
  IsAsked, add_or_update_request_item-IsAsked, submit_request_after_edit,
}
use dmis_feature_branch.Request.Closing.{
  IsComplete, IsEnded, check_and_autoclose_request-IsClosable,
}

-- a desk with one agency and one user, where nothing has been asked for
abbrev empty_desk : Desk
empty_desk = record {
  agencies = 2 ∷ [];
  events = [];
  users = record { email = "a@b"; user_name = "ann" } ∷ [];
  intake = [];
  tables = record stocked { packages = []; requests = []; rqst_items = [] };
}

-- and one with a draft
abbrev draft : ReliefRqst
draft = record open_request { status_code = 0; review_by_id = none; review_dtime = none }

abbrev draft_desk : Desk
draft_desk = record empty_desk {
  tables = record stocked { packages = []; requests = draft ∷ []; rqst_items = [] };
}

-- and one with a request that awaits its review
abbrev waiting : ReliefRqst
waiting = record draft { status_code = 1 }

abbrev review_desk : Desk
review_desk = record empty_desk {
  tables = record stocked { packages = []; requests = waiting ∷ []; rqst_items = [] };
}

-- two requests of one day, critical and of middle urgency, and one that has been reviewed
abbrev queue_desk : Desk
queue_desk = record review_desk {
  tables = record review_desk.tables {
    requests =
        record waiting { reliefrqst_id = 10; urgency_ind = b'C' }
        ∷ record waiting { urgency_ind = b'M' }
        ∷ record waiting { reliefrqst_id = 11; review_by_id = some "ann" }
        ∷ [];
  };
}

run-Moved_example : Moved 9 waiting (run (review 9 b'N' (some (b'x' ∷ [])) "a@b" 7) review_desk)
unfolding first
run-Moved_example = run-Moved (review 9 b'N' (some (b'x' ∷ [])) "a@b" 7) review_desk 9 waiting refl

abbrev opening : Call
opening = create 9 40 2 b'H' none none 1 "a@b"

abbrev filling : Call
filling = put_item "ann" 2 9 3 50 b'M' none none none

Reachable-AllRecorded_example :
    AllRecorded
      (run (review 9 b'Y' none "a@b" 7) (run (submit 9 1) (run filling (run opening empty_desk))))
Reachable-AllRecorded_example =
    Reachable-AllRecorded
      (run (review 9 b'Y' none "a@b" 7) (run (submit 9 1) (run filling (run opening empty_desk))))
      (after_call (review 9 b'Y' none "a@b" 7)
        (after_call (submit 9 1) (after_call filling (after_call opening (start refl)))))

submit_eligibility_decision_settles_example :
    ((decision' : ℕ) (reason' : Option Text) (email' : String) (now' : ℕ)
      → ◌≡◌ {A = Result RequestFailure ⊤ × Desk}
          (submit_eligibility_decision 9 decision' reason' email' now'
            (submit_eligibility_decision 9 b'N' (some (b'x' ∷ [])) "a@b" 7 review_desk).1)
          (
            err (cannot_review (decided_status b'N')),
            (submit_eligibility_decision 9 b'N' (some (b'x' ∷ [])) "a@b" 7 review_desk).1,
          ))
    × ((can_process_request 9
          (submit_eligibility_decision 9 b'N' (some (b'x' ∷ [])) "a@b" 7 review_desk).1).0
        ≡ (if b'N' == b'N' then err marked_ineligible else ok tt))
unfolding submit_eligibility_decision first strip is_space
submit_eligibility_decision_settles_example =
    submit_eligibility_decision_settles 9 b'N' (some (b'x' ∷ [])) "a@b" 7 review_desk refl

get_pending_eligibility_requests_lem_example :
    IsQueue (get_pending_eligibility_requests queue_desk)
    × ((r : ReliefRqst)
        → In r (get_pending_eligibility_requests queue_desk)
          ↔ (In r queue_desk.tables.requests × IsAwaiting r))
get_pending_eligibility_requests_lem_example = get_pending_eligibility_requests_lem queue_desk

-- The critical request of the day comes after the one of middle urgency.
queued : map (λ r. r.urgency_ind) (get_pending_eligibility_requests queue_desk) ≡ b'M' ∷ b'C' ∷ []
unfolding get_pending_eligibility_requests sorted lex
queued = refl

add_or_update_request_item-IsAsked_example :
    Ends
      (λ t.
        IsAsked 9 3 50 b'M' none none t
        × (0 < 50)
        × (is_urgency b'M' ≡ true)
        × (t.tables.requests ≡ draft_desk.tables.requests))
      (add_or_update_request_item "ann" 2 9 3 50 b'M' none none none draft_desk)
add_or_update_request_item-IsAsked_example =
    add_or_update_request_item-IsAsked "ann" 2 9 3 50 b'M' none none none draft_desk

submit_request_after_edit_example :
    Ends
      (λ t. (submit_request 9 1 t).0 ≡ ok tt)
      (add_or_update_request_item "ann" 2 9 3 50 b'M' none none none draft_desk)
unfolding first
submit_request_after_edit_example =
    submit_request_after_edit "ann" 2 9 3 50 b'M' none none none draft_desk draft refl refl

check_and_autoclose_request-IsClosable_example :
    (((check_and_autoclose_request 9 review_desk).0 ≡ ok tt) ↔ IsComplete 9 review_desk)
    × IsEnded 9 review_desk (check_and_autoclose_request 9 review_desk)
check_and_autoclose_request-IsClosable_example =
    check_and_autoclose_request-IsClosable 9 review_desk

-- `review_desk` has no packages and no items, so its request can be closed.
closes : (check_and_autoclose_request 9 review_desk).0 ≡ ok tt
unfolding check_and_autoclose_request first
closes = refl
