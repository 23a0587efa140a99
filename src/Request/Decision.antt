-- ===== src/Request/Decision.antt =====
-- A decision on eligibility is final, and it decides whether the request can be processed.
use dmis_feature_branch.Base.{
  ℕ, ◌≤◌, ◌<◌, ◌≡◌, ◌⊎◌, ◌↔◌, ap, ◌∙◌, inl, inr, String, true, false, Option, none, some, List, [],
  ◌∷◌, All, Option-cases, ⊤, ◌==◌, arith, Bool-cases, In, In-filter, filter, if◌then◌else◌,
}
use dmis_feature_branch.Base.Table.{first, first_holds, first-modify_self}
use dmis_feature_branch.Base.Sort.{lex, part_lt, sorted, sorted-In, sorted-IsSorted, IsSorted}
use dmis_feature_branch.Base.Action.{Result, ok, err}
use dmis_feature_branch.Store.{ReliefRqst, Text}
use dmis_feature_branch.Request.Desk.{
  Desk, RequestFailure, cannot_review, marked_ineligible, is_request,
}
use dmis_feature_branch.Request.Review.{
  mark_ineligible, mark_eligible, decide, decide_found, submit_eligibility_decision,
  get_pending_eligibility_requests, pending_key, is_pending,
}
use dmis_feature_branch.Request.Close.{can_process_request}
use dmis_feature_branch.Request.Outcomes.{submit_eligibility_decision_outcome}

-- the status that a decision gives
abbrev pub decided_status : ℕ → ℕ
decided_status decision = if decision == b'N' then 8 else 3

decide_status :
    (decision : ℕ) (reason : Option Text) (reviewer : String) (now : ℕ) (r : ReliefRqst)
    → ((decide decision reason reviewer now r).status_code ≡ decided_status decision)
      × ((decide decision reason reviewer now r).reliefrqst_id ≡ r.reliefrqst_id)
unfolding mark_ineligible mark_eligible
decide_status decision reason reviewer now r = (ground arith, ground arith)

-- What a call that succeeded has left of the request.
decided :
    (rqst decision : ℕ) (reason : Option Text) (email : String) (now : ℕ) (s : Desk)
    → (submit_eligibility_decision rqst decision reason email now s).0 ≡ ok tt
    → (r : ReliefRqst) × (first
          (is_request rqst)
          (submit_eligibility_decision rqst decision reason email now s).1.tables.requests
        ≡ some r)
      × (r.status_code ≡ decided_status decision)
decided rqst decision reason email now s done =
    elim (submit_eligibility_decision_outcome rqst decision reason email now s) [
      | inl (f, eq) ↦ ground (arith, ap (λ p. p.0) eq)
      | inr (g, u, ready, eq) ↦
          let f = decide decision reason u.user_name now in
          let status = decide_status decision reason u.user_name now g in
          (
            f g,
            ap (λ p. first (is_request rqst) p.1.tables.requests) eq
                ∙ first-modify_self (is_request rqst) f s.tables.requests g ready.0 (
                    ground
                      (arith, status.1, first_holds (is_request rqst) s.tables.requests g ready.0)),
            status.0,
          )
    ]

-- Once a decision has been recorded, every further decision on the request is refused and changes
-- nothing.
submit_eligibility_decision_final :
    (rqst decision : ℕ) (reason : Option Text) (email : String) (now : ℕ) (s : Desk) (decision' : ℕ)
    (reason' : Option Text) (email' : String) (now' : ℕ)
    → (submit_eligibility_decision rqst decision reason email now s).0 ≡ ok tt
    → ◌≡◌ {A = Result RequestFailure ⊤ × Desk}
        (submit_eligibility_decision rqst decision' reason' email' now'
          (submit_eligibility_decision rqst decision reason email now s).1)
        (
          err (cannot_review (decided_status decision)),
          (submit_eligibility_decision rqst decision reason email now s).1,
        )
unfolding submit_eligibility_decision decide_found
submit_eligibility_decision_final rqst decision reason email now s decision' reason' email' now'
      done =
    let (r, found, status) = decided rqst decision reason email now s done in
    refused (submit_eligibility_decision rqst decision reason email now s).1 r found status
  where
    refused :
        (t : Desk) (r : ReliefRqst)
        → first (is_request rqst) t.tables.requests ≡ some r
        → r.status_code ≡ decided_status decision
        → ◌≡◌ {A = Result RequestFailure ⊤ × Desk}
            (submit_eligibility_decision rqst decision' reason' email' now' t)
            (err (cannot_review (decided_status decision)), t)
    refused t r found status =
        let no : (r.status_code == 1) ≡ false = ground arith in
        rw (found, submit_eligibility_decision)
          (rw no (ap (λ n. (err (cannot_review n), t)) status))

-- After a decision, the request can be processed exactly if it was found eligible.
can_process_request_decided :
    (rqst decision : ℕ) (reason : Option Text) (email : String) (now : ℕ) (s : Desk)
    → (submit_eligibility_decision rqst decision reason email now s).0 ≡ ok tt
    → (can_process_request rqst (submit_eligibility_decision rqst decision reason email now s).1).0
      ≡ (if decision == b'N' then err marked_ineligible else ok tt)
unfolding can_process_request
can_process_request_decided rqst decision reason email now s done =
    let (r, found, status) = decided rqst decision reason email now s done in
    rw (found, can_process_request)
      (elim (Bool-cases (decision == b'N')) [ inl t ↦ ground arith | inr t ↦ ground arith ])

-- On the state that a decision leaves, every further decision on the request is refused and changes
-- nothing, and the request can be processed exactly if it was found eligible; an ineligible one is
-- refused as such.
pub submit_eligibility_decision_settles :
    (rqst decision : ℕ) (reason : Option Text) (email : String) (now : ℕ) (s : Desk)
    → (submit_eligibility_decision rqst decision reason email now s).0 ≡ ok tt
    → ((decision' : ℕ) (reason' : Option Text) (email' : String) (now' : ℕ)
        → ◌≡◌ {A = Result RequestFailure ⊤ × Desk}
            (submit_eligibility_decision rqst decision' reason' email' now'
              (submit_eligibility_decision rqst decision reason email now s).1)
            (
              err (cannot_review (decided_status decision)),
              (submit_eligibility_decision rqst decision reason email now s).1,
            ))
      × ((can_process_request rqst
            (submit_eligibility_decision rqst decision reason email now s).1).0
          ≡ (if decision == b'N' then err marked_ineligible else ok tt))
submit_eligibility_decision_settles rqst decision reason email now s done = (
  λ decision' reason' email' now'.
      submit_eligibility_decision_final rqst decision reason email now s decision' reason' email'
        now' done,
  can_process_request_decided rqst decision reason email now s done,
)

-- x goes before y: it is of an earlier day, or of the same day with a letter of urgency not below y's.
abbrev pub IsAhead : ReliefRqst → ReliefRqst → Type 0
IsAhead x y =
    (x.request_date < y.request_date)
    ⊎ ((x.request_date ≡ y.request_date) × (y.urgency_ind ≤ x.urgency_ind))

-- Each request goes before all that follow it.
abbrev pub IsQueue : List ReliefRqst → Type 0
IsQueue [] = Unit
IsQueue (x ∷ xs) = All (IsAhead x) xs × IsQueue xs

abbrev pub IsAwaiting : ReliefRqst → Type 0
IsAwaiting r = (r.status_code ≡ 1) × (r.review_by_id ≡ none)

IsAhead-key : (x y : ReliefRqst) → lex (pending_key y) (pending_key x) ≡ false → IsAhead x y
unfolding lex part_lt
IsAhead-key x y h = ground arith

IsQueue-sorted : (xs : List ReliefRqst) → IsSorted pending_key xs → IsQueue xs
IsQueue-sorted [] h = tt
IsQueue-sorted (x ∷ xs) (before, rest) = (ahead xs before, IsQueue-sorted xs rest)
  where
    ahead :
        (ys : List ReliefRqst)
        → All (λ y. lex (pending_key y) (pending_key x) ≡ false) ys
        → All (IsAhead x) ys
    ahead [] h = tt
    ahead (y ∷ ys) h = (IsAhead-key x y h.0, ahead ys h.1)

is_pending_iff : (r : ReliefRqst) → (is_pending r ≡ true) ↔ IsAwaiting r
is_pending_iff r = elim (Option-cases r.review_by_id) [
  | inl e ↦ (λ h. (ground arith, e), λ h. ground arith)
  | inr (u, e) ↦ (λ h. ground arith, λ h. ground arith)
]

-- The queue of the review holds the requests on file that await approval (status 1) and have no
-- reviewer, and no other; those of an earlier day come first, and those of one day in descending order
-- of the letters of their urgencies, M, L, H and C.
pub get_pending_eligibility_requests_lem :
    (s : Desk)
    → IsQueue (get_pending_eligibility_requests s)
      × ((r : ReliefRqst)
          → In r (get_pending_eligibility_requests s) ↔ (In r s.tables.requests × IsAwaiting r))
unfolding get_pending_eligibility_requests
get_pending_eligibility_requests_lem s =
    let rs = s.tables.requests in
    let held = filter is_pending rs in
    (
      IsQueue-sorted (sorted pending_key held) (sorted-IsSorted pending_key held),
      λ r. (
        λ h.
            let (member, pending) =
              (In-filter is_pending rs r).0 ((sorted-In pending_key held r).0 h) in
            (member, (is_pending_iff r).0 pending),
        λ h.
            (sorted-In pending_key held r).1
              ((In-filter is_pending rs r).1 (h.0, (is_pending_iff r).1 h.1)),
      ),
    )
