-- ===== src/Request/Recorded.antt =====
-- Who reviewed and who acted on a request is on record exactly from the status on where it must be: the
-- CHECK constraints c_reliefrqst_3, 4a, 4b, 5a and 5b hold after every call.
use dmis_feature_branch.Base.{
  ℕ, ◌≤◌, ◌≡◌, refl, inl, inr, String, Bool, true, false, Option, none, some, [], ◌∷◌, ltb, leb,
  ◌==◌, ◌&&◌, ◌||◌, any, is_some, length, All, All-append, arith, Bool-cases, Option-cases,
}
use dmis_feature_branch.Base.Table.{first, All-modify-first, first-All}
use dmis_feature_branch.Base.Text.{strip}
use dmis_feature_branch.Store.{ReliefRqst, Text}
use dmis_feature_branch.Request.Desk.{Desk, is_request, items_of_request, is_urgency, find_user}
use dmis_feature_branch.Request.Draft.{
  event_missing, new_draft, create_draft_request, mark_awaiting, change_request, submit_found,
  submit_request,
}
use dmis_feature_branch.Request.Review.{
  lacks_reason, stripped, mark_ineligible, mark_eligible, decide, decide_found,
  submit_eligibility_decision,
}
use dmis_feature_branch.Request.Close.{
  mark_filled, close_found, check_and_autoclose_request, pending_packages, all_items_satisfied,
}

abbrev pub needs_reason : ℕ → Bool
needs_reason status = status == 4 || status == 6 || status == 8

abbrev pub IsRecorded : ReliefRqst → Type 0
IsRecorded r =
    (is_some r.review_by_id ≡ leb 2 r.status_code)
    × (is_some r.review_dtime ≡ is_some r.review_by_id)
    × (is_some r.action_by_id ≡ leb 4 r.status_code)
    × (is_some r.action_dtime ≡ is_some r.action_by_id)
    × (needs_reason r.status_code ≡ true → is_some r.status_reason_desc ≡ true)

abbrev pub AllRecorded : Desk → Type 0
AllRecorded s = All IsRecorded s.tables.requests

changed :
    (rqst : ℕ) (f : ReliefRqst → ReliefRqst) (s : Desk) (r : ReliefRqst)
    → first (is_request rqst) s.tables.requests ≡ some r
    → IsRecorded (f r)
    → AllRecorded s
    → AllRecorded (change_request rqst f s)
changed rqst f s r e h a = All-modify-first IsRecorded (is_request rqst) f s.tables.requests r e h a

-- A new draft is on record as a draft is.
pub create_draft_request-AllRecorded :
    (id today agency urgency : ℕ) (event : Option ℕ) (notes : Option String) (now : ℕ)
    (email : String) (s : Desk)
    → AllRecorded s
    → AllRecorded (create_draft_request id today agency urgency event notes now email s).1
unfolding create_draft_request new_draft
create_draft_request-AllRecorded id today agency urgency event notes now email s a =
    elim (Bool-cases (is_urgency urgency)) [
      | inr t ↦ rw t a
      | inl t ↦ rw t (elim (Bool-cases (any (λ x. x == agency) s.agencies)) [
        | inr u ↦ rw u a
        | inl u ↦ rw u (elim (Bool-cases (event_missing event s)) [
          | inl x ↦ rw x a
          | inr x ↦ rw x (elim (Option-cases (find_user email s)) [
            | inl e ↦ rw e a
            | inr (v, e) ↦ rw e (
                All-append IsRecorded s.tables.requests _ a
                  ((refl, refl, refl, refl, λ h. ground arith), tt))
          ])
        ])
      ])
    ]

-- Submitting keeps the record.
pub submit_request-AllRecorded :
    (rqst version : ℕ) (s : Desk) → AllRecorded s → AllRecorded (submit_request rqst version s).1
unfolding submit_request submit_found mark_awaiting
submit_request-AllRecorded rqst version s a =
    elim (Option-cases (first (is_request rqst) s.tables.requests)) [
      | inl e ↦ rw (e, submit_request) a
      | inr (r, e) ↦
          let h = first-All IsRecorded (is_request rqst) s.tables.requests r a e in
          rw (e, submit_request)
            (elim (Bool-cases (r.status_code == 0)) [
              | inr t ↦ rw t a
              | inl t ↦ rw t (elim (Bool-cases (any (λ i. true) (items_of_request rqst s))) [
                | inr u ↦ rw u a
                | inl u ↦
                    rw u
                      (elim (Bool-cases
                        (any (λ i. ltb 0 i.request_qty) (items_of_request rqst s))) [
                          | inr x ↦ rw x a
                          | inl x ↦ rw x (elim (Bool-cases (r.version_nbr == version)) [
                            | inr y ↦ rw y a
                            | inl y ↦ rw y (changed rqst mark_awaiting s r e (ground (arith, h)) a)
                          ])
                        ])
              ])
            ])
    ]

stripped_given :
    (reason : Option Text) → lacks_reason reason ≡ false → is_some (stripped reason) ≡ true
unfolding strip
stripped_given none h = ground arith
stripped_given (some []) h = ground arith
stripped_given (some (c ∷ t)) h = refl

decide-IsRecorded :
    (decision : ℕ) (reason : Option Text) (reviewer : String) (now : ℕ) (r : ReliefRqst)
    → (decision == b'N' && lacks_reason reason) ≡ false
    → r.status_code == 1 ≡ true
    → IsRecorded r
    → IsRecorded (decide decision reason reviewer now r)
unfolding mark_ineligible mark_eligible
decide-IsRecorded decision reason reviewer now r given awaiting h =
    elim (Bool-cases (decision == b'N')) [
      | inl t ↦ rw t (refl, refl, refl, refl, λ _. stripped_given reason (ground arith))
      | inr t ↦ rw t (refl, refl, ground (arith, h), ground (arith, h), λ n. ground arith)
    ]

-- A decision keeps the record: the reviewer is on record, and for an ineligible request who acted and
-- the reason.
pub submit_eligibility_decision-AllRecorded :
    (rqst decision : ℕ) (reason : Option Text) (email : String) (now : ℕ) (s : Desk)
    → AllRecorded s
    → AllRecorded (submit_eligibility_decision rqst decision reason email now s).1
unfolding submit_eligibility_decision decide_found
submit_eligibility_decision-AllRecorded rqst decision reason email now s a =
    elim (Option-cases (first (is_request rqst) s.tables.requests)) [
      | inl e ↦ rw (e, submit_eligibility_decision) a
      | inr (r, e) ↦
          let h = first-All IsRecorded (is_request rqst) s.tables.requests r a e in
          rw (e, submit_eligibility_decision)
            (elim (Bool-cases (r.status_code == 1)) [
              | inr t ↦ rw t a
              | inl t ↦ rw t (elim (Bool-cases (is_some r.review_by_id)) [
                | inl u ↦ rw u a
                | inr u ↦ rw u (elim (Bool-cases (decision == b'Y' || decision == b'N')) [
                  | inr x ↦ rw x a
                  | inl x ↦ rw x (elim (Bool-cases (decision == b'N' && lacks_reason reason)) [
                    | inl y ↦ rw y a
                    | inr y ↦ rw y (elim (Option-cases (find_user email s)) [
                      | inl none_found ↦ rw none_found a
                      | inr (v, found) ↦ rw found (
                          changed rqst (decide decision reason v.user_name now) s r e
                            (decide-IsRecorded decision reason v.user_name now r y t h) a)
                    ])
                  ])
                ])
              ])
            ])
    ]

-- Closing keeps the record of a request that has been acted on.
pub check_and_autoclose_request-AllRecorded :
    (rqst : ℕ) (s : Desk)
    → ((r : ReliefRqst) → first (is_request rqst) s.tables.requests ≡ some r → 4 ≤ r.status_code)
    → AllRecorded s
    → AllRecorded (check_and_autoclose_request rqst s).1
unfolding check_and_autoclose_request close_found mark_filled
check_and_autoclose_request-AllRecorded rqst s acted a =
    elim (Option-cases (first (is_request rqst) s.tables.requests)) [
      | inl e ↦ rw (e, check_and_autoclose_request) a
      | inr (r, e) ↦
          let h = first-All IsRecorded (is_request rqst) s.tables.requests r a e in
          rw (e, check_and_autoclose_request)
            (elim (Bool-cases (r.status_code == 7)) [
              | inl t ↦ rw t a
              | inr t ↦ rw t (elim (Bool-cases (ltb 0 (length (pending_packages rqst s)))) [
                | inl u ↦ rw u a
                | inr u ↦ rw u (elim (Bool-cases (all_items_satisfied rqst s)) [
                  | inr x ↦ rw x a
                  | inl x ↦
                      let late = acted r e in
                      rw x (
                        changed rqst mark_filled s r e
                          (
                            ground (arith, h),
                            ground (arith, h),
                            ground (arith, h),
                            ground (arith, h),
                            λ n. ground arith,
                          )
                          a)
                ])
              ])
            ])
    ]
