-- ===== src/Request/Outcomes.antt =====
-- How each call on a request ends: with a failure and the state as it was, or with the one change that
-- its conditions allow.
use dmis_feature_branch.Base.{
  ℕ, ◌≡◌, refl, inl, inr, ◌⊎◌, String, true, false, Option, some, ⊤, ltb, ◌==◌, ◌&&◌, ◌||◌, any,
  is_some, length, arith, Bool-cases, Option-cases,
}
use dmis_feature_branch.Base.Table.{first}
use dmis_feature_branch.Base.Action.{Result, ok, err}
use dmis_feature_branch.Store.{ReliefRqst, Text}
use dmis_feature_branch.Request.Desk.{
  Desk, User, RequestFailure, is_request, items_of_request, find_user, request_not_found,
}
use dmis_feature_branch.Request.Draft.{mark_awaiting, change_request, submit_found, submit_request}
use dmis_feature_branch.Request.Review.{
  lacks_reason, decide, decide_found, submit_eligibility_decision,
}
use dmis_feature_branch.Request.Close.{
  mark_filled, close_found, check_and_autoclose_request, pending_packages, all_items_satisfied,
}

-- The call failed and wrote nothing.
abbrev pub Failed : Desk → Result RequestFailure ⊤ × Desk → Type 0
Failed s r = (e : RequestFailure) × ◌≡◌ {A = Result RequestFailure ⊤ × Desk} r (err e, s)

-- The call succeeded with this state.
abbrev pub Succeeded : Desk → Result RequestFailure ⊤ × Desk → Type 0
Succeeded t r = ◌≡◌ {A = Result RequestFailure ⊤ × Desk} r (ok tt, t)

-- what `submit_request` asks of the request
abbrev pub IsSubmittable : ℕ → ℕ → Desk → ReliefRqst → Type 0
IsSubmittable rqst version s r =
    (first (is_request rqst) s.tables.requests ≡ some r)
    × (r.status_code ≡ 0)
    × (any (λ i. ltb 0 i.request_qty) (items_of_request rqst s) ≡ true)
    × (r.version_nbr ≡ version)

pub submit_request_outcome :
    (rqst version : ℕ) (s : Desk)
    → Failed s (submit_request rqst version s)
      ⊎ ((r : ReliefRqst) × IsSubmittable rqst version s r
          × Succeeded (change_request rqst mark_awaiting s) (submit_request rqst version s))
unfolding submit_request submit_found
submit_request_outcome rqst version s =
    elim (Option-cases (first (is_request rqst) s.tables.requests)) [
      | inl e ↦ rw (e, submit_request) (inl (request_not_found, refl))
      | inr (r, e) ↦
          rw (e, submit_request)
            (elim (Bool-cases (r.status_code == 0)) [
              | inr t ↦ rw t (inl (_, refl))
              | inl t ↦ rw t (elim (Bool-cases (any (λ i. true) (items_of_request rqst s))) [
                | inr u ↦ rw u (inl (_, refl))
                | inl u ↦
                    rw u
                      (elim (Bool-cases
                        (any (λ i. ltb 0 i.request_qty) (items_of_request rqst s))) [
                          | inr x ↦ rw x (inl (_, refl))
                          | inl x ↦ rw x (elim (Bool-cases (r.version_nbr == version)) [
                            | inr y ↦ rw y (inl (_, refl))
                            | inl y ↦ rw y (inr (r, (refl, ground arith, refl, ground arith), refl))
                          ])
                        ])
              ])
            ])
    ]

-- what `submit_eligibility_decision` asks of the request, the decision and the reviewer
abbrev pub IsDecidable : ℕ → ℕ → Option Text → String → Desk → ReliefRqst → User → Type 0
IsDecidable rqst decision reason email s r u =
    (first (is_request rqst) s.tables.requests ≡ some r)
    × (r.status_code ≡ 1)
    × (is_some r.review_by_id ≡ false)
    × ((decision ≡ b'Y') ⊎ ((decision ≡ b'N') × (lacks_reason reason ≡ false)))
    × (find_user email s ≡ some u)

pub submit_eligibility_decision_outcome :
    (rqst decision : ℕ) (reason : Option Text) (email : String) (now : ℕ) (s : Desk)
    → Failed s (submit_eligibility_decision rqst decision reason email now s)
      ⊎ ((r : ReliefRqst) × (u : User) × IsDecidable rqst decision reason email s r u
          × Succeeded
              (change_request rqst (decide decision reason u.user_name now) s)
              (submit_eligibility_decision rqst decision reason email now s))
unfolding submit_eligibility_decision decide_found
submit_eligibility_decision_outcome rqst decision reason email now s =
    elim (Option-cases (first (is_request rqst) s.tables.requests)) [
      | inl e ↦ rw (e, submit_eligibility_decision) (inl (request_not_found, refl))
      | inr (r, e) ↦
          rw (e, submit_eligibility_decision)
            (elim (Bool-cases (r.status_code == 1)) [
              | inr t ↦ rw t (inl (_, refl))
              | inl t ↦ rw t (elim (Bool-cases (is_some r.review_by_id)) [
                | inl u ↦ rw u (inl (_, refl))
                | inr u ↦ rw u (elim (Bool-cases (decision == b'Y' || decision == b'N')) [
                  | inr x ↦ rw x (inl (_, refl))
                  | inl x ↦ rw x (elim (Bool-cases (decision == b'N' && lacks_reason reason)) [
                    | inl y ↦ rw y (inl (_, refl))
                    | inr y ↦ rw y (elim (Option-cases (find_user email s)) [
                      | inl n ↦ rw n (inl (_, refl))
                      | inr (v, f) ↦
                          rw f (inr (r, v, (refl, ground arith, u, ground arith, refl), refl))
                    ])
                  ])
                ])
              ])
            ])
    ]

-- what `check_and_autoclose_request` asks of the request
abbrev pub IsClosable : ℕ → Desk → ReliefRqst → Type 0
IsClosable rqst s r =
    (first (is_request rqst) s.tables.requests ≡ some r)
    × (r.status_code == 7 ≡ false)
    × (length (pending_packages rqst s) ≡ 0)
    × (all_items_satisfied rqst s ≡ true)

pub check_and_autoclose_request_outcome :
    (rqst : ℕ) (s : Desk)
    → Failed s (check_and_autoclose_request rqst s)
      ⊎ ((r : ReliefRqst) × IsClosable rqst s r
          × Succeeded (change_request rqst mark_filled s) (check_and_autoclose_request rqst s))
unfolding check_and_autoclose_request close_found
check_and_autoclose_request_outcome rqst s =
    elim (Option-cases (first (is_request rqst) s.tables.requests)) [
      | inl e ↦ rw (e, check_and_autoclose_request) (inl (request_not_found, refl))
      | inr (r, e) ↦
          rw (e, check_and_autoclose_request)
            (elim (Bool-cases (r.status_code == 7)) [
              | inl t ↦ rw t (inl (_, refl))
              | inr t ↦ rw t (elim (Bool-cases (ltb 0 (length (pending_packages rqst s)))) [
                | inl u ↦ rw u (inl (_, refl))
                | inr u ↦ rw u (elim (Bool-cases (all_items_satisfied rqst s)) [
                  | inr x ↦ rw x (inl (_, refl))
                  | inl x ↦ rw x (inr (r, (refl, t, ground arith, refl), refl))
                ])
              ])
            ])
    ]
