-- ===== src/Request/Moves.antt =====
-- The life of a request: which status can follow which, and what holds in every state that the calls
-- can reach.
use dmis_feature_branch.Base.{
  ℕ, ◌≡◌, refl, ==_iff, subst, sym, ap, ◌∙◌, inl, inr, String, Option, some, ⊤, ◌==◌, any, arith,
  Bool-cases, Option-cases,
}
use dmis_feature_branch.Base.Table.{
  first, modify, first_holds, first-modify_self, first-modify_other, first-append,
}
use dmis_feature_branch.Base.Action.{Result}
use dmis_feature_branch.Store.{ReliefRqst, Text}
use dmis_feature_branch.Request.Desk.{Desk, RequestFailure, is_request, find_user, is_urgency}
use dmis_feature_branch.Request.Draft.{
  event_missing, create_draft_request, add_or_update_request_item, delete_request_item,
  mark_awaiting, change_request, submit_request,
}
use dmis_feature_branch.Request.Review.{
  mark_ineligible, mark_eligible, decide, submit_eligibility_decision,
}
use dmis_feature_branch.Request.Outcomes.{
  submit_request_outcome, submit_eligibility_decision_outcome,
}

-- one call of the service, with its arguments
pub data Call : Type 0 where
  create : ℕ → ℕ → ℕ → ℕ → Option ℕ → Option String → ℕ → String → Call
  put_item : String → ℕ → ℕ → ℕ → ℕ → ℕ → Option String → Option ℕ → Option ℕ → Call
  drop_item : ℕ → ℕ → Call
  submit : ℕ → ℕ → Call
  review : ℕ → ℕ → Option Text → String → ℕ → Call

-- the state after a call, however it ends
unfoldable pub run : Call → Desk → Desk
run (create id today agency urgency event notes now email) s =
    (create_draft_request id today agency urgency event notes now email s).1
run (put_item user now rqst item qty urgency reason by version) s =
    (add_or_update_request_item user now rqst item qty urgency reason by version s).1
run (drop_item rqst item) s = (delete_request_item rqst item s).1
run (submit rqst version) s = (submit_request rqst version s).1
run (review rqst decision reason email now) s =
    (submit_eligibility_decision rqst decision reason email now s).1

-- The moves between statuses: draft, awaiting approval, then submitted or ineligible.
pub data Move : ℕ → ℕ → Type 0 where
  stay : {n : ℕ} → Move n n
  submitting : Move 0 1
  accepting : Move 1 3
  rejecting : Move 1 8

-- the request `id` is still there and has made at most one move
abbrev pub Moved : ℕ → ReliefRqst → Desk → Type 0
Moved id r t =
    (r' : ReliefRqst) × (first (is_request id) t.tables.requests ≡ some r')
    × Move r.status_code r'.status_code

same_requests :
    (id : ℕ) (r : ReliefRqst) (s t : Desk)
    → first (is_request id) s.tables.requests ≡ some r
    → t.tables.requests ≡ s.tables.requests
    → Moved id r t
same_requests id r s t e same = (r, ap (first (is_request id)) same ∙ e, stay)

change-Moved :
    (id rqst : ℕ) (f : ReliefRqst → ReliefRqst) (s : Desk) (r found : ReliefRqst)
    → first (is_request id) s.tables.requests ≡ some r
    → first (is_request rqst) s.tables.requests ≡ some found
    → ((x : ReliefRqst) → (f x).reliefrqst_id ≡ x.reliefrqst_id)
    → Move found.status_code (f found).status_code
    → Moved id r (change_request rqst f s)
change-Moved id rqst f s r found e g keeps step = elim (Bool-cases (rqst == id)) [
  | inl t ↦
      let same = (==_iff rqst id).0 t in
      let here : found ≡ r =
        ground (arith, subst (λ i. first (is_request i) s.tables.requests ≡ some found) same g) in
      (
        f r,
        subst (λ i. first (is_request id) (modify (is_request i) f s.tables.requests) ≡ some (f r))
            (sym same)
            (first-modify_self (is_request id) f s.tables.requests r e
              (ground (arith, keeps r, first_holds (is_request id) s.tables.requests r e))),
        subst (λ x. Move x.status_code (f x).status_code) here step,
      )
  | inr t ↦ (
    r,
    first-modify_other (is_request rqst) (is_request id) f s.tables.requests
          (λ x h. ground (arith, keeps x))
        ∙ e,
    stay,
  )
]

-- where a state stands, if it is the second component of a result
after :
    (x : Result RequestFailure ⊤ × Desk) (r : Result RequestFailure ⊤) (t : Desk)
    → ◌≡◌ {A = Result RequestFailure ⊤ × Desk} x (r, t)
    → x.1 ≡ t
after x r t e = ap (λ p. p.1) e

create-Moved :
    (new today agency urgency : ℕ) (event : Option ℕ) (notes : Option String) (now : ℕ)
    (email : String) (s : Desk) (id : ℕ) (r : ReliefRqst)
    → first (is_request id) s.tables.requests ≡ some r
    → Moved id r (create_draft_request new today agency urgency event notes now email s).1
unfolding create_draft_request
create-Moved new today agency urgency event notes now email s id r e =
    elim (Bool-cases (is_urgency urgency)) [
      | inr t ↦ rw t (r, e, stay)
      | inl t ↦ rw t (elim (Bool-cases (any (λ x. x == agency) s.agencies)) [
        | inr u ↦ rw u (r, e, stay)
        | inl u ↦ rw u (elim (Bool-cases (event_missing event s)) [
          | inl x ↦ rw x (r, e, stay)
          | inr x ↦ rw x (elim (Option-cases (find_user email s)) [
            | inl n ↦ rw n (r, e, stay)
            | inr (v, f) ↦ rw f (r, first-append (is_request id) s.tables.requests _ r e, stay)
          ])
        ])
      ])
    ]

pub put_item_requests :
    (user : String) (now rqst item qty urgency : ℕ) (reason : Option String) (by version : Option ℕ)
    (s : Desk)
    → (add_or_update_request_item user now rqst item qty urgency reason by version
        s).1.tables.requests
      ≡ s.tables.requests
unfolding add_or_update_request_item
put_item_requests user now rqst item qty urgency reason by version s = ground arith

pub drop_item_requests :
    (rqst item : ℕ) (s : Desk)
    → (delete_request_item rqst item s).1.tables.requests ≡ s.tables.requests
unfolding delete_request_item
drop_item_requests rqst item s = ground arith

submit-Moved :
    (rqst version : ℕ) (s : Desk) (id : ℕ) (r : ReliefRqst)
    → first (is_request id) s.tables.requests ≡ some r
    → Moved id r (submit_request rqst version s).1
unfolding mark_awaiting
submit-Moved rqst version s id r e = elim (submit_request_outcome rqst version s) [
  | inl (f, eq) ↦ subst (Moved id r) (sym (after _ _ _ eq)) (r, e, stay)
  | inr (g, ready, eq) ↦ subst (Moved id r) (sym (after _ _ _ eq)) (
      change-Moved id rqst mark_awaiting s r g e ready.0 (λ x. refl)
        (subst (λ n. Move n 1) (sym ready.1) submitting))
]

decide-Move :
    (decision : ℕ) (reason : Option Text) (reviewer : String) (now : ℕ) (r : ReliefRqst)
    → r.status_code ≡ 1
    → Move r.status_code (decide decision reason reviewer now r).status_code
unfolding mark_ineligible mark_eligible
decide-Move decision reason reviewer now r e = elim (Bool-cases (decision == b'N')) [
  | inl t ↦ rw t (subst (λ n. Move n 8) (sym e) rejecting)
  | inr t ↦ rw t (subst (λ n. Move n 3) (sym e) accepting)
]

decide_id :
    (decision : ℕ) (reason : Option Text) (reviewer : String) (now : ℕ) (r : ReliefRqst)
    → (decide decision reason reviewer now r).reliefrqst_id ≡ r.reliefrqst_id
unfolding mark_ineligible mark_eligible
decide_id decision reason reviewer now r = ground arith

review-Moved :
    (rqst decision : ℕ) (reason : Option Text) (email : String) (now : ℕ) (s : Desk) (id : ℕ)
    (r : ReliefRqst)
    → first (is_request id) s.tables.requests ≡ some r
    → Moved id r (submit_eligibility_decision rqst decision reason email now s).1
review-Moved rqst decision reason email now s id r e =
    elim (submit_eligibility_decision_outcome rqst decision reason email now s) [
      | inl (f, eq) ↦ subst (Moved id r) (sym (after _ _ _ eq)) (r, e, stay)
      | inr (g, u, ready, eq) ↦ subst (Moved id r) (sym (after _ _ _ eq)) (
          change-Moved id rqst (decide decision reason u.user_name now) s r g e ready.0
            (decide_id decision reason u.user_name now)
            (decide-Move decision reason u.user_name now g ready.1))
    ]

-- Whatever call is made, a request that exists goes on to exist, and its status stays or makes one of
-- the moves.
pub run-Moved :
    (c : Call) (s : Desk) (id : ℕ) (r : ReliefRqst)
    → first (is_request id) s.tables.requests ≡ some r
    → Moved id r (run c s)
unfolding run
run-Moved (create new today agency urgency event notes now email) s id r e =
    create-Moved new today agency urgency event notes now email s id r e
run-Moved (put_item user now rqst item qty urgency reason by version) s id r e =
    same_requests id r s (run (put_item user now rqst item qty urgency reason by version) s) e
      (put_item_requests user now rqst item qty urgency reason by version s)
run-Moved (drop_item rqst item) s id r e =
    same_requests id r s (run (drop_item rqst item) s) e (drop_item_requests rqst item s)
run-Moved (submit rqst version) s id r e = submit-Moved rqst version s id r e
run-Moved (review rqst decision reason email now) s id r e =
    review-Moved rqst decision reason email now s id r e
