-- ===== src/Request/Items.antt =====
-- Items of a draft: what an edit leaves on file, that it lets the draft be submitted, and when a request
-- is closed.
use dmis_feature_branch.Base.{
  ℕ, ◌<◌, ◌≡◌, refl, ap, ◌∙◌, inl, inr, String, true, Option, some, List, [], ◌∷◌, ltb, leb, ◌==◌,
  any, filter, arith, Bool-cases, Option-cases,
}
use dmis_feature_branch.Base.Table.{first, first_holds, first-modify_self, first-append_new}
use dmis_feature_branch.Base.Action.{ok, Ends, Ends-imp}
use dmis_feature_branch.Store.{ReliefRqst, ReliefRqstItem}
use dmis_feature_branch.Request.Desk.{Desk, is_request, is_item_of, items_of_request, is_urgency}
use dmis_feature_branch.Request.Draft.{
  new_item, update_item, add_or_update_request_item, is_stale, submit_found, submit_request,
}

-- the item as it was asked for
abbrev pub IsAsked : ℕ → ℕ → ℕ → ℕ → Option String → Option ℕ → Desk → Type 0
IsAsked rqst item qty urgency reason by s =
    (i : ReliefRqstItem) × (first (is_item_of rqst item) s.tables.rqst_items ≡ some i)
    × (i.request_qty ≡ qty)
    × (i.urgency_ind ≡ urgency)
    × (i.rqst_reason_desc ≡ reason)
    × (i.required_by_date ≡ by)

-- An edit that succeeds leaves the item on file as it was asked for, with a positive quantity and one
-- of the four urgencies, and touches no request.
pub add_or_update_request_item-IsAsked :
    (user : String) (now rqst item qty urgency : ℕ) (reason : Option String) (by version : Option ℕ)
    (s : Desk)
    → Ends
        (λ t.
          IsAsked rqst item qty urgency reason by t
          × (0 < qty)
          × (is_urgency urgency ≡ true)
          × (t.tables.requests ≡ s.tables.requests))
        (add_or_update_request_item user now rqst item qty urgency reason by version s)
unfolding add_or_update_request_item new_item update_item
add_or_update_request_item-IsAsked user now rqst item qty urgency reason by version s =
    elim (Bool-cases (leb qty 0)) [
      | inl t ↦ rw t tt
      | inr t ↦ rw t (elim (Bool-cases (is_urgency urgency)) [
        | inr u ↦ rw u tt
        | inl u ↦ rw u (elim (Option-cases (first (is_item_of rqst item) s.tables.rqst_items)) [
          | inl e ↦
              rw (e, add_or_update_request_item)
                (
                  (
                    new_item user now rqst item qty urgency reason by,
                    first-append_new (is_item_of rqst item) s.tables.rqst_items _ e (ground arith),
                    refl,
                    refl,
                    refl,
                    refl,
                  ),
                  ground arith,
                  refl,
                  refl,
                )
          | inr (i, e) ↦
              rw (e, add_or_update_request_item)
                (elim (Bool-cases (is_stale version i)) [
                  | inl x ↦ rw x tt
                  | inr x ↦ rw x (
                    (
                      update_item qty urgency reason by i,
                      first-modify_self (is_item_of rqst item) (update_item qty urgency reason by)
                          s.tables.rqst_items i e
                          (first_holds (is_item_of rqst item) s.tables.rqst_items i e),
                      refl,
                      refl,
                      refl,
                      refl,
                    ),
                    ground arith,
                    refl,
                    refl,
                  )
                ])
        ])
      ])
    ]

any-filter-first :
    (rqst item : ℕ) (is : List ReliefRqstItem) (i : ReliefRqstItem)
    → first (is_item_of rqst item) is ≡ some i
    → 0 < i.request_qty
    → any (λ x. ltb 0 x.request_qty) (filter (λ x. x.reliefrqst_id == rqst) is) ≡ true
unfolding first
any-filter-first rqst item [] i e h = cc
any-filter-first rqst item (x ∷ is) i e h = ground (arith, any-filter-first rqst item is i)

any_positive :
    (is : List ReliefRqstItem)
    → any (λ x. ltb 0 x.request_qty) is ≡ true
    → any (λ x. true) is ≡ true
any_positive [] h = h
any_positive (x ∷ is) h = refl

-- A draft at the version that the caller saw, with an item of positive quantity, can be submitted.
submits :
    (rqst : ℕ) (t : Desk) (r : ReliefRqst)
    → first (is_request rqst) t.tables.requests ≡ some r
    → r.status_code ≡ 0
    → any (λ i. ltb 0 i.request_qty) (items_of_request rqst t) ≡ true
    → (submit_request rqst r.version_nbr t).0 ≡ ok tt
unfolding submit_request submit_found
submits rqst t r e draft positive =
    let is_draft : (r.status_code == 0) ≡ true = ground arith in
    let same : (r.version_nbr == r.version_nbr) ≡ true = ground arith in
    rw (e, submit_request)
      (rw (is_draft, any_positive (items_of_request rqst t) positive, positive, same) refl)

-- A draft that has been given an item can be submitted: with the version on file, the submission that
-- follows a successful edit succeeds.
pub submit_request_after_edit :
    (user : String) (now rqst item qty urgency : ℕ) (reason : Option String) (by version : Option ℕ)
    (s : Desk) (r : ReliefRqst)
    → first (is_request rqst) s.tables.requests ≡ some r
    → r.status_code ≡ 0
    → Ends
        (λ t. (submit_request rqst r.version_nbr t).0 ≡ ok tt)
        (add_or_update_request_item user now rqst item qty urgency reason by version s)
submit_request_after_edit user now rqst item qty urgency reason by version s r e draft =
    Ends-imp _ (λ t. (submit_request rqst r.version_nbr t).0 ≡ ok tt)
      (add_or_update_request_item user now rqst item qty urgency reason by version s)
      (λ t h.
        let (i, found, asked, _, _, _) = h.0 in
        submits rqst t r (ap (first (is_request rqst)) h.3 ∙ e) draft
          (any-filter-first rqst item t.tables.rqst_items i found (ground arith)))
      (add_or_update_request_item-IsAsked user now rqst item qty urgency reason by version s)
