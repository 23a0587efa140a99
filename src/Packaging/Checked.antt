-- ===== src/Packaging/Checked.antt =====
-- An item that passes the tests of `_process_allocations` is written so that the CHECK constraints of
-- reliefrqst_item hold.
use dmis_feature_branch.Base.{
  ℕ, ◌<◌, ◌≤◌, ◌≡◌, inl, inr, ◌⊎◌, String, Bool, true, Option, List, ◌==◌, ◌||◌, not, is_some,
  arith, Bool-cases, Option-cases, subst,
}
use dmis_feature_branch.Base.Action.{ok}
use dmis_feature_branch.Store.{ReliefRqstItem}
use dmis_feature_branch.ItemStatus.{
  ItemStatusRow, validate_quantity_limit, validate_status_transition,
}
use dmis_feature_branch.ItemStatus.Rules.{Fits, validate_status_transition-Fits}
use dmis_feature_branch.Packaging.Form.{
  ItemForm, or_calculated, calculated_status, settle_item, check_taken, cent,
}

abbrev pub is_unfilled : ℕ → Bool
is_unfilled s = s == b'R' || s == b'U' || s == b'W' || s == b'D'

abbrev pub is_partial : ℕ → Bool
is_partial s = s == b'P' || s == b'L'

-- c_reliefrqst_item_6a
abbrev pub is_item_status : ℕ → Bool
is_item_status s = is_unfilled s || is_partial s || s == b'F'

-- c_reliefrqst_item_2a, 6a, 6b, 7 and 8
abbrev pub IsSettled : ReliefRqstItem → Type 0
IsSettled i =
    (((is_unfilled i.status_code ≡ true) × (i.issue_qty ≡ 0))
      ⊎ ((is_partial i.status_code ≡ true) × (i.issue_qty < i.request_qty))
      ⊎ ((i.status_code ≡ b'F') × (i.issue_qty ≡ i.request_qty)))
    × (is_item_status i.status_code ≡ true)
    × ((i.status_code == b'D' || i.status_code == b'L') ≡ true
        → is_some i.status_reason_desc ≡ true)
    × (is_some i.action_by_id ≡ not (i.status_code == b'R'))
    × (is_some i.action_dtime ≡ is_some i.action_by_id)

-- what passing the tests says
abbrev pub IsChecked : ItemForm → ReliefRqstItem → ℕ → ℕ → Type 0
IsChecked form i allocated status =
    (allocated ≤ i.request_qty) × ((i.status_code ≡ status) ⊎ Fits status allocated i.request_qty)

check_taken-IsChecked :
    (rows : List ItemStatusRow) (complete activity : Bool) (form : ItemForm) (i : ReliefRqstItem)
    (allocated status : ℕ)
    → check_taken rows complete activity form i allocated ≡ ok status
    → IsChecked form i allocated status
unfolding check_taken validate_quantity_limit
check_taken-IsChecked rows complete activity form i allocated status h =
    let wanted = or_calculated form.status (calculated_status allocated i.request_qty) in
    let v = validate_status_transition rows i.status_code wanted allocated i.request_qty activity in
    elim (Option-cases v) [
      | inl e ↦ (
        ground arith,
        let same : wanted ≡ status = ground arith in
            subst (λ t. (i.status_code ≡ t) ⊎ Fits t allocated i.request_qty) same
              (validate_status_transition-Fits rows i.status_code wanted allocated i.request_qty
                activity e),
      )
      | inr (r, e) ↦ ground arith
    ]

settled :
    (wording : ℕ → ℕ → String) (denied user : String) (now status : ℕ) (reason : Option String)
    (allocated : ℕ) (i : ReliefRqstItem)
    → is_item_status status ≡ true
    → cent ≤ i.request_qty
    → IsSettled (settle_item wording denied user now status reason allocated i)
unfolding settle_item
settled wording denied user now status reason allocated i known least = (
  elim (Bool-cases (is_unfilled status)) [
    | inl t ↦ inl (t, ground arith)
    | inr t ↦ elim (Bool-cases (is_partial status)) [
      | inl u ↦ inr (inl (u, ground arith))
      | inr u ↦ inr (inr (ground arith, ground arith))
    ]
  ],
  known,
  λ h. ground arith,
  ground arith,
  ground arith,
)

-- An item with a valid status and at least a hundredth requested that passes the tests of the form is
-- written so that the constraints on its status, issued quantity, reason and action hold, whatever
-- the texts, the user and the time; and no more than was requested is allocated to it.
pub settle_item-IsSettled :
    (wording : ℕ → ℕ → String) (denied user : String) (now : ℕ) (rows : List ItemStatusRow)
    (complete activity : Bool) (form : ItemForm) (i : ReliefRqstItem) (allocated status : ℕ)
    → is_item_status i.status_code ≡ true
    → cent ≤ i.request_qty
    → check_taken rows complete activity form i allocated ≡ ok status
    → IsSettled (settle_item wording denied user now status form.reason allocated i)
      × (allocated ≤ i.request_qty)
settle_item-IsSettled wording denied user now rows complete activity form i allocated status known
      least h =
    let checked = check_taken-IsChecked rows complete activity form i allocated status h in
    (
      settled wording denied user now status form.reason allocated i (ground (arith, checked.1))
          least,
      checked.0,
    )
