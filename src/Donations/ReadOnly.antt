-- ===== src/Donations/ReadOnly.antt =====
-- A donation that has been verified or processed is read-only.
use dmis_feature_branch.Base.{
  ℕ, ◌≡◌, refl, sym, ap, ◌∙◌, subst, inl, inr, String, Bool, true, Option, none, some, List, [],
  ◌∷◌, arith, ◌==◌, ⊤, Bool-cases,
}
use dmis_feature_branch.Base.Table.{first}
use dmis_feature_branch.Base.Action.{Result}
use dmis_feature_branch.Store.{Text}
use dmis_feature_branch.DonationIntake.Rows.{Donation, DonationItem, Depot}
use dmis_feature_branch.Donations.Form.{HeaderForm, RowForm}
use dmis_feature_branch.Donations.Verify.{donation_found, verify_donation_detail}
use dmis_feature_branch.Donations.Edit.{EditRow, edit_donation}
use dmis_feature_branch.Donations.Items.{
  EditFailure, ItemFields, is_read_only, editable, editable_item, add_donation_item,
  edit_donation_item, delete_donation_item, delete_donation,
}

-- what a user can ask for of a donation, by the pages that change it
pub data Call : Type 0 where
  verify : Option ℕ → HeaderForm → List RowForm → Call
  edit : ℕ → HeaderForm → List EditRow → Call
  add_item : ItemFields → Call
  edit_item_of : ℕ → ItemFields → Call
  delete_item_of : ℕ → Call
  delete_all : Call

-- The donation is on file with the status V or P.
abbrev pub IsReadOnly : ℕ → Depot → Type 0
IsReadOnly donation s =
    (d : Donation) × (first (λ d. d.donation_id == donation) s.donations ≡ some d)
    × (is_read_only d ≡ true)

module _ (user : String) (now : ℕ) (upper : Text → Text) (today : ℕ)
    (accepts : Depot → Option String) (documents : Option String) (donation : ℕ) where
  -- what a call leaves
  unfoldable pub after_call : Call → Depot → Depot
  unfolding verify_donation_detail edit_donation add_donation_item edit_donation_item
      delete_donation_item delete_donation
  after_call (verify v f rows) s =
      (verify_donation_detail user now upper donation today accepts documents v f rows s).1
  after_call (edit v f rows) s = (edit_donation user now upper donation today accepts v f rows s).1
  after_call (add_item f) s = (add_donation_item user now upper accepts donation f s).1
  after_call (edit_item_of item f) s =
      (edit_donation_item user now upper accepts donation item f s).1
  after_call (delete_item_of item) s =
      (delete_donation_item user now upper accepts donation item s).1
  after_call delete_all s = (delete_donation user now upper accepts donation s).1

  unfoldable pub after_calls : List Call → Depot → Depot
  unfolding after_call
  after_calls [] s = s
  after_calls (c ∷ cs) s = after_calls cs (after_call c s)

  read_only_found :
      (x d : Donation) → some x ≡ some d → is_read_only d ≡ true → is_read_only x ≡ true
  read_only_found x d e h = subst (λ o. is_read_only_of o ≡ true) (sym e) h
    where
      is_read_only_of : Option Donation → Bool
      is_read_only_of none = true
      is_read_only_of (some y) = is_read_only y

  donation_found-IsReadOnly :
      (o : Option Donation) (d : Donation) (v : Option ℕ) (f : HeaderForm) (rows : List RowForm)
      (s : Depot)
      → o ≡ some d
      → is_read_only d ≡ true
      → (donation_found user now upper donation today accepts documents o v f rows s).1 ≡ s
  donation_found-IsReadOnly none d v f rows s e h = refl
  donation_found-IsReadOnly (some x) d v f rows s e h = elim (Bool-cases (x.status_code == b'E')) [
    | inl t ↦ let own = read_only_found x d e h in absurd (ground arith)
    | inr t ↦ rw t refl
  ]

  editable-IsReadOnly :
      (o : Option Donation) (d : Donation) (f : Donation → Result EditFailure ⊤ × Depot) (s : Depot)
      → o ≡ some d
      → is_read_only d ≡ true
      → (editable user now upper accepts donation o f s).1 ≡ s
  editable-IsReadOnly none d f s e h = cc
  editable-IsReadOnly (some x) d f s e h = rw (read_only_found x d e h) refl

  editable_item-IsReadOnly :
      (o : Option Donation) (i : Option DonationItem) (d : Donation)
      (f : DonationItem → Result EditFailure ⊤ × Depot) (s : Depot)
      → o ≡ some d
      → is_read_only d ≡ true
      → (editable_item user now upper accepts donation o i f s).1 ≡ s
  editable_item-IsReadOnly none i d f s e h = refl
  editable_item-IsReadOnly (some x) none d f s e h = refl
  editable_item-IsReadOnly (some x) (some r) d f s e h = rw (read_only_found x d e h) refl

  after_call-IsReadOnly : (c : Call) (s : Depot) → IsReadOnly donation s → after_call c s ≡ s
  unfolding after_call verify_donation_detail edit_donation add_donation_item edit_donation_item
      delete_donation_item delete_donation
  after_call-IsReadOnly (verify v f rows) s (d, e, h) = donation_found-IsReadOnly _ d v f rows s e h
  after_call-IsReadOnly (edit v f rows) s (d, e, h) = editable-IsReadOnly _ d _ s e h
  after_call-IsReadOnly (add_item f) s (d, e, h) = editable-IsReadOnly _ d _ s e h
  after_call-IsReadOnly (edit_item_of item f) s (d, e, h) = editable_item-IsReadOnly _ _ d _ s e h
  after_call-IsReadOnly (delete_item_of item) s (d, e, h) = editable_item-IsReadOnly _ _ d _ s e h
  after_call-IsReadOnly delete_all s (d, e, h) = editable-IsReadOnly _ d _ s e h

  -- Whatever calls are made, of verifying and editing the donation, adding, editing and deleting its
  -- items and deleting it, a donation that has been verified or processed is left as it is.
  pub after_calls-IsReadOnly :
      (cs : List Call) (s : Depot) → IsReadOnly donation s → after_calls cs s ≡ s
  unfolding after_calls
  after_calls-IsReadOnly [] s h = refl
  after_calls-IsReadOnly (c ∷ cs) s h =
      let same = after_call-IsReadOnly c s h in
      ap (after_calls cs) same ∙ after_calls-IsReadOnly cs s h
