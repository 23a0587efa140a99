-- ===== src/Donations/Items.antt =====
-- The operations on single items of a donation, and the deletion of a donation: `add_donation_item`,
-- `edit_donation_item`, `delete_donation_item` and `delete_donation`. `accepts` is the database's answer
-- at the commit.
use dmis_feature_branch.Base.{
  ℕ, String, Bool, ◌&&◌, ◌||◌, not, Option, none, some, List, [], ◌∷◌, ◌++◌, leb, ◌==◌, any,
  is_some, if◌then◌else◌, ⊤,
}
use dmis_feature_branch.Base.Text.{is_empty}
use dmis_feature_branch.Base.Table.{first, modify, remove}
use dmis_feature_branch.Base.Action.{Result, ok, err}
use dmis_feature_branch.Store.{Text}
use dmis_feature_branch.DonationIntake.Rows.{
  Donation, DonationItem, DonationType, Depot, Amount, invalid, negative, amount,
}
use dmis_feature_branch.DonationIntake.Check.{upper_or_none}
use dmis_feature_branch.Donations.Form.{FormError, when, is_missing, value}
use dmis_feature_branch.Donations.Verify.{is_donation_item, id_of}

pub data ItemError : Type 0 where
  item_required : ItemError
  quantity_missing : ItemError
  quantity_not_positive : ItemError
  unit_required : ItemError
  location_required : ItemError
  status_invalid : ItemError
  already_added : ItemError

pub data EditFailure : Type 0 where
  no_donation : EditFailure
  no_item : EditFailure
  read_only : ℕ → EditFailure
  item_changed : EditFailure
  item_refused : List ItemError → EditFailure
  quantity_unreadable : EditFailure
  has_items : EditFailure
  donation_changed : EditFailure
  date_unreadable : EditFailure
  form_invalid : List FormError → EditFailure
  database_error : String → EditFailure

-- the fields of one item; a blank field is none
pub record ItemFields : Type 0 where
  pub item_id : Option ℕ
  pub item_qty : Option Amount
  pub uom_code : Option ℕ
  pub location_name : Text
  pub status_code : Option ℕ
  pub comments_text : Text
  pub version_nbr : ℕ

abbrev pub qty_of : Option Amount → ℕ
qty_of none = 0
qty_of (some a) = value a

-- `Decimal(item_qty)` raises on a text that is no number.
abbrev pub is_unreadable : Option Amount → Bool
is_unreadable (some invalid) = Bool.true
is_unreadable (some negative) = Bool.false
is_unreadable (some (amount q)) = Bool.false
is_unreadable none = Bool.false

abbrev pub item_qty_errors : Option Amount → List ItemError
item_qty_errors none = quantity_missing ∷ []
item_qty_errors (some invalid) = []
item_qty_errors (some negative) = quantity_not_positive ∷ []
item_qty_errors (some (amount q)) = when (leb q 0) quantity_not_positive

abbrev pub common_errors : ItemFields → List ItemError
common_errors f =
    item_qty_errors f.item_qty
    ++ (when (is_missing f.uom_code) unit_required
        ++ when (is_empty f.location_name) location_required)

abbrev pub is_status_of_item : Option ℕ → Bool
is_status_of_item none = Bool.false
is_status_of_item (some c) = c == b'P' || c == b'V'

-- a donation that has been verified or processed
abbrev pub is_read_only : Donation → Bool
is_read_only d = d.status_code == b'V' || d.status_code == b'P'

module _ (user : String) (now : ℕ) (upper : Text → Text) (accepts : Depot → Option String)
    (donation : ℕ) where
  abbrev pub commit_edit : Depot → Depot → Option String → Result EditFailure ⊤ × Depot
  commit_edit old new none = (ok tt, new)
  commit_edit old new (some e) = (err (database_error e), old)

  abbrev pub commit_to : Depot → Depot → Result EditFailure ⊤ × Depot
  commit_to old new = commit_edit old new (accepts new)

  -- `f` for a donation that is on file and can still be changed
  abbrev pub editable :
      Option Donation
      → (Donation → Result EditFailure ⊤ × Depot)
      → Depot
      → Result EditFailure ⊤ × Depot
  editable none f s = (err no_donation, s)
  editable (some d) f s = if is_read_only d then (err (read_only d.status_code), s) else f d

  abbrev pub the_donation : Depot → Option Donation
  the_donation s = first (λ d. d.donation_id == donation) s.donations

  -- `verify_by_id` and `verify_dtime` go with the status V
  abbrev pub if_verified : {A : Type 0} → ℕ → A → Option A
  if_verified status a = if status == b'V' then some a else none

  unfoldable pub added_item : ItemFields → ℕ → DonationItem
  added_item f status = record {
    donation_id = donation;
    item_id = id_of f.item_id;
    donation_type = DonationType.goods;
    item_qty = qty_of f.item_qty;
    item_cost = 0;
    uom_code = f.uom_code;
    currency_code = none;
    location_name = upper f.location_name;
    status_code = status;
    comments_text = upper_or_none upper f.comments_text;
    update_by_id = user;
    update_dtime = now;
    verify_by_id = if_verified status user;
    verify_dtime = if_verified status now;
    version_nbr = 1;
  }

  abbrev pub duplicate_errors_of : ItemFields → Depot → List ItemError
  duplicate_errors_of f s =
      when
        (not (is_missing f.item_id)
          && is_some (first (is_donation_item donation (id_of f.item_id)) s.donation_items))
        already_added

  abbrev pub add_checked :
      ItemFields → Donation → List ItemError → Depot → Result EditFailure ⊤ × Depot
  add_checked f d (e ∷ es) s = (err (item_refused (e ∷ es)), s)
  add_checked f d [] s = commit_to s (record s {
    donation_items =
        s.donation_items ++ (added_item f (if d.status_code == b'E' then b'P' else b'V') ∷ []);
  })

  -- the POST of add_donation_item
  unfoldable pub add_donation_item : ItemFields → Depot → Result EditFailure ⊤ × Depot
  unfolding added_item
  add_donation_item f s =
      editable (the_donation s)
        (λ d.
          if is_unreadable f.item_qty
          then (err quantity_unreadable, s)
          else add_checked f d
              (when (is_missing f.item_id) item_required
                ++ (common_errors f ++ duplicate_errors_of f s))
              s)
        s

  unfoldable pub edited_item : ItemFields → DonationItem → DonationItem
  edited_item f r = record r {
    item_qty = qty_of f.item_qty;
    uom_code = f.uom_code;
    location_name = upper f.location_name;
    status_code = id_of f.status_code;
    comments_text = upper_or_none upper f.comments_text;
    update_by_id = user;
    update_dtime = now;
    verify_by_id = if_verified (id_of f.status_code) user;
    verify_dtime = if_verified (id_of f.status_code) now;
  }

  abbrev pub edit_checked : ℕ → ItemFields → List ItemError → Depot → Result EditFailure ⊤ × Depot
  edit_checked item f (e ∷ es) s = (err (item_refused (e ∷ es)), s)
  edit_checked item f [] s = commit_to s (record s {
    donation_items = modify (is_donation_item donation item) (edited_item f) s.donation_items;
  })

  abbrev pub edit_item : ℕ → ItemFields → DonationItem → Depot → Result EditFailure ⊤ × Depot
  edit_item item f r s =
      if not (f.version_nbr == r.version_nbr)
      then (err item_changed, s)
      else if is_unreadable f.item_qty
      then (err quantity_unreadable, s)
      else edit_checked item f
          (common_errors f ++ when (not (is_status_of_item f.status_code)) status_invalid) s

  -- `f` for an item that is on file, of a donation that can still be changed
  abbrev pub editable_item :
      Option Donation
      → Option DonationItem
      → (DonationItem → Result EditFailure ⊤ × Depot)
      → Depot
      → Result EditFailure ⊤ × Depot
  editable_item none o f s = (err no_donation, s)
  editable_item (some d) none f s = (err no_item, s)
  editable_item (some d) (some r) f s =
      if is_read_only d then (err (read_only d.status_code), s) else f r

  -- the POST of edit_donation_item
  unfoldable pub edit_donation_item : ℕ → ItemFields → Depot → Result EditFailure ⊤ × Depot
  unfolding edited_item
  edit_donation_item item f s =
      editable_item (the_donation s) (first (is_donation_item donation item) s.donation_items)
        (λ r. edit_item item f r s) s

  unfoldable pub delete_donation_item : ℕ → Depot → Result EditFailure ⊤ × Depot
  delete_donation_item item s =
      editable_item (the_donation s) (first (is_donation_item donation item) s.donation_items)
        (λ r.
          commit_to s (record s {
            donation_items = remove (is_donation_item donation item) s.donation_items;
          }))
        s

  unfoldable pub delete_donation : Depot → Result EditFailure ⊤ × Depot
  delete_donation s =
      editable (the_donation s)
        (λ d.
          if any (λ r. r.donation_id == donation) s.donation_items
          then (err has_items, s)
          else commit_to s
              (record s { donations = remove (λ d. d.donation_id == donation) s.donations }))
        s
