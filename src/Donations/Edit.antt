-- ===== src/Donations/Edit.antt =====
-- The POST of `edit_donation`, in one transaction. Amounts are read by `safe_amount` and
-- `safe_quantity` of app/security/param_validation.py, which replace what is no number, or is out of
-- range, and never refuse it.
use dmis_feature_branch.Base.{
  ℕ, min, String, Bool, false, not, Option, none, some, List, [], ◌∷◌, ◌++◌, map, ◌==◌, filter,
  if◌then◌else◌, ⊤,
}
use dmis_feature_branch.Base.Text.{codes, is_empty}
use dmis_feature_branch.Base.Table.{first, modify}
use dmis_feature_branch.Base.Action.{Result, err}
use dmis_feature_branch.Store.{Text}
use dmis_feature_branch.DonationIntake.Rows.{
  Donation, DonationItem, Depot, DateField, blank, malformed, date, Amount, amount,
}
use dmis_feature_branch.DonationIntake.Check.{upper_or_none}
use dmis_feature_branch.Donations.Form.{
  HeaderForm, RowForm, FormError, ItemInfo, value, item_rows, read_rows, form_errors,
}
use dmis_feature_branch.Donations.Verify.{
  date_of, id_of, is_donation_item, enforced_qty, is_dropped,
}
use dmis_feature_branch.Donations.Create.{entry_row_errors, entered_item}
use dmis_feature_branch.Donations.Items.{
  EditFailure, donation_changed, date_unreadable, form_invalid, commit_to, editable, the_donation,
}

-- a row of the form, and its field `is_existing`
pub record EditRow : Type 0 where
  pub row : RowForm
  pub is_existing : Bool

-- `Decimal('999999999999.99')`
abbrev pub max_amount : ℕ
max_amount = 9999999999999900

-- `Decimal('999999999.99')`
abbrev pub max_qty : ℕ
max_qty = 9999999999900

abbrev pub safe_amount : Amount → Amount
safe_amount a = amount (min (value a) max_amount)

abbrev pub safe_quantity : Option Amount → Option Amount
safe_quantity none = none
safe_quantity (some a) = some (amount (min (value a) max_qty))

unfoldable pub safe_header : HeaderForm → HeaderForm
safe_header f = record f {
  tot_item_cost = safe_amount f.tot_item_cost;
  storage_cost = safe_amount f.storage_cost;
  haulage_cost = safe_amount f.haulage_cost;
  other_cost = safe_amount f.other_cost;
}

unfoldable pub safe_row : EditRow → RowForm
safe_row r = record r.row {
  quantity = safe_quantity r.row.quantity;
  item_cost = safe_amount r.row.item_cost;
}

abbrev pub has_item : ℕ → Option ℕ → Bool
has_item id none = false
has_item id (some j) = j == id

abbrev pub flag_of : Option EditRow → Bool
flag_of none = false
flag_of (some r) = r.is_existing

-- The rows of an item after its first are duplicates, which are refused.
unfoldable pub is_existing_item : List EditRow → ℕ → Bool
is_existing_item rows id = flag_of (first (λ r. has_item id r.row.item_id) rows)

module _ (user : String) (now : ℕ) (upper : Text → Text) (donation : ℕ) where
  abbrev pub location_or_default : Text → Text
  location_or_default t = if is_empty t then codes "DONATION RECEIVED" else upper t

  unfoldable pub edited_row : ItemInfo → DonationItem → DonationItem
  edited_row i r = record r {
    donation_type = i.donation_type;
    item_qty = enforced_qty i;
    item_cost = i.item_cost;
    uom_code = i.uom_code;
    currency_code = i.currency_code;
    location_name = location_or_default i.location_name;
    comments_text = upper_or_none upper i.item_comments;
    update_by_id = user;
    update_dtime = now;
  }

  -- the item of a donation that is entered, but for a blank location
  unfoldable pub added_row : ItemInfo → DonationItem
  unfolding entered_item
  added_row i = record (entered_item user now upper donation i) {
    location_name = location_or_default i.location_name;
  }

  -- An existing item that is no longer on file is passed over.
  unfoldable pub write_edits : List EditRow → List ItemInfo → List DonationItem → List DonationItem
  unfolding is_existing_item edited_row added_row
  write_edits rows [] rs = rs
  write_edits rows (i ∷ is) rs = write_edits rows is (
      if is_existing_item rows i.item_id
      then modify (is_donation_item donation i.item_id) (edited_row i) rs
      else rs ++ (added_row i ∷ []))

  unfoldable pub edited_header : HeaderForm → Donation → Donation
  edited_header f d = record d {
    donor_id = id_of f.donor_id;
    event_id = id_of f.event_id;
    custodian_id = id_of f.custodian_id;
    donation_desc = upper f.donation_desc;
    received_date = date_of f.received_date;
    origin_country_id = id_of f.origin_country_id;
    origin_address1_text = upper_or_none upper f.origin_address1;
    origin_address2_text = upper_or_none upper f.origin_address2;
    comments_text = upper_or_none upper f.comments_text;
    tot_item_cost = value f.tot_item_cost;
    storage_cost = value f.storage_cost;
    haulage_cost = value f.haulage_cost;
    other_cost = value f.other_cost;
    other_cost_desc = upper_or_none upper f.other_cost_desc;
    update_by_id = user;
    update_dtime = now;
  }

  -- what the transaction writes
  unfoldable pub write_edited : HeaderForm → List EditRow → List ItemInfo → Depot → Depot
  unfolding write_edits edited_header
  write_edited f rows infos s = record s {
    donations = modify (λ d. d.donation_id == donation) (edited_header f) s.donations;
    donation_items =
        write_edits rows infos
          (filter (λ r. not (is_dropped user now upper donation infos r)) s.donation_items);
  }

  module _ (today : ℕ) (accepts : Depot → Option String) where
    abbrev pub change_checked :
        HeaderForm
        → List EditRow
        → List FormError
        → List ItemInfo
        → Depot
        → Result EditFailure ⊤ × Depot
    change_checked f rows (e ∷ es) infos s = (err (form_invalid (e ∷ es)), s)
    change_checked f rows [] infos s =
        commit_to user now upper accepts donation s (write_edited f rows infos s)

    abbrev pub change_form : HeaderForm → List EditRow → Depot → Result EditFailure ⊤ × Depot
    change_form f rows s =
        let read = read_rows entry_row_errors [] (item_rows (map safe_row rows)) in
        change_checked (safe_header f) rows (form_errors today (safe_header f) read) read.1 s

    -- A malformed date ends the request in the handler of exceptions.
    abbrev pub change_dated :
        DateField → HeaderForm → List EditRow → Depot → Result EditFailure ⊤ × Depot
    change_dated malformed f rows s = (err date_unreadable, s)
    change_dated blank f rows s = change_form f rows s
    change_dated (date d) f rows s = change_form f rows s

    -- the POST of edit_donation; a version that is no number is 0
    unfoldable pub edit_donation :
        ℕ → HeaderForm → List EditRow → Depot → Result EditFailure ⊤ × Depot
    unfolding read_rows entry_row_errors item_rows form_errors safe_header safe_row write_edited
    edit_donation v f rows s =
        editable user now upper accepts donation (the_donation user now upper accepts donation s)
          (λ d.
            if v == d.version_nbr
            then change_dated f.received_date f rows s
            else (err donation_changed, s))
          s
