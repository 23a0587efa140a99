-- ===== src/Donations/Verify.antt =====
-- The POST of `verify_donation_detail`, in one transaction. `accepts` is the database's answer at the
-- commit, `documents` what storing the uploaded documents ended with: an error, or none.
use dmis_feature_branch.Base.{
  ℕ, String, Bool, ◌&&◌, not, Option, none, some, List, [], ◌∷◌, ◌==◌, any, filter, if◌then◌else◌,
  ⊤,
}
use dmis_feature_branch.Base.Table.{first, modify, upsert}
use dmis_feature_branch.Base.Action.{Result, ok, err}
use dmis_feature_branch.Store.{Text}
use dmis_feature_branch.DonationIntake.Rows.{
  Donation, DonationItem, Depot, DateField, blank, malformed, date,
}
use dmis_feature_branch.DonationIntake.Check.{upper_or_none}
use dmis_feature_branch.Donations.Form.{
  HeaderForm, RowForm, FormError, ItemInfo, one_unit, is_funds, value, item_rows, read_rows,
  row_errors, form_errors,
}

pub data VerifyFailure : Type 0 where
  donation_not_found : VerifyFailure
  not_entered : ℕ → VerifyFailure
  version_missing : VerifyFailure
  version_changed : VerifyFailure
  date_malformed : VerifyFailure
  form_refused : List FormError → VerifyFailure
  documents_failed : String → VerifyFailure
  constraint_error : String → VerifyFailure

abbrev pub date_of : DateField → ℕ
date_of blank = 0
date_of malformed = 0
date_of (date d) = d

abbrev pub id_of : Option ℕ → ℕ
id_of none = 0
id_of (some n) = n

-- `DonationItem.query.get((donation_id, item_id))`
abbrev pub is_donation_item : ℕ → ℕ → DonationItem → Bool
is_donation_item donation item r = r.donation_id == donation && r.item_id == item

-- the server's rule that funds have the quantity 1.00
abbrev pub enforced_qty : ItemInfo → ℕ
enforced_qty i = if is_funds i.donation_type then one_unit else i.quantity

module _ (user : String) (now : ℕ) (upper : Text → Text) (donation : ℕ) where
  unfoldable pub update_item_row : ItemInfo → DonationItem → DonationItem
  update_item_row i r = record r {
    donation_type = i.donation_type;
    item_qty = enforced_qty i;
    item_cost = i.item_cost;
    uom_code = i.uom_code;
    currency_code = i.currency_code;
    location_name = upper i.location_name;
    comments_text = upper_or_none upper i.item_comments;
    status_code = b'V';
    update_by_id = user;
    update_dtime = now;
    verify_by_id = some user;
    verify_dtime = some now;
  }

  unfoldable pub new_item_row : ItemInfo → DonationItem
  new_item_row i = record {
    donation_id = donation;
    item_id = i.item_id;
    donation_type = i.donation_type;
    item_qty = enforced_qty i;
    item_cost = i.item_cost;
    uom_code = i.uom_code;
    currency_code = i.currency_code;
    location_name = upper i.location_name;
    status_code = b'V';
    comments_text = upper_or_none upper i.item_comments;
    update_by_id = user;
    update_dtime = now;
    verify_by_id = some user;
    verify_dtime = some now;
    version_nbr = 1;
  }

  -- `items_to_delete`: the donation's items that the form no longer has
  abbrev pub is_dropped : List ItemInfo → DonationItem → Bool
  is_dropped infos r = r.donation_id == donation && not (any (λ i. i.item_id == r.item_id) infos)

  unfoldable pub write_items : List ItemInfo → List DonationItem → List DonationItem
  unfolding update_item_row new_item_row
  write_items [] rs = rs
  write_items (i ∷ is) rs =
      write_items is
        (upsert (is_donation_item donation i.item_id) (update_item_row i) (new_item_row i) rs)

  unfoldable pub verify_header : HeaderForm → Donation → Donation
  verify_header f d = record d {
    donor_id = id_of f.donor_id;
    event_id = id_of f.event_id;
    custodian_id = id_of f.custodian_id;
    donation_desc = upper f.donation_desc;
    received_date = date_of f.received_date;
    origin_country_id = id_of f.origin_country_id;
    origin_address1_text = upper_or_none upper f.origin_address1;
    origin_address2_text = upper_or_none upper f.origin_address2;
    comments_text = upper_or_none upper f.comments_text;
    tot_item_cost = value f.tot_item_cost;
    storage_cost = value f.storage_cost;
    haulage_cost = value f.haulage_cost;
    other_cost = value f.other_cost;
    other_cost_desc = upper_or_none upper f.other_cost_desc;
    status_code = b'V';
    update_by_id = user;
    update_dtime = now;
    verify_by_id = some user;
    verify_dtime = some now;
  }

  -- what the transaction writes
  unfoldable pub write_verified : HeaderForm → List ItemInfo → Depot → Depot
  unfolding write_items verify_header
  write_verified f infos s = record s {
    donations = modify (λ d. d.donation_id == donation) (verify_header f) s.donations;
    donation_items = write_items infos (filter (λ r. not (is_dropped infos r)) s.donation_items);
  }

  module _ (today : ℕ) (accepts : Depot → Option String) (documents : Option String) where
    -- the end of the transaction, by what the documents and the commit ended with
    abbrev pub finish_verified :
        Depot → Depot → Option String → Option String → Result VerifyFailure ⊤ × Depot
    finish_verified old new (some e) answer = (err (documents_failed e), old)
    finish_verified old new none (some e) = (err (constraint_error e), old)
    finish_verified old new none none = (ok tt, new)

    abbrev pub verify_checked :
        HeaderForm → List FormError → List ItemInfo → Depot → Result VerifyFailure ⊤ × Depot
    verify_checked f [] infos s =
        let written = write_verified f infos s in
        finish_verified s written documents (accepts written)
    verify_checked f (e ∷ es) infos s = (err (form_refused (e ∷ es)), s)

    abbrev pub verify_form : HeaderForm → List RowForm → Depot → Result VerifyFailure ⊤ × Depot
    verify_form f rows s =
        let read = read_rows (row_errors s.items) [] (item_rows rows) in
        verify_checked f (form_errors today f read) read.1 s

    -- A malformed date ends the request in the handler of exceptions.
    abbrev pub dated :
        DateField → HeaderForm → List RowForm → Depot → Result VerifyFailure ⊤ × Depot
    dated malformed f rows s = (err date_malformed, s)
    dated blank f rows s = verify_form f rows s
    dated (date d) f rows s = verify_form f rows s

    abbrev pub versioned :
        Option ℕ → Donation → HeaderForm → List RowForm → Depot → Result VerifyFailure ⊤ × Depot
    versioned none d f rows s = (err version_missing, s)
    versioned (some v) d f rows s =
        if d.version_nbr == v then dated f.received_date f rows s else (err version_changed, s)

    abbrev pub donation_found :
        Option Donation
        → Option ℕ
        → HeaderForm
        → List RowForm
        → Depot
        → Result VerifyFailure ⊤ × Depot
    donation_found none v f rows s = (err donation_not_found, s)
    donation_found (some d) v f rows s =
        if d.status_code == b'E'
        then versioned v d f rows s
        else (err (not_entered d.status_code), s)

    -- the POST of verify_donation_detail
    unfoldable pub verify_donation_detail :
        Option ℕ → HeaderForm → List RowForm → Depot → Result VerifyFailure ⊤ × Depot
    unfolding read_rows row_errors item_rows form_errors write_verified
    verify_donation_detail v f rows s =
        donation_found (first (λ d. d.donation_id == donation) s.donations) v f rows s
