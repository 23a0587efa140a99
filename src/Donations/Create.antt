-- ===== src/Donations/Create.antt =====
-- The POST of `create_donation`, in one transaction, and the two deletions. `fresh` is the number that
-- the database gives the donation, `accepts` its answer at the commit, `documents` what storing the
-- uploaded documents ended with.
use dmis_feature_branch.Base.{ℕ, String, ◌&&◌, Option, none, some, List, [], ◌∷◌, ◌++◌, map, leb, ⊤}
use dmis_feature_branch.Base.Action.{Result, ok, err}
use dmis_feature_branch.Store.{Text}
use dmis_feature_branch.DonationIntake.Rows.{
  Donation, DonationItem, Depot, DateField, blank, malformed, date, Amount, invalid, negative,
  amount,
}
use dmis_feature_branch.DonationIntake.Check.{upper_or_none}
use dmis_feature_branch.Donations.Form.{
  HeaderForm, RowForm, RowError, type_invalid, quantity_required, quantity_negative,
  quantity_invalid, cost_negative, cost_invalid, FormError, funds_without_cost, ItemInfo, when,
  is_unknown, is_funds, value, type_errors, item_rows, read_rows, form_errors,
}
use dmis_feature_branch.Donations.Verify.{
  VerifyFailure, date_malformed, form_refused, documents_failed, constraint_error, date_of, id_of,
  enforced_qty,
}

unfoldable pub entry_quantity_errors : Option Amount → List RowError
entry_quantity_errors none = quantity_required ∷ []
entry_quantity_errors (some invalid) = quantity_invalid ∷ []
entry_quantity_errors (some negative) = quantity_negative ∷ []
entry_quantity_errors (some (amount q)) = []

unfoldable pub entry_cost_errors : Amount → List RowError
entry_cost_errors invalid = cost_invalid ∷ []
entry_cost_errors negative = cost_negative ∷ []
entry_cost_errors (amount v) = []

-- the tests on a row: those of a verification, less the rules for funds and the item's category
unfoldable pub entry_row_errors : RowForm → ℕ → List RowError
unfolding entry_quantity_errors entry_cost_errors type_errors
entry_row_errors r id =
    when (is_unknown r.donation_type) type_invalid
    ++ (entry_quantity_errors r.quantity
        ++ (entry_cost_errors r.item_cost
            ++ type_errors r.donation_type r.uom_code r.currency_code))

-- the second loop over `item_data`: quantities and costs are not negative by then
unfoldable pub funds_errors : List ItemInfo → List FormError
funds_errors [] = []
funds_errors (i ∷ is) =
    when (is_funds i.donation_type && leb i.item_cost 0) (funds_without_cost i.item_id)
    ++ funds_errors is

module _ (user : String) (now : ℕ) (upper : Text → Text) (fresh : ℕ) where
  unfoldable pub entered_item : ItemInfo → DonationItem
  entered_item i = record {
    donation_id = fresh;
    item_id = i.item_id;
    donation_type = i.donation_type;
    item_qty = enforced_qty i;
    item_cost = i.item_cost;
    uom_code = i.uom_code;
    currency_code = i.currency_code;
    location_name = upper i.location_name;
    status_code = b'P';
    comments_text = upper_or_none upper i.item_comments;
    update_by_id = user;
    update_dtime = now;
    verify_by_id = none;
    verify_dtime = none;
    version_nbr = 1;
  }

  unfoldable pub entered_donation : HeaderForm → Donation
  entered_donation f = record {
    donation_id = fresh;
    donor_id = id_of f.donor_id;
    event_id = id_of f.event_id;
    custodian_id = id_of f.custodian_id;
    donation_desc = upper f.donation_desc;
    received_date = date_of f.received_date;
    origin_country_id = id_of f.origin_country_id;
    origin_address1_text = upper_or_none upper f.origin_address1;
    origin_address2_text = upper_or_none upper f.origin_address2;
    tot_item_cost = value f.tot_item_cost;
    storage_cost = value f.storage_cost;
    haulage_cost = value f.haulage_cost;
    other_cost = value f.other_cost;
    other_cost_desc = upper_or_none upper f.other_cost_desc;
    status_code = b'E';
    comments_text = upper_or_none upper f.comments_text;
    update_by_id = user;
    update_dtime = now;
    verify_by_id = none;
    verify_dtime = none;
    version_nbr = 1;
  }

  -- what the transaction writes
  unfoldable pub write_entered : HeaderForm → List ItemInfo → Depot → Depot
  unfolding entered_item entered_donation
  write_entered f infos s = record s {
    donations = s.donations ++ (entered_donation f ∷ []);
    donation_items = s.donation_items ++ map entered_item infos;
  }

  module _ (today : ℕ) (accepts : Depot → Option String) (documents : Option String) where
    abbrev pub finish_entered :
        Depot → Depot → Option String → Option String → Result VerifyFailure ⊤ × Depot
    finish_entered old new (some e) answer = (err (documents_failed e), old)
    finish_entered old new none (some e) = (err (constraint_error e), old)
    finish_entered old new none none = (ok tt, new)

    abbrev pub enter_checked :
        HeaderForm
        → List FormError
        → List FormError
        → List ItemInfo
        → Depot
        → Result VerifyFailure ⊤ × Depot
    enter_checked f (e ∷ es) later_errors infos s = (err (form_refused (e ∷ es)), s)
    enter_checked f [] (e ∷ es) infos s = (err (form_refused (e ∷ es)), s)
    enter_checked f [] [] infos s =
        let written = write_entered f infos s in
        finish_entered s written documents (accepts written)

    abbrev pub enter_form : HeaderForm → List RowForm → Depot → Result VerifyFailure ⊤ × Depot
    enter_form f rows s =
        let read = read_rows entry_row_errors [] (item_rows rows) in
        enter_checked f (form_errors today f read) (funds_errors read.1) read.1 s

    abbrev pub enter_dated :
        DateField → HeaderForm → List RowForm → Depot → Result VerifyFailure ⊤ × Depot
    enter_dated malformed f rows s = (err date_malformed, s)
    enter_dated blank f rows s = enter_form f rows s
    enter_dated (date d) f rows s = enter_form f rows s

    -- the POST of create_donation
    unfoldable pub create_donation :
        HeaderForm → List RowForm → Depot → Result VerifyFailure ⊤ × Depot
    unfolding read_rows entry_row_errors item_rows form_errors funds_errors write_entered
    create_donation f rows s = enter_dated f.received_date f rows s
