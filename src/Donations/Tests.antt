-- ===== src/Donations/Tests.antt =====
-- The verification of a donation of goods and of funds.
use dmis_feature_branch.Base.{◌≡◌, refl, false, true, none, some, List, [], ◌∷◌, map, ℕ, ⊤}
use dmis_feature_branch.Base.Text.{codes}
use dmis_feature_branch.Base.Table.{first, modify}
use dmis_feature_branch.Base.Action.{Result, ok, err}
use dmis_feature_branch.Store.{Text}
use dmis_feature_branch.DonationIntake.Rows.{Item, DonationItem, DonationType, Depot, amount, date}
use dmis_feature_branch.DonationIntake.Tests.{relief_goods, given, rice_item}
use dmis_feature_branch.Donations.Form.{HeaderForm, RowForm, FormError, RowError}
use dmis_feature_branch.Donations.Verify.{
  VerifyFailure, form_refused, is_donation_item, verify_donation_detail,
}
use dmis_feature_branch.Donations.Items.{ItemFields, donation_changed, edit_donation_item}
use dmis_feature_branch.Donations.Edit.{EditRow, edit_donation}
use dmis_feature_branch.Donations.ReadOnly.{Call, after_calls, after_calls-IsReadOnly}
use dmis_feature_branch.Donations.Create.{create_donation}
use dmis_feature_branch.Donations.Entered.{Finished, IsDonated, create_donation-IsDonated}
use dmis_feature_branch.Donations.Checked.{Fits, WasEntered, verify_donation_detail-Fits}

abbrev cash_item : Item
cash_item = record {
  item_id = 9;
  item_code = codes "CASH";
  category_type = codes "FUNDS";
  is_batched_flag = false;
  can_expire_flag = false;
}

-- a donation of rice that was entered, with the version 1
abbrev desk : Depot
desk = record {
  stock = record {
    batches = [];
    inventories = [];
    packages = [];
    pkg_items = [];
    requests = [];
    rqst_items = [];
  };
  next_batch_id = 1;
  items = rice_item ∷ cash_item ∷ [];
  warehouses = [];
  donations = record relief_goods { status_code = b'E'; version_nbr = 1 } ∷ [];
  donation_items = given 3 50 ∷ given 4 20 ∷ [];
  intakes = [];
  intake_items = [];
}

abbrev header : HeaderForm
header = record {
  donor_id = some 1;
  event_id = some 1;
  custodian_id = some 1;
  donation_desc = codes "RICE AND CASH";
  received_date = date 28;
  origin_country_id = some 388;
  origin_address1 = [];
  origin_address2 = [];
  comments_text = [];
  tot_item_cost = amount 9000000;
  storage_cost = amount 0;
  haulage_cost = amount 0;
  other_cost = amount 0;
  other_cost_desc = [];
}

abbrev rice_row : RowForm
rice_row = record {
  item_num = 1;
  item_id = some 3;
  donation_type = DonationType.goods;
  quantity = some (amount 600000);
  item_cost = amount 15;
  uom_code = some 1;
  currency_code = some 5;
  location_name = codes "DONATION RECEIVED";
  item_comments = [];
}

abbrev cash_row : RowForm
cash_row = record {
  item_num = 2;
  item_id = some 9;
  donation_type = DonationType.funds;
  quantity = some (amount 10000);
  item_cost = amount 5000000;
  uom_code = none;
  currency_code = some 5;
  location_name = codes "DONATION RECEIVED";
  item_comments = [];
}

abbrev upper : Text → Text
upper t = t

abbrev verify : HeaderForm → List RowForm → Result VerifyFailure ⊤ × Depot
verify f rows = verify_donation_detail "CHIEF" 6 upper 11 40 (λ s. none) none (some 1) f rows desk

verifies :
    verify header (rice_row ∷ cash_row ∷ []) ≡ (ok tt, (verify header (rice_row ∷ cash_row ∷ [])).1)
unfolding verify_donation_detail first
verifies = refl

-- funds with another quantity than 1.00, and a second row of the same item
refuses : verify header (record cash_row { quantity = some (amount 20000) } ∷ cash_row ∷ []) ≡ (
  err (
      form_refused (
        FormError.row_error 2 RowError.quantity_not_one
        ∷ FormError.row_error 2 RowError.duplicate_item
        ∷ [])),
  desk,
)
unfolding verify_donation_detail first
refuses = refl

-- the cash as it is on file afterwards
abbrev cash : DonationItem
cash = record {
  donation_id = 11;
  item_id = 9;
  donation_type = DonationType.funds;
  item_qty = 10000;
  item_cost = 5000000;
  uom_code = none;
  currency_code = some 5;
  location_name = codes "DONATION RECEIVED";
  status_code = b'V';
  comments_text = none;
  update_by_id = "CHIEF";
  update_dtime = 6;
  verify_by_id = some "CHIEF";
  verify_dtime = some 6;
  version_nbr = 1;
}

found :
    first (is_donation_item 11 9) (verify header (rice_row ∷ cash_row ∷ [])).1.donation_items
    ≡ some cash
unfolding verify_donation_detail first modify
found = refl

verify_donation_detail-Fits_example :
    WasEntered "CHIEF" 6 upper 11 40 (λ s. none) none (some 1) desk
    × Fits cash.donation_type cash.item_qty cash.item_cost cash.uom_code cash.currency_code
    × (cash.status_code ≡ b'V')
verify_donation_detail-Fits_example =
    verify_donation_detail-Fits "CHIEF" 6 upper 11 40 (λ s. none) none (some 1) header
      (rice_row ∷ cash_row ∷ []) desk (verify header (rice_row ∷ cash_row ∷ [])).1 9 cash verifies
      found

create_donation-IsDonated_example :
    Finished desk (IsDonated 12 desk) (
      create_donation "CLERK" 5 upper 12 40 (λ s. none) none header (rice_row ∷ cash_row ∷ []) desk)
create_donation-IsDonated_example =
    create_donation-IsDonated "CLERK" 5 upper 12 40 (λ s. none) none desk header
      (rice_row ∷ cash_row ∷ [])

enters :
    (create_donation "CLERK" 5 upper 12 40
      (λ s. none)
      none
      header
      (rice_row ∷ cash_row ∷ [])
      desk).0
    ≡ ok tt
unfolding create_donation
enters = refl

-- the same donation after its verification
abbrev closed : Depot
closed = record desk { donations = relief_goods ∷ [] }

abbrev item_of : DonationItem → ℕ
item_of r = r.item_id

-- rice, which is on file, and cash, which is new
abbrev edit_rows : List EditRow
edit_rows =
    record { row = rice_row; is_existing = true }
    ∷ record { row = cash_row; is_existing = false }
    ∷ []

-- The item 4, which the form lacks, is deleted.
edits_donation :
    map item_of
      (edit_donation "CLERK" 5 upper 11 40 (λ s. none) 1 header edit_rows desk).1.donation_items
    ≡ 3 ∷ 9 ∷ []
unfolding edit_donation first modify
edits_donation = refl

edit_needs_version :
    (edit_donation "CLERK" 5 upper 11 40 (λ s. none) 2 header edit_rows desk).0
    ≡ err donation_changed
unfolding edit_donation first
edit_needs_version = refl

abbrev fields : ItemFields
fields = record {
  item_id = some 4;
  item_qty = some (amount 50000);
  uom_code = some 1;
  location_name = codes "YARD";
  status_code = some b'V';
  comments_text = [];
  version_nbr = 1;
}

abbrev calls : List Call
calls =
    Call.edit 1 header edit_rows
    ∷ Call.edit_item_of 4 fields
    ∷ Call.delete_item_of 3
    ∷ Call.delete_all
    ∷ []

-- the same edit before the verification
edits : (edit_donation_item "CLERK" 5 upper (λ s. none) 11 4 fields desk).0 ≡ ok tt
unfolding edit_donation_item first
edits = refl

after_calls-IsReadOnly_example :
    after_calls "CLERK" 5 upper 40 (λ s. none) none 11 calls closed ≡ closed
unfolding first
after_calls-IsReadOnly_example =
    after_calls-IsReadOnly "CLERK" 5 upper 40 (λ s. none) none 11 calls closed
      (relief_goods, refl, refl)
