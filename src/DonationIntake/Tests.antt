-- ===== src/DonationIntake/Tests.antt =====
-- Donation intake on concrete forms: the theorems' instances, and runs.
use dmis_feature_branch.Base.{
  ℕ, ◌≡◌, refl, String, true, false, Option, none, some, [], ◌∷◌, map, arith, ⊤, ◌==◌,
  if◌then◌else◌,
}
use dmis_feature_branch.Base.Text.{codes, strip, is_space}
use dmis_feature_branch.Base.Table.{first, modify}
use dmis_feature_branch.Base.Action.{Result, ok, err}
use dmis_feature_branch.Store.{Text, ItemBatch}
use dmis_feature_branch.Store.Samples.{rice, rice_stock}
use dmis_feature_branch.DonationIntake.Rows.{
  Item, Depot, Donation, DonationItem, DonationType, amount, blank, date,
}
use dmis_feature_branch.DonationIntake.Check.{VerifyForm}
use dmis_feature_branch.DonationIntake.Failures.{
  IntakeFailure, already_verified, entry_refused, quantity_mismatch,
}
use dmis_feature_branch.DonationIntake.Verify.{verify_intake}
use dmis_feature_branch.DonationIntake.Line.{EntryForm}
use dmis_feature_branch.DonationIntake.Entry.{IntakeForm, goods_items}
use dmis_feature_branch.DonationIntake.Record.{intake_form}
use dmis_feature_branch.DonationIntake.Posted.{IsReceived}
use dmis_feature_branch.DonationIntake.Kept.{
  Settled, IsPosted, verify_intake-IsSafe, verify_intake_once,
}
use dmis_feature_branch.DonationIntake.Recorded.{IsEntered, intake_form-IsEntered}
use dmis_feature_branch.DonationIntake.Stocked.{AllStocked, verify_intake_after_entry}

-- `str.upper` on texts without lower-case letters
abbrev upper : Text → Text
upper t = t

abbrev accepts : Depot → Option String
accepts s = none

abbrev pub rice_item : Item
rice_item = record {
  item_id = 3;
  item_code = codes "RICE";
  category_type = codes "GOODS";
  is_batched_flag = true;
  can_expire_flag = true;
}

abbrev tent_item : Item
tent_item = record {
  item_id = 4;
  item_code = codes "TENT";
  category_type = codes "GOODS";
  is_batched_flag = false;
  can_expire_flag = false;
}

abbrev pub relief_goods : Donation
relief_goods = record {
  donation_id = 11;
  donor_id = 1;
  event_id = 1;
  custodian_id = 1;
  donation_desc = codes "RELIEF GOODS";
  received_date = 28;
  origin_country_id = 388;
  origin_address1_text = none;
  origin_address2_text = none;
  tot_item_cost = 900;
  storage_cost = 0;
  haulage_cost = 0;
  other_cost = 0;
  other_cost_desc = none;
  status_code = b'V';
  comments_text = none;
  update_by_id = "CLERK";
  update_dtime = 1;
  verify_by_id = some "CHIEF";
  verify_dtime = some 2;
  version_nbr = 2;
}

abbrev pub given : ℕ → ℕ → DonationItem
given item qty = record {
  donation_id = 11;
  item_id = item;
  donation_type = DonationType.goods;
  item_qty = qty;
  item_cost = 15;
  uom_code = some 1;
  currency_code = none;
  location_name = codes "DONATION RECEIVED";
  status_code = b'V';
  comments_text = none;
  update_by_id = "CLERK";
  update_dtime = 1;
  verify_by_id = some "CHIEF";
  verify_dtime = some 2;
  version_nbr = 1;
}

-- 50 of rice and 20 tents, for the warehouses 7 and 8, of which 7 has rice in stock
abbrev depot : Depot
depot = record {
  stock = record {
    batches = rice ∷ [];
    inventories = rice_stock ∷ [];
    packages = [];
    pkg_items = [];
    requests = [];
    rqst_items = [];
  };
  next_batch_id = 2;
  items = rice_item ∷ tent_item ∷ [];
  warehouses =
      record { warehouse_id = 7; allow_donation_intake = true }
      ∷ record { warehouse_id = 8; allow_donation_intake = true }
      ∷ [];
  donations = relief_goods ∷ [];
  donation_items = given 3 50 ∷ given 4 20 ∷ [];
  intakes = [];
  intake_items = [];
}

abbrev rice_entry : EntryForm
rice_entry = record {
  batch_no = some (codes " L1 ");
  batch_date = date 18;
  expiry_date = date 90;
  uom_code = some 1;
  avg_unit_value = amount 15;
  usable_qty = amount 45;
  defective_qty = amount 3;
  expired_qty = amount 2;
  comments = codes "WET BAGS";
}

abbrev tent_entry : EntryForm
tent_entry = record {
  batch_no = some [];
  batch_date = blank;
  expiry_date = blank;
  uom_code = some 1;
  avg_unit_value = amount 400;
  usable_qty = amount 20;
  defective_qty = amount 0;
  expired_qty = amount 0;
  comments = [];
}

abbrev entry : IntakeForm
entry = record {
  intake_date = date 30;
  comments_text = codes "PIER";
  is_draft = false;
  fields = λ item. if item == 3 then rice_entry else tent_entry;
}

-- The manager finds one more bag defective.
abbrev check : ℕ → VerifyForm
check item = record {
  defective_qty = if item == 3 then some (amount 4) else none;
  expired_qty = none;
  batch_no = none;
  batch_date = blank;
  expiry_date = blank;
  comments = none;
}

abbrev enter_at : ℕ → Depot → Result IntakeFailure ⊤ × Depot
enter_at warehouse = intake_form "CLERK" 5 11 warehouse upper 40 accepts entry

abbrev verify_at : ℕ → Depot → Result IntakeFailure ⊤ × Depot
verify_at warehouse = verify_intake "CHIEF" 6 upper 41 accepts 11 warehouse check

abbrev submitted : Depot
submitted = (enter_at 7 depot).1

enters : enter_at 7 depot ≡ (ok tt, submitted)
unfolding intake_form first strip is_space goods_items
enters = refl

verifies : verify_at 7 submitted ≡ (ok tt, (verify_at 7 submitted).1)
unfolding intake_form verify_intake first modify strip is_space goods_items
verifies = refl

abbrev holding : ItemBatch → ℕ × Text × ℕ × ℕ × ℕ
holding b = (b.batch_id, b.batch_no, b.usable_qty, b.defective_qty, b.expired_qty)

-- Rice goes to the batch on file, tents to a new one under their item code.
batches_after :
    map holding (verify_at 7 submitted).1.stock.batches
    ≡ (1, codes "L1", 144, 4, 2) ∷ (2, codes "TENT", 20, 0, 0) ∷ []
unfolding intake_form verify_intake first modify strip is_space goods_items
batches_after = refl

-- an entry that leaves out ten tents
abbrev short_entry : IntakeForm
short_entry = record entry {
  fields = λ item. if item == 3 then rice_entry else record tent_entry { usable_qty = amount 10 };
}

refuses_short :
    intake_form "CLERK" 5 11 7 upper 40 accepts short_entry depot
    ≡ (err (entry_refused (quantity_mismatch 4 10 20 ∷ [])), depot)
unfolding intake_form first strip is_space goods_items
refuses_short = refl

intake_form-IsEntered_example : Settled depot (IsEntered 11 7 entry depot) (enter_at 7 depot)
intake_form-IsEntered_example =
    intake_form-IsEntered "CLERK" 5 11 7 upper 40 accepts depot (λ _. refl) entry

verify_intake_once_example :
    verify_intake "OTHER" 9 upper 50 accepts 11 7 check (verify_at 7 submitted).1
    ≡ (err already_verified, (verify_at 7 submitted).1)
verify_intake_once_example =
    verify_intake_once "CHIEF" "OTHER" 6 9 upper 41 50 accepts 11 7 check check submitted
      (verify_at 7 submitted).1 verifies

verify_intake_after_entry_example :
    AllStocked 7 depot (verify_at 7 submitted).1 (goods_items 11 depot.items depot.donation_items)
verify_intake_after_entry_example =
    verify_intake_after_entry "CLERK" "CHIEF" 5 6 40 41 11 7 upper accepts entry check depot
      submitted (verify_at 7 submitted).1 (λ _. refl) enters verifies

-- The same donation, entered for two warehouses before either entry is verified, comes to both in
-- full.
abbrev both_entered : Depot
both_entered = (enter_at 8 submitted).1

both_verified : (verify_at 8 (verify_at 7 both_entered).1).0 ≡ ok tt
unfolding intake_form verify_intake first modify strip is_space goods_items
both_verified = refl

abbrev usable_at : ItemBatch → ℕ × ℕ
usable_at b = (b.inventory_id, b.usable_qty)

tents_twice :
    map usable_at (verify_at 8 (verify_at 7 both_entered).1).1.stock.batches
    ≡ (7, 144) ∷ (7, 20) ∷ (8, 44) ∷ (8, 20) ∷ []
unfolding intake_form verify_intake first modify strip is_space goods_items
tents_twice = refl

-- The witness is about an intake that has been submitted, at a depot whose stock is well-formed.
submitted-IsReceived : IsReceived submitted.stock
unfolding intake_form first strip is_space goods_items
submitted-IsReceived = (
  (omega arith, tt),
  λ k r e active. ground arith,
  λ k r e active. ground arith,
  λ k h. ground arith,
)

verify_intake-IsSafe_example :
    IsReceived (verify_at 7 submitted).1.stock
    × Settled submitted (IsPosted 11 7 submitted) (verify_at 7 submitted)
verify_intake-IsSafe_example =
    verify_intake-IsSafe "CHIEF" 6 upper 41 accepts 11 7 check submitted submitted-IsReceived
