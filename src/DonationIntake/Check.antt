-- ===== src/DonationIntake/Check.antt =====
-- The tests of `_process_verification_submission` on the lines of an intake. A field that the form
-- lacks stands for the value that the code takes in its place.
use dmis_feature_branch.Base.{
  ℕ, ◌+◌, ◌-◌, ◌*◌, Bool, ◌&&◌, Option, none, some, List, [], ◌∷◌, ltb, leb, ◌==◌, if◌then◌else◌,
}
use dmis_feature_branch.Base.Text.{is_empty, strip}
use dmis_feature_branch.Base.Table.{first}
use dmis_feature_branch.Store.{Text}
use dmis_feature_branch.DonationIntake.Rows.{
  Item, DonationItem, DonationIntakeItem, Amount, invalid, negative, amount, DateField, blank,
  malformed, date, intake_total,
}

-- the fields of one item; none where the form lacks the field
pub record VerifyForm : Type 0 where
  pub defective_qty : Option Amount
  pub expired_qty : Option Amount
  pub batch_no : Option Text
  pub batch_date : DateField
  pub expiry_date : DateField
  pub comments : Option Text

pub data LineError : Type 0 where
  quantities_negative : LineError
  donation_item_missing : LineError
  donation_empty : LineError
  intake_empty : LineError
  over_intake : LineError
  over_donation : LineError
  nothing_usable : LineError
  quantities_invalid : LineError
  batch_date_future : LineError
  batch_date_invalid : LineError
  expiry_past : LineError
  expiry_before_batch : LineError
  expiry_invalid : LineError
  item_missing : LineError
  form_missing : LineError
  batch_no_required : LineError
  batch_date_required : LineError
  batch_date_without : LineError
  batch_no_without : LineError
  expiry_required : LineError
  uom_required : LineError
  unit_cost_zero : LineError
  unit_cost_invalid : LineError

-- an element of `verified_items_data`
pub record Verified : Type 0 where
  pub intake_item : DonationIntakeItem
  pub batch_no : Text
  pub batch_date : ℕ
  pub expiry_date : Option ℕ
  pub usable_qty : ℕ
  pub defective_qty : ℕ
  pub expired_qty : ℕ
  pub ext_item_cost : ℕ
  pub comments_text : Option Text

pub data Checked (A : Type 0) : Type 0 where
  passed : A → Checked A
  failed : LineError → Checked A

abbrev pub then_check : {A B : Type 0} → Checked A → (A → Checked B) → Checked B
then_check (passed a) f = f a
then_check (failed e) f = failed e

-- what a line adds to `errors` or to `verified_items_data`
abbrev pub collect :
    DonationIntakeItem
    → Checked Verified
    → List (ℕ × LineError) × List Verified
    → List (ℕ × LineError) × List Verified
collect r (passed v) (errors, lines) = (errors, v ∷ lines)
collect r (failed e) (errors, lines) = ((r.item_id, e) ∷ errors, lines)

-- `request.form.get(key, default)`
abbrev pub get_or : {A : Type 0} → A → Option A → A
get_or d none = d
get_or d (some a) = a

-- the two deductions, if both are quantities
abbrev pub deductions : Amount → Amount → Checked (ℕ × ℕ)
deductions invalid e = failed quantities_invalid
deductions negative invalid = failed quantities_invalid
deductions negative e = failed quantities_negative
deductions (amount d) invalid = failed quantities_invalid
deductions (amount d) negative = failed quantities_negative
deductions (amount d) (amount e) = passed (d, e)

-- the usable quantity that is left of the line
unfoldable pub usable_after : DonationIntakeItem → Option DonationItem → ℕ × ℕ → Checked ℕ
usable_after r none (d, e) = failed donation_item_missing
usable_after r (some di) (d, e) =
    if leb di.item_qty 0
    then failed donation_empty
    else if leb (intake_total r) 0
    then failed intake_empty
    else if ltb (intake_total r) (d + e)
    then failed over_intake
    else if ltb di.item_qty (d + e)
    then failed over_donation
    else if leb (intake_total r - d - e) 0
    then failed nothing_usable
    else passed (intake_total r - d - e)

unfoldable pub verify_batch_date : ℕ → DonationIntakeItem → DateField → Checked ℕ
verify_batch_date today r blank = passed r.batch_date
verify_batch_date today r malformed = failed batch_date_invalid
verify_batch_date today r (date d) = if ltb today d then failed batch_date_future else passed d

unfoldable pub verify_expiry_date :
    ℕ → Bool → ℕ → DonationIntakeItem → DateField → Checked (Option ℕ)
verify_expiry_date today can_expire batch_date r blank = passed r.expiry_date
verify_expiry_date today can_expire batch_date r malformed = failed expiry_invalid
verify_expiry_date today can_expire batch_date r (date d) =
    if can_expire && ltb d today
    then failed expiry_past
    else if ltb d batch_date
    then failed expiry_before_batch
    else passed (some d)

-- `text.upper() if text else None`, for the stripped text; `str.upper` is an argument
abbrev pub upper_or_none : (Text → Text) → Text → Option Text
upper_or_none upper t = if is_empty t then none else some (upper t)

-- `batch_no_raw if batch_no_raw else intake_item.batch_no`
abbrev pub batch_no_or : Text → Text → Text
batch_no_or raw old = if is_empty raw then old else raw

module _ (upper : Text → Text) (today : ℕ) where
  abbrev pub verified : DonationIntakeItem → VerifyForm → ℕ × ℕ → ℕ → ℕ → Option ℕ → Verified
  verified r f (d, e) usable batch_date expiry_date = record {
    intake_item = r;
    batch_no = batch_no_or (upper (strip (get_or r.batch_no f.batch_no))) r.batch_no;
    batch_date = batch_date;
    expiry_date = expiry_date;
    usable_qty = usable;
    defective_qty = d;
    expired_qty = e;
    ext_item_cost = intake_total r * r.avg_unit_value;
    comments_text = upper_or_none upper (strip (get_or (get_or [] r.comments_text) f.comments));
  }

  -- one round of the loop over the lines of the intake, from its last test to its first
  unfoldable pub check_expiry :
      Item → VerifyForm → DonationIntakeItem → ℕ × ℕ → ℕ → ℕ → Checked Verified
  unfolding verify_expiry_date
  check_expiry item f r de usable batch_date =
      then_check (verify_expiry_date today item.can_expire_flag batch_date r f.expiry_date)
        (λ expiry_date. passed (verified r f de usable batch_date expiry_date))

  unfoldable pub check_dates : Item → VerifyForm → DonationIntakeItem → ℕ × ℕ → ℕ → Checked Verified
  unfolding verify_batch_date check_expiry
  check_dates item f r de usable =
      then_check (verify_batch_date today r f.batch_date) (check_expiry item f r de usable)

  unfoldable pub check_usable :
      Item → List DonationItem → VerifyForm → DonationIntakeItem → ℕ × ℕ → Checked Verified
  unfolding usable_after check_dates
  check_usable item donated f r de =
      then_check (usable_after r (first (λ di. di.item_id == r.item_id) donated) de)
        (check_dates item f r de)

  unfoldable pub check_item :
      Item → List DonationItem → VerifyForm → DonationIntakeItem → Checked Verified
  unfolding check_usable
  check_item item donated f r =
      then_check
        (deductions (get_or (amount r.defective_qty) f.defective_qty)
          (get_or (amount r.expired_qty) f.expired_qty))
        (check_usable item donated f r)

  -- `item` is the item of the line
  abbrev pub check_line :
      Option Item → List DonationItem → VerifyForm → DonationIntakeItem → Checked Verified
  check_line none donated f r = failed item_missing
  check_line (some item) donated f r = check_item item donated f r

  -- the loop: `errors` and `verified_items_data`
  unfoldable pub check_lines :
      List Item
      → List DonationItem
      → (ℕ → VerifyForm)
      → List DonationIntakeItem
      → List (ℕ × LineError) × List Verified
  unfolding check_item
  check_lines items donated form [] = ([], [])
  check_lines items donated form (r ∷ rs) =
      collect r (check_line (first (λ i. i.item_id == r.item_id) items) donated (form r.item_id) r)
        (check_lines items donated form rs)
