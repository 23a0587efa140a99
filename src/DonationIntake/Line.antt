-- ===== src/DonationIntake/Line.antt =====
-- The tests of `_process_entry_submission` on the form of one item.
use dmis_feature_branch.Base.{
  ℕ, ◌+◌, ◌*◌, Bool, true, false, ◌||◌, Option, none, some, ltb, ◌==◌, if◌then◌else◌,
}
use dmis_feature_branch.Base.Text.{is_empty, strip}
use dmis_feature_branch.Store.{Text}
use dmis_feature_branch.DonationIntake.Rows.{
  Item, Amount, invalid, negative, amount, DateField, blank, malformed, date,
}
use dmis_feature_branch.DonationIntake.Check.{
  form_missing, batch_no_required, batch_date_required, batch_date_without, batch_no_without,
  batch_date_future, batch_date_invalid, expiry_required, expiry_past, expiry_before_batch,
  expiry_invalid, uom_required, quantities_negative, quantities_invalid, nothing_usable,
  unit_cost_zero, unit_cost_invalid, Checked, passed, failed, then_check, upper_or_none,
}

-- the fields of one item; `batch_no` is none where the form has no such key, `uom_code` where it is
-- blank
pub record EntryForm : Type 0 where
  pub batch_no : Option Text
  pub batch_date : DateField
  pub expiry_date : DateField
  pub uom_code : Option ℕ
  pub avg_unit_value : Amount
  pub usable_qty : Amount
  pub defective_qty : Amount
  pub expired_qty : Amount
  pub comments : Text

-- an element of `intake_items_data`
pub record EntryLine : Type 0 where
  pub item_id : ℕ
  pub batch_no : Text
  pub batch_date : ℕ
  pub expiry_date : Option ℕ
  pub uom_code : ℕ
  pub avg_unit_value : ℕ
  pub ext_item_cost : ℕ
  pub usable_qty : ℕ
  pub defective_qty : ℕ
  pub expired_qty : ℕ
  pub comments_text : Option Text

pub record Quantities : Type 0 where
  pub usable : ℕ
  pub defective : ℕ
  pub expired : ℕ

abbrev pub entry_total : EntryLine → ℕ
entry_total l = l.usable_qty + l.defective_qty + l.expired_qty

unfoldable pub past_date : ℕ → DateField → Checked ℕ
past_date today blank = failed batch_date_invalid
past_date today malformed = failed batch_date_invalid
past_date today (date d) = if ltb today d then failed batch_date_future else passed d

-- the batch number, stripped and upper-cased, and the batch date
unfoldable pub entry_batch : ℕ → Item → Text → DateField → Checked (Text × ℕ)
unfolding past_date
entry_batch today item number d =
    if item.is_batched_flag
    then if is_empty number then failed batch_no_required else elim d [
      | blank ↦ failed batch_date_required
      | f ↦ then_check (past_date today f) (λ day. passed (number, day))
    ]
    else if is_empty number
    then elim d [ blank ↦ passed (item.item_code, today) | f ↦ failed batch_no_without ]
    else elim d [
      | blank ↦ failed batch_date_without
      | f ↦ then_check (past_date today f) (λ day. passed (number, day))
    ]

unfoldable pub entry_expiry : ℕ → Bool → ℕ → DateField → Checked (Option ℕ)
entry_expiry today true batch_date blank = failed expiry_required
entry_expiry today true batch_date malformed = failed expiry_invalid
entry_expiry today true batch_date (date d) =
    if ltb d today
    then failed expiry_past
    else if ltb d batch_date
    then failed expiry_before_batch
    else passed (some d)
entry_expiry today false batch_date blank = passed none
entry_expiry today false batch_date malformed = passed none
entry_expiry today false batch_date (date d) = passed (some d)

unfoldable pub entry_uom : Option ℕ → Checked ℕ
entry_uom none = failed uom_required
entry_uom (some u) = passed u

abbrev pub is_invalid : Amount → Bool
is_invalid invalid = true
is_invalid negative = false
is_invalid (amount q) = false

-- The three texts are read before any of them is tested for its sign.
unfoldable pub entry_quantities : Amount → Amount → Amount → Checked Quantities
entry_quantities (amount u) (amount d) (amount e) =
    if u == 0
    then failed nothing_usable
    else passed (record { usable = u; defective = d; expired = e })
entry_quantities u d e =
    if is_invalid u || is_invalid d || is_invalid e
    then failed quantities_invalid
    else failed quantities_negative

unfoldable pub entry_cost : Amount → Checked ℕ
entry_cost invalid = failed unit_cost_invalid
entry_cost negative = failed unit_cost_zero
entry_cost (amount v) = if v == 0 then failed unit_cost_zero else passed v

module _ (upper : Text → Text) (today : ℕ) where
  abbrev pub entry_line : Item → EntryForm → Text × ℕ → Option ℕ → ℕ → Quantities → ℕ → EntryLine
  entry_line item f (number, day) expiry uom q value = record {
    item_id = item.item_id;
    batch_no = number;
    batch_date = day;
    expiry_date = expiry;
    uom_code = uom;
    avg_unit_value = value;
    ext_item_cost = (q.usable + q.defective + q.expired) * value;
    usable_qty = q.usable;
    defective_qty = q.defective;
    expired_qty = q.expired;
    comments_text = upper_or_none upper (strip f.comments);
  }

  -- one round of the loop over the items of the donation, from its last test to its first
  unfoldable pub enter_amounts : Item → EntryForm → Text × ℕ → Option ℕ → Checked EntryLine
  unfolding entry_uom entry_quantities entry_cost
  enter_amounts item f batch expiry = then_check (entry_uom f.uom_code) (λ uom.
      then_check (entry_quantities f.usable_qty f.defective_qty f.expired_qty) (λ q.
        then_check (entry_cost f.avg_unit_value)
          (λ value. passed (entry_line item f batch expiry uom q value))))

  unfoldable pub enter_expiry : Item → EntryForm → Text × ℕ → Checked EntryLine
  unfolding entry_expiry enter_amounts
  enter_expiry item f batch =
      then_check (entry_expiry today item.can_expire_flag batch.1 f.expiry_date)
        (enter_amounts item f batch)

  unfoldable pub enter_item : Item → EntryForm → Checked EntryLine
  unfolding entry_batch enter_expiry
  enter_item item f = elim f.batch_no [
    | none ↦ failed form_missing
    | some number ↦
        then_check (entry_batch today item (upper (strip number)) f.batch_date)
          (enter_expiry item f)
  ]
