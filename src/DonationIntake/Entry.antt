-- ===== src/DonationIntake/Entry.antt =====
-- `intake_form`: the entry of an intake, in one transaction. `item_totals` is read as sums over the
-- lines that passed, the set `seen_batches` as a list.
use dmis_feature_branch.Base.{
  ℕ, Bool, ◌&&◌, Option, none, some, List, [], ◌∷◌, ◌++◌, ltb, ◌==◌, any, total, length,
  if◌then◌else◌,
}
use dmis_feature_branch.Base.Text.{codes, strip, text_beq}
use dmis_feature_branch.Base.Table.{first}
use dmis_feature_branch.Store.{Text}
use dmis_feature_branch.DonationIntake.Rows.{Item, DonationItem, DateField, blank, malformed, date}
use dmis_feature_branch.DonationIntake.Check.{Checked, passed, failed}
use dmis_feature_branch.DonationIntake.Failures.{
  EntryError, date_required, date_future, date_invalid, comments_long, item_error, duplicate_batch,
  quantity_mismatch, intake_data_missing,
}
use dmis_feature_branch.DonationIntake.Line.{EntryForm, EntryLine, entry_total, enter_item}

-- the form of the page; `is_draft` is whether its action is save_draft
pub record IntakeForm : Type 0 where
  pub intake_date : DateField
  pub comments_text : Text
  pub is_draft : Bool
  pub fields : ℕ → EntryForm

abbrev pub Good : Type 0
Good = DonationItem × Item

abbrev pub is_goods : ℕ → DonationItem → Item → Bool
is_goods donation di i = di.donation_id == donation && text_beq i.category_type (codes "GOODS")

-- the row that the joins make of a donation item and its item
abbrev pub joined : ℕ → DonationItem → Option Item → List Good → List Good
joined donation di none rest = rest
joined donation di (some i) rest = if is_goods donation di i then (di, i) ∷ rest else rest

-- _get_goods_items_for_donation
unfoldable pub goods_items : ℕ → List Item → List DonationItem → List Good
goods_items donation items [] = []
goods_items donation items (di ∷ dis) =
    joined donation di (first (λ i. i.item_id == di.item_id) items) (goods_items donation items dis)

-- the header's errors and its date
unfoldable pub entry_date : ℕ → DateField → List EntryError × ℕ
entry_date today blank = (date_required ∷ [], 0)
entry_date today malformed = (date_invalid ∷ [], 0)
entry_date today (date d) = if ltb today d then (date_future ∷ [], d) else ([], d)

abbrev pub comments_errors : Text → List EntryError
comments_errors t = if ltb 255 (length t) then comments_long ∷ [] else []

abbrev pub line_of : ℕ → EntryLine → Bool
line_of item l = l.item_id == item

-- `item_totals.get(item_id, 0)`
abbrev pub actual_qty : ℕ → List EntryLine → ℕ
actual_qty item = total (λ l. if line_of item l then entry_total l else 0)

unfoldable pub duplicate_errors : List (ℕ × Text) → List EntryLine → List EntryError
duplicate_errors seen [] = []
duplicate_errors seen (l ∷ ls) =
    let rest = duplicate_errors ((l.item_id, l.batch_no) ∷ seen) ls in
    if any (λ k. k.0 == l.item_id && text_beq k.1 l.batch_no) seen
    then duplicate_batch l.item_id l.batch_no ∷ rest
    else rest

unfoldable pub mismatch_errors : List EntryLine → List Good → List EntryError
mismatch_errors lines [] = []
mismatch_errors lines ((di, i) ∷ goods) =
    let rest = mismatch_errors lines goods in
    if actual_qty di.item_id lines == di.item_qty
    then rest
    else quantity_mismatch di.item_id (actual_qty di.item_id lines) di.item_qty ∷ rest

unfoldable pub missing_errors : List EntryLine → List Good → List EntryError
missing_errors lines [] = []
missing_errors lines ((di, i) ∷ goods) =
    let rest = missing_errors lines goods in
    if any (line_of di.item_id) lines then rest else intake_data_missing di.item_id ∷ rest

-- what an item adds to `errors` or to `intake_items_data`
abbrev pub entered :
    ℕ → Checked EntryLine → List EntryError × List EntryLine → List EntryError × List EntryLine
entered item (passed l) (errors, lines) = (errors, l ∷ lines)
entered item (failed e) (errors, lines) = (item_error item e ∷ errors, lines)

module _ (upper : Text → Text) (today : ℕ) where
  unfoldable pub enter_items : (ℕ → EntryForm) → List Good → List EntryError × List EntryLine
  unfolding enter_item
  enter_items fields [] = ([], [])
  enter_items fields ((di, i) ∷ goods) =
      entered di.item_id (enter_item upper today i (fields di.item_id)) (enter_items fields goods)

  -- all the errors of a form, in the order of the tests, and the lines that passed
  unfoldable pub entry_errors : IntakeForm → List Good → List EntryError
  unfolding enter_items entry_date duplicate_errors mismatch_errors missing_errors
  entry_errors f goods =
      let (errors, lines) = enter_items f.fields goods in
      (entry_date today f.intake_date).0
      ++ (comments_errors (strip f.comments_text)
          ++ (errors
              ++ (duplicate_errors [] lines
                  ++ (mismatch_errors lines goods ++ missing_errors lines goods))))
