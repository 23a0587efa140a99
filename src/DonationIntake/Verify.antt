-- ===== src/DonationIntake/Verify.antt =====
-- `verify_intake`: the posting of a verified intake to the lines, the batches and the stock, in one
-- transaction. `accepts` is the database's answer at the commit: an error where a constraint fails.
use dmis_feature_branch.Base.{
  ℕ, ◌+◌, String, Bool, not, Option, none, some, List, [], ◌∷◌, ◌++◌, ltb, ◌==◌, filter,
  if◌then◌else◌, is_some,
}
use dmis_feature_branch.Base.Text.{text_beq}
use dmis_feature_branch.Base.Table.{first, modify, upsert}
use dmis_feature_branch.Base.Action.{Result, ok, err}
use dmis_feature_branch.Base.{⊤}
use dmis_feature_branch.Store.{Text, ItemBatch, Inventory, StockKey}
use dmis_feature_branch.Store.Query.{is_stock}
use dmis_feature_branch.DonationIntake.Rows.{
  Donation, DonationIntake, DonationIntakeItem, Depot, is_intake, of_intake, is_line, is_lot,
}
use dmis_feature_branch.DonationIntake.Check.{VerifyForm, LineError, Verified, check_lines}
use dmis_feature_branch.DonationIntake.Failures.{
  IntakeFailure, intake_not_found, already_verified, not_submitted, lines_refused, constraint_error,
}

-- `if new and (not old or new < old): old = new`
abbrev pub earlier_expiry : Option ℕ → Option ℕ → Option ℕ
earlier_expiry none old = old
earlier_expiry (some d) none = some d
earlier_expiry (some d) (some old) = if ltb d old then some d else some old

module _ (user : String) (now : ℕ) where
  -- the line that is written under the number on file
  unfoldable pub update_line : Verified → DonationIntakeItem → DonationIntakeItem
  update_line v r = record r {
    batch_date = v.batch_date;
    expiry_date = v.expiry_date;
    usable_qty = v.usable_qty;
    defective_qty = v.defective_qty;
    expired_qty = v.expired_qty;
    ext_item_cost = v.ext_item_cost;
    status_code = b'V';
    comments_text = v.comments_text;
    update_by_id = user;
    update_dtime = now;
  }

  -- the line that takes its place under a new number
  unfoldable pub new_line : Verified → DonationIntakeItem
  unfolding update_line
  new_line v = record (update_line v v.intake_item) { batch_no = v.batch_no }

  unfoldable pub write_line : Verified → List DonationIntakeItem → List DonationIntakeItem
  unfolding update_line new_line
  write_line v rs =
      if text_beq v.intake_item.batch_no v.batch_no
      then modify (is_line v.intake_item) (update_line v) rs
      else filter (λ r. not (is_line v.intake_item r)) rs ++ (new_line v ∷ [])

  unfoldable pub add_to_batch : Verified → ItemBatch → ItemBatch
  add_to_batch v b = record b {
    usable_qty = b.usable_qty + v.usable_qty;
    defective_qty = b.defective_qty + v.defective_qty;
    expired_qty = b.expired_qty + v.expired_qty;
    expiry_date = earlier_expiry v.expiry_date b.expiry_date;
    update_by_id = user;
    update_dtime = now;
  }

  unfoldable pub new_batch : ℕ → ℕ → Verified → ItemBatch
  new_batch warehouse id v = record {
    batch_id = id;
    inventory_id = warehouse;
    item_id = v.intake_item.item_id;
    batch_no = v.batch_no;
    batch_date = some v.batch_date;
    expiry_date = v.expiry_date;
    usable_qty = v.usable_qty;
    reserved_qty = 0;
    defective_qty = v.defective_qty;
    expired_qty = v.expired_qty;
    uom_code = v.intake_item.uom_code;
    avg_unit_value = v.intake_item.avg_unit_value;
    status_code = b'A';
    comments_text = v.comments_text;
    update_by_id = user;
    update_dtime = now;
    version_nbr = 1;
  }

  unfoldable pub add_to_stock : Verified → Inventory → Inventory
  add_to_stock v r = record r {
    usable_qty = r.usable_qty + v.usable_qty;
    defective_qty = r.defective_qty + v.defective_qty;
    expired_qty = r.expired_qty + v.expired_qty;
    update_by_id = user;
    update_dtime = now;
  }

  unfoldable pub new_stock : ℕ → Verified → Inventory
  new_stock warehouse v = record {
    inventory_id = warehouse;
    item_id = v.intake_item.item_id;
    usable_qty = v.usable_qty;
    reserved_qty = 0;
    defective_qty = v.defective_qty;
    expired_qty = v.expired_qty;
    uom_code = v.intake_item.uom_code;
    status_code = b'A';
    update_by_id = user;
    update_dtime = now;
    version_nbr = 1;
  }

  module _ (warehouse : ℕ) where
    abbrev pub lot_of : Verified → ItemBatch → Bool
    lot_of v = is_lot warehouse v.intake_item.item_id v.batch_no

    abbrev pub stock_key : Verified → StockKey
    stock_key v = record { item_id = v.intake_item.item_id; inventory_id = warehouse }

    unfoldable pub post_batches : ℕ → Verified → List ItemBatch → List ItemBatch
    unfolding add_to_batch new_batch
    post_batches id v bs = upsert (lot_of v) (add_to_batch v) (new_batch warehouse id v) bs

    unfoldable pub post_inventories : Verified → List Inventory → List Inventory
    unfolding add_to_stock new_stock
    post_inventories v rs =
        upsert (is_stock (stock_key v)) (add_to_stock v) (new_stock warehouse v) rs

    unfoldable pub next_id : Verified → Depot → ℕ
    next_id v s =
        if is_some (first (lot_of v) s.stock.batches) then s.next_batch_id else s.next_batch_id + 1

    -- one round of the loop over `verified_items_data`
    unfoldable pub post : Verified → Depot → Depot
    unfolding write_line post_batches post_inventories next_id
    post v s = record s {
      stock = record s.stock {
        batches = post_batches s.next_batch_id v s.stock.batches;
        inventories = post_inventories v s.stock.inventories;
      };
      next_batch_id = next_id v s;
      intake_items = write_line v s.intake_items;
    }

    unfoldable pub post_all : List Verified → Depot → Depot
    unfolding post
    post_all [] s = s
    post_all (v ∷ vs) s = post_all vs (post v s)

  unfoldable pub mark_verified : DonationIntake → DonationIntake
  mark_verified i = record i {
    status_code = b'V';
    verify_by_id = user;
    verify_dtime = some now;
    update_by_id = user;
    update_dtime = now;
  }

  unfoldable pub mark_processed : Donation → Donation
  mark_processed d = record d { status_code = b'P'; update_by_id = user; update_dtime = now }

  -- what the transaction writes
  unfoldable pub post_intake : DonationIntake → List Verified → Depot → Depot
  unfolding mark_verified mark_processed post_all
  post_intake i lines s =
      let marked = record s {
        intakes = modify (is_intake i.donation_id i.inventory_id) mark_verified s.intakes;
      } in
      let posted = post_all i.inventory_id lines marked in
      record posted {
        donations = modify (λ d. d.donation_id == i.donation_id) mark_processed posted.donations;
      }

  module _ (upper : Text → Text) (today : ℕ) (accepts : Depot → Option String) where
    -- the end of the transaction, by the database's answer
    abbrev pub commit : Depot → Depot → Option String → Result IntakeFailure ⊤ × Depot
    commit old new none = (ok tt, new)
    commit old new (some e) = (err (constraint_error e), old)

    abbrev pub checked_lines :
        DonationIntake → (ℕ → VerifyForm) → Depot → List (ℕ × LineError) × List Verified
    checked_lines i form s =
        check_lines upper today s.items
          (filter (λ di. di.donation_id == i.donation_id) s.donation_items) form
          (filter (of_intake i.donation_id i.inventory_id) s.intake_items)

    abbrev pub post_checked :
        DonationIntake
        → List (ℕ × LineError) × List Verified
        → Depot
        → Result IntakeFailure ⊤ × Depot
    post_checked i ([], lines) s =
        let posted = post_intake i lines s in commit s posted (accepts posted)
    post_checked i (e ∷ es, lines) s = (err (lines_refused (e ∷ es)), s)

    -- _process_verification_submission
    unfoldable pub process_verification_submission :
        DonationIntake → (ℕ → VerifyForm) → Depot → Result IntakeFailure ⊤ × Depot
    unfolding check_lines post_intake
    process_verification_submission i form s = post_checked i (checked_lines i form s) s

    -- the POST of verify_intake, on the intake of the key
    unfoldable pub verify_found :
        Option DonationIntake → (ℕ → VerifyForm) → Depot → Result IntakeFailure ⊤ × Depot
    unfolding process_verification_submission
    verify_found none form s = (err intake_not_found, s)
    verify_found (some i) form s =
        if i.status_code == b'C'
        then process_verification_submission i form s
        else if i.status_code == b'V'
        then (err already_verified, s)
        else (err not_submitted, s)

    unfoldable pub verify_intake : ℕ → ℕ → (ℕ → VerifyForm) → Depot → Result IntakeFailure ⊤ × Depot
    unfolding verify_found
    verify_intake donation warehouse form s =
        verify_found (first (is_intake donation warehouse) s.intakes) form s
