-- ===== src/DonationIntake/Record.antt =====
-- `_process_entry_submission` and the POST of `intake_form`: the writes of an entry that has no errors,
-- in one transaction. `accepts` is the database's answer at the commit.
use dmis_feature_branch.Base.{
  ℕ, String, Bool, not, Option, none, some, List, [], ◌∷◌, ◌++◌, map, ◌==◌, filter, if◌then◌else◌,
  ⊤,
}
use dmis_feature_branch.Base.Text.{strip}
use dmis_feature_branch.Base.Table.{first, modify}
use dmis_feature_branch.Base.Action.{Result, ok, err}
use dmis_feature_branch.Store.{Text}
use dmis_feature_branch.DonationIntake.Rows.{
  Warehouse, Donation, DonationIntake, DonationIntakeItem, Depot, is_intake, of_intake,
}
use dmis_feature_branch.DonationIntake.Check.{upper_or_none}
use dmis_feature_branch.DonationIntake.Failures.{
  EntryError, IntakeFailure, donation_not_found, warehouse_not_found, warehouse_not_eligible,
  donation_not_verified, already_verified, entry_refused, constraint_error,
}
use dmis_feature_branch.DonationIntake.Line.{EntryLine}
use dmis_feature_branch.DonationIntake.Entry.{
  IntakeForm, goods_items, entry_date, enter_items, entry_errors,
}

module _ (user : String) (now : ℕ) (donation warehouse : ℕ) where
  abbrev pub entry_status : Bool → ℕ
  entry_status is_draft = if is_draft then b'I' else b'C'

  -- the line that is recorded, pending verification
  unfoldable pub record_line : EntryLine → DonationIntakeItem
  record_line l = record {
    donation_id = donation;
    inventory_id = warehouse;
    item_id = l.item_id;
    batch_no = l.batch_no;
    batch_date = l.batch_date;
    expiry_date = l.expiry_date;
    uom_code = l.uom_code;
    avg_unit_value = l.avg_unit_value;
    ext_item_cost = l.ext_item_cost;
    usable_qty = l.usable_qty;
    defective_qty = l.defective_qty;
    expired_qty = l.expired_qty;
    status_code = b'P';
    comments_text = l.comments_text;
    update_by_id = user;
    update_dtime = now;
  }

  unfoldable pub new_intake : ℕ → Option Text → ℕ → DonationIntake
  new_intake day comments status = record {
    donation_id = donation;
    inventory_id = warehouse;
    intake_date = day;
    comments_text = comments;
    status_code = status;
    create_by_id = user;
    create_dtime = now;
    update_by_id = user;
    update_dtime = now;
    verify_by_id = "";
    verify_dtime = none;
  }

  unfoldable pub update_intake : ℕ → Option Text → ℕ → DonationIntake → DonationIntake
  update_intake day comments status i = record i {
    intake_date = day;
    comments_text = comments;
    status_code = status;
    update_by_id = user;
    update_dtime = now;
  }

  -- the header and the lines that stay, by whether there is an intake
  unfoldable pub write_intake : Option DonationIntake → ℕ → Option Text → ℕ → Depot → Depot
  unfolding new_intake update_intake
  write_intake none day comments status s = record s {
    intakes = s.intakes ++ (new_intake day comments status ∷ []);
  }
  write_intake (some _) day comments status s = record s {
    intakes = modify (is_intake donation warehouse) (update_intake day comments status) s.intakes;
    intake_items = filter (λ r. not (of_intake donation warehouse r)) s.intake_items;
  }

  unfoldable pub record_lines : List EntryLine → Depot → Depot
  unfolding record_line
  record_lines lines s = record s { intake_items = s.intake_items ++ map record_line lines }

  module _ (upper : Text → Text) (today : ℕ) (accepts : Depot → Option String) where
    abbrev pub commit_entry : Depot → Depot → Option String → Result IntakeFailure ⊤ × Depot
    commit_entry old new none = (ok tt, new)
    commit_entry old new (some e) = (err (constraint_error e), old)

    -- what the transaction writes
    unfoldable pub entry_written :
        Option DonationIntake → IntakeForm → List EntryLine → Depot → Depot
    unfolding write_intake record_lines entry_date
    entry_written existing f lines s = record_lines lines (
        write_intake existing (entry_date today f.intake_date).1
          (upper_or_none upper (strip f.comments_text)) (entry_status f.is_draft) s)

    abbrev pub write_entry :
        Option DonationIntake
        → IntakeForm
        → List EntryError
        → List EntryLine
        → Depot
        → Result IntakeFailure ⊤ × Depot
    write_entry existing f [] lines s =
        let written = entry_written existing f lines s in commit_entry s written (accepts written)
    write_entry existing f (e ∷ es) lines s = (err (entry_refused (e ∷ es)), s)

    -- _process_entry_submission
    unfoldable pub process_entry_submission :
        Option DonationIntake → IntakeForm → Depot → Result IntakeFailure ⊤ × Depot
    unfolding entry_errors enter_items entry_written
    process_entry_submission existing f s =
        let goods = goods_items donation s.items s.donation_items in
        write_entry existing f (entry_errors upper today f goods)
          (enter_items upper today f.fields goods).1 s

    abbrev pub existing_open :
        Option DonationIntake → IntakeForm → Depot → Result IntakeFailure ⊤ × Depot
    existing_open none f s = process_entry_submission none f s
    existing_open (some i) f s =
        if i.status_code == b'V'
        then (err already_verified, s)
        else process_entry_submission (some i) f s

    abbrev pub entry_found :
        Option Donation → Option Warehouse → IntakeForm → Depot → Result IntakeFailure ⊤ × Depot
    entry_found none w f s = (err donation_not_found, s)
    entry_found (some d) none f s = (err warehouse_not_found, s)
    entry_found (some d) (some w) f s =
        if not w.allow_donation_intake
        then (err warehouse_not_eligible, s)
        else if not (d.status_code == b'V')
        then (err donation_not_verified, s)
        else existing_open (first (is_intake donation warehouse) s.intakes) f s

    -- the POST of intake_form
    unfoldable pub intake_form : IntakeForm → Depot → Result IntakeFailure ⊤ × Depot
    unfolding process_entry_submission
    intake_form f s =
        entry_found (first (λ d. d.donation_id == donation) s.donations)
          (first (λ w. w.warehouse_id == warehouse) s.warehouses) f s
