-- ===== src/DonationIntake/Failures.antt =====
-- The ways in which the pages of donation intake refuse a form, with the data of the message.
use dmis_feature_branch.Base.{ℕ, String, List}
use dmis_feature_branch.Store.{Text}
use dmis_feature_branch.DonationIntake.Check.{LineError}

pub data EntryError : Type 0 where
  date_required : EntryError
  date_future : EntryError
  date_invalid : EntryError
  comments_long : EntryError
  item_error : ℕ → LineError → EntryError
  duplicate_batch : ℕ → Text → EntryError
  quantity_mismatch : ℕ → ℕ → ℕ → EntryError
  intake_data_missing : ℕ → EntryError

pub data IntakeFailure : Type 0 where
  donation_not_found : IntakeFailure
  warehouse_not_found : IntakeFailure
  warehouse_not_eligible : IntakeFailure
  donation_not_verified : IntakeFailure
  intake_not_found : IntakeFailure
  already_verified : IntakeFailure
  not_submitted : IntakeFailure
  entry_refused : List EntryError → IntakeFailure
  lines_refused : List (ℕ × LineError) → IntakeFailure
  constraint_error : String → IntakeFailure
