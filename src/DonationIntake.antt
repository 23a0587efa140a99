-- ===== src/DonationIntake.antt =====
-- app/features/donation_intake.py: the intake of donated goods into a warehouse. An entry records the
-- quantities of a donation (tables dnintake and dnintake_item), a verification adds them to the
-- batches and the stock of the warehouse.
pub mod Rows
pub mod Check
pub mod Failures
pub mod Verify
pub mod Line
pub mod Entry
pub mod Record
pub mod Recorded
pub mod Stocked
pub mod Posted
pub mod Sorted
pub mod Kept
pub mod Tests
