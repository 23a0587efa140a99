-- ===== src/Packaging.antt =====
-- app/features/packaging.py: a logistics officer prepares a package, a manager approves or sends it, and
-- it is handed over. What the form becomes is _process_allocations, and each button is a function.
pub mod Form
pub mod Process
pub mod Draft
pub mod Submit
pub mod Approve
pub mod Routes
pub mod Kept
pub mod Sound
pub mod Guarded
pub mod Handover
pub mod Review
pub mod Reviewed
pub mod Pages
pub mod Checked
pub mod Saved
pub mod Tests
