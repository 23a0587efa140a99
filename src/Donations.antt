-- ===== src/Donations.antt =====
-- app/features/donations.py: the entry of a donation and its verification, after which its goods can be
-- taken into a warehouse. Form fields stand parsed and stripped; `str.upper`, and the handling of uploaded
-- documents, are arguments.
pub mod Form
pub mod Verify
pub mod Checked
pub mod Create
pub mod Entered
pub mod Items
pub mod Edit
pub mod ReadOnly
mod Tests
