-- ===== src/Dispatch.antt =====
-- app/services/dispatch_service.py: the logistics manager submits a package for dispatch.
pub mod Plan
pub mod Steps
pub mod Submit
pub mod Owed
pub mod Levels
pub mod Consistency
pub mod Quantity
pub mod Quantities
pub mod Issued
pub mod Header
pub mod Tests
