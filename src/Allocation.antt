-- ===== src/Allocation.antt =====
-- app/services/batch_allocation_service.py: which batches an item may be taken from, in which
-- order, and how much of each. `today` stands for `date.today()`.
pub mod Batches
pub mod Auto
pub mod Drawer
pub mod Validate
pub mod Order
pub mod Greedy
mod Tests
