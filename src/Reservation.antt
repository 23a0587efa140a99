-- ===== src/Reservation.antt =====
-- app/services/inventory_reservation_service.py: reservations of batch and warehouse stock while
-- packages are prepared. A function that the source ends with `return False, message` fails with
-- the data of the message; the session keeps what was written before, until the caller rolls back.
-- Columns that the source tests for NULL here are parts of primary keys, so never NULL.
pub mod Maps
pub mod Reserve
pub mod Release
pub mod Commit
pub mod Cancel
pub mod Coverage
pub mod Recount
pub mod Agreement
pub mod Reconcile
pub mod Stock
pub mod Amounts
mod Tests
