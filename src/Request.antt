-- ===== src/Request.antt =====
-- app/services/relief_request_service.py: a relief request from its draft to its closure.
pub mod Desk
pub mod Draft
pub mod Review
pub mod Close
pub mod Outcomes
pub mod Recorded
pub mod Moves
pub mod Reachable
pub mod Decision
pub mod Items
pub mod Closing
pub mod Tests
