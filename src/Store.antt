-- ===== src/Store.antt =====
-- The rows of app/db/models.py that the services read and write, and the state of a unit of work:
-- one table for each. Quantities are counted in ten-thousandths, the scale of numeric(15,4); the
-- columns are NOT NULL and CHECKed to be at least 0, so they are natural numbers. Dates are day
-- ordinals, times are numbers, and a CHAR(1) code is the number of its character.
pub mod Rows
pub mod Query
pub mod Invariant
pub mod Samples
pub use Rows.*
