-- ===== src/Store/Consistency.antt =====
-- What the constraints of internal/db/db.go promise of the tables: the keys are distinct, and a row
-- belongs to a source, or a user, that exists.
pub mod Tables
pub mod Statements
pub mod Calls
pub mod Histories
