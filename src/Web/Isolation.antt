-- ===== src/Web/Isolation.antt =====
-- What the requests of one user leave of another's rows.
pub mod Rows
pub mod Calls
pub mod Answers
pub mod Writes
pub mod Handlers
