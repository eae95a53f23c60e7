-- ===== src/Pgxdb.antt =====
-- The package pgxdb.
pub mod Errors
pub mod Tx
pub mod Rows
mod Tests
