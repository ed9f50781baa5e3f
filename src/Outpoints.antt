-- ===== src/Outpoints.antt =====
-- transaction.rs: consensus rules on a transaction's weight and outpoints.
pub mod Defs
pub mod Distinct
