-- ===== src/Prevouts.antt =====
-- psbt/prevouts.rs: the previous outputs that a PSBT claims.
pub mod Defs
pub mod Scan
pub mod Agreement
