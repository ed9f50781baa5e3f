-- ===== src/Script.antt =====
-- script.rs: scripts and signatures in general.
pub mod Defs
pub mod Multisig
pub mod Ordered
