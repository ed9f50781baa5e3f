-- ===== src/Taproot.antt =====
-- verify/taproot.rs
pub mod Defs
pub mod Success
pub mod Signature
pub mod KeyPath
