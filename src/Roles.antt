-- ===== src/Roles.antt =====
-- psbt.rs and psbt/: the roles that make, sign and finalize the PSBT of a proof.
pub mod Detect
pub mod Helpers
pub mod Creator
pub mod Signer
pub mod Finalizer
pub mod Reveals
pub mod Multisig
pub mod Detected
pub mod Made
pub mod Created
pub mod Frame
pub mod Steps
pub mod Final
pub mod Agreement
pub mod Safe
pub mod Signing
