-- ===== src/Verify.antt =====
-- verify.rs and verify/decode.rs: the verdict on a proof.
pub mod Defs
pub mod Pof
pub mod Decode
pub mod Verdict
pub mod Full
pub mod Proof
pub mod Encoded
