-- ===== src/Preflight.antt =====
-- verify/preflight.rs: bounds checks on the encodings that a prover supplies.
pub mod Cursor
pub mod Formats
pub mod Psbt
pub mod Steps
pub mod CompactSize
pub mod Loops
pub mod Witness
pub mod Inputs
pub mod Unsigned
pub mod Transactions
pub mod Recognised
pub mod Steady
pub mod Fuel
