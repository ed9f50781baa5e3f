-- ===== src/Spend.antt =====
-- verify/spend.rs: an input of `to_sign`, parsed against the output it spends.
pub mod Checks
pub mod Defs
pub mod Kinds
pub mod Parse
pub mod Limits
pub mod Binding
