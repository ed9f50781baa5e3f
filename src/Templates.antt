-- ===== src/Templates.antt =====
-- verify/templates.rs: the templates of P2PKH, P2WPKH and CHECKMULTISIG.
pub mod Defs
pub mod Matching
pub mod Single
pub mod Multisig
