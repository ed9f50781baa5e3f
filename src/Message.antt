-- ===== src/Message.antt =====
-- message.rs: the two transactions of a proof, and the encodings of proofs.
pub mod Defs
pub mod Payload
pub mod Create
pub mod Backed
