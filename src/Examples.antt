-- ===== src/Examples.antt =====
-- Concrete runs: a small instance of the dependencies, and the theorems applied to proofs made with
-- it.
mod Toy
mod Proofs
mod Scripts
mod Encodings
mod Encoded
mod Signing
mod Requests
mod Finalized
