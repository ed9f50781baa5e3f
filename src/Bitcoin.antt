-- ===== src/Bitcoin.antt =====
-- What the crate takes from its dependencies: the plain data of the `bitcoin` crate, and the
-- functions of `bitcoin`, `secp256k1`, `sha2` and `miniscript` as parameters.
pub mod Data
pub mod Api
