-- ===== src/Lib.antt =====
-- BIP-322 generic signed messages: the crate, which verifies proofs, signs them, and has the roles
-- that make, sign and finalize the PSBT of a proof.
--
-- A proof claims that the holder of an address has signed a message. The challenge is a transaction
-- `to_spend` that no one can mine, made from the address and the message; the proof is a transaction
-- `to_sign` that spends it, in one of three formats: simple (a witness), full (the transaction) and
-- proof of funds (a PSBT with further inputs). Verification scans untrusted bytes (preflight),
-- decodes them, checks the shape of `to_sign`, parses each input against the output it spends into a
-- `Spend` with a kind, verifies each by the template of its kind or by the interpreter of
-- `miniscript`, and joins the verdicts on the inputs into one.
--
-- Signing makes a proof at once, from the private keys: an input is signed by the kind of its script,
-- a multisig script with signatures in the order of its keys. The roles do the same in steps: the
-- creator makes a PSBT with the message in it, which detection finds again, signers add a partial
-- signature each, and the finalizer turns the signatures into the final fields. The legacy format
-- (BIP-137) is apart: a recoverable signature for a P2PKH address.
--
-- Which file is about which code:
--   Base, Base/*         tests on numbers, lists, byte strings, UTF-8; shared by all others
--   Error                src/error.rs: the variants as constructors, results and their do blocks
--   Limits               src/limits.rs
--   Bitcoin/Data         the public fields of the types of the `bitcoin` crate that the code uses
--   Bitcoin/Api          the functions of the dependencies that the code calls, as a record `Api`;
--                        the definitions take one as a section parameter, and nothing is assumed
--                        of its fields except in a theorem's hypotheses
--   Preflight/Cursor     src/verify/preflight.rs: `Cursor` (new, remaining, take, skip,
--                        compact_size, count) as a state monad with failure
--   Preflight/Formats, Preflight/Psbt
--                        the rest of the file: witness, inputs, outputs, transaction,
--                        unsigned_transaction, pair and psbt
--   Preflight/*          encodings of the formats, and lemmas on each read of the cursor
--   Script               src/script.rs: parse_multisig, push_only_script, require_low_s,
--                        spends_witness, p2sh_redeem_script, ordered_multisig_signatures
--                        (Script/Ordered)
--   Outpoints            src/transaction.rs
--   Message              src/message.rs: LockParams, tagged_hash, create_to_spend, create_to_sign,
--                        to_sign_transaction, the payload codec (Message/Payload), the checks,
--                        create_proof_psbt and set_proof_input_utxo (Message/Create)
--   Prevouts             src/psbt/prevouts.rs: `PrevoutResolver`, its hash map as an association list
--   Bound                src/verify/bound.rs
--   Spend                src/verify/spend.rs: `Spend::parse` and the kinds
--   Templates            src/verify/templates.rs
--   Interpreter          src/verify/interpreter.rs
--   Taproot              src/verify/taproot.rs
--   Verify               src/verify.rs and src/verify/decode.rs
--   Sign                 src/sign.rs, with src/sign/input.rs in Sign/Input; the other modules below
--                        it are about what signing makes
--   Legacy               src/verify/legacy.rs, and the legacy format of src/sign.rs
--   Roles/Detect         src/psbt.rs: detect_bip322_psbt
--   Roles/Helpers        src/psbt/helpers.rs
--   Roles/Creator, Roles/Signer, Roles/Finalizer
--                        src/psbt/creator.rs, src/psbt/signer.rs, src/psbt/finalizer.rs; the other
--                        modules below Roles are about what the roles keep and make
--   Examples             a small instance of `Api` and runs of the code on it
--
-- How the code is read: bytes, lengths and integers are natural numbers. A `usize` has 64 bits, so
-- that a `u64` always converts to one; `checked_add` of the cursor is a test against 2 ^ 64. An
-- `i32` version is its bit pattern. A `Result` is a value of `Error.Result`, an early return of an
-- error is a do block's. A loop over a list is structural recursion; a counted loop recurses on the
-- count. The loops of `psbt` over the pairs of a map have no count: they recurse on rounds, one more
-- than the bytes of the slice, which is enough since each pair takes at least one byte; the scan
-- would say `out_of_fuel` otherwise. A panic of `expect` in `verify_simple` is `none`. A
-- `SighashCache` only keeps what the signature hashes of one transaction share, so that its calls
-- are calls of the hash functions.
--
-- A PSBT has two records. `Psbt` has the fields that verification and the making of a proof read or
-- write; a signer's request, `SignerPsbt`, has the signers' fields beside it and the proprietary and
-- unknown fields of each input map, which are only carried, and `view` forgets them. A function that
-- writes to a PSBT returns the new one: a call that fails writes nothing that its caller can see,
-- since each write stands behind the last error, or the caller drops the PSBT. In these parts an
-- `expect` that fails, or an index out of range, is the error `panic`, which the source does not
-- have. `partial_sigs` is a map ordered by key in the source and an association list here; no
-- function reads the order.
--
-- Not modelled: the crate root (src/lib.rs), which imports and re-exports; the tests; the texts and
-- sources of errors; the derivations, preimages, Taproot scripts and key origins of an input map,
-- which the finalizer clears and which are one field here; the version, extended keys, proprietary
-- fields and output maps of a PSBT as a whole, which no function reads or writes; and the
-- cryptography, scripts and encodings of the dependencies, which are parameters.
pub mod Base
pub mod Error
pub mod Limits
pub mod Preflight
pub mod Bitcoin
pub mod Script
pub mod Outpoints
pub mod Message
pub mod Prevouts
pub mod Bound
pub mod Spend
pub mod Templates
pub mod Interpreter
pub mod Taproot
pub mod Verify
pub mod Roles
pub mod Sign
pub mod Legacy
pub mod Examples
