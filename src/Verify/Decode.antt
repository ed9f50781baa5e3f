-- ===== src/Verify/Decode.antt =====
-- verify/decode.rs, and the verification of encoded proofs in verify.rs.
use bip.Base.{not, ◌||◌, Option, none, some, [], ◌∷◌, Bytes, length, leb, ltb, ◌==◌, if◌then◌else◌}
use bip.Error.{
  Error, Result, ok, err, ◌>>=◌, ◌>>◌, guard, to_sign_invalid, invalid_witness, signature_decode,
  witness_malformed, transaction_base64_decode, transaction_consensus_decode, trailing_bytes,
}
use bip.Limits.{max_encoding_size, max_proof_inputs}
use bip.Bitcoin.Data.{Witness, Transaction, Psbt}
use bip.Bitcoin.Api.{Api}
use bip.Message.Defs.{parse_address}
use bip.Message.Payload.{
  decode_payload, simple_signature_prefix, full_signature_prefix, pof_signature_prefix,
}
use bip.Preflight.Cursor.{Outcome, done, refused, out_of_fuel}
use bip.Preflight.Formats.{witness, transaction, PsbtShape}
use bip.Preflight.Psbt.{psbt}
use bip.Verify.Defs.{Verification, inconclusive_proof, invalid, verify_simple, verify_full}
use bip.Verify.Pof.{verify_pof}

-- `preflight::psbt(&bytes).ok_or(..)?`.
abbrev pub shape_or : Outcome PsbtShape → Result PsbtShape
shape_or (done shape) = ok shape
shape_or refused = err to_sign_invalid
shape_or out_of_fuel = err to_sign_invalid

-- `decode_exact`, on what a decoder made of the bytes: nothing may be left.
unfoldable pub decode_exact {ℓ} : {A : Type ℓ} → Option (A × Bytes) → Error → Result A
decode_exact none e = err e
decode_exact (some (value, [])) e = ok value
decode_exact (some (value, b ∷ bs)) e = err trailing_bytes

module _ (lib : Api) where
  open lib use {Address, decode_witness, decode_transaction, deserialize_psbt}

  unfoldable pub decode_simple : Bytes → Bytes → Result (Address × Witness)
  unfolding decode_exact
  decode_simple address signature = do
    a ← parse_address lib address
    (_, bytes) ← decode_payload lib signature simple_signature_prefix signature_decode
    guard (leb (length bytes) max_encoding_size) to_sign_invalid
    guard (witness bytes) invalid_witness
    w ← decode_exact (decode_witness bytes) witness_malformed
    ok (a, w)

  unfoldable pub decode_full : Bytes → Bytes → Result (Address × Transaction)
  unfolding decode_exact
  decode_full address to_sign = do
    a ← parse_address lib address
    (payload, bytes) ← decode_payload lib to_sign full_signature_prefix transaction_base64_decode
    guard (not (ltb max_encoding_size (length bytes) || not (transaction bytes))) to_sign_invalid
    tx ← decode_exact (decode_transaction bytes) (transaction_consensus_decode payload)
    ok (a, tx)

  -- The end of `decode_pof`, once the shape is known.
  unfoldable pub decode_shape : Address → Bytes → PsbtShape → Result (Option (Address × Psbt))
  unfolding decode_exact
  decode_shape address bytes shape =
      if ltb max_proof_inputs shape.inputs
      then ok none
      else if shape.outputs == 1
      then (do p ← decode_exact (deserialize_psbt bytes) to_sign_invalid; ok (some (address, p)))
      else err to_sign_invalid

  unfoldable pub decode_pof : Bytes → Bytes → Result (Option (Address × Psbt))
  unfolding decode_shape
  decode_pof address to_sign = do
    a ← parse_address lib address
    (_, bytes) ← decode_payload lib to_sign pof_signature_prefix transaction_base64_decode
    shape ← shape_or (psbt bytes)
    decode_shape a bytes shape

  -- `verify_simple_encoded`; `none` is a panic of `verify_simple`.
  unfoldable pub verify_simple_encoded : Bytes → Bytes → Bytes → Option Verification
  verify_simple_encoded address message signature = elim (decode_simple address signature) [
    | ok (a, w) ↦ verify_simple lib a message w
    | err e ↦ some (invalid e)
  ]

  unfoldable pub verify_full_encoded : Bytes → Bytes → Bytes → Verification
  verify_full_encoded address message to_sign = elim (decode_full address to_sign) [
    | ok (a, tx) ↦ verify_full lib a message tx
    | err e ↦ invalid e
  ]

  unfoldable pub verify_pof_encoded : Bytes → Bytes → Bytes → Verification
  verify_pof_encoded address message to_sign = elim (decode_pof address to_sign) [
    | ok (some (a, p)) ↦ verify_pof lib a message p
    | ok none ↦ inconclusive_proof
    | err e ↦ invalid e
  ]
