-- ===== src/Roles/Finalizer.antt =====
-- psbt/finalizer.rs. A failed call drops the PSBT, so the inputs are finalized one by one here.
use bip.Base.{
  ℕ, zero, suc, Bool, true, false, not, ◌||◌, Option, none, some, List, [], ◌∷◌, ◌++◌, length, any,
  Bytes, bytes_eq, ltb, ◌==◌, if◌then◌else◌,
}
use bip.Error.{
  Result, ok, err, ◌>>=◌, ◌>>◌, guard, ok_or, panic, ordinary_psbt, to_sign_invalid,
  uncompressed_public_key, public_key_mismatch, invalid_witness, sig_hash_type_unsupported,
  signature_count, transaction_encode,
}
use bip.Limits.{check_input_count}
use bip.Bitcoin.Data.{Script, Witness, Psbt, EcdsaSighashType, TapSighashType}
use bip.Bitcoin.Api.{Api}
use bip.Outpoints.Defs.{validate_psbt_structure, validate_weight}
use bip.Prevouts.Defs.{PrevoutResolver, new, checked_psbt_input_prevout}
use bip.Script.Defs.{parse_multisig, push_only_script}
use bip.Templates.Defs.{ecdsa_type_number}
use bip.Message.Payload.{encode_payload, full_signature_prefix, pof_signature_prefix}
use bip.Sign.Input.{multisig_script_sig, p2pkh_script_sig}
use bip.Roles.Detect.{detect_bip322_psbt}
use bip.Roles.Helpers.{
  Input, Request, view, declared_ecdsa_sighash, validate_final_taproot_sighash,
  require_multisig_challenge, single_partial_sig,
}
use bip.Roles.Signer.{multisig_script}

module _ (lib : Api) where
  open lib use {
    PublicKey, EcdsaSignature, SchnorrSignature, public_key_eq, public_key_bytes, wpubkey_hash,
    pubkey_hash, script_hash, new_p2wpkh, new_p2pkh, new_p2sh, is_p2tr, is_p2wpkh, is_p2pkh,
    ecdsa_to_vec, schnorr_to_vec, extract_tx_unchecked_fee_rate, encode_transaction, serialize_psbt,
  }

  unfoldable pub clear_non_final_fields : Input lib → Input lib
  clear_non_final_fields input = record {
    base = record input.base { redeem_script = none; witness_script = none };
    partial_sigs = [];
    sighash_type = none;
    tap_key_sig = none;
    tap_internal_key = none;
    tap_merkle_root = none;
    hints = [];
    proprietary = input.proprietary;
    unknown = input.unknown;
  }

  -- An input with its final fields, and the others cleared.
  unfoldable pub with_final : Input lib → Option Script → Option Witness → Input lib
  unfolding clear_non_final_fields
  with_final input script_sig witness = clear_non_final_fields (record input {
    base = record input.base { final_script_sig = script_sig; final_script_witness = witness };
  })

  unfoldable pub finalize_taproot :
      Input lib → Script → SchnorrSignature → TapSighashType → Result (Input lib)
  unfolding with_final
  finalize_taproot input challenge signature t = do
    guard (is_p2tr challenge) public_key_mismatch
    validate_final_taproot_sighash input t
    ok (with_final input none (some (schnorr_to_vec signature t ∷ [])))

  -- The closures that give the script of a key.
  abbrev pub nested_script : Script → PublicKey → Result Script
  nested_script redeem_script key = do
    hash ← ok_or (wpubkey_hash key) uncompressed_public_key
    guard (bytes_eq (new_p2wpkh hash) redeem_script) public_key_mismatch
    ok (new_p2sh (script_hash redeem_script))

  abbrev pub p2wpkh_script : PublicKey → Result Script
  p2wpkh_script key = do
    hash ← ok_or (wpubkey_hash key) uncompressed_public_key
    ok (new_p2wpkh hash)

  abbrev pub p2pkh_script : PublicKey → Result Script
  p2pkh_script key = ok (new_p2pkh (pubkey_hash key))

  unfoldable pub finalize_nested : Input lib → Script → Script → Result (Input lib)
  unfolding with_final
  finalize_nested input challenge redeem_script = do
    (key, (signature, t)) ← single_partial_sig lib input challenge (nested_script redeem_script)
    ok (
        with_final input (some (push_only_script lib redeem_script))
          (some (ecdsa_to_vec signature t ∷ public_key_bytes key ∷ [])))

  unfoldable pub finalize_p2wpkh : Input lib → Script → Result (Input lib)
  unfolding with_final
  finalize_p2wpkh input challenge = do
    (key, (signature, t)) ← single_partial_sig lib input challenge p2wpkh_script
    ok (with_final input none (some (ecdsa_to_vec signature t ∷ public_key_bytes key ∷ [])))

  unfoldable pub finalize_p2pkh : Input lib → Script → Result (Input lib)
  unfolding with_final
  finalize_p2pkh input challenge = do
    (key, (signature, t)) ← single_partial_sig lib input challenge p2pkh_script
    ok (
        with_final input
          (some (p2pkh_script_sig lib (ecdsa_to_vec signature t) (public_key_bytes key))) none)

  -- `partial_sigs.get(key)`
  unfoldable pub partial_get :
      PublicKey
      → List (PublicKey × (EcdsaSignature × EcdsaSighashType))
      → Option (EcdsaSignature × EcdsaSighashType)
  partial_get k [] = none
  partial_get k ((j, s) ∷ m) = if public_key_eq j k then some s else partial_get k m

  -- The loop over the public keys of the script, with the number of signatures still wanted.
  unfoldable pub collect_signatures :
      ℕ → List PublicKey → List (PublicKey × (EcdsaSignature × EcdsaSighashType)) → List Bytes
  unfolding partial_get
  collect_signatures zero ks sigs = []
  collect_signatures (suc n) [] sigs = []
  collect_signatures (suc n) (k ∷ ks) sigs = elim (partial_get k sigs) [
    | none ↦ collect_signatures (suc n) ks sigs
    | some (s, t) ↦ ecdsa_to_vec s t ∷ collect_signatures n ks sigs
  ]

  -- Whether a signature has another type than the input declares.
  abbrev pub other_type :
      EcdsaSighashType → List (PublicKey × (EcdsaSignature × EcdsaSighashType)) → Bool
  other_type declared sigs =
      any
        (λ (e : PublicKey × (EcdsaSignature × EcdsaSighashType)).
          not (ecdsa_type_number e.1.1 == ecdsa_type_number declared))
        sigs

  -- The `script_sig` of a multisig input with a witness script.
  abbrev pub program_push : Option Script → Option Script
  program_push none = none
  program_push (some redeem_script) = some (push_only_script lib redeem_script)

  -- The last step of a multisig input.
  unfoldable pub with_signatures : Input lib → Script → Bool → List Bytes → Input lib
  unfolding with_final
  with_signatures input script true signatures =
      with_final input (program_push input.base.redeem_script)
        (some ([] ∷ signatures ++ (script ∷ [])))
  with_signatures input script false signatures =
      with_final input (some (multisig_script_sig lib signatures script)) none

  unfoldable pub finalize_multisig : Input lib → Script → Result (Input lib)
  unfolding with_signatures collect_signatures
  finalize_multisig input challenge = do
    (script, is_witness) ←
        ok_or (multisig_script input.base.witness_script input.base.redeem_script) invalid_witness
    require_multisig_challenge lib script challenge is_witness input.base.redeem_script
    (required, pubkeys) ← parse_multisig lib script
    declared ← declared_ecdsa_sighash input
    guard (not (other_type declared input.partial_sigs))
        (sig_hash_type_unsupported (ecdsa_type_number declared))
    let signatures = collect_signatures required pubkeys input.partial_sigs
    guard (length signatures == required) (signature_count required (length signatures))
    ok (with_signatures input script is_witness signatures)

  -- The branches behind the one for a P2WPKH redeem script.
  unfoldable pub finalize_challenge : Input lib → Script → Result (Input lib)
  unfolding finalize_p2wpkh finalize_p2pkh finalize_multisig
  finalize_challenge input challenge =
      if is_p2wpkh challenge
      then finalize_p2wpkh input challenge
      else if is_p2pkh challenge
      then finalize_p2pkh input challenge
      else finalize_multisig input challenge

  unfoldable pub finalize_redeem : Input lib → Script → Option Script → Result (Input lib)
  unfolding finalize_nested finalize_challenge
  finalize_redeem input challenge none = finalize_challenge input challenge
  finalize_redeem input challenge (some redeem_script) =
      if is_p2wpkh redeem_script
      then finalize_nested input challenge redeem_script
      else finalize_challenge input challenge

  unfoldable pub finalize_input : Input lib → Script → Result (Input lib)
  unfolding finalize_taproot finalize_redeem
  finalize_input input challenge = elim input.tap_key_sig [
    | some (signature, t) ↦ finalize_taproot input challenge signature t
    | none ↦ finalize_redeem input challenge input.base.redeem_script
  ]

  -- The loop over the challenges.
  unfoldable pub finalize_inputs : List (Input lib) → List Script → Result (List (Input lib))
  unfolding finalize_input
  finalize_inputs is [] = ok is
  finalize_inputs [] (c ∷ cs) = err panic
  finalize_inputs (i ∷ is) (c ∷ cs) = do
    i' ← finalize_input i c
    is' ← finalize_inputs is cs
    ok (i' ∷ is')

  -- The loop that collects the challenges of `n` inputs from `index` on.
  unfoldable pub challenges_from : Psbt → PrevoutResolver → Script → ℕ → ℕ → Result (List Script)
  challenges_from psbt resolver message_challenge index zero = ok []
  challenges_from psbt resolver message_challenge index (suc n) = do
    prevout ← checked_psbt_input_prevout lib psbt resolver index
    guard (not (index == 0) || bytes_eq prevout.script_pubkey message_challenge) to_sign_invalid
    challenges ← challenges_from psbt resolver message_challenge (suc index) n
    ok (prevout.script_pubkey ∷ challenges)

  -- `finalize_bip322_psbt` up to the encoding.
  unfoldable pub finalized : Request lib → Result (Request lib)
  unfolding challenges_from finalize_inputs
  finalized psbt = do
    detected ← ok_or (detect_bip322_psbt lib (view psbt)) ordinary_psbt
    validate_psbt_structure (view psbt)
    check_input_count (length psbt.unsigned_tx.input)
    resolver ← new lib (view psbt)
    challenges ←
        challenges_from (view psbt) resolver detected.message_challenge 0 (length psbt.inputs)
    inputs ← finalize_inputs psbt.inputs challenges
    ok (record psbt { inputs = inputs })

  -- The encoding of a finalized PSBT.
  unfoldable pub encode_finalized : Request lib → Result Bytes
  encode_finalized psbt =
      if ltb 1 (length psbt.unsigned_tx.input)
      then (do
        validate_weight lib (extract_tx_unchecked_fee_rate (view psbt))
        buffer ← ok_or (serialize_psbt psbt) transaction_encode
        ok (encode_payload lib pof_signature_prefix buffer))
      else (do
        let to_sign = extract_tx_unchecked_fee_rate (view psbt)
        validate_weight lib to_sign
        buffer ← ok_or (encode_transaction to_sign) transaction_encode
        ok (encode_payload lib full_signature_prefix buffer))

  unfoldable pub finalize_bip322_psbt : Request lib → Result Bytes
  unfolding finalized encode_finalized
  finalize_bip322_psbt psbt = do final ← finalized psbt; encode_finalized final
