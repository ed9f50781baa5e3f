-- ===== src/Sign/Input.antt =====
-- sign/input.rs: the signature of one input. The clone that `create_message_signature_taproot`
-- writes the internal key to is dropped with it, and the hash does not read that field.
use bip.Base.{
  ℕ, Bool, true, false, not, ◌&&◌, Option, none, some, List, [], ◌∷◌, ◌++◌, length, get_elem?, set,
  Bytes, bytes_eq, ltb, is_empty, ◌==◌, if◌then◌else◌,
}
use bip.Error.{
  Result, ok, err, ◌>>=◌, ◌>>◌, guard, ok_or, panic, to_sign_invalid, uncompressed_public_key,
  public_key_mismatch, signature_count, invalid_witness, witness_script_mismatch, no_private_keys,
  unsupported_script_pubkey,
}
use bip.Bitcoin.Data.{
  Script, Witness, TxOut, Transaction, PsbtInput, EcdsaSighashType, TapSighashType,
  max_script_element_size,
}
use bip.Bitcoin.Api.{Api}
use bip.Script.Defs.{push_only_script}
use bip.Script.Ordered.{ordered_multisig_signatures}
use bip.Roles.Helpers.{Request}

-- `sighash_cache.witness_mut(index)`
unfoldable pub witness_at : Transaction → ℕ → Result Witness
witness_at tx index = do txin ← ok_or (get_elem? tx.input index) to_sign_invalid; ok txin.witness

unfoldable pub single_key : {P : Type 0} → List P → Result P
single_key (key ∷ []) = ok key
single_key private_keys = err (signature_count 1 (length private_keys))

abbrev pub with_script_sig : Script → PsbtInput → PsbtInput
with_script_sig script_sig i = record i { final_script_sig = some script_sig }

abbrev pub with_witness : Witness → PsbtInput → PsbtInput
with_witness witness i = record i { final_script_witness = some witness }

module _ (lib : Api) where
  open lib use {
    PrivateKey, public_key, public_key_bytes, wpubkey_hash, pubkey_hash, script_hash, wscript_hash,
    new_p2wpkh, new_p2pkh, new_p2sh, new_p2wsh, new_p2tr_tweaked, push_slice, push_opcode, is_p2tr,
    is_p2wsh, is_p2wpkh, is_p2sh, is_p2pkh, sign_ecdsa, ecdsa_to_vec, keypair, x_only, tap_tweak,
    sign_schnorr_with_aux_rand, sign_schnorr_no_aux_rand, schnorr_to_vec, legacy_signature_hash,
    p2wpkh_signature_hash, p2wsh_signature_hash, taproot_key_spend_signature_hash,
  }

  -- A write to `to_sign.inputs[index]`.
  unfoldable pub update_input : Request lib → ℕ → (PsbtInput → PsbtInput) → Result (Request lib)
  update_input to_sign index change = do
    input ← ok_or (get_elem? to_sign.inputs index) panic
    ok (record to_sign {
      inputs = set to_sign.inputs index (record input { base = change input.base });
    })

  -- A signature of type `All` over a hash, encoded.
  abbrev pub signed_all : Bytes → PrivateKey → Bytes
  signed_all sighash key = ecdsa_to_vec (sign_ecdsa sighash key) EcdsaSighashType.all

  -- `expected_script_pubkey`
  abbrev pub nested_if : Bool → Script → Script
  nested_if is_p2sh script = if is_p2sh then new_p2sh (script_hash script) else script

  unfoldable pub create_message_signature_p2wpkh :
      Request lib → PrivateKey → TxOut → ℕ → Bool → Result Witness
  unfolding witness_at
  create_message_signature_p2wpkh to_sign private_key prevout index is_p2sh = do
    guard (ltb index (length to_sign.unsigned_tx.input)) to_sign_invalid
    hash ← ok_or (wpubkey_hash (public_key private_key)) uncompressed_public_key
    guard (bytes_eq prevout.script_pubkey (nested_if is_p2sh (new_p2wpkh hash))) public_key_mismatch
    sighash ←
        ok_or
          (p2wpkh_signature_hash to_sign.unsigned_tx index
            (if is_p2sh then new_p2wpkh hash else prevout.script_pubkey) prevout.value
            EcdsaSighashType.all)
          to_sign_invalid
    witness ← witness_at to_sign.unsigned_tx index
    ok (
        witness
        ++ (signed_all sighash private_key ∷ public_key_bytes (public_key private_key) ∷ []))

  -- The signature with the randomness that is given, or with none.
  unfoldable pub sign_schnorr : Bytes → PrivateKey → Option Bytes → Option Bytes → Bytes
  sign_schnorr sighash private_key root none =
      schnorr_to_vec (sign_schnorr_no_aux_rand sighash (tap_tweak (keypair private_key) root))
        TapSighashType.all
  sign_schnorr sighash private_key root (some aux_rand) =
      schnorr_to_vec
        (sign_schnorr_with_aux_rand sighash (tap_tweak (keypair private_key) root) aux_rand)
        TapSighashType.all

  unfoldable pub create_message_signature_taproot :
      Request lib → PrivateKey → List TxOut → ℕ → Option Bytes → Result Witness
  unfolding witness_at sign_schnorr
  create_message_signature_taproot to_sign private_key prevouts index aux_rand = do
    guard
        (ltb index (length to_sign.inputs)
          && ltb index (length to_sign.unsigned_tx.input)
          && length prevouts == length to_sign.unsigned_tx.input)
        to_sign_invalid
    sighash ←
        ok_or
          (taproot_key_spend_signature_hash to_sign.unsigned_tx index prevouts TapSighashType.all)
          to_sign_invalid
    input ← ok_or (get_elem? to_sign.inputs index) panic
    prevout ← ok_or (get_elem? prevouts index) panic
    guard
        (bytes_eq prevout.script_pubkey
          (new_p2tr_tweaked (x_only (tap_tweak (keypair private_key) input.tap_merkle_root))))
        public_key_mismatch
    witness ← witness_at to_sign.unsigned_tx index
    ok (witness ++ (sign_schnorr sighash private_key input.tap_merkle_root aux_rand ∷ []))

  unfoldable pub create_message_signature_p2wsh :
      Request lib → List PrivateKey → Script → TxOut → ℕ → Result Witness
  create_message_signature_p2wsh to_sign private_keys witness_script prevout index = do
    guard (ltb index (length to_sign.unsigned_tx.input)) to_sign_invalid
    sighash ←
        ok_or
          (p2wsh_signature_hash to_sign.unsigned_tx index witness_script prevout.value
            EcdsaSighashType.all)
          to_sign_invalid
    signatures ← ordered_multisig_signatures lib witness_script private_keys sighash
    ok ([] ∷ signatures ++ (witness_script ∷ []))

  -- `OP_0 <sig_1> .. <sig_m>` in a builder, and the loop that appends the signatures.
  unfoldable pub push_slices : Script → List Bytes → Script
  push_slices builder [] = builder
  push_slices builder (s ∷ ss) = push_slices (push_slice s builder) ss

  -- `OP_0 <sig_1> .. <sig_m> <redeemScript>`
  unfoldable pub multisig_script_sig : List Bytes → Script → Script
  unfolding push_slices
  multisig_script_sig signatures redeem_script =
      push_slice redeem_script (push_slices (push_opcode 0 []) signatures)

  -- The witness of a legacy input is empty: the result is the request.
  unfoldable pub create_message_signature_p2sh_multisig :
      Request lib → List PrivateKey → Script → ℕ → Result (Request lib)
  unfolding multisig_script_sig update_input
  create_message_signature_p2sh_multisig to_sign private_keys redeem_script index = do
    guard (not (ltb max_script_element_size (length redeem_script))) invalid_witness
    guard (ltb index (length to_sign.inputs) && ltb index (length to_sign.unsigned_tx.input))
        to_sign_invalid
    sighash ←
        ok_or (legacy_signature_hash to_sign.unsigned_tx index redeem_script EcdsaSighashType.all)
          to_sign_invalid
    signatures ← ordered_multisig_signatures lib redeem_script private_keys sighash
    update_input to_sign index (with_script_sig (multisig_script_sig signatures redeem_script))

  -- `<sig> <key>`
  abbrev pub p2pkh_script_sig : Bytes → Bytes → Script
  p2pkh_script_sig signature key = push_slice key (push_slice signature [])

  unfoldable pub create_message_signature_p2pkh :
      Request lib → PrivateKey → TxOut → ℕ → Result (Request lib)
  unfolding update_input
  create_message_signature_p2pkh to_sign private_key prevout index = do
    guard (ltb index (length to_sign.inputs) && ltb index (length to_sign.unsigned_tx.input))
        to_sign_invalid
    guard (bytes_eq prevout.script_pubkey (new_p2pkh (pubkey_hash (public_key private_key))))
        public_key_mismatch
    sighash ←
        ok_or
          (legacy_signature_hash to_sign.unsigned_tx index prevout.script_pubkey
            EcdsaSighashType.all)
          to_sign_invalid
    update_input to_sign index (
        with_script_sig (
          p2pkh_script_sig (signed_all sighash private_key)
            (public_key_bytes (public_key private_key))))

  -- The end of `sign_input`.
  unfoldable pub set_witness : Request lib → ℕ → Witness → Result (Request lib)
  unfolding update_input
  set_witness to_sign index witness =
      if is_empty witness then ok to_sign else update_input to_sign index (with_witness witness)

  -- `sign_input` for a P2SH output with a script.
  unfoldable pub sign_p2sh_script :
      Request lib → TxOut → List PrivateKey → Script → ℕ → Result (Request lib)
  unfolding create_message_signature_p2wsh create_message_signature_p2sh_multisig set_witness
  sign_p2sh_script to_sign prevout private_keys ws index =
      if bytes_eq prevout.script_pubkey (new_p2sh (script_hash ws))
      then create_message_signature_p2sh_multisig to_sign private_keys ws index
      else if bytes_eq prevout.script_pubkey (new_p2sh (script_hash (new_p2wsh (wscript_hash ws))))
      then (do
        witness ← create_message_signature_p2wsh to_sign private_keys ws prevout index
        to_sign' ←
            update_input to_sign index
              (with_script_sig (push_only_script lib (new_p2wsh (wscript_hash ws))))
        set_witness to_sign' index witness)
      else err witness_script_mismatch

  -- `sign_input` for a P2SH output without a script.
  unfoldable pub sign_p2sh_p2wpkh : Request lib → TxOut → List PrivateKey → ℕ → Result (Request lib)
  unfolding create_message_signature_p2wpkh set_witness single_key
  sign_p2sh_p2wpkh to_sign prevout private_keys index = do
    private_key ← single_key private_keys
    hash ← ok_or (wpubkey_hash (public_key private_key)) uncompressed_public_key
    guard (bytes_eq prevout.script_pubkey (new_p2sh (script_hash (new_p2wpkh hash))))
        public_key_mismatch
    witness ← create_message_signature_p2wpkh to_sign private_key prevout index true
    to_sign' ← update_input to_sign index (with_script_sig (push_only_script lib (new_p2wpkh hash)))
    set_witness to_sign' index witness

  -- `sign_input` for a P2WSH output.
  unfoldable pub sign_p2wsh :
      Request lib → TxOut → List PrivateKey → Option Script → ℕ → Result (Request lib)
  unfolding create_message_signature_p2wsh set_witness
  sign_p2wsh to_sign prevout private_keys witness_script index = do
    ws ← ok_or witness_script invalid_witness
    guard (bytes_eq prevout.script_pubkey (new_p2wsh (wscript_hash ws))) witness_script_mismatch
    witness ← create_message_signature_p2wsh to_sign private_keys ws prevout index
    set_witness to_sign index witness

  -- The tests of `sign_input` on the script of the previous output, in their order.
  unfoldable pub sign_kind :
      Request lib → List TxOut → TxOut → List PrivateKey → Option Script → ℕ → Result (Request lib)
  unfolding create_message_signature_taproot create_message_signature_p2wpkh
      create_message_signature_p2pkh sign_p2wsh sign_p2sh_script sign_p2sh_p2wpkh set_witness
      single_key
  sign_kind to_sign prevouts prevout private_keys witness_script index =
      let spk = prevout.script_pubkey in
      if is_p2tr spk
      then (do
        private_key ← single_key private_keys
        witness ← create_message_signature_taproot to_sign private_key prevouts index none
        set_witness to_sign index witness)
      else if is_p2wsh spk
      then sign_p2wsh to_sign prevout private_keys witness_script index
      else if is_p2wpkh spk
      then (do
        private_key ← single_key private_keys
        witness ← create_message_signature_p2wpkh to_sign private_key prevout index false
        set_witness to_sign index witness)
      else if is_p2sh spk
      then elim witness_script [
        | some ws ↦ sign_p2sh_script to_sign prevout private_keys ws index
        | none ↦ sign_p2sh_p2wpkh to_sign prevout private_keys index
      ]
      else if is_p2pkh spk
      then (do
        private_key ← single_key private_keys
        create_message_signature_p2pkh to_sign private_key prevout index)
      else err (unsupported_script_pubkey spk)

  unfoldable pub sign_input :
      Request lib → List TxOut → List PrivateKey → Option Script → ℕ → Result (Request lib)
  unfolding sign_kind
  sign_input to_sign prevouts private_keys witness_script index = do
    guard (not (is_empty private_keys)) no_private_keys
    prevout ← ok_or (get_elem? prevouts index) panic
    sign_kind to_sign prevouts prevout private_keys witness_script index
