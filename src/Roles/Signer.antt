-- ===== src/Roles/Signer.antt =====
-- psbt/signer.rs. A call that fails leaves the request as it was: every write stands behind the
-- last error. `partial_sigs` is ordered in the source; no function reads the order.
use bip.Base.{
  ℕ, zero, suc, Bool, true, false, not, ◌&&◌, ◌||◌, Option, none, some, List, [], ◌∷◌, length, any,
  get_elem?, set, Bytes, bytes_eq, ltb, ◌==◌, if◌then◌else◌,
}
use bip.Error.{
  Result, ok, ◌>>=◌, ◌>>◌, guard, ok_or, panic, ordinary_psbt, to_sign_invalid,
  uncompressed_public_key, public_key_mismatch, unsupported_script_pubkey, unknown_signer,
}
use bip.Bitcoin.Data.{Script, TxOut, Transaction, Psbt, EcdsaSighashType}
use bip.Bitcoin.Api.{Api}
use bip.Outpoints.Defs.{validate_psbt_structure}
use bip.Prevouts.Defs.{PrevoutResolver, new, checked_psbt_input_prevout}
use bip.Script.Defs.{parse_multisig}
use bip.Roles.Detect.{Bip322Psbt, detect_bip322_psbt}
use bip.Roles.Helpers.{
  Input, Request, view, is_missing, declared_ecdsa_sighash, signing_taproot_sighash,
  require_multisig_challenge,
}

-- The script of a multisig input, and whether it is a witness script.
unfoldable pub multisig_script : Option Script → Option Script → Option (Script × Bool)
multisig_script (some witness_script) redeem_script = some (witness_script, true)
multisig_script none (some redeem_script) = some (redeem_script, false)
multisig_script none none = none

-- `supplied.is_some_and(|supplied| *supplied != script)`
abbrev pub differs : Option Script → Script → Bool
differs none script = false
differs (some supplied) script = not (bytes_eq supplied script)

module _ (lib : Api) where
  open lib use {
    PrivateKey, PublicKey, EcdsaSignature, public_key, public_key_eq, wpubkey_hash, pubkey_hash,
    script_hash, new_p2wpkh, new_p2pkh, new_p2sh, new_p2tr_tweaked, is_p2tr, is_p2wpkh, is_p2pkh,
    is_p2sh, sign_ecdsa, keypair, x_only, tap_tweak, sign_schnorr_no_aux_rand,
    legacy_signature_hash, p2wpkh_signature_hash, p2wsh_signature_hash,
    taproot_key_spend_signature_hash,
  }

  -- `partial_sigs.insert(key, signature)`
  unfoldable pub partial_insert :
      PublicKey
      → EcdsaSignature × EcdsaSighashType
      → List (PublicKey × (EcdsaSignature × EcdsaSighashType))
      → List (PublicKey × (EcdsaSignature × EcdsaSighashType))
  partial_insert k s [] = (k, s) ∷ []
  partial_insert k s ((j, r) ∷ m) =
      if public_key_eq j k then (j, s) ∷ m else (j, r) ∷ partial_insert k s m

  -- The loop over the inputs, `n` of them from `index` on.
  unfoldable pub checked_prevouts : Psbt → PrevoutResolver → ℕ → ℕ → Result (List TxOut)
  checked_prevouts psbt resolver index zero = ok []
  checked_prevouts psbt resolver index (suc n) = do
    prevout ← checked_psbt_input_prevout lib psbt resolver index
    prevouts ← checked_prevouts psbt resolver (suc index) n
    ok (prevout ∷ prevouts)

  -- The Taproot branch, on the input that is signed.
  unfoldable pub sign_taproot :
      Transaction → PrivateKey → ℕ → List TxOut → Script → Input lib → Result (Input lib)
  sign_taproot tx private_key index prevouts challenge input = do
    sighash_type ← signing_taproot_sighash input
    sighash ← ok_or (taproot_key_spend_signature_hash tx index prevouts sighash_type) panic
    let tweaked = tap_tweak (keypair private_key) input.tap_merkle_root
    guard (bytes_eq challenge (new_p2tr_tweaked (x_only tweaked))) public_key_mismatch
    ok (record input {
      tap_internal_key = some (x_only (keypair private_key));
      tap_key_sig = some (sign_schnorr_no_aux_rand sighash tweaked, sighash_type);
    })

  -- The `message` of each ECDSA branch, and what the branch makes of the input.
  unfoldable pub p2wpkh_message :
      Transaction
      → PublicKey
      → ℕ
      → ℕ
      → Script
      → EcdsaSighashType
      → Input lib
      → Result (Input lib × Bytes)
  p2wpkh_message tx key index value challenge t input = do
    hash ← ok_or (wpubkey_hash key) uncompressed_public_key
    guard (bytes_eq challenge (new_p2wpkh hash)) public_key_mismatch
    sighash ← ok_or (p2wpkh_signature_hash tx index challenge value t) panic
    ok (input, sighash)

  unfoldable pub p2pkh_message :
      Transaction
      → PublicKey
      → ℕ
      → Script
      → EcdsaSighashType
      → Input lib
      → Result (Input lib × Bytes)
  p2pkh_message tx key index challenge t input = do
    guard (bytes_eq challenge (new_p2pkh (pubkey_hash key))) public_key_mismatch
    sighash ← ok_or (legacy_signature_hash tx index challenge t) panic
    ok (input, sighash)

  unfoldable pub nested_message :
      Transaction
      → PublicKey
      → ℕ
      → ℕ
      → Script
      → EcdsaSighashType
      → Input lib
      → Result (Input lib × Bytes)
  nested_message tx key index value challenge t input = do
    hash ← ok_or (wpubkey_hash key) uncompressed_public_key
    let redeem = new_p2wpkh hash
    guard
        (not (
          not (bytes_eq challenge (new_p2sh (script_hash redeem)))
          || differs input.base.redeem_script redeem))
        public_key_mismatch
    sighash ← ok_or (p2wpkh_signature_hash tx index redeem value t) panic
    ok (record input { base = record input.base { redeem_script = some redeem } }, sighash)

  unfoldable pub multisig_hash :
      Transaction → ℕ → ℕ → Script → Bool → EcdsaSighashType → Option Bytes
  multisig_hash tx index value script true t = p2wsh_signature_hash tx index script value t
  multisig_hash tx index value script false t = legacy_signature_hash tx index script t

  unfoldable pub multisig_message :
      Transaction
      → PublicKey
      → ℕ
      → ℕ
      → Script
      → EcdsaSighashType
      → Input lib
      → Result (Input lib × Bytes)
  unfolding multisig_script multisig_hash
  multisig_message tx key index value challenge t input = do
    (script, is_witness) ←
        ok_or (multisig_script input.base.witness_script input.base.redeem_script)
          (unsupported_script_pubkey challenge)
    (required, pubkeys) ← parse_multisig lib script
    guard (any (λ k. public_key_eq k key) pubkeys) unknown_signer
    require_multisig_challenge lib script challenge is_witness input.base.redeem_script
    sighash ← ok_or (multisig_hash tx index value script is_witness t) panic
    ok (input, sighash)

  -- `redeem_script.map_or(true, |redeem| redeem.is_p2wpkh())`
  abbrev pub may_redeem_p2wpkh : Option Script → Bool
  may_redeem_p2wpkh none = true
  may_redeem_p2wpkh (some redeem) = is_p2wpkh redeem

  -- `message`, by the kind of the challenge.
  unfoldable pub ecdsa_message :
      Transaction
      → PublicKey
      → ℕ
      → ℕ
      → Script
      → EcdsaSighashType
      → Input lib
      → Result (Input lib × Bytes)
  unfolding p2wpkh_message p2pkh_message nested_message multisig_message
  ecdsa_message tx key index value challenge t input =
      if is_p2wpkh challenge
      then p2wpkh_message tx key index value challenge t input
      else if is_p2pkh challenge
      then p2pkh_message tx key index challenge t input
      else if is_p2sh challenge
          && is_missing input.base.witness_script
          && may_redeem_p2wpkh input.base.redeem_script
      then nested_message tx key index value challenge t input
      else multisig_message tx key index value challenge t input

  unfoldable pub sign_ecdsa_input :
      Transaction → PrivateKey → ℕ → ℕ → Script → Input lib → Result (Input lib)
  unfolding ecdsa_message partial_insert
  sign_ecdsa_input tx private_key index value challenge input = do
    sighash_type ← declared_ecdsa_sighash input
    (changed, sighash) ←
        ecdsa_message tx (public_key private_key) index value challenge sighash_type input
    ok (record changed {
      partial_sigs =
          partial_insert (public_key private_key) (sign_ecdsa sighash private_key, sighash_type)
            changed.partial_sigs;
    })

  -- What `sign_bip322_psbt_input` makes of the input it signs, whose previous output is `prevout`.
  unfoldable pub signed_input :
      Transaction → PrivateKey → ℕ → List TxOut → TxOut → Script → Input lib → Result (Input lib)
  unfolding sign_taproot sign_ecdsa_input
  signed_input tx private_key index prevouts prevout challenge input =
      if is_p2tr challenge
      then sign_taproot tx private_key index prevouts challenge input
      else sign_ecdsa_input tx private_key index prevout.value challenge input

  -- The script that the input is signed for.
  abbrev pub challenge_at : ℕ → Bip322Psbt → TxOut → Script
  challenge_at index detected prevout =
      if index == 0 then detected.message_challenge else prevout.script_pubkey

  unfoldable pub sign_bip322_psbt_input :
      Request lib → PrivateKey → ℕ → Result (Request lib × Bip322Psbt)
  unfolding checked_prevouts signed_input
  sign_bip322_psbt_input psbt private_key index = do
    detected ← ok_or (detect_bip322_psbt lib (view psbt)) ordinary_psbt
    validate_psbt_structure (view psbt)
    guard (ltb index (length psbt.unsigned_tx.input)) to_sign_invalid
    resolver ← new lib (view psbt)
    prevouts ← checked_prevouts (view psbt) resolver 0 (length psbt.inputs)
    prevout ← ok_or (get_elem? prevouts index) panic
    input ← ok_or (get_elem? psbt.inputs index) panic
    signed ←
        signed_input psbt.unsigned_tx private_key index prevouts prevout
          (challenge_at index detected prevout) input
    ok (record psbt { inputs = set psbt.inputs index signed }, detected)
