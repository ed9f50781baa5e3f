-- ===== src/Roles/Helpers.antt =====
-- psbt/helpers.rs
use bip.Base.{
  Bool, true, false, not, ◌&&◌, Option, none, some, [], ◌∷◌, map, length, bytes_eq, ltb, ◌==◌,
  if◌then◌else◌,
}
use bip.Error.{
  Result, ok, err, ◌>>=◌, ◌>>◌, guard, sig_hash_type_unsupported, invalid_witness,
  witness_script_mismatch, signature_count, public_key_mismatch,
}
use bip.Bitcoin.Data.{
  Script, SignerInput, SignerPsbt, Psbt, EcdsaSighashType, TapSighashType, max_script_element_size,
}
use bip.Bitcoin.Api.{Api}
use bip.Templates.Defs.{ecdsa_type_number}
use bip.Interpreter.Defs.{tap_type_number}

-- `redeem_script == Some(script)`
abbrev pub holds_script : Option Script → Script → Bool
holds_script none script = false
holds_script (some s) script = bytes_eq s script

abbrev pub is_missing : Option Script → Bool
is_missing none = true
is_missing (some s) = false

module _ {K X E S : Type 0} where
  -- The PSBT as the functions read it that look at no signer's field.
  abbrev pub view : SignerPsbt K X E S → Psbt
  view p = record {
    unsigned_tx = p.unsigned_tx;
    inputs = map (λ (i : SignerInput K X E S). i.base) p.inputs;
    output_count = p.output_count;
    unknown = p.unknown;
  }

  unfoldable pub declared_ecdsa_sighash : SignerInput K X E S → Result EcdsaSighashType
  declared_ecdsa_sighash input = elim input.sighash_type [
    | none ↦ ok EcdsaSighashType.all
    | some n ↦
        if n == ecdsa_type_number EcdsaSighashType.all
        then ok EcdsaSighashType.all
        else err (sig_hash_type_unsupported n)
  ]

  unfoldable pub signing_taproot_sighash : SignerInput K X E S → Result TapSighashType
  signing_taproot_sighash input = elim input.sighash_type [
    | none ↦ ok TapSighashType.all
    | some n ↦
        if n == 1
        then ok TapSighashType.all
        else if n == 0
        then ok TapSighashType.default
        else err (sig_hash_type_unsupported n)
  ]

  -- What a declared type asks of the type of a final signature.
  unfoldable pub fits_declared : SignerInput K X E S → TapSighashType → Result (Unit {0})
  unfolding signing_taproot_sighash
  fits_declared input actual = elim input.sighash_type [
    | none ↦ ok tt
    | some n ↦ do
      t ← signing_taproot_sighash input
      guard (tap_type_number actual == tap_type_number t)
          (sig_hash_type_unsupported (tap_type_number actual))
  ]

  unfoldable pub validate_final_taproot_sighash :
      SignerInput K X E S → TapSighashType → Result (Unit {0})
  unfolding fits_declared
  validate_final_taproot_sighash input TapSighashType.all = fits_declared input TapSighashType.all
  validate_final_taproot_sighash input TapSighashType.default =
      fits_declared input TapSighashType.default
  validate_final_taproot_sighash input actual =
      err (sig_hash_type_unsupported (tap_type_number actual))

module _ (lib : Api) where
  open lib use {
    PublicKey, XOnlyPublicKey, EcdsaSignature, SchnorrSignature, new_p2wsh, new_p2sh, wscript_hash,
    script_hash,
  }

  abbrev pub Input : Type 0
  Input = SignerInput PublicKey XOnlyPublicKey EcdsaSignature SchnorrSignature

  abbrev pub Request : Type 0
  Request = SignerPsbt PublicKey XOnlyPublicKey EcdsaSignature SchnorrSignature

  -- The `matches` of `require_multisig_challenge`.
  unfoldable pub commits_to : Script → Script → Bool → Option Script → Bool
  commits_to script challenge true redeem_script =
      let p2wsh = new_p2wsh (wscript_hash script) in
      if bytes_eq challenge p2wsh
      then is_missing redeem_script
      else bytes_eq challenge (new_p2sh (script_hash p2wsh)) && holds_script redeem_script p2wsh
  commits_to script challenge false redeem_script =
      bytes_eq challenge (new_p2sh (script_hash script)) && holds_script redeem_script script

  unfoldable pub require_multisig_challenge :
      Script → Script → Bool → Option Script → Result (Unit {0})
  unfolding commits_to
  require_multisig_challenge script challenge is_witness redeem_script = do
    guard (not (not is_witness && ltb max_script_element_size (length script))) invalid_witness
    guard (commits_to script challenge is_witness redeem_script) witness_script_mismatch

  -- `single_partial_sig` behind the check of the number of signatures.
  unfoldable pub checked_partial_sig :
      Input
      → Script
      → (PublicKey → Result Script)
      → PublicKey
      → EcdsaSignature
      → EcdsaSighashType
      → Result (PublicKey × (EcdsaSignature × EcdsaSighashType))
  checked_partial_sig input challenge expected k s t = do
    script ← expected k
    guard (bytes_eq script challenge) public_key_mismatch
    declared ← declared_ecdsa_sighash input
    guard (ecdsa_type_number t == ecdsa_type_number declared)
        (sig_hash_type_unsupported (ecdsa_type_number t))
    ok (k, (s, t))

  unfoldable pub single_partial_sig :
      Input
      → Script
      → (PublicKey → Result Script)
      → Result (PublicKey × (EcdsaSignature × EcdsaSighashType))
  unfolding checked_partial_sig
  single_partial_sig input challenge expected = elim input.partial_sigs [
    | [] ↦ err (signature_count 1 0)
    | (k, (s, t)) ∷ rest ↦
        if length rest == 0
        then checked_partial_sig input challenge expected k s t
        else err (signature_count 1 (length input.partial_sigs))
  ]
