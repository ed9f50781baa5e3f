-- ===== src/Templates/Defs.antt =====
-- verify/templates.rs. A `SighashCache` only keeps what a transaction's signature hashes share, so
-- its calls are calls of the hash functions.
use bip.Base.{
  ℕ, ◌+◌, ◌-◌, Bool, false, not, ◌&&◌, Option, none, some, List, [], ◌∷◌, Bytes, length, get_elem?,
  take, last?, front, is_empty, ◌==◌, if◌then◌else◌,
}
use bip.Error.{
  Result, ok, err, ◌>>=◌, ◌>>◌, guard, ok_or, invalid_witness, to_sign_invalid, signature_length,
  signature_invalid, sig_hash_type_non_standard, sig_hash_type_unsupported,
}
use bip.Bitcoin.Data.{Decoded, good, push_bytes, EcdsaSighashType}
use bip.Bitcoin.Api.{Api}
use bip.Script.Defs.{require_low_s}
use bip.Bound.{CommittedScript, BoundPublicKey, bound_p2pkh, bound_p2wpkh, verifies, multisig}
use bip.Spend.Defs.{Spend, txin, prevout}

-- `InputVerification` of verify.rs
pub data InputVerification : Type 0 where
  valid inconclusive : InputVerification

-- `to_u32`
abbrev pub ecdsa_type_number : EcdsaSighashType → ℕ
ecdsa_type_number EcdsaSighashType.all = 0x01
ecdsa_type_number EcdsaSighashType.none = 0x02
ecdsa_type_number EcdsaSighashType.single = 0x03
ecdsa_type_number EcdsaSighashType.all_plus_anyone_can_pay = 0x81
ecdsa_type_number EcdsaSighashType.none_plus_anyone_can_pay = 0x82
ecdsa_type_number EcdsaSighashType.single_plus_anyone_can_pay = 0x83

-- `sighash_type != EcdsaSighashType::All` and the return with it
unfoldable pub require_sighash_all : EcdsaSighashType → Result (Unit {0})
require_sighash_all EcdsaSighashType.all = ok tt
require_sighash_all t = err (sig_hash_type_unsupported (ecdsa_type_number t))

-- The match of `verify_p2pkh` on the scriptSig.
unfoldable pub signature_and_key : List Decoded → Result (Bytes × Bytes)
signature_and_key (good (push_bytes signature) ∷ good (push_bytes public_key) ∷ []) =
    ok (signature, public_key)
signature_and_key _ = err invalid_witness

module _ (lib : Api) where
  open lib use {
    PublicKey, XOnlyPublicKey, ControlBlock, EcdsaSignature, instructions_minimal,
    ecdsa_sighash_from_standard, ecdsa_from_der, legacy_signature_hash, p2wpkh_signature_hash,
    p2wsh_signature_hash, new_p2pkh, new_p2wpkh,
  }

  -- `parse_ecdsa_signature` behind `split_last`.
  unfoldable pub parse_der : ℕ → Bytes → Result EcdsaSignature
  unfolding require_sighash_all
  parse_der sighash_byte der = do
    sighash_type ← ok_or (ecdsa_sighash_from_standard sighash_byte) sig_hash_type_non_standard
    require_sighash_all sighash_type
    signature ← ok_or (ecdsa_from_der der) signature_invalid
    require_low_s lib signature
    ok signature

  unfoldable pub parse_ecdsa_signature : Bytes → Result EcdsaSignature
  unfolding parse_der
  parse_ecdsa_signature encoded = elim (last? encoded) [
    | none ↦ err (signature_length 0 [])
    | some sighash_byte ↦ parse_der sighash_byte (front encoded)
  ]

  unfoldable pub verify_ecdsa :
      BoundPublicKey PublicKey → Bytes → EcdsaSignature → Result (Unit {0})
  verify_ecdsa key sighash signature = guard (verifies lib key sighash signature) signature_invalid

  abbrev pub LibSpend : Type 0
  LibSpend = Spend XOnlyPublicKey ControlBlock

  unfoldable pub verify_p2pkh : LibSpend → Bytes → Result (Unit {0})
  verify_p2pkh spend hash = do
    (encoded, public_key) ← signature_and_key (instructions_minimal (txin spend).script_sig)
    key ← bound_p2pkh lib hash public_key
    signature ← parse_ecdsa_signature encoded
    sighash ←
        ok_or
          (legacy_signature_hash spend.to_sign spend.input_index (new_p2pkh hash)
            EcdsaSighashType.all)
          to_sign_invalid
    verify_ecdsa key sighash signature

  unfoldable pub verify_p2wpkh : LibSpend → Bytes → Result (Unit {0})
  verify_p2wpkh spend hash = do
    encoded ← ok_or (get_elem? (txin spend).witness 0) invalid_witness
    public_key ← ok_or (get_elem? (txin spend).witness 1) invalid_witness
    key ← bound_p2wpkh lib hash public_key
    signature ← parse_ecdsa_signature encoded
    sighash ←
        ok_or
          (p2wpkh_signature_hash spend.to_sign spend.input_index (new_p2wpkh hash)
            (prevout spend).value EcdsaSighashType.all)
          to_sign_invalid
    verify_ecdsa key sighash signature

  -- `keys.any(|key| key.verifies(..))` on the iterator of keys: the keys behind the first that
  -- verifies, or nothing.
  unfoldable pub find_key :
      Bytes
      → EcdsaSignature
      → List (BoundPublicKey PublicKey)
      → Option (List (BoundPublicKey PublicKey))
  find_key sighash signature [] = none
  find_key sighash signature (k ∷ ks) =
      if verifies lib k sighash signature then some ks else find_key sighash signature ks

  -- The loop of `verify_checkmultisig` over the signatures.
  unfoldable pub match_signatures :
      Bytes → List Bytes → List (BoundPublicKey PublicKey) → Result (Unit {0})
  match_signatures sighash [] keys = ok tt
  match_signatures sighash (encoded ∷ rest) keys = do
    guard (not (is_empty encoded)) invalid_witness
    signature ← parse_ecdsa_signature encoded
    left ← ok_or (find_key sighash signature keys) signature_invalid
    match_signatures sighash rest left

  -- `stack.next().is_some_and(<[u8]>::is_empty)`
  abbrev pub null_dummy : List Bytes → Bool
  null_dummy [] = false
  null_dummy (d ∷ ds) = is_empty d

  abbrev pub tail : List Bytes → List Bytes
  tail [] = []
  tail (d ∷ ds) = ds

  unfoldable pub verify_checkmultisig :
      List Bytes → ℕ → List (BoundPublicKey PublicKey) → Result Bytes → Result (Unit {0})
  unfolding match_signatures
  verify_checkmultisig stack required keys sighash = do
    guard (length stack == required + 1 && null_dummy stack) invalid_witness
    h ← sighash
    match_signatures h (tail stack) keys

  unfoldable pub verify_p2wsh_multisig :
      LibSpend → CommittedScript → Result (Option InputVerification)
  verify_p2wsh_multisig spend witness_script = elim (multisig lib witness_script) [
    | none ↦ ok none
    | some (required, keys) ↦ do
      verify_checkmultisig (take (length (txin spend).witness - 1) (txin spend).witness) required
          keys
          (ok_or
            (p2wsh_signature_hash spend.to_sign spend.input_index witness_script.script
              (prevout spend).value EcdsaSighashType.all)
            to_sign_invalid)
      ok (some valid)
  ]

  unfoldable pub verify_p2sh_multisig :
      LibSpend → CommittedScript → List Bytes → Result (Option InputVerification)
  verify_p2sh_multisig spend redeem pushes = elim (multisig lib redeem) [
    | none ↦ ok none
    | some (required, keys) ↦ do
      verify_checkmultisig pushes required keys (
          ok_or
            (legacy_signature_hash spend.to_sign spend.input_index redeem.script
              EcdsaSighashType.all)
            to_sign_invalid)
      ok (some valid)
  ]
