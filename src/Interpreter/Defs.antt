-- ===== src/Interpreter/Defs.antt =====
-- verify/interpreter.rs: the fallback to the interpreter of `miniscript`, and BIP-322's rules on the
-- signatures that it finds.
use bip.Base.{
  ℕ, ◌-◌, Bool, true, false, not, ◌&&◌, Option, none, some, List, [], ◌∷◌, Bytes, length, get_elem?,
  take, any, bytes_eq, ◌==◌,
}
use bip.Error.{
  Result, ok, err, ◌>>◌, guard, signature_invalid, script_not_satisfied, sig_hash_type_unsupported,
}
use bip.Bitcoin.Data.{TapSighashType}
use bip.Bitcoin.Api.{
  Api, KeySig, ecdsa, schnorr, Satisfied, key_sig, constraint, signature_error, other_error,
}
use bip.Script.Defs.{require_low_s}
use bip.Spend.Defs.{txin, prevout, taproot_stack}
use bip.Templates.Defs.{InputVerification, valid, inconclusive, require_sighash_all, LibSpend}

-- The number of a Taproot sighash type.
abbrev pub tap_type_number : TapSighashType → ℕ
tap_type_number TapSighashType.default = 0x00
tap_type_number TapSighashType.all = 0x01
tap_type_number TapSighashType.none = 0x02
tap_type_number TapSighashType.single = 0x03
tap_type_number TapSighashType.all_plus_anyone_can_pay = 0x81
tap_type_number TapSighashType.none_plus_anyone_can_pay = 0x82
tap_type_number TapSighashType.single_plus_anyone_can_pay = 0x83

-- `sighash_type != TapSighashType::All && sighash_type != TapSighashType::Default` and the return
-- with it
unfoldable pub require_tap_all : TapSighashType → Result (Unit {0})
require_tap_all TapSighashType.all = ok tt
require_tap_all TapSighashType.default = ok tt
require_tap_all t = err (sig_hash_type_unsupported (tap_type_number t))

abbrev is_default : TapSighashType → Bool
is_default TapSighashType.default = true
is_default t = false

abbrev ends_zero : Option ℕ → Bool
ends_zero none = false
ends_zero (some b) = b == 0

-- The closure of `has_explicit_default_taproot_signature`: the 65-byte form with a zero at the end.
unfoldable pub is_explicit_default : Bytes → Bytes → Bool
is_explicit_default signature item =
    length item == 65 && ends_zero (get_elem? item 64) && bytes_eq (take 64 item) signature

module _ (lib : Api) where
  open lib use {
    EcdsaSignature, SchnorrSignature, Interpreter, schnorr_bytes, from_txdata, iterate,
    iterate_assume_sigs,
  }

  unfoldable pub has_explicit_default_taproot_signature : LibSpend lib → SchnorrSignature → Bool
  unfolding is_explicit_default
  has_explicit_default_taproot_signature spend signature =
      any (is_explicit_default (schnorr_bytes signature)) (taproot_stack spend)

  unfoldable pub check_required_signature :
      KeySig EcdsaSignature SchnorrSignature → LibSpend lib → Result (Unit {0})
  unfolding require_tap_all
  check_required_signature (ecdsa signature sighash_type) spend = do
    require_sighash_all sighash_type
    require_low_s lib signature
  check_required_signature (schnorr signature sighash_type) spend = do
    require_tap_all sighash_type
    guard (not (is_default sighash_type && has_explicit_default_taproot_signature spend signature))
        (sig_hash_type_unsupported (tap_type_number sighash_type))

  -- The loop of `verify_with_interpreter`.
  unfoldable pub interpret :
      List (Satisfied EcdsaSignature SchnorrSignature) → LibSpend lib → Result InputVerification
  interpret [] spend = ok valid
  interpret (key_sig k ∷ rest) spend = do check_required_signature k spend; interpret rest spend
  interpret (constraint ∷ rest) spend = interpret rest spend
  interpret (signature_error ∷ rest) spend = err signature_invalid
  interpret (other_error ∷ rest) spend = err script_not_satisfied

  unfoldable pub verify_with_interpreter : LibSpend lib → Result InputVerification
  unfolding interpret
  verify_with_interpreter spend =
      elim (from_txdata (prevout spend).script_pubkey (txin spend).script_sig (txin spend).witness
        (txin spend).sequence spend.to_sign.lock_time) [
          | none ↦ ok inconclusive
          | some i ↦ interpret (iterate i spend.to_sign spend.input_index spend.prevouts) spend
        ]

  -- The loop of `verify_taproot_annex_required_rules`.
  unfoldable pub scan_required :
      List (Satisfied EcdsaSignature SchnorrSignature) → LibSpend lib → Result (Unit {0})
  scan_required [] spend = ok tt
  scan_required (key_sig k ∷ rest) spend = do
    check_required_signature k spend
    scan_required rest spend
  scan_required (constraint ∷ rest) spend = scan_required rest spend
  scan_required (signature_error ∷ rest) spend = ok tt
  scan_required (other_error ∷ rest) spend = ok tt

  -- The witness without its last item is the one that the source pushes item by item.
  unfoldable pub verify_taproot_annex_required_rules : LibSpend lib → Result (Unit {0})
  unfolding scan_required
  verify_taproot_annex_required_rules spend =
      elim (from_txdata (prevout spend).script_pubkey (txin spend).script_sig
        (take (length (txin spend).witness - 1) (txin spend).witness) (txin spend).sequence
        spend.to_sign.lock_time) [
          | none ↦ ok tt
          | some i ↦ scan_required (iterate_assume_sigs i) spend
        ]
