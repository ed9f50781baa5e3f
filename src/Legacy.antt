-- ===== src/Legacy.antt =====
-- verify/legacy.rs, and the legacy format of sign.rs.
pub mod RoundTrip
use bip.Base.{Bool, true, false, ◌&&◌, [], ◌∷◌, Bytes, bytes_eq, length, leb, ◌==◌}
use bip.Error.{
  Result, ok, err, ◌>>=◌, ◌>>◌, guard, ok_or, panic, unsupported_address, public_key_mismatch,
  private_key_parse, signature_decode, signature_length, invalid_recovery_flag, legacy_recover,
}
use bip.Bitcoin.Data.{AddressData}
use bip.Bitcoin.Api.{Api}
use bip.Message.Defs.{parse_address}

-- `signature_bytes[0]` and the test on it; the length has been checked.
unfoldable pub check_flag : Bytes → Result (Unit {0})
check_flag [] = err panic
check_flag (flag ∷ rest) = guard (leb 27 flag && leb flag 34) (invalid_recovery_flag flag)

module _ (lib : Api) where
  open lib use {
    Address, PrivateKey, MessageSignature, address_data, address_to_string, script_pubkey_of,
    new_p2pkh, pubkey_hash, public_key, compressed, signed_msg_hash, sign_ecdsa_recoverable,
    message_signature, message_signature_bytes, message_signature_from_slice, recover_pubkey,
    base64_encode, base64_decode, from_wif,
  }

  -- `matches!(address.to_address_data(), AddressData::P2pkh { .. })`
  unfoldable pub is_p2pkh_address : Address → Bool
  is_p2pkh_address address = elim (address_data address) [ AddressData.p2pkh ↦ true | _ ↦ false ]

  unfoldable pub sign_legacy : Address → Bytes → PrivateKey → Result MessageSignature
  unfolding is_p2pkh_address
  sign_legacy address message private_key = do
    guard (is_p2pkh_address address) (unsupported_address (address_to_string address))
    guard (bytes_eq (script_pubkey_of address) (new_p2pkh (pubkey_hash (public_key private_key))))
        public_key_mismatch
    ok (
        message_signature (sign_ecdsa_recoverable (signed_msg_hash message) private_key)
          (compressed (public_key private_key)))

  unfoldable pub verify_legacy : Address → Bytes → MessageSignature → Result (Unit {0})
  unfolding is_p2pkh_address
  verify_legacy address message signature = do
    guard (is_p2pkh_address address) (unsupported_address (address_to_string address))
    recovered ← ok_or (recover_pubkey signature (signed_msg_hash message)) legacy_recover
    guard (bytes_eq (script_pubkey_of address) (new_p2pkh (pubkey_hash recovered)))
        public_key_mismatch

  unfoldable pub sign_legacy_encoded : Bytes → Bytes → Bytes → Result Bytes
  unfolding sign_legacy
  sign_legacy_encoded address message wif_private_key = do
    address' ← parse_address lib address
    private_key ← ok_or (from_wif wif_private_key) private_key_parse
    signature ← sign_legacy address' message private_key
    ok (base64_encode (message_signature_bytes signature))

  unfoldable pub verify_legacy_encoded : Bytes → Bytes → Bytes → Result (Unit {0})
  unfolding verify_legacy check_flag
  verify_legacy_encoded address message signature = do
    address' ← parse_address lib address
    bytes ← ok_or (base64_decode signature) (signature_decode signature)
    guard (length bytes == 65) (signature_length (length bytes) bytes)
    check_flag bytes
    parsed ← ok_or (message_signature_from_slice bytes) legacy_recover
    verify_legacy address' message parsed
