-- ===== src/Legacy/RoundTrip.antt =====
-- verify/legacy.rs and sign.rs: which legacy signatures verify, and that those of the code do.
use bip.Base.{
  ℕ, suc, ◌≤◌, ◌≡◌, ◌↔◌, refl, sym, ap, ◌∙◌, true, ◌&&◌, some, [], ◌∷◌, Bytes, bytes_eq-eq,
  bytes_eq_refl, length, leb, leb→le, ◌==◌, ==_iff, and-eq-true, arith,
}
use bip.Error.{
  ok, >>=-eq-ok, guard, guard-eq-ok, ok_or, ok_or-eq-ok, signature_decode, signature_length,
  legacy_recover, unsupported_address,
}
use bip.Bitcoin.Api.{Api}
use bip.Message.Defs.{parse_address}
use bip.Legacy.{
  check_flag, is_p2pkh_address, sign_legacy, verify_legacy, sign_legacy_encoded,
  verify_legacy_encoded,
}

check_flag_iff :
    (bytes : Bytes)
    → (check_flag bytes ≡ ok tt)
      ↔ ((flag : ℕ) × (rest : Bytes) × (bytes ≡ flag ∷ rest) × (27 ≤ flag) × (flag ≤ 34))
unfolding check_flag
check_flag_iff [] = (λ h. cc, λ (_, _, e, _, _). cc)
check_flag_iff (flag ∷ rest) = (
  λ h.
      let (a, b) = (and-eq-true (leb 27 flag) (leb flag 34)).0 (guard-eq-ok _ _ h) in
      (flag, rest, refl, leb→le _ _ a, leb→le _ _ b),
  λ (f, r, e, a, b).
      let same : f ≡ flag = cc in
      let c : (leb 27 flag && leb flag 34) ≡ true = rw (← same) (ground arith) in rw c refl,
)

module _ (lib : Api) where
  open lib use {
    Address, PrivateKey, PublicKey, MessageSignature, address_from_str, address_to_string,
    script_pubkey_of, new_p2pkh, pubkey_hash, public_key, compressed, signed_msg_hash,
    sign_ecdsa_recoverable, message_signature, message_signature_bytes,
    message_signature_from_slice, recover_pubkey, base64_encode, base64_decode, from_wif,
  }

  -- The address is a P2PKH address of the key that the signature of the message is recovered to.
  abbrev pub SignedBy : Address → Bytes → MessageSignature → Type 0
  SignedBy address message signature =
      (key : PublicKey) × (is_p2pkh_address lib address ≡ true)
      × (recover_pubkey signature (signed_msg_hash message) ≡ some key)
      × (script_pubkey_of address ≡ new_p2pkh (pubkey_hash key))

  verify_legacy_iff :
      (address : Address) (message : Bytes) (signature : MessageSignature)
      → (verify_legacy lib address message signature ≡ ok tt) ↔ SignedBy address message signature
  unfolding verify_legacy
  verify_legacy_iff address message signature = (
    λ h.
        let (_, p, h₁) =
          >>=-eq-ok
            (guard (is_p2pkh_address lib address) (unsupported_address (address_to_string address)))
            _ h in
        let (key, r, h₂) =
          >>=-eq-ok (ok_or (recover_pubkey signature (signed_msg_hash message)) legacy_recover) _
            h₁ in
        (key, guard-eq-ok _ _ p, ok_or-eq-ok _ _ r, bytes_eq-eq _ _ (guard-eq-ok _ _ h₂)),
    λ (key, p, r, e). rw (p, r, e, bytes_eq_refl (new_p2pkh (pubkey_hash key))) refl,
  )

  -- The texts stand for an address and for 65 bytes, the first of them between 27 and 34, which
  -- are a signature.
  abbrev pub Encodes : Bytes → Bytes → Address → MessageSignature → Type 0
  Encodes address signature a m =
      (flag : ℕ) × (rest : Bytes) × (address_from_str address ≡ some a)
      × (base64_decode signature ≡ some (flag ∷ rest))
      × (length (flag ∷ rest) ≡ 65)
      × (27 ≤ flag)
      × (flag ≤ 34)
      × (message_signature_from_slice (flag ∷ rest) ≡ some m)

  -- A legacy proof verifies exactly if the address is a P2PKH address, the signature is Base64 of
  -- 65 bytes that start with a flag between 27 and 34 and parse, and the key that it is recovered to
  -- from the message hashes to the address.
  pub verify_legacy_encoded_iff :
      (address message signature : Bytes)
      → (verify_legacy_encoded lib address message signature ≡ ok tt) ↔ (
          (a : Address) × (m : MessageSignature) × Encodes address signature a m
          × SignedBy a message m)
  unfolding verify_legacy_encoded parse_address
  verify_legacy_encoded_iff address message signature = (
    λ h.
        let (a, p, h₁) = >>=-eq-ok (parse_address lib address) _ h in
        let (bytes, b, h₂) =
          >>=-eq-ok (ok_or (base64_decode signature) (signature_decode signature)) _ h₁ in
        let (_, l, h₃) =
          >>=-eq-ok (guard (length bytes == 65) (signature_length (length bytes) bytes)) _ h₂ in
        let (_, f, h₄) = >>=-eq-ok (check_flag bytes) _ h₃ in
        let (m, s, h₅) =
          >>=-eq-ok (ok_or (message_signature_from_slice bytes) legacy_recover) _ h₄ in
        let (flag, rest, e, low, high) = (check_flag_iff bytes).0 f in
        (
          a,
          m,
          (
            flag,
            rest,
            ok_or-eq-ok _ _ p,
            ok_or-eq-ok _ _ b ∙ ap some e,
            ap length (sym e) ∙ (==_iff _ _).0 (guard-eq-ok _ _ l),
            low,
            high,
            ap message_signature_from_slice (sym e) ∙ ok_or-eq-ok _ _ s,
          ),
          (verify_legacy_iff a message m).0 h₅,
        ),
    λ (a, m, (flag, rest, p, b, l, low, high, s), v).
        let flagged = (check_flag_iff (flag ∷ rest)).1 (flag, rest, refl, low, high) in
        let long : (length (flag ∷ rest) == 65) ≡ true = (==_iff _ _).1 l in
        rw (p, b, long, flagged, s, (verify_legacy_iff a message m).1 v) refl,
  )

  -- What `sign_legacy` makes.
  abbrev pub signature_of : Bytes → PrivateKey → MessageSignature
  signature_of message key =
      message_signature (sign_ecdsa_recoverable (signed_msg_hash message) key)
        (compressed (public_key key))

  -- It is written as a flag between 27 and 34 and 64 bytes, and read back, and the key is recovered
  -- from it.
  abbrev pub Recovers : Bytes → PrivateKey → Type 0
  Recovers message key =
      (flag : ℕ) × (rest : Bytes) × (message_signature_bytes (signature_of message key)
        ≡ flag ∷ rest)
      × (length rest ≡ 64)
      × (27 ≤ flag)
      × (flag ≤ 34)
      × (message_signature_from_slice (flag ∷ rest) ≡ some (signature_of message key))
      × (recover_pubkey (signature_of message key) (signed_msg_hash message)
          ≡ some (public_key key))
      × (base64_decode (base64_encode (flag ∷ rest)) ≡ some (flag ∷ rest))

  -- The texts stand for a P2PKH address and a private key of it.
  abbrev pub KeyOf : Bytes → Bytes → Address → PrivateKey → Type 0
  KeyOf address wif a key =
      (address_from_str address ≡ some a)
      × (from_wif wif ≡ some key)
      × (is_p2pkh_address lib a ≡ true)
      × (script_pubkey_of a ≡ new_p2pkh (pubkey_hash (public_key key)))

  -- With a P2PKH address and its private key the legacy format signs a message, and the signature
  -- verifies for the address and the message, if a signature is written and read back, and the key
  -- recovered from it.
  pub sign_legacy_encoded-verify_legacy_encoded :
      (address message wif : Bytes) (a : Address) (key : PrivateKey)
      → KeyOf address wif a key
      → Recovers message key
      → (signature : Bytes) × (sign_legacy_encoded lib address message wif ≡ ok signature)
        × (verify_legacy_encoded lib address message signature ≡ ok tt)
  unfolding sign_legacy_encoded sign_legacy parse_address
  sign_legacy_encoded-verify_legacy_encoded address message wif a key (p, w, k, e)
        (flag, rest, b, l, low, high, s, r, c) =
      (
        base64_encode (flag ∷ rest),
        rw (p, w, k, e, bytes_eq_refl (new_p2pkh (pubkey_hash (public_key key))), b) refl,
        (verify_legacy_encoded_iff address message (base64_encode (flag ∷ rest))).1 (
          a,
          signature_of message key,
          (flag, rest, p, c, ap suc l, low, high, s),
          (public_key key, k, r, e),
        ),
      )
