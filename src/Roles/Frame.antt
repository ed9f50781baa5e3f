-- ===== src/Roles/Frame.antt =====
-- psbt/signer.rs: signing an input leaves its UTXO fields as they are.
use bip.Base.{
  ℕ, ◌≡◌, sym, ap, ◌∙◌, inl, inr, not, ◌&&◌, ◌||◌, List, any, Bytes, bytes_eq, Bool-cases,
}
use bip.Error.{
  ok, >>=-eq-ok, ok-injective, guard, ok_or, panic, uncompressed_public_key, public_key_mismatch,
  unsupported_script_pubkey, unknown_signer,
}
use bip.Bitcoin.Data.{Script, TxOut, Transaction, EcdsaSighashType}
use bip.Bitcoin.Api.{Api}
use bip.Script.Defs.{parse_multisig}
use bip.Roles.Detected.{utxos}
use bip.Roles.Helpers.{
  Input, is_missing, declared_ecdsa_sighash, signing_taproot_sighash, require_multisig_challenge,
}
use bip.Roles.Signer.{
  signed_input, sign_taproot, sign_ecdsa_input, ecdsa_message, p2wpkh_message, p2pkh_message,
  nested_message, multisig_message, multisig_script, multisig_hash, differs, may_redeem_p2wpkh,
}

module _ (lib : Api) where
  open lib use {
    PrivateKey, PublicKey, public_key, public_key_eq, wpubkey_hash, pubkey_hash, script_hash,
    new_p2wpkh, new_p2pkh, new_p2sh, new_p2tr_tweaked, is_p2tr, is_p2wpkh, is_p2pkh, is_p2sh,
    keypair, x_only, tap_tweak, legacy_signature_hash, p2wpkh_signature_hash,
    taproot_key_spend_signature_hash,
  }

  sign_taproot-base :
      (tx : Transaction) (key : PrivateKey) (index : ℕ) (prevouts : List TxOut) (challenge : Script)
      (input out : Input lib)
      → sign_taproot lib tx key index prevouts challenge input ≡ ok out
      → out.base ≡ input.base
  unfolding sign_taproot
  sign_taproot-base tx key index prevouts challenge input out h =
      let (t, _, h₁) = >>=-eq-ok (signing_taproot_sighash input) _ h in
      let (_, _, h₂) =
        >>=-eq-ok (ok_or (taproot_key_spend_signature_hash tx index prevouts t) panic) _ h₁ in
      let tweaked = tap_tweak (keypair key) input.tap_merkle_root in
      let (_, _, h₃) =
        >>=-eq-ok
          (guard (bytes_eq challenge (new_p2tr_tweaked (x_only tweaked))) public_key_mismatch) _
          h₂ in
      ap (λ (i : Input lib). i.base) (sym (ok-injective h₃))

  -- What the branches of `message` leave of the UTXO fields: all.
  abbrev SameUtxos : Input lib → Input lib × Bytes → Type 0
  SameUtxos input made = utxos (made.0).base ≡ utxos input.base

  p2wpkh_message-SameUtxos :
      (tx : Transaction) (key : PublicKey) (index value : ℕ) (challenge : Script)
      (t : EcdsaSighashType) (input : Input lib) (made : Input lib × Bytes)
      → p2wpkh_message lib tx key index value challenge t input ≡ ok made
      → SameUtxos input made
  unfolding p2wpkh_message
  p2wpkh_message-SameUtxos tx key index value challenge t input made h =
      let (hash, _, h₁) = >>=-eq-ok (ok_or (wpubkey_hash key) uncompressed_public_key) _ h in
      let (_, _, h₂) =
        >>=-eq-ok (guard (bytes_eq challenge (new_p2wpkh hash)) public_key_mismatch) _ h₁ in
      let (_, _, h₃) =
        >>=-eq-ok (ok_or (p2wpkh_signature_hash tx index challenge value t) panic) _ h₂ in
      ap (λ (m : Input lib × Bytes). utxos (m.0).base) (sym (ok-injective h₃))

  p2pkh_message-SameUtxos :
      (tx : Transaction) (key : PublicKey) (index : ℕ) (challenge : Script) (t : EcdsaSighashType)
      (input : Input lib) (made : Input lib × Bytes)
      → p2pkh_message lib tx key index challenge t input ≡ ok made
      → SameUtxos input made
  unfolding p2pkh_message
  p2pkh_message-SameUtxos tx key index challenge t input made h =
      let (_, _, h₁) =
        >>=-eq-ok (guard (bytes_eq challenge (new_p2pkh (pubkey_hash key))) public_key_mismatch) _
          h in
      let (_, _, h₂) = >>=-eq-ok (ok_or (legacy_signature_hash tx index challenge t) panic) _ h₁ in
      ap (λ (m : Input lib × Bytes). utxos (m.0).base) (sym (ok-injective h₂))

  nested_message-SameUtxos :
      (tx : Transaction) (key : PublicKey) (index value : ℕ) (challenge : Script)
      (t : EcdsaSighashType) (input : Input lib) (made : Input lib × Bytes)
      → nested_message lib tx key index value challenge t input ≡ ok made
      → SameUtxos input made
  unfolding nested_message
  nested_message-SameUtxos tx key index value challenge t input made h =
      let (hash, _, h₁) = >>=-eq-ok (ok_or (wpubkey_hash key) uncompressed_public_key) _ h in
      let redeem = new_p2wpkh hash in
      let (_, _, h₂) =
        >>=-eq-ok
          (guard
            (not (
              not (bytes_eq challenge (new_p2sh (script_hash redeem)))
              || differs input.base.redeem_script redeem))
            public_key_mismatch)
          _ h₁ in
      let (_, _, h₃) =
        >>=-eq-ok (ok_or (p2wpkh_signature_hash tx index redeem value t) panic) _ h₂ in
      ap (λ (m : Input lib × Bytes). utxos (m.0).base) (sym (ok-injective h₃))

  multisig_message-SameUtxos :
      (tx : Transaction) (key : PublicKey) (index value : ℕ) (challenge : Script)
      (t : EcdsaSighashType) (input : Input lib) (made : Input lib × Bytes)
      → multisig_message lib tx key index value challenge t input ≡ ok made
      → SameUtxos input made
  unfolding multisig_message
  multisig_message-SameUtxos tx key index value challenge t input made h =
      let ((script, w), _, h₁) =
        >>=-eq-ok
          (ok_or (multisig_script input.base.witness_script input.base.redeem_script)
            (unsupported_script_pubkey challenge))
          _ h in
      let ((required, pubkeys), _, h₂) = >>=-eq-ok (parse_multisig lib script) _ h₁ in
      let (_, _, h₃) =
        >>=-eq-ok (guard (any (λ k. public_key_eq k key) pubkeys) unknown_signer) _ h₂ in
      let (_, _, h₄) =
        >>=-eq-ok (require_multisig_challenge lib script challenge w input.base.redeem_script) _
          h₃ in
      let (_, _, h₅) = >>=-eq-ok (ok_or (multisig_hash lib tx index value script w t) panic) _ h₄ in
      ap (λ (m : Input lib × Bytes). utxos (m.0).base) (sym (ok-injective h₅))

  ecdsa_message-SameUtxos :
      (tx : Transaction) (key : PublicKey) (index value : ℕ) (challenge : Script)
      (t : EcdsaSighashType) (input : Input lib) (made : Input lib × Bytes)
      → ecdsa_message lib tx key index value challenge t input ≡ ok made
      → SameUtxos input made
  unfolding ecdsa_message
  ecdsa_message-SameUtxos tx key index value challenge t input made h =
      let nested =
        is_p2sh challenge
        && is_missing input.base.witness_script
        && may_redeem_p2wpkh lib input.base.redeem_script in
      elim (Bool-cases (is_p2wpkh challenge)) [
        | inl a ↦
            p2wpkh_message-SameUtxos tx key index value challenge t input made
              (rw (ecdsa_message, a) at h)
        | inr a ↦ elim (Bool-cases (is_p2pkh challenge)) [
          | inl b ↦
              p2pkh_message-SameUtxos tx key index challenge t input made
                (rw (ecdsa_message, a, b) at h)
          | inr b ↦ elim (Bool-cases nested) [
            | inl c ↦
                nested_message-SameUtxos tx key index value challenge t input made
                  (rw (ecdsa_message, a, b, c) at h)
            | inr c ↦
                multisig_message-SameUtxos tx key index value challenge t input made
                  (rw (ecdsa_message, a, b, c) at h)
          ]
        ]
      ]

  sign_ecdsa_input-utxos :
      (tx : Transaction) (key : PrivateKey) (index value : ℕ) (challenge : Script)
      (input out : Input lib)
      → sign_ecdsa_input lib tx key index value challenge input ≡ ok out
      → utxos out.base ≡ utxos input.base
  unfolding sign_ecdsa_input
  sign_ecdsa_input-utxos tx key index value challenge input out h =
      let (t, _, h₁) = >>=-eq-ok (declared_ecdsa_sighash input) _ h in
      let (made, m, h₂) =
        >>=-eq-ok (ecdsa_message lib tx (public_key key) index value challenge t input) _ h₁ in
      ap (λ (i : Input lib). utxos i.base) (sym (ok-injective h₂))
      ∙ ecdsa_message-SameUtxos tx (public_key key) index value challenge t input made m

  pub signed_input-utxos :
      (tx : Transaction) (key : PrivateKey) (index : ℕ) (prevouts : List TxOut) (prevout : TxOut)
      (challenge : Script) (input out : Input lib)
      → signed_input lib tx key index prevouts prevout challenge input ≡ ok out
      → utxos out.base ≡ utxos input.base
  unfolding signed_input
  signed_input-utxos tx key index prevouts prevout challenge input out h =
      elim (Bool-cases (is_p2tr challenge)) [
        | inl a ↦ ap utxos (
            sign_taproot-base tx key index prevouts challenge input out (rw (signed_input, a) at h))
        | inr a ↦
            sign_ecdsa_input-utxos tx key index prevout.value challenge input out
              (rw (signed_input, a) at h)
      ]
