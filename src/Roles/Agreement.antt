-- ===== src/Roles/Agreement.antt =====
-- psbt/signer.rs, psbt/finalizer.rs and sign/input.rs: the roles make what direct signing makes.
use bip.Base.{
  ℕ, zero, suc, ◌<◌, ◌≡◌, refl, sym, ap, ◌∙◌, true, false, none, some, List, [], ◌∷◌, Bytes, length,
  get_elem?, bytes_eq, bytes_eq-eq, bytes_eq_refl, lt→ltb, arith,
}
use bip.Error.{
  ok, >>=-eq-ok, ok-injective, guard, guard-eq-ok, ok_or, ok_or-eq-ok, panic,
  uncompressed_public_key, public_key_mismatch,
}
use bip.Bitcoin.Data.{Script, Witness, TxIn, TxOut, Transaction, EcdsaSighashType}
use bip.Bitcoin.Api.{Api}
use bip.Sign.Input.{create_message_signature_p2wpkh, witness_at, signed_all}
use bip.Roles.Helpers.{
  Input, Request, declared_ecdsa_sighash, single_partial_sig, checked_partial_sig,
}
use bip.Roles.Signer.{signed_input, sign_ecdsa_input, ecdsa_message, p2wpkh_message, partial_insert}
use bip.Roles.Finalizer.{
  clear_non_final_fields, with_final, finalize_p2wpkh, finalize_challenge, finalize_redeem,
  finalize_input, p2wpkh_script,
}

get_elem?-lt : {A : Type 0} (xs : List A) (i : ℕ) {a : A} → get_elem? xs i ≡ some a → i < length xs
get_elem?-lt [] i e = cc
get_elem?-lt (x ∷ xs) zero e = omega arith
get_elem?-lt (x ∷ xs) (suc i) e = omega (arith, get_elem?-lt xs i e)

module _ (lib : Api) where
  open lib use {
    PrivateKey, public_key, public_key_bytes, wpubkey_hash, new_p2wpkh, is_p2tr, is_p2wpkh,
    p2wpkh_signature_hash, sign_ecdsa,
  }

  -- An input map that no one has signed, without a redeem script and a sighash type.
  abbrev pub IsFresh : Input lib → Type 0
  IsFresh i =
      (i.partial_sigs ≡ [])
      × (i.sighash_type ≡ none)
      × (i.tap_key_sig ≡ none)
      × (i.base.redeem_script ≡ none)

  -- What a signer needs for a P2WPKH challenge.
  abbrev SignsProgram : Transaction → PrivateKey → ℕ → ℕ → Script → Bytes → Bytes → Type 0
  SignsProgram tx key index value challenge hash sighash =
      (wpubkey_hash (public_key key) ≡ some hash)
      × (challenge ≡ new_p2wpkh hash)
      × (p2wpkh_signature_hash tx index challenge value EcdsaSighashType.all ≡ some sighash)

  abbrev signed : Input lib → PrivateKey → Bytes → Input lib
  signed i key sighash = record i {
    partial_sigs = (public_key key, (sign_ecdsa sighash key, EcdsaSighashType.all)) ∷ [];
  }

  -- The branch that a P2WPKH challenge takes.
  taken :
      (tx : Transaction) (key : PrivateKey) (index : ℕ) (prevouts : List TxOut) (prevout : TxOut)
      (challenge : Script) (i : Input lib)
      → is_p2tr challenge ≡ false
      → signed_input lib tx key index prevouts prevout challenge i
        ≡ sign_ecdsa_input lib tx key index prevout.value challenge i
  unfolding signed_input
  taken tx key index prevouts prevout challenge i n = rw (signed_input, n) refl

  p2wpkh_taken :
      (tx : Transaction) (key : PrivateKey) (index value : ℕ) (challenge : Script)
      (t : EcdsaSighashType) (i : Input lib)
      → is_p2wpkh challenge ≡ true
      → ecdsa_message lib tx (public_key key) index value challenge t i
        ≡ p2wpkh_message lib tx (public_key key) index value challenge t i
  unfolding ecdsa_message
  p2wpkh_taken tx key index value challenge t i p = rw (ecdsa_message, p) refl

  declares_all :
      (i : Input lib) → i.sighash_type ≡ none → declared_ecdsa_sighash i ≡ ok EcdsaSighashType.all
  unfolding declared_ecdsa_sighash
  declares_all i t = rw (declared_ecdsa_sighash, t) refl

  p2wpkh_message-SignsProgram :
      (tx : Transaction) (key : PrivateKey) (index value : ℕ) (challenge : Script) (i : Input lib)
      (made : Input lib × Bytes)
      → p2wpkh_message lib tx (public_key key) index value challenge EcdsaSighashType.all i
        ≡ ok made
      → (hash : Bytes) × (sighash : Bytes) × (made ≡ (i, sighash))
        × SignsProgram tx key index value challenge hash sighash
  unfolding p2wpkh_message
  p2wpkh_message-SignsProgram tx key index value challenge i made h =
      let (hash, a, h₁) =
        >>=-eq-ok (ok_or (wpubkey_hash (public_key key)) uncompressed_public_key) _ h in
      let (_, b, h₂) =
        >>=-eq-ok (guard (bytes_eq challenge (new_p2wpkh hash)) public_key_mismatch) _ h₁ in
      let (sighash, c, h₃) =
        >>=-eq-ok
          (ok_or (p2wpkh_signature_hash tx index challenge value EcdsaSighashType.all) panic) _
          h₂ in
      (
        hash,
        sighash,
        sym (ok-injective h₃),
        (ok_or-eq-ok _ _ a, bytes_eq-eq _ _ (guard-eq-ok _ _ b), ok_or-eq-ok _ _ c),
      )

  recorded :
      (i : Input lib) (made : Input lib × Bytes) (key : PrivateKey) (d : EcdsaSighashType)
      (sighash : Bytes)
      → made ≡ (i, sighash)
      → d ≡ EcdsaSighashType.all
      → i.partial_sigs ≡ []
      → record made.0 {
        partial_sigs =
            partial_insert lib (public_key key) (sign_ecdsa made.1 key, d) made.0.partial_sigs;
      }
        ≡ signed i key sighash
  unfolding partial_insert
  recorded i made key d sighash f a s = rw (f, a, s) refl

  -- The whole branch on a fresh input map.
  fresh_branch :
      (tx : Transaction) (key : PrivateKey) (index value : ℕ) (challenge : Script)
      (i out : Input lib)
      → IsFresh i
      → is_p2wpkh challenge ≡ true
      → sign_ecdsa_input lib tx key index value challenge i ≡ ok out
      → (hash : Bytes) × (sighash : Bytes) × (out ≡ signed i key sighash)
        × SignsProgram tx key index value challenge hash sighash
  unfolding sign_ecdsa_input partial_insert
  fresh_branch tx key index value challenge i out (s, t, _, _) p h =
      let (d, e, h₁) = >>=-eq-ok (declared_ecdsa_sighash i) _ h in
      let all : d ≡ EcdsaSighashType.all = ok-injective (sym e ∙ declares_all i t) in
      let (made, m, h₂) =
        >>=-eq-ok (ecdsa_message lib tx (public_key key) index value challenge d i) _ h₁ in
      let message =
        sym (p2wpkh_taken tx key index value challenge EcdsaSighashType.all i p)
        ∙ ap (λ u. ecdsa_message lib tx (public_key key) index value challenge u i) (sym all)
        ∙ m in
      let (hash, sighash, f, g) =
        p2wpkh_message-SignsProgram tx key index value challenge i made message in
      (hash, sighash, sym (ok-injective h₂) ∙ recorded i made key d sighash f all s, g)

  abbrev witness_for : PrivateKey → Bytes → Witness
  witness_for key sighash = signed_all lib sighash key ∷ public_key_bytes (public_key key) ∷ []

  finalize_signed :
      (i : Input lib) (key : PrivateKey) (challenge : Script) (hash sighash : Bytes)
      → IsFresh i
      → is_p2wpkh challenge ≡ true
      → wpubkey_hash (public_key key) ≡ some hash
      → challenge ≡ new_p2wpkh hash
      → finalize_input lib (signed i key sighash) challenge
        ≡ ok (with_final lib (signed i key sighash) none (some (witness_for key sighash)))
  unfolding finalize_input finalize_redeem finalize_challenge finalize_p2wpkh single_partial_sig
      checked_partial_sig declared_ecdsa_sighash
  finalize_signed i key challenge hash sighash (_, t, k, r) p a b =
      let checked : single_partial_sig lib (signed i key sighash) challenge (p2wpkh_script lib)
          ≡ ok (public_key key, (sign_ecdsa sighash key, EcdsaSighashType.all)) =
        rw (a, b, bytes_eq_refl (new_p2wpkh hash), t) refl in
      rw (finalize_input, k, r, p, checked) refl

  direct :
      (p : Request lib) (key : PrivateKey) (prevout : TxOut) (index : ℕ) (hash sighash : Bytes)
      (i : TxIn)
      → SignsProgram p.unsigned_tx key index prevout.value prevout.script_pubkey hash sighash
      → get_elem? p.unsigned_tx.input index ≡ some i
      → i.witness ≡ []
      → create_message_signature_p2wpkh lib p key prevout index false ≡ ok (witness_for key sighash)
  unfolding create_message_signature_p2wpkh witness_at
  direct p key prevout index hash sighash i (a, b, c) e w =
      let inside = lt→ltb _ _ (get_elem?-lt p.unsigned_tx.input index e) in
      let same : bytes_eq prevout.script_pubkey (new_p2wpkh hash) ≡ true =
        rw b (bytes_eq_refl (new_p2wpkh hash)) in
      rw (inside, a, same, c, e, w) refl

  -- For an input that spends a P2WPKH output, which is not a Taproot one, and has an empty witness in
  -- the unsigned transaction, and whose map has no partial signature, sighash type, Taproot
  -- signature or redeem script: if the signer signs it for that output's script, the finalizer and
  -- direct signing succeed on it as well, and the final witness is the one that direct signing
  -- makes, with no scriptSig.
  pub signed_input-finalize_input :
      (p : Request lib) (key : PrivateKey) (index : ℕ) (prevouts : List TxOut) (prevout : TxOut)
      (i out : Input lib) (unsigned : TxIn)
      → IsFresh i
      → is_p2tr prevout.script_pubkey ≡ false
      → is_p2wpkh prevout.script_pubkey ≡ true
      → get_elem? p.unsigned_tx.input index ≡ some unsigned
      → unsigned.witness ≡ []
      → signed_input lib p.unsigned_tx key index prevouts prevout prevout.script_pubkey i ≡ ok out
      → (w : Witness) × (final : Input lib) × (finalize_input lib out prevout.script_pubkey
          ≡ ok final)
        × (final.base.final_script_witness ≡ some w)
        × (final.base.final_script_sig ≡ none)
        × (create_message_signature_p2wpkh lib p key prevout index false ≡ ok w)
  unfolding with_final clear_non_final_fields
  signed_input-finalize_input p key index prevouts prevout i out unsigned f n k e u h =
      let spk = prevout.script_pubkey in
      let (hash, sighash, g, (a, b, c)) =
        fresh_branch p.unsigned_tx key index prevout.value spk i out f k
          (sym (taken p.unsigned_tx key index prevouts prevout spk i n) ∙ h) in
      (
        witness_for key sighash,
        with_final lib (signed i key sighash) none (some (witness_for key sighash)),
        ap (λ x. finalize_input lib x spk) g ∙ finalize_signed i key spk hash sighash f k a b,
        refl,
        refl,
        direct p key prevout index hash sighash unsigned (a, b, c) e u,
      )
