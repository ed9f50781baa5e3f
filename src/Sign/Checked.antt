-- ===== src/Sign/Checked.antt =====
-- sign/input.rs: what each kind of signature checks of the script it is for.
use bip.Base.{
  ℕ, ◌≡◌, refl, sym, ap, ◌∙◌, inl, inr, ◌&&◌, some, Option, List, [], ◌∷◌, Bytes, length, bytes_eq,
  bytes_eq-eq, Bool-cases, ltb, is_empty, get_elem?, ◌==◌, Bool,
}
use bip.Error.{
  ok, >>=-eq-ok, ok-injective, guard, guard-eq-ok, ok_or, ok_or-eq-ok, panic, to_sign_invalid,
  uncompressed_public_key, public_key_mismatch,
}
use bip.Bitcoin.Data.{Script, Witness, TxOut, PsbtInput, TapSighashType}
use bip.Bitcoin.Api.{Api}
use bip.Roles.Detected.{utxos}
use bip.Roles.Helpers.{Request}
use bip.Roles.Steps.{Kept, all_utxos-set, bases}
use bip.Roles.Detected.{all_utxos}
use bip.Sign.Input.{
  single_key, with_witness, update_input, nested_if, create_message_signature_p2wpkh,
  create_message_signature_taproot, set_witness,
}

pub single_key-ok : {P : Type 0} (keys : List P) (k : P) → single_key keys ≡ ok k → keys ≡ k ∷ []
unfolding single_key
single_key-ok [] k h = cc
single_key-ok (p ∷ []) k h = ap (λ x. x ∷ []) (ok-injective h)
single_key-ok (p ∷ q ∷ ps) k h = cc

module _ (lib : Api) where
  open lib use {
    PrivateKey, public_key, public_key_bytes, wpubkey_hash, pubkey_hash, script_hash, wscript_hash,
    new_p2wpkh, new_p2pkh, new_p2sh, new_p2wsh, new_p2tr_tweaked, is_p2tr, is_p2wsh, is_p2wpkh,
    is_p2sh, is_p2pkh, keypair, x_only, tap_tweak, legacy_signature_hash, p2wpkh_signature_hash,
    p2wsh_signature_hash, taproot_key_spend_signature_hash,
  }

  -- The keys, or the script that is given with them, are what a script commits to.
  pub data Owns (spk : Script) (keys : List PrivateKey) (ws : Option Script) : Type 0 where
    taproot :
        (k : PrivateKey) (root : Option Bytes)
        → keys ≡ k ∷ []
        → spk ≡ new_p2tr_tweaked (x_only (tap_tweak (keypair k) root))
        → Owns spk keys ws
    pubkey :
        (k : PrivateKey)
        → keys ≡ k ∷ []
        → spk ≡ new_p2pkh (pubkey_hash (public_key k))
        → Owns spk keys ws
    wpubkey :
        (k : PrivateKey) (hash : Bytes)
        → keys ≡ k ∷ []
        → wpubkey_hash (public_key k) ≡ some hash
        → spk ≡ new_p2wpkh hash
        → Owns spk keys ws
    nested_wpubkey :
        (k : PrivateKey) (hash : Bytes)
        → keys ≡ k ∷ []
        → wpubkey_hash (public_key k) ≡ some hash
        → spk ≡ new_p2sh (script_hash (new_p2wpkh hash))
        → Owns spk keys ws
    script : (s : Script) → ws ≡ some s → spk ≡ new_p2sh (script_hash s) → Owns spk keys ws
    witness_script :
        (s : Script) → ws ≡ some s → spk ≡ new_p2wsh (wscript_hash s) → Owns spk keys ws
    nested_witness_script :
        (s : Script)
        → ws ≡ some s
        → spk ≡ new_p2sh (script_hash (new_p2wsh (wscript_hash s)))
        → Owns spk keys ws

  pub Kept-trans : (p q r : Request lib) → Kept lib p q → Kept lib q r → Kept lib p r
  Kept-trans p q r (t, n, u, i) (t', n', u', i') = (t' ∙ t, n' ∙ n, u' ∙ u, i' ∙ i)

  pub update_input-Kept :
      (p q : Request lib) (index : ℕ) (change : PsbtInput → PsbtInput)
      → ((i : PsbtInput) → utxos (change i) ≡ utxos i)
      → update_input lib p index change ≡ ok q
      → Kept lib p q
  unfolding update_input
  update_input-Kept p q index change same h =
      let (i, f, h₁) = >>=-eq-ok (ok_or (get_elem? p.inputs index) panic) _ h in
      let e = sym (ok-injective h₁) in
      (
        ap (λ (x : Request lib). x.unsigned_tx) e,
        ap (λ (x : Request lib). x.output_count) e,
        ap (λ (x : Request lib). x.unknown) e,
        ap (λ (x : Request lib). all_utxos (bases lib x.inputs)) e
            ∙ all_utxos-set lib p.inputs index i _ (ok_or-eq-ok _ _ f) (same i.base),
      )

  pub set_witness-Kept :
      (p q : Request lib) (index : ℕ) (w : Witness)
      → set_witness lib p index w ≡ ok q
      → Kept lib p q
  unfolding set_witness
  set_witness-Kept p q index w h = elim (Bool-cases (is_empty w)) [
    | inl e ↦ rw (← ok-injective (rw (set_witness, e) at h)) (refl, refl, refl, refl)
    | inr e ↦ update_input-Kept p q index (with_witness w) (λ i. refl) (rw (set_witness, e) at h)
  ]

  -- What each kind of signature checks of the script it is for.
  pub create_message_signature_p2wpkh-ok :
      (p : Request lib) (k : PrivateKey) (prevout : TxOut) (index : ℕ) (nested : Bool) (w : Witness)
      → create_message_signature_p2wpkh lib p k prevout index nested ≡ ok w
      → (hash : Bytes) × (wpubkey_hash (public_key k) ≡ some hash)
        × (prevout.script_pubkey ≡ nested_if lib nested (new_p2wpkh hash))
  unfolding create_message_signature_p2wpkh
  create_message_signature_p2wpkh-ok p k prevout index nested w h =
      let (_, _, h₁) =
        >>=-eq-ok (guard (ltb index (length p.unsigned_tx.input)) to_sign_invalid) _ h in
      let (hash, a, h₂) =
        >>=-eq-ok (ok_or (wpubkey_hash (public_key k)) uncompressed_public_key) _ h₁ in
      let (_, b, _) =
        >>=-eq-ok
          (guard (bytes_eq prevout.script_pubkey (nested_if lib nested (new_p2wpkh hash)))
            public_key_mismatch)
          _ h₂ in
      (hash, ok_or-eq-ok _ _ a, bytes_eq-eq _ _ (guard-eq-ok _ _ b))

  pub create_message_signature_taproot-ok :
      (p : Request lib) (k : PrivateKey) (prevouts : List TxOut) (prevout : TxOut) (index : ℕ)
      (aux_rand : Option Bytes) (w : Witness)
      → get_elem? prevouts index ≡ some prevout
      → create_message_signature_taproot lib p k prevouts index aux_rand ≡ ok w
      → (root : Option Bytes) × (prevout.script_pubkey
          ≡ new_p2tr_tweaked (x_only (tap_tweak (keypair k) root)))
  unfolding create_message_signature_taproot
  create_message_signature_taproot-ok p k prevouts prevout index aux_rand w e h =
      let (_, _, h₁) =
        >>=-eq-ok
          (guard
            (ltb index (length p.inputs)
              && ltb index (length p.unsigned_tx.input)
              && length prevouts == length p.unsigned_tx.input)
            to_sign_invalid)
          _ h in
      let (_, _, h₂) =
        >>=-eq-ok
          (ok_or (taproot_key_spend_signature_hash p.unsigned_tx index prevouts TapSighashType.all)
            to_sign_invalid)
          _ h₁ in
      let (i, _, h₃) = >>=-eq-ok (ok_or (get_elem? p.inputs index) panic) _ h₂ in
      let (o, f, h₄) = >>=-eq-ok (ok_or (get_elem? prevouts index) panic) _ h₃ in
      let tweaked = tap_tweak (keypair k) i.tap_merkle_root in
      let (_, b, _) =
        >>=-eq-ok
          (guard (bytes_eq o.script_pubkey (new_p2tr_tweaked (x_only tweaked))) public_key_mismatch)
          _ h₄ in
      let same : some o ≡ some prevout = sym (ok_or-eq-ok _ _ f) ∙ e in
      let same' : o ≡ prevout = cc in
      (
        i.tap_merkle_root,
        ap (λ (x : TxOut). x.script_pubkey) (sym same') ∙ bytes_eq-eq _ _ (guard-eq-ok _ _ b),
      )
