-- ===== src/Sign/Owned.antt =====
-- sign/input.rs: whose scripts are signed for, and what signing leaves as it is.
use bip.Base.{
  ℕ, ◌≡◌, refl, inl, inr, not, ◌&&◌, true, false, none, some, Option, List, [], ◌∷◌, length,
  bytes_eq, bytes_eq-eq, not-eq-true, Option-cases, Bool-cases, ltb, is_empty, get_elem?,
}
use bip.Error.{
  ok, >>=-eq-ok, guard, guard-eq-ok, ok_or, ok_or-eq-ok, panic, to_sign_invalid,
  uncompressed_public_key, public_key_mismatch, invalid_witness, witness_script_mismatch,
  no_private_keys,
}
use bip.Bitcoin.Data.{Script, Witness, TxOut, EcdsaSighashType, max_script_element_size}
use bip.Bitcoin.Api.{Api}
use bip.Script.Defs.{push_only_script}
use bip.Script.Ordered.{ordered_multisig_signatures}
use bip.Roles.Helpers.{Request}
use bip.Roles.Steps.{Kept}
use bip.Sign.Input.{
  single_key, with_script_sig, update_input, create_message_signature_p2wpkh,
  create_message_signature_taproot, create_message_signature_p2wsh,
  create_message_signature_p2sh_multisig, create_message_signature_p2pkh, set_witness,
  sign_p2sh_script, sign_p2sh_p2wpkh, sign_p2wsh, sign_kind, sign_input,
}
use bip.Sign.Checked.{
  Owns, Kept-trans, update_input-Kept, set_witness-Kept, create_message_signature_p2wpkh-ok,
  create_message_signature_taproot-ok, single_key-ok, taproot, pubkey, wpubkey, nested_wpubkey,
  script, witness_script, nested_witness_script,
}

module _ (lib : Api) where
  open lib use {
    PrivateKey, public_key, public_key_bytes, wpubkey_hash, pubkey_hash, script_hash, wscript_hash,
    new_p2wpkh, new_p2pkh, new_p2sh, new_p2wsh, new_p2tr_tweaked, is_p2tr, is_p2wsh, is_p2wpkh,
    is_p2sh, is_p2pkh, keypair, x_only, tap_tweak, legacy_signature_hash, p2wpkh_signature_hash,
    p2wsh_signature_hash, taproot_key_spend_signature_hash,
  }

  abbrev Done : Request lib → Request lib → Script → List PrivateKey → Option Script → Type 0
  Done p q spk keys ws = Owns lib spk keys ws × Kept lib p q

  create_message_signature_p2pkh-Done :
      (p q : Request lib) (keys : List PrivateKey) (k : PrivateKey) (ws : Option Script)
      (prevout : TxOut) (index : ℕ)
      → keys ≡ k ∷ []
      → create_message_signature_p2pkh lib p k prevout index ≡ ok q
      → Done p q prevout.script_pubkey keys ws
  unfolding create_message_signature_p2pkh
  create_message_signature_p2pkh-Done p q keys k ws prevout index e h =
      let (_, _, h₁) =
        >>=-eq-ok
          (guard (ltb index (length p.inputs) && ltb index (length p.unsigned_tx.input))
            to_sign_invalid)
          _ h in
      let (_, b, h₂) =
        >>=-eq-ok
          (guard (bytes_eq prevout.script_pubkey (new_p2pkh (pubkey_hash (public_key k))))
            public_key_mismatch)
          _ h₁ in
      let (_, _, h₃) =
        >>=-eq-ok
          (ok_or
            (legacy_signature_hash p.unsigned_tx index prevout.script_pubkey EcdsaSighashType.all)
            to_sign_invalid)
          _ h₂ in
      (
        pubkey k e (bytes_eq-eq _ _ (guard-eq-ok _ _ b)),
        update_input-Kept lib p q index (with_script_sig _) (λ i. refl) h₃,
      )

  create_message_signature_p2sh_multisig-Kept :
      (p q : Request lib) (keys : List PrivateKey) (s : Script) (index : ℕ)
      → create_message_signature_p2sh_multisig lib p keys s index ≡ ok q
      → Kept lib p q
  unfolding create_message_signature_p2sh_multisig
  create_message_signature_p2sh_multisig-Kept p q keys s index h =
      let (_, _, h₁) =
        >>=-eq-ok (guard (not (ltb max_script_element_size (length s))) invalid_witness) _ h in
      let (_, _, h₂) =
        >>=-eq-ok
          (guard (ltb index (length p.inputs) && ltb index (length p.unsigned_tx.input))
            to_sign_invalid)
          _ h₁ in
      let (sighash, _, h₃) =
        >>=-eq-ok
          (ok_or (legacy_signature_hash p.unsigned_tx index s EcdsaSighashType.all) to_sign_invalid)
          _ h₂ in
      let (_, _, h₄) = >>=-eq-ok (ordered_multisig_signatures lib s keys sighash) _ h₃ in
      update_input-Kept lib p q index (with_script_sig _) (λ i. refl) h₄

  -- The scriptSig and the witness of a nested input.
  both-Kept :
      (p q r : Request lib) (index : ℕ) (script_sig : Script) (w : Witness)
      → update_input lib p index (with_script_sig script_sig) ≡ ok q
      → set_witness lib q index w ≡ ok r
      → Kept lib p r
  both-Kept p q r index script_sig w h k =
      Kept-trans lib p q r
        (update_input-Kept lib p q index (with_script_sig script_sig) (λ i. refl) h)
        (set_witness-Kept lib q r index w k)

  sign_p2sh_script-Done :
      (p q : Request lib) (prevout : TxOut) (keys : List PrivateKey) (s : Script) (index : ℕ)
      → sign_p2sh_script lib p prevout keys s index ≡ ok q
      → Done p q prevout.script_pubkey keys (some s)
  unfolding sign_p2sh_script
  sign_p2sh_script-Done p q prevout keys s index h =
      let spk = prevout.script_pubkey in
      let program = new_p2wsh (wscript_hash s) in
      elim (Bool-cases (bytes_eq spk (new_p2sh (script_hash s)))) [
        | inl a ↦ (
          script s refl (bytes_eq-eq _ _ a),
          create_message_signature_p2sh_multisig-Kept p q keys s index
              (rw (sign_p2sh_script, a) at h),
        )
        | inr a ↦ elim (Bool-cases (bytes_eq spk (new_p2sh (script_hash program)))) [
          | inl b ↦
              let (w, _, h₁) =
                >>=-eq-ok (create_message_signature_p2wsh lib p keys s prevout index) _
                  (rw (sign_p2sh_script, a, b) at h) in
              let (r, u, h₂) =
                >>=-eq-ok
                  (update_input lib p index (with_script_sig (push_only_script lib program))) _
                  h₁ in
              (nested_witness_script s refl (bytes_eq-eq _ _ b), both-Kept p r q index _ w u h₂)
          | inr b ↦ cc (rw (sign_p2sh_script, a, b) at h)
        ]
      ]

  sign_p2sh_p2wpkh-Done :
      (p q : Request lib) (prevout : TxOut) (keys : List PrivateKey) (ws : Option Script)
      (index : ℕ)
      → sign_p2sh_p2wpkh lib p prevout keys index ≡ ok q
      → Done p q prevout.script_pubkey keys ws
  unfolding sign_p2sh_p2wpkh
  sign_p2sh_p2wpkh-Done p q prevout keys ws index h =
      let (k, e, h₁) = >>=-eq-ok (single_key keys) _ h in
      let (hash, a, h₂) =
        >>=-eq-ok (ok_or (wpubkey_hash (public_key k)) uncompressed_public_key) _ h₁ in
      let (_, b, h₃) =
        >>=-eq-ok
          (guard (bytes_eq prevout.script_pubkey (new_p2sh (script_hash (new_p2wpkh hash))))
            public_key_mismatch)
          _ h₂ in
      let (w, _, h₄) =
        >>=-eq-ok (create_message_signature_p2wpkh lib p k prevout index true) _ h₃ in
      let (r, u, h₅) =
        >>=-eq-ok
          (update_input lib p index (with_script_sig (push_only_script lib (new_p2wpkh hash)))) _
          h₄ in
      (
        nested_wpubkey k hash (single_key-ok keys k e) (ok_or-eq-ok _ _ a)
            (bytes_eq-eq _ _ (guard-eq-ok _ _ b)),
        both-Kept p r q index _ w u h₅,
      )

  sign_p2wsh-Done :
      (p q : Request lib) (prevout : TxOut) (keys : List PrivateKey) (ws : Option Script)
      (index : ℕ)
      → sign_p2wsh lib p prevout keys ws index ≡ ok q
      → Done p q prevout.script_pubkey keys ws
  unfolding sign_p2wsh
  sign_p2wsh-Done p q prevout keys ws index h =
      let (s, e, h₁) = >>=-eq-ok (ok_or ws invalid_witness) _ h in
      let (_, b, h₂) =
        >>=-eq-ok
          (guard (bytes_eq prevout.script_pubkey (new_p2wsh (wscript_hash s)))
            witness_script_mismatch)
          _ h₁ in
      let (w, _, h₃) = >>=-eq-ok (create_message_signature_p2wsh lib p keys s prevout index) _ h₂ in
      (
        witness_script s (ok_or-eq-ok _ _ e) (bytes_eq-eq _ _ (guard-eq-ok _ _ b)),
        set_witness-Kept lib p q index w h₃,
      )

  sign_taproot-Done :
      (p q : Request lib) (prevouts : List TxOut) (prevout : TxOut) (keys : List PrivateKey)
      (ws : Option Script) (index : ℕ) (k : PrivateKey) (w : Witness)
      → single_key keys ≡ ok k
      → get_elem? prevouts index ≡ some prevout
      → create_message_signature_taproot lib p k prevouts index none ≡ ok w
      → set_witness lib p index w ≡ ok q
      → Done p q prevout.script_pubkey keys ws
  sign_taproot-Done p q prevouts prevout keys ws index k w e o h u =
      let (root, same) =
        create_message_signature_taproot-ok lib p k prevouts prevout index none w o h in
      (taproot k root (single_key-ok keys k e) same, set_witness-Kept lib p q index w u)

  sign_p2wpkh-Done :
      (p q : Request lib) (prevout : TxOut) (keys : List PrivateKey) (ws : Option Script)
      (index : ℕ) (k : PrivateKey) (w : Witness)
      → single_key keys ≡ ok k
      → create_message_signature_p2wpkh lib p k prevout index false ≡ ok w
      → set_witness lib p index w ≡ ok q
      → Done p q prevout.script_pubkey keys ws
  sign_p2wpkh-Done p q prevout keys ws index k w e h u =
      let (hash, a, same) = create_message_signature_p2wpkh-ok lib p k prevout index false w h in
      (wpubkey k hash (single_key-ok keys k e) a same, set_witness-Kept lib p q index w u)

  sign_kind-Done :
      (p q : Request lib) (prevouts : List TxOut) (prevout : TxOut) (keys : List PrivateKey)
      (ws : Option Script) (index : ℕ)
      → get_elem? prevouts index ≡ some prevout
      → sign_kind lib p prevouts prevout keys ws index ≡ ok q
      → Done p q prevout.script_pubkey keys ws
  unfolding sign_kind
  sign_kind-Done p q prevouts prevout keys ws index o h =
      let spk = prevout.script_pubkey in
      elim (Bool-cases (is_p2tr spk)) [
        | inl a ↦
            let (k, e, h₁) = >>=-eq-ok (single_key keys) _ (rw (sign_kind, a) at h) in
            let (w, c, u) =
              >>=-eq-ok (create_message_signature_taproot lib p k prevouts index none) _ h₁ in
            sign_taproot-Done p q prevouts prevout keys ws index k w e o c u
        | inr a ↦ elim (Bool-cases (is_p2wsh spk)) [
          | inl b ↦ sign_p2wsh-Done p q prevout keys ws index (rw (sign_kind, a, b) at h)
          | inr b ↦ elim (Bool-cases (is_p2wpkh spk)) [
            | inl c ↦
                let (k, e, h₁) = >>=-eq-ok (single_key keys) _ (rw (sign_kind, a, b, c) at h) in
                let (w, m, u) =
                  >>=-eq-ok (create_message_signature_p2wpkh lib p k prevout index false) _ h₁ in
                sign_p2wpkh-Done p q prevout keys ws index k w e m u
            | inr c ↦ elim (Bool-cases (is_p2sh spk)) [
              | inl d ↦ elim (Option-cases ws) [
                | inl n ↦
                    sign_p2sh_p2wpkh-Done p q prevout keys ws index
                      (rw (sign_kind, a, b, c, d, n) at h)
                | inr (s, n) ↦ rw n (
                    sign_p2sh_script-Done p q prevout keys s index
                      (rw (sign_kind, a, b, c, d, n) at h))
              ]
              | inr d ↦ elim (Bool-cases (is_p2pkh spk)) [
                | inl f ↦
                    let (k, e, h₁) =
                      >>=-eq-ok (single_key keys) _ (rw (sign_kind, a, b, c, d, f) at h) in
                    create_message_signature_p2pkh-Done p q keys k ws prevout index
                      (single_key-ok keys k e) h₁
                | inr f ↦ cc (rw (sign_kind, a, b, c, d, f) at h)
              ]
            ]
          ]
        ]
      ]

  -- An input is signed only if there are keys, and the script of its previous output is one that
  -- the single key, or the script given with the keys, makes; the transaction, the UTXO fields and
  -- the unknown fields stay as they are.
  pub sign_input-Owns :
      (p q : Request lib) (prevouts : List TxOut) (keys : List PrivateKey) (ws : Option Script)
      (index : ℕ)
      → sign_input lib p prevouts keys ws index ≡ ok q
      → (is_empty keys ≡ false)
        × ((prevout : TxOut) × (get_elem? prevouts index ≡ some prevout)
            × Owns lib prevout.script_pubkey keys ws)
        × Kept lib p q
  unfolding sign_input
  sign_input-Owns p q prevouts keys ws index h =
      let (_, n, h₁) = >>=-eq-ok (guard (not (is_empty keys)) no_private_keys) _ h in
      let (prevout, o, h₂) = >>=-eq-ok (ok_or (get_elem? prevouts index) panic) _ h₁ in
      let e = ok_or-eq-ok _ _ o in
      let (owned, kept) = sign_kind-Done p q prevouts prevout keys ws index e h₂ in
      ((not-eq-true _).0 (guard-eq-ok _ _ n), (prevout, e, owned), kept)
