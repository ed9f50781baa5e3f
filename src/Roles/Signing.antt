-- ===== src/Roles/Signing.antt =====
-- psbt/signer.rs: signing an input of a request does not panic.
use bip.Base.{
  ℕ, suc, zero, ◌<◌, ◌≡◌, ◌≢◌, sym, ap, ◌∙◌, ◌&&◌, ◌||◌, not, Bool, true, false, ◌⊎◌, inl, inr,
  Bool-cases, Option-cases, none, some, List, [], ◌∷◌, Bytes, length, length-map, get_elem?,
  bytes_eq, bytes_eq-eq, any, ltb, ltb→lt, ◌==◌, ==_iff, and-eq-true, arith,
}
use bip.Error.{
  ok, err, >>=-eq-ok, ok-injective, guard, guard-eq-ok, ok_or, ok_or-eq-ok, panic, ordinary_psbt,
  to_sign_invalid, uncompressed_public_key, public_key_mismatch, unsupported_script_pubkey,
  unknown_signer,
}
use bip.Bitcoin.Data.{Script, TxOut, Transaction, Psbt, EcdsaSighashType, TapSighashType}
use bip.Bitcoin.Api.{Api}
use bip.Outpoints.Defs.{validate_psbt_structure}
use bip.Prevouts.Defs.{PrevoutResolver, new, checked_psbt_input_prevout}
use bip.Script.Defs.{parse_multisig}
use bip.Roles.Detect.{detect_bip322_psbt}
use bip.Roles.Helpers.{
  Input, Request, view, is_missing, declared_ecdsa_sighash, signing_taproot_sighash,
  require_multisig_challenge,
}
use bip.Roles.Signer.{
  sign_bip322_psbt_input, signed_input, sign_taproot, sign_ecdsa_input, ecdsa_message,
  p2wpkh_message, p2pkh_message, nested_message, multisig_message, multisig_script, multisig_hash,
  differs, checked_prevouts, challenge_at, may_redeem_p2wpkh,
}
use bip.Roles.Safe.{
  IsSafe, ok-IsSafe, ok_or-IsSafe, ok_or_some-IsSafe, if-IsSafe, guard-IsSafe, bind-IsSafe,
  parse_multisig-IsSafe, require_multisig_challenge-IsSafe, declared_ecdsa_sighash-IsSafe,
  signing_taproot_sighash-IsSafe, validate_psbt_structure-IsSafe, new-IsSafe,
  checked_prevouts-IsSafe,
}

get_elem?-in : {A : Type 0} (xs : List A) (i : ℕ) → i < length xs → get_elem? xs i ≢ none
get_elem?-in [] i l e = absurd (omega arith)
get_elem?-in (x ∷ xs) zero l e = cc
get_elem?-in (x ∷ xs) (suc i) l e = get_elem?-in xs i (omega arith) e

-- The types of Taproot signature that a signer makes.
abbrev IsWhole : TapSighashType → Type 0
IsWhole t = (t ≡ TapSighashType.all) ⊎ (t ≡ TapSighashType.default)

module _ (lib : Api) where
  open lib use {
    PrivateKey, PublicKey, public_key, public_key_eq, wpubkey_hash, pubkey_hash, script_hash,
    new_p2wpkh, new_p2pkh, new_p2sh, new_p2tr_tweaked, is_p2tr, is_p2wpkh, is_p2pkh, is_p2sh,
    keypair, x_only, tap_tweak, legacy_signature_hash, p2wpkh_signature_hash, p2wsh_signature_hash,
    taproot_key_spend_signature_hash,
  }

  -- The signature hashes of an input: the BIP-143 hash of a P2WPKH script, and the Taproot hash that
  -- commits to all outputs, over one previous output for each input.
  abbrev HasHashes : Transaction → ℕ → Type 0
  HasHashes tx index =
      ((s : Script) (t : EcdsaSighashType) → legacy_signature_hash tx index s t ≢ none)
      × ((k : PublicKey) (h : Bytes) (v : ℕ) (t : EcdsaSighashType)
          → wpubkey_hash k ≡ some h
          → p2wpkh_signature_hash tx index (new_p2wpkh h) v t ≢ none)
      × ((s : Script) (v : ℕ) (t : EcdsaSighashType) → p2wsh_signature_hash tx index s v t ≢ none)
      × ((os : List TxOut) (t : TapSighashType)
          → length os ≡ length tx.input
          → IsWhole t
          → taproot_key_spend_signature_hash tx index os t ≢ none)

  -- `SighashCache` hashes for every input that a transaction has.
  abbrev pub HashesInputs : Type 0
  HashesInputs = (tx : Transaction) (index : ℕ) → index < length tx.input → HasHashes tx index

  signing_taproot_sighash-IsWhole :
      (i : Input lib) (t : TapSighashType) → signing_taproot_sighash i ≡ ok t → IsWhole t
  unfolding signing_taproot_sighash
  signing_taproot_sighash-IsWhole i t h = elim (Option-cases i.sighash_type) [
    | inl e ↦ inl (sym (ok-injective (rw (signing_taproot_sighash, e) at h)))
    | inr (n, e) ↦ elim (Bool-cases (n == 1)) [
      | inl a ↦ inl (sym (ok-injective (rw (signing_taproot_sighash, e, a) at h)))
      | inr a ↦ elim (Bool-cases (n == 0)) [
        | inl b ↦ inr (sym (ok-injective (rw (signing_taproot_sighash, e, a, b) at h)))
        | inr b ↦ cc (rw (signing_taproot_sighash, e, a, b) at h)
      ]
    ]
  ]

  sign_taproot-IsSafe :
      (tx : Transaction) (key : PrivateKey) (index : ℕ) (prevouts : List TxOut) (challenge : Script)
      (i : Input lib)
      → HasHashes tx index
      → length prevouts ≡ length tx.input
      → IsSafe (sign_taproot lib tx key index prevouts challenge i)
  unfolding sign_taproot
  sign_taproot-IsSafe tx key index prevouts challenge i (_, _, _, g) l =
      bind-IsSafe (signing_taproot_sighash i) _ (signing_taproot_sighash-IsSafe lib i) (λ t e.
        bind-IsSafe (ok_or (taproot_key_spend_signature_hash tx index prevouts t) panic) _
          (ok_or_some-IsSafe _ _ (g prevouts t l (signing_taproot_sighash-IsWhole i t e)))
          (λ _ _.
            bind-IsSafe
              (guard
                (bytes_eq challenge
                  (new_p2tr_tweaked (x_only (tap_tweak (keypair key) i.tap_merkle_root))))
                public_key_mismatch)
              _ (guard-IsSafe _ (λ h. cc)) (λ _ _. ok-IsSafe _)))

  p2wpkh_message-IsSafe :
      (tx : Transaction) (key : PublicKey) (index value : ℕ) (challenge : Script)
      (t : EcdsaSighashType) (i : Input lib)
      → HasHashes tx index
      → IsSafe (p2wpkh_message lib tx key index value challenge t i)
  unfolding p2wpkh_message
  p2wpkh_message-IsSafe tx key index value challenge t i (_, g, _, _) =
      bind-IsSafe (ok_or (wpubkey_hash key) uncompressed_public_key) _ (ok_or-IsSafe _ (λ h. cc))
        (λ hash a.
          bind-IsSafe (guard (bytes_eq challenge (new_p2wpkh hash)) public_key_mismatch) _
            (guard-IsSafe _ (λ h. cc))
            (λ _ e.
              bind-IsSafe (ok_or (p2wpkh_signature_hash tx index challenge value t) panic) _
                (ok_or_some-IsSafe _ _ (
                  rw (bytes_eq-eq challenge (new_p2wpkh hash) (guard-eq-ok _ _ e))
                    (g key hash value t (ok_or-eq-ok _ _ a))))
                (λ _ _. ok-IsSafe _)))

  p2pkh_message-IsSafe :
      (tx : Transaction) (key : PublicKey) (index : ℕ) (challenge : Script) (t : EcdsaSighashType)
      (i : Input lib)
      → HasHashes tx index
      → IsSafe (p2pkh_message lib tx key index challenge t i)
  unfolding p2pkh_message
  p2pkh_message-IsSafe tx key index challenge t i (g, _, _, _) =
      bind-IsSafe (guard (bytes_eq challenge (new_p2pkh (pubkey_hash key))) public_key_mismatch) _
        (guard-IsSafe _ (λ h. cc))
        (λ _ _.
          bind-IsSafe (ok_or (legacy_signature_hash tx index challenge t) panic) _
            (ok_or_some-IsSafe _ _ (g challenge t)) (λ _ _. ok-IsSafe _))

  nested_message-IsSafe :
      (tx : Transaction) (key : PublicKey) (index value : ℕ) (challenge : Script)
      (t : EcdsaSighashType) (i : Input lib)
      → HasHashes tx index
      → IsSafe (nested_message lib tx key index value challenge t i)
  unfolding nested_message
  nested_message-IsSafe tx key index value challenge t i (_, g, _, _) =
      bind-IsSafe (ok_or (wpubkey_hash key) uncompressed_public_key) _ (ok_or-IsSafe _ (λ h. cc))
        (λ hash a.
          bind-IsSafe
            (guard
              (not (
                not (bytes_eq challenge (new_p2sh (script_hash (new_p2wpkh hash))))
                || differs i.base.redeem_script (new_p2wpkh hash)))
              public_key_mismatch)
            _ (guard-IsSafe _ (λ h. cc))
            (λ _ _.
              bind-IsSafe (ok_or (p2wpkh_signature_hash tx index (new_p2wpkh hash) value t) panic) _
                (ok_or_some-IsSafe _ _ (g key hash value t (ok_or-eq-ok _ _ a)))
                (λ _ _. ok-IsSafe _)))

  multisig_hash-some :
      (tx : Transaction) (index value : ℕ) (s : Script) (w : Bool) (t : EcdsaSighashType)
      → HasHashes tx index
      → multisig_hash lib tx index value s w t ≢ none
  unfolding multisig_hash
  multisig_hash-some tx index value s true t (_, _, g, _) = g s value t
  multisig_hash-some tx index value s false t (g, _, _, _) = g s t

  multisig_message-IsSafe :
      (tx : Transaction) (key : PublicKey) (index value : ℕ) (challenge : Script)
      (t : EcdsaSighashType) (i : Input lib)
      → HasHashes tx index
      → IsSafe (multisig_message lib tx key index value challenge t i)
  unfolding multisig_message
  multisig_message-IsSafe tx key index value challenge t i g =
      bind-IsSafe
        (ok_or (multisig_script i.base.witness_script i.base.redeem_script)
          (unsupported_script_pubkey challenge))
        _ (ok_or-IsSafe _ (λ h. cc))
        (λ s _. bind-IsSafe (parse_multisig lib s.0) _ (parse_multisig-IsSafe lib s.0) (λ p _.
          bind-IsSafe (guard (any (λ k. public_key_eq k key) p.1) unknown_signer) _
            (guard-IsSafe _ (λ h. cc))
            (λ _ _.
              bind-IsSafe (require_multisig_challenge lib s.0 challenge s.1 i.base.redeem_script) _
                (require_multisig_challenge-IsSafe lib s.0 challenge s.1 i.base.redeem_script)
                (λ _ _.
                  bind-IsSafe (ok_or (multisig_hash lib tx index value s.0 s.1 t) panic) _
                    (ok_or_some-IsSafe _ _ (multisig_hash-some tx index value s.0 s.1 t g))
                    (λ _ _. ok-IsSafe _)))))

  sign_ecdsa_input-IsSafe :
      (tx : Transaction) (key : PrivateKey) (index value : ℕ) (challenge : Script) (i : Input lib)
      → HasHashes tx index
      → IsSafe (sign_ecdsa_input lib tx key index value challenge i)
  unfolding sign_ecdsa_input ecdsa_message
  sign_ecdsa_input-IsSafe tx key index value challenge i g =
      let k = public_key key in
      bind-IsSafe (declared_ecdsa_sighash i) _ (declared_ecdsa_sighash-IsSafe lib i) (λ t _.
        bind-IsSafe (ecdsa_message lib tx k index value challenge t i) _
          (if-IsSafe (is_p2wpkh challenge) (p2wpkh_message-IsSafe tx k index value challenge t i g)
            (if-IsSafe (is_p2pkh challenge) (p2pkh_message-IsSafe tx k index challenge t i g) (
              if-IsSafe
                (is_p2sh challenge
                  && is_missing i.base.witness_script
                  && may_redeem_p2wpkh lib i.base.redeem_script)
                (nested_message-IsSafe tx k index value challenge t i g)
                (multisig_message-IsSafe tx k index value challenge t i g))))
          (λ _ _. ok-IsSafe _))

  signed_input-IsSafe :
      (tx : Transaction) (key : PrivateKey) (index : ℕ) (prevouts : List TxOut) (prevout : TxOut)
      (challenge : Script) (i : Input lib)
      → HasHashes tx index
      → length prevouts ≡ length tx.input
      → IsSafe (signed_input lib tx key index prevouts prevout challenge i)
  unfolding signed_input
  signed_input-IsSafe tx key index prevouts prevout challenge i g l =
      if-IsSafe (is_p2tr challenge) (sign_taproot-IsSafe tx key index prevouts challenge i g l)
        (sign_ecdsa_input-IsSafe tx key index prevout.value challenge i g)

  checked_prevouts-length :
      (psbt : Psbt) (r : PrevoutResolver) (index n : ℕ) (out : List TxOut)
      → checked_prevouts lib psbt r index n ≡ ok out
      → length out ≡ n
  unfolding checked_prevouts
  checked_prevouts-length psbt r index zero out h = ap length (sym (ok-injective h))
  checked_prevouts-length psbt r index (suc n) out h =
      let (_, _, h₁) = >>=-eq-ok (checked_psbt_input_prevout lib psbt r index) _ h in
      let (rest, f, h₂) = >>=-eq-ok (checked_prevouts lib psbt r (suc index) n) _ h₁ in
      ap length (sym (ok-injective h₂))
      ∙ ap suc (checked_prevouts-length psbt r (suc index) n rest f)

  validate_psbt_structure-count :
      (p : Request lib) {u : Unit {0}}
      → validate_psbt_structure (view p) ≡ ok u
      → length p.inputs ≡ length p.unsigned_tx.input
  unfolding validate_psbt_structure
  validate_psbt_structure-count p h =
      let same = length (view p).inputs == length p.unsigned_tx.input in
      let outputs = p.output_count == length p.unsigned_tx.output in
      let (_, e, _) = >>=-eq-ok (guard (same && outputs) to_sign_invalid) _ h in
      let (f, _) = (and-eq-true same outputs).0 (guard-eq-ok _ _ e) in
      sym (length-map p.inputs (λ (i : Input lib). i.base)) ∙ (==_iff _ _).0 f

  -- If the library has the signature hashes of every input that a transaction has (the legacy and the
  -- P2WSH one of any script, the P2WPKH one of the script of a key, and the Taproot one over a
  -- previous output for each input, of type ALL or DEFAULT), signing an input of any request, at any
  -- index and with any key, does not panic.
  pub sign_bip322_psbt_input-IsSafe :
      (p : Request lib) (key : PrivateKey) (index : ℕ)
      → HashesInputs
      → sign_bip322_psbt_input lib p key index ≢ err panic
  unfolding sign_bip322_psbt_input
  sign_bip322_psbt_input-IsSafe p key index hashes =
      bind-IsSafe (ok_or (detect_bip322_psbt lib (view p)) ordinary_psbt) _
        (ok_or-IsSafe _ (λ h. cc))
        (λ detected _.
          bind-IsSafe (validate_psbt_structure (view p)) _ (validate_psbt_structure-IsSafe (view p))
            (λ _ v.
              bind-IsSafe (guard (ltb index (length p.unsigned_tx.input)) to_sign_invalid) _
                (guard-IsSafe _ (λ h. cc))
                (λ _ b. bind-IsSafe (new lib (view p)) _ (new-IsSafe lib (view p)) (λ r _.
                  bind-IsSafe (checked_prevouts lib (view p) r 0 (length p.inputs)) _
                    (checked_prevouts-IsSafe lib (view p) r 0 (length p.inputs))
                    (λ prevouts c.
                      let count = validate_psbt_structure-count p v in
                      let inside = ltb→lt _ _ (guard-eq-ok _ _ b) in
                      let long =
                        checked_prevouts-length (view p) r 0 (length p.inputs) prevouts c in
                      bind-IsSafe (ok_or (get_elem? prevouts index) panic) _
                        (ok_or_some-IsSafe _ _ (get_elem?-in prevouts index (omega arith)))
                        (λ prevout _.
                          bind-IsSafe (ok_or (get_elem? p.inputs index) panic) _
                            (ok_or_some-IsSafe _ _ (get_elem?-in p.inputs index (omega arith)))
                            (λ i _.
                              bind-IsSafe
                                (signed_input lib p.unsigned_tx key index prevouts prevout
                                  (challenge_at lib index detected prevout) i)
                                _
                                (signed_input-IsSafe p.unsigned_tx key index prevouts prevout _ i
                                  (hashes p.unsigned_tx index inside) (long ∙ count))
                                (λ _ _. ok-IsSafe _))))))))
