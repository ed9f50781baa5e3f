-- ===== src/Templates/Single.antt =====
-- verify/templates.rs: the encoding of signatures, and the template with one.
use bip.Base.{
  ℕ, ◌≡◌, ◌↔◌, refl, sym, ap, ◌∙◌, true, some, [], ◌∷◌, ◌++◌, Bytes, get_elem?, last?, front,
  bytes_eq, bytes_eq-eq, bytes_eq_refl, inl, inr, Option-cases,
}
use bip.Error.{
  ok, >>=-eq-ok, guard, guard-eq-ok, ok_or, ok_or-eq-ok, invalid_witness, invalid_public_key,
  uncompressed_public_key, public_key_mismatch, to_sign_invalid, sig_hash_type_non_standard,
  signature_invalid,
}
use bip.Bitcoin.Data.{EcdsaSighashType}
use bip.Bitcoin.Api.{Api}
use bip.Script.Defs.{require_low_s}
use bip.Bound.{BoundPublicKey, bound_p2wpkh, verifies}
use bip.Spend.Defs.{txin, prevout}
use bip.Templates.Defs.{
  LibSpend, require_sighash_all, parse_der, parse_ecdsa_signature, verify_ecdsa, verify_p2wpkh,
}

front-last : (xs : Bytes) (b : ℕ) → last? xs ≡ some b → xs ≡ front xs ++ (b ∷ [])
front-last [] b h = cc
front-last (x ∷ []) b h = cc
front-last (x ∷ y ∷ xs) b h = ap (λ r. x ∷ r) (front-last (y ∷ xs) b h)

last-append : (xs : Bytes) (b : ℕ) → last? (xs ++ (b ∷ [])) ≡ some b
last-append [] b = refl
last-append (x ∷ []) b = refl
last-append (x ∷ y ∷ xs) b = last-append (y ∷ xs) b

front-append : (xs : Bytes) (b : ℕ) → front (xs ++ (b ∷ [])) ≡ xs
front-append [] b = refl
front-append (x ∷ []) b = refl
front-append (x ∷ y ∷ xs) b = ap (λ r. x ∷ r) (front-append (y ∷ xs) b)

require_sighash_all-ok :
    (t : EcdsaSighashType) {u : Unit {0}} → require_sighash_all t ≡ ok u → t ≡ EcdsaSighashType.all
unfolding require_sighash_all
require_sighash_all-ok EcdsaSighashType.all h = refl
require_sighash_all-ok EcdsaSighashType.none h = cc
require_sighash_all-ok EcdsaSighashType.single h = cc
require_sighash_all-ok EcdsaSighashType.all_plus_anyone_can_pay h = cc
require_sighash_all-ok EcdsaSighashType.none_plus_anyone_can_pay h = cc
require_sighash_all-ok EcdsaSighashType.single_plus_anyone_can_pay h = cc

module _ (lib : Api) where
  open lib use {
    PublicKey, EcdsaSignature, ecdsa_sighash_from_standard, ecdsa_from_der, normalize_s, ecdsa_eq,
    public_key_from_slice, wpubkey_hash, p2wpkh_signature_hash, new_p2wpkh, verify_ecdsa_sig,
  }

  -- A low-S signature in DER in front of a byte for SIGHASH_ALL.
  abbrev pub EncodesAll : Bytes → EcdsaSignature → Type 0
  EncodesAll encoded signature =
      (der : Bytes) × (b : ℕ) × (encoded ≡ der ++ (b ∷ []))
      × (ecdsa_sighash_from_standard b ≡ some EcdsaSighashType.all)
      × (ecdsa_from_der der ≡ some signature)
      × (require_low_s lib signature ≡ ok tt)

  -- A signature parses exactly if it is DER in front of one byte that stands for SIGHASH_ALL, and
  -- has a low S.
  pub parse_ecdsa_signature_iff :
      (encoded : Bytes) (signature : EcdsaSignature)
      → (parse_ecdsa_signature lib encoded ≡ ok signature) ↔ EncodesAll encoded signature
  unfolding parse_ecdsa_signature parse_der
  parse_ecdsa_signature_iff encoded signature = (
    λ h. elim (Option-cases (last? encoded)) [
      | inl n ↦ cc (rw (parse_ecdsa_signature, n) at h)
      | inr (b, n) ↦
          let der = front encoded in
          let (t, e₁, h₁) =
            >>=-eq-ok (ok_or (ecdsa_sighash_from_standard b) sig_hash_type_non_standard) _
              (rw (parse_ecdsa_signature, n) at h) in
          let (_, e₂, h₂) = >>=-eq-ok (require_sighash_all t) _ h₁ in
          let (s, e₃, h₃) = >>=-eq-ok (ok_or (ecdsa_from_der der) signature_invalid) _ h₂ in
          let (_, e₄, h₄) = >>=-eq-ok (require_low_s lib s) _ h₃ in
          let same : s ≡ signature = cc in
          (
            der,
            b,
            front-last encoded b n,
            ok_or-eq-ok _ _ e₁ ∙ ap some (require_sighash_all-ok t e₂),
            ok_or-eq-ok _ _ e₃ ∙ ap some same,
            ap (require_low_s lib) (sym same) ∙ e₄,
          )
    ],
    λ (der, b, e, a, d, l).
        ap (parse_ecdsa_signature lib) e
        ∙ rw (
          parse_ecdsa_signature,
          last-append der b,
          front-append der b,
          a,
          require_sighash_all,
          d,
          l,
        ),
  )

  -- The two items of the witness are a signature and a compressed key of the hash, and the signature
  -- is one of the input's BIP-143 hash by the key.
  abbrev pub SignedByHash : LibSpend lib → Bytes → Type 0
  SignedByHash spend hash =
      (encoded : Bytes) × (bytes : Bytes) × (key : PublicKey) × (signature : EcdsaSignature)
      × (sighash : Bytes) × (get_elem? (txin spend).witness 0 ≡ some encoded)
      × (get_elem? (txin spend).witness 1 ≡ some bytes)
      × (public_key_from_slice bytes ≡ some key)
      × (wpubkey_hash key ≡ some hash)
      × EncodesAll encoded signature
      × (p2wpkh_signature_hash spend.to_sign spend.input_index (new_p2wpkh hash)
            (prevout spend).value EcdsaSighashType.all
          ≡ some sighash)
      × (verify_ecdsa_sig sighash signature key ≡ true)

  bound_p2wpkh_iff :
      (hash bytes : Bytes) (k : BoundPublicKey PublicKey)
      → (bound_p2wpkh lib hash bytes ≡ ok k)
        ↔ ((public_key_from_slice bytes ≡ some k.key) × (wpubkey_hash k.key ≡ some hash))
  unfolding bound_p2wpkh
  bound_p2wpkh_iff hash bytes k = (
    λ h.
        let (key, e₁, h₁) =
          >>=-eq-ok (ok_or (public_key_from_slice bytes) invalid_public_key) _ h in
        let (found, e₂, h₂) = >>=-eq-ok (ok_or (wpubkey_hash key) uncompressed_public_key) _ h₁ in
        let (_, e₃, h₃) = >>=-eq-ok (guard (bytes_eq found hash) public_key_mismatch) _ h₂ in
        let same : record { key = key } ≡ k = cc in
        let f = bytes_eq-eq found hash (guard-eq-ok _ _ e₃) in
        (
          ok_or-eq-ok _ _ e₁ ∙ ap (λ (x : BoundPublicKey PublicKey). some x.key) same,
          ap (λ (x : BoundPublicKey PublicKey). wpubkey_hash x.key) (sym same)
              ∙ ok_or-eq-ok _ _ e₂
              ∙ ap some f,
        ),
    λ (e, f). rw (e, f, bytes_eq_refl hash),
  )

  -- A P2WPKH input verifies exactly if its witness is a SIGHASH_ALL signature with a low S and a key
  -- that hashes to the program, and the signature is one of the input's hash by that key.
  pub verify_p2wpkh_iff :
      (spend : LibSpend lib) (hash : Bytes)
      → (verify_p2wpkh lib spend hash ≡ ok tt) ↔ SignedByHash spend hash
  unfolding verify_p2wpkh verify_ecdsa verifies
  verify_p2wpkh_iff spend hash = (
    λ h.
        let (encoded, e₁, h₁) =
          >>=-eq-ok (ok_or (get_elem? (txin spend).witness 0) invalid_witness) _ h in
        let (bytes, e₂, h₂) =
          >>=-eq-ok (ok_or (get_elem? (txin spend).witness 1) invalid_witness) _ h₁ in
        let (k, e₃, h₃) = >>=-eq-ok (bound_p2wpkh lib hash bytes) _ h₂ in
        let (s, e₄, h₄) = >>=-eq-ok (parse_ecdsa_signature lib encoded) _ h₃ in
        let (sighash, e₅, h₅) =
          >>=-eq-ok
            (ok_or
              (p2wpkh_signature_hash spend.to_sign spend.input_index (new_p2wpkh hash)
                (prevout spend).value EcdsaSighashType.all)
              to_sign_invalid)
            _ h₄ in
        let (a, b) = (bound_p2wpkh_iff hash bytes k).0 e₃ in
        (
          encoded,
          bytes,
          k.key,
          s,
          sighash,
          ok_or-eq-ok _ _ e₁,
          ok_or-eq-ok _ _ e₂,
          a,
          b,
          (parse_ecdsa_signature_iff encoded s).0 e₄,
          ok_or-eq-ok _ _ e₅,
          guard-eq-ok _ _ h₅,
        ),
    λ (encoded, bytes, key, s, sighash, e₁, e₂, a, b, p, e₅, v). rw (
      e₁,
      e₂,
      (bound_p2wpkh_iff hash bytes (record { key = key })).1 (a, b),
      (parse_ecdsa_signature_iff encoded s).1 p,
      e₅,
      v,
    ),
  )
