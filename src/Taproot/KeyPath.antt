-- ===== src/Taproot/KeyPath.antt =====
-- verify/taproot.rs: key-path spends of Taproot outputs.
use bip.Base.{◌≡◌, ◌↔◌, refl, Option, none, some, Bytes, true}
use bip.Error.{ok, >>=-eq-ok, ok_or, ok_or-eq-ok, guard-eq-ok, to_sign_invalid}
use bip.Bitcoin.Data.{TapSighashType}
use bip.Bitcoin.Api.{Api}
use bip.Spend.Defs.{key}
use bip.Templates.Defs.{LibSpend, valid}
use bip.Taproot.Defs.{annex_arg, leaf_arg, parse_taproot_signature, verify_schnorr, verify_p2tr}

module _ (lib : Api) where
  open lib use {XOnlyPublicKey, SchnorrSignature, taproot_signature_hash, verify_schnorr_sig}

  -- The encoded signature parses, and is one of the input's BIP-341 hash by the key, over the leaf if
  -- there is one and without an annex.
  abbrev pub SignedBy : LibSpend lib → Option Bytes → Bytes → XOnlyPublicKey → Type 0
  SignedBy spend leaf_hash encoded k =
      (signature : SchnorrSignature) × (t : TapSighashType) × (sighash : Bytes)
      × (parse_taproot_signature lib encoded ≡ ok (signature, t))
      × (taproot_signature_hash spend.to_sign spend.input_index spend.prevouts none
            (leaf_arg lib leaf_hash) t
          ≡ some sighash)
      × (verify_schnorr_sig signature sighash k ≡ true)

  verify_schnorr_iff :
      (spend : LibSpend lib) (leaf_hash : Option Bytes) (encoded : Bytes) (k : XOnlyPublicKey)
      → (verify_schnorr lib spend none leaf_hash encoded k ≡ ok tt)
        ↔ SignedBy spend leaf_hash encoded k
  unfolding verify_schnorr annex_arg
  verify_schnorr_iff spend leaf_hash encoded k = (
    λ h.
        let (p, e₁, h₁) = >>=-eq-ok (parse_taproot_signature lib encoded) _ h in
        let (sighash, e₂, h₂) =
          >>=-eq-ok
            (ok_or
              (taproot_signature_hash spend.to_sign spend.input_index spend.prevouts none
                (leaf_arg lib leaf_hash) p.1)
              to_sign_invalid)
            _ h₁ in
        (p.0, p.1, sighash, e₁, ok_or-eq-ok _ _ e₂, guard-eq-ok _ _ h₂),
    λ (s, t, sighash, e₁, e₂, v). rw (e₁, e₂, v),
  )

  -- A key-path spend is valid exactly if it has no annex and its signature parses and is one of the
  -- input's hash by the output key.
  pub verify_p2tr_key :
      (spend : LibSpend lib) (output_key : XOnlyPublicKey) (annex : Option Bytes) (encoded : Bytes)
      → (verify_p2tr lib spend output_key annex (key encoded) ≡ ok (some valid))
        ↔ ((annex ≡ none) × SignedBy spend none encoded output_key)
  unfolding verify_p2tr
  verify_p2tr_key spend output_key none encoded =
      let (to, from) = verify_schnorr_iff spend none encoded output_key in
      (
        λ h.
            let (_, e, f) = >>=-eq-ok (verify_schnorr lib spend none none encoded output_key) _ h in
            (refl, to e),
        λ (_, s). rw (from s),
      )
  verify_p2tr_key spend output_key (some a) encoded = (
    λ h.
        let (_, e, f) = >>=-eq-ok (verify_schnorr lib spend (some a) none encoded output_key) _ h in
        cc,
    λ (e, s). cc,
  )
