-- ===== src/Taproot/Signature.antt =====
-- verify/taproot.rs: the encodings of a Taproot signature.
use bip.Base.{
  ◌≡◌, ◌↔◌, ◌⊎◌, inl, inr, refl, sym, ap, ◌∙◌, arith, false, some, Bytes, length, take, ◌==◌,
  Bool-cases,
}
use bip.Error.{ok, >>=-eq-ok, ok_or, ok_or-eq-ok, signature_invalid, sig_hash_type_invalid}
use bip.Bitcoin.Data.{TapSighashType}
use bip.Bitcoin.Api.{Api}
use bip.Interpreter.Defs.{require_tap_all}
use bip.Taproot.Defs.{last_byte, split_signature, parse_taproot_signature}

-- The types that BIP-322 allows.
abbrev pub SignsAll : TapSighashType → Type 0
SignsAll t = (t ≡ TapSighashType.all) ⊎ (t ≡ TapSighashType.default)

require_tap_all-ok : (t : TapSighashType) {u : Unit {0}} → require_tap_all t ≡ ok u → SignsAll t
unfolding require_tap_all
require_tap_all-ok TapSighashType.all h = inl refl
require_tap_all-ok TapSighashType.default h = inr refl
require_tap_all-ok TapSighashType.none h = cc
require_tap_all-ok TapSighashType.single h = cc
require_tap_all-ok TapSighashType.all_plus_anyone_can_pay h = cc
require_tap_all-ok TapSighashType.none_plus_anyone_can_pay h = cc
require_tap_all-ok TapSighashType.single_plus_anyone_can_pay h = cc

SignsAll-ok : (t : TapSighashType) → SignsAll t → require_tap_all t ≡ ok tt
unfolding require_tap_all
SignsAll-ok t (inl e) = rw e
SignsAll-ok t (inr e) = rw e

module _ (lib : Api) where
  open lib use {SchnorrSignature, schnorr_from_slice, tap_sighash_from_consensus}

  -- 64 bytes of signature alone.
  abbrev pub Bare : Bytes → SchnorrSignature → TapSighashType → Type 0
  Bare encoded s t =
      (length encoded ≡ 64) × (schnorr_from_slice encoded ≡ some s) × (t ≡ TapSighashType.default)

  -- 64 bytes of signature and the byte of a type that is not zero.
  abbrev pub Typed : Bytes → SchnorrSignature → TapSighashType → Type 0
  Typed encoded s t =
      (length encoded ≡ 65)
      × ((last_byte encoded == 0) ≡ false)
      × (schnorr_from_slice (take 64 encoded) ≡ some s)
      × (tap_sighash_from_consensus (last_byte encoded) ≡ some t)

  split_signature-ok :
      (encoded : Bytes) (s : SchnorrSignature) (t : TapSighashType)
      → split_signature lib encoded ≡ ok (s, t)
      → Bare encoded s t ⊎ Typed encoded s t
  unfolding split_signature
  split_signature-ok encoded s t h = elim (Bool-cases (length encoded == 65)) [
    | inl l ↦ elim (Bool-cases (last_byte encoded == 0)) [
      | inl z ↦ cc (rw (l, z) at h)
      | inr z ↦
          let (s', e₁, h₁) =
            >>=-eq-ok (ok_or (schnorr_from_slice (take 64 encoded)) signature_invalid) _
              (rw (l, z) at h) in
          let (t', e₂, h₂) =
            >>=-eq-ok (ok_or (tap_sighash_from_consensus (last_byte encoded)) sig_hash_type_invalid)
              _ h₁ in
          let same : (s' ≡ s) × (t' ≡ t) = (cc, cc) in
          inr (
            ground arith,
            z,
            ok_or-eq-ok _ _ e₁ ∙ ap some same.0,
            ok_or-eq-ok _ _ e₂ ∙ ap some same.1,
          )
    ]
    | inr l ↦ elim (Bool-cases (length encoded == 64)) [
      | inl m ↦
          let (s', e₁, h₁) =
            >>=-eq-ok (ok_or (schnorr_from_slice encoded) signature_invalid) _ (rw (l, m) at h) in
          let same : (s' ≡ s) × (TapSighashType.default ≡ t) = (cc, cc) in
          inl (ground arith, ok_or-eq-ok _ _ e₁ ∙ ap some same.0, sym same.1)
      | inr m ↦ cc (rw (l, m) at h)
    ]
  ]

  ok-split_signature :
      (encoded : Bytes) (s : SchnorrSignature) (t : TapSighashType)
      → Bare encoded s t ⊎ Typed encoded s t
      → split_signature lib encoded ≡ ok (s, t)
  unfolding split_signature
  ok-split_signature encoded s t (inl (l, e, d)) = rw (l, e, d)
  ok-split_signature encoded s t (inr (l, z, e, d)) = rw (l, z, e, d)

  -- A Taproot signature parses exactly if it is 64 bytes, for the default type, or 65 bytes of which
  -- the last is not zero and stands for the type; and the type is the default or SIGHASH_ALL.
  pub parse_taproot_signature_iff :
      (encoded : Bytes) (s : SchnorrSignature) (t : TapSighashType)
      → (parse_taproot_signature lib encoded ≡ ok (s, t))
        ↔ ((Bare encoded s t ⊎ Typed encoded s t) × SignsAll t)
  unfolding parse_taproot_signature
  parse_taproot_signature_iff encoded s t = (
    λ h.
        let (p, e₁, h₁) = >>=-eq-ok (split_signature lib encoded) _ h in
        let (_, e₂, h₂) = >>=-eq-ok (require_tap_all p.1) _ h₁ in
        let same : p ≡ (s, t) = cc in
        (
          split_signature-ok encoded s t (e₁ ∙ ap ok same),
          require_tap_all-ok t
              (ap (λ (q : SchnorrSignature × TapSighashType). require_tap_all q.1) (sym same) ∙ e₂),
        ),
    λ (a, b). rw (ok-split_signature encoded s t a, SignsAll-ok t b),
  )
