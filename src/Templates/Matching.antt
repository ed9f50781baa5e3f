-- ===== src/Templates/Matching.antt =====
-- verify/templates.rs: the matching of signatures with the keys of a multisig script, in order.
use bip.Base.{
  ◌≡◌, ◌↔◌, refl, ap, ◌⊎◌, inl, inr, true, not, none, some, List, [], ◌∷◌, Bytes, is_empty,
  Bool-cases, Option-cases,
}
use bip.Error.{ok, guard, ok_or, ok_or-eq-ok, >>=-eq-ok, invalid_witness, signature_invalid}
use bip.Bitcoin.Api.{Api}
use bip.Bound.{BoundPublicKey, verifies}
use bip.Templates.Defs.{parse_ecdsa_signature, find_key, match_signatures}

module _ (lib : Api) where
  open lib use {PublicKey, EcdsaSignature}

  -- The encoded signature is one of the hash by the key.
  abbrev pub Signs : Bytes → Bytes → BoundPublicKey PublicKey → Type 0
  Signs sighash encoded k =
      (signature : EcdsaSignature) × (parse_ecdsa_signature lib encoded ≡ ok signature)
      × (verifies lib k sighash signature ≡ true)

  -- The signatures can be given different keys in the order of the keys.
  abbrev pub Assignable : Bytes → List Bytes → List (BoundPublicKey PublicKey) → Type 0
  Assignable sighash [] keys = Unit
  Assignable sighash (s ∷ ss) [] = ⊥
  Assignable sighash (s ∷ ss) (k ∷ ks) =
      (Signs sighash s k × Assignable sighash ss ks) ⊎ Assignable sighash (s ∷ ss) ks

  -- A key more in front does no harm.
  pub weaken :
      (h : Bytes) (ss : List Bytes) (k : BoundPublicKey PublicKey)
      (ks : List (BoundPublicKey PublicKey))
      → Assignable h ss ks
      → Assignable h ss (k ∷ ks)
  weaken h [] k ks a = tt
  weaken h (s ∷ ss) k ks a = inr a

  -- Nor does a signature less.
  rest :
      (h s : Bytes) (ss : List Bytes) (ks : List (BoundPublicKey PublicKey))
      → Assignable h (s ∷ ss) ks
      → Assignable h ss ks
  rest h s ss [] a = elim a [ ]
  rest h s ss (k ∷ ks) (inl (_, a)) = weaken h ss k ks a
  rest h s ss (k ∷ ks) (inr a) = weaken h ss k ks (rest h s ss ks a)

  -- The keys behind the first that verifies are enough for the other signatures.
  find_key-Assignable :
      (h s : Bytes) (signature : EcdsaSignature) (ss : List Bytes)
      (ks left : List (BoundPublicKey PublicKey))
      → parse_ecdsa_signature lib s ≡ ok signature
      → find_key lib h signature ks ≡ some left
      → Assignable h ss left ↔ Assignable h (s ∷ ss) ks
  unfolding find_key
  find_key-Assignable h s signature ss [] left p e = cc
  find_key-Assignable h s signature ss (k ∷ ks) left p e =
      elim (Bool-cases (verifies lib k h signature)) [
        | inl v ↦
            let g : ks ≡ left = cc (rw v at e) in
            (
              λ a. inl ((signature, p, v), rw g a),
              λ a. elim a [ inl (_, b) ↦ rw (← g) b | inr b ↦ rw (← g) (rest h s ss ks b) ],
            )
        | inr v ↦
            let (to, from) = find_key-Assignable h s signature ss ks left p (rw v at e) in
            (
              λ a. inr (to a),
              λ a. elim a [
                | inl ((t, q, w), b) ↦
                    let same : signature ≡ t = cc in cc (ap (verifies lib k h) same, v, w)
                | inr b ↦ from b
              ],
            )
      ]

  -- A signature that no key verifies.
  find_key-none :
      (h s : Bytes) (signature : EcdsaSignature) (ss : List Bytes)
      (ks : List (BoundPublicKey PublicKey))
      → parse_ecdsa_signature lib s ≡ ok signature
      → find_key lib h signature ks ≡ none
      → Assignable h (s ∷ ss) ks
      → ⊥
  unfolding find_key
  find_key-none h s signature ss [] p e a = a
  find_key-none h s signature ss (k ∷ ks) p e a = elim (Bool-cases (verifies lib k h signature)) [
    | inl v ↦ cc (rw v at e)
    | inr v ↦ elim a [
      | inl ((t, q, w), b) ↦ let same : signature ≡ t = cc in cc (ap (verifies lib k h) same, v, w)
      | inr b ↦ find_key-none h s signature ss ks p (rw v at e) b
    ]
  ]

  -- The first signature of an assignment parses, and is not empty.
  Assignable_parses :
      (h s : Bytes) (ss : List Bytes) (ks : List (BoundPublicKey PublicKey))
      → Assignable h (s ∷ ss) ks
      → (signature : EcdsaSignature) × (parse_ecdsa_signature lib s ≡ ok signature)
  Assignable_parses h s ss [] a = elim a [ ]
  Assignable_parses h s ss (k ∷ ks) (inl ((t, p, _), _)) = (t, p)
  Assignable_parses h s ss (k ∷ ks) (inr a) = Assignable_parses h s ss ks a

  parse_ecdsa_signature_full :
      (s : Bytes) (signature : EcdsaSignature)
      → parse_ecdsa_signature lib s ≡ ok signature
      → not (is_empty s) ≡ true
  unfolding parse_ecdsa_signature
  parse_ecdsa_signature_full [] signature p = cc
  parse_ecdsa_signature_full (b ∷ bs) signature p = refl

  -- The loop over the signatures, which gives each the first key left that verifies it, succeeds
  -- exactly if the signatures can be given different keys in the order of the keys, each signature
  -- parsing and being one of the hash by its key.
  pub match_signatures_iff :
      (h : Bytes) (ss : List Bytes) (ks : List (BoundPublicKey PublicKey))
      → (match_signatures lib h ss ks ≡ ok tt) ↔ Assignable h ss ks
  unfolding match_signatures
  match_signatures_iff h [] ks = (λ _. tt, λ _. refl)
  match_signatures_iff h (s ∷ ss) ks = (
    λ e.
        let (_, _, e₁) = >>=-eq-ok (guard (not (is_empty s)) invalid_witness) _ e in
        let (t, p, e₂) = >>=-eq-ok (parse_ecdsa_signature lib s) _ e₁ in
        let (left, f, e₃) = >>=-eq-ok (ok_or (find_key lib h t ks) signature_invalid) _ e₂ in
        (find_key-Assignable h s t ss ks left p (ok_or-eq-ok _ _ f)).0
          ((match_signatures_iff h ss left).0 e₃),
    λ a.
        let (t, p) = Assignable_parses h s ss ks a in
        elim (Option-cases (find_key lib h t ks)) [
          | inl f ↦ absurd (find_key-none h s t ss ks p f a)
          | inr (left, f) ↦
              rw (parse_ecdsa_signature_full s t p, p, f)
                ((match_signatures_iff h ss left).1
                  ((find_key-Assignable h s t ss ks left p f).1 a))
        ],
  )
