-- ===== src/Sign/Multisig.antt =====
-- script.rs and verify/templates.rs: the signatures of a multisig script are in the order that
-- CHECKMULTISIG wants.
use bip.Base.{
  ℕ, ◌≡◌, refl, ==_iff, not, ◌&&◌, true, some, inl, inr, List, [], ◌∷◌, Bytes, map, length, ◌==◌,
  Bool-cases, Option-cases, and-eq-true,
}
use bip.Error.{ok, guard, guard-eq-ok, >>=-eq-ok, signature_count, duplicate_signer, unknown_signer}
use bip.Bitcoin.Data.{Script}
use bip.Bitcoin.Api.{Api}
use bip.Script.Defs.{parse_multisig}
use bip.Script.Ordered.{
  Signer, any_duplicate, find_signer, sign_ordered, unused, ordered_multisig_signatures,
}
use bip.Sign.Input.{signed_all}
use bip.Templates.Defs.{verify_checkmultisig}
use bip.Templates.Matching.{Signs, Assignable, weaken}
use bip.Templates.Multisig.{bound, checkmultisig_from}

module _ (lib : Api) where
  open lib use {PrivateKey, PublicKey, public_key, inner_eq}

  -- What a private key signs is a signature by every equal public key.
  abbrev pub SignsFor : Bytes → Type 0
  SignsFor sighash =
      (p : PrivateKey) (k : PublicKey)
      → inner_eq (public_key p) k ≡ true
      → Signs lib sighash (signed_all lib sighash p) (record { key = k })

  find_signer-eq :
      (k : PublicKey) (ss left : List (Signer lib)) (p : PrivateKey)
      → find_signer lib k ss ≡ some (p, left)
      → inner_eq (public_key p) k ≡ true
  unfolding find_signer
  find_signer-eq k [] left p e = cc
  find_signer-eq k ((q, used) ∷ ss) left p e =
      let equal = inner_eq (public_key q) k in
      elim (Bool-cases (not used && equal)) [
        | inl b ↦
            let same : q ≡ p = cc (rw (find_signer, b) at e) in
            rw (← same) ((and-eq-true (not used) equal).0 b).1
        | inr b ↦ elim (Option-cases (find_signer lib k ss)) [
          | inl n ↦ cc (rw (find_signer, b, n) at e)
          | inr ((r, rest), f) ↦
              let g = rw (find_signer, b, f) at e in
              let same : r ≡ p = cc in rw (← same) (find_signer-eq k ss rest r f)
        ]
      ]

  sign_ordered-Assignable :
      (sighash : Bytes) (ks : List PublicKey) (ss : List (Signer lib))
      → SignsFor sighash
      → Assignable lib sighash (sign_ordered lib sighash ks ss) (bound lib ks)
  unfolding sign_ordered
  sign_ordered-Assignable sighash [] ss s = tt
  sign_ordered-Assignable sighash (k ∷ ks) ss s = elim (Option-cases (find_signer lib k ss)) [
    | inl n ↦
        rw (sign_ordered, n)
          (weaken lib sighash (sign_ordered lib sighash ks ss) (record { key = k }) (bound lib ks)
            (sign_ordered-Assignable sighash ks ss s))
    | inr ((p, left), f) ↦
        rw (sign_ordered, f)
          (inl (s p k (find_signer-eq k ss left p f), sign_ordered-Assignable sighash ks left s))
  ]

  -- The signatures that `ordered_multisig_signatures` makes for a script, which takes as many
  -- private keys as the script requires, pass the check of CHECKMULTISIG behind the empty item, if
  -- what a private key signs is a signature by its public key.
  pub ordered_multisig_signatures-checkmultisig :
      (script : Script) (private_keys : List PrivateKey) (sighash : Bytes) (signatures : List Bytes)
      → SignsFor sighash
      → ordered_multisig_signatures lib script private_keys sighash ≡ ok signatures
      → (required : ℕ) × (pubkeys : List PublicKey) × (parse_multisig lib script
          ≡ ok (required, pubkeys))
        × (length private_keys ≡ required)
        × (verify_checkmultisig lib ([] ∷ signatures) required (bound lib pubkeys) (ok sighash)
            ≡ ok tt)
  unfolding ordered_multisig_signatures
  ordered_multisig_signatures-checkmultisig script private_keys sighash signatures s h =
      let ((required, pubkeys), e, h₁) = >>=-eq-ok (parse_multisig lib script) _ h in
      let made = sign_ordered lib sighash pubkeys (unused lib private_keys) in
      let (_, c, h₂) =
        >>=-eq-ok
          (guard (length private_keys == required) (signature_count required (length private_keys)))
          _ h₁ in
      let (_, _, h₃) =
        >>=-eq-ok
          (guard (not (any_duplicate lib [] (map public_key private_keys))) duplicate_signer) _
          h₂ in
      let (_, l, h₄) = >>=-eq-ok (guard (length made == required) unknown_signer) _ h₃ in
      let same : made ≡ signatures = cc in
      let assigned = sign_ordered-Assignable sighash pubkeys (unused lib private_keys) s in
      (
        required,
        pubkeys,
        e,
        (==_iff _ _).0 (guard-eq-ok _ _ c),
        checkmultisig_from lib ([] ∷ signatures) required (bound lib pubkeys) (ok sighash) sighash
            refl
            (
              signatures,
              refl,
              rw (← same) ((==_iff _ _).0 (guard-eq-ok _ _ l)),
              rw (← same) assigned,
            ),
      )
