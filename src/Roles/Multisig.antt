-- ===== src/Roles/Multisig.antt =====
-- psbt/finalizer.rs and verify/templates.rs: the partial signatures that the finalizer collects are
-- in the order that CHECKMULTISIG wants.
use bip.Base.{
  ℕ, zero, suc, ◌≡◌, refl, ==_iff, not, ◌&&◌, true, some, inl, inr, List, [], ◌∷◌, Bytes, length,
  ◌==◌, Option-cases, Bool, ltb, Option, sym, All,
}
use mathlib.Core.List.{Memᴰ}
use bip.Error.{
  ok, guard, guard-eq-ok, ok_or, ok-injective, >>=-eq-ok, signature_count, invalid_witness,
  sig_hash_type_unsupported,
}
use bip.Bitcoin.Data.{Script, EcdsaSighashType, max_script_element_size}
use bip.Bitcoin.Api.{Api}
use bip.Script.Defs.{parse_multisig}
use bip.Templates.Defs.{verify_checkmultisig, ecdsa_type_number}
use bip.Templates.Matching.{Signs, Assignable, weaken}
use bip.Templates.Multisig.{bound, checkmultisig_from}
use bip.Roles.Helpers.{Input, commits_to, require_multisig_challenge, declared_ecdsa_sighash}
use bip.Roles.Signer.{multisig_script}
use bip.Roles.Reveals.{Reveals, with_signatures-Reveals}
use bip.Roles.Finalizer.{
  partial_get, collect_signatures, with_signatures, other_type, finalize_multisig,
}

module _ (lib : Api) where
  open lib use {PublicKey, EcdsaSignature, ecdsa_to_vec}

  -- The partial signature of a key is one by the key.
  abbrev pub ValidFor : Bytes → List (PublicKey × (EcdsaSignature × EcdsaSighashType)) → Type 0
  ValidFor sighash sigs =
      (k : PublicKey) (s : EcdsaSignature) (t : EcdsaSighashType)
      → partial_get lib k sigs ≡ some (s, t)
      → Signs lib sighash (ecdsa_to_vec s t) (record { key = k })

  collect_signatures-Assignable :
      (sighash : Bytes) (n : ℕ) (ks : List PublicKey)
      (sigs : List (PublicKey × (EcdsaSignature × EcdsaSighashType)))
      → ValidFor sighash sigs
      → Assignable lib sighash (collect_signatures lib n ks sigs) (bound lib ks)
  unfolding collect_signatures
  collect_signatures-Assignable sighash zero ks sigs v = tt
  collect_signatures-Assignable sighash (suc n) [] sigs v = tt
  collect_signatures-Assignable sighash (suc n) (k ∷ ks) sigs v =
      elim (Option-cases (partial_get lib k sigs)) [
        | inl e ↦
            rw (collect_signatures, e)
              (weaken lib sighash (collect_signatures lib (suc n) ks sigs) (record { key = k })
                (bound lib ks) (collect_signatures-Assignable sighash (suc n) ks sigs v))
        | inr ((s, t), e) ↦
            rw (collect_signatures, e)
              (inl (v k s t e, collect_signatures-Assignable sighash n ks sigs v))
      ]

  require_multisig_challenge-ok :
      (script challenge : Script) (is_witness : Bool) (redeem_script : Option Script) {u : Unit {0}}
      → require_multisig_challenge lib script challenge is_witness redeem_script ≡ ok u
      → commits_to lib script challenge is_witness redeem_script ≡ true
  unfolding require_multisig_challenge
  require_multisig_challenge-ok script challenge is_witness redeem_script h =
      let (_, _, e) =
        >>=-eq-ok
          (guard (not (not is_witness && ltb max_script_element_size (length script)))
            invalid_witness)
          _ h in
      guard-eq-ok _ _ e

  -- A multisig input that is finalized: its script, the script's numbers and keys, and the result.
  abbrev pub Gathered : Input lib → Input lib → Script → Script → Bool → ℕ → List PublicKey → Type 0
  Gathered input out challenge script is_witness required pubkeys =
      let made = collect_signatures lib required pubkeys input.partial_sigs in
      (commits_to lib script challenge is_witness input.base.redeem_script ≡ true)
      × (parse_multisig lib script ≡ ok (required, pubkeys))
      × (length made ≡ required)
      × (out ≡ with_signatures lib input script is_witness made)

  pub finalize_multisig-Gathered :
      (input out : Input lib) (challenge : Script)
      → finalize_multisig lib input challenge ≡ ok out
      → (script : Script) × (is_witness : Bool) × (required : ℕ) × (pubkeys : List PublicKey)
        × Gathered input out challenge script is_witness required pubkeys
  unfolding finalize_multisig
  finalize_multisig-Gathered input out challenge h =
      let ((script, w), e, h₁) =
        >>=-eq-ok
          (ok_or (multisig_script input.base.witness_script input.base.redeem_script)
            invalid_witness)
          _ h in
      let (_, c, h₂) =
        >>=-eq-ok (require_multisig_challenge lib script challenge w input.base.redeem_script) _
          h₁ in
      let ((required, pubkeys), p, h₃) = >>=-eq-ok (parse_multisig lib script) _ h₂ in
      let (declared, d, h₄) = >>=-eq-ok (declared_ecdsa_sighash input) _ h₃ in
      let (_, _, h₅) =
        >>=-eq-ok
          (guard (not (other_type lib declared input.partial_sigs))
            (sig_hash_type_unsupported (ecdsa_type_number declared)))
          _ h₄ in
      let made = collect_signatures lib required pubkeys input.partial_sigs in
      let (_, l, h₆) =
        >>=-eq-ok (guard (length made == required) (signature_count required (length made))) _ h₅ in
      (
        script,
        w,
        required,
        pubkeys,
        (
          require_multisig_challenge-ok script challenge w _ c,
          p,
          (==_iff _ _).0 (guard-eq-ok _ _ l),
          sym (ok-injective h₆),
        ),
      )

  -- A partial signature of one of the keys, encoded.
  abbrev pub IsCollected :
      List PublicKey → List (PublicKey × (EcdsaSignature × EcdsaSighashType)) → Bytes → Type 0
  IsCollected ks sigs signature =
      (k : PublicKey) × (s : EcdsaSignature) × (t : EcdsaSighashType) × Memᴰ k ks
      × (partial_get lib k sigs ≡ some (s, t))
      × (signature ≡ ecdsa_to_vec s t)

  IsCollected-tail :
      (k : PublicKey) (ks : List PublicKey)
      (sigs : List (PublicKey × (EcdsaSignature × EcdsaSighashType))) (signatures : List Bytes)
      → All (IsCollected ks sigs) signatures
      → All (IsCollected (k ∷ ks) sigs) signatures
  IsCollected-tail k ks sigs [] h = tt
  IsCollected-tail k ks sigs (s ∷ ss) ((j, r, t, m, p, e), h) =
      ((j, r, t, Memᴰ.tail m, p, e), IsCollected-tail k ks sigs ss h)

  collect_signatures-IsCollected :
      (n : ℕ) (ks : List PublicKey) (sigs : List (PublicKey × (EcdsaSignature × EcdsaSighashType)))
      → All (IsCollected ks sigs) (collect_signatures lib n ks sigs)
  unfolding collect_signatures
  collect_signatures-IsCollected zero ks sigs = tt
  collect_signatures-IsCollected (suc n) [] sigs = tt
  collect_signatures-IsCollected (suc n) (k ∷ ks) sigs =
      elim (Option-cases (partial_get lib k sigs)) [
        | inl e ↦
            rw (collect_signatures, e)
              (IsCollected-tail k ks sigs _ (collect_signatures-IsCollected (suc n) ks sigs))
        | inr ((s, t), e) ↦
            rw (collect_signatures, e)
              (
                (k, s, t, Memᴰ.head refl, e, refl),
                IsCollected-tail k ks sigs _ (collect_signatures-IsCollected n ks sigs),
              )
      ]

  -- If the partial signature of each key is one of the digest by that key, a multisig input that is
  -- finalized has a script that the challenge commits to, directly or by the redeem script, and that
  -- parses as a number and keys. Its final fields hold an empty item, signatures and that script: in
  -- the witness, with the redeem script pushed in the scriptSig if there is one, or in the scriptSig
  -- alone. Each signature is the partial one of a key of the script, and the empty item and the
  -- signatures pass the verifier's check of CHECKMULTISIG with the script's number and keys.
  pub finalize_multisig-checkmultisig :
      (input out : Input lib) (challenge : Script) (sighash : Bytes)
      → ValidFor sighash input.partial_sigs
      → finalize_multisig lib input challenge ≡ ok out
      → (script : Script) × (is_witness : Bool) × (required : ℕ) × (pubkeys : List PublicKey)
        × (signatures : List Bytes) × (commits_to lib script challenge is_witness
              input.base.redeem_script
            ≡ true)
        × (parse_multisig lib script ≡ ok (required, pubkeys))
        × Reveals lib out script is_witness input.base.redeem_script signatures
        × All (IsCollected pubkeys input.partial_sigs) signatures
        × (verify_checkmultisig lib ([] ∷ signatures) required (bound lib pubkeys) (ok sighash)
            ≡ ok tt)
  finalize_multisig-checkmultisig input out challenge sighash v h =
      let (script, w, required, pubkeys, (c, p, l, e)) =
        finalize_multisig-Gathered input out challenge h in
      let made = collect_signatures lib required pubkeys input.partial_sigs in
      let assigned = collect_signatures-Assignable sighash required pubkeys input.partial_sigs v in
      (
        script,
        w,
        required,
        pubkeys,
        made,
        c,
        p,
        rw e (with_signatures-Reveals lib input script w made),
        collect_signatures-IsCollected required pubkeys input.partial_sigs,
        checkmultisig_from lib ([] ∷ made) required (bound lib pubkeys) (ok sighash) sighash refl
            (made, refl, l, assigned),
      )
