-- ===== src/Templates/Multisig.antt =====
-- verify/templates.rs: CHECKMULTISIG spends.
use bip.Base.{
  ℕ, suc, ◌+◌, ◌-◌, ◌≡◌, ◌↔◌, refl, sym, ap, ◌∙◌, arith, true, ◌&&◌, some, List, [], ◌∷◌, Bytes,
  length, take, map, ◌==◌, and-eq-true, inl, inr, Option-cases,
}
use bip.Error.{
  Result, ok, >>=-eq-ok, guard, guard-eq-ok, ok_or, ok_or-eq-ok, invalid_witness, to_sign_invalid,
  Result-cases,
}
use bip.Bitcoin.Data.{EcdsaSighashType}
use bip.Bitcoin.Api.{Api}
use bip.Script.Defs.{parse_multisig}
use bip.Script.Multisig.{IsMultisig, parse_multisig_iff}
use bip.Bound.{CommittedScript, BoundPublicKey, bind_keys, multisig}
use bip.Spend.Defs.{txin, prevout}
use bip.Templates.Defs.{LibSpend, valid, null_dummy, verify_checkmultisig, verify_p2wsh_multisig}
use bip.Templates.Matching.{Assignable, match_signatures_iff}

module _ (lib : Api) where
  open lib use {PublicKey, p2wsh_signature_hash}

  -- The stack is an empty item below as many signatures as required, which can be given different
  -- keys in order, over the hash.
  abbrev pub Satisfies : List Bytes → ℕ → List (BoundPublicKey PublicKey) → Bytes → Type 0
  Satisfies stack required keys h =
      (signatures : List Bytes) × (stack ≡ [] ∷ signatures)
      × (length signatures ≡ required)
      × Assignable lib h signatures keys

  checkmultisig_to :
      (stack : List Bytes) (required : ℕ) (keys : List (BoundPublicKey PublicKey))
      (r : Result Bytes)
      → verify_checkmultisig lib stack required keys r ≡ ok tt
      → (h : Bytes) × (r ≡ ok h) × Satisfies stack required keys h
  unfolding verify_checkmultisig
  checkmultisig_to [] required keys r e =
      let (_, g, _) =
        >>=-eq-ok (guard (0 == required + 1 && null_dummy lib []) invalid_witness) _ e in
      let (_, b) = (and-eq-true (0 == required + 1) (null_dummy lib [])).0 (guard-eq-ok _ _ g) in cc
  checkmultisig_to ((b ∷ bs) ∷ ss) required keys r e =
      let n = suc (length ss) == required + 1 in
      let (_, g, _) = >>=-eq-ok (guard (n && null_dummy lib ((b ∷ bs) ∷ ss)) invalid_witness) _ e in
      let (_, c) = (and-eq-true n (null_dummy lib ((b ∷ bs) ∷ ss))).0 (guard-eq-ok _ _ g) in cc
  checkmultisig_to ([] ∷ ss) required keys r e =
      let n = suc (length ss) == required + 1 in
      let (_, g, e₁) = >>=-eq-ok (guard (n && null_dummy lib ([] ∷ ss)) invalid_witness) _ e in
      let (c, _) = (and-eq-true n (null_dummy lib ([] ∷ ss))).0 (guard-eq-ok _ _ g) in
      let (h, f, e₂) = >>=-eq-ok r _ e₁ in
      (h, f, (ss, refl, ground arith, (match_signatures_iff lib h ss keys).0 e₂))

  pub checkmultisig_from :
      (stack : List Bytes) (required : ℕ) (keys : List (BoundPublicKey PublicKey))
      (r : Result Bytes) (h : Bytes)
      → r ≡ ok h
      → Satisfies stack required keys h
      → verify_checkmultisig lib stack required keys r ≡ ok tt
  unfolding verify_checkmultisig
  checkmultisig_from stack required keys r h f (ss, e, l, a) =
      let c : (suc (length ss) == required + 1 && true) ≡ true = ground arith in
      rw (e, f, c, (match_signatures_iff lib h ss keys).1 a)

  -- The keys as `multisig` binds them.
  abbrev pub bound : List PublicKey → List (BoundPublicKey PublicKey)
  bound keys = map (λ k. record { key = k }) keys

  multisig_iff :
      (s : CommittedScript) (m : ℕ) (ks : List (BoundPublicKey PublicKey))
      → (multisig lib s ≡ some (m, ks))
        ↔ ((keys : List PublicKey) × (ks ≡ bound keys) × IsMultisig lib s.script m keys)
  unfolding multisig bind_keys
  multisig_iff s m ks = (
    λ h. elim (Result-cases (parse_multisig lib s.script)) [
      | inl ((n, keys), e) ↦
          let same : (n ≡ m) × (bound keys ≡ ks) = (cc (rw e at h), cc (rw e at h)) in
          (
            keys,
            sym same.1,
            (parse_multisig_iff lib s.script m keys).0 (e ∙ ap (λ (x : ℕ). ok (x, keys)) same.0),
          )
      | inr (x, e) ↦ cc (rw e at h)
    ],
    λ (keys, e, i). rw ((parse_multisig_iff lib s.script m keys).1 i, e),
  )

  -- A P2WSH spend is found valid as CHECKMULTISIG exactly if its witness script is
  -- `m <keys> n CHECKMULTISIG` and the items below the script are an empty one and m signatures that
  -- can be given different keys in order over the input's BIP-143 hash.
  pub verify_p2wsh_multisig_iff :
      (spend : LibSpend lib) (s : CommittedScript)
      → (verify_p2wsh_multisig lib spend s ≡ ok (some valid)) ↔ (
          (m : ℕ) × (keys : List PublicKey) × (h : Bytes) × IsMultisig lib s.script m keys
          × (p2wsh_signature_hash spend.to_sign spend.input_index s.script
                (prevout spend).value
                EcdsaSighashType.all
              ≡ some h)
          × Satisfies
              (take (length (txin spend).witness - 1) (txin spend).witness)
              m
              (bound keys)
              h)
  unfolding verify_p2wsh_multisig
  verify_p2wsh_multisig_iff spend s =
      let stack = take (length (txin spend).witness - 1) (txin spend).witness in
      let hash =
        p2wsh_signature_hash spend.to_sign spend.input_index s.script (prevout spend).value
          EcdsaSighashType.all in
      (
        λ h. elim (Option-cases (multisig lib s)) [
          | inl n ↦ cc (rw (verify_p2wsh_multisig, n) at h)
          | inr ((m, ks), n) ↦
              let (keys, b, i) = (multisig_iff s m ks).0 n in
              let (_, e, _) =
                >>=-eq-ok (verify_checkmultisig lib stack m ks (ok_or hash to_sign_invalid)) _
                  (rw (verify_p2wsh_multisig, n) at h) in
              let (g, f, (ss, p, l, a)) = checkmultisig_to stack m ks _ e in
              (m, keys, g, i, ok_or-eq-ok _ _ f, (ss, p, l, rw (← b) a))
        ],
        λ (m, keys, g, i, f, a). rw (
          verify_p2wsh_multisig,
          (multisig_iff s m (bound keys)).1 (keys, refl, i),
          f,
          checkmultisig_from stack m (bound keys) (ok g) g refl a,
        ),
      )
