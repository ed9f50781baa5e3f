-- ===== src/Roles/Final.antt =====
-- psbt/finalizer.rs: what a finalized request is.
use bip.Base.{
  ℕ, zero, suc, ◌≡◌, ◌⊎◌, ◌≢◌, refl, sym, ap, ◌∙◌, inl, inr, not, ◌||◌, true, false, none, some,
  Option, List, [], ◌∷◌, length, Bytes, map, bytes_eq, Bool, Bool-cases, Option-cases, All, ◌==◌,
  arith,
}
use bip.Error.{
  ok, >>=-eq-ok, ok-injective, guard, ok_or, ordinary_psbt, to_sign_invalid, public_key_mismatch,
}
use bip.Limits.{check_input_count}
use bip.Bitcoin.Data.{RawKey, Script, TapSighashType, Witness}
use bip.Bitcoin.Api.{Api}
use bip.Outpoints.Defs.{validate_psbt_structure}
use bip.Prevouts.Defs.{PrevoutResolver, new, checked_psbt_input_prevout}
use bip.Roles.Detect.{detect_bip322_psbt}
use bip.Roles.Detected.{utxos, all_utxos}
use bip.Roles.Helpers.{Input, Request, view, validate_final_taproot_sighash, single_partial_sig}
use bip.Roles.Finalizer.{
  clear_non_final_fields, with_final, finalize_taproot, finalize_nested, finalize_p2wpkh,
  finalize_p2pkh, finalize_challenge, finalize_redeem, finalize_input, finalize_inputs,
  challenges_from, finalized, with_signatures, nested_script, p2wpkh_script, p2pkh_script,
}
use bip.Roles.Multisig.{finalize_multisig-Gathered}
use bip.Roles.Steps.{Kept, Kept-detect_bip322_psbt, bases}

module _ (lib : Api) where
  open lib use {SchnorrSignature, is_p2tr, is_p2wpkh, is_p2pkh}

  -- An input map with final fields, of which there is one, and UTXO fields, and no others but the
  -- proprietary and unknown ones.
  abbrev pub IsFinal : Input lib → Type 0
  IsFinal i =
      ((i.base.final_script_sig ≢ none) ⊎ (i.base.final_script_witness ≢ none))
      × (i.base.redeem_script ≡ none)
      × (i.base.witness_script ≡ none)
      × (i.partial_sigs ≡ [])
      × (i.sighash_type ≡ none)
      × (i.tap_key_sig ≡ none)
      × (i.tap_internal_key ≡ none)
      × (i.tap_merkle_root ≡ none)
      × (i.hints ≡ [])

  -- The fields of an input map that the source has no use for.
  abbrev pub extras : Input lib → List (RawKey × Bytes) × List (RawKey × Bytes)
  extras i = (i.proprietary, i.unknown)

  -- What finalizing makes of an input map.
  abbrev Finalizes : Input lib → Input lib → Type 0
  Finalizes i out = IsFinal out × (utxos out.base ≡ utxos i.base) × (extras out ≡ extras i)

  with_witness-Finalizes :
      (i : Input lib) (script_sig : Option Script) (w : Witness)
      → Finalizes i (with_final lib i script_sig (some w))
  unfolding with_final clear_non_final_fields
  with_witness-Finalizes i script_sig w =
      ((inr (λ e. cc), refl, refl, refl, refl, refl, refl, refl, refl), refl, refl)

  with_script_sig-Finalizes :
      (i : Input lib) (script_sig : Script) (w : Option Witness)
      → Finalizes i (with_final lib i (some script_sig) w)
  unfolding with_final clear_non_final_fields
  with_script_sig-Finalizes i script_sig w =
      ((inl (λ e. cc), refl, refl, refl, refl, refl, refl, refl, refl), refl, refl)

  with_signatures-Finalizes :
      (i : Input lib) (script : Script) (is_witness : Bool) (signatures : List Bytes)
      → Finalizes i (with_signatures lib i script is_witness signatures)
  unfolding with_signatures
  with_signatures-Finalizes i script true signatures = with_witness-Finalizes i _ _
  with_signatures-Finalizes i script false signatures = with_script_sig-Finalizes i _ _

  -- The branches of `finalize_input`.
  finalize_taproot-Finalizes :
      (i out : Input lib) (challenge : Script) (s : SchnorrSignature) (t : TapSighashType)
      → finalize_taproot lib i challenge s t ≡ ok out
      → Finalizes i out
  unfolding finalize_taproot
  finalize_taproot-Finalizes i out challenge s t h =
      let (_, _, h₁) = >>=-eq-ok (guard (is_p2tr challenge) public_key_mismatch) _ h in
      let (_, _, h₂) = >>=-eq-ok (validate_final_taproot_sighash i t) _ h₁ in
      rw (← ok-injective h₂) (with_witness-Finalizes i _ _)

  finalize_nested-Finalizes :
      (i out : Input lib) (challenge redeem_script : Script)
      → finalize_nested lib i challenge redeem_script ≡ ok out
      → Finalizes i out
  unfolding finalize_nested
  finalize_nested-Finalizes i out challenge redeem_script h =
      let (_, _, h₁) =
        >>=-eq-ok (single_partial_sig lib i challenge (nested_script lib redeem_script)) _ h in
      rw (← ok-injective h₁) (with_witness-Finalizes i _ _)

  finalize_p2wpkh-Finalizes :
      (i out : Input lib) (challenge : Script)
      → finalize_p2wpkh lib i challenge ≡ ok out
      → Finalizes i out
  unfolding finalize_p2wpkh
  finalize_p2wpkh-Finalizes i out challenge h =
      let (_, _, h₁) = >>=-eq-ok (single_partial_sig lib i challenge (p2wpkh_script lib)) _ h in
      rw (← ok-injective h₁) (with_witness-Finalizes i _ _)

  finalize_p2pkh-Finalizes :
      (i out : Input lib) (challenge : Script)
      → finalize_p2pkh lib i challenge ≡ ok out
      → Finalizes i out
  unfolding finalize_p2pkh
  finalize_p2pkh-Finalizes i out challenge h =
      let (_, _, h₁) = >>=-eq-ok (single_partial_sig lib i challenge (p2pkh_script lib)) _ h in
      rw (← ok-injective h₁) (with_script_sig-Finalizes i _ _)

  finalize_challenge-Finalizes :
      (i out : Input lib) (challenge : Script)
      → finalize_challenge lib i challenge ≡ ok out
      → Finalizes i out
  unfolding finalize_challenge
  finalize_challenge-Finalizes i out challenge h = elim (Bool-cases (is_p2wpkh challenge)) [
    | inl a ↦ finalize_p2wpkh-Finalizes i out challenge (rw (finalize_challenge, a) at h)
    | inr a ↦ elim (Bool-cases (is_p2pkh challenge)) [
      | inl b ↦ finalize_p2pkh-Finalizes i out challenge (rw (finalize_challenge, a, b) at h)
      | inr b ↦
          let (script, w, required, pubkeys, (_, _, _, e)) =
            finalize_multisig-Gathered lib i out challenge (rw (finalize_challenge, a, b) at h) in
          rw e (with_signatures-Finalizes i script w _)
    ]
  ]

  finalize_redeem-Finalizes :
      (i out : Input lib) (challenge : Script) (redeem_script : Option Script)
      → finalize_redeem lib i challenge redeem_script ≡ ok out
      → Finalizes i out
  unfolding finalize_redeem
  finalize_redeem-Finalizes i out challenge none h = finalize_challenge-Finalizes i out challenge h
  finalize_redeem-Finalizes i out challenge (some redeem_script) h =
      elim (Bool-cases (is_p2wpkh redeem_script)) [
        | inl a ↦
            finalize_nested-Finalizes i out challenge redeem_script (rw (finalize_redeem, a) at h)
        | inr a ↦ finalize_challenge-Finalizes i out challenge (rw (finalize_redeem, a) at h)
      ]

  finalize_input-Finalizes :
      (i out : Input lib) (challenge : Script)
      → finalize_input lib i challenge ≡ ok out
      → Finalizes i out
  unfolding finalize_input
  finalize_input-Finalizes i out challenge h = elim (Option-cases i.tap_key_sig) [
    | inl n ↦
        finalize_redeem-Finalizes i out challenge i.base.redeem_script (rw (finalize_input, n) at h)
    | inr ((s, t), n) ↦ finalize_taproot-Finalizes i out challenge s t (rw (finalize_input, n) at h)
  ]

  -- As many challenges as inputs finalize them all.
  finalize_inputs-IsFinal :
      (is out : List (Input lib)) (cs : List Script)
      → length cs ≡ length is
      → finalize_inputs lib is cs ≡ ok out
      → All IsFinal out
        × (all_utxos (bases lib out) ≡ all_utxos (bases lib is))
        × (map extras out ≡ map extras is)
  unfolding finalize_inputs
  finalize_inputs-IsFinal [] out [] l h = rw (← ok-injective h) (tt, refl, refl)
  finalize_inputs-IsFinal (i ∷ is) out [] l h = absurd (omega arith)
  finalize_inputs-IsFinal [] out (c ∷ cs) l h = absurd (omega arith)
  finalize_inputs-IsFinal (i ∷ is) out (c ∷ cs) l h =
      let (i', e, h₁) = >>=-eq-ok (finalize_input lib i c) _ h in
      let (is', f, h₂) = >>=-eq-ok (finalize_inputs lib is cs) _ h₁ in
      let (final, kept, same) = finalize_input-Finalizes i i' c e in
      let (finals, keeps, rest) = finalize_inputs-IsFinal is is' cs (omega arith) f in
      rw (← ok-injective h₂) ((final, finals), rw (kept, keeps) refl, rw (same, rest) refl)

  challenges_from-length :
      (p : Request lib) (r : PrevoutResolver) (challenge : Script) (index n : ℕ) (out : List Script)
      → challenges_from lib (view p) r challenge index n ≡ ok out
      → length out ≡ n
  unfolding challenges_from
  challenges_from-length p r challenge index zero out h = ap length (sym (ok-injective h))
  challenges_from-length p r challenge index (suc n) out h =
      let (prevout, _, h₁) = >>=-eq-ok (checked_psbt_input_prevout lib (view p) r index) _ h in
      let (_, _, h₂) =
        >>=-eq-ok
          (guard (not (index == 0) || bytes_eq prevout.script_pubkey challenge) to_sign_invalid) _
          h₁ in
      let (rest, f, h₃) = >>=-eq-ok (challenges_from lib (view p) r challenge (suc index) n) _ h₂ in
      ap length (sym (ok-injective h₃))
      ∙ ap suc (challenges_from-length p r challenge (suc index) n rest f)

  -- Whatever the finalizer encodes has at least one final field in each input map, and no partial
  -- signature, sighash type, script, Taproot field or hint is left there: besides the final fields
  -- only the UTXO fields and the map's proprietary and unknown fields remain, which are those of the
  -- request. Its transaction, output count and unknown fields are the request's too, and it is
  -- detected as the request is.
  pub finalized-IsFinal :
      (p q : Request lib)
      → finalized lib p ≡ ok q
      → All IsFinal q.inputs
        × (map extras q.inputs ≡ map extras p.inputs)
        × Kept lib p q
        × (detect_bip322_psbt lib (view q) ≡ detect_bip322_psbt lib (view p))
  unfolding finalized
  finalized-IsFinal p q h =
      let (detected, _, h₁) =
        >>=-eq-ok (ok_or (detect_bip322_psbt lib (view p)) ordinary_psbt) _ h in
      let (_, _, h₂) = >>=-eq-ok (validate_psbt_structure (view p)) _ h₁ in
      let (_, _, h₃) = >>=-eq-ok (check_input_count (length p.unsigned_tx.input)) _ h₂ in
      let (r, _, h₄) = >>=-eq-ok (new lib (view p)) _ h₃ in
      let (cs, c, h₅) =
        >>=-eq-ok (challenges_from lib (view p) r detected.message_challenge 0 (length p.inputs)) _
          h₄ in
      let (is, f, h₆) = >>=-eq-ok (finalize_inputs lib p.inputs cs) _ h₅ in
      let count = challenges_from-length p r detected.message_challenge 0 (length p.inputs) cs c in
      let (finals, keeps, others) = finalize_inputs-IsFinal p.inputs is cs count f in
      let e = sym (ok-injective h₆) in
      let kept : Kept lib p q = (
        ap (λ (x : Request lib). x.unsigned_tx) e,
        ap (λ (x : Request lib). x.output_count) e,
        ap (λ (x : Request lib). x.unknown) e,
        ap (λ (x : Request lib). all_utxos (bases lib x.inputs)) e ∙ keeps,
      ) in
      let same = ap (λ (x : Request lib). x.inputs) e in
      let all_final : All IsFinal q.inputs = rw same finals in
      (all_final, ap (map extras) same ∙ others, kept, Kept-detect_bip322_psbt lib p q kept)
