-- ===== src/Interpreter/Rules.antt =====
-- verify/interpreter.rs: what the fallback accepts.
use bip.Base.{◌≡◌, ◌↔◌, refl, inl, inr, Option, none, some, List, [], ◌∷◌, All, Option-cases}
use bip.Error.{ok, >>=-eq-ok}
use bip.Bitcoin.Api.{Api, Satisfied, key_sig, constraint, signature_error, other_error}
use bip.Spend.Defs.{txin, prevout}
use bip.Templates.Defs.{valid, inconclusive, LibSpend}
use bip.Interpreter.Defs.{check_required_signature, interpret, verify_with_interpreter}

module _ (lib : Api) where
  open lib use {EcdsaSignature, SchnorrSignature, Interpreter, from_txdata, iterate}

  -- An item that neither fails nor has a signature against the rules of BIP-322.
  abbrev pub Allowed : LibSpend lib → Satisfied EcdsaSignature SchnorrSignature → Type 0
  Allowed spend (key_sig k) = check_required_signature lib k spend ≡ ok tt
  Allowed spend constraint = Unit
  Allowed spend signature_error = ⊥
  Allowed spend other_error = ⊥

  interpret_iff :
      (items : List (Satisfied EcdsaSignature SchnorrSignature)) (spend : LibSpend lib)
      → (interpret lib items spend ≡ ok valid) ↔ All (Allowed spend) items
  unfolding interpret
  interpret_iff [] spend = (λ h. tt, λ h. refl)
  interpret_iff (key_sig k ∷ rest) spend =
      let (to, from) = interpret_iff rest spend in
      (
        λ h. let (_, e, f) = >>=-eq-ok (check_required_signature lib k spend) _ h in (e, to f),
        λ (e, f). rw (e, from f),
      )
  interpret_iff (constraint ∷ rest) spend =
      let (to, from) = interpret_iff rest spend in (λ h. (tt, to h), λ h. from h.1)
  interpret_iff (signature_error ∷ rest) spend = (λ h. cc, λ h. elim h.0 [ ])
  interpret_iff (other_error ∷ rest) spend = (λ h. cc, λ h. elim h.0 [ ])

  interpret-conclusive :
      (items : List (Satisfied EcdsaSignature SchnorrSignature)) (spend : LibSpend lib)
      → interpret lib items spend ≡ ok inconclusive
      → ⊥
  unfolding interpret
  interpret-conclusive [] spend h = cc
  interpret-conclusive (key_sig k ∷ rest) spend h =
      let (_, e, f) = >>=-eq-ok (check_required_signature lib k spend) _ h in
      interpret-conclusive rest spend f
  interpret-conclusive (constraint ∷ rest) spend h = interpret-conclusive rest spend h
  interpret-conclusive (signature_error ∷ rest) spend h = cc
  interpret-conclusive (other_error ∷ rest) spend h = cc

  -- The interpreter of the input, if there is one for its scripts.
  abbrev pub interpreter_of : LibSpend lib → Option Interpreter
  interpreter_of spend =
      from_txdata (prevout spend).script_pubkey (txin spend).script_sig (txin spend).witness
        (txin spend).sequence spend.to_sign.lock_time

  -- The fallback says valid exactly if the input can be interpreted and the run yields only
  -- satisfied constraints, whose signatures keep the rules; it says inconclusive exactly if the
  -- input cannot be interpreted.
  pub verify_with_interpreter_iff :
      (spend : LibSpend lib)
      → ((verify_with_interpreter lib spend ≡ ok valid) ↔ (
          (i : Interpreter) × (interpreter_of spend ≡ some i)
          × All (Allowed spend) (iterate i spend.to_sign spend.input_index spend.prevouts)))
        × ((verify_with_interpreter lib spend ≡ ok inconclusive) ↔ (interpreter_of spend ≡ none))
  unfolding verify_with_interpreter
  verify_with_interpreter_iff spend = elim (Option-cases (interpreter_of spend)) [
    | inl n ↦ rw (verify_with_interpreter, n) ((λ h. cc, λ (i, e, _). cc), (λ h. refl, λ h. refl))
    | inr (i, n) ↦
        let items = iterate i spend.to_sign spend.input_index spend.prevouts in
        let (to, from) = interpret_iff items spend in
        rw (verify_with_interpreter, n)
          (
            (λ h. (i, refl, to h), λ (j, e, a). let same : i ≡ j = cc in from (rw same a)),
            (λ h. absurd (interpret-conclusive items spend h), λ h. cc),
          )
  ]
