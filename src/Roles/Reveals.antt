-- ===== src/Roles/Reveals.antt =====
-- psbt/finalizer.rs: the final fields of a multisig input, as the library's builder makes them.
use bip.Base.{
  ◌≡◌, refl, ap, ◌⊎◌, inl, inr, Bool, true, false, Option, none, some, List, [], ◌∷◌, ◌++◌, Bytes,
}
use mathlib.Core.List.{foldl}
use mathlib.Core.Option
use bip.Bitcoin.Data.{Script}
use bip.Bitcoin.Api.{Api}
use bip.Script.Defs.{push_only_script}
use bip.Sign.Input.{push_slices, multisig_script_sig}
use bip.Roles.Helpers.{Input}
use bip.Roles.Finalizer.{program_push, with_final, clear_non_final_fields, with_signatures}

module _ (lib : Api) where
  open lib use {push_slice, push_opcode}

  -- What an input says in its final fields: a witness of an empty item, the signatures and the
  -- script, with the redeem script, if there is one, alone in the scriptSig; or a scriptSig that
  -- pushes the same in the same order, and no witness.
  abbrev pub Reveals : Input lib → Script → Bool → Option Script → List Bytes → Type 0
  Reveals out script is_witness redeem_script signatures =
      ((is_witness ≡ true)
        × (out.base.final_script_witness ≡ some ([] ∷ signatures ++ (script ∷ [])))
        × (out.base.final_script_sig ≡ Option.map (push_only_script lib) redeem_script))
      ⊎ ((is_witness ≡ false)
          × (out.base.final_script_witness ≡ none)
          × (out.base.final_script_sig
              ≡ some (
                  push_slice script
                    (foldl (λ builder s. push_slice s builder) (push_opcode 0 []) signatures))))

  push_slices-foldl :
      (builder : Script) (ss : List Bytes)
      → push_slices lib builder ss ≡ foldl (λ b s. push_slice s b) builder ss
  unfolding push_slices
  push_slices-foldl builder [] = refl
  push_slices-foldl builder (s ∷ ss) = push_slices-foldl (push_slice s builder) ss

  program_push-map :
      (redeem_script : Option Script)
      → program_push lib redeem_script ≡ Option.map (push_only_script lib) redeem_script
  program_push-map none = refl
  program_push-map (some s) = refl

  pub with_signatures-Reveals :
      (i : Input lib) (script : Script) (is_witness : Bool) (signatures : List Bytes)
      → Reveals
          (with_signatures lib i script is_witness signatures)
          script
          is_witness
          i.base.redeem_script
          signatures
  unfolding with_signatures with_final clear_non_final_fields multisig_script_sig
  with_signatures-Reveals i script true signatures =
      inl (refl, refl, program_push-map i.base.redeem_script)
  with_signatures-Reveals i script false signatures =
      inr (refl, refl, ap (λ b. some (push_slice script b)) (push_slices-foldl _ signatures))
