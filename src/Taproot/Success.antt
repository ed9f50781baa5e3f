-- ===== src/Taproot/Success.antt =====
-- verify/taproot.rs: the scripts that BIP-342 leaves to later upgrades.
use bip.Base.{
  ℕ, ◌≡◌, ◌↔◌, refl, ap, true, false, ◌||◌, List, [], ◌∷◌, ◌++◌, map, Bool-cases, inl, inr,
}
use bip.Bitcoin.Data.{Script, Decoded, good, bad, Instruction, push_bytes, op}
use bip.Bitcoin.Api.{Api}
use bip.Taproot.Defs.{success_loop, contains_op_success}

module _ (lib : Api) where
  open lib use {instructions_minimal, is_success_op}

  -- A success opcode stands behind instructions that all decode.
  abbrev pub Succeeds : List Decoded → Type 0
  Succeeds ds =
      (before : List Instruction) × (o : ℕ) × (after : List Decoded) × (ds
        ≡ map good before ++ (good (op o) ∷ after))
      × (is_success_op o ≡ true)

  later : (i : Instruction) (ds : List Decoded) → Succeeds ds → Succeeds (good i ∷ ds)
  later i ds (before, o, after, e, s) = (i ∷ before, o, after, ap (λ r. good i ∷ r) e, s)

  success_loop-Succeeds : (ds : List Decoded) → success_loop lib ds ≡ true → Succeeds ds
  unfolding success_loop
  success_loop-Succeeds [] h = cc
  success_loop-Succeeds (bad ∷ ds) h = cc
  success_loop-Succeeds (good (push_bytes bs) ∷ ds) h =
      later (push_bytes bs) ds (success_loop-Succeeds ds h)
  success_loop-Succeeds (good (op o) ∷ ds) h = elim (Bool-cases (is_success_op o)) [
    | inl e ↦ ([], o, ds, refl, e)
    | inr e ↦ later (op o) ds (success_loop-Succeeds ds (rw e at h))
  ]

  or-true : (b : _) → (b || true) ≡ true
  or-true true = refl
  or-true false = refl

  Succeeds-success_loop :
      (before : List Instruction) (o : ℕ) (after : List Decoded)
      → is_success_op o ≡ true
      → success_loop lib (map good before ++ (good (op o) ∷ after)) ≡ true
  unfolding success_loop
  Succeeds-success_loop [] o after s = rw s
  Succeeds-success_loop (push_bytes bs ∷ is) o after s = Succeeds-success_loop is o after s
  Succeeds-success_loop (op p ∷ is) o after s = rw (Succeeds-success_loop is o after s, or-true)

  -- A tapscript counts as one with a success opcode exactly if it has one and everything in front of
  -- it decodes with minimal pushes, whatever stands behind.
  pub contains_op_success_iff :
      (tapscript : Script)
      → (contains_op_success lib tapscript ≡ true) ↔ Succeeds (instructions_minimal tapscript)
  unfolding contains_op_success
  contains_op_success_iff tapscript = (
    success_loop-Succeeds _,
    λ (before, o, after, e, s). rw e (Succeeds-success_loop before o after s),
  )
