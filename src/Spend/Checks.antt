-- ===== src/Spend/Checks.antt =====
-- verify/spend.rs: the checks on single scripts and stacks.
use bip.Base.{
  ℕ, ◌+◌, Bool, true, false, ◌&&◌, ◌||◌, List, [], ◌∷◌, Bytes, length, any, is_empty, ltb, ◌==◌,
  if◌then◌else◌,
}
use bip.Error.{Result, ok, err, invalid_witness}
use bip.Limits.{max_stack_size, max_script_size, max_ops_per_script}
use bip.Bitcoin.Data.{
  Script, Decoded, good, bad, Instruction, push_bytes, op, op_pushnum_16, op_codeseparator, op_csv,
  op_cltv, max_script_element_size,
}
use bip.Bitcoin.Api.{Api}

-- The guard of the match in `check_script`.
unfoldable pub is_non_push : Instruction → Bool
is_non_push (op o) = ltb op_pushnum_16 o
is_non_push (push_bytes bs) = false

-- The loop of `check_script`, with the non-push opcodes counted so far.
unfoldable pub ops_loop : ℕ → List Decoded → Result (Unit {0})
unfolding is_non_push
ops_loop n [] = ok tt
ops_loop n (good i ∷ ds) = elim (is_non_push i) [
  | true ↦ elim (ltb max_ops_per_script (n + 1)) [
    | true ↦ err invalid_witness
    | false ↦ ops_loop (n + 1) ds
  ]
  | false ↦ ops_loop n ds
]
ops_loop n (bad ∷ ds) = err invalid_witness

-- `check_witness_stack`
unfoldable pub check_witness_stack : List Bytes → Result (Unit {0})
check_witness_stack stack =
    if ltb max_stack_size (length stack)
      || any (λ item. ltb max_script_element_size (length item)) stack
    then err invalid_witness
    else ok tt

unfoldable pub is_codeseparator : Decoded → Bool
is_codeseparator (good (op o)) = o == op_codeseparator
is_codeseparator (good (push_bytes bs)) = false
is_codeseparator bad = false

-- The match of `is_naked_zero_timelock` on the first three items of the iterator.
unfoldable pub is_zero_timelock : List Decoded → Bool
is_zero_timelock (good (push_bytes bs) ∷ good (op o) ∷ []) =
    is_empty bs && (o == op_csv || o == op_cltv)
is_zero_timelock _ = false

module _ (lib : Api) where
  open lib use {instructions, instructions_minimal}

  unfoldable pub check_script : Script → Result (Unit {0})
  unfolding ops_loop
  check_script script =
      if ltb max_script_size (length script)
      then err invalid_witness
      else ops_loop 0 (instructions_minimal script)

  unfoldable pub contains_codeseparator : Script → Bool
  unfolding is_codeseparator
  contains_codeseparator script = any is_codeseparator (instructions script)

  unfoldable pub is_naked_zero_timelock : Script → Bool
  unfolding is_zero_timelock
  is_naked_zero_timelock script = is_zero_timelock (instructions script)
