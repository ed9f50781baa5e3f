-- ===== src/Spend/Limits.antt =====
-- verify/spend.rs: the limits that `check_script` and `check_witness_stack` set.
use bip.Base.{
  ℕ, ◌+◌, ◌≤◌, ◌<◌, ◌≡◌, ◌↔◌, refl, arith, false, List, [], ◌∷◌, Bytes, length, All, any, ltb, ◌||◌,
  Bool-cases, inl, inr, if◌then◌else◌, or-eq-false,
}
use bip.Error.{ok}
use bip.Bitcoin.Data.{Script, Decoded, good, bad, push_bytes, op}
use bip.Bitcoin.Api.{Api}
use bip.Spend.Checks.{is_non_push, ops_loop, check_witness_stack, check_script}

abbrev pub IsGood : Decoded → Type 0
IsGood (good i) = Unit
IsGood bad = ⊥

-- 1 for an opcode above `OP_16`.
abbrev pub op_cost : Decoded → ℕ
op_cost (good (op o)) = if ltb 0x60 o then 1 else 0
op_cost (good (push_bytes bs)) = 0
op_cost bad = 0

abbrev pub ops_cost : List Decoded → ℕ
ops_cost [] = 0
ops_cost (d ∷ ds) = op_cost d + ops_cost ds

ops_loop_iff :
    (n : ℕ) (ds : List Decoded)
    → n ≤ 201
    → (ops_loop n ds ≡ ok tt) ↔ (All IsGood ds × (n + ops_cost ds ≤ 201))
unfolding ops_loop is_non_push
ops_loop_iff n [] h = (λ _. (tt, omega arith), λ _. refl)
ops_loop_iff n (bad ∷ ds) h = (λ e. cc, λ e. elim e.0.0 [ ])
ops_loop_iff n (good (push_bytes bs) ∷ ds) h =
    let (to, from) = ops_loop_iff n ds h in
    (λ e. let (g, c) = to e in ((tt, g), omega arith), λ (g, c). from (g.1, omega arith))
ops_loop_iff n (good (op o) ∷ ds) h = elim (Bool-cases (ltb 0x60 o)) [
  | inl e ↦ elim (Bool-cases (ltb 201 (n + 1))) [
    | inl f ↦
        let over : 201 < n + 1 = ground arith in
        rw (e, ops_loop, f) (λ e'. cc, λ (g, c). absurd (omega arith))
    | inr f ↦
        let under : n + 1 ≤ 201 = ground arith in
        let (to, from) = ops_loop_iff (n + 1) ds under in
        rw (e, ops_loop, f)
          (λ e'. let (g, c) = to e' in ((tt, g), omega arith), λ (g, c). from (g.1, omega arith))
  ]
  | inr e ↦
      let (to, from) = ops_loop_iff n ds h in
      rw (e, ops_loop)
        (λ e'. let (g, c) = to e' in ((tt, g), omega arith), λ (g, c). from (g.1, omega arith))
]

-- A script passes exactly if it has at most 10,000 bytes, decodes with minimal pushes to the end,
-- and has at most 201 opcodes above `OP_16`.
pub check_script_iff :
    (lib : Api) (script : Script)
    → (check_script lib script ≡ ok tt) ↔ (
        (length script ≤ 10_000)
        × All IsGood (lib.instructions_minimal script)
        × (ops_cost (lib.instructions_minimal script) ≤ 201))
unfolding check_script
check_script_iff lib script = elim (Bool-cases (ltb 10_000 (length script))) [
  | inl e ↦
      let over : 10_000 < length script = ground arith in
      rw e (λ h. cc, λ (l, _, _). absurd (omega arith))
  | inr e ↦
      let under : length script ≤ 10_000 = ground arith in
      let (to, from) = ops_loop_iff 0 (lib.instructions_minimal script) (omega arith) in
      rw e (λ h. let (g, c) = to h in (under, g, omega arith), λ (_, g, c). from (g, omega arith))
]

-- A witness item of at most 520 bytes.
abbrev pub IsShort : Bytes → Type 0
IsShort item = length item ≤ 520

any_long :
    (stack : List Bytes) → (any (λ item. ltb 520 (length item)) stack ≡ false) ↔ All IsShort stack
any_long [] = (λ h. tt, λ h. refl)
any_long (x ∷ xs) =
    let (to, from) = any_long xs in
    let (split, join) = or-eq-false (ltb 520 (length x)) (any (λ item. ltb 520 (length item)) xs) in
    (λ h. let (a, b) = split h in (ground arith, to b), λ (a, b). join (ground arith, from b))

-- A witness stack passes exactly if it has at most 1000 items, none over 520 bytes.
pub check_witness_stack_iff :
    (stack : List Bytes)
    → (check_witness_stack stack ≡ ok tt) ↔ ((length stack ≤ 1000) × All IsShort stack)
unfolding check_witness_stack
check_witness_stack_iff stack =
    let (to, from) = any_long stack in
    let long = any (λ (item : Bytes). ltb 520 (length item)) stack in
    let (split, join) = or-eq-false (ltb 1000 (length stack)) long in
    (
      λ h.
          let (a, b) = split (elim (Bool-cases (ltb 1000 (length stack) || long)) [
            | inl e ↦ cc (rw e at h)
            | inr e ↦ e
          ]) in
          (ground arith, to b),
      λ (a, b). rw (join (ground arith, from b)),
    )
