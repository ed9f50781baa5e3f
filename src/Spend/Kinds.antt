-- ===== src/Spend/Kinds.antt =====
-- verify/spend.rs: `Spend::parse`, which classifies an input and enforces the structural rules of
-- its output type.
use bip.Base.{
  ℕ, zero, suc, ◌-◌, Bool, true, false, ◌&&◌, ◌||◌, not, Option, none, some, List, [], ◌∷◌, ◌++◌,
  Bytes, length, get_elem?, take, drop, last?, front, any, is_empty, is_some, bytes_eq, ltb, leb,
  ◌==◌, if◌then◌else◌,
}
use bip.Error.{
  Result, ok, err, ◌>>=◌, ◌>>◌, guard, ok_or, invalid_witness, witness_empty, to_sign_invalid,
  invalid_public_key,
}
use bip.Limits.{max_stack_size}
use bip.Bitcoin.Data.{
  Script, Witness, TxIn, Decoded, good, bad, Instruction, push_bytes, op, max_script_element_size,
  taproot_annex_prefix,
}
use bip.Bitcoin.Api.{Api}
use bip.Script.Defs.{push_only_script}
use bip.Bound.{committed_p2sh, committed_p2wsh}
use bip.Spend.Checks.{check_script, check_witness_stack}
use bip.Spend.Defs.{TaprootPath, SpendKind, key, script, p2sh, p2wpkh, p2wsh, p2tr, unknown_witness}

-- The variables of the loop in `p2sh_kind`.
pub record Pushes : Type 0 where
  pub pushes : List Bytes
  pub push_only : Bool
  pub ends_with_data : Bool

-- The match of the loop on one instruction. The elements of `SCRIPT_NUMBERS` are 0x81 and 1 to 16.
unfoldable pub push : Pushes → Instruction → Pushes
push p (push_bytes bs) = record p { pushes = p.pushes ++ (bs ∷ []); ends_with_data = true }
push p (op o) =
    if o == 0x4f
    then record p { pushes = p.pushes ++ ((0x81 ∷ []) ∷ []); ends_with_data = false }
    else if leb 0x51 o && leb o 0x60
    then record p { pushes = p.pushes ++ (((o - 0x50) ∷ []) ∷ []); ends_with_data = false }
    else record p { push_only = false; ends_with_data = false }

-- The loop of `p2sh_kind` over the scriptSig.
unfoldable pub pushes_loop : Pushes → List Decoded → Result Pushes
unfolding push
pushes_loop p [] = ok p
pushes_loop p (bad ∷ ds) = err invalid_witness
pushes_loop p (good i ∷ ds) = do
  guard (leb (length (push p i).pushes) max_stack_size) invalid_witness
  pushes_loop (push p i) ds

abbrev pub no_pushes : Pushes
no_pushes = record { pushes = []; push_only = true; ends_with_data = false }

-- `pushes.pop()` where the scriptSig ends with data: the redeem script, and what is left.
abbrev pub redeem_of : Pushes → Option Script
redeem_of p = if p.ends_with_data then last? p.pushes else none

abbrev pub pushes_left : Pushes → List Bytes
pushes_left p = if p.ends_with_data then front p.pushes else p.pushes

-- Whether an item is an annex, which a witness of two items or more may end with.
abbrev is_annex : Witness → Bytes → Bool
is_annex witness [] = false
is_annex witness (b ∷ bs) = leb 2 (length witness) && b == taproot_annex_prefix

unfoldable pub annex_of : Witness → Option Bytes
annex_of witness = elim (last? witness) [
  | none ↦ none
  | some last ↦ if is_annex witness last then some last else none
]

-- The number of items without the annex.
unfoldable pub spend_len : Witness → ℕ
unfolding annex_of
spend_len witness = length witness - (if is_some (annex_of witness) then 1 else 0)

module _ (lib : Api) where
  open lib use {
    XOnlyPublicKey, ControlBlock, x_only_from_slice, control_decode, hash160_from_slice,
    instructions_minimal, witness_version,
  }

  abbrev pub Kind : Type 0
  Kind = SpendKind XOnlyPublicKey ControlBlock

  -- `witness.nth(i).and_then(|control| ControlBlock::decode(control).ok())`
  abbrev control_at : Witness → ℕ → Option ControlBlock
  control_at witness i = elim (get_elem? witness i) [ none ↦ none | some c ↦ control_decode c ]

  -- The match on the number of items in `taproot_kind`.
  unfoldable pub taproot_path : Witness → ℕ → Result (TaprootPath ControlBlock)
  taproot_path witness zero = err witness_empty
  taproot_path witness (suc zero) = do s ← ok_or (get_elem? witness 0) witness_empty; ok (key s)
  taproot_path witness (suc (suc n)) = do
    s ← ok_or (get_elem? witness n) invalid_witness
    c ← ok_or (control_at witness (suc n)) invalid_witness
    ok (script (record { control = c; script = s; stack_len = n }))

  unfoldable pub taproot_kind : Witness → Bytes → Result Kind
  unfolding taproot_path annex_of spend_len
  taproot_kind witness program = do
    output_key ← ok_or (x_only_from_slice program) invalid_public_key
    path ← taproot_path witness (spend_len witness)
    ok (p2tr output_key (annex_of witness) path)

  -- The arm of `witness_kind` for a v0 program of 20 bytes.
  unfoldable pub p2wpkh_kind : Witness → Bytes → Result Kind
  p2wpkh_kind witness program = do
    guard (not (is_empty witness)) witness_empty
    guard (length witness == 2) invalid_witness
    check_witness_stack witness
    hash ← ok_or (hash160_from_slice program) to_sign_invalid
    ok (p2wpkh hash)

  -- The arm of `witness_kind` for a v0 program of 32 bytes.
  unfoldable pub p2wsh_kind : Witness → Bytes → Result Kind
  p2wsh_kind witness program = do
    last ← ok_or (last? witness) invalid_witness
    witness_script ← ok_or (committed_p2wsh lib program last) to_sign_invalid
    check_witness_stack (take (length witness - 1) witness)
    check_script lib witness_script.script
    ok (p2wsh witness_script)

  unfoldable pub witness_kind : Witness → ℕ → Bytes → Bool → Result Kind
  unfolding p2wpkh_kind p2wsh_kind
  witness_kind witness version program nested =
      if version == 0
      then (if length program == 20
          then p2wpkh_kind witness program
          else if length program == 32
          then p2wsh_kind witness program
          else err to_sign_invalid)
      else if not nested && version == 1 && length program == 32
      then taproot_kind witness program
      else ok unknown_witness

  -- Nested segwit: the scriptSig must be exactly the push of the program.
  unfoldable pub nested_kind : TxIn → Script → Script → ℕ → Result Kind
  nested_kind txin script_pubkey redeem version = do
    committed ← ok_or (committed_p2sh lib script_pubkey redeem) to_sign_invalid
    guard (bytes_eq txin.script_sig (push_only_script lib committed.script)) to_sign_invalid
    witness_kind txin.witness version (drop 2 committed.script) true

  -- Bare P2SH: the rest of `p2sh_kind`.
  unfoldable pub bare_p2sh_kind : TxIn → Script → Pushes → Result Kind
  bare_p2sh_kind txin script_pubkey p = do
    guard (is_empty txin.witness) invalid_witness
    redeem ← ok_or (redeem_of p) invalid_witness
    guard
        (not (
          not p.push_only
          || ltb max_script_element_size (length redeem)
          || any (λ item. ltb max_script_element_size (length item)) (pushes_left p)))
        invalid_witness
    committed ← ok_or (committed_p2sh lib script_pubkey redeem) to_sign_invalid
    check_script lib committed.script
    ok (p2sh committed (pushes_left p))

  -- `redeem_script.and_then(|redeem| Some((redeem, redeem.witness_version()?)))`
  abbrev pub nested_version : Option Script → Option (Script × ℕ)
  nested_version none = none
  nested_version (some redeem) = elim (witness_version redeem) [
    | none ↦ none
    | some v ↦ some (redeem, v)
  ]

  unfoldable pub p2sh_kind : TxIn → Script → Result Kind
  p2sh_kind txin script_pubkey = do
    p ← pushes_loop no_pushes (instructions_minimal txin.script_sig)
    elim (nested_version (redeem_of p)) [
      | some (redeem, version) ↦ nested_kind txin script_pubkey redeem version
      | none ↦ bare_p2sh_kind txin script_pubkey p
    ]
