-- ===== src/Spend/Defs.antt =====
-- verify/spend.rs: `Spend` and `SpendKind`, and what a spend says of itself.
use bip.Base.{
  ℕ, Bool, true, false, ◌||◌, Option, none, some, List, [], ◌∷◌, Bytes, get_or, take, any,
}
use bip.Bitcoin.Data.{Script, TxIn, TxOut, Transaction}
use bip.Bitcoin.Api.{Api}
use bip.Outpoints.Defs.{null_outpoint}
use bip.Bound.{CommittedScript, TapLeaf, claimed_tapscript}
use bip.Spend.Checks.{contains_codeseparator, is_naked_zero_timelock}

pub data TaprootPath (C : Type 0) : Type 0 where
  key : Bytes → TaprootPath C
  script : TapLeaf C → TaprootPath C

-- `SpendKind`, with the types of Taproot keys and control blocks as parameters.
pub data SpendKind (X C : Type 0) : Type 0 where
  p2pkh : Bytes → SpendKind X C
  p2sh : CommittedScript → List Bytes → SpendKind X C
  p2wpkh : Bytes → SpendKind X C
  p2wsh : CommittedScript → SpendKind X C
  p2tr : X → Option Bytes → TaprootPath C → SpendKind X C
  unknown_witness : SpendKind X C
  bare : SpendKind X C

pub record Spend (X C : Type 0) : Type 0 where
  pub to_sign : Transaction
  pub input_index : ℕ
  pub prevouts : List TxOut
  pub kind : SpendKind X C

-- What stands for an element out of range, where the source panics.
abbrev no_txin : TxIn
no_txin = record { previous_output = null_outpoint; script_sig = []; sequence = 0; witness = [] }

abbrev no_txout : TxOut
no_txout = record { value = 0; script_pubkey = [] }

module _ {X C : Type 0} where
  -- `Spend::txin`
  unfoldable pub txin : Spend X C → TxIn
  txin s = get_or s.to_sign.input s.input_index no_txin

  -- `Spend::prevout`
  unfoldable pub prevout : Spend X C → TxOut
  prevout s = get_or s.prevouts s.input_index no_txout

  unfoldable pub is_witness_kind : SpendKind X C → Bool
  is_witness_kind (p2wpkh h) = true
  is_witness_kind (p2wsh s) = true
  is_witness_kind (p2tr k a p) = true
  is_witness_kind unknown_witness = true
  is_witness_kind (p2pkh h) = false
  is_witness_kind (p2sh r p) = false
  is_witness_kind bare = false

  -- `Spend::is_witness`
  unfoldable pub is_witness : Spend X C → Bool
  unfolding is_witness_kind
  is_witness s = is_witness_kind s.kind

  unfoldable pub stack_len_of : SpendKind X C → ℕ
  stack_len_of (p2tr k a (script leaf)) = leaf.stack_len
  stack_len_of _ = 0

  -- `Spend::taproot_stack`
  unfoldable pub taproot_stack : Spend X C → List Bytes
  unfolding stack_len_of
  taproot_stack s = take (stack_len_of s.kind) (txin s).witness

-- `into_iter().flatten().any(p)` over some scripts that are there and one that may not be
abbrev any_script : (Script → Bool) → List Script → Option Script → Bool
any_script p scripts none = any p scripts
any_script p scripts (some s) = any p scripts || p s

module _ (lib : Api) where
  open lib use {XOnlyPublicKey, ControlBlock}

  unfoldable pub inner_of : SpendKind XOnlyPublicKey ControlBlock → Option Script
  inner_of (p2sh redeem pushes) = some redeem.script
  inner_of (p2wsh witness_script) = some witness_script.script
  inner_of (p2tr k a (script leaf)) = claimed_tapscript lib leaf
  inner_of _ = none

  -- `Spend::inner_script`
  unfoldable pub inner_script : Spend XOnlyPublicKey ControlBlock → Option Script
  unfolding inner_of
  inner_script s = inner_of s.kind

  -- `Spend::spends_codeseparator`
  unfoldable pub spends_codeseparator : Spend XOnlyPublicKey ControlBlock → Bool
  spends_codeseparator s =
      any_script (contains_codeseparator lib) ((txin s).script_sig ∷ (prevout s).script_pubkey ∷ [])
        (inner_script s)

  -- `Spend::has_naked_zero_timelock`
  unfoldable pub has_naked_zero_timelock : Spend XOnlyPublicKey ControlBlock → Bool
  has_naked_zero_timelock s =
      any_script (is_naked_zero_timelock lib) ((prevout s).script_pubkey ∷ []) (inner_script s)
