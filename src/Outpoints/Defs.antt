-- ===== src/Outpoints/Defs.antt =====
-- transaction.rs
use bip.Base.{
  Bool, false, ◌&&◌, ◌||◌, not, List, [], ◌∷◌, Bytes, length, replicate, map, any, bytes_eq, leb,
  ◌==◌,
}
use bip.Error.{Result, ◌>>◌, guard, to_sign_invalid}
use bip.Bitcoin.Data.{OutPoint, TxIn, Transaction, Psbt, max_block_weight}
use bip.Bitcoin.Api.{Api}

-- `==` of outpoints
unfoldable pub outpoint_eq : OutPoint → OutPoint → Bool
outpoint_eq a b = bytes_eq a.txid b.txid && a.vout == b.vout

-- The txid of 32 zero bytes.
abbrev pub zero_txid : Bytes
zero_txid = replicate 32 0

-- `OutPoint::null()`, which `is_null` tests for.
abbrev pub null_outpoint : OutPoint
null_outpoint = record { txid = zero_txid; vout = 0xffff_ffff }

-- `HashSet::contains`, over the outpoints inserted so far
unfoldable pub contains : OutPoint → List OutPoint → Bool
contains o seen = any (outpoint_eq o) seen

-- The closure of `any` over the inputs: a null outpoint, or one that was inserted before.
unfoldable pub any_bad : List OutPoint → List OutPoint → Bool
any_bad seen [] = false
any_bad seen (o ∷ os) = outpoint_eq o null_outpoint || contains o seen || any_bad (o ∷ seen) os

abbrev pub outpoints : Transaction → List OutPoint
outpoints tx = map (λ (i : TxIn). i.previous_output) tx.input

unfoldable pub validate_outpoints : Transaction → Result (Unit {0})
validate_outpoints tx = guard (not (any_bad [] (outpoints tx))) to_sign_invalid

unfoldable pub validate_psbt_structure : Psbt → Result (Unit {0})
validate_psbt_structure psbt = do
  guard
      (length psbt.inputs == length psbt.unsigned_tx.input
        && psbt.output_count == length psbt.unsigned_tx.output)
      to_sign_invalid
  validate_outpoints psbt.unsigned_tx

module _ (lib : Api) where
  open lib use {weight}

  unfoldable pub validate_weight : Transaction → Result (Unit {0})
  validate_weight tx = guard (leb (weight tx) max_block_weight) to_sign_invalid
