-- ===== src/Roles/Detect.antt =====
-- psbt.rs: `detect_bip322_psbt`.
use bip.Base.{
  Bool, true, ◌&&◌, Option, none, some, then_some, length, get_elem?, Bytes, bytes_eq, is_utf8,
  ◌==◌,
}
use bip.Bitcoin.Data.{Script, OutPoint, TxOut, PsbtInput, Psbt}
use bip.Bitcoin.Api.{Api}
use bip.Prevouts.Defs.{txout_eq}
use bip.Message.Defs.{create_to_spend_from_script, is_bip322_output, signed_message_key}
use bip.Verify.Pof.{unknown_get}

-- `Bip322Psbt`
pub record Bip322Psbt : Type 0 where
  pub message : Bytes
  pub message_challenge : Script

-- `?` on an option, and `return None`.
module _ {ℓ κ} {A : Type ℓ} {B : Type κ} where
  infixl 5 ◌>>=◌
  abbrev pub ◌>>=◌ : Option A → (A → Option B) → Option B
  none >>= next = none
  some a >>= next = next a

  infixl 5 ◌>>◌
  abbrev pub ◌>>◌ : Option A → Option B → Option B
  o >> next = o >>= λ _. next

abbrev pub check : Bool → Option (Unit {0})
check b = then_some b tt

-- The comparison of the two claimed outputs.
abbrev pub agreeing : Option TxOut → Option TxOut → Bool
agreeing (some w) (some n) = txout_eq w n
agreeing (some w) none = true
agreeing none n = true

abbrev pub first_claim : Option TxOut → Option TxOut → Option TxOut
first_claim (some w) n = some w
first_claim none n = n

module _ (lib : Api) where
  open lib use {compute_txid}

  -- `non_witness_utxo`; `none` is a return.
  unfoldable pub claimed_output : PsbtInput → OutPoint → Option (Option TxOut)
  claimed_output first o = elim first.non_witness_utxo [
    | none ↦ some none
    | some tx ↦ do
      check (bytes_eq (compute_txid tx) o.txid)
      output ← get_elem? tx.output o.vout
      some (some output)
  ]

  unfoldable pub detect_bip322_psbt : Psbt → Option Bip322Psbt
  unfolding claimed_output
  detect_bip322_psbt psbt = do
    message ← unknown_get signed_message_key psbt.unknown
    check (is_utf8 message)
    check (
        length psbt.inputs == length psbt.unsigned_tx.input
        && psbt.output_count == length psbt.unsigned_tx.output)
    first ← get_elem? psbt.inputs 0
    txin ← get_elem? psbt.unsigned_tx.input 0
    check (txin.previous_output.vout == 0)
    non_witness ← claimed_output first txin.previous_output
    check (agreeing first.witness_utxo non_witness)
    output ← first_claim first.witness_utxo non_witness
    check (output.value == 0)
    check (
        bytes_eq txin.previous_output.txid
          (compute_txid (create_to_spend_from_script lib output.script_pubkey message)))
    check (is_bip322_output lib psbt.unsigned_tx.output)
    some (record { message = message; message_challenge = output.script_pubkey })
