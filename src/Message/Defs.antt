-- ===== src/Message/Defs.antt =====
-- message.rs: `LockParams`, `to_spend`, `to_sign` and the checks on them.
use bip.Base.{
  ℕ, Bool, false, not, ◌&&◌, ◌||◌, Option, none, some, List, [], ◌∷◌, ◌++◌, map, Bytes, bytes_eq,
  ◌==◌, if◌then◌else◌,
}
use bip.Error.{Result, ok, err, ok_or, simple_format_unsupported, address_parse}
use bip.Bitcoin.Data.{
  Script, Witness, OutPoint, TxIn, TxOut, Transaction, RawKey, Psbt, AddressData, op_return,
}
use bip.Bitcoin.Api.{Api}
use bip.Outpoints.Defs.{null_outpoint}

-- "BIP0322-signed-message"
abbrev pub bip322_tag : Bytes
bip322_tag =
    b'B' ∷ b'I' ∷ b'P' ∷ b'0' ∷ b'3' ∷ b'2' ∷ b'2' ∷ b'-' ∷ b's' ∷ b'i' ∷ b'g' ∷ b'n' ∷ b'e' ∷ b'd'
    ∷ b'-' ∷ b'm' ∷ b'e' ∷ b's' ∷ b's' ∷ b'a' ∷ b'g' ∷ b'e' ∷ []

abbrev pub psbt_global_generic_signed_message : ℕ
psbt_global_generic_signed_message = 0x09

pub record LockParams : Type 0 where
  pub lock_time : ℕ
  pub sequence : ℕ

-- `LockParams::default()`
abbrev pub default_locks : LockParams
default_locks = record { lock_time = 0; sequence = 0 }

-- `LockParams::version`
unfoldable pub version : LockParams → ℕ
version locks = if not (locks.lock_time == 0) || not (locks.sequence == 0) then 2 else 0

-- The parts of an outpoint that a proof input contributes to `to_sign`.
abbrev unsigned_input : OutPoint → ℕ → TxIn
unsigned_input o s = record { previous_output = o; script_sig = []; sequence = s; witness = [] }

-- `signed_message_key`
abbrev pub signed_message_key : RawKey
signed_message_key = record { type_value = psbt_global_generic_signed_message; key = [] }

module _ (lib : Api) where
  open lib use {
    Address, sha256, compute_txid, push_int, push_slice, push_opcode, script_pubkey_of,
    address_data, address_to_string, address_from_str, from_unsigned_tx,
  }

  unfoldable pub tagged_hash : Bytes → Bytes → Bytes
  tagged_hash tag message = let tag_hash = sha256 tag in sha256 (tag_hash ++ (tag_hash ++ message))

  -- `create_to_spend_from_script`. Its input spends the null outpoint.
  unfoldable pub create_to_spend_from_script : Script → Bytes → Transaction
  unfolding tagged_hash
  create_to_spend_from_script script_pubkey message = record {
    version = 0;
    lock_time = 0;
    input =
        record {
          previous_output = null_outpoint;
          script_sig = push_slice (tagged_hash bip322_tag message) (push_int 0 []);
          sequence = 0;
          witness = [];
        }
        ∷ [];
    output = record { value = 0; script_pubkey = script_pubkey } ∷ [];
  }

  unfoldable pub create_to_spend : Address → Bytes → Transaction
  create_to_spend address message = create_to_spend_from_script (script_pubkey_of address) message

  -- `op_return()`
  unfoldable pub op_return_script : Script
  op_return_script = push_opcode op_return []

  -- The outpoint of the challenge output.
  abbrev pub challenge_outpoint : Transaction → OutPoint
  challenge_outpoint to_spend = record { txid = compute_txid to_spend; vout = 0 }

  -- `to_sign_transaction`, on the outpoints of the proof inputs: it uses nothing else of them.
  unfoldable pub to_sign_transaction : Transaction → List OutPoint → LockParams → Transaction
  unfolding version op_return_script
  to_sign_transaction to_spend proof_inputs locks = record {
    version = version locks;
    lock_time = locks.lock_time;
    input =
        unsigned_input (challenge_outpoint to_spend) locks.sequence
        ∷ map (λ o. unsigned_input o 0) proof_inputs;
    output = record { value = 0; script_pubkey = op_return_script } ∷ [];
  }

  -- `create_to_sign` behind `from_unsigned_tx`, on the PSBT's input maps. Without a first map, or a
  -- first output of `to_spend`, the source panics: `none`.
  unfoldable pub fill_challenge : Transaction → Option Witness → Psbt → Option Psbt
  fill_challenge to_spend witness psbt = elim psbt.inputs [
    | [] ↦ none
    | i ∷ is ↦ elim to_spend.output [
      | [] ↦ none
      | o ∷ os ↦ some (record psbt {
        inputs =
            record i {
              witness_utxo = some (record { value = 0; script_pubkey = o.script_pubkey });
              final_script_witness = witness;
            }
            ∷ is;
      })
    ]
  ]

  -- `create_to_sign`; `none` is a panic.
  unfoldable pub create_to_sign : Transaction → Option Witness → LockParams → Option Psbt
  unfolding fill_challenge
  create_to_sign to_spend witness locks =
      elim (from_unsigned_tx (to_sign_transaction to_spend [] locks)) [
        | none ↦ none
        | some psbt ↦ fill_challenge to_spend witness psbt
      ]

  unfoldable pub require_simple_format : Address → Result (Unit {0})
  require_simple_format address = elim (address_data address) [
    | AddressData.segwit ↦ ok tt
    | _ ↦ err (simple_format_unsupported (address_to_string address))
  ]

  unfoldable pub is_bip322_output : List TxOut → Bool
  unfolding op_return_script
  is_bip322_output [] = false
  is_bip322_output (output ∷ []) =
      output.value == 0 && bytes_eq output.script_pubkey op_return_script
  is_bip322_output (output ∷ o ∷ os) = false

  unfoldable pub parse_address : Bytes → Result Address
  parse_address address = ok_or (address_from_str address) (address_parse address)
