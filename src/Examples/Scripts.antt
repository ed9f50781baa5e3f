-- ===== src/Examples/Scripts.antt =====
-- Scripts, signatures and outpoints, with the small instance.
use bip.Base.{
  ℕ, ◌-◌, ◌≤◌, ◌≡◌, ◌↔◌, ◌⊎◌, refl, true, none, some, List, [], ◌∷◌, ◌++◌, Bytes, replicate, length,
  All, take, bytes_eq, Option,
}
use bip.Error.{ok}
use bip.Bitcoin.Data.{Script, OutPoint, TxIn, Transaction, Psbt, TapSighashType}
use bip.Outpoints.Defs.{validate_outpoints, outpoints}
use bip.Outpoints.Distinct.{Distinct, validate_outpoints_iff}
use bip.Prevouts.Defs.{
  PrevoutResolver, new, resolve, non_witness_tx, index_inputs, index_tx, get, or_insert,
}
use bip.Prevouts.Agreement.{Agree, resolve_iff}
use bip.Prevouts.Scan.{carried, non_witness_tx-carried}
use bip.Script.Defs.{parse_multisig}
use bip.Script.Multisig.{IsMultisig, parse_multisig_iff}
use bip.Bound.{BoundPublicKey}
use bip.Spend.Checks.{check_script, check_witness_stack}
use bip.Spend.Limits.{IsGood, IsShort, ops_cost, check_script_iff, check_witness_stack_iff}
use bip.Templates.Defs.{
  verify_p2wsh_multisig, match_signatures, parse_ecdsa_signature, LibSpend, valid,
}
use bip.Templates.Matching.{Assignable, match_signatures_iff}
use bip.Templates.Single.{EncodesAll, parse_ecdsa_signature_iff}
use bip.Taproot.Defs.{parse_taproot_signature, contains_op_success, verify_p2tr}
use bip.Taproot.KeyPath.{SignedBy, verify_p2tr_key}
use bip.Templates.Multisig.{Satisfies, bound, verify_p2wsh_multisig_iff}
use bip.Spend.Defs.{p2wsh, txin, p2tr, key}
use bip.Taproot.Signature.{Bare, Typed, SignsAll, parse_taproot_signature_iff}
use bip.Taproot.Success.{Succeeds, contains_op_success_iff}
use bip.Examples.Toy.{toy, no_fields, decode_script}

-- 2 <7 7> <8 8> <9 9> 3 CHECKMULTISIG
abbrev two_of_three : Script
two_of_three = 0x52 ∷ 2 ∷ 7 ∷ 7 ∷ 2 ∷ 8 ∷ 8 ∷ 2 ∷ 9 ∷ 9 ∷ 0x53 ∷ 0xae ∷ []

abbrev keys : List Bytes
keys = (7 ∷ 7 ∷ []) ∷ (8 ∷ 8 ∷ []) ∷ (9 ∷ 9 ∷ []) ∷ []

abbrev bound_keys : List (BoundPublicKey Bytes)
bound_keys =
    record { key = 7 ∷ 7 ∷ [] } ∷ record { key = 8 ∷ 8 ∷ [] } ∷ record { key = 9 ∷ 9 ∷ [] } ∷ []

-- Signatures by the first and the last key.
abbrev signatures : List Bytes
signatures = (7 ∷ 7 ∷ 1 ∷ []) ∷ (9 ∷ 9 ∷ 1 ∷ []) ∷ []

parse_multisig_iff_example :
    (parse_multisig toy two_of_three ≡ ok (2, keys)) ↔ IsMultisig toy two_of_three 2 keys
parse_multisig_iff_example = parse_multisig_iff toy two_of_three 2 keys

match_signatures_iff_example :
    (match_signatures toy [] signatures bound_keys ≡ ok tt)
    ↔ Assignable toy [] signatures bound_keys
match_signatures_iff_example = match_signatures_iff toy [] signatures bound_keys

parse_ecdsa_signature_iff_example :
    (parse_ecdsa_signature toy (7 ∷ 7 ∷ 1 ∷ []) ≡ ok (7 ∷ 7 ∷ []))
    ↔ EncodesAll toy (7 ∷ 7 ∷ 1 ∷ []) (7 ∷ 7 ∷ [])
parse_ecdsa_signature_iff_example = parse_ecdsa_signature_iff toy (7 ∷ 7 ∷ 1 ∷ []) (7 ∷ 7 ∷ [])

-- 64 bytes and the byte for SIGHASH_ALL.
abbrev typed : Bytes
typed = replicate 64 5 ++ (1 ∷ [])

parse_taproot_signature_iff_example :
    (parse_taproot_signature toy typed ≡ ok (replicate 64 5, TapSighashType.all)) ↔ (
      (Bare toy typed (replicate 64 5) TapSighashType.all
        ⊎ Typed toy typed (replicate 64 5) TapSighashType.all)
      × SignsAll TapSighashType.all)
parse_taproot_signature_iff_example =
    parse_taproot_signature_iff toy typed (replicate 64 5) TapSighashType.all

-- A success opcode in front of a push that is cut off.
abbrev success : Script
success = 1 ∷ 4 ∷ 0x50 ∷ 9 ∷ []

contains_op_success_iff_example :
    (contains_op_success toy success ≡ true) ↔ Succeeds toy (decode_script 0 [] success)
contains_op_success_iff_example = contains_op_success_iff toy success

check_script_iff_example : (check_script toy two_of_three ≡ ok tt) ↔ (
    (length two_of_three ≤ 10_000)
    × All IsGood (decode_script 0 [] two_of_three)
    × (ops_cost (decode_script 0 [] two_of_three) ≤ 201))
check_script_iff_example = check_script_iff toy two_of_three

check_witness_stack_iff_example :
    (check_witness_stack signatures ≡ ok tt) ↔ ((length signatures ≤ 1000) × All IsShort signatures)
check_witness_stack_iff_example = check_witness_stack_iff signatures

abbrev spending : OutPoint → TxIn
spending o = record { previous_output = o; script_sig = []; sequence = 0; witness = [] }

-- A transaction with two outputs, which two inputs spend.
abbrev funding : Transaction
funding = record {
  version = 2;
  lock_time = 0;
  input = [];
  output =
      record { value = 10; script_pubkey = 0x51 ∷ [] }
      ∷ record { value = 20; script_pubkey = 0x52 ∷ [] }
      ∷ [];
}

abbrev funding_txid : Bytes
funding_txid = 0 ∷ 2 ∷ 2 ∷ []

abbrev spending_tx : Transaction
spending_tx = record {
  version = 0;
  lock_time = 0;
  input =
      spending (record { txid = funding_txid; vout = 0 })
      ∷ spending (record { txid = funding_txid; vout = 1 })
      ∷ [];
  output = [];
}

-- Only the first input carries the transaction.
abbrev carrying : Psbt
carrying = record {
  unsigned_tx = spending_tx;
  inputs = record no_fields { non_witness_utxo = some funding } ∷ no_fields ∷ [];
  output_count = 0;
  unknown = [];
}

abbrev resolver : PrevoutResolver
resolver = record {
  psbt = carrying;
  non_witness = (funding_txid, record { index = 0; tx = funding }) ∷ [];
}

new_runs : new toy carrying ≡ ok resolver
unfolding new index_inputs index_tx get or_insert bytes_eq
new_runs = refl

validate_outpoints_iff_example :
    (validate_outpoints spending_tx ≡ ok tt) ↔ Distinct [] (outpoints spending_tx)
validate_outpoints_iff_example = validate_outpoints_iff spending_tx

non_witness_tx-carried_example :
    non_witness_tx resolver 1 ≡ carried toy funding_txid (take 2 carrying.inputs)
non_witness_tx-carried_example =
    non_witness_tx-carried toy carrying resolver 1 (record { txid = funding_txid; vout = 1 })
      new_runs refl

resolve_iff_example :
    (resolve resolver 1 ≡ ok (record { value = 20; script_pubkey = 0x52 ∷ [] }))
    ↔ Agree none (non_witness_tx resolver 1) 1 (record { value = 20; script_pubkey = 0x52 ∷ [] })
resolve_iff_example =
    resolve_iff resolver 1 no_fields (record { txid = funding_txid; vout = 1 })
      (record { value = 20; script_pubkey = 0x52 ∷ [] }) refl refl

-- A key-path spend with a typed signature.
abbrev key_spend : LibSpend toy
key_spend = record {
  to_sign = spending_tx;
  input_index = 0;
  prevouts = record { value = 0; script_pubkey = 0x51 ∷ 32 ∷ replicate 32 6 } ∷ [];
  kind = p2tr (replicate 32 6) none (key typed);
}

verify_p2tr_key_example :
    (verify_p2tr toy key_spend (replicate 32 6) none (key typed) ≡ ok (some valid))
    ↔ ((◌≡◌ {A = Option Bytes} none none) × SignedBy toy key_spend none typed (replicate 32 6))
verify_p2tr_key_example = verify_p2tr_key toy key_spend (replicate 32 6) none typed

-- A P2WSH spend of the multisig script.
abbrev script_spend : LibSpend toy
script_spend = record {
  to_sign = record spending_tx {
    input =
        record (spending (record { txid = funding_txid; vout = 0 })) {
          witness = [] ∷ (signatures ++ (two_of_three ∷ []));
        }
        ∷ [];
  };
  input_index = 0;
  prevouts = record { value = 10; script_pubkey = 0 ∷ 32 ∷ two_of_three } ∷ [];
  kind = p2wsh (record { script = two_of_three });
}

verify_p2wsh_multisig_iff_example :
    (verify_p2wsh_multisig toy script_spend (record { script = two_of_three }) ≡ ok (some valid))
    ↔ ((m : ℕ) × (ks : List Bytes) × (h : Bytes) × IsMultisig toy two_of_three m ks
        × (◌≡◌ {A = Option Bytes} (some []) (some h))
        × Satisfies toy
            (take (length (txin script_spend).witness - 1) (txin script_spend).witness)
            m
            (bound toy ks)
            h)
verify_p2wsh_multisig_iff_example =
    verify_p2wsh_multisig_iff toy script_spend (record { script = two_of_three })
