-- ===== src/Examples/Proofs.antt =====
-- Proofs that verify, made with the small instance.
use bip.Base.{
  true, ◌⊎◌, get_elem?, bytes_eq, ℕ, ◌≤◌, ◌≡◌, ◌↔◌, refl, arith, false, none, some, List, [], ◌∷◌,
  ◌++◌, Bytes, replicate, All,
}
use bip.Error.{ok}
use bip.Bitcoin.Data.{Script, TxIn, TxOut, Transaction, PsbtInput, Psbt, Witness}
use bip.Message.Defs.{
  create_to_spend, to_sign_transaction, default_locks, create_to_spend_from_script,
  is_bip322_output,
}
use bip.Prevouts.Defs.{new, resolve, get, txout_eq, outpoint, non_witness_tx}
use bip.Spend.Defs.{
  p2wpkh, spends_codeseparator, txin, prevout, is_witness, inner_script, has_naked_zero_timelock,
}
use bip.Spend.Parse.{parse, native_kind, kind_of}
use bip.Spend.Binding.{Binds, parse-Binds}
use bip.Templates.Defs.{
  inconclusive, LibSpend, valid, verify_p2wpkh, parse_ecdsa_signature, verify_ecdsa,
}
use bip.Templates.Single.{SignedByHash, verify_p2wpkh_iff}
use bip.Interpreter.Defs.{verify_with_interpreter}
use bip.Interpreter.Rules.{Allowed, interpreter_of, verify_with_interpreter_iff}
use bip.Verify.Defs.{
  valid_at, inconclusive_proof, check_to_sign, verify_spends, verify_full, verify_input,
  parse_spends,
}
use bip.Verify.Pof.{verify_pof, unknown_get, check_message, resolve_from}
use bip.Verify.Verdict.{
  Yields, Accepted, AnyInconclusive, Checkable, KnownVersion, verify_spends_valid,
  verify_spends_inconclusive,
}
use bip.Verify.Full.{IsToSign, Parsed, verify_full_valid, check_to_sign-to_sign_transaction}
use bip.Verify.Proof.{WellFormed, Backed, verify_pof_valid}
use bip.Bitcoin.Api.{constraint}
use bip.Examples.Toy.{toy, no_fields, extract}
use bip.Outpoints.Defs.{outpoint_eq, contains, any_bad, validate_outpoints, validate_psbt_structure}
use bip.Script.Defs.{require_low_s}
use bip.Bound.{bound_p2wpkh, verifies}
use bip.Spend.Checks.{
  check_witness_stack, check_script, contains_codeseparator, is_naked_zero_timelock,
}
use bip.Spend.Kinds.{witness_kind}

abbrev key_bytes : Bytes
key_bytes = replicate 20 7

-- The P2WPKH script of the key.
abbrev pub key_script : Script
key_script = 0 ∷ 20 ∷ key_bytes

-- The signature, with the byte for SIGHASH_ALL, and the key.
abbrev pub signed : Witness
signed = (key_bytes ++ (1 ∷ [])) ∷ key_bytes ∷ []

abbrev pub hello : Bytes
hello = b'h' ∷ b'i' ∷ []

abbrev to_spend : Transaction
to_spend = record {
  version = 0;
  lock_time = 0;
  input = (create_to_spend toy key_script hello).input;
  output = record { value = 0; script_pubkey = key_script } ∷ [];
}

abbrev pub first_input : TxIn
first_input = record {
  previous_output = record { txid = 0 ∷ 0 ∷ 1 ∷ []; vout = 0 };
  script_sig = [];
  sequence = 6;
  witness = signed;
}

abbrev other_input : TxIn
other_input = record {
  previous_output = record { txid = 9 ∷ []; vout = 4 };
  script_sig = [];
  sequence = 0;
  witness = signed;
}

abbrev pub signed_tx : List TxIn → Transaction
signed_tx inputs = record {
  version = 2;
  lock_time = 5;
  input = inputs;
  output = record { value = 0; script_pubkey = 0x6a ∷ [] } ∷ [];
}

abbrev later_version : Transaction
later_version = record (signed_tx (first_input ∷ [])) { version = 3 }

abbrev signed_spend : LibSpend toy
signed_spend = record {
  to_sign = signed_tx (first_input ∷ []);
  input_index = 0;
  prevouts = record { value = 0; script_pubkey = key_script } ∷ [];
  kind = p2wpkh key_bytes;
}

abbrev unsigned : TxIn → TxIn
unsigned i = record i { witness = [] }

abbrev fields : ℕ → PsbtInput
fields value = record no_fields {
  witness_utxo = some (record { value = value; script_pubkey = key_script });
  final_script_witness = some signed;
}

-- A proof of funds with one input besides the challenge.
abbrev pub two_inputs : Psbt
two_inputs = record {
  unsigned_tx = signed_tx (unsigned first_input ∷ unsigned other_input ∷ []);
  inputs = fields 0 ∷ fields 1000 ∷ [];
  output_count = 1;
  unknown = [];
}

full_runs : verify_full toy key_script hello (signed_tx (first_input ∷ [])) ≡ valid_at 5 6
unfolding bytes_eq outpoint_eq create_to_spend_from_script create_to_spend is_bip322_output
    require_low_s bound_p2wpkh verifies check_witness_stack check_script contains_codeseparator
    is_naked_zero_timelock txin prevout inner_script spends_codeseparator has_naked_zero_timelock
    witness_kind native_kind kind_of parse parse_ecdsa_signature verify_ecdsa verify_p2wpkh
    verify_input verify_spends parse_spends check_to_sign verify_full
full_runs = refl

pof_runs : verify_pof toy key_script hello two_inputs ≡ valid_at 5 6
unfolding bytes_eq outpoint_eq contains any_bad validate_outpoints validate_psbt_structure
    create_to_spend_from_script create_to_spend is_bip322_output get txout_eq outpoint
    non_witness_tx resolve new require_low_s bound_p2wpkh verifies check_witness_stack check_script
    contains_codeseparator is_naked_zero_timelock txin prevout is_witness inner_script
    spends_codeseparator has_naked_zero_timelock witness_kind native_kind kind_of parse
    parse_ecdsa_signature verify_ecdsa verify_p2wpkh verify_input verify_spends parse_spends
    unknown_get check_message resolve_from verify_pof
pof_runs = refl

parse_runs : parse toy (signed_tx (first_input ∷ [])) signed_spend.prevouts 0 ≡ ok signed_spend
unfolding check_witness_stack check_script witness_kind native_kind kind_of parse
parse_runs = refl

verify_full_valid_example :
    (verify_full toy key_script hello (signed_tx (first_input ∷ [])) ≡ valid_at 5 6) ↔ (
      (i : TxIn) × (spend : LibSpend toy) × IsToSign toy
        (create_to_spend toy key_script hello)
        (signed_tx (first_input ∷ []))
        i
      × Parsed toy (create_to_spend toy key_script hello) (signed_tx (first_input ∷ [])) spend
      × (spends_codeseparator toy spend ≡ false)
      × Yields toy valid spend
      × KnownVersion (signed_tx (first_input ∷ []))
      × (5 ≡ (signed_tx (first_input ∷ [])).lock_time)
      × (6 ≡ i.sequence))
verify_full_valid_example =
    verify_full_valid toy key_script hello (signed_tx (first_input ∷ [])) 5 6

verify_pof_valid_example :
    (2 ≤ 1024)
    × WellFormed toy (create_to_spend toy key_script hello) hello two_inputs
    × (400 ≤ 4_000_000)
    × ((spends : List (LibSpend toy)) × Backed toy
          (create_to_spend toy key_script hello)
          two_inputs
          spends
        × (verify_spends toy (extract two_inputs) spends ≡ valid_at 5 6))
verify_pof_valid_example = verify_pof_valid toy key_script hello two_inputs 5 6 pof_runs

verify_spends_valid_example :
    (verify_spends toy (signed_tx (first_input ∷ [])) (signed_spend ∷ []) ≡ valid_at 5 6) ↔ (
      (i : TxIn) × (is : List TxIn) × Checkable toy
        (signed_tx (first_input ∷ []))
        i
        is
        (signed_spend ∷ [])
      × All (Yields toy valid) (signed_spend ∷ [])
      × KnownVersion (signed_tx (first_input ∷ []))
      × (5 ≡ (signed_tx (first_input ∷ [])).lock_time)
      × (6 ≡ i.sequence))
verify_spends_valid_example =
    verify_spends_valid toy (signed_tx (first_input ∷ [])) (signed_spend ∷ []) 5 6

verify_spends_inconclusive_example :
    (verify_spends toy later_version (signed_spend ∷ []) ≡ inconclusive_proof) ↔ (
      (i : TxIn) × (is : List TxIn) × Checkable toy later_version i is (signed_spend ∷ [])
      × All (Accepted toy) (signed_spend ∷ [])
      × (AnyInconclusive toy (signed_spend ∷ []) ⊎ (KnownVersion later_version → ⊥)))
verify_spends_inconclusive_example =
    verify_spends_inconclusive toy later_version (signed_spend ∷ [])

check_to_sign-to_sign_transaction_example :
    check_to_sign toy to_spend (to_sign_transaction toy to_spend [] default_locks) ≡ true
check_to_sign-to_sign_transaction_example =
    check_to_sign-to_sign_transaction toy to_spend default_locks (omega arith)

parse-Binds_example :
    (i : TxIn) × (o : TxOut) × (get_elem? (first_input ∷ []) 0 ≡ some i)
    × (get_elem? signed_spend.prevouts 0 ≡ some o)
    × (check_script toy i.script_sig ≡ ok tt)
    × (check_script toy o.script_pubkey ≡ ok tt)
    × Binds toy o.script_pubkey i.script_sig (p2wpkh key_bytes)
    × (signed_spend.to_sign ≡ signed_tx (first_input ∷ []))
    × (signed_spend.input_index ≡ 0)
    × (signed_spend.prevouts ≡ signed_spend.prevouts)
parse-Binds_example =
    parse-Binds toy (signed_tx (first_input ∷ [])) signed_spend.prevouts 0 signed_spend parse_runs

verify_p2wpkh_iff_example :
    (verify_p2wpkh toy signed_spend key_bytes ≡ ok tt) ↔ SignedByHash toy signed_spend key_bytes
verify_p2wpkh_iff_example = verify_p2wpkh_iff toy signed_spend key_bytes

verify_with_interpreter_iff_example :
    ((verify_with_interpreter toy signed_spend ≡ ok valid) ↔ (
      (i : Script) × (interpreter_of toy signed_spend ≡ some i)
      × All (Allowed toy signed_spend) (constraint ∷ [])))
    × ((verify_with_interpreter toy signed_spend ≡ ok inconclusive)
        ↔ (interpreter_of toy signed_spend ≡ none))
verify_with_interpreter_iff_example = verify_with_interpreter_iff toy signed_spend
