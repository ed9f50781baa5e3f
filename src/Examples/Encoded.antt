-- ===== src/Examples/Encoded.antt =====
-- Encoded proofs that verify: the small instance with decoders that read these proofs.
use bip.Base.{Bytes, [], bytes_eq, length, refl, replicate, some, true, ◌++◌, ◌∷◌, ◌≡◌, ◌≤◌}
use bip.Bitcoin.Api.{Api}
use bip.Bitcoin.Data.{Psbt, Transaction, Witness}
use bip.Bound.{bound_p2wpkh, verifies}
use bip.Error.{ok, signature_decode, transaction_base64_decode}
use bip.Examples.Proofs.{first_input, hello, key_script, signed, signed_tx, two_inputs}
use bip.Examples.Toy.{toy}
use bip.Message.Defs.{
  create_to_sign, create_to_spend, create_to_spend_from_script, is_bip322_output, parse_address,
  require_simple_format, to_sign_transaction,
}
use bip.Message.Payload.{
  decode_payload, full_signature_prefix, pof_signature_prefix, simple_signature_prefix,
  strip_prefix,
}
use bip.Outpoints.Defs.{any_bad, contains, outpoint_eq, validate_outpoints, validate_psbt_structure}
use bip.Preflight.Cursor.{compact_size, count, done, skip, take_bytes}
use bip.Preflight.Formats.{PsbtShape, inputs, outputs, transaction, unsigned_transaction, witness}
use bip.Preflight.Psbt.{for_pairs, global_pair, pair, psbt}
use bip.Prevouts.Defs.{get, new, non_witness_tx, outpoint, resolve, txout_eq}
use bip.Script.Defs.{require_low_s}
use bip.Spend.Checks.{
  check_script, check_witness_stack, contains_codeseparator, is_naked_zero_timelock,
}
use bip.Spend.Defs.{
  has_naked_zero_timelock, inner_script, is_witness, prevout, spends_codeseparator, txin,
}
use bip.Spend.Kinds.{witness_kind}
use bip.Spend.Parse.{kind_of, native_kind, parse}
use bip.Templates.Defs.{parse_ecdsa_signature, verify_ecdsa, verify_p2wpkh}
use bip.Verify.Decode.{
  decode_full, decode_pof, decode_simple, verify_full_encoded, verify_pof_encoded,
  verify_simple_encoded,
}
use bip.Verify.Defs.{
  check_to_sign, parse_spends, valid_at, verify_full, verify_input, verify_simple, verify_spends,
}
use bip.Verify.Encoded.{
  Carries, verify_full_encoded_valid, verify_pof_encoded_valid, verify_simple_encoded_valid,
}
use bip.Verify.Pof.{check_message, resolve_from, unknown_get, verify_pof}

abbrev decoding : Api
decoding = record toy {
  decode_witness = λ bytes. some (signed, []);
  decode_transaction = λ bytes. some (signed_tx (first_input ∷ []), []);
  deserialize_psbt = λ bytes. some (two_inputs, []);
}

-- A witness of two items.
abbrev witness_bytes : Bytes
witness_bytes = 2 ∷ 1 ∷ 11 ∷ 0 ∷ []

-- A version, one input with an empty script, no output and a lock time.
abbrev transaction_bytes : Bytes
transaction_bytes =
    2 ∷ 0 ∷ 0 ∷ 0 ∷ 1 ∷ (replicate 36 3 ++ (0 ∷ 0 ∷ 0 ∷ 0 ∷ 0 ∷ 0 ∷ 0 ∷ 0 ∷ 0 ∷ 0 ∷ []))

-- A PSBT whose unsigned transaction has two inputs and an output, with empty maps for them.
abbrev psbt_bytes : Bytes
psbt_bytes =
    0x70
    ∷ 0x73
    ∷ 0x62
    ∷ 0x74
    ∷ 0xff
    ∷ 1
    ∷ 0
    ∷ 102
    ∷ 2
    ∷ 0
    ∷ 0
    ∷ 0
    ∷ 2
    ∷ (replicate 36 3
        ++ (0
            ∷ 0
            ∷ 0
            ∷ 0
            ∷ 0
            ∷ (replicate 36 4
                ++ (0 ∷ 0 ∷ 0 ∷ 0 ∷ 0 ∷ 1 ∷ 0 ∷ 0 ∷ 0 ∷ 0 ∷ 0 ∷ 0 ∷ 0 ∷ 0 ∷ 1 ∷ 0x6a ∷ 0 ∷ 0 ∷ 0 ∷ 0
                    ∷ 0 ∷ 0 ∷ 0 ∷ 0 ∷ []))))

simple_runs :
    verify_simple_encoded decoding key_script hello (simple_signature_prefix ++ witness_bytes)
    ≡ some (valid_at 0 0)
unfolding verify_simple_encoded decode_simple strip_prefix decode_payload parse_address take_bytes
    skip compact_size count witness bytes_eq outpoint_eq create_to_spend_from_script create_to_spend
    is_bip322_output require_low_s bound_p2wpkh verifies check_witness_stack check_script
    contains_codeseparator is_naked_zero_timelock txin prevout inner_script spends_codeseparator
    has_naked_zero_timelock witness_kind native_kind kind_of parse parse_ecdsa_signature
    verify_ecdsa verify_p2wpkh verify_input verify_spends parse_spends check_to_sign verify_full
    verify_simple create_to_sign to_sign_transaction require_simple_format
simple_runs = refl

full_runs :
    verify_full_encoded decoding key_script hello (full_signature_prefix ++ transaction_bytes)
    ≡ valid_at 5 6
unfolding verify_full_encoded decode_full strip_prefix decode_payload parse_address take_bytes skip
    compact_size count inputs outputs transaction bytes_eq outpoint_eq create_to_spend_from_script
    create_to_spend is_bip322_output require_low_s bound_p2wpkh verifies check_witness_stack
    check_script contains_codeseparator is_naked_zero_timelock txin prevout inner_script
    spends_codeseparator has_naked_zero_timelock witness_kind native_kind kind_of parse
    parse_ecdsa_signature verify_ecdsa verify_p2wpkh verify_input verify_spends parse_spends
    check_to_sign verify_full
full_runs = refl

pof_runs :
    verify_pof_encoded decoding key_script hello (pof_signature_prefix ++ psbt_bytes) ≡ valid_at 5 6
unfolding verify_pof_encoded decode_pof strip_prefix decode_payload parse_address take_bytes skip
    compact_size count inputs outputs unsigned_transaction pair for_pairs global_pair psbt bytes_eq
    outpoint_eq contains any_bad validate_outpoints validate_psbt_structure
    create_to_spend_from_script create_to_spend is_bip322_output get txout_eq outpoint
    non_witness_tx resolve new require_low_s bound_p2wpkh verifies check_witness_stack check_script
    contains_codeseparator is_naked_zero_timelock txin prevout is_witness inner_script
    spends_codeseparator has_naked_zero_timelock witness_kind native_kind kind_of parse
    parse_ecdsa_signature verify_ecdsa verify_p2wpkh verify_input verify_spends parse_spends
    unknown_get check_message resolve_from verify_pof
pof_runs = refl

verify_simple_encoded_valid_example :
    (a : Bytes) × (w : Witness) × (bytes : Bytes) × (parse_address decoding key_script ≡ ok a)
    × Carries decoding
        (simple_signature_prefix ++ witness_bytes)
        simple_signature_prefix
        signature_decode
        bytes
    × (length bytes ≤ 4_000_000)
    × (witness bytes ≡ true)
    × (decoding.decode_witness bytes ≡ some (w, []))
    × (verify_simple decoding a hello w ≡ some (valid_at 0 0))
verify_simple_encoded_valid_example =
    verify_simple_encoded_valid decoding key_script hello (simple_signature_prefix ++ witness_bytes)
      0 0 simple_runs

verify_full_encoded_valid_example :
    (a : Bytes) × (tx : Transaction) × (bytes : Bytes) × (parse_address decoding key_script ≡ ok a)
    × Carries decoding
        (full_signature_prefix ++ transaction_bytes)
        full_signature_prefix
        transaction_base64_decode
        bytes
    × (length bytes ≤ 4_000_000)
    × (transaction bytes ≡ true)
    × (decoding.decode_transaction bytes ≡ some (tx, []))
    × (verify_full decoding a hello tx ≡ valid_at 5 6)
verify_full_encoded_valid_example =
    verify_full_encoded_valid decoding key_script hello (full_signature_prefix ++ transaction_bytes)
      5 6 full_runs

verify_pof_encoded_valid_example :
    (a : Bytes) × (p : Psbt) × (bytes : Bytes) × (shape : PsbtShape) × (parse_address decoding
        key_script
      ≡ ok a)
    × Carries decoding
        (pof_signature_prefix ++ psbt_bytes)
        pof_signature_prefix
        transaction_base64_decode
        bytes
    × (psbt bytes ≡ done shape)
    × (shape.inputs ≤ 1024)
    × (shape.outputs ≡ 1)
    × (decoding.deserialize_psbt bytes ≡ some (p, []))
    × (verify_pof decoding a hello p ≡ valid_at 5 6)
verify_pof_encoded_valid_example =
    verify_pof_encoded_valid decoding key_script hello (pof_signature_prefix ++ psbt_bytes) 5 6
      pof_runs
