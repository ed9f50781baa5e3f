-- ===== src/Examples/Finalized.antt =====
-- Requests that are finalized, and proofs that are signed at once, with the small instance.
use bip.Base.{
  ℕ, ◌≤◌, ◌≡◌, refl, true, false, none, some, inl, inr, Bool, List, [], ◌∷◌, ◌++◌, Bytes, bytes_eq,
  Bool-cases, All, map, get_elem?, is_utf8,
}
use bip.Error.{ok}
use bip.Limits.{check_input_count}
use bip.Bitcoin.Data.{Script, Witness, TxOut, PsbtInput, EcdsaSighashType}
use bip.Outpoints.Defs.{
  outpoint_eq, contains, any_bad, validate_outpoints, validate_psbt_structure, validate_weight,
}
use bip.Prevouts.Defs.{
  get, or_insert, txout_eq, outpoint, up_to, non_witness_tx, has_non_witness, claimed, agreed,
  resolve, index_tx, index_inputs, new, checked_psbt_input_prevout,
}
use bip.Script.Defs.{
  parse_multisig, spends_witness, p2sh_redeem_script, collect, pushnum, number, is_checkmultisig,
  public_keys, parse_parts, parse_instructions,
}
use bip.Message.Defs.{
  tagged_hash, create_to_spend, create_to_spend_from_script, version, op_return_script,
  to_sign_transaction, is_bip322_output,
}
use bip.Message.Create.{
  unknown_insert, set_challenge_utxo, set_previous_tx, set_proof_input_utxo, set_proof_utxos,
  set_utxos, create_proof_psbt,
}
use bip.Templates.Defs.{verify_checkmultisig}
use bip.Templates.Multisig.{bound}
use bip.Verify.Pof.{unknown_get}
use bip.Roles.Detect.{claimed_output, detect_bip322_psbt}
use bip.Roles.Helpers.{
  Input, Request, view, declared_ecdsa_sighash, commits_to, require_multisig_challenge,
  checked_partial_sig, single_partial_sig,
}
use bip.Roles.Signer.{
  partial_insert, p2wpkh_message, ecdsa_message, sign_ecdsa_input, signed_input, multisig_script,
}
use bip.Roles.Steps.{Kept}
use bip.Roles.Finalizer.{
  clear_non_final_fields, with_final, finalize_p2wpkh, finalize_challenge, finalize_redeem,
  finalize_input, finalize_inputs, challenges_from, finalized, partial_get, collect_signatures,
  with_signatures, finalize_multisig,
}
use bip.Roles.Final.{IsFinal, extras, finalized-IsFinal}
use bip.Roles.Reveals.{Reveals}
use bip.Roles.Multisig.{ValidFor, IsCollected, finalize_multisig-checkmultisig}
use bip.Roles.Agreement.{signed_input-finalize_input}
use bip.Sign.{as_request, as_input, sign_pof, sign_proof_inputs}
use bip.Sign.Input.{
  witness_at, single_key, update_input, set_witness, create_message_signature_p2wpkh, sign_kind,
  sign_input,
}
use bip.Sign.Checked.{Owns}
use bip.Sign.Owned.{sign_input-Owns}
use bip.Sign.Proof.{IsOwned, sign_pof-detect_bip322_psbt}
use bip.Examples.Toy.{toy, no_fields}
use bip.Examples.Proofs.{key_script, hello, signed}
use bip.Examples.Requests.{funds, request, output_of, signed_by, to_sign, wraps}
use bip.Examples.Signing.{key_bytes, locks, two_of_three, signatures, toy-Signs}

-- The two inputs with their final witnesses.
abbrev final_input : PsbtInput → Input toy
final_input i = as_input toy (record i { final_script_witness = some signed })

abbrev final_request : Request toy
final_request = record (as_request toy request) {
  inputs = final_input (output_of 0) ∷ final_input (output_of 1000) ∷ [];
}

-- The same with a field of another application in the first input map.
abbrev annotated : Input toy → Input toy
annotated i = record i { unknown = (record { type_value = 7; key = 1 ∷ [] }, hello) ∷ [] }

abbrev annotated_request : Input toy → Input toy → Request toy
annotated_request first second = record (as_request toy request) {
  inputs = annotated first ∷ second ∷ [];
}

abbrev signed_request : Request toy
signed_request = annotated_request (signed_by (output_of 0)) (signed_by (output_of 1000))

abbrev finished_request : Request toy
finished_request = annotated_request (final_input (output_of 0)) (final_input (output_of 1000))

finalizes : finalized toy signed_request ≡ ok finished_request
unfolding bytes_eq is_utf8 check_input_count outpoint_eq contains any_bad validate_outpoints
    validate_psbt_structure get or_insert txout_eq outpoint up_to non_witness_tx has_non_witness
    claimed agreed resolve index_tx index_inputs new checked_psbt_input_prevout spends_witness
    tagged_hash create_to_spend_from_script op_return_script is_bip322_output unknown_get
    claimed_output detect_bip322_psbt declared_ecdsa_sighash checked_partial_sig single_partial_sig
    clear_non_final_fields with_final finalize_p2wpkh finalize_challenge finalize_redeem
    finalize_input finalize_inputs challenges_from finalized
finalizes = refl

finalized-IsFinal_example :
    All (IsFinal toy) finished_request.inputs
    × (map (extras toy) finished_request.inputs ≡ map (extras toy) signed_request.inputs)
    × Kept toy signed_request finished_request
    × (detect_bip322_psbt toy (view finished_request)
        ≡ detect_bip322_psbt toy (view signed_request))
finalized-IsFinal_example = finalized-IsFinal toy signed_request finished_request finalizes

abbrev challenge : TxOut
challenge = record { value = 0; script_pubkey = key_script }

signs_input :
    signed_input toy to_sign key_bytes 0
      (challenge ∷ funds.prevout ∷ [])
      challenge
      key_script
      (as_input toy (output_of 0))
    ≡ ok (signed_by (output_of 0))
unfolding bytes_eq declared_ecdsa_sighash partial_insert p2wpkh_message ecdsa_message
    sign_ecdsa_input signed_input
signs_input = refl

signed_input-finalize_input_example :
    (w : Witness) × (final : Input toy) × (finalize_input toy (signed_by (output_of 0)) key_script
      ≡ ok final)
    × (final.base.final_script_witness ≡ some w)
    × (final.base.final_script_sig ≡ none)
    × (create_message_signature_p2wpkh toy (as_request toy request) key_bytes challenge 0 false
        ≡ ok w)
signed_input-finalize_input_example =
    signed_input-finalize_input toy (as_request toy request) key_bytes 0
      (challenge ∷ funds.prevout ∷ []) challenge (as_input toy (output_of 0))
      (signed_by (output_of 0))
      (record {
        previous_output = record { txid = 0 ∷ 0 ∷ 1 ∷ []; vout = 0 };
        script_sig = [];
        sequence = 6;
        witness = [];
      })
      (refl, refl, refl, refl) refl refl refl refl signs_input

-- A P2WSH input with the signatures of two keys.
abbrev two_signatures : List (Bytes × (Bytes × EcdsaSighashType))
two_signatures =
    (9 ∷ 9 ∷ [], (9 ∷ 9 ∷ [], EcdsaSighashType.all))
    ∷ (7 ∷ 7 ∷ [], (7 ∷ 7 ∷ [], EcdsaSighashType.all))
    ∷ []

abbrev multisig_input : Input toy
multisig_input = record (as_input toy (record no_fields { witness_script = some two_of_three })) {
  partial_sigs = two_signatures;
}

abbrev multisig_challenge : Script
multisig_challenge = 0 ∷ 32 ∷ two_of_three

abbrev multisig_finished : Input toy
multisig_finished =
    as_input toy
      (record no_fields { final_script_witness = some ([] ∷ signatures ++ (two_of_three ∷ [])) })

multisig_runs : finalize_multisig toy multisig_input multisig_challenge ≡ ok multisig_finished
unfolding bytes_eq collect pushnum number is_checkmultisig public_keys parse_parts
    parse_instructions parse_multisig multisig_script commits_to require_multisig_challenge
    declared_ecdsa_sighash partial_get collect_signatures clear_non_final_fields with_final
    with_signatures finalize_multisig
multisig_runs = refl

valid_for : ValidFor toy [] two_signatures
unfolding partial_get
valid_for k s t e = elim (Bool-cases (bytes_eq (9 ∷ 9 ∷ []) k)) [
  | inl a ↦
      let f : some (9 ∷ 9 ∷ [], EcdsaSighashType.all) ≡ some (s, t) = rw (partial_get, a) at e in
      let same : 9 ∷ 9 ∷ [] ≡ s = cc in toy-Signs [] s k (rw (← same) a)
  | inr a ↦ elim (Bool-cases (bytes_eq (7 ∷ 7 ∷ []) k)) [
    | inl b ↦
        let f : some (7 ∷ 7 ∷ [], EcdsaSighashType.all) ≡ some (s, t) =
          rw (partial_get, a, b) at e in
        let same : 7 ∷ 7 ∷ [] ≡ s = cc in toy-Signs [] s k (rw (← same) b)
    | inr b ↦ cc (rw (partial_get, a, b) at e)
  ]
]

finalize_multisig-checkmultisig_example :
    (script : Script) × (is_witness : Bool) × (required : ℕ) × (pubkeys : List Bytes) × (sigs : List
      Bytes)
    × (commits_to toy script multisig_challenge is_witness none ≡ true)
    × (parse_multisig toy script ≡ ok (required, pubkeys))
    × Reveals toy multisig_finished script is_witness none sigs
    × All (IsCollected toy pubkeys two_signatures) sigs
    × (verify_checkmultisig toy ([] ∷ sigs) required (bound toy pubkeys) (ok []) ≡ ok tt)
finalize_multisig-checkmultisig_example =
    finalize_multisig-checkmultisig toy multisig_input multisig_finished multisig_challenge []
      valid_for multisig_runs

-- The first input signed at once.
abbrev first_signed : Request toy
first_signed = record (as_request toy request) {
  inputs = final_input (output_of 0) ∷ as_input toy (output_of 1000) ∷ [];
}

input_runs :
    sign_input toy (as_request toy request) (challenge ∷ funds.prevout ∷ []) (key_bytes ∷ []) none 0
    ≡ ok first_signed
unfolding bytes_eq witness_at single_key update_input set_witness create_message_signature_p2wpkh
    sign_kind sign_input
input_runs = refl

sign_input-Owns_example :
    (false ≡ false)
    × ((prevout : TxOut) × (get_elem? (challenge ∷ funds.prevout ∷ []) 0 ≡ some prevout)
        × Owns toy prevout.script_pubkey (key_bytes ∷ []) none)
    × Kept toy (as_request toy request) first_signed
sign_input-Owns_example =
    sign_input-Owns toy (as_request toy request) first_signed (challenge ∷ funds.prevout ∷ [])
      (key_bytes ∷ []) none 0 input_runs

pof_runs : sign_pof toy key_script hello (key_bytes ∷ []) none (funds ∷ []) locks ≡ ok final_request
unfolding bytes_eq is_utf8 check_input_count outpoint_eq contains any_bad validate_outpoints
    txout_eq spends_witness p2sh_redeem_script tagged_hash create_to_spend
    create_to_spend_from_script version op_return_script to_sign_transaction unknown_insert
    set_challenge_utxo set_previous_tx set_proof_input_utxo set_proof_utxos set_utxos
    create_proof_psbt witness_at single_key update_input set_witness create_message_signature_p2wpkh
    sign_kind sign_input sign_proof_inputs validate_weight sign_pof
pof_runs = refl

sign_pof-detect_bip322_psbt_example :
    (false ≡ false)
    × (false ≡ false)
    × Owns toy key_script (key_bytes ∷ []) none
    × All (IsOwned toy) (funds ∷ [])
    × (400 ≤ 4_000_000)
    × (detect_bip322_psbt toy (view final_request)
        ≡ some (record { message = hello; message_challenge = key_script }))
sign_pof-detect_bip322_psbt_example =
    sign_pof-detect_bip322_psbt toy key_script hello (key_bytes ∷ []) none (funds ∷ []) locks
      final_request wraps pof_runs
