-- ===== src/Examples/Requests.antt =====
-- Requests that are made, signed and finalized, with the small instance.
use bip.Base.{ℕ, ◌≡◌, ◌≢◌, ◌↔◌, refl, none, some, List, [], ◌∷◌, Bytes, map, bytes_eq, is_utf8}
use bip.Error.{ok, err, panic}
use bip.Limits.{check_input_count}
use bip.Bitcoin.Data.{TxIn, Transaction, PsbtInput, Psbt, EcdsaSighashType}
use bip.Outpoints.Defs.{outpoint_eq, contains, any_bad, validate_outpoints, validate_psbt_structure}
use bip.Prevouts.Defs.{
  get, or_insert, txout_eq, outpoint, up_to, non_witness_tx, has_non_witness, claimed, agreed,
  resolve, index_tx, index_inputs, new, checked_psbt_input_prevout,
}
use bip.Script.Defs.{spends_witness, p2sh_redeem_script}
use bip.Message.Defs.{
  tagged_hash, create_to_spend, create_to_spend_from_script, version, op_return_script,
  to_sign_transaction, is_bip322_output,
}
use bip.Message.Create.{
  ProofInput, unknown_insert, set_challenge_utxo, set_previous_tx, set_proof_input_utxo,
  set_proof_utxos, set_utxos, create_proof_psbt, outpoints_of,
}
use bip.Message.Backed.{IsProvable, Wrapped, create_proof_psbt_iff}
use bip.Verify.Pof.{unknown_get}
use bip.Roles.Detect.{Bip322Psbt, claimed_output, detect_bip322_psbt}
use bip.Roles.Detected.{all_utxos}
use bip.Roles.Helpers.{Input, Request, view, declared_ecdsa_sighash}
use bip.Roles.Creator.{
  set_input_script, set_proof_script, set_proof_scripts, set_challenge_script, create_bip322_psbt,
}
use bip.Roles.Made.{Wraps, no_utxos}
use bip.Roles.Created.{create_bip322_psbt-detect_bip322_psbt}
use bip.Roles.Signer.{
  partial_insert, checked_prevouts, p2wpkh_message, ecdsa_message, sign_ecdsa_input, signed_input,
  sign_bip322_psbt_input,
}
use bip.Roles.Steps.{unsigned, next, Kept, Signed-Kept}
use bip.Roles.Signing.{HashesInputs, sign_bip322_psbt_input-IsSafe}
use bip.Sign.{as_request, as_input}
use bip.Examples.Toy.{toy, no_fields, unsigned_psbt}
use bip.Examples.Proofs.{key_script, hello}
use bip.Examples.Signing.{key_bytes, locks}

-- A proof input beside the challenge.
abbrev pub funds : ProofInput Bytes
funds = record {
  outpoint = record { txid = 9 ∷ []; vout = 4 };
  prevout = record { value = 1000; script_pubkey = key_script };
  prev_tx = none;
  private_keys = key_bytes ∷ [];
  witness_script = none;
}

abbrev pub to_sign : Transaction
to_sign = record {
  version = 2;
  lock_time = 5;
  input =
      record {
        previous_output = record { txid = 0 ∷ 0 ∷ 1 ∷ []; vout = 0 };
        script_sig = [];
        sequence = 6;
        witness = [];
      }
      ∷ record {
        previous_output = record { txid = 9 ∷ []; vout = 4 };
        script_sig = [];
        sequence = 0;
        witness = [];
      }
      ∷ [];
  output = record { value = 0; script_pubkey = 0x6a ∷ [] } ∷ [];
}

abbrev pub output_of : ℕ → PsbtInput
output_of value = record no_fields {
  witness_utxo = some (record { value = value; script_pubkey = key_script });
}

abbrev pub request : Psbt
request = record {
  unsigned_tx = to_sign;
  inputs = output_of 0 ∷ output_of 1000 ∷ [];
  output_count = 1;
  unknown = (record { type_value = 9; key = [] }, hello) ∷ [];
}

creates : create_bip322_psbt toy key_script hello none (funds ∷ []) locks ≡ ok request
unfolding bytes_eq is_utf8 check_input_count outpoint_eq contains any_bad validate_outpoints
    txout_eq spends_witness p2sh_redeem_script tagged_hash create_to_spend
    create_to_spend_from_script version op_return_script to_sign_transaction unknown_insert
    set_challenge_utxo set_previous_tx set_proof_input_utxo set_proof_utxos set_utxos
    create_proof_psbt set_input_script set_proof_script set_proof_scripts set_challenge_script
    create_bip322_psbt
creates = refl

all_none : (is : List TxIn) → all_utxos (map (λ i. no_fields) is) ≡ map no_utxos is
all_none [] = refl
all_none (i ∷ is) = cc (all_none is)

pub wraps : Wraps toy
wraps tx psbt e =
    let same : unsigned_psbt tx ≡ psbt = cc in rw (← same) (refl, refl, all_none tx.input)

create_bip322_psbt-detect_bip322_psbt_example :
    detect_bip322_psbt toy request
    ≡ some (record { message = hello; message_challenge = key_script })
create_bip322_psbt-detect_bip322_psbt_example =
    create_bip322_psbt-detect_bip322_psbt toy key_script hello none (funds ∷ []) locks request wraps
      creates

wrapped : Wrapped toy key_script hello (funds ∷ []) locks (
    unsigned_psbt (
      to_sign_transaction toy
        (create_to_spend toy key_script hello)
        (outpoints_of toy (funds ∷ []))
        locks))
unfolding to_sign_transaction
wrapped = (refl, refl)

create_proof_psbt_iff_example :
    ((out : Transaction × Psbt) × (create_proof_psbt toy key_script hello none (funds ∷ []) locks
        ≡ ok out))
    ↔ IsProvable toy hello (funds ∷ []) (
        to_sign_transaction toy
          (create_to_spend toy key_script hello)
          (outpoints_of toy (funds ∷ []))
          locks)
create_proof_psbt_iff_example =
    create_proof_psbt_iff toy key_script hello none (funds ∷ []) locks
      (unsigned_psbt (
        to_sign_transaction toy (create_to_spend toy key_script hello)
          (outpoints_of toy (funds ∷ [])) locks))
      wrapped

-- The request with the signature of the first input, and with both.
abbrev pub signed_by : PsbtInput → Input toy
signed_by i = record (as_input toy i) {
  partial_sigs = (key_bytes, (key_bytes, EcdsaSighashType.all)) ∷ [];
}

abbrev signed_first : Request toy
signed_first = record (as_request toy request) {
  inputs = signed_by (output_of 0) ∷ as_input toy (output_of 1000) ∷ [];
}

abbrev pub signed_both : Request toy
signed_both = record (as_request toy request) {
  inputs = signed_by (output_of 0) ∷ signed_by (output_of 1000) ∷ [];
}

abbrev detected : Bip322Psbt
detected = record { message = hello; message_challenge = key_script }

signs_first :
    sign_bip322_psbt_input toy (as_request toy request) key_bytes 0 ≡ ok (signed_first, detected)
unfolding bytes_eq is_utf8 outpoint_eq contains any_bad validate_outpoints validate_psbt_structure
    get or_insert txout_eq outpoint up_to non_witness_tx has_non_witness claimed agreed resolve
    index_tx index_inputs new checked_psbt_input_prevout spends_witness tagged_hash
    create_to_spend_from_script op_return_script is_bip322_output unknown_get claimed_output
    detect_bip322_psbt declared_ecdsa_sighash partial_insert checked_prevouts p2wpkh_message
    ecdsa_message sign_ecdsa_input signed_input sign_bip322_psbt_input
signs_first = refl

signs_second : sign_bip322_psbt_input toy signed_first key_bytes 1 ≡ ok (signed_both, detected)
unfolding bytes_eq is_utf8 outpoint_eq contains any_bad validate_outpoints validate_psbt_structure
    get or_insert txout_eq outpoint up_to non_witness_tx has_non_witness claimed agreed resolve
    index_tx index_inputs new checked_psbt_input_prevout spends_witness tagged_hash
    create_to_spend_from_script op_return_script is_bip322_output unknown_get claimed_output
    detect_bip322_psbt declared_ecdsa_sighash partial_insert checked_prevouts p2wpkh_message
    ecdsa_message sign_ecdsa_input signed_input sign_bip322_psbt_input
signs_second = refl

Signed-Kept_example :
    Kept toy (as_request toy request) signed_both
    × (detect_bip322_psbt toy (view signed_both)
        ≡ detect_bip322_psbt toy (view (as_request toy request)))
Signed-Kept_example = Signed-Kept toy (as_request toy request) signed_both (
    next signed_first signed_both key_bytes 1 detected
      (next (as_request toy request) signed_first key_bytes 0 detected unsigned signs_first)
      signs_second)

hashes_inputs : HashesInputs toy
hashes_inputs tx index inside =
    (λ s t e. cc, λ k h v t a e. cc, λ s v t e. cc, λ os t l whole e. cc)

sign_bip322_psbt_input-IsSafe_example :
    sign_bip322_psbt_input toy signed_first key_bytes 1 ≢ err panic
sign_bip322_psbt_input-IsSafe_example =
    sign_bip322_psbt_input-IsSafe toy signed_first key_bytes 1 hashes_inputs
