-- ===== src/Sign.antt =====
-- sign.rs but for the legacy format, which is in Legacy.
pub mod Input
pub mod P2wpkh
pub mod Valid
pub mod Multisig
pub mod Checked
pub mod Owned
pub mod Proof
use bip.Base.{ℕ, suc, not, Option, none, some, List, [], ◌∷◌, map, get_elem?, Bytes, is_empty}
use bip.Error.{
  Result, ok, err, ◌>>=◌, ◌>>◌, guard, ok_or, panic, private_key_parse, witness_script_parse,
  no_private_keys, no_proof_inputs, transaction_extract, transaction_encode, witness_encoding,
}
use bip.Bitcoin.Data.{Script, Witness, TxIn, TxOut, Transaction, PsbtInput, Psbt}
use bip.Bitcoin.Api.{Api}
use bip.Outpoints.Defs.{validate_weight}
use bip.Message.Defs.{
  LockParams, default_locks, create_to_spend, create_to_sign, require_simple_format, parse_address,
}
use bip.Message.Create.{ProofInput, create_proof_psbt}
use bip.Message.Payload.{
  encode_payload, simple_signature_prefix, full_signature_prefix, pof_signature_prefix,
}
use bip.Roles.Helpers.{Input as RequestInput, Request, view}
use Input.{sign_input}

module _ (lib : Api) where
  open lib use {
    Address, PrivateKey, from_wif, script_from_hex, extract_tx, extract_tx_unchecked_fee_rate,
    encode_witness, encode_transaction, serialize_psbt,
  }

  -- A PSBT whose signer's fields are those of `Input::default()`.
  abbrev pub as_input : PsbtInput → RequestInput lib
  as_input i = record {
    base = i;
    partial_sigs = [];
    sighash_type = none;
    tap_key_sig = none;
    tap_internal_key = none;
    tap_merkle_root = none;
    hints = [];
    proprietary = [];
    unknown = [];
  }

  abbrev pub as_request : Psbt → Request lib
  as_request psbt = record {
    unsigned_tx = psbt.unsigned_tx;
    inputs = map as_input psbt.inputs;
    output_count = psbt.output_count;
    unknown = psbt.unknown;
  }

  unfoldable pub parse_private_keys : List Bytes → Result (List PrivateKey)
  parse_private_keys [] = ok []
  parse_private_keys (w ∷ ws) = do
    key ← ok_or (from_wif w) private_key_parse
    keys ← parse_private_keys ws
    ok (key ∷ keys)

  unfoldable pub parse_witness_script : Option Bytes → Result (Option Script)
  parse_witness_script none = ok none
  parse_witness_script (some hex) = do
    script ← ok_or (script_from_hex hex) witness_script_parse
    ok (some script)

  unfoldable pub sign_full :
      Address → Bytes → List PrivateKey → Option Script → LockParams → Result Transaction
  sign_full address message private_keys witness_script locks = do
    guard (not (is_empty private_keys)) no_private_keys
    let to_spend = create_to_spend lib address message
    psbt ← ok_or (create_to_sign lib to_spend none locks) panic
    prevout ← ok_or (get_elem? to_spend.output 0) panic
    signed ← sign_input lib (as_request psbt) (prevout ∷ []) private_keys witness_script 0
    to_sign ← ok_or (extract_tx (view signed)) transaction_extract
    validate_weight lib to_sign
    ok to_sign

  unfoldable pub sign_simple : Address → Bytes → List PrivateKey → Option Script → Result Witness
  unfolding sign_full
  sign_simple address message private_keys witness_script = do
    require_simple_format lib address
    tx ← sign_full address message private_keys witness_script default_locks
    txin ← ok_or (get_elem? tx.input 0) panic
    ok txin.witness

  -- The loop of `sign_pof` over the proof inputs, the first of which is signed at `index`.
  unfoldable pub sign_proof_inputs :
      Request lib → List TxOut → List (ProofInput PrivateKey) → ℕ → Result (Request lib)
  sign_proof_inputs to_sign prevouts [] index = ok to_sign
  sign_proof_inputs to_sign prevouts (p ∷ ps) index = do
    to_sign' ← sign_input lib to_sign prevouts p.private_keys p.witness_script index
    sign_proof_inputs to_sign' prevouts ps (suc index)

  abbrev pub prevouts_of : List (ProofInput PrivateKey) → List TxOut
  prevouts_of ps = map (λ (p : ProofInput PrivateKey). p.prevout) ps

  unfoldable pub sign_pof :
      Address
      → Bytes
      → List PrivateKey
      → Option Script
      → List (ProofInput PrivateKey)
      → LockParams
      → Result (Request lib)
  unfolding sign_proof_inputs
  sign_pof address message private_keys witness_script inputs locks = do
    guard (not (is_empty private_keys)) no_private_keys
    guard (not (is_empty inputs)) no_proof_inputs
    (to_spend, psbt) ← create_proof_psbt lib address message witness_script inputs locks
    challenge ← ok_or (get_elem? to_spend.output 0) panic
    let prevouts = challenge ∷ prevouts_of inputs
    first ← sign_input lib (as_request psbt) prevouts private_keys witness_script 0
    signed ← sign_proof_inputs first prevouts inputs 1
    validate_weight lib (extract_tx_unchecked_fee_rate (view signed))
    ok signed

  unfoldable pub sign_simple_encoded : Bytes → Bytes → List Bytes → Option Bytes → Result Bytes
  unfolding sign_simple parse_private_keys parse_witness_script
  sign_simple_encoded address message wif_private_keys witness_script_hex = do
    address' ← parse_address lib address
    private_keys ← parse_private_keys wif_private_keys
    witness_script ← parse_witness_script witness_script_hex
    witness ← sign_simple address' message private_keys witness_script
    buffer ← ok_or (encode_witness witness) witness_encoding
    ok (encode_payload lib simple_signature_prefix buffer)

  unfoldable pub sign_full_encoded :
      Bytes → Bytes → List Bytes → Option Bytes → LockParams → Result Bytes
  unfolding sign_full parse_private_keys parse_witness_script
  sign_full_encoded address message wif_private_keys witness_script_hex locks = do
    address' ← parse_address lib address
    private_keys ← parse_private_keys wif_private_keys
    witness_script ← parse_witness_script witness_script_hex
    to_sign ← sign_full address' message private_keys witness_script locks
    buffer ← ok_or (encode_transaction to_sign) transaction_encode
    ok (encode_payload lib full_signature_prefix buffer)

  unfoldable pub sign_pof_encoded :
      Bytes
      → Bytes
      → List Bytes
      → Option Bytes
      → List (ProofInput PrivateKey)
      → LockParams
      → Result Bytes
  unfolding sign_pof parse_private_keys parse_witness_script
  sign_pof_encoded address message wif_private_keys witness_script_hex inputs locks = do
    address' ← parse_address lib address
    private_keys ← parse_private_keys wif_private_keys
    witness_script ← parse_witness_script witness_script_hex
    to_sign ← sign_pof address' message private_keys witness_script inputs locks
    buffer ← ok_or (serialize_psbt to_sign) transaction_encode
    ok (encode_payload lib pof_signature_prefix buffer)
