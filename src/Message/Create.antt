-- ===== src/Message/Create.antt =====
-- message.rs: the PSBT of a proof of funds.
use bip.Base.{
  ℕ, suc, ◌+◌, ◌&&◌, Option, none, some, List, [], ◌∷◌, map, length, get_elem?, Bytes, bytes_eq,
  is_utf8, ◌==◌, if◌then◌else◌,
}
use bip.Error.{
  Result, ok, err, ◌>>=◌, ◌>>◌, guard, ok_or, panic, message_not_utf8, to_sign_invalid,
  invalid_proof_input,
}
use bip.Limits.{check_input_count}
use bip.Bitcoin.Data.{Script, OutPoint, TxOut, Transaction, RawKey, PsbtInput, Psbt}
use bip.Bitcoin.Api.{Api}
use bip.Outpoints.Defs.{validate_outpoints}
use bip.Prevouts.Defs.{txout_eq}
use bip.Script.Defs.{spends_witness, p2sh_redeem_script}
use bip.Message.Defs.{LockParams, create_to_spend, to_sign_transaction, signed_message_key}

-- `ProofInput` of sign.rs, with the type of private keys as a parameter.
pub record ProofInput (P : Type 0) : Type 0 where
  pub outpoint : OutPoint
  pub prevout : TxOut
  pub prev_tx : Option Transaction
  pub private_keys : List P
  pub witness_script : Option Script

-- "legacy input requires prev_tx"
abbrev pub needs_prev_tx : Bytes
needs_prev_tx =
    b'l' ∷ b'e' ∷ b'g' ∷ b'a' ∷ b'c' ∷ b'y' ∷ b' ' ∷ b'i' ∷ b'n' ∷ b'p' ∷ b'u' ∷ b't' ∷ b' ' ∷ b'r'
    ∷ b'e' ∷ b'q' ∷ b'u' ∷ b'i' ∷ b'r' ∷ b'e' ∷ b's' ∷ b' ' ∷ b'p' ∷ b'r' ∷ b'e' ∷ b'v' ∷ b'_'
    ∷ b't' ∷ b'x' ∷ []

-- "prev_tx txid does not match outpoint"
abbrev pub other_txid : Bytes
other_txid =
    b'p' ∷ b'r' ∷ b'e' ∷ b'v' ∷ b'_' ∷ b't' ∷ b'x' ∷ b' ' ∷ b't' ∷ b'x' ∷ b'i' ∷ b'd' ∷ b' ' ∷ b'd'
    ∷ b'o' ∷ b'e' ∷ b's' ∷ b' ' ∷ b'n' ∷ b'o' ∷ b't' ∷ b' ' ∷ b'm' ∷ b'a' ∷ b't' ∷ b'c' ∷ b'h'
    ∷ b' ' ∷ b'o' ∷ b'u' ∷ b't' ∷ b'p' ∷ b'o' ∷ b'i' ∷ b'n' ∷ b't' ∷ []

-- "outpoint vout exceeds prev_tx outputs"
abbrev pub no_output : Bytes
no_output =
    b'o' ∷ b'u' ∷ b't' ∷ b'p' ∷ b'o' ∷ b'i' ∷ b'n' ∷ b't' ∷ b' ' ∷ b'v' ∷ b'o' ∷ b'u' ∷ b't' ∷ b' '
    ∷ b'e' ∷ b'x' ∷ b'c' ∷ b'e' ∷ b'e' ∷ b'd' ∷ b's' ∷ b' ' ∷ b'p' ∷ b'r' ∷ b'e' ∷ b'v' ∷ b'_'
    ∷ b't' ∷ b'x' ∷ b' ' ∷ b'o' ∷ b'u' ∷ b't' ∷ b'p' ∷ b'u' ∷ b't' ∷ b's' ∷ []

-- "prevout does not match prev_tx output"
abbrev pub other_output : Bytes
other_output =
    b'p' ∷ b'r' ∷ b'e' ∷ b'v' ∷ b'o' ∷ b'u' ∷ b't' ∷ b' ' ∷ b'd' ∷ b'o' ∷ b'e' ∷ b's' ∷ b' ' ∷ b'n'
    ∷ b'o' ∷ b't' ∷ b' ' ∷ b'm' ∷ b'a' ∷ b't' ∷ b'c' ∷ b'h' ∷ b' ' ∷ b'p' ∷ b'r' ∷ b'e' ∷ b'v'
    ∷ b'_' ∷ b't' ∷ b'x' ∷ b' ' ∷ b'o' ∷ b'u' ∷ b't' ∷ b'p' ∷ b'u' ∷ b't' ∷ []

-- `psbt.unknown.insert(key, value)`
unfoldable pub unknown_insert : RawKey → Bytes → List (RawKey × Bytes) → List (RawKey × Bytes)
unknown_insert k v [] = (k, v) ∷ []
unknown_insert k v ((j, w) ∷ m) =
    if j.type_value == k.type_value && bytes_eq j.key k.key
    then (j, v) ∷ m
    else (j, w) ∷ unknown_insert k v m

-- The input maps behind the first.
abbrev pub rest_of : List PsbtInput → List PsbtInput
rest_of [] = []
rest_of (i ∷ is) = is

module _ (lib : Api) where
  open lib use {Address, PrivateKey, compute_txid, from_unsigned_tx}

  -- `witness_script.map(|script| p2sh_redeem_script(script_pubkey, script))`
  abbrev pub redeem_for : Script → Option Script → Option Script
  redeem_for script_pubkey none = none
  redeem_for script_pubkey (some script) = some (p2sh_redeem_script lib script_pubkey script)

  -- The UTXO field of the challenge input.
  unfoldable pub set_challenge_utxo : PsbtInput → Transaction → TxOut → Option Script → PsbtInput
  set_challenge_utxo i to_spend output witness_script =
      if spends_witness lib output.script_pubkey (redeem_for output.script_pubkey witness_script)
      then record i { witness_utxo = some output }
      else record i { non_witness_utxo = some to_spend }

  -- `set_proof_input_utxo` for a legacy input.
  unfoldable pub set_previous_tx : PsbtInput → ProofInput PrivateKey → ℕ → Result PsbtInput
  set_previous_tx i p index = do
    prev_tx ← ok_or p.prev_tx (invalid_proof_input index needs_prev_tx)
    guard (bytes_eq (compute_txid prev_tx) p.outpoint.txid) (invalid_proof_input index other_txid)
    claimed ← ok_or (get_elem? prev_tx.output p.outpoint.vout) (invalid_proof_input index no_output)
    guard (txout_eq claimed p.prevout) (invalid_proof_input index other_output)
    ok (record i { non_witness_utxo = some prev_tx })

  unfoldable pub set_proof_input_utxo : PsbtInput → ProofInput PrivateKey → ℕ → Result PsbtInput
  unfolding set_previous_tx
  set_proof_input_utxo i p index =
      if spends_witness lib p.prevout.script_pubkey
        (redeem_for p.prevout.script_pubkey p.witness_script)
      then ok (record i { witness_utxo = some p.prevout })
      else set_previous_tx i p index

  -- The loop of `create_proof_psbt` over the proof inputs, on the input maps behind the first.
  unfoldable pub set_proof_utxos :
      List PsbtInput → List (ProofInput PrivateKey) → ℕ → Result (List PsbtInput)
  set_proof_utxos is [] index = ok is
  set_proof_utxos [] (p ∷ ps) index = err panic
  set_proof_utxos (i ∷ is) (p ∷ ps) index = do
    i' ← set_proof_input_utxo i p index
    is' ← set_proof_utxos is ps (suc index)
    ok (i' ∷ is')

  -- The UTXO fields of all inputs.
  unfoldable pub set_utxos :
      Transaction
      → Option Script
      → List PsbtInput
      → List (ProofInput PrivateKey)
      → Result (List PsbtInput)
  unfolding set_proof_utxos set_challenge_utxo
  set_utxos to_spend witness_script is ps = do
    first ← ok_or (get_elem? is 0) panic
    output ← ok_or (get_elem? to_spend.output 0) panic
    rest ← set_proof_utxos (rest_of is) ps 0
    ok (set_challenge_utxo first to_spend output witness_script ∷ rest)

  abbrev pub outpoints_of : List (ProofInput PrivateKey) → List OutPoint
  outpoints_of ps = map (λ (p : ProofInput PrivateKey). p.outpoint) ps

  -- `create_proof_psbt`. A list has fewer elements than a `usize` can count, so that
  -- `saturating_add` is a sum.
  unfoldable pub create_proof_psbt :
      Address
      → Bytes
      → Option Script
      → List (ProofInput PrivateKey)
      → LockParams
      → Result (Transaction × Psbt)
  unfolding set_utxos
  create_proof_psbt address message witness_script proof_inputs locks = do
    guard (is_utf8 message) message_not_utf8
    check_input_count (length proof_inputs + 1)
    let to_spend = create_to_spend lib address message
    let unsigned = to_sign_transaction lib to_spend (outpoints_of proof_inputs) locks
    validate_outpoints unsigned
    psbt ← ok_or (from_unsigned_tx unsigned) to_sign_invalid
    inputs ← set_utxos to_spend witness_script psbt.inputs proof_inputs
    ok (
      to_spend,
      record psbt {
        inputs = inputs;
        unknown = unknown_insert signed_message_key message psbt.unknown;
      },
    )
