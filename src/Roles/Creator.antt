-- ===== src/Roles/Creator.antt =====
-- psbt/creator.rs
use bip.Base.{
  ◌||◌, not, Option, none, some, List, [], ◌∷◌, length, get_elem?, Bytes, bytes_eq, ltb, is_some,
  if◌then◌else◌,
}
use bip.Error.{
  Result, ok, err, ◌>>=◌, ◌>>◌, guard, ok_or, panic, invalid_witness, witness_script_mismatch,
}
use bip.Bitcoin.Data.{Script, PsbtInput, Psbt, max_script_element_size}
use bip.Bitcoin.Api.{Api}
use bip.Message.Defs.{LockParams}
use bip.Message.Create.{ProofInput, create_proof_psbt, rest_of}

module _ (lib : Api) where
  open lib use {
    Address, PrivateKey, script_pubkey_of, is_p2wpkh, is_p2tr, is_p2pkh, is_p2sh, new_p2wsh,
    new_p2sh, wscript_hash, script_hash,
  }

  unfoldable pub set_input_script : PsbtInput → Script → Script → Result PsbtInput
  set_input_script input witness_script script_pubkey =
      let p2wsh_program = new_p2wsh (wscript_hash witness_script) in
      if bytes_eq script_pubkey p2wsh_program
      then ok (record input { witness_script = some witness_script })
      else if bytes_eq script_pubkey (new_p2sh (script_hash p2wsh_program))
      then ok (record input {
        witness_script = some witness_script;
        redeem_script = some p2wsh_program;
      })
      else if bytes_eq script_pubkey (new_p2sh (script_hash witness_script))
      then (do
        guard (not (ltb max_script_element_size (length witness_script))) invalid_witness
        ok (record input { redeem_script = some witness_script }))
      else err witness_script_mismatch

  -- The body of the loop of `create_bip322_psbt`.
  unfoldable pub set_proof_script : PsbtInput → ProofInput PrivateKey → Result PsbtInput
  unfolding set_input_script
  set_proof_script i p = elim p.witness_script [
    | none ↦ ok i
    | some script ↦ set_input_script i script p.prevout.script_pubkey
  ]

  -- The loop of `create_bip322_psbt`, on the input maps behind the first. One that is missing is
  -- only reached for if there is a script for it.
  unfoldable pub set_proof_scripts :
      List PsbtInput → List (ProofInput PrivateKey) → Result (List PsbtInput)
  unfolding set_proof_script
  set_proof_scripts is [] = ok is
  set_proof_scripts [] (p ∷ ps) =
      if is_some p.witness_script then err panic else set_proof_scripts [] ps
  set_proof_scripts (i ∷ is) (p ∷ ps) = do
    i' ← set_proof_script i p
    is' ← set_proof_scripts is ps
    ok (i' ∷ is')

  -- The script of the challenge input.
  unfoldable pub set_challenge_script : Script → PsbtInput → Option Script → Result PsbtInput
  unfolding set_input_script
  set_challenge_script spk first witness_script =
      if is_p2wpkh spk || is_p2tr spk || is_p2pkh spk
      then (do guard (not (is_some witness_script)) invalid_witness; ok first)
      else elim witness_script [
        | none ↦ if is_p2sh spk then ok first else err invalid_witness
        | some script ↦ set_input_script first script spk
      ]

  unfoldable pub create_bip322_psbt :
      Address → Bytes → Option Script → List (ProofInput PrivateKey) → LockParams → Result Psbt
  unfolding set_proof_scripts set_challenge_script
  create_bip322_psbt address message witness_script inputs locks = do
    (to_spend, psbt) ← create_proof_psbt lib address message witness_script inputs locks
    rest ← set_proof_scripts (rest_of psbt.inputs) inputs
    first ← ok_or (get_elem? psbt.inputs 0) panic
    first' ← set_challenge_script (script_pubkey_of address) first witness_script
    ok (record psbt { inputs = first' ∷ rest })
