-- ===== src/Roles/Made.antt =====
-- psbt/creator.rs and message.rs: what `create_proof_psbt` hands on.
use bip.Base.{
  ℕ, ◌+◌, ◌≡◌, refl, sym, ap, ◌∙◌, inl, inr, true, none, some, Option, List, [], ◌∷◌, map, length,
  suc, length-map, get_elem?, Bytes, is_utf8, Bool-cases,
}
use bip.Error.{
  ok, >>=-eq-ok, ok-injective, guard, guard-eq-ok, ok_or, ok_or-eq-ok, message_not_utf8,
  to_sign_invalid,
}
use bip.Limits.{check_input_count}
use bip.Bitcoin.Data.{RawKey, Script, TxIn, TxOut, Transaction, PsbtInput, Psbt}
use bip.Bitcoin.Api.{Api}
use bip.Outpoints.Defs.{validate_outpoints}
use bip.Message.Defs.{
  LockParams, create_to_spend, create_to_spend_from_script, to_sign_transaction, signed_message_key,
}
use bip.Message.Create.{
  ProofInput, create_proof_psbt, set_utxos, set_proof_utxos, set_challenge_utxo,
  set_proof_input_utxo, outpoints_of, redeem_for,
}
use bip.Script.Defs.{spends_witness}
use bip.Verify.Pof.{unknown_get}
use bip.Roles.Detected.{
  unsigned_other, to_sign_others, utxos, all_utxos, Challenges, to_sign_for, unknown_get-insert,
}

abbrev pub no_utxos : TxIn → Option TxOut × Option Transaction
no_utxos i = (none, none)

pub record-same :
    (made : Psbt) (is : List PsbtInput) (tx : Transaction) (n : ℕ)
    → made.unsigned_tx ≡ tx
    → made.output_count ≡ n
    → record made { inputs = is }
      ≡ record { unsigned_tx = tx; inputs = is; output_count = n; unknown = made.unknown }
record-same made is tx n t c = rw (t, c) refl

pub with_inputs :
    {is js : List PsbtInput} (unknown : List (RawKey × Bytes)) (tx : Transaction)
    → is ≡ js
    → ◌≡◌ {A = Psbt}
        (record { unsigned_tx = tx; inputs = is; output_count = 1; unknown = unknown })
        (record { unsigned_tx = tx; inputs = js; output_count = 1; unknown = unknown })
with_inputs unknown tx e = rw e refl

module _ (lib : Api) where
  open lib use {
    Address, PrivateKey, from_unsigned_tx, script_pubkey_of, script_hash, wscript_hash, new_p2wsh,
    new_p2sh, is_p2wpkh, is_p2tr, is_p2pkh, is_p2sh,
  }

  -- `Psbt::from_unsigned_tx` wraps a transaction with an empty map for each input and output.
  abbrev pub Wraps : Type 0
  Wraps =
      (tx : Transaction) (psbt : Psbt)
      → from_unsigned_tx tx ≡ some psbt
      → (psbt.unsigned_tx ≡ tx)
        × (psbt.output_count ≡ length tx.output)
        × (all_utxos psbt.inputs ≡ map no_utxos tx.input)

  set_challenge_utxo-Challenges :
      (i : PsbtInput) (spk : Script) (message : Bytes) (witness_script : Option Script)
      → utxos i ≡ (none, none)
      → Challenges lib spk message (
          utxos (
            set_challenge_utxo lib i
              (create_to_spend_from_script lib spk message)
              (record { value = 0; script_pubkey = spk })
              witness_script))
  unfolding set_challenge_utxo
  set_challenge_utxo-Challenges i spk message witness_script e =
      elim (Bool-cases (spends_witness lib spk (redeem_for lib spk witness_script))) [
        | inl s ↦ rw (set_challenge_utxo, s) (inl cc)
        | inr s ↦ rw (set_challenge_utxo, s) (inr cc)
      ]

  set_proof_utxos-length :
      (is out : List PsbtInput) (ps : List (ProofInput PrivateKey)) (index : ℕ)
      → set_proof_utxos lib is ps index ≡ ok out
      → length out ≡ length is
  unfolding set_proof_utxos
  set_proof_utxos-length is out [] index e = ap length (sym (ok-injective e))
  set_proof_utxos-length [] out (p ∷ ps) index e = cc
  set_proof_utxos-length (i ∷ is) out (p ∷ ps) index e =
      let (i', _, e₁) = >>=-eq-ok (set_proof_input_utxo lib i p index) _ e in
      let (is', f, e₂) = >>=-eq-ok (set_proof_utxos lib is ps (suc index)) _ e₁ in
      ap length (sym (ok-injective e₂)) ∙ ap suc (set_proof_utxos-length is is' ps (suc index) f)

  set_utxos-Challenges :
      (spk : Script) (message : Bytes) (witness_script : Option Script) (is out : List PsbtInput)
      (ps : List (ProofInput PrivateKey)) (others : List (Option TxOut × Option Transaction))
      → all_utxos is ≡ (none, none) ∷ others
      → set_utxos lib (create_to_spend_from_script lib spk message) witness_script is ps ≡ ok out
      → (i : PsbtInput) × (js : List PsbtInput) × (out ≡ i ∷ js)
        × (length js ≡ length others)
        × Challenges lib spk message (utxos i)
  unfolding set_utxos create_to_spend_from_script
  set_utxos-Challenges spk message witness_script [] out ps others e h = cc
  set_utxos-Challenges spk message witness_script (i ∷ is) out ps others e h =
      let (rest, r, h₁) = >>=-eq-ok (set_proof_utxos lib is ps 0) _ h in
      let first : utxos i ≡ (none, none) = cc in
      let tails : all_utxos is ≡ others = cc in
      (
        _,
        rest,
        sym (ok-injective h₁),
        set_proof_utxos-length is rest ps 0 r ∙ sym (length-map is utxos) ∙ ap length tails,
        set_challenge_utxo-Challenges i spk message witness_script first,
      )

  -- What `create_proof_psbt` hands on: `to_sign` with the message, one input map for each input,
  -- and the UTXO field of the challenge.
  abbrev Made :
      Script
      → Bytes
      → List (ProofInput PrivateKey)
      → LockParams
      → Psbt
      → PsbtInput
      → List PsbtInput
      → Type 0
  Made spk message ps locks psbt i is =
      (is_utf8 message ≡ true)
      × (psbt.unsigned_tx ≡ to_sign_for lib spk message (outpoints_of lib ps) locks)
      × (psbt.output_count ≡ 1)
      × (unknown_get signed_message_key psbt.unknown ≡ some message)
      × (psbt.inputs ≡ i ∷ is)
      × (length is ≡ length ps)
      × Challenges lib spk message (utxos i)

  pub create_proof_psbt-Made :
      (address : Address) (message : Bytes) (witness_script : Option Script)
      (ps : List (ProofInput PrivateKey)) (locks : LockParams) (to_spend : Transaction)
      (psbt : Psbt)
      → Wraps
      → create_proof_psbt lib address message witness_script ps locks ≡ ok (to_spend, psbt)
      → (i : PsbtInput) × (is : List PsbtInput) × Made
          (script_pubkey_of address)
          message
          ps
          locks
          psbt
          i
          is
  unfolding create_proof_psbt create_to_spend set_utxos create_to_spend_from_script
      to_sign_transaction
  create_proof_psbt-Made address message witness_script ps locks to_spend psbt wraps h =
      let spk = script_pubkey_of address in
      let unsigned = to_sign_for lib spk message (outpoints_of lib ps) locks in
      let (_, u, h₁) = >>=-eq-ok (guard (is_utf8 message) message_not_utf8) _ h in
      let (_, _, h₂) = >>=-eq-ok (check_input_count (length ps + 1)) _ h₁ in
      let (_, _, h₃) = >>=-eq-ok (validate_outpoints unsigned) _ h₂ in
      let (made, m, h₄) = >>=-eq-ok (ok_or (from_unsigned_tx unsigned) to_sign_invalid) _ h₃ in
      let (inputs, s, h₅) =
        >>=-eq-ok
          (set_utxos lib (create_to_spend lib address message) witness_script made.inputs ps) _
          h₄ in
      let (t, n, a) = wraps unsigned made (ok_or-eq-ok _ _ m) in
      let (i, is, e, l, c) =
        set_utxos-Challenges spk message witness_script made.inputs inputs ps _ a s in
      let same = ap (λ (x : Transaction × Psbt). x.1) (ok-injective h₅) in
      (
        i,
        is,
        (
          guard-eq-ok _ _ u,
          ap (λ (x : Psbt). x.unsigned_tx) (sym same) ∙ t,
          ap (λ (x : Psbt). x.output_count) (sym same) ∙ n,
          ap (λ (x : Psbt). unknown_get signed_message_key x.unknown) (sym same)
              ∙ unknown_get-insert signed_message_key message made.unknown,
          ap (λ (x : Psbt). x.inputs) (sym same) ∙ e,
          l
              ∙ length-map (to_sign_others (outpoints_of lib ps)) no_utxos
              ∙ length-map (outpoints_of lib ps) unsigned_other
              ∙ length-map ps _,
          c,
        ),
      )

  -- The challenge output of what it makes.
  pub create_proof_psbt-challenge :
      (address : Address) (message : Bytes) (witness_script : Option Script)
      (ps : List (ProofInput PrivateKey)) (locks : LockParams) (to_spend : Transaction)
      (psbt : Psbt)
      → create_proof_psbt lib address message witness_script ps locks ≡ ok (to_spend, psbt)
      → get_elem? to_spend.output 0
        ≡ some (record { value = 0; script_pubkey = script_pubkey_of address })
  unfolding create_proof_psbt create_to_spend create_to_spend_from_script
  create_proof_psbt-challenge address message witness_script ps locks to_spend psbt h =
      let unsigned =
        to_sign_transaction lib (create_to_spend lib address message) (outpoints_of lib ps) locks in
      let (_, _, h₁) = >>=-eq-ok (guard (is_utf8 message) message_not_utf8) _ h in
      let (_, _, h₂) = >>=-eq-ok (check_input_count (length ps + 1)) _ h₁ in
      let (_, _, h₃) = >>=-eq-ok (validate_outpoints unsigned) _ h₂ in
      let (made, _, h₄) = >>=-eq-ok (ok_or (from_unsigned_tx unsigned) to_sign_invalid) _ h₃ in
      let (_, _, h₅) =
        >>=-eq-ok
          (set_utxos lib (create_to_spend lib address message) witness_script made.inputs ps) _
          h₄ in
      ap (λ (x : Transaction × Psbt). get_elem? (x.0).output 0) (sym (ok-injective h₅))
