-- ===== src/Message/Backed.antt =====
-- message.rs: which proofs of funds `create_proof_psbt` makes a PSBT of.
use bip.Base.{
  ℕ, suc, ◌+◌, ◌≤◌, ◌≡◌, ◌↔◌, ◌⊎◌, refl, ap, ◌∙◌, inl, inr, true, some, Option, List, [], ◌∷◌,
  length, get_elem?, Bytes, bytes_eq, bytes_eq-eq, bytes_eq_refl, is_utf8, Bool-cases, ltb, All,
  arith,
}
use bip.Error.{
  ok, >>=-eq-ok, guard, guard-eq-ok, ok_or, ok_or-eq-ok, message_not_utf8, invalid_proof_input,
}
use bip.Limits.{check_input_count}
use bip.Bitcoin.Data.{Script, TxOut, Transaction, PsbtInput, Psbt}
use bip.Bitcoin.Api.{Api}
use bip.Outpoints.Defs.{validate_outpoints, outpoints}
use bip.Outpoints.Distinct.{Distinct, validate_outpoints_iff}
use bip.Prevouts.Defs.{txout_eq}
use bip.Prevouts.Agreement.{txout_eq-eq, txout_eq_refl}
use bip.Script.Defs.{spends_witness}
use bip.Message.Defs.{
  LockParams, signed_message_key, create_to_spend, create_to_spend_from_script, to_sign_transaction,
}
use bip.Message.Create.{
  ProofInput, create_proof_psbt, unknown_insert, set_utxos, set_proof_utxos, set_proof_input_utxo,
  set_previous_tx, set_challenge_utxo, outpoints_of, redeem_for, needs_prev_tx, other_txid,
  no_output, other_output,
}

check_input_count_iff : (n : ℕ) → (check_input_count n ≡ ok tt) ↔ (n ≤ 1024)
unfolding check_input_count
check_input_count_iff n = elim (Bool-cases (ltb 1024 n)) [
  | inl e ↦ (λ h. cc (rw (check_input_count, e) at h), λ l. absurd (ground arith))
  | inr e ↦ (λ _. ground arith, λ _. rw e refl)
]

module _ (lib : Api) where
  open lib use {Address, PrivateKey, compute_txid, from_unsigned_tx, script_pubkey_of}

  -- A segwit input, or one with its previous transaction, which holds the output at the outpoint.
  abbrev pub IsBacked : ProofInput PrivateKey → Type 0
  IsBacked p =
      (spends_witness lib p.prevout.script_pubkey
          (redeem_for lib p.prevout.script_pubkey p.witness_script)
        ≡ true)
      ⊎ ((tx : Transaction) × (p.prev_tx ≡ some tx)
          × (compute_txid tx ≡ p.outpoint.txid)
          × (get_elem? tx.output p.outpoint.vout ≡ some p.prevout))

  set_previous_tx-IsBacked :
      (i out : PsbtInput) (p : ProofInput PrivateKey) (index : ℕ)
      → set_previous_tx lib i p index ≡ ok out
      → IsBacked p
  unfolding set_previous_tx
  set_previous_tx-IsBacked i out p index h =
      let (tx, e, h₁) = >>=-eq-ok (ok_or p.prev_tx (invalid_proof_input index needs_prev_tx)) _ h in
      let (_, f, h₂) =
        >>=-eq-ok
          (guard (bytes_eq (compute_txid tx) p.outpoint.txid)
            (invalid_proof_input index other_txid))
          _ h₁ in
      let (o, g, h₃) =
        >>=-eq-ok
          (ok_or (get_elem? tx.output p.outpoint.vout) (invalid_proof_input index no_output)) _
          h₂ in
      let (_, k, _) =
        >>=-eq-ok (guard (txout_eq o p.prevout) (invalid_proof_input index other_output)) _ h₃ in
      inr (
        tx,
        ok_or-eq-ok _ _ e,
        bytes_eq-eq _ _ (guard-eq-ok _ _ f),
        ok_or-eq-ok _ _ g ∙ ap some (txout_eq-eq o p.prevout (guard-eq-ok _ _ k)),
      )

  set_proof_input_utxo_iff :
      (i : PsbtInput) (p : ProofInput PrivateKey) (index : ℕ)
      → ((out : PsbtInput) × (set_proof_input_utxo lib i p index ≡ ok out)) ↔ IsBacked p
  unfolding set_proof_input_utxo set_previous_tx
  set_proof_input_utxo_iff i p index =
      let segwit =
        spends_witness lib p.prevout.script_pubkey
          (redeem_for lib p.prevout.script_pubkey p.witness_script) in
      elim (Bool-cases segwit) [
        | inl s ↦ (
          λ _. inl s,
          λ _. (record i { witness_utxo = some p.prevout }, rw (set_proof_input_utxo, s) refl),
        )
        | inr s ↦ (
          λ (out, h). set_previous_tx-IsBacked i out p index (rw (set_proof_input_utxo, s) at h),
          λ b. elim b [
            | inl t ↦ cc
            | inr (tx, e, f, g) ↦ (
              record i { non_witness_utxo = some tx },
              rw
                  (
                    set_proof_input_utxo,
                    s,
                    set_previous_tx,
                    e,
                    f,
                    bytes_eq_refl p.outpoint.txid,
                    g,
                    txout_eq_refl p.prevout,
                  )
                  refl,
            )
          ],
        )
      ]

  set_proof_utxos_iff :
      (is : List PsbtInput) (ps : List (ProofInput PrivateKey)) (index : ℕ)
      → length is ≡ length ps
      → ((out : List PsbtInput) × (set_proof_utxos lib is ps index ≡ ok out)) ↔ All IsBacked ps
  unfolding set_proof_utxos
  set_proof_utxos_iff is [] index l = (λ _. tt, λ _. (is, refl))
  set_proof_utxos_iff [] (p ∷ ps) index l = absurd (omega arith)
  set_proof_utxos_iff (i ∷ is) (p ∷ ps) index l =
      let (to, from) = set_proof_input_utxo_iff i p index in
      let (to', from') = set_proof_utxos_iff is ps (suc index) (omega arith) in
      (
        λ (out, h).
            let (i', e, h₁) = >>=-eq-ok (set_proof_input_utxo lib i p index) _ h in
            let (is', f, _) = >>=-eq-ok (set_proof_utxos lib is ps (suc index)) _ h₁ in
            (to (i', e), to' (is', f)),
        λ (b, bs). let (i', e) = from b in let (is', f) = from' bs in (i' ∷ is', rw (e, f) refl),
      )

  -- The transaction of the proof, and the PSBT that it is put in: one input map for each input.
  abbrev pub Wrapped : Address → Bytes → List (ProofInput PrivateKey) → LockParams → Psbt → Type 0
  Wrapped address message ps locks made =
      (from_unsigned_tx (
          to_sign_transaction lib (create_to_spend lib address message) (outpoints_of lib ps) locks)
        ≡ some made)
      × (length made.inputs ≡ suc (length ps))

  -- What the proof inputs and the message have to be.
  abbrev pub IsProvable : Bytes → List (ProofInput PrivateKey) → Transaction → Type 0
  IsProvable message ps unsigned =
      (is_utf8 message ≡ true)
      × (length ps + 1 ≤ 1024)
      × Distinct [] (outpoints unsigned)
      × All IsBacked ps

  set_utxos_iff :
      (address : Address) (message : Bytes) (witness_script : Option Script) (is : List PsbtInput)
      (ps : List (ProofInput PrivateKey))
      → length is ≡ suc (length ps)
      → ((out : List PsbtInput) × (set_utxos lib
              (create_to_spend lib address message)
              witness_script
              is
              ps
            ≡ ok out))
        ↔ All IsBacked ps
  unfolding set_utxos create_to_spend create_to_spend_from_script
  set_utxos_iff address message witness_script [] ps l = absurd (omega arith)
  set_utxos_iff address message witness_script (i ∷ is) ps l =
      let (to, from) = set_proof_utxos_iff is ps 0 (omega arith) in
      (
        λ (out, h). let (rest, e, _) = >>=-eq-ok (set_proof_utxos lib is ps 0) _ h in to (rest, e),
        λ b.
            let (rest, e) = from b in
            let output : TxOut = record { value = 0; script_pubkey = script_pubkey_of address } in
            (
              set_challenge_utxo lib i (create_to_spend lib address message) output witness_script
                  ∷ rest,
              rw e refl,
            ),
      )

  -- A PSBT of a proof is made exactly if the message is UTF-8, there are at most 1024 inputs with
  -- the challenge, no two of them spend the same outpoint and none the null outpoint, and each proof
  -- input is segwit or comes with the transaction of its outpoint, whose output there is the one
  -- that is claimed; provided that the transaction can be put in a PSBT.
  pub create_proof_psbt_iff :
      (address : Address) (message : Bytes) (witness_script : Option Script)
      (ps : List (ProofInput PrivateKey)) (locks : LockParams) (made : Psbt)
      → Wrapped address message ps locks made
      → ((out : Transaction × Psbt) × (create_proof_psbt lib address message witness_script ps locks
            ≡ ok out))
        ↔ IsProvable message ps (
            to_sign_transaction lib
              (create_to_spend lib address message)
              (outpoints_of lib ps)
              locks)
  unfolding create_proof_psbt
  create_proof_psbt_iff address message witness_script ps locks made (w, l) =
      let to_spend = create_to_spend lib address message in
      let unsigned = to_sign_transaction lib to_spend (outpoints_of lib ps) locks in
      let (to, from) = set_utxos_iff address message witness_script made.inputs ps l in
      (
        λ (out, h).
            let (_, u, h₁) = >>=-eq-ok (guard (is_utf8 message) message_not_utf8) _ h in
            let (_, c, h₂) = >>=-eq-ok (check_input_count (length ps + 1)) _ h₁ in
            let (_, d, h₃) = >>=-eq-ok (validate_outpoints unsigned) _ h₂ in
            let (is, f, _) =
              >>=-eq-ok (set_utxos lib to_spend witness_script made.inputs ps) _ (rw w at h₃) in
            (
              guard-eq-ok _ _ u,
              (check_input_count_iff _).0 c,
              (validate_outpoints_iff unsigned).0 d,
              to (is, f),
            ),
        λ (u, c, d, b).
            let (is, f) = from b in
            (
              (
                to_spend,
                record made {
                  inputs = is;
                  unknown = unknown_insert signed_message_key message made.unknown;
                },
              ),
              rw (u, (check_input_count_iff _).1 c, (validate_outpoints_iff unsigned).1 d, w, f)
                  refl,
            ),
      )
