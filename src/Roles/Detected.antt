-- ===== src/Roles/Detected.antt =====
-- psbt.rs and psbt/creator.rs: the PSBT that `create_bip322_psbt` makes is detected.
use bip.Base.{
  ℕ, ◌≡◌, ◌⊎◌, refl, sym, ap, ◌∙◌, ==_iff, inl, inr, true, ◌&&◌, none, some, Option, List, [], ◌∷◌,
  map, length, length-map, Bytes, bytes_eq, bytes_eq_refl, is_utf8, ◌==◌, Bool-cases, suc,
}
use bip.Bitcoin.Data.{Script, OutPoint, TxIn, TxOut, Transaction, RawKey, PsbtInput}
use bip.Bitcoin.Api.{Api}
use bip.Message.Defs.{
  LockParams, create_to_spend_from_script, to_sign_transaction, signed_message_key,
}
use bip.Message.Create.{unknown_insert}
use bip.Verify.Pof.{unknown_get}
use bip.Verify.Full.{is_bip322_output_iff, op_return_output}
use bip.Roles.Detect.{detect_bip322_psbt, claimed_output}

-- What detection reads of an input map.
abbrev pub utxos : PsbtInput → Option TxOut × Option Transaction
utxos i = (i.witness_utxo, i.non_witness_utxo)

abbrev pub all_utxos : List PsbtInput → List (Option TxOut × Option Transaction)
all_utxos is = map utxos is

-- The inputs of the proof.
abbrev pub unsigned_other : OutPoint → TxIn
unsigned_other o = record { previous_output = o; script_sig = []; sequence = 0; witness = [] }

abbrev pub to_sign_others : List OutPoint → List TxIn
to_sign_others os = map unsigned_other os

pub unknown_get-insert :
    (k : RawKey) (v : Bytes) (m : List (RawKey × Bytes))
    → unknown_get k (unknown_insert k v m) ≡ some v
unfolding unknown_get unknown_insert
unknown_get-insert k v [] = rw (bytes_eq_refl k.key, (==_iff k.type_value k.type_value).1 refl) refl
unknown_get-insert k v ((j, w) ∷ m) =
    elim (Bool-cases (j.type_value == k.type_value && bytes_eq j.key k.key)) [
      | inl e ↦ rw (unknown_insert, e, unknown_get, e) refl
      | inr e ↦ rw (unknown_insert, e, unknown_get, e) (unknown_get-insert k v m)
    ]

module _ (lib : Api) where
  open lib use {Address, PrivateKey, compute_txid, from_unsigned_tx, script_pubkey_of}

  -- Two PSBTs that agree on what detection reads are detected alike.
  pub detect_bip322_psbt_same :
      (tx : Transaction) (n : ℕ) (unknown : List (RawKey × Bytes)) (is js : List PsbtInput)
      → all_utxos is ≡ all_utxos js
      → detect_bip322_psbt lib
          (record { unsigned_tx = tx; inputs = is; output_count = n; unknown = unknown })
        ≡ detect_bip322_psbt lib
            (record { unsigned_tx = tx; inputs = js; output_count = n; unknown = unknown })
  unfolding detect_bip322_psbt
  detect_bip322_psbt_same tx n unknown [] [] e = refl
  detect_bip322_psbt_same tx n unknown [] (j ∷ js) e = cc
  detect_bip322_psbt_same tx n unknown (i ∷ is) [] e = cc
  detect_bip322_psbt_same tx n unknown (i ∷ is) (j ∷ js) e =
      let w : i.witness_utxo ≡ j.witness_utxo = cc in
      let x : i.non_witness_utxo ≡ j.non_witness_utxo = cc in
      let l : length is ≡ length js =
        let tails : all_utxos is ≡ all_utxos js = cc in
        sym (length-map is utxos) ∙ ap length tails ∙ length-map js utxos in
      rw (w, x, l) refl

  -- The UTXO field of a challenge input: the output of `to_spend`, or `to_spend` itself.
  abbrev pub Challenges : Script → Bytes → Option TxOut × Option Transaction → Type 0
  Challenges spk message fields =
      (fields ≡ (some (record { value = 0; script_pubkey = spk }), none))
      ⊎ (fields ≡ (none, some (create_to_spend_from_script lib spk message)))

  abbrev pub to_sign_for : Script → Bytes → List OutPoint → LockParams → Transaction
  to_sign_for spk message os locks =
      to_sign_transaction lib (create_to_spend_from_script lib spk message) os locks

  -- A PSBT of `to_sign` with the message and the UTXO field of its challenge is detected.
  pub detect_to_sign :
      (spk : Script) (message : Bytes) (os : List OutPoint) (locks : LockParams)
      (unknown : List (RawKey × Bytes)) (i : PsbtInput) (is : List PsbtInput)
      → unknown_get signed_message_key unknown ≡ some message
      → is_utf8 message ≡ true
      → length is ≡ length os
      → Challenges spk message (utxos i)
      → detect_bip322_psbt lib (record {
        unsigned_tx = to_sign_for spk message os locks;
        inputs = i ∷ is;
        output_count = 1;
        unknown = unknown;
      })
        ≡ some (record { message = message; message_challenge = spk })
  unfolding detect_bip322_psbt claimed_output to_sign_transaction create_to_spend_from_script
  detect_to_sign spk message os locks unknown i is u f l c =
      let to_spend = create_to_spend_from_script lib spk message in
      let counts : (suc (length is) == suc (length (to_sign_others os))) ≡ true =
        (==_iff _ _).1 (ap suc (l ∙ sym (length-map os unsigned_other))) in
      let output = (is_bip322_output_iff lib (op_return_output lib ∷ [])).1 refl in
      let same = bytes_eq_refl (compute_txid to_spend) in
      elim c [
        | inl e ↦
            let w : i.witness_utxo ≡ some (record { value = 0; script_pubkey = spk }) = cc in
            let n : i.non_witness_utxo ≡ none = cc in rw (u, f, counts, w, n, same, output) refl
        | inr e ↦
            let w : i.witness_utxo ≡ none = cc in
            let n : i.non_witness_utxo ≡ some to_spend = cc in
            rw (u, f, counts, w, n, same, output, same) refl
      ]
