-- ===== src/Roles/Created.antt =====
-- psbt/creator.rs, message.rs and psbt.rs: what `create_bip322_psbt` makes is detected.
use bip.Base.{
  ◌≡◌, sym, ap, ◌∙◌, inl, inr, not, ◌||◌, some, Option, List, [], ◌∷◌, length, suc, length-map,
  get_elem?, Bytes, bytes_eq, Bool-cases, Option-cases, is_some, ltb,
}
use bip.Error.{ok, >>=-eq-ok, ok-injective, guard, ok_or, ok_or-eq-ok, panic, invalid_witness}
use bip.Bitcoin.Data.{Script, Transaction, PsbtInput, Psbt, max_script_element_size}
use bip.Bitcoin.Api.{Api}
use bip.Message.Defs.{LockParams}
use bip.Message.Create.{ProofInput, create_proof_psbt, rest_of, outpoints_of}
use bip.Roles.Detect.{detect_bip322_psbt}
use bip.Roles.Detected.{utxos, detect_to_sign}
use bip.Roles.Creator.{
  create_bip322_psbt, set_proof_scripts, set_proof_script, set_challenge_script, set_input_script,
}
use bip.Roles.Made.{Wraps, create_proof_psbt-Made, record-same, with_inputs}

module _ (lib : Api) where
  open lib use {
    Address, PrivateKey, from_unsigned_tx, script_pubkey_of, script_hash, wscript_hash, new_p2wsh,
    new_p2sh, is_p2wpkh, is_p2tr, is_p2pkh, is_p2sh,
  }

  -- What `create_proof_psbt` makes is detected.
  pub create_proof_psbt-detect_bip322_psbt :
      (address : Address) (message : Bytes) (witness_script : Option Script)
      (ps : List (ProofInput PrivateKey)) (locks : LockParams) (to_spend : Transaction)
      (psbt : Psbt)
      → Wraps lib
      → create_proof_psbt lib address message witness_script ps locks ≡ ok (to_spend, psbt)
      → detect_bip322_psbt lib psbt
        ≡ some (record { message = message; message_challenge = script_pubkey_of address })
  create_proof_psbt-detect_bip322_psbt address message witness_script ps locks to_spend psbt wraps
        h =
      let spk = script_pubkey_of address in
      let (i, is, (u, t, n, k, e, l, c)) =
        create_proof_psbt-Made lib address message witness_script ps locks to_spend psbt wraps h in
      let found =
        detect_to_sign lib spk message (outpoints_of lib ps) locks psbt.unknown i is k u
          (l ∙ sym (length-map ps _)) c in
      ap (detect_bip322_psbt lib)
        (record-same psbt psbt.inputs _ 1 t n ∙ with_inputs psbt.unknown _ e)
      ∙ found

  set_input_script-utxos :
      (i out : PsbtInput) (script spk : Script)
      → set_input_script lib i script spk ≡ ok out
      → utxos out ≡ utxos i
  unfolding set_input_script
  set_input_script-utxos i out script spk h =
      let program = new_p2wsh (wscript_hash script) in
      elim (Bool-cases (bytes_eq spk program)) [
        | inl b ↦ ap utxos (sym (ok-injective (rw (set_input_script, b) at h)))
        | inr b ↦ elim (Bool-cases (bytes_eq spk (new_p2sh (script_hash program)))) [
          | inl c ↦ ap utxos (sym (ok-injective (rw (set_input_script, b, c) at h)))
          | inr c ↦ elim (Bool-cases (bytes_eq spk (new_p2sh (script_hash script)))) [
            | inl d ↦
                let (_, _, h₁) =
                  >>=-eq-ok
                    (guard (not (ltb max_script_element_size (length script))) invalid_witness) _
                    (rw (set_input_script, b, c, d) at h) in
                ap utxos (sym (ok-injective h₁))
            | inr d ↦ cc (rw (set_input_script, b, c, d) at h)
          ]
        ]
      ]

  set_proof_scripts-length :
      (is out : List PsbtInput) (ps : List (ProofInput PrivateKey))
      → set_proof_scripts lib is ps ≡ ok out
      → length out ≡ length is
  unfolding set_proof_scripts
  set_proof_scripts-length is out [] h = ap length (sym (ok-injective h))
  set_proof_scripts-length [] out (p ∷ ps) h = elim (Bool-cases (is_some p.witness_script)) [
    | inl b ↦ cc (rw (set_proof_scripts, b) at h)
    | inr b ↦ set_proof_scripts-length [] out ps (rw (set_proof_scripts, b) at h)
  ]
  set_proof_scripts-length (i ∷ is) out (p ∷ ps) h =
      let (i', _, h₁) = >>=-eq-ok (set_proof_script lib i p) _ h in
      let (is', f, h₂) = >>=-eq-ok (set_proof_scripts lib is ps) _ h₁ in
      ap length (sym (ok-injective h₂)) ∙ ap suc (set_proof_scripts-length is is' ps f)

  set_challenge_script-utxos :
      (spk : Script) (i out : PsbtInput) (witness_script : Option Script)
      → set_challenge_script lib spk i witness_script ≡ ok out
      → utxos out ≡ utxos i
  unfolding set_challenge_script
  set_challenge_script-utxos spk i out witness_script h =
      elim (Bool-cases (is_p2wpkh spk || is_p2tr spk || is_p2pkh spk)) [
        | inl b ↦
            let (_, _, h₁) =
              >>=-eq-ok (guard (not (is_some witness_script)) invalid_witness) _
                (rw (set_challenge_script, b) at h) in
            ap utxos (sym (ok-injective h₁))
        | inr b ↦ elim (Option-cases witness_script) [
          | inl n ↦ elim (Bool-cases (is_p2sh spk)) [
            | inl c ↦ ap utxos (sym (ok-injective (rw (set_challenge_script, b, n, c) at h)))
            | inr c ↦ cc (rw (set_challenge_script, b, n, c) at h)
          ]
          | inr (script, n) ↦
              set_input_script-utxos i out script spk (rw (set_challenge_script, b, n) at h)
        ]
      ]

  -- When the library wraps an unsigned transaction as a PSBT with empty maps, a PSBT that
  -- `create_bip322_psbt` makes, whatever the proof inputs and lock parameters, is detected by
  -- `detect_bip322_psbt` with the message and the address's script it was made for.
  pub create_bip322_psbt-detect_bip322_psbt :
      (address : Address) (message : Bytes) (witness_script : Option Script)
      (ps : List (ProofInput PrivateKey)) (locks : LockParams) (psbt : Psbt)
      → Wraps lib
      → create_bip322_psbt lib address message witness_script ps locks ≡ ok psbt
      → detect_bip322_psbt lib psbt
        ≡ some (record { message = message; message_challenge = script_pubkey_of address })
  unfolding create_bip322_psbt
  create_bip322_psbt-detect_bip322_psbt address message witness_script ps locks psbt wraps h =
      let spk = script_pubkey_of address in
      let ((to_spend, made), m, h₁) =
        >>=-eq-ok (create_proof_psbt lib address message witness_script ps locks) _ h in
      let (i, is, (u, t, n, k, e, l, c)) =
        create_proof_psbt-Made lib address message witness_script ps locks to_spend made wraps m in
      let (rest, r, h₂) = >>=-eq-ok (set_proof_scripts lib (rest_of made.inputs) ps) _ h₁ in
      let (first, f, h₃) = >>=-eq-ok (ok_or (get_elem? made.inputs 0) panic) _ h₂ in
      let (first', f', h₄) = >>=-eq-ok (set_challenge_script lib spk first witness_script) _ h₃ in
      let same : first ≡ i = cc (ok_or-eq-ok _ _ f, ap (λ (x : List PsbtInput). get_elem? x 0) e) in
      let kept = set_challenge_script-utxos spk first first' witness_script f' ∙ ap utxos same in
      let long =
        set_proof_scripts-length (rest_of made.inputs) rest ps r
        ∙ ap (λ x. length (rest_of x)) e
        ∙ l in
      let found =
        detect_to_sign lib spk message (outpoints_of lib ps) locks made.unknown first' rest k u
          (long ∙ sym (length-map ps _)) (rw kept c) in
      ap (detect_bip322_psbt lib) (sym (ok-injective h₄) ∙ record-same made (first' ∷ rest) _ 1 t n)
      ∙ found
