-- ===== src/Sign/Proof.antt =====
-- sign.rs: the proof of funds that `sign_pof` makes.
use bip.Base.{
  ℕ, zero, suc, ◌≤◌, false, ◌≡◌, refl, sym, ap, ◌∙◌, not, some, Option, List, [], ◌∷◌, map, Bytes,
  get_elem?, is_empty, leb→le, All, drop, drop-nil, not-eq-true,
}
use bip.Error.{
  ok, >>=-eq-ok, ok-injective, guard, guard-eq-ok, ok_or, ok_or-eq-ok, panic, no_private_keys,
  no_proof_inputs,
}
use bip.Bitcoin.Data.{Script, TxOut, PsbtInput, Psbt}
use bip.Bitcoin.Api.{Api}
use bip.Outpoints.Defs.{validate_weight}
use bip.Message.Defs.{LockParams}
use bip.Message.Create.{ProofInput, create_proof_psbt}
use bip.Roles.Detect.{detect_bip322_psbt}
use bip.Roles.Detected.{utxos, all_utxos, detect_bip322_psbt_same}
use bip.Roles.Made.{Wraps, create_proof_psbt-challenge}
use bip.Roles.Created.{create_proof_psbt-detect_bip322_psbt}
use bip.Roles.Helpers.{Request, view}
use bip.Roles.Steps.{Kept, Kept-detect_bip322_psbt, bases}
use bip.Sign.{as_input, as_request, prevouts_of, sign_proof_inputs, sign_pof}
use bip.Sign.Input.{sign_input}
use bip.Sign.Checked.{Owns, Kept-trans}
use bip.Sign.Owned.{sign_input-Owns}

module _ (lib : Api) where
  open lib use {Address, PrivateKey, script_pubkey_of, weight, extract_tx_unchecked_fee_rate}

  all_utxos-as_input :
      (is : List PsbtInput) → all_utxos (bases lib (map (as_input lib) is)) ≡ all_utxos is
  all_utxos-as_input [] = refl
  all_utxos-as_input (i ∷ is) = ap (λ xs. utxos i ∷ xs) (all_utxos-as_input is)

  view-as_request :
      (psbt : Psbt)
      → detect_bip322_psbt lib (view (as_request lib psbt)) ≡ detect_bip322_psbt lib psbt
  view-as_request psbt =
      detect_bip322_psbt_same lib psbt.unsigned_tx psbt.output_count psbt.unknown
        (bases lib (map (as_input lib) psbt.inputs)) psbt.inputs (all_utxos-as_input psbt.inputs)

  -- The script of a proof input is one that its single key, or the script given with it, makes.
  abbrev pub IsOwned : ProofInput PrivateKey → Type 0
  IsOwned p = Owns lib p.prevout.script_pubkey p.private_keys p.witness_script

  drop-suc :
      {A : Type 0} (xs : List A) (n : ℕ) {y : A} {ys : List A}
      → drop n xs ≡ y ∷ ys
      → (get_elem? xs n ≡ some y) × (drop (suc n) xs ≡ ys)
  drop-suc [] n e = let f = sym (drop-nil n) ∙ e in cc
  drop-suc (x ∷ xs) zero e = (cc, cc)
  drop-suc (x ∷ xs) (suc n) e = drop-suc xs n e

  sign_proof_inputs-IsOwned :
      (p q : Request lib) (prevouts : List TxOut) (ps : List (ProofInput PrivateKey)) (index : ℕ)
      → drop index prevouts ≡ prevouts_of lib ps
      → sign_proof_inputs lib p prevouts ps index ≡ ok q
      → All IsOwned ps × Kept lib p q
  unfolding sign_proof_inputs
  sign_proof_inputs-IsOwned p q prevouts [] index d h =
      rw (← ok-injective h) (tt, (refl, refl, refl, refl))
  sign_proof_inputs-IsOwned p q prevouts (i ∷ is) index d h =
      let (r, e, h₁) =
        >>=-eq-ok (sign_input lib p prevouts i.private_keys i.witness_script index) _ h in
      let (_, (prevout, o, owned), kept) =
        sign_input-Owns lib p r prevouts i.private_keys i.witness_script index e in
      let (first, rest) = drop-suc prevouts index d in
      let (others, keeps) = sign_proof_inputs-IsOwned r q prevouts is (suc index) rest h₁ in
      let same : prevout ≡ i.prevout = cc in
      ((rw (← same) owned, others), Kept-trans lib p r q kept keeps)

  -- When the library wraps an unsigned transaction as a PSBT with empty maps, a proof of funds that
  -- `sign_pof` makes has at least one key and one proof input; the address's script, and that of the
  -- output of each proof input, is one that the single key given for it makes, or one that commits
  -- to the script given for it; the proof weighs at most a block when extracted; and it is detected
  -- as a request for the message and the script of the address.
  pub sign_pof-detect_bip322_psbt :
      (address : Address) (message : Bytes) (keys : List PrivateKey) (ws : Option Script)
      (ps : List (ProofInput PrivateKey)) (locks : LockParams) (q : Request lib)
      → Wraps lib
      → sign_pof lib address message keys ws ps locks ≡ ok q
      → (is_empty keys ≡ false)
        × (is_empty ps ≡ false)
        × Owns lib (script_pubkey_of address) keys ws
        × All IsOwned ps
        × (weight (extract_tx_unchecked_fee_rate (view q)) ≤ 4_000_000)
        × (detect_bip322_psbt lib (view q)
            ≡ some (record { message = message; message_challenge = script_pubkey_of address }))
  unfolding sign_pof validate_weight
  sign_pof-detect_bip322_psbt address message keys ws ps locks q wraps h =
      let (_, a, h₁) = >>=-eq-ok (guard (not (is_empty keys)) no_private_keys) _ h in
      let (_, b, h₂) = >>=-eq-ok (guard (not (is_empty ps)) no_proof_inputs) _ h₁ in
      let ((to_spend, psbt), c, h₃) =
        >>=-eq-ok (create_proof_psbt lib address message ws ps locks) _ h₂ in
      let (challenge, d, h₄) = >>=-eq-ok (ok_or (get_elem? to_spend.output 0) panic) _ h₃ in
      let prevouts = challenge ∷ prevouts_of lib ps in
      let (first, e, h₅) =
        >>=-eq-ok (sign_input lib (as_request lib psbt) prevouts keys ws 0) _ h₄ in
      let (signed, f, h₆) = >>=-eq-ok (sign_proof_inputs lib first prevouts ps 1) _ h₅ in
      let (_, w, h₇) =
        >>=-eq-ok (validate_weight lib (extract_tx_unchecked_fee_rate (view signed))) _ h₆ in
      let (_, (prevout, o, owned), kept) =
        sign_input-Owns lib (as_request lib psbt) first prevouts keys ws 0 e in
      let (others, keeps) = sign_proof_inputs-IsOwned first signed prevouts ps 1 refl f in
      let same_q = ok-injective h₇ in
      let all_kept = Kept-trans lib (as_request lib psbt) first signed kept keeps in
      let made : some challenge
          ≡ some (record { value = 0; script_pubkey = script_pubkey_of address }) =
        sym (ok_or-eq-ok _ _ d)
        ∙ create_proof_psbt-challenge lib address message ws ps locks to_spend psbt c in
      let script : prevout.script_pubkey ≡ script_pubkey_of address = cc (o, made) in
      let found =
        Kept-detect_bip322_psbt lib (as_request lib psbt) signed all_kept
        ∙ view-as_request psbt
        ∙ create_proof_psbt-detect_bip322_psbt lib address message ws ps locks to_spend psbt wraps
            c in
      (
        (not-eq-true _).0 (guard-eq-ok _ _ a),
        (not-eq-true _).0 (guard-eq-ok _ _ b),
        rw (← script) owned,
        others,
        rw (← same_q) (leb→le _ _ (guard-eq-ok _ _ w)),
        ap (λ (x : Request lib). detect_bip322_psbt lib (view x)) (sym same_q) ∙ found,
      )
