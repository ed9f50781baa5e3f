-- ===== src/Verify/Proof.antt =====
-- verify.rs: a proof of funds that verifies, and what holds of its PSBT.
use bip.Base.{
  ℕ, ◌≤◌, ◌≡◌, ◌⊎◌, inl, inr, refl, sym, ap, ◌∙◌, arith, true, false, not, ◌&&◌, ◌-◌, Option, none,
  some, List, [], ◌∷◌, Bytes, length, leb, ltb, leb→le, any, All, Bool-cases, and-eq-true,
  or-eq-false, not-eq-true, bytes_eq-eq, is_utf8, ◌==◌,
}
use bip.Error.{Result, ok, err, >>=-eq-ok, guard, guard-eq-ok, to_sign_invalid, message_not_utf8}
use bip.Bitcoin.Data.{TxIn, TxOut, Transaction, Psbt}
use bip.Bitcoin.Api.{Api}
use bip.Outpoints.Defs.{outpoints, validate_psbt_structure}
use bip.Outpoints.Distinct.{outpoint_eq-eq, Distinct, validate_outpoints_iff}
use bip.Message.Defs.{create_to_spend, challenge_outpoint, is_bip322_output, signed_message_key}
use bip.Prevouts.Defs.{PrevoutResolver, new, resolve, has_non_witness, txout_eq}
use bip.Prevouts.Agreement.{txout_eq-eq}
use bip.Spend.Defs.{is_witness}
use bip.Templates.Defs.{LibSpend}
use bip.Verify.Defs.{valid_at, parse_spends, verify_spends}
use bip.Verify.Pof.{
  unknown_get, check_message, resolve_from, challenge_output, check_pof, all_prevouts, lacks_tx,
  pof_spends, pof_verdict, verify_pof, proves_more,
}
use bip.Verify.Full.{op_return_output, is_bip322_output_iff}

-- The message field is missing, or is the message and UTF-8.
abbrev pub CarriesMessage : Option Bytes → Bytes → Type 0
CarriesMessage none message = Unit
CarriesMessage (some val) message = (val ≡ message) × (is_utf8 val ≡ true)

check_message-ok :
    (field : Option Bytes) (message : Bytes) {u : Unit {0}}
    → check_message field message ≡ ok u
    → CarriesMessage field message
unfolding check_message
check_message-ok none message h = tt
check_message-ok (some val) message h =
    let (_, e, f) = >>=-eq-ok (guard (is_utf8 val) message_not_utf8) _ h in
    (bytes_eq-eq _ _ (guard-eq-ok _ _ f), guard-eq-ok _ _ e)

module _ (lib : Api) where
  open lib use {Address, weight, extract_tx_unchecked_fee_rate}

  -- The input list starts with the challenge outpoint's and goes on.
  abbrev pub StartsAtChallenge : Transaction → List TxIn → Type 0
  StartsAtChallenge to_spend inputs =
      (i : TxIn) × (j : TxIn) × (is : List TxIn) × (inputs ≡ i ∷ j ∷ is)
      × (i.previous_output ≡ challenge_outpoint lib to_spend)

  -- What the checks on the PSBT establish.
  abbrev pub WellFormed : Transaction → Bytes → Psbt → Type 0
  WellFormed to_spend message psbt =
      CarriesMessage (unknown_get signed_message_key psbt.unknown) message
      × StartsAtChallenge to_spend psbt.unsigned_tx.input
      × (length psbt.inputs ≡ length psbt.unsigned_tx.input)
      × Distinct [] (outpoints psbt.unsigned_tx)
      × (psbt.unsigned_tx.output ≡ op_return_output lib ∷ [])
      × (weight psbt.unsigned_tx ≤ 4_000_000)

  proves_more-ok :
      (to_spend : Transaction) (inputs : List TxIn)
      → proves_more lib to_spend inputs ≡ true
      → StartsAtChallenge to_spend inputs
  proves_more-ok to_spend [] h = cc
  proves_more-ok to_spend (i ∷ []) h = cc
  proves_more-ok to_spend (i ∷ j ∷ is) h =
      let (_, b) = (and-eq-true (leb 2 (length (i ∷ j ∷ is))) _).0 h in
      (i, j, is, refl, outpoint_eq-eq _ _ b)

  structure-ok :
      (psbt : Psbt) {u : Unit {0}}
      → validate_psbt_structure psbt ≡ ok u
      → (length psbt.inputs ≡ length psbt.unsigned_tx.input)
        × Distinct [] (outpoints psbt.unsigned_tx)
  unfolding validate_psbt_structure
  structure-ok psbt h =
      let a = length psbt.inputs == length psbt.unsigned_tx.input in
      let b = psbt.output_count == length psbt.unsigned_tx.output in
      let (_, e, f) = >>=-eq-ok (guard (a && b) to_sign_invalid) _ h in
      let (g, _) = (and-eq-true a b).0 (guard-eq-ok _ _ e) in
      (ground arith, (validate_outpoints_iff psbt.unsigned_tx).0 f)

  check_pof-WellFormed :
      (to_spend : Transaction) (message : Bytes) (psbt : Psbt) {u : Unit {0}}
      → check_pof lib to_spend message psbt ≡ ok u
      → WellFormed to_spend message psbt
  unfolding check_pof
  check_pof-WellFormed to_spend message psbt h =
      let field = unknown_get signed_message_key psbt.unknown in
      let (_, e₁, h₁) = >>=-eq-ok (check_message field message) _ h in
      let (_, e₂, h₂) =
        >>=-eq-ok (guard (proves_more lib to_spend psbt.unsigned_tx.input) to_sign_invalid) _ h₁ in
      let (_, e₃, h₃) = >>=-eq-ok (validate_psbt_structure psbt) _ h₂ in
      let (o, w) =
        (and-eq-true (is_bip322_output lib psbt.unsigned_tx.output) _).0 (guard-eq-ok _ _ h₃) in
      let (c, d) = structure-ok psbt e₃ in
      (
        check_message-ok field message e₁,
        proves_more-ok to_spend psbt.unsigned_tx.input (guard-eq-ok _ _ e₂),
        c,
        d,
        (is_bip322_output_iff lib psbt.unsigned_tx.output).0 o,
        leb→le _ _ w,
      )

  -- The inputs are parsed against the challenge output and the resolved outputs, the PSBT's data on
  -- the first input agrees with the challenge output, and each input without a witness has its
  -- previous transaction.
  abbrev pub Backed : Transaction → Psbt → List (LibSpend lib) → Type 0
  Backed to_spend psbt spends =
      (r : PrevoutResolver) × (others : List TxOut) × (new lib psbt ≡ ok r)
      × (resolve r 0 ≡ ok (challenge_output to_spend))
      × (resolve_from r 1 (length psbt.unsigned_tx.input - 1) ≡ ok others)
      × (parse_spends lib (extract_tx_unchecked_fee_rate psbt) (challenge_output to_spend ∷ others)
          ≡ ok spends)
      × All (λ (s : LibSpend lib). (is_witness s ≡ true) ⊎ (has_non_witness r s.input_index ≡ true))
          spends

  lacks_none :
      (r : PrevoutResolver) (spends : List (LibSpend lib))
      → any (lacks_tx lib r) spends ≡ false
      → All
          (λ (s : LibSpend lib). (is_witness s ≡ true) ⊎ (has_non_witness r s.input_index ≡ true))
          spends
  lacks_none r [] h = tt
  lacks_none r (s ∷ ss) h =
      let (a, b) = (or-eq-false (lacks_tx lib r s) _).0 h in
      (
        elim (Bool-cases (is_witness s)) [
          | inl w ↦ inl w
          | inr w ↦ elim (Bool-cases (has_non_witness r s.input_index)) [
            | inl n ↦ inr n
            | inr n ↦ cc (rw (w, n) at a)
          ]
        ],
        lacks_none r ss b,
      )

  all_prevouts-ok :
      (to_spend : Transaction) (psbt : Psbt) (r : PrevoutResolver) (prevouts : List TxOut)
      → all_prevouts lib to_spend psbt r ≡ ok prevouts
      → (others : List TxOut) × (prevouts ≡ challenge_output to_spend ∷ others)
        × (resolve r 0 ≡ ok (challenge_output to_spend))
        × (resolve_from r 1 (length psbt.unsigned_tx.input - 1) ≡ ok others)
  unfolding all_prevouts
  all_prevouts-ok to_spend psbt r prevouts h =
      let (first, e₁, h₁) = >>=-eq-ok (resolve r 0) _ h in
      let (_, e₂, h₂) =
        >>=-eq-ok (guard (txout_eq first (challenge_output to_spend)) to_sign_invalid) _ h₁ in
      let (others, e₃, h₃) =
        >>=-eq-ok (resolve_from r 1 (length psbt.unsigned_tx.input - 1)) _ h₂ in
      (others, cc, e₁ ∙ ap ok (txout_eq-eq _ _ (guard-eq-ok _ _ e₂)), e₃)

  pof_spends-Backed :
      (to_spend : Transaction) (message : Bytes) (psbt : Psbt) (to_sign : Transaction)
      (spends : List (LibSpend lib))
      → pof_spends lib to_spend message psbt ≡ ok (to_sign, spends)
      → WellFormed to_spend message psbt
        × Backed to_spend psbt spends
        × (to_sign ≡ extract_tx_unchecked_fee_rate psbt)
        × (weight to_sign ≤ 4_000_000)
  unfolding pof_spends
  pof_spends-Backed to_spend message psbt to_sign spends h =
      let tx = extract_tx_unchecked_fee_rate psbt in
      let (_, e₁, h₁) = >>=-eq-ok (check_pof lib to_spend message psbt) _ h in
      let (r, e₂, h₂) = >>=-eq-ok (new lib psbt) _ h₁ in
      let (prevouts, e₃, h₃) = >>=-eq-ok (all_prevouts lib to_spend psbt r) _ h₂ in
      let (_, e₄, h₄) = >>=-eq-ok (guard (leb (weight tx) 4_000_000) to_sign_invalid) _ h₃ in
      let (ss, e₅, h₅) = >>=-eq-ok (parse_spends lib tx prevouts) _ h₄ in
      let (_, e₆, h₆) = >>=-eq-ok (guard (not (any (lacks_tx lib r) ss)) to_sign_invalid) _ h₅ in
      let (others, p, f, q) = all_prevouts-ok to_spend psbt r prevouts e₃ in
      let same : (tx ≡ to_sign) × (ss ≡ spends) = (cc, cc) in
      let light : weight tx ≤ 4_000_000 = leb→le _ _ (guard-eq-ok _ _ e₄) in
      let backed : Backed to_spend psbt ss = (
        r,
        others,
        e₂,
        f,
        q,
        rw (← p) e₅,
        lacks_none r ss ((not-eq-true _).0 (guard-eq-ok _ _ e₆)),
      ) in
      (
        check_pof-WellFormed to_spend message psbt e₁,
        rw (← same.1) backed,
        sym same.0,
        rw (← same.0) light,
      )

  pof_verdict-ok :
      (r : Result (Transaction × List (LibSpend lib))) (time age : ℕ)
      → pof_verdict lib r ≡ valid_at time age
      → (to_sign : Transaction) × (spends : List (LibSpend lib)) × (r ≡ ok (to_sign, spends))
        × (verify_spends lib to_sign spends ≡ valid_at time age)
  unfolding pof_verdict
  pof_verdict-ok (ok (tx, spends)) time age h = (tx, spends, refl, h)
  pof_verdict-ok (err e) time age h = cc

  -- A proof of funds that is valid at a time and an age has two to 1024 inputs, the first of which
  -- spends the challenge output of the message's `to_spend`, with outpoints that are distinct and
  -- not null; its message field, if it has one, is the message; its only output has no value and
  -- goes to `OP_RETURN`; neither the unsigned nor the extracted transaction weighs more than a
  -- block; its inputs are parsed against the challenge output and the outputs that its UTXO data
  -- agrees on, those without a witness having their previous transaction; and the verdict on these
  -- inputs of the extracted transaction is the one returned.
  pub verify_pof_valid :
      (address : Address) (message : Bytes) (psbt : Psbt) (time age : ℕ)
      → verify_pof lib address message psbt ≡ valid_at time age
      → (length psbt.unsigned_tx.input ≤ 1024)
        × WellFormed (create_to_spend lib address message) message psbt
        × (weight (extract_tx_unchecked_fee_rate psbt) ≤ 4_000_000)
        × ((spends : List (LibSpend lib)) × Backed (create_to_spend lib address message) psbt spends
            × (verify_spends lib (extract_tx_unchecked_fee_rate psbt) spends ≡ valid_at time age))
  unfolding verify_pof
  verify_pof_valid address message psbt time age h =
      elim (Bool-cases (ltb 1024 (length psbt.unsigned_tx.input))) [
        | inl e ↦ cc (rw e at h)
        | inr e ↦
            let (tx, spends, f, v) = pof_verdict-ok _ time age (rw e at h) in
            let (w, b, s, l) =
              pof_spends-Backed (create_to_spend lib address message) message psbt tx spends f in
            (ground arith, w, rw (← s) l, (spends, b, rw (← s) v))
      ]
