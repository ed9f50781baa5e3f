-- ===== src/Verify/Full.antt =====
-- verify.rs: what a valid proof in the full format consists of, and the shape of `to_sign`.
use bip.Base.{
  ℕ, ◌≤◌, ◌≡◌, ◌↔◌, inl, inr, refl, sym, ap, ◌∙◌, arith, true, false, ◌&&◌, List, [], ◌∷◌, Bytes,
  length, leb, leb→le, Bool-cases, and-eq-true, or-eq-false,
}
use bip.Error.{ok, err, Result, >>=-eq-ok}
use bip.Bitcoin.Data.{TxIn, TxOut, Transaction}
use bip.Bitcoin.Api.{Api}
use bip.Outpoints.Distinct.{outpoint_eq-eq, outpoint_eq_refl}
use bip.Prevouts.Agreement.{txout_eq-eq, txout_eq_refl}
use bip.Prevouts.Defs.{txout_eq}
use bip.Message.Defs.{
  LockParams, op_return_script, challenge_outpoint, is_bip322_output, create_to_spend,
  to_sign_transaction,
}
use bip.Spend.Defs.{spends_codeseparator}
use bip.Spend.Parse.{parse}
use bip.Templates.Defs.{valid, LibSpend}
use bip.Verify.Defs.{
  valid_at, check_to_sign, spends_challenge, parse_spends, parse_from, verify_spends, verify_full,
  verdict,
}
use bip.Verify.Verdict.{Yields, KnownVersion, verify_spends_valid}

module _ (lib : Api) where
  open lib use {Address, weight, compute_txid, from_unsigned_tx, extract_tx}

  -- The one output of a `to_sign` transaction.
  abbrev pub op_return_output : TxOut
  op_return_output = record { value = 0; script_pubkey = op_return_script lib }

  -- A `to_sign` for the challenge with one input, `i`.
  abbrev pub IsToSign : Transaction → Transaction → TxIn → Type 0
  IsToSign to_spend to_sign i =
      (weight to_sign ≤ 4_000_000)
      × (to_sign.input ≡ i ∷ [])
      × (i.previous_output ≡ challenge_outpoint lib to_spend)
      × (to_sign.output ≡ op_return_output ∷ [])

  pub is_bip322_output_iff :
      (outputs : List TxOut)
      → (is_bip322_output lib outputs ≡ true) ↔ (outputs ≡ op_return_output ∷ [])
  unfolding is_bip322_output txout_eq
  is_bip322_output_iff [] = (λ h. cc, λ h. cc)
  is_bip322_output_iff (o ∷ []) = (
    λ h. ap (λ x. x ∷ []) (txout_eq-eq o op_return_output h),
    λ h. let e : o ≡ op_return_output = cc in rw e (txout_eq_refl op_return_output),
  )
  is_bip322_output_iff (o ∷ p ∷ ps) = (λ h. cc, λ h. cc)

  spends_challenge_iff :
      (to_spend : Transaction) (is : List TxIn)
      → (spends_challenge lib to_spend is ≡ true)
        ↔ ((i : TxIn) × (is ≡ i ∷ []) × (i.previous_output ≡ challenge_outpoint lib to_spend))
  spends_challenge_iff to_spend [] = (λ h. cc, λ (i, e, _). cc)
  spends_challenge_iff to_spend (i ∷ []) = (
    λ h. (i, refl, outpoint_eq-eq _ _ h),
    λ (j, e, o).
        let same : i ≡ j = cc in rw (same, o) (outpoint_eq_refl (challenge_outpoint lib to_spend)),
  )
  spends_challenge_iff to_spend (i ∷ j ∷ is) = (λ h. cc, λ (k, e, _). cc)

  check_to_sign_iff :
      (to_spend to_sign : Transaction)
      → (check_to_sign lib to_spend to_sign ≡ true) ↔ ((i : TxIn) × IsToSign to_spend to_sign i)
  unfolding check_to_sign
  check_to_sign_iff to_spend to_sign =
      let light = leb (weight to_sign) 4_000_000 in
      let challenge = spends_challenge lib to_spend to_sign.input in
      let (split, join) = and-eq-true (light && challenge) (is_bip322_output lib to_sign.output) in
      let (split', join') = and-eq-true light challenge in
      let (a, a') = spends_challenge_iff to_spend to_sign.input in
      let (b, b') = is_bip322_output_iff to_sign.output in
      (
        λ h.
            let (xy, z) = split h in
            let (x, y) = split' xy in let (i, e, o) = a y in (i, (leb→le _ _ x, e, o, b z)),
        λ (i, (w, e, o, f)). join (join' (ground arith, a' (i, e, o)), b' f),
      )

  -- `to_sign`'s only input, parsed against the challenge.
  abbrev pub Parsed : Transaction → Transaction → LibSpend lib → Type 0
  Parsed to_spend to_sign spend = parse lib to_sign to_spend.output 0 ≡ ok spend

  one_spend :
      (to_spend to_sign : Transaction) (i : TxIn) (spends : List (LibSpend lib))
      → to_sign.input ≡ i ∷ []
      → (parse_spends lib to_sign to_spend.output ≡ ok spends)
        ↔ ((spend : LibSpend lib) × (spends ≡ spend ∷ []) × Parsed to_spend to_sign spend)
  unfolding parse_spends parse_from
  one_spend to_spend to_sign i spends e =
      let l : length to_sign.input ≡ 1 = ap length e in
      (
        λ h.
            let (s, p, f) = >>=-eq-ok (parse lib to_sign to_spend.output 0) _ (rw l at h) in
            (s, cc, p),
        λ (s, f, p). rw (l, p, f),
      )

  verdict-ok :
      (to_sign : Transaction) (r : Result (List (LibSpend lib))) (time age : ℕ)
      → verdict lib to_sign r ≡ valid_at time age
      → (spends : List (LibSpend lib)) × (r ≡ ok spends)
        × (verify_spends lib to_sign spends ≡ valid_at time age)
  unfolding verdict
  verdict-ok to_sign (ok spends) time age h = (spends, refl, h)
  verdict-ok to_sign (err e) time age h = cc

  -- The verdict on a transaction with one input.
  verdict_valid :
      (to_spend to_sign : Transaction) (i : TxIn) (time age : ℕ)
      → to_sign.input ≡ i ∷ []
      → (verdict lib to_sign (parse_spends lib to_sign to_spend.output) ≡ valid_at time age) ↔ (
          (spend : LibSpend lib) × Parsed to_spend to_sign spend
          × (spends_codeseparator lib spend ≡ false)
          × Yields lib valid spend
          × KnownVersion to_sign
          × (time ≡ to_sign.lock_time)
          × (age ≡ i.sequence))
  unfolding verdict
  verdict_valid to_spend to_sign i time age e = (
    λ h.
        let (spends, p, v) = verdict-ok to_sign _ time age h in
        let (s, f, q) = (one_spend to_spend to_sign i spends e).0 p in
        let (j, js, (g, c), y, k, t, a) =
          (verify_spends_valid lib to_sign (s ∷ []) time age).0
            (ap (verify_spends lib to_sign) (sym f) ∙ v) in
        let same : j ≡ i = cc in
        (s, q, ((or-eq-false _ false).0 c).0, y.0, k, t, a ∙ ap (λ (x : TxIn). x.sequence) same),
    λ (s, q, c, y, k, t, a). rw ((one_spend to_spend to_sign i (s ∷ []) e).1 (s, refl, q)) (
        (verify_spends_valid lib to_sign (s ∷ []) time age).1
          (i, [], (e, (or-eq-false _ false).1 (c, refl)), (y, tt), k, t, a)),
  )

  -- A proof in the full format is valid at a time and an age exactly if the transaction weighs at
  -- most a block, has one input, which spends the challenge output of the message's `to_spend`, and
  -- one output, of no value to `OP_RETURN`; if that input parses against the challenge output, no
  -- script it runs holds a code separator, and its verification says valid; if the version is 0 or
  -- 2; and if the time is the lock time and the age the sequence of the input.
  pub verify_full_valid :
      (address : Address) (message : Bytes) (to_sign : Transaction) (time age : ℕ)
      → (verify_full lib address message to_sign ≡ valid_at time age) ↔ (
          (i : TxIn) × (spend : LibSpend lib) × IsToSign
            (create_to_spend lib address message)
            to_sign
            i
          × Parsed (create_to_spend lib address message) to_sign spend
          × (spends_codeseparator lib spend ≡ false)
          × Yields lib valid spend
          × KnownVersion to_sign
          × (time ≡ to_sign.lock_time)
          × (age ≡ i.sequence))
  unfolding verify_full verdict
  verify_full_valid address message to_sign time age =
      let to_spend = create_to_spend lib address message in
      let shape = check_to_sign_iff to_spend to_sign in
      (
        λ h. elim (Bool-cases (check_to_sign lib to_spend to_sign)) [
          | inl c ↦
              let (i, w) = shape.0 c in
              let (spend, q, s, y, k, t, a) =
                (verdict_valid to_spend to_sign i time age w.1).0 (rw c at h) in
              (i, spend, w, q, s, y, k, t, a)
          | inr c ↦ cc (rw c at h)
        ],
        λ (i, spend, w, q, c, y, k, t, a).
            rw (shape.1 (i, w))
              ((verdict_valid to_spend to_sign i time age w.1).1 (spend, q, c, y, k, t, a)),
      )

  -- The transaction that `create_to_sign` makes for a challenge passes the checks that verification
  -- makes on the shape, whatever the lock parameters, if it weighs at most a block.
  pub check_to_sign-to_sign_transaction :
      (to_spend : Transaction) (locks : LockParams)
      → weight (to_sign_transaction lib to_spend [] locks) ≤ 4_000_000
      → check_to_sign lib to_spend (to_sign_transaction lib to_spend [] locks) ≡ true
  unfolding to_sign_transaction
  check_to_sign-to_sign_transaction to_spend locks w =
      (check_to_sign_iff to_spend (to_sign_transaction lib to_spend [] locks)).1
        (_, (w, refl, refl, refl))
