-- ===== src/Roles/Steps.antt =====
-- psbt/signer.rs: what a request keeps while signers pass it on.
use bip.Base.{
  ℕ, suc, zero, ◌≡◌, refl, sym, ap, ◌∙◌, some, List, [], ◌∷◌, map, length, get_elem?, set, ltb,
}
use bip.Error.{
  ok, >>=-eq-ok, ok-injective, guard, ok_or, ok_or-eq-ok, panic, ordinary_psbt, to_sign_invalid,
}
use bip.Bitcoin.Data.{TxOut, PsbtInput}
use bip.Bitcoin.Api.{Api}
use bip.Outpoints.Defs.{validate_psbt_structure}
use bip.Prevouts.Defs.{new}
use bip.Roles.Detect.{Bip322Psbt, detect_bip322_psbt}
use bip.Roles.Detected.{utxos, all_utxos, detect_bip322_psbt_same}
use bip.Roles.Helpers.{Input, Request, view}
use bip.Roles.Signer.{sign_bip322_psbt_input, signed_input, checked_prevouts, challenge_at}
use bip.Roles.Frame.{signed_input-utxos}

module _ (lib : Api) where
  open lib use {PrivateKey}

  -- What signers can make of a request, one after the other.
  pub data Signed (start : Request lib) : Request lib → Type 0 where
    unsigned : Signed start start
    next :
        (p q : Request lib) (private_key : PrivateKey) (index : ℕ) (detected : Bip322Psbt)
        → Signed start p
        → sign_bip322_psbt_input lib p private_key index ≡ ok (q, detected)
        → Signed start q

  -- What all of them keep.
  abbrev pub Kept : Request lib → Request lib → Type 0
  Kept p q =
      (q.unsigned_tx ≡ p.unsigned_tx)
      × (q.output_count ≡ p.output_count)
      × (q.unknown ≡ p.unknown)
      × (all_utxos (view q).inputs ≡ all_utxos (view p).inputs)

  abbrev pub bases : List (Input lib) → List PsbtInput
  bases is = map (λ (i : Input lib). i.base) is

  pub all_utxos-set :
      (is : List (Input lib)) (index : ℕ) (input out : Input lib)
      → get_elem? is index ≡ some input
      → utxos out.base ≡ utxos input.base
      → all_utxos (bases (set is index out)) ≡ all_utxos (bases is)
  all_utxos-set [] index input out e u = refl
  all_utxos-set (i ∷ is) zero input out e u =
      let same : i ≡ input = cc in
      ap (λ x. x ∷ all_utxos (bases is)) (u ∙ ap (λ (x : Input lib). utxos x.base) (sym same))
  all_utxos-set (i ∷ is) (suc index) input out e u =
      ap (λ xs. utxos i.base ∷ xs) (all_utxos-set is index input out e u)

  -- The input that a call signs, and what it makes of it.
  pub sign_bip322_psbt_input-ok :
      (p q : Request lib) (private_key : PrivateKey) (index : ℕ) (detected : Bip322Psbt)
      → sign_bip322_psbt_input lib p private_key index ≡ ok (q, detected)
      → (detect_bip322_psbt lib (view p) ≡ some detected)
        × ((input : Input lib) × (out : Input lib) × (prevouts : List TxOut) × (prevout : TxOut)
            × (get_elem? p.inputs index ≡ some input)
            × (get_elem? prevouts index ≡ some prevout)
            × (signed_input lib p.unsigned_tx private_key index prevouts prevout
                  (challenge_at lib index detected prevout)
                  input
                ≡ ok out)
            × (q ≡ record p { inputs = set p.inputs index out }))
  unfolding sign_bip322_psbt_input
  sign_bip322_psbt_input-ok p q private_key index detected h =
      let (d, e, h₁) = >>=-eq-ok (ok_or (detect_bip322_psbt lib (view p)) ordinary_psbt) _ h in
      let (_, _, h₂) = >>=-eq-ok (validate_psbt_structure (view p)) _ h₁ in
      let (_, _, h₃) =
        >>=-eq-ok (guard (ltb index (length p.unsigned_tx.input)) to_sign_invalid) _ h₂ in
      let (resolver, _, h₄) = >>=-eq-ok (new lib (view p)) _ h₃ in
      let (prevouts, _, h₅) =
        >>=-eq-ok (checked_prevouts lib (view p) resolver 0 (length p.inputs)) _ h₄ in
      let (prevout, o, h₆) = >>=-eq-ok (ok_or (get_elem? prevouts index) panic) _ h₅ in
      let (input, i, h₇) = >>=-eq-ok (ok_or (get_elem? p.inputs index) panic) _ h₆ in
      let (out, s, h₈) =
        >>=-eq-ok
          (signed_input lib p.unsigned_tx private_key index prevouts prevout
            (challenge_at lib index d prevout) input)
          _ h₇ in
      let same = ok-injective h₈ in
      let same_d = ap (λ (x : Request lib × Bip322Psbt). x.1) same in
      (
        ok_or-eq-ok _ _ e ∙ ap some same_d,
        (
          input,
          out,
          prevouts,
          prevout,
          ok_or-eq-ok _ _ i,
          ok_or-eq-ok _ _ o,
          ap
                (λ (x : Bip322Psbt).
                  signed_input lib p.unsigned_tx private_key index prevouts prevout
                    (challenge_at lib index x prevout) input)
                (sym same_d)
              ∙ s,
          ap (λ (x : Request lib × Bip322Psbt). x.0) (sym same),
        ),
      )

  step-Kept :
      (p q : Request lib) (private_key : PrivateKey) (index : ℕ) (detected : Bip322Psbt)
      → sign_bip322_psbt_input lib p private_key index ≡ ok (q, detected)
      → Kept p q
  step-Kept p q private_key index detected h =
      let (_, (input, out, prevouts, prevout, i, _, s, e)) =
        sign_bip322_psbt_input-ok p q private_key index detected h in
      let kept =
        signed_input-utxos lib p.unsigned_tx private_key index prevouts prevout _ input out s in
      (
        ap (λ (x : Request lib). x.unsigned_tx) e,
        ap (λ (x : Request lib). x.output_count) e,
        ap (λ (x : Request lib). x.unknown) e,
        ap (λ (x : Request lib). all_utxos (bases x.inputs)) e
            ∙ all_utxos-set p.inputs index input out i kept,
      )

  pub Kept-detect_bip322_psbt :
      (p q : Request lib)
      → Kept p q
      → detect_bip322_psbt lib (view q) ≡ detect_bip322_psbt lib (view p)
  Kept-detect_bip322_psbt p q (t, n, u, i) =
      rw (t, n, u)
        (detect_bip322_psbt_same lib p.unsigned_tx p.output_count p.unknown (bases q.inputs)
          (bases p.inputs) i)

  -- A request that signers have signed, in any number of successful steps of
  -- `sign_bip322_psbt_input`, at any inputs and with any keys, keeps its unsigned
  -- transaction, its output count, its unknown fields and the inputs' UTXO fields, and is
  -- detected by `detect_bip322_psbt` exactly as it was before.
  pub Signed-Kept :
      (p q : Request lib)
      → Signed p q
      → Kept p q × (detect_bip322_psbt lib (view q) ≡ detect_bip322_psbt lib (view p))
  Signed-Kept p q unsigned = ((refl, refl, refl, refl), refl)
  Signed-Kept p q (next r _ key index detected before e) =
      let ((t, n, u, i), d) = Signed-Kept p r before in
      let (t', n', u', i') = step-Kept r q key index detected e in
      ((t' ∙ t, n' ∙ n, u' ∙ u, i' ∙ i), Kept-detect_bip322_psbt r q (t', n', u', i') ∙ d)
