-- ===== src/Verify/Verdict.antt =====
-- verify.rs: what `verify_spends` makes of the verdicts on the inputs.
use bip.Base.{
  ℕ, ◌≡◌, ◌↔◌, ◌⊎◌, inl, inr, refl, sym, ap, ◌∙◌, arith, Bool, true, false, ◌||◌, ◌==◌, List, [],
  ◌∷◌, All, any, Bool-cases, List-cases,
}
use bip.Error.{to_sign_invalid, code_separator, Error, ok, >>=-eq-ok, Result-cases}
use bip.Bitcoin.Data.{TxIn, Transaction}
use bip.Bitcoin.Api.{Api}
use bip.Spend.Defs.{spends_codeseparator}
use bip.Templates.Defs.{InputVerification, valid, inconclusive, LibSpend}
use bip.Verify.Defs.{
  Verification, valid_at, inconclusive_proof, invalid, note, conclude, verify_input, verify_inputs,
  verify_spends,
}

-- A version that the rules on upgrades know.
abbrev pub KnownVersion : Transaction → Type 0
KnownVersion tx = (tx.version ≡ 0) ⊎ (tx.version ≡ 2)

known : (v : ℕ) → ((v == 0 || v == 2) ≡ true) ↔ ((v ≡ 0) ⊎ (v ≡ 2))
known v = ground arith

conclude-valid :
    (tx : Transaction) (i : TxIn) (is : List TxIn) (seen : Bool) (time age : ℕ)
    → tx.input ≡ i ∷ is
    → (conclude tx seen ≡ valid_at time age)
      ↔ ((seen ≡ false) × KnownVersion tx × (time ≡ tx.lock_time) × (age ≡ i.sequence))
unfolding conclude
conclude-valid tx i is true time age e = (λ h. cc, λ h. cc h.0)
conclude-valid tx i is false time age e =
    let (to, from) = known tx.version in
    elim (Bool-cases (tx.version == 0 || tx.version == 2)) [
      | inl k ↦ rw (k, e) (λ h. (refl, to k, cc, cc), λ (_, _, t, a). rw (t, a))
      | inr k ↦ rw k (λ h. cc, λ (_, v, _, _). cc (from v))
    ]

conclude-inconclusive :
    (tx : Transaction) (seen : Bool)
    → (conclude tx seen ≡ inconclusive_proof) ↔ ((seen ≡ true) ⊎ (KnownVersion tx → ⊥))
unfolding conclude
conclude-inconclusive tx true = (λ h. inl refl, λ h. refl)
conclude-inconclusive tx false =
    let (to, from) = known tx.version in
    elim (Bool-cases (tx.version == 0 || tx.version == 2)) [
      | inl k ↦ rw k (λ h. cc, λ h. elim h [ inl x ↦ cc | inr n ↦ absurd (n (to k)) ])
      | inr k ↦ rw k (λ h. inr (λ v. cc (from v)), λ h. refl)
    ]

module _ (lib : Api) where
  -- The verdict on the input.
  abbrev pub Yields : InputVerification → LibSpend lib → Type 0
  Yields v spend = verify_input lib spend ≡ ok v

  abbrev pub Accepted : LibSpend lib → Type 0
  Accepted spend = Yields valid spend ⊎ Yields inconclusive spend

  abbrev pub AnyInconclusive : List (LibSpend lib) → Type 0
  AnyInconclusive [] = ⊥
  AnyInconclusive (s ∷ ss) = Yields inconclusive s ⊎ AnyInconclusive ss

  by_verdict :
      (v : InputVerification) (s : LibSpend lib) (ss : List (LibSpend lib)) (seen b : Bool)
      → verify_input lib s ≡ ok v
      → verify_inputs lib ss (note v seen) ≡ ok b
      → (Yields valid s × (verify_inputs lib ss seen ≡ ok b))
        ⊎ (Yields inconclusive s × (verify_inputs lib ss true ≡ ok b))
  by_verdict valid s ss seen b e f = inl (e, f)
  by_verdict inconclusive s ss seen b e f = inr (e, f)

  -- The first input, and what the loop does with the others.
  first_verdict :
      (s : LibSpend lib) (ss : List (LibSpend lib)) (seen b : Bool)
      → verify_inputs lib (s ∷ ss) seen ≡ ok b
      → (Yields valid s × (verify_inputs lib ss seen ≡ ok b))
        ⊎ (Yields inconclusive s × (verify_inputs lib ss true ≡ ok b))
  unfolding verify_inputs
  first_verdict s ss seen b h =
      let (v, e, f) = >>=-eq-ok (verify_input lib s) _ h in by_verdict v s ss seen b e f

  stays_seen : (ss : List (LibSpend lib)) → verify_inputs lib ss true ≡ ok false → ⊥
  unfolding verify_inputs
  stays_seen [] h = cc
  stays_seen (s ∷ ss) h = elim (first_verdict s ss true false h) [
    | inl (e, f) ↦ stays_seen ss f
    | inr (e, f) ↦ stays_seen ss f
  ]

  verify_inputs-false :
      (ss : List (LibSpend lib)) → (verify_inputs lib ss false ≡ ok false) ↔ All (Yields valid) ss
  unfolding verify_inputs
  verify_inputs-false [] = (λ h. tt, λ h. refl)
  verify_inputs-false (s ∷ ss) =
      let (to, from) = verify_inputs-false ss in
      (
        λ h. elim (first_verdict s ss false false h) [
          | inl (e, f) ↦ (e, to f)
          | inr (e, f) ↦ absurd (stays_seen ss f)
        ],
        λ (e, b). rw e (from b),
      )

  verify_inputs-seen :
      (ss : List (LibSpend lib)) → (verify_inputs lib ss true ≡ ok true) ↔ All Accepted ss
  unfolding verify_inputs
  verify_inputs-seen [] = (λ h. tt, λ h. refl)
  verify_inputs-seen (s ∷ ss) =
      let (to, from) = verify_inputs-seen ss in
      (
        λ h. elim (first_verdict s ss true true h) [
          | inl (e, f) ↦ (inl e, to f)
          | inr (e, f) ↦ (inr e, to f)
        ],
        λ (a, b). elim a [ inl e ↦ rw e (from b) | inr e ↦ rw e (from b) ],
      )

  verify_inputs-true :
      (ss : List (LibSpend lib))
      → (verify_inputs lib ss false ≡ ok true) ↔ (All Accepted ss × AnyInconclusive ss)
  unfolding verify_inputs
  verify_inputs-true [] = (λ h. cc, λ h. elim h.1 [ ])
  verify_inputs-true (s ∷ ss) =
      let (to, from) = verify_inputs-true ss in
      let (to', from') = verify_inputs-seen ss in
      (
        λ h. elim (first_verdict s ss false true h) [
          | inl (e, f) ↦ let (a, b) = to f in ((inl e, a), inr b)
          | inr (e, f) ↦ ((inr e, to' f), inl e)
        ],
        λ ((x, a), b). elim x [
          | inl e ↦ elim b [ inl f ↦ cc | inr g ↦ rw e (from (a, g)) ]
          | inr e ↦ rw e (from' a)
        ],
      )

  -- A transaction with an input none of whose scripts holds a code separator.
  abbrev pub Checkable : Transaction → TxIn → List TxIn → List (LibSpend lib) → Type 0
  Checkable tx i is spends = (tx.input ≡ i ∷ is) × (any (spends_codeseparator lib) spends ≡ false)

  runs_to_end :
      (tx : Transaction) (spends : List (LibSpend lib)) (i : TxIn) (is : List TxIn) (seen : Bool)
      → Checkable tx i is spends
      → verify_inputs lib spends false ≡ ok seen
      → verify_spends lib tx spends ≡ conclude tx seen
  unfolding verify_spends
  runs_to_end tx spends i is seen (e, c) f = rw (e, c, f)

  -- A verdict that is no error comes from the end of the function.
  reaches_end :
      (tx : Transaction) (spends : List (LibSpend lib)) (v : Verification)
      → ((e : Error) → v ≡ invalid e → ⊥)
      → verify_spends lib tx spends ≡ v
      → (i : TxIn) × (is : List TxIn) × Checkable tx i is spends
        × (seen : Bool) × (verify_inputs lib spends false ≡ ok seen)
        × (conclude tx seen ≡ v)
  unfolding verify_spends
  reaches_end tx spends v n h = elim (List-cases tx.input) [
    | inl e ↦ absurd (n to_sign_invalid (sym (rw e at h)))
    | inr (i, is, e) ↦ elim (Bool-cases (any (spends_codeseparator lib) spends)) [
      | inl c ↦ absurd (n code_separator (sym (rw (e, c) at h)))
      | inr c ↦ elim (Result-cases (verify_inputs lib spends false)) [
        | inl (seen, f) ↦
            (i, is, (e, c), seen, f, sym (runs_to_end tx spends i is seen (e, c) f) ∙ h)
        | inr (x, f) ↦ absurd (n x (sym (rw (e, c, f) at h)))
      ]
    ]
  ]

  -- The verdict is `Valid` exactly if there is an input, no script that is run holds a code
  -- separator, every input is valid and the version is 0 or 2; the time is then the lock time and
  -- the age the sequence of the first input.
  pub verify_spends_valid :
      (tx : Transaction) (spends : List (LibSpend lib)) (time age : ℕ)
      → (verify_spends lib tx spends ≡ valid_at time age) ↔ (
          (i : TxIn) × (is : List TxIn) × Checkable tx i is spends
          × All (Yields valid) spends
          × KnownVersion tx
          × (time ≡ tx.lock_time)
          × (age ≡ i.sequence))
  verify_spends_valid tx spends time age = (
    λ h.
        let (i, is, c, seen, f, g) = reaches_end tx spends _ (λ e x. cc) h in
        let (s, v, t, a) = (conclude-valid tx i is seen time age c.0).0 g in
        (i, is, c, (verify_inputs-false spends).0 (f ∙ ap ok s), v, t, a),
    λ (i, is, c, b, v, t, a).
        runs_to_end tx spends i is false c ((verify_inputs-false spends).1 b)
        ∙ (conclude-valid tx i is false time age c.0).1 (refl, v, t, a),
  )

  All-Accepted : (ss : List (LibSpend lib)) → All (Yields valid) ss → All Accepted ss
  All-Accepted [] h = tt
  All-Accepted (s ∷ ss) (e, h) = (inl e, All-Accepted ss h)

  upgradeable :
      (ss : List (LibSpend lib)) (seen : Bool) {N : Type 0}
      → verify_inputs lib ss false ≡ ok seen
      → (seen ≡ true) ⊎ N
      → All Accepted ss × (AnyInconclusive ss ⊎ N)
  upgradeable ss true f u = let (a, b) = (verify_inputs-true ss).0 f in (a, inl b)
  upgradeable ss false f (inl e) = cc
  upgradeable ss false f (inr n) = (All-Accepted ss ((verify_inputs-false ss).0 f), inr n)

  Accepted-runs :
      (ss : List (LibSpend lib))
      → All Accepted ss
      → (seen : Bool) × (verify_inputs lib ss false ≡ ok seen)
  unfolding verify_inputs
  Accepted-runs [] h = (false, refl)
  Accepted-runs (s ∷ ss) (inl e, h) = let (seen, f) = Accepted-runs ss h in (seen, rw (e, f))
  Accepted-runs (s ∷ ss) (inr e, h) = (true, rw (e, (verify_inputs-seen ss).1 h))

  -- The verdict is `Inconclusive` exactly if there is an input, no script that is run holds a code
  -- separator, no input is invalid, and an input is inconclusive or the version is neither 0 nor 2:
  -- an invalid input makes the proof invalid whatever rules on upgrades apply.
  pub verify_spends_inconclusive :
      (tx : Transaction) (spends : List (LibSpend lib))
      → (verify_spends lib tx spends ≡ inconclusive_proof) ↔ (
          (i : TxIn) × (is : List TxIn) × Checkable tx i is spends
          × All Accepted spends
          × (AnyInconclusive spends ⊎ (KnownVersion tx → ⊥)))
  verify_spends_inconclusive tx spends = (
    λ h.
        let (i, is, c, seen, f, g) = reaches_end tx spends _ (λ e x. cc) h in
        let (a, b) = upgradeable spends seen f ((conclude-inconclusive tx seen).0 g) in
        (i, is, c, a, b),
    λ (i, is, c, a, b). elim b [
      | inl x ↦
          runs_to_end tx spends i is true c ((verify_inputs-true spends).1 (a, x))
          ∙ (conclude-inconclusive tx true).1 (inl refl)
      | inr n ↦
          let (seen, f) = Accepted-runs spends a in
          runs_to_end tx spends i is seen c f ∙ (conclude-inconclusive tx seen).1 (inr n)
    ],
  )
