-- ===== src/Verify/Encoded.antt =====
-- verify.rs and verify/decode.rs: encoded proofs that verify, and what the decoding has checked.
use bip.Base.{
  ℕ, ◌≤◌, ◌≡◌, inl, inr, ap, ◌∙◌, arith, true, not, ◌||◌, Option, none, some, [], ◌∷◌, Bytes,
  length, leb, ltb, leb→le, ◌==◌, Bool-cases, or-eq-false, not-eq-true,
}
use bip.Error.{
  Error, ok, >>=-eq-ok, guard, guard-eq-ok, Result-cases, to_sign_invalid, invalid_witness,
  signature_decode, witness_malformed, transaction_base64_decode, transaction_consensus_decode,
}
use bip.Bitcoin.Data.{Witness, Transaction, Psbt}
use bip.Bitcoin.Api.{Api}
use bip.Message.Defs.{parse_address}
use bip.Message.Payload.{
  decode_payload, simple_signature_prefix, full_signature_prefix, pof_signature_prefix,
}
use bip.Preflight.Cursor.{Outcome, done, refused, out_of_fuel}
use bip.Preflight.Formats.{witness, transaction, PsbtShape}
use bip.Preflight.Psbt.{psbt}
use bip.Verify.Defs.{valid_at, verify_simple, verify_full}
use bip.Verify.Pof.{verify_pof}
use bip.Verify.Decode.{
  shape_or, decode_exact, decode_simple, decode_full, decode_shape, decode_pof,
  verify_simple_encoded, verify_full_encoded, verify_pof_encoded,
}

-- A decoder that is accepted has read all the bytes.
decode_exact-ok {ℓ} :
    {A : Type ℓ} (o : Option (A × Bytes)) (e : Error) {a : A}
    → decode_exact o e ≡ ok a
    → o ≡ some (a, [])
unfolding decode_exact
decode_exact-ok none e h = cc
decode_exact-ok (some (b, [])) e h = cc
decode_exact-ok (some (b, x ∷ xs)) e h = cc

shape_or-ok : (r : Outcome PsbtShape) {s : PsbtShape} → shape_or r ≡ ok s → r ≡ done s
shape_or-ok (done s) h = cc
shape_or-ok refused h = cc
shape_or-ok out_of_fuel h = cc

module _ (lib : Api) where
  open lib use {Address, address_from_str, decode_witness, decode_transaction, deserialize_psbt}

  -- The text is a payload of the format, with these bytes.
  abbrev pub Carries : Bytes → Bytes → (Bytes → Error) → Bytes → Type 0
  Carries text prefix context bytes =
      (payload : Bytes) × (decode_payload lib text prefix context ≡ ok (payload, bytes))

  -- A simple proof that is valid in encoded form carries at most 4,000,000 bytes, which the scan for
  -- witnesses accepts and which decode as a witness with nothing left over, and the decoded proof is
  -- valid for the decoded address.
  pub verify_simple_encoded_valid :
      (address message signature : Bytes) (time age : ℕ)
      → verify_simple_encoded lib address message signature ≡ some (valid_at time age)
      → (a : Address) × (w : Witness) × (bytes : Bytes) × (parse_address lib address ≡ ok a)
        × Carries signature simple_signature_prefix signature_decode bytes
        × (length bytes ≤ 4_000_000)
        × (witness bytes ≡ true)
        × (decode_witness bytes ≡ some (w, []))
        × (verify_simple lib a message w ≡ some (valid_at time age))
  unfolding verify_simple_encoded decode_simple
  verify_simple_encoded_valid address message signature time age h =
      elim (Result-cases (decode_simple lib address signature)) [
        | inr (e, d) ↦ cc (rw (verify_simple_encoded, d) at h)
        | inl ((a, w), d) ↦
            let (b, e₁, h₁) = >>=-eq-ok (parse_address lib address) _ d in
            let ((payload, bytes), e₂, h₂) =
              >>=-eq-ok (decode_payload lib signature simple_signature_prefix signature_decode) _
                h₁ in
            let (_, e₃, h₃) =
              >>=-eq-ok (guard (leb (length bytes) 4_000_000) to_sign_invalid) _ h₂ in
            let (_, e₄, h₄) = >>=-eq-ok (guard (witness bytes) invalid_witness) _ h₃ in
            let (v, e₅, h₅) =
              >>=-eq-ok (decode_exact (decode_witness bytes) witness_malformed) _ h₄ in
            let same : (b ≡ a) × (v ≡ w) = (cc, cc) in
            (
              a,
              w,
              bytes,
              e₁ ∙ ap ok same.0,
              (payload, e₂),
              leb→le _ _ (guard-eq-ok _ _ e₃),
              guard-eq-ok _ _ e₄,
              decode_exact-ok _ _ (e₅ ∙ ap ok same.1),
              rw (verify_simple_encoded, d) at h,
            )
      ]

  -- A full proof that is valid in encoded form carries at most 4,000,000 bytes, which the scan for
  -- transactions accepts and which decode as a transaction with nothing left over, and the decoded
  -- proof is valid for the decoded address.
  pub verify_full_encoded_valid :
      (address message to_sign : Bytes) (time age : ℕ)
      → verify_full_encoded lib address message to_sign ≡ valid_at time age
      → (a : Address) × (tx : Transaction) × (bytes : Bytes) × (parse_address lib address ≡ ok a)
        × Carries to_sign full_signature_prefix transaction_base64_decode bytes
        × (length bytes ≤ 4_000_000)
        × (transaction bytes ≡ true)
        × (decode_transaction bytes ≡ some (tx, []))
        × (verify_full lib a message tx ≡ valid_at time age)
  unfolding verify_full_encoded decode_full
  verify_full_encoded_valid address message to_sign time age h =
      elim (Result-cases (decode_full lib address to_sign)) [
        | inr (e, d) ↦ cc (rw (verify_full_encoded, d) at h)
        | inl ((a, tx), d) ↦
            let (b, e₁, h₁) = >>=-eq-ok (parse_address lib address) _ d in
            let ((payload, bytes), e₂, h₂) =
              >>=-eq-ok (decode_payload lib to_sign full_signature_prefix transaction_base64_decode)
                _ h₁ in
            let long = ltb 4_000_000 (length bytes) in
            let (_, e₃, h₃) =
              >>=-eq-ok (guard (not (long || not (transaction bytes))) to_sign_invalid) _ h₂ in
            let (v, e₅, h₅) =
              >>=-eq-ok
                (decode_exact (decode_transaction bytes) (transaction_consensus_decode payload)) _
                h₃ in
            let same : (b ≡ a) × (v ≡ tx) = (cc, cc) in
            let (short, scanned) =
              (or-eq-false long (not (transaction bytes))).0
                ((not-eq-true (long || not (transaction bytes))).0 (guard-eq-ok _ _ e₃)) in
            (
              a,
              tx,
              bytes,
              e₁ ∙ ap ok same.0,
              (payload, e₂),
              ground arith,
              ground arith,
              decode_exact-ok _ _ (e₅ ∙ ap ok same.1),
              rw (verify_full_encoded, d) at h,
            )
      ]

  decode_shape-some :
      (a b : Address) (bytes : Bytes) (shape : PsbtShape) (p : Psbt)
      → decode_shape lib a bytes shape ≡ ok (some (b, p))
      → (a ≡ b)
        × (shape.inputs ≤ 1024)
        × (shape.outputs ≡ 1)
        × (deserialize_psbt bytes ≡ some (p, []))
  unfolding decode_shape
  decode_shape-some a b bytes shape p h = elim (Bool-cases (ltb 1024 shape.inputs)) [
    | inl e ↦ cc (rw (decode_shape, e) at h)
    | inr e ↦ elim (Bool-cases (shape.outputs == 1)) [
      | inl o ↦
          let (q, e₁, h₁) =
            >>=-eq-ok (decode_exact (deserialize_psbt bytes) to_sign_invalid) _
              (rw (decode_shape, e, o) at h) in
          let same : (a ≡ b) × (q ≡ p) = (cc, cc) in
          (same.0, ground arith, ground arith, decode_exact-ok _ _ (e₁ ∙ ap ok same.1))
      | inr o ↦ cc (rw (decode_shape, e, o) at h)
    ]
  ]

  -- A proof of funds that is valid in encoded form carries bytes that the scan for PSBTs accepts with
  -- at most 1024 inputs and one output and that decode as a PSBT with nothing left over, and the
  -- decoded proof is valid for the decoded address.
  pub verify_pof_encoded_valid :
      (address message to_sign : Bytes) (time age : ℕ)
      → verify_pof_encoded lib address message to_sign ≡ valid_at time age
      → (a : Address) × (p : Psbt) × (bytes : Bytes) × (shape : PsbtShape) × (parse_address lib
            address
          ≡ ok a)
        × Carries to_sign pof_signature_prefix transaction_base64_decode bytes
        × (psbt bytes ≡ done shape)
        × (shape.inputs ≤ 1024)
        × (shape.outputs ≡ 1)
        × (deserialize_psbt bytes ≡ some (p, []))
        × (verify_pof lib a message p ≡ valid_at time age)
  unfolding verify_pof_encoded decode_pof
  verify_pof_encoded_valid address message to_sign time age h =
      elim (Result-cases (decode_pof lib address to_sign)) [
        | inr (e, d) ↦ cc (rw (verify_pof_encoded, d) at h)
        | inl (none, d) ↦ cc (rw (verify_pof_encoded, d) at h)
        | inl (some (a, p), d) ↦
            let (b, e₁, h₁) = >>=-eq-ok (parse_address lib address) _ d in
            let ((payload, bytes), e₂, h₂) =
              >>=-eq-ok (decode_payload lib to_sign pof_signature_prefix transaction_base64_decode)
                _ h₁ in
            let (shape, e₃, h₃) = >>=-eq-ok (shape_or (psbt bytes)) _ h₂ in
            let (same, i, o, q) = decode_shape-some b a bytes shape p h₃ in
            (
              a,
              p,
              bytes,
              shape,
              e₁ ∙ ap ok same,
              (payload, e₂),
              shape_or-ok _ e₃,
              i,
              o,
              q,
              rw (verify_pof_encoded, d) at h,
            )
      ]
