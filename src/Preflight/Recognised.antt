-- ===== src/Preflight/Recognised.antt =====
-- `Cursor::transaction` read backwards, and the check of a whole transaction.
use bip.Base.{
  ℕ, ◌<◌, ◌≡◌, inl, inr, refl, sym, ◌∙◌, ◌↔◌, true, List, [], ◌∷◌, ◌++◌, append_assoc, Bytes,
  length, All, All-split, IsByte, ◌==◌, if◌then◌else◌, bytes_eq, bytes_eq-eq, Bool-cases, ==_iff,
}
use bip.Preflight.Cursor.{Cursor, done, refused, lift, new, word, skip, take_bytes}
use bip.Preflight.Formats.{
  inputs, outputs, witness_body, segwit_parts, segwit_body, legacy_body, transaction_body,
  transaction,
}
use bip.Preflight.Steps.{rest, >>=-eq-done, skip-done, take_bytes-done}
use bip.Preflight.Loops.{repeat-done, pure-done}
use bip.Preflight.Witness.{encode_witness, IsWitness, witness_body-done, At-new, accepts-done}
use bip.Preflight.Inputs.{
  RawInput, RawOutput, encode_inputs, encode_outputs, AreInputs, AreOutputs, inputs-done,
  outputs-done,
}
use bip.Preflight.Transactions.{
  RawTransaction, legacy, segwit, encode_transaction, IsTransaction, inputs-none, encode_parts,
  transaction_body-Ran,
}

segwit_parts-done :
    (c c' : Cursor)
    → All IsByte (rest c)
    → segwit_parts c ≡ done (tt, c')
    → (is : List RawInput) × (os : List RawOutput) × (ws : List (List Bytes)) × AreInputs is
      × AreOutputs os
      × (length ws ≡ length is)
      × All IsWitness ws
      × (rest c ≡ encode_parts is os ws ++ rest c')
unfolding segwit_parts
segwit_parts-done c c' b₁ h =
    let (n, d₂, e₂, g₂) = >>=-eq-done inputs _ c h in
    let (is, p₂, l₂, a₂) = inputs-done n c d₂ b₁ e₂ in
    let (_, b₂) = All-split IsByte (encode_inputs is) (rest d₂) (rw a₂ at b₁) in
    let (m, d₃, e₃, g₃) = >>=-eq-done outputs _ d₂ g₂ in
    let (os, p₃, l₃, a₃) = outputs-done m d₂ d₃ b₂ e₃ in
    let (_, b₃) = All-split IsByte (encode_outputs os) (rest d₃) (rw a₃ at b₂) in
    let (ws, p, l, a₄) =
      repeat-done encode_witness IsWitness witness_body witness_body-done n d₃ c' b₃ g₃ in
    (is, os, ws, p₂, p₃, l ∙ sym l₂, p, rw (a₂, a₃, a₄) (simp append_assoc))

-- A flag that passed the test is the byte 1.
flag_test :
    (flag : Bytes) (d c' : Cursor)
    → (if bytes_eq flag (1 ∷ []) then segwit_parts else lift refused) d ≡ done (tt, c')
    → (flag ≡ 1 ∷ []) × (segwit_parts d ≡ done (tt, c'))
flag_test flag d c' h = elim (Bool-cases (bytes_eq flag (1 ∷ []))) [
  | inl e ↦ (bytes_eq-eq flag _ e, rw e at h)
  | inr e ↦ cc (rw e at h)
]

segwit_body-done :
    (c c' : Cursor)
    → All IsByte (rest c)
    → segwit_body c ≡ done (tt, c')
    → (is : List RawInput) × (os : List RawOutput) × (ws : List (List Bytes)) × AreInputs is
      × AreOutputs os
      × (length ws ≡ length is)
      × All IsWitness ws
      × (rest c ≡ 1 ∷ (encode_parts is os ws ++ rest c'))
unfolding segwit_body
segwit_body-done c c' bs h =
    let (flag, d, e, g) = >>=-eq-done (take_bytes 1) _ c h in
    let (a, l) = take_bytes-done 1 c flag d e in
    let (f, k) = flag_test flag d c' g in
    let (_, bd) = All-split IsByte flag (rest d) (rw a at bs) in
    let (is, os, ws, p, q, r, s, b) = segwit_parts-done d c' bd k in
    (is, os, ws, p, q, r, s, rw (a, f, b))

legacy_body-done :
    (c c' : Cursor)
    → All IsByte (rest c)
    → legacy_body c ≡ done (tt, c')
    → (os : List RawOutput) × AreOutputs os × (rest c ≡ encode_outputs os ++ rest c')
unfolding legacy_body
legacy_body-done c c' bs h =
    let (n, d, e, g) = >>=-eq-done outputs _ c h in
    let (os, p, _, a) = outputs-done n c d bs e in
    let (_, same) = pure-done tt tt d c' g in (os, p, rw (← same) a)

no_inputs : (is : List RawInput) → length is ≡ 0 → is ≡ []
no_inputs [] h = refl
no_inputs (i ∷ is) h = cc

-- The two ways in which a transaction was read, told apart by its first count.
body-done :
    (v : Bytes) (is : List RawInput) (n : ℕ) (c d c' : Cursor)
    → length v ≡ 4
    → AreInputs is
    → length is ≡ n
    → All IsByte (rest d)
    → rest c ≡ v ++ (encode_inputs is ++ rest d)
    → (if n == 0 then segwit_body else legacy_body) d ≡ done (tt, c')
    → (k : Bytes) → length k ≡ 4
    → (ys : Bytes) → rest c' ≡ k ++ ys
    → (t : RawTransaction) × IsTransaction t × (rest c ≡ encode_transaction t ++ ys)
unfolding encode_transaction
body-done v is n c d c' lv pi li bs a h k lk ys b = elim (Bool-cases (n == 0)) [
  | inl z ↦
      let (is', os, ws, p, q, r, s, e) = segwit_body-done d c' bs (rw z at h) in
      let none : is ≡ [] = no_inputs is (li ∙ (==_iff n 0).0 z) in
      (
        segwit (record { version = v; ins = is'; outs = os; lock_time = k }) ws,
        ((lv, p, q, lk), r, s),
        rw (a, e, b, none, inputs-none) (simp append_assoc),
      )
  | inr z ↦
      let (os, q, e) = legacy_body-done d c' bs (rw z at h) in
      (
        legacy (record { version = v; ins = is; outs = os; lock_time = k }),
        ((lv, pi, q, lk), λ e. cc ((==_iff n 0).1 (sym li ∙ e))),
        rw (a, e, b) (simp append_assoc),
      )
]

transaction_body-done :
    (c c' : Cursor)
    → All IsByte (rest c)
    → transaction_body c ≡ done (tt, c')
    → (t : RawTransaction) × IsTransaction t × (rest c ≡ encode_transaction t ++ rest c')
unfolding transaction_body
transaction_body-done c c' bs h =
    let (_, d₁, e₁, g₁) = >>=-eq-done (skip 4) _ c h in
    let (v, a₁, l₁) = skip-done 4 c d₁ e₁ in
    let (_, b₁) = All-split IsByte v (rest d₁) (rw a₁ at bs) in
    let (n, d₂, e₂, g₂) = >>=-eq-done inputs _ d₁ g₁ in
    let (is, p₂, l₂, a₂) = inputs-done n d₁ d₂ b₁ e₂ in
    let (_, b₂) = All-split IsByte (encode_inputs is) (rest d₂) (rw a₂ at b₁) in
    let (_, d₃, e₃, g₃) = >>=-eq-done (if n == 0 then segwit_body else legacy_body) _ d₂ g₂ in
    let (k, a₄, l₄) = skip-done 4 d₃ c' g₃ in
    body-done v is n c d₂ d₃ l₁ p₂ l₂ b₂ (rw (a₁, a₂)) e₃ k l₄ (rest c') a₄

-- On bytes of a slice, the check of a transaction accepts exactly the byte strings that begin with
-- a transaction in the legacy serialization with an input or in the BIP-144 serialization.
pub transaction_iff :
    (bytes : Bytes)
    → length bytes < word
    → All IsByte bytes
    → (transaction bytes ≡ true) ↔ (
        (t : RawTransaction) × (ys : Bytes) × IsTransaction t
        × (bytes ≡ encode_transaction t ++ ys))
unfolding transaction
transaction_iff bytes w bs = (
  λ h.
      let (c, e) = accepts-done (transaction_body (new bytes)) h in
      let (t, p, a) = transaction_body-done (new bytes) c bs e in (t, rest c, p, a),
  λ (t, ys, p, a).
      let (c, e, _) = transaction_body-Ran t (new bytes) ys p (At-new bytes _ w a) in rw e,
)
