-- ===== src/Preflight/Unsigned.antt =====
-- `Cursor::unsigned_transaction` against the wire format of a PSBT's unsigned transaction.
use bip.Base.{◌≡◌, refl, List, ◌++◌, append_assoc, Bytes, length, All, All-split, IsByte}
use bip.Preflight.Cursor.{Cursor, done, skip}
use bip.Preflight.Formats.{inputs, outputs, unsigned_transaction, PsbtShape}
use bip.Preflight.Steps.{rest, At, Ran, Ran-bind, >>=-eq-done, skip-Ran, skip-done}
use bip.Preflight.Loops.{pure-done}
use bip.Preflight.Inputs.{
  RawInput, RawOutput, encode_inputs, encode_outputs, AreInputs, AreOutputs, At-eq, inputs-Ran,
  inputs-done, outputs-Ran, outputs-done,
}

-- An unsigned transaction of a PSBT, which is never in the witness serialization.
pub record RawUnsigned : Type 0 where
  pub version : Bytes
  pub ins : List RawInput
  pub outs : List RawOutput
  pub lock_time : Bytes

abbrev pub encode_unsigned : RawUnsigned → Bytes
encode_unsigned t = t.version ++ (encode_inputs t.ins ++ (encode_outputs t.outs ++ t.lock_time))

abbrev pub IsUnsigned : RawUnsigned → Type 0
IsUnsigned t =
    (length t.version ≡ 4) × AreInputs t.ins × AreOutputs t.outs × (length t.lock_time ≡ 4)

abbrev pub shape_of : RawUnsigned → PsbtShape
shape_of t = record { inputs = length t.ins; outputs = length t.outs }

pub unsigned_transaction-Ran :
    (t : RawUnsigned) (c : Cursor) (ys : Bytes)
    → IsUnsigned t
    → At c (encode_unsigned t ++ ys)
    → Ran unsigned_transaction c (shape_of t) ys
unfolding unsigned_transaction
unsigned_transaction-Ran t c ys (v, i, o, l) at =
    Ran-bind (skip 4) _ c tt (encode_inputs t.ins ++ (encode_outputs t.outs ++ (t.lock_time ++ ys)))
      (skip-Ran 4 c t.version _ v (At-eq at (simp append_assoc)))
      (λ d a. Ran-bind inputs _ d (length t.ins) _ (inputs-Ran t.ins d _ i a) (λ d a.
        Ran-bind outputs _ d (length t.outs) _ (outputs-Ran t.outs d _ o a) (λ d a.
          Ran-bind (skip 4) _ d tt ys (skip-Ran 4 d t.lock_time ys l a) (λ d a. (d, refl, a)))))

pub unsigned_transaction-done :
    (s : PsbtShape) (c c' : Cursor)
    → All IsByte (rest c)
    → unsigned_transaction c ≡ done (s, c')
    → (t : RawUnsigned) × IsUnsigned t × (shape_of t ≡ s) × (rest c ≡ encode_unsigned t ++ rest c')
unfolding unsigned_transaction
unsigned_transaction-done s c c' bs h =
    let (_, d₁, e₁, g₁) = >>=-eq-done (skip 4) _ c h in
    let (v, a₁, l₁) = skip-done 4 c d₁ e₁ in
    let (_, b₁) = All-split IsByte v (rest d₁) (rw a₁ at bs) in
    let (n, d₂, e₂, g₂) = >>=-eq-done inputs _ d₁ g₁ in
    let (is, p₂, l₂, a₂) = inputs-done n d₁ d₂ b₁ e₂ in
    let (_, b₂) = All-split IsByte (encode_inputs is) (rest d₂) (rw a₂ at b₁) in
    let (m, d₃, e₃, g₃) = >>=-eq-done outputs _ d₂ g₂ in
    let (os, p₃, l₃, a₃) = outputs-done m d₂ d₃ b₂ e₃ in
    let (_, d₄, e₄, g₄) = >>=-eq-done (skip 4) _ d₃ g₃ in
    let (k, a₄, l₄) = skip-done 4 d₃ d₄ e₄ in
    let (r, same) = pure-done _ s d₄ c' g₄ in
    (
      record { version = v; ins = is; outs = os; lock_time = k },
      (l₁, p₂, p₃, l₄),
      rw (l₂, l₃) r,
      rw (a₁, a₂, a₃, a₄, same) (simp append_assoc),
    )
