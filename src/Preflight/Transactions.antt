-- ===== src/Preflight/Transactions.antt =====
-- The wire format of a transaction, and `Cursor::transaction` on what it wrote.
use bip.Base.{
  ◌≡◌, ◌≢◌, refl, arith, false, List, [], ◌∷◌, ◌++◌, append_assoc, Bytes, length, All, concat_map,
  ◌==◌, bytes_eq,
}
use bip.Preflight.Cursor.{Cursor, skip, take_bytes}
use bip.Preflight.Formats.{
  inputs, outputs, witness_body, segwit_body, legacy_body, transaction_body,
}
use bip.Preflight.Steps.{At, Ran, Ran-bind, skip-Ran, take_bytes-Ran}
use bip.Preflight.CompactSize.{encode_size, size_head, size_tail}
use bip.Preflight.Loops.{repeat-Ran}
use bip.Preflight.Witness.{encode_witness, IsWitness, witness_body-Ran}
use bip.Preflight.Inputs.{
  RawInput, RawOutput, encode_inputs, encode_outputs, At-eq, inputs-Ran, outputs-Ran,
}
use bip.Preflight.Unsigned.{RawUnsigned, encode_unsigned, IsUnsigned}

-- A transaction in either serialization; the marker and the flag of BIP-144 stand where a legacy
-- transaction has its count of inputs.
pub data RawTransaction : Type 0 where
  legacy : RawUnsigned → RawTransaction
  segwit : RawUnsigned → List (List Bytes) → RawTransaction

unfoldable pub encode_transaction : RawTransaction → Bytes
encode_transaction (legacy t) = encode_unsigned t
encode_transaction (segwit t ws) =
    t.version
    ++ (0
        ∷ 1
        ∷ (encode_inputs t.ins
            ++ (encode_outputs t.outs ++ (concat_map encode_witness ws ++ t.lock_time))))

abbrev pub IsTransaction : RawTransaction → Type 0
IsTransaction (legacy t) = IsUnsigned t × (length t.ins ≢ 0)
IsTransaction (segwit t ws) = IsUnsigned t × (length ws ≡ length t.ins) × All IsWitness ws

pub inputs-none : encode_inputs [] ≡ 0 ∷ []
unfolding encode_inputs encode_size size_head size_tail
inputs-none = refl

-- What follows the flag of the BIP-144 serialization, up to the lock time.
abbrev pub encode_parts : List RawInput → List RawOutput → List (List Bytes) → Bytes
encode_parts is os ws = encode_inputs is ++ (encode_outputs os ++ concat_map encode_witness ws)

segwit_body-Ran :
    (t : RawUnsigned) (ws : List (List Bytes)) (c : Cursor) (ys : Bytes)
    → IsTransaction (segwit t ws)
    → At c (1 ∷ (encode_parts t.ins t.outs ws ++ ys))
    → Ran segwit_body c tt ys
unfolding segwit_body bytes_eq
segwit_body-Ran t ws c ys ((v, i, o, k), l, w) at =
    Ran-bind (take_bytes 1) _ c (1 ∷ [])
      (encode_inputs t.ins ++ (encode_outputs t.outs ++ (concat_map encode_witness ws ++ ys)))
      (take_bytes-Ran 1 c (1 ∷ []) _ refl (At-eq at (simp append_assoc)))
      (λ d a. Ran-bind inputs _ d (length t.ins) _ (inputs-Ran t.ins d _ i a) (λ d a.
        Ran-bind outputs _ d (length t.outs) _ (outputs-Ran t.outs d _ o a) (λ d a.
          rw (← l)
            (repeat-Ran encode_witness IsWitness witness_body witness_body-Ran ws d ys w a))))

legacy_body-Ran :
    (t : RawUnsigned) (c : Cursor) (ys : Bytes)
    → IsUnsigned t
    → At c (encode_outputs t.outs ++ ys)
    → Ran legacy_body c tt ys
unfolding legacy_body
legacy_body-Ran t c ys (v, i, o, k) at =
    Ran-bind outputs _ c (length t.outs) _ (outputs-Ran t.outs c _ o at) (λ d a. (d, refl, a))

pub transaction_body-Ran :
    (t : RawTransaction) (c : Cursor) (ys : Bytes)
    → IsTransaction t
    → At c (encode_transaction t ++ ys)
    → Ran transaction_body c tt ys
unfolding transaction_body encode_transaction
transaction_body-Ran (legacy t) c ys (u, n) at =
    Ran-bind (skip 4) _ c tt (encode_inputs t.ins ++ (encode_outputs t.outs ++ (t.lock_time ++ ys)))
      (skip-Ran 4 c t.version _ u.0 (At-eq at (simp append_assoc)))
      (λ d a. Ran-bind inputs _ d (length t.ins) _ (inputs-Ran t.ins d _ u.1 a) (λ d a.
        rw (nonzero n) (
          Ran-bind legacy_body _ d tt (t.lock_time ++ ys) (legacy_body-Ran t d _ u a)
            (λ d a. skip-Ran 4 d t.lock_time ys u.3 a))))
  where
    nonzero : length t.ins ≢ 0 → (length t.ins == 0) ≡ false
    nonzero h = ground arith
transaction_body-Ran (segwit t ws) c ys p at =
    Ran-bind (skip 4) _ c tt
      (encode_inputs [] ++ (1 ∷ (encode_parts t.ins t.outs ws ++ (t.lock_time ++ ys))))
      (skip-Ran 4 c t.version _ p.0.0 (At-eq at (rw inputs-none (simp append_assoc))))
      (λ d a. Ran-bind inputs _ d 0 _ (inputs-Ran [] d _ (omega arith, tt) a) (λ d a.
        Ran-bind segwit_body _ d tt (t.lock_time ++ ys) (segwit_body-Ran t ws d _ p a)
          (λ d a. skip-Ran 4 d t.lock_time ys p.0.3 a)))
