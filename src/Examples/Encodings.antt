-- ===== src/Examples/Encodings.antt =====
-- Encoded proofs.
use bip.Base.{
  ◌≡◌, ◌≢◌, ◌↔◌, inl, refl, arith, true, List, [], ◌∷◌, ◌++◌, Bytes, replicate, bytes_eq, All-bytes,
  if◌then◌else◌,
}
use bip.Error.{ok, err, to_sign_invalid, signature_variant_mismatch}
use bip.Message.Payload.{
  simple_signature_prefix, full_signature_prefix, encode_payload, decode_payload,
}
use bip.Message.Payload.RoundTrip.{decode-encode_payload}
use bip.Preflight.Cursor.{out_of_fuel}
use bip.Preflight.Formats.{witness, transaction}
use bip.Preflight.Psbt.{psbt}
use bip.Preflight.Witness.{IsWitness, encode_witness, witness_iff}
use bip.Preflight.Transactions.{RawTransaction, IsTransaction, encode_transaction}
use bip.Preflight.Recognised.{transaction_iff}
use bip.Preflight.Fuel.{psbt-ne-out_of_fuel}
use bip.Examples.Toy.{toy}

-- Two items, of two bytes and of none.
abbrev items : Bytes
items = 2 ∷ 2 ∷ 11 ∷ 12 ∷ 0 ∷ []

witness_iff_example :
    (witness items ≡ true)
    ↔ ((ws : List Bytes) × (ys : Bytes) × IsWitness ws × (items ≡ encode_witness ws ++ ys))
witness_iff_example = witness_iff items (omega arith) (All-bytes items refl)

-- A version, one input with an empty script, no output and a lock time.
abbrev small_tx : Bytes
small_tx = 2 ∷ 0 ∷ 0 ∷ 0 ∷ 1 ∷ (replicate 36 3 ++ (0 ∷ 0 ∷ 0 ∷ 0 ∷ 0 ∷ 0 ∷ 0 ∷ 0 ∷ 0 ∷ 0 ∷ []))

transaction_iff_example : (transaction small_tx ≡ true) ↔ (
    (t : RawTransaction) × (ys : Bytes) × IsTransaction t × (small_tx ≡ encode_transaction t ++ ys))
transaction_iff_example = transaction_iff small_tx (omega arith) (All-bytes small_tx refl)

-- The magic bytes and nothing else.
abbrev magic_alone : Bytes
magic_alone = 0x70 ∷ 0x73 ∷ 0x62 ∷ 0x74 ∷ 0xff ∷ []

psbt-ne-out_of_fuel_example : psbt magic_alone ≢ out_of_fuel
psbt-ne-out_of_fuel_example = psbt-ne-out_of_fuel magic_alone

decode-encode_payload_example :
    decode_payload toy
      (encode_payload toy simple_signature_prefix items)
      full_signature_prefix
      (λ _. to_sign_invalid)
    ≡ (if bytes_eq simple_signature_prefix full_signature_prefix
        then ok (items, items)
        else err (signature_variant_mismatch full_signature_prefix simple_signature_prefix))
decode-encode_payload_example =
    decode-encode_payload toy (λ b. refl) simple_signature_prefix full_signature_prefix items
      (λ _. to_sign_invalid) (inl refl)
