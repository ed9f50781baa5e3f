-- ===== src/Message/Payload.antt =====
-- message.rs: `encode_payload`, `decode_payload` and `strip_variant_prefix`.
pub mod RoundTrip
use bip.Base.{
  ℕ, true, false, Bool, Option, none, some, List, [], ◌∷◌, ◌++◌, Bytes, bytes_eq, ◌==◌,
  if◌then◌else◌,
}
use bip.Error.{Error, Result, ok, err, ◌>>=◌, ok_or, signature_variant_mismatch}
use bip.Bitcoin.Api.{Api}

abbrev pub simple_signature_prefix : Bytes
simple_signature_prefix = b's' ∷ b'm' ∷ b'p' ∷ []

abbrev pub full_signature_prefix : Bytes
full_signature_prefix = b'f' ∷ b'u' ∷ b'l' ∷ []

abbrev pub pof_signature_prefix : Bytes
pof_signature_prefix = b'p' ∷ b'o' ∷ b'f' ∷ []

-- `str::strip_prefix`
unfoldable pub strip_prefix : Bytes → Bytes → Option Bytes
strip_prefix [] s = some s
strip_prefix (p ∷ ps) [] = none
strip_prefix (p ∷ ps) (c ∷ s) = if p == c then strip_prefix ps s else none

-- What the loop of `strip_variant_prefix` does where a prefix fits.
unfoldable pub stripped : Bytes → Bytes → Bytes → Result Bytes
stripped expected prefix rest =
    if bytes_eq prefix expected then ok rest else err (signature_variant_mismatch expected prefix)

-- The loop over the prefixes.
unfoldable pub strip_loop : List Bytes → Bytes → Bytes → Result Bytes
unfolding stripped
strip_loop [] signature expected = ok signature
strip_loop (prefix ∷ prefixes) signature expected = elim (strip_prefix prefix signature) [
  | none ↦ strip_loop prefixes signature expected
  | some rest ↦ stripped expected prefix rest
]

unfoldable pub strip_variant_prefix : Bytes → Bytes → Result Bytes
unfolding strip_loop
strip_variant_prefix signature expected =
    strip_loop (simple_signature_prefix ∷ full_signature_prefix ∷ pof_signature_prefix ∷ [])
      signature expected

module _ (lib : Api) where
  open lib use {base64_encode, base64_decode}

  unfoldable pub encode_payload : Bytes → Bytes → Bytes
  encode_payload prefix payload = prefix ++ base64_encode payload

  -- `decode_payload`; `context` builds the error from the payload text.
  unfoldable pub decode_payload : Bytes → Bytes → (Bytes → Error) → Result (Bytes × Bytes)
  unfolding strip_variant_prefix
  decode_payload encoded prefix context = do
    payload ← strip_variant_prefix encoded prefix
    bytes ← ok_or (base64_decode payload) (context payload)
    ok (payload, bytes)
