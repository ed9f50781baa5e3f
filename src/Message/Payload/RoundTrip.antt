-- ===== src/Message/Payload/RoundTrip.antt =====
-- message.rs: `decode_payload` on what `encode_payload` wrote.
use bip.Base.{◌≡◌, ◌⊎◌, inl, inr, refl, Bool-cases, some, ◌++◌, Bytes, bytes_eq, if◌then◌else◌}
use bip.Error.{Error, ok, err, signature_variant_mismatch}
use bip.Bitcoin.Api.{Api}
use bip.Message.Payload.{
  simple_signature_prefix, full_signature_prefix, pof_signature_prefix, strip_prefix, stripped,
  strip_variant_prefix, encode_payload, decode_payload,
}

-- The prefix of one of the three formats.
abbrev pub IsVariant : Bytes → Type 0
IsVariant p =
    (p ≡ simple_signature_prefix) ⊎ ((p ≡ full_signature_prefix) ⊎ (p ≡ pof_signature_prefix))

strip-simple :
    (s expected : Bytes)
    → strip_variant_prefix (simple_signature_prefix ++ s) expected
      ≡ stripped expected simple_signature_prefix s
unfolding strip_variant_prefix strip_prefix
strip-simple s expected = refl

strip-full :
    (s expected : Bytes)
    → strip_variant_prefix (full_signature_prefix ++ s) expected
      ≡ stripped expected full_signature_prefix s
unfolding strip_variant_prefix strip_prefix
strip-full s expected = refl

strip-pof :
    (s expected : Bytes)
    → strip_variant_prefix (pof_signature_prefix ++ s) expected
      ≡ stripped expected pof_signature_prefix s
unfolding strip_variant_prefix strip_prefix
strip-pof s expected = refl

strip-append :
    (p s expected : Bytes)
    → IsVariant p
    → strip_variant_prefix (p ++ s) expected ≡ stripped expected p s
strip-append p s expected (inl e) = rw e (strip-simple s expected)
strip-append p s expected (inr (inl e)) = rw e (strip-full s expected)
strip-append p s expected (inr (inr e)) = rw e (strip-pof s expected)

module _ (lib : Api) where
  open lib use {base64_encode, base64_decode}

  -- A payload that was encoded for the variant `p` decodes to its text and its bytes where `p` is
  -- expected, and is refused with both prefixes named where another variant is. The hypothesis on
  -- base64 is that decoding reads back what encoding wrote.
  pub decode-encode_payload :
      ((bytes : Bytes) → base64_decode (base64_encode bytes) ≡ some bytes)
      → (p expected bytes : Bytes) (context : Bytes → Error) → IsVariant p
      → decode_payload lib (encode_payload lib p bytes) expected context ≡ (
          if bytes_eq p expected
          then ok (base64_encode bytes, bytes)
          else err (signature_variant_mismatch expected p))
  unfolding decode_payload encode_payload stripped
  decode-encode_payload law p expected bytes context v =
      rw (strip-append p (base64_encode bytes) expected v)
        (elim (Bool-cases (bytes_eq p expected)) [ inl e ↦ rw (e, law bytes) | inr e ↦ rw e ])
