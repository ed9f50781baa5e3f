-- ===== src/Examples/Signing.antt =====
-- Signatures that the code makes, with the small instance.
use bip.Base.{
  ℕ, ◌≡◌, ◌↔◌, refl, arith, true, none, List, [], ◌∷◌, ◌++◌, Bytes, replicate, bytes_eq,
  bytes_eq_refl,
}
use bip.Error.{ok}
use bip.Bitcoin.Data.{Script, Transaction}
use bip.Message.Defs.{LockParams, to_sign_transaction}
use bip.Script.Defs.{
  parse_multisig, require_low_s, collect, pushnum, number, is_checkmultisig, public_keys,
  parse_parts, parse_instructions,
}
use bip.Script.Ordered.{any_duplicate, find_signer, sign_ordered, ordered_multisig_signatures}
use bip.Bound.{verifies}
use bip.Templates.Defs.{verify_checkmultisig}
use bip.Templates.Matching.{Signs}
use bip.Templates.Multisig.{bound}
use bip.Templates.Single.{EncodesAll, parse_ecdsa_signature_iff}
use bip.Sign.{sign_full}
use bip.Sign.Multisig.{SignsFor, ordered_multisig_signatures-checkmultisig}
use bip.Sign.P2wpkh.{Signing, Extracts, to_sign_of}
use bip.Sign.Valid.{sign_full-verify_full}
use bip.Verify.Defs.{valid_at, verify_full}
use bip.Legacy.{is_p2pkh_address, sign_legacy_encoded, verify_legacy_encoded}
use bip.Legacy.RoundTrip.{
  Encodes, SignedBy, verify_legacy_encoded_iff, sign_legacy_encoded-verify_legacy_encoded,
}
use bip.Examples.Toy.{toy}
use bip.Examples.Proofs.{key_script, hello}

abbrev pub key_bytes : Bytes
key_bytes = replicate 20 7

abbrev pub locks : LockParams
locks = record { lock_time = 5; sequence = 6 }

-- A signature by any key of the small instance.
encodes_all : (k : Bytes) → EncodesAll toy (k ++ (1 ∷ [])) k
unfolding require_low_s
encodes_all k = (k, 1, refl, refl, refl, rw (bytes_eq_refl k) refl)

pub toy-Signs :
    (h p k : Bytes) → bytes_eq p k ≡ true → Signs toy h (p ++ (1 ∷ [])) (record { key = k })
unfolding verifies
toy-Signs h p k e = (p, (parse_ecdsa_signature_iff toy (p ++ (1 ∷ [])) p).1 (encodes_all p), e)

signing : Signing toy key_bytes []
signing = (encodes_all key_bytes, bytes_eq_refl key_bytes, refl, omega arith, omega arith)

extracts : Extracts toy (to_sign_of toy key_script hello locks)
unfolding to_sign_transaction
extracts = (refl, λ o w. refl)

sign_full-verify_full_example :
    (tx : Transaction) × (sign_full toy key_script hello (key_bytes ∷ []) none locks ≡ ok tx)
    × (verify_full toy key_script hello tx ≡ valid_at 5 6)
sign_full-verify_full_example =
    sign_full-verify_full toy key_script hello key_bytes locks key_bytes [] refl refl
      (refl, refl, refl, refl, refl, refl, refl) (refl, refl, refl, refl) signing (λ w. refl)
      extracts (omega arith)

-- 2 <7 7> <8 8> <9 9> 3 CHECKMULTISIG
abbrev pub two_of_three : Script
two_of_three = 0x52 ∷ 2 ∷ 7 ∷ 7 ∷ 2 ∷ 8 ∷ 8 ∷ 2 ∷ 9 ∷ 9 ∷ 0x53 ∷ 0xae ∷ []

-- The last key and the first.
abbrev two_keys : List Bytes
two_keys = (9 ∷ 9 ∷ []) ∷ (7 ∷ 7 ∷ []) ∷ []

abbrev pub signatures : List Bytes
signatures = (7 ∷ 7 ∷ 1 ∷ []) ∷ (9 ∷ 9 ∷ 1 ∷ []) ∷ []

multisig_runs : ordered_multisig_signatures toy two_of_three two_keys [] ≡ ok signatures
unfolding bytes_eq collect pushnum number is_checkmultisig public_keys parse_parts
    parse_instructions parse_multisig any_duplicate find_signer sign_ordered
    ordered_multisig_signatures
multisig_runs = refl

signs_for : SignsFor toy []
signs_for p k e = toy-Signs [] p k e

ordered_multisig_signatures-checkmultisig_example :
    (required : ℕ) × (pubkeys : List Bytes) × (parse_multisig toy two_of_three
      ≡ ok (required, pubkeys))
    × (2 ≡ required)
    × (verify_checkmultisig toy ([] ∷ signatures) required (bound toy pubkeys) (ok []) ≡ ok tt)
ordered_multisig_signatures-checkmultisig_example =
    ordered_multisig_signatures-checkmultisig toy two_of_three two_keys [] signatures signs_for
      multisig_runs

-- 65 bytes, which start with a flag.
abbrev legacy_key : Bytes
legacy_key = 31 ∷ replicate 64 7

abbrev legacy_address : Bytes
legacy_address = 0x76 ∷ legacy_key

is_legacy : is_p2pkh_address toy legacy_address ≡ true
unfolding is_p2pkh_address
is_legacy = refl

verify_legacy_encoded_iff_example :
    (verify_legacy_encoded toy legacy_address hello legacy_key ≡ ok tt) ↔ (
      (a : Bytes) × (m : Bytes) × Encodes toy legacy_address legacy_key a m
      × SignedBy toy a hello m)
verify_legacy_encoded_iff_example = verify_legacy_encoded_iff toy legacy_address hello legacy_key

sign_legacy_encoded-verify_legacy_encoded_example :
    (signature : Bytes) × (sign_legacy_encoded toy legacy_address hello legacy_key ≡ ok signature)
    × (verify_legacy_encoded toy legacy_address hello signature ≡ ok tt)
sign_legacy_encoded-verify_legacy_encoded_example =
    sign_legacy_encoded-verify_legacy_encoded toy legacy_address hello legacy_key legacy_address
      legacy_key (refl, refl, is_legacy, refl)
      (31, replicate 64 7, refl, refl, omega arith, omega arith, refl, refl, refl)
