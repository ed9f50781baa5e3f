-- ===== src/Error.antt =====
-- error.rs: the errors that the modelled code builds, and results. A `source` that a dependency
-- built is left out; an error that displays a sighash type holds the type's number here.
use bip.Base.{ℕ, Bool, true, false, Option, none, some, Bytes, ◌≡◌, refl, ◌⊎◌, inl, inr}

pub data Error : Type 0 where
  address_parse : Bytes → Error
  unsupported_address : Bytes → Error
  simple_format_unsupported : Bytes → Error
  message_not_utf8 : Error
  signature_decode : Bytes → Error
  to_sign_invalid : Error
  transaction_base64_decode : Bytes → Error
  transaction_consensus_decode : Bytes → Error
  witness_malformed : Error
  witness_empty : Error
  -- the length and the encoded signature
  signature_length : ℕ → Bytes → Error
  signature_invalid : Error
  sig_hash_type_invalid : Error
  sig_hash_type_non_standard : Error
  sig_hash_type_unsupported : ℕ → Error
  invalid_public_key : Error
  invalid_witness : Error
  public_key_mismatch : Error
  -- the count and the maximum
  too_many_proof_inputs : ℕ → ℕ → Error
  uncompressed_public_key : Error
  invalid_recovery_flag : ℕ → Error
  legacy_recover : Error
  -- the index and the reason
  invalid_proof_input : ℕ → Bytes → Error
  -- expected, and found
  signature_variant_mismatch : Bytes → Bytes → Error
  script_not_satisfied : Error
  code_separator : Error
  trailing_bytes : Error
  private_key_parse : Error
  -- the script
  unsupported_script_pubkey : Bytes → Error
  witness_script_mismatch : Error
  transaction_encode : Error
  transaction_extract : Error
  witness_encoding : Error
  no_private_keys : Error
  no_proof_inputs : Error
  unknown_signer : Error
  duplicate_signer : Error
  -- required, and provided
  signature_count : ℕ → ℕ → Error
  witness_script_parse : Error
  ordinary_psbt : Error
  -- No variant of the source: an `expect` that fails, or an index out of range.
  panic : Error

pub data Result {ℓ} (A : Type ℓ) : Type ℓ where
  ok : A → Result A
  err : Error → Result A

module _ {ℓ κ} {T : Type ℓ} {U : Type κ} where
  -- `?` on a result, and what the function goes on with.
  infixl 5 ◌>>=◌
  abbrev pub ◌>>=◌ : Result T → (T → Result U) → Result U
  err cause >>= next = err cause
  ok value >>= next = next value

  -- A chain that succeeded did so in each of its two parts.
  pub >>=-eq-ok :
      (first : Result T) (next : T → Result U) {last : U}
      → (first >>= next) ≡ ok last
      → (value : T) × (first ≡ ok value) × (next value ≡ ok last)
  >>=-eq-ok (err cause) next e = cc
  >>=-eq-ok (ok value) next e = (value, refl, e)

  -- `?` on a result whose value is dropped.
  infixl 5 ◌>>◌
  abbrev pub ◌>>◌ : Result T → Result U → Result U
  first >> second = first >>= λ _. second

-- `option.ok_or(e)`, and a fallible call whose error is mapped to `e`.
abbrev pub ok_or {ℓ} : {A : Type ℓ} → Option A → Error → Result A
ok_or (some a) e = ok a
ok_or none e = err e

-- `if !b { return Err(e) }`
abbrev pub guard : Bool → Error → Result (Unit {0})
guard false cause = err cause
guard true cause = ok tt

module _ {ℓ} {A : Type ℓ} where
  pub ok-injective : {a b : A} → ok a ≡ ok b → a ≡ b
  ok-injective e = cc

  pub ok_or-eq-ok : (o : Option A) (e : Error) {a : A} → ok_or o e ≡ ok a → o ≡ some a
  ok_or-eq-ok none e h = cc
  ok_or-eq-ok (some a) e h = cc

pub guard-eq-ok : (b : Bool) (e : Error) {u : Unit {0}} → guard b e ≡ ok u → b ≡ true
guard-eq-ok true e h = refl
guard-eq-ok false e h = cc

pub Result-cases {ℓ} :
    {A : Type ℓ} (r : Result A) → ((a : A) × (r ≡ ok a)) ⊎ ((e : Error) × (r ≡ err e))
Result-cases (ok a) = inl (a, refl)
Result-cases (err e) = inr (e, refl)
