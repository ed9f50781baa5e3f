-- ===== src/Sign/P2wpkh.antt =====
-- sign.rs and verify.rs: a P2WPKH address signs in the full format, and the signature verifies.
use bip.Base.{
  ◌≤◌, ◌≡◌, refl, true, false, none, some, List, [], ◌∷◌, Bytes, length, bytes_eq_refl, leb, arith,
}
use bip.Error.{ok}
use bip.Bitcoin.Data.{
  Witness, TxIn, TxOut, Transaction, PsbtInput, Psbt, good, push_bytes, EcdsaSighashType,
}
use bip.Bitcoin.Api.{Api}
use bip.Outpoints.Defs.{validate_weight}
use bip.Message.Defs.{
  LockParams, create_to_spend, create_to_spend_from_script, create_to_sign, fill_challenge,
  to_sign_transaction,
}
use bip.Sign.Input.{
  sign_input, sign_kind, create_message_signature_p2wpkh, witness_at, set_witness, update_input,
  single_key, signed_all,
}
use bip.Sign.{sign_full, as_request}
use bip.Templates.Single.{EncodesAll}

-- The transaction with another witness of the first input.
abbrev witnessed : Witness → List TxIn → List TxIn
witnessed w [] = []
witnessed w (i ∷ is) = record i { witness = w } ∷ is

abbrev pub with_first_witness : Transaction → Witness → Transaction
with_first_witness tx w = record tx { input = witnessed w tx.input }

abbrev pub empty_input : PsbtInput
empty_input = record {
  non_witness_utxo = none;
  witness_utxo = none;
  redeem_script = none;
  witness_script = none;
  final_script_sig = none;
  final_script_witness = none;
}

-- A PSBT of a transaction with one input and one output.
abbrev pub one_input : Transaction → PsbtInput → Psbt
one_input tx i = record { unsigned_tx = tx; inputs = i ∷ []; output_count = 1; unknown = [] }

module _ (lib : Api) where
  open lib use {
    Address, PrivateKey, public_key, public_key_bytes, public_key_from_slice, script_pubkey_of,
    new_p2wpkh, wpubkey_hash, hash160_from_slice, witness_version, is_p2tr, is_p2wsh, is_p2wpkh,
    instructions, instructions_minimal, from_unsigned_tx, extract_tx, weight, sign_ecdsa,
    verify_ecdsa_sig, p2wpkh_signature_hash,
  }

  -- The script of a hash of 20 bytes is the version 0 in front of the hash, and is classified so.
  abbrev pub IsProgram : Bytes → Type 0
  IsProgram hash =
      (new_p2wpkh hash ≡ 0 ∷ 20 ∷ hash)
      × (length hash ≡ 20)
      × (is_p2tr (new_p2wpkh hash) ≡ false)
      × (is_p2wsh (new_p2wpkh hash) ≡ false)
      × (is_p2wpkh (new_p2wpkh hash) ≡ true)
      × (witness_version (new_p2wpkh hash) ≡ some 0)
      × (hash160_from_slice hash ≡ some hash)

  -- What the iterators yield on the script and on an empty one.
  abbrev pub Iterates : Bytes → Type 0
  Iterates hash =
      (instructions_minimal [] ≡ [])
      × (instructions [] ≡ [])
      × (instructions_minimal (new_p2wpkh hash)
          ≡ good (push_bytes []) ∷ good (push_bytes hash) ∷ [])
      × (instructions (new_p2wpkh hash) ≡ good (push_bytes []) ∷ good (push_bytes hash) ∷ [])

  -- What a key signs is a signature by it, and both encode to at most 520 bytes.
  abbrev pub Signing : PrivateKey → Bytes → Type 0
  Signing key sighash =
      EncodesAll lib (signed_all lib sighash key) (sign_ecdsa sighash key)
      × (verify_ecdsa_sig sighash (sign_ecdsa sighash key) (public_key key) ≡ true)
      × (public_key_from_slice (public_key_bytes (public_key key)) ≡ some (public_key key))
      × (length (signed_all lib sighash key) ≤ 520)
      × (length (public_key_bytes (public_key key)) ≤ 520)

  -- The signature hash of the first input exists, and does not depend on the witness.
  abbrev pub Hashes : Transaction → Bytes → Bytes → Type 0
  Hashes tx hash sighash =
      (w : Witness)
      → p2wpkh_signature_hash (with_first_witness tx w) 0 (new_p2wpkh hash) 0 EcdsaSighashType.all
        ≡ some sighash

  -- A PSBT is made of an unsigned transaction, and gives it back with the final witness.
  abbrev pub Extracts : Transaction → Type 0
  Extracts tx =
      (from_unsigned_tx tx ≡ some (one_input tx empty_input))
      × ((o : TxOut) (w : Witness)
          → extract_tx (
              one_input tx
                (record empty_input { witness_utxo = some o; final_script_witness = some w }))
            ≡ some (with_first_witness tx w))

  abbrev pub to_sign_of : Address → Bytes → LockParams → Transaction
  to_sign_of address message locks =
      to_sign_transaction lib (create_to_spend lib address message) [] locks

  abbrev pub witness_of : PrivateKey → Bytes → Witness
  witness_of key sighash = signed_all lib sighash key ∷ public_key_bytes (public_key key) ∷ []

  abbrev challenge_of : Address → TxOut
  challenge_of address = record { value = 0; script_pubkey = script_pubkey_of address }

  -- The PSBT of `create_to_sign`.
  abbrev unsigned_psbt : Address → Bytes → LockParams → Psbt
  unsigned_psbt address message locks =
      one_input (to_sign_of address message locks)
        (record empty_input { witness_utxo = some (challenge_of address) })

  created :
      (address : Address) (message : Bytes) (locks : LockParams)
      → Extracts (to_sign_of address message locks)
      → create_to_sign lib (create_to_spend lib address message) none locks
        ≡ some (unsigned_psbt address message locks)
  unfolding create_to_sign fill_challenge create_to_spend create_to_spend_from_script
  created address message locks (f, _) = rw (create_to_sign, f) refl

  signed_psbt :
      (address : Address) (message : Bytes) (key : PrivateKey) (locks : LockParams)
      (hash sighash : Bytes)
      → script_pubkey_of address ≡ new_p2wpkh hash
      → wpubkey_hash (public_key key) ≡ some hash
      → IsProgram hash
      → Hashes (to_sign_of address message locks) hash sighash
      → sign_input lib
          (as_request lib (unsigned_psbt address message locks))
          (challenge_of address ∷ [])
          (key ∷ [])
          none
          0
        ≡ ok (
            as_request lib (
              one_input (to_sign_of address message locks) (record empty_input {
                witness_utxo = some (challenge_of address);
                final_script_witness = some (witness_of key sighash);
              })))
  unfolding sign_input sign_kind create_message_signature_p2wpkh witness_at set_witness update_input
      single_key to_sign_transaction
  signed_psbt address message key locks hash sighash a k (_, _, t, s, p, _, _) h =
      rw (a, t, s, p, k, bytes_eq_refl (new_p2wpkh hash), h []) refl

  -- With one key, whose hash the script of the address holds, the full format signs: the result is
  -- `to_sign` with the witness of a signature and the key.
  pub sign_full-p2wpkh :
      (address : Address) (message : Bytes) (key : PrivateKey) (locks : LockParams)
      (hash sighash : Bytes)
      → script_pubkey_of address ≡ new_p2wpkh hash
      → wpubkey_hash (public_key key) ≡ some hash
      → IsProgram hash
      → Hashes (to_sign_of address message locks) hash sighash
      → Extracts (to_sign_of address message locks)
      → weight (with_first_witness (to_sign_of address message locks) (witness_of key sighash))
        ≤ 4_000_000
      → sign_full lib address message (key ∷ []) none locks
        ≡ ok (with_first_witness (to_sign_of address message locks) (witness_of key sighash))
  unfolding sign_full validate_weight create_to_spend to_sign_transaction
      create_to_spend_from_script
  sign_full-p2wpkh address message key locks hash sighash a k p h (f, x) w =
      let light : leb
            (weight
              (with_first_witness (to_sign_of address message locks) (witness_of key sighash)))
            4_000_000
          ≡ true =
        ground arith in
      rw
        (
          sign_full,
          created address message locks (f, x),
          create_to_spend,
          signed_psbt address message key locks hash sighash a k p h,
          x,
          light,
        )
        refl
