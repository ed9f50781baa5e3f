-- ===== src/Sign/Valid.antt =====
-- sign.rs and verify.rs: what `sign_full` makes for a P2WPKH address is a valid proof.
use bip.Base.{
  ◌≤◌, ◌≡◌, refl, ap, ◌∙◌, ◌⊎◌, inl, inr, false, none, some, List, [], ◌∷◌, Bytes, length,
  get_elem?, ltb, arith, Bool-cases, ◌||◌, not, ◌==◌,
}
use bip.Error.{ok}
use bip.Bitcoin.Data.{Witness, TxIn, TxOut, Transaction, good, push_bytes}
use bip.Bitcoin.Api.{Api}
use bip.Message.Defs.{
  LockParams, create_to_spend, create_to_spend_from_script, to_sign_transaction, version,
  challenge_outpoint,
}
use bip.Sign.{sign_full}
use bip.Sign.P2wpkh.{
  with_first_witness, IsProgram, Iterates, Signing, Hashes, Extracts, to_sign_of, witness_of,
  sign_full-p2wpkh,
}
use bip.Spend.Checks.{
  check_witness_stack, check_script, ops_loop, is_non_push, contains_codeseparator,
  is_codeseparator, is_naked_zero_timelock, is_zero_timelock,
}
use bip.Spend.Defs.{
  p2wpkh, spends_codeseparator, has_naked_zero_timelock, txin, prevout, inner_script, inner_of,
}
use bip.Spend.Kinds.{Kind, witness_kind, p2wpkh_kind}
use bip.Spend.Parse.{parse, kind_of, native_kind}
use bip.Templates.Defs.{LibSpend, valid, verify_p2wpkh}
use bip.Templates.Single.{SignedByHash, verify_p2wpkh_iff}
use bip.Verify.Defs.{valid_at, verify_full, verify_input, verify_kind, or_interpret}
use bip.Verify.Verdict.{Yields}
use bip.Verify.Full.{Parsed, verify_full_valid}

version_known : (locks : LockParams) → (version locks ≡ 0) ⊎ (version locks ≡ 2)
unfolding version
version_known locks = elim (Bool-cases (not (locks.lock_time == 0) || not (locks.sequence == 0))) [
  | inl e ↦ inr (rw e refl)
  | inr e ↦ inl (rw e refl)
]

module _ (lib : Api) where
  open lib use {
    Address, PrivateKey, public_key, public_key_bytes, script_pubkey_of, new_p2wpkh, wpubkey_hash,
    weight, sign_ecdsa, instructions, instructions_minimal,
  }

  abbrev signed_tx : Address → Bytes → PrivateKey → LockParams → Bytes → Transaction
  signed_tx address message key locks sighash =
      with_first_witness (to_sign_of lib address message locks) (witness_of lib key sighash)

  -- The input of `to_sign` with a witness.
  abbrev witnessed_input : Address → Bytes → LockParams → Witness → TxIn
  witnessed_input address message locks w = record {
    previous_output = challenge_outpoint lib (create_to_spend lib address message);
    script_sig = [];
    sequence = locks.sequence;
    witness = w;
  }

  abbrev signed_spend : Address → Bytes → PrivateKey → LockParams → Bytes → Bytes → LibSpend lib
  signed_spend address message key locks hash sighash = record {
    to_sign = signed_tx address message key locks sighash;
    input_index = 0;
    prevouts = (create_to_spend lib address message).output;
    kind = p2wpkh hash;
  }

  empty_script : instructions_minimal [] ≡ [] → check_script lib [] ≡ ok tt
  unfolding check_script ops_loop
  empty_script m = rw m refl

  program_script :
      (hash : Bytes)
      → IsProgram lib hash
      → Iterates lib hash
      → check_script lib (new_p2wpkh hash) ≡ ok tt
  unfolding check_script ops_loop is_non_push
  program_script hash (f, l, _, _, _, _, _) (_, _, m, _) =
      let small : ltb 10000 (length (new_p2wpkh hash)) ≡ false = rw f (ground arith) in
      rw (check_script, small, m) refl

  program_kind :
      (hash signature key : Bytes)
      → IsProgram lib hash
      → length signature ≤ 520
      → length key ≤ 520
      → witness_kind lib (signature ∷ key ∷ []) 0 hash false ≡ ok (p2wpkh hash)
  unfolding witness_kind p2wpkh_kind check_witness_stack
  program_kind hash signature key (_, l, _, _, _, _, x) s k =
      let short : ltb 520 (length signature) ≡ false = ground arith in
      let short' : ltb 520 (length key) ≡ false = ground arith in rw (l, short, short', x) refl

  parse_first :
      (tx : Transaction) (prevouts : List TxOut) (i : TxIn) (o : TxOut) (kind : Kind lib)
      → get_elem? tx.input 0 ≡ some i
      → get_elem? prevouts 0 ≡ some o
      → check_script lib i.script_sig ≡ ok tt
      → check_script lib o.script_pubkey ≡ ok tt
      → kind_of lib i o.script_pubkey ≡ ok kind
      → parse lib tx prevouts 0
        ≡ ok (record { to_sign = tx; input_index = 0; prevouts = prevouts; kind = kind })
  unfolding parse
  parse_first tx prevouts i o kind e f c d k = rw (e, f, c, d, k) refl

  kind_of-program :
      (i : TxIn) (hash signature key : Bytes)
      → IsProgram lib hash
      → i.script_sig ≡ []
      → i.witness ≡ signature ∷ key ∷ []
      → length signature ≤ 520
      → length key ≤ 520
      → kind_of lib i (new_p2wpkh hash) ≡ ok (p2wpkh hash)
  unfolding kind_of native_kind
  kind_of-program i hash signature key (f, l, t, s, p, v, x) e w ls lk =
      rw
        (
          kind_of,
          v,
          native_kind,
          e,
          w,
          f,
          program_kind hash signature key (f, l, t, s, p, v, x) ls lk,
        )
        refl

  parsed :
      (address : Address) (message : Bytes) (key : PrivateKey) (locks : LockParams)
      (hash sighash : Bytes)
      → script_pubkey_of address ≡ new_p2wpkh hash
      → IsProgram lib hash
      → Iterates lib hash
      → Signing lib key sighash
      → Parsed lib
          (create_to_spend lib address message)
          (signed_tx address message key locks sighash)
          (signed_spend address message key locks hash sighash)
  unfolding create_to_spend create_to_spend_from_script to_sign_transaction
  parsed address message key locks hash sighash a p i (_, _, _, s, k) =
      parse_first _ _ (witnessed_input address message locks (witness_of lib key sighash))
        (record { value = 0; script_pubkey = new_p2wpkh hash }) (p2wpkh hash) refl (rw a refl)
        (empty_script i.0) (program_script hash p i) (kind_of-program _ hash _ _ p refl refl s k)

  no_codeseparator :
      (address : Address) (message : Bytes) (key : PrivateKey) (locks : LockParams)
      (hash sighash : Bytes)
      → script_pubkey_of address ≡ new_p2wpkh hash
      → Iterates lib hash
      → spends_codeseparator lib (signed_spend address message key locks hash sighash) ≡ false
  unfolding spends_codeseparator contains_codeseparator is_codeseparator txin prevout inner_script
      inner_of create_to_spend create_to_spend_from_script to_sign_transaction
  no_codeseparator address message key locks hash sighash a (m, n, mp, np) = rw (a, n, np) refl

  -- The verdict on a P2WPKH input whose script is a program.
  no_timelock :
      (spend : LibSpend lib) (hash : Bytes)
      → spend.kind ≡ p2wpkh hash
      → instructions (prevout spend).script_pubkey
        ≡ good (push_bytes []) ∷ good (push_bytes hash) ∷ []
      → has_naked_zero_timelock lib spend ≡ false
  unfolding has_naked_zero_timelock is_naked_zero_timelock is_zero_timelock inner_script inner_of
  no_timelock spend hash k i =
      let none_inside : inner_script lib spend ≡ none = ap (inner_of lib) k in
      rw (has_naked_zero_timelock, none_inside, is_naked_zero_timelock, i) refl

  program_valid :
      (spend : LibSpend lib) (hash : Bytes)
      → spend.kind ≡ p2wpkh hash
      → instructions (prevout spend).script_pubkey
        ≡ good (push_bytes []) ∷ good (push_bytes hash) ∷ []
      → verify_p2wpkh lib spend hash ≡ ok tt
      → Yields lib valid spend
  unfolding verify_input verify_kind or_interpret
  program_valid spend hash k i v =
      let by_kind : verify_kind lib spend spend.kind ≡ ok (some valid) =
        ap (verify_kind lib spend) k ∙ rw (verify_kind, v) refl in
      rw (verify_input, no_timelock spend hash k i, by_kind) refl

  verifies_input :
      (address : Address) (message : Bytes) (key : PrivateKey) (locks : LockParams)
      (hash sighash : Bytes)
      → script_pubkey_of address ≡ new_p2wpkh hash
      → wpubkey_hash (public_key key) ≡ some hash
      → Iterates lib hash
      → Signing lib key sighash
      → Hashes lib (to_sign_of lib address message locks) hash sighash
      → Yields lib valid (signed_spend address message key locks hash sighash)
  unfolding txin prevout create_to_spend create_to_spend_from_script to_sign_transaction
  verifies_input address message key locks hash sighash a k (m, n, mp, np) (e, v, b, _, _) h =
      let spend = signed_spend address message key locks hash sighash in
      let by_key : SignedByHash lib spend hash =
        (_, _, public_key key, sign_ecdsa sighash key, sighash, refl, refl, b, k, e, h _, v) in
      program_valid spend hash refl (rw a np) ((verify_p2wpkh_iff lib spend hash).1 by_key)

  -- For a P2WPKH address and the one private key whose public key hashes to its program,
  -- `sign_full` succeeds at every message and lock parameters, and `verify_full` of what it
  -- signed is valid at those lock parameters' time and sequence. The library is taken to
  -- classify the program as P2WPKH, to read its script and the encoded signature, to sign
  -- so that the interpreter accepts the digest, and to extract the signed PSBT; the signed
  -- transaction weighs at most four million units.
  pub sign_full-verify_full :
      (address : Address) (message : Bytes) (key : PrivateKey) (locks : LockParams)
      (hash sighash : Bytes)
      → script_pubkey_of address ≡ new_p2wpkh hash
      → wpubkey_hash (public_key key) ≡ some hash
      → IsProgram lib hash
      → Iterates lib hash
      → Signing lib key sighash
      → Hashes lib (to_sign_of lib address message locks) hash sighash
      → Extracts lib (to_sign_of lib address message locks)
      → weight (signed_tx address message key locks sighash) ≤ 4_000_000
      → (tx : Transaction) × (sign_full lib address message (key ∷ []) none locks ≡ ok tx)
        × (verify_full lib address message tx ≡ valid_at locks.lock_time locks.sequence)
  unfolding to_sign_transaction
  sign_full-verify_full address message key locks hash sighash a k p i s h x w = (
    signed_tx address message key locks sighash,
    sign_full-p2wpkh lib address message key locks hash sighash a k p h x w,
    (verify_full_valid lib address message (signed_tx address message key locks sighash)
          locks.lock_time locks.sequence).1
        (
          _,
          signed_spend address message key locks hash sighash,
          (w, refl, refl, refl),
          parsed address message key locks hash sighash a p i s,
          no_codeseparator address message key locks hash sighash a i,
          verifies_input address message key locks hash sighash a k i s h,
          version_known locks,
          refl,
          refl,
        ),
  )
