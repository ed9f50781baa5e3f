-- ===== src/Bound.antt =====
-- verify/bound.rs: proof data bound to the output it spends. The source keeps the fields of these
-- types private, so that only the constructors below make their values.
use bip.Base.{ℕ, Bool, Option, none, some, List, map, Bytes, bytes_eq, then_some, ◌==◌}
use bip.Error.{
  Result, ok, err, ◌>>=◌, ◌>>◌, ok_or, guard, invalid_public_key, uncompressed_public_key,
  public_key_mismatch,
}
use bip.Bitcoin.Data.{Script, leaf_tapscript}
use bip.Bitcoin.Api.{Api}
use bip.Script.Defs.{parse_multisig}

pub record CommittedScript : Type 0 where
  pub script : Script

pub record BoundPublicKey (K : Type 0) : Type 0 where
  pub key : K

-- `TapLeaf`, with the type of control blocks as a parameter.
pub record TapLeaf (C : Type 0) : Type 0 where
  pub control : C
  pub script : Script
  pub stack_len : ℕ

pub record CommittedLeaf : Type 0 where
  pub version : ℕ
  pub script : Script

module _ (lib : Api) where
  open lib use {
    PublicKey, XOnlyPublicKey, EcdsaSignature, ControlBlock, script_hash, wscript_hash, new_p2sh,
    public_key_from_slice, pubkey_hash, wpubkey_hash, verify_ecdsa_sig, leaf_version,
    verify_taproot_commitment,
  }

  -- `CommittedScript::p2sh`
  unfoldable pub committed_p2sh : Script → Script → Option CommittedScript
  committed_p2sh script_pubkey redeem_script =
      then_some (bytes_eq script_pubkey (new_p2sh (script_hash redeem_script)))
        (record { script = redeem_script })

  -- `CommittedScript::p2wsh`
  unfoldable pub committed_p2wsh : Bytes → Script → Option CommittedScript
  committed_p2wsh program witness_script =
      then_some (bytes_eq (wscript_hash witness_script) program)
        (record { script = witness_script })

  -- `parse_multisig(..).ok()?`, with the keys bound
  unfoldable pub bind_keys :
      Result (ℕ × List PublicKey) → Option (ℕ × List (BoundPublicKey PublicKey))
  bind_keys (ok (required, keys)) = some (required, map (λ k. record { key = k }) keys)
  bind_keys (err e) = none

  -- `CommittedScript::multisig`
  unfoldable pub multisig : CommittedScript → Option (ℕ × List (BoundPublicKey PublicKey))
  unfolding bind_keys
  multisig s = bind_keys (parse_multisig lib s.script)

  -- `BoundPublicKey::p2wpkh`
  unfoldable pub bound_p2wpkh : Bytes → Bytes → Result (BoundPublicKey PublicKey)
  bound_p2wpkh hash bytes = do
    key ← ok_or (public_key_from_slice bytes) invalid_public_key
    found ← ok_or (wpubkey_hash key) uncompressed_public_key
    guard (bytes_eq found hash) public_key_mismatch
    ok (record { key = key })

  -- `BoundPublicKey::p2pkh`
  unfoldable pub bound_p2pkh : Bytes → Bytes → Result (BoundPublicKey PublicKey)
  bound_p2pkh hash bytes = do
    key ← ok_or (public_key_from_slice bytes) invalid_public_key
    guard (bytes_eq (pubkey_hash key) hash) public_key_mismatch
    ok (record { key = key })

  -- `BoundPublicKey::verifies`
  unfoldable pub verifies : BoundPublicKey PublicKey → Bytes → EcdsaSignature → Bool
  verifies k sighash signature = verify_ecdsa_sig sighash signature k.key

  -- `TapLeaf::claimed_tapscript`
  unfoldable pub claimed_tapscript : TapLeaf ControlBlock → Option Script
  claimed_tapscript leaf = then_some (leaf_version leaf.control == leaf_tapscript) leaf.script

  -- `TapLeaf::commit`
  unfoldable pub commit : TapLeaf ControlBlock → XOnlyPublicKey → Option CommittedLeaf
  commit leaf output_key =
      then_some (verify_taproot_commitment leaf.control output_key leaf.script)
        (record { version = leaf_version leaf.control; script = leaf.script })
