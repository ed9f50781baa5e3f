-- ===== src/Script/Ordered.antt =====
-- script.rs: `ordered_multisig_signatures`.
use bip.Base.{
  Bool, true, false, not, ◌&&◌, ◌||◌, Option, none, some, List, [], ◌∷◌, map, length, any, Bytes,
  ◌==◌,
}
use bip.Error.{Result, ok, ◌>>=◌, ◌>>◌, guard, signature_count, duplicate_signer, unknown_signer}
use bip.Bitcoin.Data.{Script, EcdsaSighashType}
use bip.Bitcoin.Api.{Api}
use bip.Script.Defs.{parse_multisig}

module _ (lib : Api) where
  open lib use {PrivateKey, PublicKey, public_key, inner_eq, sign_ecdsa, ecdsa_to_vec}

  -- A private key, and whether it is `used`.
  abbrev pub Signer : Type 0
  Signer = PrivateKey × Bool

  -- Whether a key stands behind an equal one; `seen` holds the keys in front.
  unfoldable pub any_duplicate : List PublicKey → List PublicKey → Bool
  any_duplicate seen [] = false
  any_duplicate seen (k ∷ ks) = any (λ s. inner_eq s k) seen || any_duplicate (k ∷ seen) ks

  -- The first unused private key of a public key, and the signers with that one used.
  unfoldable pub find_signer : PublicKey → List Signer → Option (PrivateKey × List Signer)
  find_signer k [] = none
  find_signer k ((p, used) ∷ ss) = elim (not used && inner_eq (public_key p) k) [
    | true ↦ some (p, (p, true) ∷ ss)
    | false ↦ elim (find_signer k ss) [ none ↦ none | some (q, ss') ↦ some (q, (p, used) ∷ ss') ]
  ]

  -- The loop over the public keys of the script.
  unfoldable pub sign_ordered : Bytes → List PublicKey → List Signer → List Bytes
  unfolding find_signer
  sign_ordered sighash [] signers = []
  sign_ordered sighash (k ∷ ks) signers = elim (find_signer k signers) [
    | none ↦ sign_ordered sighash ks signers
    | some (p, signers') ↦
        ecdsa_to_vec (sign_ecdsa sighash p) EcdsaSighashType.all ∷ sign_ordered sighash ks signers'
  ]

  abbrev pub unused : List PrivateKey → List Signer
  unused ps = map (λ p. (p, false)) ps

  unfoldable pub ordered_multisig_signatures :
      Script → List PrivateKey → Bytes → Result (List Bytes)
  unfolding any_duplicate sign_ordered
  ordered_multisig_signatures script private_keys sighash = do
    (required, pubkeys) ← parse_multisig lib script
    guard (length private_keys == required) (signature_count required (length private_keys))
    guard (not (any_duplicate [] (map public_key private_keys))) duplicate_signer
    let signatures = sign_ordered sighash pubkeys (unused private_keys)
    guard (length signatures == required) unknown_signer
    ok signatures
