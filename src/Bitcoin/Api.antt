-- ===== src/Bitcoin/Api.antt =====
-- The functions of the dependencies that the source calls, as an interface. Nothing is assumed of
-- them here: a theorem that needs a law of one has the law among its hypotheses.
use bip.Base.{ℕ, Bool, Option, List, Bytes}
use bip.Bitcoin.Data.{
  Script, Witness, Txid, TxOut, Transaction, Psbt, SignerPsbt, Decoded, EcdsaSighashType,
  TapSighashType, AddressData,
}

-- A key and a signature that the interpreter of `miniscript` has found to satisfy a script,
-- `KeySigPair` without the key: the sighash type beside the signature.
pub data KeySig (E S : Type 0) : Type 0 where
  ecdsa : E → EcdsaSighashType → KeySig E S
  schnorr : S → TapSighashType → KeySig E S

-- An item of the interpreter's iterator. `key_sig` is `SatisfiedConstraint::PublicKey` or
-- `PublicKeyHash`, `constraint` any other satisfied constraint; `signature_error` stands for the
-- five errors about signatures that the source names, `other_error` for the rest.
pub data Satisfied (E S : Type 0) : Type 0 where
  key_sig : KeySig E S → Satisfied E S
  constraint : Satisfied E S
  signature_error : Satisfied E S
  other_error : Satisfied E S

pub record Api : Type 1 where
  -- Types that the source only passes around.
  pub PublicKey : Type 0
  pub XOnlyPublicKey : Type 0
  pub EcdsaSignature : Type 0
  pub SchnorrSignature : Type 0
  pub ControlBlock : Type 0
  pub Address : Type 0
  pub Interpreter : Type 0
  pub PrivateKey : Type 0
  -- `Keypair`, `RecoverableSignature` and `MessageSignature`.
  pub Keypair : Type 0
  pub Recoverable : Type 0
  pub MessageSignature : Type 0
  -- Transactions.
  pub compute_txid : Transaction → Txid
  pub weight : Transaction → ℕ
  -- `Psbt::from_unsigned_tx`, `extract_tx` and `extract_tx_unchecked_fee_rate`.
  pub from_unsigned_tx : Transaction → Option Psbt
  pub extract_tx : Psbt → Option Transaction
  pub extract_tx_unchecked_fee_rate : Psbt → Transaction
  -- `sha2::Sha256` over the bytes it is fed.
  pub sha256 : Bytes → Bytes
  -- Scripts: the two iterators, the classifications, the hashes and the standard outputs.
  pub instructions : Script → List Decoded
  pub instructions_minimal : Script → List Decoded
  pub witness_version : Script → Option ℕ
  pub is_witness_program : Script → Bool
  pub is_p2sh : Script → Bool
  pub is_p2pkh : Script → Bool
  pub script_hash : Script → Bytes
  pub wscript_hash : Script → Bytes
  pub new_p2sh : Bytes → Script
  pub new_p2wsh : Bytes → Script
  pub new_p2pkh : Bytes → Script
  pub new_p2wpkh : Bytes → Script
  -- `opcode.classify(ClassifyContext::TapScript) == Class::SuccessOp`
  pub is_success_op : ℕ → Bool
  pub read_scriptbool : Bytes → Bool
  -- A script builder, which holds the bytes written so far.
  pub push_int : ℕ → Script → Script
  pub push_slice : Bytes → Script → Script
  pub push_opcode : ℕ → Script → Script
  -- Keys and signatures. A missing value is the error of the function.
  pub public_key_from_slice : Bytes → Option PublicKey
  pub pubkey_hash : PublicKey → Bytes
  pub wpubkey_hash : PublicKey → Option Bytes
  pub hash160_from_slice : Bytes → Option Bytes
  pub ecdsa_sighash_from_standard : ℕ → Option EcdsaSighashType
  pub ecdsa_from_der : Bytes → Option EcdsaSignature
  pub normalize_s : EcdsaSignature → EcdsaSignature
  pub ecdsa_eq : EcdsaSignature → EcdsaSignature → Bool
  pub verify_ecdsa_sig : Bytes → EcdsaSignature → PublicKey → Bool
  -- Taproot.
  pub x_only_from_slice : Bytes → Option XOnlyPublicKey
  pub schnorr_from_slice : Bytes → Option SchnorrSignature
  pub schnorr_bytes : SchnorrSignature → Bytes
  pub tap_sighash_from_consensus : ℕ → Option TapSighashType
  pub verify_schnorr_sig : SchnorrSignature → Bytes → XOnlyPublicKey → Bool
  pub control_decode : Bytes → Option ControlBlock
  pub leaf_version : ControlBlock → ℕ
  pub verify_taproot_commitment : ControlBlock → XOnlyPublicKey → Script → Bool
  pub tap_leaf_hash : Script → Bytes
  pub annex_new : Bytes → Option Bytes
  -- The signature hashes of an input. `SighashCache` only keeps parts of them between calls.
  pub legacy_signature_hash : Transaction → ℕ → Script → EcdsaSighashType → Option Bytes
  pub p2wpkh_signature_hash : Transaction → ℕ → Script → ℕ → EcdsaSighashType → Option Bytes
  pub p2wsh_signature_hash : Transaction → ℕ → Script → ℕ → EcdsaSighashType → Option Bytes
  pub taproot_signature_hash :
      Transaction
      → ℕ
      → List TxOut
      → Option Bytes
      → Option (Bytes × ℕ)
      → TapSighashType
      → Option Bytes
  -- Addresses.
  pub address_from_str : Bytes → Option Address
  pub address_to_string : Address → Bytes
  pub address_data : Address → AddressData
  pub script_pubkey_of : Address → Script
  -- The interpreter of `miniscript`, on a spend's script, scriptSig, witness, sequence and lock time.
  pub from_txdata : Script → Script → Witness → ℕ → ℕ → Option Interpreter
  pub iterate :
      Interpreter → Transaction → ℕ → List TxOut → List (Satisfied EcdsaSignature SchnorrSignature)
  pub iterate_assume_sigs : Interpreter → List (Satisfied EcdsaSignature SchnorrSignature)
  -- `base64` with the standard alphabet and padding.
  pub base64_encode : Bytes → Bytes
  pub base64_decode : Bytes → Option Bytes
  -- Consensus decoding from the front of a byte string: the value, and what it left.
  pub decode_witness : Bytes → Option (Witness × Bytes)
  pub decode_transaction : Bytes → Option (Transaction × Bytes)
  pub deserialize_psbt : Bytes → Option (Psbt × Bytes)
  -- More classifications of scripts, and `ScriptBuf::from_hex`.
  pub is_p2tr : Script → Bool
  pub is_p2wsh : Script → Bool
  pub is_p2wpkh : Script → Bool
  pub new_p2tr_tweaked : XOnlyPublicKey → Script
  pub script_from_hex : Bytes → Option Script
  -- `==` of keys of `bitcoin`, and of the keys of `secp256k1` inside.
  pub public_key_eq : PublicKey → PublicKey → Bool
  pub inner_eq : PublicKey → PublicKey → Bool
  pub public_key_bytes : PublicKey → Bytes
  pub compressed : PublicKey → Bool
  -- Signing. `ecdsa_to_vec` and `schnorr_to_vec` encode a signature with its sighash type.
  pub from_wif : Bytes → Option PrivateKey
  pub public_key : PrivateKey → PublicKey
  pub sign_ecdsa : Bytes → PrivateKey → EcdsaSignature
  pub ecdsa_to_vec : EcdsaSignature → EcdsaSighashType → Bytes
  pub keypair : PrivateKey → Keypair
  pub x_only : Keypair → XOnlyPublicKey
  pub tap_tweak : Keypair → Option Bytes → Keypair
  pub sign_schnorr_with_aux_rand : Bytes → Keypair → Bytes → SchnorrSignature
  pub sign_schnorr_no_aux_rand : Bytes → Keypair → SchnorrSignature
  pub schnorr_to_vec : SchnorrSignature → TapSighashType → Bytes
  pub taproot_key_spend_signature_hash :
      Transaction → ℕ → List TxOut → TapSighashType → Option Bytes
  -- Messages signed in the format of BIP-137.
  pub signed_msg_hash : Bytes → Bytes
  pub sign_ecdsa_recoverable : Bytes → PrivateKey → Recoverable
  pub message_signature : Recoverable → Bool → MessageSignature
  pub message_signature_bytes : MessageSignature → Bytes
  pub message_signature_from_slice : Bytes → Option MessageSignature
  pub recover_pubkey : MessageSignature → Bytes → Option PublicKey
  -- Consensus encoding into a buffer. A missing value is an error of the writer.
  pub encode_witness : Witness → Option Bytes
  pub encode_transaction : Transaction → Option Bytes
  pub serialize_psbt :
      SignerPsbt PublicKey XOnlyPublicKey EcdsaSignature SchnorrSignature → Option Bytes
