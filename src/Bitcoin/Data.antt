-- ===== src/Bitcoin/Data.antt =====
-- The public fields of the `bitcoin` crate's data that the source reads and writes.
use bip.Base.{ℕ, Option, List, Bytes}

-- The bytes of a script.
abbrev pub Script : Type 0
Script = Bytes

-- The items of a witness stack, from the bottom up.
abbrev pub Witness : Type 0
Witness = List Bytes

abbrev pub Txid : Type 0
Txid = Bytes

pub record OutPoint : Type 0 where
  pub txid : Txid
  pub vout : ℕ

pub record TxIn : Type 0 where
  pub previous_output : OutPoint
  pub script_sig : Script
  pub sequence : ℕ
  pub witness : Witness

-- `value` is the amount in satoshi.
pub record TxOut : Type 0 where
  pub value : ℕ
  pub script_pubkey : Script

-- `version` is the bit pattern of an `i32`, and `lock_time` the consensus value.
pub record Transaction : Type 0 where
  pub version : ℕ
  pub lock_time : ℕ
  pub input : List TxIn
  pub output : List TxOut

-- An item of a script: `push_bytes` is `Instruction::PushBytes`, `op` is `Instruction::Op` with the
-- opcode's byte.
pub data Instruction : Type 0 where
  push_bytes : Bytes → Instruction
  op : ℕ → Instruction

-- What an iterator over a script yields: `bad` is `Err`, behind which the script is not decoded.
pub data Decoded : Type 0 where
  good : Instruction → Decoded
  bad : Decoded

-- The key of a PSBT's field, `bitcoin::psbt::raw::Key`.
pub record RawKey : Type 0 where
  pub type_value : ℕ
  pub key : Bytes

-- The fields of a PSBT's input map that verification and the making of a proof read or write.
pub record PsbtInput : Type 0 where
  pub non_witness_utxo : Option Transaction
  pub witness_utxo : Option TxOut
  pub redeem_script : Option Script
  pub witness_script : Option Script
  pub final_script_sig : Option Script
  pub final_script_witness : Option Witness

-- A PSBT. `unknown` holds each key once; of the output maps only their number is used.
pub record Psbt : Type 0 where
  pub unsigned_tx : Transaction
  pub inputs : List PsbtInput
  pub output_count : ℕ
  pub unknown : List (RawKey × Bytes)

-- `EcdsaSighashType`
pub data EcdsaSighashType : Type 0 where
  all none single all_plus_anyone_can_pay none_plus_anyone_can_pay single_plus_anyone_can_pay :
      EcdsaSighashType

-- `TapSighashType`
pub data TapSighashType : Type 0 where
  default all none single all_plus_anyone_can_pay none_plus_anyone_can_pay
        single_plus_anyone_can_pay :
      TapSighashType

-- The input map of a PSBT with the fields that only the signing roles use: `base` holds the others,
-- `sighash_type` the number of a declared type. `hints` stands for the derivations, preimages,
-- Taproot scripts, script signatures and key origins, which are only ever cleared. `proprietary`,
-- here by raw keys, and `unknown` are the map's own, which no function reads or writes. The
-- parameters are the types of keys, x-only keys, ECDSA and Schnorr signatures.
pub record SignerInput (K X E S : Type 0) : Type 0 where
  pub base : PsbtInput
  pub partial_sigs : List (K × (E × EcdsaSighashType))
  pub sighash_type : Option ℕ
  pub tap_key_sig : Option (S × TapSighashType)
  pub tap_internal_key : Option X
  pub tap_merkle_root : Option Bytes
  pub hints : List (RawKey × Bytes)
  pub proprietary : List (RawKey × Bytes)
  pub unknown : List (RawKey × Bytes)

-- A PSBT with such input maps.
pub record SignerPsbt (K X E S : Type 0) : Type 0 where
  pub unsigned_tx : Transaction
  pub inputs : List (SignerInput K X E S)
  pub output_count : ℕ
  pub unknown : List (RawKey × Bytes)

-- `AddressData`, which is `#[non_exhaustive]`.
pub data AddressData : Type 0 where
  p2pkh p2sh segwit other : AddressData

-- The opcodes that the source names.
abbrev pub op_return : ℕ
op_return = 0x6a

abbrev pub op_pushnum_1 : ℕ
op_pushnum_1 = 0x51

abbrev pub op_pushnum_16 : ℕ
op_pushnum_16 = 0x60

abbrev pub op_codeseparator : ℕ
op_codeseparator = 0xab

abbrev pub op_checksig : ℕ
op_checksig = 0xac

abbrev pub op_checkmultisig : ℕ
op_checkmultisig = 0xae

abbrev pub op_cltv : ℕ
op_cltv = 0xb1

abbrev pub op_csv : ℕ
op_csv = 0xb2

-- `Weight::MAX_BLOCK`
abbrev pub max_block_weight : ℕ
max_block_weight = 4_000_000

-- `MAX_SCRIPT_ELEMENT_SIZE`
abbrev pub max_script_element_size : ℕ
max_script_element_size = 520

-- `TAPROOT_ANNEX_PREFIX`
abbrev pub taproot_annex_prefix : ℕ
taproot_annex_prefix = 0x50

-- `LeafVersion::TapScript`
abbrev pub leaf_tapscript : ℕ
leaf_tapscript = 0xc0
