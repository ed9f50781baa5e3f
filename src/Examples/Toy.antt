-- ===== src/Examples/Toy.antt =====
-- A small instance of the dependencies, on which the code runs. Hashes and keys are the bytes
-- themselves, and a signature by a key is the key.
use bip.Base.{
  ℕ, zero, suc, Bool, true, false, ◌&&◌, Option, none, some, List, [], ◌∷◌, ◌++◌, map, Bytes,
  length, bytes_eq, leb, ◌==◌, if◌then◌else◌,
}
use bip.Bitcoin.Data.{
  Script, TxIn, Transaction, Decoded, good, bad, push_bytes, op, PsbtInput, Psbt, EcdsaSighashType,
  TapSighashType, AddressData,
}
use bip.Bitcoin.Api.{Api, constraint}

-- A script item by item: a byte up to 75 is a push of so many bytes, any other an opcode.
abbrev pub decode_script : ℕ → Bytes → Script → List Decoded
decode_script zero acc [] = []
decode_script zero acc (zero ∷ bs) = good (push_bytes []) ∷ decode_script zero [] bs
decode_script zero acc (suc n ∷ bs) =
    let pushed = decode_script (suc n) [] bs in
    let rest = decode_script zero [] bs in
    if leb (suc n) 75 then pushed else good (op (suc n)) ∷ rest
decode_script (suc n) acc [] = bad ∷ []
decode_script (suc zero) acc (b ∷ bs) =
    good (push_bytes (acc ++ (b ∷ []))) ∷ decode_script zero [] bs
decode_script (suc (suc n)) acc (b ∷ bs) = decode_script (suc n) (acc ++ (b ∷ [])) bs

-- Version 0 with a program of 20 bytes, and version 1 with one of 32.
abbrev pub version_of : Script → Option ℕ
version_of [] = none
version_of (v ∷ p) =
    if v == 0 && length p == 21
    then some 0
    else if v == 0x51 && length p == 33
    then some 1
    else none

abbrev pub starts : ℕ → Script → Bool
starts b [] = false
starts b (c ∷ cs) = b == c

abbrev pub all_type : ℕ → Option EcdsaSighashType
all_type b = if b == 1 then some EcdsaSighashType.all else none

abbrev pub tap_type : ℕ → Option TapSighashType
tap_type b = if b == 1 then some TapSighashType.all else none

abbrev pub no_fields : PsbtInput
no_fields = record {
  non_witness_utxo = none;
  witness_utxo = none;
  redeem_script = none;
  witness_script = none;
  final_script_sig = none;
  final_script_witness = none;
}

abbrev pub unsigned_psbt : Transaction → Psbt
unsigned_psbt tx = record {
  unsigned_tx = tx;
  inputs = map (λ i. no_fields) tx.input;
  output_count = length tx.output;
  unknown = [];
}

-- The inputs with their final witnesses.
abbrev pub signed_inputs : List TxIn → List PsbtInput → List TxIn
signed_inputs [] fields = []
signed_inputs (i ∷ is) [] = i ∷ is
signed_inputs (i ∷ is) (f ∷ fs) =
    (elim f.final_script_witness [ none ↦ i | some w ↦ record i { witness = w } ])
    ∷ signed_inputs is fs

abbrev pub extract : Psbt → Transaction
extract psbt = record psbt.unsigned_tx { input = signed_inputs psbt.unsigned_tx.input psbt.inputs }

abbrev pub toy : Api
toy = record {
  PublicKey = Bytes;
  XOnlyPublicKey = Bytes;
  EcdsaSignature = Bytes;
  SchnorrSignature = Bytes;
  ControlBlock = Bytes;
  Address = Bytes;
  Interpreter = Script;
  compute_txid = λ tx. tx.lock_time ∷ tx.version ∷ length tx.output ∷ [];
  weight = λ tx. 400;
  from_unsigned_tx = λ tx. some (unsigned_psbt tx);
  extract_tx = λ psbt. some (extract psbt);
  extract_tx_unchecked_fee_rate = extract;
  sha256 = λ bytes. bytes;
  instructions = decode_script 0 [];
  instructions_minimal = decode_script 0 [];
  witness_version = version_of;
  is_witness_program = λ s. starts 0 s;
  is_p2sh = starts 0xa9;
  is_p2pkh = starts 0x76;
  script_hash = λ s. s;
  wscript_hash = λ s. s;
  new_p2sh = λ h. 0xa9 ∷ h;
  new_p2wsh = λ h. 0 ∷ 32 ∷ h;
  new_p2pkh = λ h. 0x76 ∷ h;
  new_p2wpkh = λ h. 0 ∷ 20 ∷ h;
  is_success_op = λ o. o == 0x50;
  read_scriptbool = λ b. starts 1 b;
  push_int = λ n s. s ++ (n ∷ []);
  push_slice = λ b s. s ++ (length b ∷ b);
  push_opcode = λ o s. s ++ (o ∷ []);
  public_key_from_slice = λ b. some b;
  pubkey_hash = λ k. k;
  wpubkey_hash = λ k. some k;
  hash160_from_slice = λ b. some b;
  ecdsa_sighash_from_standard = all_type;
  ecdsa_from_der = λ b. some b;
  normalize_s = λ s. s;
  ecdsa_eq = bytes_eq;
  verify_ecdsa_sig = λ h s k. bytes_eq s k;
  x_only_from_slice = λ b. some b;
  schnorr_from_slice = λ b. some b;
  schnorr_bytes = λ s. s;
  tap_sighash_from_consensus = tap_type;
  verify_schnorr_sig = λ s h k. true;
  control_decode = λ b. some b;
  leaf_version = λ c. 0xc0;
  verify_taproot_commitment = λ c k s. true;
  tap_leaf_hash = λ s. s;
  annex_new = λ b. some b;
  legacy_signature_hash = λ tx i s t. some [];
  p2wpkh_signature_hash = λ tx i s v t. some [];
  p2wsh_signature_hash = λ tx i s v t. some [];
  taproot_signature_hash = λ tx i ps a l t. some [];
  address_from_str = λ s. some s;
  address_to_string = λ a. a;
  address_data = λ a. if starts 0x76 a then AddressData.p2pkh else AddressData.segwit;
  script_pubkey_of = λ a. a;
  from_txdata = λ spk sig w s l. some spk;
  iterate = λ i tx n ps. constraint ∷ [];
  iterate_assume_sigs = λ i. constraint ∷ [];
  base64_encode = λ b. b;
  base64_decode = λ b. some b;
  decode_witness = λ b. none;
  decode_transaction = λ b. none;
  deserialize_psbt = λ b. none;
  PrivateKey = Bytes;
  Keypair = Bytes;
  Recoverable = Bytes;
  MessageSignature = Bytes;
  is_p2tr = starts 0x51;
  is_p2wsh = λ s. starts 0 s && length s == 34;
  is_p2wpkh = λ s. starts 0 s && length s == 22;
  new_p2tr_tweaked = λ k. 0x51 ∷ 32 ∷ k;
  script_from_hex = λ b. some b;
  public_key_eq = bytes_eq;
  inner_eq = bytes_eq;
  public_key_bytes = λ k. k;
  compressed = λ k. true;
  from_wif = λ b. some b;
  public_key = λ k. k;
  sign_ecdsa = λ h k. k;
  ecdsa_to_vec = λ s t. s ++ (1 ∷ []);
  keypair = λ k. k;
  x_only = λ k. k;
  tap_tweak = λ k r. k;
  sign_schnorr_with_aux_rand = λ h k r. k;
  sign_schnorr_no_aux_rand = λ h k. k;
  schnorr_to_vec = λ s t. s ++ (1 ∷ []);
  taproot_key_spend_signature_hash = λ tx i ps t. some [];
  signed_msg_hash = λ m. m;
  sign_ecdsa_recoverable = λ h k. k;
  message_signature = λ r c. r;
  message_signature_bytes = λ s. s;
  message_signature_from_slice = λ b. some b;
  recover_pubkey = λ s h. some s;
  encode_witness = λ w. some [];
  encode_transaction = λ tx. some [];
  serialize_psbt = λ p. some [];
}
