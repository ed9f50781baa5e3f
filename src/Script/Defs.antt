-- ===== src/Script/Defs.antt =====
-- script.rs: the multisig template, LOW_S, and which spends are segwit.
use bip.Base.{
  ℕ, ◌+◌, ◌-◌, Bool, true, false, ◌&&◌, ◌||◌, Option, none, some, List, [], ◌∷◌, length, get_elem?,
  last?, take, drop, leb, ◌==◌, bytes_eq, if◌then◌else◌,
}
use bip.Error.{
  Result, ok, err, ◌>>=◌, ◌>>◌, guard, ok_or, invalid_witness, invalid_public_key,
  signature_invalid,
}
use bip.Bitcoin.Data.{
  Script, Instruction, push_bytes, op, Decoded, good, bad, op_pushnum_1, op_pushnum_16,
  op_checkmultisig,
}
use bip.Bitcoin.Api.{Api}

-- `collect::<Result<Vec<_>, _>>()` over the instructions
unfoldable pub collect : List Decoded → Result (List Instruction)
collect [] = ok []
collect (good i ∷ ds) = do is ← collect ds; ok (i ∷ is)
collect (bad ∷ ds) = err invalid_witness

-- The closure `pushnum` of `parse_multisig`.
unfoldable pub pushnum : ℕ → Result ℕ
pushnum value = do
  guard (leb op_pushnum_1 value && leb value op_pushnum_16) invalid_witness
  ok (value - op_pushnum_1 + 1)

-- The match on an instruction that must be a number opcode.
unfoldable pub number : Option Instruction → Result ℕ
unfolding pushnum
number (some (op value)) = pushnum value
number (some (push_bytes bs)) = err invalid_witness
number none = err invalid_witness

unfoldable pub is_checkmultisig : Option Instruction → Bool
is_checkmultisig (some (op value)) = value == op_checkmultisig
is_checkmultisig (some (push_bytes bs)) = false
is_checkmultisig none = false

module _ (lib : Api) where
  open lib use {
    PublicKey, EcdsaSignature, instructions_minimal, public_key_from_slice, normalize_s, ecdsa_eq,
    push_slice, is_witness_program, is_p2sh, new_p2sh, new_p2wsh, script_hash, wscript_hash,
  }

  -- The loop over the instructions between the two numbers.
  unfoldable pub public_keys : List Instruction → Result (List PublicKey)
  public_keys [] = ok []
  public_keys (push_bytes bytes ∷ is) = do
    key ← ok_or (public_key_from_slice bytes) invalid_public_key
    keys ← public_keys is
    ok (key ∷ keys)
  public_keys (op value ∷ is) = err invalid_witness

  -- The checks of `parse_multisig` on the number of instructions, the last, the first and the last
  -- but one of them, and those between.
  unfoldable pub parse_parts :
      ℕ
      → Option Instruction
      → Option Instruction
      → Option Instruction
      → List Instruction
      → Result (ℕ × List PublicKey)
  unfolding is_checkmultisig
  parse_parts count last first second keys = do
    guard (leb 4 count) invalid_witness
    guard (is_checkmultisig last) invalid_witness
    required ← number first
    total ← number second
    guard (length keys == total && leb 1 required && leb required total) invalid_witness
    pubkeys ← public_keys keys
    ok (required, pubkeys)

  -- `parse_multisig` behind the decoding of the script; `[1..len - 2]` is the middle.
  unfoldable pub parse_instructions : List Instruction → Result (ℕ × List PublicKey)
  unfolding parse_parts
  parse_instructions is =
      parse_parts (length is) (last? is) (get_elem? is 0) (get_elem? is (length is - 2))
        (take (length is - 3) (drop 1 is))

  unfoldable pub parse_multisig : Script → Result (ℕ × List PublicKey)
  parse_multisig script = do is ← collect (instructions_minimal script); parse_instructions is

  -- `push_only_script`. The copy of `push_bytes` is the bytes themselves.
  unfoldable pub push_only_script : Script → Script
  push_only_script script = push_slice script []

  unfoldable pub require_low_s : EcdsaSignature → Result (Unit {0})
  require_low_s signature = guard (ecdsa_eq (normalize_s signature) signature) signature_invalid

  -- `redeem_script.map_or(true, Script::is_witness_program)`
  abbrev redeems_witness : Option Script → Bool
  redeems_witness none = true
  redeems_witness (some script) = is_witness_program script

  unfoldable pub spends_witness : Script → Option Script → Bool
  spends_witness script_pubkey redeem_script =
      is_witness_program script_pubkey || (is_p2sh script_pubkey && redeems_witness redeem_script)

  unfoldable pub p2sh_redeem_script : Script → Script → Script
  p2sh_redeem_script script_pubkey witness_script =
      if bytes_eq script_pubkey (new_p2sh (script_hash witness_script))
      then witness_script
      else new_p2wsh (wscript_hash witness_script)
