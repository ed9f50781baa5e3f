-- ===== src/Preflight/Psbt.antt =====
-- verify/preflight.rs: `Cursor::pair` and `preflight::psbt`.
use bip.Base.{
  ℕ, zero, suc, Bool, true, ◌&&◌, Option, none, some, Bytes, [], ◌∷◌, length, is_empty, is_some,
  bytes_eq, leb, ◌==◌, if◌then◌else◌,
}
use bip.Preflight.Cursor.{
  Outcome, done, refused, out_of_fuel, bind, present, Cursor, Read, ◌>>=◌, ◌>>◌, pure, lift, new,
  remaining, take_bytes, compact_size, repeat,
}
use bip.Limits.{max_encoding_size}
use bip.Preflight.Formats.{PsbtShape, unsigned_transaction, transaction, witness}

abbrev pub psbt_global_unsigned_tx : ℕ
psbt_global_unsigned_tx = 0x00

abbrev pub psbt_in_non_witness_utxo : ℕ
psbt_in_non_witness_utxo = 0x00

abbrev pub psbt_in_final_scriptwitness : ℕ
psbt_in_final_scriptwitness = 0x08

pub record Pair : Type 0 where
  pub key_type : ℕ
  pub key_data : Bytes
  pub value : Bytes

-- The part of `Cursor::pair` behind `split_first`.
unfoldable pub pair_of : Bytes → Read (Option Pair)
pair_of [] = pure none
pair_of (key_type ∷ key_data) = do
  value_length ← compact_size
  value ← take_bytes value_length
  pure (some (record { key_type = key_type; key_data = key_data; value = value }))

unfoldable pub pair : Read (Option Pair)
unfolding pair_of
pair = do key_length ← compact_size; key ← take_bytes key_length; pair_of key

-- `while let Some(pair) = cursor.pair()? { body }`, with fuel. A round takes a byte at least.
unfoldable pub for_pairs {ℓ} : {S : Type ℓ} → ℕ → (S → Pair → Outcome S) → S → Read S
for_pairs zero body s c = out_of_fuel
for_pairs (suc fuel) body s c = bind (pair c) (λ (next, c'). elim next [
  | none ↦ done (s, c')
  | some p ↦ bind (body s p) (λ s'. for_pairs fuel body s' c')
])

-- The unsigned transaction must fill the value of its pair.
unfoldable pub whole_shape : PsbtShape × Cursor → Outcome (Option PsbtShape)
whole_shape (shape, rest) = if remaining rest == 0 then done (some shape) else refused

-- The body of the loop over the global map; its state is the shape found so far.
unfoldable pub global_pair : Option PsbtShape → Pair → Outcome (Option PsbtShape)
unfolding whole_shape
global_pair shape p =
    if p.key_type == psbt_global_unsigned_tx && is_empty p.key_data
    then if is_some shape then refused else bind (unsigned_transaction (new p.value)) whole_shape
    else done shape

-- Whether the value of a pair is one that may be decoded.
unfoldable pub input_value : Pair → Bool
input_value p =
    if p.key_type == psbt_in_non_witness_utxo
    then leb (length p.value) max_encoding_size && transaction p.value
    else if p.key_type == psbt_in_final_scriptwitness
    then leb (length p.value) max_encoding_size && witness p.value
    else true

-- The body of the loops over the input maps.
unfoldable pub input_pair : Unit {0} → Pair → Outcome (Unit {0})
unfolding input_value
input_pair u p = if is_empty p.key_data then if input_value p then done tt else refused else done tt

unfoldable pub output_pair : Unit {0} → Pair → Outcome (Unit {0})
output_pair u p = done tt

abbrev pub psbt_magic : Bytes
psbt_magic = b'p' ∷ b's' ∷ b'b' ∷ b't' ∷ 0xff ∷ []

unfoldable pub magic : Read (Unit {0})
magic = do found ← take_bytes 5; if bytes_eq found psbt_magic then pure tt else lift refused

-- The three parts of `preflight::psbt` behind the magic bytes, each map read with `fuel` rounds.
unfoldable pub maps : ℕ → Read PsbtShape
maps fuel = do
  found ← for_pairs fuel global_pair none
  shape ← lift (present found)
  repeat shape.inputs (for_pairs fuel input_pair tt)
  repeat shape.outputs (for_pairs fuel output_pair tt)
  pure shape

-- `preflight::psbt`. A map takes a byte for each round, so one round more than bytes is enough.
unfoldable pub psbt : Bytes → Outcome PsbtShape
unfolding magic maps
psbt bytes =
    bind ((magic >>= λ _. maps (suc (length bytes))) (new bytes)) (λ (shape, c). done shape)
