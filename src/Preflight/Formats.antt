-- ===== src/Preflight/Formats.antt =====
-- verify/preflight.rs: the witness and transaction formats.
use bip.Base.{ℕ, Bool, true, false, ◌==◌, if◌then◌else◌, Bytes, [], ◌∷◌, bytes_eq}
use bip.Preflight.Cursor.{
  Outcome, done, refused, out_of_fuel, Cursor, Read, ◌>>=◌, ◌>>◌, pure, lift, new, take_bytes, skip,
  compact_size, count, repeat,
}

-- The body of the loops over witness items and scripts: a length, and as many bytes.
unfoldable pub item : Read (Unit {0})
item = do length ← compact_size; skip length

-- `Cursor::witness`
unfoldable pub witness_body : Read (Unit {0})
unfolding item repeat
witness_body = do n ← count 1; repeat n item

unfoldable pub input : Read (Unit {0})
unfolding item
input = do skip 36; item; skip 4

-- `Cursor::inputs`
unfoldable pub inputs : Read ℕ
unfolding input repeat
inputs = do n ← count 41; repeat n input; pure n

unfoldable pub output : Read (Unit {0})
unfolding item
output = do skip 8; item

-- `Cursor::outputs`
unfoldable pub outputs : Read ℕ
unfolding output repeat
outputs = do n ← count 9; repeat n output; pure n

-- What follows the flag of the BIP-144 serialization.
unfoldable pub segwit_parts : Read (Unit {0})
segwit_parts = do n ← inputs; outputs; repeat n witness_body

-- The rest of a transaction in the BIP-144 serialization, behind the zero input count.
unfoldable pub segwit_body : Read (Unit {0})
unfolding segwit_parts
segwit_body = do flag ← take_bytes 1; if bytes_eq flag (1 ∷ []) then segwit_parts else lift refused

unfoldable pub legacy_body : Read (Unit {0})
legacy_body = do outputs; pure tt

-- `Cursor::transaction`
unfoldable pub transaction_body : Read (Unit {0})
unfolding segwit_body legacy_body
transaction_body = do skip 4; n ← inputs; if n == 0 then segwit_body else legacy_body; skip 4

-- `PsbtShape`
pub record PsbtShape : Type 0 where
  pub inputs : ℕ
  pub outputs : ℕ

-- `Cursor::unsigned_transaction`. A `u64` is a `usize`.
unfoldable pub unsigned_transaction : Read PsbtShape
unsigned_transaction = do
  skip 4
  i ← inputs
  o ← outputs
  skip 4
  pure (record { inputs = i; outputs = o })

-- `option.is_some()` of a read of a whole slice.
abbrev pub accepts : Outcome (Unit {0} × Cursor) → Bool
accepts (done r) = true
accepts refused = false
accepts out_of_fuel = false

-- `preflight::witness`
unfoldable pub witness : Bytes → Bool
unfolding witness_body
witness bytes = accepts (witness_body (new bytes))

-- `preflight::transaction`
unfoldable pub transaction : Bytes → Bool
unfolding transaction_body
transaction bytes = accepts (transaction_body (new bytes))
