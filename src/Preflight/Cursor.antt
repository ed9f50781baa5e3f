-- ===== src/Preflight/Cursor.antt =====
-- verify/preflight.rs: `Cursor` and its reads of counts and lengths.
-- A method on `&mut self` that leaves by `?` is a `Read`. After a refusal the source never looks
-- at the cursor again, so a refusal carries none. `usize` has 64 bits.
use bip.Base.{
  ℕ, zero, suc, ◌+◌, ◌-◌, ◌*◌, ◌/◌, ◌%◌, ◌^◌, ◌&&◌, Option, none, some, [], ◌∷◌, Bytes, length,
  take, drop, ltb, leb, ◌==◌, if◌then◌else◌,
}

-- `refused` is Rust's `None`. `out_of_fuel` is no value of the source: a loop of the model ran out
-- of rounds.
pub data Outcome {ℓ} (A : Type ℓ) : Type ℓ where
  done : A → Outcome A
  refused : Outcome A
  out_of_fuel : Outcome A

abbrev pub bind {ℓ κ} : {A : Type ℓ} {B : Type κ} → Outcome A → (A → Outcome B) → Outcome B
bind (done a) f = f a
bind refused f = refused
bind out_of_fuel f = out_of_fuel

-- `Option` as it stands behind `?`
abbrev pub present {ℓ} : {A : Type ℓ} → Option A → Outcome A
present (some a) = done a
present none = refused

pub record Cursor : Type 0 where
  pub bytes : Bytes
  pub position : ℕ

abbrev pub Read {ℓ} : Type ℓ → Type ℓ
Read A = Cursor → Outcome (A × Cursor)

module _ {ℓ κ} {A : Type ℓ} {B : Type κ} where
  infixl 10 ◌>>=◌
  abbrev pub ◌>>=◌ : Read A → (A → Read B) → Read B
  ◌>>=◌ m f c = bind (m c) (λ (a, c'). f a c')

  infixl 10 ◌>>◌
  abbrev pub ◌>>◌ : Read A → Read B → Read B
  m >> n = m >>= λ _. n

module _ {ℓ} {A : Type ℓ} where
  abbrev pub pure : A → Read A
  pure a c = done (a, c)

  abbrev pub lift : Outcome A → Read A
  lift r c = bind r (λ a. done (a, c))

-- `Cursor::new`
abbrev pub new : Bytes → Cursor
new bytes = record { bytes = bytes; position = 0 }

abbrev pub remaining : Cursor → ℕ
remaining c = length c.bytes - c.position

-- One more than the largest `usize`, and than the largest `u64`.
abbrev pub word : ℕ
word = 2 ^ 64

-- `Cursor::take`: the end is a checked sum, and the slice is there only if it lies in the bytes.
unfoldable pub take_bytes : ℕ → Read Bytes
take_bytes n c =
    if ltb (c.position + n) word && leb (c.position + n) (length c.bytes)
    then done (take n (drop c.position c.bytes), record c { position = c.position + n })
    else refused

unfoldable pub skip : ℕ → Read (Unit {0})
skip n = do take_bytes n; pure tt

-- `slice.first()`
abbrev pub first : Bytes → Option ℕ
first [] = none
first (b ∷ bs) = some b

-- The fold over the reversed bytes, `(value << 8) | byte`: the low eight bits of the shifted value
-- are clear, so `|` is a sum.
unfoldable pub little_endian : Bytes → ℕ
little_endian [] = 0
little_endian (b ∷ bs) = little_endian bs * 256 % word + b

-- `(value >= minimum).then_some(value)`
unfoldable pub at_least : ℕ → ℕ → Read ℕ
at_least minimum value = if leb minimum value then pure value else lift refused

-- A value of `width` bytes that must be at least `minimum`.
unfoldable pub wide : ℕ → ℕ → Read ℕ
unfolding at_least
wide width minimum = do bytes ← take_bytes width; at_least minimum (little_endian bytes)

-- The match on the first byte.
unfoldable pub from_head : ℕ → Read ℕ
unfolding wide
from_head b =
    if b == 0xfd
    then wide 2 0xfd
    else if b == 0xfe
    then wide 4 0x1_0000
    else if b == 0xff
    then wide 8 0x1_0000_0000
    else pure b

unfoldable pub compact_size : Read ℕ
unfolding from_head
compact_size = do head ← take_bytes 1; b ← lift (present (first head)); from_head b

-- The test of `count`, against the bytes that are left behind the count.
unfoldable pub fits : ℕ → ℕ → Read ℕ
fits size n c = if leb n (remaining c / size) then done (n, c) else refused

unfoldable pub count : ℕ → Read ℕ
unfolding fits
count size = do n ← compact_size; fits size n

-- `for _ in 0..n { body?; }`
unfoldable pub repeat : ℕ → Read (Unit {0}) → Read (Unit {0})
repeat zero body = pure tt
repeat (suc n) body = do body; repeat n body
