-- ===== src/Preflight/Steady.antt =====
-- verify/preflight.rs: rounds and bytes that the reads of `Cursor` take.
use bip.Base.{
  ℕ, zero, suc, ◌+◌, ◌≤◌, ◌<◌, arith, Bool, true, false, none, Option, some, Bytes, [], ◌∷◌, length,
  Bool-cases, inl, inr, ◌&&◌, ◌/◌, if◌then◌else◌, ltb, leb, ◌==◌,
}
use bip.Preflight.Cursor.{
  Cursor, Read, Outcome, done, refused, out_of_fuel, ◌>>=◌, pure, bind, lift, present,
  little_endian, word, remaining, first, take_bytes, skip, wide, from_head, compact_size, fits,
  count, repeat,
}
use bip.Preflight.Formats.{PsbtShape, item, input, inputs, output, outputs, unsigned_transaction}
use bip.Preflight.Psbt.{Pair, pair_of, pair}

-- A read that was done left at least `k` bytes less before the cursor, and none ran out of rounds.
abbrev pub Kept {ℓ} : {A : Type ℓ} → ℕ → Cursor → Outcome (A × Cursor) → Type 0
Kept k c (done r) = remaining r.1 + k ≤ remaining c
Kept k c refused = Unit
Kept k c out_of_fuel = ⊥

-- From every cursor with less than `limit` bytes to go, `m` ends and takes `k` bytes or more.
abbrev pub Steady {ℓ} : {A : Type ℓ} → ℕ → ℕ → Read A → Type 0
Steady limit k m = (c : Cursor) → remaining c < limit → Kept k c (m c)

pub Kept-from {ℓ} :
    {A : Type ℓ} (i j k : ℕ) (c d : Cursor) (r : Outcome (A × Cursor))
    → remaining d + j ≤ remaining c
    → k ≤ i + j
    → Kept i d r
    → Kept k c r
Kept-from i j k c d (done r) l h s = omega arith
Kept-from i j k c d refused l h s = tt
Kept-from i j k c d out_of_fuel l h s = s

module _ {ℓ κ} {A : Type ℓ} {B : Type κ} (limit j k : ℕ) where
  Kept-bind :
      (f : A → Read B) (c : Cursor) (r : Outcome (A × Cursor))
      → remaining c < limit
      → Kept j c r
      → ((a : A) → Steady limit k (f a))
      → Kept (j + k) c (bind r (λ (a, c'). f a c'))
  Kept-bind f c (done (a, c')) l h s =
      Kept-from k j (j + k) c c' (f a c') h (omega arith) (s a c' (omega arith))
  Kept-bind f c refused l h s = tt
  Kept-bind f c out_of_fuel l h s = h

  Steady-bind :
      (m : Read A) (f : A → Read B)
      → Steady limit j m
      → ((a : A) → Steady limit k (f a))
      → Steady limit (j + k) (m >>= f)
  Steady-bind m f h s c l = Kept-bind f c (m c) l (h c l) s

module _ {limit : ℕ} where
  pub weaken {ℓ} : {A : Type ℓ} (k : ℕ) (m : Read A) → Steady limit k m → Steady limit 0 m
  weaken k m h c l = Kept-from k 0 0 c c (m c) (omega arith) (omega arith) (h c l)

  pub chain {ℓ κ} :
      {A : Type ℓ} {B : Type κ} (m : Read A) (f : A → Read B)
      → Steady limit 0 m
      → ((a : A) → Steady limit 0 (f a))
      → Steady limit 0 (m >>= f)
  chain = Steady-bind limit 0 0

  pub Steady-pure : {A : Type 0} (a : A) → Steady limit 0 (pure a)
  Steady-pure a c l = omega arith

  pub Steady-refused : (A : Type 0) → Steady limit 0 (lift {A = A} refused)
  Steady-refused A c l = tt

  pub Steady-if {ℓ} :
      {A : Type ℓ} (b : Bool) (m n : Read A)
      → Steady limit 0 m
      → Steady limit 0 n
      → Steady limit 0 (if b then m else n)
  Steady-if true m n h k = h
  Steady-if false m n h k = k

  Steady-first : (xs : Bytes) → Steady limit 0 (lift (present (first xs)))
  Steady-first [] c l = tt
  Steady-first (b ∷ xs) c l = omega arith

  take_bytes-Steady : (n : ℕ) → Steady limit n (take_bytes n)
  unfolding take_bytes
  take_bytes-Steady n c l =
      elim (Bool-cases (ltb (c.position + n) word && leb (c.position + n) (length c.bytes))) [
        | inl e ↦ rw e (ground arith)
        | inr e ↦ rw e tt
      ]

  pub take-Steady : (n : ℕ) → Steady limit 0 (take_bytes n)
  take-Steady n = weaken n (take_bytes n) (take_bytes-Steady n)

  skip-Steady : (n : ℕ) → Steady limit 0 (skip n)
  unfolding skip
  skip-Steady n = chain (take_bytes n) _ (take-Steady n) (λ a. Steady-pure tt)

  wide-Steady : (k m : ℕ) → Steady limit 0 (wide k m)
  unfolding wide
  wide-Steady k m = chain (take_bytes k) _ (take-Steady k) (λ xs.
      Steady-if (leb m (little_endian xs)) _ _ (Steady-pure (little_endian xs)) (Steady-refused ℕ))

  from_head-Steady : (b : ℕ) → Steady limit 0 (from_head b)
  unfolding from_head
  from_head-Steady b = Steady-if (b == 0xfd) _ _ (wide-Steady 2 _) (
      Steady-if (b == 0xfe) _ _ (wide-Steady 4 _)
        (Steady-if (b == 0xff) _ _ (wide-Steady 8 _) (Steady-pure b)))

  compact_size-takes : Steady limit 1 compact_size
  unfolding compact_size
  compact_size-takes =
      Steady-bind limit 1 0 (take_bytes 1) _ (take_bytes-Steady 1)
        (λ xs. chain (lift (present (first xs))) _ (Steady-first xs) from_head-Steady)

  compact_size-Steady : Steady limit 0 compact_size
  compact_size-Steady = weaken 1 compact_size compact_size-takes

  count-Steady : (size : ℕ) → Steady limit 0 (count size)
  unfolding count
  count-Steady size = chain compact_size _ compact_size-Steady fits-Steady
    where
      fits-Steady : (n : ℕ) → Steady limit 0 (fits size n)
      fits-Steady n c l = elim (Bool-cases (leb n (remaining c / size))) [
        | inl e ↦ rw e (omega arith)
        | inr e ↦ rw e tt
      ]

  pub repeat-Steady : (n : ℕ) (m : Read (Unit {0})) → Steady limit 0 m → Steady limit 0 (repeat n m)
  unfolding repeat
  repeat-Steady zero m h = Steady-pure tt
  repeat-Steady (suc n) m h = chain m _ h (λ a. repeat-Steady n m h)

  item-Steady : Steady limit 0 item
  unfolding item
  item-Steady = chain compact_size _ compact_size-Steady skip-Steady

  counted-Steady :
      (size : ℕ) (body : Read (Unit {0}))
      → Steady limit 0 body
      → Steady limit 0 (count size >>= λ n. repeat n body >>= λ _. pure n)
  counted-Steady size body h =
      chain (count size) _ (count-Steady size)
        (λ n. chain (repeat n body) _ (repeat-Steady n body h) (λ _. Steady-pure n))

  inputs-Steady : Steady limit 0 inputs
  unfolding inputs input
  inputs-Steady =
      counted-Steady 41 input
        (chain (skip 36) _ (skip-Steady 36) (λ _. chain item _ item-Steady (λ _. skip-Steady 4)))

  outputs-Steady : Steady limit 0 outputs
  unfolding outputs output
  outputs-Steady = counted-Steady 9 output (chain (skip 8) _ (skip-Steady 8) (λ _. item-Steady))

  pub unsigned_transaction-Steady : Steady limit 0 unsigned_transaction
  unfolding unsigned_transaction
  unsigned_transaction-Steady = chain (skip 4) _ (skip-Steady 4) (λ _.
      chain inputs _ inputs-Steady (λ i. chain outputs _ outputs-Steady (λ o.
        chain (skip 4) _ (skip-Steady 4)
          (λ _. Steady-pure {A = PsbtShape} (record { inputs = i; outputs = o })))))

  Steady-rest : (key : Bytes) → Steady limit 0 (pair_of key)
  unfolding pair_of
  Steady-rest [] = Steady-pure {A = Option Pair} none
  Steady-rest (t ∷ d) = chain compact_size _ compact_size-Steady (λ n.
      chain (take_bytes n) _ (take-Steady n) (λ v.
        Steady-pure {A = Option Pair} (some (record { key_type = t; key_data = d; value = v }))))

  -- A pair takes its length byte at least.
  pub pair-takes : Steady limit 1 pair
  unfolding pair
  pair-takes =
      Steady-bind limit 1 0 compact_size _ compact_size-takes
        (λ n. chain (take_bytes n) _ (take-Steady n) Steady-rest)
