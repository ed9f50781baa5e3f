-- ===== src/Preflight/CompactSize.antt =====
-- `Cursor::compact_size` against the encoding of Bitcoin's wire format.
use native.Mathlib.Nat.{pow-suc}
use native.Mathlib.Decide.{dec_lt, ℕ_discrete}
use bip.Base.{
  ◌≢◌, ℕ, zero, suc, ◌+◌, ◌*◌, ◌/◌, ◌%◌, ◌^◌, ◌≤◌, ◌<◌, ◌≡◌, refl, ap, arith, Bytes, [], ◌∷◌, ◌++◌,
  length, ltb, if◌then◌else◌, All, All-split, IsByte,
}
use bip.Preflight.Cursor.{
  Cursor, done, word, take_bytes, little_endian, at_least, wide, from_head, compact_size,
}
use bip.Preflight.Steps.{rest, At, Ran, Ran-bind, >>=-eq-done, take_bytes-Ran, take_bytes-done}

-- The `k` low bytes of `v`, lowest first.
unfoldable pub le_bytes : ℕ → ℕ → Bytes
le_bytes zero v = []
le_bytes (suc k) v = (v % 256) ∷ le_bytes k (v / 256)

-- The first byte of the shortest CompactSize of `v`, and what follows it.
unfoldable pub size_head : ℕ → ℕ
size_head v =
    if ltb v 0xfd
    then v
    else if ltb v 0x1_0000
    then 0xfd
    else if ltb v 0x1_0000_0000
    then 0xfe
    else 0xff

unfoldable pub size_tail : ℕ → Bytes
unfolding le_bytes
size_tail v =
    if ltb v 0xfd
    then []
    else if ltb v 0x1_0000
    then le_bytes 2 v
    else if ltb v 0x1_0000_0000
    then le_bytes 4 v
    else le_bytes 8 v

-- The shortest CompactSize of `v`, which is the only valid one.
unfoldable pub encode_size : ℕ → Bytes
encode_size v = size_head v ∷ size_tail v

length-le_bytes : (k v : ℕ) → length (le_bytes k v) ≡ k
unfolding le_bytes
length-le_bytes zero v = refl
length-le_bytes (suc k) v = ap suc (length-le_bytes k (v / 256))

little_endian-le_bytes : (k v : ℕ) → v < 256 ^ k → v < word → little_endian (le_bytes k v) ≡ v
unfolding little_endian le_bytes
little_endian-le_bytes zero v h w = omega arith
little_endian-le_bytes (suc k) v h w =
    omega (arith, little_endian-le_bytes k (v / 256) (omega (arith, pow-suc 256 k)) (omega arith))

little_endian-lt :
    (bs : Bytes) → All IsByte bs → 256 ^ length bs ≤ word → little_endian bs < 256 ^ length bs
unfolding little_endian
little_endian-lt [] h w = omega arith
little_endian-lt (b ∷ bs) h w =
    let p : 256 ^ suc (length bs) ≡ 256 ^ length bs * 256 = pow-suc 256 (length bs) in
    omega (arith, h.0, little_endian-lt bs h.1 (omega arith))

le_bytes-little_endian :
    (bs : Bytes)
    → All IsByte bs
    → 256 ^ length bs ≤ word
    → le_bytes (length bs) (little_endian bs) ≡ bs
unfolding little_endian le_bytes
le_bytes-little_endian [] h w = refl
le_bytes-little_endian (b ∷ bs) h w =
    let p : 256 ^ suc (length bs) ≡ 256 ^ length bs * 256 = pow-suc 256 (length bs) in
    let wide : 256 ^ length bs ≤ word = omega arith in
    let small : little_endian bs < 256 ^ length bs = little_endian-lt bs h.1 wide in
    let low : (little_endian bs * 256 % word + b) % 256 ≡ b = omega (arith, h.0) in
    let high : (little_endian bs * 256 % word + b) / 256 ≡ little_endian bs = omega (arith, h.0) in
    rw (low, high, le_bytes-little_endian bs h.1 wide)

-- Reading forwards: a value in its shortest form is read back.
wide-Ran :
    (k m v : ℕ) (c : Cursor) (ys : Bytes)
    → v < 256 ^ k
    → v < word
    → m ≤ v
    → At c (le_bytes k v ++ ys)
    → Ran (wide k m) c v ys
unfolding wide
wide-Ran k m v c ys h w l at =
    Ran-bind (take_bytes k) _ c (le_bytes k v) ys (take_bytes-Ran k c _ ys (length-le_bytes k v) at)
      (λ c' at'. (c', ground (arith, little_endian-le_bytes k v), at'))

-- The form of `k` bytes that begins with `b`, for values from `m` on.
abbrev Form : ℕ → ℕ → ℕ → ℕ → Type 0
Form v k m b =
    (size_head v ≡ b)
    × (size_tail v ≡ le_bytes k v)
    × (from_head b ≡ wide k m)
    × (m ≤ v)
    × (v < 256 ^ k)

Form-two : (v : ℕ) → 0xfd ≤ v → v < 0x1_0000 → Form v 2 0xfd 0xfd
unfolding size_head size_tail from_head
Form-two v l h = (ground arith, ground arith, refl, l, omega arith)

Form-four : (v : ℕ) → 0x1_0000 ≤ v → v < 0x1_0000_0000 → Form v 4 0x1_0000 0xfe
unfolding size_head size_tail from_head
Form-four v l h = (ground arith, ground arith, refl, l, omega arith)

Form-eight : (v : ℕ) → 0x1_0000_0000 ≤ v → v < word → Form v 8 0x1_0000_0000 0xff
unfolding size_head size_tail from_head
Form-eight v l h = (ground arith, ground arith, refl, l, omega arith)

Form-Ran :
    (v k m b : ℕ) (c : Cursor) (ys : Bytes)
    → Form v k m b
    → v < word
    → At c (size_tail v ++ ys)
    → Ran (from_head (size_head v)) c v ys
Form-Ran v k m b c ys (h, t, f, l, u) w at = rw (h, f) (wide-Ran k m v c ys u w l (rw t at at))

from_head_small : (v : ℕ) (c : Cursor) → v < 0xfd → from_head (size_head v) c ≡ done (v, c)
unfolding from_head size_head
from_head_small v c h = ground arith

size_tail_small : (v : ℕ) → v < 0xfd → size_tail v ≡ []
unfolding size_tail
size_tail_small v h = ground arith

from_head-Ran :
    (v : ℕ) (c : Cursor) (ys : Bytes)
    → v < word
    → At c (size_tail v ++ ys)
    → Ran (from_head (size_head v)) c v ys
from_head-Ran v c ys w at = elim (dec_lt v 0xfd) [
  | yes a ↦ (c, from_head_small v c a, rw (size_tail_small v a) at at)
  | no a ↦ elim (dec_lt v 0x1_0000) [
    | yes b ↦ Form-Ran v _ _ _ c ys (Form-two v (omega arith) b) w at
    | no b ↦ elim (dec_lt v 0x1_0000_0000) [
      | yes d ↦ Form-Ran v _ _ _ c ys (Form-four v (omega arith) d) w at
      | no d ↦ Form-Ran v _ _ _ c ys (Form-eight v (omega arith) w) w at
    ]
  ]
]

pub compact_size-Ran :
    (v : ℕ) (c : Cursor) (ys : Bytes)
    → v < word
    → At c (encode_size v ++ ys)
    → Ran compact_size c v ys
unfolding compact_size encode_size
compact_size-Ran v c ys w at =
    Ran-bind (take_bytes 1) _ c (size_head v ∷ []) (size_tail v ++ ys)
      (take_bytes-Ran 1 c (size_head v ∷ []) _ refl at) (λ c' at'. from_head-Ran v c' ys w at')

at_least-done :
    (m v x : ℕ) (c c' : Cursor) → at_least m x c ≡ done (v, c') → (x ≡ v) × (c ≡ c') × (m ≤ v)
unfolding at_least
at_least-done m v x c c' h = ground arith

wide-done :
    (k m v : ℕ) (c c' : Cursor)
    → All IsByte (rest c)
    → 256 ^ k ≤ word
    → wide k m c ≡ done (v, c')
    → (rest c ≡ le_bytes k v ++ rest c') × (m ≤ v) × (v < 256 ^ k)
unfolding wide
wide-done k m v c c' b w h =
    let (bs, d, e, g) = >>=-eq-done (take_bytes k) _ c h in
    let (a, l) = take_bytes-done k c bs d e in
    let (bb, _) = All-split IsByte bs (rest d) (rw a at b) in
    let (r, same, lo) = at_least-done m v (little_endian bs) d c' g in
    let hi = little_endian-lt bs bb (rw l w) in
    (rw (← same, ← r, ← l, le_bytes-little_endian bs bb (rw l w)) a, lo, rw (← r, ← l) hi)

-- What a CompactSize that begins with `b` was, if its tail begins with `wide`.
Form-done :
    (v k m b : ℕ) (c c' : Cursor)
    → (m ≤ v → v < 256 ^ k → Form v k m b)
    → All IsByte (rest c)
    → 256 ^ k ≤ word
    → wide k m c ≡ done (v, c')
    → (b ∷ rest c ≡ encode_size v ++ rest c') × (v < word)
unfolding encode_size
Form-done v k m b c c' form bs w h =
    let (a, l, u) = wide-done k m v c c' bs w h in
    let f = form l u in (rw (f.0, f.1, a), omega arith)

-- A first byte below the three marks is the value itself.
from_head_other :
    (b v : ℕ) (c c' : Cursor)
    → b ≢ 0xfd
    → b ≢ 0xfe
    → b ≢ 0xff
    → from_head b c ≡ done (v, c')
    → (b ≡ v) × (c ≡ c')
unfolding from_head
from_head_other b v c c' x y z h = ground arith

small-done :
    (b v : ℕ) (c c' : Cursor)
    → b < 0xfd
    → (b ≡ v) × (c ≡ c')
    → (b ∷ rest c ≡ encode_size v ++ rest c') × (v < word)
unfolding encode_size size_head size_tail
small-done b v c c' l (e, s) = (ground (arith, ap rest s), omega arith)

-- What `from_head` has read behind the byte `b`.
from_head-done :
    (b v : ℕ) (c c' : Cursor)
    → b < 256
    → All IsByte (rest c)
    → from_head b c ≡ done (v, c')
    → (b ∷ rest c ≡ encode_size v ++ rest c') × (v < word)
unfolding from_head
from_head-done b v c c' hb bs h = elim (ℕ_discrete b 0xfd) [
  | yes x ↦ rw x (Form-done v 2 _ 0xfd c c' (Form-two v) bs (omega arith) (rw x at h))
  | no x ↦ elim (ℕ_discrete b 0xfe) [
    | yes y ↦ rw y (Form-done v 4 _ 0xfe c c' (Form-four v) bs (omega arith) (rw y at h))
    | no y ↦ elim (ℕ_discrete b 0xff) [
      | yes z ↦ rw z (Form-done v 8 _ 0xff c c' (Form-eight v) bs (omega arith) (rw z at h))
      | no z ↦ small-done b v c c' (omega arith) (from_head_other b v c c' x y z h)
    ]
  ]
]

one_byte : (xs : Bytes) → length xs ≡ 1 → (b : ℕ) × (xs ≡ b ∷ [])
one_byte [] h = absurd (omega arith)
one_byte (b ∷ []) h = (b, refl)
one_byte (b ∷ d ∷ xs) h = absurd (omega arith)

-- Reading backwards: a value that was read stood there in its shortest form.
pub compact_size-done :
    (v : ℕ) (c c' : Cursor)
    → All IsByte (rest c)
    → compact_size c ≡ done (v, c')
    → (rest c ≡ encode_size v ++ rest c') × (v < word)
unfolding compact_size
compact_size-done v c c' bs h =
    let (xs, d, e, g) = >>=-eq-done (take_bytes 1) _ c h in
    let (a, l) = take_bytes-done 1 c xs d e in
    let (b, x) = one_byte xs l in
    let all = rw (a, x) at bs in
    let r = from_head-done b v d c' all.0 all.1 (rw x at g) in (rw (a, x) r.0, r.1)

pub length-encode_size : (v : ℕ) → 1 ≤ length (encode_size v)
unfolding encode_size
length-encode_size v = omega arith
