-- ===== src/Preflight/Steps.antt =====
-- How a `Read` moves over the bytes that are left, in both directions: what it does on a known
-- rest, and what a read that was done has passed over.
use bip.Base.{
  ℕ, ◌+◌, ◌≤◌, ◌<◌, ◌≡◌, refl, sym, ap, ◌∙◌, arith, ◌++◌, Bytes, length, take, drop,
  take-append-drop, length-take, length-drop, take-append, drop-append, drop-drop, length-append,
}
use bip.Preflight.Cursor.{
  Outcome, done, refused, out_of_fuel, bind, Cursor, Read, ◌>>=◌, remaining, word, take_bytes, skip,
}

-- What the cursor has not passed yet.
abbrev pub rest : Cursor → Bytes
rest c = drop c.position c.bytes

-- The cursor stands before `ys`, in a slice whose length is a `usize`.
pub record At (c : Cursor) (ys : Bytes) : Type 0 where
  pub ahead : rest c ≡ ys
  pub within : c.position ≤ length c.bytes
  pub small : length c.bytes < word

-- `m` is done with `a` and leaves the cursor before `ys`.
abbrev pub Ran {ℓ} : {A : Type ℓ} → Read A → Cursor → A → Bytes → Type ℓ
Ran m c a ys = (c' : Cursor) × (m c ≡ done (a, c')) × At c' ys

pub Ran-bind {ℓ κ} :
    {A : Type ℓ} {B : Type κ} (m : Read A) (f : A → Read B) (c : Cursor) (a : A) (ys : Bytes)
    {b : B} {zs : Bytes}
    → Ran m c a ys
    → ((c' : Cursor) → At c' ys → Ran (f a) c' b zs)
    → Ran (m >>= f) c b zs
Ran-bind m f c a ys (c', e, at) k = let (c'', e', at') = k c' at in (c'', rw e e', at')

bind-eq-done {ℓ κ} :
    {A : Type ℓ} {B : Type κ} (r : Outcome A) (f : A → Outcome B) {b : B}
    → bind r f ≡ done b
    → (a : A) × (r ≡ done a) × (f a ≡ done b)
bind-eq-done (done a) f h = (a, refl, h)
bind-eq-done refused f h = cc
bind-eq-done out_of_fuel f h = cc

-- Inversion of a read that was done.
pub >>=-eq-done {ℓ κ} :
    {A : Type ℓ} {B : Type κ} (m : Read A) (f : A → Read B) (c : Cursor) {b : B} {c'' : Cursor}
    → (m >>= f) c ≡ done (b, c'')
    → (a : A) × (c' : Cursor) × (m c ≡ done (a, c')) × (f a c' ≡ done (b, c''))
>>=-eq-done m f c h = let (p, e, k) = bind-eq-done (m c) (λ (a, c'). f a c') h in (p.0, p.1, e, k)

-- The rest of the slice, measured.
pub length-rest : (c : Cursor) {ys : Bytes} → At c ys → remaining c ≡ length ys
length-rest c at = omega (arith, length-drop c.position c.bytes, ap (length {A = ℕ}) at.ahead)

module _ (n : ℕ) (c : Cursor) (xs ys : Bytes) (e : length xs ≡ n) (at : At c (xs ++ ys)) where
  end_within : c.position + n ≤ length c.bytes
  end_within = let w = at.within in omega (arith, length-rest c at, length-append xs ys)

  take-rest : take n (rest c) ≡ xs
  take-rest = rw (at.ahead, ← e) (take-append xs ys)

  At-advance : At (record c { position = c.position + n }) ys
  At-advance = record {
    ahead =
        sym (drop-drop c.position n (c.position + n) c.bytes refl)
        ∙ rw (at.ahead, ← e) (drop-append xs ys);
    within = end_within;
    small = at.small;
  }

  -- A read of a slice that is there.
  pub take_bytes-Ran : Ran (take_bytes n) c xs ys
  unfolding take_bytes
  take_bytes-Ran = (
    record c { position = c.position + n },
    ground (arith, end_within, at.small, take-rest),
    At-advance,
  )

  pub skip-Ran : Ran (skip n) c tt ys
  unfolding skip
  skip-Ran = Ran-bind (take_bytes n) _ c xs ys take_bytes-Ran (λ c' at'. (c', refl, at'))

-- A read that was done took `n` bytes, and stands in the same slice.
pub take_bytes-done :
    (n : ℕ) (c : Cursor) (xs : Bytes) (c' : Cursor)
    → take_bytes n c ≡ done (xs, c')
    → (rest c ≡ xs ++ rest c') × (length xs ≡ n)
unfolding take_bytes
take_bytes-done n c xs c' h = (
  ground (
    arith,
    sym (take-append-drop n (rest c)),
    drop-drop c.position n (c.position + n) c.bytes refl,
  ),
  ground (arith, length-take n (rest c), length-drop c.position c.bytes),
)

pub skip-done :
    (n : ℕ) (c c' : Cursor)
    → skip n c ≡ done (tt, c')
    → (xs : Bytes) × (rest c ≡ xs ++ rest c') × (length xs ≡ n)
unfolding skip
skip-done n c c' h =
    let (xs, d, e, k) = >>=-eq-done (take_bytes n) _ c h in
    let (a, l) = take_bytes-done n c xs d e in let same : d ≡ c' = cc in (xs, rw (← same) a, l)
