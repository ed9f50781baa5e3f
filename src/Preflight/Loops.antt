-- ===== src/Preflight/Loops.antt =====
-- `count` and the loops `for _ in 0..n`: reading what an encoder wrote, item by item.
use bip.Base.{
  ℕ, zero, suc, ◌*◌, ◌/◌, ◌≤◌, ◌<◌, ◌≡◌, refl, sym, ap, ◌∙◌, arith, List, [], ◌∷◌, ◌++◌,
  append_assoc, Bytes, length, length-append, length-drop, All, All-split, IsByte, concat_map,
}
use bip.Preflight.Cursor.{
  Cursor, Read, Outcome, done, ◌>>=◌, pure, word, fits, count, compact_size, repeat,
}
use bip.Preflight.Steps.{rest, At, Ran, Ran-bind, >>=-eq-done, length-rest}
use bip.Preflight.CompactSize.{encode_size, compact_size-Ran, compact_size-done}

-- A count is read if its items fit in what follows it.
pub count-Ran :
    (size n : ℕ) (c : Cursor) (ys : Bytes)
    → n < word
    → n ≤ length ys / size
    → At c (encode_size n ++ ys)
    → Ran (count size) c n ys
unfolding count
count-Ran size n c ys w l at =
    Ran-bind compact_size _ c n ys (compact_size-Ran n c ys w at)
      (λ c' at'. (c', fits_run c' at', at'))
  where
    fits_run : (c' : Cursor) → At c' ys → fits size n c' ≡ done (n, c')
    fits_run c' at' = rw (length-rest c' at') (ground arith)

fits-done :
    (size n m : ℕ) (c c' : Cursor)
    → fits size m c ≡ done (n, c')
    → (m ≡ n) × (c ≡ c') × (n ≤ length (rest c') / size)
unfolding fits
fits-done size n m c c' h = rw (length-drop c'.position c'.bytes) (ground arith)

-- A count that was read stood there, and its items fit.
pub count-done :
    (size n : ℕ) (c c' : Cursor)
    → All IsByte (rest c)
    → count size c ≡ done (n, c')
    → (rest c ≡ encode_size n ++ rest c') × (n < word) × (n ≤ length (rest c') / size)
unfolding count
count-done size n c c' bs h =
    let (m, d, e, g) = >>=-eq-done compact_size _ c h in
    let (a, w) = compact_size-done m c d bs e in
    let (k, s, l) = fits-done size n m d c' g in (rw (← s, ← k) a, rw (← k) w, l)

pub pure-done {ℓ} :
    {A : Type ℓ} (a b : A) (c c' : Cursor) → pure a c ≡ done (b, c') → (a ≡ b) × (c ≡ c')
pure-done a b c c' h = (cc, cc)

le_div : {a b d : ℕ} → 0 < d → d * a ≤ b → a ≤ b / d
le_div p h = grind arith

-- Items of a type `T`, written by `enc`, of those shapes that `P` admits, and the body that reads one.
module _ {T : Type 0} (enc : T → Bytes) (P : T → Type 0) (body : Read (Unit {0})) where
  pub repeat-Ran :
      ((t : T) (c : Cursor) (ys : Bytes) → P t → At c (enc t ++ ys) → Ran body c tt ys)
      → (ts : List T) (c : Cursor) (ys : Bytes) → All P ts
      → At c (concat_map enc ts ++ ys)
      → Ran (repeat (length ts) body) c tt ys
  unfolding repeat
  repeat-Ran one [] c ys p at = (c, refl, at)
  repeat-Ran one (t ∷ ts) c ys p at =
      Ran-bind body _ c tt (concat_map enc ts ++ ys) (one t c _ p.0 (rw append_assoc at at))
        (λ c' at'. repeat-Ran one ts c' ys p.1 at')

  pub repeat-done :
      ((c c' : Cursor)
        → All IsByte (rest c)
        → body c ≡ done (tt, c')
        → (t : T) × P t × (rest c ≡ enc t ++ rest c'))
      → (n : ℕ) (c c' : Cursor) → All IsByte (rest c)
      → repeat n body c ≡ done (tt, c')
      → (ts : List T) × All P ts × (length ts ≡ n) × (rest c ≡ concat_map enc ts ++ rest c')
  unfolding repeat
  repeat-done one zero c c' bs h = ([], tt, refl, ap rest (same h))
    where
      same : ◌≡◌ {A = Outcome (Unit {0} × Cursor)} (done (tt, c)) (done (tt, c')) → c ≡ c'
      same e = cc
  repeat-done one (suc n) c c' bs h =
      let (u, d, e, g) = >>=-eq-done body _ c h in
      let (t, p, a) = one c d bs e in
      let (_, bd) = All-split IsByte (enc t) (rest d) (rw a at bs) in
      let (ts, ps, l, r) = repeat-done one n d c' bd g in
      (
        t ∷ ts,
        (p, ps),
        ap suc l,
        rw (a, r) (sym (append_assoc (enc t) (concat_map enc ts) (rest c'))),
      )

  module _ (size : ℕ) (least : (t : T) → P t → size ≤ length (enc t)) where
    length-items : (ts : List T) → All P ts → size * length ts ≤ length (concat_map enc ts)
    length-items [] p = omega arith
    length-items (t ∷ ts) p =
        omega (arith, length-append (enc t) (concat_map enc ts), least t p.0, length-items ts p.1)

    -- A count, as many items, and the count returned: `inputs` and `outputs`.
    pub counted-Ran :
        0 < size
        → ((t : T) (c : Cursor) (ys : Bytes) → P t → At c (enc t ++ ys) → Ran body c tt ys)
        → (ts : List T) (c : Cursor) (ys : Bytes) → length ts < word
        → All P ts
        → At c ((encode_size (length ts) ++ concat_map enc ts) ++ ys)
        → Ran (count size >>= λ n. repeat n body >>= λ _. pure n) c (length ts) ys
    counted-Ran pos one ts c ys w p at =
        Ran-bind (count size) _ c (length ts) (concat_map enc ts ++ ys)
          (count-Ran size (length ts) c _ w fit (rw append_assoc at at))
          (λ c' at'.
            Ran-bind (repeat (length ts) body) _ c' tt ys (repeat-Ran one ts c' ys p at')
              (λ d atd. (d, refl, atd)))
      where
        fit : length ts ≤ length (concat_map enc ts ++ ys) / size
        fit = le_div pos (rw length-append (omega (arith, length-items ts p)))

  pub counted-done :
      (size : ℕ)
      → ((c c' : Cursor)
          → All IsByte (rest c)
          → body c ≡ done (tt, c')
          → (t : T) × P t × (rest c ≡ enc t ++ rest c'))
      → (n : ℕ) (c c' : Cursor) → All IsByte (rest c)
      → (count size >>= λ n. repeat n body >>= λ _. pure n) c ≡ done (n, c')
      → (ts : List T) × All P ts
        × (length ts ≡ n)
        × (length ts < word)
        × (rest c ≡ (encode_size (length ts) ++ concat_map enc ts) ++ rest c')
  counted-done size one n c c' bs h =
      let (m, d, e, g) = >>=-eq-done (count size) _ c h in
      let (u, d', e', g') = >>=-eq-done (repeat m body) _ d g in
      let (a, w, _) = count-done size m c d bs e in
      let (_, bd) = All-split IsByte (encode_size m) (rest d) (rw a at bs) in
      let (ts, p, l, b) = repeat-done one m d d' bd e' in
      let (k, s) = pure-done m n d' c' g' in
      (
        ts,
        p,
        l ∙ k,
        rw l w,
        rw (a, b, l, s) (sym (append_assoc (encode_size m) (concat_map enc ts) (rest c'))),
      )
