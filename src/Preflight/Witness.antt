-- ===== src/Preflight/Witness.antt =====
-- `preflight::witness` against the consensus encoding of a witness.
use bip.Base.{
  ◌/◌, ◌≤◌, ◌<◌, ◌≡◌, refl, sym, ◌↔◌, arith, true, List, [], ◌∷◌, ◌++◌, append_assoc, Bytes, length,
  length-append, All, All-split, IsByte, concat_map,
}
use bip.Preflight.Cursor.{
  Cursor, Outcome, done, refused, out_of_fuel, new, word, count, compact_size,
}
use bip.Preflight.Formats.{item, witness_body, witness, accepts}
use bip.Preflight.Steps.{rest, At, Ran, Ran-bind, >>=-eq-done, skip-Ran, skip-done}
use bip.Preflight.CompactSize.{encode_size, length-encode_size, compact_size-Ran, compact_size-done}
use bip.Preflight.Loops.{count-Ran, count-done, repeat-Ran, repeat-done}

-- A byte string behind its length: a witness item, and a script in a transaction.
abbrev pub encode_item : Bytes → Bytes
encode_item xs = encode_size (length xs) ++ xs

-- A byte string whose length is a `u64`.
abbrev pub IsItem : Bytes → Type 0
IsItem xs = length xs < word

unfoldable pub encode_witness : List Bytes → Bytes
encode_witness items = encode_size (length items) ++ concat_map encode_item items

abbrev pub IsWitness : List Bytes → Type 0
IsWitness items = (length items < word) × All IsItem items

pub item-Ran :
    (xs : Bytes) (c : Cursor) (ys : Bytes)
    → IsItem xs
    → At c (encode_item xs ++ ys)
    → Ran item c tt ys
unfolding item
item-Ran xs c ys p at =
    Ran-bind compact_size _ c (length xs) (xs ++ ys)
      (compact_size-Ran (length xs) c _ p (rw append_assoc at at))
      (λ c' at'. skip-Ran (length xs) c' xs ys refl at')

pub item-done :
    (c c' : Cursor)
    → All IsByte (rest c)
    → item c ≡ done (tt, c')
    → (xs : Bytes) × IsItem xs × (rest c ≡ encode_item xs ++ rest c')
unfolding item
item-done c c' bs h =
    let (n, d, e, g) = >>=-eq-done compact_size _ c h in
    let (a, w) = compact_size-done n c d bs e in
    let (xs, b, l) = skip-done n d c' g in
    (xs, rw l w, rw (a, b, l) (sym (append_assoc (encode_size n) xs (rest c'))))

length-items : (items : List Bytes) → length items ≤ length (concat_map encode_item items)
length-items [] = omega arith
length-items (x ∷ xs) = omega (
  arith,
  length-append (encode_item x) (concat_map encode_item xs),
  length-append (encode_size (length x)) x,
  length-encode_size (length x),
  length-items xs,
)

pub witness_body-Ran :
    (items : List Bytes) (c : Cursor) (ys : Bytes)
    → IsWitness items
    → At c (encode_witness items ++ ys)
    → Ran witness_body c tt ys
unfolding witness_body encode_witness
witness_body-Ran items c ys (w, p) at =
    Ran-bind (count 1) _ c (length items) (concat_map encode_item items ++ ys)
      (count-Ran 1 (length items) c _ w fit (rw append_assoc at at))
      (λ c' at'. repeat-Ran encode_item IsItem item item-Ran items c' ys p at')
  where
    fit : length items ≤ length (concat_map encode_item items ++ ys) / 1
    fit = omega (arith, length-items items, length-append (concat_map encode_item items) ys)

pub witness_body-done :
    (c c' : Cursor)
    → All IsByte (rest c)
    → witness_body c ≡ done (tt, c')
    → (items : List Bytes) × IsWitness items × (rest c ≡ encode_witness items ++ rest c')
unfolding witness_body encode_witness
witness_body-done c c' bs h =
    let (n, d, e, g) = >>=-eq-done (count 1) _ c h in
    let (a, w, _) = count-done 1 n c d bs e in
    let (_, bd) = All-split IsByte (encode_size n) (rest d) (rw a at bs) in
    let (items, p, l, b) = repeat-done encode_item IsItem item item-done n d c' bd g in
    (
      items,
      (rw l w, p),
      rw (a, b, l) (sym (append_assoc (encode_size n) (concat_map encode_item items) (rest c'))),
    )

-- The read of a whole slice starts before all of it.
pub At-new : (bytes ys : Bytes) → length bytes < word → bytes ≡ ys → At (new bytes) ys
At-new bytes ys w e = record { ahead = e; within = omega arith; small = w }

pub accepts-done :
    (r : Outcome (Unit {0} × Cursor)) → accepts r ≡ true → (c : Cursor) × (r ≡ done (tt, c))
accepts-done (done r) h = (r.1, refl)
accepts-done refused h = cc
accepts-done out_of_fuel h = cc

-- On bytes of a slice, the check of a witness accepts exactly the byte strings that begin with
-- the consensus encoding of a witness.
pub witness_iff :
    (bytes : Bytes)
    → length bytes < word
    → All IsByte bytes
    → (witness bytes ≡ true) ↔ (
        (items : List Bytes) × (ys : Bytes) × IsWitness items
        × (bytes ≡ encode_witness items ++ ys))
unfolding witness
witness_iff bytes w bs = (
  λ h.
      let (c, e) = accepts-done (witness_body (new bytes)) h in
      let (items, p, a) = witness_body-done (new bytes) c bs e in (items, rest c, p, a),
  λ (items, ys, p, a).
      let (c, e, _) = witness_body-Ran items (new bytes) ys p (At-new bytes _ w a) in rw e,
)
