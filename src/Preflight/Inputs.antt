-- ===== src/Preflight/Inputs.antt =====
-- `Cursor::inputs` and `Cursor::outputs` against the wire format of a transaction's inputs and
-- outputs.
use bip.Base.{
  ℕ, ◌≤◌, ◌<◌, ◌≡◌, sym, arith, List, ◌++◌, append_assoc, Bytes, length, length-append, All,
  All-split, IsByte, concat_map,
}
use bip.Preflight.Cursor.{Cursor, done, word, skip}
use bip.Preflight.Formats.{item, input, inputs, output, outputs}
use bip.Preflight.Steps.{rest, At, Ran, Ran-bind, >>=-eq-done, skip-Ran, skip-done}
use bip.Preflight.CompactSize.{encode_size, length-encode_size}
use bip.Preflight.Loops.{counted-Ran, counted-done}
use bip.Preflight.Witness.{encode_item, IsItem, item-Ran, item-done}

-- An input as its fields lie on the wire.
pub record RawInput : Type 0 where
  pub outpoint : Bytes
  pub script : Bytes
  pub sequence : Bytes

pub record RawOutput : Type 0 where
  pub value : Bytes
  pub script : Bytes

abbrev pub encode_input : RawInput → Bytes
encode_input i = i.outpoint ++ (encode_item i.script ++ i.sequence)

abbrev pub encode_output : RawOutput → Bytes
encode_output o = o.value ++ encode_item o.script

abbrev pub IsInput : RawInput → Type 0
IsInput i = (length i.outpoint ≡ 36) × IsItem i.script × (length i.sequence ≡ 4)

abbrev pub IsOutput : RawOutput → Type 0
IsOutput o = (length o.value ≡ 8) × IsItem o.script

unfoldable pub encode_inputs : List RawInput → Bytes
encode_inputs is = encode_size (length is) ++ concat_map encode_input is

unfoldable pub encode_outputs : List RawOutput → Bytes
encode_outputs os = encode_size (length os) ++ concat_map encode_output os

abbrev pub AreInputs : List RawInput → Type 0
AreInputs is = (length is < word) × All IsInput is

abbrev pub AreOutputs : List RawOutput → Type 0
AreOutputs os = (length os < word) × All IsOutput os

pub At-eq : {c : Cursor} {xs ys : Bytes} → At c xs → xs ≡ ys → At c ys
At-eq at e = rw e at at

input-Ran :
    (i : RawInput) (c : Cursor) (ys : Bytes)
    → IsInput i
    → At c (encode_input i ++ ys)
    → Ran input c tt ys
unfolding input
input-Ran i c ys (p, q, r) at =
    Ran-bind (skip 36) _ c tt (encode_item i.script ++ (i.sequence ++ ys))
      (skip-Ran 36 c i.outpoint _ p (At-eq at (simp append_assoc)))
      (λ c' at'.
        Ran-bind item _ c' tt (i.sequence ++ ys) (item-Ran i.script c' _ q at')
          (λ d atd. skip-Ran 4 d i.sequence ys r atd))

input-done :
    (c c' : Cursor)
    → All IsByte (rest c)
    → input c ≡ done (tt, c')
    → (i : RawInput) × IsInput i × (rest c ≡ encode_input i ++ rest c')
unfolding input
input-done c c' bs h =
    let (_, d, e, g) = >>=-eq-done (skip 36) _ c h in
    let (xs, a, l) = skip-done 36 c d e in
    let (_, bd) = All-split IsByte xs (rest d) (rw a at bs) in
    let (_, d', e', g') = >>=-eq-done item _ d g in
    let (s, p, b) = item-done d d' bd e' in
    let (zs, k, m) = skip-done 4 d' c' g' in
    (
      record { outpoint = xs; script = s; sequence = zs },
      (l, p, m),
      rw (a, b, k) (simp append_assoc),
    )

output-Ran :
    (o : RawOutput) (c : Cursor) (ys : Bytes)
    → IsOutput o
    → At c (encode_output o ++ ys)
    → Ran output c tt ys
unfolding output
output-Ran o c ys (p, q) at =
    Ran-bind (skip 8) _ c tt (encode_item o.script ++ ys)
      (skip-Ran 8 c o.value _ p (rw append_assoc at at)) (λ c' at'. item-Ran o.script c' ys q at')

output-done :
    (c c' : Cursor)
    → All IsByte (rest c)
    → output c ≡ done (tt, c')
    → (o : RawOutput) × IsOutput o × (rest c ≡ encode_output o ++ rest c')
unfolding output
output-done c c' bs h =
    let (u, d, e, g) = >>=-eq-done (skip 8) _ c h in
    let (xs, a, l) = skip-done 8 c d e in
    let (_, bd) = All-split IsByte xs (rest d) (rw a at bs) in
    let (s, p, b) = item-done d c' bd g in
    (
      record { value = xs; script = s },
      (l, p),
      rw (a, b) (sym (append_assoc xs (encode_item s) (rest c'))),
    )

pub inputs-Ran :
    (is : List RawInput) (c : Cursor) (ys : Bytes)
    → AreInputs is
    → At c (encode_inputs is ++ ys)
    → Ran inputs c (length is) ys
unfolding inputs encode_inputs
inputs-Ran is c ys (w, p) at =
    counted-Ran encode_input IsInput input 41 input_size (omega arith) input-Ran is c ys w p at
  where
    input_size : (i : RawInput) → IsInput i → 41 ≤ length (encode_input i)
    input_size i p = simp length-append (omega (arith, length-encode_size (length i.script)))

pub inputs-done :
    (n : ℕ) (c c' : Cursor)
    → All IsByte (rest c)
    → inputs c ≡ done (n, c')
    → (is : List RawInput) × AreInputs is × (length is ≡ n) × (rest c ≡ encode_inputs is ++ rest c')
unfolding inputs encode_inputs
inputs-done n c c' bs h =
    let (is, p, l, w, a) = counted-done encode_input IsInput input 41 input-done n c c' bs h in
    (is, (w, p), l, a)

pub outputs-Ran :
    (os : List RawOutput) (c : Cursor) (ys : Bytes)
    → AreOutputs os
    → At c (encode_outputs os ++ ys)
    → Ran outputs c (length os) ys
unfolding outputs encode_outputs
outputs-Ran os c ys (w, p) at =
    counted-Ran encode_output IsOutput output 9 output_size (omega arith) output-Ran os c ys w p at
  where
    output_size : (o : RawOutput) → IsOutput o → 9 ≤ length (encode_output o)
    output_size o p = simp length-append (omega (arith, length-encode_size (length o.script)))

pub outputs-done :
    (n : ℕ) (c c' : Cursor)
    → All IsByte (rest c)
    → outputs c ≡ done (n, c')
    → (os : List RawOutput) × AreOutputs os
      × (length os ≡ n)
      × (rest c ≡ encode_outputs os ++ rest c')
unfolding outputs encode_outputs
outputs-done n c c' bs h =
    let (os, p, l, w, a) = counted-done encode_output IsOutput output 9 output-done n c c' bs h in
    (os, (w, p), l, a)
