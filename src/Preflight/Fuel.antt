-- ===== src/Preflight/Fuel.antt =====
-- verify/preflight.rs: the rounds that the loops of `preflight::psbt` are given.
use native.Mathlib.Nat.{le_refl}
use bip.Base.{
  ℕ, zero, suc, ◌+◌, ◌≤◌, ◌<◌, ◌≢◌, refl, arith, Option, none, some, Bytes, length, bytes_eq,
}
use bip.Preflight.Cursor.{
  Cursor, Outcome, done, refused, out_of_fuel, bind, lift, present, new, remaining, take_bytes,
  repeat,
}
use bip.Preflight.Formats.{PsbtShape}
use bip.Preflight.Psbt.{
  Pair, pair, for_pairs, whole_shape, global_pair, input_pair, output_pair, psbt_magic, magic, maps,
  psbt,
}
use bip.Preflight.Steady.{
  Kept, Kept-from, Steady, chain, Steady-pure, Steady-refused, Steady-if, take-Steady,
  repeat-Steady, pair-takes, unsigned_transaction-Steady,
}

-- One round: with a byte or more taken, the rounds that are left are enough for the bytes left.
module _ {S : Type 0} (fuel : ℕ) (body : S → Pair → Outcome S)
    (again : (s : S) → Steady fuel 0 (for_pairs fuel body s)) (c : Cursor)
    (l : remaining c < suc fuel) where
  body_round :
      (c' : Cursor) (r : Outcome S)
      → remaining c' + 1 ≤ remaining c
      → r ≢ out_of_fuel
      → Kept 0 c (bind r (λ s'. for_pairs fuel body s' c'))
  body_round c' (done s') k n = Kept-from 0 1 0 c c' _ k (omega arith) (again s' c' (omega arith))
  body_round c' refused k n = tt
  body_round c' out_of_fuel k n = n refl

  pair_round :
      (s : S) (r : Outcome (Option Pair × Cursor))
      → ((p : Pair) → body s p ≢ out_of_fuel)
      → Kept 1 c r
      → Kept 0 c (
          bind r (λ (next, c'). elim next [
            | none ↦ done (s, c')
            | some p ↦ bind (body s p) (λ s'. for_pairs fuel body s' c')
          ]))
  pair_round s (done (none, c')) e k = omega arith
  pair_round s (done (some p, c')) e k = body_round c' (body s p) k (e p)
  pair_round s refused e k = tt
  pair_round s out_of_fuel e k = k

for_pairs-Steady :
    {S : Type 0} (fuel : ℕ) (body : S → Pair → Outcome S)
    → ((s : S) (p : Pair) → body s p ≢ out_of_fuel)
    → (s : S) → Steady fuel 0 (for_pairs fuel body s)
unfolding for_pairs
for_pairs-Steady zero body e s c l = absurd (omega arith)
for_pairs-Steady (suc fuel) body e s c l =
    pair_round fuel body (for_pairs-Steady fuel body e) c l s (pair c) (e s) (pair-takes c l)

Kept-ne {ℓ} :
    {A : Type ℓ} (k : ℕ) (c : Cursor) (r : Outcome (A × Cursor)) → Kept k c r → r ≢ out_of_fuel
Kept-ne k c (done r) h e = cc
Kept-ne k c refused h e = cc
Kept-ne k c out_of_fuel h e = h

global_pair-ends : (s : Option PsbtShape) (p : Pair) → global_pair s p ≢ out_of_fuel
unfolding global_pair whole_shape
global_pair-ends s p =
    ground
      (arith, Kept-ne 0 (new p.value) _ (unsigned_transaction-Steady (new p.value) (le_refl _)))

input_pair-ends : (u : Unit {0}) (p : Pair) → input_pair u p ≢ out_of_fuel
unfolding input_pair
input_pair-ends u p = ground arith

output_pair-ends : (u : Unit {0}) (p : Pair) → output_pair u p ≢ out_of_fuel
unfolding output_pair
output_pair-ends u p e = cc

maps-Steady : (fuel : ℕ) → Steady fuel 0 (maps fuel)
unfolding maps
maps-Steady fuel =
    chain (for_pairs fuel global_pair none) _
      (for_pairs-Steady fuel global_pair global_pair-ends none)
      (λ found. chain (lift (present found)) _ (Steady-present found) (λ s.
        chain (repeat s.inputs _) _
          (repeat-Steady s.inputs _ (for_pairs-Steady fuel input_pair input_pair-ends tt))
          (λ _.
            chain (repeat s.outputs _) _
              (repeat-Steady s.outputs _ (for_pairs-Steady fuel output_pair output_pair-ends tt))
              (λ _. Steady-pure s))))
  where
    Steady-present : (o : Option PsbtShape) → Steady fuel 0 (lift (present o))
    Steady-present none c l = tt
    Steady-present (some s) c l = omega arith

magic-Steady : {limit : ℕ} → Steady limit 0 magic
unfolding magic
magic-Steady =
    chain (take_bytes 5) _ (take-Steady 5)
      (λ xs. Steady-if (bytes_eq xs psbt_magic) _ _ (Steady-pure tt) (Steady-refused (Unit {0})))

bind_done-ne :
    (r : Outcome (PsbtShape × Cursor)) → r ≢ out_of_fuel → bind r (λ (s, c). done s) ≢ out_of_fuel
bind_done-ne (done r) h = λ e. cc
bind_done-ne refused h = λ e. cc
bind_done-ne out_of_fuel h = absurd (h refl)

-- The check of a PSBT ends on every byte string: its loops over the maps never run out of rounds.
pub psbt-ne-out_of_fuel : (bytes : Bytes) → psbt bytes ≢ out_of_fuel
unfolding psbt
psbt-ne-out_of_fuel bytes =
    let fuel : ℕ = suc (length bytes) in
    bind_done-ne _ (
      Kept-ne 0 (new bytes) _ (
        chain magic (λ _. maps fuel) magic-Steady (λ _. maps-Steady fuel) (new bytes)
          (omega arith)))
