-- ===== src/Outpoints/Distinct.antt =====
-- transaction.rs: which outpoints `validate_outpoints` accepts.
use bip.Base.{
  ◌≡◌, ◌≢◌, refl, ap, ◌↔◌, arith, true, false, List, [], ◌∷◌, bytes_eq-eq, bytes_eq_refl, All, any,
  ◌||◌, Bool-cases, inl, inr, or-eq-false, not-eq-true,
}
use bip.Error.{ok, guard-eq-ok}
use bip.Bitcoin.Data.{OutPoint, Transaction}
use bip.Outpoints.Defs.{
  outpoint_eq, null_outpoint, contains, any_bad, outpoints, validate_outpoints,
}

pub outpoint_eq-eq : (a b : OutPoint) → outpoint_eq a b ≡ true → a ≡ b
unfolding outpoint_eq
outpoint_eq-eq a b h = ground (arith, bytes_eq-eq a.txid b.txid)

pub outpoint_eq_refl : (a : OutPoint) → outpoint_eq a a ≡ true
unfolding outpoint_eq
outpoint_eq_refl a = ground (arith, bytes_eq_refl a.txid)

-- An outpoint that is none of these.
abbrev pub Fresh : OutPoint → List OutPoint → Type 0
Fresh o seen = All (λ (s : OutPoint). o ≢ s) seen

-- No outpoint is null, none is in `seen`, and none stands twice.
abbrev pub Distinct : List OutPoint → List OutPoint → Type 0
Distinct seen [] = Unit
Distinct seen (o ∷ os) = (o ≢ null_outpoint) × Fresh o seen × Distinct (o ∷ seen) os

outpoint_ne : (a b : OutPoint) → (outpoint_eq a b ≡ false) ↔ (a ≢ b)
outpoint_ne a b = (
  λ h e. cc (h, outpoint_eq_refl b, ap (λ x. outpoint_eq x b) e),
  λ n. elim (Bool-cases (outpoint_eq a b)) [
    | inl e ↦ absurd (n (outpoint_eq-eq a b e))
    | inr e ↦ e
  ],
)

contains-Fresh : (o : OutPoint) (seen : List OutPoint) → (contains o seen ≡ false) ↔ Fresh o seen
unfolding contains
contains-Fresh o [] = (λ h. tt, λ h. refl)
contains-Fresh o (s ∷ seen) =
    let (to, from) = contains-Fresh o seen in
    let (split, join) = or-eq-false (outpoint_eq o s) (any (outpoint_eq o) seen) in
    let (ne, eq) = outpoint_ne o s in
    (λ h. let (a, b) = split h in (ne a, to b), λ h. join (eq h.0, from h.1))

any_bad-Distinct : (seen os : List OutPoint) → (any_bad seen os ≡ false) ↔ Distinct seen os
unfolding any_bad
any_bad-Distinct seen [] = (λ h. tt, λ h. refl)
any_bad-Distinct seen (o ∷ os) =
    let (to, from) = any_bad-Distinct (o ∷ seen) os in
    let (fresh, unfresh) = contains-Fresh o seen in
    let (ne, eq) = outpoint_ne o null_outpoint in
    let (split, join) =
      or-eq-false (outpoint_eq o null_outpoint || contains o seen) (any_bad (o ∷ seen) os) in
    let (split', join') = or-eq-false (outpoint_eq o null_outpoint) (contains o seen) in
    (
      λ h. let (ab, c) = split h in let (a, b) = split' ab in (ne a, fresh b, to c),
      λ (a, b, c). join (join' (eq a, unfresh b), from c),
    )

-- The outpoints of a transaction are accepted exactly if none is the null outpoint and no two are
-- the same.
pub validate_outpoints_iff :
    (tx : Transaction) → (validate_outpoints tx ≡ ok tt) ↔ Distinct [] (outpoints tx)
unfolding validate_outpoints
validate_outpoints_iff tx =
    let (to, from) = any_bad-Distinct [] (outpoints tx) in
    let (clear, set) = not-eq-true (any_bad [] (outpoints tx)) in
    (λ h. to (clear (guard-eq-ok _ _ h)), λ h. rw (set (from h)))
