-- ===== src/Prevouts/Agreement.antt =====
-- psbt/prevouts.rs: `resolve` and the claims that a PSBT makes on an output.
use bip.Base.{
  ℕ, ◌≡◌, ◌↔◌, refl, sym, ap, ◌∙◌, arith, inl, inr, true, Bool-cases, ◌||◌, Option, none, some,
  get_elem?, bytes_eq-eq, bytes_eq_refl, is_some, if◌then◌else◌,
}
use bip.Error.{ok, err, ◌>>=◌, ok_or, to_sign_invalid}
use bip.Bitcoin.Data.{TxOut, Transaction, OutPoint, PsbtInput}
use bip.Prevouts.Defs.{
  PrevoutResolver, txout_eq, previous_output?, outpoint, non_witness_tx, claimed, agreed, resolve,
}

pub txout_eq-eq : (a b : TxOut) → txout_eq a b ≡ true → a ≡ b
unfolding txout_eq
txout_eq-eq a b h = ground (arith, bytes_eq-eq a.script_pubkey b.script_pubkey)

pub txout_eq_refl : (a : TxOut) → txout_eq a a ≡ true
unfolding txout_eq
txout_eq_refl a = ground (arith, bytes_eq_refl a.script_pubkey)

-- The output `p` is what the optional claim says, if there is one.
abbrev pub Says : Option TxOut → TxOut → Type 0
Says none p = Unit
Says (some w) p = w ≡ p

-- The output `vout` of the optional transaction is `p`, if there is one.
abbrev pub Holds : Option Transaction → ℕ → TxOut → Type 0
Holds none vout p = Unit
Holds (some tx) vout p = get_elem? tx.output vout ≡ some p

-- All claims on the previous output of an input are `p`, and there is one.
abbrev pub Agree : Option TxOut → Option Transaction → ℕ → TxOut → Type 0
Agree w tx vout p = Says w p × Holds tx vout p × ((is_some w || is_some tx) ≡ true)

same_output :
    (w n p : TxOut)
    → ((if txout_eq w n then ok w else err to_sign_invalid) ≡ ok p) ↔ ((w ≡ p) × (n ≡ p))
same_output w n p = (
  λ h. elim (Bool-cases (txout_eq w n)) [
    | inl e ↦ let q : w ≡ p = cc (rw e at h) in (q, sym (txout_eq-eq w n e) ∙ q)
    | inr e ↦ cc (rw e at h)
  ],
  λ (a, b). rw (a, b, txout_eq_refl p),
)

-- The claims, with the output of the transaction looked up.
looked_up :
    (w o : Option TxOut) (p : TxOut)
    → (((ok_or o to_sign_invalid >>= λ a. ok (some a)) >>= λ n. agreed w n) ≡ ok p)
      ↔ (Says w p × (o ≡ some p))
unfolding agreed
looked_up w none p = (λ h. cc, λ h. cc h.1)
looked_up none (some n) p = (λ h. (tt, cc), λ h. cc h.1)
looked_up (some w) (some n) p =
    let (to, from) = same_output w n p in
    (λ h. let (a, b) = to h in (a, ap some b), λ (a, b). from (a, cc b))

is_some_or : (w : Option TxOut) → (is_some w || true) ≡ true
is_some_or none = refl
is_some_or (some w) = refl

claims_iff :
    (w : Option TxOut) (tx : Option Transaction) (vout : ℕ) (p : TxOut)
    → ((claimed tx vout >>= λ n. agreed w n) ≡ ok p) ↔ Agree w tx vout p
unfolding claimed agreed
claims_iff none none vout p = (λ h. cc, λ h. cc h.2)
claims_iff (some w) none vout p = (λ h. (cc, tt, refl), λ h. ap ok h.0)
claims_iff w (some tx) vout p =
    let (to, from) = looked_up w (get_elem? tx.output vout) p in
    (λ h. let (a, b) = to h in (a, b, is_some_or w), λ (a, b, _). from (a, b))

-- For an input that the PSBT and its unsigned transaction have, the previous output resolves to `p`
-- exactly if the witness UTXO and the transaction found for the input both claim `p`, as far as they
-- are given, and one is given.
pub resolve_iff :
    (r : PrevoutResolver) (index : ℕ) (i : PsbtInput) (o : OutPoint) (p : TxOut)
    → get_elem? r.psbt.inputs index ≡ some i
    → previous_output? r.psbt index ≡ some o
    → (resolve r index ≡ ok p) ↔ Agree i.witness_utxo (non_witness_tx r index) o.vout p
unfolding resolve outpoint
resolve_iff r index i o p h e =
    rw (h, e) (claims_iff i.witness_utxo (non_witness_tx r index) o.vout p)
