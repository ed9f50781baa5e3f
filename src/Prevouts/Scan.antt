-- ===== src/Prevouts/Scan.antt =====
-- psbt/prevouts.rs: the index that `PrevoutResolver::new` builds, and a scan over the inputs.
use bip.Base.{
  ℕ, zero, suc, ◌+◌, ◌<◌, ◌≡◌, refl, sym, ◌∙◌, arith, inl, inr, false, Bool-cases, Option-cases,
  Option, none, some, List, [], ◌∷◌, take, bytes_eq, bytes_eq-eq, bytes_eq_refl, if◌then◌else◌,
  is_some,
}
use bip.Error.{ok, >>=-eq-ok, guard, ok_or, to_sign_invalid}
use bip.Bitcoin.Data.{Txid, OutPoint, Transaction, Psbt, PsbtInput}
use bip.Bitcoin.Api.{Api}
use bip.Prevouts.Defs.{
  Entry, Map, get, or_insert, PrevoutResolver, previous_output?, up_to, non_witness_tx, index_tx,
  index_inputs, new,
}

abbrev or_else {ℓ} : {A : Type ℓ} → Option A → Option A → Option A
or_else (some a) o = some a
or_else none o = o

or_else-none {ℓ} : {A : Type ℓ} (o : Option A) → or_else o none ≡ o
or_else-none none = refl
or_else-none (some a) = refl

or_else_assoc {ℓ} :
    {A : Type ℓ} (a b c : Option A) → or_else (or_else a b) c ≡ or_else a (or_else b c)
or_else_assoc none b c = refl
or_else_assoc (some x) b c = refl

insert-hit :
    (t k : Txid) (e : Entry) (m : Map)
    → k ≡ t
    → get t (or_insert k e m) ≡ or_else (get t m) (some e)
unfolding get or_insert
insert-hit t k e m h = elim (Option-cases (get t m)) [
  | inl none' ↦ rw (h, none', bytes_eq_refl t)
  | inr (x, found) ↦ rw (h, found, found)
]

insert-miss :
    (t k : Txid) (e : Entry) (m : Map) → bytes_eq k t ≡ false → get t (or_insert k e m) ≡ get t m
unfolding get or_insert
insert-miss t k e m h = elim (Bool-cases (is_some (get k m))) [
  | inl found ↦ rw found
  | inr none' ↦ rw (none', h)
]

get-or_insert :
    (t k : Txid) (e : Entry) (m : Map)
    → get t (or_insert k e m) ≡ or_else (get t m) (if bytes_eq k t then some e else none)
get-or_insert t k e m = elim (Bool-cases (bytes_eq k t)) [
  | inl h ↦ rw h (insert-hit t k e m (bytes_eq-eq k t h))
  | inr h ↦ rw h (insert-miss t k e m h ∙ sym (or_else-none (get t m)))
]

module _ (lib : Api) where
  open lib use {compute_txid}

  -- The first transaction with txid `t` that an input map of the list carries.
  unfoldable pub carried : Txid → List PsbtInput → Option Transaction
  carried t [] = none
  carried t (i ∷ is) = elim i.non_witness_utxo [
    | none ↦ carried t is
    | some tx ↦ if bytes_eq (compute_txid tx) t then some tx else carried t is
  ]

  -- The same, with the input's index, for inputs from `index` on.
  find : Txid → ℕ → List PsbtInput → Option Entry
  find t index [] = none
  find t index (i ∷ is) = elim i.non_witness_utxo [
    | none ↦ find t (suc index) is
    | some tx ↦
        if bytes_eq (compute_txid tx) t
        then some (record { index = index; tx = tx })
        else find t (suc index) is
  ]

  -- What an input map that carries `o` adds to the answers.
  abbrev added : Txid → ℕ → Option Transaction → Option Entry
  added t index none = none
  added t index (some tx) =
      if bytes_eq (compute_txid tx) t then some (record { index = index; tx = tx }) else none

  get-index_tx :
      (psbt : Psbt) (index : ℕ) (o : Option Transaction) (m m' : Map) (t : Txid)
      → index_tx lib psbt index o m ≡ ok m'
      → get t m' ≡ or_else (get t m) (added t index o)
  unfolding index_tx
  get-index_tx psbt index none m m' t h =
      let e : m ≡ m' = cc in rw (← e) (sym (or_else-none (get t m)))
  get-index_tx psbt index (some tx) m m' t h =
      let (o, _, f) = >>=-eq-ok (ok_or (previous_output? psbt index) to_sign_invalid) _ h in
      let (_, _, g) = >>=-eq-ok (guard (bytes_eq (compute_txid tx) o.txid) to_sign_invalid) _ f in
      let e : or_insert (compute_txid tx) (record { index = index; tx = tx }) m ≡ m' = cc in
      rw (← e) (get-or_insert t (compute_txid tx) (record { index = index; tx = tx }) m)

  find-cons :
      (t : Txid) (index : ℕ) (i : PsbtInput) (is : List PsbtInput)
      → find t index (i ∷ is) ≡ or_else (added t index i.non_witness_utxo) (find t (suc index) is)
  unfolding find
  find-cons t index i is = ground arith

  -- The map answers with what it held, and else with the first input that carries the txid.
  get-index_inputs :
      (psbt : Psbt) (index : ℕ) (is : List PsbtInput) (m m' : Map) (t : Txid)
      → index_inputs lib psbt index is m ≡ ok m'
      → get t m' ≡ or_else (get t m) (find t index is)
  unfolding index_inputs
  get-index_inputs psbt index [] m m' t h =
      let e : m ≡ m' = cc in unfold find in rw (← e) (sym (or_else-none (get t m)))
  get-index_inputs psbt index (i ∷ is) m m' t h =
      let (d, e, f) = >>=-eq-ok (index_tx lib psbt index i.non_witness_utxo m) _ h in
      get-index_inputs psbt (suc index) is d m' t f
      ∙ rw (get-index_tx psbt index i.non_witness_utxo m d t e, find-cons)
          (or_else_assoc (get t m) _ _)

  -- An entry that lies behind `index` is not inherited.
  find_behind :
      (t : Txid) (index from : ℕ) (is : List PsbtInput)
      → index < from
      → up_to index (find t from is) ≡ none
  unfolding find up_to
  find_behind t index from [] h = refl
  find_behind t index from (i ∷ is) h =
      ground (arith, find_behind t index (suc from) is (omega arith))

  find-carried :
      (t : Txid) (index from k : ℕ) (is : List PsbtInput)
      → suc index ≡ from + k
      → up_to index (find t from is) ≡ carried t (take k is)
  unfolding find up_to carried
  find-carried t index from zero is h = find_behind t index from is (omega arith)
  find-carried t index from (suc k) [] h = refl
  find-carried t index from (suc k) (i ∷ is) h =
      ground (arith, find-carried t index (suc from) k is (omega arith))

  non_witness_tx-get :
      (psbt : Psbt) (m : Map) (index : ℕ) (o : OutPoint)
      → previous_output? psbt index ≡ some o
      → non_witness_tx (record { psbt = psbt; non_witness = m }) index ≡ up_to index (get o.txid m)
  unfolding non_witness_tx
  non_witness_tx-get psbt m index o e = rw (e, non_witness_tx)

  get-nil : (t : Txid) → get t [] ≡ none
  unfolding get
  get-nil t = refl

  -- The resolver that `new` builds answers for an input with the first transaction, among those that
  -- the input maps up to this one carry, whose txid the input spends.
  pub non_witness_tx-carried :
      (psbt : Psbt) (r : PrevoutResolver) (index : ℕ) (o : OutPoint)
      → new lib psbt ≡ ok r
      → previous_output? psbt index ≡ some o
      → non_witness_tx r index ≡ carried o.txid (take (suc index) psbt.inputs)
  unfolding new
  non_witness_tx-carried psbt r index o h e =
      let (m, f, g) = >>=-eq-ok (index_inputs lib psbt 0 psbt.inputs []) _ h in
      let s : record { psbt = psbt; non_witness = m } ≡ r = cc in
      let all : get o.txid m ≡ find o.txid 0 psbt.inputs =
        get-index_inputs psbt 0 psbt.inputs [] m o.txid f ∙ rw (get-nil o.txid) in
      rw (← s) (
        non_witness_tx-get psbt m index o e
        ∙ rw all (find-carried o.txid index 0 (suc index) psbt.inputs (omega arith)))
