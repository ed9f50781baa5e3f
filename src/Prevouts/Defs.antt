-- ===== src/Prevouts/Defs.antt =====
-- psbt/prevouts.rs: `PrevoutResolver` and `checked_psbt_input_prevout`.
-- The hash map is an association list that holds each txid once: `new` only ever inserts a missing
-- key, and the map is never iterated over.
use bip.Base.{
  ℕ, suc, Bool, ◌||◌, ◌&&◌, Option, none, some, List, [], ◌∷◌, get_elem?, is_some, bytes_eq, leb,
  ◌==◌, if◌then◌else◌,
}
use bip.Error.{Result, ok, err, ◌>>=◌, ◌>>◌, guard, ok_or, to_sign_invalid}
use bip.Bitcoin.Data.{Txid, OutPoint, TxOut, Transaction, Psbt, PsbtInput}
use bip.Bitcoin.Api.{Api}
use bip.Script.Defs.{spends_witness}

-- A value of the map: the index of the input that carries the transaction, and the transaction.
pub record Entry : Type 0 where
  pub index : ℕ
  pub tx : Transaction

abbrev pub Map : Type 0
Map = List (Txid × Entry)

-- `HashMap::get`
unfoldable pub get : Txid → Map → Option Entry
get k [] = none
get k ((j, e) ∷ m) = if bytes_eq j k then some e else get k m

-- `map.entry(k).or_insert(e)`
unfoldable pub or_insert : Txid → Entry → Map → Map
or_insert k e m = if is_some (get k m) then m else (k, e) ∷ m

pub record PrevoutResolver : Type 0 where
  pub psbt : Psbt
  pub non_witness : Map

-- `==` of outputs
unfoldable pub txout_eq : TxOut → TxOut → Bool
txout_eq a b = a.value == b.value && bytes_eq a.script_pubkey b.script_pubkey

abbrev pub previous_output? : Psbt → ℕ → Option OutPoint
previous_output? psbt index = elim (get_elem? psbt.unsigned_tx.input index) [
  | none ↦ none
  | some i ↦ some i.previous_output
]

-- `PrevoutResolver::outpoint`
unfoldable pub outpoint : PrevoutResolver → ℕ → Result OutPoint
outpoint r index = ok_or (previous_output? r.psbt index) to_sign_invalid

-- The closure of `and_then`: only an earlier input's transaction is inherited.
unfoldable pub up_to : ℕ → Option Entry → Option Transaction
up_to index none = none
up_to index (some e) = if leb e.index index then some e.tx else none

-- `PrevoutResolver::non_witness_tx`. Its callers give an index of an input; elsewhere the source
-- panics, and this is `none`.
unfoldable pub non_witness_tx : PrevoutResolver → ℕ → Option Transaction
unfolding up_to
non_witness_tx r index = elim (previous_output? r.psbt index) [
  | none ↦ none
  | some o ↦ up_to index (get o.txid r.non_witness)
]

unfoldable pub has_non_witness : PrevoutResolver → ℕ → Bool
has_non_witness r index = is_some (non_witness_tx r index)

-- `tx.output.get(vout).cloned().ok_or(..)` under `map` and `transpose`
unfoldable pub claimed : Option Transaction → ℕ → Result (Option TxOut)
claimed none vout = ok none
claimed (some tx) vout = do o ← ok_or (get_elem? tx.output vout) to_sign_invalid; ok (some o)

-- The last two steps of `resolve`, on the witness and the non-witness output.
unfoldable pub agreed : Option TxOut → Option TxOut → Result TxOut
agreed (some w) (some n) = if txout_eq w n then ok w else err to_sign_invalid
agreed (some w) none = ok w
agreed none (some n) = ok n
agreed none none = err to_sign_invalid

-- `PrevoutResolver::resolve`
unfoldable pub resolve : PrevoutResolver → ℕ → Result TxOut
unfolding claimed agreed
resolve r index = do
  input ← ok_or (get_elem? r.psbt.inputs index) to_sign_invalid
  o ← outpoint r index
  non_witness ← claimed (non_witness_tx r index) o.vout
  agreed input.witness_utxo non_witness

module _ (lib : Api) where
  open lib use {compute_txid}

  -- The body of the loop of `new`, on an input map's transaction and the input's outpoint.
  unfoldable pub index_tx : Psbt → ℕ → Option Transaction → Map → Result Map
  index_tx psbt index none m = ok m
  index_tx psbt index (some tx) m = do
    o ← ok_or (previous_output? psbt index) to_sign_invalid
    let txid = compute_txid tx
    guard (bytes_eq txid o.txid) to_sign_invalid
    ok (or_insert txid (record { index = index; tx = tx }) m)

  -- The loop of `new`, from `index` on.
  unfoldable pub index_inputs : Psbt → ℕ → List PsbtInput → Map → Result Map
  unfolding index_tx
  index_inputs psbt index [] m = ok m
  index_inputs psbt index (i ∷ is) m = do
    m' ← index_tx psbt index i.non_witness_utxo m
    index_inputs psbt (suc index) is m'

  -- `PrevoutResolver::new`
  unfoldable pub new : Psbt → Result PrevoutResolver
  unfolding index_inputs
  new psbt = do m ← index_inputs psbt 0 psbt.inputs []; ok (record { psbt = psbt; non_witness = m })

  -- `psbt.inputs[index].redeem_script`; `resolve` has found that input.
  abbrev pub redeem_script_at : Psbt → ℕ → Option (List ℕ)
  redeem_script_at psbt index = elim (get_elem? psbt.inputs index) [
    | none ↦ none
    | some i ↦ i.redeem_script
  ]

  unfoldable pub checked_psbt_input_prevout : Psbt → PrevoutResolver → ℕ → Result TxOut
  checked_psbt_input_prevout psbt r index = do
    prevout ← resolve r index
    guard
        (spends_witness lib prevout.script_pubkey (redeem_script_at psbt index)
          || has_non_witness r index)
        to_sign_invalid
    ok prevout
