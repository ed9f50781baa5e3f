-- ===== src/Verify/Pof.antt =====
-- verify.rs: `verify_pof`.
use bip.Base.{
  ℕ, zero, suc, ◌-◌, Bool, false, not, ◌&&◌, Option, none, some, List, [], ◌∷◌, Bytes, length, any,
  bytes_eq, is_utf8, leb, ltb, ◌==◌, if◌then◌else◌,
}
use bip.Error.{Result, ok, err, ◌>>=◌, ◌>>◌, guard, to_sign_invalid, message_not_utf8}
use bip.Limits.{max_proof_inputs}
use bip.Bitcoin.Data.{TxIn, TxOut, Transaction, RawKey, Psbt, max_block_weight}
use bip.Bitcoin.Api.{Api}
use bip.Outpoints.Defs.{outpoint_eq, validate_psbt_structure}
use bip.Message.Defs.{create_to_spend, challenge_outpoint, is_bip322_output, signed_message_key}
use bip.Prevouts.Defs.{PrevoutResolver, new, resolve, has_non_witness, txout_eq}
use bip.Spend.Defs.{is_witness}
use bip.Templates.Defs.{LibSpend}
use bip.Verify.Defs.{Verification, inconclusive_proof, invalid, parse_spends, verify_spends}

-- `psbt.unknown.get(&key)`
unfoldable pub unknown_get : RawKey → List (RawKey × Bytes) → Option Bytes
unknown_get k [] = none
unknown_get k ((j, v) ∷ m) =
    if j.type_value == k.type_value && bytes_eq j.key k.key then some v else unknown_get k m

-- The check of the message field, if there is one.
unfoldable pub check_message : Option Bytes → Bytes → Result (Unit {0})
check_message none message = ok tt
check_message (some val) message = do
  guard (is_utf8 val) message_not_utf8
  guard (bytes_eq val message) to_sign_invalid

-- The resolved outputs of the inputs `index`, `index + 1`, and so on, `n` of them.
unfoldable pub resolve_from : PrevoutResolver → ℕ → ℕ → Result (List TxOut)
resolve_from r index zero = ok []
resolve_from r index (suc n) = do
  prevout ← resolve r index
  prevouts ← resolve_from r (suc index) n
  ok (prevout ∷ prevouts)

-- `to_spend.output[0]`, of which `create_to_spend` makes one.
abbrev pub challenge_output : Transaction → TxOut
challenge_output to_spend = elim to_spend.output [
  | [] ↦ record { value = 0; script_pubkey = [] }
  | o ∷ os ↦ o
]

module _ (lib : Api) where
  open lib use {Address, weight, extract_tx_unchecked_fee_rate}

  -- Whether the first input spends the outpoint of `to_spend`, and there is another.
  abbrev pub proves_more : Transaction → List TxIn → Bool
  proves_more to_spend [] = false
  proves_more to_spend (i ∷ is) =
      leb 2 (length (i ∷ is)) && outpoint_eq i.previous_output (challenge_outpoint lib to_spend)

  -- The checks on the PSBT up to the resolver.
  unfoldable pub check_pof : Transaction → Bytes → Psbt → Result (Unit {0})
  check_pof to_spend message psbt = do
    check_message (unknown_get signed_message_key psbt.unknown) message
    guard (proves_more to_spend psbt.unsigned_tx.input) to_sign_invalid
    validate_psbt_structure psbt
    guard
        (is_bip322_output lib psbt.unsigned_tx.output
          && leb (weight psbt.unsigned_tx) max_block_weight)
        to_sign_invalid

  -- All previous outputs: the challenge output, with which the PSBT's data on the first input has to
  -- agree, and the resolved outputs of the other inputs.
  unfoldable pub all_prevouts : Transaction → Psbt → PrevoutResolver → Result (List TxOut)
  all_prevouts to_spend psbt r = do
    first ← resolve r 0
    guard (txout_eq first (challenge_output to_spend)) to_sign_invalid
    others ← resolve_from r 1 (length psbt.unsigned_tx.input - 1)
    ok (challenge_output to_spend ∷ others)

  -- BIP-174: a legacy input without its previous transaction.
  abbrev pub lacks_tx : PrevoutResolver → LibSpend lib → Bool
  lacks_tx r spend = not (is_witness spend) && not (has_non_witness r spend.input_index)

  -- What `verify_pof` hands to `verify_spends`: the extracted transaction and its parsed inputs.
  unfoldable pub pof_spends :
      Transaction → Bytes → Psbt → Result (Transaction × List (LibSpend lib))
  unfolding check_pof all_prevouts
  pof_spends to_spend message psbt = do
    check_pof to_spend message psbt
    r ← new lib psbt
    prevouts ← all_prevouts to_spend psbt r
    let to_sign = extract_tx_unchecked_fee_rate psbt
    guard (leb (weight to_sign) max_block_weight) to_sign_invalid
    spends ← parse_spends lib to_sign prevouts
    guard (not (any (lacks_tx r) spends)) to_sign_invalid
    ok (to_sign, spends)

  unfoldable pub pof_verdict : Result (Transaction × List (LibSpend lib)) → Verification
  pof_verdict (ok (to_sign, spends)) = verify_spends lib to_sign spends
  pof_verdict (err e) = invalid e

  unfoldable pub verify_pof : Address → Bytes → Psbt → Verification
  unfolding pof_spends pof_verdict
  verify_pof address message psbt =
      if ltb max_proof_inputs (length psbt.unsigned_tx.input)
      then inconclusive_proof
      else pof_verdict (pof_spends (create_to_spend lib address message) message psbt)
