-- ===== src/Verify/Defs.antt =====
-- verify.rs: the verdict on the inputs of `to_sign`, and the simple and full formats.
use bip.Base.{
  ℕ, zero, suc, Bool, true, false, not, ◌&&◌, ◌||◌, Option, none, some, List, [], ◌∷◌, Bytes,
  length, any, leb, ◌==◌, if◌then◌else◌,
}
use bip.Error.{
  Error, Result, ok, err, ◌>>=◌, ◌>>◌, to_sign_invalid, code_separator, script_not_satisfied,
}
use bip.Bitcoin.Data.{Witness, TxIn, TxOut, Transaction, max_block_weight}
use bip.Bitcoin.Api.{Api}
use bip.Outpoints.Defs.{outpoint_eq}
use bip.Message.Defs.{
  create_to_spend, create_to_sign, default_locks, challenge_outpoint, is_bip322_output,
  require_simple_format,
}
use bip.Spend.Defs.{
  p2pkh, p2sh, p2wpkh, p2wsh, p2tr, unknown_witness, bare, spends_codeseparator,
  has_naked_zero_timelock,
}
use bip.Spend.Parse.{parse}
use bip.Spend.Kinds.{Kind}
use bip.Templates.Defs.{
  InputVerification, valid, inconclusive, LibSpend, verify_p2pkh, verify_p2wpkh,
  verify_p2sh_multisig, verify_p2wsh_multisig,
}
use bip.Taproot.Defs.{verify_p2tr}
use bip.Interpreter.Defs.{verify_with_interpreter}

-- `Verification`
pub data Verification : Type 0 where
  -- the time and the age
  valid_at : ℕ → ℕ → Verification
  inconclusive_proof : Verification
  invalid : Error → Verification

-- What the loop of `verify_spends` has found so far: an input that is inconclusive, or none.
abbrev pub note : InputVerification → Bool → Bool
note valid seen = seen
note inconclusive seen = true

-- `first.sequence`
abbrev first_sequence : List TxIn → ℕ
first_sequence [] = 0
first_sequence (i ∷ is) = i.sequence

-- The upgradeable rules, and the verdict if none applies.
unfoldable pub conclude : Transaction → Bool → Verification
conclude to_sign inconclusive_input =
    if inconclusive_input || not (to_sign.version == 0 || to_sign.version == 2)
    then inconclusive_proof
    else valid_at to_sign.lock_time (first_sequence to_sign.input)

module _ (lib : Api) where
  open lib use {Address, compute_txid, weight, extract_tx}

  -- The match of `verify_input` on the kind of the spend.
  unfoldable pub verify_kind : LibSpend lib → Kind lib → Result (Option InputVerification)
  verify_kind spend (p2pkh hash) = do verify_p2pkh lib spend hash; ok (some valid)
  verify_kind spend (p2sh redeem pushes) = verify_p2sh_multisig lib spend redeem pushes
  verify_kind spend (p2wpkh hash) = do verify_p2wpkh lib spend hash; ok (some valid)
  verify_kind spend (p2wsh witness_script) = verify_p2wsh_multisig lib spend witness_script
  verify_kind spend (p2tr output_key annex path) = verify_p2tr lib spend output_key annex path
  verify_kind spend unknown_witness = ok (some inconclusive)
  verify_kind spend bare = ok none

  unfoldable pub or_interpret : LibSpend lib → Option InputVerification → Result InputVerification
  or_interpret spend (some v) = ok v
  or_interpret spend none = verify_with_interpreter lib spend

  unfoldable pub verify_input : LibSpend lib → Result InputVerification
  unfolding verify_kind or_interpret
  verify_input spend =
      if has_naked_zero_timelock lib spend
      then err script_not_satisfied
      else do v ← verify_kind spend spend.kind; or_interpret spend v

  -- The loop of `verify_spends`.
  unfoldable pub verify_inputs : List (LibSpend lib) → Bool → Result Bool
  verify_inputs [] seen = ok seen
  verify_inputs (spend ∷ spends) seen = do
    v ← verify_input spend
    verify_inputs spends (note v seen)

  unfoldable pub verify_spends : Transaction → List (LibSpend lib) → Verification
  unfolding verify_inputs conclude
  verify_spends to_sign spends = elim to_sign.input [
    | [] ↦ invalid to_sign_invalid
    | i ∷ is ↦
        if any (spends_codeseparator lib) spends
        then invalid code_separator
        else elim (verify_inputs spends false) [
          | err e ↦ invalid e
          | ok seen ↦ conclude to_sign seen
        ]
  ]

  -- `parse_spends` for `n` inputs from `index` on.
  unfoldable pub parse_from : Transaction → List TxOut → ℕ → ℕ → Result (List (LibSpend lib))
  parse_from to_sign prevouts index zero = ok []
  parse_from to_sign prevouts index (suc n) = do
    spend ← parse lib to_sign prevouts index
    spends ← parse_from to_sign prevouts (suc index) n
    ok (spend ∷ spends)

  unfoldable pub parse_spends : Transaction → List TxOut → Result (List (LibSpend lib))
  unfolding parse_from
  parse_spends to_sign prevouts = parse_from to_sign prevouts 0 (length to_sign.input)

  -- Whether there is one input, and it spends the outpoint of `to_spend`.
  abbrev pub spends_challenge : Transaction → List TxIn → Bool
  spends_challenge to_spend (i ∷ []) =
      outpoint_eq i.previous_output (challenge_outpoint lib to_spend)
  spends_challenge to_spend [] = false
  spends_challenge to_spend (i ∷ j ∷ is) = false

  unfoldable pub check_to_sign : Transaction → Transaction → Bool
  check_to_sign to_spend to_sign =
      leb (weight to_sign) max_block_weight
      && spends_challenge to_spend to_sign.input
      && is_bip322_output lib to_sign.output

  -- `match parse_spends(..) { Ok(spends) => verify_spends(..), Err(error) => Invalid(error) }`
  unfoldable pub verdict : Transaction → Result (List (LibSpend lib)) → Verification
  verdict to_sign (ok spends) = verify_spends to_sign spends
  verdict to_sign (err e) = invalid e

  unfoldable pub verify_full : Address → Bytes → Transaction → Verification
  unfolding verdict
  verify_full address message to_sign =
      let to_spend = create_to_spend lib address message in
      if check_to_sign to_spend to_sign
      then verdict to_sign (parse_spends to_sign to_spend.output)
      else invalid to_sign_invalid

  -- `create_to_sign(..).extract_tx()`; `none` is a panic.
  unfoldable pub simple_to_sign : Address → Bytes → Witness → Option Transaction
  simple_to_sign address message signature =
      elim (create_to_sign lib (create_to_spend lib address message) (some signature)
        default_locks) [ none ↦ none | some psbt ↦ extract_tx psbt ]

  unfoldable pub after_extract : Address → Bytes → Option Transaction → Option Verification
  after_extract address message none = none
  after_extract address message (some to_sign) = some (verify_full address message to_sign)

  -- `verify_simple`; `none` is the panic of one of its `expect` calls.
  unfoldable pub verify_simple : Address → Bytes → Witness → Option Verification
  unfolding after_extract simple_to_sign
  verify_simple address message signature = elim (require_simple_format lib address) [
    | err e ↦ some (invalid e)
    | ok u ↦ after_extract address message (simple_to_sign address message signature)
  ]
