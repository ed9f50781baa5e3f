-- ===== src/Spend/Parse.antt =====
-- verify/spend.rs: the dispatch of `Spend::parse` on the spent output.
use bip.Base.{ℕ, false, none, some, List, get_elem?, take, drop, is_empty, if◌then◌else◌}
use bip.Error.{Result, ok, ◌>>=◌, ◌>>◌, guard, ok_or, invalid_witness, to_sign_invalid}
use bip.Bitcoin.Data.{Script, TxIn, TxOut, Transaction}
use bip.Bitcoin.Api.{Api}
use bip.Spend.Checks.{check_script}
use bip.Spend.Defs.{Spend, p2pkh, bare}
use bip.Spend.Kinds.{Kind, witness_kind, p2sh_kind}

module _ (lib : Api) where
  open lib use {
    XOnlyPublicKey, ControlBlock, hash160_from_slice, witness_version, is_p2sh, is_p2pkh,
  }

  unfoldable pub p2pkh_kind : Script → Result (Kind lib)
  p2pkh_kind script_pubkey = do
    hash ← ok_or (hash160_from_slice (take 20 (drop 3 script_pubkey))) to_sign_invalid
    ok (p2pkh hash)

  -- The arm for an output that is no witness program and not P2SH.
  unfoldable pub plain_kind : TxIn → Script → Result (Kind lib)
  unfolding p2pkh_kind
  plain_kind txin script_pubkey = do
    guard (is_empty txin.witness) invalid_witness
    if is_p2pkh script_pubkey then p2pkh_kind script_pubkey else ok bare

  unfoldable pub native_kind : TxIn → Script → ℕ → Result (Kind lib)
  native_kind txin script_pubkey version = do
    guard (is_empty txin.script_sig) to_sign_invalid
    witness_kind lib txin.witness version (drop 2 script_pubkey) false

  -- The `let kind = ...` of `Spend::parse`.
  unfoldable pub kind_of : TxIn → Script → Result (Kind lib)
  kind_of txin script_pubkey = elim (witness_version script_pubkey) [
    | some version ↦ native_kind txin script_pubkey version
    | none ↦
        if is_p2sh script_pubkey
        then p2sh_kind lib txin script_pubkey
        else plain_kind txin script_pubkey
  ]

  -- `Spend::parse`
  unfoldable pub parse : Transaction → List TxOut → ℕ → Result (Spend XOnlyPublicKey ControlBlock)
  parse to_sign prevouts input_index = do
    txin ← ok_or (get_elem? to_sign.input input_index) to_sign_invalid
    prevout ← ok_or (get_elem? prevouts input_index) to_sign_invalid
    check_script lib txin.script_sig
    check_script lib prevout.script_pubkey
    kind ← kind_of txin prevout.script_pubkey
    ok (record { to_sign = to_sign; input_index = input_index; prevouts = prevouts; kind = kind })
