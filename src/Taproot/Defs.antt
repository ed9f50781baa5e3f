-- ===== src/Taproot/Defs.antt =====
-- verify/taproot.rs: key-path and script-path spends.
use bip.Base.{
  ℕ, Bool, true, false, not, ◌&&◌, ◌||◌, Option, none, some, List, [], ◌∷◌, Bytes, length,
  get_elem?, take, any, is_empty, is_some, ltb, ◌==◌, if◌then◌else◌,
}
use bip.Error.{
  Result, ok, err, ◌>>=◌, ◌>>◌, guard, ok_or, invalid_witness, to_sign_invalid, signature_length,
  signature_invalid, sig_hash_type_invalid, sig_hash_type_unsupported, script_not_satisfied,
  invalid_public_key,
}
use bip.Limits.{max_stack_size}
use bip.Bitcoin.Data.{
  Script, Decoded, good, bad, Instruction, push_bytes, op, op_checksig, TapSighashType,
  leaf_tapscript, max_script_element_size,
}
use bip.Bitcoin.Api.{Api}
use bip.Bound.{CommittedLeaf, commit}
use bip.Spend.Defs.{TaprootPath, key, script, taproot_stack}
use bip.Templates.Defs.{InputVerification, valid, inconclusive, LibSpend}
use bip.Interpreter.Defs.{require_tap_all, verify_taproot_annex_required_rules}

-- `SimpleTapscript`, with the type of keys as a parameter.
pub data SimpleTapscript (X : Type 0) : Type 0 where
  single_key : X → Bytes → SimpleTapscript X
  unknown_key : SimpleTapscript X

-- The element of the slice at 64; the length has been found to be 65.
abbrev pub last_byte : Bytes → ℕ
last_byte encoded = elim (get_elem? encoded 64) [ none ↦ 0 | some b ↦ b ]

-- `tapscript.instructions_minimal().any(|instruction| instruction.is_err())`
abbrev is_bad : Decoded → Bool
is_bad (good i) = false
is_bad bad = true

-- The key of the template `<key> OP_CHECKSIG`.
unfoldable pub template_key : List Decoded → Option Bytes
template_key (good (push_bytes k) ∷ good (op o) ∷ []) = if o == op_checksig then some k else none
template_key _ = none

-- `let (1, Some(signature)) = (stack_len, first)`
unfoldable pub only_item : ℕ → Option Bytes → Result Bytes
only_item stack_len none = err invalid_witness
only_item stack_len (some signature) = if stack_len == 1 then ok signature else err invalid_witness

-- `.next()`
abbrev next : List Bytes → Option Bytes
next [] = none
next (x ∷ xs) = some x

abbrev pub satisfied : Option Bytes → InputVerification
satisfied annex = if is_some annex then inconclusive else valid

module _ (lib : Api) where
  open lib use {
    XOnlyPublicKey, SchnorrSignature, ControlBlock, x_only_from_slice, schnorr_from_slice,
    tap_sighash_from_consensus, verify_schnorr_sig, taproot_signature_hash, tap_leaf_hash,
    annex_new, instructions_minimal, is_success_op, read_scriptbool,
  }

  -- The match of `parse_taproot_signature` on the length.
  unfoldable pub split_signature : Bytes → Result (SchnorrSignature × TapSighashType)
  split_signature encoded =
      if length encoded == 65 && last_byte encoded == 0
      then err (sig_hash_type_unsupported 0)
      else if length encoded == 65
      then (do
        s ← ok_or (schnorr_from_slice (take 64 encoded)) signature_invalid
        t ← ok_or (tap_sighash_from_consensus (last_byte encoded)) sig_hash_type_invalid
        ok (s, t))
      else if length encoded == 64
      then (do
        s ← ok_or (schnorr_from_slice encoded) signature_invalid
        ok (s, TapSighashType.default))
      else err (signature_length (length encoded) encoded)

  unfoldable pub parse_taproot_signature : Bytes → Result (SchnorrSignature × TapSighashType)
  unfolding split_signature
  parse_taproot_signature encoded = do
    (s, t) ← split_signature encoded
    require_tap_all t
    ok (s, t)

  -- `annex.map(sighash::Annex::new).transpose()`
  unfoldable pub annex_arg : Option Bytes → Result (Option Bytes)
  annex_arg none = ok none
  annex_arg (some a) = do x ← ok_or (annex_new a) invalid_witness; ok (some x)

  -- `leaf_hash.map(|leaf_hash| (leaf_hash, 0xffff_ffff))`
  abbrev pub leaf_arg : Option Bytes → Option (Bytes × ℕ)
  leaf_arg none = none
  leaf_arg (some h) = some (h, 0xffff_ffff)

  unfoldable pub verify_schnorr :
      LibSpend lib → Option Bytes → Option Bytes → Bytes → XOnlyPublicKey → Result (Unit {0})
  unfolding annex_arg
  verify_schnorr spend annex leaf_hash encoded_signature public_key = do
    (signature, sighash_type) ← parse_taproot_signature encoded_signature
    annex' ← annex_arg annex
    sighash ←
        ok_or
          (taproot_signature_hash spend.to_sign spend.input_index spend.prevouts annex'
            (leaf_arg leaf_hash) sighash_type)
          to_sign_invalid
    guard (verify_schnorr_sig signature sighash public_key) signature_invalid

  abbrev is_success : Instruction → Bool
  is_success (op o) = is_success_op o
  is_success (push_bytes bs) = false

  -- The loop of `contains_op_success`.
  unfoldable pub success_loop : List Decoded → Bool
  success_loop [] = false
  success_loop (good i ∷ ds) = is_success i || success_loop ds
  success_loop (bad ∷ ds) = false

  unfoldable pub contains_op_success : Script → Bool
  unfolding success_loop
  contains_op_success tapscript = success_loop (instructions_minimal tapscript)

  -- `parse_simple_tapscript` on a script of the template with the key bytes `k`.
  unfoldable pub simple_tapscript :
      Bytes → ℕ → Option Bytes → Result (Option (SimpleTapscript XOnlyPublicKey))
  unfolding only_item
  simple_tapscript k stack_len first = do
    signature ← only_item stack_len first
    guard (not (is_empty signature)) script_not_satisfied
    guard (not (ltb max_script_element_size (length k))) invalid_witness
    guard (not (is_empty k)) script_not_satisfied
    if length k == 32
        then (do
          x ← ok_or (x_only_from_slice k) invalid_public_key
          ok (some (single_key x signature)))
        else ok (some unknown_key)

  unfoldable pub parse_simple_tapscript :
      Script → ℕ → Option Bytes → Result (Option (SimpleTapscript XOnlyPublicKey))
  unfolding simple_tapscript template_key
  parse_simple_tapscript tapscript stack_len first =
      elim (template_key (instructions_minimal tapscript)) [
        | none ↦ ok none
        | some k ↦ simple_tapscript k stack_len first
      ]

  -- `spend.taproot_stack().next().is_some_and(read_scriptbool)`
  abbrev first_is_true : List Bytes → Bool
  first_is_true [] = false
  first_is_true (x ∷ xs) = read_scriptbool x

  -- The last match of `verify_p2tr`.
  unfoldable pub by_template :
      LibSpend lib
      → Option Bytes
      → Script
      → Option (SimpleTapscript XOnlyPublicKey)
      → Result (Option InputVerification)
  by_template spend annex tapscript (some unknown_key) = ok (some inconclusive)
  by_template spend annex tapscript (some (single_key k signature)) = do
    verify_schnorr spend annex (some (tap_leaf_hash tapscript)) signature k
    ok (some (satisfied annex))
  by_template spend (some a) tapscript none = do
    verify_taproot_annex_required_rules lib spend
    ok (some inconclusive)
  by_template spend none tapscript none = ok none

  -- `verify_p2tr` on the script of a committed tapscript leaf.
  unfoldable pub verify_tapscript :
      LibSpend lib → Option Bytes → Script → ℕ → Result (Option InputVerification)
  unfolding by_template
  verify_tapscript spend annex tapscript stack_len =
      if contains_op_success tapscript
      then ok (some inconclusive)
      else if ltb max_stack_size stack_len
          || any (λ item. ltb max_script_element_size (length item)) (taproot_stack spend)
      then err invalid_witness
      else if any is_bad (instructions_minimal tapscript)
      then err invalid_witness
      else if is_empty tapscript
      then (do
        guard (stack_len == 1 && first_is_true (taproot_stack spend)) script_not_satisfied
        ok (some (satisfied annex)))
      else do
        template ← parse_simple_tapscript tapscript stack_len (next (taproot_stack spend))
        by_template spend annex tapscript template

  -- `verify_p2tr` on a leaf that the output key commits to.
  unfoldable pub verify_leaf :
      LibSpend lib → Option Bytes → CommittedLeaf → ℕ → Result (Option InputVerification)
  unfolding verify_tapscript
  verify_leaf spend annex leaf stack_len =
      if leaf.version == leaf_tapscript
      then verify_tapscript spend annex leaf.script stack_len
      else ok (some inconclusive)

  unfoldable pub verify_p2tr :
      LibSpend lib
      → XOnlyPublicKey
      → Option Bytes
      → TaprootPath ControlBlock
      → Result (Option InputVerification)
  unfolding verify_leaf
  verify_p2tr spend output_key annex (key signature) = do
    verify_schnorr spend annex none signature output_key
    ok (some (satisfied annex))
  verify_p2tr spend output_key annex (script leaf) = do
    committed ← ok_or (commit lib leaf output_key) script_not_satisfied
    verify_leaf spend annex committed leaf.stack_len
