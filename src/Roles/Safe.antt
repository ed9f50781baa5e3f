-- ===== src/Roles/Safe.antt =====
-- psbt/signer.rs: what a signer calls does not panic.
use bip.Base.{
  inl, inr, Option-cases, ℕ, suc, zero, ◌≡◌, ◌≢◌, refl, ◌&&◌, ◌||◌, not, Bool, true, false, none,
  some, Option, List, [], ◌∷◌, length, get_elem?, bytes_eq, leb, ltb, ◌==◌, if◌then◌else◌, last?,
  take, drop, ◌-◌,
}
use bip.Error.{
  Error, Result, ok, err, ◌>>=◌, guard, ok_or, panic, to_sign_invalid, invalid_witness,
  invalid_public_key,
}
use bip.Bitcoin.Data.{
  Script, Instruction, push_bytes, op, Decoded, good, bad, TxOut, Transaction, PsbtInput, Psbt,
  max_script_element_size, op_pushnum_1, op_pushnum_16,
}
use bip.Bitcoin.Api.{Api}
use bip.Outpoints.Defs.{validate_outpoints, validate_psbt_structure}
use bip.Prevouts.Defs.{
  PrevoutResolver, Map, new, index_tx, index_inputs, outpoint, claimed, agreed, resolve, txout_eq,
  checked_psbt_input_prevout, redeem_script_at, previous_output?, non_witness_tx, has_non_witness,
}
use bip.Script.Defs.{
  collect, pushnum, number, public_keys, parse_parts, parse_instructions, parse_multisig,
  spends_witness, is_checkmultisig,
}
use bip.Roles.Helpers.{
  Input, declared_ecdsa_sighash, signing_taproot_sighash, require_multisig_challenge,
}
use bip.Roles.Signer.{checked_prevouts}

module _ {ℓ} {A : Type ℓ} where
  abbrev pub IsSafe : Result A → Type ℓ
  IsSafe r = r ≢ err panic

  pub ok-IsSafe : (a : A) → IsSafe (ok a)
  ok-IsSafe a h = cc

  pub err-IsSafe : {e : Error} → e ≢ panic → IsSafe (err e)
  err-IsSafe n h = n cc

  pub ok_or-IsSafe : (o : Option A) {e : Error} → e ≢ panic → IsSafe (ok_or o e)
  ok_or-IsSafe none n h = n cc
  ok_or-IsSafe (some a) n h = cc

  pub ok_or_some-IsSafe : (o : Option A) (e : Error) → o ≢ none → IsSafe (ok_or o e)
  ok_or_some-IsSafe none e n h = n refl
  ok_or_some-IsSafe (some a) e n h = cc

  pub if-IsSafe : (b : Bool) {r s : Result A} → IsSafe r → IsSafe s → IsSafe (if b then r else s)
  if-IsSafe true f g = f
  if-IsSafe false f g = g

pub guard-IsSafe : (b : Bool) {e : Error} → e ≢ panic → IsSafe (guard b e)
guard-IsSafe true n h = cc
guard-IsSafe false n h = n cc

pub bind-IsSafe {ℓ κ} :
    {A : Type ℓ} {B : Type κ} (r : Result A) (next : A → Result B)
    → IsSafe r
    → ((a : A) → r ≡ ok a → IsSafe (next a))
    → IsSafe (r >>= next)
bind-IsSafe (err e) next s k h = s (cc)
bind-IsSafe (ok a) next s k h = k a refl h

-- The functions that need no dependency.
collect-IsSafe : (ds : List Decoded) → IsSafe (collect ds)
unfolding collect
collect-IsSafe [] = ok-IsSafe _
collect-IsSafe (good i ∷ ds) = bind-IsSafe (collect ds) _ (collect-IsSafe ds) (λ is _. ok-IsSafe _)
collect-IsSafe (bad ∷ ds) = err-IsSafe (λ h. cc)

number-IsSafe : (o : Option Instruction) → IsSafe (number o)
unfolding number pushnum
number-IsSafe (some (op value)) =
    bind-IsSafe (guard (leb op_pushnum_1 value && leb value op_pushnum_16) invalid_witness) _
      (guard-IsSafe _ (λ h. cc)) (λ _ _. ok-IsSafe _)
number-IsSafe (some (push_bytes bs)) = err-IsSafe (λ h. cc)
number-IsSafe none = err-IsSafe (λ h. cc)

claimed-IsSafe : (o : Option Transaction) (vout : ℕ) → IsSafe (claimed o vout)
unfolding claimed
claimed-IsSafe none vout = ok-IsSafe _
claimed-IsSafe (some tx) vout =
    bind-IsSafe (ok_or (get_elem? tx.output vout) to_sign_invalid) _ (ok_or-IsSafe _ (λ h. cc))
      (λ _ _. ok-IsSafe _)

agreed-IsSafe : (w n : Option TxOut) → IsSafe (agreed w n)
unfolding agreed
agreed-IsSafe (some w) (some n) = if-IsSafe (txout_eq w n) (ok-IsSafe _) (err-IsSafe (λ h. cc))
agreed-IsSafe (some w) none = ok-IsSafe _
agreed-IsSafe none (some n) = ok-IsSafe _
agreed-IsSafe none none = err-IsSafe (λ h. cc)

resolve-IsSafe : (r : PrevoutResolver) (index : ℕ) → IsSafe (resolve r index)
unfolding resolve outpoint
resolve-IsSafe r index =
    bind-IsSafe (ok_or (get_elem? r.psbt.inputs index) to_sign_invalid) _ (ok_or-IsSafe _ (λ h. cc))
      (λ i _. bind-IsSafe (outpoint r index) _ (ok_or-IsSafe _ (λ h. cc)) (λ o _.
        bind-IsSafe (claimed (non_witness_tx r index) o.vout) _
          (claimed-IsSafe (non_witness_tx r index) o.vout) (λ n _. agreed-IsSafe i.witness_utxo n)))

pub validate_psbt_structure-IsSafe : (psbt : Psbt) → IsSafe (validate_psbt_structure psbt)
unfolding validate_psbt_structure validate_outpoints
validate_psbt_structure-IsSafe psbt =
    bind-IsSafe
      (guard
        (length psbt.inputs == length psbt.unsigned_tx.input
          && psbt.output_count == length psbt.unsigned_tx.output)
        to_sign_invalid)
      _ (guard-IsSafe _ (λ h. cc)) (λ _ _. guard-IsSafe _ (λ h. cc))

module _ (lib : Api) where
  open lib use {PublicKey, compute_txid, public_key_from_slice, instructions_minimal}

  public_keys-IsSafe : (is : List Instruction) → IsSafe (public_keys lib is)
  unfolding public_keys
  public_keys-IsSafe [] = ok-IsSafe _
  public_keys-IsSafe (push_bytes bytes ∷ is) =
      bind-IsSafe (ok_or (public_key_from_slice bytes) invalid_public_key) _
        (ok_or-IsSafe _ (λ h. cc))
        (λ _ _. bind-IsSafe (public_keys lib is) _ (public_keys-IsSafe is) (λ _ _. ok-IsSafe _))
  public_keys-IsSafe (op value ∷ is) = err-IsSafe (λ h. cc)

  parse_parts-IsSafe :
      (count : ℕ) (last first second : Option Instruction) (keys : List Instruction)
      → IsSafe (parse_parts lib count last first second keys)
  unfolding parse_parts
  parse_parts-IsSafe count last first second keys =
      bind-IsSafe (guard (leb 4 count) invalid_witness) _ (guard-IsSafe _ (λ h. cc)) (λ _ _.
        bind-IsSafe (guard (is_checkmultisig last) invalid_witness) _ (guard-IsSafe _ (λ h. cc))
          (λ _ _. bind-IsSafe (number first) _ (number-IsSafe first) (λ required _.
            bind-IsSafe (number second) _ (number-IsSafe second) (λ total _.
              bind-IsSafe
                (guard (length keys == total && leb 1 required && leb required total)
                  invalid_witness)
                _ (guard-IsSafe _ (λ h. cc))
                (λ _ _.
                  bind-IsSafe (public_keys lib keys) _ (public_keys-IsSafe keys)
                    (λ _ _. ok-IsSafe _))))))

  pub parse_multisig-IsSafe : (script : Script) → IsSafe (parse_multisig lib script)
  unfolding parse_multisig parse_instructions
  parse_multisig-IsSafe script =
      bind-IsSafe (collect (instructions_minimal script)) _
        (collect-IsSafe (instructions_minimal script))
        (λ is _.
          parse_parts-IsSafe (length is) (last? is) (get_elem? is 0) (get_elem? is (length is - 2))
            (take (length is - 3) (drop 1 is)))

  pub require_multisig_challenge-IsSafe :
      (script challenge : Script) (is_witness : Bool) (redeem : Option Script)
      → IsSafe (require_multisig_challenge lib script challenge is_witness redeem)
  unfolding require_multisig_challenge
  require_multisig_challenge-IsSafe script challenge is_witness redeem =
      bind-IsSafe
        (guard (not (not is_witness && ltb max_script_element_size (length script)))
          invalid_witness)
        _ (guard-IsSafe _ (λ h. cc)) (λ _ _. guard-IsSafe _ (λ h. cc))

  pub declared_ecdsa_sighash-IsSafe : (i : Input lib) → IsSafe (declared_ecdsa_sighash i)
  unfolding declared_ecdsa_sighash
  declared_ecdsa_sighash-IsSafe i = elim (Option-cases i.sighash_type) [
    | inl n ↦ rw (declared_ecdsa_sighash, n) (ok-IsSafe _)
    | inr (t, n) ↦
        rw (declared_ecdsa_sighash, n) (if-IsSafe (t == 1) (ok-IsSafe _) (err-IsSafe (λ h. cc)))
  ]

  pub signing_taproot_sighash-IsSafe : (i : Input lib) → IsSafe (signing_taproot_sighash i)
  unfolding signing_taproot_sighash
  signing_taproot_sighash-IsSafe i = elim (Option-cases i.sighash_type) [
    | inl n ↦ rw (signing_taproot_sighash, n) (ok-IsSafe _)
    | inr (t, n) ↦
        rw (signing_taproot_sighash, n)
          (if-IsSafe (t == 1) (ok-IsSafe _)
            (if-IsSafe (t == 0) (ok-IsSafe _) (err-IsSafe (λ h. cc))))
  ]

  index_tx-IsSafe :
      (psbt : Psbt) (index : ℕ) (tx : Option Transaction) (m : Map)
      → IsSafe (index_tx lib psbt index tx m)
  unfolding index_tx
  index_tx-IsSafe psbt index none m = ok-IsSafe _
  index_tx-IsSafe psbt index (some tx) m =
      bind-IsSafe (ok_or (previous_output? psbt index) to_sign_invalid) _ (ok_or-IsSafe _ (λ h. cc))
        (λ o _.
          bind-IsSafe (guard (bytes_eq (compute_txid tx) o.txid) to_sign_invalid) _
            (guard-IsSafe _ (λ h. cc)) (λ _ _. ok-IsSafe _))

  index_inputs-IsSafe :
      (psbt : Psbt) (index : ℕ) (is : List PsbtInput) (m : Map)
      → IsSafe (index_inputs lib psbt index is m)
  unfolding index_inputs
  index_inputs-IsSafe psbt index [] m = ok-IsSafe _
  index_inputs-IsSafe psbt index (i ∷ is) m =
      bind-IsSafe (index_tx lib psbt index i.non_witness_utxo m) _
        (index_tx-IsSafe psbt index i.non_witness_utxo m)
        (λ m' _. index_inputs-IsSafe psbt (suc index) is m')

  pub new-IsSafe : (psbt : Psbt) → IsSafe (new lib psbt)
  unfolding new
  new-IsSafe psbt =
      bind-IsSafe (index_inputs lib psbt 0 psbt.inputs []) _
        (index_inputs-IsSafe psbt 0 psbt.inputs []) (λ _ _. ok-IsSafe _)

  checked_psbt_input_prevout-IsSafe :
      (psbt : Psbt) (r : PrevoutResolver) (index : ℕ)
      → IsSafe (checked_psbt_input_prevout lib psbt r index)
  unfolding checked_psbt_input_prevout
  checked_psbt_input_prevout-IsSafe psbt r index =
      bind-IsSafe (resolve r index) _ (resolve-IsSafe r index) (λ o _.
        bind-IsSafe
          (guard
            (spends_witness lib o.script_pubkey (redeem_script_at lib psbt index)
              || has_non_witness r index)
            to_sign_invalid)
          _ (guard-IsSafe _ (λ h. cc)) (λ _ _. ok-IsSafe _))

  pub checked_prevouts-IsSafe :
      (psbt : Psbt) (r : PrevoutResolver) (index n : ℕ)
      → IsSafe (checked_prevouts lib psbt r index n)
  unfolding checked_prevouts
  checked_prevouts-IsSafe psbt r index zero = ok-IsSafe _
  checked_prevouts-IsSafe psbt r index (suc n) =
      bind-IsSafe (checked_psbt_input_prevout lib psbt r index) _
        (checked_psbt_input_prevout-IsSafe psbt r index)
        (λ _ _.
          bind-IsSafe (checked_prevouts lib psbt r (suc index) n) _
            (checked_prevouts-IsSafe psbt r (suc index) n) (λ _ _. ok-IsSafe _))
