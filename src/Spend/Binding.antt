-- ===== src/Spend/Binding.antt =====
-- verify/spend.rs: what a parsed spend holds, and the output it spends.
use bip.Base.{
  ℕ, ◌≡◌, ◌⊎◌, inl, inr, refl, sym, ap, ◌∙◌, arith, Bool, true, false, not, ◌&&◌, ◌||◌, any, ltb,
  some, List, Bytes, length, get_elem?, take, drop, last?, is_empty, bytes_eq, bytes_eq-eq,
  Bool-cases, Option-cases, ◌==◌, ◌-◌,
}
use bip.Error.{
  ok, guard, ok_or, >>=-eq-ok, guard-eq-ok, ok_or-eq-ok, invalid_witness, witness_empty,
  to_sign_invalid, invalid_public_key,
}
use bip.Bitcoin.Data.{Script, Witness, TxIn, TxOut, Transaction, max_script_element_size}
use bip.Bitcoin.Api.{Api}
use bip.Script.Defs.{push_only_script}
use bip.Bound.{CommittedScript, committed_p2sh, committed_p2wsh}
use bip.Spend.Checks.{check_script, check_witness_stack}
use bip.Spend.Defs.{Spend, p2pkh, p2sh, p2wpkh, p2wsh, p2tr, unknown_witness, bare}
use bip.Spend.Kinds.{
  Kind, Pushes, nested_version, no_pushes, pushes_loop, redeem_of, pushes_left, annex_of, spend_len,
  taproot_path, taproot_kind, p2wpkh_kind, p2wsh_kind, witness_kind, nested_kind, bare_p2sh_kind,
  p2sh_kind,
}
use bip.Spend.Parse.{p2pkh_kind, plain_kind, native_kind, kind_of, parse}

module _ (lib : Api) where
  open lib use {
    XOnlyPublicKey, ControlBlock, x_only_from_slice, hash160_from_slice, script_hash, wscript_hash,
    new_p2sh, is_p2pkh,
  }

  -- `output` is the witness output that the input spends: the spent script itself, or the redeem
  -- script that a P2SH output commits to and that is all the scriptSig pushes.
  abbrev pub SpendsWitness : Script → Script → Script → Type 0
  SpendsWitness script_pubkey script_sig output =
      (output ≡ script_pubkey)
      ⊎ ((script_pubkey ≡ new_p2sh (script_hash output))
          × (script_sig ≡ push_only_script lib output))

  -- The hashes, scripts and keys of a kind are those that the program of `output` commits to.
  abbrev pub ProgramBinds : Script → Kind lib → Type 0
  ProgramBinds output (p2wpkh hash) =
      (length (drop 2 output) ≡ 20) × (hash160_from_slice (drop 2 output) ≡ some hash)
  ProgramBinds output (p2wsh witness_script) = wscript_hash witness_script.script ≡ drop 2 output
  ProgramBinds output (p2tr output_key annex path) =
      x_only_from_slice (drop 2 output) ≡ some output_key
  ProgramBinds output unknown_witness = Unit
  ProgramBinds output (p2pkh hash) = ⊥
  ProgramBinds output (p2sh redeem pushes) = ⊥
  ProgramBinds output bare = ⊥

  -- The kind is bound to the spent script.
  abbrev pub Binds : Script → Script → Kind lib → Type 0
  Binds script_pubkey script_sig (p2pkh hash) =
      hash160_from_slice (take 20 (drop 3 script_pubkey)) ≡ some hash
  Binds script_pubkey script_sig (p2sh redeem pushes) =
      script_pubkey ≡ new_p2sh (script_hash redeem.script)
  Binds script_pubkey script_sig bare = is_p2pkh script_pubkey ≡ false
  Binds script_pubkey script_sig k =
      (output : Script) × SpendsWitness script_pubkey script_sig output × ProgramBinds output k

  committed_p2sh-eq :
      (spk redeem : Script) (c : CommittedScript)
      → committed_p2sh lib spk redeem ≡ some c
      → (c.script ≡ redeem) × (spk ≡ new_p2sh (script_hash redeem))
  unfolding committed_p2sh
  committed_p2sh-eq spk redeem c h =
      elim (Bool-cases (bytes_eq spk (new_p2sh (script_hash redeem)))) [
        | inl e ↦ (cc (rw e at h), bytes_eq-eq _ _ e)
        | inr e ↦ cc (rw e at h)
      ]

  committed_p2wsh-eq :
      (program script : Bytes) (c : CommittedScript)
      → committed_p2wsh lib program script ≡ some c
      → wscript_hash c.script ≡ program
  unfolding committed_p2wsh
  committed_p2wsh-eq program script c h =
      elim (Bool-cases (bytes_eq (wscript_hash script) program)) [
        | inl e ↦
            let same : record { script = script } ≡ c = cc (rw e at h) in
            ap (λ (x : CommittedScript). wscript_hash x.script) (sym same) ∙ bytes_eq-eq _ _ e
        | inr e ↦ cc (rw e at h)
      ]

  p2wpkh_kind-ProgramBinds :
      (witness : Witness) (output : Script) (k : Kind lib)
      → length (drop 2 output) ≡ 20
      → p2wpkh_kind lib witness (drop 2 output) ≡ ok k
      → ProgramBinds output k
  unfolding p2wpkh_kind
  p2wpkh_kind-ProgramBinds witness output k l h =
      let (_, _, h₁) = >>=-eq-ok (guard (not (is_empty witness)) witness_empty) _ h in
      let (_, _, h₂) = >>=-eq-ok (guard (length witness == 2) invalid_witness) _ h₁ in
      let (_, _, h₃) = >>=-eq-ok (check_witness_stack witness) _ h₂ in
      let (hash, e, f) =
        >>=-eq-ok (ok_or (hash160_from_slice (drop 2 output)) to_sign_invalid) _ h₃ in
      let same : p2wpkh hash ≡ k = cc in rw (← same) (l, ok_or-eq-ok _ _ e)

  p2wsh_kind-ProgramBinds :
      (witness : Witness) (output : Script) (k : Kind lib)
      → p2wsh_kind lib witness (drop 2 output) ≡ ok k
      → ProgramBinds output k
  unfolding p2wsh_kind
  p2wsh_kind-ProgramBinds witness output k h =
      let (last, _, h₁) = >>=-eq-ok (ok_or (last? witness) invalid_witness) _ h in
      let (c, e, h₂) =
        >>=-eq-ok (ok_or (committed_p2wsh lib (drop 2 output) last) to_sign_invalid) _ h₁ in
      let (_, _, h₃) = >>=-eq-ok (check_witness_stack (take (length witness - 1) witness)) _ h₂ in
      let (_, _, h₄) = >>=-eq-ok (check_script lib c.script) _ h₃ in
      let same : p2wsh c ≡ k = cc in
      rw (← same) (committed_p2wsh-eq (drop 2 output) last c (ok_or-eq-ok _ _ e))

  taproot_kind-ProgramBinds :
      (witness : Witness) (output : Script) (k : Kind lib)
      → taproot_kind lib witness (drop 2 output) ≡ ok k
      → ProgramBinds output k
  unfolding taproot_kind
  taproot_kind-ProgramBinds witness output k h =
      let (x, e, h₁) =
        >>=-eq-ok (ok_or (x_only_from_slice (drop 2 output)) invalid_public_key) _ h in
      let (path, _, h₂) = >>=-eq-ok (taproot_path lib witness (spend_len witness)) _ h₁ in
      let same : p2tr x (annex_of witness) path ≡ k = cc in rw (← same) (ok_or-eq-ok _ _ e)

  witness_kind-ProgramBinds :
      (witness : Witness) (version : ℕ) (output : Script) (nested : Bool) (k : Kind lib)
      → witness_kind lib witness version (drop 2 output) nested ≡ ok k
      → ProgramBinds output k
  unfolding witness_kind
  witness_kind-ProgramBinds witness version output nested k h = elim (Bool-cases (version == 0)) [
    | inl v ↦ elim (Bool-cases (length (drop 2 output) == 20)) [
      | inl a ↦ p2wpkh_kind-ProgramBinds witness output k (ground arith) (rw (v, a) at h)
      | inr a ↦ elim (Bool-cases (length (drop 2 output) == 32)) [
        | inl b ↦ p2wsh_kind-ProgramBinds witness output k (rw (v, a, b) at h)
        | inr b ↦ cc (rw (v, a, b) at h)
      ]
    ]
    | inr v ↦ elim (Bool-cases (not nested && version == 1 && length (drop 2 output) == 32)) [
      | inl a ↦ taproot_kind-ProgramBinds witness output k (rw (v, a) at h)
      | inr a ↦ let same : unknown_witness ≡ k = cc (rw (v, a) at h) in rw (← same) tt
    ]
  ]

  Program-Binds :
      (script_pubkey script_sig output : Script) (k : Kind lib)
      → SpendsWitness script_pubkey script_sig output
      → ProgramBinds output k
      → Binds script_pubkey script_sig k
  Program-Binds spk sig output (p2wpkh hash) s b = (output, s, b)
  Program-Binds spk sig output (p2wsh c) s b = (output, s, b)
  Program-Binds spk sig output (p2tr x a p) s b = (output, s, b)
  Program-Binds spk sig output unknown_witness s b = (output, s, b)
  Program-Binds spk sig output (p2pkh hash) s b = elim b [ ]
  Program-Binds spk sig output (p2sh r p) s b = elim b [ ]
  Program-Binds spk sig output bare s b = elim b [ ]

  nested_kind-Binds :
      (i : TxIn) (spk redeem : Script) (version : ℕ) (k : Kind lib)
      → nested_kind lib i spk redeem version ≡ ok k
      → Binds spk i.script_sig k
  unfolding nested_kind
  nested_kind-Binds i spk redeem version k h =
      let (c, e, h₁) = >>=-eq-ok (ok_or (committed_p2sh lib spk redeem) to_sign_invalid) _ h in
      let (_, g, h₂) =
        >>=-eq-ok (guard (bytes_eq i.script_sig (push_only_script lib c.script)) to_sign_invalid) _
          h₁ in
      let (same, e') = committed_p2sh-eq spk redeem c (ok_or-eq-ok _ _ e) in
      Program-Binds spk i.script_sig c.script k
        (inr (rw same e', bytes_eq-eq _ _ (guard-eq-ok _ _ g)))
        (witness_kind-ProgramBinds i.witness version c.script true k h₂)

  -- The condition on the pushes.
  sound : Pushes → Script → Bool
  sound p redeem = not (
      not p.push_only
      || ltb max_script_element_size (length redeem)
      || any (λ item. ltb max_script_element_size (length item)) (pushes_left p))

  bare_p2sh_kind-Binds :
      (i : TxIn) (spk : Script) (p : Pushes) (k : Kind lib)
      → bare_p2sh_kind lib i spk p ≡ ok k
      → Binds spk i.script_sig k
  unfolding bare_p2sh_kind sound
  bare_p2sh_kind-Binds i spk p k h =
      let (_, _, h₁) = >>=-eq-ok (guard (is_empty i.witness) invalid_witness) _ h in
      let (redeem, _, h₂) = >>=-eq-ok (ok_or (redeem_of p) invalid_witness) _ h₁ in
      let (_, _, h₃) = >>=-eq-ok (guard (sound p redeem) invalid_witness) _ h₂ in
      let (c, e, h₄) = >>=-eq-ok (ok_or (committed_p2sh lib spk redeem) to_sign_invalid) _ h₃ in
      let (_, _, h₅) = >>=-eq-ok (check_script lib c.script) _ h₄ in
      let (same, e') = committed_p2sh-eq spk redeem c (ok_or-eq-ok _ _ e) in
      let kind : p2sh c (pushes_left p) ≡ k = cc in rw (← kind) (rw same e')

  p2sh_kind-Binds :
      (i : TxIn) (spk : Script) (k : Kind lib)
      → p2sh_kind lib i spk ≡ ok k
      → Binds spk i.script_sig k
  unfolding p2sh_kind
  p2sh_kind-Binds i spk k h =
      let (p, _, h₁) =
        >>=-eq-ok (pushes_loop no_pushes (lib.instructions_minimal i.script_sig)) _ h in
      elim (Option-cases (nested_version lib (redeem_of p))) [
        | inl n ↦ bare_p2sh_kind-Binds i spk p k (rw n at h₁)
        | inr ((redeem, version), n) ↦ nested_kind-Binds i spk redeem version k (rw n at h₁)
      ]

  plain_kind-Binds :
      (i : TxIn) (spk : Script) (k : Kind lib)
      → plain_kind lib i spk ≡ ok k
      → Binds spk i.script_sig k
  unfolding plain_kind p2pkh_kind
  plain_kind-Binds i spk k h =
      let (_, _, h₁) = >>=-eq-ok (guard (is_empty i.witness) invalid_witness) _ h in
      elim (Bool-cases (is_p2pkh spk)) [
        | inl p ↦
            let (hash, e, f) =
              >>=-eq-ok (ok_or (hash160_from_slice (take 20 (drop 3 spk))) to_sign_invalid) _
                (rw p at h₁) in
            let same : p2pkh hash ≡ k = cc in rw (← same) (ok_or-eq-ok _ _ e)
        | inr p ↦ let same : bare ≡ k = cc (rw p at h₁) in rw (← same) p
      ]

  kind_of-Binds :
      (i : TxIn) (spk : Script) (k : Kind lib) → kind_of lib i spk ≡ ok k → Binds spk i.script_sig k
  unfolding kind_of native_kind
  kind_of-Binds i spk k h = elim (Option-cases (lib.witness_version spk)) [
    | inl n ↦ elim (Bool-cases (lib.is_p2sh spk)) [
      | inl p ↦ p2sh_kind-Binds i spk k (rw (kind_of, n, p) at h)
      | inr p ↦ plain_kind-Binds i spk k (rw (kind_of, n, p) at h)
    ]
    | inr (version, n) ↦
        let (_, _, h₁) =
          >>=-eq-ok (guard (is_empty i.script_sig) to_sign_invalid) _ (rw (kind_of, n) at h) in
        Program-Binds spk i.script_sig spk k (inl refl)
          (witness_kind-ProgramBinds i.witness version spk false k h₁)
  ]

  -- If parsing an input succeeds, the input and the output it spends are there at that index; both
  -- their scripts pass the limits; and the hash, script or key of the spend's kind is the one that
  -- the spent script commits to, directly or by a P2SH output whose scriptSig is exactly the push of
  -- the committed redeem script.
  pub parse-Binds :
      (to_sign : Transaction) (prevouts : List TxOut) (index : ℕ)
      (s : Spend XOnlyPublicKey ControlBlock)
      → parse lib to_sign prevouts index ≡ ok s
      → (i : TxIn) × (o : TxOut) × (get_elem? to_sign.input index ≡ some i)
        × (get_elem? prevouts index ≡ some o)
        × (check_script lib i.script_sig ≡ ok tt)
        × (check_script lib o.script_pubkey ≡ ok tt)
        × Binds o.script_pubkey i.script_sig s.kind
        × (s.to_sign ≡ to_sign)
        × (s.input_index ≡ index)
        × (s.prevouts ≡ prevouts)
  unfolding parse
  parse-Binds to_sign prevouts index s h =
      let (i, e, h₁) = >>=-eq-ok (ok_or (get_elem? to_sign.input index) to_sign_invalid) _ h in
      let (o, f, h₂) = >>=-eq-ok (ok_or (get_elem? prevouts index) to_sign_invalid) _ h₁ in
      let (_, a, h₃) = >>=-eq-ok (check_script lib i.script_sig) _ h₂ in
      let (_, b, h₄) = >>=-eq-ok (check_script lib o.script_pubkey) _ h₃ in
      let (k, c, h₅) = >>=-eq-ok (kind_of lib i o.script_pubkey) _ h₄ in
      let same : record { to_sign = to_sign; input_index = index; prevouts = prevouts; kind = k }
          ≡ s =
        cc in
      rw (← same) (
        i,
        o,
        ok_or-eq-ok _ _ e,
        ok_or-eq-ok _ _ f,
        a,
        b,
        kind_of-Binds i o.script_pubkey k c,
        refl,
        refl,
        refl,
      )
