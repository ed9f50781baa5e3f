-- ===== src/Script/Multisig.antt =====
-- script.rs: `parse_multisig` and the scripts `m <keys> n CHECKMULTISIG`.
use bip.Base.{
  ℕ, suc, ◌+◌, ◌-◌, ◌≤◌, ◌≡◌, refl, sym, ap, ◌∙◌, ◌↔◌, arith, true, ◌&&◌, some, List, [], ◌∷◌, ◌++◌,
  map, length, length-append, length-map, leb→le, get_elem?, last?, take-append, leb, ◌==◌, Bytes,
}
use bip.Error.{
  ok, >>=-eq-ok, guard, guard-eq-ok, ok_or, ok_or-eq-ok, invalid_witness, invalid_public_key,
}
use bip.Bitcoin.Data.{Script, Instruction, push_bytes, op, Decoded, good, bad, op_checkmultisig}
use bip.Bitcoin.Api.{Api}
use bip.Script.Defs.{
  collect, pushnum, number, is_checkmultisig, public_keys, parse_parts, parse_instructions,
  parse_multisig,
}

collect-map : (is : List Instruction) → collect (map good is) ≡ ok is
unfolding collect
collect-map [] = refl
collect-map (i ∷ is) = rw (collect-map is)

collect-eq-ok : (ds : List Decoded) (is : List Instruction) → collect ds ≡ ok is → ds ≡ map good is
unfolding collect
collect-eq-ok [] [] h = refl
collect-eq-ok [] (i ∷ is) h = cc
collect-eq-ok (good i ∷ ds) is h =
    let (js, e, f) = >>=-eq-ok (collect ds) _ h in
    let g : is ≡ i ∷ js = cc in rw (g, collect-eq-ok ds js e)
collect-eq-ok (bad ∷ ds) is h = cc

-- The last two instructions behind the others.
module _ (y z : Instruction) where
  last-append : (is : List Instruction) → last? (is ++ (y ∷ z ∷ [])) ≡ some z
  last-append [] = refl
  last-append (i ∷ []) = refl
  last-append (i ∷ j ∷ is) = last-append (j ∷ is)

  get_elem-append : (is : List Instruction) → get_elem? (is ++ (y ∷ z ∷ [])) (length is) ≡ some y
  get_elem-append [] = refl
  get_elem-append (i ∷ is) = get_elem-append is

-- A list of two or more, by its last two.
split_ends :
    (is : List Instruction)
    → 2 ≤ length is
    → (mid : List Instruction) × (y : Instruction) × (z : Instruction) × (is ≡ mid ++ (y ∷ z ∷ []))
split_ends [] h = absurd (omega arith)
split_ends (i ∷ []) h = absurd (omega arith)
split_ends (y ∷ z ∷ []) h = ([], y, z, refl)
split_ends (i ∷ j ∷ k ∷ is) h =
    let (mid, y, z, e) = split_ends (j ∷ k ∷ is) (omega arith) in (i ∷ mid, y, z, ap (λ r. i ∷ r) e)

number_form : (v n : ℕ) → pushnum v ≡ ok n → (v ≡ 0x50 + n) × (1 ≤ n) × (n ≤ 16)
unfolding pushnum
number_form v n h = ground arith

number_ok : (n : ℕ) → 1 ≤ n → n ≤ 16 → pushnum (0x50 + n) ≡ ok n
unfolding pushnum
number_ok n l h = ground arith

checkmultisig_form : (i : Instruction) → is_checkmultisig (some i) ≡ true → i ≡ op op_checkmultisig
unfolding is_checkmultisig
checkmultisig_form (op v) h = ground arith
checkmultisig_form (push_bytes bs) h = cc

module _ (lib : Api) where
  open lib use {PublicKey, instructions_minimal, public_key_from_slice}

  -- The keys are those that the byte strings encode.
  abbrev pub Encode : List Bytes → List PublicKey → Type 0
  Encode [] [] = Unit
  Encode [] (k ∷ ks) = ⊥
  Encode (r ∷ raws) [] = ⊥
  Encode (r ∷ raws) (k ∷ ks) = (public_key_from_slice r ≡ some k) × Encode raws ks

  -- The script is `m <keys> n CHECKMULTISIG`, with 1 ≤ m ≤ n ≤ 16 and minimal pushes.
  abbrev pub IsMultisig : Script → ℕ → List PublicKey → Type 0
  IsMultisig script m keys =
      (raws : List Bytes) × (instructions_minimal script
        ≡ map good (
            op (0x50 + m)
            ∷ (map push_bytes raws ++ (op (0x50 + length raws) ∷ op op_checkmultisig ∷ []))))
      × Encode raws keys
      × (1 ≤ m)
      × (m ≤ length raws)
      × (length raws ≤ 16)

  public_keys-Encode :
      (is : List Instruction) (keys : List PublicKey)
      → public_keys lib is ≡ ok keys
      → (raws : List Bytes) × (is ≡ map push_bytes raws) × Encode raws keys
  unfolding public_keys
  public_keys-Encode [] [] h = ([], refl, tt)
  public_keys-Encode [] (k ∷ ks) h = cc
  public_keys-Encode (push_bytes r ∷ is) keys h =
      let (k, e, f) = >>=-eq-ok (ok_or (public_key_from_slice r) invalid_public_key) _ h in
      let (ks, e', f') = >>=-eq-ok (public_keys lib is) _ f in
      let (raws, a, b) = public_keys-Encode is ks e' in
      let g : k ∷ ks ≡ keys = cc in (r ∷ raws, rw a, rw (← g) (ok_or-eq-ok _ _ e, b))
  public_keys-Encode (op v ∷ is) keys h = cc

  Encode-public_keys :
      (raws : List Bytes) (keys : List PublicKey)
      → Encode raws keys
      → public_keys lib (map push_bytes raws) ≡ ok keys
  unfolding public_keys
  Encode-public_keys [] [] h = refl
  Encode-public_keys [] (k ∷ ks) h = elim h [ ]
  Encode-public_keys (r ∷ raws) [] h = elim h [ ]
  Encode-public_keys (r ∷ raws) (k ∷ ks) h = rw (h.0, Encode-public_keys raws ks h.1)

  -- What the parser does once the ends of the script are known.
  parse-ends :
      (x y z : Instruction) (mid : List Instruction)
      → parse_instructions lib (x ∷ (mid ++ (y ∷ z ∷ [])))
        ≡ parse_parts lib (length mid + 3) (some z) (some x) (some y) mid
  unfolding parse_instructions
  parse-ends x y z mid =
      let l : length (mid ++ (y ∷ z ∷ [])) ≡ length mid + 2 = length-append mid (y ∷ z ∷ []) in
      let m : suc (length mid + 2) - 3 ≡ length mid = omega arith in
      let k : suc (length mid + 2) - 2 ≡ suc (length mid) = omega arith in
      let n : suc (length mid + 2) ≡ length mid + 3 = omega arith in
      rw (last-append y z (x ∷ mid), l, k, m, n)
        (rw (get_elem-append y z mid, take-append mid (y ∷ z ∷ [])))

  parts-ok :
      (n : ℕ) (x y z : Instruction) (mid : List Instruction) (m : ℕ) (keys : List PublicKey)
      → parse_parts lib n (some z) (some x) (some y) mid ≡ ok (m, keys)
      → (leb 4 n ≡ true)
        × (is_checkmultisig (some z) ≡ true)
        × (number (some x) ≡ ok m)
        × (number (some y) ≡ ok (length mid))
        × (1 ≤ m)
        × (m ≤ length mid)
        × (public_keys lib mid ≡ ok keys)
  unfolding parse_parts
  parts-ok n x y z mid m keys h =
      let (_, e₁, h₁) = >>=-eq-ok (guard (leb 4 n) invalid_witness) _ h in
      let (_, e₂, h₂) = >>=-eq-ok (guard (is_checkmultisig (some z)) invalid_witness) _ h₁ in
      let (r, e₃, h₃) = >>=-eq-ok (number (some x)) _ h₂ in
      let (t, e₄, h₄) = >>=-eq-ok (number (some y)) _ h₃ in
      let (_, e₅, h₅) =
        >>=-eq-ok (guard (length mid == t && leb 1 r && leb r t) invalid_witness) _ h₄ in
      let (ks, e₆, h₆) = >>=-eq-ok (public_keys lib mid) _ h₅ in
      let g = guard-eq-ok _ _ e₅ in
      let same : (r ≡ m) × (ks ≡ keys) = (cc, cc) in
      let test : (length mid ≡ t) × (1 ≤ r) × (r ≤ t) = ground arith in
      (
        guard-eq-ok _ _ e₁,
        guard-eq-ok _ _ e₂,
        rw e₃ (ap ok same.0),
        rw (e₄, test.0),
        omega (arith, test, same.0),
        omega (arith, test, same.0),
        rw e₆ (ap ok same.1),
      )

  number-push : (bs : Bytes) (n : ℕ) → number (some (push_bytes bs)) ≡ ok n → ⊥
  unfolding number
  number-push bs n h = cc

  number-op :
      (i : Instruction) (n : ℕ) → number (some i) ≡ ok n → (i ≡ op (0x50 + n)) × (1 ≤ n) × (n ≤ 16)
  unfolding number
  number-op (op v) n h = let (e, l, u) = number_form v n h in (ap op e, l, u)
  number-op (push_bytes bs) n h = cc

  parsed_long :
      (is : List Instruction) {r : ℕ × List PublicKey}
      → parse_instructions lib is ≡ ok r
      → 4 ≤ length is
  unfolding parse_instructions parse_parts
  parsed_long is h =
      let (_, e, _) = >>=-eq-ok (guard (leb 4 (length is)) invalid_witness) _ h in
      omega (arith, leb→le 4 (length is) (guard-eq-ok _ _ e))

  ends-IsMultisig :
      (script : Script) (x y z : Instruction) (mid : List Instruction) (m : ℕ)
      (keys : List PublicKey)
      → instructions_minimal script ≡ map good (x ∷ (mid ++ (y ∷ z ∷ [])))
      → parse_parts lib (length mid + 3) (some z) (some x) (some y) mid ≡ ok (m, keys)
      → IsMultisig script m keys
  ends-IsMultisig script x y z mid m keys e h =
      let (_, c, a, b, l, u, k) = parts-ok _ x y z mid m keys h in
      let (x', _, _) = number-op x m a in
      let (y', _, w) = number-op y (length mid) b in
      let (raws, r, enc) = public_keys-Encode mid keys k in
      let n : length raws ≡ length mid = sym (ap length r ∙ length-map raws push_bytes) in
      (raws, e ∙ rw (x', y', checkmultisig_form z c, n, ← r), enc, l, omega arith, omega arith)

  instructions-IsMultisig :
      (script : Script) (is : List Instruction) (m : ℕ) (keys : List PublicKey)
      → instructions_minimal script ≡ map good is
      → parse_instructions lib is ≡ ok (m, keys)
      → IsMultisig script m keys
  instructions-IsMultisig script [] m keys e h = absurd (omega (arith, parsed_long [] h))
  instructions-IsMultisig script (x ∷ is) m keys e h =
      let (mid, y, z, s) = split_ends is (omega (arith, parsed_long (x ∷ is) h)) in
      ends-IsMultisig script x y z mid m keys (e ∙ rw s) (sym (parse-ends x y z mid) ∙ rw (← s) h)

  -- The checks on the pieces of such a script.
  parse_pieces :
      (raws : List Bytes) (m : ℕ) (keys : List PublicKey)
      → Encode raws keys
      → 1 ≤ m
      → m ≤ length raws
      → length raws ≤ 16
      → parse_parts lib
          (length (map push_bytes raws) + 3)
          (some (op op_checkmultisig))
          (some (op (0x50 + m)))
          (some (op (0x50 + length raws)))
          (map push_bytes raws)
        ≡ ok (m, keys)
  unfolding parse_parts is_checkmultisig number
  parse_pieces raws m keys k l u v =
      let few : leb 4 (length raws + 3) ≡ true = ground arith in
      let all : (length raws == length raws && leb 1 m && leb m (length raws)) ≡ true =
        ground arith in
      rw (
        length-map raws push_bytes,
        few,
        number_ok m l (omega arith),
        number_ok (length raws) (omega arith) v,
        all,
        Encode-public_keys raws keys k,
      )

  -- The parser succeeds exactly on the scripts `m <keys> n CHECKMULTISIG` whose pushes encode keys
  -- and are minimal, with 1 ≤ m ≤ n ≤ 16, and returns m and the keys in the order of the script.
  pub parse_multisig_iff :
      (script : Script) (m : ℕ) (keys : List PublicKey)
      → (parse_multisig lib script ≡ ok (m, keys)) ↔ IsMultisig script m keys
  unfolding parse_multisig
  parse_multisig_iff script m keys = (
    λ h.
        let (is, e, f) = >>=-eq-ok (collect (instructions_minimal script)) _ h in
        instructions-IsMultisig script is m keys (collect-eq-ok _ is e) f,
    λ (raws, e, k, l, u, v).
        rw (e, collect-map) (parse-ends _ _ _ _ ∙ parse_pieces raws m keys k l u v),
  )
