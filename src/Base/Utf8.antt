-- ===== src/Base/Utf8.antt =====
-- `str::from_utf8(bytes).is_ok()`: the well-formed sequences of Unicode's table 3-7.
use Prim.Native.Nat.{ℕ, zero, suc}
use mathlib.Core.Path.{◌≡◌, refl}
use mathlib.Core.Bool.{Bool, true, false, ◌&&◌}
use mathlib.Core.Option.{Option, none, some}
use mathlib.Core.List.{[], ◌∷◌}
use bip.Base.Lists.{Bytes}
use bip.Base.Tests.{leb, ltb, ◌==◌, if◌then◌else◌}

-- How many bytes a character still needs, and the range of the next of them.
pub record Pending : Type 0 where
  pub needed : ℕ
  pub low : ℕ
  pub high : ℕ

abbrev between : ℕ → ℕ → ℕ → Bool
between low high b = leb low b && leb b high

abbrev pending : ℕ → ℕ → ℕ → Option Pending
pending needed low high = some (record { needed = needed; low = low; high = high })

-- After the first byte of a character.
lead : ℕ → Option Pending
lead b =
    if ltb b 0x80
    then pending 0 0x80 0xbf
    else if between 0xc2 0xdf b
    then pending 1 0x80 0xbf
    else if b == 0xe0
    then pending 2 0xa0 0xbf
    else if b == 0xed
    then pending 2 0x80 0x9f
    else if between 0xe1 0xef b
    then pending 2 0x80 0xbf
    else if b == 0xf0
    then pending 3 0x90 0xbf
    else if between 0xf1 0xf3 b
    then pending 3 0x80 0xbf
    else if b == 0xf4
    then pending 3 0x80 0x8f
    else none

-- After a further byte.
follow : ℕ → Pending → ℕ → Option Pending
unfolding lead
follow zero p b = lead b
follow (suc n) p b = if between p.low p.high b then pending n 0x80 0xbf else none

scan : Option Pending → Bytes → Bool
unfolding follow
scan none bytes = false
scan (some p) [] = p.needed == 0
scan (some p) (b ∷ bytes) = scan (follow p.needed p b) bytes

unfoldable pub is_utf8 : Bytes → Bool
unfolding scan
is_utf8 bytes = scan (pending 0 0x80 0xbf) bytes

two_characters : is_utf8 (0xc3 ∷ 0xa9 ∷ 0xe2 ∷ 0x82 ∷ 0xac ∷ []) ≡ true
unfolding is_utf8
two_characters = refl

cut_short : is_utf8 (0x41 ∷ 0xe2 ∷ 0x82 ∷ []) ≡ false
unfolding is_utf8
cut_short = refl
