-- ===== src/Base/Runes.antt =====
-- The runes of a Go string: `for _, r := range s`. A byte that begins no valid sequence is U+FFFD.
pub mod Ascii
use Prim.Native.Nat.{ℕ, zero, suc, ◌+◌, ◌-◌, ◌*◌}
use mathlib.Core.Bool.{Bool, ◌&&◌}
use mathlib.Core.List.{List, [], ◌∷◌}
use fwknop_go.Base.Tests.{◌==◌, leb, ltb, if◌then◌else◌}
use fwknop_go.Base.Lists.{Bytes, length}

abbrev between : ℕ → ℕ → ℕ → Bool
between lo hi c = leb lo c && leb c hi

-- The rune at the head and what stands behind it.
two : ℕ → Bytes → ℕ × Bytes
two a [] = (0xFFFD, [])
two a (b ∷ s) = if between 0x80 0xBF b then ((a - 0xC0) * 64 + (b - 0x80), s) else (0xFFFD, b ∷ s)

three : ℕ → Bytes → ℕ × Bytes
three a [] = (0xFFFD, [])
three a (b ∷ []) = (0xFFFD, b ∷ [])
three a (b ∷ c ∷ s) =
    let lo = if a == 0xE0 then 0xA0 else 0x80 in
    let hi = if a == 0xED then 0x9F else 0xBF in
    if between lo hi b && between 0x80 0xBF c
    then ((a - 0xE0) * 4096 + (b - 0x80) * 64 + (c - 0x80), s)
    else (0xFFFD, b ∷ c ∷ s)

four : ℕ → Bytes → ℕ × Bytes
four a [] = (0xFFFD, [])
four a (b ∷ []) = (0xFFFD, b ∷ [])
four a (b ∷ c ∷ []) = (0xFFFD, b ∷ c ∷ [])
four a (b ∷ c ∷ d ∷ s) =
    let lo = if a == 0xF0 then 0x90 else 0x80 in
    let hi = if a == 0xF4 then 0x8F else 0xBF in
    if between lo hi b && between 0x80 0xBF c && between 0x80 0xBF d
    then ((a - 0xF0) * 262144 + (b - 0x80) * 4096 + (c - 0x80) * 64 + (d - 0x80), s)
    else (0xFFFD, b ∷ c ∷ d ∷ s)

decode_rune : ℕ → Bytes → ℕ × Bytes
decode_rune a s =
    if ltb a 0x80
    then (a, s)
    else if between 0xC2 0xDF a
    then two a s
    else if between 0xE0 0xEF a
    then three a s
    else if between 0xF0 0xF4 a
    then four a s
    else (0xFFFD, s)

-- Every rune takes a byte, so the length is fuel enough.
runes_fuel : ℕ → Bytes → List ℕ
runes_fuel zero s = []
runes_fuel (suc f) [] = []
runes_fuel (suc f) (a ∷ s) = let (r, rest) = decode_rune a s in r ∷ runes_fuel f rest

unfoldable pub runes : Bytes → List ℕ
unfolding runes_fuel decode_rune two three four
runes s = runes_fuel (length s) s
