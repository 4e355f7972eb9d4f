-- ===== src/Base/Runes/Ascii.antt =====
-- On digits the runes are the bytes.
use Prim.Native.Nat.{ℕ, zero, suc, ◌≤◌, ◌<◌}
use mathlib.Core.Path.{◌≡◌, refl}
use mathlib.Core.Bool.{true}
use mathlib.Core.List.{[], ◌∷◌}
use native.Mathlib.Omega.{arith}
use fwknop_go.Base.Lists.{Bytes, length}
use fwknop_go.Base.Decimal.{all_digits}
use fwknop_go.Base.Runes.{decode_rune, two, three, four, runes_fuel, runes}

two_above : (a : ℕ) (s : Bytes) → 0xC2 ≤ a → 0x80 ≤ (two a s).0
unfolding two
two_above a [] h = ground arith
two_above a (b ∷ s) h = ground arith

three_above : (a : ℕ) (s : Bytes) → 0xE0 ≤ a → 0x80 ≤ (three a s).0
unfolding three
three_above a [] h = ground arith
three_above a (b ∷ []) h = ground arith
three_above a (b ∷ c ∷ s) h = ground arith

four_above : (a : ℕ) (s : Bytes) → 0xF0 ≤ a → 0x80 ≤ (four a s).0
unfolding four
four_above a [] h = ground arith
four_above a (b ∷ []) h = ground arith
four_above a (b ∷ c ∷ []) h = ground arith
four_above a (b ∷ c ∷ d ∷ s) h = ground arith

-- A byte above ASCII gives no rune of ASCII.
decode_rune_above : (a : ℕ) (s : Bytes) → 0x80 ≤ a → 0x80 ≤ (decode_rune a s).0
unfolding decode_rune
decode_rune_above a s h = ground (arith, two_above a s, three_above a s, four_above a s)

decode_rune_ascii : (a : ℕ) (s : Bytes) → a < 0x80 → decode_rune a s ≡ (a, s)
unfolding decode_rune
decode_rune_ascii a s h = ground arith

runes_fuel_digits :
    (f : ℕ) (s : Bytes) → length s ≤ f → all_digits (runes_fuel f s) ≡ true → all_digits s ≡ true
unfolding runes_fuel
runes_fuel_digits zero [] h e = refl
runes_fuel_digits zero (a ∷ s) h e = absurd (omega arith)
runes_fuel_digits (suc f) [] h e = refl
runes_fuel_digits (suc f) (a ∷ s) h e =
    ground (arith, decode_rune_above a s, decode_rune_ascii a s, runes_fuel_digits f s)

runes_fuel_ascii : (f : ℕ) (s : Bytes) → length s ≤ f → all_digits s ≡ true → runes_fuel f s ≡ s
unfolding runes_fuel
runes_fuel_ascii zero [] h e = refl
runes_fuel_ascii zero (a ∷ s) h e = absurd (omega arith)
runes_fuel_ascii (suc f) [] h e = refl
runes_fuel_ascii (suc f) (a ∷ s) h e = ground (arith, decode_rune_ascii a s, runes_fuel_ascii f s)

-- If all runes are digits, then so are all bytes.
pub runes_digits : (s : Bytes) → all_digits (runes s) ≡ true → all_digits s ≡ true
unfolding runes
runes_digits s h = runes_fuel_digits (length s) s (omega arith) h

pub runes_of_digits : (s : Bytes) → all_digits s ≡ true → runes s ≡ s
unfolding runes
runes_of_digits s h = runes_fuel_ascii (length s) s (omega arith) h
