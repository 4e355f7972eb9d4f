-- ===== src/Base/Decimal.antt =====
-- What the program uses of Go's packages strconv and fmt on decimal numbers.
use Prim.Native.Nat.{ℕ, zero, suc, ◌+◌, ◌-◌, ◌*◌, ◌/◌, ◌%◌, ◌^◌, ◌≤◌, ◌<◌}
use mathlib.Core.Path.{◌≡◌, refl}
use mathlib.Core.Logic.{◌≢◌}
use mathlib.Core.Bool.{Bool, true, ◌&&◌}
use mathlib.Core.List.{[], ◌∷◌, ◌++◌}
use mathlib.Core.Option.{Option, none, some}
use native.Mathlib.Omega.{arith}
use fwknop_go.Base.Tests.{◌==◌, leb, ltb, if◌then◌else◌}
use fwknop_go.Base.Lists.{Bytes, All, All-append, length, length-append}
use fwknop_go.Base.Int.{ℤ, pos, negsuc}

abbrev pub is_digit : ℕ → Bool
is_digit c = leb b'0' c && leb c b'9'

abbrev pub IsDigit : ℕ → Type 0
IsDigit c = (b'0' ≤ c) × (c ≤ b'9')

abbrev pub all_digits : Bytes → Bool
all_digits [] = true
all_digits (c ∷ s) = is_digit c && all_digits s

-- The number that the digits of a text spell behind the number `n`.
abbrev pub value : ℕ → Bytes → ℕ
value n [] = n
value n (c ∷ s) = value (n * 10 + (c - b'0')) s

-- One or more digits, no sign, at most `max`: strconv.ParseUint.
unfoldable pub parse_uint : ℕ → Bytes → Option ℕ
parse_uint max [] = none
parse_uint max (c ∷ s) =
    let n = value 0 (c ∷ s) in
    if all_digits (c ∷ s) then (if leb n max then some n else none) else none

abbrev pub max_int64 : ℕ
max_int64 = 2 ^ 63 - 1

abbrev pub max_uint32 : ℕ
max_uint32 = 2 ^ 32 - 1

abbrev minus : ℕ → ℤ
minus zero = pos 0
minus (suc n) = negsuc n

-- strconv.ParseInt(s, 10, 64), and strconv.Atoi where an int has 64 bits.
unfoldable pub parse_int64 : Bytes → Option ℤ
unfolding parse_uint
parse_int64 [] = none
parse_int64 (c ∷ s) =
    if c == b'-'
    then elim (parse_uint (max_int64 + 1) s) [ none ↦ none | some n ↦ some (minus n) ]
    else elim (parse_uint max_int64 (if c == b'+' then s else c ∷ s)) [
      | none ↦ none
      | some n ↦ some (pos n)
    ]

-- The fuel is above the number.
digits : ℕ → ℕ → Bytes
digits zero n = []
digits (suc f) n =
    let rest = digits f (n / 10) in
    if ltb n 10 then (b'0' + n) ∷ [] else rest ++ (b'0' + n % 10) ∷ []

-- fmt's %d of an unsigned number.
unfoldable pub format_uint : ℕ → Bytes
unfolding digits
format_uint n = digits (suc n) n

-- fmt's %d of a signed number.
unfoldable pub format_int : ℤ → Bytes
unfolding format_uint
format_int (pos n) = format_uint n
format_int (negsuc n) = b'-' ∷ format_uint (suc n)

value-append : (s : Bytes) (n c : ℕ) → value n (s ++ c ∷ []) ≡ value n s * 10 + (c - b'0')
value-append [] n c = refl
value-append (d ∷ s) n c = value-append s (n * 10 + (d - b'0')) c

digits-value : (f n : ℕ) → n < f → value 0 (digits f n) ≡ n
unfolding digits
digits-value zero n h = absurd (omega arith)
digits-value (suc f) n h =
    ground (arith, digits-value f (n / 10), value-append (digits f (n / 10)) 0 (b'0' + n % 10))

digits-IsDigit : (f n : ℕ) → All IsDigit (digits f n)
unfolding digits
digits-IsDigit zero n = tt
digits-IsDigit (suc f) n = ground (
  arith,
  All-append IsDigit (digits f (n / 10)) ((b'0' + n % 10) ∷ []) (digits-IsDigit f (n / 10))
      (omega arith),
)

append_ne_nil : (s : Bytes) (c : ℕ) → s ++ c ∷ [] ≢ []
append_ne_nil [] c = cc
append_ne_nil (d ∷ s) c = cc

digits_ne_nil : (f n : ℕ) → digits (suc f) n ≢ []
unfolding digits
digits_ne_nil f n = ground (arith, append_ne_nil (digits f (n / 10)) (b'0' + n % 10))

all_digits_of : (s : Bytes) → All IsDigit s → all_digits s ≡ true
all_digits_of [] h = refl
all_digits_of (c ∷ s) h = ground (arith, all_digits_of s h.1)

parse_uint-digits :
    (max n : ℕ) (s : Bytes)
    → s ≢ []
    → All IsDigit s
    → value 0 s ≡ n
    → n ≤ max
    → parse_uint max s ≡ some n
unfolding parse_uint
parse_uint-digits max n [] h _ _ _ = absurd (h refl)
parse_uint-digits max n (c ∷ s) _ h e b = ground (arith, all_digits_of (c ∷ s) h)

pub format_uint-IsDigit : (n : ℕ) → All IsDigit (format_uint n)
unfolding format_uint
format_uint-IsDigit n = digits-IsDigit (suc n) n

digits_pos : (f n : ℕ) → 0 < length (digits (suc f) n)
unfolding digits
digits_pos f n = ground (arith, length-append (digits f (n / 10)) ((b'0' + n % 10) ∷ []))

-- A number has a digit.
pub length-format_uint : (n : ℕ) → 0 < length (format_uint n)
unfolding format_uint
length-format_uint n = digits_pos n n

pub parse_uint-format_uint : (max n : ℕ) → n ≤ max → parse_uint max (format_uint n) ≡ some n
unfolding format_uint
parse_uint-format_uint max n h =
    parse_uint-digits max n (digits (suc n) n) (digits_ne_nil n n) (digits-IsDigit (suc n) n)
      (digits-value (suc n) n (omega arith)) h

-- An integer of 64 bits.
abbrev pub IsInt64 : ℤ → Type 0
IsInt64 (pos n) = n ≤ max_int64
IsInt64 (negsuc n) = n ≤ max_int64

parse_int64_unsigned :
    (s : Bytes) (n : ℕ)
    → All IsDigit s
    → parse_uint max_int64 s ≡ some n
    → parse_int64 s ≡ some (pos n)
unfolding parse_int64
parse_int64_unsigned [] n _ h = cc
parse_int64_unsigned (c ∷ s) n d h = ground arith

-- Reading back what %d wrote.
pub parse_int64-format_int : (x : ℤ) → IsInt64 x → parse_int64 (format_int x) ≡ some x
unfolding format_int
parse_int64-format_int (pos n) h =
    parse_int64_unsigned (format_uint n) n (format_uint-IsDigit n)
      (parse_uint-format_uint max_int64 n h)
parse_int64-format_int (negsuc n) h =
    unfold parse_int64 in rw (parse_uint-format_uint (max_int64 + 1) (suc n) (omega arith)) refl
