-- ===== src/Base/Int.antt =====
-- Go's signed integers: `pos n` is n, `negsuc n` is -(n + 1).
use Prim.Native.Nat.{ℕ, suc, ◌+◌, ◌-◌, ◌*◌, ◌/◌, ◌%◌, ◌^◌, ◌≤◌}
use mathlib.Core.Path.{◌≡◌, ap}
use native.Mathlib.Omega.{arith}
use fwknop_go.Base.Tests.{leb, ltb, if◌then◌else◌}

pub data ℤ : Type 0 where
  pos : ℕ → ℤ
  negsuc : ℕ → ℤ

-- a - b, as an integer.
abbrev pub sub_ℕ : ℕ → ℕ → ℤ
sub_ℕ a b = if leb b a then pos (a - b) else negsuc (b - a - 1)

abbrev pub pos_part : ℤ → ℕ
pos_part (pos n) = n
pos_part (negsuc n) = 0

abbrev pub neg_part : ℤ → ℕ
neg_part (pos n) = 0
neg_part (negsuc n) = suc n

infixl 65 ◌+ℤ◌
unfoldable pub ◌+ℤ◌ : ℤ → ℤ → ℤ
a +ℤ b = sub_ℕ (pos_part a + pos_part b) (neg_part a + neg_part b)

unfoldable pub negate : ℤ → ℤ
negate a = sub_ℕ (neg_part a) (pos_part a)

-- Seconds and nanoseconds: the floor, as time.Time.Unix takes it, and time.Unix(s, 0).
abbrev pub nanoseconds : ℕ
nanoseconds = 1_000_000_000

unfoldable pub unix_seconds : ℤ → ℤ
unix_seconds (pos n) = pos (n / nanoseconds)
unix_seconds (negsuc n) = negsuc (n / nanoseconds)

unfoldable pub unix_time : ℤ → ℤ
unix_time (pos n) = pos (n * nanoseconds)
unix_time (negsuc n) = negsuc (suc n * nanoseconds - 1)

-- A time that was read from a number of seconds has that number of seconds.
pub unix_seconds-unix_time : (s : ℤ) → unix_seconds (unix_time s) ≡ s
unfolding unix_seconds unix_time
unix_seconds-unix_time (pos n) = ap pos (omega arith)
unix_seconds-unix_time (negsuc n) = ap negsuc (omega arith)

-- The value that 64 bits keep of a number.
unfoldable pub wrap_int64 : ℤ → ℤ
wrap_int64 (pos n) = let m = n % 2 ^ 64 in if ltb m (2 ^ 63) then pos m else negsuc (2 ^ 64 - 1 - m)
wrap_int64 (negsuc n) =
    let m = n % 2 ^ 64 in if ltb m (2 ^ 63) then negsuc m else pos (2 ^ 64 - 1 - m)

-- n * time.Second, for n in 64 bits
unfoldable pub seconds : ℤ → ℤ
unfolding wrap_int64
seconds (pos n) = wrap_int64 (pos (n * nanoseconds))
seconds (negsuc n) = wrap_int64 (negsuc (suc n * nanoseconds - 1))

-- The product does not wrap below 2^63 nanoseconds.
pub seconds_lem : (n : ℕ) → n ≤ 9_223_372_036 → seconds (pos n) ≡ pos (n * nanoseconds)
unfolding seconds wrap_int64
seconds_lem n h =
    let same : n * nanoseconds % 2 ^ 64 ≡ n * nanoseconds = omega arith in rw same (ground arith)
