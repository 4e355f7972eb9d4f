-- ===== src/Client/Offset.antt =====
-- cmd/fwknop/config.go: parseTimeOffset. time.ParseDuration is an argument; durations are in
-- nanoseconds, in 64 bits that wrap around.
use fwknop_go.Base.{
  ℤ, pos, not, ◌&&◌, ◌||◌, Option, none, some, [], ◌∷◌, Bytes, seconds, ◌==◌, if◌then◌else◌,
  is_digit, is_white, parse_int64,
}
use fwknop_go.Spa.Validate.{is_empty}
use fwknop_go.Client.Config.{Attempt, failed, done, invalid_time_offset}

-- White space but newlines.
abbrev skip_blanks : Bytes → Bytes
skip_blanks [] = []
skip_blanks (c ∷ s) =
    let rest = skip_blanks s in if is_white c && not (c == b'\n') then rest else c ∷ s

abbrev leading_digits : Bytes → Bytes
leading_digits [] = []
leading_digits (c ∷ s) = let rest = leading_digits s in if is_digit c then c ∷ rest else []

-- The token that %d reads: a sign, and the digits behind it.
abbrev int_token : Bytes → Bytes
int_token [] = []
int_token (c ∷ s) = if c == b'-' || c == b'+' then c ∷ leading_digits s else leading_digits (c ∷ s)

-- fmt.Sscanf(s, "%d", &n): blanks, a number, and whatever stands behind it.
unfoldable pub scan_int : Bytes → Option ℤ
unfolding parse_int64
scan_int s = parse_int64 (int_token (skip_blanks s))

unfoldable pub parse_time_offset : (Bytes → Option ℤ) → Bytes → Attempt ℤ
unfolding scan_int seconds
parse_time_offset parse_duration s = if is_empty s then done (pos 0) else elim (parse_duration s) [
  | some d ↦ done d
  | none ↦ elim (scan_int s) [ some secs ↦ done (seconds secs) | none ↦ failed invalid_time_offset ]
]
