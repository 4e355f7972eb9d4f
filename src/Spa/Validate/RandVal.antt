-- ===== src/Spa/Validate/RandVal.antt =====
-- validRandVal and generateRandVal: what the check accepts, and that the generator passes it.
use fwknop_go.Base.{
  ℕ, zero, suc, ◌+◌, ◌-◌, ◌≤◌, ◌<◌, ◌≡◌, refl, true, false, not, Option, some, [], ◌∷◌, ◌++◌, arith,
  Bytes, All, length, length-append, length-take, take, ltb, ◌==◌, is_digit, all_digits, IsDigit,
  format_uint, format_uint-IsDigit, length-format_uint, runes, Bool-cases, inl, inr, All-append,
  All-take,
}
use fwknop_go.Base.Runes.Ascii.{runes_digits, runes_of_digits}
use fwknop_go.Spa.Error.{ok, fail_if, passes_then, fail_if-ok, invalid_data}
use fwknop_go.Spa.Message.{rand_loop, generate_rand_val}
use fwknop_go.Spa.Validate.{valid_rand_val, all_runes}

all_runes_digits : (s : Bytes) → all_runes is_digit s ≡ all_digits s
all_runes_digits [] = refl
all_runes_digits (c ∷ s) = rw (all_runes_digits s)

IsDigit_of : (s : Bytes) → all_digits s ≡ true → All IsDigit s
IsDigit_of [] h = tt
IsDigit_of (c ∷ s) h = ground (arith, IsDigit_of s)

of_IsDigit : (s : Bytes) → All IsDigit s → all_digits s ≡ true
of_IsDigit [] h = refl
of_IsDigit (c ∷ s) h = ground (arith, of_IsDigit s)

abbrev pub IsRandVal : Bytes → Type 0
IsRandVal s = (length s ≡ 16) × All IsDigit s

pub valid_rand_val_sound : (s : Bytes) → valid_rand_val s ≡ ok tt → IsRandVal s
unfolding valid_rand_val
valid_rand_val_sound s h =
    let (p, q) = passes_then (fail_if (not (length s == 16)) invalid_data) _ h in
    let digits = fail_if-ok (not (all_runes is_digit (runes s))) invalid_data q in
    (
      ground (arith, fail_if-ok (not (length s == 16)) invalid_data p),
      IsDigit_of s (runes_digits s (ground (arith, all_runes_digits (runes s)))),
    )

pub valid_rand_val_complete : (s : Bytes) → IsRandVal s → valid_rand_val s ≡ ok tt
unfolding valid_rand_val
valid_rand_val_complete s (n, d) =
    rw (runes_of_digits s (of_IsDigit s d), all_runes_digits s, of_IsDigit s d) (ground arith)

-- The check accepts exactly the texts of 16 decimal digits.
pub valid_rand_val_iff :
    (s : Bytes)
    → (valid_rand_val s ≡ ok tt → IsRandVal s) × (IsRandVal s → valid_rand_val s ≡ ok tt)
valid_rand_val_iff s = (valid_rand_val_sound s, valid_rand_val_complete s)

-- Every draw succeeds.
abbrev pub AllDrawn : (ℕ → Option ℕ) → Type 0
AllDrawn draw = (i : ℕ) → (n : ℕ) × (draw i ≡ some n)

rand_loop_lem :
    (draw : ℕ → Option ℕ) (fuel i : ℕ) (val : Bytes)
    → AllDrawn draw
    → All IsDigit val
    → 16 - length val < fuel
    → (s : Bytes) × (rand_loop draw fuel i val ≡ ok s) × IsRandVal s
unfolding rand_loop
rand_loop_lem draw zero i val d h f = absurd (omega arith)
rand_loop_lem draw (suc fuel) i val d h f = elim (Bool-cases (ltb (length val) 16)) [
  | inr done ↦ (
    take 16 val,
    rw done,
    (omega (arith, length-take 16 val, enough done), All-take IsDigit 16 val h),
  )
  | inl more ↦
      let (n, e) = d i in
      let (s, eq, v) =
        rand_loop_lem draw fuel (i + 1) (val ++ format_uint n) d
          (All-append IsDigit val (format_uint n) h (format_uint-IsDigit n))
          (ground (arith, length-append val (format_uint n), length-format_uint n)) in
      (s, ground arith, v)
]
  where
    enough : ltb (length val) 16 ≡ false → 16 ≤ length val
    enough e = ground arith

-- If no draw fails, the generator ends with a value that the check accepts.
pub generate_rand_val_valid :
    (draw : ℕ → Option ℕ)
    → AllDrawn draw
    → (s : Bytes) × (generate_rand_val draw ≡ ok s) × (valid_rand_val s ≡ ok tt)
unfolding generate_rand_val
generate_rand_val_valid draw d =
    let (s, e, v) = rand_loop_lem draw 17 0 [] d tt (omega arith) in
    (s, e, valid_rand_val_complete s v)
