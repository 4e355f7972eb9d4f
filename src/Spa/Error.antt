-- ===== src/Spa/Error.antt =====
-- fkospa/errors.go: the errors of the library, and results that carry them. A wrapped error is the
-- sentinel that it wraps. `corrupt_input` is encoding/base64's error, `read_failed` a failed read
-- of random bytes, `user_unknown` a failed look-up of the current user, `bad_key_size` the error of
-- crypto/aes, and `index_panic` stands for a run-time panic on an index out of range.
use fwknop_go.Base.{Bool, true, false, ◌≡◌, refl, ◌⊎◌, inl, inr}

pub data Error : Type 0 where
  invalid_data message_too_large missing_field : Error
  digest_verification_failed hmac_verification_failed decryption_failed : Error
  unsupported_encryption_mode invalid_key_len unsupported_digest_type unsupported_hmac_type : Error
  corrupt_input read_failed user_unknown bad_key_size index_panic : Error

pub data Result {ℓ} (A : Type ℓ) : Type ℓ where
  ok : A → Result A
  err : Error → Result A

-- `if test { return e }`, in a function that goes on otherwise.
abbrev pub fail_if : Bool → Error → Result (Unit {0})
fail_if true e = err e
fail_if false e = ok tt

-- The rest of a function runs only if no error was returned.
infixl 5 ◌>>=◌ ◌>>◌
abbrev pub ◌>>=◌ {ℓ κ} :
    {A : Type ℓ} {B : Type κ} (step : Result A) (rest : A → Result B) → Result B
err e >>= rest = err e
ok a >>= rest = rest a

abbrev pub ◌>>◌ {ℓ} : {B : Type ℓ} (test : Result (Unit {0})) (rest : Result B) → Result B
err e >> rest = err e
ok u >> rest = rest

-- `fmt.Errorf("%w: …", e, err)`: another error takes the place of what the step returned.
abbrev pub or_error {ℓ} : {A : Type ℓ} → Result A → Error → Result A
or_error (ok a) e = ok a
or_error (err _) e = err e

pub Result-cases {ℓ} :
    {A : Type ℓ} (r : Result A) → ((a : A) × (r ≡ ok a)) ⊎ ((e : Error) × (r ≡ err e))
Result-cases (ok a) = inl (a, refl)
Result-cases (err e) = inr (e, refl)

-- A step and the rest of its function, that return a value together, both returned one.
pub succeeds_both {ℓ κ} :
    {A : Type ℓ} {B : Type κ} (step : Result A) (rest : A → Result B) {result : B}
    → (step >>= rest) ≡ ok result
    → (a : A) × (step ≡ ok a) × (rest a ≡ ok result)
succeeds_both (err e) rest h = cc
succeeds_both (ok a) rest h = (a, refl, h)

pub passes_then {ℓ} :
    {B : Type ℓ} (test : Result (Unit {0})) (rest : Result B) {result : B}
    → (test >> rest) ≡ ok result
    → (test ≡ ok tt) × (rest ≡ ok result)
passes_then (err e) rest h = cc
passes_then (ok tt) rest h = (refl, h)

pub fail_if-ok : (b : Bool) (e : Error) → fail_if b e ≡ ok tt → b ≡ false
fail_if-ok true e h = cc
fail_if-ok false e h = refl
