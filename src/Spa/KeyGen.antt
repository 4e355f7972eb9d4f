-- ===== src/Spa/KeyGen.antt =====
-- fkospa/keygen.go. The argument `random n` is what a read of n random bytes gives, `none` if it
-- fails.
use fwknop_go.Base.{ℕ, zero, suc, ℤ, pos, negsuc, Option, none, some, Bytes}
use fwknop_go.Spa.Error.{Result, ok, err, invalid_key_len, read_failed}
use fwknop_go.Spa.Base64.{std_encode}

abbrev pub encoded : Option Bytes → Result Bytes
encoded none = err read_failed
encoded (some key) = ok (std_encode key)

module _ (random : ℕ → Option Bytes) where
  abbrev encoded_random : ℕ → Result Bytes
  encoded_random n = encoded (random n)

  unfoldable pub generate_key : ℤ → Result Bytes
  generate_key (negsuc n) = err invalid_key_len
  generate_key (pos zero) = err invalid_key_len
  generate_key (pos (suc n)) = encoded_random (suc n)

  unfoldable pub generate_hmac_key : ℤ → Result Bytes
  generate_hmac_key (negsuc n) = err invalid_key_len
  generate_hmac_key (pos zero) = err invalid_key_len
  generate_hmac_key (pos (suc n)) = encoded_random (suc n)
