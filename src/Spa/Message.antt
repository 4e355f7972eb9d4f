-- ===== src/Spa/Message.antt =====
-- fkospa/spa.go: the message, its options and its construction. Times are in nanoseconds since the
-- Unix epoch. What comes from outside is an argument: the clock, the current user, and the random
-- numbers below 10^9, of which any draw may fail.
use fwknop_go.Base.{
  ℕ, zero, suc, ◌+◌, ℤ, ◌+ℤ◌, not, Option, none, some, List, [], ◌∷◌, ◌++◌, Bytes, length, take,
  ltb, if◌then◌else◌, format_uint,
}
use fwknop_go.Spa.Error.{
  Result, ok, err, ◌>>=◌, ◌>>◌, fail_if, invalid_data, read_failed, user_unknown,
}
use fwknop_go.Spa.Kinds.{
  MessageType, DigestType, EncryptionMode, HmacType, access_msg, digest_sha256, mode_cbc,
  hmac_sha256, message_type_is_valid, digest_type_is_valid, encryption_mode_is_valid,
  hmac_type_is_valid,
}

pub record Message : Type 0 where
  pub rand_val : Bytes
  pub username : Bytes
  pub timestamp : ℤ
  pub message_type : MessageType
  pub access : Bytes
  pub nat_access : Bytes
  pub server_auth : Bytes
  pub client_timeout : ℕ
  pub digest_type : DigestType
  pub encryption_mode : EncryptionMode
  pub hmac_type : HmacType

-- `func(*Message) error`: a failed option changes nothing.
abbrev pub MessageOption : Type 0
MessageOption = Message → Result Message

unfoldable pub with_rand_val : Bytes → MessageOption
with_rand_val v m = ok (record m { rand_val = v })

unfoldable pub with_username : Bytes → MessageOption
with_username u m = ok (record m { username = u })

unfoldable pub with_timestamp : ℤ → MessageOption
with_timestamp t m = ok (record m { timestamp = t })

unfoldable pub with_timestamp_offset : ℤ → ℤ → MessageOption
unfolding ◌+ℤ◌
with_timestamp_offset now d m = ok (record m { timestamp = now +ℤ d })

unfoldable pub with_message_type : MessageType → MessageOption
unfolding message_type_is_valid
with_message_type t m = do
  fail_if (not (message_type_is_valid t)) invalid_data
  ok (record m { message_type = t })

unfoldable pub with_access_msg : Bytes → MessageOption
with_access_msg a m = ok (record m { access = a })

unfoldable pub with_nat_access : Bytes → MessageOption
with_nat_access a m = ok (record m { nat_access = a })

unfoldable pub with_server_auth : Bytes → MessageOption
with_server_auth a m = ok (record m { server_auth = a })

unfoldable pub with_client_timeout : ℕ → MessageOption
with_client_timeout s m = ok (record m { client_timeout = s })

unfoldable pub with_digest_type : DigestType → MessageOption
unfolding digest_type_is_valid
with_digest_type t m = do
  fail_if (not (digest_type_is_valid t)) invalid_data
  ok (record m { digest_type = t })

unfoldable pub with_encryption_mode : EncryptionMode → MessageOption
unfolding encryption_mode_is_valid
with_encryption_mode t m = do
  fail_if (not (encryption_mode_is_valid t)) invalid_data
  ok (record m { encryption_mode = t })

unfoldable pub with_hmac_type : HmacType → MessageOption
unfolding hmac_type_is_valid
with_hmac_type t m = do
  fail_if (not (hmac_type_is_valid t)) invalid_data
  ok (record m { hmac_type = t })

abbrev pub fko_rand_val_size : ℕ
fko_rand_val_size = 16

-- The loop of generateRandVal: `draw i` is the number of round `i`.
unfoldable pub rand_loop : (ℕ → Option ℕ) → ℕ → ℕ → Bytes → Result Bytes
rand_loop draw zero i val = err read_failed
rand_loop draw (suc fuel) i val =
    let more : Result Bytes = elim (draw i) [
      | none ↦ err read_failed
      | some n ↦ rand_loop draw fuel (i + 1) (val ++ format_uint n)
    ] in
    if ltb (length val) fko_rand_val_size then more else ok (take fko_rand_val_size val)

-- Every round writes a digit or more, so 17 units of fuel are enough.
unfoldable pub generate_rand_val : (ℕ → Option ℕ) → Result Bytes
unfolding rand_loop format_uint
generate_rand_val draw = rand_loop draw 17 0 []

abbrev pub apply_options : List MessageOption → Message → Result Message
apply_options [] m = ok m
apply_options (o ∷ os) m = o m >>= apply_options os

abbrev pub current_username : Option Bytes → Result Bytes
current_username none = err user_unknown
current_username (some u) = ok u

unfoldable pub new_with_options :
    (ℕ → Option ℕ) → Option Bytes → ℤ → List MessageOption → Result Message
unfolding generate_rand_val
new_with_options draw user now opts = do
  val ← generate_rand_val draw
  name ← current_username user
  apply_options opts (record {
    rand_val = val;
    username = name;
    timestamp = now;
    message_type = access_msg;
    access = [];
    nat_access = [];
    server_auth = [];
    client_timeout = 0;
    digest_type = digest_sha256;
    encryption_mode = mode_cbc;
    hmac_type = hmac_sha256;
  })
