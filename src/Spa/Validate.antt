-- ===== src/Spa/Validate.antt =====
-- fkospa/spa_fields.go and the method validate of spa_encode.go. net.ParseIP and the tables of
-- package unicode are arguments.
pub mod RandVal
use fwknop_go.Base.{
  ℕ, zero, suc, ◌<◌, ℤ, pos, negsuc, Bool, true, false, not, ◌&&◌, ◌||◌, Option, none, some, List,
  [], ◌∷◌, Bytes, codes, length, ltb, leb, ◌==◌, if◌then◌else◌, cut, runes, is_digit, all_digits,
  parse_int64, max_int64,
}
use fwknop_go.Spa.Error.{Result, ok, err, ◌>>=◌, ◌>>◌, fail_if, invalid_data, missing_field}
use fwknop_go.Spa.Kinds.{MessageType, command_msg, message_type_is_valid, requires_nat_access}
use fwknop_go.Spa.Message.{Message, fko_rand_val_size}

-- What the field checks use of the standard library: net.ParseIP (the address as 16 bytes),
-- unicode.IsPrint and unicode.IsSpace.
pub record Platform : Type 0 where
  pub parse_ip : Bytes → Option Bytes
  pub is_print : ℕ → Bool
  pub is_space : ℕ → Bool

abbrev pub max_spa_encoded_msg_size : ℕ
max_spa_encoded_msg_size = 1500

abbrev pub min_spa_encoded_msg_size : ℕ
min_spa_encoded_msg_size = 36

abbrev max_spa_message_size : ℕ
max_spa_message_size = 256

abbrev max_spa_username_size : ℕ
max_spa_username_size = 64

abbrev max_spa_cmd_len : ℕ
max_spa_cmd_len = 1400

abbrev max_spa_nat_access_size : ℕ
max_spa_nat_access_size = 128

abbrev max_port : ℕ
max_port = 65535

abbrev pub is_empty : Bytes → Bool
is_empty [] = true
is_empty (c ∷ s) = false

abbrev pub all_runes : (ℕ → Bool) → List ℕ → Bool
all_runes p [] = true
all_runes p (r ∷ rs) = p r && all_runes p rs

-- The group (\d+) of `^(tcp|udp|icmp)/(\d+)$`, if the text matches.
abbrev digits_only : Bytes → Option Bytes
digits_only [] = none
digits_only (c ∷ s) = if all_digits (c ∷ s) then some (c ∷ s) else none

abbrev strip_prefix : Bytes → Bytes → Option Bytes
strip_prefix [] s = some s
strip_prefix (p ∷ ps) [] = none
strip_prefix (p ∷ ps) (c ∷ s) = let rest = strip_prefix ps s in if p == c then rest else none

abbrev first_some : Option Bytes → Option Bytes → Option Bytes
first_some none o = o
first_some (some s) o = some s

unfoldable pub proto_port_re : Bytes → Option Bytes
proto_port_re s =
    elim (first_some (strip_prefix (codes "tcp/") s)
      (first_some (strip_prefix (codes "udp/") s) (strip_prefix (codes "icmp/") s))) [
        | none ↦ none
        | some p ↦ digits_only p
      ]

-- `port, _ := strconv.Atoi(portStr)` on digits: out of range it is the largest int.
unfoldable pub port_number : Bytes → ℕ
unfolding parse_int64
port_number s = elim (parse_int64 s) [ none ↦ max_int64 | some (pos n) ↦ n | some (negsuc n) ↦ 0 ]

module _ (pl : Platform) where
  unfoldable pub valid_username : Bytes → Result (Unit {0})
  unfolding runes
  valid_username u = do
    fail_if (is_empty u) missing_field
    fail_if (ltb max_spa_username_size (length u)) invalid_data
    fail_if (not (all_runes (λ r. pl.is_print r && not (pl.is_space r)) (runes u))) invalid_data

  unfoldable pub valid_access_msg : Bytes → Result (Unit {0})
  unfolding cut proto_port_re port_number
  valid_access_msg msg = do
    fail_if (is_empty msg) missing_field
    fail_if (ltb max_spa_message_size (length msg)) invalid_data
    elim (cut b',' msg) [
      | none ↦ err invalid_data
      | some (ip, proto_port) ↦ elim (pl.parse_ip ip) [
        | none ↦ err invalid_data
        | some addr ↦ elim (proto_port_re proto_port) [
          | none ↦ err invalid_data
          | some port ↦
              fail_if (ltb (port_number port) 1 || ltb max_port (port_number port)) invalid_data
        ]
      ]
    ]

unfoldable pub valid_cmd_msg : Bytes → Result (Unit {0})
valid_cmd_msg msg = do
  fail_if (is_empty msg) missing_field
  fail_if (ltb max_spa_cmd_len (length msg)) invalid_data

unfoldable pub valid_nat_access : Bytes → Result (Unit {0})
valid_nat_access nat = do
  fail_if (is_empty nat) missing_field
  fail_if (ltb max_spa_nat_access_size (length nat)) invalid_data

-- The loop runs over the runes; a rune that is a digit is one byte.
unfoldable pub valid_rand_val : Bytes → Result (Unit {0})
unfolding runes
valid_rand_val val = do
  fail_if (not (length val == fko_rand_val_size)) invalid_data
  fail_if (not (all_runes is_digit (runes val))) invalid_data

abbrev pub is_command : MessageType → Bool
is_command command_msg = true
is_command _ = false

unfoldable pub validate : Platform → Message → Result (Unit {0})
validate pl m = do
  valid_rand_val m.rand_val
  valid_username pl m.username
  fail_if (not (message_type_is_valid m.message_type)) invalid_data
  if is_command m.message_type then valid_cmd_msg m.access else valid_access_msg pl m.access
  if requires_nat_access m.message_type then valid_nat_access m.nat_access else ok tt
