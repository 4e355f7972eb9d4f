-- ===== src/Spa/Kinds.antt =====
-- The enumerations of fkospa: message_type.go, digest.go, hmac.go, encrypt.go. They are Go integers:
-- the constructor `other_…` is a value that no constant names, and it takes the default branch of
-- each switch.
use fwknop_go.Base.{
  ℤ, pos, negsuc, Bool, true, false, Option, none, some, Bytes, codes, format_int, ◌++◌, ◌==◌,
  if◌then◌else◌,
}

unfoldable pub unknown : ℤ → Bytes
unknown x = codes "Unknown(" ++ (format_int x ++ codes ")")

pub data MessageType : Type 0 where
  command_msg : MessageType
  access_msg : MessageType
  nat_access_msg : MessageType
  client_timeout_access_msg : MessageType
  client_timeout_nat_access_msg : MessageType
  local_nat_access_msg : MessageType
  client_timeout_local_nat_access_msg : MessageType
  other_msg : ℤ → MessageType

-- The integer of a value.
unfoldable pub message_type_code : MessageType → ℤ
message_type_code command_msg = pos 0
message_type_code access_msg = pos 1
message_type_code nat_access_msg = pos 2
message_type_code client_timeout_access_msg = pos 3
message_type_code client_timeout_nat_access_msg = pos 4
message_type_code local_nat_access_msg = pos 5
message_type_code client_timeout_local_nat_access_msg = pos 6
message_type_code (other_msg x) = x

unfoldable pub message_type_string : MessageType → Bytes
unfolding unknown
message_type_string command_msg = codes "Command"
message_type_string access_msg = codes "Access"
message_type_string nat_access_msg = codes "NATAccess"
message_type_string client_timeout_access_msg = codes "ClientTimeoutAccess"
message_type_string client_timeout_nat_access_msg = codes "ClientTimeoutNATAccess"
message_type_string local_nat_access_msg = codes "LocalNATAccess"
message_type_string client_timeout_local_nat_access_msg = codes "ClientTimeoutLocalNATAccess"
message_type_string (other_msg x) = unknown x

unfoldable pub message_type_is_valid : MessageType → Bool
message_type_is_valid (other_msg x) = false
message_type_is_valid _ = true

-- The conversion MessageType(n) of an integer.
unfoldable pub message_type_of : ℤ → MessageType
message_type_of (negsuc n) = other_msg (negsuc n)
message_type_of (pos n) =
    if n == 0
    then command_msg
    else if n == 1
    then access_msg
    else if n == 2
    then nat_access_msg
    else if n == 3
    then client_timeout_access_msg
    else if n == 4
    then client_timeout_nat_access_msg
    else if n == 5
    then local_nat_access_msg
    else if n == 6
    then client_timeout_local_nat_access_msg
    else other_msg (pos n)

unfoldable pub requires_nat_access : MessageType → Bool
requires_nat_access nat_access_msg = true
requires_nat_access client_timeout_nat_access_msg = true
requires_nat_access local_nat_access_msg = true
requires_nat_access client_timeout_local_nat_access_msg = true
requires_nat_access _ = false

unfoldable pub requires_client_timeout : MessageType → Bool
requires_client_timeout client_timeout_access_msg = true
requires_client_timeout client_timeout_nat_access_msg = true
requires_client_timeout client_timeout_local_nat_access_msg = true
requires_client_timeout _ = false

-- The hash functions of crypto/* and x/crypto/sha3 that the library names.
pub data HashFunc : Type 0 where
  md5 sha1 sha256 sha384 sha512 sha3_256 sha3_512 : HashFunc

pub data DigestType : Type 0 where
  digest_md5 : DigestType
  digest_sha1 : DigestType
  digest_sha256 : DigestType
  digest_sha384 : DigestType
  digest_sha512 : DigestType
  digest_sha3_256 : DigestType
  digest_sha3_512 : DigestType
  other_digest : ℤ → DigestType

-- The integer of a value.
unfoldable pub digest_type_code : DigestType → ℤ
digest_type_code digest_md5 = pos 1
digest_type_code digest_sha1 = pos 2
digest_type_code digest_sha256 = pos 3
digest_type_code digest_sha384 = pos 4
digest_type_code digest_sha512 = pos 5
digest_type_code digest_sha3_256 = pos 6
digest_type_code digest_sha3_512 = pos 7
digest_type_code (other_digest x) = x

unfoldable pub digest_type_string : DigestType → Bytes
unfolding unknown
digest_type_string digest_md5 = codes "MD5"
digest_type_string digest_sha1 = codes "SHA1"
digest_type_string digest_sha256 = codes "SHA256"
digest_type_string digest_sha384 = codes "SHA384"
digest_type_string digest_sha512 = codes "SHA512"
digest_type_string digest_sha3_256 = codes "SHA3-256"
digest_type_string digest_sha3_512 = codes "SHA3-512"
digest_type_string (other_digest x) = unknown x

unfoldable pub digest_type_is_valid : DigestType → Bool
digest_type_is_valid (other_digest x) = false
digest_type_is_valid _ = true

-- The constructor of the hash; `none` is nil.
unfoldable pub new_hash_func : DigestType → Option HashFunc
new_hash_func digest_md5 = some md5
new_hash_func digest_sha1 = some sha1
new_hash_func digest_sha256 = some sha256
new_hash_func digest_sha384 = some sha384
new_hash_func digest_sha512 = some sha512
new_hash_func digest_sha3_256 = some sha3_256
new_hash_func digest_sha3_512 = some sha3_512
new_hash_func (other_digest x) = none

pub data HmacType : Type 0 where
  hmac_md5 : HmacType
  hmac_sha1 : HmacType
  hmac_sha256 : HmacType
  hmac_sha384 : HmacType
  hmac_sha512 : HmacType
  hmac_sha3_256 : HmacType
  hmac_sha3_512 : HmacType
  other_hmac : ℤ → HmacType

-- The integer of a value.
unfoldable pub hmac_type_code : HmacType → ℤ
hmac_type_code hmac_md5 = pos 1
hmac_type_code hmac_sha1 = pos 2
hmac_type_code hmac_sha256 = pos 3
hmac_type_code hmac_sha384 = pos 4
hmac_type_code hmac_sha512 = pos 5
hmac_type_code hmac_sha3_256 = pos 6
hmac_type_code hmac_sha3_512 = pos 7
hmac_type_code (other_hmac x) = x

unfoldable pub hmac_type_string : HmacType → Bytes
unfolding unknown
hmac_type_string hmac_md5 = codes "HMAC-MD5"
hmac_type_string hmac_sha1 = codes "HMAC-SHA1"
hmac_type_string hmac_sha256 = codes "HMAC-SHA256"
hmac_type_string hmac_sha384 = codes "HMAC-SHA384"
hmac_type_string hmac_sha512 = codes "HMAC-SHA512"
hmac_type_string hmac_sha3_256 = codes "HMAC-SHA3-256"
hmac_type_string hmac_sha3_512 = codes "HMAC-SHA3-512"
hmac_type_string (other_hmac x) = unknown x

unfoldable pub hmac_type_is_valid : HmacType → Bool
hmac_type_is_valid (other_hmac x) = false
hmac_type_is_valid _ = true

-- The conversion DigestType(ht) keeps the integer.
unfoldable pub hmac_digest_type : HmacType → DigestType
hmac_digest_type hmac_md5 = digest_md5
hmac_digest_type hmac_sha1 = digest_sha1
hmac_digest_type hmac_sha256 = digest_sha256
hmac_digest_type hmac_sha384 = digest_sha384
hmac_digest_type hmac_sha512 = digest_sha512
hmac_digest_type hmac_sha3_256 = digest_sha3_256
hmac_digest_type hmac_sha3_512 = digest_sha3_512
hmac_digest_type (other_hmac x) = other_digest x

pub data EncryptionMode : Type 0 where
  mode_ecb : EncryptionMode
  mode_cbc : EncryptionMode
  mode_cfb : EncryptionMode
  mode_pcbc : EncryptionMode
  mode_ofb : EncryptionMode
  mode_ctr : EncryptionMode
  mode_cbc_legacy : EncryptionMode
  other_mode : ℤ → EncryptionMode

-- The integer of a value.
unfoldable pub encryption_mode_code : EncryptionMode → ℤ
encryption_mode_code mode_ecb = pos 1
encryption_mode_code mode_cbc = pos 2
encryption_mode_code mode_cfb = pos 3
encryption_mode_code mode_pcbc = pos 4
encryption_mode_code mode_ofb = pos 5
encryption_mode_code mode_ctr = pos 6
encryption_mode_code mode_cbc_legacy = pos 8
encryption_mode_code (other_mode x) = x

unfoldable pub encryption_mode_string : EncryptionMode → Bytes
unfolding unknown
encryption_mode_string mode_ecb = codes "ECB"
encryption_mode_string mode_cbc = codes "CBC"
encryption_mode_string mode_cfb = codes "CFB"
encryption_mode_string mode_pcbc = codes "PCBC"
encryption_mode_string mode_ofb = codes "OFB"
encryption_mode_string mode_ctr = codes "CTR"
encryption_mode_string mode_cbc_legacy = codes "CBC-LegacyIV"
encryption_mode_string (other_mode x) = unknown x

unfoldable pub encryption_mode_is_valid : EncryptionMode → Bool
encryption_mode_is_valid (other_mode x) = false
encryption_mode_is_valid _ = true
