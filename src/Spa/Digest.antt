-- ===== src/Spa/Digest.antt =====
-- fkospa/digest.go and fkospa/hmac.go. The hash functions themselves are an argument: they are
-- crypto/md5, crypto/sha1, crypto/sha256, crypto/sha512, x/crypto/sha3 and crypto/hmac.
use fwknop_go.Base.{ℕ, ◌≡◌, none, some, Bytes, AreBytes, length, eqb, if◌then◌else◌}
use fwknop_go.Spa.Error.{
  Result, ok, err, ◌>>=◌, hmac_verification_failed, unsupported_digest_type, unsupported_hmac_type,
}
use fwknop_go.Spa.Kinds.{
  HashFunc, md5, sha1, sha256, sha384, sha512, sha3_256, sha3_512, DigestType, HmacType,
  new_hash_func, hmac_digest_type, hmac_md5, hmac_sha1, hmac_sha256, hmac_sha384, hmac_sha512,
  hmac_sha3_256, hmac_sha3_512, other_hmac,
}
use fwknop_go.Spa.Base64.{b64_encode}

-- A hash of some data, and an HMAC under a key of some data.
pub record Hashes : Type 0 where
  pub sum : HashFunc → Bytes → Bytes
  pub mac : HashFunc → Bytes → Bytes → Bytes

-- The documented sizes of the results.
abbrev pub hash_size : HashFunc → ℕ
hash_size md5 = 16
hash_size sha1 = 20
hash_size sha256 = 32
hash_size sha384 = 48
hash_size sha512 = 64
hash_size sha3_256 = 32
hash_size sha3_512 = 64

pub record HashLaws (h : Hashes) : Type 0 where
  pub sum_size : (f : HashFunc) (d : Bytes) → length (h.sum f d) ≡ hash_size f
  pub sum_bytes : (f : HashFunc) (d : Bytes) → AreBytes (h.sum f d)
  pub mac_size : (f : HashFunc) (k d : Bytes) → length (h.mac f k d) ≡ hash_size f
  pub mac_bytes : (f : HashFunc) (k d : Bytes) → AreBytes (h.mac f k d)

module _ (h : Hashes) where
  unfoldable pub digest : DigestType → Bytes → Result Bytes
  digest dt s = elim (new_hash_func dt) [
    | none ↦ err unsupported_digest_type
    | some f ↦ ok (h.sum f s)
  ]

  unfoldable pub digest_base64 : DigestType → Bytes → Result Bytes
  digest_base64 dt s = do raw ← digest dt s; ok (b64_encode raw)

  unfoldable pub compute_hmac : HmacType → Bytes → Bytes → Result Bytes
  compute_hmac ht s key = elim (new_hash_func (hmac_digest_type ht)) [
    | none ↦ err unsupported_hmac_type
    | some f ↦ ok (h.mac f key s)
  ]

  unfoldable pub compute_hmac_base64 : HmacType → Bytes → Bytes → Result Bytes
  compute_hmac_base64 ht s key = do raw ← compute_hmac ht s key; ok (b64_encode raw)

  unfoldable pub verify_hmac : HmacType → Bytes → Bytes → Bytes → Result (Unit {0})
  verify_hmac ht s key expected = do
    computed ← compute_hmac ht s key
    if eqb computed expected then ok tt else err hmac_verification_failed

abbrev pub md5_b64_len : ℕ
md5_b64_len = 22

abbrev pub sha1_b64_len : ℕ
sha1_b64_len = 27

abbrev pub sha256_b64_len : ℕ
sha256_b64_len = 43

abbrev pub sha384_b64_len : ℕ
sha384_b64_len = 64

abbrev pub sha512_b64_len : ℕ
sha512_b64_len = 86

unfoldable pub hmac_b64_len : HmacType → ℕ
hmac_b64_len hmac_md5 = md5_b64_len
hmac_b64_len hmac_sha1 = sha1_b64_len
hmac_b64_len hmac_sha256 = sha256_b64_len
hmac_b64_len hmac_sha384 = sha384_b64_len
hmac_b64_len hmac_sha512 = sha512_b64_len
hmac_b64_len hmac_sha3_256 = sha256_b64_len
hmac_b64_len hmac_sha3_512 = sha512_b64_len
hmac_b64_len (other_hmac x) = 0
