-- ===== src/Spa/Decode.antt =====
-- fkospa/spa_decode.go: the plaintext read back. `Decrypt` is in Packet.
use fwknop_go.Base.{
  ℕ, pos, Bool, true, false, Option, none, some, List, [], ◌∷◌, Bytes, length, ltb, ◌==◌,
  if◌then◌else◌, eqb, cut_last, split, parse_uint, parse_int64, max_uint32, unix_time,
}
use fwknop_go.Spa.Error.{
  Result, ok, err, ◌>>=◌, ◌>>◌, fail_if, or_error, invalid_data, unsupported_digest_type,
  digest_verification_failed,
}
use fwknop_go.Spa.Kinds.{
  DigestType, digest_md5, digest_sha1, digest_sha256, digest_sha384, digest_sha512, digest_sha3_256,
  digest_sha3_512, message_type_of, requires_nat_access, other_mode, other_hmac,
}
use fwknop_go.Spa.Base64.{b64_decode}
use fwknop_go.Spa.Message.{Message}
use fwknop_go.Spa.Digest.{
  Hashes, digest_base64, md5_b64_len, sha1_b64_len, sha256_b64_len, sha384_b64_len, sha512_b64_len,
}

unfoldable pub detect_digest_type : ℕ → Result DigestType
detect_digest_type n =
    if n == md5_b64_len
    then ok digest_md5
    else if n == sha1_b64_len
    then ok digest_sha1
    else if n == sha256_b64_len
    then ok digest_sha256
    else if n == sha384_b64_len
    then ok digest_sha384
    else if n == sha512_b64_len
    then ok digest_sha512
    else err unsupported_digest_type

-- The digest of one algorithm against the expected one.
abbrev digest_matches : Hashes → DigestType → Bytes → Bytes → Result Bool
digest_matches h dt msg expected = do computed ← digest_base64 h dt msg; ok (eqb computed expected)

abbrev accept : Bool → Result (Unit {0})
accept true = ok tt
accept false = err digest_verification_failed

-- The SHA-3 digests have the lengths of two others, and are tried behind them.
abbrev sha3_fallback : Hashes → DigestType → Bytes → Bytes → Result (Unit {0})
sha3_fallback h digest_sha256 msg expected =
    digest_matches h digest_sha3_256 msg expected >>= accept
sha3_fallback h digest_sha512 msg expected =
    digest_matches h digest_sha3_512 msg expected >>= accept
sha3_fallback h _ msg expected = err digest_verification_failed

unfoldable pub verify_digest : Hashes → Bytes → Bytes → DigestType → Result (Unit {0})
verify_digest h msg expected dt = do
  same ← digest_matches h dt msg expected
  if same then ok tt else sha3_fallback h dt msg expected

abbrev or_invalid {ℓ} : {A : Type ℓ} → Option A → Result A
or_invalid none = err invalid_data
or_invalid (some a) = ok a

-- NAT access, if the message type has it and a field is left.
unfoldable pub decode_nat : Message → List Bytes → Result (Message × List Bytes)
decode_nat m [] = ok (m, [])
decode_nat m (f ∷ fs) =
    if requires_nat_access m.message_type
    then (or_error (b64_decode f) invalid_data >>= λ nat. ok (record m { nat_access = nat }, fs))
    else ok (m, f ∷ fs)

unfoldable pub decode_timeout : Message → List Bytes → Result Message
decode_timeout m [] = ok m
decode_timeout m (f ∷ fs) = do
  timeout ← or_invalid (parse_uint max_uint32 f)
  ok (record m { client_timeout = timeout })

-- A field that reads as a number is the timeout, any other is the server authentication.
unfoldable pub decode_auth : Message → List Bytes → Result Message
decode_auth m [] = ok m
decode_auth m (f ∷ fs) = elim (parse_uint max_uint32 f) [
  | some timeout ↦ ok (record m { client_timeout = timeout })
  | none ↦ or_error (b64_decode f) invalid_data >>= λ auth.
      decode_timeout (record m { server_auth = auth }) fs
]

abbrev max_optional_fields : ℕ
max_optional_fields = 3

-- Six to nine fields.
unfoldable pub decode_fields : DigestType → List Bytes → Result Message
decode_fields dt (rand_val ∷ user ∷ time ∷ version ∷ type ∷ msg ∷ rest) = do
  fail_if (ltb max_optional_fields (length rest)) invalid_data
  username ← or_error (b64_decode user) invalid_data
  ts ← or_invalid (parse_int64 time)
  mt ← or_invalid (parse_int64 type)
  access ← or_error (b64_decode msg) invalid_data
  (m, left) ←
      decode_nat
        (record {
          rand_val = rand_val;
          username = username;
          timestamp = unix_time ts;
          message_type = message_type_of mt;
          access = access;
          nat_access = [];
          server_auth = [];
          client_timeout = 0;
          digest_type = dt;
          encryption_mode = other_mode (pos 0);
          hmac_type = other_hmac (pos 0);
        })
        rest
  decode_auth m left
decode_fields dt _ = err invalid_data

unfoldable pub decode_plaintext : Hashes → Bytes → Result Message
decode_plaintext h plaintext = elim (cut_last b':' plaintext) [
  | none ↦ err invalid_data
  | some (encoded_msg, digest) ↦ detect_digest_type (length digest) >>= λ digest_type.
      verify_digest h encoded_msg digest digest_type
      >> decode_fields digest_type (split b':' encoded_msg)
]
