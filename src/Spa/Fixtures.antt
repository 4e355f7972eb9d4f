-- ===== src/Spa/Fixtures.antt =====
-- Stand-ins for the hash functions, the cipher and the platform, and a packet for the tests.
use fwknop_go.Base.{
  ℕ, ◌+◌, ◌*◌, ◌%◌, ◌≡◌, refl, pos, inl, Bool, true, false, some, [], ◌∷◌, arith, parse_uint, map,
  runes, cut, parse_int64, trim_right, format_int, format_uint, unix_seconds, Bytes, codes,
  AreBytes, length, length-replicate, replicate, All-replicate, leb,
}
use fwknop_go.Spa.Error.{Result, ok, err}
use fwknop_go.Spa.Kinds.{
  hmac_digest_type, message_type_is_valid, requires_nat_access, message_type_code, new_hash_func,
  nat_access_msg, digest_sha256, digest_sha3_256, mode_cbc_legacy, hmac_sha256,
}
use fwknop_go.Spa.Base64.{b64_encode}
use fwknop_go.Spa.Message.{Message}
use fwknop_go.Spa.Validate.{
  Platform, validate, valid_rand_val, valid_username, valid_access_msg, valid_cmd_msg,
  valid_nat_access, proto_port_re, port_number,
}
use fwknop_go.Spa.Digest.{
  Hashes, HashLaws, hash_size, digest, digest_base64, compute_hmac, compute_hmac_base64,
}
use fwknop_go.Spa.Cipher.{
  BlockCipher, CipherLaws, pkcs7_pad, encrypt_with_salt, aes_cbc_encrypt, encrypter_for,
  encrypter_encrypt, legacy_pad_passphrase,
}
use fwknop_go.Spa.Kdf.{derive_key_and_iv, kiv_loop}
use fwknop_go.Spa.Packet.{encrypt, decrypt}
use fwknop_go.Spa.Packet.RoundTrip.{matching_options, decrypt-encrypt}
use fwknop_go.Spa.Encode.{encode, encoded_fields, effective_message_type}
use fwknop_go.Spa.Wire.Decoding.{IsSendable, received}

abbrev pub test_hashes : Hashes
test_hashes = record {
  sum = λ f d. replicate (hash_size f) (length d % 256);
  mac = λ f k d. replicate (hash_size f) ((length k + length d) % 256);
}

pub test-HashLaws : HashLaws test_hashes
test-HashLaws = record {
  sum_size = λ f d. length-replicate (hash_size f) _;
  sum_bytes = λ f d. All-replicate _ (hash_size f) _ (omega arith);
  mac_size = λ f k d. length-replicate (hash_size f) _;
  mac_bytes = λ f k d. All-replicate _ (hash_size f) _ (omega arith);
}

abbrev pub test_platform : Platform
test_platform = record {
  parse_ip = λ s. some s;
  is_print = λ r. leb 33 r;
  is_space = λ r. leb r 32;
}

abbrev pub test_message : Message
test_message = record {
  rand_val = codes "1234567890123456";
  username = codes "alice";
  timestamp = pos 1_700_000_000_500_000_000;
  message_type = nat_access_msg;
  access = codes "10.0.0.1,tcp/22";
  nat_access = codes "192.168.1.5,22";
  server_auth = codes "secret!";
  client_timeout = 60;
  digest_type = digest_sha3_256;
  encryption_mode = mode_cbc_legacy;
  hmac_type = hmac_sha256;
}

abbrev pub or_nil : Result Bytes → Bytes
or_nil (ok s) = s
or_nil (err e) = []

abbrev pub is_ok : Result Bytes → Bool
is_ok (ok s) = true
is_ok (err e) = false

pub ok_or_nil : (r : Result Bytes) → is_ok r ≡ true → r ≡ ok (or_nil r)
ok_or_nil (ok s) h = refl
ok_or_nil (err e) h = cc

pub encodes : is_ok (encode test_hashes test_platform test_message) ≡ true
unfolding encode validate valid_rand_val valid_username valid_access_msg valid_cmd_msg
    valid_nat_access runes cut proto_port_re port_number parse_int64 message_type_is_valid
    requires_nat_access encoded_fields effective_message_type b64_encode trim_right format_int
    format_uint unix_seconds message_type_code digest_base64 digest new_hash_func
encodes = refl

pub test_message-IsSendable : IsSendable test_message
unfolding b64_encode trim_right parse_uint unix_seconds requires_nat_access
test_message-IsSendable = record {
  bytes = record {
    username = omega arith;
    access = omega arith;
    nat_access = omega arith;
    server_auth = omega arith;
  };
  time = omega arith;
  timeout = omega arith;
  nat = inl refl;
  auth = refl;
}

-- A cipher that adds the length of the key to every byte.
abbrev pub test_cipher : BlockCipher
test_cipher = record {
  cbc_encrypt = λ k iv d. map (λ b. (b + length k) % 256) d;
  cbc_decrypt = λ k iv d. map (λ b. (b + 7 * length k) % 256) d;
}

shift_back :
    (k : ℕ) (d : Bytes)
    → k ≡ 32
    → AreBytes d
    → map (λ b. (b + 7 * k) % 256) (map (λ b. (b + k) % 256) d) ≡ d
shift_back k [] e h = refl
shift_back k (c ∷ d) e h = ground (arith, shift_back k d e h.1)

shifted_length : (f : ℕ → ℕ) (d : Bytes) → length (map f d) ≡ length d
shifted_length f [] = refl
shifted_length f (c ∷ d) = omega (arith, shifted_length f d)

shifted_bytes : (k : ℕ) (d : Bytes) → AreBytes (map (λ b. (b + k) % 256) d)
shifted_bytes k [] = tt
shifted_bytes k (c ∷ d) = (omega arith, shifted_bytes k d)

pub test-CipherLaws : CipherLaws test_cipher
test-CipherLaws = record {
  decrypt_encrypt = λ k iv d hk hi hd hb. shift_back (length k) d hk hb;
  encrypt_size = λ k iv d hk hi hd. shifted_length _ d;
  encrypt_bytes = λ k iv d hk hi hd hb. shifted_bytes (length k) d;
  decrypt_size = λ k iv d hk hi hd. shifted_length _ d;
}

abbrev pub test_salt : Bytes
test_salt = codes "saltsalt"

abbrev pub test_key : Bytes
test_key = codes "passphrase"

abbrev pub test_hmac_key : Bytes
test_hmac_key = codes "hmac key"

abbrev pub test_encrypted : Result Bytes
test_encrypted =
    encrypt test_hashes test_cipher test_platform test_message test_key test_hmac_key
      (some test_salt)

pub encrypts : is_ok test_encrypted ≡ true
unfolding encrypt encode validate valid_rand_val valid_username valid_access_msg valid_cmd_msg
    valid_nat_access runes cut proto_port_re port_number parse_int64 message_type_is_valid
    requires_nat_access encoded_fields effective_message_type b64_encode trim_right format_int
    format_uint unix_seconds message_type_code digest_base64 digest new_hash_func encrypter_for
    encrypter_encrypt aes_cbc_encrypt encrypt_with_salt derive_key_and_iv kiv_loop pkcs7_pad
    legacy_pad_passphrase compute_hmac_base64 compute_hmac hmac_digest_type
encrypts = refl

pub test_decrypts :
    decrypt test_hashes test_cipher
      (or_nil test_encrypted)
      test_key
      test_hmac_key
      (matching_options test_message)
    ≡ ok (received test_message digest_sha256)
test_decrypts =
    decrypt-encrypt test_hashes test_cipher test_platform test_message test_key test_hmac_key
      test_salt (or_nil test_encrypted) test-HashLaws test-CipherLaws (omega arith) refl
      test_message-IsSendable (ok_or_nil test_encrypted encrypts)
