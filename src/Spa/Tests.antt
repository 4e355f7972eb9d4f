-- ===== src/Spa/Tests.antt =====
-- Tests of fkospa at concrete inputs, with the stand-ins of Fixtures.
use fwknop_go.Base.{
  ℕ, ◌+◌, ◌*◌, ◌≡◌, refl, ap, Option, some, [], ◌∷◌, ◌++◌, arith, ◌⊎◌, trim_right, Bytes, codes,
  replicate,
}
use fwknop_go.Spa.Error.{ok, err, hmac_verification_failed, decryption_failed}
use fwknop_go.Spa.Kinds.{hmac_digest_type, new_hash_func, digest_sha256, hmac_sha256}
use fwknop_go.Spa.Base64.{b64_encode, b64_decode}
use fwknop_go.Spa.Base64.RoundTrip.{b64_decode-b64_encode}
use fwknop_go.Spa.Message.{generate_rand_val}
use fwknop_go.Spa.Validate.{valid_rand_val}
use fwknop_go.Spa.Validate.RandVal.{generate_rand_val_valid}
use fwknop_go.Spa.Digest.{compute_hmac, compute_hmac_base64, hmac_b64_len}
use fwknop_go.Spa.Cipher.{pkcs7_pad, encrypt_with_salt, aes_cbc_encrypt, aes_cbc_decrypt}
use fwknop_go.Spa.Cipher.Aes.{aes_cbc_decrypt-encrypt, aes_cbc_decrypt_errors}
use fwknop_go.Spa.Kdf.{aes_key_size, aes_block_size, derive_key_and_iv, kiv_loop}
use fwknop_go.Spa.Kdf.Blocks.{first_block, next_block, derive_blocks}
use fwknop_go.Spa.Packet.{decrypt, with_decrypt_mode, with_decrypt_hmac_type}
use fwknop_go.Spa.Packet.RoundTrip.{matching_options, decrypt-encrypt}
use fwknop_go.Spa.Packet.Authentic.{IsSigned, decrypt-IsSigned, decrypt_wrong_hmac}
use fwknop_go.Spa.Encode.{encode}
use fwknop_go.Spa.Decode.{decode_plaintext}
use fwknop_go.Spa.Wire.Decoding.{received}
use fwknop_go.Spa.Wire.RoundTrip.{decode_plaintext-encode}
use fwknop_go.Spa.Fixtures.{
  test_hashes, test-HashLaws, test_platform, test_message, or_nil, ok_or_nil, encodes,
  test_message-IsSendable, test_cipher, test-CipherLaws, test_salt, test_key, test_hmac_key,
  test_encrypted, encrypts, test_decrypts,
}

decode_plaintext-encode_example :
    decode_plaintext test_hashes (or_nil (encode test_hashes test_platform test_message))
    ≡ ok (received test_message digest_sha256)
decode_plaintext-encode_example =
    decode_plaintext-encode test_hashes test_platform test_message
      (or_nil (encode test_hashes test_platform test_message)) test-HashLaws test_message-IsSendable
      (ok_or_nil _ encodes)

decrypt-encrypt_example :
    decrypt test_hashes test_cipher
      (or_nil test_encrypted)
      test_key
      test_hmac_key
      (matching_options test_message)
    ≡ ok (received test_message digest_sha256)
decrypt-encrypt_example =
    decrypt-encrypt test_hashes test_cipher test_platform test_message test_key test_hmac_key
      test_salt (or_nil test_encrypted) test-HashLaws test-CipherLaws (omega arith) refl
      test_message-IsSendable (ok_or_nil test_encrypted encrypts)

decrypt-IsSigned_example : IsSigned test_hashes hmac_sha256 test_hmac_key (or_nil test_encrypted)
unfolding with_decrypt_mode with_decrypt_hmac_type
decrypt-IsSigned_example =
    decrypt-IsSigned test_hashes test_cipher (or_nil test_encrypted) test_key test_hmac_key
      (matching_options test_message) (received test_message digest_sha256) refl test_decrypts

abbrev first_code : Bytes → ℕ
first_code [] = 0
first_code (c ∷ s) = c

-- A tag of zeros, where the HMAC is not zero.
decrypt_wrong_hmac_example :
    decrypt test_hashes test_cipher (codes "AAAA" ++ replicate 43 b'A') test_key test_hmac_key []
    ≡ err hmac_verification_failed
unfolding compute_hmac_base64 compute_hmac hmac_digest_type new_hash_func b64_encode trim_right
    hmac_b64_len
decrypt_wrong_hmac_example =
    decrypt_wrong_hmac test_hashes test_cipher (codes "AAAA") _ (replicate 43 b'A') test_key
      test_hmac_key [] refl (omega arith) (omega arith) refl refl
      (λ e. omega (arith, ap first_code e))

b64_decode-b64_encode_example : b64_decode (b64_encode (codes "fwknop")) ≡ ok (codes "fwknop")
b64_decode-b64_encode_example = b64_decode-b64_encode (codes "fwknop") (omega arith)

aes_cbc_decrypt-encrypt_example :
    aes_cbc_decrypt test_hashes test_cipher
      (or_nil (aes_cbc_encrypt test_hashes test_cipher (codes "text") test_key (some test_salt)))
      test_key
    ≡ ok (codes "text")
unfolding aes_cbc_encrypt encrypt_with_salt derive_key_and_iv kiv_loop pkcs7_pad
aes_cbc_decrypt-encrypt_example =
    aes_cbc_decrypt-encrypt test_hashes test_cipher test-HashLaws test-CipherLaws (codes "text")
      test_key test_salt
      (or_nil (aes_cbc_encrypt test_hashes test_cipher (codes "text") test_key (some test_salt)))
      (omega arith) refl refl

aes_cbc_decrypt_errors_example :
    (aes_cbc_decrypt test_hashes test_cipher (codes "short") test_key ≡ err decryption_failed)
    ⊎ ((plaintext : Bytes) × (aes_cbc_decrypt test_hashes test_cipher (codes "short") test_key
          ≡ ok plaintext))
aes_cbc_decrypt_errors_example =
    aes_cbc_decrypt_errors test_hashes test_cipher test-HashLaws test-CipherLaws (codes "short")
      test_key

derive_blocks_example :
    let d1 = first_block test_hashes test_key test_salt in
    let d2 = next_block test_hashes test_key test_salt d1 in
    derive_key_and_iv test_hashes test_key test_salt aes_key_size aes_block_size
    ≡ (d1 ++ d2, next_block test_hashes test_key test_salt d2)
derive_blocks_example = derive_blocks test_hashes test_key test_salt test-HashLaws

abbrev test_draws : ℕ → Option ℕ
test_draws i = some (i * 1000 + 7)

generate_rand_val_valid_example :
    (s : Bytes) × (generate_rand_val test_draws ≡ ok s) × (valid_rand_val s ≡ ok tt)
generate_rand_val_valid_example = generate_rand_val_valid test_draws (λ i. (i * 1000 + 7, refl))
