-- ===== src/Spa/Cipher/Aes.antt =====
-- aes_cbc.go: the round trip, the errors of the decrypter, and that it does not panic.
use fwknop_go.Base.{
  ◌%◌, ◌≤◌, ◌≡◌, ◌≢◌, refl, ap, ◌∙◌, ◌⊎◌, inl, inr, true, false, none, some, [], ◌∷◌, ◌++◌, arith,
  Bytes, AreBytes, length, length-append, length-drop, take, drop, take-append_exact,
  drop-append_exact, ltb, ◌==◌, eqb, Option-cases, Bool-cases,
}
use fwknop_go.Spa.Error.{ok, err, decryption_failed}
use fwknop_go.Spa.Digest.{Hashes, HashLaws}
use fwknop_go.Spa.Kdf.{aes_key_size, aes_block_size, derive_key_and_iv}
use fwknop_go.Spa.Kdf.Blocks.{derive_lengths}
use fwknop_go.Spa.Cipher.{
  BlockCipher, CipherLaws, pkcs7_pad, pkcs7_unpad, salted, encrypt_with_salt, aes_cbc_encrypt,
  aes_cbc_decrypt,
}
use fwknop_go.Spa.Cipher.Padding.{length-pkcs7_pad, pkcs7_pad_bytes, pkcs7_unpad-pkcs7_pad}

module _ (h : Hashes) (c : BlockCipher) (hl : HashLaws h) (cl : CipherLaws c) where
  module _ (plaintext passphrase salt : Bytes) (pb : AreBytes plaintext) where
    abbrev key : Bytes
    key = (derive_key_and_iv h passphrase salt aes_key_size aes_block_size).0

    abbrev iv : Bytes
    iv = (derive_key_and_iv h passphrase salt aes_key_size aes_block_size).1

    abbrev padded : Bytes
    padded = pkcs7_pad plaintext aes_block_size

    abbrev ciphertext : Bytes
    ciphertext = c.cbc_encrypt key iv padded

    key_length : length key ≡ 32
    key_length = (derive_lengths h passphrase salt hl aes_key_size aes_block_size).0

    length-iv : length iv ≡ 16
    length-iv = (derive_lengths h passphrase salt hl aes_key_size aes_block_size).1

    length-padded : (length padded % 16 ≡ 0) × (16 ≤ length padded)
    length-padded = omega (arith, length-pkcs7_pad plaintext 16 (omega arith))

    padded_bytes : AreBytes padded
    padded_bytes = pkcs7_pad_bytes plaintext 16 pb

    length-ciphertext : length ciphertext ≡ length padded
    length-ciphertext = cl.encrypt_size key iv padded key_length length-iv length-padded.0

    -- What the encrypter writes: the prefix, the salt and at least one block.
    pub encrypt_with_salt_lem :
        encrypt_with_salt h c plaintext passphrase salt ≡ ok (salted ++ (salt ++ ciphertext))
    unfolding encrypt_with_salt
    encrypt_with_salt_lem = ground (arith, key_length)

    pub ciphertext_bytes : AreBytes ciphertext
    ciphertext_bytes =
        cl.encrypt_bytes key iv padded key_length length-iv length-padded.0 padded_bytes

    unpadded : pkcs7_unpad (c.cbc_decrypt key iv ciphertext) aes_block_size ≡ some plaintext
    unpadded =
        ap (λ t. pkcs7_unpad t aes_block_size)
          (cl.decrypt_encrypt key iv padded key_length length-iv length-padded.0 padded_bytes)
        ∙ pkcs7_unpad-pkcs7_pad plaintext 16 (omega arith) (omega arith)

    decrypt_written :
        length salt ≡ 8
        → aes_cbc_decrypt h c (salted ++ (salt ++ ciphertext)) passphrase ≡ ok plaintext
    unfolding aes_cbc_decrypt
    decrypt_written s =
        let long : ltb (length (salted ++ (salt ++ ciphertext))) 32 ≡ false =
          ground (arith, length-append salt ciphertext, length-ciphertext, length-padded) in
        let aligned : (length ciphertext % 16 == 0) ≡ true =
          ground (arith, length-ciphertext, length-padded) in
        rw
          (
            long,
            take-append_exact 8 salt ciphertext s,
            drop-append_exact 8 salt ciphertext s,
            aligned,
            key_length,
            unpadded,
          )
          refl

    -- The ciphertext is whole blocks, one at least.
    pub ciphertext_blocks : 16 ≤ length ciphertext
    ciphertext_blocks = omega (arith, length-ciphertext, length-padded)

  -- Under the laws of the hashes and the cipher, decrypting what was encrypted under the same
  -- passphrase gives the plaintext back, for every plaintext of bytes and every salt of 8 bytes.
  pub aes_cbc_decrypt-encrypt :
      (plaintext passphrase salt text : Bytes)
      → AreBytes plaintext
      → length salt ≡ 8
      → aes_cbc_encrypt h c plaintext passphrase (some salt) ≡ ok text
      → aes_cbc_decrypt h c text passphrase ≡ ok plaintext
  unfolding aes_cbc_encrypt
  aes_cbc_decrypt-encrypt plaintext passphrase salt text pb s e =
      let text_is : text ≡ salted ++ (salt ++ ciphertext plaintext passphrase salt pb) =
        ground (arith, encrypt_with_salt_lem plaintext passphrase salt pb) in
      rw text_is (decrypt_written plaintext passphrase salt pb s)

  unpad-ne-none : (text : Bytes) → 16 ≤ length text → pkcs7_unpad text 16 ≢ none
  unfolding pkcs7_unpad
  unpad-ne-none [] l = absurd (omega arith)
  unpad-ne-none (a ∷ s) l = ground arith

  -- The last step, on a ciphertext of whole blocks.
  unpad_decrypted :
      (key iv text : Bytes)
      → length key ≡ 32
      → length iv ≡ 16
      → length text % 16 ≡ 0
      → 16 ≤ length text
      → (s : Bytes) × (pkcs7_unpad (c.cbc_decrypt key iv text) 16 ≡ some s)
  unpad_decrypted key iv text k v a l =
      elim (Option-cases (pkcs7_unpad (c.cbc_decrypt key iv text) 16)) [
        | inl bad ↦ absurd (unpad-ne-none _ (omega (arith, cl.decrypt_size key iv text k v a)) bad)
        | inr good ↦ good
      ]

  -- Under the laws of the hashes and the cipher, whatever the input, the decrypter fails in one way
  -- only: never with a panic of the unpadding loop and never with a bad key size.
  pub aes_cbc_decrypt_errors :
      (text passphrase : Bytes)
      → (aes_cbc_decrypt h c text passphrase ≡ err decryption_failed)
        ⊎ ((plaintext : Bytes) × (aes_cbc_decrypt h c text passphrase ≡ ok plaintext))
  unfolding aes_cbc_decrypt
  aes_cbc_decrypt_errors text passphrase = elim (Bool-cases (ltb (length text) 32)) [
    | inl short ↦ inl (rw short refl)
    | inr long ↦ elim (Bool-cases (eqb (take 8 text) salted)) [
      | inr other ↦ inl (rw (long, other) refl)
      | inl prefix ↦ elim (Bool-cases (length (drop 16 text) % 16 == 0)) [
        | inr ragged ↦ inl (rw (long, prefix, ragged) refl)
        | inl aligned ↦
            let salt = take 8 (drop 8 text) in
            let (k, v) = derive_lengths h passphrase salt hl 32 16 in
            let (s, e) =
              unpad_decrypted (derive_key_and_iv h passphrase salt 32 16).0
                (derive_key_and_iv h passphrase salt 32 16).1 (drop 16 text) k v (ground arith)
                (ground (arith, length-drop 16 text)) in
            inr (s, rw (long, prefix, aligned, k, e) refl)
      ]
    ]
  ]
