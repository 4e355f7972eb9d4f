-- ===== src/Spa/Cipher.antt =====
-- fkospa/aes_cbc.go, aes_stub.go and the dispatch of encrypt.go. AES in CBC mode itself is an
-- argument: it is crypto/aes and crypto/cipher.
pub mod Padding
pub mod Aes
use fwknop_go.Base.{
  ℕ, zero, suc, ◌+◌, ◌-◌, ◌%◌, ◌≡◌, Bool, true, false, not, ◌&&◌, ◌||◌, Option, none, some, [], ◌∷◌,
  ◌++◌, Bytes, AreBytes, codes, length, take, drop, replicate, ltb, leb, ◌==◌, eqb, if◌then◌else◌,
}
use fwknop_go.Spa.Error.{
  Result, ok, err, ◌>>=◌, ◌>>◌, fail_if, decryption_failed, read_failed, bad_key_size, index_panic,
  unsupported_encryption_mode,
}
use fwknop_go.Spa.Kinds.{
  EncryptionMode, mode_ecb, mode_cbc, mode_cfb, mode_pcbc, mode_ofb, mode_ctr, mode_cbc_legacy,
  other_mode,
}
use fwknop_go.Spa.Digest.{Hashes}
use fwknop_go.Spa.Kdf.{aes_key_size, aes_block_size, aes_min_key_size, salt_len, derive_key_and_iv}

-- CBC encryption and decryption of whole blocks, under a key and an IV.
pub record BlockCipher : Type 0 where
  pub cbc_encrypt : Bytes → Bytes → Bytes → Bytes
  pub cbc_decrypt : Bytes → Bytes → Bytes → Bytes

-- For AES-256 keys, one-block IVs and whole blocks of bytes: decryption undoes encryption, which keeps the
-- length and gives bytes.
pub record CipherLaws (c : BlockCipher) : Type 0 where
  pub decrypt_encrypt :
      (key iv d : Bytes)
      → length key ≡ aes_key_size
      → length iv ≡ aes_block_size
      → length d % aes_block_size ≡ 0
      → AreBytes d
      → c.cbc_decrypt key iv (c.cbc_encrypt key iv d) ≡ d
  pub encrypt_size :
      (key iv d : Bytes)
      → length key ≡ aes_key_size
      → length iv ≡ aes_block_size
      → length d % aes_block_size ≡ 0
      → length (c.cbc_encrypt key iv d) ≡ length d
  pub encrypt_bytes :
      (key iv d : Bytes)
      → length key ≡ aes_key_size
      → length iv ≡ aes_block_size
      → length d % aes_block_size ≡ 0
      → AreBytes d
      → AreBytes (c.cbc_encrypt key iv d)
  pub decrypt_size :
      (key iv d : Bytes)
      → length key ≡ aes_key_size
      → length iv ≡ aes_block_size
      → length d % aes_block_size ≡ 0
      → length (c.cbc_decrypt key iv d) ≡ length d

-- byte(padLen) for every byte of the padding.
unfoldable pub pkcs7_pad : Bytes → ℕ → Bytes
pkcs7_pad d block_size =
    let pad_len = block_size - length d % block_size in d ++ replicate pad_len (pad_len % 256)

abbrev pub last_byte : Bytes → ℕ
last_byte [] = 0
last_byte (c ∷ []) = c
last_byte (c ∷ d ∷ s) = last_byte (d ∷ s)

abbrev pub all_equal : ℕ → Bytes → Bool
all_equal v [] = true
all_equal v (c ∷ s) = c == v && all_equal v s

-- Padding that is not valid is left in place. `none` is a panic: the loop reads before the text.
unfoldable pub pkcs7_unpad : Bytes → ℕ → Option Bytes
pkcs7_unpad [] block_size = some []
pkcs7_unpad (c ∷ s) block_size =
    let text = c ∷ s in
    let pad_val = last_byte text in
    if ltb pad_val 1 || ltb block_size pad_val
    then some text
    else if ltb (length text) pad_val
    then none
    else if all_equal pad_val (drop (length text - pad_val) text)
    then some (take (length text - pad_val) text)
    else some text

-- aes.NewCipher
abbrev new_cipher : Bytes → Result (Unit {0})
new_cipher key =
    fail_if (not (length key == 16 || length key == 24 || length key == 32)) bad_key_size

abbrev pub salted : Bytes
salted = codes "Salted__"

unfoldable pub legacy_pad_passphrase : Bytes → Bytes
legacy_pad_passphrase p =
    if leb aes_min_key_size (length p) then p else p ++ replicate (aes_min_key_size - length p) b'0'

module _ (h : Hashes) (c : BlockCipher) where
  unfoldable pub encrypt_with_salt : Bytes → Bytes → Bytes → Result Bytes
  encrypt_with_salt plaintext passphrase salt = do
    let (key, iv) = derive_key_and_iv h passphrase salt aes_key_size aes_block_size
    let padded = pkcs7_pad plaintext aes_block_size
    new_cipher key
    ok (salted ++ (salt ++ c.cbc_encrypt key iv padded))

  -- The salt is what rand.Reader gave, or `none` if the read failed.
  unfoldable pub aes_cbc_encrypt : Bytes → Bytes → Option Bytes → Result Bytes
  aes_cbc_encrypt plaintext passphrase none = err read_failed
  aes_cbc_encrypt plaintext passphrase (some salt) = encrypt_with_salt plaintext passphrase salt

  unfoldable pub aes_cbc_decrypt : Bytes → Bytes → Result Bytes
  aes_cbc_decrypt text passphrase = do
    fail_if (ltb (length text) (salt_len + salt_len + aes_block_size)) decryption_failed
    fail_if (not (eqb (take salt_len text) salted)) decryption_failed
    let salt = take salt_len (drop salt_len text)
    let ciphertext = drop (salt_len + salt_len) text
    fail_if (not (length ciphertext % aes_block_size == 0)) decryption_failed
    let (key, iv) = derive_key_and_iv h passphrase salt aes_key_size aes_block_size
    new_cipher key
    elim (pkcs7_unpad (c.cbc_decrypt key iv ciphertext) aes_block_size) [
      | none ↦ err index_panic
      | some plaintext ↦ ok plaintext
    ]

-- The implementations of EncryptDecrypter.
pub data Encrypter : Type 0 where
  aes_cbc aes_cbc_legacy_iv : Encrypter
  aes_stub : EncryptionMode → Encrypter

unfoldable pub encrypter_for : EncryptionMode → Result Encrypter
encrypter_for mode_cbc = ok aes_cbc
encrypter_for mode_cbc_legacy = ok aes_cbc_legacy_iv
encrypter_for (other_mode x) = err unsupported_encryption_mode
encrypter_for mode = ok (aes_stub mode)

module _ (h : Hashes) (c : BlockCipher) where
  unfoldable pub encrypter_encrypt : Encrypter → Bytes → Bytes → Option Bytes → Result Bytes
  encrypter_encrypt aes_cbc plaintext key salt = aes_cbc_encrypt h c plaintext key salt
  encrypter_encrypt aes_cbc_legacy_iv plaintext key salt =
      aes_cbc_encrypt h c plaintext (legacy_pad_passphrase key) salt
  encrypter_encrypt (aes_stub mode) plaintext key salt = err unsupported_encryption_mode

  unfoldable pub encrypter_decrypt : Encrypter → Bytes → Bytes → Result Bytes
  encrypter_decrypt aes_cbc ciphertext key = aes_cbc_decrypt h c ciphertext key
  encrypter_decrypt aes_cbc_legacy_iv ciphertext key =
      aes_cbc_decrypt h c ciphertext (legacy_pad_passphrase key)
  encrypter_decrypt (aes_stub mode) ciphertext key = err unsupported_encryption_mode
