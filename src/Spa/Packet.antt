-- ===== src/Spa/Packet.antt =====
-- fkospa: the method Encrypt of spa_encode.go, and Decrypt with its options of spa_decode.go.
pub mod RoundTrip
pub mod Authentic
use fwknop_go.Base.{
  ℕ, ◌-◌, ◌≤◌, Bool, true, false, not, List, [], ◌∷◌, ◌++◌, Option, Bytes, codes, length, take,
  drop, leb, ◌==◌, eqb, if◌then◌else◌,
}
use fwknop_go.Spa.Error.{
  Result, ok, err, ◌>>=◌, ◌>>◌, fail_if, or_error, hmac_verification_failed, decryption_failed,
  unsupported_hmac_type,
}
use fwknop_go.Spa.Kinds.{EncryptionMode, HmacType, mode_cbc, hmac_sha256}
use fwknop_go.Spa.Base64.{b64_encode, b64_decode}
use fwknop_go.Spa.Message.{Message}
use fwknop_go.Spa.Validate.{Platform, is_empty}
use fwknop_go.Spa.Digest.{Hashes, compute_hmac_base64, hmac_b64_len}
use fwknop_go.Spa.Cipher.{BlockCipher, encrypter_for, encrypter_encrypt, encrypter_decrypt}
use fwknop_go.Spa.Encode.{encode}
use fwknop_go.Spa.Decode.{decode_plaintext}

-- fkospa/version.go: the start of the base64 of "Salted__", which is not sent.
abbrev pub b64_salt_prefix : Bytes
b64_salt_prefix = codes "U2FsdGVkX1"

abbrev pub prefix_length : ℕ
prefix_length = 10

module _ (h : Hashes) where
  -- The end of Encrypt: no HMAC without a key.
  abbrev pub with_hmac : HmacType → Bytes → Bytes → Bytes → Result Bytes
  with_hmac ht b64_ciphertext stripped hmac_key =
      if is_empty hmac_key
      then ok stripped
      else (compute_hmac_base64 h ht b64_ciphertext hmac_key >>= λ hmac. ok (stripped ++ hmac))

module _ (h : Hashes) (c : BlockCipher) where
  unfoldable pub encrypt : Platform → Message → Bytes → Bytes → Option Bytes → Result Bytes
  encrypt pl m enc_key hmac_key salt = do
    plaintext ← encode h pl m
    enc ← encrypter_for m.encryption_mode
    ciphertext ← encrypter_encrypt h c enc plaintext enc_key salt
    let b64_ciphertext = b64_encode ciphertext
    let stripped = drop prefix_length b64_ciphertext
    with_hmac h m.hmac_type b64_ciphertext stripped hmac_key

pub record DecryptConfig : Type 0 where
  pub enc_mode : EncryptionMode
  pub hmac_type : HmacType

abbrev pub DecryptOption : Type 0
DecryptOption = DecryptConfig → DecryptConfig

unfoldable pub with_decrypt_mode : EncryptionMode → DecryptOption
with_decrypt_mode mode c = record c { enc_mode = mode }

unfoldable pub with_decrypt_hmac_type : HmacType → DecryptOption
with_decrypt_hmac_type ht c = record c { hmac_type = ht }

abbrev apply_decrypt_options : List DecryptOption → DecryptConfig → DecryptConfig
apply_decrypt_options [] c = c
apply_decrypt_options (o ∷ os) c = apply_decrypt_options os (o c)

abbrev pub decrypt_config : List DecryptOption → DecryptConfig
decrypt_config opts =
    apply_decrypt_options opts (record { enc_mode = mode_cbc; hmac_type = hmac_sha256 })

module _ (h : Hashes) where
  -- The ciphertext's base64 with its prefix, after the HMAC is checked and cut off.
  unfoldable pub authenticate : HmacType → Bytes → Bytes → Result Bytes
  authenticate ht spa_data hmac_key =
      if is_empty hmac_key then ok (b64_salt_prefix ++ spa_data) else (do
        let hmac_len = hmac_b64_len ht
        fail_if (hmac_len == 0) unsupported_hmac_type
        fail_if (leb (length spa_data) hmac_len) hmac_verification_failed
        let stripped = take (length spa_data - hmac_len) spa_data
        let hmac_from_data = drop (length spa_data - hmac_len) spa_data
        let full_b64 = b64_salt_prefix ++ stripped
        computed ← compute_hmac_base64 h ht full_b64 hmac_key
        fail_if (not (eqb hmac_from_data computed)) hmac_verification_failed
        ok full_b64)

module _ (h : Hashes) (c : BlockCipher) where
  unfoldable pub decrypt : Bytes → Bytes → Bytes → List DecryptOption → Result Message
  decrypt spa_data enc_key hmac_key opts = do
    let cfg = decrypt_config opts
    b64_with_prefix ← authenticate h cfg.hmac_type spa_data hmac_key
    ciphertext ← or_error (b64_decode b64_with_prefix) decryption_failed
    enc ← encrypter_for cfg.enc_mode
    plaintext ← encrypter_decrypt h c enc ciphertext enc_key
    decode_plaintext h plaintext
