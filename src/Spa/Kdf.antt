-- ===== src/Spa/Kdf.antt =====
-- fkospa/kdf.go: OpenSSL's EVP_BytesToKey with MD5.
pub mod Blocks
use fwknop_go.Base.{
  ℕ, zero, suc, ◌+◌, Bool, [], ◌++◌, Bytes, length, take, drop, ltb, if◌then◌else◌,
}
use fwknop_go.Spa.Kinds.{md5}
use fwknop_go.Spa.Validate.{is_empty}
use fwknop_go.Spa.Digest.{Hashes}

abbrev pub aes_key_size : ℕ
aes_key_size = 32

abbrev pub aes_block_size : ℕ
aes_block_size = 16

abbrev pub aes_min_key_size : ℕ
aes_min_key_size = 16

abbrev pub salt_len : ℕ
salt_len = 8

-- What one round hashes.
abbrev pub round_input : Bytes → Bytes → Bytes → Bytes
round_input prev passphrase salt =
    if is_empty prev then passphrase ++ salt else prev ++ (passphrase ++ salt)

module _ (h : Hashes) (passphrase salt : Bytes) (needed : ℕ) where
  unfoldable pub kiv_loop : ℕ → Bytes → Bytes → Bytes
  kiv_loop zero kiv prev = kiv
  kiv_loop (suc fuel) kiv prev =
      let next = h.sum md5 (round_input prev passphrase salt) in
      let rest = kiv_loop fuel (kiv ++ next) next in if ltb (length kiv) needed then rest else kiv

-- Every round adds a byte or more, so the number of bytes needed is fuel enough.
unfoldable pub derive_key_and_iv : Hashes → Bytes → Bytes → ℕ → ℕ → Bytes × Bytes
derive_key_and_iv h passphrase salt key_len iv_len =
    let kiv = kiv_loop h passphrase salt (key_len + iv_len) (key_len + iv_len) [] [] in
    (take key_len kiv, take iv_len (drop key_len kiv))
