-- ===== src/Spa/Packet/RoundTrip.antt =====
-- Encrypt and Decrypt, end to end.
use fwknop_go.Base.{
  ◌+◌, ◌-◌, ◌<◌, ◌≡◌, refl, sym, ap, ◌∙◌, false, List, [], ◌∷◌, ◌++◌, some, arith, Bytes, AreBytes,
  All-append, length, length-append, length-drop, drop, take-append_exact, drop-append_exact,
  take-append-drop, leb, ◌==◌, eqb_refl,
}
use fwknop_go.Spa.Error.{ok, succeeds_both}
use fwknop_go.Spa.Kinds.{
  HashFunc, md5, sha1, sha256, sha384, sha512, sha3_256, sha3_512, HmacType, new_hash_func,
  hmac_digest_type, hmac_md5, hmac_sha1, hmac_sha256, hmac_sha384, hmac_sha512, hmac_sha3_256,
  hmac_sha3_512, other_hmac,
}
use fwknop_go.Spa.Base64.{b64_encode}
use fwknop_go.Spa.Base64.RoundTrip.{
  b64_decode-b64_encode, b64_encode_prefix, length-b64_encode, b64_size,
}
use fwknop_go.Spa.Message.{Message}
use fwknop_go.Spa.Validate.{Platform, is_empty}
use fwknop_go.Spa.Digest.{
  Hashes, HashLaws, compute_hmac, compute_hmac_base64, hmac_b64_len, hash_size,
}
use fwknop_go.Spa.Cipher.{
  BlockCipher, CipherLaws, salted, Encrypter, aes_cbc, aes_cbc_legacy_iv, aes_stub, encrypter_for,
  encrypter_encrypt, encrypter_decrypt, legacy_pad_passphrase, aes_cbc_encrypt,
}
use fwknop_go.Spa.Cipher.Aes.{
  aes_cbc_decrypt-encrypt, encrypt_with_salt_lem, ciphertext_bytes, ciphertext_blocks,
}
use fwknop_go.Spa.Encode.{encode}
use fwknop_go.Spa.Wire.Decoding.{IsSendable, received}
use fwknop_go.Spa.Wire.Digests.{reported}
use fwknop_go.Spa.Wire.RoundTrip.{decode_plaintext-encode, encode_bytes}
use fwknop_go.Spa.Packet.{
  b64_salt_prefix, prefix_length, encrypt, DecryptOption, with_decrypt_mode, with_decrypt_hmac_type,
  authenticate, with_hmac, decrypt,
}

-- What an encrypter writes: the prefix and at least one byte more.
record IsSalted (text : Bytes) : Type 0 where
  rest : Bytes
  split : text ≡ salted ++ rest
  bytes : AreBytes rest
  some_byte : 0 < length rest

module _ (h : Hashes) (c : BlockCipher) (hl : HashLaws h) (cl : CipherLaws c) where
  aes-IsSalted :
      (plaintext key salt text : Bytes)
      → AreBytes plaintext
      → AreBytes salt
      → aes_cbc_encrypt h c plaintext key (some salt) ≡ ok text
      → IsSalted text
  unfolding aes_cbc_encrypt
  aes-IsSalted plaintext key salt text pb b e = record {
    rest = salt ++ _;
    split = ground (arith, encrypt_with_salt_lem h c hl cl plaintext key salt pb);
    bytes = All-append _ salt _ b (ciphertext_bytes h c hl cl plaintext key salt pb);
    some_byte =
        omega (arith, length-append salt _, ciphertext_blocks h c hl cl plaintext key salt pb);
  }

  -- Every encrypter that succeeds writes the prefix, and its decrypter gives the plaintext back.
  encrypter_lem :
      (enc : Encrypter) (plaintext key salt text : Bytes)
      → AreBytes plaintext
      → AreBytes salt
      → length salt ≡ 8
      → encrypter_encrypt h c enc plaintext key (some salt) ≡ ok text
      → IsSalted text × (encrypter_decrypt h c enc text key ≡ ok plaintext)
  unfolding encrypter_encrypt encrypter_decrypt
  encrypter_lem aes_cbc plaintext key salt text pb b s e = (
    aes-IsSalted plaintext key salt text pb b e,
    aes_cbc_decrypt-encrypt h c hl cl plaintext key salt text pb s e,
  )
  encrypter_lem aes_cbc_legacy_iv plaintext key salt text pb b s e = (
    aes-IsSalted plaintext (legacy_pad_passphrase key) salt text pb b e,
    aes_cbc_decrypt-encrypt h c hl cl plaintext (legacy_pad_passphrase key) salt text pb s e,
  )
  encrypter_lem (aes_stub mode) plaintext key salt text pb b s e = cc

salted_bytes : (text : Bytes) → IsSalted text → AreBytes text
salted_bytes text s = rw s.split (All-append _ salted s.rest (omega arith) s.bytes)

-- The prefix put back in front of the stripped base64.
prefix_restored :
    (text : Bytes)
    → IsSalted text
    → b64_salt_prefix ++ drop prefix_length (b64_encode text) ≡ b64_encode text
prefix_restored text s = rw s.split (
    ap (λ p. p ++ drop 10 (b64_encode (salted ++ s.rest)))
      (sym (b64_encode_prefix s.rest s.bytes s.some_byte))
    ∙ take-append-drop 10 (b64_encode (salted ++ s.rest)))

stripped_nonempty :
    (text : Bytes) → IsSalted text → 0 < length (drop prefix_length (b64_encode text))
stripped_nonempty text s =
    let size : length text ≡ 8 + length s.rest = ap length s.split ∙ length-append salted s.rest in
    omega (
      arith,
      length-drop 10 (b64_encode text),
      length-b64_encode text (salted_bytes text s),
      size,
      s.some_byte,
    )

module _ (h : Hashes) (hl : HashLaws h) where
  mac_size :
      (f : HashFunc) (key s : Bytes) → length (b64_encode (h.mac f key s)) ≡ b64_size (hash_size f)
  mac_size f key s =
      omega (arith, length-b64_encode (h.mac f key s) (hl.mac_bytes f key s), hl.mac_size f key s)

  -- An HMAC that was computed has the length that its type gives.
  hmac_length :
      (ht : HmacType) (s key tag : Bytes)
      → compute_hmac_base64 h ht s key ≡ ok tag
      → (length tag ≡ hmac_b64_len ht) × (0 < hmac_b64_len ht)
  unfolding compute_hmac_base64 compute_hmac new_hash_func hmac_digest_type hmac_b64_len
  hmac_length (other_hmac x) s key tag e = cc
  hmac_length hmac_md5 s key tag e = ground (arith, mac_size md5 key s)
  hmac_length hmac_sha1 s key tag e = ground (arith, mac_size sha1 key s)
  hmac_length hmac_sha256 s key tag e = ground (arith, mac_size sha256 key s)
  hmac_length hmac_sha384 s key tag e = ground (arith, mac_size sha384 key s)
  hmac_length hmac_sha512 s key tag e = ground (arith, mac_size sha512 key s)
  hmac_length hmac_sha3_256 s key tag e = ground (arith, mac_size sha3_256 key s)
  hmac_length hmac_sha3_512 s key tag e = ground (arith, mac_size sha3_512 key s)

  -- A tag that fits is cut off and accepted.
  authenticate_tag :
      (ht : HmacType) (stripped tag key : Bytes)
      → is_empty key ≡ false
      → 0 < length stripped
      → compute_hmac_base64 h ht (b64_salt_prefix ++ stripped) key ≡ ok tag
      → authenticate h ht (stripped ++ tag) key ≡ ok (b64_salt_prefix ++ stripped)
  unfolding authenticate
  authenticate_tag ht stripped tag key k l e =
      let (size, some_size) = hmac_length ht _ key tag e in
      let total = length-append stripped tag in
      let known : (hmac_b64_len ht == 0) ≡ false = ground arith in
      let long : leb (length (stripped ++ tag)) (hmac_b64_len ht) ≡ false = ground (arith, total) in
      let start : length stripped ≡ length (stripped ++ tag) - hmac_b64_len ht =
        omega (arith, total) in
      rw
        (
          k,
          known,
          long,
          take-append_exact _ stripped tag start,
          drop-append_exact _ stripped tag start,
          e,
          eqb_refl tag,
        )
        refl

  authenticate_written :
      (ht : HmacType) (full stripped key spa : Bytes)
      → b64_salt_prefix ++ stripped ≡ full
      → 0 < length stripped
      → with_hmac h ht full stripped key ≡ ok spa
      → authenticate h ht spa key ≡ ok full
  authenticate_written ht full stripped [] spa p l e =
      unfold authenticate in (ap (λ t. ok (b64_salt_prefix ++ t)) (ground arith) ∙ ap ok p)
  authenticate_written ht full stripped (k ∷ key) spa p l e =
      let (tag, t, e1) = succeeds_both (compute_hmac_base64 h ht full (k ∷ key)) _ e in
      let spa_is : spa ≡ stripped ++ tag = ground arith in
      rw spa_is (
        authenticate_tag ht stripped tag (k ∷ key) refl l
          (ap (λ b. compute_hmac_base64 h ht b (k ∷ key)) p ∙ t)
        ∙ ap ok p)

-- Decrypt with the options that name the message's encryption mode and HMAC type.
abbrev pub matching_options : Message → List DecryptOption
matching_options m = with_decrypt_mode m.encryption_mode ∷ with_decrypt_hmac_type m.hmac_type ∷ []

module _ (h : Hashes) (c : BlockCipher) (pl : Platform) where
  -- Under the laws of the hashes and the cipher, whatever Encrypt makes, with a salt of 8 bytes, of
  -- a message that the wire format can carry (IsSendable), Decrypt under the same keys, mode and
  -- HMAC type reads back, with or without an HMAC key.
  pub decrypt-encrypt :
      (m : Message) (enc_key hmac_key salt spa : Bytes)
      → HashLaws h
      → CipherLaws c
      → AreBytes salt
      → length salt ≡ 8
      → IsSendable m
      → encrypt h c pl m enc_key hmac_key (some salt) ≡ ok spa
      → decrypt h c spa enc_key hmac_key (matching_options m)
        ≡ ok (received m (reported m.digest_type))
  unfolding encrypt decrypt with_decrypt_mode with_decrypt_hmac_type
  decrypt-encrypt m enc_key hmac_key salt spa hl cl sb sl s e =
      let (plaintext, p, e1) = succeeds_both (encode h pl m) _ e in
      let (enc, q, e2) = succeeds_both (encrypter_for m.encryption_mode) _ e1 in
      let (text, t, e3) =
        succeeds_both (encrypter_encrypt h c enc plaintext enc_key (some salt)) _ e2 in
      let (is_salted, back) =
        encrypter_lem h c hl cl enc plaintext enc_key salt text
          (encode_bytes h pl m plaintext hl s p) sb sl t in
      let checked =
        authenticate_written h hl m.hmac_type (b64_encode text)
          (drop prefix_length (b64_encode text)) hmac_key spa (prefix_restored text is_salted)
          (stripped_nonempty text is_salted) e3 in
      rw (checked, b64_decode-b64_encode text (salted_bytes text is_salted), q, back)
        (decode_plaintext-encode h pl m plaintext hl s p)
