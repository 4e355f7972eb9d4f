-- ===== src/Spa/Packet/Authentic.antt =====
-- Decrypt and the HMAC: nothing is decrypted that the HMAC key did not sign.
use fwknop_go.Base.{
  List, ◌-◌, ◌<◌, ◌≡◌, ◌≢◌, refl, sym, ap, ◌∙◌, false, not, ◌++◌, arith, Bytes, length,
  length-append, take, drop, take-append_exact, drop-append_exact, take-append-drop, leb, ◌==◌, eqb,
  eqb_iff,
}
use fwknop_go.Spa.Error.{
  ok, err, fail_if, succeeds_both, passes_then, fail_if-ok, hmac_verification_failed,
  unsupported_hmac_type,
}
use fwknop_go.Spa.Kinds.{HmacType}
use fwknop_go.Spa.Message.{Message}
use fwknop_go.Spa.Validate.{is_empty}
use fwknop_go.Spa.Digest.{Hashes, compute_hmac_base64, hmac_b64_len}
use fwknop_go.Spa.Cipher.{BlockCipher}
use fwknop_go.Spa.Packet.{b64_salt_prefix, DecryptOption, decrypt_config, authenticate, decrypt}

-- The packet is a ciphertext and the HMAC of its full base64 under the key.
abbrev pub IsSigned : Hashes → HmacType → Bytes → Bytes → Type 0
IsSigned h ht key spa =
    (stripped : Bytes) × (tag : Bytes) × (spa ≡ stripped ++ tag)
    × (compute_hmac_base64 h ht (b64_salt_prefix ++ stripped) key ≡ ok tag)

module _ (h : Hashes) where
  authenticate-IsSigned :
      (ht : HmacType) (spa key full : Bytes)
      → is_empty key ≡ false
      → authenticate h ht spa key ≡ ok full
      → IsSigned h ht key spa
  unfolding authenticate
  authenticate-IsSigned ht spa key full k e =
      let n = length spa - hmac_b64_len ht in
      let e0 = rw k at e in
      let (_, e1) = passes_then (fail_if (hmac_b64_len ht == 0) unsupported_hmac_type) _ e0 in
      let (_, e2) =
        passes_then (fail_if (leb (length spa) (hmac_b64_len ht)) hmac_verification_failed) _ e1 in
      let (tag, t, e3) =
        succeeds_both (compute_hmac_base64 h ht (b64_salt_prefix ++ take n spa) key) _ e2 in
      let (same, _) =
        passes_then (fail_if (not (eqb (drop n spa) tag)) hmac_verification_failed) _ e3 in
      let equal : drop n spa ≡ tag =
        (eqb_iff (drop n spa) tag).0
          (ground (arith, fail_if-ok (not (eqb (drop n spa) tag)) hmac_verification_failed same)) in
      (take n spa, tag, sym (take-append-drop n spa) ∙ ap (λ t. take n spa ++ t) equal, t)

  authenticate_wrong :
      (ht : HmacType) (stripped tag wrong key : Bytes)
      → is_empty key ≡ false
      → 0 < length stripped
      → 0 < hmac_b64_len ht
      → length wrong ≡ hmac_b64_len ht
      → compute_hmac_base64 h ht (b64_salt_prefix ++ stripped) key ≡ ok tag
      → wrong ≢ tag
      → authenticate h ht (stripped ++ wrong) key ≡ err hmac_verification_failed
  unfolding authenticate
  authenticate_wrong ht stripped tag wrong key k l p size t d =
      let total = length-append stripped wrong in
      let known : (hmac_b64_len ht == 0) ≡ false = ground arith in
      let long : leb (length (stripped ++ wrong)) (hmac_b64_len ht) ≡ false =
        ground (arith, total) in
      let start : length stripped ≡ length (stripped ++ wrong) - hmac_b64_len ht =
        omega (arith, total) in
      let differ : eqb wrong tag ≡ false = ground (arith, eqb_iff wrong tag) in
      rw
        (
          k,
          known,
          long,
          take-append_exact _ stripped wrong start,
          drop-append_exact _ stripped wrong start,
          t,
          differ,
        )
        refl

module _ (h : Hashes) (c : BlockCipher) where
  -- With an HMAC key, a packet that Decrypt accepts ends in the HMAC, under that key, of the full
  -- base64 of the ciphertext before it.
  pub decrypt-IsSigned :
      (spa enc_key hmac_key : Bytes) (opts : List DecryptOption) (m : Message)
      → is_empty hmac_key ≡ false
      → decrypt h c spa enc_key hmac_key opts ≡ ok m
      → IsSigned h (decrypt_config opts).hmac_type hmac_key spa
  unfolding decrypt
  decrypt-IsSigned spa enc_key hmac_key opts m k e =
      let (full, a, _) =
        succeeds_both (authenticate h (decrypt_config opts).hmac_type spa hmac_key) _ e in
      authenticate-IsSigned h (decrypt_config opts).hmac_type spa hmac_key full k a

  -- With an HMAC key and an HMAC type of known length, a packet of a ciphertext that is not empty,
  -- whose last characters, as many as the HMAC has, are not the HMAC, is refused with the HMAC
  -- error, whatever the encryption key and the mode.
  pub decrypt_wrong_hmac :
      (stripped tag wrong enc_key hmac_key : Bytes) (opts : List DecryptOption)
      → is_empty hmac_key ≡ false
      → 0 < length stripped
      → 0 < hmac_b64_len (decrypt_config opts).hmac_type
      → length wrong ≡ hmac_b64_len (decrypt_config opts).hmac_type
      → compute_hmac_base64 h (decrypt_config opts).hmac_type (b64_salt_prefix ++ stripped) hmac_key
        ≡ ok tag
      → wrong ≢ tag
      → decrypt h c (stripped ++ wrong) enc_key hmac_key opts ≡ err hmac_verification_failed
  unfolding decrypt
  decrypt_wrong_hmac stripped tag wrong enc_key hmac_key opts k l p size t d =
      rw
        (authenticate_wrong h (decrypt_config opts).hmac_type stripped tag wrong hmac_key k l p size
          t d)
        refl
