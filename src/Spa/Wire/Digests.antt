-- ===== src/Spa/Wire/Digests.antt =====
-- The digest that Encode appends is found and verified by the decoder.
use fwknop_go.Base.{◌≡◌, Bytes, All, length, eqb_refl, Option-cases, inl, inr, arith}
use fwknop_go.Spa.Error.{ok}
use fwknop_go.Spa.Kinds.{
  HashFunc, md5, sha1, sha256, sha384, sha512, sha3_256, sha3_512, DigestType, digest_md5,
  digest_sha1, digest_sha256, digest_sha384, digest_sha512, digest_sha3_256, digest_sha3_512,
  other_digest, new_hash_func,
}
use fwknop_go.Spa.Base64.{b64_encode}
use fwknop_go.Spa.Base64.RoundTrip.{length-b64_encode, b64_size}
use fwknop_go.Spa.Digest.{Hashes, HashLaws, digest, digest_base64, hash_size}
use fwknop_go.Spa.Decode.{detect_digest_type, verify_digest}
use fwknop_go.Spa.Wire.Fields.{b64-IsPlain, IsPlain}

-- The digest type that the decoder reports: the lengths do not tell SHA-3 apart.
abbrev pub reported : DigestType → DigestType
reported digest_sha3_256 = digest_sha256
reported digest_sha3_512 = digest_sha512
reported dt = dt

module _ (h : Hashes) (laws : HashLaws h) where
  encoded_sum_size :
      (f : HashFunc) (s : Bytes) → length (b64_encode (h.sum f s)) ≡ b64_size (hash_size f)
  encoded_sum_size f s =
      omega (arith, length-b64_encode (h.sum f s) (laws.sum_bytes f s), laws.sum_size f s)

  detect_lem :
      (dt : DigestType) (s d : Bytes)
      → digest_base64 h dt s ≡ ok d
      → detect_digest_type (length d) ≡ ok (reported dt)
  unfolding digest_base64 digest new_hash_func detect_digest_type
  detect_lem (other_digest x) s d e = cc
  detect_lem digest_md5 s d e = ground (arith, encoded_sum_size md5 s)
  detect_lem digest_sha1 s d e = ground (arith, encoded_sum_size sha1 s)
  detect_lem digest_sha256 s d e = ground (arith, encoded_sum_size sha256 s)
  detect_lem digest_sha384 s d e = ground (arith, encoded_sum_size sha384 s)
  detect_lem digest_sha512 s d e = ground (arith, encoded_sum_size sha512 s)
  detect_lem digest_sha3_256 s d e = ground (arith, encoded_sum_size sha3_256 s)
  detect_lem digest_sha3_512 s d e = ground (arith, encoded_sum_size sha3_512 s)

  -- A computed digest is the text of a hash.
  digest_base64_sum :
      (dt : DigestType) (s d : Bytes)
      → digest_base64 h dt s ≡ ok d
      → (f : HashFunc) × (d ≡ b64_encode (h.sum f s))
  unfolding digest_base64 digest
  digest_base64_sum dt s d e = elim (Option-cases (new_hash_func dt)) [
    | inl no_hash ↦ absurd (ground arith)
    | inr (f, found) ↦ (f, ground arith)
  ]

  pub digest-IsPlain : (dt : DigestType) (s d : Bytes) → digest_base64 h dt s ≡ ok d → All IsPlain d
  digest-IsPlain dt s d e =
      let (f, eq) = digest_base64_sum dt s d e in rw eq (b64-IsPlain _ (laws.sum_bytes f s))

  verify_lem :
      (dt : DigestType) (s d : Bytes)
      → digest_base64 h dt s ≡ ok d
      → verify_digest h s d (reported dt) ≡ ok tt
  unfolding verify_digest digest_base64 digest new_hash_func
  verify_lem (other_digest x) s d e = cc
  verify_lem _ s d e = ground (arith, eqb_refl d)

  -- The decoder finds a digest type for the digest that Encode computed, and accepts the digest.
  pub digest_accepted :
      (dt : DigestType) (s d : Bytes)
      → digest_base64 h dt s ≡ ok d
      → (detect_digest_type (length d) ≡ ok (reported dt))
        × (verify_digest h s d (reported dt) ≡ ok tt)
  digest_accepted dt s d e = (detect_lem dt s d e, verify_lem dt s d e)
