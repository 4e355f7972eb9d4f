-- ===== src/Spa/Wire/RoundTrip.antt =====
-- Encode and decodePlaintext: when the encoder succeeds, and what is read back.
use fwknop_go.Base.{
  AreBytes, All-append, ◌≡◌, refl, ap, ◌∙◌, inl, inr, Bool, true, false, not, ◌||◌, [], ◌∷◌, ◌++◌,
  Bytes, All, IsDigit, length, ltb, if◌then◌else◌, cut_last, cut_last_at, split, arith, Bool-cases,
  some,
}
use fwknop_go.Spa.Error.{
  Result, ok, fail_if, succeeds_both, passes_then, fail_if-ok, invalid_data, message_too_large,
}
use fwknop_go.Spa.Kinds.{DigestType, message_type_is_valid, requires_nat_access}
use fwknop_go.Spa.Message.{Message}
use fwknop_go.Spa.Validate.{
  Platform, validate, is_command, is_empty, valid_rand_val, valid_username, valid_cmd_msg,
  valid_access_msg, valid_nat_access, min_spa_encoded_msg_size, max_spa_encoded_msg_size,
}
use fwknop_go.Spa.Validate.RandVal.{valid_rand_val_sound}
use fwknop_go.Spa.Digest.{Hashes, HashLaws, digest_base64}
use fwknop_go.Spa.Encode.{encoded_fields, field, encode}
use fwknop_go.Spa.Decode.{decode_plaintext, decode_fields, detect_digest_type, verify_digest}
use fwknop_go.Spa.Wire.Fields.{plain_Lacks, plain_bytes, split-encoded_fields, encoded_fields_bytes}
use fwknop_go.Spa.Wire.Decoding.{IsSendable, received, decode_fields_lem}
use fwknop_go.Spa.Wire.Digests.{reported, digest-IsPlain, digest_accepted}

-- What validate has checked.
record IsChecked (m : Message) : Type 0 where
  digits : All IsDigit m.rand_val
  type : message_type_is_valid m.message_type ≡ true
  nat : requires_nat_access m.message_type ≡ true → is_empty m.nat_access ≡ false

valid_nat_access_nonempty : (s : Bytes) → valid_nat_access s ≡ ok tt → is_empty s ≡ false
unfolding valid_nat_access
valid_nat_access_nonempty [] h = cc
valid_nat_access_nonempty (c ∷ s) h = refl

ne_false : (b : Bool) → not b ≡ false → b ≡ true
ne_false true h = refl
ne_false false h = cc

validate-IsChecked : (pl : Platform) (m : Message) → validate pl m ≡ ok tt → IsChecked m
unfolding validate
validate-IsChecked pl m h =
    let (r, h1) = passes_then (valid_rand_val m.rand_val) _ h in
    let (u, h2) = passes_then (valid_username pl m.username) _ h1 in
    let (t, h3) =
      passes_then (fail_if (not (message_type_is_valid m.message_type)) invalid_data) _ h2 in
    let (c, h4) =
      passes_then
        (if is_command m.message_type then valid_cmd_msg m.access else valid_access_msg pl m.access)
        _ h3 in
    record {
      digits = (valid_rand_val_sound m.rand_val r).1;
      type = ne_false _ (fail_if-ok _ invalid_data t);
      nat = λ q. valid_nat_access_nonempty m.nat_access (ground arith);
    }

nat_agrees :
    (m : Message)
    → IsChecked m
    → IsSendable m
    → requires_nat_access m.message_type ≡ not (is_empty m.nat_access)
nat_agrees m c s = elim (Bool-cases (requires_nat_access m.message_type)) [
  | inl yes_nat ↦ rw (yes_nat, c.nat yes_nat)
  | inr no_nat ↦ ground arith
]

decode_plaintext_lem :
    (h : Hashes) (text digest : Bytes) (dt : DigestType) (r : Result Message)
    → cut_last b':' (text ++ field digest) ≡ some (text, digest)
    → detect_digest_type (length digest) ≡ ok dt
    → verify_digest h text digest dt ≡ ok tt
    → decode_fields dt (split b':' text) ≡ r
    → decode_plaintext h (text ++ field digest) ≡ r
unfolding decode_plaintext
decode_plaintext_lem h text digest dt r c d v f = rw (c, decode_plaintext) (rw (d, v) f)

-- What Encode returns, taken apart.
record IsEncoded (h : Hashes) (m : Message) (text : Bytes) : Type 0 where
  checked : IsChecked m
  digest : Bytes
  computed : digest_base64 h m.digest_type (encoded_fields m) ≡ ok digest
  text_is : text ≡ encoded_fields m ++ field digest

encode-IsEncoded :
    (h : Hashes) (pl : Platform) (m : Message) (text : Bytes)
    → encode h pl m ≡ ok text
    → IsEncoded h m text
unfolding encode
encode-IsEncoded h pl m text e =
    let encoded = encoded_fields m in
    let (v, e1) = passes_then (validate pl m) _ e in
    let (_, e2) =
      passes_then
        (fail_if
          (ltb (length encoded) min_spa_encoded_msg_size
            || ltb max_spa_encoded_msg_size (length encoded))
          message_too_large)
        _ e1 in
    let (digest, d, e3) = succeeds_both (digest_base64 h m.digest_type encoded) _ e2 in
    record {
      checked = validate-IsChecked pl m v;
      digest = digest;
      computed = d;
      text_is = ground arith;
    }

module _ (h : Hashes) (pl : Platform) (m : Message) (text : Bytes) (laws : HashLaws h)
    (s : IsSendable m) (e : encode h pl m ≡ ok text) where
  -- The plaintext is bytes.
  pub encode_bytes : AreBytes text
  encode_bytes =
      let r = encode-IsEncoded h pl m text e in
      rw r.text_is (
        All-append _ (encoded_fields m) _ (encoded_fields_bytes m s.bytes r.checked.digits)
          (omega arith, plain_bytes _ (digest-IsPlain h laws m.digest_type _ r.digest r.computed)))

  -- Under the laws of the hashes, whatever Encode accepts of a message that the wire format can
  -- carry (IsSendable) is read back by decodePlaintext: all fields, with the time in whole seconds,
  -- the timeout variant of the message type where a timeout is set, no timeout for a command, and
  -- SHA-2 reported for SHA-3.
  pub decode_plaintext-encode : decode_plaintext h text ≡ ok (received m (reported m.digest_type))
  decode_plaintext-encode =
      let r = encode-IsEncoded h pl m text e in
      let dt = m.digest_type in
      let plain = digest-IsPlain h laws dt (encoded_fields m) r.digest r.computed in
      let (found, same) = digest_accepted h laws dt (encoded_fields m) r.digest r.computed in
      rw r.text_is (
        decode_plaintext_lem h (encoded_fields m) r.digest (reported dt) _
          (cut_last_at b':' (encoded_fields m) r.digest (plain_Lacks r.digest plain)) found same
          (ap (decode_fields (reported dt)) (split-encoded_fields m s.bytes r.checked.digits)
            ∙ decode_fields_lem m (reported dt) s r.checked.type (nat_agrees m r.checked s)))
