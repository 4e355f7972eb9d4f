-- ===== src/Spa/Wire/Decoding.antt =====
-- decode_fields over the fields that Encode writes.
use fwknop_go.Base.{
  ℕ, ◌≤◌, pos, ◌≡◌, refl, ◌∙◌, ◌⊎◌, Bool, true, false, not, none, List, [], ◌∷◌, ◌++◌, arith, Bytes,
  AreBytes, length, ltb, unix_seconds, unix_time, IsInt64, parse_uint, parse_uint-format_uint,
  parse_int64-format_int, max_uint32,
}
use fwknop_go.Spa.Error.{ok}
use fwknop_go.Spa.Kinds.{
  MessageType, DigestType, message_type_code, message_type_of, message_type_is_valid,
  requires_nat_access, other_mode, other_hmac, command_msg, access_msg, nat_access_msg,
  client_timeout_access_msg, client_timeout_nat_access_msg, local_nat_access_msg,
  client_timeout_local_nat_access_msg, other_msg,
}
use fwknop_go.Spa.Base64.{b64_encode}
use fwknop_go.Spa.Base64.RoundTrip.{b64_decode-b64_encode}
use fwknop_go.Spa.Message.{Message}
use fwknop_go.Spa.Validate.{is_empty}
use fwknop_go.Spa.Encode.{effective_message_type}
use fwknop_go.Spa.Decode.{decode_nat, decode_auth, decode_timeout, decode_fields}
use fwknop_go.Spa.Wire.Fields.{
  text_field, has_timeout, timeout_field, optional_fields, later_fields, HasBytes,
  length-optional_fields,
}

-- The conversion gives a valid message type back from its integer.
pub message_type_of-code :
    (t : MessageType) → message_type_is_valid t ≡ true → message_type_of (message_type_code t) ≡ t
unfolding message_type_of message_type_code message_type_is_valid
message_type_of-code (other_msg x) h = cc
message_type_of-code _ h = refl

code_IsInt64 : (t : MessageType) → message_type_is_valid t ≡ true → IsInt64 (message_type_code t)
unfolding message_type_code message_type_is_valid
code_IsInt64 (other_msg x) h = cc
code_IsInt64 command_msg h = omega arith
code_IsInt64 access_msg h = omega arith
code_IsInt64 nat_access_msg h = omega arith
code_IsInt64 client_timeout_access_msg h = omega arith
code_IsInt64 client_timeout_nat_access_msg h = omega arith
code_IsInt64 local_nat_access_msg h = omega arith
code_IsInt64 client_timeout_local_nat_access_msg h = omega arith

-- A timeout makes a valid type valid, and changes nothing about NAT.
pub effective_is_valid :
    (m : Message)
    → message_type_is_valid m.message_type ≡ true
    → (message_type_is_valid (effective_message_type m) ≡ true)
      × (requires_nat_access (effective_message_type m) ≡ requires_nat_access m.message_type)
unfolding effective_message_type message_type_is_valid requires_nat_access
effective_is_valid m h = ground arith

-- The timeout that is read back: none is sent with a command.
abbrev pub sent_timeout : Bool → ℕ → ℕ
sent_timeout true n = n
sent_timeout false n = 0

-- The message that the decoder builds from the parts.
abbrev pub read_message : Message → DigestType → Bytes → Bytes → ℕ → Message
read_message m dt nat auth timeout = record {
  rand_val = m.rand_val;
  username = m.username;
  timestamp = unix_time (unix_seconds m.timestamp);
  message_type = effective_message_type m;
  access = m.access;
  nat_access = nat;
  server_auth = auth;
  client_timeout = timeout;
  digest_type = dt;
  encryption_mode = other_mode (pos 0);
  hmac_type = other_hmac (pos 0);
}

-- What is read back of a message: the time in whole seconds, the message type that Encode chose,
-- the timeout that it sent, and the digest type that the length of the digest gives.
abbrev pub received : Message → DigestType → Message
received m dt =
    read_message m dt m.nat_access m.server_auth (sent_timeout (has_timeout m) m.client_timeout)

-- A message whose fields the wire format can carry: bytes, a time and a timeout in range, NAT
-- access just where the type has it, and server authentication that does not read as a number.
pub record IsSendable (m : Message) : Type 0 where
  pub bytes : HasBytes m
  pub time : IsInt64 (unix_seconds m.timestamp)
  pub timeout : m.client_timeout ≤ max_uint32
  pub nat : (requires_nat_access m.message_type ≡ true) ⊎ (m.nat_access ≡ [])
  pub auth : parse_uint max_uint32 (b64_encode m.server_auth) ≡ none

module _ (m : Message) (dt : DigestType) where
  decode_nat_lem :
      (nat : Bytes) (rest : List Bytes)
      → AreBytes nat
      → requires_nat_access (effective_message_type m) ≡ not (is_empty nat)
      → decode_nat (read_message m dt [] [] 0) (text_field nat ++ rest)
        ≡ ok (read_message m dt nat [] 0, rest)
  unfolding decode_nat
  decode_nat_lem [] [] b h = refl
  decode_nat_lem [] (f ∷ fs) b h = rw h refl
  decode_nat_lem (c ∷ s) rest b h = rw (h, b64_decode-b64_encode (c ∷ s) b) refl

  decode_timeout_lem :
      (sent : Bool) (n : ℕ) (nat auth : Bytes)
      → n ≤ max_uint32
      → decode_timeout (read_message m dt nat auth 0) (timeout_field sent n)
        ≡ ok (read_message m dt nat auth (sent_timeout sent n))
  unfolding decode_timeout
  decode_timeout_lem false n nat auth h = refl
  decode_timeout_lem true n nat auth h = rw (parse_uint-format_uint max_uint32 n h) refl

  decode_auth_lem :
      (auth nat : Bytes) (sent : Bool) (n : ℕ)
      → AreBytes auth
      → n ≤ max_uint32
      → parse_uint max_uint32 (b64_encode auth) ≡ none
      → decode_auth (read_message m dt nat [] 0) (text_field auth ++ timeout_field sent n)
        ≡ ok (read_message m dt nat auth (sent_timeout sent n))
  unfolding decode_auth
  decode_auth_lem [] nat false n b h p = refl
  decode_auth_lem [] nat true n b h p = rw (parse_uint-format_uint max_uint32 n h, decode_auth)
  decode_auth_lem (c ∷ s) nat sent n b h p =
      rw (p, b64_decode-b64_encode (c ∷ s) b, decode_auth) (decode_timeout_lem sent n nat (c ∷ s) h)

  -- Decoding the fields of a valid message.
  pub decode_fields_lem :
      IsSendable m
      → message_type_is_valid m.message_type ≡ true
      → requires_nat_access m.message_type ≡ not (is_empty m.nat_access)
      → decode_fields dt (m.rand_val ∷ later_fields m) ≡ ok (received m dt)
  unfolding decode_fields
  decode_fields_lem s v r =
      let (v', r') = effective_is_valid m v in
      let few : ltb 3 (length (optional_fields m)) ≡ false =
        ground (arith, length-optional_fields m) in
      rw
        (
          few,
          b64_decode-b64_encode m.username s.bytes.username,
          parse_int64-format_int (unix_seconds m.timestamp) s.time,
          parse_int64-format_int (message_type_code (effective_message_type m)) (code_IsInt64 _ v'),
          b64_decode-b64_encode m.access s.bytes.access,
          message_type_of-code _ v',
          decode_nat_lem m.nat_access
              (text_field m.server_auth ++ timeout_field (has_timeout m) m.client_timeout)
              s.bytes.nat_access (r' ∙ r),
        )
        (decode_auth_lem m.server_auth m.nat_access (has_timeout m) m.client_timeout
          s.bytes.server_auth s.timeout s.auth)
