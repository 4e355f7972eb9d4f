-- ===== src/Spa/Encode.antt =====
-- fkospa/spa_encode.go: the plaintext of a message. `Encrypt` is in Packet.
use fwknop_go.Base.{
  not, ◌&&◌, ◌||◌, [], ◌∷◌, ◌++◌, Bytes, codes, length, ltb, ◌==◌, if◌then◌else◌, format_uint,
  format_int, unix_seconds,
}
use fwknop_go.Spa.Error.{Result, ok, ◌>>=◌, ◌>>◌, fail_if, message_too_large}
use fwknop_go.Spa.Kinds.{
  MessageType, access_msg, nat_access_msg, client_timeout_access_msg, client_timeout_nat_access_msg,
  local_nat_access_msg, client_timeout_local_nat_access_msg, message_type_code,
}
use fwknop_go.Spa.Base64.{b64_encode}
use fwknop_go.Spa.Message.{Message}
use fwknop_go.Spa.Validate.{
  Platform, validate, is_command, is_empty, min_spa_encoded_msg_size, max_spa_encoded_msg_size,
}
use fwknop_go.Spa.Digest.{Hashes, digest_base64}

-- fkospa/version.go
abbrev pub protocol_version : Bytes
protocol_version = codes "3.0.0"

abbrev timeout_type : MessageType → MessageType
timeout_type access_msg = client_timeout_access_msg
timeout_type nat_access_msg = client_timeout_nat_access_msg
timeout_type local_nat_access_msg = client_timeout_local_nat_access_msg
timeout_type t = t

unfoldable pub effective_message_type : Message → MessageType
effective_message_type m =
    if m.client_timeout == 0 || is_command m.message_type
    then m.message_type
    else timeout_type m.message_type

-- A field behind its separator.
abbrev pub field : Bytes → Bytes
field s = b':' ∷ s

abbrev optional : Bytes → Bytes
optional s = if is_empty s then [] else field (b64_encode s)

-- What the builder holds when the fields are written.
unfoldable pub encoded_fields : Message → Bytes
encoded_fields m =
    let msg_type = effective_message_type m in
    m.rand_val
    ++ (field (b64_encode m.username)
        ++ (field (format_int (unix_seconds m.timestamp))
            ++ (field protocol_version
                ++ (field (format_int (message_type_code msg_type))
                    ++ (field (b64_encode m.access)
                        ++ (optional m.nat_access
                            ++ (optional m.server_auth
                                ++ (if ltb 0 m.client_timeout && not (is_command msg_type)
                                    then field (format_uint m.client_timeout)
                                    else []))))))))

unfoldable pub encode : Hashes → Platform → Message → Result Bytes
encode h pl m = do
  validate pl m
  let encoded_msg = encoded_fields m
  fail_if
      (ltb (length encoded_msg) min_spa_encoded_msg_size
        || ltb max_spa_encoded_msg_size (length encoded_msg))
      message_too_large
  digest ← digest_base64 h m.digest_type encoded_msg
  ok (encoded_msg ++ field digest)
