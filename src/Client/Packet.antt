-- ===== src/Client/Packet.antt =====
-- cmd/fwknop/main.go: the middle of run, from the settings to the encrypted packet. What it takes
-- from outside is an argument: the library's parameters, the two readings of the clock, the user,
-- the random draws and the salt, and an HTTP GET that gives the body of a successful response.
pub mod Fields
pub mod Built
pub mod Agreement
use fwknop_go.Base.{
  wrap_int64, ℕ, zero, suc, ◌%◌, ◌^◌, ◌+◌, ℤ, pos, negsuc, negate, Bool, true, false, not, ◌&&◌,
  Option, none, some, List, [], ◌∷◌, ◌++◌, Bytes, codes, take, if◌then◌else◌, trim_space,
}
use fwknop_go.Spa.Kinds.{
  DigestType, HmacType, EncryptionMode, MessageType, command_msg, nat_access_msg,
  local_nat_access_msg,
}
use fwknop_go.Spa.Message.{
  Message, MessageOption, with_username, with_timestamp_offset, with_message_type, with_access_msg,
  with_nat_access, with_client_timeout, with_digest_type, with_encryption_mode, with_hmac_type,
  new_with_options,
}
use fwknop_go.Spa.Validate.{Platform, is_empty}
use fwknop_go.Spa.Digest.{Hashes}
use fwknop_go.Spa.Cipher.{BlockCipher}
use fwknop_go.Spa.Packet.{encrypt}
use fwknop_go.Client.Config.{
  ClientConfig, Attempt, failed, done, ◌>>=◌, ◌>>◌, refuse_if, from_spa, no_source_ip,
  resolving_failed, invalid_resolved_ip, resolve_enc_key, resolve_hmac_key, resolve_digest_type,
  resolve_hmac_type, resolve_enc_mode,
}
use fwknop_go.Client.Offset.{parse_time_offset}

pub record Env : Type 0 where
  pub hashes : Hashes
  pub cipher : BlockCipher
  pub platform : Platform
  pub draw : ℕ → Option ℕ
  pub user : Option Bytes
  pub now : ℤ
  pub offset_now : ℤ
  pub salt : Option Bytes
  pub parse_duration : Bytes → Option ℤ
  pub http_get : Bytes → Option Bytes

abbrev default_resolve_url : Bytes
default_resolve_url = codes "https://api.ipify.org"

-- resolve.go: 256 bytes of the body at most.
unfoldable pub resolve_external_ip : Env → Bytes → Attempt Bytes
resolve_external_ip env url = elim (env.http_get url) [
  | none ↦ failed resolving_failed
  | some body ↦
      let ip = trim_space (take 256 body) in
      elim (env.platform.parse_ip ip) [ none ↦ failed invalid_resolved_ip | some addr ↦ done ip ]
]

abbrev url_of : ClientConfig → Bytes
url_of c = if is_empty c.resolve_url then default_resolve_url else c.resolve_url

unfoldable pub resolve_allow_ip : Env → ClientConfig → Attempt Bytes
unfolding resolve_external_ip
resolve_allow_ip env c = do
  let given = if c.source_ip then codes "0.0.0.0" else c.allow_ip
  ip ← if c.resolve_ip && is_empty given then resolve_external_ip env (url_of c) else done given
  refuse_if (is_empty ip) no_source_ip
  done ip

-- An option that is there only if a test holds.
abbrev pub when : Bool → MessageOption → List MessageOption
when b o = if b then o ∷ [] else []

abbrev pub hmac_option : ClientConfig → Attempt (List MessageOption)
hmac_option c =
    if c.use_hmac
    then (resolve_hmac_type c.hmac_digest_type >>= λ t. done (with_hmac_type t ∷ []))
    else done []

-- A timeout of more than 32 bits loses the upper ones.
abbrev pub timeout_option : ℤ → List MessageOption
timeout_option (pos zero) = []
timeout_option (pos (suc n)) = with_client_timeout (suc n % 2 ^ 32) ∷ []
timeout_option (negsuc n) = []

unfoldable pub offset_option : Env → ClientConfig → Attempt (List MessageOption)
offset_option env c =
    if not (is_empty c.time_offset_plus)
    then (parse_time_offset env.parse_duration c.time_offset_plus >>= λ d.
        done (with_timestamp_offset env.offset_now d ∷ []))
    else if not (is_empty c.time_offset_minus)
    then (parse_time_offset env.parse_duration c.time_offset_minus >>= λ d.
        done (with_timestamp_offset env.offset_now (wrap_int64 (negate d)) ∷ []))
    else done []

abbrev pub access_options : Bytes → ClientConfig → List MessageOption
access_options allow_ip c =
    if not (is_empty c.server_cmd)
    then with_message_type command_msg ∷ with_access_msg c.server_cmd ∷ []
    else with_access_msg (allow_ip ++ (b',' ∷ c.access)) ∷ []

abbrev pub nat_options : ClientConfig → List MessageOption
nat_options c =
    if not (is_empty c.nat_access)
    then with_message_type (if c.nat_local then local_nat_access_msg else nat_access_msg)
      ∷ with_nat_access c.nat_access
      ∷ []
    else []

unfoldable pub message_options :
    Env → ClientConfig → Bytes → DigestType → EncryptionMode → Attempt (List MessageOption)
message_options env c allow_ip digest mode = do
  hmac ← hmac_option c
  offset ← offset_option env c
  done (
      with_digest_type digest
      ∷ with_encryption_mode mode
      ∷ (hmac
          ++ (when (not (is_empty c.spoof_user)) (with_username c.spoof_user)
              ++ (timeout_option c.fw_timeout
                  ++ (offset ++ (access_options allow_ip c ++ nat_options c))))))

-- The keys and the message.
pub record Prepared : Type 0 where
  pub enc_key : Bytes
  pub hmac_key : Bytes
  pub message : Message

unfoldable pub prepare : Env → ClientConfig → Attempt Prepared
prepare env c = do
  allow_ip ← resolve_allow_ip env c
  enc_key ← resolve_enc_key c
  hmac_key ← resolve_hmac_key c
  digest ← resolve_digest_type c.digest_type
  mode ← resolve_enc_mode c.encryption_mode
  opts ← message_options env c allow_ip digest mode
  m ← from_spa (new_with_options env.draw env.user env.now opts)
  done (record { enc_key = enc_key; hmac_key = hmac_key; message = m })

unfoldable pub spa_packet : Env → Prepared → Attempt Bytes
spa_packet env p =
    from_spa (encrypt env.hashes env.cipher env.platform p.message p.enc_key p.hmac_key env.salt)
