-- ===== src/Client/Config.antt =====
-- cmd/fwknop/config.go: the configuration, and what its texts stand for. Loading
-- has how it is filled in.
use fwknop_go.Base.{ℤ, Bool, not, ◌||◌, ◌≡◌, refl, List, [], ◌∷◌, Bytes, codes, if◌then◌else◌}
use fwknop_go.Spa.Error as SpaError
use fwknop_go.Spa.Kinds.{
  DigestType, digest_md5, digest_sha1, digest_sha256, digest_sha384, digest_sha512, digest_sha3_256,
  digest_sha3_512, HmacType, hmac_md5, hmac_sha1, hmac_sha256, hmac_sha384, hmac_sha512,
  hmac_sha3_256, hmac_sha3_512, EncryptionMode, mode_cbc, mode_cbc_legacy,
}
use fwknop_go.Spa.Base64.{std_decode}
use fwknop_go.Spa.Validate.{is_empty}
use fwknop_go.Server.Access.{named}
use fwknop_go.Client.RcFile.{RcError}
use fwknop_go.Client.Send.{SendError}

pub record ClientConfig : Type 0 where
  pub destination : Bytes
  pub server_port : ℤ
  pub allow_ip : Bytes
  pub access : Bytes
  pub server_cmd : Bytes
  pub spoof_user : Bytes
  pub source_ip : Bool
  pub fw_timeout : ℤ
  pub nat_access : Bytes
  pub nat_local : Bool
  pub nat_port : ℤ
  pub digest_type : Bytes
  pub hmac_digest_type : Bytes
  pub encryption_mode : Bytes
  pub key : Bytes
  pub key_base64 : Bytes
  pub key_hmac : Bytes
  pub key_base64_hmac : Bytes
  pub use_hmac : Bool
  pub resolve_ip : Bool
  pub resolve_url : Bytes
  pub time_offset_plus : Bytes
  pub time_offset_minus : Bytes
  pub named_config : Bytes
  pub rc_file : Bytes
  pub no_rc_file : Bool
  pub test : Bool
  pub verbose : ℤ
  pub key_gen : Bool
  pub save_rc : Bool
  pub list_stanzas : Bool
  pub show_version : Bool

-- The names of the settings, by which rc files, the environment and flags set the fields.
abbrev pub config_keys : List Bytes
config_keys =
    codes "destination"
    ∷ codes "server_port"
    ∷ codes "allow_ip"
    ∷ codes "access"
    ∷ codes "server_cmd"
    ∷ codes "spoof_user"
    ∷ codes "source_ip"
    ∷ codes "fw_timeout"
    ∷ codes "nat_access"
    ∷ codes "nat_local"
    ∷ codes "nat_port"
    ∷ codes "digest_type"
    ∷ codes "hmac_digest_type"
    ∷ codes "encryption_mode"
    ∷ codes "key"
    ∷ codes "key_base64"
    ∷ codes "key_hmac"
    ∷ codes "hmac_key_base64"
    ∷ codes "use_hmac"
    ∷ codes "resolve_ip"
    ∷ codes "resolve_url"
    ∷ codes "time_offset_plus"
    ∷ codes "time_offset_minus"
    ∷ codes "named_config"
    ∷ codes "rc_file"
    ∷ codes "no_rc_file"
    ∷ codes "test"
    ∷ codes "verbose"
    ∷ codes "key_gen"
    ∷ codes "save_rc_stanza"
    ∷ codes "stanza_list"
    ∷ codes "version"
    ∷ []

-- The errors of the client; `spa_error` is one of the library, `key_error` one of encoding/base64.
pub data ClientError : Type 0 where
  destination_required access_required no_source_ip : ClientError
  resolving_failed invalid_resolved_ip : ClientError
  no_enc_key no_hmac_key key_error : ClientError
  unknown_digest_type unknown_hmac_type unknown_enc_mode invalid_time_offset : ClientError
  send_failed : SendError → ClientError
  spa_error : SpaError.Error → ClientError
  rc_error : RcError → ClientError

pub data Attempt {ℓ} (A : Type ℓ) : Type ℓ where
  failed : ClientError → Attempt A
  done : A → Attempt A

infixl 5 ◌>>=◌ ◌>>◌
abbrev pub ◌>>=◌ {ℓ κ} :
    {A : Type ℓ} {B : Type κ} (first : Attempt A) (next : A → Attempt B) → Attempt B
failed e >>= next = failed e
done a >>= next = next a

abbrev pub ◌>>◌ {ℓ} : {B : Type ℓ} (check : Attempt (Unit {0})) (next : Attempt B) → Attempt B
failed e >> next = failed e
done u >> next = next

abbrev pub refuse_if : Bool → ClientError → Attempt (Unit {0})
refuse_if b e = if b then failed e else done tt

abbrev pub from_spa {ℓ} : {A : Type ℓ} → SpaError.Result A → Attempt A
from_spa (SpaError.err e) = failed (spa_error e)
from_spa (SpaError.ok a) = done a

-- Two steps that end well together each end well.
pub done_both {ℓ κ} :
    {A : Type ℓ} {B : Type κ} (first : Attempt A) (next : A → Attempt B) {b : B}
    → (first >>= next) ≡ done b
    → (a : A) × (first ≡ done a) × (next a ≡ done b)
done_both (failed e) next h = cc
done_both (done a) next h = (a, refl, h)

pub done_after {ℓ} :
    {B : Type ℓ} (check : Attempt (Unit {0})) (next : Attempt B) {b : B}
    → (check >> next) ≡ done b
    → (check ≡ done tt) × (next ≡ done b)
done_after (failed e) next h = cc
done_after (done tt) next h = (refl, h)

abbrev pub from_base64 : SpaError.Result Bytes → Attempt Bytes
from_base64 (SpaError.ok k) = done k
from_base64 (SpaError.err _) = failed key_error

abbrev pub decoded_key : Bytes → Attempt Bytes
decoded_key s = from_base64 (std_decode s)

unfoldable pub resolve_enc_key : ClientConfig → Attempt Bytes
resolve_enc_key c =
    if not (is_empty c.key_base64)
    then decoded_key c.key_base64
    else if not (is_empty c.key)
    then done c.key
    else failed no_enc_key

-- No key is an empty key.
unfoldable pub resolve_hmac_key : ClientConfig → Attempt Bytes
resolve_hmac_key c =
    if not c.use_hmac
    then done []
    else if not (is_empty c.key_base64_hmac)
    then decoded_key c.key_base64_hmac
    else if not (is_empty c.key_hmac)
    then done c.key_hmac
    else failed no_hmac_key

unfoldable pub resolve_digest_type : Bytes → Attempt DigestType
resolve_digest_type s =
    if named s (codes "md5")
    then done digest_md5
    else if named s (codes "sha1")
    then done digest_sha1
    else if named s (codes "sha256")
    then done digest_sha256
    else if named s (codes "sha384")
    then done digest_sha384
    else if named s (codes "sha512")
    then done digest_sha512
    else if named s (codes "sha3_256") || named s (codes "sha3-256")
    then done digest_sha3_256
    else if named s (codes "sha3_512") || named s (codes "sha3-512")
    then done digest_sha3_512
    else failed unknown_digest_type

unfoldable pub resolve_hmac_type : Bytes → Attempt HmacType
resolve_hmac_type s =
    if named s (codes "md5")
    then done hmac_md5
    else if named s (codes "sha1")
    then done hmac_sha1
    else if named s (codes "sha256")
    then done hmac_sha256
    else if named s (codes "sha384")
    then done hmac_sha384
    else if named s (codes "sha512")
    then done hmac_sha512
    else if named s (codes "sha3_256") || named s (codes "sha3-256")
    then done hmac_sha3_256
    else if named s (codes "sha3_512") || named s (codes "sha3-512")
    then done hmac_sha3_512
    else failed unknown_hmac_type

unfoldable pub resolve_enc_mode : Bytes → Attempt EncryptionMode
resolve_enc_mode s =
    if named s (codes "cbc")
    then done mode_cbc
    else if named s (codes "legacy")
    then done mode_cbc_legacy
    else failed unknown_enc_mode
