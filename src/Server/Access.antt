-- ===== src/Server/Access.antt =====
-- cmd/fwknopd/access.go: access stanzas. Reading the file and its YAML is outside; net.ParseIP,
-- net.ParseCIDR and IP.String are arguments.
pub mod Resolving
pub mod Matching
pub mod Tests
use Prim.Native.Nat.{bit_and}
use fwknop_go.Base.{
  ℕ, zero, ℤ, pos, Bool, true, false, not, ◌&&◌, ◌||◌, Option, none, some, List, [], ◌∷◌, ◌++◌,
  Bytes, codes, length, take, drop, replicate, ◌==◌, eqb, if◌then◌else◌, split, contains, to_lower,
  to_upper, trim_space,
}
use fwknop_go.Spa.Error as SpaError
use fwknop_go.Spa.Kinds.{
  HmacType, hmac_md5, hmac_sha1, hmac_sha256, hmac_sha384, hmac_sha512, hmac_sha3_256,
  hmac_sha3_512, EncryptionMode, mode_cbc, mode_cbc_legacy,
}
use fwknop_go.Spa.Base64.{std_decode}
use fwknop_go.Spa.Validate.{is_empty}

-- net.IPNet: the address and the mask, of 4 or of 16 bytes.
pub record IpNet : Type 0 where
  pub ip : Bytes
  pub mask : Bytes

pub record Net : Type 0 where
  pub parse_ip : Bytes → Option Bytes
  pub parse_cidr : Bytes → Option IpNet
  pub ip_string : Bytes → Bytes

pub record AccessStanza : Type 0 where
  pub source : Bytes
  pub open_ports : List Bytes
  pub key_base64 : Bytes
  pub key : Bytes
  pub hmac_key_base64 : Bytes
  pub hmac_key_text : Bytes
  pub hmac_digest_name : Bytes
  pub encryption_mode_name : Bytes
  pub access_timeout : ℤ
  pub max_access_timeout : ℤ
  pub require_username : Bytes
  pub require_source_addr : Bool
  pub enable_cmd_exec : Bool
  pub cmd_exec_user : Bytes
  pub source_nets : List IpNet
  pub enc_key : Bytes
  pub hmac_key : Bytes
  pub hmac_type : HmacType
  pub enc_mode : EncryptionMode

pub data ConfigError : Type 0 where
  source_required invalid_source invalid_key_base64 key_required : ConfigError
  invalid_hmac_key_base64 unknown_hmac_digest_type unknown_encryption_mode : ConfigError

pub data Resolved {ℓ} (A : Type ℓ) : Type ℓ where
  resolved : A → Resolved A
  refused : ConfigError → Resolved A

infixl 5 ◌>>=◌
abbrev pub ◌>>=◌ {ℓ κ} : {A : Type ℓ} {B : Type κ} → Resolved A → (A → Resolved B) → Resolved B
resolved a >>= f = f a
refused e >>= f = refused e

-- The two networks of "ANY".
abbrev pub all_v4 : IpNet
all_v4 = record { ip = replicate 4 0; mask = replicate 4 0 }

abbrev pub all_v6 : IpNet
all_v6 = record { ip = replicate 16 0; mask = replicate 16 0 }

module _ (net : Net) where
  -- A single address gets the longest prefix.
  unfoldable pub with_prefix : Bytes → Bytes
  with_prefix part = if contains b'/' part then part else elim (net.parse_ip part) [
    | none ↦ part ++ codes "/32"
    | some ip ↦ if contains b':' part then part ++ codes "/128" else part ++ codes "/32"
  ]

  unfoldable pub parse_parts : List Bytes → List IpNet → Resolved (List IpNet)
  parse_parts [] nets = resolved nets
  parse_parts (p ∷ ps) nets = elim (net.parse_cidr (with_prefix (trim_space p))) [
    | none ↦ refused invalid_source
    | some n ↦ parse_parts ps (nets ++ n ∷ [])
  ]

  unfoldable pub parse_source_nets : AccessStanza → Resolved AccessStanza
  parse_source_nets a =
      if eqb (to_upper a.source) (codes "ANY")
      then resolved (record a { source_nets = all_v4 ∷ all_v6 ∷ [] })
      else (parse_parts (split b',' a.source) a.source_nets >>= λ nets.
          resolved (record a { source_nets = nets }))

-- base64.StdEncoding.DecodeString of a key.
abbrev pub from_base64 : SpaError.Result Bytes → ConfigError → Resolved Bytes
from_base64 (SpaError.ok k) e = resolved k
from_base64 (SpaError.err _) e = refused e

abbrev pub decode_key : Bytes → ConfigError → Resolved Bytes
decode_key s e = from_base64 (std_decode s) e

unfoldable pub resolve_enc_key : AccessStanza → Resolved Bytes
resolve_enc_key a =
    if not (is_empty a.key_base64)
    then decode_key a.key_base64 invalid_key_base64
    else if not (is_empty a.key)
    then resolved a.key
    else refused key_required

-- Without an HMAC key the field keeps what it held.
unfoldable pub resolve_hmac_key : AccessStanza → Resolved Bytes
resolve_hmac_key a =
    if not (is_empty a.hmac_key_base64)
    then decode_key a.hmac_key_base64 invalid_hmac_key_base64
    else if not (is_empty a.hmac_key_text)
    then resolved a.hmac_key_text
    else resolved a.hmac_key

abbrev pub default_name : Bytes → Bytes → Bytes
default_name s d = if is_empty s then d else s

-- Whether the lower-case name is the literal, or one of two.
abbrev pub named : Bytes → Bytes → Bool
named s name = eqb (to_lower s) name

unfoldable pub hmac_type_named : Bytes → Resolved HmacType
hmac_type_named s =
    if named s (codes "md5")
    then resolved hmac_md5
    else if named s (codes "sha1")
    then resolved hmac_sha1
    else if named s (codes "sha256")
    then resolved hmac_sha256
    else if named s (codes "sha384")
    then resolved hmac_sha384
    else if named s (codes "sha512")
    then resolved hmac_sha512
    else if named s (codes "sha3_256") || named s (codes "sha3-256")
    then resolved hmac_sha3_256
    else if named s (codes "sha3_512") || named s (codes "sha3-512")
    then resolved hmac_sha3_512
    else refused unknown_hmac_digest_type

unfoldable pub enc_mode_named : Bytes → Resolved EncryptionMode
enc_mode_named s =
    if named s (codes "cbc")
    then resolved mode_cbc
    else if named s (codes "legacy")
    then resolved mode_cbc_legacy
    else refused unknown_encryption_mode

-- A zero timeout takes the default.
abbrev pub or_default : ℤ → ℕ → ℤ
or_default (pos zero) d = pos d
or_default t d = t

unfoldable pub resolve : Net → AccessStanza → Resolved AccessStanza
resolve net a = if is_empty a.source then refused source_required else (do
  b ← parse_source_nets net a
  enc_key ← resolve_enc_key b
  hmac_key ← resolve_hmac_key b
  hmac_type ← hmac_type_named (default_name b.hmac_digest_name (codes "sha256"))
  enc_mode ← enc_mode_named (default_name b.encryption_mode_name (codes "cbc"))
  resolved (record b {
    enc_key = enc_key;
    hmac_key = hmac_key;
    hmac_type = hmac_type;
    enc_mode = enc_mode;
    access_timeout = or_default b.access_timeout 30;
    max_access_timeout = or_default b.max_access_timeout 300;
  }))

-- The loop of loadAccessConfig over the stanzas of the file.
unfoldable pub resolve_all : Net → List AccessStanza → Resolved (List AccessStanza)
resolve_all net [] = resolved []
resolve_all net (s ∷ ss) = do t ← resolve net s; ts ← resolve_all net ss; resolved (t ∷ ts)

-- IP.To4: an IPv4 address in 16 bytes becomes one of 4.
abbrev pub v4_in_v6_prefix : Bytes
v4_in_v6_prefix = replicate 10 0 ++ (255 ∷ 255 ∷ [])

abbrev pub to4 : Bytes → Option Bytes
to4 ip =
    if length ip == 4
    then some ip
    else if length ip == 16 && eqb (take 12 ip) v4_in_v6_prefix
    then some (drop 12 ip)
    else none

abbrev pub masked_equal : Bytes → Bytes → Bytes → Bool
masked_equal [] ms [] = true
masked_equal (n ∷ ns) (m ∷ ms) (i ∷ is) = bit_and n m == bit_and i m && masked_equal ns ms is
masked_equal _ _ _ = false

abbrev pub or_long : Option Bytes → Bytes → Bytes
or_long none ip = ip
or_long (some ip4) ip = ip4

-- An IPv4 address in 16 bytes counts as one of 4.
abbrev pub short : Bytes → Bytes
short ip = or_long (to4 ip) ip

-- networkNumberAndMask: the mask of an IPv4 network in 16 bytes is cut as its address is.
abbrev pub masked_number : Bytes → Bytes → Bytes × Bytes
masked_number number mask =
    if length mask == 4 && length number == 4
    then (number, mask)
    else if length mask == 16 && length number == 4
    then (number, drop 12 mask)
    else if length mask == 16 && length number == 16
    then (number, mask)
    else ([], [])

-- IPNet.Contains
unfoldable pub net_contains : IpNet → Bytes → Bool
net_contains n ip =
    let (number, mask) = masked_number (short n.ip) n.mask in masked_equal number mask (short ip)

abbrev pub any_contains : List IpNet → Bytes → Bool
any_contains [] ip = false
any_contains (n ∷ ns) ip = net_contains n ip || any_contains ns ip

unfoldable pub match_source : AccessStanza → Bytes → Bool
match_source a ip = any_contains a.source_nets ip
