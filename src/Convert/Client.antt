-- ===== src/Convert/Client.antt =====
-- cmd/fwknop-convert/client.go: parseClientStanzas.
use fwknop_go.Base.{
  or_nothing, Bool, false, ◌||◌, ◌&&◌, Option, none, some, List, [], ◌∷◌, ◌++◌, Bytes, codes,
  length, ◌-◌, take, drop, ◌==◌, ℕ, if◌then◌else◌, to_upper, trim_space,
}
use fwknop_go.Spa.Validate.{is_empty}
use fwknop_go.Map.{lookup, insert}
use fwknop_go.Convert.Lines.{
  is_skipped, starts_with, scan_lines, split_pair, text, Entries, case_of,
}

abbrev pub client_keys : List (Bytes × Bytes)
client_keys =
    (codes "SPA_SERVER", codes "destination")
    ∷ (codes "SPA_SERVER_PORT", codes "server_port")
    ∷ (codes "SPA_SERVER_PROTO", [])
    ∷ (codes "ACCESS", codes "access")
    ∷ (codes "ALLOW_IP", codes "allow_ip")
    ∷ (codes "DIGEST_TYPE", codes "digest_type")
    ∷ (codes "HMAC_DIGEST_TYPE", codes "hmac_digest_type")
    ∷ (codes "ENCRYPTION_MODE", codes "encryption_mode")
    ∷ (codes "KEY", codes "key")
    ∷ (codes "KEY_BASE64", codes "key_base64")
    ∷ (codes "HMAC_KEY", codes "key_hmac")
    ∷ (codes "HMAC_KEY_BASE64", codes "hmac_key_base64")
    ∷ (codes "USE_HMAC", codes "use_hmac")
    ∷ (codes "FW_TIMEOUT", codes "fw_timeout")
    ∷ (codes "SPOOF_USER", codes "spoof_user")
    ∷ (codes "NAT_ACCESS", codes "nat_access")
    ∷ (codes "NAT_LOCAL", codes "nat_local")
    ∷ (codes "NAT_PORT", codes "nat_port")
    ∷ (codes "RESOLVE_IP_HTTPS", codes "resolve_ip")
    ∷ (codes "RESOLVE_IP_HTTP", codes "resolve_ip")
    ∷ (codes "RESOLVE_URL", codes "resolve_url")
    ∷ (codes "VERBOSE", codes "verbose")
    ∷ []

unfoldable pub map_client_key : Bytes → Bytes
map_client_key key = or_nothing (case_of (to_upper key) client_keys)

abbrev pub Stanzas : Type 0
Stanzas = List (Bytes × Entries)

pub record ClientState : Type 0 where
  pub stanzas : Stanzas
  pub warnings : List Bytes
  pub current : Bytes

abbrev pub entries_of : Bytes → Stanzas → Entries
entries_of name ss = or_nothing (lookup name ss)

abbrev pub unsupported_key : Bytes → Bytes → Bytes
unsupported_key key stanza =
    codes "skipping unsupported key " ++ (key ++ (codes " in stanza [" ++ (stanza ++ codes "]")))

-- The last byte is the one given: strings.HasSuffix with one byte.
abbrev pub ends_with : ℕ → Bytes → Bool
ends_with b [] = false
ends_with b (c ∷ []) = c == b
ends_with b (c ∷ d ∷ s) = ends_with b (d ∷ s)

abbrev pub is_header : Bytes → Bool
is_header line = starts_with b'[' line && ends_with b']' line

-- line[1 : len(line)-1]; a header has two bytes at least.
abbrev pub header_name : Bytes → Bytes
header_name line = trim_space (take (length line - 2) (drop 1 line))

abbrev pub ensured : Option Entries → Bytes → Stanzas → Stanzas
ensured none name ss = insert name [] ss
ensured (some e) name ss = ss

unfoldable pub enter_stanza : Bytes → ClientState → ClientState
enter_stanza name s = record s {
  current = name;
  stanzas = ensured (lookup name s.stanzas) name s.stanzas;
}

unfoldable pub client_pair : Bytes → Bytes → ClientState → ClientState
client_pair key value s =
    let mapped = map_client_key key in
    if is_empty mapped
    then record s { warnings = s.warnings ++ (unsupported_key key s.current ∷ []) }
    else record s {
      stanzas =
          insert s.current (insert mapped (text value) (entries_of s.current s.stanzas)) s.stanzas;
    }

unfoldable pub client_line : Bytes → ClientState → ClientState
client_line line s =
    if is_skipped line || starts_with b';' line
    then s
    else if is_header line
    then enter_stanza (header_name line) s
    else elim (split_pair line) [
      | none ↦ s
      | some (key, value) ↦ client_pair (trim_space key) (trim_space value) s
    ]

unfoldable pub client_lines : List Bytes → ClientState → ClientState
client_lines [] s = s
client_lines (l ∷ ls) s = client_lines ls (client_line l s)

abbrev pub only_default : ClientState
only_default = record {
  stanzas = (codes "default", []) ∷ [];
  warnings = [];
  current = codes "default";
}

unfoldable pub parse_client_stanzas : Bytes → ClientState
parse_client_stanzas input = client_lines (scan_lines input) only_default
