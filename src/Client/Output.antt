-- ===== src/Client/Output.antt =====
-- cmd/fwknop: what the client prints. The text of a time (time.RFC3339) is an argument.
use fwknop_go.Base.{
  or_nothing, line_if, ℕ, ltb, ℤ, pos, negsuc, Bool, true, false, not, ◌&&◌, Option, none, some,
  List, [], ◌∷◌, ◌++◌, Bytes, codes, length, if◌then◌else◌, format_uint, format_int, unix_seconds,
}
use fwknop_go.Spa.Kinds.{
  message_type_string, digest_type_string, encryption_mode_string, hmac_type_string,
}
use fwknop_go.Spa.Message.{Message}
use fwknop_go.Spa.Encode.{protocol_version}
use fwknop_go.Spa.Validate.{is_empty}
use fwknop_go.BuildInfo.{Built, get_info, info_string}
use fwknop_go.Client.Config.{ClientConfig}
use fwknop_go.Client.RcFile.{RcError, no_file, legacy_format, bad_yaml, looks_like_legacy}

unfoldable pub print_spa_details : (rfc3339 : ℤ → Bytes) → Message → List Bytes
print_spa_details rfc3339 m =
    codes "SPA message details:"
    ∷ (codes "  Random value: " ++ m.rand_val)
    ∷ (codes "  Username:     " ++ m.username)
    ∷ (codes "  Timestamp:    "
        ++ (rfc3339 m.timestamp
            ++ (codes " (" ++ (format_int (unix_seconds m.timestamp) ++ codes ")"))))
    ∷ (codes "  Message type: " ++ message_type_string m.message_type)
    ∷ (codes "  Access:       " ++ m.access)
    ∷ (line_if (not (is_empty m.nat_access)) (codes "  NAT access:   " ++ m.nat_access)
        ++ (line_if (not (is_empty m.server_auth)) (codes "  Server auth:  " ++ m.server_auth)
            ++ (line_if (ltb 0 m.client_timeout)
                  (codes "  Timeout:      " ++ (format_uint m.client_timeout ++ codes "s"))
                ++ ((codes "  Digest:       " ++ digest_type_string m.digest_type)
                    ∷ (codes "  Encryption:   " ++ encryption_mode_string m.encryption_mode)
                    ∷ (codes "  HMAC:         " ++ hmac_type_string m.hmac_type)
                    ∷ []))))

-- cfg.Verbose > n
abbrev more_than : ℕ → ℤ → Bool
more_than n (pos v) = ltb n v
more_than n (negsuc v) = false

abbrev details_if : Bool → (ℤ → Bytes) → Message → List Bytes
details_if true rfc3339 m = print_spa_details rfc3339 m
details_if false rfc3339 m = []

-- The lines on standard error about a message and its packet, which is then sent or printed.
unfoldable pub verbose_lines : (rfc3339 : ℤ → Bytes) → ClientConfig → Message → Bytes → List Bytes
verbose_lines rfc3339 c m spa =
    details_if (more_than 0 c.verbose) rfc3339 m
    ++ (line_if (more_than 0 c.verbose)
          (codes "SPA data length: " ++ (format_uint (length spa) ++ codes " bytes"))
        ++ (line_if (more_than 1 c.verbose) (codes "SPA data: " ++ spa)
            ++ line_if (more_than 0 c.verbose && not c.test) (
                codes "Sending SPA packet to "
                ++ (c.destination
                    ++ (codes ":" ++ (format_int c.server_port ++ codes " (UDP)..."))))))

unfoldable pub key_lines : Bytes → Bytes → List Bytes
key_lines enc_key hmac_key =
    (codes "KEY_BASE64: " ++ enc_key) ∷ (codes "HMAC_KEY_BASE64: " ++ hmac_key) ∷ []

abbrev client_version : Bytes
client_version = codes "0.1.0"

unfoldable pub version_line : Option Built → Bytes
version_line build =
    codes "fwknop (Go) version "
    ++ (info_string (get_info build client_version)
        ++ (codes " (SPA protocol " ++ (protocol_version ++ codes ")")))

-- The path of the rc file whose stanzas are listed; without a home directory it is relative.
unfoldable pub listed_path : (join : Bytes → Bytes → Bytes) → Option Bytes → ClientConfig → Bytes
listed_path join home c =
    if is_empty c.rc_file then join (or_nothing home) (codes ".fwknoprc") else c.rc_file

pub data Listing : Type 0 where
  not_listed : RcError → Listing
  listed : List Bytes → Listing

abbrev names_listed : Option (List Bytes) → Listing
names_listed none = not_listed bad_yaml
names_listed (some names) = listed names

-- The names come in the order of the map.
unfoldable pub list_stanzas : (parse_names : Bytes → Option (List Bytes)) → Option Bytes → Listing
list_stanzas parse_names none = not_listed no_file
list_stanzas parse_names (some content) =
    if looks_like_legacy content
    then not_listed legacy_format
    else names_listed (parse_names content)
