-- ===== src/Client/Flags.antt =====
-- cmd/fwknop/config.go: the flags of the client, and the settings that they stand for.
use fwknop_go.Base.{
  ℤ, pos, Bool, true, false, Option, none, some, List, [], ◌∷◌, Bytes, codes, replace_all,
}
use fwknop_go.Map.{lookup}
use fwknop_go.Koanf.{Flag, string_flag, int_flag, bool_flag, count_flag}

abbrev pub default_server_port : ℤ
default_server_port = pos 62201

abbrev pub string_option : Bytes → Bytes → Flag
string_option name value = record { name = name; default = string_flag value }

abbrev pub bool_option : Bytes → Bool → Flag
bool_option name value = record { name = name; default = bool_flag value }

abbrev pub int_option : Bytes → ℤ → Flag
int_option name value = record { name = name; default = int_flag value }

abbrev pub count_option : Bytes → Flag
count_option name = record { name = name; default = count_flag (pos 0) }

abbrev pub client_flags : List Flag
client_flags =
    string_option (codes "destination") []
    ∷ int_option (codes "server-port") default_server_port
    ∷ string_option (codes "allow-ip") []
    ∷ string_option (codes "access") []
    ∷ string_option (codes "server-cmd") []
    ∷ string_option (codes "spoof-user") []
    ∷ bool_option (codes "source-ip") false
    ∷ int_option (codes "fw-timeout") (pos 0)
    ∷ string_option (codes "nat-access") []
    ∷ bool_option (codes "nat-local") false
    ∷ int_option (codes "nat-port") (pos 0)
    ∷ string_option (codes "digest-type") (codes "sha256")
    ∷ string_option (codes "hmac-digest-type") (codes "sha256")
    ∷ string_option (codes "encryption-mode") (codes "cbc")
    ∷ string_option (codes "key") []
    ∷ string_option (codes "key-base64") []
    ∷ string_option (codes "key-hmac") []
    ∷ string_option (codes "key-base64-hmac") []
    ∷ bool_option (codes "use-hmac") true
    ∷ bool_option (codes "resolve-ip") false
    ∷ string_option (codes "resolve-url") (codes "https://api.ipify.org")
    ∷ string_option (codes "time-offset-plus") []
    ∷ string_option (codes "time-offset-minus") []
    ∷ string_option (codes "named-config") []
    ∷ string_option (codes "rc-file") []
    ∷ bool_option (codes "no-rc-file") false
    ∷ bool_option (codes "save-rc-stanza") false
    ∷ bool_option (codes "stanza-list") false
    ∷ bool_option (codes "test") false
    ∷ count_option (codes "verbose")
    ∷ bool_option (codes "key-gen") false
    ∷ bool_option (codes "version") false
    ∷ bool_option (codes "help") false
    ∷ []

abbrev pub flag_key_aliases : List (Bytes × Bytes)
flag_key_aliases = (codes "key-base64-hmac", codes "hmac_key_base64") ∷ []

abbrev aliased : Bytes → Option Bytes → Bytes
aliased name none = replace_all b'-' b'_' name
aliased name (some key) = key

-- The key of a flag's setting.
unfoldable pub flag_key : Bytes → Bytes
flag_key name = aliased name (lookup name flag_key_aliases)
