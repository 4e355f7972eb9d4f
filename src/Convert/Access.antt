-- ===== src/Convert/Access.antt =====
-- cmd/fwknop-convert/access.go: parseAccessConfig.
use fwknop_go.Base.{
  has_prefix, ℕ, ◌+◌, Option, none, some, List, [], ◌∷◌, ◌++◌, Bytes, codes, eqb, if◌then◌else◌,
  to_upper, trim_space, split, cut, format_uint,
}
use fwknop_go.Spa.Validate.{is_empty}
use fwknop_go.Map.{insert}
use fwknop_go.Convert.Lines.{
  is_skipped, scan_lines, split_pair, clean_value, parse_bool, Value, text, flag, ports, Entries,
  KeyCategory, cat_convert, cat_convert_bool, cat_ignore, cat_warn, cat_unknown, cat_convert_list,
  KeyAction, convert, convert_bool, convert_list, warn, unknown_key, one_of, case_of, key_skipped,
  unrecognized_key,
}

abbrev pub access_keys : List (Bytes × Bytes)
access_keys =
    (codes "SOURCE", codes "source")
    ∷ (codes "DESTINATION", codes "destination")
    ∷ (codes "KEY", codes "key")
    ∷ (codes "KEY_BASE64", codes "key_base64")
    ∷ (codes "HMAC_KEY", codes "hmac_key")
    ∷ (codes "HMAC_KEY_BASE64", codes "hmac_key_base64")
    ∷ (codes "HMAC_DIGEST_TYPE", codes "hmac_digest_type")
    ∷ (codes "ENCRYPTION_MODE", codes "encryption_mode")
    ∷ (codes "FW_ACCESS_TIMEOUT", codes "access_timeout")
    ∷ (codes "MAX_FW_TIMEOUT", codes "max_access_timeout")
    ∷ (codes "REQUIRE_USERNAME", codes "require_username")
    ∷ (codes "CMD_EXEC_USER", codes "cmd_exec_user")
    ∷ (codes "CMD_EXEC_GROUP", codes "cmd_exec_group")
    ∷ (codes "CMD_SUDO_EXEC_USER", codes "cmd_sudo_exec_user")
    ∷ (codes "CMD_SUDO_EXEC_GROUP", codes "cmd_sudo_exec_group")
    ∷ (codes "ACCESS_EXPIRE", codes "access_expire")
    ∷ (codes "ACCESS_EXPIRE_EPOCH", codes "access_expire_epoch")
    ∷ (codes "CMD_CYCLE_OPEN", codes "cmd_cycle_open")
    ∷ (codes "CMD_CYCLE_CLOSE", codes "cmd_cycle_close")
    ∷ (codes "CMD_CYCLE_TIMER", codes "cmd_cycle_timer")
    ∷ []

abbrev pub access_flags : List (Bytes × Bytes)
access_flags =
    (codes "REQUIRE_SOURCE_ADDRESS", codes "require_source_address")
    ∷ (codes "REQUIRE_SOURCE", codes "require_source_address")
    ∷ (codes "ENABLE_CMD_EXEC", codes "enable_cmd_exec")
    ∷ (codes "ENABLE_CMD_SUDO_EXEC", codes "enable_cmd_sudo_exec")
    ∷ (codes "FORCE_NAT", codes "force_nat")
    ∷ (codes "FORCE_SNAT", codes "force_snat")
    ∷ (codes "FORCE_MASQUERADE", codes "force_masquerade")
    ∷ (codes "DISABLE_DNAT", codes "disable_dnat")
    ∷ (codes "FORWARD_ALL", codes "forward_all")
    ∷ []

abbrev pub access_lists : List (Bytes × Bytes)
access_lists =
    (codes "OPEN_PORTS", codes "open_ports") ∷ (codes "RESTRICT_PORTS", codes "restrict_ports") ∷ []

abbrev pub gpg_keys : List Bytes
gpg_keys =
    codes "GPG_HOME_DIR"
    ∷ codes "GPG_EXE"
    ∷ codes "GPG_DECRYPT_ID"
    ∷ codes "GPG_DECRYPT_PW"
    ∷ codes "GPG_REQUIRE_SIG"
    ∷ codes "GPG_DISABLE_SIG"
    ∷ codes "GPG_IGNORE_SIG_VERIFY_ERROR"
    ∷ codes "GPG_REMOTE_ID"
    ∷ codes "GPG_FINGERPRINT_ID"
    ∷ codes "GPG_ALLOW_NO_PW"
    ∷ []

unfoldable pub classify_access_key : Bytes → KeyAction
classify_access_key upper = elim (case_of upper access_keys) [
  | some key ↦ convert key
  | none ↦ elim (case_of upper access_flags) [
    | some key ↦ convert_bool key
    | none ↦ elim (case_of upper access_lists) [
      | some key ↦ convert_list key
      | none ↦
          if one_of upper gpg_keys
          then warn (codes "GPG support not available in Go fwknop")
          else unknown_key
    ]
  ]
]

abbrev pub keep_port : Bytes → List Bytes → List Bytes
keep_port p ps = if is_empty p then ps else p ∷ ps

abbrev pub kept_ports : List Bytes → List Bytes
kept_ports [] = []
kept_ports (p ∷ ps) = keep_port (trim_space p) (kept_ports ps)

unfoldable pub parse_port_list : Bytes → List Bytes
parse_port_list s = kept_ports (split b',' s)

-- `current` is nil before the first setting.
pub record AccessState : Type 0 where
  pub stanzas : List Entries
  pub warnings : List Bytes
  pub current : Option Entries

-- The stanza that is being read joins the list.
abbrev pub finished : Option Entries → List Entries → List Entries
finished none ss = ss
finished (some c) ss = ss ++ (c ∷ [])

abbrev pub or_new : Option Entries → Entries
or_new none = []
or_new (some c) = c

abbrev pub add_access_warning : Bytes → AccessState → AccessState
add_access_warning w s = record s { warnings = s.warnings ++ (w ∷ []) }

abbrev pub set_entry : Bytes → Value → AccessState → AccessState
set_entry key v s = record s { current = some (insert key v (or_new s.current)) }

unfoldable pub access_setting : KeyCategory → KeyAction → Bytes → Bytes → AccessState → AccessState
access_setting cat_convert a key value s = set_entry a.go_key (text value) s
access_setting cat_convert_bool a key value s = set_entry a.go_key (flag (parse_bool value)) s
access_setting cat_convert_list a key value s = set_entry a.go_key (ports (parse_port_list value)) s
access_setting cat_ignore a key value s = s
access_setting cat_warn a key value s = add_access_warning (key_skipped a.reason key) s
access_setting cat_unknown a key value s = add_access_warning (unrecognized_key key) s

abbrev pub new_stanza : Bytes → AccessState → AccessState
new_stanza value s = record s {
  stanzas = finished s.current s.stanzas;
  current = some ((codes "source", text value) ∷ []);
}

unfoldable pub access_pair : Bytes → Bytes → AccessState → AccessState
access_pair key value s =
    let action = classify_access_key (to_upper key) in
    if eqb (to_upper key) (codes "SOURCE")
    then new_stanza value s
    else access_setting action.category action key value
        (record s { current = some (or_new s.current) })

abbrev pub before_space : Bytes → Bytes
before_space line = elim (cut b' ' line) [ none ↦ line | some (directive, rest) ↦ directive ]

abbrev pub include_unresolved : ℕ → Bytes → Bytes
include_unresolved n directive =
    codes "line "
    ++ (format_uint n
        ++ (codes ": "
            ++ (directive ++ codes " directive not resolved; manually merge the included file")))

unfoldable pub access_line : ℕ → Bytes → AccessState → AccessState
access_line n line s =
    if is_skipped line
    then s
    else if has_prefix line (codes "%include")
    then add_access_warning (include_unresolved n (before_space line)) s
    else elim (split_pair line) [
      | none ↦ s
      | some (key, value) ↦ access_pair (trim_space key) (clean_value value) s
    ]

-- The lines from number `n` on.
unfoldable pub access_lines : ℕ → List Bytes → AccessState → AccessState
access_lines n [] s = s
access_lines n (l ∷ ls) s = access_lines (n + 1) ls (access_line n l s)

abbrev pub no_access : AccessState
no_access = record { stanzas = []; warnings = []; current = none }

-- The stanzas and the warnings.
unfoldable pub parse_access_config : Bytes → List Entries × List Bytes
parse_access_config input =
    let s = access_lines 1 (scan_lines input) no_access in
    (finished s.current s.stanzas, s.warnings)
