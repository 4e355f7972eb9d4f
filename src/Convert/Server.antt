-- ===== src/Convert/Server.antt =====
-- cmd/fwknop-convert/server.go: parseServerConfig. The list fwKeys is kept, though nothing reads it.
use fwknop_go.Base.{
  has_prefix, ◌||◌, none, some, List, [], ◌∷◌, ◌++◌, Bytes, codes, eqb, if◌then◌else◌, to_upper,
  trim_space,
}
use fwknop_go.Spa.Validate.{is_empty}
use fwknop_go.Map.{insert}
use fwknop_go.Convert.Lines.{
  is_skipped, scan_lines, split_pair, clean_value, parse_bool, text, flag, Entries, KeyCategory,
  cat_convert, cat_convert_bool, cat_ignore, cat_warn, cat_unknown, cat_convert_list, KeyAction,
  convert, convert_bool, warn, ignore, unknown_key, one_of, case_of, key_skipped, unrecognized_key,
}

abbrev pub converted_keys : List (Bytes × Bytes)
converted_keys =
    (codes "UDPSERV_PORT", codes "udp_port")
    ∷ (codes "VERBOSE", codes "verbose")
    ∷ (codes "MAX_SPA_PACKET_AGE", codes "max_spa_packet_age")
    ∷ (codes "SYSLOG_IDENTITY", codes "syslog_identity")
    ∷ (codes "SYSLOG_FACILITY", codes "syslog_facility")
    ∷ (codes "FWKNOP_RUN_DIR", codes "run_dir")
    ∷ (codes "FWKNOP_PID_FILE", codes "pid_file")
    ∷ (codes "ACCESS_FILE", codes "access_file")
    ∷ []

abbrev pub converted_flags : List (Bytes × Bytes)
converted_flags =
    (codes "ENABLE_SPA_PACKET_AGING", codes "enable_spa_packet_aging")
    ∷ (codes "ENABLE_DIGEST_PERSISTENCE", codes "enable_digest_persistence")
    ∷ []

abbrev pub ignored_keys : List Bytes
ignored_keys =
    codes "PCAP_INTF"
    ∷ codes "PCAP_FILTER"
    ∷ codes "PCAP_DISPATCH_COUNT"
    ∷ codes "PCAP_LOOP_SLEEP"
    ∷ codes "MAX_SNIFF_BYTES"
    ∷ codes "ENABLE_PCAP_PROMISC"
    ∷ codes "ENABLE_PCAP_ANY_DIRECTION"
    ∷ codes "EXIT_AT_INTF_DOWN"
    ∷ codes "ENABLE_UDP_SERVER"
    ∷ codes "UDPSERV_SELECT_TIMEOUT"
    ∷ codes "FWKNOP_CONF_DIR"
    ∷ codes "ACCESS_FOLDER"
    ∷ codes "DIGEST_FILE"
    ∷ codes "DIGEST_DB_FILE"
    ∷ codes "RULES_CHECK_THRESHOLD"
    ∷ codes "CMD_EXEC_TIMEOUT"
    ∷ codes "ENABLE_RULE_PREPEND"
    ∷ codes "ENABLE_DESTINATION_RULE"
    ∷ codes "ENABLE_NAT_DNS"
    ∷ codes "FIREWALL_EXE"
    ∷ codes "SNAT_TRANSLATE_IP"
    ∷ codes "ENABLE_FIREWD_COMMENT_CHECK"
    ∷ codes "ENABLE_IPT_COMMENT_CHECK"
    ∷ []

abbrev pub warned_keys : List (Bytes × Bytes)
warned_keys =
    (codes "GPG_HOME_DIR", codes "GPG encryption not supported in Go version")
    ∷ (codes "GPG_EXE", codes "GPG encryption not supported in Go version")
    ∷ (codes "ENABLE_SPA_OVER_HTTP", codes "HTTP SPA mode not supported")
    ∷ (codes "ALLOW_ANY_USER_AGENT", codes "HTTP SPA mode not supported")
    ∷ (codes "ENABLE_X_FORWARDED_FOR", codes "HTTP SPA mode not supported")
    ∷ (codes "ENABLE_TCP_SERVER", codes "TCP server mode not supported; use UDP")
    ∷ (codes "TCPSERV_PORT", codes "TCP server mode not supported; use UDP")
    ∷ (codes "ENABLE_EXTERNAL_CMDS", codes "use action templates instead of external commands")
    ∷ (codes "EXTERNAL_CMD_OPEN", codes "use action templates instead of external commands")
    ∷ (codes "EXTERNAL_CMD_CLOSE", codes "use action templates instead of external commands")
    ∷ (codes "EXTERNAL_CMD_ALARM", codes "use action templates instead of external commands")
    ∷ (codes "ENABLE_EXT_CMD_PREFIX", codes "use action templates instead of external commands")
    ∷ (codes "EXT_CMD_PREFIX", codes "use action templates instead of external commands")
    ∷ (codes "PCAP_FILE", codes "pcap file replay not supported")
    ∷ (codes "LOCALE", codes "locale override not applicable")
    ∷ []

unfoldable pub classify_server_key : Bytes → KeyAction
classify_server_key upper = elim (case_of upper converted_keys) [
  | some key ↦ convert key
  | none ↦ elim (case_of upper converted_flags) [
    | some key ↦ convert_bool key
    | none ↦
        if one_of upper ignored_keys
        then ignore
        else elim (case_of upper warned_keys) [ some reason ↦ warn reason | none ↦ unknown_key ]
  ]
]

pub record ServerState : Type 0 where
  pub config : Entries
  pub warnings : List Bytes
  pub fw_keys : List Bytes
  pub fw_backend : Bytes

-- The families of firewall settings that the prefixes tell apart, in the order of the cases.
pub data Family : Type 0 where
  iptables firewalld ipfw pf nfq no_family : Family

unfoldable pub family : Bytes → Family
unfolding has_prefix
family upper =
    if has_prefix upper (codes "IPT_")
      || has_prefix upper (codes "ENABLE_IPT_")
      || has_prefix upper (codes "FLUSH_IPT_")
    then iptables
    else if has_prefix upper (codes "FIREWD_")
        || has_prefix upper (codes "ENABLE_FIREWD_")
        || has_prefix upper (codes "FLUSH_FIREWD_")
    then firewalld
    else if has_prefix upper (codes "IPFW_") || has_prefix upper (codes "FLUSH_IPFW_")
    then ipfw
    else if has_prefix upper (codes "PF_")
    then pf
    else if has_prefix upper (codes "NFQ_") || has_prefix upper (codes "ENABLE_NFQ_")
    then nfq
    else no_family

-- What a key of a family does to the backend that was detected so far.
unfoldable pub next_backend : Family → Bytes → Bytes
next_backend iptables b = if is_empty b then codes "iptables" else b
next_backend firewalld b = if is_empty b || eqb b (codes "iptables") then codes "firewalld" else b
next_backend ipfw b = codes "ipfw"
next_backend pf b = codes "pf"
next_backend nfq b = b
next_backend no_family b = b

abbrev pub nfq_skipped : Bytes → Bytes
nfq_skipped key =
    codes "NFQ capture not supported; key " ++ (key ++ codes " skipped (use UDP server mode)")

abbrev pub add_warning : Bytes → ServerState → ServerState
add_warning w s = record s { warnings = s.warnings ++ (w ∷ []) }

-- A key of no family, by the category of its action.
unfoldable pub server_setting : KeyCategory → KeyAction → Bytes → Bytes → ServerState → ServerState
server_setting cat_convert a key value s = record s {
  config = insert a.go_key (text value) s.config;
}
server_setting cat_convert_bool a key value s = record s {
  config = insert a.go_key (flag (parse_bool value)) s.config;
}
server_setting cat_ignore a key value s = s
server_setting cat_warn a key value s = add_warning (key_skipped a.reason key) s
server_setting cat_unknown a key value s = add_warning (unrecognized_key key) s
server_setting cat_convert_list a key value s = add_warning (unrecognized_key key) s

abbrev pub firewall_key : Family → Bytes → ServerState → ServerState
firewall_key f key s = record s {
  fw_backend = next_backend f s.fw_backend;
  fw_keys = s.fw_keys ++ (key ∷ []);
}

unfoldable pub server_key : Family → Bytes → Bytes → ServerState → ServerState
server_key iptables key value s = firewall_key iptables key s
server_key firewalld key value s = firewall_key firewalld key s
server_key ipfw key value s = firewall_key ipfw key s
server_key pf key value s = firewall_key pf key s
server_key nfq key value s = add_warning (nfq_skipped key) s
server_key no_family key value s =
    let action = classify_server_key (to_upper key) in
    server_setting action.category action key value s

unfoldable pub server_pair : Bytes → Bytes → ServerState → ServerState
server_pair key value s = server_key (family (to_upper key)) key value s

unfoldable pub server_line : Bytes → ServerState → ServerState
server_line line s = if is_skipped line then s else elim (split_pair line) [
  | none ↦ s
  | some (key, value) ↦ server_pair (trim_space key) (clean_value value) s
]

unfoldable pub server_lines : List Bytes → ServerState → ServerState
server_lines [] s = s
server_lines (l ∷ ls) s = server_lines ls (server_line l s)

abbrev pub no_server_config : ServerState
no_server_config = record { config = []; warnings = []; fw_keys = []; fw_backend = [] }

unfoldable pub parse_server_config : Bytes → ServerState
parse_server_config input = server_lines (scan_lines input) no_server_config

-- The part of convertServer that adds the template of the backend.
unfoldable pub with_template : ServerState → Entries
with_template s =
    if is_empty s.fw_backend
    then s.config
    else insert (codes "action_template") (text (s.fw_backend ++ codes ".yaml")) s.config
