-- ===== src/Client/Loading.antt =====
-- cmd/fwknop/config.go: loadConfig. The parsed command line, koanf, the decoding of values, the home
-- directory and the files are arguments.
use fwknop_go.Base.{
  pos, Bool, false, ◌||◌, Option, none, some, [], Bytes, codes, if◌then◌else◌, to_lower,
  trim_prefix,
}
use fwknop_go.Spa.Validate.{is_empty}
use fwknop_go.Koanf.{
  Koanf, FlagState, FlagValue, Parsed, help_asked, bad_args, parsed, bool_of, string_of,
  settings_of,
}
use fwknop_go.Koanf.Completion.{
  Decoder, ◌>>=◌, text_field, int_field, bool_field, Completion, exits, stops, goes_on, or_stop,
  then_go,
}
use fwknop_go.Client.Config.{ClientConfig}
use fwknop_go.Client.Flags.{client_flags, flag_key}
use fwknop_go.Client.RcFile.{
  RcError, no_file, legacy_format, bad_yaml, stanza_not_found, Loaded, loaded, not_loaded,
  RcStanzas, load_rc_file,
}

module _ {V : Type 0} (d : Decoder V) where
  -- k.Unmarshal: the fields by their tags. Every field has a flag, so that its own name is always
  -- there, and mapstructure looks for no name in another case.
  unfoldable pub unmarshal : (Bytes → Option V) → Option ClientConfig
  unmarshal get = do
    destination ← text_field d (get (codes "destination"))
    server_port ← int_field d (get (codes "server_port"))
    allow_ip ← text_field d (get (codes "allow_ip"))
    access ← text_field d (get (codes "access"))
    server_cmd ← text_field d (get (codes "server_cmd"))
    spoof_user ← text_field d (get (codes "spoof_user"))
    source_ip ← bool_field d (get (codes "source_ip"))
    fw_timeout ← int_field d (get (codes "fw_timeout"))
    nat_access ← text_field d (get (codes "nat_access"))
    nat_local ← bool_field d (get (codes "nat_local"))
    nat_port ← int_field d (get (codes "nat_port"))
    digest_type ← text_field d (get (codes "digest_type"))
    hmac_digest_type ← text_field d (get (codes "hmac_digest_type"))
    encryption_mode ← text_field d (get (codes "encryption_mode"))
    key ← text_field d (get (codes "key"))
    key_base64 ← text_field d (get (codes "key_base64"))
    key_hmac ← text_field d (get (codes "key_hmac"))
    key_base64_hmac ← text_field d (get (codes "hmac_key_base64"))
    use_hmac ← bool_field d (get (codes "use_hmac"))
    resolve_ip ← bool_field d (get (codes "resolve_ip"))
    resolve_url ← text_field d (get (codes "resolve_url"))
    time_offset_plus ← text_field d (get (codes "time_offset_plus"))
    time_offset_minus ← text_field d (get (codes "time_offset_minus"))
    named_config ← text_field d (get (codes "named_config"))
    rc_file ← text_field d (get (codes "rc_file"))
    no_rc_file ← bool_field d (get (codes "no_rc_file"))
    test ← bool_field d (get (codes "test"))
    verbose ← int_field d (get (codes "verbose"))
    key_gen ← bool_field d (get (codes "key_gen"))
    save_rc ← bool_field d (get (codes "save_rc_stanza"))
    list_stanzas ← bool_field d (get (codes "stanza_list"))
    show_version ← bool_field d (get (codes "version"))
    some (record {
      destination = destination;
      server_port = server_port;
      allow_ip = allow_ip;
      access = access;
      server_cmd = server_cmd;
      spoof_user = spoof_user;
      source_ip = source_ip;
      fw_timeout = fw_timeout;
      nat_access = nat_access;
      nat_local = nat_local;
      nat_port = nat_port;
      digest_type = digest_type;
      hmac_digest_type = hmac_digest_type;
      encryption_mode = encryption_mode;
      key = key;
      key_base64 = key_base64;
      key_hmac = key_hmac;
      key_base64_hmac = key_base64_hmac;
      use_hmac = use_hmac;
      resolve_ip = resolve_ip;
      resolve_url = resolve_url;
      time_offset_plus = time_offset_plus;
      time_offset_minus = time_offset_minus;
      named_config = named_config;
      rc_file = rc_file;
      no_rc_file = no_rc_file;
      test = test;
      verbose = verbose;
      key_gen = key_gen;
      save_rc = save_rc;
      list_stanzas = list_stanzas;
      show_version = show_version;
    })

pub data LoadError : Type 0 where
  bad_flags env_failed flags_failed bad_settings : LoadError
  rc_failed : RcError → LoadError

pub record Place (K V : Type 0) : Type 0 where
  pub koanf : Koanf K V
  pub decoder : Decoder V
  pub home : Option Bytes
  pub join : Bytes → Bytes → Bytes
  pub read_file : Bytes → Option Bytes
  pub is_missing : Bytes → Bool
  pub parse_yaml : Bytes → Option (RcStanzas V)

-- strings.ToLower(strings.TrimPrefix(s, "FWKNOP_"))
abbrev pub env_key : Bytes → Bytes
env_key name = to_lower (trim_prefix (codes "FWKNOP_") name)

-- The value of a flag.
abbrev pub value_of : (Bytes → FlagState) → Bytes → FlagValue
value_of given name = (given name).value

abbrev pub zero_config : ClientConfig
zero_config = record {
  destination = [];
  server_port = pos 0;
  allow_ip = [];
  access = [];
  server_cmd = [];
  spoof_user = [];
  source_ip = false;
  fw_timeout = pos 0;
  nat_access = [];
  nat_local = false;
  nat_port = pos 0;
  digest_type = [];
  hmac_digest_type = [];
  encryption_mode = [];
  key = [];
  key_base64 = [];
  key_hmac = [];
  key_base64_hmac = [];
  use_hmac = false;
  resolve_ip = false;
  resolve_url = [];
  time_offset_plus = [];
  time_offset_minus = [];
  named_config = [];
  rc_file = [];
  no_rc_file = false;
  test = false;
  verbose = pos 0;
  key_gen = false;
  save_rc = false;
  list_stanzas = false;
  show_version = false;
}

module _ {K V : Type 0} (p : Place K V) (given : Bytes → FlagState) where
  abbrev pub in_home : Option Bytes → Bytes
  in_home none = []
  in_home (some home) = p.join home (codes ".fwknoprc")

  -- The path of the rc file; none is empty.
  unfoldable pub rc_path : Bytes
  rc_path =
      let path = string_of (value_of given (codes "rc-file")) in
      if is_empty path then in_home p.home else path

  -- A file that is missing is passed over.
  abbrev pub after_rc : Bytes → K → Loaded K → Completion LoadError K
  after_rc path k (loaded s) = goes_on s
  after_rc path k (not_loaded no_file) =
      if p.is_missing path then goes_on k else stops (rc_failed no_file)
  after_rc path k (not_loaded legacy_format) = stops (rc_failed legacy_format)
  after_rc path k (not_loaded bad_yaml) = stops (rc_failed bad_yaml)
  after_rc path k (not_loaded stanza_not_found) = stops (rc_failed stanza_not_found)

  unfoldable pub load_rc : K → Completion LoadError K
  load_rc k =
      if bool_of (value_of given (codes "no-rc-file")) || is_empty rc_path
      then goes_on k
      else after_rc rc_path k (
          load_rc_file p.koanf.set p.parse_yaml k (p.read_file rc_path)
            (string_of (value_of given (codes "named-config"))))

  abbrev pub load_flags_layer : K → Completion LoadError K
  load_flags_layer k =
      or_stop flags_failed (p.koanf.load_flags (settings_of p.koanf flag_key given client_flags) k)

  abbrev pub load_env_layer : K → Completion LoadError K
  load_env_layer k = or_stop env_failed (p.koanf.load_env (codes "FWKNOP_") env_key k)

  -- The three steps.
  unfoldable pub load_store : Completion LoadError K
  load_store = then_go load_flags_layer (then_go load_env_layer (load_rc p.koanf.new))

  abbrev pub unmarshalled : K → Completion LoadError ClientConfig
  unmarshalled k = or_stop bad_settings (unmarshal p.decoder (λ key. p.koanf.get key k))

  unfoldable pub load_parsed : Completion LoadError ClientConfig
  load_parsed =
      let show_version = bool_of (value_of given (codes "version")) in
      let key_gen = bool_of (value_of given (codes "key-gen")) in
      if bool_of (value_of given (codes "help"))
      then exits
      else if show_version || key_gen
      then goes_on (record zero_config { show_version = show_version; key_gen = key_gen })
      else then_go unmarshalled load_store

unfoldable pub load_config : {K V : Type 0} → Place K V → Parsed → Completion LoadError ClientConfig
load_config p help_asked = exits
load_config p bad_args = stops bad_flags
load_config p (parsed given) = load_parsed p given
