-- ===== src/Server/Loading.antt =====
-- cmd/fwknopd/config.go: the flags, and loadServerConfig. The parsed command line, koanf, the decoding
-- of values and the files are arguments.
use fwknop_go.Base.{
  pos, Bool, false, Option, none, some, List, [], ◌∷◌, Bytes, codes, if◌then◌else◌, to_lower,
  trim_prefix, replace_all,
}
use fwknop_go.Koanf.{
  Koanf, Flag, string_flag, bool_flag, FlagState, Parsed, help_asked, bad_args, parsed, bool_of,
  string_of, settings_of, set_all,
}
use fwknop_go.Koanf.Completion.{
  Decoder, ◌>>=◌, field_setting, text_field, int_field, bool_field, Completion, exits, stops,
  goes_on, or_stop, then_go,
}
use fwknop_go.Server.ActionConfig.{ActionsConfig, empty_config}
use fwknop_go.Server.Startup.{Settings}

abbrev pub default_config_file : Bytes
default_config_file = codes "/etc/fwknop/server.yaml"

abbrev pub default_access_file : Bytes
default_access_file = codes "/etc/fwknop/access.yaml"

abbrev string_option : Bytes → Bytes → Flag
string_option name value = record { name = name; default = string_flag value }

abbrev switch : Bytes → Flag
switch name = record { name = name; default = bool_flag false }

abbrev pub server_flags : List Flag
server_flags =
    string_option (codes "config-file") default_config_file
    ∷ string_option (codes "access-file") default_access_file
    ∷ switch (codes "dump-config")
    ∷ switch (codes "foreground")
    ∷ switch (codes "help")
    ∷ switch (codes "kill")
    ∷ string_option (codes "pid-file") []
    ∷ switch (codes "restart")
    ∷ switch (codes "status")
    ∷ switch (codes "test")
    ∷ switch (codes "verbose")
    ∷ switch (codes "version")
    ∷ []

abbrev pub server_flag_key : Bytes → Bytes
server_flag_key = replace_all b'-' b'_'

-- strings.ToLower(strings.TrimPrefix(s, "FWKNOPD_"))
abbrev pub server_env_key : Bytes → Bytes
server_env_key name = to_lower (trim_prefix (codes "FWKNOPD_") name)

pub data LoadError : Type 0 where
  bad_flags bad_config_file env_failed flags_failed bad_settings : LoadError

module _ {V : Type 0} (d : Decoder V) (actions_of : V → Option ActionsConfig) where
  abbrev pub actions_field : Option V → Option ActionsConfig
  actions_field none = some empty_config
  actions_field (some v) = actions_of v

  -- serverConfig from what each field takes, by their tags.
  unfoldable pub unmarshal_fields : (Bytes → Option V) → Option Settings
  unmarshal_fields get = do
    udp_port ← int_field d (get (codes "udp_port"))
    bind_address ← text_field d (get (codes "bind_address"))
    log_file ← text_field d (get (codes "log_file"))
    syslog_ident ← text_field d (get (codes "syslog_identity"))
    syslog_facility ← text_field d (get (codes "syslog_facility"))
    verbose ← bool_field d (get (codes "verbose"))
    pid_file ← text_field d (get (codes "pid_file"))
    run_dir ← text_field d (get (codes "run_dir"))
    max_spa_packet_age ← int_field d (get (codes "max_spa_packet_age"))
    actions ← actions_field (get (codes "actions"))
    action_template ← text_field d (get (codes "action_template"))
    action_dir ← text_field d (get (codes "action_dir"))
    config_file ← text_field d (get (codes "config_file"))
    access_file ← text_field d (get (codes "access_file"))
    foreground ← bool_field d (get (codes "foreground"))
    test ← bool_field d (get (codes "test"))
    dump_config ← bool_field d (get (codes "dump_config"))
    kill ← bool_field d (get (codes "kill"))
    restart ← bool_field d (get (codes "restart"))
    status ← bool_field d (get (codes "status"))
    show_version ← bool_field d (get (codes "version"))
    some (record {
      udp_port = udp_port;
      bind_address = bind_address;
      log_file = log_file;
      syslog_ident = syslog_ident;
      syslog_facility = syslog_facility;
      verbose = verbose;
      pid_file = pid_file;
      run_dir = run_dir;
      max_spa_packet_age = max_spa_packet_age;
      actions = actions;
      action_template = action_template;
      action_dir = action_dir;
      config_file = config_file;
      access_file = access_file;
      foreground = foreground;
      test = test;
      dump_config = dump_config;
      kill = kill;
      restart = restart;
      status = status;
      show_version = show_version;
    })

  -- k.Unmarshal: a field takes the setting of its name, or else one whose name differs in its case.
  unfoldable pub unmarshal : List Bytes → (Bytes → Option V) → Option Settings
  unmarshal names get = unmarshal_fields (field_setting names get)

-- The tags of the fields.
abbrev pub field_names : List Bytes
field_names =
    codes "udp_port"
    ∷ codes "bind_address"
    ∷ codes "log_file"
    ∷ codes "syslog_identity"
    ∷ codes "syslog_facility"
    ∷ codes "verbose"
    ∷ codes "pid_file"
    ∷ codes "run_dir"
    ∷ codes "max_spa_packet_age"
    ∷ codes "actions"
    ∷ codes "action_template"
    ∷ codes "action_dir"
    ∷ codes "config_file"
    ∷ codes "access_file"
    ∷ codes "foreground"
    ∷ codes "test"
    ∷ codes "dump_config"
    ∷ codes "kill"
    ∷ codes "restart"
    ∷ codes "status"
    ∷ codes "version"
    ∷ []

-- The files are looked for by os.Stat.
pub record Place (K V : Type 0) : Type 0 where
  pub koanf : Koanf K V
  pub decoder : Decoder V
  pub actions_of : V → Option ActionsConfig
  pub is_there : Bytes → Bool

-- The settings that are there before all layers.
abbrev pub default_settings : {K V : Type 0} → Koanf K V → List (Bytes × V)
default_settings o =
    (codes "udp_port", o.of_int (pos 62201))
    ∷ (codes "bind_address", o.of_text (codes "0.0.0.0"))
    ∷ (codes "log_file", o.of_text (codes "/var/log/fwknop/fwknopd.log"))
    ∷ (codes "syslog_identity", o.of_text (codes "fwknopd"))
    ∷ (codes "syslog_facility", o.of_text (codes "daemon"))
    ∷ (codes "pid_file", o.of_text (codes "/var/run/fwknop/fwknopd.pid"))
    ∷ (codes "run_dir", o.of_text (codes "/var/run/fwknop"))
    ∷ (codes "max_spa_packet_age", o.of_int (pos 120))
    ∷ (codes "action_dir", o.of_text (codes "/etc/fwknop/actions"))
    ∷ (codes "config_file", o.of_text default_config_file)
    ∷ (codes "access_file", o.of_text default_access_file)
    ∷ []

module _ {K V : Type 0} (p : Place K V) (given : Bytes → FlagState) where
  abbrev pub string_given : Bytes → Bytes
  string_given name = string_of (given name).value

  -- A file that is not there is passed over.
  unfoldable pub load_file_layer : K → Completion LoadError K
  load_file_layer k =
      let path = string_given (codes "config-file") in
      if p.is_there path then or_stop bad_config_file (p.koanf.load_file path k) else goes_on k

  abbrev pub load_env_layer : K → Completion LoadError K
  load_env_layer k = or_stop env_failed (p.koanf.load_env (codes "FWKNOPD_") server_env_key k)

  abbrev pub load_flags_layer : K → Completion LoadError K
  load_flags_layer k =
      or_stop flags_failed
        (p.koanf.load_flags (settings_of p.koanf server_flag_key given server_flags) k)

  -- The defaults and the steps.
  unfoldable pub load_store : Completion LoadError K
  load_store = then_go load_flags_layer (
      then_go load_env_layer
        (load_file_layer (set_all p.koanf.set (default_settings p.koanf) p.koanf.new)))

  -- A flag that was changed overrides the field once more.
  abbrev pub override : Bytes → Bytes → Bytes
  override name field = if (given name).changed then string_given name else field

  abbrev pub overridden : Settings → Settings
  overridden cfg = record cfg {
    config_file = override (codes "config-file") cfg.config_file;
    access_file = override (codes "access-file") cfg.access_file;
    pid_file = override (codes "pid-file") cfg.pid_file;
  }

  abbrev pub unmarshalled : K → Completion LoadError Settings
  unmarshalled k =
      then_go (λ cfg. goes_on (overridden cfg))
        (or_stop bad_settings
          (unmarshal p.decoder p.actions_of (p.koanf.raw_keys k) (λ key. p.koanf.get key k)))

  unfoldable pub load_parsed : Completion LoadError Settings
  load_parsed =
      if bool_of (given (codes "help")).value then exits else then_go unmarshalled load_store

unfoldable pub load_server_config :
    {K V : Type 0} → Place K V → Parsed → Completion LoadError Settings
load_server_config p help_asked = exits
load_server_config p bad_args = stops bad_flags
load_server_config p (parsed given) = load_parsed p given
