-- ===== src/Server/Startup/Tests.antt =====
-- Tests of the start of the server, of PID files and of the log.
use fwknop_go.Base.{
  ℕ, ◌≡◌, refl, true, false, some, none, [], ◌∷◌, codes, pos, to_upper, upper, to_lower, lower,
  parse_int64, format_int, format_uint,
}
use fwknop_go.Spa.Fixtures.{test_hashes, test_cipher}
use fwknop_go.Server.Fixtures.{test_net, test_stanza}
use fwknop_go.Server.Access.{
  AccessStanza, resolve, resolve_all, parse_source_nets, resolve_enc_key, resolve_hmac_key,
  hmac_type_named, enc_mode_named, all_v4, all_v6,
}
use fwknop_go.Server.ActionConfig.{empty_config, merge_actions_config}
use fwknop_go.Server.Actions.{new_manager, new_actions_manager, run_if_set}
use fwknop_go.Server.Actions.Tests.{test_host}
use fwknop_go.Server.Daemon.{Reachable, Setup, Daemon}
use fwknop_go.Server.Startup.{
  Settings, Machine, serves, setup, first_state, load_access_config, load_action_template,
  all_actions, run_server,
}
use fwknop_go.Server.Log.{
  parse_syslog_facility, log_local3, to_file, to_syslog, warning, log_message,
}
use fwknop_go.Server.Startup.Ready.{IsReady, run_server-IsReady}
use fwknop_go.Server.Startup.Pid.{pid_text, parse_pid, show_status, running, panicked}

abbrev pub test_machine : Machine ℕ
test_machine = record {
  hashes = test_hashes;
  cipher = test_cipher;
  net = test_net;
  host = test_host;
  err_closed = true;
  read_access = λ path. some (test_stanza ∷ []);
  read_template =
      λ path. some (record empty_config { close = codes "close"; open_command = codes "start" });
  base = λ path. path;
  join = λ dir path. path;
  log_opens = true;
  world = 0;
}

abbrev pub test_settings : Settings
test_settings = record {
  udp_port = pos 62201;
  bind_address = codes "0.0.0.0";
  log_file = [];
  syslog_ident = codes "fwknopd";
  syslog_facility = codes "daemon";
  verbose = false;
  pid_file = codes "/run/fwknopd.pid";
  run_dir = codes "/run";
  config_file = codes "server.yaml";
  foreground = true;
  max_spa_packet_age = pos 120;
  actions = record empty_config {
    validate = codes "which";
    init = codes "init";
    open_command = codes "open";
  };
  action_template = codes "iptables.yaml";
  action_dir = codes "/etc";
  access_file = codes "access.yaml";
  test = false;
  dump_config = false;
  kill = false;
  restart = false;
  status = false;
  show_version = false;
}

abbrev pub resolved_stanza : AccessStanza
resolved_stanza = record test_stanza { source_nets = all_v4 ∷ all_v6 ∷ [] }

abbrev pub started_setup : Setup ℕ
started_setup = setup test_machine test_settings (resolved_stanza ∷ []) (record {
  check = none;
  open_template = some (codes "open");
  close = some (codes "close");
  shutdown_command = [];
})

-- Two commands have run.
abbrev pub started : Daemon ℕ
started = first_state test_machine test_settings (new_manager 0) 2

pub server_starts : run_server test_machine test_settings ≡ serves started_setup started
unfolding run_server load_access_config load_action_template all_actions merge_actions_config
    new_actions_manager run_if_set resolve_all resolve parse_source_nets to_upper upper
    resolve_enc_key resolve_hmac_key hmac_type_named enc_mode_named to_lower lower
server_starts = refl

run_server-IsReady_example :
    IsReady test_machine test_settings started_setup started
    × ((now : ℕ) → Reachable started_setup now started)
run_server-IsReady_example =
    run_server-IsReady test_machine test_settings started_setup started server_starts

pid_read : show_status (λ n. true) (some (pid_text 4711)) ≡ running (pos 4711)
unfolding show_status pid_text parse_pid parse_int64 format_int format_uint
pid_read = refl

empty_pid_file : show_status (λ n. true) (some []) ≡ panicked
unfolding show_status parse_pid
empty_pid_file = refl

-- A warning of a server in the background.
warning_written :
    log_message
      (record {
        file_logger = some (to_file (codes "log"));
        syslog_logger = some (to_syslog (parse_syslog_facility (codes "local3")) (codes "fwknopd"));
        verbose = false;
      })
      warning
      (codes "late")
    ≡ (to_file (codes "log"), codes "[WARN] late\n")
      ∷ (to_syslog log_local3 (codes "fwknopd"), codes "WARNING: late\n")
      ∷ []
unfolding log_message parse_syslog_facility
warning_written = refl
