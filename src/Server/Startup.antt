-- ===== src/Server/Startup.antt =====
-- cmd/fwknopd/main.go: run, from the configuration to udpServer, with loadAccessConfig of access.go
-- and loadActionTemplate of actions.go. The configuration, the files with their YAML, path/filepath
-- and the opening of the log are arguments. Writing the PID file is outside: its failure is only
-- logged.
pub mod Ready
pub mod Pid
pub mod Protected
pub mod ProtectedTests
pub mod Tests
use fwknop_go.Base.{
  ℕ, suc, ◌*◌, ◌-◌, ℤ, pos, negsuc, Bool, true, false, Option, none, some, List, [], ◌∷◌, Bytes,
  eqb, if◌then◌else◌, nanoseconds,
}
use fwknop_go.Spa.Validate.{is_empty}
use fwknop_go.Spa.Digest.{Hashes}
use fwknop_go.Spa.Cipher.{BlockCipher}
use fwknop_go.Server.Replay.{new_replay_cache}
use fwknop_go.Server.Access.{AccessStanza, Net, Resolved, resolved, refused, resolve_all}
use fwknop_go.Server.Processing.{ServerConfig}
use fwknop_go.Server.ActionConfig.{ActionsConfig, empty_config, merge_actions_config}
use fwknop_go.Server.Actions.{Templates, Host, Manager, new_actions_manager, run_if_set}
use fwknop_go.Server.Daemon.{Setup, Daemon}

-- serverConfig
pub record Settings : Type 0 where
  pub udp_port : ℤ
  pub bind_address : Bytes
  pub log_file : Bytes
  pub syslog_ident : Bytes
  pub syslog_facility : Bytes
  pub verbose : Bool
  pub pid_file : Bytes
  pub run_dir : Bytes
  pub max_spa_packet_age : ℤ
  pub actions : ActionsConfig
  pub action_template : Bytes
  pub action_dir : Bytes
  pub config_file : Bytes
  pub access_file : Bytes
  pub foreground : Bool
  pub test : Bool
  pub dump_config : Bool
  pub kill : Bool
  pub restart : Bool
  pub status : Bool
  pub show_version : Bool

-- What run finds: the files, read and parsed, and the world in which the commands run.
pub record Machine (W : Type 0) : Type 0 where
  pub hashes : Hashes
  pub cipher : BlockCipher
  pub net : Net
  pub host : Host W
  pub err_closed : Bool
  pub read_access : Bytes → Option (List AccessStanza)
  pub read_template : Bytes → Option ActionsConfig
  pub base : Bytes → Bytes
  pub join : Bytes → Bytes → Bytes
  pub log_opens : Bool
  pub world : W

pub data StartError : Type 0 where
  bad_access bad_log bad_template bad_actions validate_failed init_failed : StartError

-- What run comes to; it serves with a setup, from a state of the daemon.
pub data Start (W : Type 0) : Type 0 where
  shows_version shows_status asks_stop asks_restart : Start W
  dumps : List AccessStanza → Start W
  fails : StartError → Start W
  serves : Setup W → Daemon W → Start W

-- time.Duration(n) * time.Second
abbrev pub replay_ttl : ℤ → ℤ
replay_ttl (pos n) = pos (n * nanoseconds)
replay_ttl (negsuc n) = negsuc (suc n * nanoseconds - 1)

abbrev pub if_resolved : Resolved (List AccessStanza) → Option (List AccessStanza)
if_resolved (resolved ts) = some ts
if_resolved (refused e) = none

module _ {W : Type 0} (m : Machine W) where
  abbrev pub resolved_stanzas : Option (List AccessStanza) → Option (List AccessStanza)
  resolved_stanzas none = none
  resolved_stanzas (some ss) = if_resolved (resolve_all m.net ss)

  -- `none` is an error.
  unfoldable pub load_access_config : Bytes → Option (List AccessStanza)
  load_access_config path = resolved_stanzas (m.read_access path)

  -- A bare name is one of the directory.
  unfoldable pub load_action_template : Bytes → Bytes → Option ActionsConfig
  load_action_template path dir =
      if is_empty path
      then some empty_config
      else if eqb (m.base path) path
      then m.read_template (m.join dir path)
      else m.read_template path

  abbrev pub merged : ActionsConfig → Option ActionsConfig → Option ActionsConfig
  merged own none = none
  merged own (some template) = some (merge_actions_config template own)

  unfoldable pub all_actions : Settings → Option ActionsConfig
  all_actions cfg =
      if is_empty cfg.action_template
      then some cfg.actions
      else merged cfg.actions (load_action_template cfg.action_template cfg.action_dir)

  abbrev pub setup : Settings → List AccessStanza → Templates → Setup W
  setup cfg stanzas templates = record {
    hashes = m.hashes;
    cipher = m.cipher;
    net = m.net;
    host = m.host;
    templates = templates;
    config = record { max_spa_packet_age = cfg.max_spa_packet_age; test = cfg.test };
    stanzas = stanzas;
    err_closed = m.err_closed;
  }

  abbrev pub first_state : Settings → Manager W → W → Daemon W
  first_state cfg am w = record {
    replay = some (new_replay_cache (replay_ttl cfg.max_spa_packet_age));
    am = record am { world = w };
  }

  abbrev pub after_init : Settings → List AccessStanza → Templates → Manager W → W × Bool → Start W
  after_init cfg stanzas templates am (w, true) =
      serves (setup cfg stanzas templates) (first_state cfg am w)
  after_init cfg stanzas templates am (w, false) = fails init_failed

  abbrev pub after_validate :
      Settings → List AccessStanza → ActionsConfig → Templates → Manager W → W × Bool → Start W
  after_validate cfg stanzas actions templates am (w, true) =
      after_init cfg stanzas templates am (run_if_set m.host actions.init w)
  after_validate cfg stanzas actions templates am (w, false) = fails validate_failed

  abbrev pub with_manager :
      Settings → List AccessStanza → ActionsConfig → Option (Templates × Manager W) → Start W
  with_manager cfg stanzas actions none = fails bad_actions
  with_manager cfg stanzas actions (some (templates, am)) =
      after_validate cfg stanzas actions templates am (run_if_set m.host actions.validate am.world)

  abbrev pub with_actions : Settings → List AccessStanza → Option ActionsConfig → Start W
  with_actions cfg stanzas none = fails bad_template
  with_actions cfg stanzas (some actions) =
      with_manager cfg stanzas actions (new_actions_manager m.host actions m.world)

  abbrev pub with_stanzas : Settings → Option (List AccessStanza) → Start W
  with_stanzas cfg none = fails bad_access
  with_stanzas cfg (some stanzas) =
      if cfg.dump_config
      then dumps stanzas
      else if m.log_opens
      then with_actions cfg stanzas (all_actions cfg)
      else fails bad_log

  unfoldable pub run_server : Settings → Start W
  run_server cfg =
      if cfg.show_version
      then shows_version
      else if cfg.status
      then shows_status
      else if cfg.kill
      then asks_stop
      else if cfg.restart
      then asks_restart
      else with_stanzas cfg (load_access_config cfg.access_file)
