-- ===== src/Server/Main.antt =====
-- cmd/fwknopd/main.go: run on the command line that was parsed, and what it prints in the modes that do
-- not serve.
use fwknop_go.Base.{
  ℤ, Bool, Option, List, [], ◌∷◌, ◌++◌, Bytes, codes, format_int, join_host_port, if◌then◌else◌,
}
use fwknop_go.Spa.Encode.{protocol_version}
use fwknop_go.BuildInfo.{Built, get_info, info_string}
use fwknop_go.Koanf.{Parsed}
use fwknop_go.Koanf.Completion.{Completion, goes_on, then_go}
use fwknop_go.Server.Loading.{Place, LoadError, load_server_config}
use fwknop_go.Server.Startup.{
  Settings, Machine, Start, StartError, shows_version, shows_status, asks_stop, asks_restart, dumps,
  fails, serves, run_server,
}
use fwknop_go.Server.Startup.Pid.{
  Status, no_pid_file, invalid_pid_file, panicked, running, stopped, show_status, Signalled,
  cannot_read, invalid_pid, signal_panicked, not_sent, sent, signal_daemon,
}
use fwknop_go.Server.Daemon.{Setup, Daemon}
use fwknop_go.Server.Dump.{dump_config}

abbrev server_version : Bytes
server_version = codes "0.1.0"

unfoldable pub version_line : Option Built → Bytes
version_line build =
    codes "fwknopd (Go) version "
    ++ (info_string (get_info build server_version)
        ++ (codes " (SPA protocol " ++ (protocol_version ++ codes ")")))

-- A dash, in UTF-8.
abbrev dash : Bytes
dash = 0xE2 ∷ 0x80 ∷ 0x94 ∷ []

pub data RunError : Type 0 where
  start_error : StartError → RunError
  bad_pid_file pid_unread signal_failed panics listen_failed : RunError

-- What run ends with, or serves as.
pub data RunEnd (W : Type 0) : Type 0 where
  prints : List Bytes → RunEnd W
  fails_with : RunError → RunEnd W
  runs : Setup W → Daemon W → RunEnd W

module _ {W : Type 0} where
  -- showStatus
  unfoldable pub status_shown : Bytes → Status → RunEnd W
  status_shown path no_pid_file =
      prints (codes "fwknopd does not appear to be running (no PID file)." ∷ [])
  status_shown path invalid_pid_file = fails_with bad_pid_file
  status_shown path panicked = fails_with panics
  status_shown path (running n) =
      prints ((codes "fwknopd is running (PID " ++ (format_int n ++ codes ").")) ∷ [])
  status_shown path (stopped n) = prints (
      (codes "fwknopd PID "
        ++ (format_int n
            ++ (codes " (from " ++ (path ++ (codes ") " ++ (dash ++ codes " not running."))))))
      ∷ [])

  -- signalDaemon, with the name of the signal.
  unfoldable pub signal_shown : Bytes → Signalled → RunEnd W
  signal_shown name cannot_read = fails_with pid_unread
  signal_shown name invalid_pid = fails_with bad_pid_file
  signal_shown name signal_panicked = fails_with panics
  signal_shown name not_sent = fails_with signal_failed
  signal_shown name (sent n) = prints (
      (codes "Sent signal "
        ++ (name ++ (codes " to fwknopd (PID " ++ (format_int n ++ codes ")."))))
      ∷ [])

-- The rest of the machine: the PID file, the signals that can be sent to a process, and the addresses
-- that can be resolved and listened on.
pub record Processes : Type 0 where
  pub build : Option Built
  pub read_pid_file : Bytes → Option Bytes
  pub alive : ℤ → Bool
  pub stop : ℤ → Bool
  pub hang_up : ℤ → Bool
  pub listens : Bytes → Bool

-- The address of udpServer.
abbrev pub listen_addr : Settings → Bytes
listen_addr cfg = join_host_port cfg.bind_address (format_int cfg.udp_port)

module _ {W : Type 0} (ps : Processes) (cfg : Settings) where
  unfoldable pub start_shown : Start W → RunEnd W
  start_shown shows_version = prints (version_line ps.build ∷ [])
  start_shown shows_status =
      status_shown cfg.pid_file (show_status ps.alive (ps.read_pid_file cfg.pid_file))
  start_shown asks_stop =
      signal_shown (codes "terminated") (signal_daemon ps.stop (ps.read_pid_file cfg.pid_file))
  start_shown asks_restart =
      signal_shown (codes "hangup") (signal_daemon ps.hang_up (ps.read_pid_file cfg.pid_file))
  start_shown (dumps stanzas) = prints (dump_config cfg stanzas)
  start_shown (fails e) = fails_with (start_error e)
  start_shown (serves e d) =
      if ps.listens (listen_addr cfg) then runs e d else fails_with listen_failed

unfoldable pub run :
    {K V W : Type 0} → Place K V → Machine W → Processes → Parsed → Completion LoadError (RunEnd W)
run place m ps args =
    then_go (λ cfg. goes_on (start_shown ps cfg (run_server m cfg))) (load_server_config place args)
