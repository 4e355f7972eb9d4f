-- ===== src/Server/Log.antt =====
-- cmd/fwknopd/log.go: where the lines of the log go. Making the directory, opening the file and
-- reaching syslog are arguments; the time that package log puts in front is left out.
use fwknop_go.Base.{
  Bool, not, ◌&&◌, Option, none, some, List, [], ◌∷◌, ◌++◌, Bytes, codes, eqb, if◌then◌else◌,
}
use fwknop_go.Spa.Validate.{is_empty}

pub data Facility : Type 0 where
  log_auth log_daemon : Facility
  log_local0 log_local1 log_local2 log_local3 : Facility
  log_local4 log_local5 log_local6 log_local7 : Facility

unfoldable pub parse_syslog_facility : Bytes → Facility
parse_syslog_facility s =
    if eqb s (codes "auth")
    then log_auth
    else if eqb s (codes "local0")
    then log_local0
    else if eqb s (codes "local1")
    then log_local1
    else if eqb s (codes "local2")
    then log_local2
    else if eqb s (codes "local3")
    then log_local3
    else if eqb s (codes "local4")
    then log_local4
    else if eqb s (codes "local5")
    then log_local5
    else if eqb s (codes "local6")
    then log_local6
    else if eqb s (codes "local7")
    then log_local7
    else log_daemon

pub data Sink : Type 0 where
  to_stderr : Sink
  to_file : Bytes → Sink
  to_syslog : Facility → Bytes → Sink

pub record SpaLogger : Type 0 where
  pub file_logger : Option Sink
  pub syslog_logger : Option Sink
  pub verbose : Bool

pub record LogSettings : Type 0 where
  pub log_file : Bytes
  pub syslog_ident : Bytes
  pub syslog_facility : Bytes
  pub verbose : Bool
  pub foreground : Bool

-- Whether the directory of the log file can be made, the file opened, and syslog reached.
pub record LogSystem : Type 0 where
  pub makes_dir : Bytes → Bool
  pub opens_file : Bytes → Bool
  pub opens_syslog : Facility → Bytes → Bool

abbrev file_of : LogSettings → Option Sink
file_of cfg =
    if cfg.foreground
    then some to_stderr
    else if not (is_empty cfg.log_file)
    then some (to_file cfg.log_file)
    else none

abbrev syslog_of : LogSystem → LogSettings → Option Sink
syslog_of sys cfg =
    let facility = parse_syslog_facility cfg.syslog_facility in
    if not (is_empty cfg.syslog_ident)
      && (not cfg.foreground && sys.opens_syslog facility cfg.syslog_ident)
    then some (to_syslog facility cfg.syslog_ident)
    else none

-- `none` is an error of the log file. One of syslog is not: the warning that is then written is left
-- out.
unfoldable pub new_spa_logger : LogSystem → LogSettings → Option SpaLogger
new_spa_logger sys cfg =
    if not (is_empty cfg.log_file)
      && (not cfg.foreground && not (sys.makes_dir cfg.log_file && sys.opens_file cfg.log_file))
    then none
    else some (record {
      file_logger = file_of cfg;
      syslog_logger = syslog_of sys cfg;
      verbose = cfg.verbose;
    })

pub data Level : Type 0 where
  info warning error debug : Level

abbrev file_tag : Level → Bytes
file_tag info = codes "[INFO] "
file_tag warning = codes "[WARN] "
file_tag error = codes "[ERROR] "
file_tag debug = codes "[DEBUG] "

abbrev syslog_tag : Level → Bytes
syslog_tag warning = codes "WARNING: "
syslog_tag error = codes "ERROR: "
syslog_tag _ = []

abbrev line_to : Option Sink → Bytes → List (Sink × Bytes)
line_to none msg = []
line_to (some sink) msg = (sink, msg ++ (b'\n' ∷ [])) ∷ []

-- The lines that a message of a level is written to; debugging is not for syslog.
unfoldable pub log_message : SpaLogger → Level → Bytes → List (Sink × Bytes)
log_message l debug msg = if l.verbose then line_to l.file_logger (file_tag debug ++ msg) else []
log_message l level msg =
    line_to l.file_logger (file_tag level ++ msg)
    ++ line_to l.syslog_logger (syslog_tag level ++ msg)
