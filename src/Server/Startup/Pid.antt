-- ===== src/Server/Startup/Pid.antt =====
-- cmd/fwknopd/main.go: the PID file, which showStatus and signalDaemon read. os.ReadFile and
-- Process.Signal are arguments; the output is left out.
use fwknop_go.Base.{
  ℕ, ℤ, Bool, Option, none, some, [], ◌∷◌, ◌++◌, Bytes, length, take, parse_int64, format_int, pos,
  if◌then◌else◌,
}

-- fmt.Sprintf("%d\n", pid)
unfoldable pub pid_text : ℕ → Bytes
pid_text pid = format_int (pos pid) ++ (b'\n' ∷ [])

-- strconv.Atoi(string(data[:len(data)-1])): an empty file is out of range, which panics.
pub data Pid : Type 0 where
  panics bad_pid : Pid
  pid : ℤ → Pid

abbrev from_atoi : Option ℤ → Pid
from_atoi none = bad_pid
from_atoi (some n) = pid n

unfoldable pub parse_pid : Bytes → Pid
parse_pid [] = panics
parse_pid (c ∷ s) = from_atoi (parse_int64 (take (length s) (c ∷ s)))

pub data Status : Type 0 where
  no_pid_file invalid_pid_file panicked : Status
  running stopped : ℤ → Status

abbrev status_of : (ℤ → Bool) → Pid → Status
status_of alive panics = panicked
status_of alive bad_pid = invalid_pid_file
status_of alive (pid n) = if alive n then running n else stopped n

-- `alive` is whether signal 0 can be sent.
unfoldable pub show_status : (ℤ → Bool) → Option Bytes → Status
show_status alive none = no_pid_file
show_status alive (some content) = status_of alive (parse_pid content)

pub data Signalled : Type 0 where
  cannot_read invalid_pid signal_panicked not_sent : Signalled
  sent : ℤ → Signalled

abbrev sent_to : (ℤ → Bool) → Pid → Signalled
sent_to send panics = signal_panicked
sent_to send bad_pid = invalid_pid
sent_to send (pid n) = if send n then sent n else not_sent

unfoldable pub signal_daemon : (ℤ → Bool) → Option Bytes → Signalled
signal_daemon send none = cannot_read
signal_daemon send (some content) = sent_to send (parse_pid content)
