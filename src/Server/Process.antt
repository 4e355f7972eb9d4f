-- ===== src/Server/Process.antt =====
-- cmd/fwknopd: the end of the process, by a signal or by the return of udpServer, in run of main.go. The
-- PID file counts as removed when os.Remove is called, and as there when it was written.
use mathlib.Core.List.{Memᴰ}
use fwknop_go.Base.{◌≡◌, ◌≢◌, refl, Bool, true, false, List, [], ◌∷◌, ◌++◌, Bytes, map}
use fwknop_go.Server.Actions.{ActiveRule, Timer, Manager, shutdown}
use fwknop_go.Server.Actions.Lifecycle.{shutdown_rules, shutdown_stops}
use fwknop_go.Server.Daemon.{Setup, Daemon, Read, read_error, udp_server}
use fwknop_go.Server.Daemon.Loop.{Datagram, as_read, receive_all, udp_server_lem}

-- What a process leaves behind: the rules that are open and the timers that were to close them, the
-- world, and whether the PID file is still there. The exit code is 0 both ways.
pub record Ended (W : Type 0) : Type 0 where
  pub manager : Manager W
  pub pid_file : Bool

pub data Process (W : Type 0) : Type 0 where
  serving : Daemon W → Process W
  ended : Ended W → Process W

module _ {W : Type 0} (e : Setup W) (pid_written : Bool) where
  -- The handler of SIGINT, SIGTERM and SIGHUP: Shutdown, and os.Exit, which runs no deferred call.
  unfoldable pub after_signal : Daemon W → Ended W
  after_signal d = record { manager = shutdown e.host e.templates d.am; pid_file = pid_written }

  -- The deferred calls of run; Shutdown is none of them.
  unfoldable pub after_return : Daemon W → Ended W
  after_return d = record { manager = d.am; pid_file = false }

  abbrev pub after_loop : Bool → Daemon W × Bool → Process W
  after_loop signalled (d, true) = ended (after_return d)
  after_loop true (d, false) = ended (after_signal d)
  after_loop false (d, false) = serving d

  -- The reads of the socket, and whether a signal comes behind them.
  unfoldable pub run_process : List Read → Bool → Daemon W → Process W
  run_process reads signalled d = after_loop signalled (udp_server e reads d)

  -- What is left of a daemon after its datagrams: by a signal no rule, none of the timers of the rules
  -- that were open, and the PID file that was written; by a read error, whatever comes behind it, the
  -- rules as the datagrams left them, since nothing runs Shutdown, and no PID file. Assumed is that
  -- net.ErrClosed is there.
  pub process_end :
      (d : Daemon W)
      → e.err_closed ≡ true
      → (before : List Datagram) (t : Bytes) (after : List Read)
      → let there = (receive_all e before d).am in
        ((s : Ended W) × (run_process (map as_read before) true d ≡ ended s)
          × (s.manager.active_rules ≡ [])
          × ((u : Timer)
              → Memᴰ u s.manager.timers
              → Memᴰ u there.timers
                × ((k : Bytes) (r : ActiveRule) → Memᴰ (k, r) there.active_rules → u.id ≢ r.timer))
          × (s.pid_file ≡ pid_written))
        × ((signalled : Bool)
            → run_process (map as_read before ++ (read_error t ∷ after)) signalled d
              ≡ ended (record { manager = there; pid_file = false }))
  unfolding run_process after_signal after_return
  process_end d closed before t after =
      let (returns, goes) = udp_server_lem e before t after d closed in
      let there = receive_all e before d in
      (
        (
          after_signal there,
          rw goes refl,
          shutdown_rules e.host e.templates e.net there.am,
          shutdown_stops e.host e.templates e.net there.am,
          refl,
        ),
        (λ signalled. rw returns refl),
      )
