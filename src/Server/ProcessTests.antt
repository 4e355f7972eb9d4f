-- ===== src/Server/ProcessTests.antt =====
-- Tests of the end of the process, and of the dump of a configuration.
use mathlib.Core.List.{Memᴰ}
use fwknop_go.Base.{◌≢◌, Bytes, ◌≡◌, refl, Bool, true, false, [], ◌∷◌, ◌++◌, map, codes, ℕ}
use fwknop_go.Server.Fixtures.{test_stanza}
use fwknop_go.Server.Actions.{ActiveRule, Timer, Manager}
use fwknop_go.Server.Daemon.{read_error}
use fwknop_go.Server.Daemon.Loop.{as_read, receive_all}
use fwknop_go.Server.Daemon.Tests.{test_setup, test_start, test_datagram}
use fwknop_go.Server.Startup.Tests.{test_settings}
use fwknop_go.Server.Dump.{dump_config, redacted, dump_config-redacted}
use fwknop_go.Server.Process.{Ended, ended, run_process, process_end}

abbrev there : Manager ℕ
there = (receive_all test_setup (test_datagram ∷ []) test_start).am

process_end_example :
    ((s : Ended ℕ) × (run_process test_setup true (map as_read (test_datagram ∷ [])) true test_start
        ≡ ended s)
      × (s.manager.active_rules ≡ [])
      × ((u : Timer)
          → Memᴰ u s.manager.timers
          → Memᴰ u there.timers
            × ((k : Bytes) (r : ActiveRule) → Memᴰ (k, r) there.active_rules → u.id ≢ r.timer))
      × (s.pid_file ≡ true))
    × ((signalled : Bool)
        → run_process test_setup true
            (map as_read (test_datagram ∷ []) ++ (read_error (codes "refused") ∷ []))
            signalled
            test_start
          ≡ ended (record { manager = there; pid_file = false }))
process_end_example =
    process_end test_setup true test_start refl (test_datagram ∷ []) (codes "refused") []

dump_config-redacted_example :
    dump_config test_settings (map redacted (test_stanza ∷ []))
    ≡ dump_config test_settings (test_stanza ∷ [])
dump_config-redacted_example = dump_config-redacted test_settings (test_stanza ∷ [])
