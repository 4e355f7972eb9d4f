-- ===== src/Server/Daemon.antt =====
-- cmd/fwknopd/server.go: udpServer, and what it shares with the timers and with purgeLoop. What the
-- socket hands over is a list of reads; opening the socket is outside, and so are the log lines. The
-- whole handling of a datagram is one step, at one time.
pub mod Loop
pub mod Gate
pub mod Refinement
pub mod Origin
pub mod Tests
use fwknop_go.Base.{
  ℕ, ◌≤◌, Bool, true, false, not, ◌&&◌, ◌||◌, Option, none, some, List, [], ◌∷◌, Bytes, codes, take,
  eqb, if◌then◌else◌,
}
use fwknop_go.Spa.Digest.{Hashes}
use fwknop_go.Spa.Cipher.{BlockCipher}
use fwknop_go.Server.Replay.{ReplayCache, purge}
use fwknop_go.Server.Access.{AccessStanza, Net}
use fwknop_go.Server.Processing.{
  ServerConfig, Outcome, no_matching_stanza, too_old, replayed, wrong_username, wrong_source,
  test_mode, dispatched, process_spa_packet,
}
use fwknop_go.Server.Actions.{Templates, Host, Manager, new_manager, dispatch_action}
use fwknop_go.Server.Actions.Interleaving.{CloseStep}

abbrev pub max_spa_packet_size : ℕ
max_spa_packet_size = 1500

-- What a read of the socket gives: a datagram with the address that it came from, or an error.
pub data Read : Type 0 where
  datagram : ℕ → Bytes → Bytes → Read
  read_error : Bytes → Read

-- `err_closed` is whether net.ErrClosed is there.
abbrev pub is_closed_err : Bool → Bytes → Bool
is_closed_err err_closed e = eqb e (codes "use of closed network connection") || err_closed

-- What the daemon is set up with, and what is outside it.
pub record Setup (W : Type 0) : Type 0 where
  pub hashes : Hashes
  pub cipher : BlockCipher
  pub net : Net
  pub host : Host W
  pub templates : Templates
  pub config : ServerConfig
  pub stanzas : List AccessStanza
  pub err_closed : Bool

pub record Daemon (W : Type 0) : Type 0 where
  pub replay : Option ReplayCache
  pub am : Manager W

module _ {W : Type 0} (e : Setup W) where
  -- The action that an outcome leads to.
  unfoldable pub act : ℕ → Bytes → Outcome → Manager W → Manager W
  act now src (dispatched i s m) am =
      dispatch_action e.host e.templates e.net now m s (e.net.ip_string src) am
  act now src _ am = am

  -- A datagram is cut to the size of the buffer.
  unfoldable pub receive : ℕ → Bytes → Bytes → Daemon W → Daemon W
  receive now packet src d =
      let (replay, outcome) =
        process_spa_packet e.hashes e.cipher e.net e.config e.stanzas d.replay now
          (take max_spa_packet_size packet) src in
      record { replay = replay; am = act now src outcome d.am }

  -- The loop, with whether it has returned when the reads are used up.
  unfoldable pub udp_server : List Read → Daemon W → Daemon W × Bool
  udp_server [] d = (d, false)
  udp_server (datagram now packet src ∷ reads) d = udp_server reads (receive now packet src d)
  udp_server (read_error t ∷ reads) d =
      let continued = udp_server reads d in
      if is_closed_err e.err_closed t then (d, true) else continued

  abbrev pub purge_cache : ℕ → Option ReplayCache → Option ReplayCache
  purge_cache now none = none
  purge_cache now (some rc) = some (purge rc now)

  -- The goroutines at a time: the loop, those of the timers, and purgeLoop.
  pub data Step (now : ℕ) : Daemon W → Daemon W → Type 0 where
    receives : {d : Daemon W} (packet src : Bytes) → Step now d (receive now packet src d)
    purges : {d : Daemon W} → Step now d (record d { replay = purge_cache now d.replay })
    closes :
        {d : Daemon W} {am : Manager W}
        → CloseStep e.host e.templates e.net now d.am am
        → Step now d (record d { am = am })

  -- Any number of steps from a start with any cache, at times that do not go back.
  pub data Reachable : ℕ → Daemon W → Type 0 where
    starts :
        (now : ℕ) (rc : Option ReplayCache) (w : W)
        → Reachable now (record { replay = rc; am = new_manager w })
    steps :
        {before now : ℕ} {d d' : Daemon W}
        → Reachable before d
        → before ≤ now
        → Step now d d'
        → Reachable now d'
