-- ===== src/Server/Daemon/Loop.antt =====
-- The loop of udpServer: which reads it comes to, and that it only takes steps of the daemon.
use fwknop_go.Base.{
  ℕ, ◌≤◌, ◌≡◌, refl, true, false, List, [], ◌∷◌, ◌++◌, arith, Bytes, codes, eqb, map, Bool-cases,
  inl, inr,
}
use fwknop_go.Server.Daemon.{
  Setup, Daemon, Read, datagram, read_error, is_closed_err, receive, udp_server, Reachable, steps,
  receives,
}

-- A datagram, when it came, and from where.
abbrev pub Datagram : Type 0
Datagram = ℕ × Bytes × Bytes

abbrev pub as_read : Datagram → Read
as_read (now, packet, src) = datagram now packet src

-- The datagrams come one after the other, none before the time given.
abbrev pub AreTimed : ℕ → List Read → Type 0
AreTimed before [] = Unit
AreTimed before (datagram now packet src ∷ reads) = (before ≤ now) × AreTimed now reads
AreTimed before (read_error t ∷ reads) = AreTimed before reads

module _ {W : Type 0} (e : Setup W) where
  abbrev pub receive_all : List Datagram → Daemon W → Daemon W
  receive_all [] d = d
  receive_all ((now, packet, src) ∷ ds) d = receive_all ds (receive e now packet src d)

  any_error_closed : (t : Bytes) → e.err_closed ≡ true → is_closed_err e.err_closed t ≡ true
  any_error_closed t h =
      rw h (ground (arith, Bool-cases (eqb t (codes "use of closed network connection"))))

  -- As net.ErrClosed is there, the loop handles the datagrams before the first read error, in order,
  -- and then returns, whatever the error is and whatever would come after it. Without an error it
  -- does not return.
  pub udp_server_lem :
      (before : List Datagram) (t : Bytes) (after : List Read) (d : Daemon W)
      → e.err_closed ≡ true
      → (udp_server e (map as_read before ++ (read_error t ∷ after)) d
          ≡ (receive_all before d, true))
        × (udp_server e (map as_read before) d ≡ (receive_all before d, false))
  unfolding udp_server
  udp_server_lem [] t after d h = (rw (any_error_closed t h) refl, refl)
  udp_server_lem ((now, packet, src) ∷ before) t after d h =
      udp_server_lem before t after (receive e now packet src d) h

  -- Whatever the loop reads, where it stands then is reached by steps of the daemon.
  pub udp_server-Reachable :
      (before : ℕ) (reads : List Read) (d : Daemon W)
      → Reachable e before d
      → AreTimed before reads
      → (now : ℕ) × Reachable e now (udp_server e reads d).0
  unfolding udp_server
  udp_server-Reachable before [] d r l = (before, r)
  udp_server-Reachable before (datagram now packet src ∷ reads) d r (l, ls) =
      udp_server-Reachable now reads _ (steps r l (receives packet src)) ls
  udp_server-Reachable before (read_error t ∷ reads) d r ls =
      elim (Bool-cases (is_closed_err e.err_closed t)) [
        | inl closed ↦ rw closed (before, r)
        | inr other ↦ rw other (udp_server-Reachable before reads d r ls)
      ]
