-- ===== src/Server/Startup/Protected.antt =====
-- Replays at the server that run starts.
use mathlib.Core.List.{Memᴰ}
use fwknop_go.Base.{
  ℕ, suc, ◌≡◌, refl, ap, ◌∙◌, inl, inr, true, false, Option, some, List, [], ◌∷◌, pos, arith, Bytes,
  Bool-cases, ℤ,
}
use fwknop_go.Spa.Error.{ok}
use fwknop_go.Spa.Message.{Message}
use fwknop_go.Spa.Digest.{Hashes}
use fwknop_go.Spa.Cipher.{BlockCipher}
use fwknop_go.Server.Replay.{ReplayCache, new_replay_cache, is_duplicate, add, purge}
use fwknop_go.Server.Access.{AccessStanza, Net}
use fwknop_go.Server.Processing.{
  ServerConfig, packet_digest, check_replay, decrypt_stanza, process_spa_packet,
}
use fwknop_go.Server.Processing.Passing.{passed, try-Touched}
use fwknop_go.Server.Processing.NoReplay.{
  Event, packet, tick, after_event, run, NotAfter, Ordered, no_replay,
}
use fwknop_go.Server.Daemon.{Setup, Daemon}
use fwknop_go.Server.Startup.{Settings, Machine, serves, replay_ttl, run_server}
use fwknop_go.Server.Startup.Ready.{run_server-IsReady}

-- A cache that keeps digests for `ttl`.
abbrev Keeps : ℤ → Option ReplayCache → Type 0
Keeps ttl r = (rc : ReplayCache) × (r ≡ some rc) × (rc.ttl ≡ ttl)

is_duplicate-ttl : (rc : ReplayCache) (now : ℕ) (k : Bytes) → (is_duplicate rc now k).0.ttl ≡ rc.ttl
unfolding is_duplicate
is_duplicate-ttl rc now k = ground arith

check_replay-Keeps :
    (h : Hashes) (now : ℕ) (spa : Bytes) (rc : ReplayCache)
    → Keeps rc.ttl (check_replay h (some rc) now spa).0
unfolding check_replay add
check_replay-Keeps h now spa rc =
    let k = packet_digest h spa in
    elim (Bool-cases (is_duplicate rc now k).1) [
      | inl old ↦ ((is_duplicate rc now k).0, rw old refl, is_duplicate-ttl rc now k)
      | inr new ↦ (add (is_duplicate rc now k).0 now k, rw new refl, is_duplicate-ttl rc now k)
    ]

module _ (h : Hashes) (c : BlockCipher) (net : Net) (cfg : ServerConfig)
    (stanzas : List AccessStanza) where
  event-Keeps :
      (ev : ℕ × Event) (rc : ReplayCache)
      → Keeps rc.ttl (after_event h c net cfg stanzas ev (some rc))
  unfolding after_event process_spa_packet purge
  event-Keeps (now, tick) rc = (purge rc now, refl, refl)
  event-Keeps (now, packet spa src) rc =
      elim (try-Touched h c net cfg stanzas 1 (some rc) now spa src) [
        | inl same ↦ (rc, same, refl)
        | inr checked ↦ let (rc', e, t) = check_replay-Keeps h now spa rc in (rc', checked ∙ e, t)
      ]

  run-Keeps :
      (es : List (ℕ × Event)) (rc : ReplayCache)
      → Keeps rc.ttl (run h c net cfg stanzas es (some rc))
  unfolding run
  run-Keeps [] rc = (rc, refl, refl)
  run-Keeps (ev ∷ es) rc =
      let (rc1, e1, t1) = event-Keeps ev rc in
      let (rc2, e2, t2) = run-Keeps es rc1 in
      (rc2, ap (run h c net cfg stanzas es) e1 ∙ e2, t2 ∙ t1)

-- The cache after datagrams and purge ticks.
abbrev pub cache_after :
    {W : Type 0} → Setup W → List (ℕ × Event) → Option ReplayCache → Option ReplayCache
cache_after e es replay = run e.hashes e.cipher e.net e.config e.stanzas es replay

module _ {W : Type 0} (m : Machine W) (cfg : Settings) (e : Setup W) (d : Daemon W) where
  -- With a positive maximum age, a packet that passes the replay check of a server that run has
  -- started, whatever datagrams and purge ticks came before, never passes it again, whatever comes
  -- between and from whatever source it comes, if the clock does not run backwards and no stanza
  -- reads a time in the packet that was still to come when it first passed.
  pub served_no_replay :
      (n t1 t2 : ℕ) (spa src src2 : Bytes) (first es : List (ℕ × Event))
      → run_server m cfg ≡ serves e d
      → cfg.max_spa_packet_age ≡ pos (suc n)
      → passed
          (process_spa_packet e.hashes e.cipher e.net e.config e.stanzas
            (cache_after e first d.replay)
            t1
            spa
            src).1
        ≡ true
      → Ordered t1 es t2
      → ((s : AccessStanza) (msg : Message)
          → Memᴰ s e.stanzas
          → decrypt_stanza e.hashes e.cipher s spa ≡ ok msg
          → NotAfter t1 msg.timestamp)
      → passed
          (process_spa_packet e.hashes e.cipher e.net e.config e.stanzas
            (cache_after e es
              (process_spa_packet e.hashes e.cipher e.net e.config e.stanzas
                (cache_after e first d.replay)
                t1
                spa
                src).0)
            t2
            spa
            src2).1
        ≡ false
  unfolding new_replay_cache
  served_no_replay n t1 t2 spa src src2 first es f age p o fresh =
      let (ready, _) = run_server-IsReady m cfg e d f in
      let cache : d.replay ≡ some (new_replay_cache (replay_ttl cfg.max_spa_packet_age)) =
        ap (λ x. x.replay) ready.fresh in
      let (rc, at_rc, ttl) =
        run-Keeps e.hashes e.cipher e.net e.config e.stanzas first
          (new_replay_cache (replay_ttl cfg.max_spa_packet_age)) in
      let here : cache_after e first d.replay ≡ some rc = ap (cache_after e first) cache ∙ at_rc in
      let limit : e.config.max_spa_packet_age ≡ pos (suc n) =
        ap (λ x. x.config.max_spa_packet_age) ready.set_up ∙ age in
      rw here (
        no_replay e.hashes e.cipher e.net e.config e.stanzas n t1 t2 rc spa src src2 es limit
          (ttl ∙ ap replay_ttl age) (rw here at p) o fresh)
