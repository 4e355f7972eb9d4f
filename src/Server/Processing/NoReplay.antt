-- ===== src/Server/Processing/NoReplay.antt =====
-- A packet that was let through is not let through again.
use mathlib.Core.List.{Memᴰ}
use fwknop_go.Base.{
  ℕ, suc, ◌+◌, ◌*◌, ◌≤◌, ℤ, pos, negsuc, ◌≡◌, ◌≢◌, refl, sym, ap, ◌∙◌, inl, inr, Bool, true, false,
  Option, none, some, List, [], ◌∷◌, arith, Bytes, nanoseconds,
}
use fwknop_go.Spa.Error.{ok}
use fwknop_go.Spa.Message.{Message}
use fwknop_go.Spa.Digest.{Hashes}
use fwknop_go.Spa.Cipher.{BlockCipher}
use fwknop_go.Server.Replay.{ReplayCache, lookup, purge}
use fwknop_go.Server.Access.{AccessStanza, Net}
use fwknop_go.Server.Processing.{
  ServerConfig, packet_too_old, packet_digest, decrypt_stanza, process_spa_packet,
}
use fwknop_go.Server.Processing.Replays.{
  Remembers, Remembers-later, purge-Remembers, check_replay-Remembers, check_replay_adds,
  check_replay_duplicate,
}
use fwknop_go.Server.Processing.Passing.{passed, try-Touched, try-passed}

-- What happens to the replay cache: a datagram arrives, or purgeLoop ticks.
pub data Event : Type 0 where
  packet : Bytes → Bytes → Event
  tick : Event

-- Not later than `now`.
abbrev pub NotAfter : ℕ → ℤ → Type 0
NotAfter now (pos t) = t ≤ now
NotAfter now (negsuc t) = Unit

-- The times of the events do not run backwards, from `t` to `u`.
abbrev pub Ordered : ℕ → List (ℕ × Event) → ℕ → Type 0
Ordered t [] u = t ≤ u
Ordered t ((now, e) ∷ es) u = (t ≤ now) × Ordered now es u

-- The age check and the memory of the cache fit together.
young :
    (n now first : ℕ) (t : ℤ)
    → NotAfter first t
    → packet_too_old (pos (suc n)) now t ≡ false
    → now ≤ first + suc n * nanoseconds
unfolding packet_too_old
young n now first (pos t) h e = ground arith
young n now first (negsuc t) h e = ground arith

ne_true : (b : Bool) → b ≢ true → b ≡ false
ne_true true h = absurd (h refl)
ne_true false h = refl

module _ (h : Hashes) (c : BlockCipher) (net : Net) (cfg : ServerConfig)
    (stanzas : List AccessStanza) where
  -- The cache after one event, and after a list of them.
  unfoldable pub after_event : ℕ × Event → Option ReplayCache → Option ReplayCache
  after_event (now, packet spa src) replay =
      (process_spa_packet h c net cfg stanzas replay now spa src).0
  after_event (now, tick) none = none
  after_event (now, tick) (some rc) = some (purge rc now)

  unfoldable pub run : List (ℕ × Event) → Option ReplayCache → Option ReplayCache
  run [] replay = replay
  run (e ∷ es) replay = run es (after_event e replay)

  event-Remembers :
      (d : Bytes) (exp now : ℕ) (e : Event) (rc : ReplayCache)
      → Remembers d exp now rc
      → (rc' : ReplayCache) × (after_event (now, e) (some rc) ≡ some rc') × Remembers d exp now rc'
  unfolding after_event process_spa_packet
  event-Remembers d exp now tick rc m = (purge rc now, refl, purge-Remembers h d exp now rc m)
  event-Remembers d exp now (packet spa src) rc m =
      elim (try-Touched h c net cfg stanzas 1 (some rc) now spa src) [
        | inl same ↦ (rc, same, m)
        | inr checked ↦
            let (rc', e, m') = check_replay-Remembers h d exp now spa rc m in (rc', checked ∙ e, m')
      ]

  run-Remembers :
      (d : Bytes) (exp t u : ℕ) (es : List (ℕ × Event)) (rc : ReplayCache)
      → Ordered t es u
      → Remembers d exp t rc
      → (rc' : ReplayCache) × (run es (some rc) ≡ some rc') × Remembers d exp u rc'
  unfolding run
  run-Remembers d exp t u [] rc o m = (rc, refl, Remembers-later h d exp t u rc o m)
  run-Remembers d exp t u ((now, e) ∷ es) rc (l, o) m =
      let (rc1, e1, m1) = event-Remembers d exp now e rc (Remembers-later h d exp t now rc l m) in
      let (rc2, e2, m2) = run-Remembers d exp now u es rc1 o m1 in (rc2, ap (run es) e1 ∙ e2, m2)

  -- The second time, the packet is a duplicate or too old.
  refused_later :
      (d : Bytes) (n first t2 : ℕ) (spa src : Bytes) (rc : ReplayCache)
      → d ≡ packet_digest h spa
      → cfg.max_spa_packet_age ≡ pos (suc n)
      → Remembers d (first + suc n * nanoseconds) t2 rc
      → ((s : AccessStanza) (m : Message)
          → Memᴰ s stanzas
          → decrypt_stanza h c s spa ≡ ok m
          → NotAfter first m.timestamp)
      → passed (process_spa_packet h c net cfg stanzas (some rc) t2 spa src).1 ≢ true
  unfolding process_spa_packet
  refused_later d n first t2 spa src rc k a m fresh p =
      let q = try-passed h c net cfg stanzas 1 (some rc) t2 spa src p in
      let soon =
        young n t2 first q.message.timestamp (fresh q.stanza q.message q.member q.decrypts)
          (ap (λ x. packet_too_old x t2 q.message.timestamp) (sym a) ∙ q.in_time) in
      elim m [
        | inr over ↦ absurd (omega arith)
        | inl known ↦ cc (
          q.new,
          check_replay_duplicate h t2 (first + suc n * nanoseconds) spa rc
              (ap (λ x. lookup x rc.entries) (sym k) ∙ known) soon,
        )
      ]

  -- A packet that once passed the replay check never passes it again, whatever datagrams and purge
  -- ticks come between and from whatever source it comes, if the maximum age is positive and is the
  -- cache's TTL, the clock does not run backwards, and no stanza reads a time in the packet that
  -- was still to come when it first passed.
  pub no_replay :
      (n t1 t2 : ℕ) (rc : ReplayCache) (spa src src2 : Bytes) (es : List (ℕ × Event))
      → cfg.max_spa_packet_age ≡ pos (suc n)
      → rc.ttl ≡ pos (suc n * nanoseconds)
      → passed (process_spa_packet h c net cfg stanzas (some rc) t1 spa src).1 ≡ true
      → Ordered t1 es t2
      → ((s : AccessStanza) (m : Message)
          → Memᴰ s stanzas
          → decrypt_stanza h c s spa ≡ ok m
          → NotAfter t1 m.timestamp)
      → passed
          (process_spa_packet h c net cfg stanzas
            (run es (process_spa_packet h c net cfg stanzas (some rc) t1 spa src).0)
            t2
            spa
            src2).1
        ≡ false
  unfolding process_spa_packet
  no_replay n t1 t2 rc spa src src2 es a t p o fresh =
      let q = try-passed h c net cfg stanzas 1 (some rc) t1 spa src p in
      let (rc1, e1, known) = check_replay_adds h t1 (suc n * nanoseconds) spa rc t q.new in
      let d = packet_digest h spa in
      let (rc2, e2, m) = run-Remembers d (t1 + suc n * nanoseconds) t1 t2 es rc1 o (inl known) in
      rw (q.left ∙ e1, e2) (ne_true _ (refused_later d n t1 t2 spa src2 rc2 refl a m fresh))
