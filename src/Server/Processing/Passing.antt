-- ===== src/Server/Processing/Passing.antt =====
-- What a packet goes through that passes the replay check, and what it does to the cache.
use mathlib.Core.List.{Memᴰ}
use fwknop_go.Base.{
  ℕ, ◌+◌, ◌≡◌, refl, ◌⊎◌, inl, inr, Bool, true, false, Option, List, [], ◌∷◌, arith, Bytes,
  Bool-cases,
}
use fwknop_go.Spa.Error.{ok, Result-cases}
use fwknop_go.Spa.Message.{Message}
use fwknop_go.Spa.Digest.{Hashes}
use fwknop_go.Spa.Cipher.{BlockCipher}
use fwknop_go.Server.Replay.{ReplayCache}
use fwknop_go.Server.Access.{AccessStanza, Net, match_source}
use fwknop_go.Server.Processing.{
  ServerConfig, Outcome, no_matching_stanza, too_old, replayed, packet_too_old, check_replay,
  accept_packet, decrypt_stanza, try_stanzas,
}

-- Whether a packet came through the replay check.
abbrev pub passed : Outcome → Bool
passed no_matching_stanza = false
passed (too_old i) = false
passed (replayed i) = false
passed _ = true

module _ (h : Hashes) (c : BlockCipher) (net : Net) (cfg : ServerConfig) where
  -- The cache is left alone, or goes through the replay check.
  abbrev pub Touched : Option ReplayCache → ℕ → Bytes → Option ReplayCache → Type 0
  Touched replay now spa r = (r ≡ replay) ⊎ (r ≡ (check_replay h replay now spa).0)

  accept-Touched :
      (src : Bytes) (replay : Option ReplayCache) (now : ℕ) (spa : Bytes) (i : ℕ) (s : AccessStanza)
      (m : Message)
      → Touched replay now spa (accept_packet net cfg src h replay now spa i s m).0
  unfolding accept_packet
  accept-Touched src replay now spa i s m = ground arith

  pub try-Touched :
      (ss : List AccessStanza) (i : ℕ) (replay : Option ReplayCache) (now : ℕ) (spa src : Bytes)
      → Touched replay now spa (try_stanzas h c net cfg ss i replay now spa src).0
  unfolding try_stanzas
  try-Touched [] i replay now spa src = inl refl
  try-Touched (s ∷ ss) i replay now spa src = elim (Bool-cases (match_source s src)) [
    | inr other ↦ rw other (try-Touched ss (i + 1) replay now spa src)
    | inl mine ↦ elim (Result-cases (decrypt_stanza h c s spa)) [
      | inl (m, e) ↦ rw (mine, e) (accept-Touched src replay now spa i s m)
      | inr (e, f) ↦ rw (mine, f) (try-Touched ss (i + 1) replay now spa src)
    ]
  ]

  -- What a packet has gone through that passes the replay check.
  pub record HasPassed (ss : List AccessStanza) (replay : Option ReplayCache) (now : ℕ)
      (spa : Bytes) (after : Option ReplayCache) : Type 0 where
    pub stanza : AccessStanza
    pub message : Message
    pub member : Memᴰ stanza ss
    pub decrypts : decrypt_stanza h c stanza spa ≡ ok message
    pub in_time : packet_too_old cfg.max_spa_packet_age now message.timestamp ≡ false
    pub new : (check_replay h replay now spa).1 ≡ false
    pub left : after ≡ (check_replay h replay now spa).0

  accept-passed :
      (src : Bytes) (replay : Option ReplayCache) (now : ℕ) (spa : Bytes) (i : ℕ) (s : AccessStanza)
      (m : Message)
      → passed (accept_packet net cfg src h replay now spa i s m).1 ≡ true
      → (packet_too_old cfg.max_spa_packet_age now m.timestamp ≡ false)
        × ((check_replay h replay now spa).1 ≡ false)
        × ((accept_packet net cfg src h replay now spa i s m).0 ≡ (check_replay h replay now spa).0)
  unfolding accept_packet
  accept-passed src replay now spa i s m p = ground arith

  pub try-passed :
      (ss : List AccessStanza) (i : ℕ) (replay : Option ReplayCache) (now : ℕ) (spa src : Bytes)
      → passed (try_stanzas h c net cfg ss i replay now spa src).1 ≡ true
      → HasPassed ss replay now spa (try_stanzas h c net cfg ss i replay now spa src).0
  unfolding try_stanzas
  try-passed [] i replay now spa src p = absurd (ground arith)
  try-passed (s ∷ ss) i replay now spa src p = elim (Bool-cases (match_source s src)) [
    | inr other ↦ rw other (later (try-passed ss (i + 1) replay now spa src (rw other at p)))
    | inl mine ↦ elim (Result-cases (decrypt_stanza h c s spa)) [
      | inr (e, f) ↦
          rw (mine, f) (later (try-passed ss (i + 1) replay now spa src (rw (mine, f) at p)))
      | inl (m, e) ↦
          let (t, n, l) = accept-passed src replay now spa i s m (rw (mine, e) at p) in
          rw (mine, e)
            (record {
              stanza = s;
              message = m;
              member = Memᴰ.head refl;
              decrypts = e;
              in_time = t;
              new = n;
              left = l;
            })
    ]
  ]
    where
      later :
          {after : Option ReplayCache}
          → HasPassed ss replay now spa after
          → HasPassed (s ∷ ss) replay now spa after
      later q = record {
        stanza = q.stanza;
        message = q.message;
        member = Memᴰ.tail q.member;
        decrypts = q.decrypts;
        in_time = q.in_time;
        new = q.new;
        left = q.left;
      }
