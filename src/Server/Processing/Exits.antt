-- ===== src/Server/Processing/Exits.antt =====
-- Which packets processSPAPacket lets through to an action, and when it lets one through again.
use mathlib.Core.List.{Memᴰ}
use fwknop_go.Base.{
  ℕ, ◌+◌, ◌<◌, pos, ◌≡◌, refl, ◌∙◌, ◌⊎◌, inl, inr, true, false, Option, some, List, [], ◌∷◌, arith,
  Bytes, eqb_iff, Bool-cases,
}
use fwknop_go.Spa.Error.{ok, Result-cases}
use fwknop_go.Spa.Message.{Message}
use fwknop_go.Spa.Validate.{is_empty}
use fwknop_go.Spa.Digest.{Hashes}
use fwknop_go.Spa.Cipher.{BlockCipher}
use fwknop_go.Server.Replay.{ReplayCache, lookup, is_duplicate}
use fwknop_go.Server.Access.{AccessStanza, Net, match_source}
use fwknop_go.Server.Processing.{
  ServerConfig, dispatched, packet_too_old, packet_digest, contains_ip, check_replay, authorize,
  accept_packet, decrypt_stanza, try_stanzas, process_spa_packet,
}
use fwknop_go.Server.Processing.Replays.{check_replay_adds}
use fwknop_go.Server.Processing.Passing.{passed, try-passed}

authorize-passed :
    (net : Net) (cfg : ServerConfig) (src : Bytes) (i : ℕ) (s : AccessStanza) (m : Message)
    → passed (authorize net cfg src i s m) ≡ true
unfolding authorize
authorize-passed net cfg src i s m = ground arith

expired_new :
    (h : Hashes) (exp now : ℕ) (spa : Bytes) (rc : ReplayCache)
    → lookup (packet_digest h spa) rc.entries ≡ some (pos exp)
    → exp < now
    → (check_replay h (some rc) now spa).1 ≡ false
unfolding check_replay is_duplicate
expired_new h exp now spa rc e l = ground arith

module _ (h : Hashes) (c : BlockCipher) (net : Net) (cfg : ServerConfig) where
  -- What an action rests on.
  pub record IsAuthorized (ss : List AccessStanza) (now : ℕ) (spa src : Bytes) (s : AccessStanza)
      (m : Message) : Type 0 where
    pub member : Memᴰ s ss
    pub source : match_source s src ≡ true
    pub decrypts : decrypt_stanza h c s spa ≡ ok m
    pub in_time : packet_too_old cfg.max_spa_packet_age now m.timestamp ≡ false
    pub username : (s.require_username ≡ []) ⊎ (m.username ≡ s.require_username)
    pub address :
        (s.require_source_addr ≡ false) ⊎ (contains_ip net m.access (net.ip_string src) ≡ true)
    pub live : cfg.test ≡ false

  empty_is_nil : (s : Bytes) → is_empty s ≡ true → s ≡ []
  empty_is_nil [] h = refl
  empty_is_nil (b ∷ s) h = cc

  accept-dispatched :
      (src : Bytes) (replay : Option ReplayCache) (now : ℕ) (spa : Bytes) (i j : ℕ)
      (s t : AccessStanza) (m n : Message)
      → (accept_packet net cfg src h replay now spa i s m).1 ≡ dispatched j t n
      → (s ≡ t)
        × (m ≡ n)
        × (packet_too_old cfg.max_spa_packet_age now m.timestamp ≡ false)
        × ((s.require_username ≡ []) ⊎ (m.username ≡ s.require_username))
        × ((s.require_source_addr ≡ false) ⊎ (contains_ip net m.access (net.ip_string src) ≡ true))
        × (cfg.test ≡ false)
  unfolding accept_packet authorize
  accept-dispatched src replay now spa i j s t m n e =
      ground (arith, eqb_iff m.username s.require_username, empty_is_nil s.require_username)

  IsAuthorized-later :
      {s t : AccessStanza} {ss : List AccessStanza} {now : ℕ} {spa src : Bytes} {n : Message}
      → IsAuthorized ss now spa src t n
      → IsAuthorized (s ∷ ss) now spa src t n
  IsAuthorized-later a = record {
    member = Memᴰ.tail a.member;
    source = a.source;
    decrypts = a.decrypts;
    in_time = a.in_time;
    username = a.username;
    address = a.address;
    live = a.live;
  }

  try-dispatched :
      (ss : List AccessStanza) (i j : ℕ) (replay : Option ReplayCache) (now : ℕ) (spa src : Bytes)
      (t : AccessStanza) (n : Message)
      → (try_stanzas h c net cfg ss i replay now spa src).1 ≡ dispatched j t n
      → IsAuthorized ss now spa src t n
  unfolding try_stanzas
  try-dispatched [] i j replay now spa src t n e = absurd (ground arith)
  try-dispatched (s ∷ ss) i j replay now spa src t n e = elim (Bool-cases (match_source s src)) [
    | inr other ↦
        IsAuthorized-later (try-dispatched ss (i + 1) j replay now spa src t n (rw other at e))
    | inl mine ↦ elim (Result-cases (decrypt_stanza h c s spa)) [
      | inr (f, bad) ↦
          IsAuthorized-later
            (try-dispatched ss (i + 1) j replay now spa src t n (rw (mine, bad) at e))
      | inl (m, good) ↦
          let (st, mn, young, user, addr, live) =
            accept-dispatched src replay now spa i j s t m n (rw (mine, good) at e) in
          rw (← st, ← mn)
            (record {
              member = Memᴰ.head refl;
              source = mine;
              decrypts = good;
              in_time = young;
              username = user;
              address = addr;
              live = live;
            })
    ]
  ]

  -- An action is dispatched only for a stanza of the configuration that matches the source, whose
  -- keys decrypt the packet to the message of the action, in time, from the user and for the
  -- address that the stanza requires, and never in test mode.
  pub dispatched-IsAuthorized :
      (ss : List AccessStanza) (j : ℕ) (replay : Option ReplayCache) (now : ℕ) (spa src : Bytes)
      (t : AccessStanza) (n : Message)
      → (process_spa_packet h c net cfg ss replay now spa src).1 ≡ dispatched j t n
      → IsAuthorized ss now spa src t n
  unfolding process_spa_packet
  dispatched-IsAuthorized ss j replay now spa src t n e =
      try-dispatched ss 1 j replay now spa src t n e

  try_again :
      (ss : List AccessStanza) (i : ℕ) (r1 r2 : Option ReplayCache) (t1 t2 : ℕ) (spa src : Bytes)
      → passed (try_stanzas h c net cfg ss i r1 t1 spa src).1 ≡ true
      → ((s : AccessStanza) (m : Message)
          → decrypt_stanza h c s spa ≡ ok m
          → packet_too_old cfg.max_spa_packet_age t2 m.timestamp ≡ false)
      → (check_replay h r2 t2 spa).1 ≡ false
      → passed (try_stanzas h c net cfg ss i r2 t2 spa src).1 ≡ true
  unfolding try_stanzas
  try_again [] i r1 r2 t1 t2 spa src p young new = absurd (ground arith)
  try_again (s ∷ ss) i r1 r2 t1 t2 spa src p young new = elim (Bool-cases (match_source s src)) [
    | inr other ↦ rw other (try_again ss (i + 1) r1 r2 t1 t2 spa src (rw other at p) young new)
    | inl mine ↦ elim (Result-cases (decrypt_stanza h c s spa)) [
      | inr (f, bad) ↦
          rw (mine, bad) (try_again ss (i + 1) r1 r2 t1 t2 spa src (rw (mine, bad) at p) young new)
      | inl (m, good) ↦
          rw (mine, good)
            (unfold accept_packet in rw (young s m good, new) (authorize-passed net cfg src i s m))
    ]
  ]

  -- With a TTL that is not negative, a packet that passed the replay check passes it once more as
  -- soon as its digest has expired, if no message that a stanza's keys read in it is too old then:
  -- so with a maximum age of zero, where the digest expires at once, and where the packet carries a
  -- time ahead of the server's clock.
  pub passes_again :
      (ss : List AccessStanza) (ttl t1 t2 : ℕ) (rc : ReplayCache) (spa src : Bytes)
      → rc.ttl ≡ pos ttl
      → passed (process_spa_packet h c net cfg ss (some rc) t1 spa src).1 ≡ true
      → t1 + ttl < t2
      → ((s : AccessStanza) (m : Message)
          → decrypt_stanza h c s spa ≡ ok m
          → packet_too_old cfg.max_spa_packet_age t2 m.timestamp ≡ false)
      → passed
          (process_spa_packet h c net cfg ss
            (process_spa_packet h c net cfg ss (some rc) t1 spa src).0
            t2
            spa
            src).1
        ≡ true
  unfolding process_spa_packet
  passes_again ss ttl t1 t2 rc spa src t p late young =
      let q = try-passed h c net cfg ss 1 (some rc) t1 spa src p in
      let (rc1, e1, known) = check_replay_adds h t1 ttl spa rc t q.new in
      rw (q.left ∙ e1) (
        try_again ss 1 (some rc) (some rc1) t1 t2 spa src p young
          (expired_new h (t1 + ttl) t2 spa rc1 known late))
