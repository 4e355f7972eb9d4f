-- ===== src/Server/Processing.antt =====
-- cmd/fwknopd/server.go: what processSPAPacket does with a datagram. Log lines are left out; the
-- exit that the function takes is its outcome, and the dispatch of an action is in Actions.
pub mod Replays
pub mod Passing
pub mod NoReplay
pub mod Exits
pub mod Admission
use fwknop_go.Base.{
  ℕ, zero, suc, ◌+◌, ◌*◌, ◌<◌, ℤ, pos, negsuc, Bool, true, false, not, ◌&&◌, ◌||◌, Option, none,
  some, List, [], ◌∷◌, Bytes, ltb, ◌==◌, eqb, if◌then◌else◌, nanoseconds, cut,
}
use fwknop_go.Spa.Error.{Result, ok, err}
use fwknop_go.Spa.Kinds.{digest_sha256}
use fwknop_go.Spa.Message.{Message}
use fwknop_go.Spa.Validate.{is_empty}
use fwknop_go.Spa.Digest.{Hashes, digest_base64}
use fwknop_go.Spa.Cipher.{BlockCipher}
use fwknop_go.Spa.Packet.{DecryptOption, with_decrypt_mode, with_decrypt_hmac_type, decrypt}
use fwknop_go.Server.Replay.{ReplayCache, is_duplicate, add}
use fwknop_go.Server.Access.{AccessStanza, Net, match_source}

-- The fields of serverConfig that the processing reads.
pub record ServerConfig : Type 0 where
  pub max_spa_packet_age : ℤ
  pub test : Bool

-- Where processSPAPacket returns; stanzas are numbered from 1.
pub data Outcome : Type 0 where
  no_matching_stanza : Outcome
  too_old replayed wrong_username wrong_source test_mode : ℕ → Outcome
  dispatched : ℕ → AccessStanza → Message → Outcome

-- time.Since(t) > n * time.Second
abbrev pub older_than : ℕ → ℕ → ℤ → Bool
older_than n now (pos t) = ltb (t + n * nanoseconds) now
older_than n now (negsuc t) = ltb (n * nanoseconds) (now + suc t)

-- A maximum of zero or less turns the check off.
unfoldable pub packet_too_old : ℤ → ℕ → ℤ → Bool
packet_too_old (pos zero) now t = false
packet_too_old (pos (suc n)) now t = older_than (suc n) now t
packet_too_old (negsuc n) now t = false

-- What stands before the first separator, or the whole text.
unfoldable pub split_first : Bytes → ℕ → Bytes
split_first [] sep = []
split_first (c ∷ s) sep = let rest = split_first s sep in if c == sep then [] else c ∷ rest

unfoldable pub contains_ip : Net → Bytes → Bytes → Bool
contains_ip net access_msg ip =
    let msg_ip = split_first access_msg b',' in
    elim (net.parse_ip msg_ip) [
      | none ↦ eqb msg_ip ip
      | some parsed_msg ↦ elim (net.parse_ip ip) [
        | none ↦ eqb msg_ip ip
        | some parsed_src ↦ eqb parsed_msg parsed_src
      ]
    ]

-- `digest, _ := DigestBase64(…)`: on an error the digest is empty.
abbrev or_empty : Result Bytes → Bytes
or_empty (ok d) = d
or_empty (err e) = []

module _ (h : Hashes) where
  unfoldable pub packet_digest : Bytes → Bytes
  packet_digest spa_data = or_empty (digest_base64 h digest_sha256 spa_data)

  -- The replay check: the digest is recorded unless it is a duplicate. `none` is a nil cache.
  unfoldable pub check_replay : Option ReplayCache → ℕ → Bytes → Option ReplayCache × Bool
  check_replay none now spa_data = (none, false)
  check_replay (some rc) now spa_data =
      let digest = packet_digest spa_data in
      let (rc', duplicate) = is_duplicate rc now digest in
      if duplicate then (some rc', true) else (some (add rc' now digest), false)

module _ (net : Net) (cfg : ServerConfig) (src_ip : Bytes) where
  -- The checks behind the replay check.
  unfoldable pub authorize : ℕ → AccessStanza → Message → Outcome
  authorize i stanza msg =
      if not (is_empty stanza.require_username) && not (eqb msg.username stanza.require_username)
      then wrong_username i
      else if stanza.require_source_addr
          && (is_empty msg.access || not (contains_ip net msg.access (net.ip_string src_ip)))
      then wrong_source i
      else if cfg.test
      then test_mode i
      else dispatched i stanza msg

  -- A packet that stanza `i` decrypted to `msg`.
  unfoldable pub accept_packet :
      Hashes
      → Option ReplayCache
      → ℕ
      → Bytes
      → ℕ
      → AccessStanza
      → Message
      → Option ReplayCache × Outcome
  accept_packet h replay now spa_data i stanza msg =
      if packet_too_old cfg.max_spa_packet_age now msg.timestamp
      then (replay, too_old i)
      else let (replay', duplicate) = check_replay h replay now spa_data in
        if duplicate then (replay', replayed i) else (replay', authorize i stanza msg)

-- The options that processSPAPacket builds for a stanza.
abbrev pub stanza_options : AccessStanza → List DecryptOption
stanza_options s =
    with_decrypt_mode s.enc_mode
    ∷ (if is_empty s.hmac_key then [] else with_decrypt_hmac_type s.hmac_type ∷ [])

module _ (h : Hashes) (c : BlockCipher) where
  unfoldable pub decrypt_stanza : AccessStanza → Bytes → Result Message
  decrypt_stanza s spa_data = decrypt h c spa_data s.enc_key s.hmac_key (stanza_options s)

module _ (h : Hashes) (c : BlockCipher) (net : Net) (cfg : ServerConfig) where
  -- The loop over the stanzas: the first one that matches the source and decrypts decides.
  unfoldable pub try_stanzas :
      List AccessStanza → ℕ → Option ReplayCache → ℕ → Bytes → Bytes → Option ReplayCache × Outcome
  try_stanzas [] i replay now spa_data src_ip = (replay, no_matching_stanza)
  try_stanzas (s ∷ ss) i replay now spa_data src_ip =
      let rest = try_stanzas ss (i + 1) replay now spa_data src_ip in
      if match_source s src_ip
      then elim (decrypt_stanza h c s spa_data) [
        | err _ ↦ rest
        | ok msg ↦ accept_packet net cfg src_ip h replay now spa_data i s msg
      ]
      else rest

  unfoldable pub process_spa_packet :
      List AccessStanza → Option ReplayCache → ℕ → Bytes → Bytes → Option ReplayCache × Outcome
  process_spa_packet stanzas replay now spa_data src_ip =
      try_stanzas stanzas 1 replay now spa_data src_ip
