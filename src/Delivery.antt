-- ===== src/Delivery.antt =====
-- From the client's run to the server's action: cmd/fwknop/main.go and cmd/fwknopd/server.go together.
use fwknop_go.Base.{
  ℕ, ◌≤◌, ◌≡◌, refl, sym, ap, ◌∙◌, true, none, some, List, [], ◌∷◌, ◌++◌, arith, Bytes, AreBytes,
  All, ℤ, length, take, zero, suc, IsInt64, unix_seconds,
}
use fwknop_go.Spa.Error.{ok}
use fwknop_go.Spa.Message.{Message}
use fwknop_go.Spa.Digest.{HashLaws}
use fwknop_go.Spa.Cipher.{CipherLaws}
use fwknop_go.Spa.Wire.Fields.{HasBytes}
use fwknop_go.Spa.Wire.Decoding.{received}
use fwknop_go.Spa.Wire.Digests.{reported}
use fwknop_go.Server.Replay.{ReplayCache, lookup}
use fwknop_go.Server.Access.{AccessStanza, resolve, resolved, match_source}
use fwknop_go.Server.Processing.{packet_digest, decrypt_stanza, process_spa_packet}
use fwknop_go.Server.Processing.Admission.{Skips, IsAdmitted, admitted_dispatched}
use fwknop_go.Server.Actions.{dispatch_action}
use fwknop_go.Server.Daemon.{Setup, Daemon, act, receive, max_spa_packet_size}
use fwknop_go.Client.Config.{ClientConfig, Attempt, done}
use fwknop_go.Client.Packet.{Env, Prepared, prepare}
use fwknop_go.Client.Packet.Agreement.{SameSettings, client_server_agree}
use fwknop_go.Client.Run.{Outside, packet_sent, run_config}
use fwknop_go.Client.Run.Sent.{run_config-IsSent}

take_fits {ℓ} : {A : Type ℓ} (n : ℕ) (xs : List A) → length xs ≤ n → take n xs ≡ xs
take_fits zero [] h = refl
take_fits zero (x ∷ xs) h = absurd (omega arith)
take_fits (suc n) [] h = refl
take_fits (suc n) (x ∷ xs) h = ap (◌∷◌ x) (take_fits n xs (omega arith))

-- The message that a server reads.
abbrev pub message_read : Prepared → Message
message_read p = received p.message (reported p.message.digest_type)

module _ {W : Type 0} (e : Setup W) where
  receive_lem :
      (now : ℕ) (packet src : Bytes) (d : Daemon W)
      → length packet ≤ max_spa_packet_size
      → (receive e now packet src d).am
        ≡ act e now src
            (process_spa_packet e.hashes e.cipher e.net e.config e.stanzas d.replay now packet
              src).1
            d.am
  unfolding receive
  receive_lem now packet src d h =
      ap
        (λ x.
          act e now src
            (process_spa_packet e.hashes e.cipher e.net e.config e.stanzas d.replay now x src).1
            d.am)
        (take_fits max_spa_packet_size packet h)

done_same : {p q : Prepared} → ◌≡◌ {A = Attempt Prepared} (done p) (done q) → p ≡ q
done_same h = cc

-- A run of the client that sends `spa`, made of `p` with a salt of 8 bytes; the texts are bytes and the
-- time has 64 bits.
pub record Sends (env : Env) (out : Outside) (c : ClientConfig) (p : Prepared) (spa : Bytes)
    : Type 0 where
  pub host : Bytes
  pub port : ℤ
  pub salt : Bytes
  pub runs : run_config env out c ≡ done (packet_sent host port spa)
  pub prepares : prepare env c ≡ done p
  pub salted : env.salt ≡ some salt
  pub salt_bytes : AreBytes salt
  pub salt_size : length salt ≡ 8
  pub texts : HasBytes p.message
  pub time : IsInt64 (unix_seconds p.message.timestamp)

-- A server that is set up for the client: of its stanzas those before `t` pass the packet by, and `t` is
-- a stanza of its file, resolved, that has the settings of the client, whose use_hmac is on, and admits the message; the packet fits
-- into the buffer and is not in the cache.
pub record Expects {W : Type 0} (e : Setup W) (d : Daemon W) (env : Env) (c : ClientConfig)
    (p : Prepared) (spa src : Bytes) (now : ℕ) (t : AccessStanza) : Type 0 where
  pub same_hashes : e.hashes ≡ env.hashes
  pub same_cipher : e.cipher ≡ env.cipher
  pub before : List AccessStanza
  pub after : List AccessStanza
  pub stanzas : e.stanzas ≡ before ++ (t ∷ after)
  pub passes_by : All (Skips e.hashes e.cipher e.net e.config spa src) before
  pub file : AccessStanza
  pub resolves : resolve e.net file ≡ resolved t
  pub settings : SameSettings c file
  pub use_hmac : c.use_hmac ≡ true
  pub matches : match_source t src ≡ true
  pub admits : IsAdmitted e.hashes e.cipher e.net e.config now src t (message_read p)
  pub cache : ReplayCache
  pub has_cache : d.replay ≡ some cache
  pub is_new : lookup (packet_digest e.hashes spa) cache.entries ≡ none
  pub fits : length spa ≤ max_spa_packet_size

-- Under the laws of the hashes and the cipher, when a run of the client has sent a datagram, and it
-- reaches a server that is set up for the client, the server carries out the action of the client's
-- message, as it is read back, for the stanza that has the client's keys.
pub sent_dispatched :
    {W : Type 0} (e : Setup W) (d : Daemon W) (env : Env) (out : Outside) (c : ClientConfig)
    (p : Prepared) (spa src : Bytes) (now : ℕ) (t : AccessStanza)
    → HashLaws env.hashes
    → CipherLaws env.cipher
    → Sends env out c p spa
    → Expects e d env c p spa src now t
    → (receive e now spa src d).am
      ≡ dispatch_action e.host e.templates e.net now (message_read p) t (e.net.ip_string src) d.am
unfolding act
sent_dispatched e d env out c p spa src now t hl cl s x =
    let (q, prepared, made) = (run_config-IsSent env out c s.host s.port spa s.runs).made in
    let same : q ≡ p = done_same (sym prepared ∙ s.prepares) in
    let read =
      client_server_agree env e.net c x.file t p spa s.salt hl cl x.settings x.use_hmac x.resolves
        s.prepares (rw same at made) s.salted s.salt_bytes s.salt_size s.texts s.time in
    let decrypts : decrypt_stanza e.hashes e.cipher t spa ≡ ok (message_read p) =
      rw (x.same_hashes, x.same_cipher) read in
    let outcome =
      admitted_dispatched e.hashes e.cipher e.net e.config x.before x.after now spa src t
        (message_read p) x.cache x.passes_by x.matches decrypts x.admits x.is_new in
    receive_lem e now spa src d x.fits ∙ rw (x.stanzas, x.has_cache, outcome) refl
