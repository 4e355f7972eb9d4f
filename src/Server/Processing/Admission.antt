-- ===== src/Server/Processing/Admission.antt =====
-- Which packets are let through for certain.
use fwknop_go.Base.{
  ℕ, suc, ◌+◌, ◌≡◌, refl, ◌⊎◌, inl, inr, true, false, not, ◌&&◌, none, some, List, [], ◌∷◌, ◌++◌,
  arith, Bytes, All, length, eqb, eqb_iff, Bool-cases, ◌∙◌, ap,
}
use fwknop_go.Spa.Error.{Error, ok, err}
use fwknop_go.Spa.Message.{Message}
use fwknop_go.Spa.Validate.{is_empty}
use fwknop_go.Spa.Digest.{Hashes}
use fwknop_go.Spa.Cipher.{BlockCipher}
use fwknop_go.Server.Replay.{ReplayCache, lookup, is_duplicate}
use fwknop_go.Server.Access.{AccessStanza, Net, match_source}
use fwknop_go.Server.Processing.{
  ServerConfig, dispatched, packet_too_old, packet_digest, contains_ip, check_replay, authorize,
  accept_packet, decrypt_stanza, try_stanzas, process_spa_packet,
}

module _ (h : Hashes) (c : BlockCipher) (net : Net) (cfg : ServerConfig) where
  -- The loop goes past a stanza that does not match the source or does not decrypt the packet.
  abbrev pub Skips : Bytes → Bytes → AccessStanza → Type 0
  Skips spa src s =
      (match_source s src ≡ false) ⊎ ((e : Error) × (decrypt_stanza h c s spa ≡ err e))

  -- What the checks behind the decryption ask of a message.
  pub record IsAdmitted (now : ℕ) (src : Bytes) (s : AccessStanza) (m : Message) : Type 0 where
    pub in_time : packet_too_old cfg.max_spa_packet_age now m.timestamp ≡ false
    pub username : (s.require_username ≡ []) ⊎ (m.username ≡ s.require_username)
    pub address :
        (s.require_source_addr ≡ false)
        ⊎ ((is_empty m.access ≡ false) × (contains_ip net m.access (net.ip_string src) ≡ true))
    pub live : cfg.test ≡ false

  username_fits :
      (s : AccessStanza) (m : Message)
      → (s.require_username ≡ []) ⊎ (m.username ≡ s.require_username)
      → (not (is_empty s.require_username) && not (eqb m.username s.require_username)) ≡ false
  username_fits s m (inl free) = rw free refl
  username_fits s m (inr same) = ground (arith, eqb_iff m.username s.require_username)

  authorize_admitted :
      (now i : ℕ) (src : Bytes) (s : AccessStanza) (m : Message)
      → IsAdmitted now src s m
      → authorize net cfg src i s m ≡ dispatched i s m
  unfolding authorize
  authorize_admitted now i src s m a =
      let user = username_fits s m a.username in
      elim a.address [
        | inl free ↦ rw (user, free, a.live) refl
        | inr fits ↦
            let (some_text, there) = fits in rw (user, some_text, there, a.live) (ground arith)
      ]

  unknown_new :
      (now : ℕ) (spa : Bytes) (rc : ReplayCache)
      → lookup (packet_digest h spa) rc.entries ≡ none
      → (check_replay h (some rc) now spa).1 ≡ false
  unfolding check_replay is_duplicate
  unknown_new now spa rc e = ground arith

  accept_admitted :
      (now i : ℕ) (spa src : Bytes) (s : AccessStanza) (m : Message) (rc : ReplayCache)
      → IsAdmitted now src s m
      → lookup (packet_digest h spa) rc.entries ≡ none
      → (accept_packet net cfg src h (some rc) now spa i s m).1 ≡ dispatched i s m
  unfolding accept_packet
  accept_admitted now i spa src s m rc a e =
      rw (a.in_time, unknown_new now spa rc e) (authorize_admitted now i src s m a)

  try_admitted :
      (before after : List AccessStanza) (now i : ℕ) (spa src : Bytes) (s : AccessStanza)
      (m : Message) (rc : ReplayCache)
      → All (Skips spa src) before
      → match_source s src ≡ true
      → decrypt_stanza h c s spa ≡ ok m
      → IsAdmitted now src s m
      → lookup (packet_digest h spa) rc.entries ≡ none
      → (try_stanzas h c net cfg (before ++ (s ∷ after)) i (some rc) now spa src).1
        ≡ dispatched (i + length before) s m
  unfolding try_stanzas
  try_admitted [] after now i spa src s m rc skip mine good a e =
      rw (mine, good)
        (accept_admitted now i spa src s m rc a e ∙ ap (λ k. dispatched k s m) (omega arith))
  try_admitted (b ∷ before) after now i spa src s m rc (passed_by, skip) mine good a e =
      let rest = try_admitted before after now (i + 1) spa src s m rc skip mine good a e in
      let step : dispatched (i + 1 + length before) s m ≡ dispatched (i + suc (length before)) s m =
        ap (λ k. dispatched k s m) (omega arith) in
      elim passed_by [
        | inl other ↦ rw other (rest ∙ step)
        | inr failed ↦
            let (f, bad) = failed in
            elim (Bool-cases (match_source b src)) [
              | inl matches ↦ rw (matches, bad) (rest ∙ step)
              | inr other ↦ rw other (rest ∙ step)
            ]
      ]

  -- A packet that is not in the cache is dispatched with the first stanza that matches its source
  -- and decrypts it, if it is in time and has the user and the address that the stanza requires, and
  -- the server is not in test mode.
  pub admitted_dispatched :
      (before after : List AccessStanza) (now : ℕ) (spa src : Bytes) (s : AccessStanza)
      (m : Message) (rc : ReplayCache)
      → All (Skips spa src) before
      → match_source s src ≡ true
      → decrypt_stanza h c s spa ≡ ok m
      → IsAdmitted now src s m
      → lookup (packet_digest h spa) rc.entries ≡ none
      → (process_spa_packet h c net cfg (before ++ (s ∷ after)) (some rc) now spa src).1
        ≡ dispatched (1 + length before) s m
  unfolding process_spa_packet
  admitted_dispatched before after now spa src s m rc skip mine good a e =
      try_admitted before after now 1 spa src s m rc skip mine good a e
