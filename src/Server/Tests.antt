-- ===== src/Server/Tests.antt =====
-- Tests of the server at a packet, with the stand-ins of Spa.Fixtures.
use mathlib.Core.List.{Memᴰ}
use fwknop_go.Base.{
  ℕ, inl, inr, ◌+◌, ◌*◌, pos, ◌≡◌, refl, ap, sym, ◌∙◌, true, false, some, [], ◌∷◌, arith, Bytes,
  codes, nanoseconds, unix_time, unix_seconds, to_upper, upper, to_lower, lower,
}
use fwknop_go.Spa.Error.{ok}
use fwknop_go.Spa.Kinds.{digest_sha256}
use fwknop_go.Spa.Message.{Message}
use fwknop_go.Spa.Wire.Decoding.{received}
use fwknop_go.Spa.Fixtures.{
  test_hashes, test_cipher, test_message, test_encrypted, or_nil, test_decrypts,
}
use fwknop_go.Server.Fixtures.{test_net, test_stanza}
use fwknop_go.Server.Access.{
  resolve, parse_source_nets, resolve_enc_key, resolve_hmac_key, hmac_type_named, enc_mode_named,
  all_v4, all_v6, AccessStanza, match_source, net_contains,
}
use fwknop_go.Server.Access.Resolving.{IsResolved, resolve-IsResolved}
use fwknop_go.Server.Replay.{ReplayCache, new_replay_cache, is_duplicate, lookup}
use fwknop_go.Server.Processing.{
  ServerConfig, dispatched, packet_too_old, split_first, contains_ip, check_replay, authorize,
  accept_packet, decrypt_stanza, try_stanzas, process_spa_packet,
}
use fwknop_go.Server.Processing.Admission.{IsAdmitted, admitted_dispatched}
use fwknop_go.Server.Processing.Passing.{passed}
use fwknop_go.Server.Processing.NoReplay.{packet, tick, NotAfter, run, no_replay}
use fwknop_go.Server.Processing.Exits.{IsAuthorized, dispatched-IsAuthorized, passes_again}

abbrev pub test_config : ServerConfig
test_config = record { max_spa_packet_age = pos 120; test = false }

abbrev no_age_config : ServerConfig
no_age_config = record { max_spa_packet_age = pos 0; test = false }

abbrev pub test_packet : Bytes
test_packet = or_nil test_encrypted

abbrev pub test_source : Bytes
test_source = 10 ∷ 0 ∷ 0 ∷ 1 ∷ []

abbrev pub test_received : Message
test_received = received test_message digest_sha256

-- Ten seconds after the packet was made.
abbrev pub test_time : ℕ
test_time = 1_700_000_010 * nanoseconds

abbrev pub test_cache : ℕ → ReplayCache
test_cache ttl = new_replay_cache (pos (ttl * nanoseconds))

stanza_decrypts : decrypt_stanza test_hashes test_cipher test_stanza test_packet ≡ ok test_received
unfolding decrypt_stanza
stanza_decrypts = test_decrypts

accepted_unaged :
    (accept_packet test_net no_age_config test_source test_hashes
      (some (test_cache 0))
      test_time
      test_packet
      1
      test_stanza
      test_received).1
    ≡ dispatched 1 test_stanza test_received
unfolding accept_packet packet_too_old check_replay is_duplicate new_replay_cache lookup authorize
    contains_ip split_first unix_time unix_seconds
accepted_unaged = refl

test_dispatched_unaged :
    (process_spa_packet test_hashes test_cipher test_net no_age_config
      (test_stanza ∷ [])
      (some (test_cache 0))
      test_time
      test_packet
      test_source).1
    ≡ dispatched 1 test_stanza test_received
unfolding process_spa_packet try_stanzas match_source net_contains
test_dispatched_unaged = rw stanza_decrypts accepted_unaged

accepted :
    (accept_packet test_net test_config test_source test_hashes
      (some (test_cache 120))
      test_time
      test_packet
      1
      test_stanza
      test_received).1
    ≡ dispatched 1 test_stanza test_received
unfolding accept_packet packet_too_old check_replay is_duplicate new_replay_cache lookup authorize
    contains_ip split_first unix_time unix_seconds
accepted = refl

pub test_dispatched :
    (process_spa_packet test_hashes test_cipher test_net test_config
      (test_stanza ∷ [])
      (some (test_cache 120))
      test_time
      test_packet
      test_source).1
    ≡ dispatched 1 test_stanza test_received
unfolding process_spa_packet try_stanzas match_source net_contains
test_dispatched = rw stanza_decrypts accepted

dispatched-IsAuthorized_example :
    IsAuthorized test_hashes test_cipher test_net test_config
      (test_stanza ∷ [])
      test_time
      test_packet
      test_source
      test_stanza
      test_received
dispatched-IsAuthorized_example =
    dispatched-IsAuthorized test_hashes test_cipher test_net test_config (test_stanza ∷ []) 1
      (some (test_cache 120)) test_time test_packet test_source test_stanza test_received
      test_dispatched

-- The packet was not made in the future.
test_fresh :
    (s : AccessStanza) (m : Message)
    → Memᴰ s (test_stanza ∷ [])
    → decrypt_stanza test_hashes test_cipher s test_packet ≡ ok m
    → NotAfter test_time m.timestamp
unfolding unix_time unix_seconds
test_fresh s m (Memᴰ.tail q) d = elim q [ ]
test_fresh s m (Memᴰ.head e) d =
    let same : ok m ≡ ok test_received =
      sym d ∙ ap (λ t. decrypt_stanza test_hashes test_cipher t test_packet) e ∙ stanza_decrypts in
    let received_is : m ≡ test_received = cc in rw received_is (omega arith)

no_replay_example :
    passed
      (process_spa_packet test_hashes test_cipher test_net test_config
        (test_stanza ∷ [])
        (run test_hashes test_cipher test_net test_config
          (test_stanza ∷ [])
          ((test_time + 1, tick) ∷ (test_time + 2, packet (codes "noise") test_source) ∷ [])
          (process_spa_packet test_hashes test_cipher test_net test_config
            (test_stanza ∷ [])
            (some (test_cache 120))
            test_time
            test_packet
            test_source).0)
        (test_time + nanoseconds)
        test_packet
        test_source).1
    ≡ false
unfolding new_replay_cache
no_replay_example =
    no_replay test_hashes test_cipher test_net test_config (test_stanza ∷ []) 119 test_time
      (test_time + nanoseconds) (test_cache 120) test_packet test_source test_source
      ((test_time + 1, tick) ∷ (test_time + 2, packet (codes "noise") test_source) ∷ []) refl refl
      (ap passed test_dispatched) (omega arith) test_fresh

-- With a maximum age of zero, the same packet two nanoseconds later.
passes_again_example :
    passed
      (process_spa_packet test_hashes test_cipher test_net no_age_config
        (test_stanza ∷ [])
        (process_spa_packet test_hashes test_cipher test_net no_age_config
          (test_stanza ∷ [])
          (some (test_cache 0))
          test_time
          test_packet
          test_source).0
        (test_time + 2)
        test_packet
        test_source).1
    ≡ true
unfolding new_replay_cache packet_too_old
passes_again_example =
    passes_again test_hashes test_cipher test_net no_age_config (test_stanza ∷ []) 0 test_time
      (test_time + 2) (test_cache 0) test_packet test_source refl (ap passed test_dispatched_unaged)
      (omega arith) (λ s m d. refl)

abbrev resolved_stanza : AccessStanza
resolved_stanza = record test_stanza { source_nets = all_v4 ∷ all_v6 ∷ [] }

resolve-IsResolved_example : IsResolved test_stanza resolved_stanza
unfolding resolve parse_source_nets to_upper upper resolve_enc_key resolve_hmac_key hmac_type_named
    enc_mode_named to_lower lower
resolve-IsResolved_example = resolve-IsResolved test_net test_stanza resolved_stanza refl

-- A stanza for another network, which the loop goes past.
abbrev other_stanza : AccessStanza
other_stanza = record test_stanza { source_nets = [] }

test-IsAdmitted :
    IsAdmitted test_hashes test_cipher test_net test_config test_time test_source test_stanza
      test_received
unfolding packet_too_old contains_ip split_first unix_time unix_seconds
test-IsAdmitted = record {
  in_time = refl;
  username = inr refl;
  address = inr (refl, refl);
  live = refl;
}

admitted_dispatched_example :
    (process_spa_packet test_hashes test_cipher test_net test_config
      (other_stanza ∷ test_stanza ∷ other_stanza ∷ [])
      (some (test_cache 120))
      test_time
      test_packet
      test_source).1
    ≡ dispatched 2 test_stanza test_received
unfolding match_source net_contains new_replay_cache lookup
admitted_dispatched_example =
    admitted_dispatched test_hashes test_cipher test_net test_config (other_stanza ∷ [])
      (other_stanza ∷ []) test_time test_packet test_source test_stanza test_received
      (test_cache 120) (inl refl, tt) refl stanza_decrypts test-IsAdmitted refl
