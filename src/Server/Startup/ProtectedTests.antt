-- ===== src/Server/Startup/ProtectedTests.antt =====
-- Tests of replays at the server that run starts: the packet of Spa.Fixtures comes twice.
use mathlib.Core.List.{Memᴰ}
use fwknop_go.Base.{
  ℕ, ◌+◌, ◌≡◌, refl, ap, sym, ◌∙◌, true, false, List, [], ◌∷◌, arith, codes, nanoseconds, unix_time,
  unix_seconds,
}
use fwknop_go.Spa.Error.{ok}
use fwknop_go.Spa.Message.{Message}
use fwknop_go.Spa.Fixtures.{test_hashes, test_cipher, test_decrypts}
use fwknop_go.Server.Replay.{purge, new_replay_cache, is_duplicate, lookup}
use fwknop_go.Server.Access.{AccessStanza, match_source, net_contains}
use fwknop_go.Server.Fixtures.{test_net}
use fwknop_go.Server.Processing.{
  packet_too_old, split_first, contains_ip, check_replay, authorize, accept_packet, decrypt_stanza,
  try_stanzas, process_spa_packet,
}
use fwknop_go.Server.Processing.Passing.{passed}
use fwknop_go.Server.Processing.NoReplay.{Event, packet, tick, NotAfter, after_event, run}
use fwknop_go.Server.Tests.{test_config, test_packet, test_source, test_received, test_time}
use fwknop_go.Server.Startup.Tests.{
  test_machine, test_settings, resolved_stanza, started_setup, started, server_starts,
}
use fwknop_go.Server.Startup.Protected.{cache_after, served_no_replay}

resolved_decrypts :
    decrypt_stanza test_hashes test_cipher resolved_stanza test_packet ≡ ok test_received
unfolding decrypt_stanza
resolved_decrypts = test_decrypts

abbrev tick_before : List (ℕ × Event)
tick_before = (test_time, tick) ∷ []

abbrev noise_between : List (ℕ × Event)
noise_between = (test_time + 2, packet (codes "noise") test_source) ∷ []

accepted :
    passed
      (accept_packet test_net test_config test_source test_hashes
        (cache_after started_setup tick_before started.replay)
        test_time
        test_packet
        1
        resolved_stanza
        test_received).1
    ≡ true
unfolding accept_packet packet_too_old check_replay is_duplicate new_replay_cache lookup authorize
    contains_ip split_first unix_time unix_seconds after_event run purge
accepted = refl

first_passes :
    passed
      (process_spa_packet test_hashes test_cipher test_net test_config
        (resolved_stanza ∷ [])
        (cache_after started_setup tick_before started.replay)
        test_time
        test_packet
        test_source).1
    ≡ true
unfolding process_spa_packet try_stanzas match_source net_contains
first_passes = rw resolved_decrypts accepted

resolved_fresh :
    (s : AccessStanza) (m : Message)
    → Memᴰ s (resolved_stanza ∷ [])
    → decrypt_stanza test_hashes test_cipher s test_packet ≡ ok m
    → NotAfter test_time m.timestamp
unfolding unix_time unix_seconds
resolved_fresh s m (Memᴰ.tail q) d = elim q [ ]
resolved_fresh s m (Memᴰ.head e) d =
    let same : ok m ≡ ok test_received =
      sym d
      ∙ ap (λ t. decrypt_stanza test_hashes test_cipher t test_packet) e
      ∙ resolved_decrypts in
    let received_is : m ≡ test_received = cc in rw received_is (omega arith)

served_no_replay_example :
    passed
      (process_spa_packet test_hashes test_cipher test_net test_config
        (resolved_stanza ∷ [])
        (cache_after started_setup noise_between
          (process_spa_packet test_hashes test_cipher test_net test_config
            (resolved_stanza ∷ [])
            (cache_after started_setup tick_before started.replay)
            test_time
            test_packet
            test_source).0)
        (test_time + nanoseconds)
        test_packet
        test_source).1
    ≡ false
served_no_replay_example =
    served_no_replay test_machine test_settings started_setup started 119 test_time
      (test_time + nanoseconds) test_packet test_source test_source tick_before noise_between
      server_starts refl first_passes (omega arith) resolved_fresh
