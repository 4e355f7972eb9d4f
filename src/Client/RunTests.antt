-- ===== src/Client/RunTests.antt =====
-- Tests of a whole run of the client.
use fwknop_go.Base.{pos, ◌≡◌, refl, true, some, none, codes, replicate, Bytes}
use fwknop_go.Client.Config.{done}
use fwknop_go.Client.Packet.{spa_packet}
use fwknop_go.Client.Tests.{
  test_env, test_client, test_prepared, or_none, prepares, done_or_none, encrypts,
}
use fwknop_go.Client.Send.{send_spa_packet}
use fwknop_go.Client.Run.{packet_sent, Outside, run_packet, deliver, run_config}
use fwknop_go.Client.Run.Sent.{IsSent, run_config-IsSent}

abbrev pub test_outside : Outside
test_outside = record {
  key_random = λ n. some (replicate n 7);
  hmac_random = λ n. some (replicate n 9);
  build = none;
  home = none;
  join = λ d f. f;
  read_file = λ path. none;
  parse_names = λ content. none;
  network = record { dials = λ addr. true; writes = λ addr spa. true };
}

abbrev pub test_spa : Bytes
test_spa = or_none (spa_packet test_env test_prepared)

pub sends :
    run_config test_env test_outside test_client
    ≡ done (packet_sent (codes "server") (pos 62201) test_spa)
unfolding run_config run_packet deliver send_spa_packet
sends = rw (prepares, done_or_none (spa_packet test_env test_prepared) encrypts) refl

run_config-IsSent_example :
    IsSent test_env test_outside test_client (codes "server") (pos 62201) test_spa
run_config-IsSent_example =
    run_config-IsSent test_env test_outside test_client (codes "server") (pos 62201) test_spa sends
