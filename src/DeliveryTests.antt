-- ===== src/DeliveryTests.antt =====
-- A run of the client and a server, together.
use fwknop_go.Base.{
  ◌≡◌, refl, inr, true, [], ◌∷◌, arith, ℕ, length, leb, leb→le, runes, cut, parse_int64, trim_right,
  format_int, format_uint, unix_seconds, unix_time,
}
use fwknop_go.Spa.Kinds.{
  hmac_digest_type, message_type_is_valid, requires_nat_access, message_type_code, new_hash_func,
}
use fwknop_go.Spa.Base64.{b64_encode}
use fwknop_go.Spa.Validate.{
  validate, valid_rand_val, valid_username, valid_access_msg, valid_cmd_msg, valid_nat_access,
  proto_port_re, port_number,
}
use fwknop_go.Spa.Digest.{digest, digest_base64, compute_hmac, compute_hmac_base64}
use fwknop_go.Spa.Cipher.{
  pkcs7_pad, encrypt_with_salt, aes_cbc_encrypt, encrypter_for, encrypter_encrypt,
  legacy_pad_passphrase,
}
use fwknop_go.Spa.Kdf.{derive_key_and_iv, kiv_loop}
use fwknop_go.Spa.Packet.{encrypt}
use fwknop_go.Spa.Encode.{encode, encoded_fields, effective_message_type}
use fwknop_go.Spa.Fixtures.{test-HashLaws, test-CipherLaws, test_salt}
use fwknop_go.Server.Access.{match_source, net_contains}
use fwknop_go.Server.Processing.{packet_too_old, contains_ip, split_first}
use fwknop_go.Server.Replay.{new_replay_cache, lookup}
use fwknop_go.Server.Actions.{dispatch_action}
use fwknop_go.Server.Actions.Tests.{test_host, test_actions}
use fwknop_go.Server.Fixtures.{test_net, test_stanza}
use fwknop_go.Server.Tests.{test_time, test_source, test_cache}
use fwknop_go.Server.Daemon.{Setup, receive}
use fwknop_go.Server.Daemon.Tests.{test_setup, test_start}
use fwknop_go.Client.Packet.{spa_packet}
use fwknop_go.Client.Tests.{test_env, test_client, test_prepared, test_resolved, resolves, prepares}
use fwknop_go.Client.RunTests.{test_outside, test_spa, sends}
use fwknop_go.Delivery.{message_read, Sends, Expects, sent_dispatched}

abbrev client_setup : Setup ℕ
client_setup = record test_setup { stanzas = test_resolved ∷ [] }

packet_short : leb (length test_spa) 1500 ≡ true
unfolding spa_packet encrypt encode validate valid_rand_val valid_username valid_access_msg
    valid_cmd_msg valid_nat_access runes cut proto_port_re port_number parse_int64
    message_type_is_valid requires_nat_access encoded_fields effective_message_type b64_encode
    trim_right format_int format_uint unix_seconds message_type_code digest_base64 digest
    new_hash_func encrypter_for encrypter_encrypt aes_cbc_encrypt encrypt_with_salt
    derive_key_and_iv kiv_loop pkcs7_pad legacy_pad_passphrase compute_hmac_base64 compute_hmac
    hmac_digest_type
packet_short = refl

test-Sends : Sends test_env test_outside test_client test_prepared test_spa
unfolding unix_seconds
test-Sends = record {
  host = _;
  port = _;
  salt = test_salt;
  runs = sends;
  prepares = prepares;
  salted = refl;
  salt_bytes = omega arith;
  salt_size = refl;
  texts = record {
    username = omega arith;
    access = omega arith;
    nat_access = omega arith;
    server_auth = omega arith;
  };
  time = omega arith;
}

test-Expects :
    Expects client_setup test_start test_env test_client test_prepared test_spa test_source
      test_time test_resolved
unfolding match_source net_contains new_replay_cache lookup packet_too_old contains_ip split_first
    unix_time unix_seconds
test-Expects = record {
  same_hashes = refl;
  same_cipher = refl;
  before = [];
  after = [];
  stanzas = refl;
  passes_by = tt;
  file = test_stanza;
  resolves = resolves;
  settings = record {
    key_base64 = refl;
    key = refl;
    hmac_key_base64 = refl;
    hmac_key = refl;
    hmac_digest = refl;
    mode = refl;
  };
  use_hmac = refl;
  matches = refl;
  admits = record { in_time = refl; username = inr refl; address = inr (refl, refl); live = refl };
  cache = test_cache 120;
  has_cache = refl;
  is_new = refl;
  fits = leb→le _ 1500 packet_short;
}

sent_dispatched_example :
    (receive client_setup test_time test_spa test_source test_start).am
    ≡ dispatch_action test_host test_actions test_net test_time
        (message_read test_prepared)
        test_resolved
        (test_net.ip_string test_source)
        test_start.am
sent_dispatched_example =
    sent_dispatched client_setup test_start test_env test_outside test_client test_prepared test_spa
      test_source test_time test_resolved test-HashLaws test-CipherLaws test-Sends test-Expects
