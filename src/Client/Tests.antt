-- ===== src/Client/Tests.antt =====
-- Tests of the client at a configuration, with the stand-ins of Spa.Fixtures.
use fwknop_go.Base.{
  ℕ, ◌+◌, ◌*◌, pos, ◌≡◌, refl, Bool, true, false, some, none, [], ◌∷◌, arith, Bytes, codes,
  replicate, to_lower, lower, to_upper, upper, trim_right, format_uint, unix_seconds, runes, cut,
  parse_int64, format_int,
}
use fwknop_go.Spa.Error.{ok}
use fwknop_go.Spa.Kinds.{
  digest_sha256, digest_sha3_256, hmac_sha256, mode_cbc_legacy, nat_access_msg,
  message_type_is_valid, digest_type_is_valid, hmac_type_is_valid, encryption_mode_is_valid,
  requires_nat_access, new_hash_func, hmac_digest_type, message_type_code,
}
use fwknop_go.Spa.Base64.{b64_encode}
use fwknop_go.Spa.Message.{
  generate_rand_val, new_with_options, with_username, with_message_type, with_access_msg,
  with_nat_access, with_client_timeout, with_digest_type, with_encryption_mode, with_hmac_type,
}
use fwknop_go.Spa.Validate.{
  validate, valid_rand_val, valid_username, valid_access_msg, valid_cmd_msg, valid_nat_access,
  proto_port_re, port_number,
}
use fwknop_go.Spa.Digest.{digest, digest_base64, compute_hmac, compute_hmac_base64}
use fwknop_go.Spa.Kdf.{derive_key_and_iv, kiv_loop}
use fwknop_go.Spa.Cipher.{
  pkcs7_pad, encrypt_with_salt, aes_cbc_encrypt, encrypter_for, encrypter_encrypt,
  legacy_pad_passphrase,
}
use fwknop_go.Spa.Encode.{encode, encoded_fields, effective_message_type}
use fwknop_go.Spa.Packet.{encrypt}
use fwknop_go.Spa.Wire.Decoding.{received}
use fwknop_go.Spa.Fixtures.{
  test_hashes, test-HashLaws, test_cipher, test-CipherLaws, test_platform, test_salt, test_key,
  test_hmac_key,
}
use fwknop_go.Server.Access as Access
use fwknop_go.Server.Access.{
  AccessStanza, resolve, parse_source_nets, hmac_type_named, enc_mode_named, all_v4, all_v6,
}
use fwknop_go.Server.Processing.{decrypt_stanza}
use fwknop_go.Server.Fixtures.{test_net, test_stanza}
use fwknop_go.Client.Config.{
  ClientConfig, Attempt, failed, done, resolve_enc_key, resolve_hmac_key, resolve_digest_type,
  resolve_hmac_type, resolve_enc_mode,
}
use fwknop_go.Client.Packet.{
  Env, Prepared, prepare, spa_packet, resolve_allow_ip, offset_option, message_options,
}
use fwknop_go.Client.Packet.Built.{IsBuilt, prepare-IsBuilt}
use fwknop_go.Client.Packet.Agreement.{client_server_agree}
use fwknop_go.Client.Config as Config
use fwknop_go.Client.Keys.{generated_keys_read}
use fwknop_go.Spa.KeyGen.{generate_key, generate_hmac_key}
use fwknop_go.Spa.Base64.{std_encode}

abbrev pub test_env : Env
test_env = record {
  hashes = test_hashes;
  cipher = test_cipher;
  platform = test_platform;
  draw = λ i. some (i * 1000 + 7);
  user = some (codes "bob");
  now = pos 1_700_000_000_500_000_000;
  offset_now = pos 1_700_000_000_600_000_000;
  salt = some test_salt;
  parse_duration = λ s. none;
  http_get = λ url. none;
}

abbrev pub test_client : ClientConfig
test_client = record {
  destination = codes "server";
  server_port = pos 62201;
  allow_ip = codes "10.0.0.1";
  access = codes "tcp/22";
  server_cmd = [];
  spoof_user = codes "alice";
  source_ip = false;
  fw_timeout = pos 60;
  nat_access = codes "192.168.1.5,22";
  nat_local = false;
  nat_port = pos 0;
  digest_type = codes "sha3-256";
  hmac_digest_type = codes "sha256";
  encryption_mode = codes "legacy";
  key = test_key;
  key_base64 = [];
  key_hmac = test_hmac_key;
  key_base64_hmac = [];
  use_hmac = true;
  resolve_ip = false;
  resolve_url = [];
  time_offset_plus = [];
  time_offset_minus = [];
  named_config = [];
  rc_file = [];
  no_rc_file = false;
  test = false;
  verbose = pos 0;
  key_gen = false;
  save_rc = false;
  list_stanzas = false;
  show_version = false;
}

abbrev pub test_prepared : Prepared
test_prepared = record {
  enc_key = test_key;
  hmac_key = test_hmac_key;
  message = record {
    rand_val = codes "7100720073007400";
    username = codes "alice";
    timestamp = pos 1_700_000_000_500_000_000;
    message_type = nat_access_msg;
    access = codes "10.0.0.1,tcp/22";
    nat_access = codes "192.168.1.5,22";
    server_auth = [];
    client_timeout = 60;
    digest_type = digest_sha3_256;
    encryption_mode = mode_cbc_legacy;
    hmac_type = hmac_sha256;
  };
}

pub prepares : prepare test_env test_client ≡ done test_prepared
unfolding prepare resolve_allow_ip resolve_enc_key resolve_hmac_key resolve_digest_type
    resolve_hmac_type resolve_enc_mode to_lower lower message_options offset_option new_with_options
    generate_rand_val format_uint with_username with_message_type with_access_msg with_nat_access
    with_client_timeout with_digest_type with_encryption_mode with_hmac_type message_type_is_valid
    digest_type_is_valid hmac_type_is_valid encryption_mode_is_valid
prepares = refl

prepare-IsBuilt_example : IsBuilt test_env test_client test_prepared
prepare-IsBuilt_example = prepare-IsBuilt test_env test_client test_prepared prepares

abbrev pub or_none : Attempt Bytes → Bytes
or_none (done s) = s
or_none (failed e) = []

abbrev pub is_done : Attempt Bytes → Bool
is_done (done s) = true
is_done (failed e) = false

pub done_or_none : (r : Attempt Bytes) → is_done r ≡ true → r ≡ done (or_none r)
done_or_none (done s) h = refl
done_or_none (failed e) h = cc

pub encrypts : is_done (spa_packet test_env test_prepared) ≡ true
unfolding spa_packet encrypt encode validate valid_rand_val valid_username valid_access_msg
    valid_cmd_msg valid_nat_access runes cut proto_port_re port_number parse_int64
    message_type_is_valid requires_nat_access encoded_fields effective_message_type b64_encode
    trim_right format_int format_uint unix_seconds message_type_code digest_base64 digest
    new_hash_func encrypter_for encrypter_encrypt aes_cbc_encrypt encrypt_with_salt
    derive_key_and_iv kiv_loop pkcs7_pad legacy_pad_passphrase compute_hmac_base64 compute_hmac
    hmac_digest_type
encrypts = refl

abbrev pub test_resolved : AccessStanza
test_resolved = record test_stanza { source_nets = all_v4 ∷ all_v6 ∷ [] }

pub resolves : resolve test_net test_stanza ≡ Access.resolved test_resolved
unfolding resolve parse_source_nets to_upper upper Access.resolve_enc_key Access.resolve_hmac_key
    hmac_type_named enc_mode_named to_lower lower
resolves = refl

client_server_agree_example :
    decrypt_stanza test_hashes test_cipher test_resolved
      (or_none (spa_packet test_env test_prepared))
    ≡ ok (received test_prepared.message digest_sha256)
unfolding unix_seconds
client_server_agree_example =
    client_server_agree test_env test_net test_client test_stanza test_resolved test_prepared
      (or_none (spa_packet test_env test_prepared)) test_salt test-HashLaws test-CipherLaws
      (record {
        key_base64 = refl;
        key = refl;
        hmac_key_base64 = refl;
        hmac_key = refl;
        hmac_digest = refl;
        mode = refl;
      })
      refl resolves prepares (done_or_none (spa_packet test_env test_prepared) encrypts) refl
      (omega arith) refl
      (record {
        username = omega arith;
        access = omega arith;
        nat_access = omega arith;
        server_auth = omega arith;
      })
      (omega arith)

abbrev test_random : ℕ → Bytes
test_random n = replicate n 7

abbrev base64_client : ClientConfig
base64_client = record test_client {
  key_base64 = std_encode (test_random 32);
  key_base64_hmac = std_encode (test_random 32);
}

abbrev base64_stanza : AccessStanza
base64_stanza = record test_stanza {
  key_base64 = std_encode (test_random 32);
  hmac_key_base64 = std_encode (test_random 32);
}

generated_keys_read_example :
    (Config.resolve_enc_key base64_client ≡ done (test_random 32))
    × (Config.resolve_hmac_key base64_client ≡ done (test_random 32))
    × (Access.resolve_enc_key base64_stanza ≡ Access.resolved (test_random 32))
    × (Access.resolve_hmac_key base64_stanza ≡ Access.resolved (test_random 32))
unfolding generate_key generate_hmac_key
generated_keys_read_example =
    generated_keys_read (λ n. some (test_random n)) (λ n. some (test_random n)) 31
      (std_encode (test_random 32)) (std_encode (test_random 32)) (test_random 32) (test_random 32)
      base64_client base64_stanza (refl, refl, refl, refl) (omega arith) (omega arith) refl refl
      refl (refl, refl) (refl, refl)
