-- ===== src/Server/Fixtures.antt =====
-- A network and an access stanza for the tests of the server.
use fwknop_go.Base.{pos, true, false, some, none, [], ◌∷◌, codes}
use fwknop_go.Spa.Kinds.{hmac_sha256, mode_cbc_legacy}
use fwknop_go.Spa.Fixtures.{test_key, test_hmac_key}
use fwknop_go.Server.Access.{AccessStanza, Net, all_v4}

abbrev pub test_net : Net
test_net = record {
  parse_ip = λ s. some s;
  parse_cidr = λ s. none;
  ip_string = λ s. codes "10.0.0.1";
}

abbrev pub test_stanza : AccessStanza
test_stanza = record {
  source = codes "ANY";
  open_ports = [];
  key_base64 = [];
  key = test_key;
  hmac_key_base64 = [];
  hmac_key_text = test_hmac_key;
  hmac_digest_name = codes "sha256";
  encryption_mode_name = codes "legacy";
  access_timeout = pos 30;
  max_access_timeout = pos 300;
  require_username = codes "alice";
  require_source_addr = true;
  enable_cmd_exec = false;
  cmd_exec_user = [];
  source_nets = all_v4 ∷ [];
  enc_key = test_key;
  hmac_key = test_hmac_key;
  hmac_type = hmac_sha256;
  enc_mode = mode_cbc_legacy;
}
