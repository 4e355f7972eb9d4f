-- ===== src/Server/Daemon/Tests.antt =====
-- Tests of the daemon at the packet of Spa.Fixtures.
use fwknop_go.Base.{
  arith, ℕ, ◌≡◌, refl, ap, ◌∙◌, ◌⊎◌, true, some, [], ◌∷◌, take, List, codes, runes, cut,
  parse_int64, trim_right, format_int, format_uint, unix_seconds, unix_time,
}
use fwknop_go.Spa.Kinds.{
  hmac_digest_type, message_type_is_valid, requires_nat_access, message_type_code, new_hash_func,
}
use fwknop_go.Spa.Base64.{b64_encode}
use fwknop_go.Spa.Validate.{
  validate, valid_rand_val, valid_username, valid_access_msg, valid_cmd_msg, valid_nat_access,
  proto_port_re, port_number,
}
use fwknop_go.Spa.Digest.{digest, digest_base64, compute_hmac, compute_hmac_base64}
use fwknop_go.Spa.Cipher.{
  pkcs7_pad, encrypt_with_salt, aes_cbc_encrypt, encrypter_for, encrypter_encrypt,
  legacy_pad_passphrase,
}
use fwknop_go.Spa.Kdf.{derive_key_and_iv, kiv_loop}
use fwknop_go.Spa.Packet.{encrypt}
use fwknop_go.Spa.Encode.{encode, encoded_fields, effective_message_type}
use fwknop_go.Spa.Fixtures.{test_hashes, test_cipher}
use fwknop_go.Map.{lookup, insert}
use fwknop_go.Server.Fixtures.{test_net, test_stanza}
use fwknop_go.Server.Request.{rule_key, build_template_context, parse_access_msg, effective_timeout}
use fwknop_go.Server.Processing.{process_spa_packet}
use fwknop_go.Server.Actions.{
  Manager, ActiveRule, new_manager, due_time, dispatch_action, open_rule, open_new, after_open,
  after_check, run_template, schedule_close,
}
use fwknop_go.Server.Actions.Tests.{test_host, test_actions}
use fwknop_go.Server.Tests.{
  test_config, test_packet, test_source, test_received, test_time, test_cache, test_dispatched,
}
use fwknop_go.Server.Actions.Interleaving.{IsClosing}
use fwknop_go.Server.Daemon.{
  Setup, Daemon, Read, datagram, act, receive, udp_server, starts, steps, receives,
}
use fwknop_go.Server.Daemon.Loop.{Datagram}
use fwknop_go.Server.Daemon.Gate.{Gate, GateReachable, IsAskedFor}
use fwknop_go.Server.Daemon.Refinement.{IsRunning, Shows, daemon_refines_gate}
use fwknop_go.Server.Daemon.Origin.{open_rule-IsAskedFor}

abbrev pub test_setup : Setup ℕ
test_setup = record {
  hashes = test_hashes;
  cipher = test_cipher;
  net = test_net;
  host = test_host;
  templates = test_actions;
  config = test_config;
  stanzas = test_stanza ∷ [];
  err_closed = true;
}

abbrev pub test_start : Daemon ℕ
test_start = record { replay = some (test_cache 120); am = new_manager 0 }

abbrev pub test_datagram : Datagram
test_datagram = (test_time, test_packet, test_source)

abbrev test_reads : List Read
test_reads = datagram test_time test_packet test_source ∷ []

abbrev test_end : Daemon ℕ
test_end = (udp_server test_setup test_reads test_start).0

packet_fits : take 1500 test_packet ≡ test_packet
unfolding encrypt encode validate valid_rand_val valid_username valid_access_msg valid_cmd_msg
    valid_nat_access runes cut proto_port_re port_number parse_int64 message_type_is_valid
    requires_nat_access encoded_fields effective_message_type b64_encode trim_right format_int
    format_uint unix_seconds message_type_code digest_base64 digest new_hash_func encrypter_for
    encrypter_encrypt aes_cbc_encrypt encrypt_with_salt derive_key_and_iv kiv_loop pkcs7_pad
    legacy_pad_passphrase compute_hmac_base64 compute_hmac hmac_digest_type
packet_fits = refl

abbrev test_rule : ActiveRule
test_rule = record {
  ctx = build_template_context test_net test_received (codes "10.0.0.1") test_stanza;
  timer = 0;
}

test_opened : Manager ℕ
test_opened =
    dispatch_action test_host test_actions test_net test_time test_received test_stanza
      (codes "10.0.0.1") (new_manager 0)

test_end-opened : test_end.am ≡ test_opened
unfolding udp_server receive act test_opened
test_end-opened =
    ap
      (λ p.
        act test_setup test_time test_source
          (process_spa_packet test_hashes test_cipher test_net test_config (test_stanza ∷ [])
            (some (test_cache 120)) test_time p test_source).1
          (new_manager 0))
      packet_fits
    ∙ ap (λ o. act test_setup test_time test_source o (new_manager 0)) test_dispatched

is_opened : lookup (rule_key test_rule.ctx) test_opened.active_rules ≡ some test_rule
unfolding test_opened lookup insert dispatch_action open_rule open_new after_open after_check
    run_template schedule_close build_template_context parse_access_msg effective_timeout cut
    unix_seconds unix_time effective_message_type rule_key
is_opened = refl

test_end_rule : lookup (rule_key test_rule.ctx) test_end.am.active_rules ≡ some test_rule
test_end_rule = rw test_end-opened is_opened

daemon_refines_gate_example :
    (g : Gate) × GateReachable test_setup test_time g
    × Shows test_time (receive test_setup test_time test_packet test_source test_start).am g
daemon_refines_gate_example =
    daemon_refines_gate test_setup test_time
      (receive test_setup test_time test_packet test_source test_start)
      (steps (starts 0 (some (test_cache 120)) 0) (omega arith) (receives test_packet test_source))

open_rule-IsAskedFor_example :
    (now : ℕ) × IsAskedFor test_setup now test_rule.ctx
    × (rule_key test_rule.ctx ≡ rule_key test_rule.ctx)
    × (IsRunning test_rule (due_time now test_rule.ctx.timeout) test_end.am.timers
        ⊎ IsClosing (rule_key test_rule.ctx) test_end.am.fired test_end.am.closed)
open_rule-IsAskedFor_example =
    open_rule-IsAskedFor test_setup 0 test_reads test_start (rule_key test_rule.ctx) test_rule
      (starts 0 (some (test_cache 120)) 0) (omega arith, tt) test_end_rule
