-- ===== src/Client/Run.antt =====
-- cmd/fwknop/main.go: run, on the command line that was parsed, and what is printed on standard output.
pub mod Sent
use fwknop_go.Base.{ℕ, ℤ, pos, Bool, ◌&&◌, Option, none, some, List, [], ◌∷◌, Bytes, if◌then◌else◌}
use fwknop_go.Spa.Validate.{is_empty}
use fwknop_go.Spa.KeyGen.{generate_key, generate_hmac_key}
use fwknop_go.BuildInfo.{Built}
use fwknop_go.Koanf.{Parsed}
use fwknop_go.Koanf.Completion.{Completion, goes_on, then_go}
use fwknop_go.Client.Config.{
  ClientConfig, Attempt, failed, done, ◌>>=◌, ◌>>◌, refuse_if, from_spa, destination_required,
  access_required, send_failed, rc_error,
}
use fwknop_go.Client.Packet.{Env, prepare, spa_packet}
use fwknop_go.Client.Loading.{Place, LoadError, load_config}
use fwknop_go.Client.Send.{Network, SendError, send_spa_packet}
use fwknop_go.Client.Output.{
  key_lines, version_line, listed_path, Listing, listed, not_listed, list_stanzas,
}

-- What run ends with, if it does not fail: the lines that it prints, or a datagram.
pub data Ending : Type 0 where
  printed : List Bytes → Ending
  packet_sent : Bytes → ℤ → Bytes → Ending

-- The reads of random bytes for the two keys, the build, the rc file to be listed, and the
-- network.
pub record Outside : Type 0 where
  pub key_random : ℕ → Option Bytes
  pub hmac_random : ℕ → Option Bytes
  pub build : Option Built
  pub home : Option Bytes
  pub join : Bytes → Bytes → Bytes
  pub read_file : Bytes → Option Bytes
  pub parse_names : Bytes → Option (List Bytes)
  pub network : Network

unfoldable pub run_key_gen : Outside → Attempt Ending
run_key_gen out = do
  enc_key ← from_spa (generate_key out.key_random (pos 32))
  hmac_key ← from_spa (generate_hmac_key out.hmac_random (pos 32))
  done (printed (key_lines enc_key hmac_key))

abbrev pub stanzas_printed : Listing → Attempt Ending
stanzas_printed (listed names) = done (printed names)
stanzas_printed (not_listed e) = failed (rc_error e)

abbrev pub after_send : ClientConfig → Bytes → Option SendError → Attempt Ending
after_send c spa none = done (packet_sent c.destination c.server_port spa)
after_send c spa (some e) = failed (send_failed e)

unfoldable pub deliver : Outside → ClientConfig → Bytes → Attempt Ending
deliver out c spa =
    if c.test
    then done (printed (spa ∷ []))
    else after_send c spa (send_spa_packet out.network c.destination c.server_port spa)

unfoldable pub run_packet : Env → Outside → ClientConfig → Attempt Ending
run_packet env out c = do
  refuse_if (is_empty c.destination) destination_required
  refuse_if (is_empty c.access && is_empty c.server_cmd) access_required
  p ← prepare env c
  spa ← spa_packet env p
  deliver out c spa

abbrev pub run_listing : Outside → ClientConfig → Attempt Ending
run_listing out c =
    stanzas_printed (list_stanzas out.parse_names (out.read_file (listed_path out.join out.home c)))

unfoldable pub run_config : Env → Outside → ClientConfig → Attempt Ending
run_config env out c =
    if c.show_version
    then done (printed (version_line out.build ∷ []))
    else if c.key_gen
    then run_key_gen out
    else if c.list_stanzas
    then run_listing out c
    else run_packet env out c

unfoldable pub run :
    {K V : Type 0} → Place K V → Env → Outside → Parsed → Completion LoadError (Attempt Ending)
run place env out args = then_go (λ c. goes_on (run_config env out c)) (load_config place args)
