-- ===== src/Server/Dump.antt =====
-- cmd/fwknopd/main.go: dumpConfig, as the lines that it prints.
use fwknop_go.Base.{
  ℕ, ◌+◌, ◌≡◌, refl, List, [], ◌∷◌, ◌++◌, Bytes, codes, length, replicate, length-replicate, map,
  format_uint, format_int, bool_text, list_text,
}
use fwknop_go.Server.Access.{AccessStanza}
use fwknop_go.Server.Startup.{Settings}

abbrev config_lines : Settings → List Bytes
config_lines cfg =
    codes "fwknopd configuration:"
    ∷ (codes "  Config file:    " ++ cfg.config_file)
    ∷ (codes "  Access file:    " ++ cfg.access_file)
    ∷ (codes "  UDP port:       " ++ format_int cfg.udp_port)
    ∷ (codes "  Bind address:   " ++ cfg.bind_address)
    ∷ (codes "  Log file:       " ++ cfg.log_file)
    ∷ (codes "  Syslog ident:   " ++ cfg.syslog_ident)
    ∷ (codes "  PID file:       " ++ cfg.pid_file)
    ∷ (codes "  Max packet age: " ++ (format_int cfg.max_spa_packet_age ++ codes "s"))
    ∷ (codes "  Verbose:        " ++ bool_text cfg.verbose)
    ∷ (codes "  Test mode:      " ++ bool_text cfg.test)
    ∷ []
    ∷ []

abbrev length_shown : Bytes → Bytes
length_shown k = format_uint (length k) ++ codes " bytes"

-- A stanza with its number.
unfoldable pub stanza_shown : ℕ → AccessStanza → List Bytes
stanza_shown n s =
    (codes "  Stanza #" ++ (format_uint n ++ codes ":"))
    ∷ (codes "    Source:           " ++ s.source)
    ∷ (codes "    Open ports:       " ++ list_text s.open_ports)
    ∷ (codes "    HMAC digest:      " ++ s.hmac_digest_name)
    ∷ (codes "    Encryption mode:  " ++ s.encryption_mode_name)
    ∷ (codes "    Access timeout:   " ++ (format_int s.access_timeout ++ codes "s"))
    ∷ (codes "    Require username: " ++ s.require_username)
    ∷ (codes "    Require src addr: " ++ bool_text s.require_source_addr)
    ∷ (codes "    Enc key length:   " ++ length_shown s.enc_key)
    ∷ (codes "    HMAC key length:  " ++ length_shown s.hmac_key)
    ∷ []

unfoldable pub stanzas_shown : ℕ → List AccessStanza → List Bytes
stanzas_shown n [] = []
stanzas_shown n (s ∷ ss) = stanza_shown n s ++ stanzas_shown (n + 1) ss

unfoldable pub dump_config : Settings → List AccessStanza → List Bytes
dump_config cfg stanzas =
    config_lines cfg
    ++ ((codes "Access stanzas (" ++ (format_uint (length stanzas) ++ codes "):"))
        ∷ stanzas_shown 1 stanzas)

-- Zeros for a secret.
abbrev pub zeros : Bytes → Bytes
zeros k = replicate (length k) 0

-- A stanza whose keys and their texts are replaced by zeros.
abbrev pub redacted : AccessStanza → AccessStanza
redacted s = record s {
  key = zeros s.key;
  key_base64 = zeros s.key_base64;
  hmac_key_text = zeros s.hmac_key_text;
  hmac_key_base64 = zeros s.hmac_key_base64;
  enc_key = zeros s.enc_key;
  hmac_key = zeros s.hmac_key;
}

lines-redacted : (n : ℕ) (s : AccessStanza) → stanza_shown n (redacted s) ≡ stanza_shown n s
unfolding stanza_shown
lines-redacted n s =
    rw
      (
        length-replicate {A = ℕ} (length s.enc_key) 0,
        length-replicate {A = ℕ} (length s.hmac_key) 0,
      )
      refl

all_lines-redacted :
    (n : ℕ) (ss : List AccessStanza) → stanzas_shown n (map redacted ss) ≡ stanzas_shown n ss
unfolding stanzas_shown
all_lines-redacted n [] = refl
all_lines-redacted n (s ∷ ss) = cc (lines-redacted n s, all_lines-redacted (n + 1) ss)

length-redacted : (ss : List AccessStanza) → length (map redacted ss) ≡ length ss
length-redacted [] = refl
length-redacted (s ∷ ss) = cc (length-redacted ss)

-- A dump of the configuration is the same when every byte of every key is a zero: it shows nothing of
-- the keys but their lengths.
pub dump_config-redacted :
    (cfg : Settings) (stanzas : List AccessStanza)
    → dump_config cfg (map redacted stanzas) ≡ dump_config cfg stanzas
unfolding dump_config
dump_config-redacted cfg stanzas = cc (length-redacted stanzas, all_lines-redacted 1 stanzas)
