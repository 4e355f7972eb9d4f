-- ===== src/Server/Report.antt =====
-- cmd/fwknopd/server.go: the lines that logSPAMessage writes to the log. The text of a time is an argument.
use fwknop_go.Base.{
  line_if, ℕ, ltb, ℤ, not, List, [], ◌∷◌, ◌++◌, Bytes, codes, format_uint, format_int, unix_seconds,
}
use fwknop_go.Spa.Kinds.{message_type_string, digest_type_string}
use fwknop_go.Spa.Message.{Message}
use fwknop_go.Spa.Validate.{is_empty}

-- `src` is the text of the address, `n` the number of the stanza.
unfoldable pub log_spa_message :
    (rfc3339 : ℤ → Bytes) → Message → (src : Bytes) → (n : ℕ) → List Bytes
log_spa_message rfc3339 m src n =
    (codes "SPA Field Values (stanza #"
      ++ (format_uint n ++ (codes ", from " ++ (src ++ codes "):"))))
    ∷ (codes "  Random Value: " ++ m.rand_val)
    ∷ (codes "  Username:     " ++ m.username)
    ∷ (codes "  Timestamp:    "
        ++ (rfc3339 m.timestamp
            ++ (codes " (" ++ (format_int (unix_seconds m.timestamp) ++ codes ")"))))
    ∷ (codes "  Message Type: " ++ message_type_string m.message_type)
    ∷ (codes "  Access:       " ++ m.access)
    ∷ (line_if (not (is_empty m.nat_access)) (codes "  NAT Access:   " ++ m.nat_access)
        ++ (line_if (not (is_empty m.server_auth)) (codes "  Server Auth:  " ++ m.server_auth)
            ++ (line_if (ltb 0 m.client_timeout)
                  (codes "  Timeout:      " ++ (format_uint m.client_timeout ++ codes "s"))
                ++ ((codes "  Digest Type:  " ++ digest_type_string m.digest_type) ∷ []))))
