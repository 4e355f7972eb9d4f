-- ===== src/Client/Send.antt =====
-- cmd/fwknop/send.go: sendSPAPacket. net.Dial and the write to the connection are arguments.
use fwknop_go.Base.{
  ℤ, Bool, not, Option, none, some, Bytes, if◌then◌else◌, format_int, join_host_port,
}

-- Whether a connection to an address can be made, and whether a text can be written to it.
pub record Network : Type 0 where
  pub dials : Bytes → Bool
  pub writes : Bytes → Bytes → Bool

pub data SendError : Type 0 where
  not_connected not_written : SendError

-- `none` is success.
unfoldable pub send_spa_packet : Network → Bytes → ℤ → Bytes → Option SendError
send_spa_packet net destination port spa =
    let addr = join_host_port destination (format_int port) in
    if not (net.dials addr)
    then some not_connected
    else if net.writes addr spa
    then none
    else some not_written
