-- ===== src/Server/Request.antt =====
-- cmd/fwknopd/actions.go: what a message asks for, as the data that the templates see.
use fwknop_go.Base.{
  ℕ, ℤ, pos, negsuc, Bool, true, false, ◌&&◌, ◌||◌, none, some, List, [], ◌∷◌, ◌++◌, Bytes,
  replicate, ltb, eqb, if◌then◌else◌, unix_seconds, cut, equal_fold,
}
use fwknop_go.Spa.Message.{Message}
use fwknop_go.Server.Access.{AccessStanza, Net, v4_in_v6_prefix}

pub record TemplateContext : Type 0 where
  pub source_ip : Bytes
  pub proto : Bytes
  pub port : Bytes
  pub username : Bytes
  pub timestamp : ℤ
  pub timeout : ℤ
  pub access_msg : Bytes
  pub nat_access : Bytes

-- "IP,proto/port"
unfoldable pub parse_access_msg : Bytes → Bytes × Bytes × Bytes
parse_access_msg msg = elim (cut b',' msg) [
  | none ↦ ([], [], [])
  | some (ip, proto_port) ↦ elim (cut b'/' proto_port) [
    | none ↦ (ip, proto_port, [])
    | some (proto, port) ↦ (ip, proto, port)
  ]
]

abbrev capped : ℤ → ℕ → ℤ
capped (pos most) ct = if ltb 0 most && ltb most ct then pos most else pos ct
capped (negsuc n) ct = pos ct

unfoldable pub effective_timeout : Message → AccessStanza → ℤ
effective_timeout m s =
    if ltb 0 m.client_timeout
    then capped s.max_access_timeout m.client_timeout
    else s.access_timeout

abbrev any_equal_fold : List Bytes → Bytes → Bool
any_equal_fold [] requested = false
any_equal_fold (p ∷ ps) requested = equal_fold p requested || any_equal_fold ps requested

-- An empty list allows all ports.
abbrev pub allows_port : AccessStanza → Bytes → Bytes → Bool
allows_port s proto port = elim s.open_ports [
  | [] ↦ true
  | p ∷ ps ↦ any_equal_fold (p ∷ ps) (proto ++ (b'/' ∷ port))
]

-- IP.IsUnspecified
abbrev is_unspecified : Bytes → Bool
is_unspecified ip = eqb ip (v4_in_v6_prefix ++ replicate 4 0) || eqb ip (replicate 16 0)

abbrev or_source : Net → Bytes → Bytes → Bytes
or_source net ip src = elim (net.parse_ip ip) [
  | none ↦ ip
  | some parsed ↦ if is_unspecified parsed then src else ip
]

unfoldable pub build_template_context : Net → Message → Bytes → AccessStanza → TemplateContext
unfolding parse_access_msg effective_timeout
build_template_context net m src s =
    let (ip, proto, port) = parse_access_msg m.access in
    record {
      source_ip = or_source net ip src;
      proto = proto;
      port = port;
      username = m.username;
      timestamp = unix_seconds m.timestamp;
      timeout = effective_timeout m s;
      access_msg = m.access;
      nat_access = m.nat_access;
    }

unfoldable pub rule_key : TemplateContext → Bytes
rule_key ctx = ctx.source_ip ++ (b'/' ∷ (ctx.proto ++ (b'/' ∷ ctx.port)))
