-- ===== src/Server/Daemon/Gate.antt =====
-- What the daemon promises, with no timers, commands, caches or stanzas tried: a gate that only
-- authorized messages open, each for a rule and until a deadline. A renewal does not always hold: a
-- CloseRule that is on its way shuts the key that was renewed. The times do not go back.
use mathlib.Core.List.{Memᴰ}
use fwknop_go.Base.{
  ℕ, ◌≤◌, ◌≡◌, false, Option, none, some, Bytes, ℤ, List, [], ◌∷◌, take, eqb, if◌then◌else◌, true,
}
use fwknop_go.Spa.Message.{Message}
use fwknop_go.Spa.Validate.{is_command}
use fwknop_go.Server.Access.{AccessStanza}
use fwknop_go.Server.Request.{TemplateContext, rule_key, build_template_context, allows_port}
use fwknop_go.Server.Actions.{due_time}
use fwknop_go.Server.Actions.Interleaving.{IsDue}
use fwknop_go.Server.Processing.Exits.{IsAuthorized}
use fwknop_go.Server.Daemon.{Setup, max_spa_packet_size}

-- By the keys of the rules: what each was opened for, and until when. And what was ever granted.
pub record Gate : Type 0 where
  pub opened : Bytes → Option (TemplateContext × ℤ)
  pub granted : List (TemplateContext × ℤ)

abbrev pub set :
    Bytes
    → Option (TemplateContext × ℤ)
    → (Bytes → Option (TemplateContext × ℤ))
    → Bytes
    → Option (TemplateContext × ℤ)
set k v g = λ j. if eqb k j then v else g j

abbrev pub grant : TemplateContext → ℤ → Gate → Gate
grant ctx due g = record {
  opened = set (rule_key ctx) (some (ctx, due)) g.opened;
  granted = (ctx, due) ∷ g.granted;
}

abbrev pub shut_key : Bytes → Gate → Gate
shut_key k g = record g { opened = set k none g.opened }

module _ {W : Type 0} (e : Setup W) where
  -- A rule for `ctx` may be opened now: an authorized message asks for it, from a stanza that allows
  -- its port.
  pub record IsAskedFor (now : ℕ) (ctx : TemplateContext) : Type 0 where
    pub packet : Bytes
    pub src : Bytes
    pub stanza : AccessStanza
    pub message : Message
    pub authorized :
        IsAuthorized e.hashes e.cipher e.net e.config e.stanzas now
          (take max_spa_packet_size packet)
          src
          stanza
          message
    pub no_command : is_command message.message_type ≡ false
    pub asks : ctx ≡ build_template_context e.net message (e.net.ip_string src) stanza
    pub allowed : allows_port stanza ctx.proto ctx.port ≡ true

  pub data GateStep (now : ℕ) : Gate → Gate → Type 0 where
    idles : {g : Gate} → GateStep now g g
    opens :
        {g : Gate} (ctx : TemplateContext)
        → IsAskedFor now ctx
        → GateStep now g (grant ctx (due_time now ctx.timeout) g)
    -- What was granted for a key, now or before, has run out.
    expires :
        {g : Gate} (ctx : TemplateContext) (due : ℤ)
        → Memᴰ (ctx, due) g.granted
        → IsDue now due
        → GateStep now g (shut_key (rule_key ctx) g)

  pub data GateReachable : ℕ → Gate → Type 0 where
    shut : (now : ℕ) → GateReachable now (record { opened = λ k. none; granted = [] })
    moves :
        {before now : ℕ} {g g' : Gate}
        → GateReachable before g
        → before ≤ now
        → GateStep now g g'
        → GateReachable now g'
