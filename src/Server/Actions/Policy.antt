-- ===== src/Server/Actions/Policy.antt =====
-- What a message may have done: commands, ports and timeouts.
use fwknop_go.Base.{
  ℕ, suc, ◌≤◌, ◌<◌, ◌≡◌, refl, ◌⊎◌, inl, inr, true, false, ◌++◌, ◌∷◌, arith, Bytes, Lacks, cut_at,
  ltb, Bool-cases, pos,
}
use fwknop_go.Spa.Message.{Message}
use fwknop_go.Spa.Validate.{is_command}
use fwknop_go.Server.Access.{AccessStanza, Net}
use fwknop_go.Server.Request.{
  build_template_context, allows_port, effective_timeout, parse_access_msg,
}
use fwknop_go.Server.Actions.{Templates, Host, Manager, dispatch_action, execute_command, open_rule}

module _ {W : Type 0} (host : Host W) (cfg : Templates) (net : Net) where
  -- A message changes nothing, or it is a command that the stanza lets run, which leaves rules and
  -- timers alone, or it is the opening of a rule for a port that the stanza allows.
  pub dispatch_action_lem :
      (now : ℕ) (m : Message) (s : AccessStanza) (src : Bytes) (am : Manager W)
      → let after = dispatch_action host cfg net now m s src am in
        let ctx = build_template_context net m src s in
        (after ≡ am)
        ⊎ ((is_command m.message_type ≡ true)
            × (s.enable_cmd_exec ≡ true)
            × (after.active_rules ≡ am.active_rules)
            × (after.timers ≡ am.timers))
        ⊎ ((is_command m.message_type ≡ false)
            × (allows_port s ctx.proto ctx.port ≡ true)
            × (after ≡ (open_rule host cfg now ctx am).0))
  unfolding dispatch_action execute_command
  dispatch_action_lem now m s src am =
      let ctx = build_template_context net m src s in
      elim (Bool-cases (is_command m.message_type)) [
        | inl command ↦ elim (Bool-cases s.enable_cmd_exec) [
          | inl on ↦ inr (inl (command, on, rw (command, on) refl, rw (command, on) refl))
          | inr off ↦ inl (rw (command, off) refl)
        ]
        | inr access ↦ elim (Bool-cases (allows_port s ctx.proto ctx.port)) [
          | inl allowed ↦ inr (inr (access, allowed, rw (access, allowed) refl))
          | inr refused ↦ inl (rw (access, refused) refl)
        ]
      ]

-- Where the stanza's maximum is positive, a timeout that the client asks for is granted up to that
-- maximum, and never less than a second; without one the rule gets the stanza's own timeout.
pub effective_timeout_lem :
    (m : Message) (s : AccessStanza) (most : ℕ)
    → s.max_access_timeout ≡ pos (suc most)
    → ((m.client_timeout ≡ 0) × (effective_timeout m s ≡ s.access_timeout))
      ⊎ ((n : ℕ) × (effective_timeout m s ≡ pos n)
          × (0 < n)
          × (n ≤ suc most)
          × (n ≤ m.client_timeout)
          × ((n ≡ suc most) ⊎ (n ≡ m.client_timeout)))
unfolding effective_timeout
effective_timeout_lem m s most e =
    let limited : ltb 0 (suc most) ≡ true = ground arith in
    elim (Bool-cases (ltb 0 m.client_timeout)) [
      | inr zero_timeout ↦ inl (ground arith, rw zero_timeout refl)
      | inl asked ↦ elim (Bool-cases (ltb (suc most) m.client_timeout)) [
        | inl over ↦ inr (
          suc most,
          rw (asked, e, limited, over) refl,
          omega arith,
          omega arith,
          ground arith,
          inl refl,
        )
        | inr fits ↦ inr (
          m.client_timeout,
          rw (asked, e, limited, fits) refl,
          ground arith,
          ground arith,
          omega arith,
          inr refl,
        )
      ]
    ]

-- The three parts of an access message are read back from it, where the address has no comma and
-- the protocol no slash.
pub parse_access_msg_lem :
    (ip proto port : Bytes)
    → Lacks b',' ip
    → Lacks b'/' proto
    → parse_access_msg (ip ++ (b',' ∷ (proto ++ (b'/' ∷ port)))) ≡ (ip, proto, port)
unfolding parse_access_msg
parse_access_msg_lem ip proto port hi hp =
    ground (arith, cut_at b',' ip (proto ++ (b'/' ∷ port)) hi, cut_at b'/' proto port hp)
