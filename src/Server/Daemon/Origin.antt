-- ===== src/Server/Daemon/Origin.antt =====
-- Where the open rules of the daemon come from.
use mathlib.Core.Path.{subst}
use fwknop_go.Base.{
  ℕ, ◌≡◌, sym, ap, ◌∙◌, inl, inr, ◌⊎◌, Option, some, Bytes, ℤ, eqb, eqb_iff, Bool-cases, List,
}
use fwknop_go.Map.{lookup}
use fwknop_go.Server.Request.{TemplateContext, rule_key}
use fwknop_go.Server.Actions.{ActiveRule, due_time}
use fwknop_go.Server.Actions.Tracking.{same_value}
use fwknop_go.Server.Actions.Interleaving.{IsClosing}
use fwknop_go.Server.Daemon.{Setup, Daemon, Read, Reachable, udp_server}
use fwknop_go.Server.Daemon.Loop.{AreTimed, udp_server-Reachable}
use fwknop_go.Server.Daemon.Gate.{
  Gate, IsAskedFor, idles, opens, expires, GateReachable, shut, moves,
}
use fwknop_go.Server.Daemon.Refinement.{IsRunning, daemon_refines_gate}

module _ {W : Type 0} (e : Setup W) where
  -- A message asked for what is open, and its timeout runs from then.
  abbrev IsOpened : Bytes → TemplateContext → ℤ → Type 0
  IsOpened k ctx due =
      (now : ℕ) × IsAskedFor e now ctx × (k ≡ rule_key ctx) × (due ≡ due_time now ctx.timeout)

  same_pair :
      {c d : TemplateContext} {x y : ℤ}
      → ◌≡◌ {A = Option (TemplateContext × ℤ)} (some (c, x)) (some (d, y))
      → (c ≡ d) × (x ≡ y)
  same_pair {c} {d} {x} {y} f = let p : c ≡ d = cc in let q : x ≡ y = cc in (p, q)

  gate-IsOpened :
      {at : ℕ} (g : Gate) (k : Bytes) (ctx : TemplateContext) (due : ℤ)
      → GateReachable e at g
      → g.opened k ≡ some (ctx, due)
      → IsOpened k ctx due
  gate-IsOpened g k ctx due (shut now) f = absurd (cc)
  gate-IsOpened g k ctx due (moves {g = before} r later idles) f =
      gate-IsOpened before k ctx due r f
  gate-IsOpened g k ctx due (moves {now = now} {g = before} r later (opens new asked)) f =
      elim (Bool-cases (eqb (rule_key new) k)) [
        | inl same ↦
            let (c, d) = same_pair (rw same at f) in
            (
              now,
              rw (← c) asked,
              sym ((eqb_iff (rule_key new) k).0 same) ∙ ap rule_key c,
              sym d ∙ ap (λ x. due_time now x.timeout) c,
            )
        | inr other ↦ gate-IsOpened before k ctx due r (rw other at f)
      ]
  gate-IsOpened g k ctx due (moves {g = before} r later (expires old past there over)) f =
      elim (Bool-cases (eqb (rule_key old) k)) [
        | inl same ↦ absurd (cc (rw same at f))
        | inr other ↦ gate-IsOpened before k ctx due r (rw other at f)
      ]

  -- Whatever the loop reads, datagrams in the order of their times, and whatever happened before, every rule that is open then was asked
  -- for by an authorized message that is no command, from a stanza that allows its port; and its
  -- timer runs, which is due once its timeout, as a duration of 64 bits, from then is over, or a
  -- CloseRule of its key is on its way.
  pub open_rule-IsAskedFor :
      (start : ℕ) (reads : List Read) (d : Daemon W) (k : Bytes) (r : ActiveRule)
      → Reachable e start d
      → AreTimed start reads
      → lookup k (udp_server e reads d).0.am.active_rules ≡ some r
      → let am = (udp_server e reads d).0.am in
        (now : ℕ) × IsAskedFor e now r.ctx
        × (k ≡ rule_key r.ctx)
        × (IsRunning r (due_time now r.ctx.timeout) am.timers ⊎ IsClosing k am.fired am.closed)
  open_rule-IsAskedFor start reads d k r reach timed f =
      let (end, reached) = udp_server-Reachable e start reads d reach timed in
      let (g, gate, shows) = daemon_refines_gate e end (udp_server e reads d).0 reached in
      elim (shows.at_key k) [
        | inl (closed, free) ↦ absurd (cc (f, free))
        | inr (s, due, mine, open_now, held) ↦
            let (now, asked, key, due_is) = gate-IsOpened g k s.ctx due gate open_now in
            let r_is : s ≡ r = same_value (sym mine ∙ f) in
            rw (← r_is) (
              now,
              asked,
              key,
              subst
                  (λ x.
                    IsRunning s x (udp_server e reads d).0.am.timers
                    ⊎ IsClosing k (udp_server e reads d).0.am.fired
                        (udp_server e reads d).0.am.closed)
                  due_is held,
            )
      ]
