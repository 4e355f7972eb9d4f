-- ===== src/Server/Actions/Races.antt =====
-- Rules whose closing messages and other timers come between.
use mathlib.Core.List.{Memᴰ}
use fwknop_go.Base.{
  ℕ, ◌<◌, ◌≡◌, ◌≢◌, refl, ap, ◌∙◌, ◌⊎◌, inl, inr, true, none, some, List, [], ◌∷◌, arith, Bytes,
  eqb, eqb_refl, Bool-cases,
}
use fwknop_go.Spa.Message.{Message}
use fwknop_go.Spa.Validate.{is_command}
use fwknop_go.Map.{lookup, insert, delete, lookup-delete}
use fwknop_go.Server.Access.{AccessStanza, Net}
use fwknop_go.Server.Request.{TemplateContext, rule_key, build_template_context, allows_port}
use fwknop_go.Server.Actions.{
  Templates, Host, ActiveRule, Timer, Manager, due_time, stop, schedule_close, open_rule,
  dispatch_action, execute_command, stop_all, shutdown, begin_close, run_close, forget,
}
use fwknop_go.Server.Actions.Tracking.{rule_of, IsTimed, stop-keeps}
use fwknop_go.Server.Actions.Lifecycle.{open_rule-Ends}
use fwknop_go.Server.Actions.Interleaving.{
  Takes, IsClosing, CloseStep, begins, runs, forgets, Step, dispatches, closes, Reachable, starts,
  steps,
}
use fwknop_go.Server.Actions.Pending.{
  IsCovered, schedule-IsCovered, begin-IsCovered, run-IsCovered, forget-IsCovered,
}

module _ {W : Type 0} (host : Host W) (cfg : Templates) (net : Net) where
  abbrev pub Covered : Manager W → Type 0
  Covered c = IsCovered c.active_rules c.timers c.next_timer c.fired c.closed

  open_rule-Covered :
      (now : ℕ) (ctx : TemplateContext) (c : Manager W)
      → Covered c
      → Covered (open_rule host cfg now ctx c).0
  unfolding schedule_close
  open_rule-Covered now ctx c i =
      let (w, ends) = open_rule-Ends host cfg net now ctx c in
      elim ends [
        | inl e ↦ rw e (
            schedule-IsCovered c.active_rules c.timers c.next_timer c.fired c.closed i
              (due_time now ctx.timeout) ctx)
        | inr e ↦ rw e i
      ]

  dispatch-Covered :
      (now : ℕ) (m : Message) (s : AccessStanza) (src : Bytes) (c : Manager W)
      → Covered c
      → Covered (dispatch_action host cfg net now m s src c)
  unfolding dispatch_action execute_command
  dispatch-Covered now m s src c i =
      let ctx = build_template_context net m src s in
      elim (Bool-cases (is_command m.message_type)) [
        | inl command ↦ elim (Bool-cases s.enable_cmd_exec) [
          | inl on ↦ rw (command, on) i
          | inr off ↦ rw (command, off) i
        ]
        | inr access ↦ elim (Bool-cases (allows_port s ctx.proto ctx.port)) [
          | inl allowed ↦ rw (access, allowed) (open_rule-Covered now ctx c i)
          | inr refused ↦ rw (access, refused) i
        ]
      ]

  pub CloseStep-Covered :
      {now : ℕ} {c c' : Manager W} → CloseStep host cfg net now c c' → Covered c → Covered c'
  unfolding begin_close run_close forget
  CloseStep-Covered (begins {am = c} t m due) i = begin-IsCovered _ _ _ _ _ i t m
  CloseStep-Covered (runs {am = c} ctx fired taken) i = run-IsCovered _ _ _ _ _ i ctx fired taken
  CloseStep-Covered (forgets {am = c} ctx closed taken) i =
      forget-IsCovered _ _ _ _ _ i ctx closed taken

  Step-Covered : {c c' : Manager W} → Step host cfg net c c' → Covered c → Covered c'
  Step-Covered (dispatches {am = c} now m s src) i = dispatch-Covered now m s src c i
  Step-Covered (closes s) i = CloseStep-Covered s i

  pub Reachable-Covered : (c : Manager W) → Reachable host cfg net c → Covered c
  unfolding lookup
  Reachable-Covered c (starts w) = record {
    covered = λ k r e. absurd (cc);
    apart = λ j k r s e f h. absurd (cc);
    numbered = λ k r e. absurd (cc);
    known = λ t q. elim q [ ];
    unique = λ t u q p h. elim q [ ];
  }
  Reachable-Covered c (steps {am = before} r s) = Step-Covered s (Reachable-Covered before r)

  -- However messages, timers, close commands and deletions interleave, no rule stays open for good:
  -- every open rule has its timer running, or a CloseRule of its key is on its way.
  pub no_rule_left :
      (c : Manager W) (k : Bytes) (r : ActiveRule)
      → Reachable host cfg net c
      → lookup k c.active_rules ≡ some r
      → IsTimed r c.timers ⊎ IsClosing k c.fired c.closed
  no_rule_left c k r reach e = ((Reachable-Covered c reach).covered k r e).1

  -- Entries of the map, shadowed or not.
  below :
      (p q : Bytes × ActiveRule) (m n : List (Bytes × ActiveRule))
      → (Memᴰ p n → Memᴰ p m)
      → Memᴰ p (q ∷ n)
      → Memᴰ p (q ∷ m)
  below p q m n f (Memᴰ.head e) = Memᴰ.head e
  below p q m n f (Memᴰ.tail r) = Memᴰ.tail (f r)

  Mem-delete :
      (k : Bytes) (p : Bytes × ActiveRule) (m : List (Bytes × ActiveRule))
      → Memᴰ p (delete k m)
      → Memᴰ p m
  unfolding delete
  Mem-delete k p [] q = q
  Mem-delete k p ((j, v) ∷ m) q = elim (Bool-cases (eqb j k)) [
    | inl same ↦ Memᴰ.tail (Mem-delete k p m (rw same at q))
    | inr other ↦ below p (j, v) m (delete k m) (Mem-delete k p m) (rw other at q)
  ]

  -- The numbers of all entries are below the next one.
  abbrev Numbered : Manager W → Type 0
  Numbered am = (p : Bytes × ActiveRule) → Memᴰ p am.active_rules → p.1.timer < am.next_timer

  scheduled-Numbered :
      (now : ℕ) (ctx : TemplateContext) (am : Manager W)
      → Numbered am
      → Numbered (schedule_close host cfg now ctx am)
  unfolding schedule_close insert
  scheduled-Numbered now ctx am i p (Memᴰ.head e) =
      let same : p.1.timer ≡ am.next_timer = ap (λ x. x.1.timer) e in omega arith
  scheduled-Numbered now ctx am i p (Memᴰ.tail q) =
      omega (arith, i p (Mem-delete (rule_key ctx) p am.active_rules q))

  dispatch-Numbered :
      (now : ℕ) (m : Message) (s : AccessStanza) (src : Bytes) (am : Manager W)
      → Numbered am
      → Numbered (dispatch_action host cfg net now m s src am)
  unfolding dispatch_action execute_command
  dispatch-Numbered now m s src am i =
      let ctx = build_template_context net m src s in
      elim (Bool-cases (is_command m.message_type)) [
        | inl command ↦ elim (Bool-cases s.enable_cmd_exec) [
          | inl on ↦ rw (command, on) i
          | inr off ↦ rw (command, off) i
        ]
        | inr access ↦ elim (Bool-cases (allows_port s ctx.proto ctx.port)) [
          | inr refused ↦ rw (access, refused) i
          | inl allowed ↦
              let (w, ends) = open_rule-Ends host cfg net now ctx am in
              elim ends [
                | inl e ↦
                    rw (access, allowed, e) (scheduled-Numbered now ctx (record am { world = w }) i)
                | inr e ↦ rw (access, allowed, e) i
              ]
        ]
      ]

  CloseStep-Numbered :
      {now : ℕ} {c c' : Manager W} → CloseStep host cfg net now c c' → Numbered c → Numbered c'
  unfolding begin_close run_close forget
  CloseStep-Numbered (begins t m due) i = i
  CloseStep-Numbered (runs ctx fired taken) i = i
  CloseStep-Numbered (forgets {am = c} ctx closed taken) i =
      λ p q. i p (Mem-delete (rule_key ctx) p c.active_rules q)

  Reachable-Numbered : (c : Manager W) → Reachable host cfg net c → Numbered c
  Reachable-Numbered c (starts w) = λ p q. elim q [ ]
  Reachable-Numbered c (steps {am = before} r (dispatches now m s src)) =
      dispatch-Numbered now m s src before (Reachable-Numbered before r)
  Reachable-Numbered c (steps {am = before} r (closes s)) =
      CloseStep-Numbered s (Reachable-Numbered before r)

  stop_all-keeps :
      (t : Timer) (rules : List (Bytes × ActiveRule)) (ts : List Timer)
      → Memᴰ t ts
      → ((p : Bytes × ActiveRule) → Memᴰ p rules → t.id ≢ p.1.timer)
      → Memᴰ t (stop_all host cfg rules ts)
  unfolding stop_all
  stop_all-keeps t [] ts m d = m
  stop_all-keeps t ((k, r) ∷ rules) ts m d =
      stop_all-keeps t rules (stop r.timer ts)
        (stop-keeps r.timer t ts m (d (k, r) (Memᴰ.head refl))) (λ p q. d p (Memᴰ.tail q))

  -- The entry that was scheduled is deleted, and Shutdown does not stop its timer.
  abbrev pub IsLost : ℕ → TemplateContext → Manager W → Type 0
  IsLost now ctx am =
      (lookup (rule_key ctx) am.active_rules ≡ none)
      × (t : Timer) × (t.ctx ≡ ctx)
      × (t.due ≡ due_time now ctx.timeout)
      × Memᴰ t am.timers
      × Memᴰ t (shutdown host cfg am).timers

  abbrev deleted : Bytes → Manager W → Manager W
  deleted k am = record am { active_rules = delete k am.active_rules }

  scheduled-IsLost :
      (now : ℕ) (ctx : TemplateContext) (am : Manager W)
      → Numbered am
      → IsLost now ctx (deleted (rule_key ctx) (schedule_close host cfg now ctx am))
  unfolding schedule_close insert delete shutdown
  scheduled-IsLost now ctx am i =
      let k = rule_key ctx in
      let t : Timer = record { id = am.next_timer; due = due_time now ctx.timeout; ctx = ctx } in
      (
        lookup-delete k k (insert k (rule_of t) am.active_rules) ∙ rw (eqb_refl k) refl,
        t,
        refl,
        refl,
        Memᴰ.head refl,
        rw (eqb_refl k) (
            stop_all-keeps t (delete k (delete k am.active_rules)) _ (Memᴰ.head refl) (λ p q f.
              omega (
                arith,
                i p (Mem-delete k p am.active_rules (Mem-delete k p (delete k am.active_rules) q)),
              ))),
      )

  -- When a CloseRule of the key waits for the lock while OpenRule, for a rule of that key, succeeds,
  -- and then takes it, the new rule is lost: no entry of the map has its key, but its timer runs on,
  -- and Shutdown does not stop that timer.
  pub renewal-IsLost :
      (c : Manager W) (now : ℕ) (old ctx : TemplateContext) (closed : List TemplateContext)
      → Reachable host cfg net c
      → Takes old c.closed closed
      → rule_key old ≡ rule_key ctx
      → (open_rule host cfg now ctx c).1 ≡ true
      → IsLost now ctx (forget host cfg old closed (open_rule host cfg now ctx c).0)
  unfolding forget schedule_close shutdown
  renewal-IsLost c now old ctx closed reach taken key success =
      let (w, ends) = open_rule-Ends host cfg net now ctx c in
      elim ends [
        | inl e ↦
            rw (key, e)
              (scheduled-IsLost now ctx (record c { world = w }) (Reachable-Numbered c reach))
        | inr e ↦ absurd (cc)
      ]
