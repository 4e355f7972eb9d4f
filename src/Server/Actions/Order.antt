-- ===== src/Server/Actions/Order.antt =====
-- Rules and timers of cmd/fwknopd/actions.go where no message asks for a rule while a CloseRule of its
-- key is on its way.
use mathlib.Core.List.{Memᴰ}
use fwknop_go.Base.{
  ℕ, ◌≡◌, refl, sym, ap, ◌∙◌, ◌⊎◌, inl, inr, some, List, [], ◌∷◌, Bytes, eqb, eqb_iff, eqb_refl,
  Bool-cases, ℤ,
}
use fwknop_go.Spa.Message.{Message}
use fwknop_go.Spa.Validate.{is_command}
use fwknop_go.Map.{lookup, insert, delete, lookup-insert, lookup-delete}
use fwknop_go.Server.Access.{AccessStanza, Net}
use fwknop_go.Server.Request.{TemplateContext, rule_key, build_template_context, allows_port}
use fwknop_go.Server.Actions.{
  Templates, Host, ActiveRule, Timer, Manager, due_time, stop, stop_existing, schedule_close,
  open_rule, dispatch_action, execute_command, begin_close, run_close, forget, shutdown,
}
use fwknop_go.Server.Actions.Tracking.{rule_of, IsTimed, stop_sound, same_value, left_mem}
use fwknop_go.Server.Actions.Lifecycle.{open_rule-Ends, shutdown_stops, lookup_mem, no_timer}
use fwknop_go.Server.Actions.Interleaving.{
  Takes, IsClosing, CloseStep, begins, runs, forgets, Orderly, fresh, asks, goes, Orderly-Reachable,
}
use fwknop_go.Server.Actions.Pending.{Takes-in, Takes-rest}
use fwknop_go.Server.Actions.Races.{Reachable-Covered}

-- Every running timer is that of the open rule of its key, and no CloseRule of that key is on its
-- way.
pub record IsOwned (rules : List (Bytes × ActiveRule)) (timers : List Timer)
    (fired closed : List TemplateContext) : Type 0 where
  pub tracked : (t : Timer) → Memᴰ t timers → lookup (rule_key t.ctx) rules ≡ some (rule_of t)
  pub free : (t : Timer) → Memᴰ t timers → ¬ IsClosing (rule_key t.ctx) fired closed

module _ (rules : List (Bytes × ActiveRule)) (ts : List Timer) (fired closed : List TemplateContext)
    (i : IsOwned rules ts fired closed) where
  -- The timer of the key is not left.
  left_same : (t : Timer) → ¬ Memᴰ t (stop_existing (lookup (rule_key t.ctx) rules) ts)
  left_same t q =
      let m = left_mem (lookup (rule_key t.ctx) rules) t ts q in
      let q' : Memᴰ t (stop t.id ts) = rw (i.tracked t m) at q in (stop_sound t.id t ts q').1 refl

  module _ (next : ℕ) (due : ℤ) (ctx : TemplateContext)
      (quiet : ¬ IsClosing (rule_key ctx) fired closed) where
    abbrev new_timer : Timer
    new_timer = record { id = next; due = due; ctx = ctx }

    abbrev new_rules : List (Bytes × ActiveRule)
    new_rules = insert (rule_key ctx) (rule_of new_timer) rules

    abbrev new_timers : List Timer
    new_timers = new_timer ∷ stop_existing (lookup (rule_key ctx) rules) ts

    new_tracked :
        (t : Timer) → Memᴰ t new_timers → lookup (rule_key t.ctx) new_rules ≡ some (rule_of t)
    new_tracked t (Memᴰ.head e) = rw e (
        lookup-insert (rule_key ctx) (rule_key ctx) (rule_of new_timer) rules
        ∙ rw (eqb_refl (rule_key ctx)) refl)
    new_tracked t (Memᴰ.tail q) = elim (Bool-cases (eqb (rule_key ctx) (rule_key t.ctx))) [
      | inl same ↦ absurd (left_same t (rw (← (eqb_iff (rule_key ctx) (rule_key t.ctx)).0 same) q))
      | inr other ↦
          lookup-insert (rule_key ctx) (rule_key t.ctx) (rule_of new_timer) rules
          ∙ rw other (i.tracked t (left_mem (lookup (rule_key ctx) rules) t ts q))
    ]

    new_free : (t : Timer) → Memᴰ t new_timers → ¬ IsClosing (rule_key t.ctx) fired closed
    new_free t (Memᴰ.head e) = rw e quiet
    new_free t (Memᴰ.tail q) = i.free t (left_mem (lookup (rule_key ctx) rules) t ts q)

    pub schedule-IsOwned : IsOwned new_rules new_timers fired closed
    schedule-IsOwned = record { tracked = new_tracked; free = new_free }

  -- Two running timers of one key are the same.
  same_id : (t u : Timer) → Memᴰ t ts → Memᴰ u ts → rule_key t.ctx ≡ rule_key u.ctx → u.id ≡ t.id
  same_id t u mt mu e =
      ap (λ x. x.timer)
        (same_value (sym (i.tracked u mu) ∙ ap (λ k. lookup k rules) (sym e) ∙ i.tracked t mt))

  begun_free :
      (t : Timer)
      → Memᴰ t ts
      → (u : Timer) → Memᴰ u (stop t.id ts)
      → ¬ IsClosing (rule_key u.ctx) (t.ctx ∷ fired) closed
  begun_free t m u q (ctx, inr there, key) =
      i.free u (stop_sound t.id u ts q).0 (ctx, inr there, key)
  begun_free t m u q (ctx, inl (Memᴰ.tail there), key) =
      i.free u (stop_sound t.id u ts q).0 (ctx, inl there, key)
  begun_free t m u q (ctx, inl (Memᴰ.head e), key) =
      let (mu, apart) = stop_sound t.id u ts q in
      apart (same_id t u m mu (ap rule_key (sym e) ∙ key))

  pub begin-IsOwned : (t : Timer) → Memᴰ t ts → IsOwned rules (stop t.id ts) (t.ctx ∷ fired) closed
  begin-IsOwned t m = record {
    tracked = λ u q. i.tracked u (stop_sound t.id u ts q).0;
    free = begun_free t m;
  }

  ran-IsClosing :
      (ctx : TemplateContext) (rest : List TemplateContext) (k : Bytes)
      → Takes ctx fired rest
      → IsClosing k rest (ctx ∷ closed)
      → IsClosing k fired closed
  ran-IsClosing ctx rest k taken (c, inl q, key) = (c, inl (Takes-rest taken q), key)
  ran-IsClosing ctx rest k taken (c, inr (Memᴰ.tail q), key) = (c, inr q, key)
  ran-IsClosing ctx rest k taken (c, inr (Memᴰ.head e), key) =
      (ctx, inl (Takes-in taken), ap rule_key (sym e) ∙ key)

  pub run-IsOwned :
      (ctx : TemplateContext) (rest : List TemplateContext)
      → Takes ctx fired rest
      → IsOwned rules ts rest (ctx ∷ closed)
  run-IsOwned ctx rest taken = record {
    tracked = i.tracked;
    free = λ t m q. i.free t m (ran-IsClosing ctx rest (rule_key t.ctx) taken q);
  }

  left-IsClosing :
      (ctx : TemplateContext) (rest : List TemplateContext) (k : Bytes)
      → Takes ctx closed rest
      → IsClosing k fired rest
      → IsClosing k fired closed
  left-IsClosing ctx rest k taken (c, inl q, key) = (c, inl q, key)
  left-IsClosing ctx rest k taken (c, inr q, key) = (c, inr (Takes-rest taken q), key)

  pub forget-IsOwned :
      (ctx : TemplateContext) (rest : List TemplateContext)
      → Takes ctx closed rest
      → IsOwned (delete (rule_key ctx) rules) ts fired rest
  forget-IsOwned ctx rest taken = record {
    tracked = λ t m.
        lookup-delete (rule_key ctx) (rule_key t.ctx) rules
        ∙ elim (Bool-cases (eqb (rule_key ctx) (rule_key t.ctx))) [
          | inl same ↦ absurd (
              i.free t m
                (ctx, inr (Takes-in taken), (eqb_iff (rule_key ctx) (rule_key t.ctx)).0 same))
          | inr other ↦ rw other (i.tracked t m)
        ];
    free = λ t m q. i.free t m (left-IsClosing ctx rest (rule_key t.ctx) taken q);
  }

module _ {W : Type 0} (host : Host W) (cfg : Templates) (net : Net) where
  abbrev Owned : Manager W → Type 0
  Owned am = IsOwned am.active_rules am.timers am.fired am.closed

  open_rule-Owned :
      (now : ℕ) (ctx : TemplateContext) (am : Manager W)
      → Owned am
      → ¬ IsClosing (rule_key ctx) am.fired am.closed
      → Owned (open_rule host cfg now ctx am).0
  unfolding schedule_close
  open_rule-Owned now ctx am i quiet =
      let (w, ends) = open_rule-Ends host cfg net now ctx am in
      elim ends [
        | inl e ↦ rw e (
            schedule-IsOwned am.active_rules am.timers am.fired am.closed i am.next_timer
              (due_time now ctx.timeout) ctx quiet)
        | inr e ↦ rw e i
      ]

  dispatch-Owned :
      (now : ℕ) (m : Message) (s : AccessStanza) (src : Bytes) (am : Manager W)
      → Owned am
      → ¬ IsClosing (rule_key (build_template_context net m src s)) am.fired am.closed
      → Owned (dispatch_action host cfg net now m s src am)
  unfolding dispatch_action execute_command
  dispatch-Owned now m s src am i quiet =
      let ctx = build_template_context net m src s in
      elim (Bool-cases (is_command m.message_type)) [
        | inl command ↦ elim (Bool-cases s.enable_cmd_exec) [
          | inl on ↦ rw (command, on) i
          | inr off ↦ rw (command, off) i
        ]
        | inr access ↦ elim (Bool-cases (allows_port s ctx.proto ctx.port)) [
          | inl allowed ↦ rw (access, allowed) (open_rule-Owned now ctx am i quiet)
          | inr refused ↦ rw (access, refused) i
        ]
      ]

  CloseStep-Owned :
      {now : ℕ} {am am' : Manager W} → CloseStep host cfg net now am am' → Owned am → Owned am'
  unfolding begin_close run_close forget
  CloseStep-Owned (begins {am} t m due) i = begin-IsOwned _ _ _ _ i t m
  CloseStep-Owned (runs {am} ctx fired taken) i = run-IsOwned _ _ _ _ i ctx fired taken
  CloseStep-Owned (forgets {am} ctx closed taken) i = forget-IsOwned _ _ _ _ i ctx closed taken

  Orderly-Owned : (am : Manager W) → Orderly host cfg net am → Owned am
  Orderly-Owned am (fresh w) = record { tracked = λ t q. elim q [ ]; free = λ t q. elim q [ ] }
  Orderly-Owned am (asks {am = before} now m s src o quiet) =
      dispatch-Owned now m s src before (Orderly-Owned before o) quiet
  Orderly-Owned am (goes {am = before} o s) = CloseStep-Owned s (Orderly-Owned before o)

  -- However messages and timers come, as long as no message asks for a rule while a CloseRule of its
  -- key is on its way: every open rule has its timer running or such a CloseRule, and every running
  -- timer is that of the open rule of its key.
  pub Orderly-rules :
      (am : Manager W)
      → Orderly host cfg net am
      → ((k : Bytes) (r : ActiveRule)
          → lookup k am.active_rules ≡ some r
          → IsTimed r am.timers ⊎ IsClosing k am.fired am.closed)
        × ((t : Timer)
            → Memᴰ t am.timers
            → lookup (rule_key t.ctx) am.active_rules ≡ some (rule_of t))
  Orderly-rules am o = (
    λ k r e.
        ((Reachable-Covered host cfg net am (Orderly-Reachable host cfg net am o)).covered k r e).1,
    (Orderly-Owned am o).tracked,
  )

  -- Shutdown of a manager, if no message asked for a rule while a CloseRule of its key was on its way,
  -- leaves no rule behind and no running timer.
  pub shutdown_quiet :
      (am : Manager W)
      → Orderly host cfg net am
      → ((shutdown host cfg am).active_rules ≡ []) × ((shutdown host cfg am).timers ≡ [])
  unfolding shutdown
  shutdown_quiet am o = (
    refl,
    no_timer host cfg net _ (λ t q.
        let (m, apart) = shutdown_stops host cfg net am t q in
        let (j, there) =
          lookup_mem host cfg net (rule_key t.ctx) (rule_of t) am.active_rules
            ((Orderly-Owned am o).tracked t m) in
        apart j (rule_of t) there refl),
  )
