-- ===== src/Server/Actions/Lifecycle.antt =====
-- OpenRule and Shutdown of cmd/fwknopd/actions.go, by what they leave.
use mathlib.Core.List.{Memᴰ}
use fwknop_go.Base.{
  ◌+◌, ◌*◌, ◌+ℤ◌, nanoseconds, seconds_lem, arith, ℕ, ◌≤◌, ◌≡◌, ◌≢◌, refl, sym, ap, ◌∙◌, ◌⊎◌, inl,
  inr, Bool, true, false, some, List, [], ◌∷◌, Bytes, eqb, eqb_refl, Bool-cases, pos,
}
use fwknop_go.Map.{lookup, lookup-insert}
use fwknop_go.Server.Access.{Net}
use fwknop_go.Server.Request.{TemplateContext, rule_key}
use fwknop_go.Server.Actions.{
  Templates, Host, ActiveRule, Timer, Manager, due_time, stop, schedule_close, open_new, open_rule,
  stop_all, shutdown, Ran, after_open, after_check, absent, unrenderable, succeeded, failed,
}
use fwknop_go.Server.Actions.Tracking.{rule_of, stop_sound}

module _ {W : Type 0} (host : Host W) (cfg : Templates) (net : Net) where
  -- What the opening of a rule ends in: a scheduled closing, or an error.
  abbrev pub Ends : ℕ → TemplateContext → Manager W → Manager W × Bool → Type 0
  Ends now ctx am result =
      (w : W) × ((result ≡ (schedule_close host cfg now ctx (record am { world = w }), true))
        ⊎ (result ≡ (record am { world = w }, false)))

  after_open-Ends :
      (now : ℕ) (ctx : TemplateContext) (am : Manager W) (r : Ran W)
      → Ends now ctx am (after_open host cfg now ctx am r)
  unfolding after_open
  after_open-Ends now ctx am absent = (am.world, inl refl)
  after_open-Ends now ctx am unrenderable = (am.world, inr refl)
  after_open-Ends now ctx am (succeeded w) = (w, inl refl)
  after_open-Ends now ctx am (failed w) = (w, inr refl)

  after_check-Ends :
      (now : ℕ) (ctx : TemplateContext) (am : Manager W) (r : Ran W)
      → Ends now ctx am (after_check host cfg now ctx am r)
  unfolding after_check open_new
  after_check-Ends now ctx am absent = after_open-Ends now ctx am _
  after_check-Ends now ctx am unrenderable = (am.world, inr refl)
  after_check-Ends now ctx am (succeeded w) = (w, inl refl)
  after_check-Ends now ctx am (failed w) = after_open-Ends now ctx (record am { world = w }) _

  pub open_rule-Ends :
      (now : ℕ) (ctx : TemplateContext) (am : Manager W)
      → Ends now ctx am (open_rule host cfg now ctx am)
  unfolding open_rule
  open_rule-Ends now ctx am = after_check-Ends now ctx am _

  sum_pos : (a b : ℕ) → pos a +ℤ pos b ≡ pos (a + b)
  unfolding ◌+ℤ◌
  sum_pos a b = ground arith

  -- OpenRule on every branch, for a timeout of at most 9223372036 seconds, beyond which a duration
  -- wraps: it succeeds, and the rule is open with a timer that is due its timeout from now; or it
  -- fails, and rules and timers are what they were.
  pub open_rule_lem :
      (now n : ℕ) (ctx : TemplateContext) (am : Manager W)
      → ctx.timeout ≡ pos n
      → n ≤ 9_223_372_036
      → let (after, success) = open_rule host cfg now ctx am in
        ((success ≡ true)
          × (t : Timer) × Memᴰ t after.timers
          × (t.due ≡ pos (now + n * nanoseconds))
          × (lookup (rule_key ctx) after.active_rules ≡ some (rule_of t)))
        ⊎ ((success ≡ false) × (after.active_rules ≡ am.active_rules) × (after.timers ≡ am.timers))
  unfolding schedule_close due_time
  open_rule_lem now n ctx am e_n bound =
      let (w, ends) = open_rule-Ends now ctx am in
      let t : Timer = record { id = am.next_timer; due = due_time now ctx.timeout; ctx = ctx } in
      elim ends [
        | inr e ↦ rw e (inr (refl, refl, refl))
        | inl e ↦ rw e (
            inl (
              refl,
              t,
              Memᴰ.head refl,
              rw (e_n, seconds_lem n bound) (sum_pos now (n * nanoseconds)),
              lookup-insert (rule_key ctx) (rule_key ctx) (rule_of t) am.active_rules
                  ∙ rw (eqb_refl (rule_key ctx)) refl,
            ))
      ]

  -- Shutdown
  pub lookup_mem :
      (k : Bytes) (r : ActiveRule) (rules : List (Bytes × ActiveRule))
      → lookup k rules ≡ some r
      → (j : Bytes) × Memᴰ (j, r) rules
  unfolding lookup
  lookup_mem k r [] e = absurd (cc)
  lookup_mem k r ((j, v) ∷ rules) e = elim (Bool-cases (eqb j k)) [
    | inl same ↦ (j, Memᴰ.head (ap (λ x. (j, x)) (sym (value_eq (rw same at e)))))
    | inr other ↦ let (i, q) = lookup_mem k r rules (rw other at e) in (i, Memᴰ.tail q)
  ]
    where
      value_eq : some v ≡ some r → v ≡ r
      value_eq f = cc

  stop_all_sound :
      (t : Timer) (rules : List (Bytes × ActiveRule)) (ts : List Timer)
      → Memᴰ t (stop_all host cfg rules ts)
      → Memᴰ t ts × ((j : Bytes) (r : ActiveRule) → Memᴰ (j, r) rules → t.id ≢ r.timer)
  unfolding stop_all
  stop_all_sound t [] ts q = (q, λ j r m. elim m [ ])
  stop_all_sound t ((k, s) ∷ rules) ts q =
      let (p, apart) = stop_all_sound t rules (stop s.timer ts) q in
      let (m, d) = stop_sound s.timer t ts p in (m, others d apart)
    where
      others :
          t.id ≢ s.timer
          → ((j : Bytes) (r : ActiveRule) → Memᴰ (j, r) rules → t.id ≢ r.timer)
          → (j : Bytes) (r : ActiveRule) → Memᴰ (j, r) ((k, s) ∷ rules)
          → t.id ≢ r.timer
      others d apart j r (Memᴰ.tail q) = apart j r q
      others d apart j r (Memᴰ.head e) = λ f. d (f ∙ ap (λ x. x.1.timer) e)

  pub no_timer : (ts : List Timer) → ((t : Timer) → ¬ Memᴰ t ts) → ts ≡ []
  no_timer [] none_in = refl
  no_timer (t ∷ ts) none_in = absurd (none_in t (Memᴰ.head refl))

  -- The timers that Shutdown leaves are those of no rule that is open.
  pub shutdown_stops :
      (am : Manager W) (t : Timer)
      → Memᴰ t (shutdown host cfg am).timers
      → Memᴰ t am.timers
        × ((j : Bytes) (r : ActiveRule) → Memᴰ (j, r) am.active_rules → t.id ≢ r.timer)
  unfolding shutdown
  shutdown_stops am t q = stop_all_sound t am.active_rules am.timers q

  pub shutdown_rules : (am : Manager W) → (shutdown host cfg am).active_rules ≡ []
  unfolding shutdown
  shutdown_rules am = refl
