-- ===== src/Server/Daemon/Refinement.antt =====
-- The daemon does what the gate promises.
use mathlib.Core.List.{Memᴰ}
use fwknop_go.Base.{
  ℕ, ℤ, pos, negsuc, ◌≤◌, arith, ◌≡◌, ◌≢◌, refl, sym, ap, ◌∙◌, ◌⊎◌, inl, inr, none, some, List, [],
  ◌∷◌, Bytes, take, eqb, eqb_iff, ◌==◌, ==_iff, Bool-cases,
}
use fwknop_go.Spa.Message.{Message}
use fwknop_go.Spa.Validate.{is_command}
use fwknop_go.Map.{lookup, lookup-insert, lookup-delete}
use fwknop_go.Server.Access.{AccessStanza}
use fwknop_go.Server.Request.{TemplateContext, rule_key, build_template_context, allows_port}
use fwknop_go.Server.Processing.{
  Outcome, no_matching_stanza, too_old, replayed, wrong_username, wrong_source, test_mode,
  dispatched, process_spa_packet,
}
use fwknop_go.Server.Processing.Exits.{IsAuthorized, dispatched-IsAuthorized}
use fwknop_go.Server.Actions.{
  ActiveRule, Timer, Manager, due_time, dispatch_action, execute_command, schedule_close, open_rule,
  begin_close, run_close, forget, stop, stop_existing,
}
use fwknop_go.Server.Actions.Tracking.{rule_of, lookup_other, stop-keeps, stop_sound, left_mem}
use fwknop_go.Server.Actions.Lifecycle.{open_rule-Ends}
use fwknop_go.Server.Actions.Interleaving as Interleaving
use fwknop_go.Server.Actions.Interleaving.{
  IsDue, IsClosing, Takes, CloseStep, begins, runs, forgets,
}
use fwknop_go.Server.Actions.Pending.{Takes-in, Takes-out, Takes-rest, kept_timer}
use fwknop_go.Server.Actions.Races.{Covered, Reachable-Covered}
use fwknop_go.Server.Daemon.{
  Setup, Daemon, act, receive, receives, purges, closes, Reachable, starts, steps,
  max_spa_packet_size,
}
use fwknop_go.Server.Daemon.Gate.{
  Gate, grant, shut_key, IsAskedFor, GateStep, idles, opens, expires, GateReachable, shut, moves,
}

-- The timer that closes a rule is running, and due when the gate says.
abbrev pub IsRunning : ActiveRule → ℤ → List Timer → Type 0
IsRunning r due ts = (t : Timer) × Memᴰ t ts × (r ≡ rule_of t) × (t.due ≡ due)

-- A key is shut in the gate and has no rule, or it is open in both, with the timer of the rule due
-- when the gate says, or with a CloseRule of the key on its way.
abbrev pub ShowsAt : {W : Type 0} → Manager W → Gate → Bytes → Type 0
ShowsAt am g k =
    ((g.opened k ≡ none) × (lookup k am.active_rules ≡ none))
    ⊎ ((r : ActiveRule) × (due : ℤ) × (lookup k am.active_rules ≡ some r)
        × (g.opened k ≡ some (r.ctx, due))
        × (IsRunning r due am.timers ⊎ IsClosing k am.fired am.closed))

-- A deadline that was granted for the context has passed.
abbrev pub IsOver : ℕ → TemplateContext → Gate → Type 0
IsOver now ctx g = (due : ℤ) × Memᴰ (ctx, due) g.granted × IsDue now due

pub record Shows {W : Type 0} (now : ℕ) (am : Manager W) (g : Gate) : Type 0 where
  pub at_key : (k : Bytes) → ShowsAt am g k
  -- Every running timer is due when the gate granted it.
  pub timers : (t : Timer) → Memᴰ t am.timers → Memᴰ (t.ctx, t.due) g.granted
  -- Every CloseRule that is on its way is one whose deadline has passed.
  pub fired : (ctx : TemplateContext) → Memᴰ ctx am.fired → IsOver now ctx g
  pub closed : (ctx : TemplateContext) → Memᴰ ctx am.closed → IsOver now ctx g

module _ {W : Type 0} (e : Setup W) where
  -- The manager of a reachable daemon is a reachable manager.
  act-Reachable :
      (now : ℕ) (src : Bytes) (o : Outcome) (am : Manager W)
      → Interleaving.Reachable e.host e.templates e.net am
      → Interleaving.Reachable e.host e.templates e.net (act e now src o am)
  unfolding act
  act-Reachable now src (dispatched i s m) am r =
      Interleaving.steps r (Interleaving.dispatches now m s (e.net.ip_string src))
  act-Reachable now src no_matching_stanza am r = r
  act-Reachable now src (too_old i) am r = r
  act-Reachable now src (replayed i) am r = r
  act-Reachable now src (wrong_username i) am r = r
  act-Reachable now src (wrong_source i) am r = r
  act-Reachable now src (test_mode i) am r = r

  pub manager-Reachable :
      {now : ℕ} (d : Daemon W)
      → Reachable e now d
      → Interleaving.Reachable e.host e.templates e.net d.am
  unfolding receive
  manager-Reachable d (starts now rc w) = Interleaving.starts w
  manager-Reachable d (steps {now = now} {d = before} r later (receives packet src)) =
      act-Reachable now src _ before.am (manager-Reachable before r)
  manager-Reachable d (steps {d = before} r later purges) = manager-Reachable before r
  manager-Reachable d (steps {d = before} r later (closes s)) =
      Interleaving.steps (manager-Reachable before r) (Interleaving.closes s)

  granted-IsOver :
      (now : ℕ) (ctx c : TemplateContext) (due : ℤ) (g : Gate)
      → IsOver now ctx g
      → IsOver now ctx (grant c due g)
  granted-IsOver now ctx c due g (at, m, over) = (at, Memᴰ.tail m, over)

  later-IsDue : (before now : ℕ) (due : ℤ) → before ≤ now → IsDue before due → IsDue now due
  later-IsDue before now (pos t) l over = omega arith
  later-IsDue before now (negsuc t) l over = tt

  later-IsOver :
      (before now : ℕ) (ctx : TemplateContext) (g : Gate)
      → before ≤ now
      → IsOver before ctx g
      → IsOver now ctx g
  later-IsOver before now ctx g l (due, m, over) = (due, m, later-IsDue before now due l over)

  later-Shows :
      (before now : ℕ) (am : Manager W) (g : Gate)
      → before ≤ now
      → Shows before am g
      → Shows now am g
  later-Shows before now am g l shows = record {
    at_key = shows.at_key;
    timers = shows.timers;
    fired = λ c q. later-IsOver before now c g l (shows.fired c q);
    closed = λ c q. later-IsOver before now c g l (shows.closed c q);
  }

  module _ (now : ℕ) (am : Manager W) (g : Gate) (i : Covered e.host e.templates e.net am)
      (shows : Shows now am g) where
    -- A rule that is opened or renewed.
    scheduled-at_key :
        (ctx : TemplateContext) (w : W) (k : Bytes)
        → ShowsAt
            (schedule_close e.host e.templates now ctx (record am { world = w }))
            (grant ctx (due_time now ctx.timeout) g)
            k
    unfolding schedule_close
    scheduled-at_key ctx w k = elim (Bool-cases (eqb (rule_key ctx) k)) [
      | inl same ↦ inr (
        record { ctx = ctx; timer = am.next_timer },
        due_time now ctx.timeout,
        lookup-insert (rule_key ctx) k _ am.active_rules ∙ rw same refl,
        rw same refl,
        inl (
          record { id = am.next_timer; due = due_time now ctx.timeout; ctx = ctx },
          Memᴰ.head refl,
          refl,
          refl,
        ),
      )
      | inr other ↦
          let apart : rule_key ctx ≢ k = λ f. cc ((eqb_iff (rule_key ctx) k).1 f, other) in
          elim (shows.at_key k) [
            | inl (closed, free) ↦
                inl (rw other closed, lookup_other (rule_key ctx) k _ am.active_rules apart ∙ free)
            | inr (r, due, mine, open_now, inr closing) ↦ inr (
              r,
              due,
              lookup_other (rule_key ctx) k _ am.active_rules apart ∙ mine,
              rw other open_now,
              inr closing,
            )
            | inr (r, due, mine, open_now, inl (t, m, r_is, due_is)) ↦ inr (
              r,
              due,
              lookup_other (rule_key ctx) k _ am.active_rules apart ∙ mine,
              rw other open_now,
              inl (
                t,
                Memᴰ.tail (
                    kept_timer am.active_rules am.timers am.next_timer am.fired am.closed i
                      (rule_key ctx) k t apart (mine ∙ ap some r_is) m),
                r_is,
                due_is,
              ),
            )
          ]
    ]

    scheduled_timers :
        (ctx : TemplateContext) (t : Timer)
        → Memᴰ t (
            record { id = am.next_timer; due = due_time now ctx.timeout; ctx = ctx }
            ∷ stop_existing (lookup (rule_key ctx) am.active_rules) am.timers)
        → Memᴰ (t.ctx, t.due) (grant ctx (due_time now ctx.timeout) g).granted
    scheduled_timers ctx t (Memᴰ.head same) = Memᴰ.head (ap (λ x. (x.ctx, x.due)) same)
    scheduled_timers ctx t (Memᴰ.tail q) =
        Memᴰ.tail (shows.timers t (left_mem (lookup (rule_key ctx) am.active_rules) t am.timers q))

    scheduled-Shows :
        (ctx : TemplateContext) (w : W)
        → Shows now
            (schedule_close e.host e.templates now ctx (record am { world = w }))
            (grant ctx (due_time now ctx.timeout) g)
    unfolding schedule_close
    scheduled-Shows ctx w = record {
      at_key = scheduled-at_key ctx w;
      timers = scheduled_timers ctx;
      fired = λ c m. granted-IsOver now c ctx (due_time now ctx.timeout) g (shows.fired c m);
      closed = λ c m. granted-IsOver now c ctx (due_time now ctx.timeout) g (shows.closed c m);
    }

    -- A rule whose timer may begin its closing.
    begun_rule :
        (t : Timer) (k : Bytes) (r : ActiveRule) (due : ℤ)
        → Memᴰ t am.timers
        → lookup k am.active_rules ≡ some r
        → IsRunning r due am.timers ⊎ IsClosing k am.fired am.closed
        → IsRunning r due (stop t.id am.timers) ⊎ IsClosing k (t.ctx ∷ am.fired) am.closed
    begun_rule t k r due m mine (inr (c, inl q, key)) = inr (c, inl (Memᴰ.tail q), key)
    begun_rule t k r due m mine (inr (c, inr q, key)) = inr (c, inr q, key)
    begun_rule t k r due m mine (inl (u, mu, r_is, due_is)) = elim (Bool-cases (u.id == t.id)) [
      | inl same ↦
          let one : u ≡ t = i.unique u t mu m ((==_iff u.id t.id).0 same) in
          inr (
            t.ctx,
            inl (Memᴰ.head refl),
            ap (λ x. rule_key x.ctx) (sym one)
                ∙ ap (λ x. rule_key x.ctx) (sym r_is)
                ∙ sym (i.covered k r mine).0,
          )
      | inr other ↦ inl (
        u,
        stop-keeps t.id u am.timers mu (λ f. cc ((==_iff u.id t.id).1 f, other)),
        r_is,
        due_is,
      )
    ]

    begun-IsOver :
        (t : Timer)
        → Memᴰ t am.timers
        → IsDue now t.due
        → (c : TemplateContext) → Memᴰ c (t.ctx ∷ am.fired)
        → IsOver now c g
    begun-IsOver t m due c (Memᴰ.tail q) = shows.fired c q
    begun-IsOver t m due c (Memᴰ.head same) = rw same (t.due, shows.timers t m, due)

    begun-Shows :
        (t : Timer)
        → Memᴰ t am.timers
        → IsDue now t.due
        → Shows now (begin_close e.host e.templates t am) g
    unfolding begin_close
    begun-Shows t m due = record {
      at_key = λ k. elim (shows.at_key k) [
        | inl free ↦ inl free
        | inr (r, at, mine, open_now, held) ↦
            inr (r, at, mine, open_now, begun_rule t k r at m mine held)
      ];
      timers = λ u q. shows.timers u (stop_sound t.id u am.timers q).0;
      fired = begun-IsOver t m due;
      closed = shows.closed;
    }

    ran-IsClosing :
        (ctx : TemplateContext) (fired : List TemplateContext) (k : Bytes)
        → Takes ctx am.fired fired
        → IsClosing k am.fired am.closed
        → IsClosing k fired (ctx ∷ am.closed)
    ran-IsClosing ctx fired k taken (c, inr q, key) = (c, inr (Memᴰ.tail q), key)
    ran-IsClosing ctx fired k taken (c, inl q, key) =
        (c, elim (Takes-out taken q) [ inl same ↦ inr (Memᴰ.head same) | inr left ↦ inl left ], key)

    ran-IsOver :
        (ctx : TemplateContext) (fired : List TemplateContext)
        → Takes ctx am.fired fired
        → (c : TemplateContext) → Memᴰ c (ctx ∷ am.closed)
        → IsOver now c g
    ran-IsOver ctx fired taken c (Memᴰ.tail q) = shows.closed c q
    ran-IsOver ctx fired taken c (Memᴰ.head same) = rw same (shows.fired ctx (Takes-in taken))

    ran-Shows :
        (ctx : TemplateContext) (fired : List TemplateContext)
        → Takes ctx am.fired fired
        → Shows now (run_close e.host e.templates ctx fired am) g
    unfolding run_close
    ran-Shows ctx fired taken = record {
      at_key = λ k. elim (shows.at_key k) [
        | inl free ↦ inl free
        | inr (r, at, mine, open_now, inl running) ↦ inr (r, at, mine, open_now, inl running)
        | inr (r, at, mine, open_now, inr closing) ↦
            inr (r, at, mine, open_now, inr (ran-IsClosing ctx fired k taken closing))
      ];
      timers = shows.timers;
      fired = λ c q. shows.fired c (Takes-rest taken q);
      closed = ran-IsOver ctx fired taken;
    }

    -- The CloseRule of another key is still on its way.
    left-IsClosing :
        (ctx : TemplateContext) (closed : List TemplateContext) (k : Bytes)
        → rule_key ctx ≢ k
        → Takes ctx am.closed closed
        → IsClosing k am.fired am.closed
        → IsClosing k am.fired closed
    left-IsClosing ctx closed k apart taken (c, inl q, key) = (c, inl q, key)
    left-IsClosing ctx closed k apart taken (c, inr q, key) = elim (Takes-out taken q) [
      | inl same ↦ absurd (apart (ap rule_key (sym same) ∙ key))
      | inr left ↦ (c, inr left, key)
    ]

    forgotten-at_key :
        (ctx : TemplateContext) (closed : List TemplateContext) (k : Bytes)
        → Takes ctx am.closed closed
        → ShowsAt (forget e.host e.templates ctx closed am) (shut_key (rule_key ctx) g) k
    unfolding forget
    forgotten-at_key ctx closed k taken = elim (Bool-cases (eqb (rule_key ctx) k)) [
      | inl same ↦ inl (rw same refl, lookup-delete (rule_key ctx) k am.active_rules ∙ rw same refl)
      | inr other ↦
          let apart : rule_key ctx ≢ k = λ f. cc ((eqb_iff (rule_key ctx) k).1 f, other) in
          let kept = lookup-delete (rule_key ctx) k am.active_rules in
          elim (shows.at_key k) [
            | inl (shut_there, free) ↦ inl (rw other shut_there, kept ∙ rw other free)
            | inr (r, at, mine, open_now, inl running) ↦
                inr (r, at, kept ∙ rw other mine, rw other open_now, inl running)
            | inr (r, at, mine, open_now, inr closing) ↦ inr (
              r,
              at,
              kept ∙ rw other mine,
              rw other open_now,
              inr (left-IsClosing ctx closed k apart taken closing),
            )
          ]
    ]

    forgotten-Shows :
        (ctx : TemplateContext) (closed : List TemplateContext)
        → Takes ctx am.closed closed
        → Shows now (forget e.host e.templates ctx closed am) (shut_key (rule_key ctx) g)
    unfolding forget
    forgotten-Shows ctx closed taken = record {
      at_key = λ k. forgotten-at_key ctx closed k taken;
      timers = shows.timers;
      fired = shows.fired;
      closed = λ c q. shows.closed c (Takes-rest taken q);
    }

    moved-Shows : (w : W) → Shows now (record am { world = w }) g
    moved-Shows w = record {
      at_key = shows.at_key;
      timers = shows.timers;
      fired = shows.fired;
      closed = shows.closed;
    }

    -- A move of the gate that shows the manager as it is then.
    abbrev pub Answers : Manager W → Type 0
    Answers am' = (g' : Gate) × GateStep e now g g' × Shows now am' g'

    pub opened-Answers :
        (ctx : TemplateContext)
        → IsAskedFor e now ctx
        → Answers (open_rule e.host e.templates now ctx am).0
    opened-Answers ctx asked =
        let (w, ends) = open_rule-Ends e.host e.templates e.net now ctx am in
        elim ends [
          | inl f ↦ rw f (_, opens ctx asked, scheduled-Shows ctx w)
          | inr f ↦ rw f (g, idles, moved-Shows w)
        ]

    pub closing-Answers :
        {am' : Manager W} → CloseStep e.host e.templates e.net now am am' → Answers am'
    closing-Answers (begins t m due) = (g, idles, begun-Shows t m due)
    closing-Answers (runs ctx fired taken) = (g, idles, ran-Shows ctx fired taken)
    closing-Answers (forgets ctx closed taken) =
        let (due, m, over) = shows.closed ctx (Takes-in taken) in
        (shut_key (rule_key ctx) g, expires ctx due m over, forgotten-Shows ctx closed taken)

    dispatched-Answers :
        (packet src : Bytes) (s : AccessStanza) (m : Message)
        → IsAuthorized e.hashes e.cipher e.net e.config e.stanzas now
            (take max_spa_packet_size packet)
            src
            s
            m
        → Answers (dispatch_action e.host e.templates e.net now m s (e.net.ip_string src) am)
    unfolding dispatch_action execute_command
    dispatched-Answers packet src s m a =
        let ctx = build_template_context e.net m (e.net.ip_string src) s in
        elim (Bool-cases (is_command m.message_type)) [
          | inl command ↦ elim (Bool-cases s.enable_cmd_exec) [
            | inl on ↦ rw (command, on) (g, idles, moved-Shows _)
            | inr off ↦ rw (command, off) (g, idles, shows)
          ]
          | inr access ↦ elim (Bool-cases (allows_port s ctx.proto ctx.port)) [
            | inl allowed ↦
                rw (access, allowed)
                  (opened-Answers ctx (record {
                    packet = packet;
                    src = src;
                    stanza = s;
                    message = m;
                    authorized = a;
                    no_command = access;
                    asks = refl;
                    allowed = allowed;
                  }))
            | inr refused ↦ rw (access, refused) (g, idles, shows)
          ]
        ]

    act-Answers :
        (packet src : Bytes) (o : Outcome)
        → ((i : ℕ) (s : AccessStanza) (m : Message)
            → o ≡ dispatched i s m
            → IsAuthorized e.hashes e.cipher e.net e.config e.stanzas now
                (take max_spa_packet_size packet)
                src
                s
                m)
        → Answers (act e now src o am)
    unfolding act
    act-Answers packet src (dispatched j s m) a = dispatched-Answers packet src s m (a j s m refl)
    act-Answers packet src no_matching_stanza a = (g, idles, shows)
    act-Answers packet src (too_old j) a = (g, idles, shows)
    act-Answers packet src (replayed j) a = (g, idles, shows)
    act-Answers packet src (wrong_username j) a = (g, idles, shows)
    act-Answers packet src (wrong_source j) a = (g, idles, shows)
    act-Answers packet src (test_mode j) a = (g, idles, shows)

  covered : {now : ℕ} (d : Daemon W) → Reachable e now d → Covered e.host e.templates e.net d.am
  covered d r = Reachable-Covered e.host e.templates e.net d.am (manager-Reachable d r)

  -- Whatever datagrams, purges, timers and steps of CloseRule the daemon went through, at times that do
  -- not go back, its open rules are those of a gate that only authorized messages open, for a rule
  -- that their stanza allows and until the deadline of that rule, and in which a key is shut only by a
  -- grant for that key whose deadline has passed: the one that it is open for, or one before it. Every
  -- open rule has its timer running, due at the deadline in the gate, or a CloseRule of its key on its
  -- way.
  pub daemon_refines_gate :
      (now : ℕ) (d : Daemon W)
      → Reachable e now d
      → (g : Gate) × GateReachable e now g × Shows now d.am g
  unfolding receive lookup
  daemon_refines_gate _ d (starts now rc w) = (
    record { opened = λ k. none; granted = [] },
    shut now,
    record {
      at_key = λ k. inl (refl, refl);
      timers = λ t q. elim q [ ];
      fired = λ c q. elim q [ ];
      closed = λ c q. elim q [ ];
    },
  )
  daemon_refines_gate now d (steps {before = earlier} {d = before} r later (receives packet src)) =
      let (g, reach, shows) = daemon_refines_gate earlier before r in
      let (g', move, shows') =
        act-Answers now before.am g (covered before r)
          (later-Shows earlier now before.am g later shows) packet src
          (process_spa_packet e.hashes e.cipher e.net e.config e.stanzas before.replay now
            (take max_spa_packet_size packet) src).1
          (λ i s m f.
            dispatched-IsAuthorized e.hashes e.cipher e.net e.config e.stanzas i before.replay now _
              src s m f) in
      (g', moves reach later move, shows')
  daemon_refines_gate now d (steps {before = earlier} {d = before} r later purges) =
      let (g, reach, shows) = daemon_refines_gate earlier before r in
      (g, moves reach later idles, later-Shows earlier now before.am g later shows)
  daemon_refines_gate now d (steps {before = earlier} {d = before} r later (closes s)) =
      let (g, reach, shows) = daemon_refines_gate earlier before r in
      let (g', move, shows') =
        closing-Answers now before.am g (covered before r)
          (later-Shows earlier now before.am g later shows) s in
      (g', moves reach later move, shows')
