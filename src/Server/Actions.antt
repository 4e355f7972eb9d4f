-- ===== src/Server/Actions.antt =====
-- cmd/fwknopd/actions.go, and dispatchAction of server.go: rules that are opened, and closed by
-- timers. The shell and text/template are arguments. CloseRule, which a timer starts in a goroutine
-- of its own, is taken apart: its start, its command, and the deletion of the entry under the lock.
-- The system is Unix.
pub mod Tracking
pub mod Lifecycle
pub mod Policy
pub mod Interleaving
pub mod Pending
pub mod Races
pub mod Order
pub mod RaceTests
pub mod Tests
use fwknop_go.Base.{
  ℕ, suc, ◌*◌, ◌-◌, ℤ, pos, negsuc, ◌+ℤ◌, Bool, true, false, ◌&&◌, ◌||◌, Option, none, some, List,
  [], ◌∷◌, ◌++◌, Bytes, codes, length, replicate, ltb, ◌==◌, eqb, if◌then◌else◌, seconds,
  unix_seconds, cut, equal_fold,
}
use fwknop_go.Spa.Message.{Message}
use fwknop_go.Spa.Validate.{is_empty, is_command}
use fwknop_go.Map.{lookup, delete, insert}
use fwknop_go.Server.ActionConfig.{ActionsConfig}
use fwknop_go.Server.Request.{
  TemplateContext, parse_access_msg, effective_timeout, allows_port, build_template_context,
  rule_key,
}
use fwknop_go.Server.Access.{AccessStanza, Net, v4_in_v6_prefix}

-- The fields of actionsManager that do not change: the templates that are set, and the shutdown
-- command.
pub record Templates : Type 0 where
  pub check : Option Bytes
  pub open_template : Option Bytes
  pub close : Option Bytes
  pub shutdown_command : Bytes

-- The world of the commands: a command changes it and exits with zero or not; a text parses as a
-- template or not, and a template is rendered or not.
pub record Host (W : Type 0) : Type 0 where
  pub run_command : Bytes → W → W × Bool
  pub parses : Bytes → Bool
  pub render : Bytes → TemplateContext → Option Bytes

pub record ActiveRule : Type 0 where
  pub ctx : TemplateContext
  pub timer : ℕ

-- A timer that was started and neither stopped nor fired, and when it is due.
pub record Timer : Type 0 where
  pub id : ℕ
  pub due : ℤ
  pub ctx : TemplateContext

-- The goroutines of CloseRule are in it as well: those that have not run their command, and those
-- that wait for the lock.
pub record Manager (W : Type 0) : Type 0 where
  pub world : W
  pub active_rules : List (Bytes × ActiveRule)
  pub timers : List Timer
  pub next_timer : ℕ
  pub fired : List TemplateContext
  pub closed : List TemplateContext

abbrev pub new_manager : {W : Type 0} → W → Manager W
new_manager w = record {
  world = w;
  active_rules = [];
  timers = [];
  next_timer = 0;
  fired = [];
  closed = [];
}

abbrev parse_template : {W : Type 0} → Host W → Bytes → Option (Option Bytes)
parse_template host [] = some none
parse_template host (c ∷ s) = if host.parses (c ∷ s) then some (some (c ∷ s)) else none

abbrev all_parsed :
    Option (Option Bytes) → Option (Option Bytes) → Option (Option Bytes) → Bytes → Option Templates
all_parsed (some check) (some open_template) (some close) shutdown_command = some (record {
  check = check;
  open_template = open_template;
  close = close;
  shutdown_command = shutdown_command;
})
all_parsed _ _ _ shutdown_command = none

abbrev pub managed : {W : Type 0} → Option Templates → W → Option (Templates × Manager W)
managed none w = none
managed (some templates) w = some (templates, new_manager w)

-- `none` is an error of a template.
unfoldable pub new_actions_manager :
    {W : Type 0} → Host W → ActionsConfig → W → Option (Templates × Manager W)
new_actions_manager host cfg w =
    managed
      (all_parsed (parse_template host cfg.check) (parse_template host cfg.open_command)
        (parse_template host cfg.close) cfg.shutdown)
      w

-- Validate and Init: a command that is not set succeeds.
unfoldable pub run_if_set : {W : Type 0} → Host W → Bytes → W → W × Bool
run_if_set host command w = if is_empty command then (w, true) else host.run_command command w

unfoldable pub active_rule_count : {W : Type 0} → Manager W → ℕ
active_rule_count am = length am.active_rules

-- When the function of time.AfterFunc is due, for time.Duration(timeout) * time.Second, which wraps.
unfoldable pub due_time : ℕ → ℤ → ℤ
unfolding seconds
due_time now timeout = pos now +ℤ seconds timeout

-- timer.Stop()
unfoldable pub stop : ℕ → List Timer → List Timer
stop id [] = []
stop id (t ∷ ts) = let rest = stop id ts in if t.id == id then rest else t ∷ rest

-- The timer of the rule that a key already has, if any, is stopped.
abbrev pub stop_existing : Option ActiveRule → List Timer → List Timer
stop_existing none ts = ts
stop_existing (some existing) ts = stop existing.timer ts

-- What becomes of a template that may be set.
pub data Ran (W : Type 0) : Type 0 where
  absent : Ran W
  unrenderable : Ran W
  succeeded : W → Ran W
  failed : W → Ran W

module _ {W : Type 0} (host : Host W) (cfg : Templates) where
  unfoldable pub run_template : Option Bytes → TemplateContext → W → Ran W
  run_template none ctx w = absent
  run_template (some t) ctx w = elim (host.render t ctx) [
    | none ↦ unrenderable
    | some command ↦
        let (w', zero_exit) = host.run_command command w in
        if zero_exit then succeeded w' else failed w'
  ]

  unfoldable pub schedule_close : ℕ → TemplateContext → Manager W → Manager W
  schedule_close now ctx am =
      let key = rule_key ctx in
      let stopped = stop_existing (lookup key am.active_rules) am.timers in
      record am {
        active_rules = insert key (record { ctx = ctx; timer = am.next_timer }) am.active_rules;
        timers = record { id = am.next_timer; due = due_time now ctx.timeout; ctx = ctx } ∷ stopped;
        next_timer = suc am.next_timer;
      }

  -- OpenRule by what became of the open template; `false` is an error.
  unfoldable pub after_open : ℕ → TemplateContext → Manager W → Ran W → Manager W × Bool
  after_open now ctx am absent = (schedule_close now ctx am, true)
  after_open now ctx am unrenderable = (am, false)
  after_open now ctx am (succeeded w) = (schedule_close now ctx (record am { world = w }), true)
  after_open now ctx am (failed w) = (record am { world = w }, false)

  -- The part of OpenRule behind the check.
  unfoldable pub open_new : ℕ → TemplateContext → Manager W → Manager W × Bool
  open_new now ctx am = after_open now ctx am (run_template cfg.open_template ctx am.world)

  -- By what became of the check template: a rule that is there only gets a new timer.
  unfoldable pub after_check : ℕ → TemplateContext → Manager W → Ran W → Manager W × Bool
  after_check now ctx am absent = open_new now ctx am
  after_check now ctx am unrenderable = (am, false)
  after_check now ctx am (succeeded w) = (schedule_close now ctx (record am { world = w }), true)
  after_check now ctx am (failed w) = open_new now ctx (record am { world = w })

  unfoldable pub open_rule : ℕ → TemplateContext → Manager W → Manager W × Bool
  open_rule now ctx am = after_check now ctx am (run_template cfg.check ctx am.world)

  -- A failure of the close command is only logged.
  abbrev pub after_close : W → Ran W → W
  after_close w absent = w
  after_close w unrenderable = w
  after_close w (succeeded w') = w'
  after_close w (failed w') = w'

  abbrev pub close_command : TemplateContext → W → W
  close_command ctx w = after_close w (run_template cfg.close ctx w)

  -- The timer's function begins: CloseRule has the context.
  unfoldable pub begin_close : Timer → Manager W → Manager W
  begin_close t am = record am { timers = stop t.id am.timers; fired = t.ctx ∷ am.fired }

  -- The close command runs; `fired` are the goroutines whose command is still to run then.
  unfoldable pub run_close : TemplateContext → List TemplateContext → Manager W → Manager W
  run_close ctx fired am = record am {
    world = close_command ctx am.world;
    fired = fired;
    closed = ctx ∷ am.closed;
  }

  -- The entry of the key is deleted, under the lock; `closed` are those that still wait for it.
  unfoldable pub forget : TemplateContext → List TemplateContext → Manager W → Manager W
  forget ctx closed am = record am {
    active_rules = delete (rule_key ctx) am.active_rules;
    closed = closed;
  }

  -- The map is left in an order of its own, here the list's.
  unfoldable pub stop_all : List (Bytes × ActiveRule) → List Timer → List Timer
  stop_all [] ts = ts
  stop_all ((k, r) ∷ rules) ts = stop_all rules (stop r.timer ts)

  abbrev close_all : List (Bytes × ActiveRule) → W → W
  close_all [] w = w
  close_all ((k, r) ∷ rules) w = close_all rules (close_command r.ctx w)

  unfoldable pub shutdown : Manager W → Manager W
  shutdown am =
      let closed = close_all am.active_rules am.world in
      record am {
        world =
            if is_empty cfg.shutdown_command
            then closed
            else (host.run_command cfg.shutdown_command closed).0;
        active_rules = [];
        timers = stop_all am.active_rules am.timers;
      }

  -- A command for another user goes through su; its exit code is only logged.
  unfoldable pub execute_command : Bytes → Bytes → Manager W → Manager W
  execute_command command user am =
      let line =
        if is_empty user then command else codes "su -c '" ++ (command ++ (codes "' " ++ user)) in
      record am { world = (host.run_command line am.world).0 }

  unfoldable pub dispatch_action : Net → ℕ → Message → AccessStanza → Bytes → Manager W → Manager W
  dispatch_action net now m s src am =
      let ctx = build_template_context net m src s in
      if is_command m.message_type
      then (if s.enable_cmd_exec then execute_command m.access s.cmd_exec_user am else am)
      else if allows_port s ctx.proto ctx.port
      then (open_rule now ctx am).0
      else am
