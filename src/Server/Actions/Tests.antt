-- ===== src/Server/Actions/Tests.antt =====
-- Tests of the actions: a shell that counts its commands, and templates that are their own text.
use mathlib.Core.List.{Memᴰ}
use fwknop_go.Base.{
  ℕ, ◌+◌, ◌≤◌, ◌<◌, ◌≡◌, refl, ◌⊎◌, inl, inr, arith, true, false, some, none, [], Bytes, codes, pos,
  cut,
}
use fwknop_go.Spa.Validate.{is_command}
use fwknop_go.Spa.Fixtures.{test_message}
use fwknop_go.Map.{lookup}
use fwknop_go.Server.Fixtures.{test_net, test_stanza}
use fwknop_go.Server.ActionConfig.{ActionsConfig}
use fwknop_go.Server.Request.{
  TemplateContext, rule_key, effective_timeout, build_template_context, allows_port,
  parse_access_msg,
}
use fwknop_go.Server.Actions.{
  Templates, new_manager, Host, Manager, Timer, open_rule, shutdown, dispatch_action,
}
use fwknop_go.Server.Actions.Tracking.{rule_of}
use fwknop_go.Server.Actions.Lifecycle.{open_rule_lem}
use fwknop_go.Server.Actions.Interleaving.{IsClosing, Orderly, fresh, asks}
use fwknop_go.Server.Actions.Order.{shutdown_quiet}
use fwknop_go.Server.Actions.Policy.{dispatch_action_lem, effective_timeout_lem}

abbrev pub test_host : Host ℕ
test_host = record {
  run_command = λ command w. (w + 1, true);
  parses = λ t. true;
  render = λ t ctx. some t;
}

abbrev pub test_actions : Templates
test_actions = record {
  check = none;
  open_template = some (codes "open");
  close = some (codes "close");
  shutdown_command = codes "flush";
}

abbrev pub test_source : Bytes
test_source = codes "10.0.0.1"

abbrev pub test_context : TemplateContext
test_context = build_template_context test_net test_message test_source test_stanza

-- A manager with one rule open, for a minute.
abbrev pub one_rule : Manager ℕ
one_rule =
    dispatch_action test_host test_actions test_net 0 test_message test_stanza test_source
      (new_manager 0)

pub one_rule-Orderly : Orderly test_host test_actions test_net one_rule
one_rule-Orderly = asks 0 test_message test_stanza test_source (fresh 0) no_closing
  where
    no_closing : ¬ IsClosing (rule_key test_context) [] []
    no_closing (c, inl q, key) = elim q [ ]
    no_closing (c, inr q, key) = elim q [ ]

shutdown_quiet_example :
    ((shutdown test_host test_actions one_rule).active_rules ≡ [])
    × ((shutdown test_host test_actions one_rule).timers ≡ [])
shutdown_quiet_example = shutdown_quiet test_host test_actions test_net one_rule one_rule-Orderly

test_minute : test_context.timeout ≡ pos 60
unfolding build_template_context effective_timeout parse_access_msg cut
test_minute = refl

open_rule_lem_example :
    let (after, success) = open_rule test_host test_actions 5 test_context one_rule in
    ((success ≡ true)
      × (t : Timer) × Memᴰ t after.timers
      × (t.due ≡ pos 60_000_000_005)
      × (lookup (rule_key test_context) after.active_rules ≡ some (rule_of t)))
    ⊎ ((success ≡ false)
        × (after.active_rules ≡ one_rule.active_rules)
        × (after.timers ≡ one_rule.timers))
open_rule_lem_example =
    open_rule_lem test_host test_actions test_net 5 60 test_context one_rule test_minute
      (omega arith)

dispatch_action_lem_example :
    let after =
      dispatch_action test_host test_actions test_net 7 test_message test_stanza test_source
        one_rule in
    (after ≡ one_rule)
    ⊎ ((is_command test_message.message_type ≡ true)
        × (test_stanza.enable_cmd_exec ≡ true)
        × (after.active_rules ≡ one_rule.active_rules)
        × (after.timers ≡ one_rule.timers))
    ⊎ ((is_command test_message.message_type ≡ false)
        × (allows_port test_stanza test_context.proto test_context.port ≡ true)
        × (after ≡ (open_rule test_host test_actions 7 test_context one_rule).0))
dispatch_action_lem_example =
    dispatch_action_lem test_host test_actions test_net 7 test_message test_stanza test_source
      one_rule

effective_timeout_lem_example :
    ((test_message.client_timeout ≡ 0)
      × (effective_timeout test_message test_stanza ≡ test_stanza.access_timeout))
    ⊎ ((n : ℕ) × (effective_timeout test_message test_stanza ≡ pos n)
        × (0 < n)
        × (n ≤ 300)
        × (n ≤ test_message.client_timeout)
        × ((n ≡ 300) ⊎ (n ≡ test_message.client_timeout)))
effective_timeout_lem_example = effective_timeout_lem test_message test_stanza 299 refl

abbrev open_config : ActionsConfig
open_config = record {
  validate = [];
  init = [];
  check = [];
  open_command = codes "open";
  close = [];
  shutdown = [];
}

abbrev close_config : ActionsConfig
close_config = record {
  validate = [];
  init = [];
  check = [];
  open_command = [];
  close = codes "close";
  shutdown = [];
}
