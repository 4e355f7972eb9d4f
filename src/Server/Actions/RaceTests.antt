-- ===== src/Server/Actions/RaceTests.antt =====
-- Tests of the interleavings: a rule whose timer fires, and a message that comes before its entry is
-- deleted.
use mathlib.Core.List.{Memᴰ}
use fwknop_go.Base.{
  ℕ, ◌≡◌, refl, ◌⊎◌, Bytes, true, some, [], ◌+ℤ◌, seconds, wrap_int64, cut, unix_seconds, arith,
}
use fwknop_go.Spa.Fixtures.{test_message}
use fwknop_go.Map.{lookup, insert}
use fwknop_go.Server.Fixtures.{test_net, test_stanza}
use fwknop_go.Server.Request.{rule_key, build_template_context, parse_access_msg, effective_timeout}
use fwknop_go.Server.Actions.{
  ActiveRule, stop, Timer, Manager, forget, run_close, begin_close, new_manager, due_time,
  dispatch_action, open_rule, open_new, after_open, after_check, run_template, schedule_close,
}
use fwknop_go.Server.Actions.Tracking.{rule_of, IsTimed}
use fwknop_go.Server.Actions.Tests.{
  one_rule-Orderly, test_host, test_actions, test_source, test_context,
}
use fwknop_go.Server.Actions.Interleaving.{
  takes_first, IsClosing, Orderly, goes, Reachable, starts, steps, dispatches, closes, begins, runs,
}
use fwknop_go.Server.Actions.Order.{Orderly-rules}
use fwknop_go.Server.Actions.Races.{IsLost, no_rule_left, renewal-IsLost}

abbrev test_opened : Manager ℕ
test_opened =
    dispatch_action test_host test_actions test_net 0 test_message test_stanza test_source
      (new_manager 0)

abbrev test_timer : Timer
test_timer = record { id = 0; due = due_time 0 test_context.timeout; ctx = test_context }

abbrev test_minute : ℕ
test_minute = 60_000_000_000

abbrev test_closing : Manager ℕ
test_closing = begin_close test_host test_actions test_timer test_opened

abbrev test_closed : Manager ℕ
test_closed = run_close test_host test_actions test_context [] test_closing

test_closing-Reachable : Reachable test_host test_actions test_net test_closing
unfolding dispatch_action open_rule open_new after_open after_check run_template schedule_close
    build_template_context parse_access_msg effective_timeout cut unix_seconds rule_key due_time
    seconds wrap_int64 ◌+ℤ◌
test_closing-Reachable =
    steps (steps (starts 0) (dispatches 0 test_message test_stanza test_source))
      (closes {now = test_minute} (begins test_timer (Memᴰ.head refl) (omega arith)))

test_closing-Orderly : Orderly test_host test_actions test_net test_closing
unfolding dispatch_action open_rule open_new after_open after_check run_template schedule_close
    build_template_context parse_access_msg effective_timeout cut unix_seconds rule_key due_time
    seconds wrap_int64 ◌+ℤ◌
test_closing-Orderly =
    goes {now = test_minute} one_rule-Orderly (begins test_timer (Memᴰ.head refl) (omega arith))

Orderly-rules_example :
    ((k : Bytes) (r : ActiveRule)
      → lookup k test_closing.active_rules ≡ some r
      → IsTimed r test_closing.timers ⊎ IsClosing k test_closing.fired test_closing.closed)
    × ((t : Timer)
        → Memᴰ t test_closing.timers
        → lookup (rule_key t.ctx) test_closing.active_rules ≡ some (rule_of t))
Orderly-rules_example =
    Orderly-rules test_host test_actions test_net test_closing test_closing-Orderly

test_closed-Reachable : Reachable test_host test_actions test_net test_closed
unfolding begin_close dispatch_action stop open_rule after_check run_template open_new after_open
    schedule_close
test_closed-Reachable =
    steps test_closing-Reachable (closes {now = test_minute} (runs test_context [] takes_first))

test_entry : lookup (rule_key test_context) test_closing.active_rules ≡ some (rule_of test_timer)
unfolding lookup insert dispatch_action open_rule open_new after_open after_check run_template
    schedule_close build_template_context parse_access_msg effective_timeout cut unix_seconds
    rule_key due_time seconds wrap_int64 ◌+ℤ◌ begin_close
test_entry = refl

no_rule_left_example :
    IsTimed (rule_of test_timer) test_closing.timers
    ⊎ IsClosing (rule_key test_context) test_closing.fired test_closing.closed
no_rule_left_example =
    no_rule_left test_host test_actions test_net test_closing (rule_key test_context)
      (rule_of test_timer) test_closing-Reachable test_entry

test_renewed : (open_rule test_host test_actions test_minute test_context test_closed).1 ≡ true
unfolding open_rule open_new after_open after_check run_template
test_renewed = refl

renewal-IsLost_example : IsLost test_host test_actions test_net test_minute test_context (
    forget test_host test_actions test_context []
      (open_rule test_host test_actions test_minute test_context test_closed).0)
unfolding run_close begin_close dispatch_action open_rule after_check run_template open_new
    after_open schedule_close
renewal-IsLost_example =
    renewal-IsLost test_host test_actions test_net test_closed test_minute test_context test_context
      [] test_closed-Reachable takes_first refl test_renewed
