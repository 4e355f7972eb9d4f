-- ===== src/Server/ActionConfig.antt =====
-- cmd/fwknopd/actions.go: actionsConfig, and mergeActionsConfig.
use fwknop_go.Base.{◌≡◌, refl, [], ◌∷◌, Bytes, if◌then◌else◌}
use fwknop_go.Spa.Validate.{is_empty}

pub record ActionsConfig : Type 0 where
  pub validate : Bytes
  pub init : Bytes
  pub check : Bytes
  pub open_command : Bytes
  pub close : Bytes
  pub shutdown : Bytes

abbrev pub empty_config : ActionsConfig
empty_config = record {
  validate = [];
  init = [];
  check = [];
  open_command = [];
  close = [];
  shutdown = [];
}

-- A text that is set takes precedence.
abbrev over : Bytes → Bytes → Bytes
over base override = if is_empty override then base else override

unfoldable pub merge_actions_config : ActionsConfig → ActionsConfig → ActionsConfig
merge_actions_config base override = record {
  validate = over base.validate override.validate;
  init = over base.init override.init;
  check = over base.check override.check;
  open_command = over base.open_command override.open_command;
  close = over base.close override.close;
  shutdown = over base.shutdown override.shutdown;
}

over_assoc : (a b c : Bytes) → over (over a b) c ≡ over a (over b c)
over_assoc a b [] = refl
over_assoc a b (x ∷ c) = refl

-- Layers of configuration can be merged from either end, and the empty configuration is neutral on
-- both sides.
pub merge_actions_config_lem :
    (a b c : ActionsConfig)
    → (merge_actions_config (merge_actions_config a b) c
        ≡ merge_actions_config a (merge_actions_config b c))
      × (merge_actions_config a empty_config ≡ a)
      × (merge_actions_config empty_config a ≡ a)
unfolding merge_actions_config
merge_actions_config_lem a b c = (
  cc (
    over_assoc a.validate b.validate c.validate,
    over_assoc a.init b.init c.init,
    over_assoc a.check b.check c.check,
    over_assoc a.open_command b.open_command c.open_command,
    over_assoc a.close b.close c.close,
    over_assoc a.shutdown b.shutdown c.shutdown,
  ),
  refl,
  cc (
    over_empty a.validate,
    over_empty a.init,
    over_empty a.check,
    over_empty a.open_command,
    over_empty a.close,
    over_empty a.shutdown,
  ),
)
  where
    over_empty : (s : Bytes) → over [] s ≡ s
    over_empty [] = refl
    over_empty (x ∷ s) = refl
