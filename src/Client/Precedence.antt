-- ===== src/Client/Precedence.antt =====
-- What loadConfig comes to: every setting from the first of its layers that has it.
use fwknop_go.Base.{true, ◌≡◌, refl, ap, ◌∙◌, false, ◌||◌, Option, some, List, Bytes, codes, arith}
use mathlib.Core.Option as Option
use fwknop_go.Map.{keys_of, lookup}
use fwknop_go.Koanf.{
  Koanf, KoanfLaws, FlagState, parsed, or_else, of_env, IsPlain, AreKeys, settings_of, with_flag,
  bool_of,
}
use fwknop_go.Koanf.Layers.{changed_flag, defaults_of, KeepsDefaults, flag_layer}
use fwknop_go.Client.Flags.{client_flags, flag_key}
use fwknop_go.Koanf.Completion.{Decoder, goes_on, or_stop, went_both, went_on}
use fwknop_go.Client.Loading.{
  Place, env_failed, flags_failed, bad_settings, value_of, env_key, load_rc, load_env_layer,
  load_flags_layer, load_store, load_parsed, load_config, unmarshal,
}
use fwknop_go.Client.Loads.{rc_loads, LayersLoad, store_goes}
use fwknop_go.Client.Layers.{ArePlain, rc_stanzas, rc_setting, rc_store}

-- The keys of the flags are no paths, and no two flags have the same.
flag_keys :
    {K V : Type 0} (o : Koanf K V) (given : Bytes → FlagState)
    → AreKeys (keys_of (settings_of o flag_key given client_flags))
unfolding flag_key lookup
flag_keys o given = record { plain = omega arith; distinct = refl }

module _ {K V : Type 0} (p : Place K V) (given : Bytes → FlagState)
    (environ : List (Bytes × Bytes)) where
  -- The settings of the variables FWKNOP_...
  abbrev pub client_env : List (Bytes × Bytes)
  client_env = of_env (codes "FWKNOP_") env_key environ

  -- A flag that was given, the environment, the named stanza, the stanza "default", the flag's default.
  abbrev pub client_layers : Bytes → Option V
  client_layers j =
      or_else (changed_flag (lookup j (settings_of p.koanf flag_key given client_flags))) (
        or_else
          (or_else (Option.map p.koanf.of_text (lookup j client_env))
            (rc_setting p given (rc_stanzas p given) j))
          (lookup j (defaults_of p.koanf flag_key given client_flags)))

  module _ {files : Bytes → Option (List (Bytes × V))} (laws : KoanfLaws p.koanf environ files)
      (env_keys : AreKeys (keys_of client_env)) (plain : ArePlain p.koanf (rc_stanzas p given))
      (defaults : KeepsDefaults p.koanf flag_key given client_flags) where
    env_store :
        (s t : K) (j : Bytes)
        → IsPlain j
        → load_rc p given p.koanf.new ≡ goes_on s
        → p.koanf.load_env (codes "FWKNOP_") env_key s ≡ some t
        → p.koanf.get j t
          ≡ or_else
              (Option.map p.koanf.of_text (lookup j client_env))
              (rc_setting p given (rc_stanzas p given) j)
    env_store s t j hj at_rc at_env =
        laws.get-load_env (codes "FWKNOP_") env_key j s t env_keys hj at_env
        ∙ ap (or_else (Option.map p.koanf.of_text (lookup j client_env)))
            (rc_store p given laws s j plain hj at_rc)

    flag_store :
        (s t u : K) (j : Bytes)
        → IsPlain j
        → load_rc p given p.koanf.new ≡ goes_on s
        → p.koanf.load_env (codes "FWKNOP_") env_key s ≡ some t
        → p.koanf.load_flags (settings_of p.koanf flag_key given client_flags) t ≡ some u
        → p.koanf.get j u ≡ client_layers j
    flag_store s t u j hj at_rc at_env at_flags =
        laws.get-load_flags (settings_of p.koanf flag_key given client_flags) j t u
          (flag_keys p.koanf given) hj at_flags
        ∙ ap (with_flag (lookup j (settings_of p.koanf flag_key given client_flags)))
            (env_store s t j hj at_rc at_env)
        ∙ flag_layer p.koanf flag_key given client_flags defaults j _

unmarshal_same :
    {V : Type 0} (d : Decoder V) (g h : Bytes → Option V)
    → ((j : Bytes) → IsPlain j → g j ≡ h j)
    → unmarshal d g ≡ unmarshal d h
unfolding unmarshal
unmarshal_same d g h same =
    rw
      (
        same (codes "destination") (omega arith),
        same (codes "server_port") (omega arith),
        same (codes "allow_ip") (omega arith),
        same (codes "access") (omega arith),
        same (codes "server_cmd") (omega arith),
        same (codes "spoof_user") (omega arith),
        same (codes "source_ip") (omega arith),
        same (codes "fw_timeout") (omega arith),
        same (codes "nat_access") (omega arith),
        same (codes "nat_local") (omega arith),
        same (codes "nat_port") (omega arith),
        same (codes "digest_type") (omega arith),
        same (codes "hmac_digest_type") (omega arith),
        same (codes "encryption_mode") (omega arith),
        same (codes "key") (omega arith),
        same (codes "key_base64") (omega arith),
        same (codes "key_hmac") (omega arith),
        same (codes "hmac_key_base64") (omega arith),
        same (codes "use_hmac") (omega arith),
        same (codes "resolve_ip") (omega arith),
        same (codes "resolve_url") (omega arith),
        same (codes "time_offset_plus") (omega arith),
        same (codes "time_offset_minus") (omega arith),
        same (codes "named_config") (omega arith),
        same (codes "rc_file") (omega arith),
        same (codes "no_rc_file") (omega arith),
        same (codes "test") (omega arith),
        same (codes "verbose") (omega arith),
        same (codes "key_gen") (omega arith),
        same (codes "save_rc_stanza") (omega arith),
        same (codes "stanza_list") (omega arith),
        same (codes "version") (omega arith),
      )
      refl

module _ {K V : Type 0} (p : Place K V) (given : Bytes → FlagState)
    (environ : List (Bytes × Bytes)) where
  store_setting :
      {files : Bytes → Option (List (Bytes × V))} (laws : KoanfLaws p.koanf environ files)
      → AreKeys (keys_of (client_env p given environ))
      → ArePlain p.koanf (rc_stanzas p given)
      → KeepsDefaults p.koanf flag_key given client_flags
      → (u : K) (j : Bytes) → load_store p given ≡ goes_on u
      → IsPlain j
      → p.koanf.get j u ≡ client_layers p given environ j
  unfolding load_store
  store_setting laws env_keys plain defaults u j e hj =
      let (t, (at_t, at_flags)) = went_both (load_flags_layer p given) _ e in
      let (s, (at_rc, at_env)) = went_both (load_env_layer p given) _ at_t in
      flag_store p given environ laws env_keys plain defaults s t u j hj at_rc
        (went_on env_failed _ at_env) (went_on flags_failed _ at_flags)

  -- Where neither help, version nor key generation is asked for and the rc file, if one is read, parses
  -- and has the stanza that was named, loadConfig gives the fields that every setting's first layer
  -- gives: the flag if it was given, then the variable FWKNOP_..., the named stanza, the stanza
  -- "default", and the default of the flag. It fails only if one of these does not decode. Assumed is
  -- that the stanzas' keys have no dots and their values are no maps, that no two variables name one
  -- setting, and that environment and flags can be loaded.
  pub client_precedence :
      {files : Bytes → Option (List (Bytes × V))} (laws : KoanfLaws p.koanf environ files)
      → AreKeys (keys_of (client_env p given environ))
      → ArePlain p.koanf (rc_stanzas p given)
      → KeepsDefaults p.koanf flag_key given client_flags
      → bool_of (value_of given (codes "help")) ≡ false
      → (bool_of (value_of given (codes "version")) || bool_of (value_of given (codes "key-gen")))
        ≡ false
      → rc_loads p given ≡ true
      → LayersLoad p given
      → load_config p (parsed given)
        ≡ or_stop bad_settings (unmarshal p.decoder (client_layers p given environ))
  unfolding load_config load_parsed
  client_precedence laws env_keys plain defaults no_help no_mode rc loads =
      let (u, e) = store_goes p given rc loads in
      rw (no_help, no_mode, e)
        (ap (or_stop bad_settings) (
          unmarshal_same p.decoder (λ j. p.koanf.get j u) (client_layers p given environ)
            (λ j hj. store_setting laws env_keys plain defaults u j e hj)))
