-- ===== src/Server/Precedence.antt =====
-- What loadServerConfig comes to: every setting from the first of its layers that has it.
use fwknop_go.Base.{
  true, none, equal_fold, All, eqb, eqb_iff, ◌∷◌, ◌≡◌, refl, sym, ap, ◌∙◌, false, Option, some,
  List, [], Bytes, codes, arith, if◌then◌else◌, inl, inr, Bool-cases,
}
use mathlib.Core.Option as Option
use mathlib.Core.Path.{subst}
use fwknop_go.Map.{keys_of, lookup}
use fwknop_go.Koanf.{
  Koanf, KoanfLaws, FlagState, parsed, or_else, of_env, IsPlain, AreKeys, settings_of, with_flag,
  bool_of, set_all, listed,
}
use fwknop_go.Koanf.Layers.{
  changed_flag, defaults_of, KeepsDefaults, flag_layer, IsPlainMap, set_all_lem, scalar_at,
  or_else-none,
}
use fwknop_go.Koanf.Completion.{
  field_setting_lem, Completion, Decoder, goes_on, or_stop, then_go, went_both, went_on,
}
use fwknop_go.Server.ActionConfig.{ActionsConfig}
use fwknop_go.Server.Loading.{
  Place, LoadError, bad_config_file, env_failed, flags_failed, bad_settings, server_flags,
  server_flag_key, server_env_key, default_settings, string_given, load_file_layer, load_env_layer,
  load_flags_layer, load_store, load_parsed, load_server_config, unmarshal, unmarshal_fields,
  field_names, overridden,
}

-- The keys of the flags are no paths, and no two flags have the same.
flag_keys :
    {K V : Type 0} (o : Koanf K V) (given : Bytes → FlagState)
    → AreKeys (keys_of (settings_of o server_flag_key given server_flags))
flag_keys o given = record { plain = omega arith; distinct = refl }

unmarshal_same :
    {V : Type 0} (d : Decoder V) (a : V → Option ActionsConfig) (g h : Bytes → Option V)
    → ((j : Bytes) → IsPlain j → listed j field_names ≡ true → g j ≡ h j)
    → unmarshal_fields d a g ≡ unmarshal_fields d a h
unfolding unmarshal_fields
unmarshal_same d a g h same =
    rw
      (
        same (codes "udp_port") (omega arith) refl,
        same (codes "bind_address") (omega arith) refl,
        same (codes "log_file") (omega arith) refl,
        same (codes "syslog_identity") (omega arith) refl,
        same (codes "syslog_facility") (omega arith) refl,
        same (codes "verbose") (omega arith) refl,
        same (codes "pid_file") (omega arith) refl,
        same (codes "run_dir") (omega arith) refl,
        same (codes "max_spa_packet_age") (omega arith) refl,
        same (codes "actions") (omega arith) refl,
        same (codes "action_template") (omega arith) refl,
        same (codes "action_dir") (omega arith) refl,
        same (codes "config_file") (omega arith) refl,
        same (codes "access_file") (omega arith) refl,
        same (codes "foreground") (omega arith) refl,
        same (codes "test") (omega arith) refl,
        same (codes "dump_config") (omega arith) refl,
        same (codes "kill") (omega arith) refl,
        same (codes "restart") (omega arith) refl,
        same (codes "status") (omega arith) refl,
        same (codes "version") (omega arith) refl,
      )
      refl

All-listed {ℓ} :
    (P : Bytes → Type ℓ) (k : Bytes) (ks : List Bytes) → listed k ks ≡ true → All P ks → P k
All-listed P k [] h all = absurd (cc)
All-listed P k (j ∷ js) h (p, ps) = elim (Bool-cases (eqb k j)) [
  | inl same ↦ subst P (sym ((eqb_iff k j).0 same)) p
  | inr other ↦ All-listed P k js (rw other at h) ps
]

module _ {K V : Type 0} (p : Place K V) (given : Bytes → FlagState) (environ : List (Bytes × Bytes))
    (entries : List (Bytes × V)) where
  -- The settings of the variables FWKNOPD_...
  abbrev pub server_env : List (Bytes × Bytes)
  server_env = of_env (codes "FWKNOPD_") server_env_key environ

  -- The entries of the configuration file, if it is there.
  abbrev pub file_entries : List (Bytes × V)
  file_entries = if p.is_there (string_given p given (codes "config-file")) then entries else []

  -- A flag that was given, the environment, the file, the default setting, and the flag's default.
  abbrev pub server_layers : Bytes → Option V
  server_layers j =
      or_else (changed_flag (lookup j (settings_of p.koanf server_flag_key given server_flags))) (
        or_else
          (or_else (Option.map p.koanf.of_text (lookup j server_env))
            (or_else (lookup j file_entries) (lookup j (default_settings p.koanf))))
          (lookup j (defaults_of p.koanf server_flag_key given server_flags)))

  -- No setting has the name of a field but for its case, unless the field's own is there.
  abbrev pub NoVariants : Type 0
  NoVariants =
      All
        (λ f. (j : Bytes) → equal_fold j f ≡ true → server_layers f ≡ none → server_layers j ≡ none)
        field_names

  module _ {files : Bytes → Option (List (Bytes × V))} (laws : KoanfLaws p.koanf environ files)
      (env_keys : AreKeys (keys_of server_env))
      (read : files (string_given p given (codes "config-file")) ≡ some entries)
      (file_keys : AreKeys (keys_of entries))
      (defaults : KeepsDefaults p.koanf server_flag_key given server_flags) where
    defaults-IsPlainMap : IsPlainMap p.koanf (default_settings p.koanf)
    defaults-IsPlainMap = record {
      keys = record { plain = omega arith; distinct = refl };
      scalars = grind (arith, laws.int_no_map, laws.text_no_map);
    }

    default_store :
        (j : Bytes)
        → IsPlain j
        → p.koanf.get j (set_all p.koanf.set (default_settings p.koanf) p.koanf.new)
          ≡ lookup j (default_settings p.koanf)
    default_store j hj =
        set_all_lem p.koanf laws (default_settings p.koanf) p.koanf.new j defaults-IsPlainMap hj
        ∙ ap (or_else (lookup j (default_settings p.koanf))) (laws.get-new j)
        ∙ or_else-none (lookup j (default_settings p.koanf))

    went_same : {s t : K} → ◌≡◌ {A = Completion LoadError K} (goes_on s) (goes_on t) → s ≡ t
    went_same h = cc

    file_store :
        (s : K) (j : Bytes)
        → IsPlain j
        → load_file_layer p given (set_all p.koanf.set (default_settings p.koanf) p.koanf.new)
          ≡ goes_on s
        → p.koanf.get j s ≡ or_else (lookup j file_entries) (lookup j (default_settings p.koanf))
    unfolding load_file_layer lookup
    file_store s j hj e =
        elim (Bool-cases (p.is_there (string_given p given (codes "config-file")))) [
          | inl there ↦ rw there (
              laws.get-load_file _ entries j _ s read file_keys hj
                (λ v at.
                  scalar_at p.koanf (default_settings p.koanf) j v defaults-IsPlainMap.scalars
                    (sym (default_store j hj) ∙ at))
                (went_on bad_config_file _ (rw there at e))
              ∙ ap (or_else (lookup j entries)) (default_store j hj))
          | inr missing ↦ rw (missing, ← went_same (rw missing at e)) (default_store j hj)
        ]

    env_store :
        (s t : K) (j : Bytes)
        → IsPlain j
        → load_file_layer p given (set_all p.koanf.set (default_settings p.koanf) p.koanf.new)
          ≡ goes_on s
        → p.koanf.load_env (codes "FWKNOPD_") server_env_key s ≡ some t
        → p.koanf.get j t
          ≡ or_else
              (Option.map p.koanf.of_text (lookup j server_env))
              (or_else (lookup j file_entries) (lookup j (default_settings p.koanf)))
    env_store s t j hj at_file at_env =
        laws.get-load_env (codes "FWKNOPD_") server_env_key j s t env_keys hj at_env
        ∙ ap (or_else (Option.map p.koanf.of_text (lookup j server_env)))
            (file_store s j hj at_file)

    pub store_setting :
        (u : K) (j : Bytes)
        → load_store p given ≡ goes_on u
        → IsPlain j
        → p.koanf.get j u ≡ server_layers j
    unfolding load_store
    store_setting u j e hj =
        let (t, (at_t, at_flags)) = went_both (load_flags_layer p given) _ e in
        let (s, (at_file, at_env)) = went_both (load_env_layer p given) _ at_t in
        laws.get-load_flags (settings_of p.koanf server_flag_key given server_flags) j t u
          (flag_keys p.koanf given) hj (went_on flags_failed _ at_flags)
        ∙ ap (with_flag (lookup j (settings_of p.koanf server_flag_key given server_flags)))
            (env_store s t j hj at_file (went_on env_failed _ at_env))
        ∙ flag_layer p.koanf server_flag_key given server_flags defaults j _

    -- The file, if it is there, the environment and the flags can be loaded into every store.
    pub record LayersLoad : Type 0 where
      pub file :
          (s : K)
          → (t : K) × (p.koanf.load_file (string_given p given (codes "config-file")) s ≡ some t)
      pub env : (s : K) → (t : K) × (p.koanf.load_env (codes "FWKNOPD_") server_env_key s ≡ some t)
      pub flags :
          (s : K)
          → (t : K) × (p.koanf.load_flags (settings_of p.koanf server_flag_key given server_flags) s
              ≡ some t)

    file_goes : LayersLoad → (k : K) → (s : K) × (load_file_layer p given k ≡ goes_on s)
    unfolding load_file_layer
    file_goes loads k =
        elim (Bool-cases (p.is_there (string_given p given (codes "config-file")))) [
          | inl there ↦ let (t, at_file) = loads.file k in (t, rw (there, at_file) refl)
          | inr missing ↦ (k, rw missing refl)
        ]

    store_goes : LayersLoad → (u : K) × (load_store p given ≡ goes_on u)
    unfolding load_store
    store_goes loads =
        let (s, at_file) =
          file_goes loads (set_all p.koanf.set (default_settings p.koanf) p.koanf.new) in
        let (t, at_env) = loads.env s in
        let (u, at_flags) = loads.flags t in (u, rw (at_file, at_env, at_flags) refl)

    fields_lem :
        (u : K)
        → NoVariants
        → load_store p given ≡ goes_on u
        → unmarshal p.decoder p.actions_of (p.koanf.raw_keys u) (λ key. p.koanf.get key u)
          ≡ unmarshal_fields p.decoder p.actions_of server_layers
    unfolding unmarshal
    fields_lem u alone e = unmarshal_same p.decoder p.actions_of _ server_layers (λ f plain known.
        field_setting_lem (p.koanf.raw_keys u) (λ key. p.koanf.get key u) server_layers f plain
          (λ j hj. store_setting u j e hj)
          (All-listed
            (λ n.
              (j : Bytes) → equal_fold j n ≡ true → server_layers n ≡ none → server_layers j ≡ none)
            f field_names known alone))

    -- Where help is not asked for, loadServerConfig gives the fields that every setting's first layer
    -- gives: the flag if it was given, then the variable FWKNOPD_..., the configuration file that
    -- --config-file names, if it is there, the default setting, and the default of the flag; the three
    -- paths that were given as flags are put over them once more. It fails only if a field does not
    -- decode. Assumed is that the keys of the file have no dots and differ, that no two variables name
    -- one setting, that the file, the environment and the flags can be loaded, and that no setting has
    -- the name of a field but for its case, unless the field's own is there.
    pub server_precedence :
        bool_of (given (codes "help")).value ≡ false
        → LayersLoad
        → NoVariants
        → load_server_config p (parsed given)
          ≡ then_go
              (λ cfg. goes_on (overridden p given cfg))
              (or_stop bad_settings (unmarshal_fields p.decoder p.actions_of server_layers))
    unfolding load_server_config load_parsed
    server_precedence no_help loads alone =
        let (u, e) = store_goes loads in
        rw (no_help, e)
          (ap (λ x. then_go (λ cfg. goes_on (overridden p given cfg)) (or_stop bad_settings x))
            (fields_lem u alone e))
