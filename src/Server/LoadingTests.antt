-- ===== src/Server/LoadingTests.antt =====
-- Tests of loadServerConfig with a store that is a function.
use fwknop_go.Base.{
  ◌≡◌, refl, pos, Option, equal_fold, eqb_iff, Bool-cases, inl, inr, true, false, none, some, List,
  [], ◌∷◌, arith, map, Bytes, codes, eqb, if◌then◌else◌, to_lower, lower, has_prefix, trim_prefix,
}
use fwknop_go.Map.{lookup, keys_of}
use fwknop_go.Koanf.{settings_of, set_all, FlagState, string_flag, bool_flag, parsed}
use fwknop_go.Koanf.Layers.{KeepsDefaults, defaults_of}
use fwknop_go.Koanf.Fixtures.{
  Setting, text_setting, int_setting, bool_setting, Store, test_koanf, test-KoanfLaws, test_decoder,
  default_of,
}
use fwknop_go.Koanf.Completion.{fold_match, goes_on, or_stop, then_go}
use fwknop_go.Server.Loading.{
  Place, bad_settings, server_flags, server_flag_key, load_server_config, load_store,
  default_settings, load_file_layer, unmarshal_fields, overridden,
}
use fwknop_go.Server.Precedence.{server_env, NoVariants, server_layers, server_precedence}

abbrev test_given : Bytes → FlagState
test_given name =
    if eqb name (codes "pid-file")
    then record { changed = true; value = string_flag (codes "/tmp/pid") }
    else if eqb name (codes "foreground")
    then record { changed = true; value = bool_flag true }
    else record { changed = false; value = default_of server_flags name }

abbrev test_environ : List (Bytes × Bytes)
test_environ =
    (codes "FWKNOPD_PID_FILE", codes "/env/pid")
    ∷ (codes "FWKNOPD_RUN_DIR", codes "/env/run")
    ∷ (codes "FWKNOP_ACCESS", codes "tcp/80")
    ∷ []

abbrev test_entries : List (Bytes × Setting)
test_entries =
    (codes "run_dir", text_setting (codes "/file/run"))
    ∷ (codes "udp_port", int_setting (pos 62300))
    ∷ []

abbrev test_place : Place Store Setting
test_place = record {
  koanf = test_koanf test_environ (λ path. some test_entries);
  decoder = test_decoder;
  actions_of = λ v. none;
  is_there = λ path. true;
}

test_defaults :
    KeepsDefaults
      (test_koanf test_environ (λ path. some test_entries))
      server_flag_key
      test_given
      server_flags
test_defaults = ground arith

abbrev test_layers : Bytes → Option Setting
test_layers = server_layers test_place test_given test_environ test_entries

own :
    (f : Bytes) {v : Setting}
    → test_layers f ≡ some v
    → (j : Bytes) → equal_fold j f ≡ true
    → test_layers f ≡ none
    → test_layers j ≡ none
own f h j e n = absurd (cc (h, n))

lookup-fold {ℓ} :
    {A : Type ℓ} (m : List (Bytes × A)) (f j : Bytes)
    → fold_match (keys_of m) f ≡ none
    → equal_fold j f ≡ true
    → lookup j m ≡ none
unfolding lookup
lookup-fold [] f j h e = refl
lookup-fold ((k, v) ∷ m) f j h e = elim (Bool-cases (eqb k j)) [
  | inl same ↦ let k_is : k ≡ j = (eqb_iff k j).0 same in absurd (cc (rw (k_is, e) at h))
  | inr other ↦ elim (Bool-cases (equal_fold k f)) [
    | inl folds ↦ absurd (cc (rw folds at h))
    | inr apart ↦ rw other (lookup-fold m f j (rw apart at h) e)
  ]
]

variant-free :
    (f : Bytes)
    → fold_match (keys_of (settings_of test_place.koanf server_flag_key test_given server_flags)) f
      ≡ none
    → fold_match (keys_of (server_env test_place test_given test_environ test_entries)) f ≡ none
    → fold_match (keys_of test_entries) f ≡ none
    → fold_match (keys_of (default_settings test_place.koanf)) f ≡ none
    → fold_match (keys_of (defaults_of test_place.koanf server_flag_key test_given server_flags)) f
      ≡ none
    → (j : Bytes) → equal_fold j f ≡ true
    → test_layers f ≡ none
    → test_layers j ≡ none
variant-free f a b c d g j e n =
    rw
      (
        lookup-fold (settings_of test_place.koanf server_flag_key test_given server_flags) f j a e,
        lookup-fold (server_env test_place test_given test_environ test_entries) f j b e,
        lookup-fold test_entries f j c e,
        lookup-fold (default_settings test_place.koanf) f j d e,
        lookup-fold (defaults_of test_place.koanf server_flag_key test_given server_flags) f j g e,
      )
      refl

no_variants : NoVariants test_place test_given test_environ test_entries
unfolding equal_fold lookup to_lower lower has_prefix trim_prefix
no_variants = (
  own (codes "udp_port") refl,
  (
    own (codes "bind_address") refl,
    (
      own (codes "log_file") refl,
      (
        own (codes "syslog_identity") refl,
        (
          own (codes "syslog_facility") refl,
          (
            own (codes "verbose") refl,
            (
              own (codes "pid_file") refl,
              (
                own (codes "run_dir") refl,
                (
                  own (codes "max_spa_packet_age") refl,
                  (
                    variant-free (codes "actions") refl refl refl refl refl,
                    (
                      variant-free (codes "action_template") refl refl refl refl refl,
                      (
                        own (codes "action_dir") refl,
                        (
                          own (codes "config_file") refl,
                          (
                            own (codes "access_file") refl,
                            (
                              own (codes "foreground") refl,
                              (
                                own (codes "test") refl,
                                (
                                  own (codes "dump_config") refl,
                                  (
                                    own (codes "kill") refl,
                                    (
                                      own (codes "restart") refl,
                                      (own (codes "status") refl, (own (codes "version") refl, tt)),
                                    ),
                                  ),
                                ),
                              ),
                            ),
                          ),
                        ),
                      ),
                    ),
                  ),
                ),
              ),
            ),
          ),
        ),
      ),
    ),
  ),
)

server_precedence_example :
    load_server_config test_place (parsed test_given)
    ≡ then_go
        (λ cfg. goes_on (overridden test_place test_given cfg))
        (or_stop bad_settings (
          unmarshal_fields test_decoder
            (λ v. none)
            (server_layers test_place test_given test_environ test_entries)))
unfolding load_store load_file_layer set_all lookup to_lower lower has_prefix trim_prefix
server_precedence_example =
    server_precedence test_place test_given test_environ test_entries
      (test-KoanfLaws test_environ (λ path. some test_entries))
      (record { plain = omega arith; distinct = refl }) refl
      (record { plain = omega arith; distinct = refl }) test_defaults refl
      (record { file = λ s. (_, refl); env = λ s. (_, refl); flags = λ s. (_, refl) }) no_variants

layers_read :
    map (server_layers test_place test_given test_environ test_entries) (
      codes "pid_file"
      ∷ codes "run_dir"
      ∷ codes "udp_port"
      ∷ codes "bind_address"
      ∷ codes "test"
      ∷ [])
    ≡ some (text_setting (codes "/tmp/pid"))
      ∷ some (text_setting (codes "/env/run"))
      ∷ some (int_setting (pos 62300))
      ∷ some (text_setting (codes "0.0.0.0"))
      ∷ some (bool_setting false)
      ∷ []
unfolding lookup to_lower lower has_prefix trim_prefix
layers_read = refl
