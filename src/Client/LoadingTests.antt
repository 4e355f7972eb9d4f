-- ===== src/Client/LoadingTests.antt =====
-- Tests of loadConfig with a store that is a function.
use fwknop_go.Base.{
  ◌≡◌, refl, true, false, none, some, List, [], ◌∷◌, ◌++◌, arith, map, Bytes, codes, eqb,
  if◌then◌else◌, to_lower, lower, has_prefix, trim_prefix,
}
use fwknop_go.Map.{lookup}
use fwknop_go.Koanf.{set_all, FlagState, string_flag, parsed}
use fwknop_go.Koanf.Layers.{KeepsDefaults}
use fwknop_go.Koanf.Fixtures.{
  test_decoder, default_of, Setting, text_setting, Store, test_koanf, test-KoanfLaws,
}
use fwknop_go.Koanf.Completion.{or_stop}
use fwknop_go.Client.Flags.{client_flags, flag_key}
use fwknop_go.Client.RcFile.{load_map_into_koanf, load_rc_yaml, load_rc_file}
use fwknop_go.Client.Loading.{
  Place, bad_settings, load_config, load_store, load_rc, rc_path, unmarshal,
}
use fwknop_go.Client.Precedence.{client_layers, client_precedence}

abbrev test_given : Bytes → FlagState
test_given name =
    if eqb name (codes "access")
    then record { changed = true; value = string_flag (codes "tcp/22") }
    else if eqb name (codes "named-config")
    then record { changed = true; value = string_flag (codes "site") }
    else record { changed = false; value = default_of client_flags name }

abbrev test_environ : List (Bytes × Bytes)
test_environ =
    (codes "FWKNOP_ACCESS", codes "tcp/80")
    ∷ (codes "FWKNOP_ALLOW_IP", codes "10.0.0.9")
    ∷ (codes "HOME", codes "/home/bob")
    ∷ []

abbrev test_rc : List (Bytes × List (Bytes × Setting))
test_rc =
    (
      codes "default",
      (codes "destination", text_setting (codes "a"))
          ∷ (codes "allow_ip", text_setting (codes "b"))
          ∷ [],
    )
    ∷ (codes "site", (codes "destination", text_setting (codes "c")) ∷ [])
    ∷ []

abbrev test_place : Place Store Setting
test_place = record {
  koanf = test_koanf test_environ (λ path. none);
  decoder = test_decoder;
  home = some (codes "/home/bob");
  join = λ d f. d ++ (b'/' ∷ f);
  read_file = λ path. some [];
  is_missing = λ path. false;
  parse_yaml = λ content. some test_rc;
}

test_defaults :
    KeepsDefaults (test_koanf test_environ (λ path. none)) flag_key test_given client_flags
test_defaults = ground arith

client_precedence_example :
    load_config test_place (parsed test_given)
    ≡ or_stop bad_settings
        (unmarshal test_decoder (client_layers test_place test_given test_environ))
unfolding load_store load_rc rc_path load_rc_file load_rc_yaml load_map_into_koanf set_all lookup
    to_lower lower has_prefix trim_prefix
client_precedence_example =
    client_precedence test_place test_given test_environ
      (test-KoanfLaws test_environ (λ path. none)) (record { plain = omega arith; distinct = refl })
      (
        record {
          keys = record { plain = omega arith; distinct = refl };
          scalars = (refl, (refl, tt));
        },
        (
          record { keys = record { plain = omega arith; distinct = refl }; scalars = (refl, tt) },
          tt,
        ),
      )
      test_defaults refl refl refl (record { env = λ s. (_, refl); flags = λ s. (_, refl) })

layers_read :
    map
      (client_layers test_place test_given test_environ)
      (codes "access" ∷ codes "allow_ip" ∷ codes "destination" ∷ codes "digest_type" ∷ [])
    ≡ some (text_setting (codes "tcp/22"))
      ∷ some (text_setting (codes "10.0.0.9"))
      ∷ some (text_setting (codes "c"))
      ∷ some (text_setting (codes "sha256"))
      ∷ []
unfolding rc_path lookup to_lower lower has_prefix trim_prefix flag_key
layers_read = refl
