-- ===== src/Convert/Tests.antt =====
-- Tests of the conversions at small files.
use fwknop_go.Base.{
  eqb, Bool-cases, inl, inr, has_prefix, ◌≡◌, refl, true, false, Option, some, none, List, ◌++◌, [],
  ◌∷◌, arith, Bytes, codes, map, split, cut, upper, to_upper, trim_left_space, trim_right_space,
  trim_space, trim_right,
}
use fwknop_go.Map.{keys_of, lookup_in, lookup, insert, delete}
use fwknop_go.Convert.Lines.{
  is_skipped, scan_lines, split_pair, clean_value, parse_bool, text, flag, ports,
}
use fwknop_go.Convert.Server.{
  classify_server_key, family, next_backend, server_setting, server_key, server_pair, server_line,
  server_lines, parse_server_config, with_template,
}
use fwknop_go.Convert.Backend.{families, detected, backend_detected}
use fwknop_go.Convert.Access.{classify_access_key, parse_port_list, parse_access_config}
use fwknop_go.Convert.Reading.{unlines}
use fwknop_go.Convert.Stanzas.{
  LegacyStanza, file_lines, IsConvertible, converted, parse_access_config-stanzas,
}
use fwknop_go.Convert.ClientKeys.{AreStanzas, parse_client_stanzas-AreStanzas}
use fwknop_go.Convert.Client.{
  Stanzas, entries_of, parse_client_stanzas, client_lines, client_line, client_pair, enter_stanza,
  map_client_key,
}
use fwknop_go.Convert.Sorting.{
  no_repeats, Rearranged, swap, Rearranged-refl, sort_strings, insert_string, leb_bytes,
}
use fwknop_go.Convert.Output.{
  System, Flags, Scalars, Document, run_convert, run_flags, convert_client, client_document,
  map_to_yaml_node, value_text,
}
use fwknop_go.Convert.Document.{convert-order_free}
use fwknop_go.Convert.Written.{document-settings, as_text}

abbrev server_file : Bytes
server_file = unlines (
    codes "UDPSERV_PORT 62202;"
    ∷ codes "FIREWD_INPUT_ACCESS x;"
    ∷ codes "IPT_INPUT y"
    ∷ codes "ENABLE_DIGEST_PERSISTENCE Y;"
    ∷ [])

server_converted :
    with_template (parse_server_config server_file)
    ≡ (codes "action_template", text (codes "firewalld.yaml"))
      ∷ (codes "enable_digest_persistence", flag true)
      ∷ (codes "udp_port", text (codes "62202"))
      ∷ []
unfolding with_template parse_server_config scan_lines split trim_space trim_left_space
    trim_right_space server_lines server_line server_pair server_key server_setting is_skipped
    split_pair cut clean_value trim_right parse_bool to_upper upper family has_prefix next_backend
    classify_server_key insert delete
server_converted = refl

backend_detected_example :
    (parse_server_config server_file).fw_backend ≡ detected (families (scan_lines server_file))
backend_detected_example = backend_detected server_file

abbrev test_legacy : LegacyStanza
test_legacy = record {
  source = codes "10.0.0.0/8";
  settings =
      (codes "KEY", codes "some key")
      ∷ (codes "OPEN_PORTS", codes "tcp/22, udp/53")
      ∷ (codes "REQUIRE_SOURCE_ADDRESS", codes "Y")
      ∷ [];
}

test_legacy-IsConvertible : IsConvertible test_legacy
unfolding is_skipped trim_space trim_left_space trim_right_space has_prefix clean_value trim_right
    classify_access_key to_upper upper
test_legacy-IsConvertible = record {
  legible = (
    record {
      whole = record { counts = refl; one_line = omega arith; fits = refl; trimmed = refl };
      no_include = refl;
      key_ends = omega arith;
      key_trimmed = refl;
      value_clean = refl;
    },
    (
      record {
        whole = record { counts = refl; one_line = omega arith; fits = refl; trimmed = refl };
        no_include = refl;
        key_ends = omega arith;
        key_trimmed = refl;
        value_clean = refl;
      },
      (
        record {
          whole = record { counts = refl; one_line = omega arith; fits = refl; trimmed = refl };
          no_include = refl;
          key_ends = omega arith;
          key_trimmed = refl;
          value_clean = refl;
        },
        (
          record {
            whole = record { counts = refl; one_line = omega arith; fits = refl; trimmed = refl };
            no_include = refl;
            key_ends = omega arith;
            key_trimmed = refl;
            value_clean = refl;
          },
          tt,
        ),
      ),
    ),
  );
  known = ((refl, refl), ((refl, refl), ((refl, refl), tt)));
}

converted_entries :
    converted test_legacy
    ≡ (codes "require_source_address", flag true)
      ∷ (codes "open_ports", ports (codes "tcp/22" ∷ codes "udp/53" ∷ []))
      ∷ (codes "key", text (codes "some key"))
      ∷ (codes "source", text (codes "10.0.0.0/8"))
      ∷ []
unfolding classify_access_key to_upper upper insert delete parse_port_list split trim_space
    trim_left_space trim_right_space parse_bool
converted_entries = refl

parse_access_config-stanzas_example :
    parse_access_config (unlines (file_lines (test_legacy ∷ test_legacy ∷ [])))
    ≡ (map converted (test_legacy ∷ test_legacy ∷ []), [])
parse_access_config-stanzas_example =
    parse_access_config-stanzas (test_legacy ∷ test_legacy ∷ [])
      (test_legacy-IsConvertible, (test_legacy-IsConvertible, tt))

parse_client_stanzas-AreStanzas_example : AreStanzas (parse_client_stanzas server_file).stanzas
parse_client_stanzas-AreStanzas_example = parse_client_stanzas-AreStanzas server_file

-- An order that swaps the first two keys.
abbrev swapped : List Bytes → List Bytes
swapped [] = []
swapped (a ∷ []) = a ∷ []
swapped (a ∷ b ∷ ks) = b ∷ a ∷ ks

swapped_order : (place : Bytes) (ks : List Bytes) → Rearranged (swapped ks) ks
swapped_order place [] = Rearranged-refl []
swapped_order place (a ∷ []) = Rearranged-refl (a ∷ [])
swapped_order place (a ∷ b ∷ ks) = swap

abbrev client_file : Bytes
client_file = unlines (
    codes "SPA_SERVER 10.0.0.1"
    ∷ codes "[site]"
    ∷ codes "KEY some key"
    ∷ codes "ACCESS tcp/22"
    ∷ codes "SPA_SERVER 10.0.0.2"
    ∷ [])

-- A text for a document.
abbrev flat_node : Scalars → Bytes
flat_node [] = []
flat_node ((k, v) ∷ m) = k ++ (b'=' ∷ (v ++ (b';' ∷ flat_node m)))

abbrev flat : Document → Bytes
flat [] = []
flat ((n, m) ∷ doc) = n ++ (b':' ∷ (flat_node m ++ flat doc))

abbrev test_system : System
test_system = record {
  read_file = λ path. some client_file;
  marshal_document = λ doc. some (flat doc);
  marshal_map = λ m. none;
  marshal_maps = λ ms. none;
  usage = codes "usage";
  build = none;
}

abbrev test_flags : Option Flags
test_flags =
    some (record {
      conv_type = codes "client";
      input = codes "rc";
      help = false;
      show_version = false;
    })

convert-order_free_example :
    run_convert test_system (λ place ks. ks) test_flags
    ≡ run_convert test_system (λ place. swapped) test_flags
convert-order_free_example =
    convert-order_free (λ place ks. ks) (λ place. swapped) (λ place. Rearranged-refl) swapped_order
      test_system test_flags

client_printed :
    (run_convert test_system (λ place. swapped) test_flags).stdout
    ≡ codes "default:destination=10.0.0.1;site:access=tcp/22;destination=10.0.0.2;key=some key;"
unfolding run_convert run_flags convert_client client_document map_to_yaml_node sort_strings
    insert_string leb_bytes value_text parse_client_stanzas scan_lines split trim_space
    trim_left_space trim_right_space client_lines client_line client_pair enter_stanza
    map_client_key to_upper upper split_pair cut is_skipped lookup insert delete
client_printed = refl

abbrev client_stanzas : Stanzas
client_stanzas = (parse_client_stanzas client_file).stanzas

client_names_once : no_repeats (keys_of client_stanzas) ≡ true
unfolding parse_client_stanzas scan_lines split trim_space trim_left_space trim_right_space
    client_lines client_line client_pair enter_stanza map_client_key to_upper upper split_pair cut
    is_skipped lookup insert delete
client_names_once = refl

client_keys_once : (n : Bytes) → no_repeats (keys_of (entries_of n client_stanzas)) ≡ true
unfolding parse_client_stanzas scan_lines split trim_space trim_left_space trim_right_space
    client_lines client_line client_pair enter_stanza map_client_key to_upper upper split_pair cut
    is_skipped lookup insert delete
client_keys_once n = elim (Bool-cases (eqb (codes "default") n)) [
  | inl default ↦ ground (arith, default)
  | inr other ↦ ground (arith, other)
]

document-settings_example :
    ((k n : Bytes)
      → lookup_in k (lookup n (client_document (λ place. swapped) client_stanzas))
        ≡ as_text (lookup_in k (lookup n client_stanzas)))
    × (no_repeats (keys_of (client_document (λ place. swapped) client_stanzas)) ≡ true)
    × ((n : Bytes) (s : Scalars)
        → lookup n (client_document (λ place. swapped) client_stanzas) ≡ some s
        → no_repeats (keys_of s) ≡ true)
document-settings_example =
    document-settings (λ place. swapped) swapped_order client_stanzas client_names_once
      client_keys_once
