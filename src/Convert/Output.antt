-- ===== src/Convert/Output.antt =====
-- cmd/fwknop-convert: main.go with convertClient, convertServer and convertAccess, and mapToYAMLNode of
-- helpers.go. The parsed flags, the files, yaml.Marshal, the text of the usage and the order in which
-- Go goes through a map are arguments.
use fwknop_go.Base.{
  bool_text, list_text, Bool, true, false, Option, none, some, List, [], ◌∷◌, ◌++◌, Bytes, codes,
  eqb, if◌then◌else◌,
}
use fwknop_go.Spa.Validate.{is_empty}
use fwknop_go.Map.{lookup, keys_of}
use fwknop_go.BuildInfo.{get_info, info_string, Built}
use fwknop_go.Convert.Lines.{Value, text, flag, ports, Entries}
use fwknop_go.Convert.Sorting.{sort_strings}
use fwknop_go.Convert.Client.{Stanzas, entries_of, parse_client_stanzas}
use fwknop_go.Convert.Server.{parse_server_config, with_template}
use fwknop_go.Convert.Access.{parse_access_config}

-- The order in which `range` goes through the keys of a map. The text names the place: it is empty for
-- the stanzas, and a stanza's name for its settings.
abbrev pub Order : Type 0
Order = Bytes → List Bytes → List Bytes

-- fmt.Sprintf("%v", m[k]); a key that is missing gives nil.
unfoldable pub value_text : Option Value → Bytes
value_text none = codes "<nil>"
value_text (some (text t)) = t
value_text (some (flag b)) = bool_text b
value_text (some (ports ps)) = list_text ps

-- A mapping node whose keys and values are scalars, as the pairs of its Content.
abbrev pub Scalars : Type 0
Scalars = List (Bytes × Bytes)

abbrev pub scalars : Entries → List Bytes → Scalars
scalars m [] = []
scalars m (k ∷ ks) = (k, value_text (lookup k m)) ∷ scalars m ks

-- The keys, in the order of the map, are an argument.
unfoldable pub map_to_yaml_node : List Bytes → Entries → Scalars
map_to_yaml_node ks m = scalars m (sort_strings ks)

abbrev pub Document : Type 0
Document = List (Bytes × Scalars)

-- The names but "default".
abbrev pub other_names : List Bytes → List Bytes
other_names [] = []
other_names (n ∷ ns) =
    let rest = other_names ns in if eqb n (codes "default") then rest else n ∷ rest

module _ (order : Order) where
  abbrev pub stanza_node : Bytes → Entries → Scalars
  stanza_node name m = map_to_yaml_node (order name (keys_of m)) m

  abbrev pub default_node : Option Entries → Document
  default_node none = []
  default_node (some m) = (codes "default", stanza_node (codes "default") m) ∷ []

  abbrev pub stanza_nodes : Stanzas → List Bytes → Document
  stanza_nodes ss [] = []
  stanza_nodes ss (n ∷ ns) = (n, stanza_node n (entries_of n ss)) ∷ stanza_nodes ss ns

  -- "default" comes first, the other stanzas are sorted.
  unfoldable pub client_document : Stanzas → Document
  client_document ss =
      default_node (lookup (codes "default") ss)
      ++ stanza_nodes ss (sort_strings (other_names (order [] (keys_of ss))))

pub data ConvertError : Type 0 where
  bad_flags input_required unknown_type : ConvertError
  not_read no_stanzas no_access_stanzas not_marshalled : ConvertError

-- What goes to the two outputs, and the error at the end, if there is one.
pub record Conversion : Type 0 where
  pub stdout : Bytes
  pub stderr : List Bytes
  pub failure : Option ConvertError

-- The files, yaml.Marshal for the three kinds of values, and the rest of the world.
pub record System : Type 0 where
  pub read_file : Bytes → Option Bytes
  pub marshal_document : Document → Option Bytes
  pub marshal_map : Entries → Option Bytes
  pub marshal_maps : List Entries → Option Bytes
  pub usage : Bytes
  pub build : Option Built

abbrev pub fails_with : List Bytes → ConvertError → Conversion
fails_with lines e = record { stdout = []; stderr = lines; failure = some e }

abbrev pub prints : List Bytes → Bytes → Conversion
prints lines out = record { stdout = out; stderr = lines; failure = none }

abbrev pub warnings_printed : List Bytes → List Bytes
warnings_printed [] = []
warnings_printed (w ∷ ws) = (codes "warning: " ++ w) ∷ warnings_printed ws

-- What is printed in front, and the marshalled value, unless it is an error.
abbrev pub print_yaml : List Bytes → Bytes → Option Bytes → Conversion
print_yaml lines front none = fails_with lines not_marshalled
print_yaml lines front (some out) = prints lines (front ++ out)

-- len(m) == 0, for a map and for a slice.
abbrev pub has_none {ℓ} : {A : Type ℓ} → List A → Bool
has_none [] = true
has_none (a ∷ rest) = false

abbrev pub firewall_comment : Bytes → Bytes
firewall_comment fw =
    if is_empty fw
    then []
    else codes "# Detected "
      ++ (fw ++ (codes " firewall configuration from legacy config." ++ (b'\n' ∷ [])))

-- The flags of main.go after pflag.
pub record Flags : Type 0 where
  pub conv_type : Bytes
  pub input : Bytes
  pub help : Bool
  pub show_version : Bool

abbrev pub version : Bytes
version = codes "0.1.0"

module _ (sys : System) (order : Order) where
  unfoldable pub convert_client : Option Bytes → Conversion
  convert_client none = fails_with [] not_read
  convert_client (some content) =
      let s = parse_client_stanzas content in
      if has_none s.stanzas
      then fails_with (warnings_printed s.warnings) no_stanzas
      else print_yaml (warnings_printed s.warnings) []
          (sys.marshal_document (client_document order s.stanzas))

  unfoldable pub convert_server : Option Bytes → Conversion
  convert_server none = fails_with [] not_read
  convert_server (some content) =
      let s = parse_server_config content in
      print_yaml (warnings_printed s.warnings) (firewall_comment s.fw_backend)
        (sys.marshal_map (with_template s))

  abbrev pub access_printed : List Entries × List Bytes → Conversion
  access_printed (stanzas, warnings) =
      if has_none stanzas
      then fails_with (warnings_printed warnings) no_access_stanzas
      else print_yaml (warnings_printed warnings) [] (sys.marshal_maps stanzas)

  unfoldable pub convert_access : Option Bytes → Conversion
  convert_access none = fails_with [] not_read
  convert_access (some content) = access_printed (parse_access_config content)

  abbrev pub version_line : Bytes
  version_line =
      codes "fwknop-convert version " ++ (info_string (get_info sys.build version) ++ (b'\n' ∷ []))

  unfoldable pub run_flags : Flags → Conversion
  run_flags f =
      if f.help
      then prints (sys.usage ∷ []) []
      else if f.show_version
      then prints [] version_line
      else if is_empty f.input
      then fails_with (sys.usage ∷ []) input_required
      else if eqb f.conv_type (codes "client")
      then convert_client (sys.read_file f.input)
      else if eqb f.conv_type (codes "server")
      then convert_server (sys.read_file f.input)
      else if eqb f.conv_type (codes "access")
      then convert_access (sys.read_file f.input)
      else fails_with (sys.usage ∷ []) unknown_type

  -- `none`: the flags cannot be parsed.
  unfoldable pub run_convert : Option Flags → Conversion
  unfolding run_flags
  run_convert none = fails_with [] bad_flags
  run_convert (some f) = run_flags f
