-- ===== src/Client/RcFile.antt =====
-- cmd/fwknop/rcfile.go: the rc file. Its reading, yaml.Unmarshal and koanf are arguments; the
-- entries of a stanza are set in the order of a list, where Go leaves the order open.
use fwknop_go.Base.{
  ℕ, ◌==◌, Bool, false, not, ◌||◌, ◌&&◌, Option, none, some, List, [], ◌∷◌, Bytes, codes, eqb,
  if◌then◌else◌, split, trim_space,
}
use fwknop_go.Spa.Validate.{is_empty}
use fwknop_go.Map.{lookup}
use fwknop_go.Koanf.{set_all}

abbrev first_byte_is : ℕ → Bytes → Bool
first_byte_is b [] = false
first_byte_is b (c ∷ s) = c == b

-- The first line that is neither empty nor a comment decides.
abbrev legacy_lines : List Bytes → Bool
legacy_lines [] = false
legacy_lines (l ∷ ls) =
    let line = trim_space l in
    let rest = legacy_lines ls in
    if is_empty line || first_byte_is b'#' line || first_byte_is b';' line
    then rest
    else first_byte_is b'[' line

unfoldable pub looks_like_legacy : Bytes → Bool
looks_like_legacy content = legacy_lines (split b'\n' content)

pub data RcError : Type 0 where
  no_file legacy_format bad_yaml stanza_not_found : RcError

pub data Loaded {ℓ} (K : Type ℓ) : Type ℓ where
  loaded : K → Loaded K
  not_loaded : RcError → Loaded K

abbrev pub RcStanzas : Type 0 → Type 0
RcStanzas V = List (Bytes × List (Bytes × V))

module _ {K V : Type 0} (set : Bytes → V → K → K) where
  unfoldable pub load_map_into_koanf : List (Bytes × V) → K → K
  unfolding set_all
  load_map_into_koanf m k = set_all set m k

  abbrev pub load_stanza : Option (List (Bytes × V)) → K → K
  load_stanza none k = k
  load_stanza (some m) k = load_map_into_koanf m k

  abbrev pub load_named : Option (List (Bytes × V)) → K → Loaded K
  load_named none k = not_loaded stanza_not_found
  load_named (some m) k = loaded (load_map_into_koanf m k)

  abbrev pub load_stanzas : Bytes → K → Option (RcStanzas V) → Loaded K
  load_stanzas stanza k none = not_loaded bad_yaml
  load_stanzas stanza k (some ss) =
      let with_default = load_stanza (lookup (codes "default") ss) k in
      if not (is_empty stanza) && not (eqb stanza (codes "default"))
      then load_named (lookup stanza ss) with_default
      else loaded with_default

  abbrev pub explained : Bytes → Loaded K → Loaded K
  explained content (loaded k) = loaded k
  explained content (not_loaded e) =
      if looks_like_legacy content then not_loaded legacy_format else not_loaded e

module _ {K V : Type 0} (set : Bytes → V → K → K) (parse_yaml : Bytes → Option (RcStanzas V)) where
  unfoldable pub load_rc_yaml : K → Bytes → Bytes → Loaded K
  load_rc_yaml k content stanza = load_stanzas set stanza k (parse_yaml content)

  -- `none` is a file that cannot be read.
  unfoldable pub load_rc_file : K → Option Bytes → Bytes → Loaded K
  load_rc_file k none stanza = not_loaded no_file
  load_rc_file k (some content) stanza = explained set content (load_rc_yaml k content stanza)
