-- ===== src/Convert/Stanzas.antt =====
-- What parseAccessConfig makes of a file of stanzas.
use fwknop_go.Base.{
  has_prefix, ℕ, All-append, ◌+◌, ◌≡◌, refl, ap, ◌∙◌, Bool, true, false, none, some, List, [], ◌∷◌,
  ◌++◌, Bytes, codes, All, Lacks, eqb, map, to_upper, upper, trim_space, cut_at, append_assoc,
  Option,
}
use fwknop_go.Map.{insert}
use fwknop_go.Convert.Lines.{
  split_pair, clean_value, parse_bool, Value, text, flag, ports, Entries, KeyCategory, cat_convert,
  cat_convert_bool, cat_ignore, cat_warn, cat_unknown, cat_convert_list,
}
use fwknop_go.Convert.Reading.{unlines, IsLine, scan_lines-unlines}
use fwknop_go.Convert.Access.{
  AccessState, classify_access_key, parse_port_list, access_setting, access_pair, access_line,
  access_lines, parse_access_config, no_access, finished, new_stanza,
}

-- A stanza of a legacy file: its source, and its settings in order.
pub record LegacyStanza : Type 0 where
  pub source : Bytes
  pub settings : List (Bytes × Bytes)

abbrev pub line : Bytes × Bytes → Bytes
line (key, value) = key ++ (b' ' ∷ value)

abbrev pub source_setting : LegacyStanza → Bytes × Bytes
source_setting st = (codes "SOURCE", st.source)

abbrev pub stanza_lines : LegacyStanza → List Bytes
stanza_lines st = map line (source_setting st ∷ st.settings)

abbrev pub file_lines : List LegacyStanza → List Bytes
file_lines [] = []
file_lines (st ∷ sts) = stanza_lines st ++ file_lines sts

-- A setting whose line is read as its key and its value.
pub record IsLegible (p : Bytes × Bytes) : Type 0 where
  pub whole : IsLine (line p)
  pub no_include : has_prefix (line p) (codes "%include") ≡ false
  pub key_ends : Lacks b' ' p.0
  pub key_trimmed : trim_space p.0 ≡ p.0
  pub value_clean : clean_value p.1 ≡ p.1

abbrev pub converts : KeyCategory → Bool
converts cat_convert = true
converts cat_convert_bool = true
converts cat_convert_list = true
converts cat_ignore = false
converts cat_warn = false
converts cat_unknown = false

abbrev pub as_value : KeyCategory → Bytes → Value
as_value cat_convert_bool v = flag (parse_bool v)
as_value cat_convert_list v = ports (parse_port_list v)
as_value _ v = text v

-- A key that is converted and that does not begin a stanza.
abbrev pub IsConverted : Bytes × Bytes → Type 0
IsConverted (key, value) =
    (eqb (to_upper key) (codes "SOURCE") ≡ false)
    × (converts (classify_access_key (to_upper key)).category ≡ true)

abbrev pub with_settings : Entries → List (Bytes × Bytes) → Entries
with_settings e [] = e
with_settings e ((key, value) ∷ ps) =
    let action = classify_access_key (to_upper key) in
    with_settings (insert action.go_key (as_value action.category value) e) ps

-- The entries that a stanza is converted to.
abbrev pub converted : LegacyStanza → Entries
converted st = with_settings ((codes "source", text st.source) ∷ []) st.settings

pub record IsConvertible (st : LegacyStanza) : Type 0 where
  pub legible : All IsLegible (source_setting st ∷ st.settings)
  pub known : All IsConverted st.settings

line_pair :
    (n : ℕ) (p : Bytes × Bytes) (s : AccessState)
    → IsLegible p
    → access_line n (line p) s ≡ access_pair p.0 p.1 s
unfolding access_line split_pair
line_pair n (key, value) s h =
    rw (h.whole.counts, h.no_include, cut_at b' ' key value h.key_ends)
      (cc (h.key_trimmed, h.value_clean))

abbrev reading : List Entries → Entries → AccessState
reading done e = record { stanzas = done; warnings = []; current = some e }

converted_setting :
    (c : KeyCategory) (key value : Bytes) (e : Entries) (done : List Entries)
    → converts c ≡ true
    → access_setting c (classify_access_key (to_upper key)) key value (reading done e)
      ≡ reading done (insert (classify_access_key (to_upper key)).go_key (as_value c value) e)
unfolding access_setting
converted_setting cat_convert key value e done h = refl
converted_setting cat_convert_bool key value e done h = refl
converted_setting cat_convert_list key value e done h = refl
converted_setting cat_ignore key value e done h = absurd (cc)
converted_setting cat_warn key value e done h = absurd (cc)
converted_setting cat_unknown key value e done h = absurd (cc)

converted_pair :
    (p : Bytes × Bytes) (e : Entries) (done : List Entries)
    → IsConverted p
    → access_pair p.0 p.1 (reading done e) ≡ reading done (with_settings e (p ∷ []))
unfolding access_pair
converted_pair (key, value) e done (no_source, known) =
    rw no_source (converted_setting _ key value e done known)

-- The lines from some number on.
abbrev LeadTo : ℕ → List Bytes → AccessState → List Bytes → AccessState → Type 0
LeadTo n ls s ms t = (m : ℕ) × (access_lines n ls s ≡ access_lines m ms t)

settings_read :
    (ps : List (Bytes × Bytes)) (n : ℕ) (rest : List Bytes) (e : Entries) (done : List Entries)
    → All IsLegible ps
    → All IsConverted ps
    → LeadTo n (map line ps ++ rest) (reading done e) rest (reading done (with_settings e ps))
unfolding access_lines
settings_read [] n rest e done h k = (n, refl)
settings_read (p ∷ ps) n rest e done (hp, hs) (kp, ks) =
    let (m, same) = settings_read ps (n + 1) rest (with_settings e (p ∷ [])) done hs ks in
    (
      m,
      ap (access_lines (n + 1) (map line ps ++ rest))
            (line_pair n p (reading done e) hp ∙ converted_pair p e done kp)
          ∙ same,
    )

source_read :
    (st : LegacyStanza) (n : ℕ) (s : AccessState)
    → IsLegible (source_setting st)
    → access_line n (line (source_setting st)) s ≡ new_stanza st.source s
unfolding access_pair to_upper upper
source_read st n s h = line_pair n (source_setting st) s h ∙ refl

stanza_read :
    (st : LegacyStanza) (n : ℕ) (rest : List Bytes) (done : List Entries)
    (open_one : Option Entries)
    → IsConvertible st
    → LeadTo n
        (stanza_lines st ++ rest)
        (record { stanzas = done; warnings = []; current = open_one })
        rest
        (reading (finished open_one done) (converted st))
unfolding access_lines
stanza_read st n rest done open_one h =
    let (m, same) =
      settings_read st.settings (n + 1) rest ((codes "source", text st.source) ∷ [])
        (finished open_one done) h.legible.1 h.known in
    (
      m,
      ap (access_lines (n + 1) (map line st.settings ++ rest)) (source_read st n _ h.legible.0)
          ∙ same,
    )

file_read :
    (sts : List LegacyStanza) (n : ℕ) (done : List Entries) (e : Entries)
    → All IsConvertible sts
    → (let s = access_lines n (file_lines sts) (reading done e) in
        (finished s.current s.stanzas ≡ done ++ (e ∷ map converted sts)) × (s.warnings ≡ []))
unfolding access_lines
file_read [] n done e h = (refl, refl)
file_read (st ∷ sts) n done e (h, hs) =
    let (m, same) = stanza_read st n (file_lines sts) done (some e) h in
    let (result, quiet) = file_read sts m (done ++ (e ∷ [])) (converted st) hs in
    (
      ap (λ s. finished s.current s.stanzas) same
          ∙ result
          ∙ append_assoc done (e ∷ []) (converted st ∷ map converted sts),
      ap (λ s. s.warnings) same ∙ quiet,
    )

lines_legible : (ps : List (Bytes × Bytes)) → All IsLegible ps → All IsLine (map line ps)
lines_legible [] h = tt
lines_legible (p ∷ ps) (hp, hs) = (hp.whole, lines_legible ps hs)

file_legible : (sts : List LegacyStanza) → All IsConvertible sts → All IsLine (file_lines sts)
file_legible [] h = tt
file_legible (st ∷ sts) (h, hs) =
    All-append IsLine (stanza_lines st) (file_lines sts)
      (lines_legible (source_setting st ∷ st.settings) h.legible) (file_legible sts hs)

-- A legacy file of stanzas, each a SOURCE line and then settings that are converted, whose lines are
-- read as key and value, is converted stanza by stanza, without a warning: each gets its source and
-- its settings, a later one of a key replacing an earlier one.
pub parse_access_config-stanzas :
    (sts : List LegacyStanza)
    → All IsConvertible sts
    → parse_access_config (unlines (file_lines sts)) ≡ (map converted sts, [])
unfolding parse_access_config access_lines
parse_access_config-stanzas [] h =
    ap (λ ls. let s = access_lines 1 ls no_access in (finished s.current s.stanzas, s.warnings))
      (scan_lines-unlines [] tt)
parse_access_config-stanzas (st ∷ sts) (h, hs) =
    let (m, same) = stanza_read st 1 (file_lines sts) [] none h in
    let (result, quiet) = file_read sts m [] (converted st) hs in
    ap (λ ls. let s = access_lines 1 ls no_access in (finished s.current s.stanzas, s.warnings))
      (scan_lines-unlines (file_lines (st ∷ sts)) (file_legible (st ∷ sts) (h, hs)))
    ∙ ap (λ s. (finished s.current s.stanzas, s.warnings)) same
    ∙ cc (result, quiet)
