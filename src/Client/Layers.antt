-- ===== src/Client/Layers.antt =====
-- Which layer a setting of the client comes from: flag, environment, stanza, "default" stanza, default.
use fwknop_go.Base.{
  or_nothing, ◌≡◌, refl, sym, ap, ◌∙◌, Bool, not, ◌&&◌, ◌||◌, Option, none, some, List, [], ◌∷◌,
  Bytes, All, codes, eqb, if◌then◌else◌, Bool-cases, Option-cases, inl, inr, ◌⊎◌, ◌≢◌,
}
use fwknop_go.Spa.Validate.{is_empty}
use fwknop_go.Map.{lookup_in, lookup}
use fwknop_go.Koanf.{Koanf, KoanfLaws, FlagState, or_else, IsPlain, string_of, bool_of}
use fwknop_go.Koanf.Layers.{IsPlainMap, set_all_lem, or_else-none}
use fwknop_go.Koanf.Completion.{Completion, goes_on}
use fwknop_go.Client.Loading.{Place, LoadError, value_of, rc_path, after_rc, load_rc}
use fwknop_go.Client.RcFile.{
  RcError, bad_yaml, stanza_not_found, looks_like_legacy, loaded, not_loaded, RcStanzas,
  load_map_into_koanf, load_stanza, load_stanzas, load_rc_yaml, load_rc_file, explained,
}

-- A stanza is named, and it is not "default".
abbrev pub names_other : Bytes → Bool
names_other stanza = not (is_empty stanza) && not (eqb stanza (codes "default"))

-- The stanza that was named, if any.
abbrev pub named_stanza : {V : Type 0} → Bytes → RcStanzas V → Option (List (Bytes × V))
named_stanza stanza ss = if names_other stanza then lookup stanza ss else none

abbrev pub ArePlain : {K V : Type 0} → Koanf K V → RcStanzas V → Type 0
ArePlain o = All (λ e. IsPlainMap o e.1)

module _ {K V : Type 0} (o : Koanf K V) {environ : List (Bytes × Bytes)}
    {files : Bytes → Option (List (Bytes × V))} (laws : KoanfLaws o environ files) where
  load_map_lem :
      (m : List (Bytes × V)) (s : K) (j : Bytes)
      → IsPlainMap o m
      → IsPlain j
      → o.get j (load_map_into_koanf o.set m s) ≡ or_else (lookup j m) (o.get j s)
  unfolding load_map_into_koanf
  load_map_lem m s j plain hj = set_all_lem o laws m s j plain hj

  load_stanza_lem :
      (m : Option (List (Bytes × V))) (s : K) (j : Bytes)
      → ((e : List (Bytes × V)) → m ≡ some e → IsPlainMap o e)
      → IsPlain j
      → o.get j (load_stanza o.set m s) ≡ or_else (lookup_in j m) (o.get j s)
  load_stanza_lem none s j h hj = refl
  load_stanza_lem (some m) s j h hj = load_map_lem m s j (h m refl) hj

  plain_at :
      (n : Bytes) (ss : RcStanzas V) (e : List (Bytes × V))
      → ArePlain o ss
      → lookup n ss ≡ some e
      → IsPlainMap o e
  unfolding lookup
  plain_at n [] e h there = absurd (cc)
  plain_at n ((i, m) ∷ ss) e (hm, hs) there = elim (Bool-cases (eqb i n)) [
    | inl here ↦ let same : m ≡ e = cc (rw here at there) in rw (← same) hm
    | inr later ↦ plain_at n ss e hs (rw later at there)
  ]

  loaded_same : {s t : K} → loaded s ≡ loaded t → s ≡ t
  loaded_same h = cc

  load_stanzas_lem :
      (stanza : Bytes) (ss : RcStanzas V) (k s : K) (j : Bytes)
      → ArePlain o ss
      → IsPlain j
      → load_stanzas o.set stanza k (some ss) ≡ loaded s
      → o.get j s
        ≡ or_else
            (lookup_in j (named_stanza stanza ss))
            (or_else (lookup_in j (lookup (codes "default") ss)) (o.get j k))
  load_stanzas_lem stanza ss k s j h hj e =
      let at_default =
        load_stanza_lem (lookup (codes "default") ss) k j
          (λ m there. plain_at (codes "default") ss m h there) hj in
      elim (Bool-cases (names_other stanza)) [
        | inr none_named ↦
            let same = loaded_same (rw none_named at e) in rw none_named (rw (← same) at_default)
        | inl is_named ↦ elim (Option-cases (lookup stanza ss)) [
          | inl missing ↦ absurd (cc (rw (is_named, missing) at e))
          | inr (m, there) ↦
              let same = loaded_same (rw (is_named, there) at e) in
              let plain = plain_at stanza ss m h there in
              rw (is_named, there, ← same)
                (load_map_lem m _ j plain hj ∙ ap (or_else (lookup j m)) at_default)
        ]
      ]

stanzas_end :
    {K V : Type 0} (set : Bytes → V → K → K) (stanza : Bytes) (k : K) (ss : RcStanzas V)
    → ((t : K) × (load_stanzas set stanza k (some ss) ≡ loaded t))
      ⊎ (load_stanzas set stanza k (some ss) ≡ not_loaded stanza_not_found)
stanzas_end set stanza k ss = elim (Bool-cases (names_other stanza)) [
  | inr none_named ↦ inl (load_stanza set (lookup (codes "default") ss) k, rw none_named refl)
  | inl named ↦ elim (Option-cases (lookup stanza ss)) [
    | inl missing ↦ inr (rw (named, missing) refl)
    | inr (m, there) ↦ inl (
      load_map_into_koanf set m (load_stanza set (lookup (codes "default") ss) k),
      rw (named, there) refl,
    )
  ]
]

module _ {K V : Type 0} (p : Place K V) (given : Bytes → FlagState) where
  abbrev pub yaml_of : Option Bytes → RcStanzas V
  yaml_of none = []
  yaml_of (some content) = or_nothing (p.parse_yaml content)

  abbrev pub rc_stanzas : RcStanzas V
  rc_stanzas =
      if bool_of (value_of given (codes "no-rc-file")) || is_empty (rc_path p given)
      then []
      else yaml_of (p.read_file (rc_path p given))

  abbrev pub stanza_name : Bytes
  stanza_name = string_of (value_of given (codes "named-config"))

  -- What the rc file says of a setting: the named stanza, then "default".
  abbrev pub rc_setting : RcStanzas V → Bytes → Option V
  rc_setting ss j =
      or_else (lookup_in j (named_stanza stanza_name ss))
        (lookup_in j (lookup (codes "default") ss))

  rc_setting-none : (j : Bytes) → rc_setting [] j ≡ none
  unfolding lookup
  rc_setting-none j = elim (Bool-cases (names_other stanza_name)) [
    | inl named ↦ rw named refl
    | inr not_named ↦ rw not_named refl
  ]

module _ {K V : Type 0} (p : Place K V) (given : Bytes → FlagState) {environ : List (Bytes × Bytes)}
    {files : Bytes → Option (List (Bytes × V))} (laws : KoanfLaws p.koanf environ files) where
  went_same : {s t : K} → ◌≡◌ {A = Completion LoadError K} (goes_on s) (goes_on t) → s ≡ t
  went_same h = cc

  new_store : (j : Bytes) (s : K) → p.koanf.new ≡ s → p.koanf.get j s ≡ rc_setting p given [] j
  new_store j s e = rw (← e) (laws.get-new j ∙ sym (rc_setting-none p given j))

  refused_stops :
      (path content : Bytes) (s : K) (e : RcError)
      → (e ≡ bad_yaml) ⊎ (e ≡ stanza_not_found)
      → after_rc p given path p.koanf.new (explained p.koanf.set content (not_loaded e)) ≢ goes_on s
  refused_stops path content s e which went = elim (Bool-cases (looks_like_legacy content)) [
    | inl legacy ↦ cc (rw legacy at went)
    | inr other ↦ elim which [
      | inl yaml ↦ cc (rw (other, yaml) at went)
      | inr stanza ↦ cc (rw (other, stanza) at went)
    ]
  ]

  parsed_store :
      (path content : Bytes) (s : K) (j : Bytes) (ss : Option (RcStanzas V))
      → ArePlain p.koanf (or_nothing ss)
      → IsPlain j
      → after_rc p given path p.koanf.new (
          explained p.koanf.set content
            (load_stanzas p.koanf.set (stanza_name p given) p.koanf.new ss))
        ≡ goes_on s
      → p.koanf.get j s ≡ rc_setting p given (or_nothing ss) j
  parsed_store path content s j none h hj e =
      absurd (refused_stops path content s bad_yaml (inl refl) e)
  parsed_store path content s j (some ss) h hj e =
      let stanza = stanza_name p given in
      elim (stanzas_end p.koanf.set stanza p.koanf.new ss) [
        | inr missing ↦
            absurd (refused_stops path content s stanza_not_found (inr refl) (rw missing at e))
        | inl (t, there) ↦
            let same = went_same (rw there at e) in
            let stored = load_stanzas_lem p.koanf laws stanza ss p.koanf.new t j h hj there in
            rw (← same) (
              stored
              ∙ ap
                  (λ d.
                    or_else (lookup_in j (named_stanza stanza ss))
                      (or_else (lookup_in j (lookup (codes "default") ss)) d))
                  (laws.get-new j)
              ∙ ap (or_else (lookup_in j (named_stanza stanza ss)))
                  (or_else-none (lookup_in j (lookup (codes "default") ss))))
      ]

  file_store :
      (path : Bytes) (content : Option Bytes) (s : K) (j : Bytes)
      → ArePlain p.koanf (yaml_of p given content)
      → IsPlain j
      → after_rc p given path p.koanf.new
          (load_rc_file p.koanf.set p.parse_yaml p.koanf.new content (stanza_name p given))
        ≡ goes_on s
      → p.koanf.get j s ≡ rc_setting p given (yaml_of p given content) j
  unfolding load_rc_file load_rc_yaml
  file_store path none s j h hj e = elim (Bool-cases (p.is_missing path)) [
    | inl missing ↦ new_store j s (went_same (rw missing at e))
    | inr unreadable ↦ absurd (cc (rw unreadable at e))
  ]
  file_store path (some content) s j h hj e =
      parsed_store path content s j (p.parse_yaml content) h hj e

  -- After the rc file a setting is that of the named stanza, or else that of "default".
  pub rc_store :
      (s : K) (j : Bytes)
      → ArePlain p.koanf (rc_stanzas p given)
      → IsPlain j
      → load_rc p given p.koanf.new ≡ goes_on s
      → p.koanf.get j s ≡ rc_setting p given (rc_stanzas p given) j
  unfolding load_rc
  rc_store s j h hj e =
      elim (Bool-cases
        (bool_of (value_of given (codes "no-rc-file")) || is_empty (rc_path p given))) [
          | inl passed ↦ rw passed (new_store j s (went_same (rw passed at e)))
          | inr read ↦ rw read (
              file_store (rc_path p given) (p.read_file (rc_path p given)) s j (rw read at h) hj
                (rw read at e))
        ]
