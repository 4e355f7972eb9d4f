-- ===== src/Client/Loads.antt =====
-- When the layers of the client's configuration can be loaded.
use fwknop_go.Base.{
  ◌≡◌, refl, Bool, true, false, not, ◌||◌, Option, none, some, Bytes, codes, if◌then◌else◌,
  Bool-cases, Option-cases, inl, inr,
}
use fwknop_go.Spa.Validate.{is_empty}
use fwknop_go.Map.{lookup}
use fwknop_go.Koanf.{FlagState, settings_of, bool_of}
use fwknop_go.Koanf.Completion.{goes_on}
use fwknop_go.Client.Flags.{client_flags, flag_key}
use fwknop_go.Client.RcFile.{
  RcStanzas, load_map_into_koanf, load_stanza, load_stanzas, load_rc_yaml, load_rc_file, explained,
}
use fwknop_go.Client.Loading.{Place, value_of, env_key, rc_path, after_rc, load_rc, load_store}
use fwknop_go.Client.Layers.{names_other, stanza_name}

module _ {K V : Type 0} (p : Place K V) (given : Bytes → FlagState) where
  abbrev is_found {ℓ} : {A : Type ℓ} → Option A → Bool
  is_found none = false
  is_found (some a) = true

  abbrev stanzas_load : Option (RcStanzas V) → Bool
  stanzas_load none = false
  stanzas_load (some ss) =
      not (names_other (stanza_name p given)) || is_found (lookup (stanza_name p given) ss)

  abbrev file_loads : Bytes → Option Bytes → Bool
  file_loads path none = p.is_missing path
  file_loads path (some content) = stanzas_load (p.parse_yaml content)

  -- No rc file is asked for or found, or it can be parsed and has the stanza that was named.
  abbrev pub rc_loads : Bool
  rc_loads =
      if bool_of (value_of given (codes "no-rc-file")) || is_empty (rc_path p given)
      then true
      else file_loads (rc_path p given) (p.read_file (rc_path p given))

  stanzas_go :
      (path content : Bytes) (k : K) (ss : Option (RcStanzas V))
      → stanzas_load ss ≡ true
      → (s : K) × (after_rc p given path k
            (explained p.koanf.set content (load_stanzas p.koanf.set (stanza_name p given) k ss))
          ≡ goes_on s)
  stanzas_go path content k none h = absurd (cc)
  stanzas_go path content k (some ss) h =
      let with_default = load_stanza p.koanf.set (lookup (codes "default") ss) k in
      elim (Bool-cases (names_other (stanza_name p given))) [
        | inr none_named ↦ (with_default, rw none_named refl)
        | inl named ↦ elim (Option-cases (lookup (stanza_name p given) ss)) [
          | inl missing ↦ absurd (cc (rw (named, missing) at h))
          | inr (m, there) ↦
              (load_map_into_koanf p.koanf.set m with_default, rw (named, there) refl)
        ]
      ]

  file_goes :
      (path : Bytes) (content : Option Bytes) (k : K)
      → file_loads path content ≡ true
      → (s : K) × (after_rc p given path k
            (load_rc_file p.koanf.set p.parse_yaml k content (stanza_name p given))
          ≡ goes_on s)
  unfolding load_rc_file load_rc_yaml
  file_goes path none k h = (k, rw h refl)
  file_goes path (some content) k h = stanzas_go path content k (p.parse_yaml content) h

  rc_goes : (k : K) → rc_loads ≡ true → (s : K) × (load_rc p given k ≡ goes_on s)
  unfolding load_rc
  rc_goes k h =
      elim (Bool-cases
        (bool_of (value_of given (codes "no-rc-file")) || is_empty (rc_path p given))) [
          | inl passed ↦ (k, rw passed refl)
          | inr read ↦
              rw read (file_goes (rc_path p given) (p.read_file (rc_path p given)) k (rw read at h))
        ]

  -- The environment and the flags can be loaded into every store.
  pub record LayersLoad : Type 0 where
    pub env : (s : K) → (t : K) × (p.koanf.load_env (codes "FWKNOP_") env_key s ≡ some t)
    pub flags :
        (s : K)
        → (t : K) × (p.koanf.load_flags (settings_of p.koanf flag_key given client_flags) s
            ≡ some t)

  pub store_goes : rc_loads ≡ true → LayersLoad → (u : K) × (load_store p given ≡ goes_on u)
  unfolding load_store
  store_goes h loads =
      let (s, at_rc) = rc_goes p.koanf.new h in
      let (t, at_env) = loads.env s in
      let (u, at_flags) = loads.flags t in (u, rw (at_rc, at_env, at_flags) refl)
