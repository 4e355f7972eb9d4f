-- ===== src/Koanf/Layers.antt =====
-- What a setting is after layers of entries, flags or environment have been loaded.
use fwknop_go.Base.{
  ◌≡◌, refl, ap, ◌∙◌, Bool, true, false, not, Option, none, some, List, [], ◌∷◌, arith, Bytes, All,
  eqb, eqb_iff, Bool-cases, inl, inr, &&_elim,
}
use fwknop_go.Map.{keys_of, lookup}
use fwknop_go.Koanf.{
  set_all, KoanfLaws, Koanf, Flag, FlagState, or_else, listed, are_distinct, IsPlain, AreKeys,
  with_flag, flag_setting, settings_of,
}

pub not_listed {ℓ} :
    {V : Type ℓ} (k : Bytes) (m : List (Bytes × V))
    → listed k (keys_of m) ≡ false
    → lookup k m ≡ none
unfolding lookup
not_listed k [] h = refl
not_listed k ((j, v) ∷ m) h = elim (Bool-cases (eqb k j)) [
  | inl same ↦ absurd (cc (rw same at h))
  | inr other ↦ ground (arith, eqb_iff j k, eqb_iff k j, not_listed k m (rw other at h))
]

pub tail-AreKeys :
    {k : Bytes} {ks : List Bytes}
    → AreKeys (k ∷ ks)
    → AreKeys ks × (IsPlain k × (listed k ks ≡ false))
tail-AreKeys {k} {ks} h =
    let (fresh, rest) = &&_elim (not (listed k ks)) (are_distinct ks) h.distinct in
    (record { plain = h.plain.1; distinct = rest }, (h.plain.0, ground (arith, fresh)))

-- The keys of a map are no paths, each stands once, and its values are no maps.
pub record IsPlainMap {K V : Type 0} (o : Koanf K V) (m : List (Bytes × V)) : Type 0 where
  pub keys : AreKeys (keys_of m)
  pub scalars : All (λ e. o.is_map e.1 ≡ false) m

pub scalar_at :
    {K V : Type 0} (o : Koanf K V) (m : List (Bytes × V)) (j : Bytes) (v : V)
    → All (λ e. o.is_map e.1 ≡ false) m
    → lookup j m ≡ some v
    → o.is_map v ≡ false
unfolding lookup
scalar_at o [] j v h e = absurd (cc)
scalar_at o ((k, w) ∷ m) j v (hw, hm) e = elim (Bool-cases (eqb k j)) [
  | inl here ↦ let same : w ≡ v = cc (rw here at e) in rw (← same) hw
  | inr later ↦ scalar_at o m j v hm (rw later at e)
]

module _ {K V : Type 0} (o : Koanf K V) {environ : List (Bytes × Bytes)}
    {files : Bytes → Option (List (Bytes × V))} (laws : KoanfLaws o environ files) where
  -- Setting entries, in whatever order they stand, lays them over what was there.
  pub set_all_lem :
      (m : List (Bytes × V)) (s : K) (j : Bytes)
      → IsPlainMap o m
      → IsPlain j
      → o.get j (set_all o.set m s) ≡ or_else (lookup j m) (o.get j s)
  unfolding set_all lookup
  set_all_lem [] s j h hj = refl
  set_all_lem ((k, v) ∷ m) s j h hj =
      let (rest, (plain, fresh)) = tail-AreKeys h.keys in
      set_all_lem m (o.set k v s) j (record { keys = rest; scalars = h.scalars.1 }) hj
      ∙ ap (or_else (lookup j m)) (laws.get-set k j v s plain hj h.scalars.0)
      ∙ elim (Bool-cases (eqb k j)) [
        | inl same ↦
            let gone : lookup j m ≡ none = rw (← (eqb_iff k j).0 same) (not_listed k m fresh) in
            rw (same, gone) refl
        | inr other ↦ rw other refl
      ]

pub or_else-none {ℓ} : {A : Type ℓ} (a : Option A) → or_else a none ≡ a
or_else-none none = refl
or_else-none (some a) = refl

-- The value of a flag that was changed.
abbrev pub changed_flag {ℓ} : {V : Type ℓ} → Option (Bool × V) → Option V
changed_flag none = none
changed_flag (some (true, v)) = some v
changed_flag (some (false, v)) = none

module _ {K V : Type 0} (o : Koanf K V) (key_of : Bytes → Bytes) (given : Bytes → FlagState) where
  -- The settings that the flags have as defaults.
  abbrev pub defaults_of : List Flag → List (Bytes × V)
  defaults_of [] = []
  defaults_of (f ∷ fs) = (key_of f.name, flag_setting o f.default) ∷ defaults_of fs

  -- pflag leaves a flag that is not given at its default.
  abbrev pub KeepsDefaults : List Flag → Type 0
  KeepsDefaults = All (λ f. (given f.name).changed ≡ false → (given f.name).value ≡ f.default)

  head_layer :
      (f : Flag) (st : FlagState) (before : Option V)
      → (st.changed ≡ false → st.value ≡ f.default)
      → with_flag (some (st.changed, flag_setting o st.value)) before
        ≡ or_else
            (changed_flag (some (st.changed, flag_setting o st.value)))
            (or_else before (some (flag_setting o f.default)))
  head_layer f st before h = elim (Bool-cases st.changed) [
    | inl changed ↦ rw changed refl
    | inr same ↦ rw (same, h same) refl
  ]

  -- A flag that was changed counts first, and a default counts last.
  pub flag_layer :
      (fs : List Flag)
      → KeepsDefaults fs
      → (j : Bytes) (before : Option V)
      → with_flag (lookup j (settings_of o key_of given fs)) before
        ≡ or_else
            (changed_flag (lookup j (settings_of o key_of given fs)))
            (or_else before (lookup j (defaults_of fs)))
  unfolding lookup
  flag_layer [] h j none = refl
  flag_layer [] h j (some v) = refl
  flag_layer (f ∷ fs) (hf, hs) j before = elim (Bool-cases (eqb (key_of f.name) j)) [
    | inl here ↦ rw here (head_layer f (given f.name) before hf)
    | inr later ↦ rw later (flag_layer fs hs j before)
  ]
