-- ===== src/Koanf.antt =====
-- What both programs use of koanf and pflag, which are outside: a store of settings, into which
-- layers are loaded, as a record of operations, with what their documentation promises.
pub mod Layers
pub mod Completion
pub mod Fixtures
use fwknop_go.Base.{
  ℤ, ◌≡◌, Bool, true, false, ◌&&◌, not, Option, none, some, List, [], ◌∷◌, Bytes, All, Lacks, codes,
  eqb, if◌then◌else◌, has_prefix,
}
use mathlib.Core.Option as Option
use fwknop_go.Spa.Validate.{is_empty}
use fwknop_go.Map.{lookup, keys_of}

-- The value of a flag, by its type.
pub data FlagValue : Type 0 where
  string_flag : Bytes → FlagValue
  int_flag : ℤ → FlagValue
  bool_flag : Bool → FlagValue
  count_flag : ℤ → FlagValue

-- A flag with its default.
pub record Flag : Type 0 where
  pub name : Bytes
  pub default : FlagValue

-- What pflag knows of a flag after Parse.
pub record FlagState : Type 0 where
  pub changed : Bool
  pub value : FlagValue

pub data Parsed : Type 0 where
  help_asked bad_args : Parsed
  parsed : (Bytes → FlagState) → Parsed

-- GetBool and GetString; of another type they give the zero value.
abbrev pub bool_of : FlagValue → Bool
bool_of (bool_flag b) = b
bool_of (string_flag s) = false
bool_of (int_flag i) = false
bool_of (count_flag i) = false

abbrev pub string_of : FlagValue → Bytes
string_of (string_flag s) = s
string_of (bool_flag b) = []
string_of (int_flag i) = []
string_of (count_flag i) = []

-- A setting that a flag gives: whether it was changed, and its value.
abbrev pub Given : Type 0 → Type 0
Given V = List (Bytes × (Bool × V))

-- A store of type K with settings of type V. A load that fails gives `none`.
pub record Koanf (K V : Type 0) : Type 0 where
  pub new : K
  pub set : Bytes → V → K → K
  pub get : Bytes → K → Option V
  -- The keys of Raw, in the order in which they are met
  pub raw_keys : K → List Bytes
  -- Load with file.Provider and the YAML parser, for a file that exists
  pub load_file : Bytes → K → Option K
  -- Load with env.Provider: the prefix, and the key for a variable's name
  pub load_env : Bytes → (Bytes → Bytes) → K → Option K
  -- Load with posflag.ProviderWithFlag, for what its function gives for the flags
  pub load_flags : Given V → K → Option K
  pub of_text : Bytes → V
  pub of_int : ℤ → V
  pub of_bool : Bool → V
  pub is_map : V → Bool

abbrev pub or_else {ℓ} : {A : Type ℓ} → Option A → Option A → Option A
or_else none b = b
or_else (some a) b = some a

-- A setting among those of the variables that begin with the prefix.
abbrev pub of_env :
    (prefix : Bytes) (key_of : Bytes → Bytes) → List (Bytes × Bytes) → List (Bytes × Bytes)
of_env prefix key_of [] = []
of_env prefix key_of ((name, v) ∷ vars) =
    let rest = of_env prefix key_of vars in
    if has_prefix name prefix && not (is_empty (key_of name)) then (key_of name, v) ∷ rest else rest

abbrev pub listed : Bytes → List Bytes → Bool
listed k [] = false
listed k (j ∷ js) = if eqb k j then true else listed k js

-- No text stands twice.
abbrev pub are_distinct : List Bytes → Bool
are_distinct [] = true
are_distinct (k ∷ ks) = not (listed k ks) && are_distinct ks

-- A key that is no path: it lacks the delimiter.
abbrev pub IsPlain : Bytes → Type 0
IsPlain = Lacks b'.'

-- Keys that are no paths, each once.
pub record AreKeys (ks : List Bytes) : Type 0 where
  pub plain : All IsPlain ks
  pub distinct : are_distinct ks ≡ true

-- A flag that was changed counts; one that was not counts if there is no setting yet.
abbrev pub with_flag {ℓ} : {V : Type ℓ} → Option (Bool × V) → Option V → Option V
with_flag none before = before
with_flag (some (true, v)) before = some v
with_flag (some (false, v)) before = or_else before (some v)

-- What the documentation says of koanf, over an environment and files with their settings.
pub record KoanfLaws {K V : Type 0} (o : Koanf K V) (environ : List (Bytes × Bytes))
    (files : Bytes → Option (List (Bytes × V))) : Type 0 where
  pub get-new : (k : Bytes) → o.get k o.new ≡ none
  pub get-set :
      (k j : Bytes) (v : V) (s : K)
      → IsPlain k
      → IsPlain j
      → o.is_map v ≡ false
      → o.get j (o.set k v s) ≡ (if eqb k j then some v else o.get j s)
  pub get-load_env :
      (prefix : Bytes) (key_of : Bytes → Bytes) (j : Bytes) (s t : K)
      → AreKeys (keys_of (of_env prefix key_of environ))
      → IsPlain j
      → o.load_env prefix key_of s ≡ some t
      → o.get j t
        ≡ or_else (Option.map o.of_text (lookup j (of_env prefix key_of environ))) (o.get j s)
  pub get-load_flags :
      (given : Given V) (j : Bytes) (s t : K)
      → AreKeys (keys_of given)
      → IsPlain j
      → o.load_flags given s ≡ some t
      → o.get j t ≡ with_flag (lookup j given) (o.get j s)
  pub get-load_file :
      (path : Bytes) (m : List (Bytes × V)) (j : Bytes) (s t : K)
      → files path ≡ some m
      → AreKeys (keys_of m)
      → IsPlain j
      → ((v : V) → o.get j s ≡ some v → o.is_map v ≡ false)
      → o.load_file path s ≡ some t
      → o.get j t ≡ or_else (lookup j m) (o.get j s)
  pub text_no_map : (t : Bytes) → o.is_map (o.of_text t) ≡ false
  pub int_no_map : (i : ℤ) → o.is_map (o.of_int i) ≡ false

-- k.Set for each entry, in turn.
unfoldable pub set_all : {K V : Type 0} → (Bytes → V → K → K) → List (Bytes × V) → K → K
set_all set [] k = k
set_all set ((key, v) ∷ m) k = set_all set m (set key v k)

-- The value that the function for posflag takes from a flag.
abbrev pub flag_setting : {K V : Type 0} → Koanf K V → FlagValue → V
flag_setting o (bool_flag b) = o.of_bool b
flag_setting o (int_flag i) = o.of_int i
flag_setting o (count_flag i) = o.of_int i
flag_setting o (string_flag s) = o.of_text s

module _ {K V : Type 0} (o : Koanf K V) (key_of : Bytes → Bytes) (given : Bytes → FlagState) where
  -- What posflag goes through, with the key and the value of each flag.
  abbrev pub settings_of : List Flag → Given V
  settings_of [] = []
  settings_of (f ∷ fs) =
      let state = given f.name in
      (key_of f.name, (state.changed, flag_setting o state.value)) ∷ settings_of fs
