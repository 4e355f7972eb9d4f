-- ===== src/Koanf/Fixtures.antt =====
-- A store for tests: a function from keys, over an environment and files that are given.
use fwknop_go.Base.{
  ℤ, ◌≡◌, refl, Bool, true, false, Option, none, some, List, [], ◌∷◌, Bytes, eqb, if◌then◌else◌,
}
use mathlib.Core.Option as Option
use fwknop_go.Map.{lookup}
use fwknop_go.Koanf.Completion.{Decoder}
use fwknop_go.Koanf.{Flag, FlagValue, bool_flag, Koanf, KoanfLaws, or_else, of_env, with_flag}

pub data Setting : Type 0 where
  text_setting : Bytes → Setting
  int_setting : ℤ → Setting
  bool_setting : Bool → Setting

abbrev pub Store : Type 0
Store = Bytes → Option Setting

abbrev pub laid_over : Option (List (Bytes × Setting)) → Store → Option Store
laid_over none s = none
laid_over (some m) s = some (λ j. or_else (lookup j m) (s j))

module _ (environ : List (Bytes × Bytes)) (files : Bytes → Option (List (Bytes × Setting))) where
  abbrev pub test_koanf : Koanf Store Setting
  test_koanf = record {
    new = λ j. none;
    set = λ k v s j. if eqb k j then some v else s j;
    get = λ j s. s j;
    raw_keys = λ s. [];
    load_file = λ path s. laid_over (files path) s;
    load_env = λ prefix key_of s.
        some
          (λ j. or_else (Option.map text_setting (lookup j (of_env prefix key_of environ))) (s j));
    load_flags = λ given s. some (λ j. with_flag (lookup j given) (s j));
    of_text = text_setting;
    of_int = int_setting;
    of_bool = bool_setting;
    is_map = λ v. false;
  }

  at_key : {s t : Store} (j : Bytes) → some s ≡ some t → t j ≡ s j
  at_key j h = cc

  laid_over_lem :
      (m : List (Bytes × Setting)) (o : Option (List (Bytes × Setting))) (j : Bytes) (s t : Store)
      → o ≡ some m
      → laid_over o s ≡ some t
      → t j ≡ or_else (lookup j m) (s j)
  laid_over_lem m none j s t h e = absurd (cc)
  laid_over_lem m (some n) j s t h e = let same : n ≡ m = cc in rw (← same) (at_key j e)

  pub test-KoanfLaws : KoanfLaws test_koanf environ files
  test-KoanfLaws = record {
    get-new = λ k. refl;
    get-set = λ k j v s hk hj hv. refl;
    get-load_env = λ prefix key_of j s t h hj e. at_key j e;
    get-load_flags = λ given j s t h hj e. at_key j e;
    get-load_file = λ path m j s t h hm hj hs e. laid_over_lem m (files path) j s t h e;
    text_no_map = λ t. refl;
    int_no_map = λ i. refl;
  }

abbrev text_of : Setting → Option Bytes
text_of (text_setting t) = some t
text_of (int_setting i) = none
text_of (bool_setting b) = none

abbrev int_of : Setting → Option ℤ
int_of (text_setting t) = none
int_of (int_setting i) = some i
int_of (bool_setting b) = none

abbrev truth_of : Setting → Option Bool
truth_of (text_setting t) = none
truth_of (int_setting i) = none
truth_of (bool_setting b) = some b

abbrev pub test_decoder : Decoder Setting
test_decoder = record { text = text_of; int = int_of; bool = truth_of }

-- The default of a flag.
abbrev pub default_of : List Flag → Bytes → FlagValue
default_of [] name = bool_flag false
default_of (f ∷ fs) name = if eqb f.name name then f.default else default_of fs name

pub given_flag : {A : Type 0} → true ≡ false → A
given_flag h = absurd (cc)
