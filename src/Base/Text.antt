-- ===== src/Base/Text.antt =====
-- What the program uses of Go's package strings, on lists of bytes.
use Prim.Native.Nat.{ℕ, ◌+◌, ◌-◌}
use mathlib.Core.Path.{◌≡◌, refl}
use mathlib.Core.Logic.{◌≢◌}
use mathlib.Core.Bool.{Bool, true, false, ◌&&◌, ◌||◌}
use mathlib.Core.List.{List, [], ◌∷◌, ◌++◌, map}
use mathlib.Core.Option.{Option, none, some}
use native.Mathlib.Omega.{arith}
use fwknop_go.Base.Tests.{◌==◌, leb, if◌then◌else◌}
use fwknop_go.Base.Lists.{Bytes, codes, Lacks, All, eqb, drop, length}

abbrev cons_head : ℕ → List Bytes → List Bytes
cons_head c [] = (c ∷ []) ∷ []
cons_head c (p ∷ ps) = (c ∷ p) ∷ ps

-- strings.Split with a separator of one byte.
unfoldable pub split : ℕ → Bytes → List Bytes
split sep [] = [] ∷ []
split sep (c ∷ s) = let rest = split sep s in if c == sep then [] ∷ rest else cons_head c rest

-- strings.Index (or SplitN with 2) at a separator of one byte: what stands before and behind it.
unfoldable pub cut : ℕ → Bytes → Option (Bytes × Bytes)
cut sep [] = none
cut sep (c ∷ s) =
    let rest : Option (Bytes × Bytes) = elim (cut sep s) [
      | some (a, b) ↦ some (c ∷ a, b)
      | none ↦ none
    ] in
    if c == sep then some ([], s) else rest

-- strings.LastIndex: what stands before and behind the last separator.
unfoldable pub cut_last : ℕ → Bytes → Option (Bytes × Bytes)
cut_last sep [] = none
cut_last sep (c ∷ s) = elim (cut_last sep s) [
  | some (a, b) ↦ some (c ∷ a, b)
  | none ↦ if c == sep then some ([], s) else none
]

-- strings.TrimRight with a cutset of one byte.
unfoldable pub trim_right : ℕ → Bytes → Bytes
trim_right b [] = []
trim_right b (c ∷ s) = elim (trim_right b s) [
  | [] ↦ if c == b then [] else c ∷ []
  | d ∷ r ↦ c ∷ d ∷ r
]

-- The separator between the parts.
abbrev pub join : ℕ → Bytes → List Bytes → Bytes
join sep p [] = p
join sep p (q ∷ qs) = p ++ (sep ∷ join sep q qs)

module _ (sep : ℕ) where
  split_Lacks : (p : Bytes) → Lacks sep p → split sep p ≡ p ∷ []
  unfolding split
  split_Lacks [] h = refl
  split_Lacks (c ∷ p) h = ground (arith, split_Lacks p h.1)

  pub split_at_sep : (p s : Bytes) → Lacks sep p → split sep (p ++ (sep ∷ s)) ≡ p ∷ split sep s
  unfolding split
  split_at_sep [] s h = ground arith
  split_at_sep (c ∷ p) s h = ground (arith, split_at_sep p s h.1)

  -- Splitting a join gives the parts back, where no part holds the separator.
  pub split-join :
      (p : Bytes) (ps : List Bytes) → All (Lacks sep) (p ∷ ps) → split sep (join sep p ps) ≡ p ∷ ps
  split-join p [] (hp, _) = split_Lacks p hp
  split-join p (q ∷ qs) (hp, hs) = cc (split_at_sep p (join sep q qs) hp, split-join q qs hs)

  cut_last-Lacks : (p : Bytes) → Lacks sep p → cut_last sep p ≡ none
  unfolding cut_last
  cut_last-Lacks [] h = refl
  cut_last-Lacks (c ∷ p) h = ground (arith, cut_last-Lacks p h.1)

  pub cut_last_at : (s p : Bytes) → Lacks sep p → cut_last sep (s ++ (sep ∷ p)) ≡ some (s, p)
  unfolding cut_last
  cut_last_at [] p h = ground (arith, cut_last-Lacks p h)
  cut_last_at (c ∷ s) p h = rw (cut_last_at s p h)

  pub cut_at : (p s : Bytes) → Lacks sep p → cut sep (p ++ (sep ∷ s)) ≡ some (p, s)
  unfolding cut
  cut_at [] s h = ground arith
  cut_at (c ∷ p) s h = ground (arith, cut_at p s h.1)

  pub trim_right_keep :
      (c : ℕ) (s : Bytes) → c ≢ sep → trim_right sep (c ∷ s) ≡ c ∷ trim_right sep s
  unfolding trim_right
  trim_right_keep c s h = ground arith

-- A bool and a slice of strings as %v prints them.
unfoldable pub bool_text : Bool → Bytes
bool_text true = codes "true"
bool_text false = codes "false"

abbrev spaced : List Bytes → Bytes
spaced [] = []
spaced (p ∷ ps) = b' ' ∷ (p ++ spaced ps)

abbrev members : List Bytes → Bytes
members [] = []
members (p ∷ ps) = p ++ spaced ps

unfoldable pub list_text : List Bytes → Bytes
list_text ps = b'[' ∷ (members ps ++ codes "]")

-- A line that is there only if a test holds.
abbrev pub line_if : Bool → Bytes → List Bytes
line_if b l = if b then l ∷ [] else []

-- strings.Contains with one byte.
abbrev pub contains : ℕ → Bytes → Bool
contains b [] = false
contains b (c ∷ s) = c == b || contains b s

-- strings.HasPrefix
unfoldable pub has_prefix : Bytes → Bytes → Bool
has_prefix s [] = true
has_prefix [] (b ∷ p) = false
has_prefix (c ∷ s) (b ∷ p) = c == b && has_prefix s p

-- strings.TrimPrefix
unfoldable pub trim_prefix : Bytes → Bytes → Bytes
unfolding has_prefix
trim_prefix p s = if has_prefix s p then drop (length p) s else s

-- strings.ReplaceAll, one byte for another.
abbrev pub replace_all : ℕ → ℕ → Bytes → Bytes
replace_all a b [] = []
replace_all a b (c ∷ s) = (if c == a then b else c) ∷ replace_all a b s

-- net.JoinHostPort: a host with a colon stands in brackets.
unfoldable pub join_host_port : Bytes → Bytes → Bytes
join_host_port host port =
    (if contains b':' host then b'[' ∷ (host ++ (b']' ∷ [])) else host) ++ (b':' ∷ port)

-- The letters of ASCII: strings.ToLower, strings.ToUpper and strings.EqualFold on such texts.
unfoldable pub lower : ℕ → ℕ
lower c = if leb b'A' c && leb c b'Z' then c + 32 else c

unfoldable pub upper : ℕ → ℕ
upper c = if leb b'a' c && leb c b'z' then c - 32 else c

unfoldable pub to_lower : Bytes → Bytes
unfolding lower
to_lower s = map lower s

unfoldable pub to_upper : Bytes → Bytes
unfolding upper
to_upper s = map upper s

unfoldable pub equal_fold : Bytes → Bytes → Bool
unfolding to_lower
equal_fold s t = eqb (to_lower s) (to_lower t)

-- The white space of ASCII: strings.TrimSpace on such texts.
abbrev pub is_white : ℕ → Bool
is_white c = c == 32 || (leb 9 c && leb c 13)

unfoldable pub trim_left_space : Bytes → Bytes
trim_left_space [] = []
trim_left_space (c ∷ s) = let rest = trim_left_space s in if is_white c then rest else c ∷ s

unfoldable pub trim_right_space : Bytes → Bytes
trim_right_space [] = []
trim_right_space (c ∷ s) = elim (trim_right_space s) [
  | [] ↦ if is_white c then [] else c ∷ []
  | d ∷ r ↦ c ∷ d ∷ r
]

unfoldable pub trim_space : Bytes → Bytes
unfolding trim_left_space trim_right_space
trim_space s = trim_right_space (trim_left_space s)
