-- ===== src/Convert/Lines.antt =====
-- cmd/fwknop-convert: what the three conversions share, and what they use of bufio and strings. The
-- texts are ASCII. Writing the result as YAML is outside.
use fwknop_go.Base.{
  ℕ, Bool, true, false, ◌||◌, Option, none, some, List, [], ◌∷◌, ◌++◌, Bytes, codes, length, map,
  leb, ◌==◌, eqb, if◌then◌else◌, cut, split, trim_right, trim_space, to_upper,
}

-- The longest line that bufio.Scanner takes in its buffer; a longer one ends the scan.
abbrev pub max_line : ℕ
max_line = 65535

abbrev pub taken : List Bytes → List Bytes
taken [] = []
taken (l ∷ ls) = let rest = taken ls in if leb (length l) max_line then l ∷ rest else []

-- The text behind the last newline is a line only if there is one.
abbrev pub without_last_empty : List Bytes → List Bytes
without_last_empty [] = []
without_last_empty ([] ∷ []) = []
without_last_empty (l ∷ ls) = l ∷ without_last_empty ls

-- The lines of a bufio.Scanner, each with its white space trimmed.
unfoldable pub scan_lines : Bytes → List Bytes
scan_lines input = map trim_space (taken (without_last_empty (split b'\n' input)))

-- strings.HasPrefix with one byte.
abbrev pub starts_with : ℕ → Bytes → Bool
starts_with b [] = false
starts_with b (c ∷ s) = c == b

-- An empty line or a comment.
unfoldable pub is_skipped : Bytes → Bool
is_skipped [] = true
is_skipped (c ∷ s) = starts_with b'#' (c ∷ s)

-- strings.SplitN(line, " ", 2), or at a tab if there is no space.
unfoldable pub split_pair : Bytes → Option (Bytes × Bytes)
split_pair line = elim (cut b' ' line) [ some p ↦ some p | none ↦ cut b'\t' line ]

-- The value of a setting of the server, which may end in semicolons.
unfoldable pub clean_value : Bytes → Bytes
clean_value v = trim_space (trim_right b';' (trim_space v))

unfoldable pub parse_bool : Bytes → Bool
parse_bool s =
    let t = to_upper (trim_space s) in
    eqb t (codes "Y") || eqb t (codes "YES") || eqb t (codes "1") || eqb t (codes "TRUE")

-- An interface{} that ends up in the YAML.
pub data Value : Type 0 where
  text : Bytes → Value
  flag : Bool → Value
  ports : List Bytes → Value

abbrev pub Entries : Type 0
Entries = List (Bytes × Value)

pub data KeyCategory : Type 0 where
  cat_convert cat_convert_bool cat_ignore cat_warn cat_unknown cat_convert_list : KeyCategory

pub record KeyAction : Type 0 where
  pub category : KeyCategory
  pub go_key : Bytes
  pub reason : Bytes

abbrev pub convert : Bytes → KeyAction
convert key = record { category = cat_convert; go_key = key; reason = [] }

abbrev pub convert_bool : Bytes → KeyAction
convert_bool key = record { category = cat_convert_bool; go_key = key; reason = [] }

abbrev pub convert_list : Bytes → KeyAction
convert_list key = record { category = cat_convert_list; go_key = key; reason = [] }

abbrev pub warn : Bytes → KeyAction
warn reason = record { category = cat_warn; go_key = []; reason = reason }

abbrev pub ignore : KeyAction
ignore = record { category = cat_ignore; go_key = []; reason = [] }

abbrev pub unknown_key : KeyAction
unknown_key = record { category = cat_unknown; go_key = []; reason = [] }

-- The cases of a switch: whether a text is one of a list.
abbrev pub one_of : Bytes → List Bytes → Bool
one_of s [] = false
one_of s (t ∷ ts) = eqb s t || one_of s ts

-- A table of cases with one result each.
abbrev pub case_of : Bytes → List (Bytes × Bytes) → Option Bytes
case_of s [] = none
case_of s ((t, r) ∷ ts) = if eqb s t then some r else case_of s ts

abbrev pub key_skipped : Bytes → Bytes → Bytes
key_skipped reason key = reason ++ (codes ": key " ++ (key ++ codes " skipped"))

abbrev pub unrecognized_key : Bytes → Bytes
unrecognized_key key = codes "unrecognized key " ++ key
