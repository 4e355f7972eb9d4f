-- ===== src/Convert/ClientKeys.antt =====
-- What parseClientStanzas puts into the stanzas.
use fwknop_go.Base.{
  ◌≡◌, refl, sym, ap, ◌∙◌, Bool, true, false, ◌||◌, some, List, [], ◌∷◌, Bytes, codes, eqb, eqb_iff,
  if◌then◌else◌, to_upper, trim_space, Bool-cases, Option-cases, inl, inr, ◌⊎◌,
}
use fwknop_go.Spa.Validate.{is_empty}
use fwknop_go.Map.{lookup, insert, lookup-insert}
use fwknop_go.Client.Config.{config_keys}
use fwknop_go.Convert.Lines.{
  is_skipped, starts_with, scan_lines, split_pair, Value, text, Entries, one_of, case_of,
}
use fwknop_go.Convert.Client.{
  client_keys, map_client_key, Stanzas, ClientState, entries_of, is_header, header_name,
  enter_stanza, client_pair, client_line, client_lines, parse_client_stanzas, only_default,
}

-- A key that is not converted, or one of the configuration.
abbrev is_known : Bytes → Bool
is_known k = is_empty k || one_of k config_keys

abbrev all_known : List (Bytes × Bytes) → Bool
all_known [] = true
all_known ((t, k) ∷ ps) = if is_known k then all_known ps else false

case_of-known :
    (s k : Bytes) (ps : List (Bytes × Bytes))
    → all_known ps ≡ true
    → case_of s ps ≡ some k
    → is_known k ≡ true
case_of-known s k [] h e = absurd (cc)
case_of-known s k ((t, j) ∷ ps) h e = elim (Bool-cases (is_known j)) [
  | inr bad ↦ absurd (cc (rw bad at h))
  | inl good ↦ elim (Bool-cases (eqb s t)) [
    | inl same ↦ let j_is : j ≡ k = cc (rw same at e) in rw (← j_is) good
    | inr other ↦ case_of-known s k ps (rw good at h) (rw other at e)
  ]
]

mapped_known : (key : Bytes) → is_known (map_client_key key) ≡ true
unfolding map_client_key
mapped_known key = elim (Option-cases (case_of (to_upper key) client_keys)) [
  | inl free ↦ rw free refl
  | inr (k, e) ↦ rw e (case_of-known (to_upper key) k client_keys refl e)
]

abbrev HasKnownKeys : Entries → Type 0
HasKnownKeys e = (k : Bytes) (v : Value) → lookup k e ≡ some v → one_of k config_keys ≡ true

-- Every key of every stanza is one of the client's configuration, and there is a stanza "default".
pub record AreStanzas (ss : Stanzas) : Type 0 where
  pub known :
      (name : Bytes) (e : Entries) (k : Bytes) (v : Value)
      → lookup name ss ≡ some e
      → lookup k e ≡ some v
      → one_of k config_keys ≡ true
  pub default : (e : Entries) × (lookup (codes "default") ss ≡ some e)

same_entries : {a b : Entries} → some a ≡ some b → a ≡ b
same_entries h = cc

insert-AreStanzas :
    (name : Bytes) (e : Entries) (ss : Stanzas)
    → AreStanzas ss
    → HasKnownKeys e
    → AreStanzas (insert name e ss)
insert-AreStanzas name e ss i h = record {
  known = λ j f k v there entry.
      let at_j = sym (lookup-insert name j e ss) ∙ there in
      elim (Bool-cases (eqb name j)) [
        | inl same ↦ h k v (rw (same_entries (rw same at at_j)) entry)
        | inr other ↦ i.known j f k v (rw other at at_j) entry
      ];
  default = elim (Bool-cases (eqb name (codes "default"))) [
    | inl same ↦ (e, lookup-insert name (codes "default") e ss ∙ rw same refl)
    | inr other ↦
        let (f, there) = i.default in
        (f, lookup-insert name (codes "default") e ss ∙ rw other there)
  ];
}

no_keys : HasKnownKeys []
unfolding lookup
no_keys k v e = absurd (cc)

entries-HasKnownKeys :
    (name : Bytes) (ss : Stanzas) → AreStanzas ss → HasKnownKeys (entries_of name ss)
entries-HasKnownKeys name ss i = elim (Option-cases (lookup name ss)) [
  | inl free ↦ rw free no_keys
  | inr (e, there) ↦ rw there (λ k v entry. i.known name e k v there entry)
]

set-HasKnownKeys :
    (key : Bytes) (value : Value) (e : Entries)
    → one_of key config_keys ≡ true
    → HasKnownKeys e
    → HasKnownKeys (insert key value e)
set-HasKnownKeys key value e good h k v entry =
    let at_k = sym (lookup-insert key k value e) ∙ entry in
    elim (Bool-cases (eqb key k)) [
      | inl same ↦ rw (← (eqb_iff key k).0 same) good
      | inr other ↦ h k v (rw other at at_k)
    ]

enter-AreStanzas :
    (name : Bytes) (s : ClientState)
    → AreStanzas s.stanzas
    → AreStanzas (enter_stanza name s).stanzas
unfolding enter_stanza
enter-AreStanzas name s i = elim (Option-cases (lookup name s.stanzas)) [
  | inl free ↦ rw free (insert-AreStanzas name [] s.stanzas i no_keys)
  | inr (e, there) ↦ rw there i
]

pair-AreStanzas :
    (key value : Bytes) (s : ClientState)
    → AreStanzas s.stanzas
    → AreStanzas (client_pair key value s).stanzas
unfolding client_pair
pair-AreStanzas key value s i = elim (Bool-cases (is_empty (map_client_key key))) [
  | inl unsupported ↦ rw unsupported i
  | inr supported ↦
      let good : one_of (map_client_key key) config_keys ≡ true =
        rw supported at (mapped_known key) in
      rw supported (
        insert-AreStanzas s.current _ s.stanzas i (
          set-HasKnownKeys (map_client_key key) (text value) _ good
            (entries-HasKnownKeys s.current s.stanzas i)))
]

line-AreStanzas :
    (l : Bytes) (s : ClientState) → AreStanzas s.stanzas → AreStanzas (client_line l s).stanzas
unfolding client_line
line-AreStanzas l s i = elim (Bool-cases (is_skipped l || starts_with b';' l)) [
  | inl skipped ↦ rw skipped i
  | inr counts ↦ elim (Bool-cases (is_header l)) [
    | inl header ↦ rw (counts, header) (enter-AreStanzas (header_name l) s i)
    | inr other ↦ elim (Option-cases (split_pair l)) [
      | inl no_pair ↦ rw (counts, other, no_pair) i
      | inr ((key, value), pair) ↦
          rw (counts, other, pair) (pair-AreStanzas (trim_space key) (trim_space value) s i)
    ]
  ]
]

lines-AreStanzas :
    (ls : List Bytes) (s : ClientState)
    → AreStanzas s.stanzas
    → AreStanzas (client_lines ls s).stanzas
unfolding client_lines
lines-AreStanzas [] s i = i
lines-AreStanzas (l ∷ ls) s i = lines-AreStanzas ls (client_line l s) (line-AreStanzas l s i)

default_alone :
    (name k : Bytes) (e : Entries) (v : Value)
    → (eqb (codes "default") name ≡ true) ⊎ (eqb (codes "default") name ≡ false)
    → lookup name only_default.stanzas ≡ some e
    → lookup k e ≡ some v
    → one_of k config_keys ≡ true
unfolding lookup
default_alone name k e v (inl same) there entry =
    no_keys k v (ap (lookup k) (same_entries (rw same at there)) ∙ entry)
default_alone name k e v (inr other) there entry = absurd (cc (rw other at there))

default-AreStanzas : AreStanzas only_default.stanzas
unfolding lookup
default-AreStanzas = record {
  known = λ name e k v. default_alone name k e v (Bool-cases (eqb (codes "default") name));
  default = ([], refl);
}

-- Whatever the file, every key of every converted stanza is one that the configuration of the client
-- has, and there is a stanza "default", also if the file has none.
pub parse_client_stanzas-AreStanzas :
    (input : Bytes) → AreStanzas (parse_client_stanzas input).stanzas
unfolding parse_client_stanzas
parse_client_stanzas-AreStanzas input =
    lines-AreStanzas (scan_lines input) only_default default-AreStanzas
