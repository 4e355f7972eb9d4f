-- ===== src/Convert/Written.antt =====
-- What convertClient writes: every setting of the stanzas.
use fwknop_go.Base.{
  ◌≡◌, refl, sym, ap, or_nothing, ◌∙◌, true, false, not, ◌&&◌, Option, none, some, List, [], ◌∷◌,
  ◌++◌, arith, Bytes, codes, eqb, eqb_iff, eqb_refl, if◌then◌else◌, Bool-cases, Option-cases, inl,
  inr,
}
use mathlib.Core.Option as Option
use fwknop_go.Map.{lookup, keys_of, lookup_in}
use fwknop_go.Convert.Lines.{Value, Entries, one_of}
use fwknop_go.Convert.Sorting.{
  sort_strings, one_of-sort_strings, one_of-perm, no_repeats, no_repeats-perm,
  no_repeats-sort_strings,
}
use fwknop_go.Convert.Client.{Stanzas, entries_of}
use fwknop_go.Convert.Output.{
  Order, value_text, Scalars, scalars, map_to_yaml_node, Document, stanza_node, default_node,
  other_names, stanza_nodes, client_document,
}
use fwknop_go.Convert.Document.{IsOrder}

abbrev pub as_text : Option Value → Option Bytes
as_text = Option.map (λ v. value_text (some v))

keys-lookup {ℓ} :
    {V : Type ℓ} (k : Bytes) (m : List (Bytes × V))
    → lookup k m ≡ none
    → one_of k (keys_of m) ≡ false
unfolding lookup
keys-lookup k [] h = refl
keys-lookup k ((j, v) ∷ m) h = ground (arith, eqb_iff j k, eqb_iff k j, keys-lookup k m)

keys-some {ℓ} :
    {V : Type ℓ} (k : Bytes) (m : List (Bytes × V)) {v : V}
    → lookup k m ≡ some v
    → one_of k (keys_of m) ≡ true
unfolding lookup
keys-some k [] h = absurd (cc)
keys-some k ((j, w) ∷ m) {v} h = elim (Bool-cases (eqb j k)) [
  | inl same ↦ ground (arith, eqb_iff j k, eqb_iff k j)
  | inr other ↦ let later = keys-some k m {v = v} (rw other at h) in rw later (ground arith)
]

scalars-lookup :
    (k : Bytes) (m : Entries) (ks : List Bytes)
    → lookup k (scalars m ks) ≡ (if one_of k ks then some (value_text (lookup k m)) else none)
unfolding lookup
scalars-lookup k m [] = refl
scalars-lookup k m (j ∷ ks) = ground (arith, eqb_iff j k, eqb_iff k j, scalars-lookup k m ks)

stanza_nodes-lookup :
    (o : Order) (n : Bytes) (ss : Stanzas) (ns : List Bytes)
    → lookup n (stanza_nodes o ss ns)
      ≡ (if one_of n ns then some (stanza_node o n (entries_of n ss)) else none)
unfolding lookup
stanza_nodes-lookup o n ss [] = refl
stanza_nodes-lookup o n ss (m ∷ ns) = elim (Bool-cases (eqb m n)) [
  | inl same ↦ rw (← (eqb_iff m n).0 same, eqb_refl m) refl
  | inr other ↦ ground (arith, eqb_iff m n, eqb_iff n m, stanza_nodes-lookup o n ss ns)
]

one_of-other_names :
    (n : Bytes) (ns : List Bytes)
    → one_of n (other_names ns) ≡ (one_of n ns && not (eqb n (codes "default")))
one_of-other_names n [] = refl
one_of-other_names n (m ∷ ns) = ground (
  arith,
  eqb_iff m (codes "default"),
  eqb_iff n (codes "default"),
  eqb_iff n m,
  one_of-other_names n ns,
)

no_repeats-other_names :
    (ns : List Bytes) → no_repeats ns ≡ true → no_repeats (other_names ns) ≡ true
no_repeats-other_names [] h = refl
no_repeats-other_names (n ∷ ns) h =
    ground
      (arith, eqb_iff n (codes "default"), one_of-other_names n ns, no_repeats-other_names ns, h)

keys-scalars : (m : Entries) (ks : List Bytes) → keys_of (scalars m ks) ≡ ks
keys-scalars m [] = refl
keys-scalars m (k ∷ ks) = ap (◌∷◌ k) (keys-scalars m ks)

keys-stanza_nodes :
    (o : Order) (ss : Stanzas) (ns : List Bytes) → keys_of (stanza_nodes o ss ns) ≡ ns
keys-stanza_nodes o ss [] = refl
keys-stanza_nodes o ss (n ∷ ns) = ap (◌∷◌ n) (keys-stanza_nodes o ss ns)

module _ (o : Order) (ho : IsOrder o) where
  node_setting : (k n : Bytes) (m : Entries) → lookup k (stanza_node o n m) ≡ as_text (lookup k m)
  unfolding map_to_yaml_node
  node_setting k n m =
      let kept = one_of-sort_strings k (o n (keys_of m)) ∙ one_of-perm k (ho n (keys_of m)) in
      let found = scalars-lookup k m (sort_strings (o n (keys_of m))) in
      elim (Option-cases (lookup k m)) [
        | inl free ↦ let gone = keys-lookup k m free in cc (kept, found, gone, free)
        | inr (v, there) ↦ let listed = keys-some k m there in cc (kept, found, listed, there)
      ]

  -- The node of a stanza.
  abbrev node_of : Bytes → Option Entries → Option Scalars
  node_of n none = none
  node_of n (some m) = some (stanza_node o n m)

  others_listed :
      (n : Bytes) (ss : Stanzas)
      → one_of n (sort_strings (other_names (o [] (keys_of ss))))
        ≡ (one_of n (keys_of ss) && not (eqb n (codes "default")))
  others_listed n ss =
      one_of-sort_strings n (other_names (o [] (keys_of ss)))
      ∙ one_of-other_names n (o [] (keys_of ss))
      ∙ ap (λ b. b && not (eqb n (codes "default"))) (one_of-perm n (ho [] (keys_of ss)))

  front-other :
      (n : Bytes) (d : Option Entries) (rest : Document)
      → eqb (codes "default") n ≡ false
      → lookup n (default_node o d ++ rest) ≡ lookup n rest
  unfolding lookup
  front-other n none rest h = refl
  front-other n (some m) rest h = rw h refl

  front-default :
      (d : Option Entries) (rest : Document)
      → lookup (codes "default") rest ≡ none
      → lookup (codes "default") (default_node o d ++ rest) ≡ node_of (codes "default") d
  unfolding lookup
  front-default none rest h = h
  front-default (some m) rest h = refl

  other_names-none :
      (ss : Stanzas)
      → lookup
          (codes "default")
          (stanza_nodes o ss (sort_strings (other_names (o [] (keys_of ss)))))
        ≡ none
  other_names-none ss =
      let found =
        stanza_nodes-lookup o (codes "default") ss
          (sort_strings (other_names (o [] (keys_of ss)))) in
      let listed = others_listed (codes "default") ss in ground arith

  other_names-lookup :
      (n : Bytes) (ss : Stanzas)
      → eqb n (codes "default") ≡ false
      → lookup n (stanza_nodes o ss (sort_strings (other_names (o [] (keys_of ss)))))
        ≡ node_of n (lookup n ss)
  other_names-lookup n ss h =
      let found = stanza_nodes-lookup o n ss (sort_strings (other_names (o [] (keys_of ss)))) in
      let listed = others_listed n ss in
      elim (Option-cases (lookup n ss)) [
        | inl free ↦ let gone = keys-lookup n ss free in rw free (ground arith)
        | inr (m, there) ↦
            let named = keys-some n ss there in
            let entries : entries_of n ss ≡ m = rw there refl in
            rw there (found ∙ rw (listed, named, h, entries) refl)
      ]

  document-lookup :
      (n : Bytes) (ss : Stanzas) → lookup n (client_document o ss) ≡ node_of n (lookup n ss)
  unfolding client_document
  document-lookup n ss = elim (Bool-cases (eqb n (codes "default"))) [
    | inl same ↦
        rw ((eqb_iff n (codes "default")).0 same)
          (front-default (lookup (codes "default") ss) _ (other_names-none ss))
    | inr other ↦
        front-other n (lookup (codes "default") ss) _
          (ground (arith, eqb_iff n (codes "default"), eqb_iff (codes "default") n))
        ∙ other_names-lookup n ss other
  ]

  setting-node :
      (k n : Bytes) (m : Option Entries) → lookup_in k (node_of n m) ≡ as_text (lookup_in k m)
  setting-node k n none = refl
  setting-node k n (some m) = node_setting k n m

  default-listed :
      (d : Option Entries) (ss : Stanzas) (ns : List Bytes)
      → one_of (codes "default") ns ≡ false
      → no_repeats ns ≡ true
      → no_repeats (keys_of (default_node o d ++ stanza_nodes o ss ns)) ≡ true
  default-listed none ss ns apart h = ap no_repeats (keys-stanza_nodes o ss ns) ∙ h
  default-listed (some m) ss ns apart h = rw (keys-stanza_nodes o ss ns, apart, h) refl

  -- No stanza is written twice.
  document-no_repeats :
      (ss : Stanzas)
      → no_repeats (keys_of ss) ≡ true
      → no_repeats (keys_of (client_document o ss)) ≡ true
  unfolding client_document
  document-no_repeats ss h =
      let names = o [] (keys_of ss) in
      default-listed (lookup (codes "default") ss) ss (sort_strings (other_names names))
        (others_listed (codes "default") ss ∙ none_is_default)
        (no_repeats-sort_strings (other_names names)
          ∙ no_repeats-other_names names (no_repeats-perm (ho [] (keys_of ss)) ∙ h))
    where
      none_is_default :
          (one_of (codes "default") (keys_of ss) && not (eqb (codes "default") (codes "default")))
          ≡ false
      none_is_default = ground arith

  -- Nor a key of a stanza.
  node-no_repeats :
      (n : Bytes) (m : Entries)
      → no_repeats (keys_of m) ≡ true
      → no_repeats (keys_of (stanza_node o n m)) ≡ true
  unfolding map_to_yaml_node
  node-no_repeats n m h =
      ap no_repeats (keys-scalars m (sort_strings (o n (keys_of m))))
      ∙ no_repeats-sort_strings (o n (keys_of m))
      ∙ no_repeats-perm (ho n (keys_of m))
      ∙ h

  found_node :
      (n : Bytes) (m : Option Entries) (s : Scalars)
      → no_repeats (keys_of (or_nothing m)) ≡ true
      → node_of n m ≡ some s
      → no_repeats (keys_of s) ≡ true
  found_node n none s h e = absurd (cc)
  found_node n (some m) s h e =
      let s_is : stanza_node o n m ≡ s = cc in rw (← s_is) (node-no_repeats n m h)

  -- The document that convertClient gives to yaml.Marshal has every setting of every stanza, with its
  -- value as text, and no other one; and it has no stanza twice, nor a key twice in a stanza. Assumed
  -- is that the maps have every key once and that Go meets every key of a map once.
  pub document-settings :
      (ss : Stanzas)
      → no_repeats (keys_of ss) ≡ true
      → ((n : Bytes) → no_repeats (keys_of (entries_of n ss)) ≡ true)
      → ((k n : Bytes)
          → lookup_in k (lookup n (client_document o ss)) ≡ as_text (lookup_in k (lookup n ss)))
        × (no_repeats (keys_of (client_document o ss)) ≡ true)
        × ((n : Bytes) (s : Scalars)
            → lookup n (client_document o ss) ≡ some s
            → no_repeats (keys_of s) ≡ true)
  document-settings ss names_once keys_once = (
    λ k n. ap (lookup_in k) (document-lookup n ss) ∙ setting-node k n (lookup n ss),
    document-no_repeats ss names_once,
    λ n s e. found_node n (lookup n ss) s (keys_once n) (sym (document-lookup n ss) ∙ e),
  )
