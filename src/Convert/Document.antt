-- ===== src/Convert/Document.antt =====
-- What fwknop-convert writes does not depend on the order of Go's maps.
use fwknop_go.Base.{
  ◌≡◌, refl, ap, Option, none, some, List, [], ◌∷◌, Bytes, codes, eqb, Bool-cases, inl, inr,
}
use fwknop_go.Map.{lookup, keys_of}
use fwknop_go.Convert.Lines.{Entries}
use fwknop_go.Convert.Sorting.{
  Rearranged, Rearranged-refl, Rearranged-sym, nil, cons, swap, trans, sort_strings,
  sort_strings-perm,
}
use fwknop_go.Convert.Client.{Stanzas, entries_of, parse_client_stanzas}
use fwknop_go.Convert.Output.{
  Order, scalars, map_to_yaml_node, stanza_node, default_node, other_names, stanza_nodes,
  client_document, System, Flags, convert_client, run_convert, run_flags, convert_server,
  convert_access,
}

-- `range` goes through each key of a map once.
abbrev pub IsOrder : Order → Type 0
IsOrder order = (place : Bytes) (ks : List Bytes) → Rearranged (order place ks) ks

same_orders :
    (o p : Order)
    → IsOrder o
    → IsOrder p
    → (place : Bytes) (ks : List Bytes) → Rearranged (o place ks) (p place ks)
same_orders o p ho hp place ks = trans (ho place ks) (Rearranged-sym (hp place ks))

other_names-perm :
    {ss ts : List Bytes} → Rearranged ss ts → Rearranged (other_names ss) (other_names ts)
other_names-perm nil = nil
other_names-perm (cons {a = a} h) = elim (Bool-cases (eqb a (codes "default"))) [
  | inl is_default ↦ rw is_default (other_names-perm h)
  | inr other ↦ rw other (cons (other_names-perm h))
]
other_names-perm (swap {a = a} {b = b} {ss = ss}) = elim (Bool-cases (eqb a (codes "default"))) [
  | inl first ↦ elim (Bool-cases (eqb b (codes "default"))) [
    | inl second ↦ rw (first, second) (Rearranged-refl (other_names ss))
    | inr other ↦ rw (first, other) (Rearranged-refl (b ∷ other_names ss))
  ]
  | inr other ↦ elim (Bool-cases (eqb b (codes "default"))) [
    | inl second ↦ rw (other, second) (Rearranged-refl (a ∷ other_names ss))
    | inr third ↦ rw (other, third) swap
  ]
]
other_names-perm (trans h g) = trans (other_names-perm h) (other_names-perm g)

module _ (o p : Order) (ho : IsOrder o) (hp : IsOrder p) where
  node_same : (name : Bytes) (m : Entries) → stanza_node o name m ≡ stanza_node p name m
  unfolding map_to_yaml_node
  node_same name m = ap (scalars m) (sort_strings-perm (same_orders o p ho hp name (keys_of m)))

  default_same : (m : Option Entries) → default_node o m ≡ default_node p m
  default_same none = refl
  default_same (some m) = ap (λ x. (codes "default", x) ∷ []) (node_same (codes "default") m)

  nodes_same : (ss : Stanzas) (ns : List Bytes) → stanza_nodes o ss ns ≡ stanza_nodes p ss ns
  nodes_same ss [] = refl
  nodes_same ss (n ∷ ns) = cc (node_same n (entries_of n ss), nodes_same ss ns)

  document_same : (ss : Stanzas) → client_document o ss ≡ client_document p ss
  unfolding client_document
  document_same ss =
      let sorted = sort_strings-perm (other_names-perm (same_orders o p ho hp [] (keys_of ss))) in
      cc (
        default_same (lookup (codes "default") ss),
        sorted,
        nodes_same ss (sort_strings (other_names (o [] (keys_of ss)))),
      )

  client_same :
      (sys : System) (content : Option Bytes)
      → convert_client sys o content ≡ convert_client sys p content
  unfolding convert_client
  client_same sys none = refl
  client_same sys (some content) = rw (document_same (parse_client_stanzas content).stanzas) refl

  -- Whatever the order in which Go goes through its maps, provided that it meets every key once, a run
  -- of fwknop-convert prints the same and ends the same: with every flag, type, file and result of
  -- yaml.Marshal.
  pub convert-order_free :
      (sys : System) (flags : Option Flags) → run_convert sys o flags ≡ run_convert sys p flags
  unfolding run_convert run_flags convert_server convert_access
  convert-order_free sys none = refl
  convert-order_free sys (some f) = cc (client_same sys (sys.read_file f.input))
