-- ===== src/Map.antt =====
-- Go's maps with texts as keys: an association list whose first entry for a key counts.
use fwknop_go.Base.{
  ◌≡◌, Option, none, some, List, [], ◌∷◌, arith, Bytes, eqb, eqb_iff, if◌then◌else◌,
}

unfoldable pub lookup {ℓ} : {V : Type ℓ} → Bytes → List (Bytes × V) → Option V
lookup k [] = none
lookup k ((j, v) ∷ m) = if eqb j k then some v else lookup k m

unfoldable pub delete {ℓ} : {V : Type ℓ} → Bytes → List (Bytes × V) → List (Bytes × V)
delete k [] = []
delete k ((j, v) ∷ m) = let rest = delete k m in if eqb j k then rest else (j, v) ∷ rest

unfoldable pub insert {ℓ} : {V : Type ℓ} → Bytes → V → List (Bytes × V) → List (Bytes × V)
unfolding delete
insert k v m = (k, v) ∷ delete k m

pub lookup-delete {ℓ} :
    {V : Type ℓ} (k j : Bytes) (m : List (Bytes × V))
    → lookup j (delete k m) ≡ (if eqb k j then none else lookup j m)
unfolding lookup delete
lookup-delete k j [] = ground arith
lookup-delete k j ((i, v) ∷ m) =
    ground (arith, eqb_iff i k, eqb_iff i j, eqb_iff k j, lookup-delete k j m)

pub lookup-insert {ℓ} :
    {V : Type ℓ} (k j : Bytes) (v : V) (m : List (Bytes × V))
    → lookup j (insert k v m) ≡ (if eqb k j then some v else lookup j m)
unfolding lookup insert
lookup-insert k j v m = ground (arith, lookup-delete k j m)

abbrev pub keys_of {ℓ} : {V : Type ℓ} → List (Bytes × V) → List Bytes
keys_of [] = []
keys_of ((k, v) ∷ m) = k ∷ keys_of m

-- The value of a key in a map that may be missing.
abbrev pub lookup_in {ℓ} : {V : Type ℓ} → Bytes → Option (List (Bytes × V)) → Option V
lookup_in k none = none
lookup_in k (some m) = lookup k m
