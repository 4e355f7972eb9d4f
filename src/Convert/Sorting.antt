-- ===== src/Convert/Sorting.antt =====
-- Go's sort.Strings, and that its result depends neither on the order nor on who lists the texts.
use fwknop_go.Base.{
  ◌≡◌, refl, ap, ◌∙◌, Bool, true, false, ◌&&◌, ◌||◌, List, [], ◌∷◌, arith, Bytes, ltb, ◌==◌, eqb,
  eqb_iff, not, if◌then◌else◌,
}
use fwknop_go.Convert.Lines.{one_of}

-- The same texts, in whatever order.
pub data Rearranged : List Bytes → List Bytes → Type 0 where
  nil : Rearranged [] []
  cons : {a : Bytes} {ss ts : List Bytes} → Rearranged ss ts → Rearranged (a ∷ ss) (a ∷ ts)
  swap : {a b : Bytes} {ss : List Bytes} → Rearranged (a ∷ b ∷ ss) (b ∷ a ∷ ss)
  trans : {ss ts us : List Bytes} → Rearranged ss ts → Rearranged ts us → Rearranged ss us

pub Rearranged-refl : (ss : List Bytes) → Rearranged ss ss
Rearranged-refl [] = nil
Rearranged-refl (s ∷ ss) = cons (Rearranged-refl ss)

pub Rearranged-sym : {ss ts : List Bytes} → Rearranged ss ts → Rearranged ts ss
Rearranged-sym nil = nil
Rearranged-sym (cons p) = cons (Rearranged-sym p)
Rearranged-sym swap = swap
Rearranged-sym (trans p q) = trans (Rearranged-sym q) (Rearranged-sym p)

-- `<=` on strings.
unfoldable pub leb_bytes : Bytes → Bytes → Bool
leb_bytes [] t = true
leb_bytes (a ∷ s) [] = false
leb_bytes (a ∷ s) (b ∷ t) = ltb a b || (a == b && leb_bytes s t)

unfoldable pub insert_string : Bytes → List Bytes → List Bytes
insert_string s [] = s ∷ []
insert_string s (t ∷ ts) =
    let rest = insert_string s ts in if leb_bytes s t then s ∷ t ∷ ts else t ∷ rest

-- sort.Strings
unfoldable pub sort_strings : List Bytes → List Bytes
sort_strings [] = []
sort_strings (s ∷ ss) = insert_string s (sort_strings ss)

leb_total : (s t : Bytes) → (leb_bytes s t || leb_bytes t s) ≡ true
unfolding leb_bytes
leb_total [] t = refl
leb_total (a ∷ s) [] = refl
leb_total (a ∷ s) (b ∷ t) = ground (arith, leb_total s t)

leb_antisym : (s t : Bytes) → leb_bytes s t ≡ true → leb_bytes t s ≡ true → s ≡ t
unfolding leb_bytes
leb_antisym [] [] h g = refl
leb_antisym [] (b ∷ t) h g = absurd (cc)
leb_antisym (a ∷ s) [] h g = absurd (cc)
leb_antisym (a ∷ s) (b ∷ t) h g = ground (arith, leb_antisym s t)

leb_trans : (s t u : Bytes) → leb_bytes s t ≡ true → leb_bytes t u ≡ true → leb_bytes s u ≡ true
unfolding leb_bytes
leb_trans [] t u h g = refl
leb_trans (a ∷ s) [] u h g = absurd (cc)
leb_trans (a ∷ s) (b ∷ t) [] h g = absurd (cc)
leb_trans (a ∷ s) (b ∷ t) (c ∷ u) h g = ground (arith, leb_trans s t u)

insert_comm :
    (s t : Bytes) (us : List Bytes)
    → insert_string s (insert_string t us) ≡ insert_string t (insert_string s us)
unfolding insert_string
insert_comm s t [] = ground (arith, leb_total s t, leb_antisym s t)
insert_comm s t (u ∷ us) =
    ground
      (arith, leb_total s t, leb_antisym s t, leb_trans s t u, leb_trans t s u, insert_comm s t us)

-- Two lists of the same texts are sorted alike.
pub sort_strings-perm : {ss ts : List Bytes} → Rearranged ss ts → sort_strings ss ≡ sort_strings ts
unfolding sort_strings
sort_strings-perm nil = refl
sort_strings-perm (cons p) = cc (sort_strings-perm p)
sort_strings-perm (swap {a = a} {b = b} {ss = l}) = insert_comm a b (sort_strings l)
sort_strings-perm (trans p q) = sort_strings-perm p ∙ sort_strings-perm q

one_of-insert :
    (s t : Bytes) (ts : List Bytes) → one_of s (insert_string t ts) ≡ (eqb s t || one_of s ts)
unfolding insert_string
one_of-insert s t [] = refl
one_of-insert s t (u ∷ us) = ground (arith, one_of-insert s t us)

-- Sorting keeps the texts.
pub one_of-sort_strings : (s : Bytes) (ts : List Bytes) → one_of s (sort_strings ts) ≡ one_of s ts
unfolding sort_strings
one_of-sort_strings s [] = refl
one_of-sort_strings s (t ∷ ts) =
    one_of-insert s t (sort_strings ts) ∙ ap (λ b. eqb s t || b) (one_of-sort_strings s ts)

pub one_of-perm : (s : Bytes) {ts us : List Bytes} → Rearranged ts us → one_of s ts ≡ one_of s us
one_of-perm s nil = refl
one_of-perm s (cons p) = cc (one_of-perm s p)
one_of-perm s (swap {a = a} {b = b} {ss = l}) = ground arith
one_of-perm s (trans p q) = one_of-perm s p ∙ one_of-perm s q

-- No text stands twice.
abbrev pub no_repeats : List Bytes → Bool
no_repeats [] = true
no_repeats (s ∷ ss) = not (one_of s ss) && no_repeats ss

pub no_repeats-perm : {ss ts : List Bytes} → Rearranged ss ts → no_repeats ss ≡ no_repeats ts
no_repeats-perm nil = refl
no_repeats-perm (cons {a} p) = cc (one_of-perm a p, no_repeats-perm p)
no_repeats-perm (swap {a = a} {b = b} {ss = l}) = ground (arith, eqb_iff a b, eqb_iff b a)
no_repeats-perm (trans p q) = no_repeats-perm p ∙ no_repeats-perm q

no_repeats-insert :
    (s : Bytes) (ts : List Bytes) → no_repeats (insert_string s ts) ≡ no_repeats (s ∷ ts)
unfolding insert_string
no_repeats-insert s [] = refl
no_repeats-insert s (t ∷ ts) =
    ground (arith, no_repeats-insert s ts, one_of-insert t s ts, eqb_iff t s, eqb_iff s t)

pub no_repeats-sort_strings : (ss : List Bytes) → no_repeats (sort_strings ss) ≡ no_repeats ss
unfolding sort_strings
no_repeats-sort_strings [] = refl
no_repeats-sort_strings (s ∷ ss) =
    no_repeats-insert s (sort_strings ss)
    ∙ cc (one_of-sort_strings s ss, no_repeats-sort_strings ss)
