-- ===== src/Koanf/Completion.antt =====
-- What both programs have for the end of loading: koanf's Unmarshal, by the type of a field, and how a
-- load ends.
use fwknop_go.Base.{
  ℕ, ◌≢◌, ℤ, pos, Bool, true, false, ◌≡◌, refl, sym, ◌∙◌, Option, none, some, List, [], ◌∷◌, Bytes,
  equal_fold, to_lower, lower, if◌then◌else◌, Bool-cases, Option-cases, inl, inr, arith,
}
use fwknop_go.Koanf.{IsPlain, or_else}

-- What mapstructure makes of a setting for a field of each type; `none` is an error.
pub record Decoder (V : Type 0) : Type 0 where
  pub text : V → Option Bytes
  pub int : V → Option ℤ
  pub bool : V → Option Bool

infixl 5 ◌>>=◌
abbrev pub ◌>>=◌ {ℓ κ} : {A : Type ℓ} {B : Type κ} → Option A → (A → Option B) → Option B
none >>= next = none
some a >>= next = next a

module _ {V : Type 0} (d : Decoder V) where
  -- A field that no setting has keeps its zero value.
  abbrev pub text_field : Option V → Option Bytes
  text_field none = some []
  text_field (some v) = d.text v

  abbrev pub int_field : Option V → Option ℤ
  int_field none = some (pos 0)
  int_field (some v) = d.int v

  abbrev pub bool_field : Option V → Option Bool
  bool_field none = some false
  bool_field (some v) = d.bool v

-- The first name that is a key but for its case.
abbrev pub fold_match : List Bytes → Bytes → Option Bytes
fold_match [] key = none
fold_match (n ∷ ns) key = let rest = fold_match ns key in if equal_fold n key then some n else rest

abbrev named_setting {ℓ} : {V : Type ℓ} → (Bytes → Option V) → Option Bytes → Option V
named_setting get none = none
named_setting get (some n) = get n

-- What mapstructure takes for a field: the setting of its name, or else one whose name differs in its
-- case.
abbrev pub field_setting {ℓ} : {V : Type ℓ} → List Bytes → (Bytes → Option V) → Bytes → Option V
field_setting names get key = or_else (get key) (named_setting get (fold_match names key))

dotless : (c d : ℕ) → lower c ≡ lower d → d ≢ b'.' → c ≢ b'.'
unfolding lower
dotless c d e p f = ground arith

-- A name that is plain stays so in another case.
fold-IsPlain : (s t : Bytes) → equal_fold s t ≡ true → IsPlain t → IsPlain s
unfolding equal_fold to_lower lower
fold-IsPlain [] t h p = tt
fold-IsPlain (c ∷ s) [] h p = absurd (cc)
fold-IsPlain (c ∷ s) (d ∷ t) h p =
    let first : lower c ≡ lower d = ground (arith, h) in
    let rest : equal_fold s t ≡ true = ground (arith, h) in
    (dotless c d first p.0, fold-IsPlain s t rest p.1)

fold_match_lem :
    (names : List Bytes) (key : Bytes) {n : Bytes}
    → fold_match names key ≡ some n
    → equal_fold n key ≡ true
fold_match_lem [] key e = absurd (cc)
fold_match_lem (m ∷ ms) key {n} e = elim (Bool-cases (equal_fold m key)) [
  | inl same ↦ let m_is : m ≡ n = same_name (rw same at e) in rw (← m_is) same
  | inr other ↦ fold_match_lem ms key (rw other at e)
]
  where
    same_name : some m ≡ some n → m ≡ n
    same_name f = cc

-- A field has the setting of its name, if no other name is that but for its case, where it has none.
pub field_setting_lem {ℓ} :
    {V : Type ℓ} (names : List Bytes) (get layers : Bytes → Option V) (key : Bytes)
    → IsPlain key
    → ((j : Bytes) → IsPlain j → get j ≡ layers j)
    → ((j : Bytes) → equal_fold j key ≡ true → layers key ≡ none → layers j ≡ none)
    → field_setting names get key ≡ layers key
field_setting_lem {V = V} names get layers key plain same alone = elim (Option-cases (get key)) [
  | inr (v, there) ↦ rw there (sym there ∙ same key plain)
  | inl free ↦ rw free (elim (Option-cases (fold_match names key)) [
    | inl unmatched ↦ rw unmatched (sym free ∙ same key plain)
    | inr (n, matched) ↦
        let folds = fold_match_lem names key matched in
        let gone : layers key ≡ none = sym (same key plain) ∙ free in
        rw matched (same n (fold-IsPlain n key folds plain) ∙ alone n folds gone ∙ sym gone)
  ])
]

-- What a load comes to, with errors of the type E; it may end the process.
pub data Completion {ℓ} (E : Type 0) (A : Type ℓ) : Type ℓ where
  exits : Completion E A
  stops : E → Completion E A
  goes_on : A → Completion E A

abbrev pub or_stop {ℓ} : {E : Type 0} {A : Type ℓ} → E → Option A → Completion E A
or_stop e none = stops e
or_stop e (some a) = goes_on a

abbrev pub then_go {ℓ κ} :
    {E : Type 0} {A : Type ℓ} {B : Type κ} → (A → Completion E B) → Completion E A → Completion E B
then_go next exits = exits
then_go next (stops e) = stops e
then_go next (goes_on a) = next a

-- A step that goes on went on after one that did.
pub went_both {ℓ κ} :
    {E : Type 0} {A : Type ℓ} {B : Type κ} (next : A → Completion E B) (o : Completion E A) {b : B}
    → then_go next o ≡ goes_on b
    → (a : A) × ((o ≡ goes_on a) × (next a ≡ goes_on b))
went_both next exits e = absurd (cc)
went_both next (stops x) e = absurd (cc)
went_both next (goes_on a) e = (a, (refl, e))

pub went_on {ℓ} :
    {E : Type 0} {A : Type ℓ} (x : E) (o : Option A) {a : A} → or_stop x o ≡ goes_on a → o ≡ some a
went_on x none e = absurd (cc)
went_on x (some a) e = cc
