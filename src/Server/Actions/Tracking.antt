-- ===== src/Server/Actions/Tracking.antt =====
-- Which timers are left when one is stopped, and the entries of the map.
use mathlib.Core.List.{Memᴰ}
use fwknop_go.Base.{
  ℕ, ◌≡◌, ◌≢◌, sym, ap, ◌∙◌, inl, inr, false, Option, none, some, List, [], ◌∷◌, arith, Bytes,
  eqb_iff, ◌==◌, ==_iff, Bool-cases,
}
use fwknop_go.Map.{lookup, delete, insert, lookup-delete, lookup-insert}
use fwknop_go.Server.Actions.{ActiveRule, Timer, stop, stop_existing}

module _ (id : ℕ) (t : Timer) where
  pub stop-keeps : (ts : List Timer) → Memᴰ t ts → t.id ≢ id → Memᴰ t (stop id ts)
  unfolding stop
  stop-keeps [] q d = elim q [ ]
  stop-keeps (u ∷ ts) (Memᴰ.head e) d = elim (Bool-cases (u.id == id)) [
    | inl same ↦ absurd (d (ap (λ x. x.id) e ∙ (==_iff u.id id).0 same))
    | inr other ↦ rw other (Memᴰ.head e)
  ]
  stop-keeps (u ∷ ts) (Memᴰ.tail q) d = elim (Bool-cases (u.id == id)) [
    | inl same ↦ rw same (stop-keeps ts q d)
    | inr other ↦ rw other (Memᴰ.tail (stop-keeps ts q d))
  ]

  kept_head :
      (u : Timer) (ts us : List Timer)
      → (u.id == id) ≡ false
      → (Memᴰ t us → Memᴰ t ts × (t.id ≢ id))
      → Memᴰ t (u ∷ us)
      → Memᴰ t (u ∷ ts) × (t.id ≢ id)
  kept_head u ts us other kept (Memᴰ.head e) =
      (Memᴰ.head e, λ f. cc ((==_iff u.id id).1 (ap (λ x. x.id) (sym e) ∙ f), other))
  kept_head u ts us other kept (Memᴰ.tail q) = let (m, d) = kept q in (Memᴰ.tail m, d)

  pub stop_sound : (ts : List Timer) → Memᴰ t (stop id ts) → Memᴰ t ts × (t.id ≢ id)
  unfolding stop
  stop_sound [] q = elim q [ ]
  stop_sound (u ∷ ts) q = elim (Bool-cases (u.id == id)) [
    | inl same ↦ let (m, d) = stop_sound ts (rw same at q) in (Memᴰ.tail m, d)
    | inr other ↦ kept_head u ts (stop id ts) other (stop_sound ts) (rw other at q)
  ]

-- The entry of the map that belongs to a timer.
abbrev pub rule_of : Timer → ActiveRule
rule_of t = record { ctx = t.ctx; timer = t.id }

-- The timer that closes a rule is running.
abbrev pub IsTimed : ActiveRule → List Timer → Type 0
IsTimed r ts = (t : Timer) × Memᴰ t ts × (r ≡ rule_of t)

pub same_value {ℓ} : {A : Type ℓ} {a b : A} → some a ≡ some b → a ≡ b
same_value e = cc

pub lookup_other :
    (k j : Bytes) (v : ActiveRule) (m : List (Bytes × ActiveRule))
    → k ≢ j
    → lookup j (insert k v m) ≡ lookup j m
lookup_other k j v m d = lookup-insert k j v m ∙ ground (arith, eqb_iff k j)

pub lookup_deleted :
    (k j : Bytes) (r : ActiveRule) (m : List (Bytes × ActiveRule))
    → lookup j (delete k m) ≡ some r
    → (k ≢ j) × (lookup j m ≡ some r)
lookup_deleted k j r m e = ground (arith, lookup-delete k j m, eqb_iff k j)

pub left_mem :
    (o : Option ActiveRule) (t : Timer) (ts : List Timer) → Memᴰ t (stop_existing o ts) → Memᴰ t ts
left_mem none t ts q = q
left_mem (some r) t ts q = (stop_sound r.timer t ts q).0
