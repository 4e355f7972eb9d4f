-- ===== src/Server/Actions/Pending.antt =====
-- What stays true of rules and timers while closings are on their way.
use mathlib.Core.List.{Memᴰ}
use fwknop_go.Base.{
  ℕ, suc, ◌<◌, ◌≡◌, ◌≢◌, refl, sym, ap, ◌∙◌, ◌⊎◌, inl, inr, some, List, ◌∷◌, arith, Bytes, eqb,
  eqb_iff, ◌==◌, ==_iff, Bool-cases, Option-cases, ℤ,
}
use fwknop_go.Map.{lookup, insert, delete, lookup-insert}
use fwknop_go.Server.Request.{TemplateContext, rule_key}
use fwknop_go.Server.Actions.{ActiveRule, Timer, stop, stop_existing}
use fwknop_go.Server.Actions.Tracking.{
  rule_of, IsTimed, stop-keeps, stop_sound, same_value, left_mem, lookup_deleted,
}
use fwknop_go.Server.Actions.Interleaving.{Takes, takes_first, takes_later, IsClosing}

pub Takes-out {ℓ} :
    {A : Type ℓ} {x y : A} {xs ys : List A} → Takes x xs ys → Memᴰ y xs → (y ≡ x) ⊎ Memᴰ y ys
Takes-out takes_first (Memᴰ.head e) = inl e
Takes-out takes_first (Memᴰ.tail q) = inr q
Takes-out (takes_later k) (Memᴰ.head e) = inr (Memᴰ.head e)
Takes-out (takes_later k) (Memᴰ.tail q) = elim (Takes-out k q) [
  | inl e ↦ inl e
  | inr r ↦ inr (Memᴰ.tail r)
]

pub Takes-in {ℓ} : {A : Type ℓ} {x : A} {xs ys : List A} → Takes x xs ys → Memᴰ x xs
Takes-in takes_first = Memᴰ.head refl
Takes-in (takes_later k) = Memᴰ.tail (Takes-in k)

pub Takes-rest {ℓ} : {A : Type ℓ} {x y : A} {xs ys : List A} → Takes x xs ys → Memᴰ y ys → Memᴰ y xs
Takes-rest takes_first q = Memᴰ.tail q
Takes-rest (takes_later k) (Memᴰ.head e) = Memᴰ.head e
Takes-rest (takes_later k) (Memᴰ.tail q) = Memᴰ.tail (Takes-rest k q)

pub record IsCovered (rules : List (Bytes × ActiveRule)) (timers : List Timer) (next : ℕ)
    (fired closed : List TemplateContext) : Type 0 where
  pub covered :
      (k : Bytes) (r : ActiveRule)
      → lookup k rules ≡ some r
      → (k ≡ rule_key r.ctx) × (IsTimed r timers ⊎ IsClosing k fired closed)
  pub apart :
      (j k : Bytes) (r s : ActiveRule)
      → lookup j rules ≡ some r
      → lookup k rules ≡ some s
      → r.timer ≡ s.timer
      → j ≡ k
  pub numbered : (k : Bytes) (r : ActiveRule) → lookup k rules ≡ some r → r.timer < next
  pub known : (t : Timer) → Memᴰ t timers → t.id < next
  pub unique : (t u : Timer) → Memᴰ t timers → Memᴰ u timers → t.id ≡ u.id → t ≡ u

module _ (rules : List (Bytes × ActiveRule)) (ts : List Timer) (next : ℕ)
    (fired closed : List TemplateContext) (i : IsCovered rules ts next fired closed) where
  -- The timer of a rule of another key is left.
  pub kept_timer :
      (j k : Bytes) (t : Timer)
      → j ≢ k
      → lookup k rules ≡ some (rule_of t)
      → Memᴰ t ts
      → Memᴰ t (stop_existing (lookup j rules) ts)
  kept_timer j k t d mine m = elim (Option-cases (lookup j rules)) [
    | inl free ↦ rw free m
    | inr (r, taken) ↦
        rw taken (stop-keeps r.timer t ts m (λ f. d (sym (i.apart k j (rule_of t) r mine taken f))))
  ]

  module _ (due : ℤ) (ctx : TemplateContext) where
    abbrev new_timer : Timer
    new_timer = record { id = next; due = due; ctx = ctx }

    abbrev new_rules : List (Bytes × ActiveRule)
    new_rules = insert (rule_key ctx) (rule_of new_timer) rules

    abbrev new_timers : List Timer
    new_timers = new_timer ∷ stop_existing (lookup (rule_key ctx) rules) ts

    -- An entry of the new map is the new one, or an old one of another key.
    entry :
        (k : Bytes) (r : ActiveRule)
        → lookup k new_rules ≡ some r
        → ((k ≡ rule_key ctx) × (r ≡ rule_of new_timer))
          ⊎ ((rule_key ctx ≢ k) × (lookup k rules ≡ some r))
    entry k r e =
        let v = lookup-insert (rule_key ctx) k (rule_of new_timer) rules in
        elim (Bool-cases (eqb (rule_key ctx) k)) [
          | inl same ↦
              inl (sym ((eqb_iff (rule_key ctx) k).0 same), same_value (sym e ∙ v ∙ rw same refl))
          | inr other ↦
              inr (λ f. cc ((eqb_iff (rule_key ctx) k).1 f, other), sym (v ∙ rw other refl) ∙ e)
        ]

    new_covered :
        (k : Bytes) (r : ActiveRule)
        → lookup k new_rules ≡ some r
        → (k ≡ rule_key r.ctx) × (IsTimed r new_timers ⊎ IsClosing k fired closed)
    new_covered k r e = elim (entry k r e) [
      | inl (k_is, r_is) ↦
          (k_is ∙ ap (λ x. rule_key x.ctx) (sym r_is), inl (new_timer, Memᴰ.head refl, r_is))
      | inr (d, old) ↦
          let (k_is, cover) = i.covered k r old in
          (
            k_is,
            elim cover [
              | inl (t, m, r_is) ↦
                  inl (t, Memᴰ.tail (kept_timer (rule_key ctx) k t d (old ∙ ap some r_is) m), r_is)
              | inr closing ↦ inr closing
            ],
          )
    ]

    new_apart :
        (j k : Bytes) (r s : ActiveRule)
        → lookup j new_rules ≡ some r
        → lookup k new_rules ≡ some s
        → r.timer ≡ s.timer
        → j ≡ k
    new_apart j k r s e f h = elim (entry j r e) [
      | inl (j_is, r_is) ↦ elim (entry k s f) [
        | inl (k_is, s_is) ↦ j_is ∙ sym k_is
        | inr (d, old) ↦
            let same : s.timer ≡ next = sym h ∙ ap (λ x. x.timer) r_is in
            absurd (omega (arith, i.numbered k s old))
      ]
      | inr (d, old) ↦ elim (entry k s f) [
        | inl (k_is, s_is) ↦
            let same : r.timer ≡ next = h ∙ ap (λ x. x.timer) s_is in
            absurd (omega (arith, i.numbered j r old))
        | inr (d', old') ↦ i.apart j k r s old old' h
      ]
    ]

    new_numbered : (k : Bytes) (r : ActiveRule) → lookup k new_rules ≡ some r → r.timer < suc next
    new_numbered k r e = elim (entry k r e) [
      | inl (k_is, r_is) ↦ let same : r.timer ≡ next = ap (λ x. x.timer) r_is in omega arith
      | inr (d, old) ↦ omega (arith, i.numbered k r old)
    ]

    new_known : (t : Timer) → Memᴰ t new_timers → t.id < suc next
    new_known t (Memᴰ.head e) = rw e (omega arith)
    new_known t (Memᴰ.tail q) =
        omega (arith, i.known t (left_mem (lookup (rule_key ctx) rules) t ts q))

    new_unique : (t u : Timer) → Memᴰ t new_timers → Memᴰ u new_timers → t.id ≡ u.id → t ≡ u
    new_unique t u (Memᴰ.head e) (Memᴰ.head f) h = e ∙ sym f
    new_unique t u (Memᴰ.head e) (Memᴰ.tail q) h =
        let id_is : t.id ≡ next = ap (λ x. x.id) e in
        absurd (omega (arith, i.known u (left_mem (lookup (rule_key ctx) rules) u ts q)))
    new_unique t u (Memᴰ.tail q) (Memᴰ.head f) h =
        let id_is : u.id ≡ next = ap (λ x. x.id) f in
        absurd (omega (arith, i.known t (left_mem (lookup (rule_key ctx) rules) t ts q)))
    new_unique t u (Memᴰ.tail q) (Memᴰ.tail p) h =
        i.unique t u (left_mem (lookup (rule_key ctx) rules) t ts q)
          (left_mem (lookup (rule_key ctx) rules) u ts p) h

    pub schedule-IsCovered : IsCovered new_rules new_timers (suc next) fired closed
    schedule-IsCovered = record {
      covered = new_covered;
      apart = new_apart;
      numbered = new_numbered;
      known = new_known;
      unique = new_unique;
    }

  -- A timer starts its closing.
  pub begin-IsCovered :
      (t : Timer) → Memᴰ t ts → IsCovered rules (stop t.id ts) next (t.ctx ∷ fired) closed
  begin-IsCovered t m = record {
    covered = λ k r e.
        let (k_is, cover) = i.covered k r e in
        (
          k_is,
          elim cover [
            | inl (u, mu, r_is) ↦ elim (Bool-cases (u.id == t.id)) [
              | inl same ↦ inr (
                t.ctx,
                inl (Memᴰ.head refl),
                ap (λ x. rule_key x.ctx) (sym (i.unique u t mu m ((==_iff u.id t.id).0 same)))
                    ∙ sym (k_is ∙ ap (λ x. rule_key x.ctx) r_is),
              )
              | inr other ↦
                  inl (u, stop-keeps t.id u ts mu (λ f. cc ((==_iff u.id t.id).1 f, other)), r_is)
            ]
            | inr (ctx, inl q, key) ↦ inr (ctx, inl (Memᴰ.tail q), key)
            | inr (ctx, inr q, key) ↦ inr (ctx, inr q, key)
          ],
        );
    apart = i.apart;
    numbered = i.numbered;
    known = λ u q. i.known u (stop_sound t.id u ts q).0;
    unique = λ u v q p. i.unique u v (stop_sound t.id u ts q).0 (stop_sound t.id v ts p).0;
  }

  -- A close command has run.
  pub run-IsCovered :
      (ctx : TemplateContext) (rest : List TemplateContext)
      → Takes ctx fired rest
      → IsCovered rules ts next rest (ctx ∷ closed)
  run-IsCovered ctx rest taken = record {
    covered = λ k r e.
        let (k_is, cover) = i.covered k r e in
        (
          k_is,
          elim cover [
            | inl timed ↦ inl timed
            | inr (c, inr q, key) ↦ inr (c, inr (Memᴰ.tail q), key)
            | inr (c, inl q, key) ↦ inr (
              c,
              elim (Takes-out taken q) [ inl e ↦ inr (Memᴰ.head e) | inr left ↦ inl left ],
              key,
            )
          ],
        );
    apart = i.apart;
    numbered = i.numbered;
    known = i.known;
    unique = i.unique;
  }

  -- An entry is deleted.
  pub forget-IsCovered :
      (ctx : TemplateContext) (rest : List TemplateContext)
      → Takes ctx closed rest
      → IsCovered (delete (rule_key ctx) rules) ts next fired rest
  forget-IsCovered ctx rest taken = record {
    covered = λ k r e.
        let (d, old) = lookup_deleted (rule_key ctx) k r rules e in
        let (k_is, cover) = i.covered k r old in
        (
          k_is,
          elim cover [
            | inl timed ↦ inl timed
            | inr (c, inl q, key) ↦ inr (c, inl q, key)
            | inr (c, inr q, key) ↦ inr (
              c,
              elim (Takes-out taken q) [
                | inl e ↦ absurd (d (ap rule_key (sym e) ∙ key))
                | inr left ↦ inr left
              ],
              key,
            )
          ],
        );
    apart = λ j k r s e f.
        i.apart j k r s (lookup_deleted (rule_key ctx) j r rules e).1
          (lookup_deleted (rule_key ctx) k s rules f).1;
    numbered = λ k r e. i.numbered k r (lookup_deleted (rule_key ctx) k r rules e).1;
    known = i.known;
    unique = i.unique;
  }
