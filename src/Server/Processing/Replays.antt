-- ===== src/Server/Processing/Replays.antt =====
-- The replay check: a digest that was recorded is refused until it expires.
use fwknop_go.Base.{
  ℕ, ◌+◌, ◌≤◌, ◌<◌, pos, ◌≡◌, refl, ap, ◌∙◌, ◌⊎◌, inl, inr, true, false, some, arith, Bytes,
  eqb_iff, eqb_refl, Bool-cases,
}
use fwknop_go.Spa.Digest.{Hashes}
use fwknop_go.Server.Replay.{
  ReplayCache, lookup, delete, is_after, time_add, is_duplicate, add, purge,
}
use fwknop_go.Map.{lookup-delete, lookup-insert}
use fwknop_go.Server.Replay.Entries.{lookup-drop_expired}
use fwknop_go.Server.Processing.{packet_digest, check_replay}

-- The cache's digest `d` expires at `exp`, or that time is over.
abbrev pub Remembers : Bytes → ℕ → ℕ → ReplayCache → Type 0
Remembers d exp now rc = (lookup d rc.entries ≡ some (pos exp)) ⊎ (exp < now)

module _ (h : Hashes) (d : Bytes) (exp : ℕ) where
  pub Remembers-later :
      (t u : ℕ) (rc : ReplayCache) → t ≤ u → Remembers d exp t rc → Remembers d exp u rc
  Remembers-later t u rc l (inl e) = inl e
  Remembers-later t u rc l (inr p) = inr (omega arith)

  pub purge-Remembers :
      (now : ℕ) (rc : ReplayCache) → Remembers d exp now rc → Remembers d exp now (purge rc now)
  unfolding purge
  purge-Remembers now rc (inr p) = inr p
  purge-Remembers now rc (inl e) = elim (Bool-cases (is_after now (pos exp))) [
    | inl over ↦ inr (ground arith)
    | inr fresh ↦ inl (lookup-drop_expired now d (pos exp) rc.entries e fresh)
  ]

  -- A look-up of any digest keeps the entry, unless its time is over.
  is_duplicate-Remembers :
      (now : ℕ) (k : Bytes) (rc : ReplayCache)
      → Remembers d exp now rc
      → Remembers d exp now (is_duplicate rc now k).0
  unfolding is_duplicate
  is_duplicate-Remembers now k rc m = ground (arith, lookup-delete k d rc.entries, eqb_iff k d)

  add-Remembers :
      (now : ℕ) (k : Bytes) (rc : ReplayCache)
      → (is_duplicate rc now k).1 ≡ false
      → Remembers d exp now rc
      → Remembers d exp now (add (is_duplicate rc now k).0 now k)
  unfolding is_duplicate add
  add-Remembers now k rc new m = ground (
    arith,
    lookup-insert k d (time_add now rc.ttl) rc.entries,
    lookup-insert k d (time_add now rc.ttl) (delete k rc.entries),
    lookup-delete k d rc.entries,
    eqb_iff k d,
  )

  pub check_replay-Remembers :
      (now : ℕ) (spa : Bytes) (rc : ReplayCache)
      → Remembers d exp now rc
      → (rc' : ReplayCache) × ((check_replay h (some rc) now spa).0 ≡ some rc')
        × Remembers d exp now rc'
  unfolding check_replay
  check_replay-Remembers now spa rc m =
      let k = packet_digest h spa in
      elim (Bool-cases (is_duplicate rc now k).1) [
        | inl old ↦ ((is_duplicate rc now k).0, rw old refl, is_duplicate-Remembers now k rc m)
        | inr new ↦ (add (is_duplicate rc now k).0 now k, rw new refl, add-Remembers now k rc new m)
      ]

-- The entry that a passing packet leaves.
is_duplicate_new :
    (now : ℕ) (k : Bytes) (rc : ReplayCache)
    → (is_duplicate rc now k).1 ≡ false
    → (is_duplicate rc now k).0.ttl ≡ rc.ttl
unfolding is_duplicate
is_duplicate_new now k rc e = ground arith

check_replay_new :
    (h : Hashes) (now : ℕ) (spa : Bytes) (rc : ReplayCache)
    → (check_replay h (some rc) now spa).1 ≡ false
    → (is_duplicate rc now (packet_digest h spa)).1 ≡ false
unfolding check_replay
check_replay_new h now spa rc e = ground arith

lookup-add :
    (now : ℕ) (k : Bytes) (rc : ReplayCache)
    → lookup k (add rc now k).entries ≡ some (time_add now rc.ttl)
unfolding add
lookup-add now k rc = rw (lookup-insert k k (time_add now rc.ttl) rc.entries, eqb_refl k) refl

pub check_replay_adds :
    (h : Hashes) (now ttl : ℕ) (spa : Bytes) (rc : ReplayCache)
    → rc.ttl ≡ pos ttl
    → (check_replay h (some rc) now spa).1 ≡ false
    → (rc' : ReplayCache) × ((check_replay h (some rc) now spa).0 ≡ some rc')
      × (lookup (packet_digest h spa) rc'.entries ≡ some (pos (now + ttl)))
unfolding check_replay
check_replay_adds h now ttl spa rc t new =
    let k = packet_digest h spa in
    let first = check_replay_new h now spa rc new in
    (
      add (is_duplicate rc now k).0 now k,
      rw first refl,
      lookup-add now k (is_duplicate rc now k).0
          ∙ ap (λ d. some (time_add now d)) (is_duplicate_new now k rc first ∙ t),
    )

-- A digest that is remembered and not expired is a duplicate.
pub check_replay_duplicate :
    (h : Hashes) (now exp : ℕ) (spa : Bytes) (rc : ReplayCache)
    → lookup (packet_digest h spa) rc.entries ≡ some (pos exp)
    → now ≤ exp
    → (check_replay h (some rc) now spa).1 ≡ true
unfolding check_replay is_duplicate
check_replay_duplicate h now exp spa rc e l = ground arith
