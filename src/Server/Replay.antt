-- ===== src/Server/Replay.antt =====
-- cmd/fwknopd/replay.go: the cache of packet digests. The clock is an argument of each call, in
-- nanoseconds since the Unix epoch; the mutex makes each method one step. The map is an association
-- list whose first entry for a digest counts.
pub mod Entries
unfoldable pub use fwknop_go.Map.{lookup, delete, insert}
use fwknop_go.Base.{
  ℕ, suc, ◌+◌, ℤ, pos, negsuc, sub_ℕ, Bool, true, false, not, Option, none, some, List, [], ◌∷◌,
  Bytes, ltb, eqb, if◌then◌else◌,
}

abbrev pub Entries : Type 0
Entries = List (Bytes × ℤ)

pub record ReplayCache : Type 0 where
  pub entries : Entries
  pub ttl : ℤ

-- now.After(t)
abbrev pub is_after : ℕ → ℤ → Bool
is_after now (pos t) = ltb t now
is_after now (negsuc t) = true

-- now.Add(d)
abbrev pub time_add : ℕ → ℤ → ℤ
time_add now (pos d) = pos (now + d)
time_add now (negsuc d) = sub_ℕ now (suc d)

unfoldable pub new_replay_cache : ℤ → ReplayCache
new_replay_cache ttl = record { entries = []; ttl = ttl }

-- An expired entry is removed, and its packet allowed.
unfoldable pub is_duplicate : ReplayCache → ℕ → Bytes → ReplayCache × Bool
is_duplicate rc now digest = elim (lookup digest rc.entries) [
  | none ↦ (rc, false)
  | some exp ↦
      if is_after now exp
      then (record rc { entries = delete digest rc.entries }, false)
      else (rc, true)
]

unfoldable pub add : ReplayCache → ℕ → Bytes → ReplayCache
add rc now digest = record rc { entries = insert digest (time_add now rc.ttl) rc.entries }

unfoldable pub drop_expired : ℕ → Entries → Entries
drop_expired now [] = []
drop_expired now ((k, exp) ∷ m) =
    let rest = drop_expired now m in if is_after now exp then rest else (k, exp) ∷ rest

-- One tick of purgeLoop.
unfoldable pub purge : ReplayCache → ℕ → ReplayCache
unfolding drop_expired
purge rc now = record rc { entries = drop_expired now rc.entries }
