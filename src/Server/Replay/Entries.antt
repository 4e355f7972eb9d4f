-- ===== src/Server/Replay/Entries.antt =====
-- The law of the purge.
use fwknop_go.Base.{ℕ, ℤ, ◌≡◌, false, some, [], ◌∷◌, arith, Bytes}
use fwknop_go.Server.Replay.{Entries, lookup, is_after, drop_expired}

pub lookup-drop_expired :
    (now : ℕ) (k : Bytes) (exp : ℤ) (m : Entries)
    → lookup k m ≡ some exp
    → is_after now exp ≡ false
    → lookup k (drop_expired now m) ≡ some exp
unfolding lookup drop_expired
lookup-drop_expired now k exp [] e a = cc
lookup-drop_expired now k exp ((j, v) ∷ m) e a = ground (arith, lookup-drop_expired now k exp m)
