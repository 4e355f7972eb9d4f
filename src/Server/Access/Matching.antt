-- ===== src/Server/Access/Matching.antt =====
-- Which addresses a network contains.
use Prim.Native.Nat.{bit_and}
use fwknop_go.Base.{
  ℕ, zero, suc, ◌+◌, ◌-◌, ◌⊎◌, drop, length-drop, ◌<◌, ◌≡◌, ◌≢◌, refl, sym, ap, ◌∙◌, Bool, true,
  false, ◌&&◌, ◌||◌, map, All, List, [], ◌∷◌, ◌++◌, arith, Bytes, AreBytes, All-drop, length,
  length-append, length-replicate, take, replicate, eqb, ◌==◌, ==_iff, Bool-cases, inl, inr,
  if◌then◌else◌,
}
use fwknop_go.Server.Access.{
  IpNet, v4_in_v6_prefix, masked_equal, masked_number, short, net_contains, any_contains,
  AccessStanza, match_source,
}

all_below : (ℕ → Bool) → ℕ → Bool
all_below f zero = true
all_below f (suc n) = let rest = all_below f n in if f n then rest else false

below_lem : (f : ℕ → Bool) (n x : ℕ) → all_below f n ≡ true → x < n → f x ≡ true
unfolding all_below
below_lem f zero x h l = absurd (omega arith)
below_lem f (suc n) x h l = elim (Bool-cases (f n)) [
  | inr bad ↦ absurd (cc (rw bad at h))
  | inl good ↦ elim (Bool-cases (x == n)) [
    | inl same ↦ rw ((==_iff x n).0 same) good
    | inr other ↦ below_lem f n x (rw good at h) (ground (arith, ==_iff x n))
  ]
]

masked_none : (x : ℕ) → x < 256 → bit_and x 0 ≡ 0
unfolding all_below
masked_none x h = (==_iff (bit_and x 0) 0).0 (below_lem (λ y. bit_and y 0 == 0) 256 x refl h)

masked_full : (x : ℕ) → x < 256 → bit_and x 255 ≡ x
unfolding all_below
masked_full x h = (==_iff (bit_and x 255) x).0 (below_lem (λ y. bit_and y 255 == y) 256 x refl h)

-- The mask of a prefix of `k` bytes, with `m` bytes behind it.
abbrev pub byte_mask : ℕ → ℕ → Bytes
byte_mask k m = replicate k 255 ++ replicate m 0

length-byte_mask : (k m : ℕ) → length (byte_mask k m) ≡ k + m
length-byte_mask k m = omega (
  arith,
  length-append {A = ℕ} (replicate k 255) (replicate m 0),
  length-replicate {A = ℕ} k 255,
  length-replicate {A = ℕ} m 0,
)

masked_rest :
    (m : ℕ) (ns is : Bytes)
    → length ns ≡ m
    → length is ≡ m
    → AreBytes ns
    → AreBytes is
    → masked_equal ns (replicate m 0) is ≡ true
masked_rest zero [] [] l k hn hi = refl
masked_rest zero [] (i ∷ is) l k hn hi = absurd (omega arith)
masked_rest zero (n ∷ ns) is l k hn hi = absurd (omega arith)
masked_rest (suc m) [] is l k hn hi = absurd (omega arith)
masked_rest (suc m) (n ∷ ns) [] l k hn hi = absurd (omega arith)
masked_rest (suc m) (n ∷ ns) (i ∷ is) l k hn hi =
    rw (masked_none n hn.0, masked_none i hi.0)
      (masked_rest m ns is (omega arith) (omega arith) hn.1 hi.1)

masked_prefix :
    (k m : ℕ) (ns is : Bytes)
    → length ns ≡ k + m
    → length is ≡ k + m
    → AreBytes ns
    → AreBytes is
    → masked_equal ns (byte_mask k m) is ≡ eqb (take k ns) (take k is)
masked_prefix zero m ns is l e hn hi = masked_rest m ns is (omega arith) (omega arith) hn hi
masked_prefix (suc k) m [] is l e hn hi = absurd (omega arith)
masked_prefix (suc k) m (n ∷ ns) [] l e hn hi = absurd (omega arith)
masked_prefix (suc k) m (n ∷ ns) (i ∷ is) l e hn hi =
    rw (masked_full n hn.0, masked_full i hi.0)
      (ap (λ b. n == i && b) (masked_prefix k m ns is (omega arith) (omega arith) hn.1 hi.1))

masked_lengths :
    (ns ms is : Bytes)
    → length ns ≡ length ms
    → length is ≢ length ns
    → masked_equal ns ms is ≡ false
masked_lengths [] [] [] l d = absurd (d refl)
masked_lengths [] [] (i ∷ is) l d = refl
masked_lengths [] (m ∷ ms) is l d = absurd (omega arith)
masked_lengths (n ∷ ns) [] is l d = absurd (omega arith)
masked_lengths (n ∷ ns) (m ∷ ms) [] l d = refl
masked_lengths (n ∷ ns) (m ∷ ms) (i ∷ is) l d =
    rw (masked_lengths ns ms is (omega arith) (omega arith)) (ground arith)

short-AreBytes : (ip : Bytes) → AreBytes ip → AreBytes (short ip)
short-AreBytes ip h = elim (Bool-cases (length ip == 4)) [
  | inl v4 ↦ rw v4 h
  | inr other ↦ elim (Bool-cases (length ip == 16 && eqb (take 12 ip) v4_in_v6_prefix)) [
    | inl mapped ↦ rw (other, mapped) (All-drop (λ c. c < 256) 12 ip h)
    | inr v6 ↦ rw (other, v6) h
  ]
]

-- A network of whole bytes: the first `ones` of its address count, and `zeros` do not.
pub record Prefix : Type 0 where
  pub address : Bytes
  pub ones : ℕ
  pub zeros : ℕ

abbrev pub as_net : Prefix → IpNet
as_net p = record { ip = p.address; mask = byte_mask p.ones p.zeros }

-- Its address has 4 or 16 bytes, as that of a *net.IPNet has.
pub record IsPrefix (p : Prefix) : Type 0 where
  pub fits : length p.address ≡ p.ones + p.zeros
  pub bytes : AreBytes p.address
  pub size : (length p.address ≡ 4) ⊎ (length p.address ≡ 16)

-- A prefix of IPv4 addresses in 16 bytes counts as one of addresses in 4.
abbrev pub shortened : Prefix → Prefix
shortened p =
    if length p.address == 16 && eqb (take 12 p.address) v4_in_v6_prefix
    then record { address = drop 12 p.address; ones = p.ones - 12; zeros = p.zeros - (12 - p.ones) }
    else p

-- The address is as long as the network's, and begins as it does.
abbrev pub begins_with : Prefix → Bytes → Bool
begins_with p ip = length ip == length p.address && eqb (take p.ones p.address) (take p.ones ip)

abbrev pub in_some : List Prefix → Bytes → Bool
in_some [] ip = false
in_some (p ∷ ps) ip = begins_with p ip || in_some ps ip

drop-byte_mask : (n k m : ℕ) → drop n (byte_mask k m) ≡ byte_mask (k - n) (m - (n - k))
drop-byte_mask zero k m = rw (kept k, none_less k m) refl
  where
    kept : (j : ℕ) → j - 0 ≡ j
    kept j = omega arith

    none_less : (j i : ℕ) → i - (0 - j) ≡ i
    none_less j i = omega arith
drop-byte_mask (suc n) zero zero =
    let a : 0 - suc n ≡ 0 = omega arith in
    let b : 0 - (suc n - 0) ≡ 0 = omega arith in rw (a, b) refl
drop-byte_mask (suc n) zero (suc m) = drop-byte_mask n zero m ∙ shorter n m
  where
    shorter :
        (i j : ℕ) → byte_mask (0 - i) (j - (i - 0)) ≡ byte_mask (0 - suc i) (suc j - (suc i - 0))
    shorter i j =
        let a : 0 - i ≡ 0 - suc i = omega arith in
        let b : j - (i - 0) ≡ suc j - (suc i - 0) = omega arith in rw (a, b) refl
drop-byte_mask (suc n) (suc k) m =
    let a : suc k - suc n ≡ k - n = omega arith in
    let b : m - (suc n - suc k) ≡ m - (n - k) = omega arith in
    drop-byte_mask n k m
    ∙ ap (λ x. byte_mask x (m - (n - k))) (sym a)
    ∙ ap (byte_mask (suc k - suc n)) (sym b)

masked-prefix :
    (p : Prefix) (ip : Bytes)
    → length p.address ≡ p.ones + p.zeros
    → AreBytes p.address
    → AreBytes ip
    → masked_equal p.address (byte_mask p.ones p.zeros) ip ≡ begins_with p ip
masked-prefix p ip l hn hi = elim (Bool-cases (length ip == length p.address)) [
  | inl same ↦
      let e = (==_iff (length ip) (length p.address)).0 same in
      masked_prefix p.ones p.zeros p.address ip l (e ∙ l) hn hi
      ∙ sym (ap (λ b. b && eqb (take p.ones p.address) (take p.ones ip)) same)
  | inr other ↦
      masked_lengths p.address (byte_mask p.ones p.zeros) ip
        (l ∙ sym (length-byte_mask p.ones p.zeros))
        (λ e. cc ((==_iff (length ip) (length p.address)).1 e, other))
      ∙ sym (ap (λ b. b && eqb (take p.ones p.address) (take p.ones ip)) other)
]

-- The number and the mask that Contains works with are those of the shortened prefix.
number_of_prefix :
    (p : Prefix)
    → IsPrefix p
    → masked_number (short p.address) (byte_mask p.ones p.zeros)
      ≡ ((shortened p).address, byte_mask (shortened p).ones (shortened p).zeros)
number_of_prefix p h =
    let l = length-byte_mask p.ones p.zeros ∙ sym h.fits in
    elim h.size [
      | inl four ↦ rw (l, four) (rw four refl)
      | inr sixteen ↦ elim (Bool-cases (eqb (take 12 p.address) v4_in_v6_prefix)) [
        | inl mapped ↦
            let rest : length (drop 12 p.address) ≡ 4 =
              length-drop {A = ℕ} 12 p.address ∙ ap (λ n. n - 12) sixteen in
            rw (l, sixteen, mapped, rest)
              (ap (λ x. (drop 12 p.address, x)) (drop-byte_mask 12 p.ones p.zeros))
        | inr other ↦ rw (l, sixteen, other) (rw sixteen refl)
      ]
    ]

shortened-fits :
    (p : Prefix)
    → IsPrefix p
    → length (shortened p).address ≡ (shortened p).ones + (shortened p).zeros
shortened-fits p h =
    elim (Bool-cases (length p.address == 16 && eqb (take 12 p.address) v4_in_v6_prefix)) [
      | inl mapped ↦ rw mapped (
          let long : length p.address ≡ 16 =
            (==_iff (length p.address) 16).0 (ground (arith, mapped)) in
          omega (arith, length-drop {A = ℕ} 12 p.address, h.fits))
      | inr other ↦ rw other h.fits
    ]

shortened-AreBytes : (p : Prefix) → IsPrefix p → AreBytes (shortened p).address
shortened-AreBytes p h =
    elim (Bool-cases (length p.address == 16 && eqb (take 12 p.address) v4_in_v6_prefix)) [
      | inl mapped ↦ rw mapped (All-drop (λ c. c < 256) 12 p.address h.bytes)
      | inr other ↦ rw other h.bytes
    ]

net_contains-prefix :
    (p : Prefix) (ip : Bytes)
    → IsPrefix p
    → AreBytes ip
    → net_contains (as_net p) ip ≡ begins_with (shortened p) (short ip)
unfolding net_contains
net_contains-prefix p ip h hi =
    ap (λ x. masked_equal x.0 x.1 (short ip)) (number_of_prefix p h)
    ∙ masked-prefix (shortened p) (short ip) (shortened-fits p h) (shortened-AreBytes p h)
        (short-AreBytes ip hi)

-- A stanza whose networks are prefixes of whole bytes, of IPv4 or IPv6 addresses, matches a source
-- exactly if the address has the length of one of them and begins with its prefix, where an IPv4
-- address in 16 bytes is taken as one of 4, in the source as in the network. The prefix of no bytes
-- matches every address of its length.
pub match_source-prefixes :
    (s : AccessStanza) (ps : List Prefix) (ip : Bytes)
    → s.source_nets ≡ map as_net ps
    → All IsPrefix ps
    → AreBytes ip
    → match_source s ip ≡ in_some (map shortened ps) (short ip)
unfolding match_source
match_source-prefixes s ps ip e h hi = ap (λ x. any_contains x ip) e ∙ any_prefix ps h
  where
    any_prefix :
        (qs : List Prefix)
        → All IsPrefix qs
        → any_contains (map as_net qs) ip ≡ in_some (map shortened qs) (short ip)
    any_prefix [] k = refl
    any_prefix (q ∷ qs) (k, rest) = cc (net_contains-prefix q ip k hi, any_prefix qs rest)
