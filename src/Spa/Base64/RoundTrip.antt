-- ===== src/Spa/Base64/RoundTrip.antt =====
-- base64.go: what the decoder makes of the encoder's output, and the shape of that output.
use fwknop_go.Base.{
  ℕ, zero, suc, ◌+◌, ◌-◌, ◌*◌, ◌/◌, ◌%◌, ◌<◌, ◌≡◌, ◌≢◌, refl, sym, ap, ◌∙◌, some, [], ◌∷◌, ◌++◌,
  ◌==◌, arith, if◌then◌else◌, Bytes, AreBytes, All, length, trim_right, trim_right_keep, append-nil,
  replicate, take, codes,
}
use fwknop_go.Spa.Error.{ok}
use fwknop_go.Spa.Base64.{
  encode_sextet, decode_sextet, std_encode, first_byte, second_byte, third_byte, full_quantum,
  last_quantum, decode_quanta, skip_newlines, std_decode, b64_encode, repad, b64_decode,
}

-- A character of the alphabet.
abbrev pub IsLetter : ℕ → Type 0
IsLetter c = (c ≢ b'=') × (c ≢ b':') × (c ≢ b'\n') × (c ≢ 13) × (c < 256)

sextet_lem : (v : ℕ) → v < 64 → decode_sextet (encode_sextet v) ≡ some v
unfolding encode_sextet decode_sextet
sextet_lem v h = ground arith

letter : (v : ℕ) → v < 64 → IsLetter (encode_sextet v)
unfolding encode_sextet
letter v h = ground arith

-- The encoder without padding.
raw : Bytes → Bytes
raw [] = []
raw (a ∷ []) = encode_sextet (a / 4) ∷ encode_sextet (a % 4 * 16) ∷ []
raw (a ∷ b ∷ []) =
    encode_sextet (a / 4) ∷ encode_sextet (a % 4 * 16 + b / 16) ∷ encode_sextet (b % 16 * 4) ∷ []
raw (a ∷ b ∷ c ∷ s) =
    encode_sextet (a / 4)
    ∷ encode_sextet (a % 4 * 16 + b / 16)
    ∷ encode_sextet (b % 16 * 4 + c / 64)
    ∷ encode_sextet (c % 64)
    ∷ raw s

module _ (a b c : ℕ) (ha : a < 256) (hb : b < 256) (hc : c < 256) where
  sextets_lt :
      (a / 4 < 64)
      × (a % 4 * 16 < 64)
      × (a % 4 * 16 + b / 16 < 64)
      × (b % 16 * 4 < 64)
      × (b % 16 * 4 + c / 64 < 64)
      × (c % 64 < 64)
  sextets_lt = omega arith

  quantum_letters :
      IsLetter (encode_sextet (a / 4))
      × IsLetter (encode_sextet (a % 4 * 16))
      × IsLetter (encode_sextet (a % 4 * 16 + b / 16))
      × IsLetter (encode_sextet (b % 16 * 4))
      × IsLetter (encode_sextet (b % 16 * 4 + c / 64))
      × IsLetter (encode_sextet (c % 64))
  quantum_letters =
      let (p, q, r, s, t, u) = sextets_lt in
      (letter _ p, letter _ q, letter _ r, letter _ s, letter _ t, letter _ u)

  quantum_bytes :
      (first_byte (a / 4) (a % 4 * 16) ≡ a)
      × (first_byte (a / 4) (a % 4 * 16 + b / 16) ≡ a)
      × (second_byte (a % 4 * 16 + b / 16) (b % 16 * 4) ≡ b)
      × (second_byte (a % 4 * 16 + b / 16) (b % 16 * 4 + c / 64) ≡ b)
      × (third_byte (b % 16 * 4 + c / 64) (c % 64) ≡ c)
  quantum_bytes = omega arith

raw_letters : (s : Bytes) → AreBytes s → All IsLetter (raw s)
unfolding raw
raw_letters [] h = tt
raw_letters (a ∷ []) (ha, _) =
    let q = quantum_letters a 0 0 ha (omega arith) (omega arith) in (q.0, (q.1, tt))
raw_letters (a ∷ b ∷ []) (ha, (hb, _)) =
    let q = quantum_letters a b 0 ha hb (omega arith) in (q.0, (q.2, (q.3, tt)))
raw_letters (a ∷ b ∷ c ∷ s) (ha, (hb, (hc, hs))) =
    let q = quantum_letters a b c ha hb hc in (q.0, (q.2, (q.4, (q.5, raw_letters s hs))))

trim_letters :
    (s t : Bytes) → All IsLetter s → trim_right b'=' t ≡ [] → trim_right b'=' (s ++ t) ≡ s
trim_letters [] t h e = e
trim_letters (c ∷ s) t (hc, hs) e =
    trim_right_keep b'=' c (s ++ t) hc.0 ∙ ap (◌∷◌ c) (trim_letters s t hs e)

std_encode-raw : (s : Bytes) → (t : Bytes) × (trim_right b'=' t ≡ []) × (std_encode s ≡ raw s ++ t)
unfolding std_encode raw trim_right
std_encode-raw [] = ([], refl, refl)
std_encode-raw (a ∷ []) = (b'=' ∷ b'=' ∷ [], refl, refl)
std_encode-raw (a ∷ b ∷ []) = (b'=' ∷ [], refl, refl)
std_encode-raw (a ∷ b ∷ c ∷ s) = let (t, e, h) = std_encode-raw s in (t, e, cc)

b64_encode-raw : (s : Bytes) → AreBytes s → b64_encode s ≡ raw s
unfolding b64_encode
b64_encode-raw s h =
    let (t, e, eq) = std_encode-raw s in rw eq (trim_letters (raw s) t (raw_letters s h) e)

-- What the encoder writes holds no separator and no padding.
pub b64_encode_letters : (s : Bytes) → AreBytes s → All IsLetter (b64_encode s)
b64_encode_letters s h = rw (b64_encode-raw s h) (raw_letters s h)

-- The length that the encoder gives to `n` bytes.
abbrev pub b64_size : ℕ → ℕ
b64_size n = (n * 4 + 2) / 3

length-raw : (s : Bytes) → length (raw s) ≡ b64_size (length s)
unfolding raw
length-raw [] = omega arith
length-raw (a ∷ []) = omega arith
length-raw (a ∷ b ∷ []) = omega arith
length-raw (a ∷ b ∷ c ∷ s) = omega (arith, length-raw s)

pub length-b64_encode : (s : Bytes) → AreBytes s → length (b64_encode s) ≡ b64_size (length s)
length-b64_encode s h = rw (b64_encode-raw s h) (length-raw s)

skip_letters : (s t : Bytes) → All IsLetter s → skip_newlines (s ++ t) ≡ s ++ skip_newlines t
unfolding skip_newlines
skip_letters [] t h = refl
skip_letters (c ∷ s) t h = ground (arith, skip_letters s t h.1)

full_quantum_lem :
    (a b c d w x y z : ℕ) (s : Bytes)
    → decode_sextet a ≡ some w
    → decode_sextet b ≡ some x
    → decode_sextet c ≡ some y
    → decode_sextet d ≡ some z
    → full_quantum a b c d (ok s) ≡ ok (first_byte w x ∷ second_byte x y ∷ third_byte y z ∷ s)
unfolding full_quantum
full_quantum_lem a b c d w x y z s p q r t = rw (p, q, r, t, full_quantum)

decode_quanta_step :
    (a b c d : ℕ) (t : Bytes)
    → d ≢ b'='
    → decode_quanta (a ∷ b ∷ c ∷ d ∷ t) ≡ full_quantum a b c d (decode_quanta t)
unfolding decode_quanta last_quantum
decode_quanta_step a b c d [] h = ground arith
decode_quanta_step a b c d (e ∷ t) h = refl

last_one :
    (w x : ℕ)
    → w < 64
    → x < 64
    → last_quantum (encode_sextet w) (encode_sextet x) b'=' b'=' ≡ ok (first_byte w x ∷ [])
unfolding last_quantum
last_one w x p q = rw (sextet_lem w p, sextet_lem x q, last_quantum)

last_two :
    (w x y : ℕ)
    → w < 64
    → x < 64
    → y < 64
    → last_quantum (encode_sextet w) (encode_sextet x) (encode_sextet y) b'='
      ≡ ok (first_byte w x ∷ second_byte x y ∷ [])
unfolding last_quantum
last_two w x y p q r = ground (arith, letter y r, sextet_lem w p, sextet_lem x q, sextet_lem y r)

full_three :
    (w x y z : ℕ) (s t : Bytes)
    → w < 64
    → x < 64
    → y < 64
    → z < 64
    → decode_quanta t ≡ ok s
    → decode_quanta (encode_sextet w ∷ encode_sextet x ∷ encode_sextet y ∷ encode_sextet z ∷ t)
      ≡ ok (first_byte w x ∷ second_byte x y ∷ third_byte y z ∷ s)
full_three w x y z s t p q r u e =
    rw
      (
        decode_quanta_step (encode_sextet w) (encode_sextet x) (encode_sextet y) (encode_sextet z) t
            (letter z u).0,
        e,
      )
      (full_quantum_lem _ _ _ _ w x y z s (sextet_lem w p) (sextet_lem x q) (sextet_lem y r)
        (sextet_lem z u))

decode_quanta-std_encode : (s : Bytes) → AreBytes s → decode_quanta (std_encode s) ≡ ok s
unfolding std_encode decode_quanta
decode_quanta-std_encode [] h = refl
decode_quanta-std_encode (a ∷ []) (ha, _) =
    let v = sextets_lt a 0 0 ha (omega arith) (omega arith) in
    let q = quantum_bytes a 0 0 ha (omega arith) (omega arith) in
    last_one (a / 4) (a % 4 * 16) v.0 v.1 ∙ ap (λ n. ok (n ∷ [])) q.0
decode_quanta-std_encode (a ∷ b ∷ []) (ha, (hb, _)) =
    let v = sextets_lt a b 0 ha hb (omega arith) in
    let q = quantum_bytes a b 0 ha hb (omega arith) in
    last_two (a / 4) (a % 4 * 16 + b / 16) (b % 16 * 4) v.0 v.2 v.3 ∙ cc (q.1, q.2)
decode_quanta-std_encode (a ∷ b ∷ c ∷ s) (ha, (hb, (hc, hs))) =
    let v = sextets_lt a b c ha hb hc in
    let q = quantum_bytes a b c ha hb hc in
    full_three (a / 4) (a % 4 * 16 + b / 16) (b % 16 * 4 + c / 64) (c % 64) s (std_encode s) v.0 v.2
      v.4 v.5 (decode_quanta-std_encode s hs)
    ∙ cc (q.1, q.3, q.4)

-- The padding behind a text whose length is `m` above a multiple of four.
pads : ℕ → Bytes
pads m = if m == 0 then [] else replicate (4 - m) b'='

repad-pads : (s : Bytes) → repad s ≡ s ++ pads (length s % 4)
unfolding repad pads
repad-pads s = ground (arith, append-nil s)

std_encode-pads : (s : Bytes) → std_encode s ≡ raw s ++ pads (length (raw s) % 4)
unfolding std_encode raw pads
std_encode-pads [] = refl
std_encode-pads (a ∷ []) = refl
std_encode-pads (a ∷ b ∷ []) = refl
std_encode-pads (a ∷ b ∷ c ∷ s) =
    let e : suc (suc (suc (suc (length (raw s))))) % 4 ≡ length (raw s) % 4 = omega arith in
    rw e (cc (std_encode-pads s))

skip_pads : (m : ℕ) → m < 4 → skip_newlines (pads m) ≡ pads m
unfolding skip_newlines pads
skip_pads zero h = refl
skip_pads (suc zero) h = refl
skip_pads (suc (suc zero)) h = refl
skip_pads (suc (suc (suc zero))) h = refl
skip_pads (suc (suc (suc (suc m)))) h = absurd (omega arith)

-- Decoding undoes encoding, for every sequence of bytes: the padding that the encoder strips is
-- put back.
pub b64_decode-b64_encode : (s : Bytes) → AreBytes s → b64_decode (b64_encode s) ≡ ok s
unfolding b64_decode std_decode
b64_decode-b64_encode s h =
    let n = length (raw s) % 4 in
    rw
      (
        b64_encode-raw s h,
        repad-pads (raw s),
        skip_letters (raw s) (pads n) (raw_letters s h),
        skip_pads n (omega arith),
        ← std_encode-pads s,
      )
      (decode_quanta-std_encode s h)

-- The standard decoder undoes the standard encoder.
pub std_decode-std_encode : (s : Bytes) → AreBytes s → std_decode (std_encode s) ≡ ok s
unfolding std_decode
std_decode-std_encode s h =
    let n = length (raw s) % 4 in
    ap decode_quanta (
      ap skip_newlines (std_encode-pads s)
      ∙ skip_letters (raw s) (pads n) (raw_letters s h)
      ∙ ap (λ t. raw s ++ t) (skip_pads n (omega arith))
      ∙ sym (std_encode-pads s))
    ∙ decode_quanta-std_encode s h

-- The base64 of a text that begins with "Salted__" begins with the prefix that is not sent.
pub b64_encode_prefix :
    (s : Bytes)
    → AreBytes s
    → 0 < length s
    → take 10 (b64_encode (codes "Salted__" ++ s)) ≡ codes "U2FsdGVkX1"
unfolding raw encode_sextet
b64_encode_prefix [] h l = absurd (omega arith)
b64_encode_prefix (c ∷ s) h l = ap (take 10) (
    b64_encode-raw (codes "Salted__" ++ c ∷ s) (
      omega arith,
      (
        omega arith,
        (omega arith, (omega arith, (omega arith, (omega arith, (omega arith, (omega arith, h)))))),
      ),
    ))
