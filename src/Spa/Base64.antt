-- ===== src/Spa/Base64.antt =====
-- fkospa/base64.go, over encoding/base64's StdEncoding, which stands first.
pub mod RoundTrip
use fwknop_go.Base.{
  ℕ, suc, ◌+◌, ◌-◌, ◌*◌, ◌/◌, ◌%◌, Bool, true, false, ◌&&◌, ◌||◌, Option, none, some, [], ◌∷◌, ◌++◌,
  ltb, leb, ◌==◌, if◌then◌else◌, Bytes, length, replicate, trim_right,
}
use fwknop_go.Spa.Error.{Result, ok, err, corrupt_input}

-- The standard alphabet.
unfoldable pub encode_sextet : ℕ → ℕ
encode_sextet v =
    if ltb v 26
    then b'A' + v
    else if ltb v 52
    then b'a' + (v - 26)
    else if ltb v 62
    then b'0' + (v - 52)
    else if v == 62
    then b'+'
    else b'/'

unfoldable pub decode_sextet : ℕ → Option ℕ
decode_sextet c =
    if leb b'A' c && leb c b'Z'
    then some (c - b'A')
    else if leb b'a' c && leb c b'z'
    then some (c - b'a' + 26)
    else if leb b'0' c && leb c b'9'
    then some (c - b'0' + 52)
    else if c == b'+'
    then some 62
    else if c == b'/'
    then some 63
    else none

-- base64.StdEncoding.EncodeToString.
unfoldable pub std_encode : Bytes → Bytes
unfolding encode_sextet
std_encode [] = []
std_encode (a ∷ []) = encode_sextet (a / 4) ∷ encode_sextet (a % 4 * 16) ∷ b'=' ∷ b'=' ∷ []
std_encode (a ∷ b ∷ []) =
    encode_sextet (a / 4)
    ∷ encode_sextet (a % 4 * 16 + b / 16)
    ∷ encode_sextet (b % 16 * 4)
    ∷ b'='
    ∷ []
std_encode (a ∷ b ∷ c ∷ s) =
    encode_sextet (a / 4)
    ∷ encode_sextet (a % 4 * 16 + b / 16)
    ∷ encode_sextet (b % 16 * 4 + c / 64)
    ∷ encode_sextet (c % 64)
    ∷ std_encode s

abbrev pub first_byte : ℕ → ℕ → ℕ
first_byte w x = w * 4 + x / 16

abbrev pub second_byte : ℕ → ℕ → ℕ
second_byte x y = x % 16 * 16 + y / 4

abbrev pub third_byte : ℕ → ℕ → ℕ
third_byte y z = y % 4 * 64 + z

-- Four characters of the alphabet before the decoded rest.
unfoldable pub full_quantum : ℕ → ℕ → ℕ → ℕ → Result Bytes → Result Bytes
unfolding decode_sextet
full_quantum a b c d rest = elim (decode_sextet a) [
  | none ↦ err corrupt_input
  | some w ↦ elim (decode_sextet b) [
    | none ↦ err corrupt_input
    | some x ↦ elim (decode_sextet c) [
      | none ↦ err corrupt_input
      | some y ↦ elim (decode_sextet d) [
        | none ↦ err corrupt_input
        | some z ↦ elim rest [
          | err e ↦ err e
          | ok s ↦ ok (first_byte w x ∷ second_byte x y ∷ third_byte y z ∷ s)
        ]
      ]
    ]
  ]
]

-- The last four characters, which may end in padding. Bits left over are not looked at.
unfoldable pub last_quantum : ℕ → ℕ → ℕ → ℕ → Result Bytes
unfolding decode_sextet full_quantum
last_quantum a b c d =
    if d == b'='
    then elim (decode_sextet a) [
      | none ↦ err corrupt_input
      | some w ↦ elim (decode_sextet b) [
        | none ↦ err corrupt_input
        | some x ↦ if c == b'=' then ok (first_byte w x ∷ []) else elim (decode_sextet c) [
          | none ↦ err corrupt_input
          | some y ↦ ok (first_byte w x ∷ second_byte x y ∷ [])
        ]
      ]
    ]
    else full_quantum a b c d (ok [])

unfoldable pub decode_quanta : Bytes → Result Bytes
unfolding last_quantum full_quantum
decode_quanta [] = ok []
decode_quanta (a ∷ []) = err corrupt_input
decode_quanta (a ∷ b ∷ []) = err corrupt_input
decode_quanta (a ∷ b ∷ c ∷ []) = err corrupt_input
decode_quanta (a ∷ b ∷ c ∷ d ∷ []) = last_quantum a b c d
decode_quanta (a ∷ b ∷ c ∷ d ∷ e ∷ s) = full_quantum a b c d (decode_quanta (e ∷ s))

-- The decoder skips carriage returns and line feeds wherever they stand.
unfoldable pub skip_newlines : Bytes → Bytes
skip_newlines [] = []
skip_newlines (c ∷ s) =
    let rest = skip_newlines s in if c == b'\n' || c == 13 then rest else c ∷ rest

-- base64.StdEncoding.DecodeString.
unfoldable pub std_decode : Bytes → Result Bytes
unfolding skip_newlines decode_quanta
std_decode s = decode_quanta (skip_newlines s)

unfoldable pub b64_encode : Bytes → Bytes
unfolding std_encode
b64_encode s = trim_right b'=' (std_encode s)

-- The padding that makes the length a multiple of four.
unfoldable pub repad : Bytes → Bytes
repad s = let m = length s % 4 in if m == 0 then s else s ++ replicate (4 - m) b'='

unfoldable pub b64_decode : Bytes → Result Bytes
unfolding repad std_decode
b64_decode s = std_decode (repad s)
