-- ===== src/Spa/Wire/Fields.antt =====
-- The fields that Encode writes, as a list: the builder's text is their join, none of them holds the
-- separator, and so the decoder's split gives them back.
use fwknop_go.Base.{
  ℕ, suc, ◌≤◌, ◌<◌, ℤ, pos, negsuc, ◌≡◌, refl, sym, ap, ◌∙◌, ◌≢◌, Bool, true, false, not, ◌&&◌,
  List, [], ◌∷◌, ◌++◌, append_assoc, append-nil, arith, Bytes, AreBytes, Lacks, All, All-append,
  length, length-append, ltb, if◌then◌else◌, join, split, split-join, format_uint, format_int,
  format_uint-IsDigit, IsDigit, unix_seconds,
}
use fwknop_go.Spa.Kinds.{message_type_code}
use fwknop_go.Spa.Base64.{b64_encode}
use fwknop_go.Spa.Base64.RoundTrip.{IsLetter, b64_encode_letters}
use fwknop_go.Spa.Message.{Message}
use fwknop_go.Spa.Validate.{is_command, is_empty}
use fwknop_go.Spa.Encode.{protocol_version, effective_message_type, field, encoded_fields}

-- An optional text field.
abbrev pub text_field : Bytes → List Bytes
text_field [] = []
text_field (c ∷ s) = b64_encode (c ∷ s) ∷ []

-- Whether a timeout is written.
abbrev pub has_timeout : Message → Bool
has_timeout m = ltb 0 m.client_timeout && not (is_command (effective_message_type m))

abbrev pub timeout_field : Bool → ℕ → List Bytes
timeout_field true n = format_uint n ∷ []
timeout_field false n = []

abbrev pub optional_fields : Message → List Bytes
optional_fields m =
    text_field m.nat_access
    ++ (text_field m.server_auth ++ timeout_field (has_timeout m) m.client_timeout)

abbrev pub later_fields : Message → List Bytes
later_fields m =
    b64_encode m.username
    ∷ format_int (unix_seconds m.timestamp)
    ∷ protocol_version
    ∷ format_int (message_type_code (effective_message_type m))
    ∷ b64_encode m.access
    ∷ optional_fields m

-- Every field behind a separator.
tail_of : List Bytes → Bytes
tail_of [] = []
tail_of (p ∷ ps) = field p ++ tail_of ps

join-tail_of : (p : Bytes) (ps : List Bytes) → join b':' p ps ≡ p ++ tail_of ps
unfolding tail_of
join-tail_of p [] = sym (append-nil p)
join-tail_of p (q ∷ qs) = ap (λ t. p ++ (b':' ∷ t)) (join-tail_of q qs)

tail_of-append : (ps qs : List Bytes) → tail_of (ps ++ qs) ≡ tail_of ps ++ tail_of qs
unfolding tail_of
tail_of-append [] qs = refl
tail_of-append (p ∷ ps) qs =
    rw (tail_of-append ps qs) (sym (append_assoc (field p) (tail_of ps) (tail_of qs)))

optional-tail_of :
    (s : Bytes) → (if is_empty s then [] else field (b64_encode s)) ≡ tail_of (text_field s)
unfolding tail_of
optional-tail_of [] = refl
optional-tail_of (c ∷ s) = sym (append-nil _)

timeout-tail_of :
    (b : Bool) (n : ℕ) → (if b then field (format_uint n) else []) ≡ tail_of (timeout_field b n)
unfolding tail_of
timeout-tail_of true n = sym (append-nil _)
timeout-tail_of false n = refl

optional_fields-tail_of :
    (m : Message)
    → tail_of (optional_fields m)
      ≡ tail_of (text_field m.nat_access)
        ++ (tail_of (text_field m.server_auth)
            ++ tail_of (timeout_field (has_timeout m) m.client_timeout))
optional_fields-tail_of m =
    tail_of-append (text_field m.nat_access) _
    ∙ ap (λ t. tail_of (text_field m.nat_access) ++ t) (tail_of-append (text_field m.server_auth) _)

-- The builder's text is the join of the fields.
pub encoded_fields-join : (m : Message) → encoded_fields m ≡ join b':' m.rand_val (later_fields m)
unfolding encoded_fields
encoded_fields-join m =
    rw
      (
        join-tail_of m.rand_val (later_fields m),
        optional-tail_of m.nat_access,
        optional-tail_of m.server_auth,
        timeout-tail_of (has_timeout m) m.client_timeout,
        ← optional_fields-tail_of m,
      )
      (unfold tail_of in refl)

-- A byte that may stand in a field.
abbrev pub IsPlain : ℕ → Type 0
IsPlain c = (c ≢ b':') × (c < 256)

letters-IsPlain : (s : Bytes) → All IsLetter s → All IsPlain s
letters-IsPlain [] h = tt
letters-IsPlain (c ∷ s) h = ((h.0.1, h.0.4), letters-IsPlain s h.1)

digits-IsPlain : (s : Bytes) → All IsDigit s → All IsPlain s
digits-IsPlain [] h = tt
digits-IsPlain (c ∷ s) h = (omega arith, digits-IsPlain s h.1)

pub plain_Lacks : (s : Bytes) → All IsPlain s → Lacks b':' s
plain_Lacks [] h = tt
plain_Lacks (c ∷ s) h = (h.0.0, plain_Lacks s h.1)

pub plain_bytes : (s : Bytes) → All IsPlain s → AreBytes s
plain_bytes [] h = tt
plain_bytes (c ∷ s) h = (h.0.1, plain_bytes s h.1)

pub b64-IsPlain : (s : Bytes) → AreBytes s → All IsPlain (b64_encode s)
b64-IsPlain s h = letters-IsPlain _ (b64_encode_letters s h)

format_int-IsPlain : (x : ℤ) → All IsPlain (format_int x)
unfolding format_int
format_int-IsPlain (pos n) = digits-IsPlain _ (format_uint-IsDigit n)
format_int-IsPlain (negsuc n) = (omega arith, digits-IsPlain _ (format_uint-IsDigit (suc n)))

text_field-IsPlain : (s : Bytes) → AreBytes s → All (All IsPlain) (text_field s)
text_field-IsPlain [] h = tt
text_field-IsPlain (c ∷ s) h = (b64-IsPlain (c ∷ s) h, tt)

timeout_field-IsPlain : (b : Bool) (n : ℕ) → All (All IsPlain) (timeout_field b n)
timeout_field-IsPlain true n = (digits-IsPlain _ (format_uint-IsDigit n), tt)
timeout_field-IsPlain false n = tt

-- The texts of a message are bytes.
pub record HasBytes (m : Message) : Type 0 where
  pub username : AreBytes m.username
  pub access : AreBytes m.access
  pub nat_access : AreBytes m.nat_access
  pub server_auth : AreBytes m.server_auth

optional_fields-IsPlain : (m : Message) → HasBytes m → All (All IsPlain) (optional_fields m)
optional_fields-IsPlain m b =
    All-append (All IsPlain) (text_field m.nat_access) _ (text_field-IsPlain _ b.nat_access) (
      All-append (All IsPlain) (text_field m.server_auth) _ (text_field-IsPlain _ b.server_auth)
        (timeout_field-IsPlain (has_timeout m) m.client_timeout))

module _ (m : Message) (b : HasBytes m) (d : All IsDigit m.rand_val) where
  fields-IsPlain : All (All IsPlain) (m.rand_val ∷ later_fields m)
  fields-IsPlain = (
    digits-IsPlain m.rand_val d,
    (
      b64-IsPlain _ b.username,
      (
        format_int-IsPlain _,
        (
          omega arith,
          (format_int-IsPlain _, (b64-IsPlain _ b.access, optional_fields-IsPlain m b)),
        ),
      ),
    ),
  )

  -- Splitting the builder's text gives the fields.
  pub split-encoded_fields : split b':' (encoded_fields m) ≡ m.rand_val ∷ later_fields m
  split-encoded_fields = rw (encoded_fields-join m) (
      split-join b':' m.rand_val (later_fields m)
        (all_Lacks (m.rand_val ∷ later_fields m) fields-IsPlain))
    where
      all_Lacks : (ps : List Bytes) → All (All IsPlain) ps → All (Lacks b':') ps
      all_Lacks [] h = tt
      all_Lacks (p ∷ ps) h = (plain_Lacks p h.0, all_Lacks ps h.1)

  -- The builder's text is bytes.
  pub encoded_fields_bytes : AreBytes (encoded_fields m)
  encoded_fields_bytes =
      rw (encoded_fields-join m) (join_bytes m.rand_val (later_fields m) fields-IsPlain)
    where
      join_bytes :
          (p : Bytes) (ps : List Bytes) → All (All IsPlain) (p ∷ ps) → AreBytes (join b':' p ps)
      join_bytes p [] h = plain_bytes p h.0
      join_bytes p (q ∷ qs) h =
          All-append _ p _ (plain_bytes p h.0) (omega arith, join_bytes q qs h.1)

length-text_field : (s : Bytes) → length (text_field s) ≤ 1
length-text_field [] = omega arith
length-text_field (c ∷ s) = omega arith

length-timeout_field : (b : Bool) (n : ℕ) → length (timeout_field b n) ≤ 1
length-timeout_field true n = omega arith
length-timeout_field false n = omega arith

pub length-optional_fields : (m : Message) → length (optional_fields m) ≤ 3
length-optional_fields m = omega (
  arith,
  length-append (text_field m.nat_access)
      (text_field m.server_auth ++ timeout_field (has_timeout m) m.client_timeout),
  length-append (text_field m.server_auth) (timeout_field (has_timeout m) m.client_timeout),
  length-text_field m.nat_access,
  length-text_field m.server_auth,
  length-timeout_field (has_timeout m) m.client_timeout,
)
