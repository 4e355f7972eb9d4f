-- ===== src/Client/Packet/Fields.antt =====
-- The message that the client's options make.
use fwknop_go.Base.{
  wrap_int64, ℕ, zero, suc, ◌%◌, ◌^◌, ℤ, pos, negsuc, ◌≡◌, refl, ◌∙◌, true, false, not, List, [],
  ◌∷◌, ◌++◌, arith, Bytes, if◌then◌else◌, Bool-cases, inl, inr, ◌⊎◌, ◌+ℤ◌, negate,
}
use fwknop_go.Spa.Error as SpaError
use fwknop_go.Spa.Error.{Result, Result-cases, succeeds_both}
use fwknop_go.Spa.Kinds.{
  DigestType, HmacType, EncryptionMode, MessageType, command_msg, access_msg, nat_access_msg,
  local_nat_access_msg, digest_type_is_valid, hmac_type_is_valid, encryption_mode_is_valid,
  message_type_is_valid,
}
use fwknop_go.Spa.Message.{
  Message, MessageOption, apply_options, with_username, with_timestamp_offset, with_message_type,
  with_access_msg, with_nat_access, with_client_timeout, with_hmac_type,
}
use fwknop_go.Spa.Validate.{is_empty}
use fwknop_go.Client.Config.{
  ClientConfig, done, done_both, resolve_digest_type, resolve_hmac_type, resolve_enc_mode,
}
use fwknop_go.Client.Offset.{parse_time_offset}
use fwknop_go.Client.Packet.{
  Env, when, hmac_option, timeout_option, offset_option, access_options, nat_options,
}

apply-append :
    (xs ys : List MessageOption) (m : Message)
    → apply_options (xs ++ ys) m ≡ SpaError.◌>>=◌ (apply_options xs m) (apply_options ys)
apply-append [] ys m = refl
apply-append (x ∷ xs) ys m = elim (Result-cases (x m)) [
  | inl (n, e) ↦ rw e (apply-append xs ys n)
  | inr (f, e) ↦ rw e refl
]

-- One group of options behind another.
pub then_apply :
    (xs ys : List MessageOption) (m n : Message)
    → apply_options xs m ≡ SpaError.ok n
    → apply_options (xs ++ ys) m ≡ apply_options ys n
then_apply xs ys m n e = apply-append xs ys m ∙ rw e refl

pub digest_valid :
    (s : Bytes) (d : DigestType) → resolve_digest_type s ≡ done d → digest_type_is_valid d ≡ true
unfolding resolve_digest_type digest_type_is_valid
digest_valid s d e = ground arith

hmac_valid : (s : Bytes) (t : HmacType) → resolve_hmac_type s ≡ done t → hmac_type_is_valid t ≡ true
unfolding resolve_hmac_type hmac_type_is_valid
hmac_valid s t e = ground arith

pub mode_valid :
    (s : Bytes) (m : EncryptionMode)
    → resolve_enc_mode s ≡ done m
    → encryption_mode_is_valid m ≡ true
unfolding resolve_enc_mode encryption_mode_is_valid
mode_valid s m e = ground arith

-- What the configuration asks for.
abbrev pub user_of : ClientConfig → Bytes → Bytes
user_of c name = if not (is_empty c.spoof_user) then c.spoof_user else name

abbrev pub timeout_of : ℤ → ℕ
timeout_of (pos n) = n % 2 ^ 32
timeout_of (negsuc n) = 0

abbrev pub access_of : ClientConfig → Bytes → Bytes
access_of c ip = if not (is_empty c.server_cmd) then c.server_cmd else ip ++ (b',' ∷ c.access)

-- NAT access makes the type, also where a command is set.
abbrev pub type_of : ClientConfig → MessageType
type_of c =
    if not (is_empty c.nat_access)
    then (if c.nat_local then local_nat_access_msg else nat_access_msg)
    else if not (is_empty c.server_cmd)
    then command_msg
    else access_msg

pub empty_text : (s : Bytes) → is_empty s ≡ true → s ≡ []
empty_text [] h = refl
empty_text (x ∷ s) h = cc

pub same_done {ℓ} : {A : Type ℓ} {a b : A} → done a ≡ done b → a ≡ b
same_done e = cc

-- When the message says that it was made: now if no offset is set, else by the offset to be added if
-- that is set, else by the one to be subtracted.
abbrev pub IsStamped : Env → ClientConfig → ℤ → Type 0
IsStamped env c t =
    ((is_empty c.time_offset_plus ≡ true) × (is_empty c.time_offset_minus ≡ true) × (t ≡ env.now))
    ⊎ ((d : ℤ) × (is_empty c.time_offset_plus ≡ false)
        × (parse_time_offset env.parse_duration c.time_offset_plus ≡ done d)
        × (t ≡ env.offset_now +ℤ d))
    ⊎ ((d : ℤ) × (is_empty c.time_offset_plus ≡ true)
        × (is_empty c.time_offset_minus ≡ false)
        × (parse_time_offset env.parse_duration c.time_offset_minus ≡ done d)
        × (t ≡ env.offset_now +ℤ wrap_int64 (negate d)))

module _ (c : ClientConfig) (m : Message) where
  pub apply_user :
      apply_options (when (not (is_empty c.spoof_user)) (with_username c.spoof_user)) m
      ≡ SpaError.ok (record m { username = user_of c m.username })
  unfolding with_username
  apply_user = ground arith

  pub apply_timeout :
      (t : ℤ)
      → m.client_timeout ≡ 0
      → apply_options (timeout_option t) m
        ≡ SpaError.ok (record m { client_timeout = timeout_of t })
  unfolding with_client_timeout
  apply_timeout (pos zero) e = ground arith
  apply_timeout (pos (suc n)) e = refl
  apply_timeout (negsuc n) e = ground arith

  pub apply_access :
      (ip : Bytes)
      → m.message_type ≡ access_msg
      → apply_options (access_options ip c) m
        ≡ SpaError.ok (record m {
          message_type = if not (is_empty c.server_cmd) then command_msg else access_msg;
          access = access_of c ip;
        })
  unfolding with_message_type with_access_msg message_type_is_valid
  apply_access ip e = ground arith

  pub apply_nat :
      m.message_type ≡ (if not (is_empty c.server_cmd) then command_msg else access_msg)
      → m.nat_access ≡ []
      → apply_options (nat_options c) m
        ≡ SpaError.ok (record m { message_type = type_of c; nat_access = c.nat_access })
  unfolding with_message_type with_nat_access message_type_is_valid
  apply_nat e f = ground (arith, empty_text c.nat_access)

  pub apply_hmac :
      (opts : List MessageOption)
      → hmac_option c ≡ done opts
      → (t : HmacType) × (apply_options opts m ≡ SpaError.ok (record m { hmac_type = t }))
        × (c.use_hmac ≡ true → resolve_hmac_type c.hmac_digest_type ≡ done t)
  unfolding with_hmac_type
  apply_hmac opts e = elim (Bool-cases c.use_hmac) [
    | inl on ↦
        let (t, r, e1) =
          done_both (resolve_hmac_type c.hmac_digest_type) (λ t. done (with_hmac_type t ∷ []))
            (rw on at e) in
        let opts_are : with_hmac_type t ∷ [] ≡ opts = same_done e1 in
        (t, rw (← opts_are, hmac_valid c.hmac_digest_type t r) refl, λ h. r)
    | inr off ↦
        let opts_are : [] ≡ opts = same_done (rw off at e) in
        (m.hmac_type, rw (← opts_are) refl, λ h. cc)
  ]

  pub apply_offset :
      (env : Env) (opts : List MessageOption)
      → m.timestamp ≡ env.now
      → offset_option env c ≡ done opts
      → (t : ℤ) × (apply_options opts m ≡ SpaError.ok (record m { timestamp = t }))
        × IsStamped env c t
  unfolding offset_option with_timestamp_offset
  apply_offset env opts start e = elim (Bool-cases (is_empty c.time_offset_plus)) [
    | inr plus ↦
        let (d, r, e1) =
          done_both (parse_time_offset env.parse_duration c.time_offset_plus) _ (rw plus at e) in
        (env.offset_now +ℤ d, rw (← same_done e1) refl, inr (inl (d, plus, r, refl)))
    | inl no_plus ↦ elim (Bool-cases (is_empty c.time_offset_minus)) [
      | inr minus ↦
          let (d, r, e1) =
            done_both (parse_time_offset env.parse_duration c.time_offset_minus) _
              (rw (no_plus, minus) at e) in
          (
            env.offset_now +ℤ wrap_int64 (negate d),
            rw (← same_done e1) refl,
            inr (inr (d, no_plus, minus, r, refl)),
          )
      | inl no_minus ↦ (
        m.timestamp,
        rw (← same_done (rw (no_plus, no_minus) at e)) refl,
        inl (no_plus, no_minus, start),
      )
    ]
  ]
