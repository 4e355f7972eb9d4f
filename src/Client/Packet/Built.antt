-- ===== src/Client/Packet/Built.antt =====
-- prepare: the keys and the message are those that the configuration asks for.
use mathlib.Core.Path.{subst}
use fwknop_go.Base.{
  ℤ, ◌≡◌, refl, sym, ap, ◌∙◌, true, not, Option, some, none, List, [], ◌++◌, Bytes, if◌then◌else◌,
}
use fwknop_go.Spa.Error as SpaError
use fwknop_go.Spa.Error.{Result, succeeds_both}
use fwknop_go.Spa.Kinds.{
  DigestType, HmacType, EncryptionMode, command_msg, access_msg, hmac_sha256, digest_sha256,
  mode_cbc,
}
use fwknop_go.Spa.Message.{
  Message, MessageOption, apply_options, with_username, with_digest_type, with_encryption_mode,
  new_with_options, current_username, generate_rand_val,
}
use fwknop_go.Spa.Validate.{is_empty}
use fwknop_go.Client.Config.{
  ClientConfig, done, done_both, from_spa, resolve_enc_key, resolve_hmac_key, resolve_digest_type,
  resolve_hmac_type, resolve_enc_mode,
}
use fwknop_go.Client.Packet.{
  Env, Prepared, prepare, when, hmac_option, timeout_option, offset_option, access_options,
  nat_options, message_options, resolve_allow_ip,
}
use fwknop_go.Client.Packet.Fields.{
  then_apply, digest_valid, mode_valid, same_done, user_of, timeout_of, access_of, type_of,
  IsStamped, apply_user, apply_timeout, apply_access, apply_nat, apply_hmac, apply_offset,
}

-- The message before its options, and behind them.
abbrev fresh_message : Bytes → Bytes → ℤ → Message
fresh_message val name now = record {
  rand_val = val;
  username = name;
  timestamp = now;
  message_type = access_msg;
  access = [];
  nat_access = [];
  server_auth = [];
  client_timeout = 0;
  digest_type = digest_sha256;
  encryption_mode = mode_cbc;
  hmac_type = hmac_sha256;
}

abbrev asked_message :
    ClientConfig → Bytes → Bytes → Bytes → ℤ → DigestType → EncryptionMode → HmacType → Message
asked_message c ip val name t digest mode hmac = record {
  rand_val = val;
  username = user_of c name;
  timestamp = t;
  message_type = type_of c;
  access = access_of c ip;
  nat_access = c.nat_access;
  server_auth = [];
  client_timeout = timeout_of c.fw_timeout;
  digest_type = digest;
  encryption_mode = mode;
  hmac_type = hmac;
}

module _ (env : Env) (c : ClientConfig) (ip val name : Bytes) (digest : DigestType)
    (mode : EncryptionMode) where
  options_lem :
      (opts : List MessageOption)
      → resolve_digest_type c.digest_type ≡ done digest
      → resolve_enc_mode c.encryption_mode ≡ done mode
      → message_options env c ip digest mode ≡ done opts
      → (hmac : HmacType) × (t : ℤ) × (apply_options opts (fresh_message val name env.now)
          ≡ SpaError.ok (asked_message c ip val name t digest mode hmac))
        × (c.use_hmac ≡ true → resolve_hmac_type c.hmac_digest_type ≡ done hmac)
        × IsStamped env c t
  unfolding message_options with_digest_type with_encryption_mode
  options_lem opts rd rm e =
      let (hs, h, e1) = done_both (hmac_option c) _ e in
      let (os, o, e2) = done_both (offset_option env c) _ e1 in
      let m0 = fresh_message val name env.now in
      let m1 = record m0 { digest_type = digest; encryption_mode = mode } in
      let (t, ah, rh) = apply_hmac c m1 hs h in
      let m2 = record m1 { hmac_type = t } in
      let m3 = record m2 { username = user_of c name } in
      let m4 = record m3 { client_timeout = timeout_of c.fw_timeout } in
      let (stamp, ao, stamped) = apply_offset c m4 env os refl o in
      let m5 = record m4 { timestamp = stamp } in
      let m6 : Message = record m5 {
        message_type = if not (is_empty c.server_cmd) then command_msg else access_msg;
        access = access_of c ip;
      } in
      let rest = access_options ip c ++ nat_options c in
      (
        t,
        stamp,
        rw
            (
              ← same_done e2,
              digest_valid c.digest_type digest rd,
              mode_valid c.encryption_mode mode rm,
            )
            (then_apply hs _ m1 m2 ah
              ∙ then_apply (when (not (is_empty c.spoof_user)) (with_username c.spoof_user)) _ m2 m3
                  (apply_user c m2)
              ∙ then_apply (timeout_option c.fw_timeout) _ m3 m4
                  (apply_timeout c m3 c.fw_timeout refl)
              ∙ then_apply os rest m4 m5 ao
              ∙ then_apply (access_options ip c) (nat_options c) m5 m6 (apply_access c m5 ip refl)
              ∙ apply_nat c m6 refl refl),
        rh,
        stamped,
      )

-- What the configuration, the user and the clock say about the keys and the message.
pub record IsBuilt (env : Env) (c : ClientConfig) (p : Prepared) : Type 0 where
  pub ip : Bytes
  pub allowed : resolve_allow_ip env c ≡ done ip
  pub enc_key : resolve_enc_key c ≡ done p.enc_key
  pub hmac_key : resolve_hmac_key c ≡ done p.hmac_key
  pub digest : resolve_digest_type c.digest_type ≡ done p.message.digest_type
  pub mode : resolve_enc_mode c.encryption_mode ≡ done p.message.encryption_mode
  pub hmac : c.use_hmac ≡ true → resolve_hmac_type c.hmac_digest_type ≡ done p.message.hmac_type
  pub rand_val : generate_rand_val env.draw ≡ SpaError.ok p.message.rand_val
  pub name : Bytes
  pub user : env.user ≡ some name
  pub username : p.message.username ≡ user_of c name
  pub stamped : IsStamped env c p.message.timestamp
  pub message_type : p.message.message_type ≡ type_of c
  pub access : p.message.access ≡ access_of c ip
  pub nat_access : p.message.nat_access ≡ c.nat_access
  pub server_auth : p.message.server_auth ≡ []
  pub client_timeout : p.message.client_timeout ≡ timeout_of c.fw_timeout

same_ok {ℓ} : {A : Type ℓ} {a b : A} → SpaError.ok a ≡ SpaError.ok b → a ≡ b
same_ok e = cc

pub from_spa-done {ℓ} :
    {A : Type ℓ} (r : Result A) {a : A} → from_spa r ≡ done a → r ≡ SpaError.ok a
from_spa-done (SpaError.ok a) e = ap SpaError.ok (same_done e)
from_spa-done (SpaError.err f) e = cc

known_user :
    (user : Option Bytes) (name : Bytes)
    → current_username user ≡ SpaError.ok name
    → user ≡ some name
known_user none name e = cc
known_user (some u) name e = cc

-- What the client prepares is what it was asked for: the keys and the types that the settings name,
-- the address and ports or the command, the type of message, the NAT access, the timeout modulo
-- 2^32, the user, and the time: now if no offset is set, else by the offset to be added if that is
-- set, else by the one to be subtracted.
pub prepare-IsBuilt :
    (env : Env) (c : ClientConfig) (p : Prepared) → prepare env c ≡ done p → IsBuilt env c p
unfolding prepare new_with_options
prepare-IsBuilt env c p e =
    let (ip, allowed, e1) = done_both (resolve_allow_ip env c) _ e in
    let (key, k, e2) = done_both (resolve_enc_key c) _ e1 in
    let (hkey, hk, e3) = done_both (resolve_hmac_key c) _ e2 in
    let (digest, d, e4) = done_both (resolve_digest_type c.digest_type) _ e3 in
    let (mode, md, e5) = done_both (resolve_enc_mode c.encryption_mode) _ e4 in
    let (opts, o, e6) = done_both (message_options env c ip digest mode) _ e5 in
    let (m, made, e7) =
      done_both (from_spa (new_with_options env.draw env.user env.now opts)) _ e6 in
    let (val, v, f1) =
      succeeds_both (generate_rand_val env.draw) _
        (from_spa-done (new_with_options env.draw env.user env.now opts) made) in
    let (name, n, f2) = succeeds_both (current_username env.user) _ f1 in
    let (t, stamp, applied, ht, stamped) = options_lem env c ip val name digest mode opts d md o in
    let m_is : asked_message c ip val name stamp digest mode t ≡ m = same_ok (sym applied ∙ f2) in
    subst (IsBuilt env c) (same_done e7) (
      subst (λ q. IsBuilt env c (record { enc_key = key; hmac_key = hkey; message = q })) m_is
        (record {
          ip = ip;
          allowed = allowed;
          enc_key = k;
          hmac_key = hk;
          digest = d;
          mode = md;
          hmac = ht;
          rand_val = v;
          name = name;
          user = known_user env.user name n;
          username = refl;
          stamped = stamped;
          message_type = refl;
          access = refl;
          nat_access = refl;
          server_auth = refl;
          client_timeout = refl;
        }))
