-- ===== src/Server/Access/Resolving.antt =====
-- cmd/fwknopd/access.go: what a stanza that resolves looks like.
use mathlib.Core.Path.{subst}
use fwknop_go.Base.{
  ℕ, zero, suc, ◌<◌, ◌≡◌, ◌≢◌, refl, sym, ap, ◌∙◌, ◌⊎◌, inl, inr, false, List, [], arith, Bytes,
  codes, eqb, Bool-cases, ℤ, pos, negsuc, pos_part, to_upper, split,
}
use fwknop_go.Spa.Kinds.{HmacType, EncryptionMode, mode_cbc, mode_cbc_legacy}
use fwknop_go.Spa.Validate.{is_empty}
use fwknop_go.Spa.Digest.{hmac_b64_len}
use fwknop_go.Server.Access.{
  AccessStanza, Net, IpNet, Resolved, resolved, refused, ◌>>=◌, parse_source_nets, or_default,
  default_name, source_required, parse_parts, resolve_enc_key, resolve_hmac_key, hmac_type_named,
  enc_mode_named, resolve,
}

pub resolves_both {ℓ κ} :
    {A : Type ℓ} {B : Type κ} (step : Resolved A) (rest : A → Resolved B) {b : B}
    → (step >>= rest) ≡ resolved b
    → (a : A) × (step ≡ resolved a) × (rest a ≡ resolved b)
resolves_both (refused e) rest h = cc
resolves_both (resolved a) rest h = (a, refl, h)

-- An encryption mode that has an implementation.
abbrev pub IsImplemented : EncryptionMode → Type 0
IsImplemented mode = (mode ≡ mode_cbc) ⊎ (mode ≡ mode_cbc_legacy)

enc_mode_named-IsImplemented :
    (s : Bytes) (mode : EncryptionMode) → enc_mode_named s ≡ resolved mode → IsImplemented mode
unfolding enc_mode_named
enc_mode_named-IsImplemented s mode e = ground arith

hmac_type_named_lem :
    (s : Bytes) (ht : HmacType) → hmac_type_named s ≡ resolved ht → 0 < hmac_b64_len ht
unfolding hmac_type_named hmac_b64_len
hmac_type_named_lem s ht e = ground arith

pub record IsResolved (a t : AccessStanza) : Type 0 where
  pub has_source : t.source ≢ []
  pub mode : IsImplemented t.enc_mode
  pub hmac_length : 0 < hmac_b64_len t.hmac_type
  pub enc_key : resolve_enc_key a ≡ resolved t.enc_key
  pub hmac_key : resolve_hmac_key a ≡ resolved t.hmac_key
  pub hmac_named :
      hmac_type_named (default_name a.hmac_digest_name (codes "sha256")) ≡ resolved t.hmac_type
  pub mode_named :
      enc_mode_named (default_name a.encryption_mode_name (codes "cbc")) ≡ resolved t.enc_mode
  pub timeout : t.access_timeout ≢ pos 0
  pub max_timeout : t.max_access_timeout ≢ pos 0
  pub username : t.require_username ≡ a.require_username
  pub source_address : t.require_source_addr ≡ a.require_source_addr
  pub commands : t.enable_cmd_exec ≡ a.enable_cmd_exec
  pub ports : t.open_ports ≡ a.open_ports

pub same_resolved {ℓ} : {A : Type ℓ} {a b : A} → resolved a ≡ resolved b → a ≡ b
same_resolved e = cc

-- Parsing the networks changes no other field.
parse_source_nets_keeps :
    (net : Net) (a b : AccessStanza)
    → parse_source_nets net a ≡ resolved b
    → (nets : List IpNet) × (record a { source_nets = nets } ≡ b)
unfolding parse_source_nets
parse_source_nets_keeps net a b e = elim (Bool-cases (eqb (to_upper a.source) (codes "ANY"))) [
  | inl any ↦ (_, same_resolved (rw any at e))
  | inr list ↦
      let (nets, _, e1) =
        resolves_both (parse_parts net (split b',' a.source) a.source_nets) _ (rw list at e) in
      (nets, same_resolved e1)
]

or_default_set : (t : ℤ) (d : ℕ) → or_default t (suc d) ≢ pos 0
or_default_set (pos zero) d e = omega (arith, ap pos_part e)
or_default_set (pos (suc n)) d e = omega (arith, ap pos_part e)
or_default_set (negsuc n) d e = cc

keys_kept :
    (a : AccessStanza) (nets : List IpNet)
    → (resolve_enc_key (record a { source_nets = nets }) ≡ resolve_enc_key a)
      × (resolve_hmac_key (record a { source_nets = nets }) ≡ resolve_hmac_key a)
unfolding resolve_enc_key resolve_hmac_key
keys_kept a nets = (refl, refl)

-- The last step of resolve, where the parts were found.
finish-IsResolved :
    (a b t : AccessStanza) (nets : List IpNet) (key hmac_key : Bytes) (ht : HmacType)
    (mode : EncryptionMode)
    → is_empty a.source ≡ false
    → record a { source_nets = nets } ≡ b
    → resolve_enc_key b ≡ resolved key
    → resolve_hmac_key b ≡ resolved hmac_key
    → hmac_type_named (default_name b.hmac_digest_name (codes "sha256")) ≡ resolved ht
    → enc_mode_named (default_name b.encryption_mode_name (codes "cbc")) ≡ resolved mode
    → record b {
      enc_key = key;
      hmac_key = hmac_key;
      hmac_type = ht;
      enc_mode = mode;
      access_timeout = or_default b.access_timeout 30;
      max_access_timeout = or_default b.max_access_timeout 300;
    }
      ≡ t
    → IsResolved a t
finish-IsResolved a b t nets key hmac_key ht mode source b_is e2 e3 e4 e5 t_is =
    let (key_kept, hmac_kept) = keys_kept a nets in
    record {
      has_source =
          λ f. cc (ap is_empty (ap (λ x. x.source) b_is ∙ ap (λ x. x.source) t_is ∙ f), source);
      mode = subst (λ x. IsImplemented x.enc_mode) t_is (enc_mode_named-IsImplemented _ mode e5);
      hmac_length = subst (λ x. 0 < hmac_b64_len x.hmac_type) t_is (hmac_type_named_lem _ ht e4);
      enc_key = sym key_kept ∙ ap resolve_enc_key b_is ∙ e2 ∙ ap (λ x. resolved x.enc_key) t_is;
      hmac_key = sym hmac_kept ∙ ap resolve_hmac_key b_is ∙ e3 ∙ ap (λ x. resolved x.hmac_key) t_is;
      hmac_named =
          ap (λ x. hmac_type_named (default_name x.hmac_digest_name (codes "sha256"))) b_is
          ∙ e4
          ∙ ap (λ x. resolved x.hmac_type) t_is;
      mode_named =
          ap (λ x. enc_mode_named (default_name x.encryption_mode_name (codes "cbc"))) b_is
          ∙ e5
          ∙ ap (λ x. resolved x.enc_mode) t_is;
      timeout = subst (λ x. x.access_timeout ≢ pos 0) t_is (or_default_set b.access_timeout 29);
      max_timeout =
          subst (λ x. x.max_access_timeout ≢ pos 0) t_is (or_default_set b.max_access_timeout 299);
      username = sym (ap (λ x. x.require_username) b_is ∙ ap (λ x. x.require_username) t_is);
      source_address =
          sym (ap (λ x. x.require_source_addr) b_is ∙ ap (λ x. x.require_source_addr) t_is);
      commands = sym (ap (λ x. x.enable_cmd_exec) b_is ∙ ap (λ x. x.enable_cmd_exec) t_is);
      ports = sym (ap (λ x. x.open_ports) b_is ∙ ap (λ x. x.open_ports) t_is);
    }

-- A stanza that resolves has a source, an encryption mode that is implemented, an HMAC type whose
-- length is known, and timeouts that are not zero; its keys, HMAC type and mode are those that its
-- texts stand for, and its user, source address, command and port rules are those of the file.
pub resolve-IsResolved :
    (net : Net) (a t : AccessStanza) → resolve net a ≡ resolved t → IsResolved a t
unfolding resolve
resolve-IsResolved net a t e = elim (Bool-cases (is_empty a.source)) [
  | inl empty ↦ absurd (no_refusal (rw empty at e))
  | inr source ↦
      let (b, e1, f1) = resolves_both (parse_source_nets net a) _ (rw source at e) in
      let (nets, b_is) = parse_source_nets_keeps net a b e1 in
      let (key, e2, f2) = resolves_both (resolve_enc_key b) _ f1 in
      let (hmac_key, e3, f3) = resolves_both (resolve_hmac_key b) _ f2 in
      let (ht, e4, f4) =
        resolves_both (hmac_type_named (default_name b.hmac_digest_name (codes "sha256"))) _ f3 in
      let (mode, e5, f5) =
        resolves_both (enc_mode_named (default_name b.encryption_mode_name (codes "cbc"))) _ f4 in
      finish-IsResolved a b t nets key hmac_key ht mode source b_is e2 e3 e4 e5 (same_resolved f5)
]
  where
    no_refusal : refused source_required ≡ resolved t → ⊥
    no_refusal f = cc
