-- ===== src/Client/Packet/Agreement.antt =====
-- A client and a server whose settings agree understand each other.
use fwknop_go.Base.{
  ◌≤◌, ℤ, pos, negsuc, ◌≡◌, refl, sym, ap, ◌∙◌, ◌⊎◌, true, some, [], ◌∷◌, arith, Bytes, AreBytes,
  codes, length, if◌then◌else◌, unix_seconds, IsInt64, parse_uint, max_uint32, to_lower, trim_right,
}
use fwknop_go.Spa.Error as SpaError
use fwknop_go.Spa.Error.{Result-cases}
use fwknop_go.Spa.Kinds.{HmacType, EncryptionMode, requires_nat_access}
use fwknop_go.Spa.Base64.{b64_encode}
use fwknop_go.Spa.Validate.{is_empty}
use fwknop_go.Spa.Digest.{Hashes, HashLaws}
use fwknop_go.Spa.Cipher.{BlockCipher, CipherLaws}
use fwknop_go.Spa.Packet.{encrypt, decrypt, authenticate, with_decrypt_mode, with_decrypt_hmac_type}
use fwknop_go.Spa.Packet.RoundTrip.{matching_options, decrypt-encrypt}
use fwknop_go.Spa.Wire.Fields.{HasBytes}
use fwknop_go.Spa.Wire.Decoding.{IsSendable, received}
use fwknop_go.Spa.Wire.Digests.{reported}
use fwknop_go.Server.Access as Access
use fwknop_go.Server.Access.{
  AccessStanza, Net, resolve, resolved, refused, hmac_type_named, enc_mode_named, default_name,
}
use fwknop_go.Server.Access.Resolving.{resolve-IsResolved}
use fwknop_go.Server.Processing.{decrypt_stanza}
use fwknop_go.Client.Config as Config
use fwknop_go.Client.Config.{
  ClientConfig, Attempt, failed, done, ◌>>=◌, from_spa, resolve_hmac_type, resolve_enc_mode,
}
use fwknop_go.Client.Packet.{Env, Prepared, prepare, spa_packet}
use fwknop_go.Client.Packet.Fields.{timeout_of, type_of, empty_text}
use fwknop_go.Client.Packet.Built.{IsBuilt, prepare-IsBuilt, from_spa-done}

-- The same texts stand in the client's configuration and in the server's stanza.
pub record SameSettings (c : ClientConfig) (s : AccessStanza) : Type 0 where
  pub key_base64 : s.key_base64 ≡ c.key_base64
  pub key : s.key ≡ c.key
  pub hmac_key_base64 : s.hmac_key_base64 ≡ c.key_base64_hmac
  pub hmac_key : s.hmac_key_text ≡ c.key_hmac
  pub hmac_digest : s.hmac_digest_name ≡ c.hmac_digest_type
  pub mode : s.encryption_mode_name ≡ c.encryption_mode

module _ (c : ClientConfig) (s : AccessStanza) (same : SameSettings c s) where
  same_enc_key :
      (k l : Bytes)
      → Config.resolve_enc_key c ≡ done k
      → Access.resolve_enc_key s ≡ resolved l
      → k ≡ l
  unfolding Config.resolve_enc_key Access.resolve_enc_key
  same_enc_key k l a b = ground arith

  same_hmac_key :
      (k l : Bytes)
      → c.use_hmac ≡ true
      → Config.resolve_hmac_key c ≡ done k
      → Access.resolve_hmac_key s ≡ resolved l
      → k ≡ l
  unfolding Config.resolve_hmac_key Access.resolve_hmac_key
  same_hmac_key k l on a b = ground arith

same_hmac_type :
    (n : Bytes) (t u : HmacType)
    → resolve_hmac_type n ≡ done t
    → hmac_type_named (default_name n (codes "sha256")) ≡ resolved u
    → t ≡ u
unfolding resolve_hmac_type hmac_type_named to_lower
same_hmac_type [] t u a b = cc
same_hmac_type (x ∷ n) t u a b = ground arith

same_mode :
    (n : Bytes) (t u : EncryptionMode)
    → resolve_enc_mode n ≡ done t
    → enc_mode_named (default_name n (codes "cbc")) ≡ resolved u
    → t ≡ u
unfolding resolve_enc_mode enc_mode_named to_lower
same_mode [] t u a b = cc
same_mode (x ∷ n) t u a b = ground arith

-- Without an HMAC key the HMAC type does not matter, and the server does not pass one.
optional_type :
    (h : Hashes) (c : BlockCipher) (mode : EncryptionMode) (ht : HmacType)
    (spa key hmac_key : Bytes)
    → decrypt h c spa key hmac_key (
        with_decrypt_mode mode ∷ (if is_empty hmac_key then [] else with_decrypt_hmac_type ht ∷ []))
      ≡ decrypt h c spa key hmac_key (with_decrypt_mode mode ∷ with_decrypt_hmac_type ht ∷ [])
unfolding decrypt authenticate with_decrypt_mode with_decrypt_hmac_type
optional_type h c mode ht spa key [] = refl
optional_type h c mode ht spa key (x ∷ hmac_key) = refl

decrypt_stanza_lem :
    (h : Hashes) (c : BlockCipher) (t : AccessStanza) (p : Prepared) (spa : Bytes)
    → p.enc_key ≡ t.enc_key
    → p.hmac_key ≡ t.hmac_key
    → p.message.encryption_mode ≡ t.enc_mode
    → p.message.hmac_type ≡ t.hmac_type
    → decrypt_stanza h c t spa ≡ decrypt h c spa p.enc_key p.hmac_key (matching_options p.message)
unfolding decrypt_stanza
decrypt_stanza_lem h c t p spa k hk mode ht =
    optional_type h c t.enc_mode t.hmac_type spa t.enc_key t.hmac_key ∙ cc (k, hk, mode, ht)

timeout_bound : (t : ℤ) → timeout_of t ≤ max_uint32
timeout_bound (pos n) = omega arith
timeout_bound (negsuc n) = omega arith

nat_of_type : (c : ClientConfig) → (requires_nat_access (type_of c) ≡ true) ⊎ (c.nat_access ≡ [])
unfolding requires_nat_access
nat_of_type c = ground (arith, empty_text c.nat_access)

-- What the client builds can be sent, if its texts are bytes and its time has 64 bits.
pub built-IsSendable :
    (env : Env) (c : ClientConfig) (p : Prepared)
    → IsBuilt env c p
    → HasBytes p.message
    → IsInt64 (unix_seconds p.message.timestamp)
    → IsSendable p.message
unfolding parse_uint b64_encode trim_right
built-IsSendable env c p b bytes time = record {
  bytes = bytes;
  time = time;
  timeout = rw b.client_timeout (timeout_bound c.fw_timeout);
  nat = rw (b.message_type, b.nat_access) (nat_of_type c);
  auth = rw b.server_auth refl;
}

-- Under the laws of the hashes and the cipher, and with the client's use_hmac on: where a stanza
-- resolves whose key, HMAC key, HMAC type and encryption mode are written as in the client's
-- configuration, it decrypts every packet
-- that the client makes with a salt of 8 bytes to the client's message, if the message's texts are
-- bytes and its time has 64 bits.
pub client_server_agree :
    (env : Env) (net : Net) (c : ClientConfig) (file t : AccessStanza) (p : Prepared)
    (spa salt : Bytes)
    → HashLaws env.hashes
    → CipherLaws env.cipher
    → SameSettings c file
    → c.use_hmac ≡ true
    → resolve net file ≡ resolved t
    → prepare env c ≡ done p
    → spa_packet env p ≡ done spa
    → env.salt ≡ some salt
    → AreBytes salt
    → length salt ≡ 8
    → HasBytes p.message
    → IsInt64 (unix_seconds p.message.timestamp)
    → decrypt_stanza env.hashes env.cipher t spa
      ≡ SpaError.ok (received p.message (reported p.message.digest_type))
unfolding spa_packet
client_server_agree env net c file t p spa salt hl cl same on r e s has sb sl bytes time =
    let b = prepare-IsBuilt env c p e in
    let q = resolve-IsResolved net file t r in
    let written =
      from_spa-done
        (encrypt env.hashes env.cipher env.platform p.message p.enc_key p.hmac_key env.salt) s in
    decrypt_stanza_lem env.hashes env.cipher t p spa
      (same_enc_key c file same p.enc_key t.enc_key b.enc_key q.enc_key)
      (same_hmac_key c file same p.hmac_key t.hmac_key on b.hmac_key q.hmac_key)
      (same_mode c.encryption_mode p.message.encryption_mode t.enc_mode b.mode
        (rw same.mode at q.mode_named))
      (same_hmac_type c.hmac_digest_type p.message.hmac_type t.hmac_type (b.hmac on)
        (rw same.hmac_digest at q.hmac_named))
    ∙ decrypt-encrypt env.hashes env.cipher env.platform p.message p.enc_key p.hmac_key salt spa hl
        cl sb sl (built-IsSendable env c p b bytes time)
        (ap (λ x. encrypt env.hashes env.cipher env.platform p.message p.enc_key p.hmac_key x)
            (sym has)
          ∙ written)
