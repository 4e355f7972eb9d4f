-- ===== src/Client/Keys.antt =====
-- Keys that the client generates, in the settings of the client and of the server.
use fwknop_go.Base.{
  ℕ, suc, ◌<◌, pos, ◌≡◌, refl, sym, ap, ◌∙◌, true, false, some, Option, [], ◌∷◌, arith, Bytes,
  AreBytes, length,
}
use fwknop_go.Spa.Error.{ok}
use fwknop_go.Spa.Base64.{std_encode}
use fwknop_go.Spa.Base64.RoundTrip.{std_decode-std_encode}
use fwknop_go.Spa.KeyGen.{encoded, generate_key, generate_hmac_key}
use fwknop_go.Spa.Validate.{is_empty}
use fwknop_go.Server.Access as Access
use fwknop_go.Server.Access.{AccessStanza, resolved}
use fwknop_go.Client.Config as Config
use fwknop_go.Client.Config.{ClientConfig, done}

-- The texts that the client prints, with the bytes that they stand for.
abbrev pub IsGenerated :
    (ℕ → Option Bytes) → (ℕ → Option Bytes) → ℕ → Bytes → Bytes → Bytes → Bytes → Type 0
IsGenerated random hmac_random n text hmac_text key hmac_key =
    (generate_key random (pos n) ≡ ok text)
    × (generate_hmac_key hmac_random (pos n) ≡ ok hmac_text)
    × (random n ≡ some key)
    × (hmac_random n ≡ some hmac_key)

encoded_nonempty : (c : ℕ) (s : Bytes) → is_empty (std_encode (c ∷ s)) ≡ false
unfolding std_encode
encoded_nonempty c [] = refl
encoded_nonempty c (d ∷ []) = refl
encoded_nonempty c (d ∷ e ∷ s) = refl

same_text : {a b : Bytes} → ok a ≡ ok b → a ≡ b
same_text e = cc

generated_text :
    (random : ℕ → Option Bytes) (n : ℕ) (text key : Bytes)
    → generate_key random (pos (suc n)) ≡ ok text
    → random (suc n) ≡ some key
    → text ≡ std_encode key
unfolding generate_key
generated_text random n text key g r = same_text (sym g ∙ ap encoded r)

generated_hmac_text :
    (random : ℕ → Option Bytes) (n : ℕ) (text key : Bytes)
    → generate_hmac_key random (pos (suc n)) ≡ ok text
    → random (suc n) ≡ some key
    → text ≡ std_encode key
unfolding generate_hmac_key
generated_hmac_text random n text key g r = same_text (sym g ∙ ap encoded r)

-- The settings read a text of base64 as the bytes that it encodes.
enc_key_read :
    (c : ClientConfig) (s : AccessStanza) (key : Bytes)
    → AreBytes key
    → 0 < length key
    → c.key_base64 ≡ std_encode key
    → s.key_base64 ≡ std_encode key
    → (Config.resolve_enc_key c ≡ done key) × (Access.resolve_enc_key s ≡ resolved key)
unfolding Config.resolve_enc_key Access.resolve_enc_key
enc_key_read c s [] b l e f = absurd (omega arith)
enc_key_read c s (x ∷ key) b l e f = (
  rw (e, encoded_nonempty x key, std_decode-std_encode (x ∷ key) b) refl,
  rw (f, encoded_nonempty x key, std_decode-std_encode (x ∷ key) b) refl,
)

hmac_key_read :
    (c : ClientConfig) (s : AccessStanza) (key : Bytes)
    → AreBytes key
    → 0 < length key
    → c.use_hmac ≡ true
    → c.key_base64_hmac ≡ std_encode key
    → s.hmac_key_base64 ≡ std_encode key
    → (Config.resolve_hmac_key c ≡ done key) × (Access.resolve_hmac_key s ≡ resolved key)
unfolding Config.resolve_hmac_key Access.resolve_hmac_key
hmac_key_read c s [] b l u e f = absurd (omega arith)
hmac_key_read c s (x ∷ key) b l u e f = (
  rw (u, e, encoded_nonempty x key, std_decode-std_encode (x ∷ key) b) refl,
  rw (f, encoded_nonempty x key, std_decode-std_encode (x ∷ key) b) refl,
)

-- Keys of a positive length that were generated and put into the configuration of the client, with
-- HMACs on, and the stanza of the server, as base64, are read by both as the random bytes that were
-- drawn.
pub generated_keys_read :
    (random hmac_random : ℕ → Option Bytes) (n : ℕ) (text hmac_text key hmac_key : Bytes)
    (c : ClientConfig) (s : AccessStanza)
    → IsGenerated random hmac_random (suc n) text hmac_text key hmac_key
    → AreBytes key
    → AreBytes hmac_key
    → length key ≡ suc n
    → length hmac_key ≡ suc n
    → c.use_hmac ≡ true
    → (c.key_base64 ≡ text) × (c.key_base64_hmac ≡ hmac_text)
    → (s.key_base64 ≡ text) × (s.hmac_key_base64 ≡ hmac_text)
    → (Config.resolve_enc_key c ≡ done key)
      × (Config.resolve_hmac_key c ≡ done hmac_key)
      × (Access.resolve_enc_key s ≡ resolved key)
      × (Access.resolve_hmac_key s ≡ resolved hmac_key)
generated_keys_read random hmac_random n text hmac_text key hmac_key c s (g, gh, r, rh) b bh l lh u
      (ck, ch) (sk, sh) =
    let t = generated_text random n text key g r in
    let th = generated_hmac_text hmac_random n hmac_text hmac_key gh rh in
    let (a1, a2) = enc_key_read c s key b (omega arith) (ck ∙ t) (sk ∙ t) in
    let (b1, b2) = hmac_key_read c s hmac_key bh (omega arith) u (ch ∙ th) (sh ∙ th) in
    (a1, b1, a2, b2)
