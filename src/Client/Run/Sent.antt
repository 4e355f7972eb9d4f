-- ===== src/Client/Run/Sent.antt =====
-- What the client sends.
use fwknop_go.Base.{
  ℤ, pos, ◌≡◌, ◌≢◌, refl, ap, ◌∙◌, Bool, true, false, ◌&&◌, [], ◌∷◌, Bytes, if◌then◌else◌,
  Bool-cases, Option-cases, none, inl, inr, arith,
}
use fwknop_go.Spa.Validate.{is_empty}
use fwknop_go.Client.Config.{
  ClientConfig, Attempt, done, refuse_if, done_both, done_after, from_spa, ClientError,
  destination_required, access_required,
}
use fwknop_go.Client.Packet.{Env, Prepared, prepare, spa_packet}
use fwknop_go.Spa.KeyGen.{generate_key, generate_hmac_key}
use fwknop_go.Client.Send.{send_spa_packet}
use fwknop_go.Client.Output.{Listing, listed, not_listed, version_line}
use fwknop_go.Client.Run.{
  Ending, printed, packet_sent, Outside, run_key_gen, stanzas_printed, run_listing, run_packet,
  deliver, run_config,
}

-- A packet that is sent to an address is the one that was prepared from the configuration, in no other
-- mode, for the destination of the configuration, and the sending succeeded.
pub record IsSent (env : Env) (out : Outside) (c : ClientConfig) (host : Bytes) (port : ℤ)
    (spa : Bytes) : Type 0 where
  pub sends_only :
      (c.show_version ≡ false) × (c.key_gen ≡ false) × (c.list_stanzas ≡ false) × (c.test ≡ false)
  pub to_host : host ≡ c.destination
  pub to_port : port ≡ c.server_port
  pub has_host : is_empty c.destination ≡ false
  pub has_request : (is_empty c.access && is_empty c.server_cmd) ≡ false
  pub made : (p : Prepared) × (prepare env c ≡ done p) × (spa_packet env p ≡ done spa)
  pub went : send_spa_packet out.network host port spa ≡ none

refused : (b : Bool) (e : ClientError) → refuse_if b e ≡ done tt → b ≡ false
refused b e h = ground arith

keys_not_sent :
    (out : Outside) (h : Bytes) (port : ℤ) (spa : Bytes)
    → run_key_gen out ≢ done (packet_sent h port spa)
unfolding run_key_gen
keys_not_sent out h port spa e =
    let (k, first, more) = done_both (from_spa (generate_key out.key_random (pos 32))) _ e in
    let (l, second, last) =
      done_both (from_spa (generate_hmac_key out.hmac_random (pos 32))) _ more in
    cc

names_not_sent :
    (l : Listing) (h : Bytes) (port : ℤ) (spa : Bytes)
    → stanzas_printed l ≢ done (packet_sent h port spa)
names_not_sent (listed names) h port spa e = cc
names_not_sent (not_listed x) h port spa e = cc

delivered :
    (out : Outside) (c : ClientConfig) (packet h : Bytes) (port : ℤ) (spa : Bytes)
    → deliver out c packet ≡ done (packet_sent h port spa)
    → (c.test ≡ false)
      × (h ≡ c.destination)
      × (port ≡ c.server_port)
      × (packet ≡ spa)
      × (send_spa_packet out.network h port spa ≡ none)
unfolding deliver
delivered out c packet h port spa e = elim (Bool-cases c.test) [
  | inl test ↦ absurd (cc (rw test at e))
  | inr real ↦
      elim (Option-cases (send_spa_packet out.network c.destination c.server_port packet)) [
        | inl sent ↦
            let same : ◌≡◌ {A = Attempt Ending}
                (done (packet_sent c.destination c.server_port packet))
                (done (packet_sent h port spa)) =
              rw (real, sent) at e in
            let host : h ≡ c.destination = cc in
            let at_port : port ≡ c.server_port = cc in
            let whole : packet ≡ spa = cc in
            (real, host, at_port, whole, rw (host, at_port, ← whole) sent)
        | inr (x, lost) ↦ absurd (cc (rw (real, lost) at e))
      ]
]

-- The other branch was taken.
other_branch {ℓ} :
    {A : Type ℓ} (b : Bool) (x y : A) {z : A}
    → (if b then x else y) ≡ z
    → x ≢ z
    → (b ≡ false) × (y ≡ z)
other_branch true x y e apart = absurd (apart e)
other_branch false x y e apart = (refl, e)

-- What a run that sends has passed through: no other mode.
passed :
    (env : Env) (out : Outside) (c : ClientConfig) (h : Bytes) (port : ℤ) (spa : Bytes)
    → run_config env out c ≡ done (packet_sent h port spa)
    → (c.show_version ≡ false)
      × (c.key_gen ≡ false)
      × (c.list_stanzas ≡ false)
      × (run_packet env out c ≡ done (packet_sent h port spa))
unfolding run_config
passed env out c h port spa e =
    let (no_version, e1) =
      other_branch c.show_version (done (printed (version_line out.build ∷ []))) _ e (λ f. cc) in
    let (no_keys, e2) =
      other_branch c.key_gen (run_key_gen out) _ e1 (keys_not_sent out h port spa) in
    let (no_names, e3) =
      other_branch c.list_stanzas (run_listing out c) _ e2 (names_not_sent _ h port spa) in
    (no_version, no_keys, no_names, e3)

-- A run that sends a datagram has prepared a message from its configuration and made a packet of it,
-- which is what it sends, to the host and the port of the configuration; the host and a request were
-- given, no other mode was asked for, and the sending succeeded.
pub run_config-IsSent :
    (env : Env) (out : Outside) (c : ClientConfig) (h : Bytes) (port : ℤ) (spa : Bytes)
    → run_config env out c ≡ done (packet_sent h port spa)
    → IsSent env out c h port spa
unfolding run_packet
run_config-IsSent env out c h port spa e =
    let (no_version, no_keys, no_names, rest) = passed env out c h port spa e in
    let (has_host, after_host) =
      done_after (refuse_if (is_empty c.destination) destination_required) _ rest in
    let (has_request, after_request) =
      done_after (refuse_if (is_empty c.access && is_empty c.server_cmd) access_required) _
        after_host in
    let (p, prepared, after_p) = done_both (prepare env c) _ after_request in
    let (packet, made, sent) = done_both (spa_packet env p) _ after_p in
    let (real, host, at_port, whole, went) = delivered out c packet h port spa sent in
    record {
      sends_only = (no_version, no_keys, no_names, real);
      to_host = host;
      to_port = at_port;
      has_host = refused (is_empty c.destination) destination_required has_host;
      has_request =
          refused (is_empty c.access && is_empty c.server_cmd) access_required has_request;
      made = (p, prepared, made ∙ ap done whole);
      went = went;
    }
