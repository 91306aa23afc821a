-- ===== src/Tunnel/Alpn.antt =====
-- Which protocol the ends of a TLS connection to the relay agree on, and where the relay sends the
-- connection for it.
use valyrium.Base.{
  Bool, List, Option, String, [], arith, false, if◌then◌else◌, inl, inr, none, refl, some, subst,
  sym, text_iff, true, ◌=t◌, ◌∙◌, ◌∷◌, ◌≡◌, ◌≢◌, ◌⊎◌,
}
use valyrium.Session.{member}
use valyrium.Tunnel.Relay.{
  Peer, RelayConfig, handshake_failed, negotiated, public_caller, route, tunnel_client,
}
use valyrium.Tunnel.Client.{TunnelConfig}
use valyrium.Tunnel.Serving.{TlsError, no_cert_cache_dir, no_domain, relay_protos}
use valyrium.Tunnel.Dial.{TlsConfig, tls_config}

-- What `crypto/tls` documents of its choice from what the server and the client offer: it is offered by
-- both, or it is "" where they end up without a protocol, as where one of them offers none; and with
-- something in common it is one of the common ones.
pub record Negotiates (negotiate : List String → List String → Option String) : Type 0 where
  pub common :
      (server client : List String) (q : String)
      → negotiate server client ≡ some q
      → ((member q server ≡ true) × (member q client ≡ true)) ⊎ (q ≡ "")
  pub agrees :
      (server client : List String) (q : String)
      → member q server ≡ true
      → member q client ≡ true
      → (p : String) × (negotiate server client ≡ some p)
        × (member p server ≡ true)
        × (member p client ≡ true)

abbrev pub peer : Option String → Peer
peer none = handshake_failed
peer (some q) = negotiated q

text-ne : ◌≢◌ {A = String} "vtun/1" ""
text-ne e =
    let same : (("vtun/1" =t "") ≡ true) = (text_iff "vtun/1" "").1 e in ground (arith, same)

either-vtun :
    (a b : Bool) (e e' : TlsError) (rest ps : List String)
    → (if a then inl e else if b then inl e' else inr ("vtun/1" ∷ rest)) ≡ inr ps
    → member "vtun/1" ps ≡ true
unfolding member
either-vtun true b e e' rest ps h = ground (arith, h)
either-vtun false true e e' rest ps h = ground (arith, h)
either-vtun false false e e' rest ps h =
    let same : "vtun/1" ∷ rest ≡ ps = ground (arith, h) in
    subst (λ qs. member "vtun/1" qs ≡ true) same refl

relay_protos-vtun :
    (acme : String) (cfg : RelayConfig) (ps : List String)
    → relay_protos acme cfg ≡ inr ps
    → member "vtun/1" ps ≡ true
unfolding relay_protos
relay_protos-vtun acme cfg ps h =
    either-vtun (cfg.domain =t "") (cfg.cert_cache_dir =t "") no_domain no_cert_cache_dir
      ("http/1.1" ∷ acme ∷ []) ps h

either-tunnel_client :
    (b : Bool) → (if b then tunnel_client else public_caller) ≡ tunnel_client → b ≡ true
either-tunnel_client true h = refl
either-tunnel_client false h = ground (arith, h)

route-negotiated : (q : String) → route (negotiated q) ≡ tunnel_client → q ≡ "vtun/1"
unfolding route
route-negotiated q h = (text_iff q "vtun/1").0 (either-tunnel_client (q =t "vtun/1") h)

-- A client that offers nothing but the tunnel's protocol can only agree on that.
only-vtun : (q : String) → member q ("vtun/1" ∷ []) ≡ true → "vtun/1" ≡ q
unfolding member
only-vtun q h = (text_iff "vtun/1" q).0 (ground (arith, h))

module _ (negotiate : List String → List String → Option String) (tls : Negotiates negotiate)
    (ps : List String) where
  offered-vtun :
      (offered : List String) (o : Option String)
      → negotiate ps offered ≡ o
      → route (peer o) ≡ tunnel_client
      → member "vtun/1" offered ≡ true
  offered-vtun offered none e h = absurd (unfold route in ground (arith, h))
  offered-vtun offered (some q) e h =
      let vtun = route-negotiated q h in
      elim (tls.common ps offered q e) [
        | inl (server, client) ↦ subst (λ w. member w offered ≡ true) vtun client
        | inr empty ↦ absurd (text-ne (sym vtun ∙ empty))
      ]

  only-tunnel_client :
      member "vtun/1" ps ≡ true → route (peer (negotiate ps ("vtun/1" ∷ []))) ≡ tunnel_client
  unfolding route
  only-tunnel_client there =
      let (q, e, server, client) =
        tls.agrees ps ("vtun/1" ∷ []) "vtun/1" there (unfold member in refl) in
      rw e (subst (λ w. route (negotiated w) ≡ tunnel_client) (only-vtun q client) refl)

-- Given what `crypto/tls` documents of the protocol that two ends agree on, a relay that has its TLS
-- configuration takes whoever dials with the tunnel's `tlsConfig` for a tunnel client, whatever else
-- that configuration says, and nobody who does not offer the tunnel's protocol.
pub route-tls_config :
    (negotiate : List String → List String → Option String)
    (split_host_port : String → Option String) (acme : String) (cfg : RelayConfig)
    (given : Option TlsConfig) (client : TunnelConfig) (ps offered : List String)
    → Negotiates negotiate
    → relay_protos acme cfg ≡ inr ps
    → member "vtun/1" offered ≡ false
    → (route (peer (negotiate ps (tls_config split_host_port given client).next_protos))
        ≡ tunnel_client)
      × (route (peer (negotiate ps offered)) ≢ tunnel_client)
unfolding tls_config
route-tls_config negotiate split acme cfg given client ps offered tls h other = (
  only-tunnel_client negotiate tls ps (relay_protos-vtun acme cfg ps h),
  λ taken. absurd (
      ground
        (arith, other, offered-vtun negotiate tls ps offered (negotiate ps offered) refl taken)),
)
