-- ===== src/Tunnel/Cases.antt =====
-- A caller of a relay with one tunnel client before, and a choice of protocols as TLS makes it.
use valyrium.Base.{
  Bool, Bool-cases, List, Option, String, [], arith, false, get_elem?, if◌then◌else◌, inl, inr,
  none, refl, some, subst, sym, text_iff, true, ℕ, ◌&&◌, ◌++◌, ◌=t◌, ◌∷◌, ◌≡◌, ◌≢◌, ◌⊎◌,
}
use valyrium.Session.{member}
use valyrium.Wire.{Sink, header, write_frame}
use valyrium.Wire.Read.{encode}
use valyrium.Mux.Conn.{Conn, new_conn, relay}
use valyrium.Mux.Write.{after}
use valyrium.Tunnel.Relay.{
  Relay, RelayConfig, piped, route, serve_public, serve_tunnel_client, tunnel_client,
}
use valyrium.Tunnel.Client.{auth_frame}
use valyrium.Tunnel.Serving.{relay_protos}
use valyrium.Tunnel.Dial.{connect_and_serve, serving, tls_config}
use valyrium.Tunnel.Publish.{first_events, forwarding, serve_public-connect_and_serve}
use valyrium.Tunnel.Alpn.{Negotiates, peer, route-tls_config}

abbrev secret : List ℕ
secret = 115 ∷ 51 ∷ []

abbrev empty_line : Sink
empty_line = record { sent = []; room = 100 }

abbrev config : RelayConfig
config = record {
  domain = "tunnel.example";
  token = secret;
  cert_cache_dir = "/var/cache";
  addr = ":443";
  http_addr = ":80";
}

abbrev replacing : Relay
replacing = record {
  cfg = config;
  muxes = new_conn empty_line relay ∷ [];
  tun = some 0;
  closed = false;
}

serve_public-connect_and_serve_example :
    let sent = (write_frame empty_line (auth_frame secret)).0.sent in
    let r' = (serve_tunnel_client replacing (sent ++ []) empty_line).0 in
    let (served, service) = serve_public r' in
    (service ≡ piped 1 0)
    × ((c : Conn) × (get_elem? served.muxes 1 ≡ some c)
        × (c.streams ≡ (1, 0) ∷ [])
        × (connect_and_serve true secret empty_line c.out.sent (first_events true true)
            ≡ serving (forwarding (after empty_line (encode (auth_frame secret))) [])))
unfolding encode header
serve_public-connect_and_serve_example =
    serve_public-connect_and_serve replacing [] 100 100 true true (omega arith) (omega arith)
      (omega arith) (omega arith)

-- The choice of Go's server: its first protocol that the client offers; none where one of them offers
-- nothing, and for a client of HTTP/1.1 where the server has h2.
unfoldable first_common : List String → List String → Option String
first_common [] offered = none
first_common (q ∷ qs) offered =
    let rest = first_common qs offered in if member q offered then some q else rest

unfoldable fallback : Bool → Option String → Option String
fallback b (some q) = some q
fallback true none = some ""
fallback false none = none

unfoldable choice : List String → List String → Option String
choice [] offered = some ""
choice (p ∷ ps) [] = some ""
choice (p ∷ ps) (q ∷ qs) =
    fallback (member "h2" (p ∷ ps) && member "http/1.1" (q ∷ qs)) (first_common (p ∷ ps) (q ∷ qs))

either-common :
    (b : Bool) (p q : String) (rest : Option String)
    → (if b then some p else rest) ≡ some q
    → ((b ≡ true) × (p ≡ q)) ⊎ (rest ≡ some q)
either-common true p q rest h = inl (refl, ground (arith, h))
either-common false p q rest h = inr h

first_common-member :
    (server offered : List String) (q : String)
    → first_common server offered ≡ some q
    → (member q server ≡ true) × (member q offered ≡ true)
unfolding first_common member
first_common-member [] offered q h = absurd (ground (arith, h))
first_common-member (p ∷ ps) offered q h =
    elim (either-common (member p offered) p q (first_common ps offered) h) [
      | inl (there, same) ↦
          (ground (arith, (text_iff p q).1 same), subst (λ w. member w offered ≡ true) same there)
      | inr later ↦
          let (server, client) = first_common-member ps offered q later in
          (ground (arith, server), client)
    ]

first_common-agrees :
    (server offered : List String) (q : String)
    → member q server ≡ true
    → member q offered ≡ true
    → (p : String) × (first_common server offered ≡ some p)
unfolding first_common member
first_common-agrees [] offered q h there = absurd (ground (arith, h))
first_common-agrees (p ∷ ps) offered q h there = elim (Bool-cases (member p offered)) [
  | inl here ↦ (p, rw here refl)
  | inr other ↦ elim (Bool-cases (p =t q)) [
    | inl same ↦ absurd (
        ground
          (arith, other, subst (λ w. member w offered ≡ true) (sym ((text_iff p q).0 same)) there))
    | inr differs ↦
        let (w, e) = first_common-agrees ps offered q (ground (arith, h, differs)) there in
        (w, rw other e)
  ]
]

fallback-some :
    (b : Bool) (o : Option String) (q : String) → fallback b o ≡ some q → (o ≡ some q) ⊎ (q ≡ "")
unfolding fallback
fallback-some b (some p) q h = inl h
fallback-some true none q h = inr (ground (arith, h))
fallback-some false none q h = absurd (ground (arith, h))

choice-common :
    (server client : List String) (q : String)
    → choice server client ≡ some q
    → ((member q server ≡ true) × (member q client ≡ true)) ⊎ (q ≡ "")
unfolding choice
choice-common [] client q h = inr (ground (arith, h))
choice-common (s ∷ ss) [] q h = inr (ground (arith, h))
choice-common (s ∷ ss) (c ∷ cs) q h = elim (fallback-some _ (first_common (s ∷ ss) (c ∷ cs)) q h) [
  | inl e ↦ inl (first_common-member (s ∷ ss) (c ∷ cs) q e)
  | inr e ↦ inr e
]

choice-agrees :
    (server client : List String) (q : String)
    → member q server ≡ true
    → member q client ≡ true
    → (p : String) × (choice server client ≡ some p)
      × (member p server ≡ true)
      × (member p client ≡ true)
unfolding choice fallback
choice-agrees [] client q h there = absurd (unfold member in ground (arith, h))
choice-agrees (s ∷ ss) [] q h there = absurd (unfold member in ground (arith, there))
choice-agrees (s ∷ ss) (c ∷ cs) q h there =
    let (p, e) = first_common-agrees (s ∷ ss) (c ∷ cs) q h there in
    let (server, client) = first_common-member (s ∷ ss) (c ∷ cs) p e in
    (p, rw e refl, server, client)

choice-Negotiates : Negotiates choice
choice-Negotiates = record { common = choice-common; agrees = choice-agrees }

route-tls_config_example :
    (route (peer (choice ("vtun/1" ∷ "http/1.1" ∷ "acme-tls/1" ∷ []) ("vtun/1" ∷ [])))
      ≡ tunnel_client)
    × (route (peer (choice ("vtun/1" ∷ "http/1.1" ∷ "acme-tls/1" ∷ []) ("h2" ∷ "http/1.1" ∷ [])))
        ≢ tunnel_client)
unfolding relay_protos tls_config member
route-tls_config_example =
    route-tls_config choice (λ addr. none) "acme-tls/1" config none
      (record {
        relay_addr = "relay:443";
        token = secret;
        local_addr = "";
        min_backoff = 1;
        max_backoff = 5;
        keep_alive = 30;
      })
      ("vtun/1" ∷ "http/1.1" ∷ "acme-tls/1" ∷ []) ("h2" ∷ "http/1.1" ∷ []) choice-Negotiates refl
      refl
