-- ===== src/Tunnel/Serving.antt =====
-- internal/tunnel/relay.go: the relay as its goroutines see it. The critical sections of `register` and
-- `Close` are separate from the `Close` of a connection that follows them outside the lock.
use valyrium.Base.{
  Bool, List, Option, String, [], false, if◌then◌else◌, inl, inr, length, min, none, not, some,
  true, ℕ, ◌++◌, ◌+t◌, ◌==◌, ◌=t◌, ◌^◌, ◌||◌, ◌∷◌, ◌⊎◌,
}
use Prim.Native.String.{len}
use valyrium.Wire.{Sink}
use valyrium.Mux.Conn.{close_conn, new_conn, relay}
use valyrium.Tunnel.Relay.{Peer, Relay, RelayConfig, Route, modify_mux, route}

-- The relay, and the connections that a goroutine is about to close.
pub record Serving : Type 0 where
  pub host : Relay
  pub leaving : List ℕ

unfoldable pub with_leaving : Option ℕ → List ℕ → List ℕ
with_leaving none qs = qs
with_leaving (some q) qs = q ∷ qs

-- `NewConn` and the critical section of `register`.
unfoldable pub join : Serving → Sink → Serving
join w out = record {
  host = record w.host {
    muxes = w.host.muxes ++ new_conn out relay ∷ [];
    tun = some (length w.host.muxes);
  };
  leaving = with_leaving w.host.tun w.leaving;
}

-- `Close` under its `closeOnce`, up to the closing of the connection that it took.
unfoldable pub shut : Serving → Serving
shut w = if w.host.closed then w else record {
  host = record w.host { closed = true; tun = none };
  leaving = with_leaving w.host.tun w.leaving;
}

unfoldable pub without : ℕ → List ℕ → List ℕ
without q [] = []
without q (p ∷ ps) = let rest = without q ps in if p == q then rest else p ∷ rest

unfoldable pub among : ℕ → List ℕ → Bool
among q [] = false
among q (p ∷ ps) = p == q || among q ps

-- `previous.Close()` in `register`, and `tun.Close()` in `Close`.
unfoldable pub close_leaving : Serving → ℕ → Serving
close_leaving w q = record {
  host = record w.host { muxes = modify_mux q close_conn w.host.muxes };
  leaving = without q w.leaving;
}

-- What `Accept` of the listener answers; the error comes with whether the relay is closed by then.
pub data Accepted : Type 0 where
  accepted : Peer → Accepted
  accept_failed : Bool → Accepted

-- `Serve`: what the loop does with the connections that come in, and its result once it returns; the
-- result says whether it is the error.
unfoldable pub serve : List Accepted → List Route × Option Bool
serve [] = ([], none)
serve (accepted peer ∷ more) = let (routes, result) = serve more in (route peer ∷ routes, result)
serve (accept_failed closed ∷ more) = ([], some (not closed))

pub data TlsError : Type 0 where
  no_domain no_cert_cache_dir : TlsError

-- `tlsConfig` of the relay: the protocols that it offers; `acme_proto` is `acme.ALPNProto`.
unfoldable pub relay_protos : String → RelayConfig → TlsError ⊎ List String
relay_protos acme_proto cfg =
    if cfg.domain =t ""
    then inl no_domain
    else if cfg.cert_cache_dir =t ""
    then inl no_cert_cache_dir
    else inr ("vtun/1" ∷ "http/1.1" ∷ acme_proto ∷ [])

-- Where the port 80 responder sends what is no challenge.
unfoldable pub redirect_location : RelayConfig → String → String
redirect_location cfg request_uri = "https://" +t (cfg.domain +t request_uri)

abbrev pub unavailable_body : String
unavailable_body =
    "{\"error\":{\"message\":\"no valyrium tunnel client is connected to this relay\",\"type\":\"api_error\"}}"

abbrev pub max_drain : ℕ
max_drain = 2 ^ 20

-- How much of a caller's body `writeUnavailable` reads, of so many bytes.
unfoldable pub drained : ℕ → ℕ
drained body = min max_drain body

-- The answer of `writeUnavailable`, with the decimal form of a number.
unfoldable pub unavailable_response : (ℕ → String) → String
unavailable_response decimal =
    "HTTP/1.1 503 Service Unavailable\r\nContent-Type: application/json\r\nContent-Length: "
    +t decimal (len unavailable_body)
    +t "\r\nConnection: close\r\n\r\n"
    +t unavailable_body
