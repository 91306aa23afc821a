-- ===== src/Tunnel/Relay.antt =====
-- internal/tunnel/relay.go: `Relay`. Connections of tunnel clients are known by pointers into `muxes`.
use valyrium.Base.{
  Bool, List, Option, String, [], false, get_elem?, if◌then◌else◌, inl, inr, length, none, not,
  some, suc, true, zero, ℕ, ◌&&◌, ◌++◌, ◌==◌, ◌=t◌, ◌∷◌, ◌⊎◌,
}
use valyrium.Wire.{
  Frame, FrameType, Sink, WireError, err, frame_auth, frame_auth_ok, ok, read_frame, write_frame,
}
use valyrium.Mux.Conn.{Conn, Outcome, close_conn, done, fails, new_conn, open_stream, relay}

pub record RelayConfig : Type 0 where
  pub domain : String
  pub token : List ℕ
  pub cert_cache_dir : String
  pub addr : String
  pub http_addr : String

pub record Relay : Type 0 where
  pub cfg : RelayConfig
  pub muxes : List Conn
  pub tun : Option ℕ
  pub closed : Bool

-- `NewRelay`; the error for an empty token is `none`. The token is its bytes.
unfoldable pub new_relay : RelayConfig → Option Relay
new_relay cfg =
    if length cfg.token == 0
    then none
    else some (record {
      cfg = record cfg {
        addr = if cfg.addr =t "" then ":443" else cfg.addr;
        http_addr = if cfg.http_addr =t "" then ":80" else cfg.http_addr;
      };
      muxes = [];
      tun = none;
      closed = false;
    })

unfoldable pub tunnel_connected : Relay → Bool
tunnel_connected r = elim r.tun [ none ↦ false | some _ ↦ true ]

pub data AuthError : Type 0 where
  reading : WireError → AuthError
  expected_auth : FrameType → AuthError
  bad_token : AuthError
  writing : WireError → AuthError

-- `subtle.ConstantTimeCompare`: the bytes are the same.
unfoldable pub same_bytes : List ℕ → List ℕ → Bool
same_bytes [] [] = true
same_bytes [] (y ∷ ys) = false
same_bytes (x ∷ xs) [] = false
same_bytes (x ∷ xs) (y ∷ ys) = let rest = same_bytes xs ys in x == y && rest

unfoldable pub written : Sink × Option WireError → Sink × Option AuthError
written (w, none) = (w, none)
written (w, some e) = (w, some (writing e))

-- The checks on the AUTH frame, and the answer.
unfoldable pub check_auth : List ℕ → Sink → Frame → Sink × Option AuthError
check_auth token out f =
    if not (f.type == frame_auth)
    then (out, some (expected_auth f.type))
    else if not (same_bytes f.payload token)
    then (out, some bad_token)
    else written (write_frame out (record { type = frame_auth_ok; stream_id = 0; payload = [] }))

-- `authenticate`: the bytes that come in, what is left of them, and what goes out.
unfoldable pub authenticate : List ℕ → List ℕ → Sink → List ℕ × (Sink × Option AuthError)
authenticate token bs out = elim (read_frame bs) [
  | err e ↦ (bs, (out, some (reading e)))
  | ok (f, rest) ↦ (rest, check_auth token out f)
]

unfoldable pub modify_mux : ℕ → (Conn → Conn) → List Conn → List Conn
modify_mux i f [] = []
modify_mux zero f (c ∷ cs) = f c ∷ cs
modify_mux (suc i) f (c ∷ cs) = c ∷ modify_mux i f cs

unfoldable pub close_mux : Option ℕ → List Conn → List Conn
close_mux none cs = cs
close_mux (some p) cs = modify_mux p close_conn cs

unfoldable pub register : Relay → ℕ → Relay
register r mux = record r { tun = some mux; muxes = close_mux r.tun r.muxes }

unfoldable pub registered : Option ℕ → ℕ → Bool
registered none mux = false
registered (some p) mux = p == mux

unfoldable pub unregister : Relay → ℕ → Relay
unregister r mux = record r { tun = if registered r.tun mux then none else r.tun }

-- `serveTunnelClient` up to its wait for the end of the connection: the pointer of the new mux, or
-- the error for which the connection is closed.
unfoldable pub admit : Relay → Sink × Option AuthError → Relay × (AuthError ⊎ ℕ)
admit r (out, some e) = (r, inl e)
admit r (out, none) =
    let p = length r.muxes in
    (register (record r { muxes = r.muxes ++ new_conn out relay ∷ [] }) p, inr p)

unfoldable pub serve_tunnel_client : Relay → List ℕ → Sink → Relay × (AuthError ⊎ ℕ)
serve_tunnel_client r bs out = admit r (authenticate r.cfg.token bs out).1

-- What `servePublic` does with a caller: a 503 of the relay's own, or a pipe to a stream of a mux.
pub data Service : Type 0 where
  unavailable : Service
  piped : ℕ → ℕ → Service

unfoldable pub piped_to : Relay → ℕ → Conn × Outcome ℕ → Relay × Service
piped_to r p (c, fails e) = (record r { muxes = modify_mux p (λ _. c) r.muxes }, unavailable)
piped_to r p (c, done q) = (record r { muxes = modify_mux p (λ _. c) r.muxes }, piped p q)

unfoldable pub serve_public : Relay → Relay × Service
serve_public r = elim r.tun [
  | none ↦ (r, unavailable)
  | some p ↦ elim (get_elem? r.muxes p) [
    | none ↦ (r, unavailable)
    | some c ↦ piped_to r p (open_stream c)
  ]
]

-- `Close`.
unfoldable pub close_relay : Relay → Relay
close_relay r =
    if r.closed then r else record r { closed = true; tun = none; muxes = close_mux r.tun r.muxes }

-- `handleConn`: a connection without TLS, a failed TLS handshake, or the protocol it agreed on.
pub data Peer : Type 0 where
  no_tls handshake_failed : Peer
  negotiated : String → Peer

pub data Route : Type 0 where
  dropped tunnel_client public_caller : Route

unfoldable pub route : Peer → Route
route no_tls = public_caller
route handshake_failed = dropped
route (negotiated protocol) = if protocol =t "vtun/1" then tunnel_client else public_caller
