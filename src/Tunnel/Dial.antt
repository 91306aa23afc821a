-- ===== src/Tunnel/Dial.antt =====
-- internal/tunnel/tunnel.go: `tlsConfig` and `connectAndServe`, with the goroutines that it starts. The
-- relay's bytes are the list of what it sends; `DialWithDialer` says whether it got through.
use valyrium.Base.{
  Bool, List, Option, String, [], false, if◌then◌else◌, none, some, true, ℕ, ◌==◌, ◌=t◌, ◌∷◌,
}
use valyrium.Wire.{Sink}
use valyrium.Mux.Conn.{
  Conn, ConnError, Outcome, accept_stream, close_conn, done, fails, keepalive_tick, new_conn,
  tunnel,
}
use valyrium.Mux.ReadLoop.{Round, blocks, goes_on, panics, read_round, returns}
use valyrium.Tunnel.Client.{DialError, TunnelConfig, authenticate_to, forward}
use valyrium.Tunnel.Serving.{among, without}

-- The fields of `tls.Config` that are set here; 0 and "" are Go's zero values.
pub record TlsConfig : Type 0 where
  pub next_protos : List String
  pub min_version : ℕ
  pub server_name : String

abbrev pub version_tls12 : ℕ
version_tls12 = 771

-- The host of `net.SplitHostPort`, or the name as it is where that fails.
unfoldable pub host_or : Option String → String → String
host_or none name = name
host_or (some host) name = host

-- `tlsConfig` of the client, given `cfg.TLSConfig` and `net.SplitHostPort`.
unfoldable pub tls_config : (String → Option String) → Option TlsConfig → TunnelConfig → TlsConfig
tls_config split_host_port given cfg =
    let base : TlsConfig = elim given [
      | none ↦ record { next_protos = []; min_version = 0; server_name = "" }
      | some tls ↦ tls
    ] in
    record {
      next_protos = "vtun/1" ∷ [];
      min_version = if base.min_version == 0 then version_tls12 else base.min_version;
      server_name =
          if base.server_name =t ""
          then host_or (split_host_port cfg.relay_addr) base.server_name
          else base.server_name;
    }

-- The control connection: what the relay sent and the read loop did not take yet, whether the read
-- loop runs, the streams whose `forward` dials the gateway, and those that are piped to it.
pub record Control : Type 0 where
  pub conn : Conn
  pub incoming : List ℕ
  pub reading : Bool
  pub dialling : List ℕ
  pub forwarded : List ℕ

unfoldable pub new_control : Sink → List ℕ → Control
new_control out bs = record {
  conn = new_conn out tunnel;
  incoming = bs;
  reading = true;
  dialling = [];
  forwarded = [];
}

-- What happens next: a round of the read loop, `Accept` in the loop of `connectAndServe`, the end of a
-- dial of `forward`, a tick of the keepalive, or the end of `ctx`.
pub data Event : Type 0 where
  arrives accepts : Bool → Event
  dials : ℕ → Bool → Event
  ticks cancelled : Event

unfoldable pub after_round : Control → Round × List ℕ → Control
after_round k (goes_on c, rest) = record k { conn = c; incoming = rest }
after_round k (returns c, rest) = record k { conn = c; incoming = rest; reading = false }
after_round k (blocks, rest) = k
after_round k (panics, rest) = k

unfoldable pub receive_from : Control → Bool → List ℕ → Control
receive_from k send [] = k
receive_from k send (b ∷ bs) = after_round k (read_round k.conn (b ∷ bs) send)

unfoldable pub receive_next : Control → Bool → Control
receive_next k send = if k.reading then receive_from k send k.incoming else k

-- A round of the loop at the end of `connectAndServe`: the error makes it return, and the deferred
-- `mux.Close` follows.
unfoldable pub accept_next : Control → Option (Conn × Outcome ℕ) → Control × Option ConnError
accept_next k none = (k, none)
accept_next k (some (c, done q)) = (record k { conn = c; dialling = q ∷ k.dialling }, none)
accept_next k (some (c, fails e)) = (record k { conn = close_conn c }, some e)

-- The end of `net.DialTimeout` in `forward`.
unfoldable pub dial_ends : Control → ℕ → Bool → Control
dial_ends k q dialled =
    if among q k.dialling
    then record k {
      conn = forward k.conn q dialled;
      dialling = without q k.dialling;
      forwarded = if dialled then q ∷ k.forwarded else k.forwarded;
    }
    else k

unfoldable pub event : Control → Event → Control × Option ConnError
event k (arrives send) = (receive_next k send, none)
event k (accepts first) = accept_next k (accept_stream k.conn first)
event k (dials q dialled) = (dial_ends k q dialled, none)
event k ticks = (record k { conn = (keepalive_tick k.conn).0 }, none)
event k cancelled = (record k { conn = close_conn k.conn }, none)

-- How `connectAndServe` ends; `serving` while it does not.
pub data Ended : Type 0 where
  not_dialled : Ended
  not_admitted : DialError → Ended
  broken : ConnError → Control → Ended
  serving : Control → Ended

unfoldable pub serve_events : Control → List Event → Ended
serve_events k [] = serving k
serve_events k (e ∷ es) =
    let (k', result) = event k e in
    elim result [ none ↦ serve_events k' es | some failure ↦ broken failure k' ]

unfoldable pub admitted : Sink × (List ℕ × Option DialError) → List Event → Ended
admitted (out, (rest, some e)) es = not_admitted e
admitted (out, (rest, none)) es = serve_events (new_control out rest) es

-- `connectAndServe`.
unfoldable pub connect_and_serve : Bool → List ℕ → Sink → List ℕ → List Event → Ended
connect_and_serve false token out bs es = not_dialled
connect_and_serve true token out bs es = admitted (authenticate_to token out bs) es
