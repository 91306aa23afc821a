-- ===== src/Tunnel/Tests.antt =====
-- The theorems on the tunnel at small instances.
use valyrium.Base.{All, List, [], arith, false, length, none, refl, some, ℕ, ◌++◌, ◌∷◌, ◌≡◌}
use valyrium.Tunnel.Client.{
  TunnelConfig, auth_frame, is_negative, new_tunnel, next_backoff, or_default_duration, run,
  run_from, this_wait,
}
use valyrium.Tunnel.Backoff.{Between, run-Between}
use valyrium.Wire.{
  Sink, header, parse_header, read_body, read_frame, read_full, read_payload, validate, write,
  write_frame, write_payload,
}
use valyrium.Wire.Read.{encode}
use valyrium.Mux.Conn.{Conn, new_conn, relay}
use valyrium.Tunnel.Relay.{
  Relay, RelayConfig, admit, authenticate, check_auth, new_relay, same_bytes, serve_tunnel_client,
  written,
}
use valyrium.Tunnel.Serving.{Serving, join, shut, unavailable_body}
use valyrium.Tunnel.Single.{Accounted, Reaches, also, fresh_relay, joins, new_relay-Reaches, start}
use valyrium.Tunnel.Admission.{serve_tunnel_client-encode}
use Prim.Native.String.{len}

abbrev line : ℕ → Sink
line room = record { sent = []; room = room }

abbrev secret : List ℕ
secret = 115 ∷ 51 ∷ []

abbrev mux : Conn
mux = record {
  heap = [];
  streams = [];
  next_id = 1;
  accept = [];
  closed = false;
  err = none;
  out = line 100;
}

abbrev two_clients : Relay
two_clients = record {
  cfg = record {
    domain = "";
    token = secret;
    cert_cache_dir = "";
    addr = ":443";
    http_addr = ":80";
  };
  muxes = mux ∷ mux ∷ [];
  tun = some 0;
  closed = false;
}

abbrev config : TunnelConfig
config = record {
  relay_addr = "relay:443";
  token = secret;
  local_addr = "127.0.0.1:8787";
  min_backoff = 1;
  max_backoff = 5;
  keep_alive = 30;
}

run-config : run config (0 ∷ 0 ∷ 0 ∷ 0 ∷ 9 ∷ 0 ∷ []) ≡ 1 ∷ 2 ∷ 4 ∷ 5 ∷ 1 ∷ 2 ∷ []
unfolding run run_from this_wait next_backoff is_negative
run-config = refl

run-Between_example : All (Between 1 5) (run config (0 ∷ 9 ∷ 0 ∷ []))
unfolding new_tunnel or_default_duration is_negative
run-Between_example = run-Between config config (0 ∷ 9 ∷ 0 ∷ []) refl (omega arith) (omega arith)

-- With the least backoff above the greatest, the first wait is the longest.
run-reversed : run (record config { min_backoff = 60 }) (0 ∷ 0 ∷ 9 ∷ []) ≡ 60 ∷ 5 ∷ 60 ∷ []
unfolding run run_from this_wait next_backoff is_negative
run-reversed = refl

abbrev relay_config : RelayConfig
relay_config = record {
  domain = "";
  token = secret;
  cert_cache_dir = "";
  addr = ":443";
  http_addr = ":80";
}

abbrev host : Relay
host = record { cfg = relay_config; muxes = []; tun = none; closed = false }

abbrev hello : List ℕ
hello = 0 ∷ 0 ∷ 0 ∷ 2 ∷ 6 ∷ 0 ∷ 0 ∷ 0 ∷ 0 ∷ 115 ∷ 51 ∷ []

abbrev greeted : Sink
greeted = record { sent = 0 ∷ 0 ∷ 0 ∷ 0 ∷ 7 ∷ 0 ∷ 0 ∷ 0 ∷ 0 ∷ []; room = 91 }

hello_passes : authenticate secret hello (line 100) ≡ ([], (greeted, none))
unfolding authenticate check_auth same_bytes written read_frame read_full parse_header read_body
    read_payload validate write_frame write write_payload header
hello_passes = refl

-- Two clients come, one after the other.
abbrev both : Serving
both = join (join (fresh_relay host) greeted) greeted

both-Reaches : Reaches (fresh_relay host) both
unfolding join
both-Reaches =
    also (joins hello [] (line 100) greeted hello_passes refl)
      (also (joins hello [] (line 100) greeted hello_passes refl) start)

new_relay-Reaches_example : Accounted both 0 (new_conn greeted relay)
unfolding new_relay join
new_relay-Reaches_example =
    new_relay-Reaches relay_config host both 0 (new_conn greeted relay) refl both-Reaches refl

serve_tunnel_client-encode_example :
    (rest : List ℕ) × (hello ≡ encode (auth_frame secret) ++ rest)
    × (length host.muxes ≡ 0)
    × ((serve_tunnel_client host hello (line 100)).0.tun ≡ some 0)
unfolding serve_tunnel_client admit authenticate check_auth same_bytes written read_frame read_full
    parse_header read_body read_payload validate write_frame write write_payload header
serve_tunnel_client-encode_example =
    serve_tunnel_client-encode host hello (line 100) 0 (omega arith) refl

-- A client that authenticates while `Close` runs is registered all the same, and stays.
late_client : (join (shut (fresh_relay host)) greeted).host.tun ≡ some 0
unfolding join shut
late_client = refl

unavailable_length : len unavailable_body ≡ 95
unavailable_length = refl
