-- ===== src/Command/Start.antt =====
-- cmd/valyrium/main.go: what `runRelay` and `runTunnel` read from the environment. `bytes` is Go's
-- conversion of a text to its bytes, `user_cache_dir` the answer of `os.UserCacheDir`, and `join_path` is
-- `filepath.Join`.
use valyrium.Base.{Bool, List, Option, String, [], inl, inr, none, some, ℕ, ◌=t◌, ◌∷◌, ◌⊎◌}
use valyrium.Command.{Words, env_str}
use valyrium.Tunnel.Relay.{Relay, RelayConfig, new_relay}
use valyrium.Tunnel.Client.{ConfigError, TunnelConfig, new_tunnel}
use valyrium.Tunnel.Dial.{TlsConfig}

-- `defaultCertCacheDir`.
unfoldable pub default_cert_cache_dir : (List String → String) → Option String → String
default_cert_cache_dir join_path none = "valyrium-autocert"
default_cert_cache_dir join_path (some dir) = join_path (dir ∷ "valyrium" ∷ "autocert" ∷ [])

module _ (words : Words) (bytes : String → List ℕ) (getenv : String → String) where
  unfoldable pub relay_config : String → RelayConfig
  relay_config cert_cache_dir = record {
    domain = getenv "VALYRIUM_TUNNEL_DOMAIN";
    token = bytes (getenv "VALYRIUM_TUNNEL_TOKEN");
    cert_cache_dir = env_str words getenv "VALYRIUM_TUNNEL_CERT_CACHE_DIR" cert_cache_dir;
    addr = env_str words getenv "VALYRIUM_TUNNEL_LISTEN_ADDR" ":443";
    http_addr = env_str words getenv "VALYRIUM_TUNNEL_HTTP_ADDR" ":80";
  }

  -- `runRelay` up to the start of the listeners; none is the error of `NewRelay`.
  unfoldable pub run_relay : (List String → String) → Option String → Option Relay
  run_relay join_path user_cache_dir =
      new_relay (relay_config (default_cert_cache_dir join_path user_cache_dir))

  unfoldable pub tunnel_config : TunnelConfig
  tunnel_config = record {
    relay_addr = getenv "VALYRIUM_TUNNEL_RELAY_ADDR";
    token = bytes (getenv "VALYRIUM_TUNNEL_TOKEN");
    local_addr = env_str words getenv "VALYRIUM_TUNNEL_LOCAL_ADDR" "127.0.0.1:8787";
    min_backoff = 0;
    max_backoff = 0;
    keep_alive = 0;
  }

  unfoldable pub tunnel_tls : TlsConfig
  tunnel_tls = record {
    next_protos = [];
    min_version = 0;
    server_name = getenv "VALYRIUM_TUNNEL_DOMAIN";
  }

  -- `runTunnel` up to `Run`: the client, its `TLSConfig`, and whether it warns of an open gateway.
  unfoldable pub run_tunnel : ConfigError ⊎ (TunnelConfig × TlsConfig × Bool)
  run_tunnel = elim (new_tunnel tunnel_config) [
    | inl e ↦ inl e
    | inr cfg ↦ inr (cfg, tunnel_tls, getenv "CLAUDE_GATEWAY_API_KEY" =t "")
  ]
