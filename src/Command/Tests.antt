-- ===== src/Command/Tests.antt =====
-- A CLI that is only in Homebrew's directory.
use valyrium.Base.{Bool, String, [], if◌then◌else◌, inr, none, refl, some, true, ◌=t◌, ◌∷◌, ◌≡◌}
use valyrium.Command.{Words, call, calls, commands, env_str, is_help_flag, is_version_flag, run}
use valyrium.Session.{member}
use valyrium.Command.Bin.{
  Runs, candidate_bin_dirs, probe, probed, resolve_claude_bin, resolve_claude_bin-Runs,
}
use valyrium.Prompt.Format.{contains}
use valyrium.Command.Start.{relay_config, run_relay, run_tunnel, tunnel_config, tunnel_tls}
use valyrium.Tunnel.Relay.{new_relay}
use valyrium.Tunnel.Client.{
  default_keep_alive, default_max_backoff, default_min_backoff, is_negative, new_tunnel,
  or_default_duration,
}

abbrev brewed : String → Bool
brewed path = path =t "/opt/homebrew/bin/claude"

claude-resolved :
    resolve_claude_bin brewed (λ bin. none) (some "/home/u") "claude"
    ≡ inr "/opt/homebrew/bin/claude"
unfolding resolve_claude_bin probed probe candidate_bin_dirs contains
claude-resolved = refl

resolve_claude_bin-Runs_example :
    Runs brewed
      (λ bin. none)
      "claude"
      (resolve_claude_bin brewed (λ bin. none) (some "/home/u") "claude")
resolve_claude_bin-Runs_example =
    resolve_claude_bin-Runs brewed (λ bin. none) (some "/home/u") "claude"

-- A flag that is not known goes to the gateway.
flag-run : run ("--port" ∷ []) commands ≡ calls "serve" ("--port" ∷ [])
unfolding run call is_version_flag is_help_flag member
flag-run = refl

-- An environment for the tunnel, without a key for the gateway.
abbrev tunnel_env : String → String
tunnel_env name =
    if name =t "VALYRIUM_TUNNEL_RELAY_ADDR"
    then "relay.example:443"
    else if name =t "VALYRIUM_TUNNEL_TOKEN"
    then "s3"
    else ""

-- The tunnel starts with its defaults, and warns.
run_tunnel-warns :
    (words : Words)
    → run_tunnel words (λ t. 115 ∷ 51 ∷ []) tunnel_env
      ≡ inr (
        record {
          relay_addr = "relay.example:443";
          token = 115 ∷ 51 ∷ [];
          local_addr = "127.0.0.1:8787";
          min_backoff = default_min_backoff;
          max_backoff = default_max_backoff;
          keep_alive = default_keep_alive;
        },
        record { next_protos = []; min_version = 0; server_name = "" },
        true,
      )
unfolding run_tunnel new_tunnel tunnel_config tunnel_tls env_str
    valyrium.Tunnel.Client.or_default_duration valyrium.Tunnel.Client.is_negative
run_tunnel-warns words = refl

-- Without a token the relay does not start.
run_relay-refuses : (words : Words) → run_relay words (λ t. []) tunnel_env (λ parts. "") none ≡ none
unfolding run_relay relay_config new_relay
run_relay-refuses words = refl
