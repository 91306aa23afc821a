-- ===== src/Tunnel/Client.antt =====
-- internal/tunnel/tunnel.go: `Tunnel`. A duration is an int64 of
-- nanoseconds, by its bits.
use valyrium.Base.{
  Bool, List, Option, String, [], if◌then◌else◌, inl, inr, leb, length, ltb, none, not, some, ℕ,
  ◌%◌, ◌&&◌, ◌*◌, ◌==◌, ◌=t◌, ◌^◌, ◌||◌, ◌∷◌, ◌⊎◌,
}
use valyrium.Wire.{
  Frame, FrameType, Sink, WireError, err, frame_auth, frame_auth_ok, ok, read_frame, write_frame,
}
use valyrium.Mux.Conn.{Conn}
use valyrium.Mux.Stream.{close_stream}

abbrev pub second : ℕ
second = 1000000000

abbrev pub default_min_backoff : ℕ
default_min_backoff = 1 * second

abbrev pub default_max_backoff : ℕ
default_max_backoff = 30 * second

abbrev pub default_keep_alive : ℕ
default_keep_alive = 30 * second

pub record TunnelConfig : Type 0 where
  pub relay_addr : String
  pub token : List ℕ
  pub local_addr : String
  pub min_backoff : ℕ
  pub max_backoff : ℕ
  pub keep_alive : ℕ

pub data ConfigError : Type 0 where
  no_relay_addr no_token : ConfigError

-- `d < 0` and `d <= 0` of a duration.
unfoldable pub is_negative : ℕ → Bool
is_negative d = leb (2 ^ 63) d

unfoldable pub or_default_duration : ℕ → ℕ → ℕ
or_default_duration d fallback = if d == 0 || is_negative d then fallback else d

-- `NewTunnel`.
unfoldable pub new_tunnel : TunnelConfig → ConfigError ⊎ TunnelConfig
new_tunnel cfg =
    if cfg.relay_addr =t ""
    then inl no_relay_addr
    else if length cfg.token == 0
    then inl no_token
    else inr (record cfg {
      local_addr = if cfg.local_addr =t "" then "127.0.0.1:8787" else cfg.local_addr;
      min_backoff = or_default_duration cfg.min_backoff default_min_backoff;
      max_backoff = or_default_duration cfg.max_backoff default_max_backoff;
      keep_alive = or_default_duration cfg.keep_alive default_keep_alive;
    })

-- The backoff for the wait after a connection that lasted so long.
unfoldable pub this_wait : TunnelConfig → ℕ → ℕ → ℕ
this_wait cfg backoff lasted = if ltb cfg.max_backoff lasted then cfg.min_backoff else backoff

-- `if backoff *= 2; backoff > max`, where the greatest backoff is positive: the product wraps, and a
-- negative one is not greater.
unfoldable pub next_backoff : TunnelConfig → ℕ → ℕ
next_backoff cfg backoff =
    let doubled = backoff * 2 % 2 ^ 64 in
    if ltb cfg.max_backoff doubled && not (is_negative doubled) then cfg.max_backoff else doubled

-- The rounds of the loop of `Run`: how long each connection lasted, and the waits between them.
unfoldable pub run_from : TunnelConfig → ℕ → List ℕ → List ℕ
run_from cfg backoff [] = []
run_from cfg backoff (lasted ∷ rest) =
    let wait = this_wait cfg backoff lasted in wait ∷ run_from cfg (next_backoff cfg wait) rest

unfoldable pub run : TunnelConfig → List ℕ → List ℕ
run cfg lasted = run_from cfg cfg.min_backoff lasted

pub data DialError : Type 0 where
  sending : WireError → DialError
  rejected : WireError → DialError
  expected_auth_ok : FrameType → DialError

abbrev pub auth_frame : List ℕ → Frame
auth_frame token = record { type = frame_auth; stream_id = 0; payload = token }

-- The second half of `authenticateTo`: the relay's answer, and what follows it.
unfoldable pub await_auth_ok : List ℕ → List ℕ × Option DialError
await_auth_ok bs = elim (read_frame bs) [
  | err e ↦ (bs, some (rejected e))
  | ok (f, rest) ↦
      (rest, if not (f.type == frame_auth_ok) then some (expected_auth_ok f.type) else none)
]

unfoldable pub sent_auth : List ℕ → Sink × Option WireError → Sink × (List ℕ × Option DialError)
sent_auth bs (out, some e) = (out, (bs, some (sending e)))
sent_auth bs (out, none) = (out, await_auth_ok bs)

-- `authenticateTo`, with what the relay sends.
unfoldable pub authenticate_to : List ℕ → Sink → List ℕ → Sink × (List ℕ × Option DialError)
authenticate_to token out bs = sent_auth bs (write_frame out (auth_frame token))

-- `forward` where the local gateway cannot be dialled: the stream is closed.
unfoldable pub forward : Conn → ℕ → Bool → Conn
forward c q dialled = if dialled then c else (close_stream c q).0
