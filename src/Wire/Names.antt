-- ===== src/Wire/Names.antt =====
-- internal/tunnel/mux.go: `FrameType.String`.
use valyrium.Base.{String, if◌then◌else◌, ℕ, ◌+t◌, ◌==◌}
use valyrium.Wire.{
  FrameType, frame_auth, frame_auth_ok, frame_close, frame_data, frame_open, frame_ping, frame_pong,
}

-- The name of a frame type, given the decimal form of a number.
unfoldable pub frame_type_name : (ℕ → String) → FrameType → String
frame_type_name decimal t =
    if t == frame_open
    then "OPEN"
    else if t == frame_data
    then "DATA"
    else if t == frame_close
    then "CLOSE"
    else if t == frame_ping
    then "PING"
    else if t == frame_pong
    then "PONG"
    else if t == frame_auth
    then "AUTH"
    else if t == frame_auth_ok
    then "AUTH_OK"
    else "UNKNOWN(" +t (decimal t +t ")")
