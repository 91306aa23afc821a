-- ===== src/Mux/ReadLoop.antt =====
-- internal/tunnel/mux.go: `readLoop`, `handleOpen`, `deliver` and `remoteClosed`.
use valyrium.Base.{
  Bool, List, [], get_elem?, if◌then◌else◌, length, ltb, none, not, some, true, ℕ, ◌&&◌, ◌++◌, ◌==◌,
  ◌||◌, ◌∷◌,
}
use valyrium.Wire.{
  Frame, err, frame_auth, frame_auth_ok, frame_close, frame_data, frame_open, frame_ping,
  frame_pong, ok, read_frame,
}
use valyrium.Mux.Conn.{
  Conn, Stream, accept_buffer, add_stream, close_frame, close_with_err, conn_write_frame, modify,
  remove_stream, reopened_live, stream, stream_buffer, unexpected_frame, wire,
}

-- A round of the loop: it goes on, it returns, or it waits for the reader of a stream. `panics` is
-- Go's panic on a send to a closed channel.
pub data Round : Type 0 where
  goes_on : Conn → Round
  returns : Conn → Round
  blocks : Round
  panics : Round

unfoldable pub push : List ℕ → Stream → Stream
push b s = record s { reads = s.reads ++ b ∷ [] }

-- `deliver`: with room in the channel and the stream or connection closed, Go's select takes any
-- of these cases; `send` says whether it sends.
unfoldable pub deliver : Conn → ℕ → List ℕ → Bool → Round
deliver c q b send = elim (get_elem? c.heap q) [
  | none ↦ goes_on c
  | some s ↦
      if length b == 0
      then goes_on c
      else if s.remote_closed
      then panics
      else if ltb (length s.reads) stream_buffer && (send || not (s.closed || c.closed))
      then goes_on (record c { heap = modify q (push b) c.heap })
      else if s.closed || c.closed
      then goes_on c
      else blocks
]

-- `handleOpen`: a stream that nobody can accept is refused.
unfoldable pub handle_open : Conn → ℕ → Conn
handle_open c id = elim (stream c id) [
  | some q ↦ close_with_err c (reopened_live id)
  | none ↦
      let c' = add_stream c id in
      if ltb (length c.accept) accept_buffer
      then record c' { accept = c.accept ++ length c.heap ∷ [] }
      else (conn_write_frame (remove_stream c' id) (close_frame id)).0
]

unfoldable pub handle_data : Conn → ℕ → List ℕ → Bool → Round
handle_data c id payload send = elim (stream c id) [
  | none ↦ goes_on (conn_write_frame c (close_frame id)).0
  | some q ↦ deliver c q payload send
]

-- `remoteClosed` and the removal from the map.
unfoldable pub handle_close : Conn → ℕ → Conn
handle_close c id = elim (stream c id) [
  | none ↦ c
  | some q ↦
      remove_stream (record c { heap = modify q (λ s. record s { remote_closed = true }) c.heap })
        id
]

-- The switch of `readLoop`.
unfoldable pub handle_frame : Conn → Frame → Bool → Round
handle_frame c f send =
    if f.type == frame_open
    then goes_on (handle_open c f.stream_id)
    else if f.type == frame_data
    then handle_data c f.stream_id f.payload send
    else if f.type == frame_close
    then goes_on (handle_close c f.stream_id)
    else if f.type == frame_ping
    then goes_on (conn_write_frame c (record { type = frame_pong; stream_id = 0; payload = [] })).0
    else if f.type == frame_auth || f.type == frame_auth_ok
    then returns (close_with_err c (unexpected_frame f.type))
    else goes_on c

-- One round of `readLoop` on the bytes that come in, and what is left of them.
unfoldable pub read_round : Conn → List ℕ → Bool → Round × List ℕ
read_round c bs send = elim (read_frame bs) [
  | err e ↦ (returns (close_with_err c (wire e)), bs)
  | ok (f, rest) ↦ (handle_frame c f send, rest)
]
