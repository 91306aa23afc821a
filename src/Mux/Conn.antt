-- ===== src/Mux/Conn.antt =====
-- internal/tunnel/mux.go: the state of `Conn` and its streams, and what opens, accepts, writes and
-- closes. A stream is known by its pointer, an index of `heap`; `streams` maps the ids of the live
-- ones. `out` is what the connection under it accepts: `bufio.Writer` with the `Flush` after each
-- frame hands the frame's bytes on, and its error is the error of that connection.
use valyrium.Base.{
  Bool, List, Option, [], delete, false, if◌then◌else◌, insert, length, lookup, none, not,
  number_key, some, suc, true, zero, ℕ, ◌%◌, ◌&&◌, ◌++◌, ◌+◌, ◌^◌, ◌∷◌,
}
use valyrium.Wire.{
  Frame, FrameType, Sink, WireError, frame_close, frame_data, frame_open, frame_ping, validate,
  write_frame,
}

abbrev pub stream_buffer : ℕ
stream_buffer = 16

abbrev pub accept_buffer : ℕ
accept_buffer = 64

pub data Side : Type 0 where
  relay tunnel : Side

-- `net.ErrClosed`, an error of the codec, and the two of this part.
pub data ConnError : Type 0 where
  net_closed : ConnError
  wire : WireError → ConnError
  reopened_live : ℕ → ConnError
  unexpected_frame : FrameType → ConnError

-- `reads` is the channel of that name, oldest slice first; `remote_closed` says it was closed.
pub record Stream : Type 0 where
  pub id : ℕ
  pub reads : List (List ℕ)
  pub remote_closed : Bool
  pub rbuf : List ℕ
  pub closed : Bool

pub record Conn : Type 0 where
  pub heap : List Stream
  pub streams : List (ℕ × ℕ)
  pub next_id : ℕ
  pub accept : List ℕ
  pub closed : Bool
  pub err : Option ConnError
  pub out : Sink

unfoldable pub new_conn : Sink → Side → Conn
new_conn raw side = record {
  heap = [];
  streams = [];
  next_id = (elim side [ relay ↦ 1 | tunnel ↦ 2 ]);
  accept = [];
  closed = false;
  err = none;
  out = raw;
}

unfoldable pub new_stream : ℕ → Stream
new_stream id = record { id = id; reads = []; remote_closed = false; rbuf = []; closed = false }

-- `Err`.
unfoldable pub conn_err : Conn → ConnError
conn_err c = elim c.err [ none ↦ net_closed | some e ↦ e ]

unfoldable pub close_with_err : Conn → ConnError → Conn
close_with_err c e =
    if c.closed
    then c
    else record c { err = (elim c.err [ none ↦ some e | some e' ↦ some e' ]); closed = true }

-- `Close`.
unfoldable pub close_conn : Conn → Conn
close_conn c = close_with_err c net_closed

-- The two error checks of `writeFrame` after the frame went to the connection.
unfoldable pub after_write : Conn → Sink × Option WireError → Conn × Option ConnError
after_write c (out, none) = (record c { out = out }, none)
after_write c (out, some e) = (close_with_err (record c { out = out }) (wire e), some (wire e))

-- `writeFrame`; `none` is the nil error.
unfoldable pub conn_write_frame : Conn → Frame → Conn × Option ConnError
conn_write_frame c f = elim (validate f) [
  | some e ↦ (c, some (wire e))
  | none ↦ if c.closed then (c, some (conn_err c)) else after_write c (write_frame c.out f)
]

unfoldable pub stream : Conn → ℕ → Option ℕ
stream c id = lookup id c.streams

unfoldable pub remove_stream : Conn → ℕ → Conn
remove_stream c id = record c { streams = delete id c.streams }

abbrev pub open_frame : ℕ → Frame
open_frame id = record { type = frame_open; stream_id = id; payload = [] }

abbrev pub close_frame : ℕ → Frame
close_frame id = record { type = frame_close; stream_id = id; payload = [] }

abbrev pub data_frame : ℕ → List ℕ → Frame
data_frame id payload = record { type = frame_data; stream_id = id; payload = payload }

-- A new stream under an id: what `Open` and `handleOpen` do with `c.mu` held.
unfoldable pub add_stream : Conn → ℕ → Conn
add_stream c id = record c {
  heap = c.heap ++ new_stream id ∷ [];
  streams = insert id (length c.heap) c.streams;
}

-- A Go result with an error.
pub data Outcome {ℓ} (A : Type ℓ) : Type ℓ where
  done : A → Outcome A
  fails : ConnError → Outcome A

-- The end of `Open`: without its OPEN frame the stream is dropped again.
unfoldable pub opened : ℕ → ℕ → Conn × Option ConnError → Conn × Outcome ℕ
opened id q (c, none) = (c, done q)
opened id q (c, some e) = (remove_stream c id, fails e)

-- What `Open` does with `c.mu` held: ids are uint32 and wrap.
unfoldable pub allocate : Conn → Conn
allocate c = add_stream (record c { next_id = (c.next_id + 2) % 2 ^ 32 }) c.next_id

-- `Open`.
unfoldable pub open_stream : Conn → Conn × Outcome ℕ
open_stream c =
    if c.closed
    then (c, fails (conn_err c))
    else opened c.next_id (length c.heap) (conn_write_frame (allocate c) (open_frame c.next_id))

-- `Accept`: with a stream waiting and the connection closed, Go's select takes either case, which
-- `first` says; `none` while it waits.
unfoldable pub accept_from : Conn → Bool → List ℕ → Option (Conn × Outcome ℕ)
accept_from c first [] = if c.closed then some (c, fails (conn_err c)) else none
accept_from c first (p ∷ ps) =
    if c.closed && not first
    then some (c, fails (conn_err c))
    else some (record c { accept = ps }, done p)

unfoldable pub accept_stream : Conn → Bool → Option (Conn × Outcome ℕ)
accept_stream c first = accept_from c first c.accept

-- One tick of `Keepalive`; the answer says whether it goes on.
unfoldable pub keepalive_tick : Conn → Conn × Bool
keepalive_tick c =
    let (c', e) = conn_write_frame c (record { type = frame_ping; stream_id = 0; payload = [] }) in
    (c', elim e [ none ↦ true | some _ ↦ false ])

-- Writes to the stream behind a pointer.
unfoldable pub modify : ℕ → (Stream → Stream) → List Stream → List Stream
modify i f [] = []
modify zero f (s ∷ ss) = f s ∷ ss
modify (suc i) f (s ∷ ss) = s ∷ modify i f ss
