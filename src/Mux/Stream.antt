-- ===== src/Mux/Stream.antt =====
-- internal/tunnel/mux.go: `Read`, `Write` and `Close` of a `Stream`.
use valyrium.Base.{
  List, Option, [], drop, false, get_elem?, if◌then◌else◌, length, none, some, suc, take, true,
  zero, ℕ, ◌+◌, ◌==◌, ◌∷◌,
}
use valyrium.Wire.{max_payload_size}
use valyrium.Mux.Conn.{
  Conn, ConnError, Stream, close_frame, conn_err, conn_write_frame, data_frame, modify, net_closed,
  remove_stream,
}

-- The cases of the select in `Read`.
pub data Case : Type 0 where
  on_reads on_closed on_conn_closed : Case

-- What a call of `Read` comes to: bytes, the end of the stream, an error, or no progress yet.
pub data ReadResult : Type 0 where
  bytes : List ℕ → ReadResult
  end_of_stream : ReadResult
  failed : ConnError → ReadResult
  waits : ReadResult

-- The bytes that are handed to a caller with room for `n`.
unfoldable pub read_buffered : Stream → ℕ → Stream × ReadResult
read_buffered s n = (record s { rbuf = drop n s.rbuf }, bytes (take n s.rbuf))

-- The case `b, ok := <-s.reads`, and the next round if it brought bytes; the last argument is what
-- the channel holds.
unfoldable pub read_channel : Stream → ℕ → List (List ℕ) → Stream × ReadResult
read_channel s n [] = if s.remote_closed then (s, end_of_stream) else (s, waits)
read_channel s n ([] ∷ bs) = (record s { reads = bs }, waits)
read_channel s n ((x ∷ b) ∷ bs) = read_buffered (record s { reads = bs; rbuf = x ∷ b }) n

-- A round of `Read` over the bytes left from the last slice. Of the cases that are ready Go takes
-- any: `choice` says which.
unfoldable pub read_round : Conn → Stream → ℕ → Case → List ℕ → Stream × ReadResult
read_round c s n choice (x ∷ b) = read_buffered s n
read_round c s n on_reads [] = read_channel s n s.reads
read_round c s n on_closed [] = if s.closed then (s, end_of_stream) else (s, waits)
read_round c s n on_conn_closed [] = if c.closed then (s, failed (conn_err c)) else (s, waits)

-- `Read` into a buffer of n bytes.
unfoldable pub read_stream : Conn → Stream → ℕ → Case → Stream × ReadResult
read_stream c s n choice = read_round c s n choice s.rbuf

-- The select at the head of a round of `Write`. Where both the stream and the connection are closed
-- Go may report either error; here it is the stream's.
unfoldable pub blocked : Conn → Stream → Option ConnError
blocked c s = if s.closed then some net_closed else if c.closed then some (conn_err c) else none

-- The slice that goes into the next frame, and what is left.
unfoldable pub next_chunk : List ℕ → List ℕ
next_chunk = take max_payload_size

unfoldable pub after_chunk : List ℕ → List ℕ
after_chunk = drop max_payload_size

-- `Write`: the rounds of its loop, each with one frame. The fuel bounds the rounds; the result is
-- the count of bytes written and the error.
unfoldable pub write_loop : ℕ → Conn → Stream → List ℕ → ℕ → Conn × (ℕ × Option ConnError)
write_loop zero c s p written = (c, (written, none))
write_loop (suc fuel) c s p written = elim (length p == 0) [
  | true ↦ (c, (written, none))
  | false ↦ elim (blocked c s) [
    | some failure ↦ (c, (written, some failure))
    | none ↦
        let (c', e) = conn_write_frame c (data_frame s.id (next_chunk p)) in
        elim e [
          | some failure ↦ (c', (written, some failure))
          | none ↦ write_loop fuel c' s (after_chunk p) (written + length (next_chunk p))
        ]
  ]
]

unfoldable pub write_stream : Conn → Stream → List ℕ → Conn × (ℕ × Option ConnError)
write_stream c s p = write_loop (length p) c s p 0

-- `Read` through a pointer.
unfoldable pub read_on : Conn → ℕ → ℕ → Case → Conn × ReadResult
read_on c q n choice = elim (get_elem? c.heap q) [
  | none ↦ (c, waits)
  | some s ↦
      let (s', result) = read_stream c s n choice in
      (record c { heap = modify q (λ _. s') c.heap }, result)
]

-- `close(s.closed)`.
unfoldable pub mark_closed : Conn → ℕ → Conn
mark_closed c q = record c { heap = modify q (λ s. record s { closed = true }) c.heap }

-- `Close` through a pointer. Only the first call does anything.
unfoldable pub close_stream : Conn → ℕ → Conn × Option ConnError
close_stream c q = elim (get_elem? c.heap q) [
  | none ↦ (c, none)
  | some s ↦
      if s.closed
      then (c, none)
      else conn_write_frame (remove_stream (mark_closed c q) s.id) (close_frame s.id)
]
