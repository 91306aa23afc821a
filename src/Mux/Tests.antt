-- ===== src/Mux/Tests.antt =====
-- The theorems on a connection at small instances.
use valyrium.Mux.Pipe.{
  copy_to_a_ends, copy_to_b_ends, new_pipe, pipe, pipe_event, proceeds, returned, take_signal,
  tearing_down,
}
use valyrium.Base.{
  All, List, [], arith, false, get_elem?, lookup, none, refl, some, true, ℕ, ◌++◌, ◌∷◌, ◌≡◌,
}
use valyrium.Wire.{
  Sink, header, max_payload_size, parse_header, read_body, read_frame, read_full, read_payload,
  validate,
}
use valyrium.Wire.Read.{encode}
use valyrium.Mux.Conn.{
  Conn, Stream, allocate, conn_write_frame, data_frame, modify, new_conn, new_stream, open_frame,
  relay, stream,
}
use valyrium.Mux.Line.{Line, Move, arrives, move, moves, reads_up_to, receive}
use valyrium.Mux.Delivery.{sent_by, write_stream-moves}
use valyrium.Mux.Drain.{drain, write_stream-drain}
use valyrium.Mux.ReadLoop
use valyrium.Mux.Stream.{
  on_reads, read_buffered, read_channel, read_on, read_round, read_stream, write_stream,
}
use valyrium.Mux.ReadLoop.{deliver, handle_data, handle_frame, push}
use valyrium.Mux.Fifo.{held, join}
use valyrium.Mux.Chunks.{Fits, chunks, encode_data}
use valyrium.Mux.Write.{after, payloads, write_stream-encodes}
use valyrium.Mux.Step.{IsFine}
use valyrium.Mux.Reach.{Reach, Reach-handle_frame-IsFine, allocates, also, sends, start}

abbrev line : ℕ → Sink
line room = record { sent = []; room = room }

abbrev conn : Conn
conn = record {
  heap = [];
  streams = [];
  next_id = 1;
  accept = [];
  closed = false;
  err = none;
  out = line 100;
}

abbrev open_stream_3 : List (List ℕ) → Stream
open_stream_3 slices = record {
  id = 3;
  reads = slices;
  remote_closed = false;
  rbuf = [];
  closed = false;
}

write_stream-encodes_example :
    let p : List ℕ = 7 ∷ 8 ∷ [] in
    let slices = payloads 2 p in
    (write_stream conn (open_stream_3 []) p
      ≡ (record conn { out = after (line 100) (encode_data 3 slices) }, (2, none)))
    × (join slices ≡ p)
    × All (Fits max_payload_size) slices
unfolding encode_data chunks encode header
write_stream-encodes_example =
    write_stream-encodes conn (open_stream_3 []) (7 ∷ 8 ∷ []) (omega arith) refl refl (omega arith)

abbrev told : Conn
told = (conn_write_frame (allocate (new_conn (line 100) relay)) (open_frame 1)).0

told-Reach : Reach (new_conn (line 100) relay) told
told-Reach = also (sends (open_frame 1) refl) (also (allocates refl) start)

Reach-handle_frame-IsFine_example : IsFine (handle_frame told (data_frame 1 (7 ∷ [])) true)
Reach-handle_frame-IsFine_example =
    Reach-handle_frame-IsFine (line 100) relay (data_frame 1 (7 ∷ [])) true told-Reach

-- The other end, after the stream was opened.
abbrev other_end : Conn
other_end = record {
  heap = open_stream_3 [] ∷ [];
  streams = (3, 0) ∷ [];
  next_id = 2;
  accept = 0 ∷ [];
  closed = false;
  err = none;
  out = line 100;
}

abbrev two_moves : List Move
two_moves = arrives true ∷ reads_up_to 1 on_reads ∷ []

write_stream-moves_example :
    let p : List ℕ = 7 ∷ 8 ∷ [] in
    let w = open_stream_3 [] in
    let l =
      moves 0 (record { conn = other_end; incoming = sent_by conn w p; received = [] }) two_moves in
    (s' : Stream) × (slices : List (List ℕ)) × (get_elem? l.conn.heap 0 ≡ some s')
    × (l.incoming ≡ encode_data 3 slices)
    × (l.received ++ (held s' ++ join slices) ≡ p)
unfolding encode_data chunks encode header stream held lookup join
write_stream-moves_example =
    write_stream-moves conn other_end (open_stream_3 []) (open_stream_3 []) 0 (7 ∷ 8 ∷ []) two_moves
      (omega arith) (omega arith) refl refl (omega arith) refl refl refl refl refl refl

two_moves_read_one :
    (moves 0
      (record { conn = other_end; incoming = encode (data_frame 3 (7 ∷ 8 ∷ [])); received = [] })
      two_moves).received
    ≡ 7 ∷ []
unfolding moves move receive read_round read_frame handle_frame handle_data deliver stream read_on
    read_stream ReadLoop.read_round lookup read_channel read_buffered push encode header read_full
    parse_header read_body read_payload validate modify
two_moves_read_one = refl

write_stream-drain_example :
    let p : List ℕ = 7 ∷ 8 ∷ [] in
    let l : Line = record {
      conn = other_end;
      incoming = sent_by conn (open_stream_3 []) p;
      received = [];
    } in
    let l' = moves 0 l (drain (payloads 2 p)) in (l'.incoming ≡ []) × (l'.received ≡ p)
unfolding encode_data chunks encode header stream new_stream lookup
write_stream-drain_example =
    write_stream-drain conn other_end (open_stream_3 []) 0 (7 ∷ 8 ∷ []) (omega arith) (omega arith)
      refl refl (omega arith) refl refl refl

-- The reader hangs up: `pipe` closes both ends, and returns once the other copy noticed.
hung_up : (pipe new_pipe (copy_to_b_ends ∷ proceeds ∷ [])).phase ≡ tearing_down
unfolding pipe new_pipe pipe_event take_signal
hung_up = refl

hung_up-returned :
    (pipe new_pipe (copy_to_b_ends ∷ proceeds ∷ copy_to_a_ends ∷ proceeds ∷ [])).phase ≡ returned
unfolding pipe new_pipe pipe_event take_signal
hung_up-returned = refl
