-- ===== src/Mux/Delivery.antt =====
-- One stream from the `Write` of one end to the `Read`s of the other.
use valyrium.Mux.Line.{Line, Move, moves}
use valyrium.Mux.Write.{payloads, write_stream-encodes}
use valyrium.Mux.Transport.{Carries, moves-Carries}
use valyrium.Mux.Fifo.{held, join}
use valyrium.Mux.Chunks.{encode_data}
use valyrium.Base.{
  List, [], ap, drop, drop-append, false, get_elem?, length, some, ℕ, ◌++◌, ◌∙◌, ◌≡◌, ◌≢◌, ◌≤◌,
}
use valyrium.Wire.{IsUint32}
use valyrium.Mux.Conn.{Conn, Stream, stream}
use valyrium.Mux.Stream.{write_stream}

-- What a `Write` hands to the connection under its own.
abbrev pub sent_by : Conn → Stream → List ℕ → List ℕ
sent_by c s p = drop (length c.out.sent) (write_stream c s p).0.out.sent

pub sent_by-encode_data :
    (c : Conn) (s : Stream) (p : List ℕ)
    → s.id ≢ 0
    → s.closed ≡ false
    → c.closed ≡ false
    → length (encode_data s.id (payloads (length p) p)) ≤ c.out.room
    → sent_by c s p ≡ encode_data s.id (payloads (length p) p)
sent_by-encode_data c s p nz ready live room =
    ap (λ r. drop (length c.out.sent) r.0.out.sent)
      (write_stream-encodes c s p nz ready live room).0
    ∙ drop-append c.out.sent (encode_data s.id (payloads (length p) p))

-- One end writes `p` to a stream that is open at both ends and of which the other end holds nothing
-- yet. Whatever order the other end's read loop and reader move in, and however little the reader
-- takes at a time: what it has read, then what its stream holds, then the payloads of the frames
-- that are still on their way, are `p`: no byte is lost, repeated or out of order.
pub write_stream-moves :
    (r c : Conn) (w s : Stream) (q : ℕ) (p : List ℕ) (ms : List Move)
    → IsUint32 w.id
    → w.id ≢ 0
    → w.closed ≡ false
    → r.closed ≡ false
    → length (encode_data w.id (payloads (length p) p)) ≤ r.out.room
    → stream c w.id ≡ some q
    → get_elem? c.heap q ≡ some s
    → s.remote_closed ≡ false
    → s.closed ≡ false
    → c.closed ≡ false
    → held s ≡ []
    → let l = moves q (record { conn = c; incoming = sent_by r w p; received = [] }) ms in
      (s' : Stream) × (slices : List (List ℕ)) × (get_elem? l.conn.heap q ≡ some s')
      × (l.incoming ≡ encode_data w.id slices)
      × (l.received ++ (held s' ++ join slices) ≡ p)
write_stream-moves r c w s q p ms small nz ready live room found at unended unclosed connected
      empty =
    let slices = payloads (length p) p in
    let frames = write_stream-encodes r w p nz ready live room in
    let l : Line = record { conn = c; incoming = sent_by r w p; received = [] } in
    let v : Carries w.id q p l = record {
      pending = slices;
      here = s;
      fits = frames.2;
      on_the_way = sent_by-encode_data r w p nz ready live room;
      known_here = found;
      at = at;
      unended = unended;
      unclosed = unclosed;
      connected = connected;
      whole = ap (λ b. b ++ join slices) empty ∙ frames.1;
    } in
    let end = moves-Carries w.id q p small nz l ms v in
    (end.here, end.pending, end.at, end.on_the_way, end.whole)
