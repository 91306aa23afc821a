-- ===== src/Mux/Drain.antt =====
-- A reader that keeps up with the read loop.
use valyrium.Mux.Line.{Line, Move, after_read, arrives, move, moves, reads_up_to, receive}
use valyrium.Mux.Transport.{read_on-at, receive-data}
use valyrium.Mux.Write.{payloads, write_stream-encodes}
use valyrium.Mux.Delivery.{sent_by, sent_by-encode_data}
use valyrium.Mux.Chunks.{Fits, encode_data, encode_data-cons}
use valyrium.Mux.Fifo.{join, join-cons}
use valyrium.Base.{
  ==_refl, All, List, [], ap, append-nil, append_assoc, arith, drop, false, get_elem?, length,
  length-drop, refl, some, subst, sym, take_all, true, ℕ, ◌++◌, ◌∙◌, ◌∷◌, ◌≡◌, ◌≢◌, ◌≤◌,
}
use valyrium.Wire.{IsUint32, max_payload_size}
use valyrium.Wire.Read.{encode}
use valyrium.Mux.Conn.{Conn, Stream, data_frame, modify, new_stream, stream}
use valyrium.Mux.ReadLoop.{push, read_round}
use valyrium.Mux.Stream
use valyrium.Mux.Stream.{bytes, on_reads, read_buffered, read_channel, read_on, read_stream}
use valyrium.Mux.Valid.{get_elem?-modify}

-- For each slice a round of the read loop, and a `Read` into a buffer of a frame's size.
unfoldable pub drain : List (List ℕ) → List Move
drain [] = []
drain (b ∷ bs) = arrives true ∷ reads_up_to max_payload_size on_reads ∷ drain bs

drop_all : (n : ℕ) (b : List ℕ) → length b ≤ n → drop n b ≡ []
drop_all n b h = length-nil (drop n b) (omega (arith, length-drop n b))
  where
    length-nil : (xs : List ℕ) → length xs ≡ 0 → xs ≡ []
    length-nil [] e = refl
    length-nil (x ∷ xs) e = absurd (omega arith)

-- A `Read` of a new stream that was given one slice takes all of it.
read_stream-push :
    (c : Conn) (id : ℕ) (b : List ℕ)
    → Fits max_payload_size b
    → read_stream c (push b (new_stream id)) max_payload_size on_reads ≡ (new_stream id, bytes b)
unfolding read_stream push new_stream Stream.read_round read_channel read_buffered
read_stream-push c id [] fits = absurd (omega arith)
read_stream-push c id (x ∷ b) fits =
    unfold read_round read_channel read_buffered in
    λ i. (
      record {
        id = id;
        reads = [];
        remote_closed = false;
        rbuf = drop_all max_payload_size (x ∷ b) fits.1 i;
        closed = false;
      },
      bytes (take_all max_payload_size (x ∷ b) fits.1 i),
    )

module _ (id q : ℕ) (small : IsUint32 id) (nz : id ≢ 0) where
  -- A slice that arrives at a new stream and is read.
  round_trip :
      (l : Line) (b rest : List ℕ)
      → l.incoming ≡ encode (data_frame id b) ++ rest
      → Fits max_payload_size b
      → stream l.conn id ≡ some q
      → get_elem? l.conn.heap q ≡ some (new_stream id)
      → l.conn.closed ≡ false
      → (heap : List Stream) × (get_elem? heap q ≡ some (new_stream id))
        × (move q (move q l (arrives true)) (reads_up_to max_payload_size on_reads) ≡ record {
          conn = record l.conn { heap = heap };
          incoming = rest;
          received = l.received ++ b;
        })
  unfolding move
  round_trip l b rest e fits found at connected =
      let s = new_stream id in
      let pushed = modify q (push b) l.conn.heap in
      let there : get_elem? pushed q ≡ some (push b s) =
        rw (get_elem?-modify q q (push b) l.conn.heap, at, ==_refl q) in
      let arrived : receive l true l.incoming
          ≡ record l { conn = record l.conn { heap = pushed }; incoming = rest } =
        unfold new_stream in
        receive-data id q [] small nz l (new_stream id) b rest true e fits found at refl refl
          connected in
      let l' : Line = record l { conn = record l.conn { heap = pushed }; incoming = rest } in
      (
        modify q (λ _. s) pushed,
        rw (get_elem?-modify q q (λ _. s) pushed, there, ==_refl q),
        ap (λ k. after_read k (read_on k.conn q max_payload_size on_reads)) arrived
            ∙ ap (after_read l') (
                read_on-at l'.conn q max_payload_size on_reads (push b s) there
                ∙ ap (λ r. (record l'.conn { heap = modify q (λ _. r.0) pushed }, r.1))
                    (read_stream-push l'.conn id b fits)),
      )

  drain-All :
      (slices : List (List ℕ)) (l : Line)
      → l.incoming ≡ encode_data id slices
      → All (Fits max_payload_size) slices
      → stream l.conn id ≡ some q
      → get_elem? l.conn.heap q ≡ some (new_stream id)
      → l.conn.closed ≡ false
      → let l' = moves q l (drain slices) in
        (l'.incoming ≡ []) × (l'.received ≡ l.received ++ join slices)
  unfolding moves drain
  drain-All [] l e fits found at connected =
      (e ∙ (unfold encode_data in refl), sym (unfold join in append-nil l.received))
  drain-All (b ∷ bs) l e fits found at connected =
      let (heap, at', moved) =
        round_trip l b (encode_data id bs) (e ∙ encode_data-cons id b bs) fits.0 found at
          connected in
      let l' : Line = record {
        conn = record l.conn { heap = heap };
        incoming = encode_data id bs;
        received = l.received ++ b;
      } in
      let rest = drain-All bs l' refl fits.1 (unfold stream in found) at' connected in
      subst
        (λ k.
          ((moves q k (drain bs)).incoming ≡ [])
          × ((moves q k (drain bs)).received ≡ l.received ++ join (b ∷ bs)))
        (sym moved)
        (
          rest.0,
          rest.1
              ∙ append_assoc l.received b (join bs)
              ∙ ap (λ w. l.received ++ w) (sym (join-cons b bs)),
        )

-- The same `Write` to a stream that was just opened, and a reader that calls `Read` after each frame:
-- all of `p` is read, and nothing is left on its way.
pub write_stream-drain :
    (r c : Conn) (w : Stream) (q : ℕ) (p : List ℕ)
    → IsUint32 w.id
    → w.id ≢ 0
    → w.closed ≡ false
    → r.closed ≡ false
    → length (encode_data w.id (payloads (length p) p)) ≤ r.out.room
    → stream c w.id ≡ some q
    → get_elem? c.heap q ≡ some (new_stream w.id)
    → c.closed ≡ false
    → let l : Line = record { conn = c; incoming = sent_by r w p; received = [] } in
      let l' = moves q l (drain (payloads (length p) p)) in (l'.incoming ≡ []) × (l'.received ≡ p)
write_stream-drain r c w q p small nz ready live room found at connected =
    let frames = write_stream-encodes r w p nz ready live room in
    let l : Line = record { conn = c; incoming = sent_by r w p; received = [] } in
    let end =
      drain-All w.id q small nz (payloads (length p) p) l
        (sent_by-encode_data r w p nz ready live room) frames.2 found at connected in
    (end.0, end.1 ∙ frames.1)
