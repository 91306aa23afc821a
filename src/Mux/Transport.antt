-- ===== src/Mux/Transport.antt =====
-- What the reader of a stream took, what the stream holds and what is on its way, move by move.
use valyrium.Mux.Line.{
  Line, Move, after_read, after_round, arrives, move, moves, reads_up_to, receive,
}
use valyrium.Mux.Fifo.{Owes, held, join, join-cons, read_stream-Owes}
use valyrium.Mux.Chunks.{Fits, data_frame-valid, encode_data, encode_data-cons}
use valyrium.Base.{
  ==_refl, All, Bool, Bool-cases, List, [], ap, append-nil, append_assoc, arith, false, get_elem?,
  if◌then◌else◌, inl, inr, length, ltb, refl, some, subst, sym, ℕ, ◌++◌, ◌<◌, ◌∙◌, ◌∷◌, ◌≡◌, ◌≢◌,
}
use valyrium.Wire.{IsUint32, header, max_payload_size}
use valyrium.Wire.Read.{IsFrame, encode, read_frame-encode}
use valyrium.Mux.Conn.{Conn, Stream, data_frame, modify, stream, stream_buffer}
use valyrium.Mux.ReadLoop.{blocks, deliver, goes_on, handle_data, handle_frame, push, read_round}
use valyrium.Mux.Stream
use valyrium.Mux.Stream.{
  Case, ReadResult, bytes, end_of_stream, failed, on_closed, on_conn_closed, on_reads,
  read_buffered, read_channel, read_on, read_stream, waits,
}
use valyrium.Mux.Valid.{get_elem?-modify}

-- What the reader took, then what its stream holds, then the frames on their way, make up `p`.
pub record Carries (id q : ℕ) (p : List ℕ) (l : Line) : Type 0 where
  pub pending : List (List ℕ)
  pub here : Stream
  pub fits : All (Fits max_payload_size) pending
  pub on_the_way : l.incoming ≡ encode_data id pending
  pub known_here : stream l.conn id ≡ some q
  pub at : get_elem? l.conn.heap q ≡ some here
  pub unended : here.remote_closed ≡ false
  pub unclosed : here.closed ≡ false
  pub connected : l.conn.closed ≡ false
  pub whole : l.received ++ (held here ++ join pending) ≡ p

-- `deliver` to an open stream: the slice goes to the end of what it holds, or the round blocks.
deliver_open :
    (c : Conn) (q : ℕ) (s : Stream) (b : List ℕ) (send : Bool)
    → get_elem? c.heap q ≡ some s
    → s.remote_closed ≡ false
    → s.closed ≡ false
    → c.closed ≡ false
    → 0 < length b
    → deliver c q b send ≡ (
        if ltb (length s.reads) stream_buffer
        then goes_on (record c { heap = modify q (push b) c.heap })
        else blocks)
unfolding deliver
deliver_open c q s b send at unended unclosed connected pos = ground arith

join-snoc : (bs : List (List ℕ)) (b : List ℕ) → join (bs ++ b ∷ []) ≡ join bs ++ b
unfolding join
join-snoc [] b = append-nil b
join-snoc (x ∷ bs) b = ap (◌++◌ x) (join-snoc bs b) ∙ sym (append_assoc x (join bs) b)

held-push : (b : List ℕ) (s : Stream) → held (push b s) ≡ held s ++ b
unfolding held push
held-push b s = ap (◌++◌ s.rbuf) (join-snoc s.reads b) ∙ sym (append_assoc s.rbuf (join s.reads) b)

-- The round of the read loop for a DATA frame.
read_round-data :
    (c : Conn) (id q : ℕ) (b rest : List ℕ) (send : Bool)
    → IsUint32 id
    → id ≢ 0
    → Fits max_payload_size b
    → stream c id ≡ some q
    → read_round c (encode (data_frame id b) ++ rest) send ≡ (deliver c q b send, rest)
unfolding read_round handle_frame handle_data
read_round-data c id q b rest send small nz fits found =
    let v : IsFrame (data_frame id b) = record {
      valid = data_frame-valid id b nz fits.1;
      id_fits = small;
    } in
    rw (read_frame-encode (data_frame id b) rest v, read_round) (rw (found, handle_data))

-- Neither end of a stream changes while it is read.
abbrev SameEnds : Stream → Stream → Type 0
SameEnds s s' = (s'.remote_closed ≡ s.remote_closed) × (s'.closed ≡ s.closed)

read_channel-SameEnds :
    (s : Stream) (n : ℕ) (bs : List (List ℕ)) → SameEnds s (read_channel s n bs).0
unfolding read_channel read_buffered
read_channel-SameEnds s n [] = ground arith
read_channel-SameEnds s n ([] ∷ bs) = ground arith
read_channel-SameEnds s n ((x ∷ b) ∷ bs) = ground arith

read_stream-SameEnds :
    (c : Conn) (s : Stream) (n : ℕ) (choice : Case) → SameEnds s (read_stream c s n choice).0
unfolding read_stream
read_stream-SameEnds c s n choice = go s.rbuf choice
  where
    go : (b : List ℕ) (choice : Case) → SameEnds s (Stream.read_round c s n choice b).0
    go (x ∷ b) choice = unfold Stream.read_round read_buffered in ground arith
    go [] on_reads = unfold Stream.read_round in read_channel-SameEnds s n s.reads
    go [] on_closed = unfold Stream.read_round in ground arith
    go [] on_conn_closed = unfold Stream.read_round in ground arith

receive-frame :
    (l : Line) (id : ℕ) (b rest : List ℕ) (send : Bool)
    → receive l send (encode (data_frame id b) ++ rest)
      ≡ after_round l (read_round l.conn (encode (data_frame id b) ++ rest) send)
unfolding receive encode header
receive-frame l id b rest send = refl

pub read_on-at :
    (c : Conn) (q n : ℕ) (choice : Case) (s : Stream)
    → get_elem? c.heap q ≡ some s
    → let r = read_stream c s n choice in
      read_on c q n choice ≡ (record c { heap = modify q (λ _. r.0) c.heap }, r.1)
unfolding read_on
read_on-at c q n choice s at = rw (at, read_on)

module _ (id q : ℕ) (p : List ℕ) (small : IsUint32 id) (nz : id ≢ 0) where
  -- A DATA frame that arrives is appended to what the stream holds, or stays on its way.
  pub receive-data :
      (l : Line) (s : Stream) (b rest : List ℕ) (send : Bool)
      → l.incoming ≡ encode (data_frame id b) ++ rest
      → Fits max_payload_size b
      → stream l.conn id ≡ some q
      → get_elem? l.conn.heap q ≡ some s
      → s.remote_closed ≡ false
      → s.closed ≡ false
      → l.conn.closed ≡ false
      → receive l send l.incoming ≡ (
          if ltb (length s.reads) stream_buffer
          then record l {
            conn = record l.conn { heap = modify q (push b) l.conn.heap };
            incoming = rest;
          }
          else l)
  receive-data l s b rest send e fits found at unended unclosed connected =
      ap (receive l send) e
      ∙ receive-frame l id b rest send
      ∙ ap (after_round l) (
          read_round-data l.conn id q b rest send small nz fits found
          ∙ ap (λ r. (r, rest))
              (deliver_open l.conn q s b send at unended unclosed connected fits.0))
      ∙ elim (Bool-cases (ltb (length s.reads) stream_buffer)) [
        | inl room ↦ rw room
        | inr full ↦ rw full
      ]

  pushed-Carries :
      (l : Line) (v : Carries id q p l) (b : List ℕ) (bs : List (List ℕ))
      → v.pending ≡ b ∷ bs
      → All (Fits max_payload_size) bs
      → Carries id q p (record l {
        conn = record l.conn { heap = modify q (push b) l.conn.heap };
        incoming = encode_data id bs;
      })
  pushed-Carries l v b bs e fits = record {
    pending = bs;
    here = push b v.here;
    fits = fits;
    on_the_way = refl;
    known_here = unfold stream in v.known_here;
    at = rw (get_elem?-modify q q (push b) l.conn.heap, v.at, ==_refl q);
    unended = unfold push in v.unended;
    unclosed = unfold push in v.unclosed;
    connected = v.connected;
    whole =
        ap (λ w. l.received ++ w)
          (ap (λ w. w ++ join bs) (held-push b v.here)
            ∙ append_assoc (held v.here) b (join bs)
            ∙ ap (λ w. held v.here ++ w) (sym (ap join e ∙ join-cons b bs)))
        ∙ v.whole;
  }

  receive-Carries :
      (l : Line) (send : Bool) → Carries id q p l → Carries id q p (receive l send l.incoming)
  receive-Carries l send v = go v.pending refl
    where
      go : (bs : List (List ℕ)) → v.pending ≡ bs → Carries id q p (receive l send l.incoming)
      go [] e =
          subst (λ w. Carries id q p (receive l send w))
            (sym (v.on_the_way ∙ ap (encode_data id) e)) (unfold receive encode_data in v)
      go (b ∷ bs) e =
          let all : All (Fits max_payload_size) (b ∷ bs) =
            subst (All (Fits max_payload_size)) e v.fits in
          let arrived =
            receive-data l v.here b (encode_data id bs) send
              (v.on_the_way ∙ ap (encode_data id) e ∙ encode_data-cons id b bs) all.0 v.known_here
              v.at v.unended v.unclosed v.connected in
          subst (Carries id q p) (sym arrived)
            (elim (Bool-cases (ltb (length v.here.reads) stream_buffer)) [
              | inl room ↦ rw room (pushed-Carries l v b bs e all.1)
              | inr full ↦ rw full v
            ])

  read-kept :
      (l : Line) (v : Carries id q p l) (s' : Stream) (taken : List ℕ)
      → SameEnds v.here s'
      → taken ++ (held s' ++ join v.pending) ≡ p
      → Carries id q p (record l {
        conn = record l.conn { heap = modify q (λ _. s') l.conn.heap };
        received = taken;
      })
  read-kept l v s' taken ends whole = record {
    pending = v.pending;
    here = s';
    fits = v.fits;
    on_the_way = v.on_the_way;
    known_here = unfold stream in v.known_here;
    at = rw (get_elem?-modify q q (λ _. s') l.conn.heap, v.at, ==_refl q);
    unended = ends.0 ∙ v.unended;
    unclosed = ends.1 ∙ v.unclosed;
    connected = v.connected;
    whole = whole;
  }

  after_read-Carries :
      (l : Line) (v : Carries id q p l) (s' : Stream) (result : ReadResult)
      → SameEnds v.here s'
      → Owes (held v.here) (held s') result
      → Carries id q p
          (after_read l (record l.conn { heap = modify q (λ _. s') l.conn.heap }, result))
  after_read-Carries l v s' (bytes b) ends owes = read-kept l v s' (l.received ++ b) ends (
      append_assoc l.received b (held s' ++ join v.pending)
      ∙ ap (λ w. l.received ++ w)
          (sym (append_assoc b (held s') (join v.pending))
            ∙ ap (λ w. w ++ join v.pending) (sym owes))
      ∙ v.whole)
  after_read-Carries l v s' end_of_stream ends owes =
      read-kept l v s' l.received ends
        (ap (λ w. l.received ++ (w ++ join v.pending)) (sym owes) ∙ v.whole)
  after_read-Carries l v s' (failed e) ends owes =
      read-kept l v s' l.received ends
        (ap (λ w. l.received ++ (w ++ join v.pending)) (sym owes) ∙ v.whole)
  after_read-Carries l v s' waits ends owes =
      read-kept l v s' l.received ends
        (ap (λ w. l.received ++ (w ++ join v.pending)) (sym owes) ∙ v.whole)

  move-Carries : (l : Line) (m : Move) → Carries id q p l → Carries id q p (move q l m)
  unfolding move
  move-Carries l (arrives send) v = receive-Carries l send v
  move-Carries l (reads_up_to n choice) v =
      let r = read_stream l.conn v.here n choice in
      subst (λ x. Carries id q p (after_read l x)) (sym (read_on-at l.conn q n choice v.here v.at))
        (after_read-Carries l v r.0 r.1 (read_stream-SameEnds l.conn v.here n choice)
          (read_stream-Owes l.conn v.here n choice))

  pub moves-Carries : (l : Line) (ms : List Move) → Carries id q p l → Carries id q p (moves q l ms)
  unfolding moves
  moves-Carries l [] v = v
  moves-Carries l (m ∷ ms) v = moves-Carries (move q l m) ms (move-Carries l m v)
