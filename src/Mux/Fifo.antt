-- ===== src/Mux/Fifo.antt =====
-- What `Read` hands out is what was delivered, in order.
use valyrium.Base.{
  Bool-cases, List, [], ap, append_assoc, ap₂, drop, inl, inr, refl, sym, take, take-append-drop, ℕ,
  ◌++◌, ◌∙◌, ◌∷◌, ◌≡◌,
}
use valyrium.Mux.Conn.{Conn, Stream}
use valyrium.Mux.Stream.{
  Case, ReadResult, bytes, end_of_stream, failed, on_closed, on_conn_closed, on_reads,
  read_buffered, read_channel, read_round, read_stream, waits,
}

unfoldable pub join : List (List ℕ) → List ℕ
join [] = []
join (b ∷ bs) = b ++ join bs

pub join-cons : (b : List ℕ) (bs : List (List ℕ)) → join (b ∷ bs) ≡ b ++ join bs
unfolding join
join-cons b bs = refl

-- The bytes that a stream still holds for its reader.
unfoldable pub held : Stream → List ℕ
held s = s.rbuf ++ join s.reads

-- What a result of `Read` owes its caller, with the bytes held before and after.
abbrev pub Owes : List ℕ → List ℕ → ReadResult → Type 0
Owes before after (bytes b) = before ≡ b ++ after
Owes before after end_of_stream = before ≡ after
Owes before after (failed e) = before ≡ after
Owes before after waits = before ≡ after

read_buffered-Owes :
    (s : Stream) (n : ℕ) → Owes (held s) (held (read_buffered s n).0) (read_buffered s n).1
unfolding read_buffered held
read_buffered-Owes s n =
    ap (λ (b : List ℕ). b ++ join s.reads) (sym (take-append-drop n s.rbuf))
    ∙ append_assoc (take n s.rbuf) (drop n s.rbuf) (join s.reads)

read_channel-Owes :
    (s : Stream) (n : ℕ) (bs : List (List ℕ))
    → s.reads ≡ bs
    → s.rbuf ≡ []
    → Owes (held s) (held (read_channel s n bs).0) (read_channel s n bs).1
unfolding read_channel read_buffered
read_channel-Owes s n [] e r = elim (Bool-cases s.remote_closed) [
  | inl ended ↦ rw ended refl
  | inr more ↦ rw more refl
]
read_channel-Owes s n ([] ∷ bs) e r = unfold held join in ap₂ (λ b l. b ++ join l) refl e
read_channel-Owes s n ((x ∷ b) ∷ bs) e r =
    unfold held join in
    ap₂ (λ b l. b ++ join l) r e ∙ read_buffered-Owes (record s { reads = bs; rbuf = x ∷ b }) n

read_round-Owes :
    (c : Conn) (s : Stream) (n : ℕ) (choice : Case) (b : List ℕ)
    → s.rbuf ≡ b
    → Owes (held s) (held (read_round c s n choice b).0) (read_round c s n choice b).1
unfolding read_round
read_round-Owes c s n choice (x ∷ b) e = read_buffered-Owes s n
read_round-Owes c s n on_reads [] e = read_channel-Owes s n s.reads refl e
read_round-Owes c s n on_closed [] e = elim (Bool-cases s.closed) [
  | inl ended ↦ rw ended refl
  | inr more ↦ rw more refl
]
read_round-Owes c s n on_conn_closed [] e = elim (Bool-cases c.closed) [
  | inl ended ↦ rw ended refl
  | inr more ↦ rw more refl
]

-- Whatever case `Read` takes: the bytes that it returns are the next ones of the stream, and
-- together with what the stream holds afterwards they are what it held; without bytes it takes
-- none.
pub read_stream-Owes :
    (c : Conn) (s : Stream) (n : ℕ) (choice : Case)
    → Owes (held s) (held (read_stream c s n choice).0) (read_stream c s n choice).1
unfolding read_stream
read_stream-Owes c s n choice = read_round-Owes c s n choice s.rbuf refl
