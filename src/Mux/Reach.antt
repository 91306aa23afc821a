-- ===== src/Mux/Reach.antt =====
-- A connection under every interleaving of its critical sections: what `Open`, `Accept`, `Read`,
-- `Write`, `Close`, `Keepalive` and the read loop are made of.
use valyrium.Base.{
  Bool, List, Option, Option-cases, [], ap, arith, false, get_elem?, if◌then◌else◌, inl, inr,
  length, lookup, none, not, refl, some, subst, true, ℕ, ◌%◌, ◌&&◌, ◌+◌, ◌^◌, ◌∷◌, ◌≡◌,
}
use valyrium.Wire.{Frame, Sink}
use valyrium.Mux.Conn.{
  Conn, ConnError, Outcome, Side, Stream, accept_from, accept_stream, allocate, close_with_err,
  conn_err, conn_write_frame, new_conn, open_stream, opened, remove_stream,
}
use valyrium.Mux.Stream.{
  Case, ReadResult, close_stream, end_of_stream, failed, mark_closed, on_closed, on_conn_closed,
  on_reads, read_buffered, read_channel, read_on, read_round, read_stream, waits,
}
use valyrium.Mux.ReadLoop.{goes_on, handle_frame, returns}
use valyrium.Mux.Valid.{IsValid, Keeps, modify-IsTable}
use valyrium.Mux.Step.{
  IsFine, add_stream-IsValid, close_with_err-IsValid, conn_write_frame-IsValid, handle_frame-IsFine,
  remove_stream-IsValid,
}

-- One critical section. A frame that is sent may be any: the OPEN of `Open`, a slice of `Write`, the
-- CLOSE of `Close`, or a PING.
pub data Step (c c' : Conn) : Type 0 where
  allocates : c' ≡ allocate c → Step c c'
  removes : (id : ℕ) → c' ≡ remove_stream c id → Step c c'
  sends : (f : Frame) → c' ≡ (conn_write_frame c f).0 → Step c c'
  accepts : (first : Bool) (r : Outcome ℕ) → accept_stream c first ≡ some (c', r) → Step c c'
  takes : (q n : ℕ) (choice : Case) → c' ≡ (read_on c q n choice).0 → Step c c'
  marks : (q : ℕ) → c' ≡ mark_closed c q → Step c c'
  closes : (e : ConnError) → c' ≡ close_with_err c e → Step c c'
  handles : (f : Frame) (send : Bool) → handle_frame c f send ≡ goes_on c' → Step c c'
  ends : (f : Frame) (send : Bool) → handle_frame c f send ≡ returns c' → Step c c'

pub data Reach (c : Conn) : Conn → Type 0 where
  start : Reach c c
  also : {d e : Conn} → Step d e → Reach c d → Reach c e

either-Reach {ℓ} :
    {A : Type ℓ} (b : Bool) (c : Conn) (x y : Conn × A)
    → Reach c x.0
    → Reach c y.0
    → Reach c (if b then x else y).0
either-Reach true c x y h k = h
either-Reach false c x y h k = k

opened-Reach :
    (c : Conn) (id q : ℕ) (r : Conn × Option ConnError) → Reach c r.0 → Reach c (opened id q r).0
unfolding opened
opened-Reach c id q (d, none) h = h
opened-Reach c id q (d, some e) h = also (removes id refl) h

open_stream-Reach : (c : Conn) → Reach c (open_stream c).0
unfolding open_stream
open_stream-Reach c =
    either-Reach c.closed c _ _ start (
      opened-Reach c c.next_id (length c.heap) _
        (also (sends _ refl) (also (allocates refl) start)))

close_stream-Reach : (c : Conn) (q : ℕ) → Reach c (close_stream c q).0
unfolding close_stream
close_stream-Reach c q = elim (Option-cases (get_elem? c.heap q)) [
  | inl e ↦ rw (e, close_stream) start
  | inr (s, e) ↦
      rw (e, close_stream)
        (either-Reach s.closed c _ _ start
          (also (sends _ refl) (also (removes s.id refl) (also (marks q refl) start))))
]

-- What `Read` leaves of a stream.
record KeepsEnd (s s' : Stream) : Type 0 where
  keeps : Keeps s s'
  same_end : s'.remote_closed ≡ s.remote_closed

unread : (s : Stream) → KeepsEnd s s
unread s = record { keeps = record { same_id = refl; buffered = λ h. h }; same_end = refl }

either-KeepsEnd :
    (b : Bool) (s : Stream) (x y : Stream × ReadResult)
    → KeepsEnd s x.0
    → KeepsEnd s y.0
    → KeepsEnd s (if b then x else y).0
either-KeepsEnd true s x y h k = h
either-KeepsEnd false s x y h k = k

read_channel-KeepsEnd :
    (s : Stream) (n : ℕ) (bs : List (List ℕ)) → s.reads ≡ bs → KeepsEnd s (read_channel s n bs).0
unfolding read_channel read_buffered
read_channel-KeepsEnd s n [] e =
    either-KeepsEnd s.remote_closed s (s, end_of_stream) (s, waits) (unread s) (unread s)
read_channel-KeepsEnd s n ([] ∷ bs) e = record {
  keeps = record { same_id = refl; buffered = λ h. omega (arith, h, ap length e) };
  same_end = refl;
}
read_channel-KeepsEnd s n ((x ∷ b) ∷ bs) e = record {
  keeps = record { same_id = refl; buffered = λ h. omega (arith, h, ap length e) };
  same_end = refl;
}

read_round-KeepsEnd :
    (c : Conn) (s : Stream) (n : ℕ) (choice : Case) (b : List ℕ)
    → KeepsEnd s (read_round c s n choice b).0
unfolding read_round read_buffered
read_round-KeepsEnd c s n choice (x ∷ b) = record {
  keeps = record { same_id = refl; buffered = λ h. h };
  same_end = refl;
}
read_round-KeepsEnd c s n on_reads [] = read_channel-KeepsEnd s n s.reads refl
read_round-KeepsEnd c s n on_closed [] =
    either-KeepsEnd s.closed s (s, end_of_stream) (s, waits) (unread s) (unread s)
read_round-KeepsEnd c s n on_conn_closed [] =
    either-KeepsEnd c.closed s (s, failed (conn_err c)) (s, waits) (unread s) (unread s)

read_on-IsValid :
    (c : Conn) (q n : ℕ) (choice : Case) → IsValid c → IsValid (read_on c q n choice).0
unfolding read_on read_stream
read_on-IsValid c q n choice v = elim (Option-cases (get_elem? c.heap q)) [
  | inl e ↦ rw (e, read_on) v
  | inr (s, e) ↦
      let s' = (read_round c s n choice s.rbuf).0 in
      let k : (t : Stream) → get_elem? c.heap q ≡ some t → KeepsEnd t s' = λ t at.
        subst (λ x. KeepsEnd x s') (ground arith) (read_round-KeepsEnd c s n choice s.rbuf) in
      rw (e, read_on)
        (record {
          table =
              modify-IsTable c.heap c.streams q (λ _. s') (λ t at. (k t at).keeps) v.table
                (λ t at. (k t at).same_end);
          queue = v.queue;
        })
]

abbrev AcceptsValid : Option (Conn × Outcome ℕ) → Type 0
AcceptsValid none = Unit {0}
AcceptsValid (some (c, r)) = IsValid c

either-AcceptsValid :
    (b : Bool) (x y : Option (Conn × Outcome ℕ))
    → AcceptsValid x
    → AcceptsValid y
    → AcceptsValid (if b then x else y)
either-AcceptsValid true x y h k = h
either-AcceptsValid false x y h k = k

accept_from-AcceptsValid :
    (c : Conn) (first : Bool) (ps : List ℕ)
    → c.accept ≡ ps
    → IsValid c
    → AcceptsValid (accept_from c first ps)
unfolding accept_from
accept_from-AcceptsValid c first [] e v = either-AcceptsValid c.closed _ none v tt
accept_from-AcceptsValid c first (p ∷ ps) e v =
    either-AcceptsValid (c.closed && not first) _ _ v
      (record { table = v.table; queue = omega (arith, v.queue, ap length e) })

accept_stream-IsValid :
    (c c' : Conn) (first : Bool) (r : Outcome ℕ)
    → accept_stream c first ≡ some (c', r)
    → IsValid c
    → IsValid c'
unfolding accept_stream
accept_stream-IsValid c c' first r h v =
    subst AcceptsValid h (accept_from-AcceptsValid c first c.accept refl v)

Step-IsValid : {c c' : Conn} → Step c c' → IsValid c → IsValid c'
unfolding allocate mark_closed
Step-IsValid {c} (allocates e) v = rw e (
    add_stream-IsValid (record c { next_id = (c.next_id + 2) % 2 ^ 32 }) c.next_id
      (record { table = v.table; queue = v.queue }))
Step-IsValid {c} (removes id e) v = rw e (remove_stream-IsValid c id v)
Step-IsValid {c} (sends f e) v = rw e (conn_write_frame-IsValid c f v)
Step-IsValid {c} (accepts first r e) v = accept_stream-IsValid c _ first r e v
Step-IsValid {c} (takes q n choice e) v = rw e (read_on-IsValid c q n choice v)
Step-IsValid {c} (marks q e) v = rw e (record {
  table =
      modify-IsTable c.heap c.streams q _ (λ s _. record { same_id = refl; buffered = λ h. h })
        v.table (λ s _. refl);
  queue = v.queue;
})
Step-IsValid {c} (closes e q) v = rw q (close_with_err-IsValid c e v)
Step-IsValid {c} (handles f send e) v = subst IsFine e (handle_frame-IsFine c f send v)
Step-IsValid {c} (ends f send e) v = subst IsFine e (handle_frame-IsFine c f send v)

Reach-IsValid : {c c' : Conn} → IsValid c → Reach c c' → IsValid c'
Reach-IsValid v start = v
Reach-IsValid v (also s r) = Step-IsValid s (Reach-IsValid v r)

new-IsValid : (raw : Sink) (side : Side) → IsValid (new_conn raw side)
unfolding new_conn lookup
new-IsValid raw side = record {
  table = record { live = λ id q e. cc; buffers = tt };
  queue = omega arith;
}

-- Whatever sequence of critical sections a new connection goes through, in whatever order, and
-- whatever frame comes in next: the read loop never sends on a channel that it closed, which would
-- panic; and afterwards each live id still leads to an open stream of that id, no stream holds
-- more than `streamBuffer` slices and no more than `acceptBuffer` streams wait.
pub Reach-handle_frame-IsFine :
    (raw : Sink) (side : Side) {c : Conn} (f : Frame) (send : Bool)
    → Reach (new_conn raw side) c
    → IsFine (handle_frame c f send)
Reach-handle_frame-IsFine raw side {c} f send r =
    handle_frame-IsFine c f send (Reach-IsValid (new-IsValid raw side) r)

-- `Open` and `Close` are runs of critical sections: what holds of every reachable connection holds
-- after them too, on each of their branches.
pub operations-Reach : (c : Conn) (q : ℕ) → Reach c (open_stream c).0 × Reach c (close_stream c q).0
operations-Reach c q = (open_stream-Reach c, close_stream-Reach c q)
