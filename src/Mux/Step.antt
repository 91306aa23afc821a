-- ===== src/Mux/Step.antt =====
-- A connection under every interleaving of its critical sections.
use valyrium.Base.{
  Bool, Bool-cases, List, Option, Option-cases, [], arith, false, get_elem?, if◌then◌else◌, inl,
  inr, length, length-append, ltb, none, not, refl, some, true, ℕ, ◌&&◌, ◌==◌, ◌||◌, ◌∷◌, ◌≡◌,
}
use valyrium.Wire.{
  Frame, Sink, WireError, frame_auth, frame_auth_ok, frame_close, frame_data, frame_open,
  frame_ping, validate, write_frame,
}
use valyrium.Mux.Conn.{
  Conn, ConnError, Stream, accept_buffer, add_stream, after_write, close_frame, close_with_err,
  conn_err, conn_write_frame, modify, remove_stream, reopened_live, stream, stream_buffer, wire,
}
use valyrium.Mux.ReadLoop.{
  Round, blocks, deliver, goes_on, handle_close, handle_data, handle_frame, handle_open, panics,
  push, returns,
}
use valyrium.Mux.Valid.{IsValid, add-IsTable, delete-IsTable, ended-IsTable, modify-IsTable}

either-IsValid : (b : Bool) (x y : Conn) → IsValid x → IsValid y → IsValid (if b then x else y)
either-IsValid true x y h k = h
either-IsValid false x y h k = k

either_pair-IsValid :
    (b : Bool) (x y : Conn × Option ConnError)
    → IsValid x.0
    → IsValid y.0
    → IsValid (if b then x else y).0
either_pair-IsValid true x y h k = h
either_pair-IsValid false x y h k = k

pub close_with_err-IsValid : (c : Conn) (e : ConnError) → IsValid c → IsValid (close_with_err c e)
unfolding close_with_err
close_with_err-IsValid c e v =
    either-IsValid c.closed c _ v (record { table = v.table; queue = v.queue })

after_write-IsValid :
    (c : Conn) (r : Sink × Option WireError) → IsValid c → IsValid (after_write c r).0
unfolding after_write
after_write-IsValid c (w, none) v = record { table = v.table; queue = v.queue }
after_write-IsValid c (w, some e) v =
    close_with_err-IsValid (record c { out = w }) (wire e)
      (record { table = v.table; queue = v.queue })

pub conn_write_frame-IsValid : (c : Conn) (f : Frame) → IsValid c → IsValid (conn_write_frame c f).0
unfolding conn_write_frame
conn_write_frame-IsValid c f v = elim (Option-cases (validate f)) [
  | inr (e, bad) ↦ rw (bad, conn_write_frame) v
  | inl good ↦
      rw (good, conn_write_frame)
        (either_pair-IsValid c.closed (c, some (conn_err c)) (after_write c (write_frame c.out f)) v
          (after_write-IsValid c (write_frame c.out f) v))
]

pub remove_stream-IsValid : (c : Conn) (id : ℕ) → IsValid c → IsValid (remove_stream c id)
unfolding remove_stream
remove_stream-IsValid c id v = record {
  table = delete-IsTable c.heap c.streams id v.table;
  queue = v.queue;
}

pub add_stream-IsValid : (c : Conn) (id : ℕ) → IsValid c → IsValid (add_stream c id)
unfolding add_stream
add_stream-IsValid c id v = record {
  table = add-IsTable c.heap c.streams id v.table;
  queue = v.queue;
}

-- A round of the read loop that does not panic, and leaves a valid connection.
abbrev pub IsFine : Round → Type 0
IsFine (goes_on c) = IsValid c
IsFine (returns c) = IsValid c
IsFine blocks = Unit {0}
IsFine panics = ⊥

deliver_cases :
    (empty room gone : Bool) (c c' : Conn)
    → IsValid c
    → (room ≡ true → IsValid c')
    → IsFine (
        if empty
        then goes_on c
        else if room
        then goes_on c'
        else if gone
        then goes_on c
        else blocks)
deliver_cases true room gone c c' v w = v
deliver_cases false true gone c c' v w = w refl
deliver_cases false false true c c' v w = v
deliver_cases false false false c c' v w = tt

deliver-IsFine :
    (c : Conn) (q : ℕ) (b : List ℕ) (send : Bool) (s : Stream)
    → get_elem? c.heap q ≡ some s
    → s.remote_closed ≡ false
    → IsValid c
    → IsFine (deliver c q b send)
unfolding deliver
deliver-IsFine c q b send s at still v =
    rw (at, still, deliver)
      (deliver_cases (length b == 0)
        (ltb (length s.reads) stream_buffer && (send || not (s.closed || c.closed)))
        (s.closed || c.closed) c (record c { heap = modify q (push b) c.heap }) v
        (λ room. record {
          table =
              modify-IsTable c.heap c.streams q (push b)
                (λ t e. record {
                  same_id = unfold push in refl;
                  buffered = λ _.
                      unfold push in ground (arith, room, at, e, length-append t.reads (b ∷ []));
                })
                v.table (λ t e. unfold push in refl);
          queue = v.queue;
        }))

handle_open-IsValid : (c : Conn) (id : ℕ) → IsValid c → IsValid (handle_open c id)
unfolding handle_open
handle_open-IsValid c id v = elim (Option-cases (stream c id)) [
  | inr (q, e) ↦ rw (e, handle_open) (close_with_err-IsValid c (reopened_live id) v)
  | inl e ↦
      let added = add_stream-IsValid c id v in
      elim (Bool-cases (ltb (length c.accept) accept_buffer)) [
        | inl room ↦
            rw (e, room, handle_open)
              (record {
                table = added.table;
                queue = ground (arith, room, length-append c.accept (length c.heap ∷ []));
              })
        | inr full ↦
            rw (e, full, handle_open)
              (conn_write_frame-IsValid (remove_stream (add_stream c id) id) (close_frame id)
                (remove_stream-IsValid (add_stream c id) id added))
      ]
]

handle_close-IsValid : (c : Conn) (id : ℕ) → IsValid c → IsValid (handle_close c id)
unfolding handle_close
handle_close-IsValid c id v = elim (Option-cases (stream c id)) [
  | inl e ↦ rw (e, handle_close) v
  | inr (q, e) ↦
      rw (e, handle_close)
        (unfold remove_stream in
          record {
            table =
                ended-IsTable c.heap c.streams q (λ s. record s { remote_closed = true })
                  (λ s _. record { same_id = refl; buffered = λ h. h }) v.table id
                  (unfold stream in e);
            queue = v.queue;
          })
]

handle_data-IsFine :
    (c : Conn) (id : ℕ) (b : List ℕ) (send : Bool) → IsValid c → IsFine (handle_data c id b send)
unfolding handle_data
handle_data-IsFine c id b send v = elim (Option-cases (stream c id)) [
  | inl e ↦ rw (e, handle_data) (conn_write_frame-IsValid c (close_frame id) v)
  | inr (q, e) ↦
      let (s, at, i, still) = v.table.live id q (unfold stream in e) in
      rw (e, handle_data) (deliver-IsFine c q b send s at still v)
]

either-IsFine : (b : Bool) (x y : Round) → IsFine x → IsFine y → IsFine (if b then x else y)
either-IsFine true x y h k = h
either-IsFine false x y h k = k

-- A round of the read loop on a frame that came in, whatever its type, id and payload.
pub handle_frame-IsFine :
    (c : Conn) (f : Frame) (send : Bool) → IsValid c → IsFine (handle_frame c f send)
unfolding handle_frame
handle_frame-IsFine c f send v =
    either-IsFine (f.type == frame_open) _ _ (handle_open-IsValid c f.stream_id v) (
      either-IsFine (f.type == frame_data) _ _ (handle_data-IsFine c f.stream_id f.payload send v) (
        either-IsFine (f.type == frame_close) _ _ (handle_close-IsValid c f.stream_id v) (
          either-IsFine (f.type == frame_ping) _ _ (conn_write_frame-IsValid c _ v) (
            either-IsFine (f.type == frame_auth || f.type == frame_auth_ok) _ _
              (close_with_err-IsValid c _ v) v))))
