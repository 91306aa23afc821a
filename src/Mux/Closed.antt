-- ===== src/Mux/Closed.antt =====
-- A connection that is closed stays closed.
use valyrium.Base.{
  Bool, List, Option-cases, [], ap, arith, false, get_elem?, if◌then◌else◌, inl, inr, length, ltb,
  not, refl, some, subst, true, ℕ, ◌&&◌, ◌==◌, ◌||◌, ◌∙◌, ◌∷◌, ◌≡◌,
}
use valyrium.Wire.{
  Frame, frame_auth, frame_auth_ok, frame_close, frame_data, frame_open, frame_ping, validate,
}
use valyrium.Mux.Conn.{
  Conn, ConnError, Outcome, accept_buffer, accept_from, accept_stream, add_stream, allocate,
  close_frame, close_with_err, conn_write_frame, modify, remove_stream, reopened_live, stream,
  stream_buffer,
}
use valyrium.Mux.Stream.{Case, mark_closed, read_on}
use valyrium.Mux.ReadLoop.{
  Round, blocks, deliver, goes_on, handle_close, handle_data, handle_frame, handle_open, panics,
  push, returns,
}
use valyrium.Mux.Reach.{
  Step, accepts, allocates, closes, ends, handles, marks, removes, sends, takes,
}

conn_write_frame-closed : (c : Conn) (f : Frame) → c.closed ≡ true → (conn_write_frame c f).0 ≡ c
unfolding conn_write_frame
conn_write_frame-closed c f h = elim (Option-cases (validate f)) [
  | inl e ↦ rw (e, conn_write_frame) (ground (arith, h))
  | inr (x, e) ↦ rw (e, conn_write_frame) refl
]

close_with_err-closed :
    (c : Conn) (e : ConnError) → c.closed ≡ true → (close_with_err c e).closed ≡ true
unfolding close_with_err
close_with_err-closed c e h = ground (arith, h)

accept_from-closed :
    (c d : Conn) (first : Bool) (r : Outcome ℕ) (ps : List ℕ)
    → accept_from c first ps ≡ some (d, r)
    → c.closed ≡ true
    → d.closed ≡ true
unfolding accept_from
accept_from-closed c d first r [] e h = ground arith
accept_from-closed c d first r (p ∷ ps) e h = ground arith

-- What a round of the read loop leaves.
abbrev Closed : Round → Type 0
Closed (goes_on c) = c.closed ≡ true
Closed (returns c) = c.closed ≡ true
Closed blocks = Unit {0}
Closed panics = Unit {0}

either-Closed : (b : Bool) (x y : Round) → Closed x → Closed y → Closed (if b then x else y)
either-Closed true x y h k = h
either-Closed false x y h k = k

either-closed :
    (b : Bool) (x y : Conn) → x.closed ≡ true → y.closed ≡ true → (if b then x else y).closed ≡ true
either-closed true x y h k = h
either-closed false x y h k = k

written-closed : (c : Conn) (f : Frame) → c.closed ≡ true → (conn_write_frame c f).0.closed ≡ true
written-closed c f h = ap (λ d. d.closed) (conn_write_frame-closed c f h) ∙ h

deliver_cases :
    (empty ended room gone : Bool) (c d : Conn)
    → c.closed ≡ true
    → d.closed ≡ true
    → Closed (
        if empty
        then goes_on c
        else if ended
        then panics
        else if room
        then goes_on d
        else if gone
        then goes_on c
        else blocks)
deliver_cases true ended room gone c d h k = h
deliver_cases false true room gone c d h k = tt
deliver_cases false false true gone c d h k = k
deliver_cases false false false true c d h k = h
deliver_cases false false false false c d h k = tt

deliver-Closed :
    (c : Conn) (q : ℕ) (b : List ℕ) (send : Bool) → c.closed ≡ true → Closed (deliver c q b send)
unfolding deliver
deliver-Closed c q b send h = elim (Option-cases (get_elem? c.heap q)) [
  | inl e ↦ rw (e, deliver) h
  | inr (s, e) ↦
      rw (e, deliver)
        (deliver_cases (length b == 0) s.remote_closed
          (ltb (length s.reads) stream_buffer && (send || not (s.closed || c.closed)))
          (s.closed || c.closed) c (record c { heap = modify q (push b) c.heap }) h h)
]

handle_open-closed : (c : Conn) (id : ℕ) → c.closed ≡ true → (handle_open c id).closed ≡ true
unfolding handle_open
handle_open-closed c id h = elim (Option-cases (stream c id)) [
  | inr (q, e) ↦ rw (e, handle_open) (close_with_err-closed c (reopened_live id) h)
  | inl e ↦
      rw (e, handle_open)
        (unfold add_stream remove_stream in
          either-closed (ltb (length c.accept) accept_buffer) _ _ h
            (written-closed (remove_stream (add_stream c id) id) (close_frame id) h))
]

handle_close-closed : (c : Conn) (id : ℕ) → c.closed ≡ true → (handle_close c id).closed ≡ true
unfolding handle_close
handle_close-closed c id h = elim (Option-cases (stream c id)) [
  | inl e ↦ rw (e, handle_close) h
  | inr (q, e) ↦ rw (e, handle_close) (unfold remove_stream in h)
]

handle_data-Closed :
    (c : Conn) (id : ℕ) (b : List ℕ) (send : Bool)
    → c.closed ≡ true
    → Closed (handle_data c id b send)
unfolding handle_data
handle_data-Closed c id b send h = elim (Option-cases (stream c id)) [
  | inl e ↦ rw (e, handle_data) (written-closed c (close_frame id) h)
  | inr (q, e) ↦ rw (e, handle_data) (deliver-Closed c q b send h)
]

handle_frame-Closed :
    (c : Conn) (f : Frame) (send : Bool) → c.closed ≡ true → Closed (handle_frame c f send)
unfolding handle_frame
handle_frame-Closed c f send h =
    either-Closed (f.type == frame_open) _ _ (handle_open-closed c f.stream_id h) (
      either-Closed (f.type == frame_data) _ _ (handle_data-Closed c f.stream_id f.payload send h) (
        either-Closed (f.type == frame_close) _ _ (handle_close-closed c f.stream_id h) (
          either-Closed (f.type == frame_ping) _ _ (written-closed c _ h) (
            either-Closed (f.type == frame_auth || f.type == frame_auth_ok) _ _
              (close_with_err-closed c _ h) h))))

read_on-closed : (c : Conn) (q n : ℕ) (choice : Case) → (read_on c q n choice).0.closed ≡ c.closed
unfolding read_on
read_on-closed c q n choice = elim (Option-cases (get_elem? c.heap q)) [
  | inl e ↦ rw (e, read_on) refl
  | inr (s, e) ↦ rw (e, read_on) refl
]

-- No critical section opens a closed connection again.
pub Step-closed : (c d : Conn) → Step c d → c.closed ≡ true → d.closed ≡ true
unfolding allocate add_stream remove_stream mark_closed
Step-closed c d (allocates e) h = ap (λ x. x.closed) e ∙ h
Step-closed c d (removes id e) h = ap (λ x. x.closed) e ∙ h
Step-closed c d (sends f e) h = ap (λ x. x.closed) e ∙ written-closed c f h
Step-closed c d (accepts first r e) h =
    accept_from-closed c d first r c.accept (unfold accept_stream in e) h
Step-closed c d (takes q n choice e) h = ap (λ x. x.closed) e ∙ read_on-closed c q n choice ∙ h
Step-closed c d (marks q e) h = ap (λ x. x.closed) e ∙ h
Step-closed c d (closes x e) h = ap (λ x. x.closed) e ∙ close_with_err-closed c x h
Step-closed c d (handles f send e) h = subst Closed e (handle_frame-Closed c f send h)
Step-closed c d (ends f send e) h = subst Closed e (handle_frame-Closed c f send h)
