-- ===== src/Mux/Write.antt =====
-- `Write` on a connection that accepts all: the frames, the counts and the end of the loop.
use valyrium.Base.{
  All, List, [], ap, append-nil, append_assoc, arith, false, length, length-append, length-drop,
  length-take, none, refl, suc, suc-ne-zero, sym, take_all, zero, ℕ, ◌++◌, ◌+◌, ◌-◌, ◌<◌, ◌∙◌, ◌∷◌,
  ◌≡◌, ◌≢◌, ◌≤◌,
}
use valyrium.Wire.{Frame, Sink, max_payload_size, validate, write_frame}
use valyrium.Wire.Read.{encode}
use valyrium.Wire.Write.{write_frame-Accepts}
use valyrium.Mux.Conn.{Conn, Stream, after_write, conn_write_frame, data_frame}
use valyrium.Mux.Stream.{after_chunk, blocked, next_chunk, write_loop, write_stream}
use valyrium.Mux.Fifo.{join}
use valyrium.Mux.Chunks.{
  Fits, chunks, chunks-Fits, chunks_nil, chunks_step, data_frame-valid, encode_data,
  encode_data-cons, join-chunks,
}

-- A writer after it accepted all of `bs`.
abbrev pub after : Sink → List ℕ → Sink
after w bs = record { sent = w.sent ++ bs; room = w.room - length bs }

pub write_frame-after :
    (w : Sink) (f : Frame)
    → validate f ≡ none
    → length (encode f) ≤ w.room
    → write_frame w f ≡ (after w (encode f), none)
write_frame-after w f v h =
    let accepts = write_frame-Accepts w f v in ground (arith, accepts, take_all w.room (encode f) h)

pub conn_write_frame-after :
    (c : Conn) (f : Frame)
    → validate f ≡ none
    → c.closed ≡ false
    → length (encode f) ≤ c.out.room
    → conn_write_frame c f ≡ (record c { out = after c.out (encode f) }, none)
unfolding conn_write_frame after_write
conn_write_frame-after c f v live h = ground (arith, v, live, write_frame-after c.out f v h)

-- One round of `Write`.
write_loop_step :
    (fuel : ℕ) (c c' : Conn) (s : Stream) (x : ℕ) (p : List ℕ) (written : ℕ)
    → blocked c s ≡ none
    → conn_write_frame c (data_frame s.id (next_chunk (x ∷ p))) ≡ (c', none)
    → write_loop (suc fuel) c s (x ∷ p) written
      ≡ write_loop fuel c' s (after_chunk (x ∷ p)) (written + length (next_chunk (x ∷ p)))
unfolding write_loop
write_loop_step fuel c c' s x p written free e =
    rw (suc-ne-zero (length p), write_loop, free, e) (rw e)

-- The payloads of the frames of a `Write`.
abbrev pub payloads : ℕ → List ℕ → List (List ℕ)
payloads = chunks max_payload_size

payloads_step :
    (fuel x : ℕ) (p : List ℕ)
    → payloads (suc fuel) (x ∷ p) ≡ next_chunk (x ∷ p) ∷ payloads fuel (after_chunk (x ∷ p))
unfolding next_chunk after_chunk
payloads_step fuel x p = chunks_step max_payload_size fuel x p

after-after : (w : Sink) (xs ys : List ℕ) → after (after w xs) ys ≡ after w (xs ++ ys)
after-after w xs ys = ground (arith, append_assoc w.sent xs ys, length-append xs ys)

blocked-none : (c : Conn) (s : Stream) → s.closed ≡ false → c.closed ≡ false → blocked c s ≡ none
unfolding blocked
blocked-none c s ready live = ground arith

length-next_chunk :
    (p : List ℕ)
    → (length (next_chunk p) ≤ max_payload_size)
      × (length (next_chunk p) + length (after_chunk p) ≡ length p)
unfolding next_chunk after_chunk
length-next_chunk p = omega (arith, length-take max_payload_size p, length-drop max_payload_size p)

write_loop_nil :
    (fuel : ℕ) (c : Conn) (s : Stream) (written : ℕ)
    → write_loop fuel c s [] written ≡ (c, (written, none))
unfolding write_loop
write_loop_nil zero c s written = refl
write_loop_nil (suc fuel) c s written = refl

after_nil : (w : Sink) (id fuel : ℕ) → after w (encode_data id (payloads fuel [])) ≡ w
unfolding encode_data
after_nil w id fuel = rw chunks_nil (ground (arith, append-nil w.sent))

module _ (s : Stream) (fuel x : ℕ) (p : List ℕ) where
  abbrev first : List ℕ
  first = encode (data_frame s.id (next_chunk (x ∷ p)))

  abbrev others : List ℕ
  others = encode_data s.id (payloads fuel (after_chunk (x ∷ p)))

  encode_data_step : encode_data s.id (payloads (suc fuel) (x ∷ p)) ≡ first ++ others
  encode_data_step = ap (encode_data s.id) (payloads_step fuel x p) ∙ encode_data-cons s.id _ _

  length_step :
      length (encode_data s.id (payloads (suc fuel) (x ∷ p))) ≡ length first + length others
  length_step = ap length encode_data_step ∙ length-append first others

  after_step :
      (w : Sink)
      → after (after w first) others ≡ after w (encode_data s.id (payloads (suc fuel) (x ∷ p)))
  after_step w = after-after w first others ∙ ap (after w) (sym encode_data_step)

write_loop-encodes :
    (fuel : ℕ) (c : Conn) (s : Stream) (p : List ℕ) (written : ℕ)
    → length p ≤ fuel
    → s.id ≢ 0
    → s.closed ≡ false
    → c.closed ≡ false
    → length (encode_data s.id (payloads fuel p)) ≤ c.out.room
    → write_loop fuel c s p written ≡ (
      record c { out = after c.out (encode_data s.id (payloads fuel p)) },
      (written + length p, none),
    )
write_loop-encodes fuel c s [] written h nz ready live room =
    write_loop_nil fuel c s written ∙ (λ i. (
      record c { out = sym (after_nil c.out s.id fuel) i },
      ((let e : written ≡ written + 0 = omega arith in e) i, none),
    ))
write_loop-encodes zero c s (x ∷ p) written h nz ready live room = absurd (omega arith)
write_loop-encodes (suc fuel) c s (x ∷ p) written h nz ready live room =
    let q = x ∷ p in
    let f : Frame = data_frame s.id (next_chunk q) in
    let c' : Conn = record c { out = after c.out (encode f) } in
    let split = length_step s fuel x p in
    let (fits, parts) = length-next_chunk q in
    let progress : 0 < length (next_chunk q) = unfold next_chunk in omega arith in
    let valid = data_frame-valid s.id (next_chunk q) nz fits in
    let sent = conn_write_frame-after c f valid live (omega (arith, room, split)) in
    write_loop_step fuel c c' s x p written (blocked-none c s ready live) sent
    ∙ write_loop-encodes fuel c' s (after_chunk q) (written + length (next_chunk q))
        (omega (arith, h, parts, progress)) nz ready live (omega (arith, room, split))
    ∙ (λ i. (
      record c { out = after_step s fuel x p c.out i },
      (
        (let e : written + length (next_chunk q) + length (after_chunk q) ≡ written + length q =
                omega (arith, parts) in
              e)
            i,
        none,
      ),
    ))

-- `Write` on a live stream of an open connection that accepts the bytes: the loop ends, all of `p`
-- is written, as DATA frames of this stream that are neither empty nor over the limit and carry
-- `p` in order, and nothing else of the connection changes.
pub write_stream-encodes :
    (c : Conn) (s : Stream) (p : List ℕ)
    → s.id ≢ 0
    → s.closed ≡ false
    → c.closed ≡ false
    → length (encode_data s.id (payloads (length p) p)) ≤ c.out.room
    → let slices = payloads (length p) p in
      (write_stream c s p
        ≡ (record c { out = after c.out (encode_data s.id slices) }, (length p, none)))
      × (join slices ≡ p)
      × All (Fits max_payload_size) slices
unfolding write_stream
write_stream-encodes c s p nz ready live room = (
  write_loop-encodes (length p) c s p 0 (omega arith) nz ready live room ∙ (λ i. (
    record c { out = after c.out (encode_data s.id (payloads (length p) p)) },
    ((let e : 0 + length p ≡ length p = omega arith in e) i, none),
  )),
  join-chunks max_payload_size (length p) p (omega arith) (omega arith),
  chunks-Fits max_payload_size (length p) p (omega arith),
)
