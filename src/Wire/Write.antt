-- ===== src/Wire/Write.antt =====
-- What `WriteFrame` leaves behind in its writer, the writer's failures included.
use valyrium.Base.{
  Bool-cases, List, Option, Option-cases, [], ap, append-nil, append_assoc, arith, if◌then◌else◌,
  inl, inr, leb, leb→le, length, length-append, none, refl, some, subst, suc-ne-zero, sym, take,
  take-append_ge, take-append_le, take-min, take_all, ℕ, ◌++◌, ◌-◌, ◌∙◌, ◌∷◌, ◌≡◌, ◌≤◌,
}
use valyrium.Wire.{
  Frame, Sink, WireError, header, validate, write, write_failed, write_frame, write_payload,
}
use valyrium.Wire.Read.{encode}

-- What the writer has after accepting as much of `bs` as it does.
abbrev pub Accepts : Sink → List ℕ → Sink × Option WireError → Type 0
Accepts w bs (w', e) =
    (w'.sent ≡ w.sent ++ take w.room bs)
    × (w'.room ≡ w.room - length bs)
    × (e ≡ (if leb (length bs) w.room then none else some write_failed))

write-Accepts : (w : Sink) (bs : List ℕ) → Accepts w bs (write w bs)
unfolding write
write-Accepts w bs = (ap (◌++◌ w.sent) (take-min w.room bs), refl, refl)

sent_twice :
    (w : Sink) (xs ys : List ℕ)
    → length xs ≤ w.room
    → (w.sent ++ take w.room xs) ++ take (w.room - length xs) ys ≡ w.sent ++ take w.room (xs ++ ys)
sent_twice w xs ys h =
    rw (append_assoc, take_all w.room xs h)
      (ap (◌++◌ w.sent) (
        sym (take-append_ge (w.room - length xs) xs ys)
        ∙ ap (λ (k : ℕ). take k (xs ++ ys)) (omega arith)))

-- Two writes, the second only after a successful first and only of a non-empty slice.
write_payload-Accepts :
    (w : Sink) (xs ys : List ℕ) → Accepts w (xs ++ ys) (write_payload ys (write w xs))
unfolding write_payload write
write_payload-Accepts w xs [] = rw append-nil (elim (Bool-cases (leb (length xs) w.room)) [
  | inl fits ↦ rw fits (ap (◌++◌ w.sent) (take-min w.room xs), refl, refl)
  | inr full ↦ rw full (ap (◌++◌ w.sent) (take-min w.room xs), refl, refl)
])
write_payload-Accepts w xs (y ∷ ys) = elim (Bool-cases (leb (length xs) w.room)) [
  | inl fits ↦
      rw (fits, suc-ne-zero (length ys))
        (
          rw (take-min w.room xs, take-min (w.room - length xs) (y ∷ ys))
              (sent_twice w xs (y ∷ ys) (leb→le _ _ fits)),
          ground (arith, length-append xs (y ∷ ys)),
          ground (arith, length-append xs (y ∷ ys), leb→le (length xs) w.room fits),
        )
  | inr full ↦ rw full (
    ap (◌++◌ w.sent) (take-min w.room xs ∙ sym (take-append_le w.room xs (y ∷ ys) (ground arith))),
    ground (arith, length-append xs (y ∷ ys)),
    ground (arith, length-append xs (y ∷ ys)),
  )
]

pub write_frame-Accepts :
    (w : Sink) (f : Frame) → validate f ≡ none → Accepts w (encode f) (write_frame w f)
unfolding write_frame encode
write_frame-Accepts w f v = rw (v, write_frame) (write_payload-Accepts w (header f) f.payload)

write_frame-invalid :
    (w : Sink) (f : Frame) (e : WireError) → validate f ≡ some e → write_frame w f ≡ (w, some e)
unfolding write_frame
write_frame-invalid w f e v = rw (v, write_frame)

-- What `write_frame` does, by the answer of `validate`.
abbrev pub Written : Sink → Frame → Option WireError → Type 0
Written w f none = Accepts w (encode f) (write_frame w f)
Written w f (some e) = write_frame w f ≡ (w, some e)

-- `WriteFrame` on any writer and any frame: of a frame that `validate` lets through the writer gets
-- the encoding, as much of it as it accepts, and the error is nil exactly if it accepted all; of
-- any other frame it gets nothing, and the error is that of `validate`.
pub write_frame-Written : (w : Sink) (f : Frame) → Written w f (validate f)
write_frame-Written w f = elim (Option-cases (validate f)) [
  | inl v ↦ subst (Written w f) (sym v) (write_frame-Accepts w f v)
  | inr (e, v) ↦ subst (Written w f) (sym v) (write_frame-invalid w f e v)
]
