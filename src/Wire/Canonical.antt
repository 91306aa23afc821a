-- ===== src/Wire/Canonical.antt =====
-- What `ReadFrame` accepts, and how it refuses the rest.
use valyrium.Base.{
  All, List, [], append_assoc, ap₂, arith, length, length-take, none, refl, subst, sym,
  take-append-drop, ℕ, ◌++◌, ◌∙◌, ◌∷◌, ◌≡◌,
}
use valyrium.Wire.Bytes.{IsByte, IsUint32, put_uint32, put_uint32-uint32_of}
use valyrium.Wire.{
  Frame, Header, Result, err, frame_header_size, header, ok, parse_header, read_body, read_frame,
  read_full, read_payload, validate, ◌>>=◌,
}
use valyrium.Wire.Read.{IsFrame, encode}

-- What went before, where two steps end well.
first_step :
    (step : Result (List ℕ × List ℕ)) (k : List ℕ × List ℕ → Result (Frame × List ℕ))
    (out : Frame × List ℕ)
    → (step >>= k) ≡ ok out
    → (read : List ℕ × List ℕ) × (step ≡ ok read) × (k read ≡ ok out)
first_step (err failure) k out h = cc
first_step (ok read) k out h = (read, refl, h)

read_full_ok :
    (n : ℕ) (bs xs ys : List ℕ) → read_full n bs ≡ ok (xs, ys) → (bs ≡ xs ++ ys) × (length xs ≡ n)
unfolding read_full
read_full_ok n bs xs ys h = ground (arith, take-append-drop n bs, length-take n bs)

read_payload_ok :
    (n : ℕ) (bs xs ys : List ℕ)
    → read_payload n bs ≡ ok (xs, ys)
    → (bs ≡ xs ++ ys) × (length xs ≡ n)
unfolding read_payload
read_payload_ok n bs xs ys h = ground (arith, read_full_ok n bs xs ys)

read_body_ok :
    (hdr : Header) (bs : List ℕ) (f : Frame) (rest : List ℕ)
    → read_body hdr bs ≡ ok (f, rest)
    → (bs ≡ f.payload ++ rest)
      × (length f.payload ≡ hdr.declared)
      × (f.type ≡ hdr.kind)
      × (f.stream_id ≡ hdr.stream)
      × (validate f ≡ none)
unfolding read_body
read_body_ok hdr bs f rest h = ground (arith, read_payload_ok hdr.declared bs f.payload rest)

-- Nine bytes are the header that they parse to.
nine_bytes :
    (xs : List ℕ)
    → length xs ≡ frame_header_size
    → All IsByte xs
    → let hdr = parse_header xs in
      (xs ≡ put_uint32 hdr.declared ++ hdr.kind ∷ put_uint32 hdr.stream) × IsUint32 hdr.stream
unfolding parse_header
nine_bytes (a ∷ b ∷ c ∷ d ∷ t ∷ e ∷ f ∷ g ∷ h ∷ []) n q =
    (ground (arith, put_uint32-uint32_of a b c d, put_uint32-uint32_of e f g h), omega arith)
nine_bytes (a ∷ b ∷ c ∷ d ∷ t ∷ e ∷ f ∷ g ∷ h ∷ i ∷ l) n q = absurd (omega arith)
nine_bytes [] n q = absurd (omega arith)
nine_bytes (a ∷ []) n q = absurd (omega arith)
nine_bytes (a ∷ b ∷ []) n q = absurd (omega arith)
nine_bytes (a ∷ b ∷ c ∷ []) n q = absurd (omega arith)
nine_bytes (a ∷ b ∷ c ∷ d ∷ []) n q = absurd (omega arith)
nine_bytes (a ∷ b ∷ c ∷ d ∷ t ∷ []) n q = absurd (omega arith)
nine_bytes (a ∷ b ∷ c ∷ d ∷ t ∷ e ∷ []) n q = absurd (omega arith)
nine_bytes (a ∷ b ∷ c ∷ d ∷ t ∷ e ∷ f ∷ []) n q = absurd (omega arith)
nine_bytes (a ∷ b ∷ c ∷ d ∷ t ∷ e ∷ f ∷ g ∷ []) n q = absurd (omega arith)

All-append_left : (xs ys : List ℕ) → All IsByte (xs ++ ys) → All IsByte xs
All-append_left [] ys h = tt
All-append_left (x ∷ xs) ys h = (h.0, All-append_left xs ys h.1)

header_bytes :
    (f : Frame) (hdr : Header)
    → length f.payload ≡ hdr.declared
    → f.type ≡ hdr.kind
    → f.stream_id ≡ hdr.stream
    → put_uint32 hdr.declared ++ hdr.kind ∷ put_uint32 hdr.stream ≡ header f
unfolding header
header_bytes f hdr len kind id = rw (len, kind, id)

-- On any bytes at all: whatever `ReadFrame` returns is a valid frame, and the bytes that it took
-- are exactly that frame's encoding.
pub read_frame-IsFrame :
    (bs : List ℕ) (f : Frame) (rest : List ℕ)
    → All IsByte bs
    → read_frame bs ≡ ok (f, rest)
    → IsFrame f × (bs ≡ encode f ++ rest)
unfolding read_frame encode
read_frame-IsFrame bs f rest bytes h =
    let ((xs, ys), e, b) = first_step (read_full frame_header_size bs) _ _ h in
    let (whole, nine) = read_full_ok frame_header_size bs xs ys e in
    let (tail, len, kind, id, valid) = read_body_ok (parse_header xs) ys f rest b in
    let (hdr, fits) = nine_bytes xs nine (All-append_left xs ys (subst (All IsByte) whole bytes)) in
    (
      record { valid = valid; id_fits = subst IsUint32 (sym id) fits },
      whole
          ∙ ap₂ ◌++◌ (hdr ∙ header_bytes f (parse_header xs) len kind id) tail
          ∙ sym (append_assoc (header f) f.payload rest),
    )
