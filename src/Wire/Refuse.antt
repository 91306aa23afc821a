-- ===== src/Wire/Refuse.antt =====
-- How `ReadFrame` refuses a stream that ends early, and a payload that is too long.
use valyrium.Base.{
  Bool-cases, List, ap, arith, drop, drop-append_le, if◌then◌else◌, inl, inr, leb, leb→le, length,
  length-append, refl, sym, take, take-append_le, ℕ, ◌++◌, ◌<◌, ◌==◌, ◌∙◌, ◌∷◌, ◌≡◌, ◌≤◌,
}
use valyrium.Wire.Bytes.{IsUint32, put_uint32, uint32_of-put_uint32}
use valyrium.Wire.{
  Frame, Header, declares_over_limit, eof, err, frame_header_size, header, max_payload_size, ok,
  parse_header, read_body, read_frame, read_full, read_payload, unexpected_eof,
}
use valyrium.Wire.Read.{IsFrame, encode, parse_header-header, validate_bound}

read_full_short :
    (n : ℕ) (bs : List ℕ)
    → length bs < n
    → read_full n bs ≡ err (if length bs == 0 then eof else unexpected_eof)
unfolding read_full
read_full_short n bs h = ground arith

read_payload_short : (n : ℕ) (bs : List ℕ) → length bs < n → read_payload n bs ≡ err unexpected_eof
unfolding read_payload
read_payload_short n bs h = ground (arith, read_full_short n bs)

read_full_long : (n : ℕ) (bs : List ℕ) → n ≤ length bs → read_full n bs ≡ ok (take n bs, drop n bs)
unfolding read_full
read_full_long n bs h = ground arith

read_body_short :
    (hdr : Header) (bs : List ℕ)
    → hdr.declared ≤ max_payload_size
    → length bs < hdr.declared
    → read_body hdr bs ≡ err unexpected_eof
unfolding read_body
read_body_short hdr bs fits h = ground (arith, read_payload_short hdr.declared bs)

-- The two halves of a frame of which at least the header has come in.
cut_in_payload :
    (f : Frame) (front : List ℕ) (x : ℕ) (back : List ℕ)
    → encode f ≡ front ++ (x ∷ back)
    → frame_header_size ≤ length front
    → (take frame_header_size front ≡ header f)
      × (length (drop frame_header_size front) < length f.payload)
unfolding encode
cut_in_payload f front x back e h = (
  sym (take-append_le 9 front (x ∷ back) h) ∙ ap (take 9) (sym e) ∙ unfold header in refl,
  omega (
    arith,
    ap length (the_payload ∙ ap (drop 9) e ∙ drop-append_le 9 front (x ∷ back) h),
    length-append (drop 9 front) (x ∷ back),
  ),
)
  where
    the_payload : f.payload ≡ drop 9 (header f ++ f.payload)
    the_payload = unfold header in refl

-- A stream that ends inside a valid frame: `io.EOF` between frames, and never inside one.
pub read_frame_truncated :
    (f : Frame) (front : List ℕ) (x : ℕ) (back : List ℕ)
    → IsFrame f
    → encode f ≡ front ++ (x ∷ back)
    → read_frame front ≡ err (if length front == 0 then eof else unexpected_eof)
unfolding read_frame
read_frame_truncated f front x back v e = elim (Bool-cases (leb frame_header_size (length front))) [
  | inl whole ↦
      let (hdr, short) = cut_in_payload f front x back e (leb→le _ _ whole) in
      ground (
        arith,
        read_full_long frame_header_size front,
        hdr,
        parse_header-header f v,
        validate_bound f v.valid,
        read_body_short (parse_header (header f)) (drop frame_header_size front),
      )
  | inr cut ↦ rw (read_full_short frame_header_size front (ground arith))
]

-- A declared length over the limit is refused on the header alone, whatever follows it.
pub read_frame_oversize :
    (declared kind stream : ℕ) (rest : List ℕ)
    → max_payload_size < declared
    → IsUint32 declared
    → read_frame (put_uint32 declared ++ kind ∷ put_uint32 stream ++ rest)
      ≡ err (declares_over_limit declared)
unfolding read_frame read_full read_body parse_header
read_frame_oversize declared kind stream rest big fits =
    ground (arith, uint32_of-put_uint32 declared fits)
