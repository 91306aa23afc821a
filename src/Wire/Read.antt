-- ===== src/Wire/Read.antt =====
-- What `ReadFrame` returns, on every stream of bytes.
use valyrium.Base.{
  List, [], ap, append_assoc, arith, drop, drop-append, length, length-append, none, refl, sym,
  take, take-append, ℕ, ◌++◌, ◌∷◌, ◌≡◌, ◌≤◌,
}
use valyrium.Wire.Bytes.{IsUint32, uint32_of-put_uint32}
use valyrium.Wire.{
  Frame, frame_header_size, header, max_payload_size, ok, parse_header, read_body, read_frame,
  read_full, read_payload, validate,
}

-- A frame that `validate` lets through, with a stream id that is a uint32.
pub record IsFrame (f : Frame) : Type 0 where
  pub valid : validate f ≡ none
  pub id_fits : IsUint32 f.stream_id

-- The bytes of a frame on the wire.
unfoldable pub encode : Frame → List ℕ
encode f = header f ++ f.payload

pub validate_bound : (f : Frame) → validate f ≡ none → length f.payload ≤ max_payload_size
unfolding validate
validate_bound f h = ground arith

-- `read_full` on a stream that begins with as many bytes as it wants.
pub read_full-append :
    (n : ℕ) (xs ys : List ℕ) → n ≡ length xs → read_full n (xs ++ ys) ≡ ok (xs, ys)
unfolding read_full
read_full-append n xs ys e = ground (
  arith,
  length-append xs ys,
  ap (λ (k : ℕ). take k (xs ++ ys)) e,
  take-append xs ys,
  ap (λ (k : ℕ). drop k (xs ++ ys)) e,
  drop-append xs ys,
)

pub read_payload-append : (xs ys : List ℕ) → read_payload (length xs) (xs ++ ys) ≡ ok (xs, ys)
unfolding read_payload
read_payload-append [] ys = refl
read_payload-append (x ∷ xs) ys =
    ground (arith, read_full-append (length (x ∷ xs)) (x ∷ xs) ys refl)

pub parse_header-header :
    (f : Frame)
    → IsFrame f
    → parse_header (header f)
      ≡ record { declared = length f.payload; kind = f.type; stream = f.stream_id }
unfolding parse_header header
parse_header-header f v = ground (
  arith,
  validate_bound f,
  uint32_of-put_uint32 (length f.payload),
  uint32_of-put_uint32 f.stream_id,
)

length-header : (f : Frame) → length (header f) ≡ frame_header_size
unfolding header
length-header f = refl

read_body-payload :
    (f : Frame) (rest : List ℕ)
    → IsFrame f
    → read_body
        (record { declared = length f.payload; kind = f.type; stream = f.stream_id })
        (f.payload ++ rest)
      ≡ ok (f, rest)
unfolding read_body
read_body-payload f rest v = ground (arith, validate_bound f, read_payload-append f.payload rest)

-- `ReadFrame` reads back a valid frame from its encoding, and leaves what follows it.
pub read_frame-encode :
    (f : Frame) (rest : List ℕ) → IsFrame f → read_frame (encode f ++ rest) ≡ ok (f, rest)
unfolding read_frame encode
read_frame-encode f rest v =
    rw
      (
        append_assoc,
        read_full-append frame_header_size (header f) (f.payload ++ rest) (sym (length-header f)),
        parse_header-header f v,
      )
      (read_body-payload f rest v)
